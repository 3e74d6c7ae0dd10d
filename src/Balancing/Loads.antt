-- ===== src/Balancing/Loads.antt =====
-- The sum of the loads, and the least of them.

use native.Mathlib.Nat.{suc-mul}
use helios_net.Prelude.{
  ℕ, zero, suc, ◌+◌, ◌*◌, ◌≤◌, ◌<◌, ◌≡◌, refl, ◌∙◌, Bool, true, false, List, [], ◌∷◌, Permᴰ, length,
  leb, All, if◌then◌else◌, arith,
}
use helios_net.Balancing.{max_load, load_at, add_load, repeat, least_loaded}
use helios_net.Balancing.Spread.{spread, IsAssignment, length-add_load, max_load-spread}

abbrev pub total : List ℕ → ℕ
total [] = 0
total (x ∷ xs) = x + total xs

pub suc_times : (n m : ℕ) → suc n * m ≡ m + n * m
suc_times n m = omega (arith, suc-mul n m)

pub total-le : (m : ℕ) (loads : List ℕ) → All (λ l. l ≤ m) loads → total loads ≤ length loads * m
total-le m [] h = omega arith
total-le m (l ∷ loads) h = omega (arith, h.0, total-le m loads h.1, suc_times (length loads) m)

pub le-total : (m : ℕ) (loads : List ℕ) → All (λ l. m ≤ l) loads → length loads * m ≤ total loads
le-total m [] h = omega arith
le-total m (l ∷ loads) h = omega (arith, h.0, le-total m loads h.1, suc_times (length loads) m)

All-le : (m n : ℕ) (loads : List ℕ) → m ≤ n → All (λ l. n ≤ l) loads → All (λ l. m ≤ l) loads
All-le m n [] h a = tt
All-le m n (l ∷ loads) h a = (omega (arith, h, a.0), All-le m n loads h a.1)

pub least_loaded-least :
    (l : ℕ) (loads : List ℕ)
    → All (λ m. load_at (least_loaded (l ∷ loads)) (l ∷ loads) ≤ m) (l ∷ loads)
unfolding least_loaded
least_loaded-least l [] = (omega arith, tt)
least_loaded-least l (m ∷ loads) =
    go (leb l (load_at (least_loaded (m ∷ loads)) (m ∷ loads))) refl (least_loaded-least m loads)
  where
    go :
        (first : Bool)
        → leb l (load_at (least_loaded (m ∷ loads)) (m ∷ loads)) ≡ first
        → All (λ x. load_at (least_loaded (m ∷ loads)) (m ∷ loads) ≤ x) (m ∷ loads)
        → All
            (λ x. load_at (if first then 0 else suc (least_loaded (m ∷ loads))) (l ∷ m ∷ loads) ≤ x)
            (l ∷ m ∷ loads)
    go true e h = (
      omega arith,
      All-le l (load_at (least_loaded (m ∷ loads)) (m ∷ loads)) (m ∷ loads) (ground (arith, e)) h,
    )
    go false e h = (ground (arith, e), h)

pub total-add_load :
    (w x : ℕ) (loads : List ℕ) → w < length loads → total (add_load w x loads) ≡ total loads + x
total-add_load w x [] h = omega (arith, h)
total-add_load zero x (l ∷ loads) h = omega arith
total-add_load (suc w) x (l ∷ loads) h = omega (arith, total-add_load w x loads (omega (arith, h)))

pub max_load-All : (m : ℕ) (loads : List ℕ) → max_load loads ≤ m → All (λ l. l ≤ m) loads
max_load-All m [] h = tt
max_load-All m (l ∷ loads) h = (omega (arith, h), max_load-All m loads (omega (arith, h)))

pub total-perm : {xs ys : List ℕ} → Permᴰ xs ys → total xs ≡ total ys
total-perm Permᴰ.nil = refl
total-perm (Permᴰ.cons e p) = omega (arith, e, total-perm p)
total-perm (Permᴰ.swap e f) = omega (arith, e, f)
total-perm (Permᴰ.trans p q) = total-perm p ∙ total-perm q

pub total-spread :
    (workers : ℕ) (loads weights ws : List ℕ)
    → length loads ≡ workers
    → IsAssignment workers weights ws
    → (total (spread loads weights ws) ≡ total loads + total weights)
      × (length (spread loads weights ws) ≡ workers)
      × All (λ x. x ≤ max_load (spread loads weights ws)) weights
total-spread workers loads [] [] e a = (omega arith, e, tt)
total-spread workers loads [] (w ∷ ws) e a = absurd a
total-spread workers loads (x ∷ weights) [] e a = absurd a
total-spread workers loads (x ∷ weights) (w ∷ ws) e a =
    let (t, l, m) =
      total-spread workers (add_load w x loads) weights ws (length-add_load w x loads ∙ e) a.1 in
    (
      omega (arith, t, total-add_load w x loads (omega (arith, a.0, e))),
      l,
      (
        omega (
          arith,
          max_load-spread (add_load w x loads) weights ws,
          added w x loads (omega (arith, a.0, e)),
        ),
        m,
      ),
    )
  where
    added : (v y : ℕ) (ls : List ℕ) → v < length ls → y ≤ max_load (add_load v y ls)
    added v y [] h = omega (arith, h)
    added zero y (k ∷ ls) h = omega arith
    added (suc v) y (k ∷ ls) h = omega (arith, added v y ls (omega (arith, h)))

pub total-repeat : (n : ℕ) → total (repeat n 0) ≡ 0
total-repeat zero = refl
total-repeat (suc n) = omega (arith, total-repeat n)
