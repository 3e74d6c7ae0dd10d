-- ===== src/Balancing/Spread.antt =====
-- What an assignment of jobs to workers makes of the loads, and that workers with the same load can
-- stand for each other.
use mathlib.Core.List.Permᴰ
use helios_net.Prelude.{
  ℕ, zero, suc, ◌+◌, ◌≤◌, ◌<◌, ◌≡◌, refl, sym, ap, ◌∙◌, List, [], ◌∷◌, Permᴰ, length, arith,
}
use helios_net.Balancing.{max_load, load_at, add_load, push_job}

-- The loads, and the buckets, behind the assignment of the next jobs to the workers named
abbrev pub spread : List ℕ → List ℕ → List ℕ → List ℕ
spread loads (x ∷ weights) (w ∷ ws) = spread (add_load w x loads) weights ws
spread loads _ _ = loads

abbrev pub distribute : ℕ → List (List ℕ) → List ℕ → List (List ℕ)
distribute i buckets [] = buckets
distribute i buckets (w ∷ ws) = distribute (suc i) (push_job w i buckets) ws

-- One of the workers for each weight
abbrev pub IsAssignment : ℕ → List ℕ → List ℕ → Type 0
IsAssignment workers [] [] = Unit
IsAssignment workers (x ∷ weights) (w ∷ ws) = (w < workers) × IsAssignment workers weights ws
IsAssignment workers _ _ = ⊥

pub length-add_load : (w x : ℕ) (loads : List ℕ) → length (add_load w x loads) ≡ length loads
length-add_load w x [] = refl
length-add_load zero x (l ∷ loads) = refl
length-add_load (suc w) x (l ∷ loads) = ap suc (length-add_load w x loads)

pub max_load-add_load : (w x : ℕ) (loads : List ℕ) → max_load loads ≤ max_load (add_load w x loads)
max_load-add_load w x [] = omega arith
max_load-add_load zero x (l ∷ loads) = omega arith
max_load-add_load (suc w) x (l ∷ loads) = omega (arith, max_load-add_load w x loads)

pub max_load-spread :
    (loads weights ws : List ℕ) → max_load loads ≤ max_load (spread loads weights ws)
max_load-spread loads [] ws = omega arith
max_load-spread loads (x ∷ weights) [] = omega arith
max_load-spread loads (x ∷ weights) (w ∷ ws) =
    omega (arith, max_load-add_load w x loads, max_load-spread (add_load w x loads) weights ws)

pub max_load-perm : {xs ys : List ℕ} → Permᴰ xs ys → max_load xs ≡ max_load ys
max_load-perm Permᴰ.nil = refl
max_load-perm (Permᴰ.cons e p) = omega (arith, e, max_load-perm p)
max_load-perm (Permᴰ.swap e f) = omega (arith, e, f)
max_load-perm (Permᴰ.trans p q) = max_load-perm p ∙ max_load-perm q

below_zero : (w : ℕ) → ¬ (w < 0)
below_zero w h = omega arith

-- Loads in another order take a weight at another place.
add_load-perm :
    (x : ℕ) {xs ys : List ℕ}
    → Permᴰ xs ys
    → (w : ℕ) → w < length xs
    → (v : ℕ) × (v < length ys) × Permᴰ (add_load w x xs) (add_load v x ys)
add_load-perm x Permᴰ.nil w h = absurd (below_zero w h)
add_load-perm x (Permᴰ.cons e p) zero h = (0, omega arith, Permᴰ.cons (ap (λ l. l + x) e) p)
add_load-perm x (Permᴰ.cons e p) (suc w) h =
    let (v, v<, q) = add_load-perm x p w (omega arith) in (suc v, omega arith, Permᴰ.cons e q)
add_load-perm x (Permᴰ.swap e f) zero h = (1, omega arith, Permᴰ.swap (ap (λ l. l + x) e) f)
add_load-perm x (Permᴰ.swap e f) (suc zero) h = (0, omega arith, Permᴰ.swap e (ap (λ l. l + x) f))
add_load-perm x (Permᴰ.swap e f) (suc (suc w)) h = (suc (suc w), omega arith, Permᴰ.swap e f)
add_load-perm x (Permᴰ.trans p q) w h =
    let (v, v<, p') = add_load-perm x p w h in
    let (u, u<, q') = add_load-perm x q v v< in (u, u<, Permᴰ.trans p' q')

pub spread-perm :
    (workers : ℕ) (weights ws xs ys : List ℕ)
    → Permᴰ xs ys
    → length xs ≡ workers
    → length ys ≡ workers
    → IsAssignment workers weights ws
    → (vs : List ℕ) × IsAssignment workers weights vs
      × Permᴰ (spread xs weights ws) (spread ys weights vs)
spread-perm workers [] [] xs ys p e f a = ([], tt, p)
spread-perm workers [] (w ∷ ws) xs ys p e f a = absurd a
spread-perm workers (x ∷ weights) [] xs ys p e f a = absurd a
spread-perm workers (x ∷ weights) (w ∷ ws) xs ys p e f a =
    let (v, v<, q) = add_load-perm x p w (omega (arith, e, a.0)) in
    let (vs, b, r) =
      spread-perm workers weights ws (add_load w x xs) (add_load v x ys) q
        (length-add_load w x xs ∙ e) (length-add_load v x ys ∙ f) a.1 in
    (v ∷ vs, (omega (arith, v<, f), b), r)

-- A weight on one of two workers with the same load
front_load :
    (x : ℕ) (loads : List ℕ) (w : ℕ)
    → w < length loads
    → Permᴰ ((load_at w loads + x) ∷ loads) (load_at w loads ∷ add_load w x loads)
front_load x [] w h = absurd (below_zero w h)
front_load x (l ∷ loads) zero h = Permᴰ.swap refl refl
front_load x (l ∷ loads) (suc w) h =
    Permᴰ.trans (Permᴰ.swap refl refl)
      (Permᴰ.trans (Permᴰ.cons refl (front_load x loads w (omega arith))) (Permᴰ.swap refl refl))

pub add_load-same :
    (x : ℕ) (loads : List ℕ) (v w : ℕ)
    → v < length loads
    → w < length loads
    → load_at v loads ≡ load_at w loads
    → Permᴰ (add_load v x loads) (add_load w x loads)
add_load-same x [] v w h k e = absurd (below_zero v h)
add_load-same x (l ∷ loads) zero zero h k e = Permᴰ.refl _
add_load-same x (l ∷ loads) zero (suc w) h k e =
    Permᴰ.trans (Permᴰ.cons (ap (λ m. m + x) e) (Permᴰ.refl loads))
      (Permᴰ.trans (front_load x loads w (omega arith)) (Permᴰ.cons (sym e) (Permᴰ.refl _)))
add_load-same x (l ∷ loads) (suc v) zero h k e = Permᴰ.trans (Permᴰ.cons (sym e) (Permᴰ.refl _)) (
    Permᴰ.trans (Permᴰ.symm (front_load x loads v (omega arith)))
      (Permᴰ.cons (ap (λ m. m + x) e) (Permᴰ.refl loads)))
add_load-same x (l ∷ loads) (suc v) (suc w) h k e =
    Permᴰ.cons refl (add_load-same x loads v w (omega arith) (omega arith) e)
