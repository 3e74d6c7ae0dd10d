-- ===== src/Balancing/Lpt.antt =====
-- The greedy distribution is within twice of any other.
use Prim.Native.Nat.{max}
use mathlib.Core.List.Permᴰ
use helios_net.Prelude.{
  ℕ, zero, suc, ◌+◌, ◌*◌, ◌≤◌, ◌≡◌, refl, sym, ap, subst, ◌∙◌, true, false, Option, none, some,
  List, [], ◌∷◌, map, Permᴰ, keep, leb, All, All-perm, arith,
}
use helios_net.Prelude.Sort.{sort_by, sort_by-perm}
use helios_net.Balancing.{
  LoadResult, max_load, load_at, repeat, enumerate, place, is_bucket, heaviest_first, has_no_worker,
  lpt_result, lpt,
}
use helios_net.Balancing.Spread.{spread, IsAssignment}
use helios_net.Balancing.Brute.{length-repeat}
use helios_net.Balancing.Loads.{
  total, suc_times, total-le, max_load-All, total-perm, total-spread, total-repeat,
}
use helios_net.Balancing.Placed.{
  bucket_load, IsPlaced, IsJob, place-IsPlaced, max_load-bound, enumerate-All,
}

enumerate-weights : (i : ℕ) (weights : List ℕ) → map (λ job. job.1) (enumerate i weights) ≡ weights
enumerate-weights i [] = refl
enumerate-weights i (x ∷ weights) = ap (λ l. x ∷ l) (enumerate-weights (suc i) weights)

empty-IsPlaced :
    (weights : List ℕ) (n h : ℕ) → IsPlaced weights n h (repeat (suc n) []) (repeat (suc n) 0)
empty-IsPlaced weights n h = (length-repeat (suc n) 0, same (suc n), none (suc n))
  where
    same : (k : ℕ) → map (bucket_load weights) (repeat k []) ≡ repeat k 0
    same zero = refl
    same (suc k) = ap (λ l. 0 ∷ l) (same k)

    none : (k : ℕ) → All (λ l. suc n * l ≤ total (repeat (suc n) 0) + n * h) (repeat k 0)
    none zero = tt
    none (suc k) = (omega arith, none k)

within :
    (n mk best t u s : ℕ)
    → suc n * mk ≤ t + n * best
    → t ≡ u
    → s ≡ u
    → s ≤ suc n * best
    → suc n * mk + best ≤ 2 * (suc n * best)
within n mk best t u s a b c d = omega (arith, a, b, c, d, suc_times n best)

max_load-keep :
    (weights : List ℕ) (buckets : List (List ℕ))
    → max_load (map (bucket_load weights) (keep is_bucket buckets))
      ≡ max_load (map (bucket_load weights) buckets)
max_load-keep weights [] = refl
max_load-keep weights ([] ∷ buckets) = omega (arith, max_load-keep weights buckets)
max_load-keep weights ((i ∷ b) ∷ buckets) =
    ap (max (bucket_load weights (i ∷ b))) (max_load-keep weights buckets)

-- The makespan is the largest load of a bucket, and at most `2 - 1/workers` times that of any
-- assignment; or there are jobs and no worker.
abbrev pub IsGreedy : List ℕ → ℕ → Option LoadResult → Type 0
IsGreedy weights workers none = has_no_worker weights workers ≡ true
IsGreedy weights workers (some r) =
    (r.makespan ≡ max_load (map (bucket_load weights) r.buckets))
    × ((ws : List ℕ)
        → IsAssignment workers weights ws
        → let best = max_load (spread (repeat workers 0) weights ws) in
          workers * r.makespan + best ≤ 2 * (workers * best))

-- The makespan of the greedy distribution is the largest load of its buckets, and at most
-- `2 - 1/workers` times that of any assignment of the jobs; with jobs and no worker it raises.
pub lpt-IsGreedy : (weights : List ℕ) (workers : ℕ) → IsGreedy weights workers (lpt weights workers)
unfolding lpt
lpt-IsGreedy [] zero = unfold heaviest_first sort_by place in (refl, λ ws a. no_load ws)
  where
    no_load :
        (ws : List ℕ) → 0 * 0 + max_load (spread [] [] ws) ≤ 2 * (0 * max_load (spread [] [] ws))
    no_load ws = omega arith
lpt-IsGreedy (x ∷ weights) zero = refl
lpt-IsGreedy weights (suc n) = rw (has_worker weights) (
    result (place (heaviest_first weights) (repeat (suc n) []) (repeat (suc n) 0)) (λ h a.
      place-IsPlaced weights n h (heaviest_first weights) (repeat (suc n) []) (repeat (suc n) 0)
        (All-perm (IsJob weights n h) (Permᴰ.symm order)
          (enumerate-All weights n h 0 weights from_zero a))
        (empty-IsPlaced weights n h)))
  where
    has_worker : (ws : List ℕ) → has_no_worker ws (suc n) ≡ false
    has_worker [] = refl
    has_worker (y ∷ ws) = refl

    order : Permᴰ (heaviest_first weights) (enumerate 0 weights)
    order = unfold heaviest_first in sort_by-perm (λ a b. leb b.1 a.1) (enumerate 0 weights)

    total-order : total (map (λ job. job.1) (heaviest_first weights)) ≡ total weights
    total-order =
        total-perm (Permᴰ.map (λ job. job.1) order) ∙ ap total (enumerate-weights 0 weights)

    from_zero : (k : ℕ) → load_at (0 + k) weights ≡ load_at k weights
    from_zero k = ap (λ j. load_at j weights) (plain k)
      where
        plain : (j : ℕ) → 0 + j ≡ j
        plain j = omega arith

    result :
        (r : List (List ℕ) × List ℕ)
        → ((h : ℕ)
            → All (λ x. x ≤ h) weights
            → IsPlaced weights n h r.0 r.1
              × (total r.1
                  ≡ total (repeat (suc n) 0) + total (map (λ job. job.1) (heaviest_first weights))))
        → IsGreedy weights (suc n) (some (lpt_result r))
    result r placed = (
      ap max_load (
            sym
              (placed (max_load weights)
                (max_load-All (max_load weights) weights (omega arith))).0.1)
          ∙ sym (max_load-keep weights r.0),
      λ ws a.
          let (t, l, le) =
            total-spread (suc n) (repeat (suc n) 0) weights ws (length-repeat (suc n) 0) a in
          let best = max_load (spread (repeat (suc n) 0) weights ws) in
          let (p, q) = placed best le in
          within n (max_load r.1) best (total r.1) (total weights)
            (total (spread (repeat (suc n) 0) weights ws))
            (max_load-bound weights n best (total r.1 + n * best) r.1 p.2)
            (omega (arith, q, total-order, total-repeat (suc n)))
            (omega (arith, t, total-repeat (suc n)))
            (subst (λ k. total (spread (repeat (suc n) 0) weights ws) ≤ k * best) l
              (total-le best (spread (repeat (suc n) 0) weights ws)
                (max_load-All best (spread (repeat (suc n) 0) weights ws) (omega arith)))),
    )
