-- ===== src/Balancing/Brute.antt =====
-- The depth-first search returns an assignment that no other one betters.
use helios_net.Prelude.{
  ℕ, zero, suc, ◌+◌, ◌≤◌, ◌<◌, ◌≡◌, refl, sym, ap, subst, inl, inr, true, false, ◌==◌, ==_iff,
  Option, none, some, List, [], ◌∷◌, length, In, All, Bool-cases, arith,
}
use helios_net.Balancing.{
  LoadResult, max_load, add_load, repeat, range_from, has_no_worker, Best, beats, dfs, or_lpt,
  brute,
}
use helios_net.Balancing.Spread.{spread, distribute, IsAssignment, max_load-spread}
use helios_net.Balancing.Search.{
  IsAsGood, AtMost-le, AtMost-not_beats, IsAsGood-beats, IsBelow, Searched, IsFound,
  try_workers-Searched,
}

range_from-lt :
    (start n workers : ℕ) → start + n ≤ workers → All (λ w. w < workers) (range_from start n)
range_from-lt start zero workers h = tt
range_from-lt start (suc n) workers h =
    (omega (arith, h), range_from-lt (suc start) n workers (omega (arith, h)))

In-range_from : (start n w : ℕ) → start ≤ w → w < start + n → In w (range_from start n)
In-range_from start zero w h k = absurd (clash h k)
  where
    clash : start ≤ w → ¬ (w < start + 0)
    clash p q = omega (arith, p, q)
In-range_from start (suc n) w h k = elim (Bool-cases (w == start)) [
  | inl e ↦ inl ((==_iff w start).0 e)
  | inr e ↦ inr (In-range_from (suc start) n w (ground (arith, e, h)) (omega (arith, k)))
]

module _ (workers : ℕ) where
  dfs-Searched :
      (weights : List ℕ) (i : ℕ) (buckets : List (List ℕ)) (loads : List ℕ) (best : Best)
      → length loads ≡ workers
      → Searched workers i weights buckets loads best (dfs workers i weights buckets loads best)
  unfolding dfs
  dfs-Searched [] i buckets loads best wide = elim (Bool-cases (beats (max_load loads) best)) [
    | inl e ↦
        rw e (IsAsGood-beats best buckets (max_load loads) e, λ ws a. leaf ws, inr ([], tt, refl))
    | inr e ↦ rw e (
      λ m a. a,
      λ ws a.
          AtMost-le best _ _ (max_load-spread loads [] ws)
            (AtMost-not_beats best (max_load loads) e),
      inl refl,
    )
  ]
    where
      leaf : (ws : List ℕ) → max_load loads ≤ max_load (spread loads [] ws)
      leaf ws = max_load-spread loads [] ws
  dfs-Searched (x ∷ weights) i buckets loads best wide =
      elim (Bool-cases (beats (max_load loads) best)) [
        | inl e ↦ rw e (
            tried (
              try_workers-Searched workers (dfs workers (suc i) weights) i x weights
                (λ b l o h. dfs-Searched weights (suc i) b l o h) buckets loads wide
                (range_from 0 workers) [] best (range_from-lt 0 workers workers (omega arith))
                (λ l j. absurd j)))
        | inr e ↦ rw e (
          λ m a. a,
          λ ws a.
              AtMost-le best _ _ (max_load-spread loads (x ∷ weights) ws)
                (AtMost-not_beats best (max_load loads) e),
          inl refl,
        )
      ]
    where
      tried :
          {found : Best}
          → (IsAsGood best found
              × ((w : ℕ)
                  → In w (range_from 0 workers)
                  → IsBelow workers weights (add_load w x loads) found)
              × IsFound workers i (x ∷ weights) buckets loads best found)
          → Searched workers i (x ∷ weights) buckets loads best found
      tried {found} (g, b, f) = (g, below, f)
        where
          below : IsBelow workers (x ∷ weights) loads found
          below [] a = absurd a
          below (w ∷ ws) a =
              b w (In-range_from 0 workers w (omega arith) (omega (arith, a.0))) ws a.1

-- Each job has a worker, the buckets and the longest load are those of this assignment, and no
-- assignment has a longest load below it; or there are jobs and no worker.
abbrev pub IsOptimal : List ℕ → ℕ → Option LoadResult → Type 0
IsOptimal weights workers none = has_no_worker weights workers ≡ true
IsOptimal weights workers (some r) =
    ((ws : List ℕ) × IsAssignment workers weights ws
      × (r.buckets ≡ distribute 0 (repeat workers []) ws)
      × (r.makespan ≡ max_load (spread (repeat workers 0) weights ws)))
    × ((ws : List ℕ)
        → IsAssignment workers weights ws
        → r.makespan ≤ max_load (spread (repeat workers 0) weights ws))

pub length-repeat : {A : Type 0} (n : ℕ) (a : A) → length (repeat n a) ≡ n
length-repeat zero a = refl
length-repeat (suc n) a = ap suc (length-repeat n a)

some-IsAssignment :
    (weights : List ℕ) (workers : ℕ)
    → has_no_worker weights workers ≡ false
    → (ws : List ℕ) × IsAssignment workers weights ws
some-IsAssignment [] workers h = ([], tt)
some-IsAssignment (x ∷ weights) zero h = ground arith
some-IsAssignment (x ∷ weights) (suc n) h = all_zero (x ∷ weights)
  where
    all_zero : (xs : List ℕ) → (ws : List ℕ) × IsAssignment (suc n) xs ws
    all_zero [] = ([], tt)
    all_zero (y ∷ xs) = let (ws, a) = all_zero xs in (0 ∷ ws, (omega arith, a))

-- The search gives each job to a worker, and returns the buckets and the makespan of this assignment,
-- and no assignment has a smaller makespan; with jobs and no worker it raises.
pub brute-IsOptimal :
    (weights : List ℕ) (workers : ℕ) → IsOptimal weights workers (brute weights workers)
unfolding brute
brute-IsOptimal weights workers = elim (Bool-cases (has_no_worker weights workers)) [
  | inl e ↦ rw e e
  | inr e ↦ rw e (
      result (dfs workers 0 weights (repeat workers []) (repeat workers 0) none)
        (some-IsAssignment weights workers e)
        (dfs-Searched workers weights 0 (repeat workers []) (repeat workers 0) none
          (length-repeat workers 0)))
]
  where
    result :
        (best : Best)
        → ((ws : List ℕ) × IsAssignment workers weights ws)
        → Searched workers 0 weights (repeat workers []) (repeat workers 0) none best
        → IsOptimal weights workers (or_lpt weights workers best)
    result none (ws, a) (g, b, f) = absurd (b ws a)
    result (some r) (ws, a) (g, b, inl e) = absurd (clash e)
      where
        clash : ¬ (some r ≡ none)
        clash h = ground arith
    result (some r) (ws, a) (g, b, inr (us, c, e)) = (subst Is_of (sym e) (us, c, refl, refl), b)
      where
        Is_of : Best → Type 0
        Is_of none = ⊥
        Is_of (some q) =
            (vs : List ℕ) × IsAssignment workers weights vs
            × (q.buckets ≡ distribute 0 (repeat workers []) vs)
            × (q.makespan ≡ max_load (spread (repeat workers 0) weights vs))
