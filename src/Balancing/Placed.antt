-- ===== src/Balancing/Placed.antt =====
-- What placing the jobs one by one on the least loaded worker keeps.
use Prim.Native.Nat.{max}
use native.Mathlib.Nat.{mul-add, mul-le-mul_left}
use helios_net.Prelude.{
  ℕ, zero, suc, ◌+◌, ◌*◌, ◌≤◌, ◌≡◌, refl, ap, subst, ◌∙◌, inl, inr, false, List, [], ◌∷◌, ◌++◌, map,
  length, leb, Bool-cases, All, leb→le, arith,
}
use helios_net.Balancing.{max_load, load_at, add_load, push_job, enumerate, least_loaded, place}
use helios_net.Balancing.Spread.{length-add_load}
use helios_net.Balancing.Partition.{least_loaded-lt}
use helios_net.Balancing.Loads.{total, suc_times, le-total, least_loaded-least, total-add_load}

-- The load of a bucket, by the indices that it holds
abbrev pub bucket_load : List ℕ → List ℕ → ℕ
bucket_load weights [] = 0
bucket_load weights (i ∷ b) = load_at i weights + bucket_load weights b

-- What the loop keeps: `bound` is as in the bound of Graham, `t` the weight that is placed.
module _ (weights : List ℕ) (n h : ℕ) where
  abbrev pub IsPlaced : List (List ℕ) → List ℕ → Type 0
  IsPlaced buckets loads =
      (length loads ≡ suc n)
      × (map (bucket_load weights) buckets ≡ loads)
      × All (λ l. suc n * l ≤ total loads + n * h) loads

  bucket_load-snoc :
      (b : List ℕ) (i : ℕ)
      → bucket_load weights (b ++ i ∷ []) ≡ bucket_load weights b + load_at i weights
  bucket_load-snoc [] i = omega arith
  bucket_load-snoc (j ∷ b) i = omega (arith, bucket_load-snoc b i)

  push_job-loads :
      (w i : ℕ) (buckets : List (List ℕ))
      → map (bucket_load weights) (push_job w i buckets)
        ≡ add_load w (load_at i weights) (map (bucket_load weights) buckets)
  push_job-loads w i [] = refl
  push_job-loads zero i (b ∷ buckets) =
      ap (λ l. l ∷ map (bucket_load weights) buckets) (bucket_load-snoc b i)
  push_job-loads (suc w) i (b ∷ buckets) =
      ap (λ l. bucket_load weights b ∷ l) (push_job-loads w i buckets)

  -- A weight on one worker leaves all below the bound, if it does so for this worker.
  add_load-bound :
      (w x t : ℕ) (loads : List ℕ)
      → suc n * (load_at w loads + x) ≤ t
      → All (λ l. suc n * l ≤ t) loads
      → All (λ l. suc n * l ≤ t) (add_load w x loads)
  add_load-bound w x t [] k a = tt
  add_load-bound zero x t (l ∷ loads) k a = (k, a.1)
  add_load-bound (suc w) x t (l ∷ loads) k a = (a.0, add_load-bound w x t loads k a.1)

  All-weaken :
      (s t : ℕ) (loads : List ℕ)
      → s ≤ t
      → All (λ l. suc n * l ≤ s) loads
      → All (λ l. suc n * l ≤ t) loads
  All-weaken s t [] k a = tt
  All-weaken s t (l ∷ loads) k a = (le_trans (suc n * l) s t a.0 k, All-weaken s t loads k a.1)
    where
      le_trans : (a b c : ℕ) → a ≤ b → b ≤ c → a ≤ c
      le_trans a b c p q = omega (arith, p, q)

  add_load-IsPlaced :
      (idx x l : ℕ) (buckets : List (List ℕ)) (loads : List ℕ)
      → load_at idx weights ≡ x
      → x ≤ h
      → IsPlaced buckets (l ∷ loads)
      → IsPlaced
          (push_job (least_loaded (l ∷ loads)) idx buckets)
          (add_load (least_loaded (l ∷ loads)) x (l ∷ loads))
  add_load-IsPlaced idx x l buckets loads e x≤h (size, same, bound) =
      let i = least_loaded (l ∷ loads) in
      let grown = total-add_load i x (l ∷ loads) (least_loaded-lt l loads) in
      (
        length-add_load i x (l ∷ loads) ∙ size,
        push_job-loads i idx buckets ∙ rw (e, same) refl,
        add_load-bound i x (total (add_load i x (l ∷ loads)) + n * h) (l ∷ loads)
            (fits (load_at i (l ∷ loads)) (total (l ∷ loads)) (total (add_load i x (l ∷ loads)))
              (subst (λ k. k * load_at i (l ∷ loads) ≤ total (l ∷ loads)) size
                (le-total (load_at i (l ∷ loads)) (l ∷ loads) (least_loaded-least l loads)))
              grown)
            (All-weaken (total (l ∷ loads) + n * h) (total (add_load i x (l ∷ loads)) + n * h)
              (l ∷ loads) (omega (arith, grown)) bound),
      )
    where
      fits : (m t t' : ℕ) → suc n * m ≤ t → t' ≡ t + x → suc n * (m + x) ≤ t' + n * h
      fits m t t' p q =
          omega (arith, p, q, x≤h, mul-add (suc n) m x, suc_times n x, mul-le-mul_left n x≤h)

  abbrev pub IsJob : ℕ × ℕ → Type 0
  IsJob job = (load_at job.0 weights ≡ job.1) × (job.1 ≤ h)

  pub place-IsPlaced :
      (indexed : List (ℕ × ℕ)) (buckets : List (List ℕ)) (loads : List ℕ)
      → All IsJob indexed
      → IsPlaced buckets loads
      → let (placed, final) = place indexed buckets loads in
        IsPlaced placed final × (total final ≡ total loads + total (map (λ job. job.1) indexed))
  unfolding place
  place-IsPlaced [] buckets loads jobs p = (p, omega arith)
  place-IsPlaced ((idx, x) ∷ indexed) buckets [] jobs p = absurd (clash p.0)
    where
      clash : ¬ (0 ≡ suc n)
      clash e = omega (arith, e)
  place-IsPlaced ((idx, x) ∷ indexed) buckets (l ∷ loads) jobs p =
      let i = least_loaded (l ∷ loads) in
      let (q, t) =
        place-IsPlaced indexed (push_job i idx buckets) (add_load i x (l ∷ loads)) jobs.1
          (add_load-IsPlaced idx x l buckets loads jobs.0.0 jobs.0.1 p) in
      (q, omega (arith, t, total-add_load i x (l ∷ loads) (least_loaded-lt l loads)))

  pub max_load-bound :
      (t : ℕ) (loads : List ℕ) → All (λ l. suc n * l ≤ t) loads → suc n * max_load loads ≤ t
  max_load-bound t [] a = none_le n t
    where
      none_le : (k s : ℕ) → suc k * 0 ≤ s
      none_le k s = omega arith
  max_load-bound t (l ∷ loads) a = elim (Bool-cases (leb l (max_load loads))) [
    | inl e ↦
        subst (λ m. suc n * m ≤ t) (omega (arith, leb→le l (max_load loads) e))
          (max_load-bound t loads a.1)
    | inr e ↦ subst (λ m. suc n * m ≤ t) (above l (max_load loads) e) a.0
  ]
    where
      above : (a b : ℕ) → leb a b ≡ false → a ≡ max a b
      above a b e = ground (arith, e)

  pub enumerate-All :
      (i : ℕ) (ws : List ℕ)
      → ((k : ℕ) → load_at (i + k) weights ≡ load_at k ws)
      → All (λ x. x ≤ h) ws
      → All IsJob (enumerate i ws)
  enumerate-All i [] e a = tt
  enumerate-All i (x ∷ ws) e a = (
    (ap (λ j. load_at j weights) (plus_zero i) ∙ e 0, a.0),
    enumerate-All (suc i) ws (λ k. ap (λ j. load_at j weights) (plus_suc i k) ∙ e (suc k)) a.1,
  )
    where
      plus_zero : (j : ℕ) → j ≡ j + 0
      plus_zero j = omega arith

      plus_suc : (j k : ℕ) → suc j + k ≡ j + suc k
      plus_suc j k = omega arith
