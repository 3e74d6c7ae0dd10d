-- ===== src/Planner/Schedule/Rounds.antt =====
-- The rounds of `schedule`: what one wave takes, and that the rounds end.
use mathlib.Core.List.Permᴰ
use helios_net.Prelude.{
  ℕ, ◌≤◌, ◌<◌, ◌≡◌, refl, ◌⊎◌, inl, inr, not, List, [], ◌∷◌, ◌++◌, Permᴰ, keep, keep-append-perm,
  take, drop, length, take-append-drop, length-perm, length-take, Bool-cases, arith, append_assoc,
  ltb,
}
use helios_net.Prelude.Sort.{sort_by, sort_by-perm}
use helios_net.Planner.Steps.{PlanStep}
use helios_net.Planner.Schedule.{lowest, le_priority, candidates, next_wave, remove_all, is_ready}
use helios_net.Planner.Schedule.Remaining.{Distinct, remove_all-perm}

List-cases :
    (xs : List PlanStep) → (xs ≡ []) ⊎ ((x : PlanStep) × (r : List PlanStep) × (xs ≡ x ∷ r))
List-cases [] = inl refl
List-cases (x ∷ xs) = inr (x, xs, refl)

lowest-perm :
    (s : PlanStep) (rest : List PlanStep)
    → (others : List PlanStep) × Permᴰ (lowest s rest ∷ others) (s ∷ rest)
unfolding lowest
lowest-perm s [] = ([], Permᴰ.refl (s ∷ []))
lowest-perm s (t ∷ ts) = elim (Bool-cases (ltb t.step_id s.step_id)) [
  | inl e ↦
      let (others, p) = lowest-perm t ts in
      (
        s ∷ others,
        rw e (
            Permᴰ.trans (Permᴰ.swap refl refl)
              (Permᴰ.trans (Permᴰ.cons refl p) (Permᴰ.refl (s ∷ t ∷ ts)))),
      )
  | inr e ↦
      let (others, p) = lowest-perm s ts in
      (
        t ∷ others,
        rw e (
            Permᴰ.trans (Permᴰ.swap refl refl)
              (Permᴰ.trans (Permᴰ.cons refl p) (Permᴰ.swap refl refl))),
      )
]

-- The candidates are some of the remaining steps, at least one.
candidates-perm :
    (done : List ℕ) (s : PlanStep) (rest : List PlanStep)
    → (others : List PlanStep) × Permᴰ (candidates done s rest ++ others) (s ∷ rest)
      × (0 < length (candidates done s rest))
unfolding candidates
candidates-perm done s rest = elim (List-cases (keep (is_ready done) (s ∷ rest))) [
  | inl e ↦
      let (others, p) = lowest-perm s rest in
      (others, rw (e, candidates) p, rw (e, candidates) (omega arith))
  | inr (x, r, e) ↦ (
    keep (λ t. not (is_ready done t)) (s ∷ rest),
    rw (e, candidates) (rw e at (keep-append-perm (is_ready done) (s ∷ rest))),
    rw (e, candidates) (omega arith),
  )
]

module _ (max_concurrency : ℕ) where
  -- What is left after a round.
  abbrev pub after : List ℕ → PlanStep → List PlanStep → List PlanStep
  after done s rest = remove_all (s ∷ rest) (next_wave max_concurrency done s rest)

  -- The wave and what is left make up the remaining steps.
  pub next_wave-perm :
      (done : List ℕ) (s : PlanStep) (rest : List PlanStep)
      → Distinct (s ∷ rest)
      → Permᴰ (next_wave max_concurrency done s rest ++ after done s rest) (s ∷ rest)
  unfolding next_wave
  next_wave-perm done s rest d =
      let (others, p, _) = candidates-perm done s rest in
      let sorted = sort_by le_priority (candidates done s rest) in
      let left = drop max_concurrency sorted ++ others in
      let whole : Permᴰ (take max_concurrency sorted ++ left) (s ∷ rest) =
        Permᴰ.trans
          (rw
            (
              ← append_assoc (take max_concurrency sorted) (drop max_concurrency sorted) others,
              take-append-drop max_concurrency sorted,
            )
            (Permᴰ.append_right others (sort_by-perm le_priority (candidates done s rest))))
          p in
      Permᴰ.trans
        (Permᴰ.append_left (take max_concurrency sorted)
          (remove_all-perm (take max_concurrency sorted) left (s ∷ rest) d whole))
        whole

  pub length-next_wave :
      (done : List ℕ) (s : PlanStep) (rest : List PlanStep)
      → 0 < max_concurrency
      → (0 < length (next_wave max_concurrency done s rest))
        × (length (next_wave max_concurrency done s rest) ≤ max_concurrency)
  unfolding next_wave
  length-next_wave done s rest h =
      let (_, _, some_step) = candidates-perm done s rest in
      let sorted = sort_by le_priority (candidates done s rest) in
      omega (
        arith,
        length-take max_concurrency sorted,
        length-perm (sort_by-perm le_priority (candidates done s rest)),
      )
