-- ===== src/Planner/Schedule/Total.antt =====
-- `schedule` ends, and each step runs exactly once.
use mathlib.Core.List.{foldl}
use mathlib.Core.List.Permᴰ
use helios_net.Prelude.{
  ℕ, zero, suc, ◌≤◌, ◌<◌, ◌≡◌, ◌≢◌, refl, sym, ◌∙◌, inl, inr, some, List, [], ◌∷◌, ◌++◌, Permᴰ, All,
  length, concat, length-perm, length-append, Bool-cases, arith, append_assoc, append-nil, ◌==◌,
}
use helios_net.Planner.Steps.{PlanStep}
use helios_net.Planner.Schedule.{
  dict_put, by_id, next_wave, remove_all, mark_done, schedule_loop, schedule,
}
use helios_net.Planner.Schedule.Remaining.{Distinct, Distinct-perm}
use helios_net.Planner.Schedule.Rounds.{next_wave-perm, length-next_wave}

-- A wave that `schedule` returns has a step, and at most `max_concurrency` of them.
abbrev pub IsWave : ℕ → List PlanStep → Type 0
IsWave max_concurrency wave = (0 < length wave) × (length wave ≤ max_concurrency)

pub Distinct-append_right : (xs ys : List PlanStep) → Distinct (xs ++ ys) → Distinct ys
Distinct-append_right [] ys d = d
Distinct-append_right (x ∷ xs) ys d = Distinct-append_right xs ys d.1

schedule_loop_total :
    (max_concurrency fuel : ℕ) (done : List ℕ) (rem : List PlanStep)
    → 0 < max_concurrency
    → Distinct rem
    → length rem ≤ fuel
    → (waves : List (List PlanStep)) × (schedule_loop max_concurrency fuel done rem ≡ some waves)
      × Permᴰ (concat waves) rem
      × All (IsWave max_concurrency) waves
unfolding schedule_loop
schedule_loop_total m fuel done [] h d le = ([], refl, Permᴰ.nil, tt)
schedule_loop_total m zero done (s ∷ rest) h d le = absurd (omega arith)
schedule_loop_total m (suc fuel) done (s ∷ rest) h d le =
    let wave = next_wave m done s rest in
    let left = remove_all (s ∷ rest) wave in
    let whole = next_wave-perm m done s rest d in
    let sized = length-next_wave m done s rest h in
    let (waves, e, p, w) =
      schedule_loop_total m fuel (mark_done done wave) left h
        (Distinct-append_right wave left (Distinct-perm (Permᴰ.symm whole) d))
        (omega (arith, length-perm whole, length-append wave left, sized)) in
    (wave ∷ waves, rw (e, schedule_loop), Permᴰ.trans (Permᴰ.append_left wave p) whole, (sized, w))

All-dict_put :
    (n : ℕ) (xs : List PlanStep) (s : PlanStep)
    → n ≢ s.step_id
    → All (λ t. n ≢ t.step_id) xs
    → All (λ t. n ≢ t.step_id) (dict_put xs s)
unfolding dict_put
All-dict_put n [] s h a = (h, tt)
All-dict_put n (x ∷ xs) s h a = elim (Bool-cases (x.step_id == s.step_id)) [
  | inl e ↦ rw e (h, a.1)
  | inr e ↦ rw e (a.0, All-dict_put n xs s h a.1)
]

dict_put-Distinct : (xs : List PlanStep) (s : PlanStep) → Distinct xs → Distinct (dict_put xs s)
unfolding dict_put
dict_put-Distinct [] s d = (tt, tt)
dict_put-Distinct (x ∷ xs) s d = elim (Bool-cases (x.step_id == s.step_id)) [
  | inl e ↦ let same : x.step_id ≡ s.step_id = ground arith in rw e (rw same at d)
  | inr e ↦
      let other : x.step_id ≢ s.step_id = ground arith in
      rw e (All-dict_put x.step_id xs s other d.0, dict_put-Distinct xs s d.1)
]

foldl-dict_put-Distinct : (acc xs : List PlanStep) → Distinct acc → Distinct (foldl dict_put acc xs)
foldl-dict_put-Distinct acc [] d = d
foldl-dict_put-Distinct acc (x ∷ xs) d =
    foldl-dict_put-Distinct (dict_put acc x) xs (dict_put-Distinct acc x d)

-- Every run of `schedule` that may run a step at all ends: its waves hold each step of the
-- dictionary `by_id steps` exactly once, and none is empty or longer than `max_concurrency`.
pub schedule_total :
    (max_concurrency : ℕ) (steps : List PlanStep)
    → 0 < max_concurrency
    → (waves : List (List PlanStep)) × (schedule max_concurrency steps ≡ some waves)
      × Permᴰ (concat waves) (by_id steps)
      × All (IsWave max_concurrency) waves
unfolding schedule by_id
schedule_total m steps h =
    schedule_loop_total m (length (by_id steps)) [] (by_id steps) h
      (foldl-dict_put-Distinct [] steps tt) (omega arith)

dict_put-fresh :
    (xs : List PlanStep) (s : PlanStep) → Distinct (xs ++ s ∷ []) → dict_put xs s ≡ xs ++ s ∷ []
unfolding dict_put
dict_put-fresh [] s d = refl
dict_put-fresh (x ∷ xs) s d =
    let other : x.step_id ≢ s.step_id = last x.step_id xs d.0 in
    ground (arith, dict_put-fresh xs s d.1)
  where
    last : (n : ℕ) (ys : List PlanStep) → All (λ t. n ≢ t.step_id) (ys ++ s ∷ []) → n ≢ s.step_id
    last n [] a = a.0
    last n (y ∷ ys) a = last n ys a.1

Distinct-append_left : (xs ys : List PlanStep) → Distinct (xs ++ ys) → Distinct xs
Distinct-append_left [] ys d = tt
Distinct-append_left (x ∷ xs) ys d = (prefix xs ys d.0, Distinct-append_left xs ys d.1)
  where
    prefix :
        (us vs : List PlanStep)
        → All (λ t. x.step_id ≢ t.step_id) (us ++ vs)
        → All (λ t. x.step_id ≢ t.step_id) us
    prefix [] vs a = tt
    prefix (u ∷ us) vs a = (a.0, prefix us vs a.1)

foldl-dict_put : (acc xs : List PlanStep) → Distinct (acc ++ xs) → foldl dict_put acc xs ≡ acc ++ xs
foldl-dict_put acc [] d = sym (append-nil acc)
foldl-dict_put acc (x ∷ xs) d =
    let split : Distinct ((acc ++ x ∷ []) ++ xs) = rw (append_assoc acc (x ∷ []) xs) d in
    rw (dict_put-fresh acc x (Distinct-append_left (acc ++ x ∷ []) xs split))
      (foldl-dict_put (acc ++ x ∷ []) xs split ∙ append_assoc acc (x ∷ []) xs)

-- Steps with distinct ids are kept as they are.
pub by_id-Distinct : (steps : List PlanStep) → Distinct steps → by_id steps ≡ steps
unfolding by_id
by_id-Distinct steps d = foldl-dict_put [] steps d

module _ (P : PlanStep → Type 0) where
  All-dict_put_of : (xs : List PlanStep) (s : PlanStep) → All P xs → P s → All P (dict_put xs s)
  unfolding dict_put
  All-dict_put_of [] s h p = (p, tt)
  All-dict_put_of (x ∷ xs) s h p = elim (Bool-cases (x.step_id == s.step_id)) [
    | inl e ↦ rw e (p, h.1)
    | inr e ↦ rw e (h.0, All-dict_put_of xs s h.1 p)
  ]

  All-foldl :
      (acc steps : List PlanStep) → All P acc → All P steps → All P (foldl dict_put acc steps)
  All-foldl acc [] h k = h
  All-foldl acc (s ∷ steps) h k = All-foldl (dict_put acc s) steps (All-dict_put_of acc s h k.0) k.1

  pub All-by_id : (steps : List PlanStep) → All P steps → All P (by_id steps)
  unfolding by_id
  All-by_id steps h = All-foldl [] steps tt h
