-- ===== src/Planner/Plan/Result.antt =====
-- What `plan` returns, on every intelligence.
use mathlib.Core.List.Permᴰ
use helios_net.Prelude.{
  ℕ, ◌+◌, ◌<◌, ◌≡◌, refl, ap, subst, ◌∙◌, inl, inr, Bool, true, false, not, ◌↔◌, Bool-cases, none,
  some, Option-cases, List, [], ◌∷◌, Permᴰ, All, All-perm, All-of_In, All-In, In, In-perm, any,
  keep, length, length-perm, map, arith,
}
use helios_net.Prelude.Text.{Text}
use helios_net.Prelude.Sort.{sort_by, sort_by-perm, IsSorted, IsOrder, sort_by-IsSorted}
use helios_net.Planner.Steps.{PlanStep, Item, Planner}
use helios_net.Planner.Plan.{
  Build, ids, le_key, push_extra, push_extras, push_collector, scan_stages, asset_stages,
  canonical_module, is_extra, plan,
}
use helios_net.Planner.Plan.Numbered.{IsBuilt, Numbered-Distinct, Numbered-DependsBelow}
use helios_net.Planner.Plan.Stages.{
  scan_stages-IsBuilt, asset_stages-IsBuilt, push_extras-IsBuilt, push_collector-IsBuilt,
}
use helios_net.Planner.Schedule.Remaining.{Distinct, Distinct-perm}
use helios_net.Planner.Schedule.Order.{DependsBelow}

DependsBelow-perm : (xs ys : List PlanStep) → Permᴰ xs ys → DependsBelow xs → DependsBelow ys
DependsBelow-perm xs ys p h =
    All-perm (λ s. All (λ d. (d < s.step_id) × In d (ids ys)) s.depends_on) p
      (All-of_In (λ s. All (λ d. (d < s.step_id) × In d (ids ys)) s.depends_on) xs
        λ s i. moved s.step_id s.depends_on (All-In Before s xs h i))
  where
    Before : PlanStep → Type 0
    Before s = All (λ d. (d < s.step_id) × In d (ids xs)) s.depends_on

    moved :
        (n : ℕ) (ds : List ℕ)
        → All (λ d. (d < n) × In d (ids xs)) ds
        → All (λ d. (d < n) × In d (ids ys)) ds
    moved n [] a = tt
    moved n (d ∷ ds) a =
        ((a.0.0, In-perm d (Permᴰ.map (λ (s : PlanStep). s.step_id) p) a.0.1), moved n ds a.1)

module _ (p : Planner) (intelligence : List Item) (target : Text) where
  abbrev pub normalised : List Item
  normalised = map canonical_module intelligence

  abbrev pub extras : List Item
  extras = keep is_extra normalised

  abbrev pub planned : Build
  planned =
      asset_stages target
        (scan_stages target (record { counter = p.step_counter; steps = [] }) normalised) normalised

  planned-IsBuilt : IsBuilt p.step_counter planned
  planned-IsBuilt = asset_stages-IsBuilt p.step_counter target _ normalised (
      scan_stages-IsBuilt p.step_counter target _ normalised
        (record { counted = omega arith; numbered = tt }))

  unfoldable pub extended : Bool × Build
  extended = push_extras target planned extras

  extended-IsBuilt : IsBuilt p.step_counter extended.1
  unfolding extended
  extended-IsBuilt = push_extras-IsBuilt p.step_counter target planned extras planned-IsBuilt

  unfoldable pub complete : Build
  complete = push_collector target extended.1

  complete-IsBuilt : IsBuilt p.step_counter complete
  unfolding complete
  complete-IsBuilt = push_collector-IsBuilt p.step_counter target extended.1 extended-IsBuilt

  pub plan-some :
      (steps : List PlanStep)
      → (plan p intelligence target).0 ≡ some steps
      → (extended.0 ≡ true)
        × (sort_by le_key complete.steps ≡ steps)
        × ((plan p intelligence target).1.step_counter ≡ complete.counter)
  unfolding plan extended complete
  plan-some steps h = elim (Bool-cases (push_extras target planned extras).0) [
    | inl e ↦ let h' = rw e at h in (e, cc, rw e)
    | inr e ↦ let h' = rw e at h in cc
  ]

  pub plan-DependsBelow :
      (steps : List PlanStep)
      → (plan p intelligence target).0 ≡ some steps
      → Distinct steps
        × DependsBelow steps
        × ((plan p intelligence target).1.step_counter ≡ p.step_counter + length steps)
  plan-DependsBelow steps h =
      let (_, e, counter) = plan-some steps h in
      let built = complete-IsBuilt in
      let perm = Permᴰ.symm (sort_by-perm le_key complete.steps) in
      subst
        (λ (ss : List PlanStep).
          Distinct ss
          × DependsBelow ss
          × ((plan p intelligence target).1.step_counter ≡ p.step_counter + length ss))
        e
        (
          Distinct-perm perm
              (Numbered-Distinct p.step_counter p.step_counter complete.steps built.numbered),
          DependsBelow-perm complete.steps _ perm
              (Numbered-DependsBelow p.step_counter complete.steps built.numbered),
          omega (arith, counter, built.counted, length-perm perm),
        )

le_key-IsOrder : IsOrder le_key
le_key-IsOrder = record { total = λ x y h. ground arith; trans = λ x y z h k. ground arith }

pub plan-IsSorted :
    (p : Planner) (intelligence : List Item) (target : Text) (steps : List PlanStep)
    → (plan p intelligence target).0 ≡ some steps
    → IsSorted le_key steps
plan-IsSorted p intelligence target steps h =
    subst (IsSorted le_key) (plan-some p intelligence target steps h).1
      (sort_by-IsSorted le_key le_key-IsOrder (complete p intelligence target).steps)

-- An item with no key `module`.
abbrev pub nameless : Item → Bool
nameless it = elim it.module_name [ none ↦ true | some _ ↦ false ]

any-canonical : (items : List Item) → any nameless (map canonical_module items) ≡ any nameless items
unfolding canonical_module
any-canonical [] = refl
any-canonical (it ∷ items) = ground (arith, any-canonical items)

any-extra : (items : List Item) → any nameless (keep is_extra items) ≡ any nameless items
unfolding is_extra
any-extra [] = refl
any-extra (it ∷ items) = ground (arith, any-extra items)

push_extras-any :
    (target : Text) (b : Build) (items : List Item)
    → (push_extras target b items).0 ≡ not (any nameless items)
unfolding push_extras
push_extras-any target b [] = refl
push_extras-any target b (it ∷ items) = elim (Option-cases it.module_name) [
  | inl e ↦ rw (e, push_extras)
  | inr (m, e) ↦ rw (e, push_extras) (push_extras-any target (push_extra target m b it) items)
]

-- `plan` raises `KeyError` exactly where some item has no key `module`.
pub plan-none_iff :
    (p : Planner) (intelligence : List Item) (target : Text)
    → ((plan p intelligence target).0 ≡ none) ↔ (any nameless intelligence ≡ true)
unfolding plan
plan-none_iff p intelligence target =
    let e =
      push_extras-any target (planned p intelligence target) (extras p intelligence target)
      ∙ ap not (any-extra (normalised p intelligence target) ∙ any-canonical intelligence) in
    ground (arith, e)

pub plan-max_concurrency :
    (p : Planner) (intelligence : List Item) (target : Text)
    → (plan p intelligence target).1.max_concurrency ≡ p.max_concurrency
unfolding plan
plan-max_concurrency p intelligence target = ground arith
