-- ===== src/Planner/Schedule.antt =====
-- `Planner.schedule` of core/planner.py: parallel waves of at most `max_concurrency` steps.
pub mod Remaining
pub mod Rounds
pub mod Total
pub mod Order
use mathlib.Core.List.{foldl}
use helios_net.Prelude.{
  ℕ, zero, suc, Bool, not, Option, none, some, List, [], ◌∷◌, keep, all, any, take, length,
  if◌then◌else◌, ltb, ◌==◌,
}
use helios_net.Prelude.Int.{ltb_ℤ}
use helios_net.Prelude.Sort.{sort_by}
use helios_net.Planner.Steps.{PlanStep}

-- `{s.step_id: s for s in steps}`: a later step replaces an earlier one of the same id, in its place.
unfoldable pub dict_put : List PlanStep → PlanStep → List PlanStep
dict_put [] s = s ∷ []
dict_put (t ∷ ts) s =
    let rest = dict_put ts s in if t.step_id == s.step_id then s ∷ ts else t ∷ rest

unfoldable pub by_id : List PlanStep → List PlanStep
unfolding dict_put
by_id = foldl dict_put []

-- `d in done`
abbrev pub is_done : List ℕ → ℕ → Bool
is_done done d = any (λ e. e == d) done

abbrev pub is_ready : List ℕ → PlanStep → Bool
is_ready done s = all (is_done done) s.depends_on

-- `min(remaining.values(), key=lambda s: s.step_id)`, from the first value on
unfoldable pub lowest : PlanStep → List PlanStep → PlanStep
lowest s [] = s
lowest s (t ∷ ts) = lowest (if ltb t.step_id s.step_id then t else s) ts

-- `wave.sort(key=lambda s: s.priority)`
abbrev pub le_priority : PlanStep → PlanStep → Bool
le_priority s t = not (ltb_ℤ t.priority s.priority)

-- The steps that may run now, or the one of lowest id if none may.
unfoldable pub candidates : List ℕ → PlanStep → List PlanStep → List PlanStep
unfolding lowest
candidates done s rest = elim (keep (is_ready done) (s ∷ rest)) [
  | [] ↦ lowest s rest ∷ []
  | t ∷ ts ↦ t ∷ ts
]

-- `wave[: self.max_concurrency]` after the sort
unfoldable pub next_wave : ℕ → List ℕ → PlanStep → List PlanStep → List PlanStep
unfolding candidates
next_wave max_concurrency done s rest =
    take max_concurrency (sort_by le_priority (candidates done s rest))

-- `del remaining[s.step_id]`
unfoldable pub remove : List PlanStep → PlanStep → List PlanStep
remove remaining s = keep (λ t. not (t.step_id == s.step_id)) remaining

unfoldable pub remove_all : List PlanStep → List PlanStep → List PlanStep
unfolding remove
remove_all remaining [] = remaining
remove_all remaining (s ∷ wave) = remove_all (remove remaining s) wave

-- `done.add(s.step_id)` for each step of the wave
unfoldable pub mark_done : List ℕ → List PlanStep → List ℕ
mark_done done [] = done
mark_done done (s ∷ wave) = mark_done (s.step_id ∷ done) wave

-- `while remaining`, for at most `fuel` rounds; `none` means that they did not suffice.
unfoldable pub schedule_loop : ℕ → ℕ → List ℕ → List PlanStep → Option (List (List PlanStep))
schedule_loop max_concurrency fuel done [] = some []
schedule_loop max_concurrency zero done (s ∷ rest) = none
schedule_loop max_concurrency (suc fuel) done (s ∷ rest) =
    let wave = next_wave max_concurrency done s rest in
    let later =
      schedule_loop max_concurrency fuel (mark_done done wave) (remove_all (s ∷ rest) wave) in
    elim later [ none ↦ none | some waves ↦ some (wave ∷ waves) ]

-- Each round runs one step at least, so as many rounds as there are steps are enough.
unfoldable pub schedule : ℕ → List PlanStep → Option (List (List PlanStep))
unfolding by_id schedule_loop next_wave remove_all mark_done
schedule max_concurrency steps =
    let remaining = by_id steps in schedule_loop max_concurrency (length remaining) [] remaining
