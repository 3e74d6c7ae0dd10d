-- ===== src/Planner/Plan/Numbered.antt =====
-- Steps in the order in which `plan` makes them: numbered without a gap, and each depends only on
-- steps made before it.
use helios_net.Prelude.{
  String, ℕ, suc, ◌+◌, ◌≤◌, ◌<◌, ◌≡◌, ◌≢◌, sym, ◌∙◌, inl, inr, List, [], ◌∷◌, ◌++◌, All, In, length,
  length-append, arith,
}
use native.Mathlib.Decide.{ℕ_discrete}
use helios_net.Prelude.Text.{Text}
use helios_net.Prelude.Int.{ℤ}
use helios_net.Planner.Steps.{PlanStep, Params}
use helios_net.Planner.Plan.{Build, ids, mk, push}
use helios_net.Planner.Schedule.Remaining.{Distinct}
use helios_net.Planner.Schedule.Order.{DependsBelow}

-- The ids of `bs` that a later step may depend on: those above `lo` and at most `c`.
abbrev pub Within : ℕ → ℕ → List ℕ → Type 0
Within lo c ds = All (λ d. (lo < d) × (d ≤ c)) ds

abbrev pub Numbered : ℕ → ℕ → List PlanStep → Type 0
Numbered lo c [] = Unit
Numbered lo c (s ∷ ss) = (s.step_id ≡ suc c) × Within lo c s.depends_on × Numbered lo (suc c) ss

pub Within-mono : (lo c c' : ℕ) (ds : List ℕ) → c ≤ c' → Within lo c ds → Within lo c' ds
Within-mono lo c c' [] le h = tt
Within-mono lo c c' (d ∷ ds) le h = ((h.0.0, omega arith), Within-mono lo c c' ds le h.1)

Numbered-snoc :
    (lo c : ℕ) (ss : List PlanStep) (s : PlanStep)
    → Numbered lo c ss
    → s.step_id ≡ suc (c + length ss)
    → Within lo (c + length ss) s.depends_on
    → Numbered lo c (ss ++ s ∷ [])
Numbered-snoc lo c [] s n e w =
    (omega arith, Within-mono lo (c + 0) c s.depends_on (omega arith) w, tt)
Numbered-snoc lo c (t ∷ ts) s n e w = (
  n.0,
  n.1,
  Numbered-snoc lo (suc c) ts s n.2 (omega arith)
      (Within-mono lo (c + suc (length ts)) (suc c + length ts) s.depends_on (omega arith) w),
)

pub Numbered-ids :
    (lo c : ℕ) (ss : List PlanStep) → Numbered lo c ss → Within c (c + length ss) (ids ss)
Numbered-ids lo c [] n = tt
Numbered-ids lo c (s ∷ ss) n = (omega (arith, n.0), lift (ids ss) (Numbered-ids lo (suc c) ss n.2))
  where
    lift : (ds : List ℕ) → Within (suc c) (suc c + length ss) ds → Within c (c + suc (length ss)) ds
    lift [] h = tt
    lift (d ∷ ds) h = (omega (arith, h.0), lift ds h.1)

pub In-ids_of_Numbered :
    (lo c d : ℕ) (ss : List PlanStep) → Numbered lo c ss → c < d → d ≤ c + length ss → In d (ids ss)
In-ids_of_Numbered lo c d [] n h k = absurd (omega arith)
In-ids_of_Numbered lo c d (s ∷ ss) n h k = elim (ℕ_discrete d s.step_id) [
  | yes e ↦ inl e
  | no ne ↦
      let ne' : d ≢ suc c = λ e. ne (e ∙ sym n.0) in
      inr (In-ids_of_Numbered lo (suc c) d ss n.2 (omega arith) (omega arith))
]

pub Numbered-Distinct : (lo c : ℕ) (ss : List PlanStep) → Numbered lo c ss → Distinct ss
Numbered-Distinct lo c [] n = tt
Numbered-Distinct lo c (s ∷ ss) n =
    (apart ss (Numbered-ids lo (suc c) ss n.2), Numbered-Distinct lo (suc c) ss n.2)
  where
    apart :
        (ts : List PlanStep)
        → Within (suc c) (suc c + length ss) (ids ts)
        → All (λ t. s.step_id ≢ t.step_id) ts
    apart [] h = tt
    apart (t ∷ ts) h = ((λ e. absurd (omega (arith, h.0, e, n.0))), apart ts h.1)

below :
    (lo c k : ℕ) (all_ids : List ℕ) (ss : List PlanStep)
    → Numbered lo c ss
    → ((d : ℕ) → lo < d → d ≤ k → In d all_ids)
    → c + length ss ≤ k
    → All (λ s. All (λ d. (d < s.step_id) × In d all_ids) s.depends_on) ss
below lo c k all_ids [] n known le = tt
below lo c k all_ids (s ∷ ss) n known le =
    (each s.depends_on n.1, below lo (suc c) k all_ids ss n.2 known (omega arith))
  where
    each : (ds : List ℕ) → Within lo c ds → All (λ d. (d < s.step_id) × In d all_ids) ds
    each [] w = tt
    each (d ∷ ds) w = ((omega (arith, n.0, w.0), known d w.0.0 (omega (arith, w.0))), each ds w.1)

pub Numbered-DependsBelow : (lo : ℕ) (ss : List PlanStep) → Numbered lo lo ss → DependsBelow ss
Numbered-DependsBelow lo ss n =
    below lo lo (lo + length ss) (ids ss) ss n (λ d h k. In-ids_of_Numbered lo lo d ss n h k)
      (omega arith)

-- What holds of the counter and of the list `steps` at each point of `plan`, from counter `lo` on.
pub record IsBuilt (lo : ℕ) (b : Build) : Type 0 where
  pub counted : b.counter ≡ lo + length b.steps
  pub numbered : Numbered lo lo b.steps

pub push-IsBuilt :
    (lo : ℕ) (target : Text) (m a : String) (pr : ℤ) (ds : List ℕ) (ps : Params) (b : Build)
    → IsBuilt lo b
    → Within lo b.counter ds
    → IsBuilt lo (push target m a pr ds ps b)
unfolding push
push-IsBuilt lo target m a pr ds ps b h w = record {
  counted =
      omega (arith, h.counted, length-append b.steps (mk (b.counter + 1) m a target pr ds ps ∷ []));
  numbered =
      Numbered-snoc lo lo b.steps _ h.numbered (omega (arith, h.counted))
        (Within-mono lo b.counter (lo + length b.steps) ds (omega (arith, h.counted)) w);
}

pub ids-Within : (lo : ℕ) (b : Build) → IsBuilt lo b → Within lo b.counter (ids b.steps)
ids-Within lo b h =
    Within-mono lo (lo + length b.steps) b.counter (ids b.steps) (omega (arith, h.counted))
      (Numbered-ids lo lo b.steps h.numbered)
