-- ===== src/Planner/Steps.antt =====
-- The data of core/planner.py: intelligence items, plan steps, and the planner's own state.
use helios_net.Prelude.{ℕ, String, Bool, Option, none, List}
use helios_net.Prelude.Int.{ℤ}
use helios_net.Prelude.Text.{Text}

-- A value of the dictionary `params`.
pub data Param : Type 0 where
  flag : Bool → Param
  number : ℤ → Param
  text : String → Param
  numbers : List ℤ → Param

abbrev pub Params : Type 0
Params = List (String × Param)

-- `"pending | ready | running | done | failed"`
pub data Status : Type 0 where
  pending ready running done failed : Status

pub record PlanStep : Type 0 where
  pub step_id : ℕ
  pub module_name : String
  pub action : String
  pub target : Text
  pub priority : ℤ
  pub depends_on : List ℕ
  pub params : Params
  pub status : Status

-- One item of the intelligence that a campaign starts from; `none` is a missing key.
pub record Item : Type 0 where
  pub module_name : Option String
  pub action : Option String
  pub priority : Option ℤ
  pub params : Option Params

pub record Planner : Type 0 where
  pub max_concurrency : ℕ
  pub step_counter : ℕ

abbrev pub blank_item : Item
blank_item = record { module_name = none; action = none; priority = none; params = none }
