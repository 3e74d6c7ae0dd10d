-- ===== src/Campaign/Samples.antt =====
-- Campaigns on a small scope, and each theorem of them at one.
use mathlib.Core.List.Permᴰ
use package.text.Mathlib.Text.{◌==◌ as str_eq}
use helios_net.Prelude.{
  ℕ, String, ◌≡◌, refl, inl, true, if◌then◌else◌, Option, none, some, List, [], ◌∷◌, arith,
}
use helios_net.Prelude.Int.{pos}
use helios_net.Prelude.Sort.{sort_by}
use helios_net.Prelude.Text.{Text, codes}
use helios_net.Planner.Steps.{numbers, pending, Params, PlanStep, Item, blank_item}
use helios_net.Planner.Plan.{plan}
use helios_net.Planner.Samples.{small_codec, planner, target, intelligence, steps, planned}
use helios_net.Prelude.Sets.{to_set}
use helios_net.Scope.{
  bad_ports, is_target_allowed, check, normalise, is_name_allowed, in_domain, check_ports, refuse,
  not_allowed,
}
use helios_net.Scope.Samples.{lab, small_ip}
use helios_net.Campaign.{CampaignState, World, Runner, returned, raised}
use helios_net.Campaign.Waves.{starts}
use helios_net.Campaign.Authorize.{authorize_steps, bad_scope}
use helios_net.Campaign.Run.{Orchestrator, run_campaign}
use helios_net.Campaign.Safety.{Safe, run_campaign-Safe}
use helios_net.Campaign.Completion.{Completed, run_campaign-Completed, run_campaign-refused}
use helios_net.Prelude.Text.{drop_while, drop_while_end}
use helios_net.Scope.{strip}
use helios_net.Campaign.State.{IsWhole}

-- Discovery finds a number, recon raises, and nothing else is registered.
abbrev small_registry : String → Option (Runner ℕ ℕ)
small_registry name =
    if str_eq name "discovery"
    then some
        (λ step context. (returned (some 1), record context { findings = 7 ∷ context.findings }))
    else if str_eq name "recon"
    then some (λ step context. (raised, context))
    else none

abbrev small : Orchestrator Text Text ℕ ℕ ℕ
small = record {
  ip = small_ip;
  scope = lab;
  registry = small_registry;
  order = λ wave. wave;
  json = small_codec;
  finalize_graph = λ context. 0;
  clock = λ n. n;
  new_id = codes "c1";
  no_meta = 0;
}

abbrev empty_world : World ℕ ℕ
empty_world = record { log = []; context = record { findings = []; reports = []; plan = [] } }

lab_allowed : is_target_allowed small_ip lab target ≡ true
unfolding is_target_allowed normalise is_name_allowed in_domain
lab_allowed = refl

lab_authorized : authorize_steps small_ip lab steps ≡ none
unfolding authorize_steps check is_target_allowed normalise is_name_allowed in_domain
lab_authorized = refl

-- Asset discovery is asked for a port that the scope does not name.
abbrev wide : List Item
wide =
    record blank_item {
      module_name = some "asset";
      params = some (("ports", numbers (pos 22 ∷ [])) ∷ []);
    }
    ∷ []

abbrev wide_step : ℕ → String → String → ℕ → List ℕ → Params → PlanStep
wide_step step_id module_name action priority depends_on params = record {
  step_id = step_id;
  module_name = module_name;
  action = action;
  target = target;
  priority = pos priority;
  depends_on = depends_on;
  params = params;
  status = pending;
}

abbrev wide_steps : List PlanStep
wide_steps =
    wide_step 5 "discovery" "scan" 10 [] []
    ∷ wide_step 6 "asset" "discover" 15 (5 ∷ []) (("ports", numbers (pos 22 ∷ [])) ∷ [])
    ∷ wide_step 7 "collector" "collect" 40 (5 ∷ 6 ∷ []) []
    ∷ []

wide_planned : (plan planner wide target).0 ≡ some wide_steps
unfolding plan
wide_planned = refl

wide_refused : authorize_steps small_ip lab wide_steps ≡ some (bad_scope (bad_ports (pos 22 ∷ [])))
unfolding authorize_steps check is_target_allowed normalise is_name_allowed in_domain check_ports
    refuse not_allowed to_set sort_by
wide_refused = refl

-- A step that asks for a port of the scope
abbrev narrow : List Item
narrow =
    record blank_item {
      module_name = some "stealth";
      params = some (("ports", numbers (pos 80 ∷ [])) ∷ []);
    }
    ∷ intelligence

run_campaign-Safe_example :
    Safe small
      (plan planner narrow target).0
      empty_world
      (run_campaign small target narrow planner empty_world)
run_campaign-Safe_example =
    run_campaign-Safe small target narrow planner empty_world (λ wave. Permᴰ.refl wave)

run_campaign-Completed_example :
    Completed small empty_world steps (run_campaign small target intelligence planner empty_world)
run_campaign-Completed_example =
    run_campaign-Completed small target intelligence planner empty_world steps (omega arith)
      lab_allowed planned lab_authorized

run_campaign-refused_example :
    let ended = run_campaign small target wide planner empty_world in
    (state : CampaignState ℕ) × (ended.result ≡ inl (bad_scope (bad_ports (pos 22 ∷ []))))
    × (ended.saved ≡ some state)
    × (state.status ≡ "planning")
    × (ended.steps ≡ wide_steps)
    × (starts ended.world.log ≡ [])
run_campaign-refused_example =
    run_campaign-refused small target wide planner empty_world wide_steps
      (bad_scope (bad_ports (pos 22 ∷ []))) lab_allowed wide_planned wide_refused

abbrev pub ended_state : CampaignState ℕ
ended_state = record {
  campaign_id = codes "c1";
  target = target;
  status = "done";
  meta = record {
    given = 0;
    findings_count = some 2;
    report_count = some 1;
    plan = none;
    graph = none;
  };
  created_at = 3;
  updated_at = 9;
  completed_at = some 9;
}

pub ended_state-IsWhole : IsWhole ended_state
unfolding strip drop_while drop_while_end
ended_state-IsWhole = record {
  named = λ h. ground arith;
  aimed = λ h. ground arith;
  stripped = refl;
}
