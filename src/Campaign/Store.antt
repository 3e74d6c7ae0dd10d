-- ===== src/Campaign/Store.antt =====
-- `StateStore` of core/state.py over the files of its directory, and what the orchestrator does with a
-- stored campaign.
pub mod Names
pub mod Keeps
pub mod Samples
use mathlib.Core.Option.{get_or}
use helios_net.Prelude.{
  ℕ, String, Bool, not, if◌then◌else◌, ◌==◌, ◌⊎◌, inl, inr, Option, none, some, List, [], ◌∷◌, ◌++◌,
  keep, map,
}
use helios_net.Prelude.Sort.{sort_by}
use helios_net.Prelude.Eq.{text_eq}
use helios_net.Prelude.Dict.{
  Dict, dict_get, dict_set, dict_pop, get-set, get-set_other, get-pop_other,
}
use helios_net.Prelude.Text.{Text, codes, eqb_text, ends_with, le_text}
use helios_net.Scope.{strip}
use helios_net.Campaign.{Meta, CampaignState}
use helios_net.Campaign.State.{StateDict, DictError, to_dict, from_dict}

-- The files of `campaigns_dir`, by their names
abbrev pub Files : Type 0
Files = Dict Text Text

-- `open("a")` and one write
unfoldable pub append_file : Text → Text → Files → Files
unfolding dict_get dict_set
append_file name content files = dict_set name (get_or (dict_get name files) [] ++ content) files

-- `tmp.replace(final)`
unfoldable pub replace_file : Text → Text → Option Text → Files → Files
unfolding dict_set dict_pop
replace_file tmp final none files = files
replace_file tmp final (some content) files = dict_set final content (dict_pop tmp files)

abbrev pub state_path : Text → Text
state_path campaign_id = campaign_id ++ codes ".json"

-- `.with_suffix(".json.tmp")`
abbrev pub tmp_path : Text → Text
tmp_path campaign_id = campaign_id ++ codes ".json.tmp"

abbrev pub log_path : Text → Text
log_path campaign_id = campaign_id ++ codes ".log.jsonl"

-- The lines of a file, without their ends
abbrev pub add_char : ℕ → List Text → List Text
add_char c [] = (c ∷ []) ∷ []
add_char c (line ∷ lines) = (c ∷ line) ∷ lines

unfoldable pub file_lines : Text → List Text
file_lines [] = []
file_lines (c ∷ s) = let rest = file_lines s in if c == 10 then [] ∷ rest else add_char c rest

-- `json` on the two kinds of record; `none` is a `JSONDecodeError`.
pub record Codec (M E : Type 0) : Type 0 where
  pub dumps : StateDict M → Text
  pub loads : Text → Option (StateDict M)
  pub dumps_event : E → Text
  pub loads_event : Text → Option E

-- What `load` raises
pub data StoreError : Type 0 where
  no_campaign bad_json : StoreError
  bad_dict : DictError → StoreError

module _ {M E : Type 0} (json : Codec M E) where
  -- The first half of `save`
  unfoldable pub write_tmp : CampaignState M → Files → Files
  unfolding dict_set to_dict
  write_tmp state files = dict_set (tmp_path state.campaign_id) (json.dumps (to_dict state)) files

  unfoldable pub save : CampaignState M → Files → Files
  unfolding write_tmp replace_file dict_get
  save state files =
      let written = write_tmp state files in
      replace_file (tmp_path state.campaign_id) (state_path state.campaign_id)
        (dict_get (tmp_path state.campaign_id) written) written

  unfoldable pub checked : DictError ⊎ CampaignState M → StoreError ⊎ CampaignState M
  checked (inl err) = inl (bad_dict err)
  checked (inr state) = inr state

  unfoldable pub load_dict : Text → ℕ → Meta M → Option (StateDict M) → StoreError ⊎ CampaignState M
  unfolding checked from_dict
  load_dict new_id now no_meta none = inl bad_json
  load_dict new_id now no_meta (some d) = checked (from_dict new_id now no_meta d)

  unfoldable pub load_content : Text → ℕ → Meta M → Option Text → StoreError ⊎ CampaignState M
  unfolding load_dict
  load_content new_id now no_meta none = inl no_campaign
  load_content new_id now no_meta (some content) = load_dict new_id now no_meta (json.loads content)

  -- `load`, with what `uuid4` and the clock say
  unfoldable pub load : Text → ℕ → Meta M → Files → Text → StoreError ⊎ CampaignState M
  unfolding load_content dict_get
  load new_id now no_meta files campaign_id =
      load_content new_id now no_meta (dict_get (state_path campaign_id) files)

  -- The `try` of `load_all`: what raises is left out.
  unfoldable pub add_loaded :
      StoreError ⊎ CampaignState M → List (CampaignState M) → List (CampaignState M)
  add_loaded (inl err) out = out
  add_loaded (inr state) out = state ∷ out

  unfoldable pub load_each : Text → ℕ → Meta M → Files → List (CampaignState M)
  unfolding add_loaded load_content
  load_each new_id now no_meta [] = []
  load_each new_id now no_meta ((name, content) ∷ files) =
      add_loaded (load_content new_id now no_meta (some content))
        (load_each new_id now no_meta files)

  -- `load_all`: the files that match `*.json`, in the order of their names
  unfoldable pub load_all : Text → ℕ → Meta M → Files → List (CampaignState M)
  unfolding load_each sort_by ends_with le_text
  load_all new_id now no_meta files =
      load_each new_id now no_meta
        (sort_by (λ f g. le_text f.0 g.0) (keep (λ f. ends_with f.0 (codes ".json")) files))

  -- `delete`
  unfoldable pub delete : Text → Files → Files
  unfolding dict_pop
  delete campaign_id files =
      dict_pop (log_path campaign_id) (dict_pop (state_path campaign_id) files)

  -- `log_event` of a record, for the campaign that it is about
  unfoldable pub log_record : Text → E → Files → Files
  unfolding append_file
  log_record campaign_id event files =
      append_file (log_path campaign_id) (json.dumps_event event ++ 10 ∷ []) files

  unfoldable pub add_event : Option E → List E → List E
  add_event none out = out
  add_event (some event) out = event ∷ out

  -- One line of `read_log`, once it is stripped
  unfoldable pub read_event : Text → List E → List E
  unfolding add_event
  read_event [] out = out
  read_event (c ∷ line) out = add_event (json.loads_event (c ∷ line)) out

  unfoldable pub read_lines : List Text → List E
  unfolding read_event strip
  read_lines [] = []
  read_lines (line ∷ lines) = read_event (strip line) (read_lines lines)

  unfoldable pub read_content : Option Text → List E
  unfolding read_lines file_lines
  read_content none = []
  read_content (some content) = read_lines (file_lines content)

  unfoldable pub read_log : Files → Text → List E
  unfolding read_content dict_get
  read_log files campaign_id = read_content (dict_get (log_path campaign_id) files)

  unfoldable pub recovered :
      StoreError ⊎ CampaignState M
      → (CampaignState M → E)
      → Files
      → (StoreError ⊎ CampaignState M) × Files
  unfolding log_record
  recovered (inl err) event files = (inl err, files)
  recovered (inr state) event files = (inr state, log_record state.campaign_id (event state) files)

  -- `Orchestrator.recover`, with the event that it logs
  unfoldable pub recover :
      Text
      → ℕ
      → Meta M
      → (CampaignState M → E)
      → Files
      → Text
      → (StoreError ⊎ CampaignState M) × Files
  unfolding recovered load
  recover new_id now no_meta event files campaign_id =
      recovered (load new_id now no_meta files campaign_id) event files

  -- What `Orchestrator.report` returns
  pub record Report : Type 0 where
    pub campaign_id : Text
    pub target : Text
    pub status : String
    pub summary : Meta M
    pub timeline : List E

  unfoldable pub report : CampaignState M → Files → Report
  unfolding read_log
  report state files = record {
    campaign_id = state.campaign_id;
    target = state.target;
    status = state.status;
    summary = state.meta;
    timeline = read_log files state.campaign_id;
  }
