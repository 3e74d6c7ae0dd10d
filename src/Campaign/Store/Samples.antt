-- ===== src/Campaign/Store/Samples.antt =====
-- A small store, with its states and its log, and each theorem of the store at it.
use mathlib.Core.Option.{get_or}
use helios_net.Prelude.{
  ℕ, ◌≡◌, ◌≢◌, refl, inl, inr, if◌then◌else◌, ◌==◌, Option, none, some, [], ◌∷◌, ◌++◌, In, arith,
}
use helios_net.Prelude.Sort.{sort_by}
use helios_net.Prelude.Eq.{text_eq}
use helios_net.Prelude.Dict.{dict_get}
use helios_net.Prelude.Text.{Text, codes, ends_with, le_text, drop_while, drop_while_end}
use helios_net.Scope.{strip}
use helios_net.Campaign.State.{StateDict, to_dict}
use helios_net.Campaign.Samples.{ended_state, ended_state-IsWhole}
use helios_net.Campaign.Store.{
  Files, Codec, log_path, write_tmp, save, load, load_all, load_each, delete, log_record, read_log,
  no_campaign,
}
use helios_net.Campaign.Store.Keeps.{load-save, read_log-log_record}
use helios_net.Campaign.Store.Keeps.Lines.{HasEnd, IsLine}

-- A codec that knows one state, as the letter S, and whose records are texts.
abbrev small_loads : Text → Option (StateDict ℕ)
small_loads [] = none
small_loads (c ∷ s) = if c == b'S' then some (to_dict ended_state) else none

abbrev small_json : Codec ℕ Text
small_json = record {
  dumps = λ d. codes "S";
  loads = small_loads;
  dumps_event = λ event. event;
  loads_event = some;
}

abbrev small_files : Files
small_files =
    (codes "c0.json", codes "x")
    ∷ (codes "c1.log.jsonl", codes "a" ++ 10 ∷ [])
    ∷ (codes "c2.json", codes "S")
    ∷ []

small-IsLine : IsLine small_json (codes "b")
unfolding strip drop_while drop_while_end
small-IsLine = record {
  not_empty = λ h. ground arith;
  one_line = λ h. absent h;
  no_blanks = refl;
  read_back = refl;
}
  where
    absent : ¬ In 10 (codes "b")
    absent (inl e) = omega arith
    absent (inr i) = elim i [ ]

-- The log of a campaign as it is read, and a file of the store that is no state
read_small : read_log small_json small_files (codes "c1") ≡ codes "a" ∷ []
unfolding read_log strip drop_while drop_while_end
read_small = refl

load_all_small : load_all small_json (codes "n") 0 ended_state.meta small_files ≡ ended_state ∷ []
unfolding load_all sort_by ends_with le_text load_each strip drop_while drop_while_end to_dict
load_all_small = refl

load-delete_small :
    load small_json
      (codes "n")
      0
      ended_state.meta
      (delete small_json (codes "c2") small_files)
      (codes "c2")
    ≡ inl no_campaign
unfolding load delete
load-delete_small = refl

load-save_example :
    let files = save small_json ended_state small_files in
    (load small_json (codes "n") 0 ended_state.meta files (codes "c1") ≡ inr ended_state)
    × ((id : Text)
        → id ≢ codes "c1"
        → load small_json (codes "n") 0 ended_state.meta files id
          ≡ load small_json (codes "n") 0 ended_state.meta small_files id)
    × ((id : Text) → read_log small_json files id ≡ read_log small_json small_files id)
    × ((id : Text)
        → load small_json
            (codes "n")
            0
            ended_state.meta
            (write_tmp small_json ended_state small_files)
            id
          ≡ load small_json (codes "n") 0 ended_state.meta small_files id)
load-save_example =
    load-save small_json (codes "n") 0 ended_state.meta ended_state small_files refl
      ended_state-IsWhole

read_log-log_record_example :
    let files = log_record small_json (codes "c1") (codes "b") small_files in
    (read_log small_json files (codes "c1")
      ≡ read_log small_json small_files (codes "c1") ++ codes "b" ∷ [])
    × HasEnd (get_or (dict_get (log_path (codes "c1")) files) [])
    × ((other : Text)
        → other ≢ codes "c1"
        → read_log small_json files other ≡ read_log small_json small_files other)
    × ((other : Text)
        → load small_json (codes "n") 0 ended_state.meta files other
          ≡ load small_json (codes "n") 0 ended_state.meta small_files other)
read_log-log_record_example =
    read_log-log_record small_json (codes "n") 0 ended_state.meta (codes "c1") (codes "b")
      small_files small-IsLine (unfold dict_get in inr (codes "a", refl))
