-- ===== src/Campaign/Store/Keeps.antt =====
-- What the operations of the store keep: the other campaigns, and a state or a log as it was written.
pub mod Lines
use mathlib.Core.Option.{get_or}
use helios_net.Prelude.{
  ℕ, ◌≡◌, ◌≢◌, refl, sym, ap, subst, append_assoc, ◌∙◌, ◌⊎◌, Bool, true, false, inl, inr, Option,
  none, some, List, [], ◌∷◌, ◌++◌, arith,
}
use helios_net.Prelude.Eq.{text_eq}
use helios_net.Prelude.Dict.{
  Dict, dict_get, dict_set, dict_pop, get-set, get-set_other, get-pop_other,
}
use helios_net.Prelude.Text.{Text}
use helios_net.Scope.{strip}
use helios_net.Campaign.{Meta, CampaignState}
use helios_net.Campaign.State.{StateDict, to_dict, IsWhole, from_dict, from_dict-to_dict}
use helios_net.Campaign.Store.{
  Files, Codec, append_file, replace_file, state_path, tmp_path, log_path, write_tmp, save,
  StoreError, load, load_content, load_dict, checked, log_record, read_log, read_content,
}
use helios_net.Campaign.Store.Names.{
  state_path-ne-tmp_path, state_path-ne-log_path, log_path-ne-tmp_path, state_path-eq, log_path-eq,
}
use helios_net.Campaign.Store.Keeps.Lines.{HasEnd, read_content-append, IsLine}

module _ {M E : Type 0} (json : Codec M E) where
  -- Any file but the two of the state
  save-other :
      (state : CampaignState M) (files : Files) (other : Text)
      → other ≢ tmp_path state.campaign_id
      → other ≢ state_path state.campaign_id
      → dict_get other (save json state files) ≡ dict_get other files
  unfolding save write_tmp replace_file
  save-other state files other t f =
      let text = json.dumps (to_dict state) in
      ap
        (λ c. dict_get other (
          replace_file (tmp_path state.campaign_id) (state_path state.campaign_id) c
            (dict_set (tmp_path state.campaign_id) text files)))
        (get-set (tmp_path state.campaign_id) text files)
      ∙ get-set_other (state_path state.campaign_id) other f text _
      ∙ get-pop_other (tmp_path state.campaign_id) other t _
      ∙ get-set_other (tmp_path state.campaign_id) other t text files

  save-state :
      (state : CampaignState M) (files : Files)
      → dict_get (state_path state.campaign_id) (save json state files)
        ≡ some (json.dumps (to_dict state))
  unfolding save write_tmp replace_file
  save-state state files =
      let text = json.dumps (to_dict state) in
      ap
        (λ c. dict_get (state_path state.campaign_id) (
          replace_file (tmp_path state.campaign_id) (state_path state.campaign_id) c
            (dict_set (tmp_path state.campaign_id) text files)))
        (get-set (tmp_path state.campaign_id) text files)
      ∙ get-set (state_path state.campaign_id) text _

  module _ (new_id : Text) (now : ℕ) (no_meta : Meta M) where
    -- Where the dictionary of a state is read back as it was written, a campaign that is whole and is
    -- saved is loaded as it is; the other campaigns are loaded, and all logs read, as before; and if
    -- the program stops between the two halves of the save, every campaign is loaded as before.
    pub load-save :
        (state : CampaignState M) (files : Files)
        → json.loads (json.dumps (to_dict state)) ≡ some (to_dict state)
        → IsWhole state
        → (load json new_id now no_meta (save json state files) state.campaign_id ≡ inr state)
          × ((id : Text)
              → id ≢ state.campaign_id
              → load json new_id now no_meta (save json state files) id
                ≡ load json new_id now no_meta files id)
          × ((id : Text) → read_log json (save json state files) id ≡ read_log json files id)
          × ((id : Text)
              → load json new_id now no_meta (write_tmp json state files) id
                ≡ load json new_id now no_meta files id)
    unfolding load read_log write_tmp
    load-save state files law whole = (
      ap (load_content json new_id now no_meta) (save-state state files)
          ∙ unfold load_content in
            ap (load_dict json new_id now no_meta) law
            ∙ unfold load_dict in
              ap (checked json) (from_dict-to_dict new_id now no_meta state whole)
              ∙ unfold checked in refl,
      λ id n. ap (load_content json new_id now no_meta) (
          save-other state files (state_path id) (state_path-ne-tmp_path id state.campaign_id)
            (λ e. n (state_path-eq id state.campaign_id e))),
      λ id. ap (read_content json) (
          save-other state files (log_path id) (log_path-ne-tmp_path id state.campaign_id)
            (λ e. state_path-ne-log_path state.campaign_id id (sym e))),
      λ id. ap (load_content json new_id now no_meta) (
          get-set_other (tmp_path state.campaign_id) (state_path id)
            (state_path-ne-tmp_path id state.campaign_id) _ files),
    )

    -- Where a record is written as one line and read back as it was, a log that is empty or whose last
    -- line is ended has the record behind those it had, and is so again; the logs of other campaigns
    -- and all states are as before.
    pub read_log-log_record :
        (id : Text) (event : E) (files : Files)
        → IsLine json event
        → HasEnd (get_or (dict_get (log_path id) files) [])
        → (read_log json (log_record json id event files) id ≡ read_log json files id ++ event ∷ [])
          × HasEnd (get_or (dict_get (log_path id) (log_record json id event files)) [])
          × ((other : Text)
              → other ≢ id
              → read_log json (log_record json id event files) other ≡ read_log json files other)
          × ((other : Text)
              → load json new_id now no_meta (log_record json id event files) other
                ≡ load json new_id now no_meta files other)
    unfolding read_log log_record append_file load
    read_log-log_record id event files line ended =
        let old = get_or (dict_get (log_path id) files) [] in
        let new = old ++ (json.dumps_event event ++ 10 ∷ []) in
        let found = get-set (log_path id) new files in
        (
          ap (read_content json) found
              ∙ read_content-append json old event line ended
              ∙ ap (λ l. l ++ event ∷ []) (read_old (dict_get (log_path id) files)),
          HasEnd_of (dict_get (log_path id) (dict_set (log_path id) new files)) found,
          λ other n. ap (read_content json) (
              get-set_other (log_path id) (log_path other) (λ e. n (log_path-eq other id e)) new
                files),
          λ other. ap (load_content json new_id now no_meta) (
              get-set_other (log_path id) (state_path other) (state_path-ne-log_path other id) new
                files),
        )
      where
        read_old : (o : Option Text) → read_content json (some (get_or o [])) ≡ read_content json o
        read_old none = unfold read_content in refl
        read_old (some content) = refl

        HasEnd_of :
            (o : Option Text)
            → o
              ≡ some
                  (get_or (dict_get (log_path id) files) [] ++ (json.dumps_event event ++ 10 ∷ []))
            → HasEnd (get_or o [])
        HasEnd_of o e =
            let old = get_or (dict_get (log_path id) files) [] in
            subst (λ z. HasEnd (get_or z [])) (sym e)
              (inr (
                old ++ json.dumps_event event,
                sym (append_assoc old (json.dumps_event event) (10 ∷ [])),
              ))
