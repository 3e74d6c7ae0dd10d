-- ===== src/Campaign/State.antt =====
-- `to_dict` and `from_dict` of core/state.py: a campaign as the dictionary that the store writes.
use mathlib.Core.Option.{get_or}
use helios_net.Prelude.{
  ℕ, String, ◌≡◌, ◌≢◌, refl, ap, ◌∙◌, ◌⊎◌, inl, inr, Option, none, some, [], ◌∷◌,
}
use helios_net.Prelude.Text.{Text}
use helios_net.Scope.{strip}
use helios_net.Campaign.{Meta, CampaignState}

-- The dictionary by its keys; `none` is a missing key, and for `campaign_id` and `completed_at` also
-- the value None, which the code treats alike.
pub record StateDict (M : Type 0) : Type 0 where
  pub campaign_id : Option Text
  pub target : Option Text
  pub status : Option String
  pub meta : Option (Meta M)
  pub created_at : Option ℕ
  pub updated_at : Option ℕ
  pub completed_at : Option ℕ

-- The `KeyError` of a missing target and the `ValueError` of a blank one.
pub data DictError : Type 0 where
  no_target blank_target : DictError

-- `campaign_id or uuid.uuid4().hex`
unfoldable pub id_or : Text → Option Text → Text
id_or new_id none = new_id
id_or new_id (some []) = new_id
id_or new_id (some (c ∷ s)) = c ∷ s

id_or-some : (new_id id : Text) → id ≢ [] → id_or new_id (some id) ≡ id
unfolding id_or
id_or-some new_id [] n = absurd (n refl)
id_or-some new_id (c ∷ s) n = refl

module _ {M : Type 0} where
  unfoldable pub to_dict : CampaignState M → StateDict M
  to_dict state = record {
    campaign_id = some state.campaign_id;
    target = some state.target;
    status = some state.status;
    meta = some state.meta;
    created_at = some state.created_at;
    updated_at = some state.updated_at;
    completed_at = state.completed_at;
  }

  -- `from_dict` once the target is stripped, with the id that `uuid4` draws, the time, and the empty
  -- meta
  unfoldable pub from_target : Text → ℕ → Meta M → StateDict M → Text → DictError ⊎ CampaignState M
  unfolding id_or
  from_target new_id now no_meta d [] = inl blank_target
  from_target new_id now no_meta d (c ∷ s) =
      let created_at = get_or d.created_at now in
      inr (record {
        campaign_id = id_or new_id d.campaign_id;
        target = c ∷ s;
        status = get_or d.status "idle";
        meta = get_or d.meta no_meta;
        created_at = created_at;
        updated_at = get_or d.updated_at created_at;
        completed_at = d.completed_at;
      })

  unfoldable pub from_dict : Text → ℕ → Meta M → StateDict M → DictError ⊎ CampaignState M
  unfolding from_target
  from_dict new_id now no_meta d = elim d.target [
    | none ↦ inl no_target
    | some target ↦ from_target new_id now no_meta d (strip target)
  ]

  -- An id that is not empty, and a target as the constructor leaves it
  pub record IsWhole (state : CampaignState M) : Type 0 where
    pub named : state.campaign_id ≢ []
    pub aimed : state.target ≢ []
    pub stripped : strip state.target ≡ state.target

  from_target-some :
      (new_id : Text) (now : ℕ) (no_meta : Meta M) (state : CampaignState M) (t : Text)
      → t ≢ []
      → from_target new_id now no_meta (to_dict state) t
        ≡ inr (record state { campaign_id = id_or new_id (some state.campaign_id); target = t })
  unfolding from_target to_dict
  from_target-some new_id now no_meta state [] n = absurd (n refl)
  from_target-some new_id now no_meta state (c ∷ s) n = refl

  -- A campaign whose id is not empty and whose target is stripped and not empty comes back from its
  -- dictionary, whatever its status and times and whatever the clock and `uuid4` say.
  pub from_dict-to_dict :
      (new_id : Text) (now : ℕ) (no_meta : Meta M) (state : CampaignState M)
      → IsWhole state
      → from_dict new_id now no_meta (to_dict state) ≡ inr state
  unfolding from_dict to_dict
  from_dict-to_dict new_id now no_meta state whole =
      ap (from_target new_id now no_meta (to_dict state)) whole.stripped
      ∙ from_target-some new_id now no_meta state state.target whole.aimed
      ∙ ap (λ id. inr (record state { campaign_id = id }))
          (id_or-some new_id state.campaign_id whole.named)
