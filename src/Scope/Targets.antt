-- ===== src/Scope/Targets.antt =====
-- Which targets the enforcer lets through, told without its string tests.
use helios_net.Prelude.{
  ◌≡◌, ◌≢◌, refl, sym, subst, ◌↔◌, ◌⊎◌, inl, inr, true, false, Bool-cases, none, some, Option-cases,
  [], ◌∷◌, ◌++◌, In, any→In, In→any, arith,
}
use helios_net.Prelude.Text.{
  Text, eqb_text, eqb_text_refl, eqb_text→eq, ends_with-append, ends_with→eq,
}
use helios_net.Scope.{
  IpAddress, ScopeEnforcer, normalise, in_domain, is_name_allowed, is_target_allowed,
}

-- The name is the domain, or stands under it after a dot.
abbrev pub IsUnder : Text → Text → Type 0
IsUnder name d = (name ≡ d) ⊎ ((front : Text) × (name ≡ front ++ b'.' ∷ d))

in_domain→IsUnder : (name d : Text) → in_domain name d ≡ true → IsUnder name d
unfolding in_domain
in_domain→IsUnder name d h = elim (Bool-cases (eqb_text name d)) [
  | inl e ↦ inl (eqb_text→eq name d e)
  | inr e ↦ inr (ends_with→eq name (b'.' ∷ d) (ground arith))
]

IsUnder→in_domain : (name d : Text) → IsUnder name d → in_domain name d ≡ true
unfolding in_domain
IsUnder→in_domain name d (inl e) =
    let same : eqb_text name d ≡ true =
      subst (λ t. eqb_text name t ≡ true) e (eqb_text_refl name) in
    ground (arith, same)
IsUnder→in_domain name d (inr (front, e)) =
    subst (λ t. in_domain t d ≡ true) (sym e)
      (unfold in_domain in ground (arith, ends_with-append front (b'.' ∷ d)))

false_not_true : ¬ (false ≡ true)
false_not_true h = ground arith

module _ {Address Network : Type 0} (ip : IpAddress Address Network) where
  -- An address in a network of the scope, or a name under a domain of it.
  pub data Authorized (e : ScopeEnforcer Network) (name : Text) : Type 0 where
    by_network :
        (address : Address) (network : Network)
        → ip.ip_address name ≡ some address
        → In network e.networks
        → ip.contains network address ≡ true
        → Authorized e name
    by_domain :
        (d : Text) → ip.ip_address name ≡ none → In d e.domains → IsUnder name d → Authorized e name

  name-Authorized :
      (e : ScopeEnforcer Network) (name : Text)
      → is_name_allowed ip e name ≡ true
      → Authorized e name
  unfolding is_name_allowed
  name-Authorized e name h = elim (Option-cases (ip.ip_address name)) [
    | inl f ↦
        let (d, i, u) = any→In (in_domain name) e.domains (rw (is_name_allowed, f) at h) in
        by_domain d f i (in_domain→IsUnder name d u)
    | inr (address, f) ↦
        let (network, i, c) =
          any→In (λ n. ip.contains n address) e.networks (rw (is_name_allowed, f) at h) in
        by_network address network f i c
  ]

  Authorized-name :
      (e : ScopeEnforcer Network) (name : Text)
      → Authorized e name
      → is_name_allowed ip e name ≡ true
  unfolding is_name_allowed
  Authorized-name e name (by_network address network f i c) =
      rw (is_name_allowed, f) (In→any (λ n. ip.contains n address) network e.networks i c)
  Authorized-name e name (by_domain d f i u) =
      rw (is_name_allowed, f) (In→any (in_domain name) d e.domains i (IsUnder→in_domain name d u))

  -- A target is allowed just where its normalised name is not empty and either is an address of a
  -- network of the scope, or is no address and equals a domain of the scope or ends in a dot and one.
  pub is_target_allowed_iff :
      (e : ScopeEnforcer Network) (target : Text)
      → (is_target_allowed ip e target ≡ true)
        ↔ ((normalise target ≢ []) × Authorized e (normalise target))
  unfolding is_target_allowed
  is_target_allowed_iff e target =
      (allowed→ (normalise target) refl, λ h. →allowed (normalise target) refl h.0 h.1)
    where
      allowed→ :
          (name : Text)
          → normalise target ≡ name
          → is_target_allowed ip e target ≡ true
          → (name ≢ []) × Authorized e name
      allowed→ [] f h = absurd (false_not_true (rw (is_target_allowed, f) at h))
      allowed→ (c ∷ s) f h =
          (λ g. ground arith, name-Authorized e (c ∷ s) (rw (is_target_allowed, f) at h))

      →allowed :
          (name : Text)
          → normalise target ≡ name
          → name ≢ []
          → Authorized e name
          → is_target_allowed ip e target ≡ true
      →allowed [] f h a = absurd (h refl)
      →allowed (c ∷ s) f h a = rw (is_target_allowed, f) (Authorized-name e (c ∷ s) a)
