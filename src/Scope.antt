-- ===== src/Scope.antt =====
-- `ScopeEnforcer` of core/scope.py: the targets and the ports that an engagement may touch.
pub mod Targets
pub mod Ports
pub mod Config
pub mod Document
pub mod Quoted
pub mod Load
pub mod Samples
use helios_net.Prelude.{
  Bool, true, false, not, ◌&&◌, ◌||◌, if◌then◌else◌, ◌==◌, Option, none, some, List, [], ◌∷◌, map,
  any, keep,
}
use helios_net.Prelude.Int.{ℤ, eqb_ℤ, leb_ℤ}
use helios_net.Prelude.Sort.{sort_by}
use helios_net.Prelude.Eq.{ℤ_eq}
use helios_net.Prelude.Sets.{to_set, difference}
use helios_net.Prelude.Text.{Text, eqb_text, is_space, lower, drop_while, drop_while_end, ends_with}

-- The module `ipaddress` of the standard library; `none` is its `ValueError`.
pub record IpAddress (Address Network : Type 0) : Type 0 where
  pub ip_address : Text → Option Address
  pub ip_network : Text → Option Network
  pub contains : Network → Address → Bool

pub record ScopeEnforcer (Network : Type 0) : Type 0 where
  pub networks : List Network
  pub domains : List Text
  pub ports : List ℤ

-- `ScopeError`, with what its message names.
pub data ScopeError : Type 0 where
  bad_target : Text → ScopeError
  bad_ports : List ℤ → ScopeError

-- `s.strip()`
unfoldable pub strip : Text → Text
unfolding drop_while drop_while_end
strip s = drop_while_end is_space (drop_while is_space s)

-- `s.rstrip(".")`
unfoldable pub rstrip_dots : Text → Text
unfolding drop_while_end
rstrip_dots = drop_while_end (λ c. c == b'.')

-- `s.strip().lower().rstrip(".")`
unfoldable pub normalise : Text → Text
unfolding strip rstrip_dots
normalise s = rstrip_dots (lower (strip s))

-- `name == d or name.endswith("." + d)`
unfoldable pub in_domain : Text → Text → Bool
unfolding ends_with
in_domain name d = eqb_text name d || ends_with name (b'.' ∷ d)

-- A set of the numbers that are not allowed.
unfoldable pub not_allowed : List ℤ → List ℤ → List ℤ
unfolding to_set
not_allowed allowed ports = difference (to_set ports) allowed

module _ {Address Network : Type 0} (ip : IpAddress Address Network) where
  unfoldable pub ip_networks : List Text → Option (List Network)
  ip_networks [] = some []
  ip_networks (cidr ∷ cidrs) =
      let rest = ip_networks cidrs in
      elim (ip.ip_network cidr) [
        | none ↦ none
        | some network ↦ elim rest [ none ↦ none | some networks ↦ some (network ∷ networks) ]
      ]

  -- `ScopeEnforcer(allowed_cidrs, allowed_domains, ports)`
  unfoldable pub scope_enforcer : List Text → List Text → List ℤ → Option (ScopeEnforcer Network)
  unfolding normalise ip_networks
  scope_enforcer cidrs domains ports = elim (ip_networks cidrs) [
    | none ↦ none
    | some networks ↦
        some (record { networks = networks; domains = map normalise domains; ports = ports })
  ]

  -- The decision on a normalised name that is not empty.
  unfoldable pub is_name_allowed : ScopeEnforcer Network → Text → Bool
  is_name_allowed e name = elim (ip.ip_address name) [
    | none ↦ any (in_domain name) e.domains
    | some address ↦ any (λ network. ip.contains network address) e.networks
  ]

  unfoldable pub is_target_allowed : ScopeEnforcer Network → Text → Bool
  is_target_allowed e target = elim (normalise target) [
    | [] ↦ false
    | c ∷ s ↦ is_name_allowed e (c ∷ s)
  ]

  -- `none` is a return, `some` what is raised.
  unfoldable pub check : ScopeEnforcer Network → Text → Option ScopeError
  check e target = if is_target_allowed e target then none else some (bad_target target)

-- Raises where there is an offending port.
unfoldable pub refuse : List ℤ → Option ScopeError
refuse [] = none
refuse (p ∷ ps) = some (bad_ports (p ∷ ps))

module _ {Network : Type 0} where
  -- Without ports in the scope every port may be asked for.
  unfoldable pub check_ports : ScopeEnforcer Network → List ℤ → Option ScopeError
  check_ports e ports = elim e.ports [
    | [] ↦ none
    | q ∷ qs ↦ refuse (sort_by leb_ℤ (not_allowed (q ∷ qs) ports))
  ]
