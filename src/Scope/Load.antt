-- ===== src/Scope/Load.antt =====
-- `_validate_document` of core/scope.py on what the parser returns, and what a loaded scope promises.
pub mod Samples
use helios_net.Prelude.{
  ◌≡◌, if◌then◌else◌, Option, none, some, List, [], ◌∷◌, map, All, ◌⊎◌, inl, inr, ℕ, ◌<◌, true,
  false, ◌++◌,
}
use helios_net.Prelude.Int.{ℤ, pos, ltb_ℤ}
use helios_net.Prelude.Text.{Text, lower, drop_while_end}
use helios_net.Prelude.Trim.{NotLast}
use helios_net.Scope.{rstrip_dots}
use helios_net.Scope.Config.{Leaf, string, integer, boolean, other, Malformed, ports_of, strings_of}
use helios_net.Scope.Document.{LineError, Body, parse_scope_yaml}

pub data RateError : Type 0 where
  not_a_number negative_rate : RateError

pub data LoadError : Type 0 where
  bad_line : LineError → LoadError
  bad_list : Malformed → LoadError
  bad_rate : RateError → LoadError

pub record ScopeConfig : Type 0 where
  pub domains : List Text
  pub cidrs : List Text
  pub ports : List ℤ

-- The loop over `rate_limit.items()`; the parser makes no number that is not an integer.
unfoldable pub rate_error : List (Text × Leaf) → Option RateError
rate_error [] = none
rate_error ((key, integer n) ∷ rates) =
    let rest = rate_error rates in if ltb_ℤ n (pos 0) then some negative_rate else rest
rate_error ((key, string s) ∷ rates) = some not_a_number
rate_error ((key, boolean b) ∷ rates) = some not_a_number
rate_error ((key, other) ∷ rates) = some not_a_number

-- `body.get(key, [])`
abbrev pub or_empty : {A : Type 0} → Option (List A) → List A
or_empty none = []
or_empty (some items) = items

-- `d.lower().rstrip(".")`
unfoldable pub domain_of : Text → Text
unfolding rstrip_dots
domain_of d = rstrip_dots (lower d)

-- The first check that fails is the error.
unfoldable pub config_of :
    Malformed ⊎ List Text
    → Malformed ⊎ List Text
    → Malformed ⊎ List ℤ
    → Option RateError
    → LoadError ⊎ ScopeConfig
unfolding domain_of
config_of (inl err) cidrs ports rate = inl (bad_list err)
config_of (inr domains) (inl err) ports rate = inl (bad_list err)
config_of (inr domains) (inr cidrs) (inl err) rate = inl (bad_list err)
config_of (inr domains) (inr cidrs) (inr ports) (some err) = inl (bad_rate err)
config_of (inr domains) (inr cidrs) (inr ports) none =
    inr (record { domains = map domain_of domains; cidrs = cidrs; ports = ports })

-- `_validate_document` of the mapping under `scope`
unfoldable pub validate_body : Body → LoadError ⊎ ScopeConfig
unfolding config_of rate_error ports_of strings_of
validate_body body =
    config_of (strings_of (some (or_empty body.domain_items)))
      (strings_of (some (or_empty body.cidr_items))) (ports_of (some (or_empty body.port_items)))
      (rate_error (or_empty body.rates))

unfoldable pub then_validate : LineError ⊎ Body → LoadError ⊎ ScopeConfig
unfolding validate_body
then_validate (inl err) = inl (bad_line err)
then_validate (inr body) = validate_body body

-- `load_scope_config` of a file that is not JSON, given its lines
unfoldable pub load_scope : List Text → LoadError ⊎ ScopeConfig
unfolding then_validate parse_scope_yaml
load_scope lines = then_validate (parse_scope_yaml lines)

-- An entry of `rate_limit` is a number that is not negative.
abbrev pub IsRate : Text × Leaf → Type 0
IsRate (key, leaf) = (n : ℕ) × (leaf ≡ integer (pos n))

-- No capital letter, and no dot at the end
abbrev pub IsDomain : Text → Type 0
IsDomain d = All (λ c. (c < b'A') ⊎ (b'Z' < c)) d × NotLast (λ c. c ≡ b'.') d
