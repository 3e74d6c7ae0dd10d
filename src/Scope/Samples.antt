-- ===== src/Scope/Samples.antt =====
-- Runs of the scope enforcer on small inputs, and each theorem of it at one.
use helios_net.Prelude.{
  ◌≡◌, ◌≢◌, ◌↔◌, refl, true, false, ◌||◌, ◌&&◌, ◌==◌, leb, if◌then◌else◌, Option, none, some, List,
  [], ◌∷◌, all,
}
use helios_net.Prelude.Int.{ℤ, pos}
use helios_net.Prelude.Sort.{sort_by}
use helios_net.Prelude.Text.{Text, codes, starts_with}
use helios_net.Prelude.Sets.{to_set}
use helios_net.Scope.{
  IpAddress, ScopeEnforcer, bad_ports, normalise, in_domain, is_name_allowed, not_allowed, refuse,
  is_target_allowed, check_ports, scope_enforcer,
}
use helios_net.Scope.Config.{string, strings_of}
use helios_net.Prelude.{inr}
use helios_net.Scope.Targets.{Authorized, is_target_allowed_iff}
use helios_net.Scope.Ports.{Judges, check_ports-Judges}

-- Addresses are made of digits and dots, and a network is the start that its addresses share.
abbrev small_address : Text → Option Text
small_address s = if all (λ c. leb 48 c && leb c 57 || c == 46) s then some s else none

abbrev pub small_ip : IpAddress Text Text
small_ip = record {
  ip_address = small_address;
  ip_network = some;
  contains = λ network address. starts_with address network;
}

abbrev pub lab : ScopeEnforcer Text
lab = record {
  networks = codes "10.0." ∷ [];
  domains = codes "lab.test" ∷ [];
  ports = pos 443 ∷ pos 80 ∷ [];
}

lab_built :
    scope_enforcer small_ip (codes "10.0." ∷ []) (codes " Lab.TEST. " ∷ []) (pos 443 ∷ pos 80 ∷ [])
    ≡ some lab
unfolding scope_enforcer
lab_built = refl

subdomain : is_target_allowed small_ip lab (codes "WWW.Lab.test.") ≡ true
unfolding is_target_allowed normalise is_name_allowed in_domain
subdomain = refl

-- A name that only ends in the same letters is outside.
lookalike : is_target_allowed small_ip lab (codes "evil-lab.test") ≡ false
unfolding is_target_allowed normalise is_name_allowed in_domain
lookalike = refl

outside_ports :
    check_ports lab (pos 22 ∷ pos 80 ∷ pos 21 ∷ pos 22 ∷ [])
    ≡ some (bad_ports (pos 21 ∷ pos 22 ∷ []))
unfolding check_ports refuse sort_by not_allowed to_set
outside_ports = refl

is_target_allowed_iff_example : (is_target_allowed small_ip lab (codes "WWW.Lab.test.") ≡ true) ↔ (
    (normalise (codes "WWW.Lab.test.") ≢ [])
    × Authorized small_ip lab (normalise (codes "WWW.Lab.test.")))
is_target_allowed_iff_example = is_target_allowed_iff small_ip lab (codes "WWW.Lab.test.")

abbrev asked_ports : List ℤ
asked_ports = pos 22 ∷ pos 80 ∷ pos 21 ∷ pos 22 ∷ []

check_ports-Judges_example : Judges lab asked_ports (check_ports lab asked_ports)
check_ports-Judges_example = check_ports-Judges lab asked_ports

abbrev listed_ports : List ℤ
listed_ports = pos 80 ∷ pos 65535 ∷ []

listed_names : strings_of (some (string (codes " lab.test ") ∷ [])) ≡ inr (codes "lab.test" ∷ [])
unfolding strings_of
listed_names = refl
