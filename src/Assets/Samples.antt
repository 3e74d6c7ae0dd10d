-- ===== src/Assets/Samples.antt =====
-- A host that redirects for ever, and the walk over it.
use helios_net.Prelude.{
  ◌≡◌, refl, true, false, if◌then◌else◌, Option, none, some, List, [], ◌∷◌, map,
}
use helios_net.Prelude.Int.{ℤ, pos}
use helios_net.Prelude.Text.{Text, codes, eqb_text, starts_with}
use helios_net.Scope.{IpAddress, ScopeEnforcer, is_target_allowed, is_name_allowed, in_domain}
use helios_net.Assets.Redirects.{follow_redirects}
use helios_net.Assets.{
  Outside, UrlPort, no_port, bad_port, port_is, Response, is_redirect, redirect_target,
}
use helios_net.Assets.Walk.{Walk, Settings, discover_assets, settings_of}
use helios_net.Assets.InScope.{IsSafeWalk, discover_assets-InScope}

-- An address starts with a digit; a network is a prefix.
abbrev ip : IpAddress Text Text
ip = record {
  ip_address = λ t. if starts_with t (codes "10.") then some t else none;
  ip_network = λ t. some t;
  contains = λ network address. starts_with address network;
}

abbrev scope : ScopeEnforcer Text
scope = record { networks = codes "10.0." ∷ []; domains = codes "a.test" ∷ []; ports = pos 80 ∷ [] }

abbrev redirecting : Response
redirecting = record {
  is_open = true;
  scheme = codes "http";
  status = some 302;
  server = none;
  title = none;
  location = codes "next";
  content_type = [];
}

-- A location leads to port `p` of the same host.
abbrev outside : UrlPort → Outside
outside p = record {
  resolve = λ trace name.
      if eqb_text name (codes "a.test") then codes "10.0.0.1" ∷ [] else codes "10.9.0.1" ∷ [];
  probe = λ trace request. redirecting;
  fetch_ct_names = λ trace name. [];
  urlsplit = λ location.
      some (record { scheme = []; hostname = none; port = p; path = codes "/next"; query = [] });
}

abbrev settings : Settings
settings = settings_of ip scope (outside no_port) false (pos 1) (pos 50) (pos 3) none true

abbrev requests_of : Option Walk → Option (List ℤ)
requests_of none = none
requests_of (some w) = some (map (λ r. r.port) w.trace)

-- Three requests are allowed, and four are sent.
one_too_many :
    requests_of (discover_assets ip scope (outside no_port) (codes "A.test" ∷ []) settings)
    ≡ some (pos 80 ∷ pos 80 ∷ pos 80 ∷ pos 80 ∷ [])
unfolding discover_assets settings_of is_target_allowed is_name_allowed in_domain starts_with
    follow_redirects is_redirect redirect_target
one_too_many = refl

-- The scope has port 80, and port 22 is asked.
beyond_ports :
    requests_of
      (discover_assets ip scope (outside (port_is (pos 22))) (codes "a.test" ∷ []) settings)
    ≡ some (pos 80 ∷ pos 80 ∷ pos 22 ∷ pos 22 ∷ [])
unfolding discover_assets settings_of is_target_allowed is_name_allowed in_domain starts_with
    follow_redirects is_redirect redirect_target
beyond_ports = refl

crash : discover_assets ip scope (outside bad_port) (codes "a.test" ∷ []) settings ≡ none
unfolding discover_assets settings_of is_target_allowed is_name_allowed in_domain starts_with
    follow_redirects is_redirect redirect_target
crash = refl

name_blocked :
    requests_of (discover_assets ip scope (outside no_port) (codes "b.test" ∷ []) settings)
    ≡ some []
unfolding discover_assets settings_of is_target_allowed is_name_allowed in_domain starts_with
    follow_redirects is_redirect redirect_target
name_blocked = refl

discover_assets-InScope_example :
    IsSafeWalk ip scope
      (outside no_port)
      settings
      (discover_assets ip scope (outside no_port) (codes "a.test" ∷ []) settings)
discover_assets-InScope_example =
    discover_assets-InScope ip scope (outside no_port) settings (codes "a.test" ∷ [])
