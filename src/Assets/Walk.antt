-- ===== src/Assets/Walk.antt =====
-- `discover_assets` of modules/discovery/assets.py.
use helios_net.Prelude.{
  ℕ, zero, suc, ◌+◌, Bool, false, not, ◌||◌, ◌&&◌, if◌then◌else◌, ltb, leb, Option, none, some,
  List, [], ◌∷◌, ◌++◌, keep, any, length,
}
use helios_net.Prelude.Int.{ℤ, pos, eqb_ℤ, pos_part}
use helios_net.Prelude.Text.{Text, eqb_text, codes}
use helios_net.Scope.{IpAddress, ScopeEnforcer, normalise, is_target_allowed}
use helios_net.Assets.{
  Request, Response, Outside, Blocked, name_outside_scope, unresolved, resolved_outside_scope,
  Finding, Document, Link, is_vhost,
}
use helios_net.Assets.Redirects.{Hop, is_nil, max_redirects, follow_redirects, probe_documents}

-- A host that was resolved to allowed addresses
pub record HostEntry : Type 0 where
  pub host : Text
  pub addresses : List Text
  pub depth : ℕ

-- The variables of the walk, with the requests that were sent
pub record Walk : Type 0 where
  pub queue : List (Text × ℕ)
  pub seen : List Text
  pub hosts : List HostEntry
  pub findings : List Finding
  pub blocked : List Blocked
  pub requests : ℕ
  pub trace : List Request

-- The settings of the walk
pub record Settings : Type 0 where
  pub ct : Bool
  pub depth : ℕ
  pub max_hosts : ℕ
  pub max_requests : ℕ
  pub plan : List ℤ
  pub deep : Bool

abbrev pub document_paths : List Text
document_paths = codes "/.well-known/security.txt" ∷ codes "/robots.txt" ∷ []

unfoldable pub then_walk : Option Walk → (Walk → Option Walk) → Option Walk
then_walk none continue = none
then_walk (some w) continue = continue w

module _ (is_allowed : Text → Bool) (out : Outside) (settings : Settings) where
  abbrev pub has_budget : Walk → Bool
  has_budget w = ltb w.requests settings.max_requests

  unfoldable pub request_to : Text → Text → ℤ → Option Text → Request
  request_to name ip port host_header = record {
    host = name;
    ip = ip;
    port = port;
    scheme = none;
    path = codes "/";
    host_header = host_header;
    capture_body = false;
  }

  -- `probe(...)` and `requests += 1`
  abbrev pub sent : Request → Walk → Walk
  sent request w = record w { requests = w.requests + 1; trace = w.trace ++ request ∷ [] }

  -- The finding of an open port, once its documents are known
  unfoldable pub add_finding :
      Text → Text → ℤ → Response → Bool → List Link → List Document → Walk → Walk
  add_finding name ip port candidate vhost chain documents w =
      let finding : Finding = record {
        host = name;
        ip = ip;
        port = port;
        response = candidate;
        vhost = vhost;
        redirects = chain;
        documents = documents;
      } in
      record w { findings = w.findings ++ finding ∷ [] }

  unfoldable pub with_documents : Text → Text → ℤ → Response → Bool → List Link → Walk → Walk
  unfolding add_finding probe_documents
  with_documents name ip port candidate vhost chain w =
      let d =
        probe_documents is_allowed out (has_budget w) name ip port candidate.scheme document_paths
          (record { documents = []; doc_used = 0; doc_trace = w.trace }) in
      if settings.deep && has_budget w
      then add_finding name ip port candidate vhost chain d.documents
          (record w { requests = w.requests + d.doc_used; trace = d.doc_trace })
      else add_finding name ip port candidate vhost chain [] w

  -- `requests += used`, and what follows
  unfoldable pub after_redirects :
      Text → Text → ℤ → Response → Bool → Walk → Option Hop → Option Walk
  unfolding with_documents
  after_redirects name ip port candidate vhost w none = none
  after_redirects name ip port candidate vhost w (some hop) = some (
      with_documents name ip port candidate vhost hop.chain (record w {
        requests = w.requests + hop.used;
        blocked = w.blocked ++ hop.blocked;
        trace = hop.trace;
      }))

  unfoldable pub with_redirects : Text → Text → ℤ → Response → Bool → Walk → Option Walk
  unfolding after_redirects
  with_redirects name ip port candidate vhost w = after_redirects name ip port candidate vhost w (
      follow_redirects is_allowed out (has_budget w) max_redirects name (record {
        current = candidate;
        host = name;
        ip = ip;
        port = port;
        scheme = candidate.scheme;
        chain = [];
        blocked = [];
        used = 0;
        trace = w.trace;
      }))

  -- The request by address, to tell a virtual host
  unfoldable pub with_baseline : Text → Text → ℤ → Response → Walk → Option Walk
  unfolding with_redirects request_to
  with_baseline name ip port candidate w =
      let request = request_to name ip port (some ip) in
      if has_budget w
      then with_redirects name ip port candidate (is_vhost candidate (out.probe w.trace request))
          (sent request w)
      else with_redirects name ip port candidate false w

  unfoldable pub visit_port : Text → Text → ℤ → Walk → Option Walk
  unfolding with_baseline request_to
  visit_port name ip port w =
      let request = request_to name ip port none in
      let candidate = out.probe w.trace request in
      if not candidate.is_open
      then some (sent request w)
      else with_baseline name ip port candidate (sent request w)

  -- `for port in plan`, which a spent budget breaks
  unfoldable pub visit_ports : Text → Text → List ℤ → Walk → Option Walk
  unfolding visit_port then_walk
  visit_ports name ip [] w = some w
  visit_ports name ip (port ∷ ports) w =
      if leb settings.max_requests w.requests
      then some w
      else then_walk (visit_port name ip port w) (visit_ports name ip ports)

  -- `for ip in allowed`
  unfoldable pub visit_addresses : Text → List Text → Walk → Option Walk
  unfolding visit_ports then_walk
  visit_addresses name [] w = some w
  visit_addresses name (ip ∷ ips) w =
      then_walk (visit_ports name ip settings.plan w) (visit_addresses name ips)

  -- What becomes of a name that Certificate Transparency gave
  unfoldable pub add_child : ℕ → Walk → Text → Walk
  add_child level w child =
      if any (eqb_text child) w.seen
      then w
      else if not (is_allowed child)
      then record w { blocked = w.blocked ++ name_outside_scope child ∷ [] }
      else record w { queue = w.queue ++ (child, level + 1) ∷ [] }

  unfoldable pub add_children : ℕ → List Text → Walk → Walk
  unfolding add_child
  add_children level [] w = w
  add_children level (child ∷ children) w = add_children level children (add_child level w child)

  unfoldable pub expand : Text → ℕ → Walk → Walk
  unfolding add_children
  expand name level w =
      if settings.ct
        && (ltb level settings.depth && ltb (length w.seen + length w.queue) settings.max_hosts)
      then add_children level (out.fetch_ct_names w.trace name) w
      else w

  unfoldable pub then_expand : Text → ℕ → Option Walk → Option Walk
  unfolding expand
  then_expand name level none = none
  then_expand name level (some w) = some (expand name level w)

  -- Once a name is allowed and its addresses are known
  unfoldable pub visit_host : Text → ℕ → List Text → List Text → Walk → Option Walk
  unfolding visit_addresses then_expand expand
  visit_host name level [] [] w =
      some (expand name level (record w { blocked = w.blocked ++ unresolved name ∷ [] }))
  visit_host name level (a ∷ addresses) [] w =
      some (record w { blocked = w.blocked ++ resolved_outside_scope name (a ∷ addresses) ∷ [] })
  visit_host name level addresses (ip ∷ ips) w = then_expand name level (
      visit_addresses name (ip ∷ ips) (record w {
        hosts = w.hosts ++ record { host = name; addresses = ip ∷ ips; depth = level } ∷ [];
      }))

  -- A name that was not seen before, now in `seen`
  unfoldable pub visit_name : Text → ℕ → Walk → Option Walk
  unfolding visit_host
  visit_name name level w =
      if not (is_allowed name)
      then some (record w { blocked = w.blocked ++ name_outside_scope name ∷ [] })
      else let addresses = out.resolve w.trace name in
        visit_host name level addresses (keep is_allowed addresses) w

  -- The `while` loop on the queue. The first number counts the names that may still be seen, which is
  -- `max_hosts - len(seen)`, so zero is the end of the loop by its second test.
  unfoldable pub walk : ℕ → List (Text × ℕ) → Walk → Option Walk
  unfolding visit_name
  walk zero queue w = some (record w { queue = queue })
  walk (suc left) [] w = some (record w { queue = [] })
  walk (suc left) ((name, level) ∷ queue) w =
      let skipped = walk (suc left) queue w in
      let visited =
        then_walk (visit_name name level (record w { queue = queue; seen = w.seen ++ name ∷ [] }))
          (λ w'. walk left w'.queue w') in
      if not (has_budget w)
      then some (record w { queue = (name, level) ∷ queue })
      else if any (eqb_text name) w.seen
      then skipped
      else visited

-- `dict.fromkeys`
unfoldable pub from_keys : List ℤ → List ℤ → List ℤ
from_keys known [] = []
from_keys known (p ∷ ports) =
    let fresh = from_keys (p ∷ known) ports in
    let rest = from_keys known ports in if any (eqb_ℤ p) known then rest else p ∷ fresh

-- The queue of the names of the seeds
unfoldable pub seed_queue : List Text → List (Text × ℕ)
unfolding normalise
seed_queue [] = []
seed_queue (seed ∷ seeds) =
    let rest = seed_queue seeds in
    if is_nil (normalise seed) then rest else (normalise seed, 0) ∷ rest

abbrev pub web_ports : List ℤ
web_ports = pos 80 ∷ pos 443 ∷ pos 8080 ∷ pos 8443 ∷ []

-- `web_ports`, or those of the scope
unfoldable pub ports_or : Option (List ℤ) → List ℤ → List ℤ
ports_or (some ports) allowed = ports
ports_or none allowed = keep (λ p. is_nil allowed || any (eqb_ℤ p) allowed) web_ports

-- `max(1, n)` and `max(0, n)`
unfoldable pub at_least_one : ℤ → ℕ
at_least_one n = elim (pos_part n) [ zero ↦ 1 | suc m ↦ suc m ]

abbrev pub no_walk : List (Text × ℕ) → Walk
no_walk queue = record {
  queue = queue;
  seen = [];
  hosts = [];
  findings = [];
  blocked = [];
  requests = 0;
  trace = [];
}

module _ {Address Network : Type 0} (ip : IpAddress Address Network) (scope : ScopeEnforcer Network)
    (out : Outside) where
  -- The settings of a call, in the order of its arguments
  unfoldable pub settings_of : Bool → ℤ → ℤ → ℤ → Option (List ℤ) → Bool → Settings
  unfolding at_least_one ports_or from_keys
  settings_of ct depth max_hosts max_requests ports deep = record {
    ct = ct;
    depth = pos_part depth;
    max_hosts = at_least_one max_hosts;
    max_requests = pos_part max_requests;
    plan = from_keys [] (ports_or ports scope.ports);
    deep = deep;
  }

  -- `discover_assets`; `none` is the `ValueError` of the port of a redirect.
  unfoldable pub discover_assets : List Text → Settings → Option Walk
  unfolding walk seed_queue
  discover_assets seeds settings =
      walk (is_target_allowed ip scope) out settings settings.max_hosts (seed_queue seeds)
        (no_walk [])
