-- ===== src/Assets/InScope.antt =====
-- What the walk sends: its requests are in scope, counted and bounded.
pub mod Hops
pub mod Invariant
pub mod Ports
use helios_net.Prelude.{
  ℕ, zero, suc, ◌+◌, ◌≤◌, ◌≡◌, refl, subst, sym, Bool, true, false, not, Bool-cases, Option, none,
  some, List, [], ◌∷◌, ◌++◌, keep, All, All-append, length, length-append, arith, inl, inr, ltb,
  leb, In, ◌&&◌, ◌||◌, any, if◌then◌else◌,
}
use helios_net.Prelude.Int.{ℤ}
use helios_net.Prelude.Text.{Text, codes, eqb_text}
use helios_net.Assets.{
  Request, Response, Outside, Finding, Link, Document, is_vhost, name_outside_scope,
}
use helios_net.Assets.Redirects.{Hop, max_redirects, follow_redirects, Documents, probe_documents}
use helios_net.Assets.Walk.{
  Walk, HostEntry, Settings, then_walk, request_to, add_finding, with_documents, after_redirects,
  with_redirects, with_baseline, visit_port, visit_ports, visit_addresses, has_budget, sent,
  document_paths, add_child, add_children, expand, then_expand, visit_host, visit_name, walk,
  discover_assets, seed_queue, no_walk,
}
use helios_net.Scope.{IpAddress, ScopeEnforcer, is_target_allowed}
use helios_net.Assets.InScope.Hops.{
  IsInScope, HasBadPort, HopResult, follow_redirects_lem, documents-Tracked, All-keep,
}
use helios_net.Assets.InScope.Invariant.{
  IsFound, IsHost, IsSent, IsListed, IsWalk, Holds, then_walk-Holds, if-Holds, IsBounded,
}
use helios_net.Assets.InScope.Ports.{visit_port-Kept}

module _ (is_allowed : Text → Bool) (out : Outside) (settings : Settings) where
  module _ (n m : ℕ) (name : Text) (name_ok : is_allowed name ≡ true) where
    visit_ports-Kept :
        (ip : Text) (ports : List ℤ) (w : Walk)
        → is_allowed ip ≡ true
        → ((p : ℤ) → In p ports → In p settings.plan)
        → IsBounded is_allowed out settings n m w
        → Holds is_allowed out settings
            (IsBounded is_allowed out settings n m)
            (visit_ports is_allowed out settings name ip ports w)
    unfolding visit_ports
    visit_ports-Kept ip [] w ok all k = k
    visit_ports-Kept ip (port ∷ ports) w ok all k =
        if-Holds is_allowed out settings (IsBounded is_allowed out settings n m)
          (leb settings.max_requests w.requests) _ _ (λ e. k)
          (λ e.
            then_walk-Holds is_allowed out settings (IsBounded is_allowed out settings n m)
              (IsBounded is_allowed out settings n m) _ _
              (visit_port-Kept is_allowed out settings n m name ip port name_ok ok
                (all port (inl refl)) w k e)
              (λ w' k'. visit_ports-Kept ip ports w' ok (λ p i. all p (inr i)) k'))

    visit_addresses-Kept :
        (ips : List Text) (w : Walk)
        → All (λ a. is_allowed a ≡ true) ips
        → IsBounded is_allowed out settings n m w
        → Holds is_allowed out settings
            (IsBounded is_allowed out settings n m)
            (visit_addresses is_allowed out settings name ips w)
    unfolding visit_addresses
    visit_addresses-Kept [] w ok k = k
    visit_addresses-Kept (ip ∷ ips) w ok k =
        then_walk-Holds is_allowed out settings (IsBounded is_allowed out settings n m)
          (IsBounded is_allowed out settings n m) _ _
          (visit_ports-Kept ip settings.plan w ok.0 (λ p i. i) k)
          (λ w' k'. visit_addresses-Kept ips w' ok.1 k')

  if-IsBounded :
      (n m : ℕ) (b : Bool) (v w : Walk)
      → IsBounded is_allowed out settings n m v
      → IsBounded is_allowed out settings n m w
      → IsBounded is_allowed out settings n m (if b then v else w)
  if-IsBounded n m true v w h k = h
  if-IsBounded n m false v w h k = k

  add_children-Kept :
      (n m level : ℕ) (children : List Text) (w : Walk)
      → IsBounded is_allowed out settings n m w
      → IsBounded is_allowed out settings n m
          (add_children is_allowed out settings level children w)
  unfolding add_children add_child
  add_children-Kept n m level [] w k = k
  add_children-Kept n m level (child ∷ children) w k = add_children-Kept n m level children _ (
      if-IsBounded n m (any (eqb_text child) w.seen) w _ k
        (if-IsBounded n m (not (is_allowed child)) _ _ k k))

  expand-Kept :
      (n m : ℕ) (name : Text) (level : ℕ) (w : Walk)
      → IsBounded is_allowed out settings n m w
      → IsBounded is_allowed out settings n m (expand is_allowed out settings name level w)
  unfolding expand
  expand-Kept n m name level w k =
      if-IsBounded n m _ _ w (add_children-Kept n m level (out.fetch_ct_names w.trace name) w k) k

  more_hosts :
      (n m : ℕ) (findings : List Finding) (hosts : List HostEntry) (seen : List Text)
      → IsListed is_allowed out settings n m findings hosts seen
      → IsListed is_allowed out settings n (suc m) findings hosts seen
  more_hosts n m findings hosts seen l = record {
    found = l.found;
    hosts_ok = l.hosts_ok;
    seen_count = l.seen_count;
    host_count = omega (arith, l.host_count);
  }

  then_expand-Kept :
      (n m level : ℕ) (name : Text) (o : Option Walk)
      → Holds is_allowed out settings (IsBounded is_allowed out settings n m) o
      → Holds is_allowed out settings
          (IsBounded is_allowed out settings n m)
          (then_expand is_allowed out settings name level o)
  unfolding then_expand
  then_expand-Kept n m level name none k = k
  then_expand-Kept n m level name (some w) k = expand-Kept n m name level w k

  visit_host-Kept :
      (n m : ℕ) (name : Text) (level : ℕ) (addresses allowed : List Text) (w : Walk)
      → is_allowed name ≡ true
      → All (λ a. is_allowed a ≡ true) allowed
      → IsBounded is_allowed out settings n m w
      → Holds is_allowed out settings
          (IsBounded is_allowed out settings n (suc m))
          (visit_host is_allowed out settings name level addresses allowed w)
  unfolding visit_host
  visit_host-Kept n m name level [] [] w ok all k =
      expand-Kept n (suc m) name level _ (k.0, more_hosts n m _ _ _ k.1)
  visit_host-Kept n m name level (a ∷ addresses) [] w ok all k = (k.0, more_hosts n m _ _ _ k.1)
  visit_host-Kept n m name level addresses (ip ∷ ips) w ok all k =
      then_expand-Kept n (suc m) level name _ (
        visit_addresses-Kept n (suc m) name ok (ip ∷ ips) _ all (
          k.0,
          record {
            found = k.1.found;
            hosts_ok =
                All-append (IsHost is_allowed out settings) w.hosts (_ ∷ []) k.1.hosts_ok
                  ((ok, all), tt);
            seen_count = k.1.seen_count;
            host_count = omega (arith, k.1.host_count, length-append w.hosts (entry ∷ []));
          },
        ))
    where
      entry : HostEntry
      entry = record { host = name; addresses = ip ∷ ips; depth = level }

  visit_name-Kept :
      (n m : ℕ) (name : Text) (level : ℕ) (w : Walk)
      → IsBounded is_allowed out settings n m w
      → Holds is_allowed out settings
          (IsBounded is_allowed out settings n (suc m))
          (visit_name is_allowed out settings name level w)
  unfolding visit_name
  visit_name-Kept n m name level w k =
      if-Holds is_allowed out settings (IsBounded is_allowed out settings n (suc m))
        (not (is_allowed name)) _ _ (λ e. (k.0, more_hosts n m _ _ _ k.1))
        (λ e.
          visit_host-Kept n m name level (out.resolve w.trace name)
            (keep is_allowed (out.resolve w.trace name)) w (ground (arith, e))
            (All-keep is_allowed (out.resolve w.trace name)) k)

  -- The result of a walk that may see `total` names
  abbrev pub IsResult : ℕ → Walk → Type 0
  IsResult total w =
      (n : ℕ) × (n ≤ total) × IsWalk is_allowed out settings n n (settings.max_requests + 1) w

  -- `n` names were seen, and `left` more may be.
  pub walk-Kept :
      (left n : ℕ) (queue : List (Text × ℕ)) (w : Walk)
      → IsWalk is_allowed out settings n n (settings.max_requests + 1) w
      → Holds is_allowed out settings
          (IsResult (n + left))
          (walk is_allowed out settings left queue w)
  unfolding walk
  walk-Kept zero n queue w k = (n, omega arith, k)
  walk-Kept (suc left) n [] w k = (n, omega arith, k)
  walk-Kept (suc left) n ((name, level) ∷ queue) w k =
      if-Holds is_allowed out settings (IsResult (n + suc left))
        (not (has_budget is_allowed out settings w)) _ _ (λ e. (n, omega arith, k))
        (λ e.
          if-Holds is_allowed out settings (IsResult (n + suc left)) (any (eqb_text name) w.seen) _
            _ (λ f. walk-Kept (suc left) n queue w k)
            (λ f.
              then_walk-Holds is_allowed out settings
                (IsBounded is_allowed out settings (suc n) (suc n)) (IsResult (n + suc left)) _ _
                (visit_name-Kept (suc n) n name level _ (
                  k.0,
                  record {
                    found = k.1.found;
                    hosts_ok = k.1.hosts_ok;
                    seen_count = omega (arith, k.1.seen_count, length-append w.seen (name ∷ []));
                    host_count = k.1.host_count;
                  },
                ))
                (λ w' k'.
                  subst
                    (λ total.
                      Holds is_allowed out settings (IsResult total)
                        (walk is_allowed out settings left w'.queue w'))
                    (omega arith) (walk-Kept left (suc n) w'.queue w' k'))))

module _ {Address Network : Type 0} (ip : IpAddress Address Network) (scope : ScopeEnforcer Network)
    (out : Outside) (settings : Settings) where
  -- The promise of a walk, by its result
  abbrev pub IsSafeWalk : Option Walk → Type 0
  IsSafeWalk none = HasBadPort out
  IsSafeWalk (some w) =
      All (IsInScope (is_target_allowed ip scope)) w.trace
      × (length w.trace ≡ w.requests)
      × (w.requests ≤ settings.max_requests + 1)
      × All (IsFound (is_target_allowed ip scope) out settings) w.findings
      × All (IsHost (is_target_allowed ip scope) out settings) w.hosts
      × (length w.hosts ≤ length w.seen)
      × (length w.seen ≤ settings.max_hosts)

  -- The walk returns, unless a location has a port that is no port. Then every request was sent to an
  -- allowed host at an allowed address, the count of requests is theirs and exceeds `max_requests` by
  -- one at most, each finding is about an allowed host at an allowed address and a port of the plan,
  -- each host and its addresses are allowed, and there are no more hosts than names seen, nor more of
  -- these than `max_hosts`.
  pub discover_assets-InScope :
      (seeds : List Text) → IsSafeWalk (discover_assets ip scope out seeds settings)
  unfolding discover_assets
  discover_assets-InScope seeds =
      result
        (walk (is_target_allowed ip scope) out settings settings.max_hosts (seed_queue seeds)
          (no_walk []))
        (walk-Kept (is_target_allowed ip scope) out settings settings.max_hosts 0 (seed_queue seeds)
          (no_walk [])
          (
            record { in_scope = tt; counted = refl; bounded = omega arith },
            record { found = tt; hosts_ok = tt; seen_count = refl; host_count = omega arith },
          ))
    where
      result :
          (o : Option Walk)
          → Holds
              (is_target_allowed ip scope)
              out
              settings
              (IsResult (is_target_allowed ip scope) out settings (0 + settings.max_hosts))
              o
          → IsSafeWalk o
      result none h = h
      result (some w) (n, le, k) = (
        k.0.in_scope,
        k.0.counted,
        k.0.bounded,
        k.1.found,
        k.1.hosts_ok,
        omega (arith, k.1.host_count, k.1.seen_count),
        omega (arith, le, k.1.seen_count),
      )
