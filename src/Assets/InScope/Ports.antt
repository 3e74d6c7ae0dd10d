-- ===== src/Assets/InScope/Ports.antt =====
-- One port of one address keeps the invariant of the walk.
use helios_net.Prelude.{
  ℕ, ◌+◌, ◌≤◌, ◌≡◌, refl, Bool, true, false, not, Bool-cases, Option, none, some, List, [], ◌∷◌,
  ◌++◌, All-append, length-append, arith, inl, inr, leb, In, ◌&&◌,
}
use helios_net.Prelude.Int.{ℤ}
use helios_net.Prelude.Text.{Text}
use helios_net.Assets.{Request, Response, Outside, Finding, Link}
use helios_net.Assets.Redirects.{Hop}
use helios_net.Assets.Walk.{
  Walk, HostEntry, Settings, request_to, add_finding, with_documents, after_redirects,
  with_redirects, with_baseline, visit_port, has_budget, document_paths,
}
use helios_net.Assets.InScope.Hops.{IsInScope, HopResult, follow_redirects_lem, documents-Tracked}
use helios_net.Assets.InScope.Invariant.{IsFound, IsSent, IsListed, IsWalk, Holds, if-Holds}

module _ (is_allowed : Text → Bool) (out : Outside) (settings : Settings) where
  module _ (n m : ℕ) (name ip : Text) (port : ℤ) (name_ok : is_allowed name ≡ true)
      (ip_ok : is_allowed ip ≡ true) (planned : In port settings.plan) where
    -- The invariant after a round may be over the budget by one request.
    abbrev Kept : Walk → Type 0
    Kept w = IsWalk is_allowed out settings n m (settings.max_requests + 1) w

    IsListed-finding :
        (f : Finding) (fs : List Finding) (hosts : List HostEntry) (seen : List Text)
        → IsListed is_allowed out settings n m fs hosts seen
        → IsFound is_allowed out settings f
        → IsListed is_allowed out settings n m (fs ++ f ∷ []) hosts seen
    IsListed-finding f fs hosts seen l ok = record {
      found = All-append (IsFound is_allowed out settings) fs (f ∷ []) l.found (ok, tt);
      hosts_ok = l.hosts_ok;
      seen_count = l.seen_count;
      host_count = l.host_count;
    }

    IsSent-snoc :
        (b : ℕ) (r : Request) (requests : ℕ) (trace : List Request)
        → IsSent is_allowed out settings b requests trace
        → IsInScope is_allowed r
        → requests + 1 ≤ settings.max_requests
        → IsSent is_allowed out settings settings.max_requests (requests + 1) (trace ++ r ∷ [])
    IsSent-snoc b r requests trace s ok le = record {
      in_scope = All-append (IsInScope is_allowed) trace (r ∷ []) s.in_scope (ok, tt);
      counted = omega (arith, s.counted, length-append trace (r ∷ []));
      bounded = le;
    }

    IsSent-le :
        (b b' requests : ℕ) (trace : List Request)
        → IsSent is_allowed out settings b requests trace
        → b ≤ b'
        → IsSent is_allowed out settings b' requests trace
    IsSent-le b b' requests trace s le = record {
      in_scope = s.in_scope;
      counted = s.counted;
      bounded = omega (arith, s.bounded);
    }

    with_documents-Kept :
        (candidate : Response) (vhost : Bool) (chain : List Link) (w : Walk)
        → Kept w
        → Kept (with_documents is_allowed out settings name ip port candidate vhost chain w)
    unfolding with_documents add_finding
    with_documents-Kept candidate vhost chain w k =
        elim (Bool-cases (settings.deep && has_budget is_allowed out settings w)) [
          | inl e ↦
              let (s, count, le) =
                documents-Tracked is_allowed out (has_budget is_allowed out settings w) name ip port
                  candidate.scheme document_paths
                  (record { documents = []; doc_used = 0; doc_trace = w.trace }) w.requests name_ok
                  ip_ok k.0.in_scope (omega (arith, k.0.counted)) in
              rw e (
                record { in_scope = s; counted = count; bounded = ground (arith, e, le) },
                IsListed-finding _ w.findings w.hosts w.seen k.1
                    (record { host = name_ok; ip = ip_ok; port = planned }),
              )
          | inr e ↦ rw e (
            k.0,
            IsListed-finding _ w.findings w.hosts w.seen k.1
                (record { host = name_ok; ip = ip_ok; port = planned }),
          )
        ]

    after_redirects-Kept :
        (candidate : Response) (vhost : Bool) (w : Walk) (hop : Hop) (o : Option Hop)
        → IsWalk is_allowed out settings n m settings.max_requests w
        → hop.used ≡ 0
        → HopResult is_allowed out (has_budget is_allowed out settings w) 2 w.requests hop o
        → Holds is_allowed out settings Kept
            (after_redirects is_allowed out settings name ip port candidate vhost w o)
    unfolding after_redirects
    after_redirects-Kept candidate vhost w hop none k z r = r
    after_redirects-Kept candidate vhost w hop (some h) k z r =
        with_documents-Kept candidate vhost h.chain _ (
          record {
            in_scope = r.0.0;
            counted = r.0.1;
            bounded = elim (Bool-cases (has_budget is_allowed out settings w)) [
              | inl e ↦ ground (arith, e, r.1, z)
              | inr e ↦ omega (arith, r.2 e, z, k.0.bounded)
            ];
          },
          k.1,
        )

    with_redirects-Kept :
        (candidate : Response) (vhost : Bool) (w : Walk)
        → IsWalk is_allowed out settings n m settings.max_requests w
        → Holds is_allowed out settings Kept
            (with_redirects is_allowed out settings name ip port candidate vhost w)
    unfolding with_redirects
    with_redirects-Kept candidate vhost w k = after_redirects-Kept candidate vhost w hop _ k refl (
        follow_redirects_lem is_allowed out (has_budget is_allowed out settings w) 2 w.requests name
          hop (k.0.in_scope, omega (arith, k.0.counted)))
      where
        hop : Hop
        hop = record {
          current = candidate;
          host = name;
          ip = ip;
          port = port;
          scheme = candidate.scheme;
          chain = [];
          blocked = [];
          used = 0;
          trace = w.trace;
        }

    with_baseline-Kept :
        (candidate : Response) (w : Walk)
        → IsWalk is_allowed out settings n m settings.max_requests w
        → Holds is_allowed out settings Kept
            (with_baseline is_allowed out settings name ip port candidate w)
    unfolding with_baseline request_to
    with_baseline-Kept candidate w k =
        if-Holds is_allowed out settings Kept (has_budget is_allowed out settings w) _ _
          (λ e. with_redirects-Kept candidate _ _ (
            IsSent-snoc settings.max_requests _ w.requests w.trace k.0 (name_ok, ip_ok)
                (ground (arith, e)),
            k.1,
          ))
          (λ e. with_redirects-Kept candidate false w k)

    pub visit_port-Kept :
        (w : Walk)
        → Kept w
        → leb settings.max_requests w.requests ≡ false
        → Holds is_allowed out settings Kept (visit_port is_allowed out settings name ip port w)
    unfolding visit_port request_to
    visit_port-Kept w k e =
        let next =
          IsSent-snoc (settings.max_requests + 1)
            (request_to is_allowed out settings name ip port none) w.requests w.trace k.0
            (name_ok, ip_ok) (ground (arith, e)) in
        (if-Holds is_allowed out settings) Kept
          (not (out.probe w.trace (request_to is_allowed out settings name ip port none)).is_open) _
          _
          (λ f. (
            IsSent-le settings.max_requests (settings.max_requests + 1) _ _ next (omega arith),
            k.1,
          ))
          (λ f. with_baseline-Kept _ _ (next, k.1))
