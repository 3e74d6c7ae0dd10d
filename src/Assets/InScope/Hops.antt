-- ===== src/Assets/InScope/Hops.antt =====
-- The requests of `_follow_redirects` and `_probe_documents`.
use helios_net.Prelude.{
  ℕ, zero, suc, ◌+◌, ◌≤◌, ◌≡◌, refl, Bool, true, false, not, Bool-cases, Option, none, some, List,
  [], ◌∷◌, keep, All, All-append, All-of_In, In-keep, length, length-append, arith, inl, inr, ◌||◌,
}
use helios_net.Prelude.Int.{ℤ}
use helios_net.Prelude.Text.{Text}
use helios_net.Assets.{
  Request, Outside, UrlParts, UrlPort, no_port, bad_port, port_is, or_default, target_of, Target,
  unparseable, raised, to, is_redirect, redirect_target,
}
use helios_net.Assets.Redirects.{
  Hop, Next, stopped, onward, crashed, is_nil, stop_unless, hop_to, hop_allowed, hop_target,
  hop_round, then_follow, follow_redirects, addresses_of, Documents, probe_document,
  probe_documents,
}

pub All-keep : {A : Type 0} (p : A → Bool) (xs : List A) → All (λ x. p x ≡ true) (keep p xs)
All-keep p xs = All-of_In (λ x. p x ≡ true) (keep p xs) (λ x i. (In-keep x p xs i).1)

-- Some location has a port that is no port.
abbrev pub HasBadPort : Outside → Type 0
HasBadPort out =
    (location : Text) × (parts : UrlParts) × (out.urlsplit location ≡ some parts)
    × (parts.port ≡ bad_port)

or_default-none : (port : UrlPort) (scheme : Text) → or_default port scheme ≡ none → port ≡ bad_port
unfolding or_default
or_default-none bad_port scheme h = refl
or_default-none no_port scheme h = ground arith
or_default-none (port_is p) scheme h = ground arith

target_of-raised :
    (parts : UrlParts) (host scheme : Text) (port : Option ℤ)
    → target_of parts host scheme port ≡ raised
    → port ≡ none
unfolding target_of
target_of-raised parts host scheme none h = refl
target_of-raised parts host scheme (some p) h = ground arith

redirect_target-raised :
    (split : Option UrlParts) (host scheme : Text)
    → redirect_target split host scheme ≡ raised
    → (parts : UrlParts) × (split ≡ some parts) × (parts.port ≡ bad_port)
unfolding redirect_target
redirect_target-raised none host scheme h = ground arith
redirect_target-raised (some parts) host scheme h =
    (parts, refl, or_default-none parts.port _ (target_of-raised parts host _ _ h))

-- The host and the address of the request are allowed.
abbrev pub IsInScope : (Text → Bool) → Request → Type 0
IsInScope is_allowed r = (is_allowed r.host ≡ true) × (is_allowed r.ip ≡ true)

module _ (is_allowed : Text → Bool) (out : Outside) (budget : Bool) where
  -- The requests so far are in scope, and `used` of them were sent since the trace had `base` ones.
  abbrev pub IsTracked : ℕ → Hop → Type 0
  IsTracked base hop = All (IsInScope is_allowed) hop.trace × (length hop.trace ≡ base + hop.used)

  -- One round sends one request at most, and none without a budget.
  abbrev RoundResult : ℕ → Hop → Next → Type 0
  RoundResult base hop (stopped h) =
      IsTracked base h × (h.used ≤ hop.used + 1) × ((budget ≡ false) → h.used ≡ hop.used)
  RoundResult base hop (onward h) = IsTracked base h × (h.used ≤ hop.used + 1) × (budget ≡ true)
  RoundResult base hop crashed = HasBadPort out

  hop_to-Tracked :
      (base : ℕ) (hop : Hop) (host ip : Text) (port : ℤ) (scheme path : Text)
      → IsTracked base hop
      → is_allowed host ≡ true
      → is_allowed ip ≡ true
      → budget ≡ true
      → RoundResult base hop (hop_to is_allowed out budget hop host ip port scheme path)
  unfolding hop_to
  hop_to-Tracked base hop host ip port scheme path t h i b =
      go (out.probe hop.trace _).is_open _ refl
        (All-append (IsInScope is_allowed) hop.trace (_ ∷ []) t.0 ((h, i), tt))
        (omega (arith, t.1, length-append hop.trace (_ ∷ [])))
    where
      clash : budget ≡ false → ⊥
      clash e = ground (arith, e, b)

      go :
          (test : Bool) (next : Hop)
          → next.used ≡ hop.used + 1
          → All (IsInScope is_allowed) next.trace
          → length next.trace ≡ base + (hop.used + 1)
          → RoundResult base hop (stop_unless is_allowed out budget test next)
      go true next e s n = unfold stop_unless in ((s, omega (arith, e, n)), omega (arith, e), b)
      go false next e s n =
          unfold stop_unless in ((s, omega (arith, e, n)), omega (arith, e), λ f. absurd (clash f))

  hop_allowed-Tracked :
      (base : ℕ) (name : Text) (hop : Hop) (allowed : List Text) (host : Text) (port : ℤ)
      (scheme path : Text)
      → IsTracked base hop
      → All (λ a. is_allowed a ≡ true) allowed
      → budget ≡ true
      → RoundResult base hop
          (hop_allowed is_allowed out budget name hop allowed host port scheme path)
  unfolding hop_allowed
  hop_allowed-Tracked base name hop [] host port scheme path t ok b = (t, omega arith, λ f. refl)
  hop_allowed-Tracked base name hop (a ∷ addresses) host port scheme path t ok b =
      elim (Bool-cases (is_allowed host)) [
        | inl e ↦ rw e (hop_to-Tracked base hop host a port scheme path t e ok.0 b)
        | inr e ↦ rw e (t, omega arith, λ f. refl)
      ]

  hop_target-Tracked :
      (base : ℕ) (name : Text) (hop : Hop) (target : Target)
      → IsTracked base hop
      → budget ≡ true
      → (target ≡ raised → HasBadPort out)
      → RoundResult base hop (hop_target is_allowed out budget name hop target)
  unfolding hop_target
  hop_target-Tracked base name hop unparseable t b bad = (t, omega arith, λ f. refl)
  hop_target-Tracked base name hop raised t b bad = bad refl
  hop_target-Tracked base name hop (to host port scheme path) t b bad =
      hop_allowed-Tracked base name hop _ host port scheme path t
        (All-keep is_allowed (addresses_of is_allowed out budget hop host)) b

  hop_round-Tracked :
      (base : ℕ) (name : Text) (hop : Hop)
      → IsTracked base hop
      → RoundResult base hop (hop_round is_allowed out budget name hop)
  unfolding hop_round
  hop_round-Tracked base name hop t =
      elim (Bool-cases
        (not (is_redirect hop.current.status) || (is_nil hop.current.location || not budget))) [
          | inl e ↦ rw e (t, omega arith, λ f. refl)
          | inr e ↦ rw e (hop_target-Tracked base name hop _ t (ground (arith, e)) bad)
        ]
    where
      bad :
          redirect_target (out.urlsplit hop.current.location) hop.host hop.scheme ≡ raised
          → HasBadPort out
      bad h =
          let (parts, e, p) =
            redirect_target-raised (out.urlsplit hop.current.location) hop.host hop.scheme h in
          (hop.current.location, parts, e, p)

  -- What following redirects for a number of rounds comes to
  abbrev pub HopResult : ℕ → ℕ → Hop → Option Hop → Type 0
  HopResult rounds base hop none = HasBadPort out
  HopResult rounds base hop (some h) =
      IsTracked base h × (h.used ≤ hop.used + rounds) × ((budget ≡ false) → h.used ≡ hop.used)

  pub follow_redirects_lem :
      (rounds base : ℕ) (name : Text) (hop : Hop)
      → IsTracked base hop
      → HopResult rounds base hop (follow_redirects is_allowed out budget rounds name hop)
  unfolding follow_redirects
  follow_redirects_lem zero base name hop t = (t, omega arith, λ f. refl)
  follow_redirects_lem (suc rounds) base name hop t =
      next (hop_round is_allowed out budget name hop) (hop_round-Tracked base name hop t)
        (follow_redirects_lem rounds base name)
    where
      later :
          (h : Hop) (r : Option Hop)
          → h.used ≤ hop.used + 1
          → budget ≡ true
          → HopResult rounds base h r
          → HopResult (suc rounds) base hop r
      later h none le b k = k
      later h (some h') le b k = (k.0, omega (arith, le, k.1), λ f. ground (arith, f, b))

      next :
          (r : Next)
          → RoundResult base hop r
          → ((h : Hop)
              → IsTracked base h
              → HopResult rounds base h (follow_redirects is_allowed out budget rounds name h))
          → HopResult (suc rounds) base hop (
              then_follow is_allowed out budget r
                (follow_redirects is_allowed out budget rounds name))
      next (stopped h) k rec = unfold then_follow in (k.0, omega (arith, k.1), k.2)
      next (onward h) k rec = unfold then_follow in later h _ k.1 k.2 (rec h k.0)
      next crashed k rec = unfold then_follow in k

  -- The documents that are asked for are in scope, and one request each.
  pub documents-Tracked :
      (host ip : Text) (port : ℤ) (scheme : Text) (paths : List Text) (d : Documents) (base : ℕ)
      → is_allowed host ≡ true
      → is_allowed ip ≡ true
      → All (IsInScope is_allowed) d.doc_trace
      → length d.doc_trace ≡ base + d.doc_used
      → (let d' = probe_documents is_allowed out budget host ip port scheme paths d in
          All (IsInScope is_allowed) d'.doc_trace
          × (length d'.doc_trace ≡ base + d'.doc_used)
          × (d'.doc_used ≤ d.doc_used + length paths))
  unfolding probe_documents probe_document
  documents-Tracked host ip port scheme [] d base h i s n = (s, n, omega arith)
  documents-Tracked host ip port scheme (path ∷ paths) d base h i s n = elim (Bool-cases budget) [
    | inl e ↦
        let (s', n', le) =
          documents-Tracked host ip port scheme paths
            (probe_document is_allowed out budget host ip port scheme d path) base h i
            (All-append (IsInScope is_allowed) d.doc_trace (_ ∷ []) s ((h, i), tt))
            (omega (arith, n, length-append d.doc_trace (_ ∷ []))) in
        rw e (s', n', omega (arith, le))
    | inr e ↦ rw e (s, n, omega arith)
  ]
