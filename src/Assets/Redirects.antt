-- ===== src/Assets/Redirects.antt =====
-- `_follow_redirects` and `_probe_documents` of modules/discovery/assets.py.
use helios_net.Prelude.{
  ℕ, zero, suc, ◌+◌, Bool, true, false, not, ◌||◌, if◌then◌else◌, Option, none, some, List, [], ◌∷◌,
  ◌++◌, keep,
}
use helios_net.Prelude.Int.{ℤ}
use helios_net.Prelude.Text.{Text, eqb_text}
use helios_net.Assets.{
  Request, Response, Outside, Link, Blocked, redirect_unparseable, redirect_outside_scope, Document,
  Target, unparseable, raised, to, is_redirect, redirect_target,
}

-- `MAX_REDIRECTS`
abbrev pub max_redirects : ℕ
max_redirects = 2

-- The variables of `_follow_redirects`, with all requests sent so far
pub record Hop : Type 0 where
  pub current : Response
  pub host : Text
  pub ip : Text
  pub port : ℤ
  pub scheme : Text
  pub chain : List Link
  pub blocked : List Blocked
  pub used : ℕ
  pub trace : List Request

-- A `break`, another round, or the `ValueError` of `parts.port`, which nothing catches
pub data Next : Type 0 where
  stopped onward : Hop → Next
  crashed : Next

abbrev pub is_nil : {A : Type 0} → List A → Bool
is_nil [] = true
is_nil (x ∷ xs) = false

-- The variables of `_probe_documents`
pub record Documents : Type 0 where
  pub documents : List Document
  pub doc_used : ℕ
  pub doc_trace : List Request

module _ (is_target_allowed : Text → Bool) (out : Outside) (budget : Bool) where
  unfoldable pub stop_unless : Bool → Hop → Next
  stop_unless true hop = onward hop
  stop_unless false hop = stopped hop

  -- The request to an allowed address, and what it leaves
  unfoldable pub hop_to : Hop → Text → Text → ℤ → Text → Text → Next
  unfolding stop_unless
  hop_to hop next_host next_ip next_port next_scheme path =
      let request : Request = record {
        host = next_host;
        ip = next_ip;
        port = next_port;
        scheme = some next_scheme;
        path = path;
        host_header = none;
        capture_body = false;
      } in
      let response = out.probe hop.trace request in
      let link : Link = record {
        source = (hop.scheme, hop.host, hop.port);
        target = (next_scheme, next_host, next_port);
        path = path;
        status = response.status;
      } in
      stop_unless response.is_open (record {
        current = response;
        host = next_host;
        ip = next_ip;
        port = next_port;
        scheme = next_scheme;
        chain = hop.chain ++ link ∷ [];
        blocked = hop.blocked;
        used = hop.used + 1;
        trace = hop.trace ++ request ∷ [];
      })

  abbrev pub block : Hop → Blocked → Next
  block hop entry = stopped (record hop { blocked = hop.blocked ++ entry ∷ [] })

  -- With the addresses of the next host that are allowed
  unfoldable pub hop_allowed : Text → Hop → List Text → Text → ℤ → Text → Text → Next
  unfolding hop_to
  hop_allowed name hop [] next_host next_port next_scheme path =
      block hop (redirect_outside_scope name hop.current.location next_host)
  hop_allowed name hop (a ∷ as_) next_host next_port next_scheme path =
      if not (is_target_allowed next_host)
      then block hop (redirect_outside_scope name hop.current.location next_host)
      else hop_to hop next_host a next_port next_scheme path

  -- `resolve(next_host) if next_host != current_host else [current_ip]`
  unfoldable pub addresses_of : Hop → Text → List Text
  addresses_of hop next_host =
      if not (eqb_text next_host hop.host) then out.resolve hop.trace next_host else hop.ip ∷ []

  unfoldable pub hop_target : Text → Hop → Target → Next
  unfolding hop_allowed addresses_of
  hop_target name hop unparseable = block hop (redirect_unparseable name hop.current.location)
  hop_target name hop raised = crashed
  hop_target name hop (to next_host next_port next_scheme path) =
      hop_allowed name hop (keep is_target_allowed (addresses_of hop next_host)) next_host next_port
        next_scheme path

  -- The body of the loop
  unfoldable pub hop_round : Text → Hop → Next
  unfolding hop_target
  hop_round name hop =
      if not (is_redirect hop.current.status) || (is_nil hop.current.location || not budget)
      then stopped hop
      else hop_target name hop
          (redirect_target (out.urlsplit hop.current.location) hop.host hop.scheme)

  unfoldable pub then_follow : Next → (Hop → Option Hop) → Option Hop
  then_follow (stopped hop) continue = some hop
  then_follow (onward hop) continue = continue hop
  then_follow crashed continue = none

  -- `for _ in range(MAX_REDIRECTS)`; `none` is the `ValueError`.
  unfoldable pub follow_redirects : ℕ → Text → Hop → Option Hop
  unfolding hop_round then_follow
  follow_redirects zero name hop = some hop
  follow_redirects (suc rounds) name hop =
      then_follow (hop_round name hop) (follow_redirects rounds name)

  -- What a document adds
  unfoldable pub document_of : Text → Response → List Document
  document_of path response =
      if not response.is_open
      then []
      else record { path = path; status = response.status; content_type = response.content_type }
        ∷ []

  -- One round of the loop of `_probe_documents`
  unfoldable pub probe_document : Text → Text → ℤ → Text → Documents → Text → Documents
  unfolding document_of
  probe_document host ip port scheme d path =
      let request : Request = record {
        host = host;
        ip = ip;
        port = port;
        scheme = some scheme;
        path = path;
        host_header = none;
        capture_body = true;
      } in
      record {
        documents = d.documents ++ document_of path (out.probe d.doc_trace request);
        doc_used = d.doc_used + 1;
        doc_trace = d.doc_trace ++ request ∷ [];
      }

  unfoldable pub probe_documents : Text → Text → ℤ → Text → List Text → Documents → Documents
  unfolding probe_document
  probe_documents host ip port scheme [] d = d
  probe_documents host ip port scheme (path ∷ paths) d =
      if not budget
      then d
      else probe_documents host ip port scheme paths (probe_document host ip port scheme d path)
