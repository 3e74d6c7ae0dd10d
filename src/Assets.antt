-- ===== src/Assets.antt =====
-- modules/discovery/assets.py: the data of the walk over an authorized surface, one HTTP exchange, and
-- the targets of redirects.
pub mod Redirects
pub mod Walk
pub mod InScope
pub mod Samples
use helios_net.Prelude.{
  ℕ, ◌+◌, Bool, true, false, not, ◌&&◌, ◌||◌, if◌then◌else◌, ◌==◌, Option, none, some, List, [],
  ◌∷◌, ◌++◌, any,
}
use helios_net.Prelude.Int.{ℤ, pos, eqb_ℤ}
use helios_net.Prelude.Eq.{eqb, nat_eq, text_eq, option_eq}
use helios_net.Prelude.Text.{Text, eqb_text, codes}
use helios_net.Scope.{normalise}

-- One call of the probe; no scheme means that the port decides.
pub record Request : Type 0 where
  pub host : Text
  pub ip : Text
  pub port : ℤ
  pub scheme : Option Text
  pub path : Text
  pub host_header : Option Text
  pub capture_body : Bool

-- What the probe returns, of which the walk reads these fields.
pub record Response : Type 0 where
  pub is_open : Bool
  pub scheme : Text
  pub status : Option ℕ
  pub server : Option Text
  pub title : Option Text
  pub location : Text
  pub content_type : Text

-- `parts.port`, which raises `ValueError` where the port is no number below 65536
pub data UrlPort : Type 0 where
  no_port bad_port : UrlPort
  port_is : ℤ → UrlPort

pub record UrlParts : Type 0 where
  pub scheme : Text
  pub hostname : Option Text
  pub port : UrlPort
  pub path : Text
  pub query : Text

-- The resolver, the probe and the expansion of names answer by what has been sent so far. `urlsplit`
-- is that of the standard library, with `none` for its `ValueError`.
pub record Outside : Type 0 where
  pub resolve : List Request → Text → List Text
  pub probe : List Request → Request → Response
  pub fetch_ct_names : List Request → Text → List Text
  pub urlsplit : Text → Option UrlParts

-- A step of a redirect chain: the authorities by scheme, host and port
pub record Link : Type 0 where
  pub source : Text × Text × ℤ
  pub target : Text × Text × ℤ
  pub path : Text
  pub status : Option ℕ

-- An entry of `blocked`, by its reason
pub data Blocked : Type 0 where
  name_outside_scope unresolved : Text → Blocked
  resolved_outside_scope : Text → List Text → Blocked
  redirect_unparseable : Text → Text → Blocked
  redirect_outside_scope : Text → Text → Text → Blocked

-- A well-known document that was there
pub record Document : Type 0 where
  pub path : Text
  pub status : Option ℕ
  pub content_type : Text

pub record Finding : Type 0 where
  pub host : Text
  pub ip : Text
  pub port : ℤ
  pub response : Response
  pub vhost : Bool
  pub redirects : List Link
  pub documents : List Document

-- `_fingerprint(a) == _fingerprint(b)`
unfoldable pub same_fingerprint : Response → Response → Bool
same_fingerprint a b = eqb a.status b.status && (eqb a.server b.server && eqb a.title b.title)

-- `_is_vhost`
unfoldable pub is_vhost : Response → Response → Bool
unfolding same_fingerprint
is_vhost candidate baseline =
    if not candidate.is_open
    then false
    else if not baseline.is_open
    then true
    else not (same_fingerprint candidate baseline)

-- `status in {301, 302, 303, 307, 308}`
unfoldable pub is_redirect : Option ℕ → Bool
is_redirect none = false
is_redirect (some s) = s == 301 || (s == 302 || (s == 303 || (s == 307 || s == 308)))

-- `a or b`
unfoldable pub or_text : Text → Text → Text
or_text [] b = b
or_text (c ∷ s) b = c ∷ s

unfoldable pub or_name : Option Text → Text → Text
unfolding or_text
or_name none b = b
or_name (some a) b = or_text a b

-- What `_redirect_target` returns, or the `ValueError` of a port
pub data Target : Type 0 where
  unparseable raised : Target
  to : Text → ℤ → Text → Text → Target

-- `parts.port or (443 if next_scheme == "https" else 80)`
unfoldable pub or_default : UrlPort → Text → Option ℤ
or_default bad_port scheme = none
or_default no_port scheme = some (if eqb_text scheme (codes "https") then pos 443 else pos 80)
or_default (port_is p) scheme =
    some
      (if eqb_ℤ p (pos 0) then if eqb_text scheme (codes "https") then pos 443 else pos 80 else p)

unfoldable pub with_query : Text → Text → Text
with_query path [] = path
with_query path (c ∷ query) = path ++ (codes "?" ++ (c ∷ query))

unfoldable pub target_of : UrlParts → Text → Text → Option ℤ → Target
unfolding or_text or_name with_query normalise
target_of parts host scheme none = raised
target_of parts host scheme (some port) =
    to (normalise (or_name parts.hostname host)) port scheme
      (with_query (or_text parts.path (codes "/")) parts.query)

-- `_redirect_target`, of what `urlsplit` made of the location
unfoldable pub redirect_target : Option UrlParts → Text → Text → Target
unfolding target_of or_default or_text
redirect_target none host scheme = unparseable
redirect_target (some parts) host scheme =
    let next_scheme = or_text parts.scheme scheme in
    target_of parts host next_scheme (or_default parts.port next_scheme)
