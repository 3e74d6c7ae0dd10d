-- ===== src/Accel.antt =====
-- core/accel.py: which backend serves an operation, and the result shape that all of them share.
pub mod Serve
pub mod Match
pub mod Normalise
pub mod PythonMatch
pub mod Ops
pub mod Outcomes
pub mod Scan
pub mod Compare
pub mod Corroboration
pub mod Samples
use package.text.Mathlib.Text.{◌==◌ as str_eq}
use helios_net.Prelude.{
  ℕ, String, Bool, true, false, not, ◌&&◌, ◌||◌, if◌then◌else◌, ltb, ◌==◌, Option, none, some, List,
  [], ◌∷◌, ◌++◌, map, keep, any, all, length, leb, ◌⊎◌, inl, inr,
}
use helios_net.Prelude.Int.{ℤ, pos, ltb_ℤ, leb_ℤ, eqb_ℤ}
use helios_net.Prelude.Sort.{sort_by}
use helios_net.Prelude.Text.{Text, eqb_text, le_text}
use helios_net.Signatures.{fold_ascii, find_all_occurrences, byte_offset}
use helios_net.Digests.{fnv1a32_py, fnv1a64_py, crc32_py}

pub data Backend : Type 0 where
  c rust go python : Backend

pub data Capability : Type 0 where
  matches fingerprints fnv1a32 scans : Capability
  graph_degree graph_betweenness graph_components graph_shortest_path : Capability

unfoldable pub backend_code : Backend → ℕ
backend_code c = 0
backend_code rust = 1
backend_code go = 2
backend_code python = 3

unfoldable pub capability_code : Capability → ℕ
capability_code matches = 0
capability_code fingerprints = 1
capability_code fnv1a32 = 2
capability_code scans = 3
capability_code graph_degree = 4
capability_code graph_betweenness = 5
capability_code graph_components = 6
capability_code graph_shortest_path = 7

unfoldable pub eqb_backend : Backend → Backend → Bool
unfolding backend_code
eqb_backend a b = backend_code a == backend_code b

unfoldable pub eqb_capability : Capability → Capability → Bool
unfolding capability_code
eqb_capability a b = capability_code a == capability_code b

-- `BackendInfo`, without the text of the reason
pub record BackendInfo : Type 0 where
  pub available : Bool
  pub capabilities : List Capability

abbrev pub graph_capabilities : List Capability
graph_capabilities = graph_degree ∷ graph_betweenness ∷ graph_components ∷ graph_shortest_path ∷ []

-- What the bridges report of this host
pub record Host : Type 0 where
  pub c_available : Bool
  pub rust_available : Bool
  pub go_available : Bool

-- A backend with no capability if it is not there
unfoldable pub info_if : Bool → List Capability → BackendInfo
info_if available capabilities = record {
  available = available;
  capabilities = if available then capabilities else [];
}

-- `_BACKENDS[name]()`
unfoldable pub backend_info : Host → Backend → BackendInfo
unfolding info_if
backend_info host c = info_if host.c_available (matches ∷ fingerprints ∷ [])
backend_info host rust = info_if host.rust_available (matches ∷ fnv1a32 ∷ graph_capabilities)
backend_info host go = info_if host.go_available (scans ∷ [])
backend_info host python = info_if true (matches ∷ fingerprints ∷ graph_capabilities ++ scans ∷ [])

-- Why a backend did not serve
pub data Skip : Type 0 where
  unavailable lacks raised : Backend → Skip

pub data Served (A : Type 0) : Type 0 where
  served : Backend → A → List Skip → Served A
  unserved : List Skip → Served A

module _ {A : Type 0} where
  -- A result of `none` is an exception.
  unfoldable pub value_or : Backend → Option A → Skip ⊎ A
  value_or name none = inl (raised name)
  value_or name (some value) = inr value

  -- The value of one backend, or why there is none
  unfoldable pub attempt : Capability → BackendInfo → Backend → Option A → Skip ⊎ A
  unfolding eqb_capability
  attempt capability info name result =
      if not info.available
      then inl (unavailable name)
      else if not (any (eqb_capability capability) info.capabilities)
      then inl (lacks name)
      else value_or name result

  unfoldable pub return_or : Backend → List Skip → (List Skip → Served A) → Skip ⊎ A → Served A
  return_or name reasons continue (inl skip) = continue (reasons ++ skip ∷ [])
  return_or name reasons continue (inr value) = served name value reasons

  -- `for name in order`, with the reasons so far
  unfoldable pub serve :
      Capability
      → (Backend → BackendInfo)
      → (Backend → Option A)
      → List Backend
      → List Skip
      → Served A
  unfolding attempt value_or return_or
  serve capability infos run [] reasons = unserved reasons
  serve capability infos run (name ∷ order) reasons =
      return_or name reasons (serve capability infos run order)
        (attempt capability (infos name) name (run name))

-- `_PREFERENCE`
abbrev pub preference : List Backend
preference = c ∷ rust ∷ python ∷ []

-- A name of `_BACKENDS`; `none` is the `ValueError` of another one.
unfoldable pub backend_of : String → Option Backend
backend_of name =
    if str_eq name "c"
    then some c
    else if str_eq name "rust"
    then some rust
    else if str_eq name "go"
    then some go
    else if str_eq name "python"
    then some python
    else none

-- `[prefer] + [name for name in order if name != prefer]`
unfoldable pub pin : List Backend → Backend → List Backend
unfolding eqb_backend
pin order name = name ∷ keep (λ n. not (eqb_backend n name)) order

-- The order with a pinned backend, if it is known
unfoldable pub pin_known : List Backend → Option Backend → Option (List Backend)
unfolding pin
pin_known order none = none
pin_known order (some name) = some (pin order name)

-- `if prefer:`, which the empty string fails
unfoldable pub order_for : Option String → List Backend → Option (List Backend)
unfolding backend_of pin_known
order_for none order = some order
order_for (some prefer) order =
    if str_eq prefer "" then some order else pin_known order (backend_of prefer)
