-- ===== src/Accel/Ops.antt =====
-- `fingerprint`, `_graph_dispatch` and `scan_ports` of core/accel.py.
use helios_net.Prelude.{
  ℕ, String, Bool, true, false, ◌&&◌, if◌then◌else◌, Option, none, some, List, [], ◌∷◌, keep, map,
  leb,
}
use helios_net.Prelude.Int.{ℤ, ltb_ℤ, leb_ℤ, eqb_ℤ}
use helios_net.Prelude.Sort.{sort_by}
use helios_net.Prelude.Text.{Text}
use helios_net.Digests.{fnv1a32_py, fnv1a64_py, crc32_py}
use helios_net.Accel.{
  Backend, c, rust, go, python, Capability, fingerprints, scans, backend_info, Host, Skip, Served,
  served, unserved, serve, order_for, preference,
}
use helios_net.Accel.Match.{Engine, c_native, rust_native, go_native, python_fallback, no_engine}

-- The three digests, as numbers; the code formats them in hexadecimal.
pub record Digest : Type 0 where
  pub fnv1a32 : ℕ
  pub fnv1a64 : ℕ
  pub crc32 : ℕ

-- `_python_fingerprint`
unfoldable pub python_fingerprint : Text → Digest
unfolding fnv1a32_py fnv1a64_py crc32_py
python_fingerprint text = record {
  fnv1a32 = fnv1a32_py text;
  fnv1a64 = fnv1a64_py text;
  crc32 = crc32_py text;
}

-- An outcome names the engine that served, and why those before it did not; `none` is the empty value.
pub record Outcome (A : Type 0) : Type 0 where
  pub value : Option A
  pub engine : Engine
  pub reasons : List Skip

module _ {A : Type 0} where
  unfoldable pub outcome : (Backend → Engine) → Served A → Outcome A
  outcome engine (served name value reasons) = record {
    value = some value;
    engine = engine name;
    reasons = reasons;
  }
  outcome engine (unserved reasons) = record { value = none; engine = no_engine; reasons = reasons }

  abbrev pub no_outcome : Outcome A
  no_outcome = record { value = none; engine = no_engine; reasons = [] }

  -- The rest of an operation, once its order is known; `none` is the `ValueError` of `prefer`.
  unfoldable pub serve_order :
      Capability
      → Host
      → (Backend → Option A)
      → (Backend → Engine)
      → Option (List Backend)
      → Option (Outcome A)
  unfolding outcome
  serve_order capability host run engine none = none
  serve_order capability host run engine (some order) =
      some (outcome engine (serve capability (backend_info host) run order []))

abbrev pub text_engine : Backend → Engine
text_engine c = c_native
text_engine rust = python_fallback
text_engine go = python_fallback
text_engine python = python_fallback

-- `c_fingerprint` is `_c_fingerprint`, which can raise.
abbrev pub run_fingerprint : (Text → Option Digest) → Text → Backend → Option Digest
run_fingerprint c_fingerprint text c = c_fingerprint text
run_fingerprint c_fingerprint text rust = some (python_fingerprint text)
run_fingerprint c_fingerprint text go = some (python_fingerprint text)
run_fingerprint c_fingerprint text python = some (python_fingerprint text)

unfoldable pub fingerprint :
    Host → (Text → Option Digest) → Text → Option String → Option (Outcome Digest)
unfolding serve_order
fingerprint host c_fingerprint [] prefer = some no_outcome
fingerprint host c_fingerprint (a ∷ text) prefer =
    serve_order fingerprints host (run_fingerprint c_fingerprint (a ∷ text)) text_engine
      (order_for prefer preference)

abbrev pub graph_engine : Backend → Engine
graph_engine rust = rust_native
graph_engine c = python_fallback
graph_engine go = python_fallback
graph_engine python = python_fallback

module _ {A : Type 0} where
  abbrev pub run_graph : Option A → Option A → Backend → Option A
  run_graph native fallback rust = native
  run_graph native fallback c = fallback
  run_graph native fallback go = fallback
  run_graph native fallback python = fallback

  -- `_graph_dispatch`, with what `native()` and `fallback()` give
  unfoldable pub graph_dispatch :
      Host → Capability → Option A → Option A → Option String → Option (Outcome A)
  unfolding serve_order
  graph_dispatch host capability native fallback prefer =
      serve_order capability host (run_graph native fallback) graph_engine
        (order_for prefer (rust ∷ python ∷ []))

-- What a connect says of a port
pub data PortState : Type 0 where
  open_port closed filtered : PortState

pub record Row : Type 0 where
  pub port : ℤ
  pub state : PortState

unfoldable pub is_open : Row → Bool
is_open row = elim row.state [ open_port ↦ true | closed ↦ false | filtered ↦ false ]

-- The order of the strings "closed", "filtered" and "open"
unfoldable pub state_rank : PortState → ℕ
state_rank closed = 0
state_rank filtered = 1
state_rank open_port = 2

unfoldable pub le_row : Row → Row → Bool
unfolding state_rank
le_row r s =
    if ltb_ℤ r.port s.port
    then true
    else eqb_ℤ r.port s.port && leb (state_rank r.state) (state_rank s.state)

-- `_python_scan_ports`, with what its probe of each port answers
unfoldable pub python_scan_ports : (ℤ → PortState) → List ℤ → List Row
unfolding is_open le_row sort_by
python_scan_ports probe ports =
    keep is_open (sort_by le_row (map (λ p. record { port = p; state = probe p }) ports))

abbrev pub scan_engine : Backend → Engine
scan_engine go = go_native
scan_engine c = python_fallback
scan_engine rust = python_fallback
scan_engine python = python_fallback

-- `go_scan` is `_go_scan`, which can raise.
abbrev pub run_scan :
    (Text → List ℤ → Option (List Row))
    → (ℤ → PortState)
    → Text
    → List ℤ
    → Backend
    → Option (List Row)
run_scan go_scan probe host ports go = go_scan host ports
run_scan go_scan probe host ports c = some (python_scan_ports probe ports)
run_scan go_scan probe host ports rust = some (python_scan_ports probe ports)
run_scan go_scan probe host ports python = some (python_scan_ports probe ports)

-- `scan_ports` up to the rows
unfoldable pub scan_rows :
    Host
    → (Text → List ℤ → Option (List Row))
    → (ℤ → PortState)
    → Text
    → List ℤ
    → Option String
    → Option (Outcome (List Row))
unfolding serve_order python_scan_ports
scan_rows machine go_scan probe [] ports prefer = some no_outcome
scan_rows machine go_scan probe (a ∷ host) [] prefer = some no_outcome
scan_rows machine go_scan probe (a ∷ host) (p ∷ ports) prefer =
    serve_order scans machine (run_scan go_scan probe (a ∷ host) (p ∷ ports)) scan_engine
      (order_for prefer (go ∷ python ∷ []))

-- The field `ports` of the outcome
unfoldable pub ports_of_rows : Outcome (List Row) → List ℤ
unfolding sort_by
ports_of_rows o = elim o.value [ none ↦ [] | some rows ↦ sort_by leb_ℤ (map (λ r. r.port) rows) ]
