-- ===== src/Accel/Match.antt =====
-- `match_signatures` of core/accel.py with `_python_match` and `_normalise`.
use helios_net.Prelude.Eq.{Eq}
use helios_net.Prelude.Sets.{to_set}
use helios_net.Prelude.{
  ◌≡◌, arith, ℕ, String, Bool, true, ◌&&◌, if◌then◌else◌, Option, none, some, List, [], ◌∷◌, ◌++◌,
}
use helios_net.Prelude.Int.{ℤ, pos, ltb_ℤ, eqb_ℤ, eq_of_parts}
use helios_net.Prelude.Sort.{sort_by}
use helios_net.Prelude.Text.{Text, eqb_text, eqb_text_refl, eqb_text→eq, le_text}
use helios_net.Signatures.{fold_ascii, find_all_occurrences, byte_offset}
use helios_net.Accel.{
  Backend, c, rust, go, python, matches, backend_info, Host, Skip, Served, served, unserved, serve,
  preference, order_for,
}

-- One hit; the position is a byte offset.
pub record Match : Type 0 where
  pub signature : Text
  pub position : ℤ

pub data Engine : Type 0 where
  c_native rust_native go_native python_fallback no_engine : Engine

unfoldable pub eqb_match : Match → Match → Bool
eqb_match m n = eqb_text m.signature n.signature && eqb_ℤ m.position n.position

-- The key `(m.position, m.signature)`
unfoldable pub le_match : Match → Match → Bool
unfolding le_text
le_match m n =
    if ltb_ℤ m.position n.position
    then true
    else eqb_ℤ m.position n.position && le_text m.signature n.signature

pub eqb_match→eq : (m n : Match) → eqb_match m n ≡ true → m ≡ n
unfolding eqb_match
eqb_match→eq m n h =
    let p = eq_of_parts m.position n.position (ground arith) in
    let s = eqb_text→eq m.signature n.signature (ground arith) in cc (p, s)

pub eqb_match_refl : (m : Match) → eqb_match m m ≡ true
unfolding eqb_match
eqb_match_refl m = ground (arith, eqb_text_refl m.signature)

instance abbrev pub match_eq : Eq Match
match_eq = record { beq = eqb_match; beq_refl = eqb_match_refl; beq→eq = eqb_match→eq }

unfoldable pub normalise_hits : List Match → List Match
unfolding le_match to_set sort_by
normalise_hits hits = sort_by le_match (to_set hits)

-- The hits of one pattern at the places where it was found
unfoldable pub hits_at : Text → Text → List ℕ → List Match
unfolding byte_offset
hits_at folded_text pattern [] = []
hits_at folded_text pattern (index ∷ found) =
    record { signature = pattern; position = byte_offset folded_text (pos index) }
    ∷ hits_at folded_text pattern found

unfoldable pub append_hits : Option (List Match) → Option (List Match) → Option (List Match)
append_hits (some hits) (some rest) = some (hits ++ rest)
append_hits none rest = none
append_hits (some hits) none = none

unfoldable pub hits_of : Text → Text → Option (List ℕ) → Option (List Match)
unfolding hits_at
hits_of folded_text pattern none = none
hits_of folded_text pattern (some found) = some (hits_at folded_text pattern found)

-- What one round of the loop over the patterns appends
unfoldable pub pattern_hits : Text → Text → Option (List Match)
unfolding find_all_occurrences hits_of fold_ascii
pattern_hits folded_text [] = some []
pattern_hits folded_text (a ∷ pattern) =
    hits_of folded_text (a ∷ pattern) (find_all_occurrences folded_text (fold_ascii (a ∷ pattern)))

-- `_python_match`; `none` means that the search ran out of rounds.
unfoldable pub python_match : Text → List Text → Option (List Match)
unfolding fold_ascii pattern_hits append_hits
python_match text [] = some []
python_match text (pattern ∷ patterns) =
    append_hits (pattern_hits (fold_ascii text) pattern) (python_match text patterns)

-- The cores that are reached outside Python; `none` is an exception.
pub record Cores : Type 0 where
  pub c_match : Text → List Text → Option (List Match)
  pub rust_match : Text → List Text → Option (List Match)

pub record MatchOutcome : Type 0 where
  pub matches : List Match
  pub engine : Engine
  pub reasons : List Skip

abbrev pub engine_of : Backend → Engine
engine_of c = c_native
engine_of rust = rust_native
engine_of go = python_fallback
engine_of python = python_fallback

abbrev pub run_match : Cores → Text → List Text → Backend → Option (List Match)
run_match cores text patterns c = cores.c_match text patterns
run_match cores text patterns rust = cores.rust_match text patterns
run_match cores text patterns go = python_match text patterns
run_match cores text patterns python = python_match text patterns

unfoldable pub match_outcome : Served (List Match) → MatchOutcome
unfolding normalise_hits
match_outcome (served name hits reasons) = record {
  matches = normalise_hits hits;
  engine = engine_of name;
  reasons = reasons;
}
match_outcome (unserved reasons) = record { matches = []; engine = no_engine; reasons = reasons }

abbrev pub nothing_to_match : MatchOutcome
nothing_to_match = record { matches = []; engine = no_engine; reasons = [] }

unfoldable pub match_in_order :
    Host → Cores → Text → List Text → Option (List Backend) → Option MatchOutcome
unfolding match_outcome serve
match_in_order host cores text patterns none = none
match_in_order host cores text patterns (some order) =
    some
      (match_outcome (serve matches (backend_info host) (run_match cores text patterns) order []))

-- `match_signatures`; `none` is the `ValueError` of an unknown backend.
unfoldable pub match_signatures :
    Host → Cores → Text → List Text → Option String → Option MatchOutcome
unfolding match_in_order
match_signatures host cores [] patterns prefer = some nothing_to_match
match_signatures host cores (a ∷ text) [] prefer = some nothing_to_match
match_signatures host cores (a ∷ text) (p ∷ patterns) prefer =
    match_in_order host cores (a ∷ text) (p ∷ patterns) (order_for prefer preference)
