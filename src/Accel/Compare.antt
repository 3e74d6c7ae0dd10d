-- ===== src/Accel/Compare.antt =====
-- `compare_backends` of core/accel.py: every available backend on one input.

use helios_net.Prelude.{
  String, Bool, true, false, not, ◌&&◌, if◌then◌else◌, leb, Option, none, some, List, [], ◌∷◌,
  length,
}
use helios_net.Prelude.Int.{leb_ℤ}
use helios_net.Prelude.Sort.{sort_by}
use helios_net.Prelude.Text.{Text, eqb_text, le_text}
use helios_net.Accel.{Backend, c, rust, go, python, backend_info, Host, preference}
use helios_net.Accel.Match.{Match, eqb_match, Cores, MatchOutcome, match_signatures}

-- `prefer=name`
unfoldable pub name_of : Backend → String
name_of c = "c"
name_of rust = "rust"
name_of go = "go"
name_of python = "python"

-- The sorted tuples `(signature, position)`
unfoldable pub le_hit : Match → Match → Bool
unfolding le_text
le_hit m n =
    if eqb_text m.signature n.signature
    then leb_ℤ m.position n.position
    else le_text m.signature n.signature

unfoldable pub key : List Match → List Match
unfolding le_hit sort_by
key found = sort_by le_hit found

unfoldable pub eqb_matches : List Match → List Match → Bool
unfolding eqb_match
eqb_matches [] [] = true
eqb_matches (m ∷ ms) (n ∷ ns) = eqb_match m n && eqb_matches ms ns
eqb_matches _ _ = false

abbrev pub PerBackend : Type 0
PerBackend = List (Backend × List Match)

unfoldable pub add_backend : Backend → Option MatchOutcome → PerBackend → PerBackend
add_backend name none rest = rest
add_backend name (some o) rest = (name, o.matches) ∷ rest

-- The loop over the preference; a backend that is not there is skipped.
unfoldable pub per_backend : Host → Cores → Text → List Text → List Backend → PerBackend
unfolding add_backend name_of
per_backend host cores text patterns [] = []
per_backend host cores text patterns (name ∷ names) =
    let rest = per_backend host cores text patterns names in
    if not (backend_info host name).available
    then rest
    else add_backend name (match_signatures host cores text patterns (some (name_of name))) rest

pub record Comparison : Type 0 where
  pub backends : PerBackend
  pub agree : Option Bool
  pub corroborated : Bool
  pub disagreements : List Backend

unfoldable pub same_key : List Match → Backend × List Match → Bool
unfolding key eqb_matches
same_key reference entry = eqb_matches (key entry.1) (key reference)

-- The names of the entries that differ from the reference
unfoldable pub differing : List Match → PerBackend → List Backend
unfolding same_key
differing reference [] = []
differing reference (entry ∷ entries) =
    let rest = differing reference entries in
    if same_key reference entry then rest else entry.0 ∷ rest

unfoldable pub is_none : List Backend → Bool
is_none [] = true
is_none (b ∷ bs) = false

unfoldable pub compare_entries : PerBackend → Comparison
unfolding differing is_none
compare_entries [] = record {
  backends = [];
  agree = none;
  corroborated = false;
  disagreements = [];
}
compare_entries ((name, reference) ∷ entries) =
    let all_entries : PerBackend = (name, reference) ∷ entries in
    let disagreements = differing reference all_entries in
    let corroborated = leb 2 (length all_entries) in
    record {
      backends = all_entries;
      agree = if corroborated then some (is_none disagreements) else none;
      corroborated = corroborated;
      disagreements = disagreements;
    }

unfoldable pub compare_backends : Host → Cores → Text → List Text → Comparison
unfolding per_backend compare_entries
compare_backends host cores text patterns =
    compare_entries (per_backend host cores text patterns preference)
