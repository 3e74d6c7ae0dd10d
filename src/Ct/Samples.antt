-- ===== src/Ct/Samples.antt =====
-- The answer of a log, and the names out of it.
use helios_net.Prelude.{◌≡◌, refl, false, Option, none, some, [], ◌∷◌, ◌++◌}
use helios_net.Prelude.Sort.{sort_by}
use helios_net.Prelude.Text.{split_at, Text, codes, le_text, drop_while, drop_while_end}
use helios_net.Prelude.Eq.{text_eq}
use helios_net.Prelude.Sets.{set_add}
use helios_net.Scope.{normalise, strip, rstrip_dots}
use helios_net.Ct.{
  is_label, is_host, is_valid_hostname, without_wildcard, valid_name, normalise_name, text_item,
  other_item, text_value, list_value, other_value, object, no_object, CtDocument, list_document,
  text_items, candidates_of, add_name, add_candidates, add_entries, entries_of, parse_document,
  parse_ct_payload, fetch_name, fetch_ct_names,
}
use helios_net.Ct.Names.{IsNames, logged, parse_ct_payload-IsNames}

-- A wildcard above a name that repeats it, a name that is none, and a list
abbrev answer : CtDocument
answer = list_document (
    object (text_value (codes "*.Lab.test" ++ 10 ∷ codes "lab.test."))
    ∷ no_object
    ∷ object (list_value (text_item (codes "api.lab.test") ∷ other_item ∷ []))
    ∷ object (text_value (codes "lab.test/x"))
    ∷ object other_value
    ∷ [])

abbrev small_loads : Text → Option CtDocument
small_loads [] = none
small_loads (c ∷ s) = some answer

answer_names :
    parse_ct_payload small_loads (codes "[]") ≡ codes "api.lab.test" ∷ codes "lab.test" ∷ []
unfolding parse_ct_payload parse_document sort_by le_text add_entries entries_of add_candidates
    candidates_of text_items split_at add_name set_add normalise_name normalise strip drop_while
    drop_while_end rstrip_dots without_wildcard valid_name is_valid_hostname is_host is_label
answer_names = refl

-- A single label is asked of no log.
no_request :
    (fetch : Text → Option Text) → fetch_ct_names small_loads (λ n. false) fetch (codes "lab") ≡ []
unfolding fetch_ct_names fetch_name normalise_name normalise strip drop_while drop_while_end
    rstrip_dots without_wildcard valid_name is_valid_hostname is_host is_label split_at
no_request fetch = refl

parse_ct_payload-IsNames_example :
    IsNames (logged (some answer)) (parse_ct_payload small_loads (codes "[]"))
parse_ct_payload-IsNames_example = parse_ct_payload-IsNames small_loads (codes "[]")
