-- ===== src/Ct/Names.antt =====
-- The names that a payload gives.
use helios_net.Prelude.{
  ◌≡◌, refl, sym, ap, ◌∙◌, ◌↔◌, ◌⊎◌, inl, inr, Option, none, some, List, [], ◌∷◌, ◌++◌, In,
  In-append, In-append_left, In-append_right, In-perm, Unique, arith,
}
use mathlib.Core.List.Permᴰ
use helios_net.Prelude.Sort.{IsSorted, sort_by, sort_by-perm, sort_by-IsSorted}
use helios_net.Prelude.SortedSets.{Unique-perm}
use helios_net.Prelude.Text.{Text, le_text}
use helios_net.Prelude.TextOrder.{le_text-IsOrder}
use helios_net.Prelude.Eq.{text_eq}
use helios_net.Prelude.Sets.{In-set_add, Unique-set_add}
use helios_net.Ct.Safe.{IsSafeName, normalise_name-IsSafeName}
use helios_net.Ct.{
  normalise_name, Entry, object, no_object, CtDocument, candidates_of, add_name, add_candidates,
  add_entries, entries_of, parse_document, parse_ct_payload,
}

-- All candidates of the entries
abbrev pub all_candidates : List Entry → List Text
all_candidates [] = []
all_candidates (object value ∷ entries) = candidates_of value ++ all_candidates entries
all_candidates (no_object ∷ entries) = all_candidates entries

-- One of the candidates has this canonical form.
abbrev pub IsNameOf : List Text → Text → Type 0
IsNameOf raws n = (raw : Text) × In raw raws × (normalise_name raw ≡ some n)

add_name-In :
    (o : Option Text) (names : List Text) (n : Text)
    → In n (add_name o names) ↔ (In n names ⊎ (o ≡ some n))
unfolding add_name
add_name-In none names n = (λ i. inl i, λ i. elim i [ inl j ↦ j | inr e ↦ absurd (clash e) ])
  where
    clash : ¬ (none ≡ some n)
    clash e = ground arith
add_name-In (some m) names n =
    let both = In-set_add names m n in
    (
      λ i. elim (both.0 i) [ inl j ↦ inl j | inr e ↦ inr (ap some (sym e)) ],
      λ i. both.1 (elim i [ inl j ↦ inl j | inr e ↦ inr (sym (same e)) ]),
    )
  where
    same : some m ≡ some n → m ≡ n
    same e = cc e

add_name-Unique : (o : Option Text) (names : List Text) → Unique names → Unique (add_name o names)
unfolding add_name
add_name-Unique none names u = u
add_name-Unique (some n) names u = Unique-set_add names n u

add_candidates-In :
    (raws names : List Text) (n : Text)
    → In n (add_candidates raws names) ↔ (In n names ⊎ IsNameOf raws n)
unfolding add_candidates
add_candidates-In [] names n = (λ i. inl i, λ i. elim i [ inl j ↦ j | inr (raw, j, e) ↦ absurd j ])
add_candidates-In (raw ∷ raws) names n =
    let rest = add_candidates-In raws (add_name (normalise_name raw) names) n in
    let here = add_name-In (normalise_name raw) names n in
    (
      λ i. elim (rest.0 i) [
        | inl j ↦ elim (here.0 j) [ inl k ↦ inl k | inr e ↦ inr (raw, inl refl, e) ]
        | inr (r, j, e) ↦ inr (r, inr j, e)
      ],
      λ i. rest.1 (elim i [
        | inl j ↦ inl (here.1 (inl j))
        | inr (r, inl f, e) ↦ inl (here.1 (inr (ap normalise_name (sym f) ∙ e)))
        | inr (r, inr j, e) ↦ inr (r, j, e)
      ]),
    )

add_candidates-Unique : (raws names : List Text) → Unique names → Unique (add_candidates raws names)
unfolding add_candidates
add_candidates-Unique [] names u = u
add_candidates-Unique (raw ∷ raws) names u =
    add_candidates-Unique raws (add_name (normalise_name raw) names)
      (add_name-Unique (normalise_name raw) names u)

add_entries-In :
    (entries : List Entry) (names : List Text) (n : Text)
    → In n (add_entries entries names) ↔ (In n names ⊎ IsNameOf (all_candidates entries) n)
unfolding add_entries
add_entries-In [] names n = (λ i. inl i, λ i. elim i [ inl j ↦ j | inr (raw, j, e) ↦ absurd j ])
add_entries-In (object value ∷ entries) names n =
    let rest = add_entries-In entries (add_candidates (candidates_of value) names) n in
    let here = add_candidates-In (candidates_of value) names n in
    (
      λ i. elim (rest.0 i) [
        | inl j ↦ elim (here.0 j) [
          | inl k ↦ inl k
          | inr (r, k, e) ↦
              inr (r, In-append_left r (candidates_of value) (all_candidates entries) k, e)
        ]
        | inr (r, j, e) ↦
            inr (r, In-append_right r (candidates_of value) (all_candidates entries) j, e)
      ],
      λ i. rest.1 (elim i [
        | inl j ↦ inl (here.1 (inl j))
        | inr (r, j, e) ↦ elim (In-append r (candidates_of value) (all_candidates entries) j) [
          | inl k ↦ inl (here.1 (inr (r, k, e)))
          | inr k ↦ inr (r, k, e)
        ]
      ]),
    )
add_entries-In (no_object ∷ entries) names n = add_entries-In entries names n

add_entries-Unique :
    (entries : List Entry) (names : List Text) → Unique names → Unique (add_entries entries names)
unfolding add_entries
add_entries-Unique [] names u = u
add_entries-Unique (object value ∷ entries) names u =
    add_entries-Unique entries (add_candidates (candidates_of value) names)
      (add_candidates-Unique (candidates_of value) names u)
add_entries-Unique (no_object ∷ entries) names u = add_entries-Unique entries names u

-- What a payload logs: nothing if it is no JSON
abbrev pub logged : Option CtDocument → List Text
logged none = []
logged (some document) = all_candidates (entries_of document)

-- A list of names, and the candidates that they come from
abbrev pub IsNames : List Text → List Text → Type 0
IsNames raws names =
    IsSorted le_text names
    × Unique names
    × ((n : Text) → In n names ↔ IsNameOf raws n)
    × ((n : Text) → In n names → IsSafeName n)

-- The names of a payload are sorted, without repetitions, and just the canonical forms of its
-- candidates, which a malformed payload has none of; each consists of small letters, digits, hyphens
-- and dots, and of 253 of them at most.
pub parse_ct_payload-IsNames :
    (loads : Text → Option CtDocument) (text : Text)
    → IsNames (logged (loads text)) (parse_ct_payload loads text)
unfolding parse_ct_payload
parse_ct_payload-IsNames loads text = go (loads text)
  where
    go : (o : Option CtDocument) → IsNames (logged o) (parse_document o)
    go none =
        unfold parse_document in
        (tt, tt, λ n. (λ i. absurd i, λ (raw, i, e). absurd i), λ n i. absurd i)
    go (some document) =
        let found = add_entries (entries_of document) [] in
        let p = sort_by-perm le_text found in
        let members : (n : Text)
            → In n (sort_by le_text found) ↔ IsNameOf (logged (some document)) n =
          λ n.
            let both = add_entries-In (entries_of document) [] n in
            (
              λ i. elim (both.0 (In-perm n p i)) [ inl j ↦ absurd j | inr e ↦ e ],
              λ e. In-perm n (Permᴰ.symm p) (both.1 (inr e)),
            ) in
        unfold parse_document in
        (
          sort_by-IsSorted le_text le_text-IsOrder found,
          Unique-perm (Permᴰ.symm p) (add_entries-Unique (entries_of document) [] tt),
          members,
          λ n i. let (raw, j, e) = (members n).0 i in normalise_name-IsSafeName raw n e,
        )
