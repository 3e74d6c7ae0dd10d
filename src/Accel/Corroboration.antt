-- ===== src/Accel/Corroboration.antt =====
-- What the verdict of `compare_backends` of core/accel.py says of the backends, and where it says too
-- much.
use mathlib.Core.List.Permᴰ
use helios_net.Prelude.{
  ℕ, ◌≡◌, refl, sym, ap, subst, ◌∙◌, ◌↔◌, inl, inr, Bool, true, false, leb, Bool-cases, none, some,
  List, [], ◌∷◌, length, In, In-perm, arith, ◌≤◌, leb→le,
}
use helios_net.Prelude.Sort.{sort_by-perm}
use helios_net.Prelude.Text.{Text}
use helios_net.Accel.{
  Backend, c, rust, python, backend_info, Host, raised, unavailable, preference, order_for, serve,
  attempt, value_or, return_or, info_if, eqb_capability, capability_code, pin_known, pin,
  eqb_backend, backend_code, backend_of,
}
use helios_net.Accel.Match.{
  Match, Cores, match_signatures, normalise_hits, match_in_order, match_outcome, python_match,
  python_fallback,
}
use helios_net.Accel.Match.{eqb_match→eq, eqb_match_refl}
use helios_net.Accel.Compare.{
  name_of, le_hit, key, eqb_matches, PerBackend, add_backend, per_backend, same_key, differing,
  is_none, compare_entries, compare_backends,
}
use helios_net.Accel.PythonMatch.{python_match-IsHit}

-- Two entries hold the same hits.
abbrev pub SameHits : List Match → List Match → Type 0
SameHits xs ys = (x : Match) → In x xs ↔ In x ys

eqb_matches→eq : (xs ys : List Match) → eqb_matches xs ys ≡ true → xs ≡ ys
unfolding eqb_matches
eqb_matches→eq [] [] h = refl
eqb_matches→eq [] (y ∷ ys) h = ground arith
eqb_matches→eq (x ∷ xs) [] h = ground arith
eqb_matches→eq (x ∷ xs) (y ∷ ys) h =
    let e = eqb_match→eq x y (ground arith) in
    let rest = eqb_matches→eq xs ys (ground arith) in cc (e, rest)

key-SameHits : (xs ys : List Match) → key xs ≡ key ys → SameHits xs ys
unfolding key
key-SameHits xs ys e x =
    let p = sort_by-perm le_hit xs in
    let q = sort_by-perm le_hit ys in
    (
      λ i. In-perm x q (subst (In x) e (In-perm x (Permᴰ.symm p) i)),
      λ i. In-perm x p (subst (In x) (sym e) (In-perm x (Permᴰ.symm q) i)),
    )

same_key→eq :
    (found reference : List Match) (name : Backend)
    → same_key reference (name, found) ≡ true
    → key found ≡ key reference
unfolding same_key
same_key→eq found reference name h = eqb_matches→eq (key found) (key reference) h

differing-none :
    (reference : List Match) (entries : PerBackend)
    → differing reference entries ≡ []
    → (entry : Backend × List Match) → In entry entries
    → SameHits entry.1 reference
unfolding differing
differing-none reference [] h entry i = absurd i
differing-none reference (e ∷ entries) h entry i = elim (Bool-cases (same_key reference e)) [
  | inl k ↦
      let there = key-SameHits e.1 reference (same_key→eq e.1 reference e.0 k) in
      here_or i there (differing-none reference entries (rw k at h) entry)
  | inr k ↦ absurd (not_nil (rw k at h))
]
  where
    not_nil : ¬ (e.0 ∷ differing reference entries ≡ [])
    not_nil g = ground arith

    here_or :
        In entry (e ∷ entries)
        → SameHits e.1 reference
        → (In entry entries → SameHits entry.1 reference)
        → SameHits entry.1 reference
    here_or (inl g) there rest = subst (λ z. SameHits z.1 reference) (sym g) there
    here_or (inr j) there rest = rest j

is_none→nil : (bs : List Backend) → is_none bs ≡ true → bs ≡ []
unfolding is_none
is_none→nil [] h = refl
is_none→nil (b ∷ bs) h = ground arith

compare_entries-agree :
    (entries : PerBackend)
    → (compare_entries entries).agree ≡ some true
    → (2 ≤ length entries)
      × ((compare_entries entries).backends ≡ entries)
      × ((reference : List Match) × ((entry : Backend × List Match)
            → In entry entries
            → SameHits entry.1 reference))
unfolding compare_entries
compare_entries-agree [] h = absurd (no_answer h)
  where
    no_answer : ¬ (none ≡ some true)
    no_answer k = ground arith
compare_entries-agree ((name, reference) ∷ entries) h =
    elim (Bool-cases (leb 2 (length ((name, reference) ∷ entries)))) [
      | inl e ↦
          let k : some (is_none (differing reference ((name, reference) ∷ entries))) ≡ some true =
            rw e at h in
          let none_left = is_none→nil (differing reference ((name, reference) ∷ entries)) (cc k) in
          (
            leb→le 2 (length ((name, reference) ∷ entries)) e,
            refl,
            (reference, differing-none reference ((name, reference) ∷ entries) none_left),
          )
      | inr e ↦ absurd (no_answer (rw e at h))
    ]
  where
    no_answer : ¬ (none ≡ some true)
    no_answer k = ground arith

-- `agree` is true only where two backends at least are listed and all of them list the same hits.
pub compare_backends-SameHits :
    (host : Host) (cores : Cores) (text : Text) (patterns : List Text)
    → let comparison = compare_backends host cores text patterns in
      comparison.agree ≡ some true
      → (2 ≤ length comparison.backends)
        × ((x y : Backend × List Match)
            → In x comparison.backends
            → In y comparison.backends
            → SameHits x.1 y.1)
unfolding compare_backends
compare_backends-SameHits host cores text patterns h =
    let entries = per_backend host cores text patterns preference in
    let (two, same, (reference, all_same)) = compare_entries-agree entries h in
    (
      subst (λ es. 2 ≤ length es) (sym same) two,
      λ x y i j m.
          let a = all_same x (subst (In x) same i) in
          let b = all_same y (subst (In y) same j) in
          (λ k. (b m).1 ((a m).0 k), λ k. (a m).1 ((b m).0 k)),
    )

-- With C available and raising and Rust absent, a request is answered by Python.
module _ (cores : Cores) (a : ℕ) (text p : Text) (patterns : List Text) (go_there : Bool)
    (raises : cores.c_match (a ∷ text) (p ∷ patterns) ≡ none) (found : List Match)
    (returns : python_match (a ∷ text) (p ∷ patterns) ≡ some found) where
  abbrev degraded : Host
  degraded = record { c_available = true; rust_available = false; go_available = go_there }

  pinned_c :
      match_signatures degraded cores (a ∷ text) (p ∷ patterns) (some "c")
      ≡ some (record {
        matches = normalise_hits found;
        engine = python_fallback;
        reasons = raised c ∷ unavailable rust ∷ [];
      })
  unfolding match_signatures order_for backend_of pin_known pin eqb_backend backend_code
      match_in_order serve attempt value_or return_or backend_info info_if eqb_capability
      capability_code match_outcome
  pinned_c = rw (raises, returns) refl

  pinned_python :
      match_signatures degraded cores (a ∷ text) (p ∷ patterns) (some "python")
      ≡ some (record { matches = normalise_hits found; engine = python_fallback; reasons = [] })
  unfolding match_signatures order_for backend_of pin_known pin eqb_backend backend_code
      match_in_order serve attempt value_or return_or backend_info info_if eqb_capability
      capability_code match_outcome
  pinned_python = rw returns refl

  listed :
      per_backend degraded cores (a ∷ text) (p ∷ patterns) preference
      ≡ (c, normalise_hits found) ∷ (python, normalise_hits found) ∷ []
  unfolding per_backend add_backend name_of backend_info info_if
  listed = rw (pinned_c, pinned_python) refl

eqb_matches_refl : (xs : List Match) → eqb_matches xs xs ≡ true
unfolding eqb_matches
eqb_matches_refl [] = refl
eqb_matches_refl (x ∷ xs) = ground (arith, eqb_match_refl x, eqb_matches_refl xs)

twice :
    (hits : List Match)
    → let comparison = compare_entries ((c, hits) ∷ (python, hits) ∷ []) in
      (comparison.backends ≡ (c, hits) ∷ (python, hits) ∷ [])
      × (comparison.agree ≡ some true)
      × (comparison.corroborated ≡ true)
unfolding compare_entries differing same_key is_none
twice hits = (refl, rw (eqb_matches_refl (key hits)) refl, refl)

-- A backend that is reported as available and raises lends its name to the answer of another: with C
-- available and raising and Rust absent, Python is listed twice and the comparison is corroborated.
pub compare_backends-alone :
    (cores : Cores) (a : ℕ) (text p : Text) (patterns : List Text) (go_there : Bool)
    → cores.c_match (a ∷ text) (p ∷ patterns) ≡ none
    → let comparison =
        compare_backends
          (record { c_available = true; rust_available = false; go_available = go_there })
          cores
          (a ∷ text)
          (p ∷ patterns) in
      (hits : List Match) × (comparison.backends ≡ (c, hits) ∷ (python, hits) ∷ [])
      × (comparison.agree ≡ some true)
      × (comparison.corroborated ≡ true)
unfolding compare_backends
compare_backends-alone cores a text p patterns go_there raises =
    let (found, returns, _) = python_match-IsHit (a ∷ text) (p ∷ patterns) in
    let e = ap compare_entries (listed cores a text p patterns go_there raises found returns) in
    let (entries, agree, corroborated) = twice (normalise_hits found) in
    (
      normalise_hits found,
      ap (λ r. r.backends) e ∙ entries,
      ap (λ r. r.agree) e ∙ agree,
      ap (λ r. r.corroborated) e ∙ corroborated,
    )
