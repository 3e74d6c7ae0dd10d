-- ===== src/Accel/PythonMatch.antt =====
-- `_python_match` of core/accel.py: it ends, and finds the folded patterns in the folded text.
use helios_net.Prelude.{
  ℕ, ◌≡◌, ◌≢◌, refl, ap, subst, ◌↔◌, inl, inr, some, List, [], ◌∷◌, ◌++◌, In, In-append,
  In-append_left, In-append_right, arith,
}
use helios_net.Prelude.Int.{pos}
use helios_net.Prelude.Text.{Text}
use helios_net.Signatures.{fold_ascii, byte_offset}
use helios_net.Signatures.Search.{Occurs, find_all_occurrences-Occurs}
use helios_net.Accel.Match.{Match, hits_at, append_hits, hits_of, pattern_hits, python_match}

-- The hit is a pattern that stands in the text, case folded, at the byte that it names.
abbrev pub IsHit : Text → Text → Match → Type 0
IsHit text pattern x =
    (pattern ≢ [])
    × (x.signature ≡ pattern)
    × ((k : ℕ) × Occurs (fold_ascii pattern) (fold_ascii text) k
        × (x.position ≡ byte_offset (fold_ascii text) (pos k)))

In-hits_at :
    (folded_text pattern : Text) (found : List ℕ) (x : Match)
    → In x (hits_at folded_text pattern found) ↔ (
        (k : ℕ) × In k found
        × (x.signature ≡ pattern)
        × (x.position ≡ byte_offset folded_text (pos k)))
unfolding hits_at
In-hits_at folded_text pattern [] x = (λ i. absurd i, λ h. absurd h.1)
In-hits_at folded_text pattern (j ∷ found) x =
    let rest = In-hits_at folded_text pattern found x in
    (
      λ i. elim i [
        | inl e ↦ (j, inl refl, ap (λ m. m.signature) e, ap (λ m. m.position) e)
        | inr i' ↦ let (k, n, s, p) = rest.0 i' in (k, inr n, s, p)
      ],
      λ h. back h.0 h.1 h.2 h.3 rest.1,
    )
  where
    back :
        (k : ℕ)
        → In k (j ∷ found)
        → x.signature ≡ pattern
        → x.position ≡ byte_offset folded_text (pos k)
        → (((k : ℕ) × In k found
              × (x.signature ≡ pattern)
              × (x.position ≡ byte_offset folded_text (pos k)))
            → In x (hits_at folded_text pattern found))
        → In x (hits_at folded_text pattern (j ∷ found))
    back k (inl e) s p rec = inl (cc (s, p, e))
    back k (inr n) s p rec = inr (rec (k, n, s, p))

fold_ascii_nonempty : (a : ℕ) (s : Text) → fold_ascii (a ∷ s) ≢ []
unfolding fold_ascii
fold_ascii_nonempty a s h = ground arith

pattern_hits-IsHit :
    (text pattern : Text)
    → (hits : List Match) × (pattern_hits (fold_ascii text) pattern ≡ some hits)
      × ((x : Match) → In x hits ↔ IsHit text pattern x)
unfolding pattern_hits hits_of
pattern_hits-IsHit text [] = ([], refl, λ x. (λ i. absurd i, λ h. absurd (h.0 refl)))
pattern_hits-IsHit text (a ∷ pattern) =
    let folded = fold_ascii text in
    let (found, e, _, places) =
      find_all_occurrences-Occurs folded (fold_ascii (a ∷ pattern))
        (fold_ascii_nonempty a pattern) in
    (
      hits_at folded (a ∷ pattern) found,
      ap (hits_of folded (a ∷ pattern)) e,
      λ x.
          let both = In-hits_at folded (a ∷ pattern) found x in
          (
            λ i. let (k, n, s, p) = both.0 i in (cons_not_nil, s, (k, (places k).0 n, p)),
            λ h. let (k, o, p) = h.2 in both.1 (k, (places k).1 o, h.1, p),
          ),
    )
  where
    cons_not_nil : (a ∷ pattern) ≢ []
    cons_not_nil h = ground arith

-- The search in Python returns, and its hits are just those of the patterns that are not empty, at
-- each place where the pattern stands in the text, both case folded over ASCII, by byte offset.
pub python_match-IsHit :
    (text : Text) (patterns : List Text)
    → (hits : List Match) × (python_match text patterns ≡ some hits)
      × ((x : Match) → In x hits ↔ ((pattern : Text) × In pattern patterns × IsHit text pattern x))
unfolding python_match append_hits
python_match-IsHit text [] = ([], refl, λ x. (λ i. absurd i, λ h. absurd h.1))
python_match-IsHit text (pattern ∷ patterns) =
    let (hits, e, own) = pattern_hits-IsHit text pattern in
    let (rest, f, others) = python_match-IsHit text patterns in
    (
      hits ++ rest,
      rw (e, f) refl,
      λ x. (
        λ i. elim (In-append x hits rest i) [
          | inl j ↦ (pattern, inl refl, (own x).0 j)
          | inr j ↦ let (p, n, h) = (others x).0 j in (p, inr n, h)
        ],
        λ h. back x hits rest h.0 h.1 h.2 (own x).1 (others x).1,
      ),
    )
  where
    back :
        (x : Match) (hits rest : List Match) (p : Text)
        → In p (pattern ∷ patterns)
        → IsHit text p x
        → (IsHit text pattern x → In x hits)
        → ((q : Text) × In q patterns × IsHit text q x → In x rest)
        → In x (hits ++ rest)
    back x hits rest p (inl e) h own others =
        In-append_left x hits rest (own (subst (λ q. IsHit text q x) e h))
    back x hits rest p (inr n) h own others = In-append_right x hits rest (others (p, n, h))
