-- ===== src/Signatures/File/Pairs.antt =====
-- The pair of a line of a signature file: `_load_signatures` of core/c_core_bridge.py cuts at the first
-- tab.
use helios_net.Prelude.{
  ◌≡◌, refl, ap, ◌∙◌, ◌⊎◌, inl, inr, ◌==◌, Bool-cases, none, some, [], ◌∷◌, ◌++◌, In, arith,
}
use helios_net.Prelude.Text.{Text}
use helios_net.Signatures.File.{Signature, cut_tab, pair_of_line}

-- A line with a tab is a name and a pattern around its first one; another line is both.
abbrev pub IsPair : Text → Signature → Type 0
IsPair line (name, pattern) =
    ((¬ In b'\t' line) × (name ≡ line) × (pattern ≡ line))
    ⊎ ((line ≡ name ++ b'\t' ∷ pattern) × (¬ In b'\t' name))

cut_tab-absent : (s : Text) → ¬ In b'\t' s → cut_tab s ≡ none
unfolding cut_tab
cut_tab-absent [] n = refl
cut_tab-absent (c ∷ s) n = elim (Bool-cases (c == b'\t')) [
  | inl h ↦ absurd (n (inl (ground (arith, h))))
  | inr h ↦ rw (h, cut_tab-absent s (λ i. n (inr i)))
]

cut_tab-append :
    (name pattern : Text)
    → ¬ In b'\t' name
    → cut_tab (name ++ b'\t' ∷ pattern) ≡ some (name, pattern)
unfolding cut_tab
cut_tab-append [] pattern n = refl
cut_tab-append (c ∷ name) pattern n = elim (Bool-cases (c == b'\t')) [
  | inl h ↦ absurd (n (inl (ground (arith, h))))
  | inr h ↦ rw (h, cut_tab-append name pattern (λ i. n (inr i)))
]

cut_tab-cases :
    (s : Text)
    → ((cut_tab s ≡ none) × (¬ In b'\t' s))
      ⊎ ((name : Text) × (pattern : Text) × (cut_tab s ≡ some (name, pattern))
          × (s ≡ name ++ b'\t' ∷ pattern)
          × (¬ In b'\t' name))
unfolding cut_tab
cut_tab-cases [] = inl (refl, λ i. absurd i)
cut_tab-cases (c ∷ s) = elim (Bool-cases (c == b'\t')) [
  | inl h ↦
      let e : c ≡ b'\t' = ground (arith, h) in
      inr ([], s, rw h refl, ap (λ d. d ∷ s) e, λ i. absurd i)
  | inr h ↦
      let apart : ¬ (b'\t' ≡ c) = λ e. ground (arith, h, e) in
      elim (cut_tab-cases s) [
        | inl (e, n) ↦ inl (rw (h, e), λ i. elim i [ inl f ↦ apart f | inr j ↦ n j ])
        | inr (name, pattern, e, f, n) ↦ inr (
          c ∷ name,
          pattern,
          rw (h, e),
          ap (λ t. c ∷ t) f,
          λ i. elim i [ inl g ↦ apart g | inr j ↦ n j ],
        )
      ]
]

pub pair_of_line-IsPair : (line : Text) → IsPair line (pair_of_line line)
unfolding pair_of_line
pair_of_line-IsPair line = elim (cut_tab-cases line) [
  | inl (e, n) ↦ rw (e, pair_of_line) (inl (n, refl, refl))
  | inr (name, pattern, e, f, n) ↦ rw (e, pair_of_line) (inr (f, n))
]

pub IsPair-pair_of_line : (line : Text) (x : Signature) → IsPair line x → pair_of_line line ≡ x
unfolding pair_of_line
IsPair-pair_of_line line (name, pattern) (inl (n, e, f)) =
    rw (cut_tab-absent line n, pair_of_line) (cc (e, f))
IsPair-pair_of_line line (name, pattern) (inr (e, n)) =
    ap pair_of_line e ∙ rw (cut_tab-append name pattern n, pair_of_line) refl
