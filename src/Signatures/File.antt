-- ===== src/Signatures/File.antt =====
-- `_load_signatures` of core/c_core_bridge.py: the text of a signature file as (name, pattern) pairs.
pub mod Pairs
pub mod Lines
use mathlib.Core.List.{foldl}
use helios_net.Prelude.{
  ℕ, ◌≡◌, refl, sym, subst, ◌↔◌, ◌⊎◌, inl, inr, Bool, true, false, ◌||◌, Bool-cases, if◌then◌else◌,
  ◌==◌, Option, none, some, List, [], ◌∷◌, In, arith, Unique,
}
use helios_net.Prelude.Eq.{text_eq, pair_eq}
use helios_net.Prelude.Sets.{set_add, In-set_add, Unique-set_add}
use helios_net.Prelude.Text.{Text, drop_while, drop_while_end}

abbrev pub Signature : Type 0
Signature = Text × Text

-- `text.split("\n")`
unfoldable pub split_lines : Text → List Text
split_lines [] = [] ∷ []
split_lines (c ∷ s) = add (split_lines s)
  where
    add : List Text → List Text
    add [] = (c ∷ []) ∷ []
    add (line ∷ lines) = if c == b'\n' then [] ∷ line ∷ lines else (c ∷ line) ∷ lines

-- `raw.rstrip("\r").strip(" \t")`
unfoldable pub trim_line : Text → Text
unfolding drop_while drop_while_end
trim_line raw =
    let blank = λ (c : ℕ). c == b' ' || c == b'\t' in
    drop_while_end blank (drop_while blank (drop_while_end (λ c. c == b'\r') raw))

-- The line cut at its first tab; a line without one is both fields.
unfoldable pub cut_tab : Text → Option Signature
cut_tab [] = none
cut_tab (c ∷ s) = let rest = cut_tab s in if c == b'\t' then some ([], s) else add rest
  where
    add : Option Signature → Option Signature
    add none = none
    add (some (name, pattern)) = some (c ∷ name, pattern)

unfoldable pub pair_of_line : Text → Signature
unfolding cut_tab
pair_of_line line = elim (cut_tab line) [ none ↦ (line, line) | some pair ↦ pair ]

-- `not line or line.startswith("#")`
unfoldable pub is_comment : Text → Bool
is_comment [] = true
is_comment (c ∷ s) = c == b'#'

-- One round of the loop; `seen` holds just the pairs that were read.
unfoldable pub read_line : List Signature → Text → List Signature
unfolding trim_line is_comment pair_of_line set_add
read_line pairs raw =
    let line = trim_line raw in
    let pair = pair_of_line line in if is_comment line then pairs else set_add pairs pair

-- A file that cannot be read, `none`, has no signatures.
unfoldable pub load_signatures : Option Text → List Signature
unfolding read_line split_lines
load_signatures none = []
load_signatures (some text) = foldl read_line [] (split_lines text)

-- The pair that the loop takes from a line
abbrev pub Takes : Text → Signature → Type 0
Takes raw pair = (is_comment (trim_line raw) ≡ false) × (pair_of_line (trim_line raw) ≡ pair)

-- The loop takes the pair from some line.
abbrev pub IsTaken : List Text → Signature → Type 0
IsTaken lines x = (raw : Text) × In raw lines × Takes raw x

read_line-Unique :
    (pairs : List Signature) (raw : Text) → Unique pairs → Unique (read_line pairs raw)
unfolding read_line
read_line-Unique pairs raw u = elim (Bool-cases (is_comment (trim_line raw))) [
  | inl e ↦ rw e u
  | inr e ↦ rw e (Unique-set_add pairs (pair_of_line (trim_line raw)) u)
]

In-read_line :
    (pairs : List Signature) (raw : Text) (x : Signature)
    → In x (read_line pairs raw) ↔ (In x pairs ⊎ Takes raw x)
unfolding read_line
In-read_line pairs raw x = elim (Bool-cases (is_comment (trim_line raw))) [
  | inl e ↦ rw e (λ i. inl i, λ h. elim h [ inl i ↦ i | inr r ↦ absurd (clash r.0) ])
  | inr e ↦
      let both = In-set_add pairs (pair_of_line (trim_line raw)) x in
      rw e (
        λ i. elim (both.0 i) [ inl j ↦ inl j | inr k ↦ inr (refl, sym k) ],
        λ h. both.1 (elim h [ inl j ↦ inl j | inr r ↦ inr (sym r.1) ]),
      )
]
  where
    clash : ¬ (true ≡ false)
    clash h = ground arith

pub In-read_lines :
    (lines : List Text) (pairs : List Signature) (x : Signature)
    → In x (foldl read_line pairs lines) ↔ (In x pairs ⊎ IsTaken lines x)
In-read_lines [] pairs x = (λ i. inl i, λ h. elim h [ inl i ↦ i | inr r ↦ absurd r.1 ])
In-read_lines (raw ∷ lines) pairs x =
    let round = In-read_line pairs raw x in
    let later = In-read_lines lines (read_line pairs raw) x in
    (
      λ i. elim (later.0 i) [
        | inl j ↦ elim (round.0 j) [ inl k ↦ inl k | inr r ↦ inr (raw, inl refl, r) ]
        | inr (line, k, r) ↦ inr (line, inr k, r)
      ],
      λ h. later.1 (elim h [
        | inl i ↦ inl (round.1 (inl i))
        | inr (line, inl e, r) ↦ inl (round.1 (inr (subst (λ t. Takes t x) e r)))
        | inr (line, inr k, r) ↦ inr (line, k, r)
      ]),
    )

pub Unique-read_lines :
    (lines : List Text) (pairs : List Signature)
    → Unique pairs
    → Unique (foldl read_line pairs lines)
Unique-read_lines [] pairs u = u
Unique-read_lines (raw ∷ lines) pairs u =
    Unique-read_lines lines (read_line pairs raw) (read_line-Unique pairs raw u)
