-- ===== src/Signatures/File/Lines.antt =====
-- What a signature file says, line by line, and that `_load_signatures` of core/c_core_bridge.py reads
-- it so.
use helios_net.Prelude.{
  ℕ, ◌≡◌, ◌≢◌, refl, sym, ap, subst, ◌∙◌, ◌↔◌, ◌⊎◌, inl, inr, Bool, true, false, ◌==◌, ◌||◌, some,
  List, [], ◌∷◌, ◌++◌, In, All, Unique, arith,
}
use helios_net.Prelude.Text.{Text, drop_while, drop_while_end}
use helios_net.Prelude.Trim.{
  is_or_not, NotFirst, NotLast, NotFirst-prefix, drop_while-NotFirst, drop_while-dropped,
  drop_while-append, drop_while_end-append, drop_while_end-dropped,
}
use helios_net.Signatures.File.Pairs.{IsPair, pair_of_line-IsPair, IsPair-pair_of_line}
use helios_net.Signatures.File.{
  Signature, split_lines, trim_line, pair_of_line, is_comment, load_signatures, Takes,
  In-read_lines, Unique-read_lines,
}

abbrev pub IsBlank : ℕ → Type 0
IsBlank c = (c ≡ b' ') ⊎ (c ≡ b'\t')

-- Carriage returns are cut from the end of a line, then spaces and tabs from both ends. What is left
-- is not empty, does not start with `#`, and stands for the pair.
pub record Reads (raw : Text) (pair : Signature) : Type 0 where
  pub left : Text
  pub line : Text
  pub right : Text
  pub returns : Text
  pub whole : raw ≡ (left ++ (line ++ right)) ++ returns
  pub left_blank : All IsBlank left
  pub right_blank : All IsBlank right
  pub only_returns : All (λ c. c ≡ b'\r') returns
  pub no_return : NotLast (λ c. c ≡ b'\r') (left ++ (line ++ right))
  pub no_blank_first : NotFirst IsBlank line
  pub no_blank_last : NotLast IsBlank line
  pub not_empty : line ≢ []
  pub no_comment : NotFirst (λ c. c ≡ b'#') line
  pub is_pair : IsPair line pair

-- Some line stands for the pair.
abbrev pub IsListed : List Text → Signature → Type 0
IsListed lines x = (raw : Text) × In raw lines × Reads raw x

-- Lines with newlines between them
abbrev pub join_lines : List Text → Text
join_lines [] = []
join_lines (line ∷ []) = line
join_lines (line ∷ next ∷ lines) = line ++ b'\n' ∷ join_lines (next ∷ lines)

IsBlank-or_not :
    (c : ℕ)
    → (((c == b' ' || c == b'\t') ≡ true) × IsBlank c)
      ⊎ (((c == b' ' || c == b'\t') ≡ false) × (¬ IsBlank c))
IsBlank-or_not c = elim (is_or_not b' ' c) [
  | inl (h, e) ↦ inl (rw h, inl e)
  | inr (h, n) ↦ elim (is_or_not b'\t' c) [
    | inl (k, e) ↦ inl (rw (h, k), inr e)
    | inr (k, m) ↦ inr (rw (h, k), λ b. elim b [ inl e ↦ n e | inr e ↦ m e ])
  ]
]

not_hash : (s : Text) → s ≢ [] → NotFirst (λ c. c ≡ b'#') s → is_comment s ≡ false
unfolding is_comment
not_hash [] n h = absurd (n refl)
not_hash (c ∷ s) n h = elim (is_or_not b'#' c) [ inl (_, e) ↦ absurd (h e) | inr (f, _) ↦ f ]

hash_or_not : (s : Text) → is_comment s ≡ false → (s ≢ []) × NotFirst (λ c. c ≡ b'#') s
unfolding is_comment
hash_or_not [] h = absurd (clash h)
  where
    clash : ¬ (true ≡ false)
    clash k = ground arith
hash_or_not (c ∷ s) h = (λ e. ground arith, λ e. ground (arith, h, e))

abbrev is_blank : ℕ → Bool
is_blank c = c == b' ' || c == b'\t'

abbrev is_return : ℕ → Bool
is_return c = c == b'\r'

-- What the loop takes from a line is what the line stands for.
Takes-Reads : (raw : Text) (x : Signature) → Takes raw x → Reads raw x
Takes-Reads raw x (shown, e) =
    let body = drop_while_end is_return raw in
    let inner = drop_while is_blank body in
    let (returns, f, only, no_return) = drop_while_end-dropped is_return _ (is_or_not b'\r') raw in
    let (left, g, blank) = drop_while-dropped is_blank _ IsBlank-or_not body in
    let (right, h, blank', last) = drop_while_end-dropped is_blank _ IsBlank-or_not inner in
    let line = drop_while_end is_blank inner in
    let trimmed : trim_line raw ≡ line = unfold trim_line in refl in
    let (full, hash) = hash_or_not line (subst (λ l. is_comment l ≡ false) trimmed shown) in
    let apart : body ≡ left ++ (line ++ right) = g ∙ ap (λ t. left ++ t) h in
    record {
      left = left;
      line = line;
      right = right;
      returns = returns;
      whole = f ∙ ap (λ t. t ++ returns) apart;
      left_blank = blank;
      right_blank = blank';
      only_returns = only;
      no_return = subst (NotLast (λ c. c ≡ b'\r')) apart no_return;
      no_blank_first =
          NotFirst-prefix IsBlank line right
            (subst (NotFirst IsBlank) h (drop_while-NotFirst is_blank IsBlank IsBlank-or_not body));
      no_blank_last = last;
      not_empty = full;
      no_comment = hash;
      is_pair = subst (IsPair line) (ap pair_of_line (sym trimmed) ∙ e) (pair_of_line-IsPair line);
    }

NotFirst-append : (P : ℕ → Type 0) (s t : Text) → s ≢ [] → NotFirst P s → NotFirst P (s ++ t)
NotFirst-append P [] t n h = absurd (n refl)
NotFirst-append P (c ∷ s) t n h = h

Reads-trim_line : (raw : Text) (x : Signature) (r : Reads raw x) → trim_line raw ≡ r.line
unfolding trim_line
Reads-trim_line raw x r =
    let cut : drop_while_end is_return raw ≡ r.left ++ (r.line ++ r.right) =
      ap (drop_while_end is_return) r.whole
      ∙ drop_while_end-append is_return _ (is_or_not b'\r') (r.left ++ (r.line ++ r.right))
          r.returns r.only_returns r.no_return in
    ap (λ t. drop_while_end is_blank (drop_while is_blank t)) cut
    ∙ ap (drop_while_end is_blank) (
        drop_while-append is_blank IsBlank IsBlank-or_not r.left (r.line ++ r.right) r.left_blank
          (NotFirst-append IsBlank r.line r.right r.not_empty r.no_blank_first))
    ∙ drop_while_end-append is_blank IsBlank IsBlank-or_not r.line r.right r.right_blank
        r.no_blank_last

Reads-Takes : (raw : Text) (x : Signature) → Reads raw x → Takes raw x
Reads-Takes raw x r =
    let e = Reads-trim_line raw x r in
    (
      ap is_comment e ∙ not_hash r.line r.not_empty r.no_comment,
      ap pair_of_line e ∙ IsPair-pair_of_line r.line x r.is_pair,
    )

join_lines-cons :
    (c : ℕ) (line : Text) (lines : List Text)
    → join_lines ((c ∷ line) ∷ lines) ≡ c ∷ join_lines (line ∷ lines)
join_lines-cons c line [] = refl
join_lines-cons c line (next ∷ lines) = refl

split_lines-cons :
    (s : Text)
    → (line : Text) × (lines : List Text) × (split_lines s ≡ line ∷ lines)
      × (join_lines (line ∷ lines) ≡ s)
      × All (λ l. ¬ In b'\n' l) (line ∷ lines)
unfolding split_lines
split_lines-cons [] = ([], [], refl, refl, (λ i. i, tt))
split_lines-cons (c ∷ s) =
    let (line, lines, e, f, n) = split_lines-cons s in
    elim (is_or_not b'\n' c) [
      | inl (h, g) ↦ ([], line ∷ lines, rw (e, h), cc (f, g), (λ i. i, n))
      | inr (h, g) ↦ (
        c ∷ line,
        lines,
        rw (e, h),
        join_lines-cons c line lines ∙ ap (λ t. c ∷ t) f,
        (λ i. elim i [ inl k ↦ g (sym k) | inr j ↦ n.0 j ], n.1),
      )
    ]

-- A file of signatures has lines between newlines such that its signatures hold no pair twice, and
-- are just the pairs that lines stand for which are neither blank nor start with `#` once trimmed.
pub load_signatures-IsListed :
    (text : Text)
    → Unique (load_signatures (some text))
      × (lines : List Text) × (join_lines lines ≡ text)
      × All (λ l. ¬ In b'\n' l) lines
      × ((x : Signature) → In x (load_signatures (some text)) ↔ IsListed lines x)
unfolding load_signatures
load_signatures-IsListed text =
    let (line, lines, e, joined, whole) = split_lines-cons text in
    (
      Unique-read_lines (split_lines text) [] tt,
      split_lines text,
      ap join_lines e ∙ joined,
      subst (All (λ l. ¬ In b'\n' l)) (sym e) whole,
      λ x.
          let both = In-read_lines (split_lines text) [] x in
          (
            λ i. elim (both.0 i) [
              | inl j ↦ absurd j
              | inr (raw, k, t) ↦ (raw, k, Takes-Reads raw x t)
            ],
            λ (raw, k, r). both.1 (inr (raw, k, Reads-Takes raw x r)),
          ),
    )
