-- ===== src/Campaign/Store/Keeps/Lines.antt =====
-- The lines of a log.
use helios_net.Prelude.{
  ℕ, ◌≡◌, ◌≢◌, refl, sym, ap, ◌∙◌, ◌⊎◌, Bool-cases, ◌==◌, inl, inr, Option, none, some, List, [],
  ◌∷◌, ◌++◌, append_assoc, In, arith,
}
use helios_net.Prelude.Eq.{text_eq}
use helios_net.Prelude.Text.{Text}
use helios_net.Scope.{strip}
use helios_net.Campaign.Store.{
  Codec, file_lines, add_char, read_lines, read_event, add_event, read_content,
}

-- The text is empty, or ends in a newline.
abbrev pub HasEnd : Text → Type 0
HasEnd s = (s ≡ []) ⊎ ((front : Text) × (s ≡ front ++ 10 ∷ []))

-- A record is written as one line with no blanks around it, and read back as it was.
pub record IsLine {M E : Type 0} (json : Codec M E) (event : E) : Type 0 where
  pub not_empty : json.dumps_event event ≢ []
  pub one_line : ¬ In 10 (json.dumps_event event)
  pub no_blanks : strip (json.dumps_event event) ≡ json.dumps_event event
  pub read_back : json.loads_event (json.dumps_event event) ≡ some event

add_char-some :
    (c : ℕ) (s : Text)
    → (line : Text) × (lines : List Text) × (add_char c (file_lines s) ≡ line ∷ lines)
add_char-some c s = go (file_lines s)
  where
    go : (ls : List Text) → (line : Text) × (lines : List Text) × (add_char c ls ≡ line ∷ lines)
    go [] = (c ∷ [], [], refl)
    go (l ∷ ls) = (c ∷ l, ls, refl)

-- The first line of a text that has a newline
first_line :
    (front rest : Text)
    → (line : Text) × (lines : List Text) × (file_lines (front ++ 10 ∷ rest) ≡ line ∷ lines)
unfolding file_lines
first_line [] rest = ([], file_lines rest, refl)
first_line (c ∷ front) rest = elim (Bool-cases (c == 10)) [
  | inl e ↦ rw e ([], file_lines (front ++ 10 ∷ rest), refl)
  | inr e ↦ rw e (add_char-some c (front ++ 10 ∷ rest))
]

add_char-append :
    (c : ℕ) (xs ys : List Text) → xs ≢ [] → add_char c (xs ++ ys) ≡ add_char c xs ++ ys
add_char-append c [] ys n = absurd (n refl)
add_char-append c (x ∷ xs) ys n = refl

pub file_lines-append :
    (front rest : Text)
    → file_lines (front ++ 10 ∷ rest) ≡ file_lines (front ++ 10 ∷ []) ++ file_lines rest
unfolding file_lines
file_lines-append [] rest = refl
file_lines-append (c ∷ front) rest = elim (Bool-cases (c == 10)) [
  | inl e ↦ rw e (ap (λ l. [] ∷ l) (file_lines-append front rest))
  | inr e ↦ rw e (
      ap (add_char c) (file_lines-append front rest)
      ∙ add_char-append c (file_lines (front ++ 10 ∷ [])) (file_lines rest)
          (some_line (first_line front [])))
]
  where
    some_line :
        ((line : Text) × (lines : List Text) × (file_lines (front ++ 10 ∷ []) ≡ line ∷ lines))
        → file_lines (front ++ 10 ∷ []) ≢ []
    some_line (line, lines, e) h = clash (sym e ∙ h)
      where
        clash : ¬ (line ∷ lines ≡ [])
        clash k = ground arith

file_lines-line : (line : Text) → (¬ In 10 line) → file_lines (line ++ 10 ∷ []) ≡ line ∷ []
unfolding file_lines
file_lines-line [] n = refl
file_lines-line (c ∷ line) n = elim (Bool-cases (c == 10)) [
  | inl e ↦ absurd (n (inl (ground (arith, e))))
  | inr e ↦ rw e (ap (add_char c) (file_lines-line line (λ i. n (inr i))))
]

module _ {M E : Type 0} (json : Codec M E) where
  read_event-append :
      (line : Text) (xs ys : List E)
      → read_event json line (xs ++ ys) ≡ read_event json line xs ++ ys
  unfolding read_event
  read_event-append [] xs ys = refl
  read_event-append (c ∷ line) xs ys = go (json.loads_event (c ∷ line))
    where
      go : (o : Option E) → add_event json o (xs ++ ys) ≡ add_event json o xs ++ ys
      go none = unfold add_event in refl
      go (some event) = unfold add_event in refl

  read_lines-append :
      (xs ys : List Text) → read_lines json (xs ++ ys) ≡ read_lines json xs ++ read_lines json ys
  unfolding read_lines
  read_lines-append [] ys = refl
  read_lines-append (x ∷ xs) ys =
      ap (read_event json (strip x)) (read_lines-append xs ys)
      ∙ read_event-append (strip x) (read_lines json xs) (read_lines json ys)

  read_lines-line :
      (event : E) → IsLine json event → read_lines json (json.dumps_event event ∷ []) ≡ event ∷ []
  unfolding read_lines
  read_lines-line event l =
      ap (λ s. read_event json s []) l.no_blanks
      ∙ go (json.dumps_event event) l.not_empty l.read_back
    where
      go : (s : Text) → s ≢ [] → json.loads_event s ≡ some event → read_event json s [] ≡ event ∷ []
      go [] n e = absurd (n refl)
      go (c ∷ s) n e = unfold read_event add_event in rw e refl

  -- A record behind a text that is empty or ended
  pub read_content-append :
      (old : Text) (event : E)
      → IsLine json event
      → HasEnd old
      → read_content json (some (old ++ (json.dumps_event event ++ 10 ∷ [])))
        ≡ read_content json (some old) ++ event ∷ []
  unfolding read_content
  read_content-append old event l (inl e) = rw e (
      ap (read_lines json) (file_lines-line (json.dumps_event event) l.one_line)
      ∙ read_lines-line event l)
  read_content-append old event l (inr (front, e)) = rw e (
      ap (λ s. read_lines json (file_lines s))
        (append_assoc front (10 ∷ []) (json.dumps_event event ++ 10 ∷ []))
      ∙ ap (read_lines json) (file_lines-append front (json.dumps_event event ++ 10 ∷ []))
      ∙ read_lines-append (file_lines (front ++ 10 ∷ []))
          (file_lines (json.dumps_event event ++ 10 ∷ []))
      ∙ ap (λ r. read_lines json (file_lines (front ++ 10 ∷ [])) ++ r)
          (ap (read_lines json) (file_lines-line (json.dumps_event event) l.one_line)
            ∙ read_lines-line event l))
