-- ===== src/Ct/Safe.antt =====
-- The characters of a name that is valid.
use helios_net.Prelude.{
  ℕ, ◌≤◌, ◌≡◌, subst, ◌⊎◌, inl, inr, leb, ◌&&◌, Bool, true, ◌||◌, ◌==◌, none, some, List, [], ◌∷◌,
  All, all, length, Bool-cases, arith,
}
use helios_net.Prelude.Text.{split_at, add_first, Text}
use helios_net.Scope.{normalise}
use helios_net.Ct.{without_wildcard}
use helios_net.Ct.{
  is_label_char, ends_label, is_label, is_host, is_valid_hostname, valid_name, normalise_name,
}

abbrev is_name_char : ℕ → Bool
is_name_char c = is_label_char c || c == b'.'

-- A small letter, a digit, a hyphen or a dot
abbrev pub IsNameChar : ℕ → Type 0
IsNameChar c = ((b'a' ≤ c) × (c ≤ b'z')) ⊎ (((b'0' ≤ c) × (c ≤ b'9')) ⊎ ((c ≡ b'-') ⊎ (c ≡ b'.')))

-- Letters, digits, hyphens and dots only, and 253 of them at most
abbrev pub IsSafeName : Text → Type 0
IsSafeName n = All IsNameChar n × (length n ≤ 253)

is_name_char-IsNameChar : (c : ℕ) → is_name_char c ≡ true → IsNameChar c
is_name_char-IsNameChar c h = elim (Bool-cases (leb b'a' c && leb c b'z')) [
  | inl e ↦ inl (ground (arith, e), ground (arith, e))
  | inr e ↦ elim (Bool-cases (leb b'0' c && leb c b'9')) [
    | inl f ↦ inr (inl (ground (arith, f), ground (arith, f)))
    | inr f ↦ elim (Bool-cases (c == b'-')) [
      | inl g ↦ inr (inr (inl (ground (arith, g))))
      | inr g ↦ inr (inr (inr (ground (arith, h, e, f, g))))
    ]
  ]
]

name_chars : (n : Text) → All (λ c. is_name_char c ≡ true) n → All IsNameChar n
name_chars [] h = tt
name_chars (c ∷ n) h = (is_name_char-IsNameChar c h.0, name_chars n h.1)

ends_label-All : (s : Text) → ends_label s ≡ true → All (λ c. is_label_char c ≡ true) s
ends_label-All [] h = tt
ends_label-All (c ∷ []) h = (ground (arith, h), tt)
ends_label-All (c ∷ d ∷ s) h = (ground (arith, h), ends_label-All (d ∷ s) (ground (arith, h)))

is_label-All : (s : Text) → is_label s ≡ true → All (λ c. is_label_char c ≡ true) s
unfolding is_label
is_label-All [] h = tt
is_label-All (c ∷ s) h = (ground (arith, h), ends_label-All s (ground (arith, h)))

-- The characters of a text whose parts have label characters only
labels-All :
    (s : Text)
    → All (λ part. All (λ c. is_label_char c ≡ true) part) (split_at b'.' s)
    → All (λ c. is_name_char c ≡ true) s
unfolding split_at
labels-All [] h = tt
labels-All (c ∷ s) h = elim (Bool-cases (c == b'.')) [
  | inl e ↦ (ground (arith, e), labels-All s (rw e at h).1)
  | inr e ↦
      let parts = first (split_at b'.' s) (rw e at h) in
      (ground (arith, parts.0), labels-All s parts.1)
]
  where
    first :
        (parts : List Text)
        → All (λ part. All (λ d. is_label_char d ≡ true) part) (add_first c parts)
        → (is_label_char c ≡ true) × All (λ part. All (λ d. is_label_char d ≡ true) part) parts
    first [] k = (k.0.0, tt)
    first (part ∷ parts) k = (k.0.0, (k.0.1, k.1))

all_labels :
    (parts : List Text)
    → all is_label parts ≡ true
    → All (λ part. All (λ c. is_label_char c ≡ true) part) parts
all_labels [] h = tt
all_labels (part ∷ parts) h =
    (is_label-All part (ground (arith, h)), all_labels parts (ground (arith, h)))

is_valid_hostname-IsSafeName : (n : Text) → is_valid_hostname n ≡ true → IsSafeName n
unfolding is_valid_hostname is_host
is_valid_hostname-IsSafeName n h = (
  name_chars n (labels-All n (all_labels (split_at b'.' n) (ground (arith, h)))),
  ground (arith, h),
)

valid_name-some : (m n : Text) → valid_name m ≡ some n → is_valid_hostname n ≡ true
unfolding valid_name
valid_name-some m n e = elim (Bool-cases (is_valid_hostname m)) [
  | inl f ↦ same (rw f at e) f
  | inr f ↦ absurd (clash (rw f at e))
]
  where
    clash : ¬ (none ≡ some n)
    clash k = ground arith

    same : some m ≡ some n → is_valid_hostname m ≡ true → is_valid_hostname n ≡ true
    same k f = let m≡n : m ≡ n = cc k in subst (λ z. is_valid_hostname z ≡ true) m≡n f

pub normalise_name-IsSafeName : (raw n : Text) → normalise_name raw ≡ some n → IsSafeName n
unfolding normalise_name
normalise_name-IsSafeName raw n h =
    is_valid_hostname-IsSafeName n (valid_name-some (without_wildcard (normalise raw)) n h)
