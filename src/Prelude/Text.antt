-- ===== src/Prelude/Text.antt =====
-- Text as its list of code points, with the string methods that the program calls. They are those of
-- Python on ASCII text.
use Prim.Native.Nat.{ℕ, ◌+◌}
use Prim.Native.Char.{code}
use Prim.Native.String.{String}
use mathlib.Core.Bool.{Bool, true, false, ◌&&◌, ◌||◌}
use mathlib.Core.Path.{◌≡◌, refl, ap}
use mathlib.Core.Logic.{inl, inr}
use mathlib.Core.List.{List, [], ◌∷◌, ◌++◌, map}
use native.Mathlib.Omega.{arith}
use helios_net.Prelude.Tests.{leb, ◌==◌, if◌then◌else◌, Bool-cases, ltb}

abbrev pub Text : Type 0
Text = List ℕ

-- A literal of the source.
abbrev pub codes : String → Text
codes String.[] = []
codes (String.◌∷◌ c s) = code c ∷ codes s

-- `s == t`
abbrev pub eqb_text : Text → Text → Bool
eqb_text [] [] = true
eqb_text (a ∷ s) (b ∷ t) = a == b && eqb_text s t
eqb_text _ _ = false

-- `c.isspace()`
abbrev pub is_space : ℕ → Bool
is_space c = leb 9 c && leb c 13 || leb 28 c && leb c 32

-- `c.lower()`
abbrev pub lower_char : ℕ → ℕ
lower_char c = if leb b'A' c && leb c b'Z' then c + 32 else c

abbrev pub lower : Text → Text
lower = map lower_char

-- Drops the leading characters that `p` holds of.
unfoldable pub drop_while : (ℕ → Bool) → Text → Text
drop_while p [] = []
drop_while p (c ∷ s) = let rest = drop_while p s in if p c then rest else c ∷ s

-- Drops the trailing ones: a suffix of such characters is empty once it is stripped.
unfoldable pub drop_while_end : (ℕ → Bool) → Text → Text
drop_while_end p [] = []
drop_while_end p (c ∷ s) = add c (drop_while_end p s)
  where
    add : ℕ → Text → Text
    add d [] = if p d then [] else d ∷ []
    add d (e ∷ r) = d ∷ e ∷ r

-- `s.startswith(t)`
unfoldable pub starts_with : Text → Text → Bool
starts_with s [] = true
starts_with [] (b ∷ t) = false
starts_with (a ∷ s) (b ∷ t) = a == b && starts_with s t

pub eqb_text_refl : (s : Text) → eqb_text s s ≡ true
eqb_text_refl [] = refl
eqb_text_refl (a ∷ s) = ground (arith, eqb_text_refl s)

pub eqb_text→eq : (s t : Text) → eqb_text s t ≡ true → s ≡ t
eqb_text→eq [] [] h = refl
eqb_text→eq [] (b ∷ t) h = ground arith
eqb_text→eq (a ∷ s) [] h = ground arith
eqb_text→eq (a ∷ s) (b ∷ t) h =
    let a≡b : a ≡ b = ground arith in let rest = eqb_text→eq s t (ground arith) in cc (a≡b, rest)

-- `s.endswith(t)`
unfoldable pub ends_with : Text → Text → Bool
ends_with [] t = eqb_text [] t
ends_with (c ∷ s) t = eqb_text (c ∷ s) t || ends_with s t

pub ends_with-append : (s t : Text) → ends_with (s ++ t) t ≡ true
unfolding ends_with
ends_with-append [] [] = refl
ends_with-append [] (b ∷ t) = ground (arith, eqb_text_refl (b ∷ t))
ends_with-append (c ∷ s) t = ground (arith, ends_with-append s t)

pub ends_with→eq : (s t : Text) → ends_with s t ≡ true → (front : Text) × (s ≡ front ++ t)
unfolding ends_with
ends_with→eq [] [] h = ([], refl)
ends_with→eq [] (b ∷ t) h = ground arith
ends_with→eq (c ∷ s) t h = elim (Bool-cases (eqb_text (c ∷ s) t)) [
  | inl e ↦ ([], eqb_text→eq (c ∷ s) t e)
  | inr e ↦ let (front, f) = ends_with→eq s t (ground arith) in (c ∷ front, ap (λ r. c ∷ r) f)
]

-- `s <= t`, by code points
unfoldable pub le_text : Text → Text → Bool
le_text [] t = true
le_text (a ∷ s) [] = false
le_text (a ∷ s) (b ∷ t) = if ltb a b then true else a == b && le_text s t

-- `s.split(sep)` for one character
abbrev pub add_first : ℕ → List Text → List Text
add_first c [] = (c ∷ []) ∷ []
add_first c (part ∷ parts) = (c ∷ part) ∷ parts

unfoldable pub split_at : ℕ → Text → List Text
split_at sep [] = [] ∷ []
split_at sep (c ∷ s) = let rest = split_at sep s in if c == sep then [] ∷ rest else add_first c rest
