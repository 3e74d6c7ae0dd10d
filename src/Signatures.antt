-- ===== src/Signatures.antt =====
-- The pure part of core/c_core_bridge.py: case folding, the search for a pattern, UTF-8 offsets, and
-- the signature file.
pub mod Search
pub mod File
pub mod Samples
use helios_net.Prelude.{
  ℕ, zero, suc, ◌+◌, ◌/◌, ◌%◌, Bool, true, false, ◌&&◌, ◌||◌, not, if◌then◌else◌, ltb, leb, ◌==◌,
  Option, none, some, List, [], ◌∷◌, ◌++◌, map, length, take, drop, any,
}
use helios_net.Prelude.Int.{ℤ, pos, negsuc}
use helios_net.Prelude.Text.{Text, eqb_text, starts_with, drop_while, drop_while_end, lower}
use helios_net.Prelude.Bytes.{Bytes}

-- `text.translate(_ASCII_FOLD)`, which maps A to Z
unfoldable pub fold_ascii : Text → Text
fold_ascii = lower

-- `text.find(pattern, i)` on the characters from `i` on
unfoldable pub find_from : Text → ℕ → Text → Option ℕ
unfolding starts_with
find_from pattern i [] = if starts_with [] pattern then some i else none
find_from pattern i (c ∷ s) =
    let later = find_from pattern (suc i) s in if starts_with (c ∷ s) pattern then some i else later

-- `found.append(start)`, in front of what the later rounds find
unfoldable pub push_start : ℕ → Option (List ℕ) → Option (List ℕ)
push_start start none = none
push_start start (some found) = some (start ∷ found)

-- `while start >= 0` of `find_all_occurrences`; `none` means that the rounds did not suffice.
unfoldable pub occurrences_loop : ℕ → Text → Text → Option ℕ → Option (List ℕ)
unfolding find_from
occurrences_loop fuel text pattern none = some []
occurrences_loop zero text pattern (some start) = none
occurrences_loop (suc fuel) text pattern (some start) =
    let rest =
      occurrences_loop fuel text pattern (find_from pattern (suc start) (drop (suc start) text)) in
    push_start start rest

-- The pattern cannot occur more often than the text has characters.
unfoldable pub find_all_occurrences : Text → Text → Option (List ℕ)
unfolding occurrences_loop
find_all_occurrences text [] = some []
find_all_occurrences text (c ∷ p) =
    occurrences_loop (length text) text (c ∷ p) (find_from (c ∷ p) 0 text)

-- One character in UTF-8
unfoldable pub utf8_char : ℕ → Bytes
utf8_char c =
    if ltb c 128
    then c ∷ []
    else if ltb c 2048
    then (192 + c / 64) ∷ (128 + c % 64) ∷ []
    else if ltb c 65536
    then (224 + c / 4096) ∷ (128 + c / 64 % 64) ∷ (128 + c % 64) ∷ []
    else (240 + c / 262144) ∷ (128 + c / 4096 % 64) ∷ (128 + c / 64 % 64) ∷ (128 + c % 64) ∷ []

-- `text.encode("utf-8")`, of a text without surrogates
unfoldable pub utf8 : Text → Bytes
unfolding utf8_char
utf8 [] = []
utf8 (c ∷ s) = utf8_char c ++ utf8 s

unfoldable pub byte_offset : Text → ℤ → ℤ
unfolding utf8
byte_offset text (negsuc n) = negsuc 0
byte_offset text (pos char_index) = pos (length (utf8 (take char_index text)))
