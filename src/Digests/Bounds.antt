-- ===== src/Digests/Bounds.antt =====
-- The digests of core/c_core_bridge.py fit their words.
use Prim.Native.Nat.{bit_xor, digits, differ, bit_xor-bitwise}
use mathlib.Core.List.{foldl}
use native.Mathlib.Nat.{pow-suc}
use helios_net.Prelude.{
  ℕ, zero, suc, ◌/◌, ◌%◌, ◌^◌, ◌<◌, ◌==◌, [], ◌∷◌, All, arith, Bool-cases, inl, inr, All-append,
}
use helios_net.Prelude.Text.{Text}
use helios_net.Prelude.Bytes.{Bytes, AllBytes}
use helios_net.Signatures.{utf8, utf8_char}
use helios_net.Digests.{
  fnv32_offset, fnv1a32_step, fnv1a32_py, fnv1a64_step, fnv1a64_py, crc32_shift, crc32_shifts,
  crc32_step, crc32_py, fnv64_offset,
}

differ-lt : (x y : ℕ) → x < 2 → y < 2 → differ x y < 2
differ-lt zero y p q = q
differ-lt (suc x) zero p q = p
differ-lt (suc zero) (suc zero) p q = omega arith
differ-lt (suc zero) (suc (suc y)) p q = absurd (omega arith)
differ-lt (suc (suc x)) (suc y) p q = absurd (omega arith)

-- The digits of an exclusive or are no more than those of the larger number.
digits-lt : (n k a b : ℕ) → a < 2 ^ k → b < 2 ^ k → digits (λ y. y) differ n a b < 2 ^ k
digits-lt zero k a b p q = q
digits-lt (suc n) k zero b p q = q
digits-lt (suc n) zero (suc a) b p q = absurd (omega arith)
digits-lt (suc n) (suc k) (suc a) b p q = omega (
  arith,
  pow-suc 2 k,
  digits-lt n k (suc a / 2) (b / 2) (omega (arith, pow-suc 2 k)) (omega (arith, pow-suc 2 k)),
  differ-lt (suc a % 2) (b % 2) (omega arith) (omega arith),
)

bit_xor-lt : (k a b : ℕ) → a < 2 ^ k → b < 2 ^ k → bit_xor a b < 2 ^ k
bit_xor-lt k a b p q = simp bit_xor-bitwise (digits-lt a k a b p q)

-- A code point of Unicode
abbrev pub IsCode : ℕ → Type 0
IsCode c = c < 1114112

utf8_char-AllBytes : (c : ℕ) → IsCode c → AllBytes (utf8_char c)
unfolding utf8_char
utf8_char-AllBytes c h = ground arith

AllBytes-utf8 : (text : Text) → All IsCode text → AllBytes (utf8 text)
unfolding utf8
AllBytes-utf8 [] h = tt
AllBytes-utf8 (c ∷ s) h =
    All-append (λ b. b < 256) (utf8_char c) (utf8 s) (utf8_char-AllBytes c h.0)
      (AllBytes-utf8 s h.1)

crc32_shift-lt : (crc : ℕ) → crc < 2 ^ 32 → crc32_shift crc < 2 ^ 32
unfolding crc32_shift
crc32_shift-lt crc h = elim (Bool-cases (crc % 2 == 1)) [
  | inl e ↦ rw e (bit_xor-lt 32 (crc / 2) 0xEDB88320 (omega arith) (omega arith))
  | inr e ↦ rw e (bit_xor-lt 32 (crc / 2) 0 (omega arith) (omega arith))
]

crc32_shifts-lt : (n crc : ℕ) → crc < 2 ^ 32 → crc32_shifts n crc < 2 ^ 32
unfolding crc32_shifts
crc32_shifts-lt zero crc h = h
crc32_shifts-lt (suc n) crc h = crc32_shifts-lt n (crc32_shift crc) (crc32_shift-lt crc h)

-- Over bytes a step that keeps a word in its width does so to the end.
foldl-lt :
    (k : ℕ) (step : ℕ → ℕ → ℕ)
    → ((d b : ℕ) → d < 2 ^ k → b < 256 → step d b < 2 ^ k)
    → (bytes : Bytes) (start : ℕ) → AllBytes bytes
    → start < 2 ^ k
    → foldl step start bytes < 2 ^ k
foldl-lt k step keeps [] start h lt = lt
foldl-lt k step keeps (b ∷ bytes) start h lt =
    foldl-lt k step keeps bytes (step start b) h.1 (keeps start b lt h.0)

crc32_step-lt : (crc byte : ℕ) → crc < 2 ^ 32 → byte < 256 → crc32_step crc byte < 2 ^ 32
unfolding crc32_step
crc32_step-lt crc byte h b =
    crc32_shifts-lt 8 (bit_xor crc byte) (bit_xor-lt 32 crc byte h (omega arith))

-- The three digests of a Unicode text fit 32, 64 and 32 bits.
pub digests_fit :
    (text : Text)
    → All IsCode text
    → (fnv1a32_py text < 2 ^ 32) × (fnv1a64_py text < 2 ^ 64) × (crc32_py text < 2 ^ 32)
unfolding fnv1a32_py fnv1a64_py crc32_py fnv1a32_step fnv1a64_step
digests_fit text h =
    let bytes = AllBytes-utf8 text h in
    (
      foldl-lt 32 fnv1a32_step (λ d b p q. omega arith) (utf8 text) fnv32_offset bytes
          (omega arith),
      foldl-lt 64 fnv1a64_step (λ d b p q. omega arith) (utf8 text) fnv64_offset bytes
          (omega arith),
      bit_xor-lt 32 _ 0xFFFFFFFF
          (foldl-lt 32 crc32_step crc32_step-lt (utf8 text) 0xFFFFFFFF bytes (omega arith))
          (omega arith),
    )
