-- ===== src/Digests.antt =====
-- The digests of core/c_core_bridge.py, byte by byte over the UTF-8 of a text.
pub mod Bounds
pub mod Samples
use Prim.Native.Nat.{bit_xor}
use mathlib.Core.List.{foldl}
use helios_net.Prelude.{
  ℕ, zero, suc, ◌+◌, ◌*◌, ◌/◌, ◌%◌, ◌^◌, Bool, if◌then◌else◌, ◌==◌, List, [], ◌∷◌,
}
use helios_net.Prelude.Text.{Text}
use helios_net.Signatures.{utf8}

abbrev pub fnv32_offset : ℕ
fnv32_offset = 0x811C9DC5

abbrev pub fnv32_prime : ℕ
fnv32_prime = 0x01000193

abbrev pub fnv64_offset : ℕ
fnv64_offset = 0xCBF29CE484222325

abbrev pub fnv64_prime : ℕ
fnv64_prime = 0x100000001B3

-- The masks are one less than a power of two, so `&` with them is a remainder.
unfoldable pub fnv1a32_step : ℕ → ℕ → ℕ
fnv1a32_step digest byte = bit_xor digest byte * fnv32_prime % 2 ^ 32

unfoldable pub fnv1a32_py : Text → ℕ
unfolding fnv1a32_step utf8
fnv1a32_py text = foldl fnv1a32_step fnv32_offset (utf8 text)

unfoldable pub fnv1a64_step : ℕ → ℕ → ℕ
fnv1a64_step digest byte = bit_xor digest byte * fnv64_prime % 2 ^ 64

unfoldable pub fnv1a64_py : Text → ℕ
unfolding fnv1a64_step utf8
fnv1a64_py text = foldl fnv1a64_step fnv64_offset (utf8 text)

-- `(crc >> 1) ^ (0xEDB88320 if crc & 1 else 0)`
unfoldable pub crc32_shift : ℕ → ℕ
crc32_shift crc = bit_xor (crc / 2) (if crc % 2 == 1 then 0xEDB88320 else 0)

unfoldable pub crc32_shifts : ℕ → ℕ → ℕ
unfolding crc32_shift
crc32_shifts zero crc = crc
crc32_shifts (suc n) crc = crc32_shifts n (crc32_shift crc)

unfoldable pub crc32_step : ℕ → ℕ → ℕ
unfolding crc32_shifts
crc32_step crc byte = crc32_shifts 8 (bit_xor crc byte)

unfoldable pub crc32_py : Text → ℕ
unfolding crc32_step utf8
crc32_py text = bit_xor (foldl crc32_step 0xFFFFFFFF (utf8 text)) 0xFFFFFFFF
