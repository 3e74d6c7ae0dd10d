-- ===== src/Digests/Samples.antt =====
-- The digests on known inputs, and each theorem of them at one.
use helios_net.Prelude.{◌≡◌, ◌<◌, ◌^◌, refl, arith}
use helios_net.Prelude.Text.{codes}
use helios_net.Digests.{fnv1a32_py, fnv1a64_py, crc32_shift, crc32_shifts, crc32_step, crc32_py}
use helios_net.Digests.Bounds.{digests_fit}

fnv1a32_of_a : fnv1a32_py (codes "a") ≡ 0xE40C292C
unfolding fnv1a32_py
fnv1a32_of_a = refl

crc32_of_digits : crc32_py (codes "123456789") ≡ 0xCBF43926
unfolding crc32_py crc32_step crc32_shifts crc32_shift
crc32_of_digits = refl

digests_fit_example :
    (fnv1a32_py (codes "SSH") < 2 ^ 32)
    × (fnv1a64_py (codes "SSH") < 2 ^ 64)
    × (crc32_py (codes "SSH") < 2 ^ 32)
digests_fit_example = digests_fit (codes "SSH") (omega arith, (omega arith, (omega arith, tt)))
