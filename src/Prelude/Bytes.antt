-- ===== src/Prelude/Bytes.antt =====
-- Byte strings: slices of a concatenation, exclusive or, and `struct.pack`.
use Prim.Native.Nat.{ℕ, zero, suc, ◌+◌, ◌*◌, ◌/◌, ◌%◌, ◌≤◌, ◌<◌, bit_xor}
use mathlib.Core.Path.{◌≡◌, refl, ap, subst}
use mathlib.Core.Bool.{Bool, true, false, ◌&&◌}
use mathlib.Core.List.{List, [], ◌∷◌, ◌++◌}
use native.Mathlib.Omega.{arith}
use helios_net.Prelude.Tests.{ltb, ◌==◌}
use helios_net.Prelude.Lists.{length, take, drop, All, take-append, drop-append}

abbrev pub Bytes : Type 0
Bytes = List ℕ

abbrev pub AllBytes : Bytes → Type 0
AllBytes bs = All (λ b. b < 256) bs

pub take-append_of_length : (n : ℕ) (xs ys : Bytes) → length xs ≡ n → take n (xs ++ ys) ≡ xs
take-append_of_length n xs ys e = subst (λ k. take k (xs ++ ys) ≡ xs) e (take-append xs ys)

pub drop-append_of_length : (n : ℕ) (xs ys : Bytes) → length xs ≡ n → drop n (xs ++ ys) ≡ ys
drop-append_of_length n xs ys e = subst (λ k. drop k (xs ++ ys) ≡ ys) e (drop-append xs ys)

-- `a == b` on bytes, `hmac.compare_digest`
unfoldable pub eqb_bytes : Bytes → Bytes → Bool
eqb_bytes [] [] = true
eqb_bytes (a ∷ s) (b ∷ t) = a == b && eqb_bytes s t
eqb_bytes _ _ = false

pub eqb_bytes_refl : (s : Bytes) → eqb_bytes s s ≡ true
unfolding eqb_bytes
eqb_bytes_refl [] = refl
eqb_bytes_refl (a ∷ s) = ground (arith, eqb_bytes_refl s)

-- `bytes(b ^ stream[i] for i, b in enumerate(bs))`; the stream is never shorter than the bytes.
unfoldable pub xor_bytes : Bytes → Bytes → Bytes
xor_bytes [] stream = []
xor_bytes (b ∷ bs) [] = []
xor_bytes (b ∷ bs) (k ∷ ks) = bit_xor b k ∷ xor_bytes bs ks

-- The test holds of every number under the bound.
passes : (ℕ → Bool) → ℕ → Bool
passes test zero = true
passes test (suc bound) = passes test bound && test bound

passes-below :
    (test : ℕ → Bool) (bound k : ℕ) → k < bound → passes test bound ≡ true → test k ≡ true
unfolding passes
passes-below test zero k under every = absurd (omega arith)
passes-below test (suc bound) k under every = ground (arith, passes-below test bound k)

undone_by : ℕ → ℕ → Bool
undone_by k b = bit_xor (bit_xor b k) k == b && ltb (bit_xor b k) 256

column : ℕ → Bool
unfolding passes undone_by
column k = passes (undone_by k) 256

columns : passes column 256 ≡ true
unfolding column
columns = refl

xor_twice : (b k : ℕ) → b < 256 → k < 256 → (bit_xor b k < 256) × (bit_xor (bit_xor b k) k ≡ b)
unfolding undone_by
xor_twice b k hb hk =
    let whole : column k ≡ true = passes-below column 256 k hk columns in
    let cell : undone_by k b ≡ true = unfold column in passes-below (undone_by k) 256 b hb whole in
    ground arith

pub length-xor_bytes :
    (bs ks : Bytes) → length bs ≤ length ks → length (xor_bytes bs ks) ≡ length bs
unfolding xor_bytes
length-xor_bytes [] ks h = refl
length-xor_bytes (b ∷ bs) [] h = absurd (omega arith)
length-xor_bytes (b ∷ bs) (k ∷ ks) h = ap suc (length-xor_bytes bs ks (omega arith))

pub xor_bytes_twice :
    (bs ks : Bytes)
    → length bs ≤ length ks
    → AllBytes bs
    → AllBytes ks
    → xor_bytes (xor_bytes bs ks) ks ≡ bs
unfolding xor_bytes
xor_bytes_twice [] ks h hb hk = refl
xor_bytes_twice (b ∷ bs) [] h hb hk = absurd (omega arith)
xor_bytes_twice (b ∷ bs) (k ∷ ks) h hb hk =
    let (_, e) = xor_twice b k hb.0 hk.0 in cc (e, xor_bytes_twice bs ks (omega arith) hb.1 hk.1)

-- `struct.pack("!I", n)`
unfoldable pub pack_u32 : ℕ → Bytes
pack_u32 n = (n / 16777216 % 256) ∷ (n / 65536 % 256) ∷ (n / 256 % 256) ∷ (n % 256) ∷ []

-- `struct.pack("!Q", n)`
unfoldable pub pack_u64 : ℕ → Bytes
unfolding pack_u32
pack_u64 n = pack_u32 (n / 4294967296) ++ pack_u32 n

-- `struct.unpack("!I", header)[0]` of a header of four bytes
unfoldable pub unpack_u32 : Bytes → ℕ
unpack_u32 (a ∷ b ∷ c ∷ d ∷ rest) = a * 16777216 + b * 65536 + c * 256 + d
unpack_u32 _ = 0

pub unpack_u32-pack_u32 : (n : ℕ) → n < 4294967296 → unpack_u32 (pack_u32 n) ≡ n
unfolding pack_u32 unpack_u32
unpack_u32-pack_u32 n h = omega arith
