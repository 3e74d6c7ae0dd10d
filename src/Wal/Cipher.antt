-- ===== src/Wal/Cipher.antt =====
-- The record cipher of core/wal.py: key derivation, the keystream, and the layouts v3, v2 and legacy.
pub mod RoundTrip
use helios_net.Prelude.{
  ℕ, zero, suc, ◌+◌, ◌≡◌, Bool, if◌then◌else◌, ltb, Option, none, some, List, [], ◌∷◌, ◌++◌, length,
  take, drop,
}
use helios_net.Prelude.Bytes.{Bytes, AllBytes, eqb_bytes, xor_bytes, pack_u32, pack_u64}
use helios_net.Prelude.Text.{codes}

-- `hmac.new(...).digest()`, `hashlib.pbkdf2_hmac` with 100000 rounds, and `hashlib.sha256(...).digest()`
-- of the standard library, and the sizes that it documents.
pub record Crypto : Type 0 where
  pub hmac : Bytes → Bytes → Bytes
  pub pbkdf2 : Bytes → Bytes → ℕ → Bytes
  pub sha256 : Bytes → Bytes
  pub length-hmac : (key message : Bytes) → length (hmac key message) ≡ 32
  pub hmac-AllBytes : (key message : Bytes) → AllBytes (hmac key message)

abbrev pub magic : Bytes
magic = codes "HWL2"

abbrev pub magic_v3 : Bytes
magic_v3 = codes "HWL3"

abbrev pub keystream_label : Bytes
keystream_label = codes "helios-wal-v2-keystream"

abbrev pub keystream_label_v3 : Bytes
keystream_label_v3 = codes "helios-wal-v3-keystream"

-- `while len(keystream) < length: keystream.extend(block(counter)); counter += 1`. A block is not
-- empty, so `length` rounds are enough.
unfoldable pub keystream_loop : (ℕ → Bytes) → ℕ → Bytes → ℕ → ℕ → Bytes
keystream_loop block zero keystream counter n = keystream
keystream_loop block (suc fuel) keystream counter n =
    let more = keystream_loop block fuel (keystream ++ block counter) (counter + 1) n in
    if ltb (length keystream) n then more else keystream

-- `bytes(keystream[:length])`
unfoldable pub keystream : (ℕ → Bytes) → ℕ → Bytes
unfolding keystream_loop
keystream block n = take n (keystream_loop block n [] 0 n)

-- The end of each `_decrypt`: the signature is compared before anything is decrypted.
unfoldable pub open_record : Bytes → Bytes → Bytes → Bytes → Option Bytes
unfolding xor_bytes eqb_bytes
open_record expected_sig sig ciphertext stream =
    if eqb_bytes sig expected_sig then some (xor_bytes ciphertext stream) else none

module _ (c : Crypto) where
  -- `_derive_keys`: the encryption key and the MAC key.
  unfoldable pub derive_keys : Bytes → Bytes → Bytes × Bytes
  derive_keys master salt =
      let material = c.pbkdf2 master salt 64 in (take 32 material, drop 32 material)

  unfoldable pub v3_block : Bytes → Bytes → ℕ → Bytes
  v3_block enc_key nonce counter =
      c.hmac enc_key (keystream_label_v3 ++ (nonce ++ pack_u64 counter))

  unfoldable pub v2_block : Bytes → Bytes → ℕ → Bytes
  v2_block enc_key salt counter = c.hmac enc_key (keystream_label ++ (salt ++ pack_u64 counter))

  unfoldable pub legacy_block : Bytes → Bytes → ℕ → Bytes
  legacy_block key salt counter = c.sha256 (key ++ (salt ++ pack_u32 counter))

  unfoldable pub generate_v3_keystream : Bytes → Bytes → ℕ → Bytes
  unfolding v3_block keystream
  generate_v3_keystream enc_key nonce = keystream (v3_block enc_key nonce)

  unfoldable pub generate_keystream : Bytes → Bytes → ℕ → Bytes
  unfolding v2_block keystream
  generate_keystream enc_key salt = keystream (v2_block enc_key salt)

  -- The end of `_encrypt`: `nonce + sig + ciphertext`, under the keys of the file's salt.
  unfoldable pub seal_v3 : Bytes × Bytes → Bytes → Bytes → Bytes
  unfolding generate_v3_keystream xor_bytes
  seal_v3 (enc_key, mac_key) nonce plaintext =
      let stream = generate_v3_keystream enc_key nonce (length plaintext) in
      let ciphertext = xor_bytes plaintext stream in
      nonce ++ (c.hmac mac_key (magic_v3 ++ (nonce ++ ciphertext)) ++ ciphertext)

  unfoldable pub decrypt_v3 : Bytes × Bytes → Bytes → Option Bytes
  unfolding generate_v3_keystream open_record
  decrypt_v3 (enc_key, mac_key) raw =
      let nonce = take 16 raw in
      let sig = take 32 (drop 16 raw) in
      let ciphertext = drop 48 raw in
      if ltb (length raw) 48
      then none
      else open_record (c.hmac mac_key (magic_v3 ++ (nonce ++ ciphertext))) sig ciphertext
          (generate_v3_keystream enc_key nonce (length ciphertext))

  unfoldable pub encrypt_v2 : Bytes → Bytes → Bytes → Bytes
  unfolding derive_keys generate_keystream xor_bytes
  encrypt_v2 master salt plaintext =
      let (enc_key, mac_key) = derive_keys master salt in
      let stream = generate_keystream enc_key salt (length plaintext) in
      let ciphertext = xor_bytes plaintext stream in
      magic ++ (c.hmac mac_key (magic ++ (salt ++ ciphertext)) ++ (salt ++ ciphertext))

  unfoldable pub decrypt_v2 : Bytes → Bytes → Option Bytes
  unfolding derive_keys generate_keystream open_record
  decrypt_v2 master raw =
      let body = drop 4 raw in
      let sig = take 32 body in
      let salt = take 16 (drop 32 body) in
      let ciphertext = drop 48 body in
      let (enc_key, mac_key) = derive_keys master salt in
      if ltb (length body) 48
      then none
      else open_record (c.hmac mac_key (magic ++ (salt ++ ciphertext))) sig ciphertext
          (generate_keystream enc_key salt (length ciphertext))

  unfoldable pub decrypt_legacy : Bytes → Bytes → Option Bytes
  unfolding legacy_block keystream open_record
  decrypt_legacy master raw =
      let sig = take 32 raw in
      let salt = take 16 (drop 32 raw) in
      let ciphertext = drop 48 raw in
      let key = c.pbkdf2 master salt 32 in
      if ltb (length raw) 48
      then none
      else open_record (c.hmac key (salt ++ ciphertext)) sig ciphertext
          (keystream (legacy_block key salt) (length ciphertext))

  -- `raw_data.startswith(_MAGIC)` chooses between the layouts.
  unfoldable pub decrypt : Bytes → Bytes → Option Bytes
  unfolding decrypt_v2 decrypt_legacy eqb_bytes
  decrypt master raw =
      if eqb_bytes (take 4 raw) magic then decrypt_v2 master raw else decrypt_legacy master raw
