-- ===== src/Wal/Cipher/RoundTrip.antt =====
-- What is encrypted decrypts to itself, in both layouts that the log still writes.
use helios_net.Prelude.{
  append_assoc, inl, inr, ℕ, zero, suc, ◌+◌, ◌≤◌, ◌<◌, ◌≡◌, ap, false, Bool-cases, ltb, some, [],
  ◌++◌, length, length-append, length-take, take, drop, All-take, All-append, arith,
}
use helios_net.Prelude.Bytes.{
  Bytes, AllBytes, eqb_bytes_refl, pack_u64, xor_bytes, xor_bytes_twice, length-xor_bytes,
  take-append_of_length, drop-append_of_length,
}
use helios_net.Wal.Cipher.{
  open_record, keystream_label, keystream_label_v3, Crypto, magic, magic_v3, keystream_loop,
  keystream, derive_keys, v3_block, v2_block, generate_v3_keystream, generate_keystream, seal_v3,
  decrypt_v3, encrypt_v2, decrypt,
}

module _ (block : ℕ → Bytes) (full : (n : ℕ) → 0 < length (block n)) where
  keystream_loop-long :
      (fuel : ℕ) (acc : Bytes) (counter n : ℕ)
      → n ≤ length acc + fuel
      → n ≤ length (keystream_loop block fuel acc counter n)
  unfolding keystream_loop
  keystream_loop-long zero acc counter n h = omega arith
  keystream_loop-long (suc fuel) acc counter n h = elim (Bool-cases (ltb (length acc) n)) [
    | inl e ↦
        rw (e, keystream_loop)
          (keystream_loop-long fuel (acc ++ block counter) (counter + 1) n
            (omega (arith, length-append acc (block counter), full counter)))
    | inr e ↦ rw (e, keystream_loop) (ground arith)
  ]

  -- The keystream has the length that was asked for.
  pub length-keystream : (n : ℕ) → length (keystream block n) ≡ n
  unfolding keystream
  length-keystream n = omega (
    arith,
    length-take n (keystream_loop block n [] 0 n),
    keystream_loop-long n [] 0 n (omega arith),
  )

module _ (block : ℕ → Bytes) (bytes : (n : ℕ) → AllBytes (block n)) where
  keystream_loop-AllBytes :
      (fuel : ℕ) (acc : Bytes) (counter n : ℕ)
      → AllBytes acc
      → AllBytes (keystream_loop block fuel acc counter n)
  unfolding keystream_loop
  keystream_loop-AllBytes zero acc counter n h = h
  keystream_loop-AllBytes (suc fuel) acc counter n h = elim (Bool-cases (ltb (length acc) n)) [
    | inl e ↦
        rw (e, keystream_loop)
          (keystream_loop-AllBytes fuel (acc ++ block counter) (counter + 1) n
            (All-append (λ b. b < 256) acc (block counter) h (bytes counter)))
    | inr e ↦ rw (e, keystream_loop) h
  ]

  pub keystream-AllBytes : (n : ℕ) → AllBytes (keystream block n)
  unfolding keystream
  keystream-AllBytes n = All-take (λ b. b < 256) n _ (keystream_loop-AllBytes n [] 0 n tt)

-- The slices of three parts in a row.
module _ (n m : ℕ) (a b d : Bytes) (ha : length a ≡ n) (hb : length b ≡ m) where
  first_part : take n (a ++ (b ++ d)) ≡ a
  first_part = take-append_of_length n a (b ++ d) ha

  second_part : take m (drop n (a ++ (b ++ d))) ≡ b
  second_part = rw (drop-append_of_length n a (b ++ d) ha) (take-append_of_length m b d hb)

  third_part : (k : ℕ) → k ≡ n + m → drop k (a ++ (b ++ d)) ≡ d
  third_part k e =
      rw (← append_assoc a b d)
        (drop-append_of_length k (a ++ b) d (omega (arith, length-append a b)))

  long_enough : (k : ℕ) → k ≡ n + m → ltb (length (a ++ (b ++ d))) k ≡ false
  long_enough k e =
      let l : length (a ++ (b ++ d)) ≡ n + (m + length d) =
        omega (arith, length-append a (b ++ d), length-append b d) in
      ground (arith, l)

module _ (c : Crypto) where
  -- A stream of hmac blocks cancels itself.
  hmac_stream_cancels :
      (key : Bytes) (message : ℕ → Bytes) (plaintext : Bytes)
      → AllBytes plaintext
      → (length (xor_bytes plaintext (keystream (λ n. c.hmac key (message n)) (length plaintext)))
          ≡ length plaintext)
        × (xor_bytes
              (xor_bytes plaintext (keystream (λ n. c.hmac key (message n)) (length plaintext)))
              (keystream (λ n. c.hmac key (message n)) (length plaintext))
            ≡ plaintext)
  hmac_stream_cancels key message plaintext h =
      let block = λ (n : ℕ). c.hmac key (message n) in
      let n = length plaintext in
      let long = length-keystream block (λ k. omega (arith, c.length-hmac key (message k))) n in
      (
        length-xor_bytes plaintext (keystream block n) (omega (arith, long)),
        xor_bytes_twice plaintext (keystream block n) (omega (arith, long)) h
            (keystream-AllBytes block (λ k. c.hmac-AllBytes key (message k)) n),
      )

  open_record-hmac :
      (sig key : Bytes) (message : ℕ → Bytes) (plaintext : Bytes)
      → AllBytes plaintext
      → (let stream = λ (n : ℕ). keystream (λ n. c.hmac key (message n)) n in
          let ciphertext = xor_bytes plaintext (stream (length plaintext)) in
          open_record sig sig ciphertext (stream (length ciphertext)) ≡ some plaintext)
  unfolding open_record
  open_record-hmac sig key message plaintext bytes =
      let (same, twice) = hmac_stream_cancels key message plaintext bytes in
      rw (eqb_bytes_refl sig, same) (ap some twice)

  opens_v3 :
      (enc_key nonce plaintext sig : Bytes)
      → AllBytes plaintext
      → (let stream = generate_v3_keystream c enc_key nonce in
          let ciphertext = xor_bytes plaintext (stream (length plaintext)) in
          open_record sig sig ciphertext (stream (length ciphertext)) ≡ some plaintext)
  unfolding generate_v3_keystream v3_block
  opens_v3 enc_key nonce plaintext sig bytes =
      open_record-hmac sig enc_key (λ n. keystream_label_v3 ++ (nonce ++ pack_u64 n)) plaintext
        bytes

  opens_v2 :
      (enc_key salt plaintext sig : Bytes)
      → AllBytes plaintext
      → (let stream = generate_keystream c enc_key salt in
          let ciphertext = xor_bytes plaintext (stream (length plaintext)) in
          open_record sig sig ciphertext (stream (length ciphertext)) ≡ some plaintext)
  unfolding generate_keystream v2_block
  opens_v2 enc_key salt plaintext sig bytes =
      open_record-hmac sig enc_key (λ n. keystream_label ++ (salt ++ pack_u64 n)) plaintext bytes

  pub length-seal_v3 :
      (keys : Bytes × Bytes) (nonce plaintext : Bytes)
      → length nonce ≡ 16
      → AllBytes plaintext
      → length (seal_v3 c keys nonce plaintext) ≡ length plaintext + 48
  unfolding seal_v3 generate_v3_keystream v3_block
  length-seal_v3 (enc_key, mac_key) nonce plaintext h bytes =
      let stream = generate_v3_keystream c enc_key nonce (length plaintext) in
      let ciphertext = xor_bytes plaintext stream in
      let sig = c.hmac mac_key (magic_v3 ++ (nonce ++ ciphertext)) in
      omega (
        arith,
        length-append nonce (sig ++ ciphertext),
        length-append sig ciphertext,
        c.length-hmac mac_key (magic_v3 ++ (nonce ++ ciphertext)),
        (hmac_stream_cancels enc_key (λ n. keystream_label_v3 ++ (nonce ++ pack_u64 n)) plaintext
            bytes).0,
      )

  -- A record sealed in layout v3 decrypts to its plaintext, under the same keys.
  pub decrypt_v3-seal_v3 :
      (keys : Bytes × Bytes) (nonce plaintext : Bytes)
      → length nonce ≡ 16
      → AllBytes plaintext
      → decrypt_v3 c keys (seal_v3 c keys nonce plaintext) ≡ some plaintext
  unfolding decrypt_v3 seal_v3
  decrypt_v3-seal_v3 (enc_key, mac_key) nonce plaintext h bytes =
      let stream = generate_v3_keystream c enc_key nonce (length plaintext) in
      let ciphertext = xor_bytes plaintext stream in
      let sig = c.hmac mac_key (magic_v3 ++ (nonce ++ ciphertext)) in
      let hs = c.length-hmac mac_key (magic_v3 ++ (nonce ++ ciphertext)) in
      rw
        (
          seal_v3,
          long_enough 16 32 nonce sig ciphertext h hs 48 (omega arith),
          first_part 16 32 nonce sig ciphertext h hs,
          second_part 16 32 nonce sig ciphertext h hs,
          third_part 16 32 nonce sig ciphertext h hs 48 (omega arith),
        )
        (opens_v3 enc_key nonce plaintext sig bytes)

  -- A record of layout v2 decrypts to its plaintext, whichever layouts the log also reads.
  pub decrypt-encrypt_v2 :
      (master salt plaintext : Bytes)
      → length salt ≡ 16
      → AllBytes plaintext
      → decrypt c master (encrypt_v2 c master salt plaintext) ≡ some plaintext
  unfolding decrypt encrypt_v2
  decrypt-encrypt_v2 master salt plaintext h bytes =
      let (enc_key, mac_key) = derive_keys c master salt in
      let ciphertext = xor_bytes plaintext (generate_keystream c enc_key salt (length plaintext)) in
      let expected = c.hmac mac_key (magic ++ (salt ++ ciphertext)) in
      let hs = c.length-hmac mac_key (magic ++ (salt ++ ciphertext)) in
      rw
        (
          long_enough 32 16 expected salt ciphertext hs h 48 (omega arith),
          first_part 32 16 expected salt ciphertext hs h,
          second_part 32 16 expected salt ciphertext hs h,
          third_part 32 16 expected salt ciphertext hs h 48 (omega arith),
        )
        (opens_v2 enc_key salt plaintext expected bytes)
