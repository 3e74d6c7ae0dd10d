-- ===== src/Wal/Log/Frames.antt =====
-- Reading back the frames that were written.
use helios_net.Prelude.{
  append_assoc, inl, inr, ℕ, zero, suc, ◌+◌, ◌≤◌, ◌<◌, ◌≡◌, ◌≢◌, refl, ap, false, ◌||◌, Bool-cases,
  ltb, ◌==◌, Option, none, some, Option-cases, List, [], ◌∷◌, ◌++◌, map, length, length-append,
  length-take, length-drop, take, drop, concat, All, arith,
}
use helios_net.Prelude.Bytes.{
  Bytes, pack_u32, unpack_u32, unpack_u32-pack_u32, take-append_of_length, drop-append_of_length,
}
use helios_net.Wal.Cipher.{Crypto, seal_v3, decrypt_v3}
use helios_net.Wal.Cipher.RoundTrip.{decrypt_v3-seal_v3, length-seal_v3}
use helios_net.Wal.Log.{
  Entry, parsed, Codec, max_record_bytes, frame, read_record, Replayed, records, out_of_fuel,
  keep_plain, replay_loop,
}

length-pack_u32 : (n : ℕ) → length (pack_u32 n) ≡ 4
unfolding pack_u32
length-pack_u32 n = refl

pub length-frame : (payload : Bytes) → length (frame payload) ≡ 4 + length payload
unfolding frame pack_u32
length-frame payload = omega arith

-- A whole frame is read back, and what follows it is left.
pub read_record-frame :
    (payload rest : Bytes)
    → 0 < length payload
    → length payload ≤ max_record_bytes
    → read_record (frame payload ++ rest) ≡ some (payload, rest)
unfolding read_record frame
read_record-frame payload rest pos fits =
    let n = length payload in
    let header = take-append_of_length 4 (pack_u32 n) (payload ++ rest) (length-pack_u32 n) in
    let body = drop-append_of_length 4 (pack_u32 n) (payload ++ rest) (length-pack_u32 n) in
    let e : unpack_u32 (pack_u32 n) ≡ n = unpack_u32-pack_u32 n (omega arith) in
    let nonzero : (n == 0 || ltb max_record_bytes n) ≡ false = ground arith in
    let whole : ltb n n ≡ false = ground arith in
    rw (
      append_assoc (pack_u32 n) payload rest,
      header,
      body,
      e,
      take-append_of_length n payload rest refl,
      drop-append_of_length n payload rest refl,
      nonzero,
      length-pack_u32 n,
      whole,
    )

-- A round takes at least five bytes from the stream.
read_record-shorter :
    (stream payload rest : Bytes)
    → read_record stream ≡ some (payload, rest)
    → length rest + 5 ≤ length stream
unfolding read_record
read_record-shorter stream payload rest h =
    let n = unpack_u32 (take 4 stream) in
    elim (Bool-cases (ltb (length (take 4 stream)) 4)) [
      | inl e ↦ let h' = rw e at h in cc
      | inr e ↦ elim (Bool-cases (n == 0 || ltb max_record_bytes n)) [
        | inl f ↦ let h' = rw (e, f) at h in cc
        | inr f ↦ elim (Bool-cases (ltb (length (take n (drop 4 stream))) n)) [
          | inl g ↦ let h' = rw (e, f, g) at h in cc
          | inr g ↦
              let h' : some (take n (drop 4 stream), drop n (drop 4 stream))
                  ≡ some (payload, rest) =
                rw (e, f, g) at h in
              let r : drop n (drop 4 stream) ≡ rest = cc in
              ground (
                arith,
                ap length r,
                length-take 4 stream,
                length-drop 4 stream,
                length-take n (drop 4 stream),
                length-drop n (drop 4 stream),
              )
        ]
      ]
    ]

module _ {D : Type 0} (c : Crypto) (json : Codec D) (master : Bytes) where
  abbrev pub run : (Bytes → Option Bytes) → ℕ → Bytes → Replayed D
  run = replay_loop c json master

  keep_plain-ne :
      (o : Option Bytes) (r : Replayed D)
      → r ≢ out_of_fuel
      → keep_plain c json master o r ≢ out_of_fuel
  unfolding keep_plain
  keep_plain-ne o r h = ground arith

  -- The fuel of `replay` is enough, on any file and under any keys.
  pub replay_loop-ne-out_of_fuel :
      (open_payload : Bytes → Option Bytes) (fuel : ℕ) (stream : Bytes)
      → length stream < fuel
      → run open_payload fuel stream ≢ out_of_fuel
  unfolding replay_loop
  replay_loop-ne-out_of_fuel open_payload zero stream h = absurd (omega arith)
  replay_loop-ne-out_of_fuel open_payload (suc fuel) stream h =
      elim (Option-cases (read_record stream)) [
        | inl e ↦ rw (e, replay_loop) (λ q. cc)
        | inr ((payload, rest), e) ↦
            rw (e, replay_loop)
              (keep_plain-ne (open_payload payload) (run open_payload fuel rest) (
                replay_loop-ne-out_of_fuel open_payload fuel rest
                  (omega (arith, read_record-shorter stream payload rest e))))
      ]

  -- A record with the nonce that it was sealed under.
  abbrev pub Sealed : Type 0
  Sealed = Bytes × Entry D

  -- Its sizes: the nonce has 16 bytes, and the sealed payload can be read back.
  abbrev pub Fits : Sealed → Type 0
  Fits (nonce, e) = (length nonce ≡ 16) × (length (json.dumps e) + 48 ≤ max_record_bytes)

  module _ (keys : Bytes × Bytes) where
    abbrev pub sealed_frame : Sealed → Bytes
    sealed_frame (nonce, e) = frame (seal_v3 c keys nonce (json.dumps e))

    abbrev pub entries : List Sealed → List (Entry D)
    entries = map (λ i. i.1)

    abbrev pub stream_of : List Sealed → Bytes
    stream_of items = concat (map sealed_frame items)

    keep_dumps :
        (e : Entry D) (es : List (Entry D))
        → keep_plain c json master (some (json.dumps e)) (records es) ≡ records (e ∷ es)
    keep_dumps e es = from (json.dumps e) (json.length-dumps e) (json.loads-dumps e)
      where
        from :
            (plain : Bytes)
            → 0 < length plain
            → json.loads plain ≡ parsed e
            → keep_plain c json master (some plain) (records es) ≡ records (e ∷ es)
        from [] pos h = absurd (omega arith)
        from (b ∷ bs) pos h = unfold keep_plain in rw h

    -- The frames of sealed records, and then bytes that are no frame, are read back as the records.
    pub replay_loop-stream_of :
        (items : List Sealed) (torn : Bytes) (fuel : ℕ)
        → All Fits items
        → read_record torn ≡ none
        → length (stream_of items ++ torn) < fuel
        → run (decrypt_v3 c keys) fuel (stream_of items ++ torn) ≡ records (entries items)
    unfolding replay_loop
    replay_loop-stream_of items torn zero fits e h = absurd (omega arith)
    replay_loop-stream_of [] torn (suc fuel) fits e h = rw (e, replay_loop)
    replay_loop-stream_of ((nonce, e) ∷ items) torn (suc fuel) fits end h =
        let payload = seal_v3 c keys nonce (json.dumps e) in
        let size = length-seal_v3 c keys nonce (json.dumps e) fits.0.0 (json.dumps-AllBytes e) in
        let rest = stream_of items ++ torn in
        let read =
          read_record-frame payload rest (omega (arith, size)) (omega (arith, size, fits.0.1)) in
        rw (append_assoc (frame payload) (stream_of items) torn) (
          rw (read, replay_loop)
            (rw
              (
                decrypt_v3-seal_v3 c keys nonce (json.dumps e) fits.0.0 (json.dumps-AllBytes e),
                replay_loop-stream_of items torn fuel fits.1 end (
                    omega (
                      arith,
                      h,
                      length-frame payload,
                      ap length (append_assoc (frame payload) (stream_of items) torn),
                      length-append (frame payload) rest,
                    )),
              )
              (keep_dumps e (entries items))))
