-- ===== src/Wal/Log/Crash.antt =====
-- A crash cuts the file at some byte. What was whole before the cut is replayed; what is appended
-- after a cut record can be lost.
use helios_net.Prelude.{
  ap, subst, ◌∙◌, append_assoc, append-nil, sym, ℕ, zero, suc, ◌+◌, ◌-◌, ◌≤◌, ◌<◌, ◌≡◌, refl, true,
  false, Option, none, some, List, [], ◌∷◌, ◌++◌, length, length-append, length-take, length-drop,
  take, drop, All, All-append_left, arith,
}
use native.Mathlib.Decide.{dec_lt}
use helios_net.Prelude.Text.{Text}
use helios_net.Prelude.Bytes.{Bytes, pack_u32, unpack_u32, unpack_u32-pack_u32}
use helios_net.Wal.Cipher.{Crypto, magic_v3, seal_v3}
use helios_net.Wal.Cipher.RoundTrip.{length-seal_v3}
use helios_net.Wal.Log.{
  Entry, Codec, Wal, Replayed, records, max_record_bytes, file_bytes, frame, read_record,
  write_disk, replay,
}
use helios_net.Wal.Log.Frames.{Sealed, Fits, sealed_frame, entries, stream_of, length-frame}
use helios_net.Wal.Log.Machine.{append_op, empty_ledger, wal_step, keys_of, IsLive}
use helios_net.Wal.Log.Refines.{counted, encrypt-live, append_from_encrypt, store_item-written}
use helios_net.Wal.Log.Recovery.{replay_torn}

-- A stream that ends before the length that its header states is no record.
read_record-incomplete : (t : Bytes) → length t < 4 + unpack_u32 (take 4 t) → read_record t ≡ none
unfolding read_record
read_record-incomplete t h =
    ground (arith, length-take 4 t, length-drop 4 t, length-take (unpack_u32 (take 4 t)) (drop 4 t))

read_record-short : (t : Bytes) → length t < 4 → read_record t ≡ none
unfolding read_record
read_record-short t h = ground (arith, length-take 4 t)

-- A frame that is cut anywhere is no record.
read_record-cut :
    (n : ℕ) (payload : Bytes)
    → length payload ≤ max_record_bytes
    → n < length (frame payload)
    → read_record (take n (frame payload)) ≡ none
read_record-cut n payload fits h = elim (dec_lt n 4) [
  | yes lt ↦
      read_record-short (take n (frame payload)) (omega (arith, length-take n (frame payload)))
  | no ge ↦
      let e : n ≡ suc (suc (suc (suc (n - 4)))) = omega arith in
      subst (λ k. read_record (take k (frame payload)) ≡ none) (sym e)
        (whole (n - 4) (omega (arith, length-frame payload)))
]
  where
    whole :
        (k : ℕ)
        → k < length payload
        → read_record (take (suc (suc (suc (suc k)))) (frame payload)) ≡ none
    whole k lt = read_record-incomplete _ (
        unfold frame pack_u32 in
        omega (arith, unpack_u32-pack_u32 (length payload) (omega arith), length-take k payload))

take-append_short : (n : ℕ) (xs ys : Bytes) → n ≤ length xs → take n (xs ++ ys) ≡ take n xs
take-append_short zero xs ys h = refl
take-append_short (suc n) [] ys h = absurd (omega arith)
take-append_short (suc n) (x ∷ xs) ys h = ap (λ r. x ∷ r) (take-append_short n xs ys (omega arith))

take-append_long :
    (n : ℕ) (xs ys : Bytes) → length xs ≤ n → take n (xs ++ ys) ≡ xs ++ take (n - length xs) ys
take-append_long n [] ys h = ap (λ k. take k ys) (omega arith)
take-append_long zero (x ∷ xs) ys h = absurd (omega arith)
take-append_long (suc n) (x ∷ xs) ys h =
    ap (λ r. x ∷ r)
      (take-append_long n xs ys (omega arith) ∙ ap (λ k. xs ++ take k ys) (omega arith))

module _ {D : Type 0} (c : Crypto) (json : Codec D) (master : Bytes) where
  -- The first bytes of a stream of frames: whole frames, and a torn one.
  take-stream_of :
      (keys : Bytes × Bytes) (n : ℕ) (items : List (Sealed c json master))
      → All (Fits c json master) items
      → (kept lost : List (Sealed c json master)) × (torn : Bytes) × (take n
            (stream_of c json master keys items)
          ≡ stream_of c json master keys kept ++ torn)
        × (read_record torn ≡ none)
        × (items ≡ kept ++ lost)
  take-stream_of keys n [] fits =
      ([], [], [], none_left n, read_record-short [] (omega arith), refl)
    where
      none_left : (k : ℕ) → ◌≡◌ {A = Bytes} (take k []) []
      none_left zero = refl
      none_left (suc k) = refl
  take-stream_of keys n ((nonce, e) ∷ items) fits =
      let f = sealed_frame c json master keys (nonce, e) in
      let rest = stream_of c json master keys items in
      let size = length-seal_v3 c keys nonce (json.dumps e) fits.0.0 (json.dumps-AllBytes e) in
      elim (dec_lt n (length f)) [
        | yes lt ↦ (
          [],
          (nonce, e) ∷ items,
          take n f,
          take-append_short n f rest (omega arith),
          read_record-cut n (seal_v3 c keys nonce (json.dumps e)) (omega (arith, size, fits.0.1))
              lt,
          refl,
        )
        | no ge ↦
            let (kept, lost, torn, cut, end, split) =
              take-stream_of keys (n - length f) items fits.1 in
            (
              (nonce, e) ∷ kept,
              lost,
              torn,
              take-append_long n f rest (omega arith)
                  ∙ ap (λ r. f ++ r) cut
                  ∙ sym (append_assoc f (stream_of c json master keys kept) torn),
              end,
              ap (λ r. (nonce, e) ∷ r) split,
            )
      ]

  take-file :
      (n : ℕ) (salt stream : Bytes)
      → length salt ≡ 16
      → 20 ≤ n
      → take n (magic_v3 ++ (salt ++ stream)) ≡ magic_v3 ++ (salt ++ take (n - 20) stream)
  take-file n salt stream h le =
      take-append_long n magic_v3 (salt ++ stream) (omega arith)
      ∙ ap (λ r. magic_v3 ++ r)
          (take-append_long (n - 4) salt stream (omega arith)
            ∙ ap (λ k. salt ++ take k stream) (omega arith))

  -- A crash that cuts the file of a live log anywhere behind its header loses a suffix of the
  -- committed entries at most: replay returns the others, in order.
  pub replay_cut :
      (w : Wal) (cs ps : List (Entry D)) (n : ℕ)
      → IsLive c json master w cs ps
      → 20 ≤ n
      → (kept lost : List (Entry D)) × (cs ≡ kept ++ lost)
        × ((replay c json master (record w { disk = some (take n (file_bytes w.disk)) })).0
            ≡ records kept)
  replay_cut w cs ps n l le =
      let keys = keys_of c json master l.salt in
      let stream = stream_of c json master keys l.items in
      let (kept, lost, torn, cut, end, split) = take-stream_of keys (n - 20) l.items l.fits in
      let fits =
        All-append_left (Fits c json master) kept lost
          (subst (All (Fits c json master)) split l.fits) in
      let at : some (take n (file_bytes w.disk))
          ≡ some (magic_v3 ++ (l.salt ++ (stream_of c json master keys kept ++ torn))) =
        ap (λ (d : Option Bytes). some (take n (file_bytes d))) l.on_disk
        ∙ ap some
            (take-file n l.salt stream l.salt_size le ∙ ap (λ r. magic_v3 ++ (l.salt ++ r)) cut) in
      (
        entries c json master keys kept,
        entries c json master keys lost,
        sym l.stored
            ∙ ap (entries c json master keys) split
            ∙ mathlib.Core.List.map-append (λ i. i.1) kept lost,
        ap (λ (r : Replayed D × Wal). r.0)
            (replay_torn c json master (record w { disk = some (take n (file_bytes w.disk)) })
              l.salt torn kept l.salt_size fits end at),
      )

  take-four : (t more : Bytes) → 4 ≤ length t → take 4 (t ++ more) ≡ take 4 t
  take-four t more h = take-append_short 4 t more h

  -- After a crash in the middle of a record, an `append` that is not long enough to fill the gap
  -- succeeds, and replay does not return its entry: the torn bytes stay in front of it.
  pub append-torn :
      (w : Wal) (salt torn drawn nonce : Bytes) (items : List (Sealed c json master)) (op : Text)
      (payload : D)
      → length salt ≡ 16
      → All (Fits c json master) items
      → w.disk
        ≡ some (
            magic_v3
            ++ (salt ++ (stream_of c json master (keys_of c json master salt) items ++ torn)))
      → w.salt ≡ some salt
      → w.v3 ≡ true
      → w.legacy ≡ false
      → w.active_txn ≡ false
      → length nonce ≡ 16
      → 4 ≤ length torn
      → length torn
          + length (json.dumps (record { lsn = w.lsn + 1; op = op; payload = payload }))
          + 52
        < 4 + unpack_u32 (take 4 torn)
      → (w' : Wal) × (wal_step c json master w (append_op drawn nonce op payload) ≡ some w')
        × ((replay c json master w').0
            ≡ records (entries c json master (keys_of c json master salt) items))
  append-torn w salt torn drawn nonce items op payload hs fits disk installed v3 current active hn
        four gap =
      let keys = keys_of c json master salt in
      let e : Entry D = record { lsn = w.lsn + 1; op = op; payload = payload } in
      let sealed = seal_v3 c keys nonce (json.dumps e) in
      let size = length-seal_v3 c keys nonce (json.dumps e) hn (json.dumps-AllBytes e) in
      let item = frame sealed in
      let w1 = counted c json master w in
      let w' = write_disk (item ∷ []) w1 in
      let stream = stream_of c json master keys items in
      let end : read_record (torn ++ item) ≡ none = read_record-incomplete (torn ++ item) (
        subst (λ h. length (torn ++ item) < 4 + unpack_u32 h) (sym (take-four torn item four))
          (omega (arith, length-append torn item, length-frame sealed, size))) in
      (
        w',
        append_from_encrypt c json master drawn nonce op payload w w1
              (record empty_ledger { count = w.lsn }) sealed refl
              (encrypt-live c json master salt drawn nonce (json.dumps e) w1 current v3 installed)
            ∙ ap some (sym (store_item-written c json master item w1 active)),
        ap (λ (r : Replayed D × Wal). r.0)
            (replay_torn c json master w' salt (torn ++ item) items hs fits end
              (unfold write_disk in rw disk (simp (append_assoc, append-nil)))),
      )
