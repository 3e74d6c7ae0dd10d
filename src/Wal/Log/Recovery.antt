-- ===== src/Wal/Log/Recovery.antt =====
-- Replay of a log, in the process that wrote it and after a restart.
use mathlib.Core.List.{foldl}
use helios_net.Prelude.{
  ap, ◌∙◌, append-nil, sym, suc, ◌≡◌, ◌≢◌, refl, true, Bool-cases, inl, inr, Option, none, some,
  Option-cases, List, [], ◌∷◌, ◌++◌, length, length-append, length-take, length-drop, take, drop,
  All, arith,
}
use helios_net.Prelude.Bytes.{Bytes, eqb_bytes, take-append_of_length, drop-append_of_length}
use helios_net.Wal.Cipher.{Crypto, magic_v3, decrypt_v3}
use helios_net.Wal.Log.{
  Codec, Wal, Replayed, records, out_of_fuel, file_bytes, read_record, is_v3, replay_loop,
  replay_content, replay,
}
use helios_net.Wal.Log.Frames.{
  Sealed, Fits, entries, stream_of, replay_loop-stream_of, replay_loop-ne-out_of_fuel, run,
}
use helios_net.Wal.Log.Machine.{Op, Ledger, ledger_step, wal_step, keys_of, FitsOp, Holds}
use helios_net.Wal.Log.Refines.{wal_step-Holds}

pub is_v3-header :
    (salt stream : Bytes) → length salt ≡ 16 → is_v3 (magic_v3 ++ (salt ++ stream)) ≡ true
unfolding is_v3 eqb_bytes
is_v3-header salt stream h =
    let n = length-take 16 (salt ++ stream) in ground (arith, n, length-append salt stream)

pub read_record-nil : read_record [] ≡ none
unfolding read_record
read_record-nil = refl

module _ {D : Type 0} (c : Crypto) (json : Codec D) (master : Bytes) where
  replay-some :
      (w : Wal) (content : Bytes)
      → w.disk ≡ some content
      → replay c json master w ≡ replay_content c json master content w
  unfolding replay
  replay-some w content e = ground arith

  replay_v3 :
      (w : Wal) (salt stream : Bytes)
      → length salt ≡ 16
      → w.disk ≡ some (magic_v3 ++ (salt ++ stream))
      → replay c json master w ≡ (
        run c json master
            (decrypt_v3 c (keys_of c json master salt))
            (suc (length (magic_v3 ++ (salt ++ stream))))
            stream,
        record w { salt = some salt; v3 = true },
      )
  replay_v3 w salt stream h e =
      replay-some w _ e
      ∙ from (is_v3-header salt stream h) (take-append_of_length 16 salt stream h)
          (drop-append_of_length 16 salt stream h)
    where
      from :
          is_v3 (magic_v3 ++ (salt ++ stream)) ≡ true
          → take 16 (salt ++ stream) ≡ salt
          → drop 16 (salt ++ stream) ≡ stream
          → replay_content c json master (magic_v3 ++ (salt ++ stream)) w ≡ (
            run c json master
                (decrypt_v3 c (keys_of c json master salt))
                (suc (length (magic_v3 ++ (salt ++ stream))))
                stream,
            record w { salt = some salt; v3 = true },
          )
      from v t d = unfold replay_content in rw (v, t, d)

  -- A file of a header, sealed records and a torn end replays to those records.
  pub replay_torn :
      (w : Wal) (salt torn : Bytes) (items : List (Sealed c json master))
      → length salt ≡ 16
      → All (Fits c json master) items
      → read_record torn ≡ none
      → w.disk
        ≡ some (
            magic_v3
            ++ (salt ++ (stream_of c json master (keys_of c json master salt) items ++ torn)))
      → replay c json master w ≡ (
        records (entries c json master (keys_of c json master salt) items),
        record w { salt = some salt; v3 = true },
      )
  replay_torn w salt torn items h fits end e =
      replay_v3 w salt _ h e
      ∙ ap (λ (r : Replayed D). (r, record w { salt = some salt; v3 = true }))
          (replay_loop-stream_of c json master (keys_of c json master salt) items torn _ fits end (
            omega (
              arith,
              length-append salt
                  (stream_of c json master (keys_of c json master salt) items ++ torn),
            )))

  -- `replay` never runs out of fuel, whatever the file holds.
  pub replay_total : (w : Wal) → (replay c json master w).0 ≢ out_of_fuel
  replay_total w = elim (Option-cases w.disk) [
    | inl e ↦ λ q. unfold replay in ground arith
    | inr (content, e) ↦ rw (replay-some w content e) (total content)
  ]
    where
      total : (content : Bytes) → (replay_content c json master content w).0 ≢ out_of_fuel
      total content = elim (Bool-cases (is_v3 content)) [
        | inl e ↦
            unfold replay_content in
            rw e (
              replay_loop-ne-out_of_fuel c json master _ (suc (length content)) (drop 20 content)
                (omega (arith, length-drop 20 content)))
        | inr e ↦
            unfold replay_content in
            rw e (
              replay_loop-ne-out_of_fuel c json master _ (suc (length content)) content
                (omega arith))
      ]

  -- Replay of a log that stands for a ledger returns the committed entries, in the order of commit.
  pub replay-Holds :
      (w : Wal) (s : Ledger D)
      → Holds c json master w s
      → (replay c json master w).0 ≡ records s.committed
  replay-Holds w s h = elim h.content [
    | inl f ↦ fresh w f.no_bytes ∙ ap records (sym f.none_stored)
    | inr l ↦
        ap (λ (r : Replayed D × Wal). r.0)
          (replay_torn w l.salt [] l.items l.salt_size l.fits read_record-nil
            (simp append-nil l.on_disk))
        ∙ ap records l.stored
  ]
    where
      fresh : (v : Wal) → file_bytes v.disk ≡ [] → (replay c json master v).0 ≡ records []
      fresh v e = elim (Option-cases v.disk) [
        | inl n ↦ unfold replay in ground arith
        | inr (content, n) ↦
            let empty : content ≡ [] = sym (ap file_bytes n) ∙ e in
            ap (λ (r : Replayed D × Wal). r.0)
              (replay-some v content n ∙ ap (λ b. replay_content c json master b v) empty)
            ∙ unfold replay_content is_v3 replay_loop read_record in refl
      ]

  -- Any run of calls from an empty log, abstract and concrete.
  unfoldable pub run_wal : Wal → List (Op D) → Option Wal
  run_wal w [] = some w
  run_wal w (op ∷ ops) = elim (wal_step c json master w op) [
    | none ↦ none
    | some w' ↦ run_wal w' ops
  ]

  abbrev pub run_ledger : Ledger D → List (Op D) → Ledger D
  run_ledger = foldl ledger_step

  abbrev pub FitsOps : Ledger D → List (Op D) → Type 0
  FitsOps s [] = Unit
  FitsOps s (op ∷ ops) = FitsOp c json master s op × FitsOps (ledger_step s op) ops

  -- From a log that stands for a ledger, any calls whose sizes fit succeed, and replay afterwards
  -- returns exactly the entries that the ledger has committed.
  pub replay-run_wal :
      (w : Wal) (s : Ledger D) (ops : List (Op D))
      → Holds c json master w s
      → FitsOps s ops
      → (w' : Wal) × (run_wal w ops ≡ some w')
        × Holds c json master w' (run_ledger s ops)
        × ((replay c json master w').0 ≡ records (run_ledger s ops).committed)
  unfolding run_wal
  replay-run_wal w s [] h fit = (w, refl, h, replay-Holds w s h)
  replay-run_wal w s (op ∷ ops) h fit =
      let (w1, e, h1) = wal_step-Holds c json master w s op h fit.0 in
      let (w2, r, h2, rep) = replay-run_wal w1 (ledger_step s op) ops h1 fit.1 in
      (w2, rw (e, run_wal) r, h2, rep)
