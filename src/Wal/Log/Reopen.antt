-- ===== src/Wal/Log/Reopen.antt =====
-- Opening the file of a log: what a restart keeps.
use helios_net.Prelude.{
  append-nil, sym, ◌≡◌, refl, true, false, Bool-cases, ltb, inl, inr, none, some, List, [], ◌∷◌,
  ◌++◌, length, length-append, All, In, ◌⊎◌, ℕ, ◌≤◌, arith,
}
use helios_net.Prelude.Bytes.{Bytes, take-append_of_length}
use helios_net.Wal.Cipher.{Crypto, magic_v3}
use helios_net.Wal.Log.{Entry, Codec, Wal, load_v3_header, replay, highest_lsn, init_lsn, open_wal}
use helios_net.Wal.Log.Frames.{stream_of}
use helios_net.Wal.Log.Machine.{Ledger, empty_ledger, keys_of, IsLive, Holds}
use helios_net.Wal.Log.Recovery.{is_v3-header, read_record-nil, replay_torn}

-- The highest of a start and the log numbers of some entries
pub record IsHighest {D : Type 0} (start n : ℕ) (es : List (Entry D)) : Type 0 where
  pub above_start : start ≤ n
  pub above : All (λ e. e.lsn ≤ n) es
  pub reached : (n ≡ start) ⊎ ((e : Entry D) × In e es × (e.lsn ≡ n))

module _ {D : Type 0} (c : Crypto) (json : Codec D) (master : Bytes) where
  -- A log on no file stands for the empty ledger.
  pub open_wal-none :
      (w : Wal) × (open_wal c json master none ≡ some w) × Holds c json master w empty_ledger
  unfolding open_wal load_v3_header replay init_lsn highest_lsn
  open_wal-none = (
    _,
    refl,
    record {
      lsn = refl;
      active = refl;
      current = refl;
      content = inl (record {
        v3 = refl;
        no_bytes = refl;
        none_stored = refl;
        no_buffer = refl;
        none_waiting = refl;
      });
    },
  )

  load_v3_header-live :
      (salt stream : Bytes)
      → length salt ≡ 16
      → load_v3_header (some (magic_v3 ++ (salt ++ stream))) ≡ record {
        disk = some (magic_v3 ++ (salt ++ stream));
        salt = some salt;
        v3 = true;
        legacy = false;
        lsn = 0;
        active_txn = false;
        txn_buffer = [];
      }
  unfolding load_v3_header
  load_v3_header-live salt stream h =
      let long : ltb (length (magic_v3 ++ (salt ++ stream))) 20 ≡ false =
        ground (arith, length-append salt stream) in
      rw (long, is_v3-header salt stream h, take-append_of_length 16 salt stream h)

  highest_lsn-IsHighest :
      (start : ℕ) (es : List (Entry D)) → IsHighest start (highest_lsn c json master start es) es
  unfolding highest_lsn
  highest_lsn-IsHighest start [] = record {
    above_start = omega arith;
    above = tt;
    reached = inl refl;
  }
  highest_lsn-IsHighest start (e ∷ es) = elim (Bool-cases (ltb start e.lsn)) [
    | inl h ↦ rw h (raised (highest_lsn-IsHighest e.lsn es) (ground (arith, h)))
    | inr h ↦ rw h (kept (highest_lsn-IsHighest start es) (ground (arith, h)))
  ]
    where
      raised : {n : ℕ} → IsHighest e.lsn n es → start ≤ e.lsn → IsHighest start n (e ∷ es)
      raised r le = record {
        above_start = omega (arith, r.above_start, le);
        above = (r.above_start, r.above);
        reached = elim r.reached [
          | inl f ↦ inr (e, inl refl, sym f)
          | inr (d, i, f) ↦ inr (d, inr i, f)
        ];
      }

      kept : {n : ℕ} → IsHighest start n es → e.lsn ≤ start → IsHighest start n (e ∷ es)
      kept r le = record {
        above_start = r.above_start;
        above = (omega (arith, r.above_start, le), r.above);
        reached = elim r.reached [ inl f ↦ inl f | inr (d, i, f) ↦ inr (d, inr i, f) ];
      }

  -- Opening the file of a live log succeeds, keeps its committed entries, drops its pending ones, and
  -- goes on from a log number that no committed entry exceeds and that one of them has, or from 0 if
  -- none is above that.
  pub open_wal-Holds :
      (w : Wal) (s : Ledger D)
      → IsLive c json master w s.committed s.pending
      → (w' : Wal) × (n : ℕ) × (open_wal c json master w.disk ≡ some w')
        × IsHighest 0 n s.committed
        × Holds c json master w'
            (record { committed = s.committed; pending = []; active = false; count = n })
  unfolding open_wal
  open_wal-Holds w s l =
      let stream = stream_of c json master (keys_of c json master l.salt) l.items in
      let opened : Wal = record {
        disk = some (magic_v3 ++ (l.salt ++ stream));
        salt = some l.salt;
        v3 = true;
        legacy = false;
        lsn = 0;
        active_txn = false;
        txn_buffer = [];
      } in
      let replayed =
        replay_torn c json master opened l.salt [] l.items l.salt_size l.fits read_record-nil
          (simp append-nil) in
      (
        record opened { lsn = highest_lsn c json master 0 s.committed },
        highest_lsn c json master 0 s.committed,
        rw (l.on_disk, load_v3_header-live l.salt stream l.salt_size, replayed, l.stored)
            (unfold init_lsn in refl),
        highest_lsn-IsHighest 0 s.committed,
        record {
          lsn = refl;
          active = refl;
          current = refl;
          content = inr (record {
            salt = l.salt;
            items = l.items;
            buffered = [];
            v3 = refl;
            installed = refl;
            salt_size = l.salt_size;
            on_disk = refl;
            stored = l.stored;
            fits = l.fits;
            in_buffer = refl;
            waiting = refl;
            fits_buffer = tt;
          });
        },
      )
