-- ===== src/Wal/Log/Refines.antt =====
-- Every run of the log refines the ledger, and replay returns what the ledger has committed.
use helios_net.Prelude.{
  ap, subst, ◌∙◌, sym, ◌+◌, ◌≡◌, refl, Bool, true, false, Bool-cases, ◌⊎◌, inl, inr, some, List, [],
  ◌∷◌, ◌++◌, length, concat, arith,
}
use helios_net.Prelude.Text.{Text}
use helios_net.Prelude.Bytes.{Bytes}
use helios_net.Wal.Cipher.{Crypto, seal_v3}
use helios_net.Wal.Log.{
  Entry, Codec, Wal, file_bytes, frame, write_disk, start_v3, encrypt, store_item, begin, commit,
  rollback,
}
use helios_net.Wal.Log.Frames.{Fits}
use helios_net.Wal.Log.Machine.{
  Op, begin_op, commit_op, rollback_op, append_op, Ledger, next_entry, ledger_step, wal_step,
  keys_of, FitsOp, IsLive, IsFresh, Holds, start_v3-IsLive, store_item-buffered, write_disk-IsLive,
}

module _ {D : Type 0} (c : Crypto) (json : Codec D) (master : Bytes) where
  abbrev Content : Wal → List (Entry D) → List (Entry D) → Type 0
  Content w cs ps = IsFresh c json master w cs ps ⊎ IsLive c json master w cs ps

  -- An emptied buffer has no pending entries.
  cleared-Content :
      (active : Bool) (w : Wal) (cs ps : List (Entry D))
      → Content w cs ps
      → Content (record w { active_txn = active; txn_buffer = [] }) cs []
  cleared-Content active w cs ps (inl f) = inl (record {
    v3 = f.v3;
    no_bytes = f.no_bytes;
    none_stored = f.none_stored;
    no_buffer = refl;
    none_waiting = refl;
  })
  cleared-Content active w cs ps (inr l) = inr (record {
    salt = l.salt;
    items = l.items;
    buffered = [];
    v3 = l.v3;
    installed = l.installed;
    salt_size = l.salt_size;
    on_disk = l.on_disk;
    stored = l.stored;
    fits = l.fits;
    in_buffer = refl;
    waiting = refl;
    fits_buffer = tt;
  })

  begin-Holds :
      (w : Wal) (s : Ledger D)
      → Holds c json master w s
      → Holds c json master (begin w) (ledger_step s begin_op)
  unfolding begin ledger_step
  begin-Holds w s h = record {
    lsn = h.lsn;
    active = refl;
    current = h.current;
    content = cleared-Content true w s.committed s.pending h.content;
  }

  rollback-Holds :
      (w : Wal) (s : Ledger D)
      → Holds c json master w s
      → Holds c json master (rollback w) (ledger_step s rollback_op)
  unfolding rollback ledger_step
  rollback-Holds w s h = record {
    lsn = h.lsn;
    active = refl;
    current = h.current;
    content = cleared-Content false w s.committed s.pending h.content;
  }

  written : Wal → Wal
  written w = record (write_disk w.txn_buffer w) { active_txn = false; txn_buffer = [] }

  written-Content :
      (w : Wal) (cs ps : List (Entry D)) → Content w cs ps → Content (written w) (cs ++ ps) []
  unfolding written write_disk
  written-Content w cs ps (inl f) = inl (record {
    v3 = f.v3;
    no_bytes = rw (f.no_bytes, f.no_buffer);
    none_stored = rw (f.none_stored, f.none_waiting);
    no_buffer = refl;
    none_waiting = refl;
  })
  written-Content w cs ps (inr l) =
      let out = write_disk-IsLive c json master w cs ps l l.buffered l.fits_buffer in
      inr (record {
        salt = out.salt;
        items = out.items;
        buffered = [];
        v3 = out.v3;
        installed = out.installed;
        salt_size = out.salt_size;
        on_disk = ap (λ b. some (file_bytes w.disk ++ concat b)) l.in_buffer ∙ out.on_disk;
        stored = out.stored ∙ ap (λ es. cs ++ es) l.waiting;
        fits = out.fits;
        in_buffer = refl;
        waiting = refl;
        fits_buffer = tt;
      })

  commit-Holds :
      (w : Wal) (s : Ledger D)
      → Holds c json master w s
      → Holds c json master (commit w) (ledger_step s commit_op)
  unfolding commit ledger_step written
  commit-Holds w s h = elim (Bool-cases s.active) [
    | inl on ↦
        simp (h.active, on)
          (record {
            lsn = unfold write_disk in h.lsn;
            active = refl;
            current = unfold write_disk in h.current;
            content = written-Content w s.committed s.pending h.content;
          })
    | inr off ↦ simp (h.active, off) h
  ]

  -- The log number is drawn before the record is encrypted.
  abbrev pub counted : Wal → Wal
  counted w = record w { lsn = w.lsn + 1 }

  -- What `append` stores, under the keys of the salt.
  abbrev item_of : Bytes → Bytes → Ledger D → Text → D → Bytes
  item_of salt nonce s op payload =
      frame (seal_v3 c (keys_of c json master salt) nonce (json.dumps (next_entry s op payload)))

  pub encrypt-live :
      (salt drawn nonce plaintext : Bytes) (w : Wal)
      → w.legacy ≡ false
      → w.v3 ≡ true
      → w.salt ≡ some salt
      → encrypt c json master drawn nonce plaintext w
        ≡ some (seal_v3 c (keys_of c json master salt) nonce plaintext, w)
  unfolding encrypt
  encrypt-live salt drawn nonce plaintext w h k e = ground arith

  encrypt-fresh :
      (salt nonce plaintext : Bytes) (w : Wal)
      → w.legacy ≡ false
      → w.v3 ≡ false
      → file_bytes w.disk ≡ []
      → encrypt c json master salt nonce plaintext w
        ≡ some
            (seal_v3 c (keys_of c json master salt) nonce plaintext, start_v3 c json master salt w)
  unfolding encrypt
  encrypt-fresh salt nonce plaintext w h k e = ground (arith, ap length e)

  pub append_from_encrypt :
      (salt nonce : Bytes) (op : Text) (payload : D) (w w' : Wal) (s : Ledger D) (sealed : Bytes)
      → w.lsn ≡ s.count
      → encrypt c json master salt nonce (json.dumps (next_entry s op payload)) (counted w)
        ≡ some (sealed, w')
      → wal_step c json master w (append_op salt nonce op payload)
        ≡ some (store_item c json master (frame sealed) w')
  unfolding wal_step
  append_from_encrypt salt nonce op payload w w' s sealed n e = ground arith

  store_item_fields :
      (item : Bytes) (w : Wal)
      → ((store_item c json master item w).lsn ≡ w.lsn)
        × ((store_item c json master item w).active_txn ≡ w.active_txn)
        × ((store_item c json master item w).legacy ≡ w.legacy)
  unfolding store_item
  store_item_fields item w = (ground arith, ground arith, ground arith)

  pub store_item-written :
      (item : Bytes) (w : Wal)
      → w.active_txn ≡ false
      → write_disk (item ∷ []) w ≡ store_item c json master item w
  unfolding store_item
  store_item-written item w off = ground arith

  ledger_step-buffered :
      (s : Ledger D) (salt nonce : Bytes) (op : Text) (payload : D)
      → s.active ≡ true
      → record s { pending = s.pending ++ next_entry s op payload ∷ []; count = s.count + 1 }
        ≡ ledger_step s (append_op salt nonce op payload)
  unfolding ledger_step
  ledger_step-buffered s salt nonce op payload on = ground arith

  ledger_step-written :
      (s : Ledger D) (salt nonce : Bytes) (op : Text) (payload : D)
      → s.active ≡ false
      → record s { committed = s.committed ++ next_entry s op payload ∷ []; count = s.count + 1 }
        ≡ ledger_step s (append_op salt nonce op payload)
  unfolding ledger_step
  ledger_step-written s salt nonce op payload off = ground arith

  -- What `append` stores goes to the buffer inside a transaction and to the file outside.
  stored-Holds :
      (drawn nonce : Bytes) (op : Text) (payload : D) (w : Wal) (s : Ledger D)
      → (l : IsLive c json master w s.committed s.pending) → w.lsn ≡ s.count + 1
      → w.active_txn ≡ s.active
      → w.legacy ≡ false
      → Fits c json master (nonce, next_entry s op payload)
      → Holds c json master
          (store_item c json master (item_of l.salt nonce s op payload) w)
          (ledger_step s (append_op drawn nonce op payload))
  stored-Holds drawn nonce op payload w s l n a current fit =
      let e = next_entry s op payload in
      let item = item_of l.salt nonce s op payload in
      let (lsn, active, legacy) = store_item_fields item w in
      elim (Bool-cases w.active_txn) [
        | inl on ↦
            subst (Holds c json master (store_item c json master item w))
              (ledger_step-buffered s drawn nonce op payload (sym a ∙ on))
              (record {
                lsn = lsn ∙ n;
                active = active ∙ a;
                current = legacy ∙ current;
                content =
                    inr
                      (store_item-buffered c json master w s.committed s.pending l nonce e fit on);
              })
        | inr off ↦
            subst (Holds c json master (store_item c json master item w))
              (ledger_step-written s drawn nonce op payload (sym a ∙ off))
              (record {
                lsn = lsn ∙ n;
                active = active ∙ a;
                current = legacy ∙ current;
                content = inr (
                    subst (λ v. IsLive c json master v (s.committed ++ e ∷ []) s.pending)
                      (store_item-written item w off)
                      (write_disk-IsLive c json master w s.committed s.pending l ((nonce, e) ∷ [])
                        (fit, tt)));
              })
      ]

  start_v3_fields :
      (salt : Bytes) (w : Wal)
      → ((start_v3 c json master salt w).lsn ≡ w.lsn)
        × ((start_v3 c json master salt w).active_txn ≡ w.active_txn)
        × ((start_v3 c json master salt w).legacy ≡ w.legacy)
  unfolding start_v3 write_disk
  start_v3_fields salt w = (refl, refl, refl)

  append-Holds :
      (w : Wal) (s : Ledger D) (salt nonce : Bytes) (op : Text) (payload : D)
      → Holds c json master w s
      → FitsOp c json master s (append_op salt nonce op payload)
      → (w' : Wal) × (wal_step c json master w (append_op salt nonce op payload) ≡ some w')
        × Holds c json master w' (ledger_step s (append_op salt nonce op payload))
  append-Holds w s salt nonce op payload h (salt_size, nonce_size, fit) = elim h.content [
    | inl f ↦
        let w1 = start_v3 c json master salt (counted w) in
        let (l, drawn) =
          start_v3-IsLive c json master salt (counted w) s.committed s.pending
            (record {
              v3 = f.v3;
              no_bytes = f.no_bytes;
              none_stored = f.none_stored;
              no_buffer = f.no_buffer;
              none_waiting = f.none_waiting;
            })
            salt_size in
        let (lsn, active, current) = start_v3_fields salt (counted w) in
        (
          store_item c json master (item_of salt nonce s op payload) w1,
          append_from_encrypt salt nonce op payload w w1 s _ h.lsn
              (encrypt-fresh salt nonce _ (counted w) h.current f.v3 f.no_bytes),
          subst
              (λ k.
                Holds c json master (store_item c json master (item_of k nonce s op payload) w1)
                  (ledger_step s (append_op salt nonce op payload)))
              drawn
              (stored-Holds salt nonce op payload w1 s l (omega (arith, h.lsn, lsn))
                (active ∙ h.active) (current ∙ h.current) (nonce_size, fit)),
        )
    | inr l ↦
        let l' : IsLive c json master (counted w) s.committed s.pending = record {
          salt = l.salt;
          items = l.items;
          buffered = l.buffered;
          v3 = l.v3;
          installed = l.installed;
          salt_size = l.salt_size;
          on_disk = l.on_disk;
          stored = l.stored;
          fits = l.fits;
          in_buffer = l.in_buffer;
          waiting = l.waiting;
          fits_buffer = l.fits_buffer;
        } in
        (
          store_item c json master (item_of l.salt nonce s op payload) (counted w),
          append_from_encrypt salt nonce op payload w (counted w) s _ h.lsn
              (encrypt-live l.salt salt nonce _ (counted w) h.current l.v3 l.installed),
          stored-Holds salt nonce op payload (counted w) s l' (omega (arith, h.lsn)) h.active
              h.current (nonce_size, fit),
        )
  ]

  -- From a log that stands for a ledger, every call whose sizes fit succeeds, and leaves a log that
  -- stands for the next ledger.
  pub wal_step-Holds :
      (w : Wal) (s : Ledger D) (op : Op D)
      → Holds c json master w s
      → FitsOp c json master s op
      → (w' : Wal) × (wal_step c json master w op ≡ some w')
        × Holds c json master w' (ledger_step s op)
  wal_step-Holds w s begin_op h fit = (begin w, unfold wal_step in refl, begin-Holds w s h)
  wal_step-Holds w s commit_op h fit = (commit w, unfold wal_step in refl, commit-Holds w s h)
  wal_step-Holds w s rollback_op h fit = (rollback w, unfold wal_step in refl, rollback-Holds w s h)
  wal_step-Holds w s (append_op salt nonce op payload) h fit =
      append-Holds w s salt nonce op payload h fit
