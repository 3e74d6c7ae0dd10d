-- ===== src/Wal/Log/Machine.antt =====
-- What the log promises: committed entries stay, buffered ones are dropped or committed together.
use mathlib.Core.List.{map-append}
use helios_net.Prelude.{
  ap, ◌∙◌, append_assoc, append-nil, sym, ℕ, ◌+◌, ◌≤◌, ◌≡◌, refl, Bool, true, false, if◌then◌else◌,
  ◌⊎◌, Option, none, some, List, [], ◌∷◌, ◌++◌, length, concat-append, map, All, All-append,
}
use helios_net.Prelude.Text.{Text}
use helios_net.Prelude.Bytes.{Bytes}
use helios_net.Wal.Cipher.{Crypto, magic_v3, derive_keys, seal_v3}
use helios_net.Wal.Log.{
  Entry, Codec, Wal, max_record_bytes, file_bytes, frame, write_disk, start_v3, store_item, append,
  begin, commit, rollback,
}
use helios_net.Wal.Log.Frames.{Sealed, Fits, sealed_frame, entries, stream_of}

-- The calls of a client, with the bytes that `os.urandom` draws for each `append`.
pub data Op (D : Type 0) : Type 0 where
  begin_op commit_op rollback_op : Op D
  append_op : Bytes → Bytes → Text → D → Op D

-- The abstract log: entries, not bytes.
pub record Ledger (D : Type 0) : Type 0 where
  pub committed : List (Entry D)
  pub pending : List (Entry D)
  pub active : Bool
  pub count : ℕ

module _ {D : Type 0} where
  abbrev pub empty_ledger : Ledger D
  empty_ledger = record { committed = []; pending = []; active = false; count = 0 }

  abbrev pub next_entry : Ledger D → Text → D → Entry D
  next_entry s op payload = record { lsn = s.count + 1; op = op; payload = payload }

  unfoldable pub ledger_step : Ledger D → Op D → Ledger D
  ledger_step s begin_op = record s { active = true; pending = [] }
  ledger_step s rollback_op = record s { active = false; pending = [] }
  ledger_step s commit_op =
      if s.active
      then record s { committed = s.committed ++ s.pending; active = false; pending = [] }
      else s
  ledger_step s (append_op salt nonce op payload) =
      let e = next_entry s op payload in
      if s.active
      then record s { pending = s.pending ++ e ∷ []; count = s.count + 1 }
      else record s { committed = s.committed ++ e ∷ []; count = s.count + 1 }

module _ {D : Type 0} (c : Crypto) (json : Codec D) (master : Bytes) where
  unfoldable pub wal_step : Wal → Op D → Option Wal
  unfolding append begin commit rollback
  wal_step w begin_op = some (begin w)
  wal_step w commit_op = some (commit w)
  wal_step w rollback_op = some (rollback w)
  wal_step w (append_op salt nonce op payload) =
      elim (append c json master salt nonce op payload w) [ none ↦ none | some (n, w') ↦ some w' ]

  abbrev pub keys_of : Bytes → Bytes × Bytes
  keys_of = derive_keys c master

  -- `urandom(16)` has 16 bytes, and the record does not pass the size that `replay` reads.
  abbrev pub FitsOp : Ledger D → Op D → Type 0
  FitsOp s (append_op salt nonce op payload) =
      (length salt ≡ 16)
      × (length nonce ≡ 16)
      × (length (json.dumps (next_entry s op payload)) + 48 ≤ max_record_bytes)
  FitsOp s _ = Unit

  -- The file holds a header and the frames of the committed entries, the buffer those of the
  -- pending ones.
  pub record IsLive (w : Wal) (cs ps : List (Entry D)) : Type 0 where
    pub salt : Bytes
    pub items : List (Sealed c json master)
    pub buffered : List (Sealed c json master)
    pub v3 : w.v3 ≡ true
    pub installed : w.salt ≡ some salt
    pub salt_size : length salt ≡ 16
    pub on_disk : w.disk ≡ some (magic_v3 ++ (salt ++ stream_of c json master (keys_of salt) items))
    pub stored : entries c json master (keys_of salt) items ≡ cs
    pub fits : All (Fits c json master) items
    pub in_buffer : w.txn_buffer ≡ map (sealed_frame c json master (keys_of salt)) buffered
    pub waiting : entries c json master (keys_of salt) buffered ≡ ps
    pub fits_buffer : All (Fits c json master) buffered

  -- No record was written yet.
  pub record IsFresh (w : Wal) (cs ps : List (Entry D)) : Type 0 where
    pub v3 : w.v3 ≡ false
    pub no_bytes : file_bytes w.disk ≡ []
    pub none_stored : cs ≡ []
    pub no_buffer : w.txn_buffer ≡ []
    pub none_waiting : ps ≡ []

  -- The log `w` stands for the ledger `s`.
  pub record Holds (w : Wal) (s : Ledger D) : Type 0 where
    pub lsn : w.lsn ≡ s.count
    pub active : w.active_txn ≡ s.active
    pub current : w.legacy ≡ false
    pub content : IsFresh w s.committed s.pending ⊎ IsLive w s.committed s.pending

  stream_of-append :
      (keys : Bytes × Bytes) (xs ys : List (Sealed c json master))
      → stream_of c json master keys (xs ++ ys)
        ≡ stream_of c json master keys xs ++ stream_of c json master keys ys
  stream_of-append keys xs ys = rw (map-append (sealed_frame c json master keys) xs ys) (
      concat-append (map (sealed_frame c json master keys) xs)
        (map (sealed_frame c json master keys) ys))

  pub start_v3-IsLive :
      (salt : Bytes) (w : Wal) (cs ps : List (Entry D))
      → IsFresh w cs ps
      → length salt ≡ 16
      → (l : IsLive (start_v3 c json master salt w) cs ps) × (l.salt ≡ salt)
  unfolding start_v3 write_disk
  start_v3-IsLive salt w cs ps h size = (
    record {
      salt = salt;
      items = [];
      buffered = [];
      v3 = refl;
      installed = refl;
      salt_size = size;
      on_disk = rw h.no_bytes (simp append-nil);
      stored = sym h.none_stored;
      fits = tt;
      in_buffer = h.no_buffer;
      waiting = sym h.none_waiting;
      fits_buffer = tt;
    },
    refl,
  )

  module _ (w : Wal) (cs ps : List (Entry D)) (h : IsLive w cs ps) where
    abbrev pub next : Bytes → Entry D → Bytes
    next nonce e = frame (seal_v3 c (keys_of h.salt) nonce (json.dumps e))

    pub store_item-buffered :
        (nonce : Bytes) (e : Entry D)
        → Fits c json master (nonce, e)
        → w.active_txn ≡ true
        → IsLive (store_item c json master (next nonce e) w) cs (ps ++ e ∷ [])
    unfolding store_item
    store_item-buffered nonce e fit active = rw active (record {
      salt = h.salt;
      items = h.items;
      buffered = h.buffered ++ (nonce, e) ∷ [];
      v3 = h.v3;
      installed = h.installed;
      salt_size = h.salt_size;
      on_disk = h.on_disk;
      stored = h.stored;
      fits = h.fits;
      in_buffer = rw (
        h.in_buffer,
        map-append (sealed_frame c json master (keys_of h.salt)) h.buffered ((nonce, e) ∷ []),
      );
      waiting =
          map-append (λ i. i.1) h.buffered ((nonce, e) ∷ []) ∙ ap (λ es. es ++ e ∷ []) h.waiting;
      fits_buffer =
          All-append (Fits c json master) h.buffered ((nonce, e) ∷ []) h.fits_buffer (fit, tt);
    })

    -- Items are written behind those that the file holds.
    pub write_disk-IsLive :
        (more : List (Sealed c json master))
        → All (Fits c json master) more
        → IsLive
            (write_disk (map (sealed_frame c json master (keys_of h.salt)) more) w)
            (cs ++ entries c json master (keys_of h.salt) more)
            ps
    unfolding write_disk
    write_disk-IsLive more fit = record {
      salt = h.salt;
      items = h.items ++ more;
      buffered = h.buffered;
      v3 = h.v3;
      installed = h.installed;
      salt_size = h.salt_size;
      on_disk = rw (h.on_disk, stream_of-append (keys_of h.salt) h.items more) (simp append_assoc);
      stored =
          map-append (λ i. i.1) h.items more
          ∙ ap (λ es. es ++ entries c json master (keys_of h.salt) more) h.stored;
      fits = All-append (Fits c json master) h.items more h.fits fit;
      in_buffer = h.in_buffer;
      waiting = h.waiting;
      fits_buffer = h.fits_buffer;
    }
