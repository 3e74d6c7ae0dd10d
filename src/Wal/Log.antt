-- ===== src/Wal/Log.antt =====
-- `TransactionalWAL` of core/wal.py: its state, the file on disk, transactions and replay.
pub mod Frames
pub mod Machine
pub mod Refines
pub mod Recovery
pub mod Reopen
pub mod Crash
use helios_net.Prelude.{
  ℕ, zero, suc, ◌+◌, ◌<◌, ◌≡◌, Bool, true, false, ◌&&◌, ◌||◌, if◌then◌else◌, ltb, ◌==◌, String,
  Option, none, some, List, [], ◌∷◌, ◌++◌, length, take, drop, concat,
}
use helios_net.Prelude.Text.{Text}
use helios_net.Prelude.Bytes.{Bytes, AllBytes, eqb_bytes, pack_u32, unpack_u32}
use helios_net.Wal.Cipher.{Crypto, magic_v3, derive_keys, seal_v3, decrypt_v3, encrypt_v2, decrypt}

-- `{"lsn": ..., "op": ..., "data": ...}`
pub record Entry (D : Type 0) : Type 0 where
  pub lsn : ℕ
  pub op : Text
  pub payload : D

-- `json.loads(plain.decode("utf-8"))`: an entry, a `JSONDecodeError`, or a `UnicodeDecodeError`.
pub data Loaded (D : Type 0) : Type 0 where
  parsed : Entry D → Loaded D
  bad_json bad_utf8 : Loaded D

-- The `json` module of the standard library on such entries.
pub record Codec (D : Type 0) : Type 0 where
  pub dumps : Entry D → Bytes
  pub loads : Bytes → Loaded D
  pub loads-dumps : (e : Entry D) → loads (dumps e) ≡ parsed e
  pub dumps-AllBytes : (e : Entry D) → AllBytes (dumps e)
  pub length-dumps : (e : Entry D) → 0 < length (dumps e)

-- `disk` is the content of the file, `none` where there is no file. The keys that are installed are
-- those that the salt derives.
pub record Wal : Type 0 where
  pub disk : Option Bytes
  pub salt : Option Bytes
  pub v3 : Bool
  pub legacy : Bool
  pub lsn : ℕ
  pub active_txn : Bool
  pub txn_buffer : List Bytes

abbrev pub max_record_bytes : ℕ
max_record_bytes = 67108864

abbrev pub file_bytes : Option Bytes → Bytes
file_bytes none = []
file_bytes (some data_bytes) = data_bytes

-- `struct.pack("!I", len(payload)) + payload`
unfoldable pub frame : Bytes → Bytes
frame payload = pack_u32 (length payload) ++ payload

-- `_write_disk`: appends to the file, and creates it.
unfoldable pub write_disk : List Bytes → Wal → Wal
write_disk items w = record w { disk = some (file_bytes w.disk ++ concat items) }

-- One round of the loop of `replay`: a payload and the bytes after it, or `none` for a `break`.
unfoldable pub read_record : Bytes → Option (Bytes × Bytes)
read_record stream =
    let n = unpack_u32 (take 4 stream) in
    let body = drop 4 stream in
    if ltb (length (take 4 stream)) 4
    then none
    else if n == 0 || ltb max_record_bytes n
    then none
    else if ltb (length (take n body)) n
    then none
    else some (take n body, drop n body)

-- What `replay` returns: the records, or the `UnicodeDecodeError` that it does not catch.
pub data Replayed (D : Type 0) : Type 0 where
  records : List (Entry D) → Replayed D
  decode_error out_of_fuel : Replayed D

-- `head[:4] == _MAGIC_V3` of a whole header
unfoldable pub is_v3 : Bytes → Bool
unfolding eqb_bytes
is_v3 content = length (take 20 content) == 20 && eqb_bytes (take 4 content) magic_v3

-- `__init__` up to `_init_lsn`: no key is installed, and the log number starts at zero.
unfoldable pub load_v3_header : Option Bytes → Wal
load_v3_header disk =
    let blank : Wal = record {
      disk = disk;
      salt = none;
      v3 = false;
      legacy = false;
      lsn = 0;
      active_txn = false;
      txn_buffer = [];
    } in
    let content = file_bytes disk in
    if ltb (length content) 20
    then blank
    else if is_v3 content
    then record blank { salt = some (drop 4 (take 20 content)); v3 = true }
    else record blank { legacy = true }

module _ {D : Type 0} (c : Crypto) (json : Codec D) (master : Bytes) where
  push_record : Entry D → Replayed D → Replayed D
  push_record e (records es) = records (e ∷ es)
  push_record e decode_error = decode_error
  push_record e out_of_fuel = out_of_fuel

  keep_loaded : Loaded D → Replayed D → Replayed D
  unfolding push_record
  keep_loaded (parsed e) rest = push_record e rest
  keep_loaded bad_json rest = rest
  keep_loaded bad_utf8 rest = decode_error

  -- `if plain:` and what hangs under it
  unfoldable pub keep_plain : Option Bytes → Replayed D → Replayed D
  unfolding keep_loaded
  keep_plain none rest = rest
  keep_plain (some []) rest = rest
  keep_plain (some (b ∷ bs)) rest = keep_loaded (json.loads (b ∷ bs)) rest

  unfoldable pub replay_loop : (Bytes → Option Bytes) → ℕ → Bytes → Replayed D
  unfolding keep_plain read_record
  replay_loop open_payload zero stream = out_of_fuel
  replay_loop open_payload (suc fuel) stream = elim (read_record stream) [
    | none ↦ records []
    | some (payload, rest) ↦ keep_plain (open_payload payload) (replay_loop open_payload fuel rest)
  ]

  -- A round reads at least five bytes, so one round more than there are bytes is enough.
  unfoldable pub replay_content : Bytes → Wal → Replayed D × Wal
  replay_content content w =
      let salt = drop 4 (take 20 content) in
      if is_v3 content
      then (
        replay_loop (decrypt_v3 c (derive_keys c master salt)) (suc (length content))
            (drop 20 content),
        record w { salt = some salt; v3 = true },
      )
      else (replay_loop (decrypt c master) (suc (length content)) content, w)

  unfoldable pub replay : Wal → Replayed D × Wal
  replay w = elim w.disk [ none ↦ (records [], w) | some content ↦ replay_content content w ]

  -- `max(r.get("lsn", 0) for r in records)`
  unfoldable pub highest_lsn : ℕ → List (Entry D) → ℕ
  highest_lsn n [] = n
  highest_lsn n (e ∷ es) = highest_lsn (if ltb n e.lsn then e.lsn else n) es

  -- `_init_lsn`
  unfoldable pub init_lsn : Replayed D × Wal → Option Wal
  init_lsn (records es, w) = some (record w { lsn = highest_lsn 0 es })
  init_lsn (decode_error, w) = none
  init_lsn (out_of_fuel, w) = none

  -- `__init__` on a file; `none` where `replay` raises.
  unfoldable pub open_wal : Option Bytes → Option Wal
  open_wal disk = init_lsn (replay (load_v3_header disk))

  -- `_start_v3`, with the salt that `os.urandom` drew
  unfoldable pub start_v3 : Bytes → Wal → Wal
  unfolding write_disk
  start_v3 salt w = write_disk ((magic_v3 ++ salt) ∷ []) (record w { salt = some salt; v3 = true })

  -- `none` is the `RuntimeError` of keys that are not initialised.
  unfoldable pub seal_current : Bytes → Bytes → Wal → Option (Bytes × Wal)
  seal_current nonce plaintext w = elim w.salt [
    | none ↦ none
    | some salt ↦ some (seal_v3 c (derive_keys c master salt) nonce plaintext, w)
  ]

  -- `_encrypt`, with the salt and the nonce that `os.urandom` draws
  unfoldable pub encrypt : Bytes → Bytes → Bytes → Wal → Option (Bytes × Wal)
  unfolding start_v3 seal_current
  encrypt salt nonce plaintext w =
      if w.legacy
      then some (encrypt_v2 c master salt plaintext, w)
      else if w.v3
      then seal_current nonce plaintext w
      else if ltb 0 (length (file_bytes w.disk))
      then some (encrypt_v2 c master salt plaintext, record w { legacy = true })
      else seal_current nonce plaintext (start_v3 salt w)

  -- The buffer takes the item inside a transaction, the file outside.
  unfoldable pub store_item : Bytes → Wal → Wal
  unfolding write_disk
  store_item item w =
      if w.active_txn
      then record w { txn_buffer = w.txn_buffer ++ item ∷ [] }
      else write_disk (item ∷ []) w

  -- `append` returns the new log number.
  unfoldable pub append : Bytes → Bytes → Text → D → Wal → Option (ℕ × Wal)
  append salt nonce op payload w =
      let entry : Entry D = record { lsn = w.lsn + 1; op = op; payload = payload } in
      elim (encrypt salt nonce (json.dumps entry) (record w { lsn = w.lsn + 1 })) [
        | none ↦ none
        | some (encrypted, w') ↦ some (w.lsn + 1, store_item (frame encrypted) w')
      ]

-- `begin` drops what an earlier transaction left in the buffer.
unfoldable pub begin : Wal → Wal
begin w = record w { active_txn = true; txn_buffer = [] }

unfoldable pub commit : Wal → Wal
unfolding write_disk
commit w =
    if w.active_txn
    then record (write_disk w.txn_buffer w) { active_txn = false; txn_buffer = [] }
    else w

unfoldable pub rollback : Wal → Wal
rollback w = record w { active_txn = false; txn_buffer = [] }
