-- ===== src/Wal/Samples.antt =====
-- A small digest and a small encoding in place of `hmac` and `json`, runs of the log with them, and
-- each theorem of it at such a run.
use helios_net.Prelude.{
  ap, ◌∙◌, ℕ, zero, suc, ◌+◌, ◌%◌, ◌<◌, ◌≡◌, ◌≢◌, refl, true, false, some, List, [], ◌∷◌, ◌++◌,
  length, All, take, arith,
}
use helios_net.Prelude.Bytes.{Bytes, AllBytes, unpack_u32}
use helios_net.Wal.Cipher.{Crypto, magic_v3, seal_v3, decrypt_v3}
use helios_net.Wal.Cipher.RoundTrip.{decrypt_v3-seal_v3}
use helios_net.Wal.Log.{
  Entry, Loaded, parsed, bad_json, Codec, Wal, records, out_of_fuel, file_bytes, replay, open_wal,
}
use helios_net.Wal.Log.Frames.{Sealed, Fits, entries, stream_of}
use helios_net.Wal.Log.Machine.{
  Op, begin_op, commit_op, rollback_op, append_op, Ledger, empty_ledger, ledger_step, wal_step,
  keys_of, IsLive, Holds,
}
use helios_net.Wal.Log.Recovery.{run_wal, run_ledger, FitsOps, replay-run_wal, replay_total}
use helios_net.Wal.Log.Reopen.{IsHighest, open_wal-none, open_wal-Holds}
use helios_net.Wal.Log.Crash.{replay_cut, append-torn}

repeat_byte : ℕ → ℕ → Bytes
repeat_byte zero b = []
repeat_byte (suc n) b = b ∷ repeat_byte n b

length-repeat_byte : (n b : ℕ) → length (repeat_byte n b) ≡ n
unfolding repeat_byte
length-repeat_byte zero b = refl
length-repeat_byte (suc n) b = ap suc (length-repeat_byte n b)

repeat_byte-AllBytes : (n b : ℕ) → b < 256 → AllBytes (repeat_byte n b)
unfolding repeat_byte
repeat_byte-AllBytes zero b h = tt
repeat_byte-AllBytes (suc n) b h = (h, repeat_byte-AllBytes n b h)

small_hmac : Bytes → Bytes → Bytes
unfolding repeat_byte
small_hmac key message = repeat_byte 32 ((length key + length message) % 256)

small_hmac-AllBytes : (key message : Bytes) → AllBytes (small_hmac key message)
unfolding small_hmac
small_hmac-AllBytes key message = repeat_byte-AllBytes 32 _ (omega arith)

length-small_hmac : (key message : Bytes) → length (small_hmac key message) ≡ 32
unfolding small_hmac
length-small_hmac key message = length-repeat_byte 32 ((length key + length message) % 256)

abbrev small_crypto : Crypto
small_crypto = record {
  hmac = small_hmac;
  pbkdf2 = λ password salt n. repeat_byte n 5;
  sha256 = λ message. repeat_byte 32 9;
  length-hmac = length-small_hmac;
  hmac-AllBytes = small_hmac-AllBytes;
}

-- A number in unary, ended by 0; a list of them, ended by 2.
unary : ℕ → Bytes → Bytes
unary zero rest = 0 ∷ rest
unary (suc n) rest = 1 ∷ unary n rest

unary_list : List ℕ → Bytes
unfolding unary
unary_list [] = 2 ∷ []
unary_list (n ∷ ns) = unary n (unary_list ns)

runs : ℕ → Bytes → List ℕ
runs n [] = []
runs n (zero ∷ bs) = n ∷ runs 0 bs
runs n (suc zero ∷ bs) = runs (suc n) bs
runs n (suc (suc b) ∷ bs) = []

runs-unary : (k n : ℕ) (rest : Bytes) → runs k (unary n rest) ≡ (n + k) ∷ runs 0 rest
unfolding runs unary
runs-unary k zero rest = ap (λ m. m ∷ runs 0 rest) (omega arith)
runs-unary k (suc n) rest = runs-unary (suc k) n rest ∙ ap (λ m. m ∷ runs 0 rest) (omega arith)

runs-unary_list : (ns : List ℕ) → runs 0 (unary_list ns) ≡ ns
unfolding unary_list
runs-unary_list [] = unfold runs in refl
runs-unary_list (n ∷ ns) =
    runs-unary 0 n (unary_list ns)
    ∙ ap (λ m. m ∷ runs 0 (unary_list ns)) (omega arith)
    ∙ ap (λ ms. n ∷ ms) (runs-unary_list ns)

small_dumps : Entry Unit → Bytes
unfolding unary_list
small_dumps e = unary_list (e.lsn ∷ e.op)

of_numbers : List ℕ → Loaded Unit
of_numbers [] = bad_json
of_numbers (n ∷ ns) = parsed (record { lsn = n; op = ns; payload = tt })

small_loads : Bytes → Loaded Unit
unfolding runs of_numbers
small_loads bs = of_numbers (runs 0 bs)

small_loads-small_dumps : (e : Entry Unit) → small_loads (small_dumps e) ≡ parsed e
unfolding small_loads small_dumps
small_loads-small_dumps e = ap of_numbers (runs-unary_list (e.lsn ∷ e.op))

unary-AllBytes : (n : ℕ) (rest : Bytes) → AllBytes rest → AllBytes (unary n rest)
unfolding unary
unary-AllBytes zero rest h = (omega arith, h)
unary-AllBytes (suc n) rest h = (omega arith, unary-AllBytes n rest h)

unary_list-AllBytes : (ns : List ℕ) → AllBytes (unary_list ns)
unfolding unary_list
unary_list-AllBytes [] = (omega arith, tt)
unary_list-AllBytes (n ∷ ns) = unary-AllBytes n (unary_list ns) (unary_list-AllBytes ns)

small_dumps-AllBytes : (e : Entry Unit) → AllBytes (small_dumps e)
unfolding small_dumps
small_dumps-AllBytes e = unary_list-AllBytes (e.lsn ∷ e.op)

length-small_dumps : (e : Entry Unit) → 0 < length (small_dumps e)
unfolding small_dumps
length-small_dumps e = from e.lsn
  where
    from : (n : ℕ) → 0 < length (unary_list (n ∷ e.op))
    from zero = omega arith
    from (suc n) = omega arith

abbrev small_json : Codec Unit
small_json = record {
  dumps = small_dumps;
  loads = small_loads;
  loads-dumps = small_loads-small_dumps;
  dumps-AllBytes = small_dumps-AllBytes;
  length-dumps = length-small_dumps;
}

abbrev master : Bytes
master = 3 ∷ 1 ∷ []

abbrev salt : Bytes
salt = 1 ∷ 2 ∷ 3 ∷ 4 ∷ 5 ∷ 6 ∷ 7 ∷ 8 ∷ 9 ∷ 10 ∷ 11 ∷ 12 ∷ 13 ∷ 14 ∷ 15 ∷ 16 ∷ []

abbrev nonce : Bytes
nonce = 0 ∷ 0 ∷ 0 ∷ 0 ∷ 0 ∷ 0 ∷ 0 ∷ 0 ∷ 0 ∷ 0 ∷ 0 ∷ 0 ∷ 0 ∷ 0 ∷ 0 ∷ 7 ∷ []

decrypt_v3-seal_v3_example :
    decrypt_v3 small_crypto
      (master, salt)
      (seal_v3 small_crypto (master, salt) nonce (1 ∷ 255 ∷ []))
    ≡ some (1 ∷ 255 ∷ [])
decrypt_v3-seal_v3_example =
    decrypt_v3-seal_v3 small_crypto (master, salt) nonce (1 ∷ 255 ∷ []) refl (omega arith)

-- One entry outside, one committed and one rolled back.
abbrev calls : List (Op Unit)
calls =
    append_op salt nonce (4 ∷ []) tt
    ∷ begin_op
    ∷ append_op salt nonce (5 ∷ []) tt
    ∷ commit_op
    ∷ begin_op
    ∷ append_op salt nonce (6 ∷ []) tt
    ∷ rollback_op
    ∷ []

calls-FitsOps : FitsOps small_crypto small_json master empty_ledger calls
unfolding ledger_step small_dumps
calls-FitsOps = omega arith

abbrev entry : ℕ → ℕ → Entry Unit
entry n op = record { lsn = n; op = op ∷ []; payload = tt }

run_ledger-calls :
    (run_ledger small_crypto small_json master empty_ledger calls).committed
    ≡ entry 1 4 ∷ entry 2 5 ∷ []
unfolding ledger_step
run_ledger-calls = refl

abbrev fresh : Wal
fresh = (open_wal-none small_crypto small_json master).0

replay-run_wal_example :
    (w : Wal) × (run_wal small_crypto small_json master fresh calls ≡ some w)
    × Holds small_crypto small_json master w
        (run_ledger small_crypto small_json master empty_ledger calls)
    × ((replay small_crypto small_json master w).0
        ≡ records (run_ledger small_crypto small_json master empty_ledger calls).committed)
replay-run_wal_example =
    replay-run_wal small_crypto small_json master fresh empty_ledger calls
      (open_wal-none small_crypto small_json master).2 calls-FitsOps

-- A log with one entry on disk.
abbrev items : List (Sealed small_crypto small_json master)
items = (nonce, entry 1 4) ∷ []

abbrev keys : Bytes × Bytes
keys = keys_of small_crypto small_json master salt

abbrev log : Wal
log = record {
  disk = some (magic_v3 ++ (salt ++ stream_of small_crypto small_json master keys items));
  salt = some salt;
  v3 = true;
  legacy = false;
  lsn = 1;
  active_txn = false;
  txn_buffer = [];
}

items-Fits : All (Fits small_crypto small_json master) items
unfolding small_dumps
items-Fits = omega arith

log-IsLive : IsLive small_crypto small_json master log (entry 1 4 ∷ []) []
log-IsLive = record {
  salt = salt;
  items = items;
  buffered = [];
  v3 = refl;
  installed = refl;
  salt_size = refl;
  on_disk = refl;
  stored = refl;
  fits = items-Fits;
  in_buffer = refl;
  waiting = refl;
  fits_buffer = tt;
}

abbrev ledger : Ledger Unit
ledger = record { committed = entry 1 4 ∷ []; pending = []; active = false; count = 1 }

open_wal-Holds_example :
    (w : Wal) × (n : ℕ) × (open_wal small_crypto small_json master log.disk ≡ some w)
    × IsHighest 0 n (entry 1 4 ∷ [])
    × Holds small_crypto small_json master w
        (record { committed = entry 1 4 ∷ []; pending = []; active = false; count = n })
open_wal-Holds_example = open_wal-Holds small_crypto small_json master log ledger log-IsLive

replay_cut_example :
    (kept lost : List (Entry Unit)) × (ledger.committed ≡ kept ++ lost)
    × ((replay small_crypto small_json master
          (record log { disk = some (take 30 (file_bytes log.disk)) })).0
        ≡ records kept)
replay_cut_example =
    replay_cut small_crypto small_json master log (entry 1 4 ∷ []) [] 30 log-IsLive (omega arith)

replay_total_example : (replay small_crypto small_json master log).0 ≢ out_of_fuel
replay_total_example = replay_total small_crypto small_json master log

-- The header of a record of 4096 bytes, of which a crash left two.
abbrev torn : Bytes
torn = 0 ∷ 0 ∷ 16 ∷ 0 ∷ 77 ∷ 77 ∷ []

abbrev torn_log : Wal
torn_log = record log {
  disk = some (magic_v3 ++ (salt ++ (stream_of small_crypto small_json master keys items ++ torn)));
}

torn_room :
    length torn + length (small_dumps (record { lsn = 2; op = 5 ∷ []; payload = tt })) + 52
    < 4 + unpack_u32 (take 4 torn)
unfolding small_dumps unpack_u32
torn_room = omega arith

append-torn_example :
    (w : Wal) × (wal_step small_crypto small_json master torn_log (append_op salt nonce (5 ∷ []) tt)
      ≡ some w)
    × ((replay small_crypto small_json master w).0
        ≡ records (entries small_crypto small_json master keys items))
append-torn_example =
    append-torn small_crypto small_json master torn_log salt torn salt nonce items (5 ∷ []) tt refl
      items-Fits refl refl refl refl refl refl (omega arith) torn_room
