-- ===== src/StoreDb.antt =====
-- src/database/leveldb_db.cc and rocksdb_db.cc: the same database interface over a key-value store
-- on disk, which is a parameter.
pub mod Agree
use my_codebase.Base.{ℕ, List, Option, none, some, Bool, true, false, ◌>>=◌, if◌then◌else◌}
use my_codebase.InMemDb.{Bytes, string_of}

-- `Get`, with the value where the status is ok, and `Put`, with whether the status is ok.
pub record Store : Type 1 where
  pub World : Type 0
  pub get : World → Bytes → Option Bytes
  pub put : World → Bytes → Bytes → Bool × World

-- How `OpenDB` ends.
pub data Opened : Type 0 where
  locked : Opened
  ready : Opened
  aborts : Opened

-- Whether there is a lock file, and whether the status of `DB::Open` is ok.
unfoldable pub leveldb_open : Bool → Bool → Opened
leveldb_open lock_file status_ok = if lock_file then locked else if status_ok then ready else aborts

unfoldable pub rocksdb_open : Bool → Opened
rocksdb_open status_ok = if status_ok then ready else aborts

unfoldable pub leveldb_query : (k : Store) → Bytes → k.World → Option Bytes
leveldb_query k key w = k.get w key

unfoldable pub leveldb_insert : (k : Store) → Bytes → Bytes → k.World → Bool × k.World
leveldb_insert k key value w = k.put w key value

unfoldable pub leveldb_insert_buffer :
    (k : Store) → Bytes → Bytes → ℕ → k.World → Option (Bool × k.World)
leveldb_insert_buffer k key buf buf_size w = do
  value ← string_of buf buf_size
  some (k.put w key value)

unfoldable pub leveldb_insert_both_buffer :
    (k : Store) → Bytes → ℕ → Bytes → ℕ → k.World → Option (Bool × k.World)
leveldb_insert_both_buffer k key key_size buf buf_size w = do
  key' ← string_of key key_size
  value ← string_of buf buf_size
  some (k.put w key' value)

unfoldable pub leveldb_query_buffer : (k : Store) → Bytes → ℕ → k.World → Option (Option Bytes)
leveldb_query_buffer k key key_size w = do key' ← string_of key key_size; some (k.get w key')

unfoldable pub rocksdb_query : (k : Store) → Bytes → k.World → Option Bytes
rocksdb_query k key w = k.get w key

unfoldable pub rocksdb_insert : (k : Store) → Bytes → Bytes → k.World → Bool × k.World
rocksdb_insert k key value w = k.put w key value

unfoldable pub rocksdb_insert_buffer :
    (k : Store) → Bytes → Bytes → ℕ → k.World → Option (Bool × k.World)
rocksdb_insert_buffer k key buf buf_size w = do
  value ← string_of buf buf_size
  some (k.put w key value)

unfoldable pub rocksdb_insert_both_buffer :
    (k : Store) → Bytes → ℕ → Bytes → ℕ → k.World → Option (Bool × k.World)
rocksdb_insert_both_buffer k key key_size buf buf_size w = do
  key' ← string_of key key_size
  value ← string_of buf buf_size
  some (k.put w key' value)

unfoldable pub rocksdb_query_buffer : (k : Store) → Bytes → ℕ → k.World → Option (Option Bytes)
rocksdb_query_buffer k key key_size w = do key' ← string_of key key_size; some (k.get w key')
