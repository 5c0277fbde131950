-- ===== src/Database.antt =====
-- include/database/abs_db.h and include/database/db_factory.h: the interface of the databases, the
-- three that fill it, and the factory.
pub mod Calls
pub mod Factory
use my_codebase.Base.{ℕ, Option, none, some, Bool, true, ◌≡◌, ◌==◌, ◌>>=◌, if◌then◌else◌, refl}
use my_codebase.Configure.{Reading, done, exits, faults}
use my_codebase.InMemDb.{
  Bytes, Index, bytes_eq, string_of, InMemoryDatabase, query, insert, insert_buffer,
  insert_both_buffer, query_buffer,
}
use my_codebase.InMemDb.Index.{query-insert}
use my_codebase.StoreDb.{
  Store, Opened, locked, ready, aborts, leveldb_query, leveldb_insert, leveldb_insert_buffer,
  leveldb_insert_both_buffer, leveldb_query_buffer, rocksdb_query, rocksdb_insert,
  rocksdb_insert_buffer, rocksdb_insert_both_buffer, rocksdb_query_buffer,
}
use my_codebase.StoreDb.Agree.{IsStore}

-- The virtual methods, with the size of each buffer behind it; `none` is a read outside a buffer.
pub record AbsDatabase : Type 1 where
  pub World : Type 0
  pub do_query : Bytes → World → Option Bytes
  pub do_insert : Bytes → Bytes → World → Bool × World
  pub do_insert_buffer : Bytes → Bytes → ℕ → World → Option (Bool × World)
  pub do_insert_both_buffer : Bytes → ℕ → Bytes → ℕ → World → Option (Bool × World)
  pub do_query_buffer : Bytes → ℕ → World → Option (Option Bytes)

abbrev pub in_memory_database : AbsDatabase
in_memory_database = record {
  World = InMemoryDatabase;
  do_query = query;
  do_insert = insert;
  do_insert_buffer = insert_buffer;
  do_insert_both_buffer = insert_both_buffer;
  do_query_buffer = query_buffer;
}

abbrev pub leveldb_database : Store → AbsDatabase
leveldb_database k = record {
  World = k.World;
  do_query = leveldb_query k;
  do_insert = leveldb_insert k;
  do_insert_buffer = leveldb_insert_buffer k;
  do_insert_both_buffer = leveldb_insert_both_buffer k;
  do_query_buffer = leveldb_query_buffer k;
}

abbrev pub rocksdb_database : Store → AbsDatabase
rocksdb_database k = record {
  World = k.World;
  do_query = rocksdb_query k;
  do_insert = rocksdb_insert k;
  do_insert_buffer = rocksdb_insert_buffer k;
  do_insert_both_buffer = rocksdb_insert_both_buffer k;
  do_query_buffer = rocksdb_query_buffer k;
}

-- What callers rely on: a pair that was inserted is found, the others are as before, and the
-- methods on buffers are those on the strings in them.
pub record IsDatabase (db : AbsDatabase) : Type 0 where
  pub query_insert :
      (key value q : Bytes) (w : db.World)
      → (db.do_insert key value w).0 ≡ true
      → db.do_query q (db.do_insert key value w).1
        ≡ (if bytes_eq q key then some value else db.do_query q w)
  pub buffer_insert :
      (key buf : Bytes) (n : ℕ) (w : db.World)
      → db.do_insert_buffer key buf n w
        ≡ (string_of buf n >>= λ value. some (db.do_insert key value w))
  pub both_buffer_insert :
      (key : Bytes) (key_size : ℕ) (buf : Bytes) (n : ℕ) (w : db.World)
      → db.do_insert_both_buffer key key_size buf n w ≡ (
          string_of key key_size >>= λ key'.
          string_of buf n >>= λ value. some (db.do_insert key' value w))
  pub buffer_query :
      (key : Bytes) (key_size : ℕ) (w : db.World)
      → db.do_query_buffer key key_size w
        ≡ (string_of key key_size >>= λ key'. some (db.do_query key' w))

pub in_memory-IsDatabase : IsDatabase in_memory_database
unfolding insert_buffer insert_both_buffer query_buffer
in_memory-IsDatabase = record {
  query_insert = λ key value q w ok. query-insert q key value w;
  buffer_insert = λ key buf n w. refl;
  both_buffer_insert = λ key key_size buf n w. refl;
  buffer_query = λ key key_size w. refl;
}

module _ (k : Store) (law : IsStore k) where
  pub leveldb-IsDatabase : IsDatabase (leveldb_database k)
  unfolding leveldb_query leveldb_insert leveldb_insert_buffer leveldb_insert_both_buffer
      leveldb_query_buffer
  leveldb-IsDatabase = record {
    query_insert = λ key value q w ok. law w key value q ok;
    buffer_insert = λ key buf n w. refl;
    both_buffer_insert = λ key key_size buf n w. refl;
    buffer_query = λ key key_size w. refl;
  }

  pub rocksdb-IsDatabase : IsDatabase (rocksdb_database k)
  unfolding rocksdb_query rocksdb_insert rocksdb_insert_buffer rocksdb_insert_both_buffer
      rocksdb_query_buffer
  rocksdb-IsDatabase = record {
    query_insert = λ key value q w ok. law w key value q ok;
    buffer_insert = λ key buf n w. refl;
    both_buffer_insert = λ key key_size buf n w. refl;
    buffer_query = λ key key_size w. refl;
  }

-- An `AbsDatabase*`.
pub record AnyDatabase : Type 1 where
  pub kind : AbsDatabase
  pub state : kind.World

-- `LeveldbDatabase(path)` ignores what `OpenDB` returns: behind a lock the pointer to the store
-- stays uninitialised, so its first use faults; a bad status ends in an assertion.
unfoldable pub leveldb_object : (k : Store) → Opened → k.World → Reading AnyDatabase
leveldb_object k ready w = done (record { kind = leveldb_database k; state = w })
leveldb_object k locked w = faults
leveldb_object k aborts w = exits

abbrev pub in_memory_db : ℕ
in_memory_db = 0

abbrev pub leveldb_db : ℕ
leveldb_db = 1

abbrev pub rocksdb_db : ℕ
rocksdb_db = 2

-- `CreateDatabase(type, path)`: `index` is what `InMemoryDatabase::OpenDB` loads from the path, and
-- `opened` and `w` how `LeveldbDatabase::OpenDB` ends and the store that it opens.
unfoldable pub create_database : (k : Store) → Opened → k.World → Index → ℕ → Reading AnyDatabase
create_database k opened w index type =
    if type == leveldb_db
    then leveldb_object k opened w
    else if type == in_memory_db
    then done (record { kind = in_memory_database; state = record { index_obj = index } })
    else exits
