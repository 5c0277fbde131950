-- ===== src/StoreDb/Agree.antt =====
-- The stores on disk and the in-memory database answer alike.
use my_codebase.Base.{
  ℕ, ◌≤◌, ◌≡◌, sym, ap, ◌∙◌, length, take, leb, if◌then◌else◌, some, Bool, true, arith,
}
use my_codebase.InMemDb.{
  Bytes, bytes_eq, string_of, InMemoryDatabase, query, insert, insert_both_buffer,
}
use my_codebase.InMemDb.Index.{query-insert}
use my_codebase.StoreDb.{
  Store, leveldb_query, leveldb_insert_both_buffer, rocksdb_query, rocksdb_insert_both_buffer,
}

-- What a store promises: after a `Put` with an ok status a `Get` finds the value, and what it found
-- before at the other keys.
abbrev pub IsStore : Store → Type 0
IsStore k =
    (w : k.World) (key value q : Bytes)
    → (k.put w key value).0 ≡ true
    → k.get (k.put w key value).1 q ≡ (if bytes_eq q key then some value else k.get w q)

whole_string : (buf : Bytes) (n : ℕ) → n ≤ length buf → string_of buf n ≡ some (take n buf)
unfolding string_of
whole_string buf n h = let inside : leb n (length buf) ≡ true = ground (arith, h) in rw inside

pair_true {ℓ} : {A : Type ℓ} (p : Bool × A) → p.0 ≡ true → some p ≡ some (true, p.1)
pair_true p e = ap (λ t. some (t, p.1)) e

module _ (k : Store) (law : IsStore k) (w : k.World) (db : InMemoryDatabase) (key : Bytes)
    (key_size : ℕ) (buf : Bytes) (buf_size : ℕ) (key_inside : key_size ≤ length key)
    (buf_inside : buf_size ≤ length buf)
    (ok : (k.put w (take key_size key) (take buf_size buf)).0 ≡ true) where
  abbrev new_world : k.World
  new_world = (k.put w (take key_size key) (take buf_size buf)).1

  in_memory :
      insert_both_buffer key key_size buf buf_size db
      ≡ some (true, (insert (take key_size key) (take buf_size buf) db).1)
  unfolding insert_both_buffer insert
  in_memory = rw (whole_string key key_size key_inside, whole_string buf buf_size buf_inside)

  agree :
      ((q : Bytes) → query q db ≡ k.get w q)
      → (q : Bytes)
      → query q (insert (take key_size key) (take buf_size buf) db).1 ≡ k.get new_world q
  agree same q =
      query-insert q (take key_size key) (take buf_size buf) db
      ∙ ap (λ t. if bytes_eq q (take key_size key) then some (take buf_size buf) else t) (same q)
      ∙ sym (law w (take key_size key) (take buf_size buf) q ok)

  -- For a store that finds after a successful write the new value at its key and the old ones
  -- elsewhere, buffers that hold the sizes given, and a write that succeeds: if the in-memory
  -- database and the LevelDB one answer all queries alike, then both insert the pair and answer
  -- all queries alike afterwards.
  pub leveldb_insert_both_buffer-query :
      ((q : Bytes) → query q db ≡ leveldb_query k q w)
      → (db' : InMemoryDatabase) × (w' : k.World) × (insert_both_buffer key key_size buf buf_size db
          ≡ some (true, db'))
        × (leveldb_insert_both_buffer k key key_size buf buf_size w ≡ some (true, w'))
        × ((q : Bytes) → query q db' ≡ leveldb_query k q w')
  unfolding leveldb_query leveldb_insert_both_buffer
  leveldb_insert_both_buffer-query same = (
    (insert (take key_size key) (take buf_size buf) db).1,
    new_world,
    in_memory,
    rw (whole_string key key_size key_inside, whole_string buf buf_size buf_inside)
        (pair_true (k.put w (take key_size key) (take buf_size buf)) ok),
    agree same,
  )

  -- For a store that finds after a successful write the new value at its key and the old ones
  -- elsewhere, buffers that hold the sizes given, and a write that succeeds: if the in-memory
  -- database and the RocksDB one answer all queries alike, then both insert the pair and answer
  -- all queries alike afterwards.
  pub rocksdb_insert_both_buffer-query :
      ((q : Bytes) → query q db ≡ rocksdb_query k q w)
      → (db' : InMemoryDatabase) × (w' : k.World) × (insert_both_buffer key key_size buf buf_size db
          ≡ some (true, db'))
        × (rocksdb_insert_both_buffer k key key_size buf buf_size w ≡ some (true, w'))
        × ((q : Bytes) → query q db' ≡ rocksdb_query k q w')
  unfolding rocksdb_query rocksdb_insert_both_buffer
  rocksdb_insert_both_buffer-query same = (
    (insert (take key_size key) (take buf_size buf) db).1,
    new_world,
    in_memory,
    rw (whole_string key key_size key_inside, whole_string buf buf_size buf_inside)
        (pair_true (k.put w (take key_size key) (take buf_size buf)) ok),
    agree same,
  )
