-- ===== src/InMemDb.antt =====
-- include/database/in_mem_db.h and src/database/in_mem_db.cc: an index of strings that the
-- destructor writes to a file and the constructor loads from it.
pub mod Index
pub mod Load
pub mod Persist
pub mod Ends
use my_codebase.Base.{
  ℕ, zero, suc, ◌+◌, ◌-◌, ◌*◌, ◌/◌, ◌%◌, ◌==◌, ◌&&◌, leb, if◌then◌else◌, List, [], ◌∷◌, ◌++◌,
  length, take, drop, replicate, Option, none, some, ◌>>=◌, Bool, true, false,
}
use my_codebase.Memory.{u32_bytes, of_bytes}
use my_codebase.Stream.{IStream, read, opened}

-- The bytes of a `std::string`.
abbrev pub Bytes : Type 0
Bytes = List ℕ

unfoldable pub bytes_eq : Bytes → Bytes → Bool
bytes_eq [] [] = true
bytes_eq [] (y ∷ ys) = false
bytes_eq (x ∷ xs) [] = false
bytes_eq (x ∷ xs) (y ∷ ys) = x == y && bytes_eq xs ys

-- `unordered_map<string, string>`: the pairs in the order of iteration, which the language leaves
-- open.
abbrev pub Index : Type 0
Index = List (Bytes × Bytes)

unfoldable pub find : Bytes → Index → Option Bytes
find key [] = none
find key (item ∷ items) = if bytes_eq key item.0 then some item.1 else find key items

-- `index_obj_[key] = value`.
unfoldable pub assign : Bytes → Bytes → Index → Index
assign key value [] = (key, value) ∷ []
assign key value (item ∷ items) =
    if bytes_eq key item.0 then (item.0, value) ∷ items else item ∷ assign key value items

pub record InMemoryDatabase : Type 0 where
  pub index_obj : Index

-- `Query`: what it returns, with the value where it is written.
unfoldable pub query : Bytes → InMemoryDatabase → Option Bytes
query key db = find key db.index_obj

unfoldable pub insert : Bytes → Bytes → InMemoryDatabase → Bool × InMemoryDatabase
insert key value db = (true, record db { index_obj = assign key value db.index_obj })

-- `assign(buf, size)`; `none` is a read outside the buffer.
unfoldable pub string_of : Bytes → ℕ → Option Bytes
string_of buf size = if leb size (length buf) then some (take size buf) else none

unfoldable pub insert_buffer :
    Bytes → Bytes → ℕ → InMemoryDatabase → Option (Bool × InMemoryDatabase)
insert_buffer key buf buf_size db = do value ← string_of buf buf_size; some (insert key value db)

unfoldable pub insert_both_buffer :
    Bytes → ℕ → Bytes → ℕ → InMemoryDatabase → Option (Bool × InMemoryDatabase)
insert_both_buffer key key_size buf buf_size db = do
  key' ← string_of key key_size
  value ← string_of buf buf_size
  some (insert key' value db)

unfoldable pub query_buffer : Bytes → ℕ → InMemoryDatabase → Option (Option Bytes)
query_buffer key key_size db = do key' ← string_of key key_size; some (query key' db)

-- One turn of the destructor's loop, and the loop: the bytes of the file.
unfoldable pub save_item : Bytes × Bytes → Bytes
save_item item = u32_bytes (length item.0) ++ (item.0 ++ (u32_bytes (length item.1) ++ item.1))

unfoldable pub save : Index → Bytes
save [] = []
save (item ∷ items) = save_item item ++ save items

-- `read` into memory that holds `old`: a short read changes only the first bytes.
unfoldable pub read_into : Bytes → IStream → Bytes × IStream
read_into old f = let (got, f') = read (length old) f in (got ++ drop (length got) old, f')

-- `resize(n, 0)`.
unfoldable pub resize : ℕ → Bytes → Bytes
resize n s = take n s ++ replicate (n - length s) 0

-- The local variables of the loop of `OpenDB`, and the index.
pub record Loading : Type 0 where
  pub key : Bytes
  pub value : Bytes
  pub index : Index

-- The loop, with `rounds` rounds left; `item_size` is 0 at the start of each.
unfoldable pub load_items : ℕ → Loading → IStream → Option Index
load_items zero st f = none
load_items (suc rounds) st f =
    let size₁ = read_into (u32_bytes 0) f in
    let key = read_into (resize (of_bytes size₁.0) st.key) size₁.1 in
    let size₂ = read_into size₁.0 key.1 in
    let value = read_into (resize (of_bytes size₂.0) st.value) size₂.1 in
    let index = assign key.0 value.0 st.index in
    let st' : Loading = record { key = key.0; value = value.0; index = index } in
    let rest = load_items rounds st' value.1 in
    if of_bytes size₁.0 == 0 then some st.index else if value.1.eof then some index else rest

-- `OpenDB` on an object with the given index: no file and an empty file leave it.
unfoldable pub open_db : ℕ → Index → Option Bytes → Option Index
open_db rounds index none = some index
open_db rounds index (some file) =
    if length file == 0
    then some index
    else (load_items rounds (record { key = []; value = []; index = index }) (opened file))
