-- ===== src/Tests/Stores.antt =====
-- The database, the queue and the socket at concrete inputs.
use my_codebase.Base.{
  true, false, min, some_inj, ℕ, ◌≡◌, ◌⊎◌, refl, sym, arith, List, [], ◌∷◌, ◌++◌, take, drop,
  length, some, true, false, take-append-drop, length-take, All,
}
use my_codebase.Memory.{u64_bytes, u32_bytes, length-u64_bytes}
use my_codebase.Stream.{opened}
use my_codebase.InMemDb.{
  assign, InMemoryDatabase, insert_both_buffer, Bytes, Index, query, bytes_eq, find, save, open_db,
  load_items, Loading, string_of,
}
use my_codebase.InMemDb.Index.{find-assign}
use my_codebase.StoreDb.{
  Store, leveldb_query, leveldb_insert_both_buffer, rocksdb_query, rocksdb_insert_both_buffer,
}
use my_codebase.StoreDb.Agree.{
  IsStore, leveldb_insert_both_buffer-query, rocksdb_insert_both_buffer-query,
}
use my_codebase.Database.Calls.{
  DbOp, insert_from_buffers, query_key, query_from_buffer, replay_calls, update,
}
use my_codebase.InMemDb.Persist.{IsItem, IsDistinct, open_db-save}
use my_codebase.InMemDb.Ends.{load_items-ends}
use my_codebase.BlockedMq.{
  idle, pushing, popping, waiting_empty, Mq, new_mq, put, Reachable, start, step, call_push,
  set_done,
}
use my_codebase.BlockedMq.Order.{IsOrdered, Reachable-IsOrdered}
use my_codebase.BlockedMq.Wakeup.{IsAwake, Reachable-IsAwake}
use my_codebase.BlockedMq.Stuck.{waiting_empty-until}
use my_codebase.Socket.{Sink, Source, send, recv}
use my_codebase.Socket.Send.{Sends, IsSink, Wrote, send-Sends}
use my_codebase.Socket.Recv.{Gets, IsSource, Arrived, recv-Gets}

abbrev pairs : Index
pairs = (1 ∷ 2 ∷ [], 7 ∷ []) ∷ (1 ∷ [], []) ∷ []

pairs-IsDistinct : IsDistinct pairs
unfolding find bytes_eq
pairs-IsDistinct = (refl, (refl, tt))

pairs-IsItem : All IsItem pairs
pairs-IsItem = (
  record { some_key = omega arith; key_word = omega arith; value_word = omega arith },
  (record { some_key = omega arith; key_word = omega arith; value_word = omega arith }, tt),
)

open_db_example :
    (index : Index) × (open_db 3 [] (some (save pairs)) ≡ some index)
    × ((k : Bytes) → find k index ≡ find k pairs)
open_db_example = open_db-save pairs 3 pairs-IsItem pairs-IsDistinct (omega arith)

abbrev cleared : Loading
cleared = record { key = []; value = []; index = [] }

-- A file that the destructor would not write.
load_items_example : (index : Index) × (load_items 4 cleared (opened (3 ∷ 0 ∷ 0 ∷ [])) ≡ some index)
load_items_example =
    load_items-ends 4 cleared (opened (3 ∷ 0 ∷ 0 ∷ []))
      (record { not_eof = refl; not_failed = refl }) (omega arith)

-- One thread calls `Push`.
abbrev calling : Mq ℕ
calling = record {
  queue = [];
  done = false;
  threads = put 0 (pushing 5) (λ i. idle);
  pushed = [];
  popped = [];
}

calling-Reachable : Reachable 1 calling
unfolding new_mq
calling-Reachable = step start (call_push 0 5 refl)

IsOrdered-example : IsOrdered 1 calling
IsOrdered-example = Reachable-IsOrdered 1 calling-Reachable

IsAwake-example : IsAwake 1 calling
IsAwake-example = Reachable-IsAwake 1 calling-Reachable

-- A thread waits in `Pop`, and `_done` is set.
abbrev waiting : Mq ℕ
waiting = record {
  queue = [];
  done = false;
  threads = λ i. waiting_empty;
  pushed = [];
  popped = [];
}

stuck_example :
    (waiting.threads 0 ≡ waiting_empty)
    ⊎ ((a : ℕ) × (waiting.pushed ≡ waiting.pushed ++ (a ∷ [])))
    ⊎ ((waiting.threads 0 ≡ popping) × (waiting.queue ≡ waiting.queue) × (true ≡ false))
stuck_example = waiting_empty-until 1 {s = waiting} 0 refl set_done

-- A kernel that takes as many bytes as Linux does, and one that delivers as many.
abbrev wire : Sink
wire = record {
  World = List ℕ;
  sent = λ w. w;
  write = λ w bytes.
      (some (min (length bytes) 0x7fff_f000), w ++ take (min (length bytes) 0x7fff_f000) bytes);
  close = λ w. w;
}

wire-IsSink : IsSink wire
wire-IsSink w bytes pos =
    Wrote.takes (min (length bytes) 0x7fff_f000) (w ++ take (min (length bytes) 0x7fff_f000) bytes)
      (omega (arith, pos)) (omega arith) (omega arith) refl

header_taken : (n : ℕ) → some (min (length (u64_bytes 2)) 0x7fff_f000) ≡ some n → n ≡ 8
header_taken n e = omega (arith, some_inj e, length-u64_bytes 2)

send_example : Sends wire [] (u64_bytes 2 ++ (7 ∷ 8 ∷ [])) (send wire 3 (7 ∷ 8 ∷ []) [])
send_example =
    send-Sends wire wire-IsSink (7 ∷ 8 ∷ []) (omega arith) [] 3 (omega arith) header_taken

abbrev queue_of_bytes : Source
queue_of_bytes = record {
  World = List ℕ;
  incoming = λ w. w;
  read = λ w n. (some (take (min n 0x7fff_f000) w), drop (min n 0x7fff_f000) w);
  close = λ w. w;
}

queue_of_bytes-IsSource : IsSource queue_of_bytes
queue_of_bytes-IsSource w n pos =
    let m = min n 0x7fff_f000 in
    Arrived.arrives (take m w) (drop m w) (omega (arith, length-take m w))
      (omega (arith, length-take m w)) (sym (take-append-drop m w))

first_read :
    queue_of_bytes.read (u64_bytes 2 ++ ((7 ∷ 8 ∷ []) ++ (9 ∷ []))) 8
    ≡ (some (u64_bytes 2), 7 ∷ 8 ∷ 9 ∷ [])
unfolding u64_bytes u32_bytes
first_read = refl

recv_example :
    Gets queue_of_bytes
      (7 ∷ 8 ∷ [])
      (9 ∷ [])
      (recv queue_of_bytes 3 0 (u64_bytes 2 ++ ((7 ∷ 8 ∷ []) ++ (9 ∷ []))))
recv_example =
    recv-Gets queue_of_bytes queue_of_bytes-IsSource (7 ∷ 8 ∷ []) (9 ∷ []) 3 0
      (u64_bytes 2 ++ ((7 ∷ 8 ∷ []) ++ (9 ∷ []))) (7 ∷ 8 ∷ 9 ∷ []) (u64_bytes 2) (omega arith)
      (omega arith) (omega arith) refl first_read (length-u64_bytes 2)

-- A store that keeps an index.
abbrev index_store : Store
index_store = record {
  World = Index;
  get = λ w key. find key w;
  put = λ w key value. (true, assign key value w);
}

index_store-IsStore : IsStore index_store
index_store-IsStore w key value q ok = find-assign q key value w

leveldb_example :
    (db' : InMemoryDatabase) × (w' : Index) × (insert_both_buffer
        (1 ∷ 2 ∷ [])
        1
        (9 ∷ [])
        1
        (record { index_obj = pairs })
      ≡ some (true, db'))
    × (leveldb_insert_both_buffer index_store (1 ∷ 2 ∷ []) 1 (9 ∷ []) 1 pairs ≡ some (true, w'))
    × ((q : Bytes) → query q db' ≡ leveldb_query index_store q w')
unfolding query leveldb_query
leveldb_example =
    leveldb_insert_both_buffer-query index_store index_store-IsStore pairs
      (record { index_obj = pairs }) (1 ∷ 2 ∷ []) 1 (9 ∷ []) 1 (omega arith) (omega arith) refl
      (λ q. refl)

rocksdb_example :
    (db' : InMemoryDatabase) × (w' : Index) × (insert_both_buffer
        (1 ∷ 2 ∷ [])
        1
        (9 ∷ [])
        1
        (record { index_obj = pairs })
      ≡ some (true, db'))
    × (rocksdb_insert_both_buffer index_store (1 ∷ 2 ∷ []) 1 (9 ∷ []) 1 pairs ≡ some (true, w'))
    × ((q : Bytes) → query q db' ≡ rocksdb_query index_store q w')
unfolding query rocksdb_query
rocksdb_example =
    rocksdb_insert_both_buffer-query index_store index_store-IsStore pairs
      (record { index_obj = pairs }) (1 ∷ 2 ∷ []) 1 (9 ∷ []) 1 (omega arith) (omega arith) refl
      (λ q. refl)

-- A query from a buffer, an insertion, and a query that finds it.
abbrev few_calls : List DbOp
few_calls =
    query_from_buffer (1 ∷ 2 ∷ []) 2
    ∷ insert_from_buffers (1 ∷ 2 ∷ []) 2 (9 ∷ []) 1
    ∷ query_key (1 ∷ 2 ∷ [])
    ∷ []

answers_of_few_calls :
    replay_calls few_calls (λ q. find q pairs)
    ≡ some (some (7 ∷ []) ∷ some (9 ∷ []) ∷ [], update (λ q. find q pairs) (1 ∷ 2 ∷ []) (9 ∷ []))
unfolding replay_calls find bytes_eq string_of
answers_of_few_calls = refl
