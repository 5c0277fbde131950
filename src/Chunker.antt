-- ===== src/Chunker.antt =====
-- include/dedup/abs_chunker.h and src/dedup/abs_chunker.cc: the state that the three chunkers share,
-- the load of the buffer, which all three write out in the same words, and the bookkeeping with
-- which each `GenerateOneChunk` ends.
pub mod Loaded
pub mod Fixed
pub mod FastCdc
pub mod RabinCdc
pub mod Interface
pub mod Instances
pub mod Driver
pub mod Factory
use my_codebase.Base.{
  ℕ, ◌+◌, ◌*◌, ◌^◌, ◌%◌, ◌≤◌, leb, if◌then◌else◌, List, ◌++◌, take, drop, length, Option, none,
  some, u32, u64, sub64,
}
use my_codebase.Configure.{Configure}
use my_codebase.Stream.{IStream, read}

-- The buffer is `read_size` bytes that the object owns.
pub record AbsChunker : Type 0 where
  pub min_chunk_size : ℕ
  pub avg_chunk_size : ℕ
  pub max_chunk_size : ℕ
  pub read_size : ℕ
  pub read_data_buf : List ℕ
  pub pending_chunking_size : ℕ
  pub remain_chunking_size : ℕ
  pub cur_offset : ℕ
  pub total_chunk_num : ℕ
  pub total_file_size : ℕ

-- The constructor. `memory` is what `malloc` hands out: its bytes are not initialised.
unfoldable pub new_abs_chunker : Configure → (ℕ → List ℕ) → AbsChunker
new_abs_chunker config memory =
    let size = u64 (config.read_size * 2 ^ 20) in
    record {
      min_chunk_size = config.min_chunk_size;
      avg_chunk_size = config.avg_chunk_size;
      max_chunk_size = config.max_chunk_size;
      read_size = size;
      read_data_buf = memory size;
      pending_chunking_size = 0;
      remain_chunking_size = 0;
      cur_offset = 0;
      total_chunk_num = 0;
      total_file_size = 0;
    }

-- `LoadDataFromFile`: the returned size, the object and the stream after it.
unfoldable pub load_data_from_file : AbsChunker → IStream → ℕ × AbsChunker × IStream
load_data_from_file c input_file =
    let (bytes, after) = read c.read_size input_file in
    let pending = length bytes in
    (
      u32 pending,
      record c {
        read_data_buf = bytes ++ drop pending c.read_data_buf;
        pending_chunking_size = pending;
        cur_offset = 0;
        remain_chunking_size = pending;
      },
      after,
    )

-- `memcpy(data, buf + offset, n)`: the bytes that arrive in `data`, or `none` for a read outside
-- the buffer.
unfoldable pub memcpy : List ℕ → ℕ → ℕ → Option (List ℕ)
memcpy buf offset n =
    if leb (offset + n) (length buf) then some (take n (drop offset buf)) else none

-- The last lines of each `GenerateOneChunk`.
unfoldable pub advance : AbsChunker → ℕ → AbsChunker
advance c chunk_size = record c {
  cur_offset = u64 (c.cur_offset + chunk_size);
  remain_chunking_size = sub64 c.remain_chunking_size chunk_size;
  total_chunk_num = u64 (c.total_chunk_num + 1);
  total_file_size = u64 (c.total_file_size + chunk_size);
}

-- What `GenerateOneChunk` returns: the chunk's size, the bytes written to `data`, the object.
abbrev pub Outcome : Type 0 → Type 0
Outcome S = Option (ℕ × List ℕ × S)
