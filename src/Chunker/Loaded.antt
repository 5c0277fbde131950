-- ===== src/Chunker/Loaded.antt =====
-- The invariant of a loaded buffer, and what one cut of it is.
use my_codebase.Base.{
  ℕ, ◌+◌, ◌-◌, ◌^◌, ◌≤◌, ◌<◌, ◌≡◌, ◌⊎◌, sym, ap, ◌∙◌, List, ◌++◌, take, drop, length, some, u64,
  arith, sub64, take-take, drop-take, drop-drop, length-take, length-drop, length-append,
  take-append_length,
}
use my_codebase.Stream.{IStream, read}
use my_codebase.Chunker.{AbsChunker, advance, memcpy, load_data_from_file}

-- The sizes are those of a sensible configuration, the window of pending bytes lies in the buffer,
-- and no counter wraps before the window is used up.
pub record IsLoaded (c : AbsChunker) : Type 0 where
  pub offsets : c.cur_offset + c.remain_chunking_size ≡ c.pending_chunking_size
  pub inside : c.pending_chunking_size ≤ length c.read_data_buf
  pub word : length c.read_data_buf < 2 ^ 32
  pub min_pos : 1 ≤ c.min_chunk_size
  pub min_avg : c.min_chunk_size ≤ c.avg_chunk_size
  pub avg_max : c.avg_chunk_size ≤ c.max_chunk_size
  pub max_word : c.max_chunk_size < 2 ^ 32
  pub bytes_counted : c.total_file_size + c.remain_chunking_size < 2 ^ 64
  pub chunks_counted : c.total_chunk_num + c.remain_chunking_size < 2 ^ 64

-- The bytes that no chunk holds yet.
abbrev pub pending : AbsChunker → List ℕ
pending c = take c.remain_chunking_size (drop c.cur_offset c.read_data_buf)

-- One cut: `n` bytes from the front of what is pending, within the size limits unless they are all
-- that is left, with the counters moved on.
pub record IsCut (c : AbsChunker) (n : ℕ) (bytes : List ℕ) (c' : AbsChunker) : Type 0 where
  pub positive : 1 ≤ n
  pub within : n ≤ c.remain_chunking_size
  pub upper : n ≤ c.max_chunk_size
  pub lower : (c.min_chunk_size ≤ n) ⊎ (n ≡ c.remain_chunking_size)
  pub copied : bytes ≡ take n (pending c)
  pub moved : c' ≡ advance c n

module _ {c : AbsChunker} (v : IsLoaded c) (n : ℕ) (h : n ≤ c.remain_chunking_size) where
  -- The copy stays inside the buffer and takes the first pending bytes.
  pub memcpy-pending : memcpy c.read_data_buf c.cur_offset n ≡ some (take n (pending c))
  unfolding memcpy
  memcpy-pending =
      ground (arith, take-take n c.remain_chunking_size (drop c.cur_offset c.read_data_buf) h)

  -- No counter wraps.
  pub advance_fields :
      ((advance c n).cur_offset ≡ c.cur_offset + n)
      × ((advance c n).remain_chunking_size ≡ c.remain_chunking_size - n)
      × ((advance c n).total_file_size ≡ c.total_file_size + n)
  unfolding advance
  advance_fields = omega arith

  pub advance-pending : pending (advance c n) ≡ drop n (pending c)
  unfolding advance
  advance-pending =
      let k = c.remain_chunking_size - n in
      let src = drop c.cur_offset c.read_data_buf in
      let offset : u64 (c.cur_offset + n) ≡ c.cur_offset + n = omega arith in
      let left : sub64 c.remain_chunking_size n ≡ k = omega arith in
      let whole : n + k ≡ c.remain_chunking_size = omega arith in
      ap (λ t. take t (drop (u64 (c.cur_offset + n)) c.read_data_buf)) left
      ∙ ap (λ t. take k (drop t c.read_data_buf)) offset
      ∙ ap (take k) (sym (drop-drop n c.cur_offset c.read_data_buf))
      ∙ sym (drop-take n k src)
      ∙ ap (λ t. drop n (take t src)) whole

  pub advance-IsLoaded : 1 ≤ n → IsLoaded (advance c n)
  unfolding advance
  advance-IsLoaded pos = omega arith

-- The sizes of a configuration, which a load leaves alone.
pub record IsSized (c : AbsChunker) : Type 0 where
  pub buffer : length c.read_data_buf ≡ c.read_size
  pub word : c.read_size < 2 ^ 32
  pub min_pos : 1 ≤ c.min_chunk_size
  pub min_avg : c.min_chunk_size ≤ c.avg_chunk_size
  pub avg_max : c.avg_chunk_size ≤ c.max_chunk_size
  pub max_word : c.max_chunk_size < 2 ^ 32

pub read-le : (n : ℕ) (f : IStream) → length (read n f).0 ≤ n
unfolding read
read-le n f = ground (arith, length-take n f.rest)

module _ {c : AbsChunker} (v : IsSized c) (f : IStream) where
  bytes : List ℕ
  bytes = (read c.read_size f).0

  load_length : length (bytes ++ drop (length bytes) c.read_data_buf) ≡ c.read_size
  unfolding bytes
  load_length = omega (
    arith,
    length-append bytes (drop (length bytes) c.read_data_buf),
    length-drop (length bytes) c.read_data_buf,
    read-le c.read_size f,
    v.buffer,
  )

  pub load-IsSized : IsSized (load_data_from_file c f).1
  unfolding load_data_from_file
  load-IsSized = record {
    buffer = unfold bytes in load_length;
    word = v.word;
    min_pos = v.min_pos;
    min_avg = v.min_avg;
    avg_max = v.avg_max;
    max_word = v.max_word;
  }

  -- What is pending after a load is what was read, and its length is what the load returns.
  pub load-pending :
      (pending (load_data_from_file c f).1 ≡ (read c.read_size f).0)
      × ((load_data_from_file c f).0 ≡ length (read c.read_size f).0)
  unfolding load_data_from_file
  load-pending = (
    take-append_length (read c.read_size f).0
        (drop (length (read c.read_size f).0) c.read_data_buf),
    omega (arith, read-le c.read_size f, v.word),
  )

  -- For sizes in order and a buffer of the configured size, where the counters plus what is read
  -- stay below `2 ^ 64`: after a load the pending bytes lie in the buffer, and neither an offset
  -- nor a counter can wrap before they are used up.
  pub load-IsLoaded :
      c.total_file_size + length (read c.read_size f).0 < 2 ^ 64
      → c.total_chunk_num + length (read c.read_size f).0 < 2 ^ 64
      → IsLoaded (load_data_from_file c f).1
  unfolding load_data_from_file bytes
  load-IsLoaded hb hc = record {
    offsets = omega arith;
    inside = omega (arith, load_length, read-le c.read_size f);
    word = omega (arith, load_length, v.word);
    min_pos = v.min_pos;
    min_avg = v.min_avg;
    avg_max = v.avg_max;
    max_word = v.max_word;
    bytes_counted = hb;
    chunks_counted = hc;
  }
