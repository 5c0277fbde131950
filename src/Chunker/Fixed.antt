-- ===== src/Chunker/Fixed.antt =====
-- src/dedup/fix_chunker.cc: chunks of the average size.
use my_codebase.Base.{
  ℕ, ◌≤◌, ◌≡◌, refl, leb, ◌==◌, ◌||◌, if◌then◌else◌, List, [], some, u32, arith, ◌>>=◌, min, take,
  false,
}
use my_codebase.Chunker.{AbsChunker, Outcome, memcpy, advance}
use my_codebase.Chunker.Loaded.{IsLoaded, IsCut, pending, memcpy-pending}

pub generate_one_chunk : AbsChunker → Outcome AbsChunker
generate_one_chunk c =
    if c.pending_chunking_size == 0 || c.remain_chunking_size == 0 then some (0, [], c) else do
      let n =
          if leb c.avg_chunk_size c.remain_chunking_size
          then c.avg_chunk_size
          else c.remain_chunking_size
      data' ← memcpy c.read_data_buf c.cur_offset n
      some (u32 n, data', advance c (u32 n))

-- At the end of the buffer the chunker answers 0 and changes nothing.
pub generate_one_chunk_end :
    (c : AbsChunker) → c.remain_chunking_size ≡ 0 → generate_one_chunk c ≡ some (0, [], c)
unfolding generate_one_chunk
generate_one_chunk_end c h = ground arith

chosen : (a r : ℕ) → (if leb a r then a else r) ≡ min a r
chosen a r = ground arith

not_end : (n : ℕ) → 1 ≤ n → n == 0 ≡ false
not_end n h = ground arith

module _ (c : AbsChunker) (v : IsLoaded c) (more : 1 ≤ c.remain_chunking_size) where
  abbrev size : ℕ
  size = min c.avg_chunk_size c.remain_chunking_size

  generate_one_chunk_lem : generate_one_chunk c ≡ some (size, take size (pending c), advance c size)
  unfolding generate_one_chunk
  generate_one_chunk_lem =
      let word : u32 size ≡ size = omega (arith, v.max_word, v.avg_max) in
      rw (
        not_end c.pending_chunking_size (omega (arith, v.offsets)),
        not_end c.remain_chunking_size more,
        chosen c.avg_chunk_size c.remain_chunking_size,
        memcpy-pending v size (omega arith),
        word,
      )

  size-IsCut : IsCut c size (take size (pending c)) (advance c size)
  size-IsCut = record {
    positive = omega (arith, v.min_pos, v.min_avg);
    within = omega arith;
    upper = omega (arith, v.avg_max);
    lower = omega (arith, v.min_avg);
    copied = refl;
    moved = refl;
  }

  -- For a loaded buffer with pending bytes the fixed-size chunker cuts off the average size, or
  -- all that is pending if that is less; it reads nothing outside the buffer, and the chunk
  -- respects the size limits.
  pub generate_one_chunk_fixed-IsCut :
      (data' : List ℕ) × (c' : AbsChunker) × (generate_one_chunk c
        ≡ some (min c.avg_chunk_size c.remain_chunking_size, data', c'))
      × IsCut c (min c.avg_chunk_size c.remain_chunking_size) data' c'
  generate_one_chunk_fixed-IsCut =
      (take size (pending c), advance c size, generate_one_chunk_lem, size-IsCut)
