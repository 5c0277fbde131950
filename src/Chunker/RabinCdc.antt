-- ===== src/Chunker/RabinCdc.antt =====
-- src/dedup/rabin_chunker.cc: content-defined chunks by the Rabin fingerprint of a window.
pub mod Search
pub mod Boundary
use my_codebase.Base.{
  ℕ, zero, suc, ◌+◌, ◌-◌, ◌/◌, ◌^◌, leb, ◌==◌, ◌&&◌, ◌||◌, if◌then◌else◌, List, [], Option, none,
  some, u32, sub64, ◌>>=◌, bit_and, get_elem?, true, false, Bool,
}
use my_codebase.Rabin.{RabinFpUtil, RabinCtx, new_rabin_fp_util, new_ctx, reset_ctx, slide_one_byte}
use my_codebase.Chunker.{AbsChunker, Outcome, memcpy, advance}

pub record RabinChunker : Type 0 where
  pub base : AbsChunker
  pub rabin_util : RabinFpUtil
  pub rabin_ctx : RabinCtx
  pub mask : ℕ

-- `while (tmp / 2)`; a `uint64_t` has at most 64 halvings.
unfoldable pub count_halvings : ℕ → ℕ → ℕ
count_halvings zero tmp = 0
count_halvings (suc fuel) tmp = elim (tmp / 2 == 0) [
  | true ↦ 0
  | false ↦ suc (count_halvings fuel (tmp / 2))
]

unfoldable pub get_bit_num : ℕ → ℕ
get_bit_num input_num = count_halvings 64 input_num

-- `(1 << bits) - 1` on an `int`: from 31 bits on it overflows.
unfoldable pub mask_of : ℕ → Option ℕ
mask_of bits = if leb bits 30 then some (2 ^ bits - 1) else none

-- The constructor, on the object that the base class's constructor built; `none` is a loop without
-- end in the constructor of the fingerprint, or the overflow.
unfoldable pub new_rabin_chunker : AbsChunker → ℕ → Option RabinChunker
new_rabin_chunker base sliding_win_size = do
  util ← new_rabin_fp_util sliding_win_size
  mask ← mask_of (get_bit_num base.avg_chunk_size)
  some (record { base = base; rabin_util = util; rabin_ctx = new_ctx util; mask = mask })

-- The condition that ends the loop, after the fingerprint `cur_fp` of `chunk_size` bytes.
unfoldable pub is_end : RabinChunker → ℕ → ℕ → Bool
is_end c cur_fp chunk_size =
    (leb c.base.min_chunk_size chunk_size && bit_and cur_fp c.mask == 0)
    || chunk_size == c.base.max_chunk_size
    || sub64 c.base.remain_chunking_size chunk_size == 0

-- `while (true)`, with `rounds` rounds left; `none` is a read outside
-- the buffer or the window, or no rounds.
unfoldable pub find_chunk : RabinChunker → ℕ → RabinCtx → ℕ → Option (ℕ × RabinCtx)
find_chunk c zero ctx chunk_size = none
find_chunk c (suc rounds) ctx chunk_size = do
  input_byte ← get_elem? c.base.read_data_buf (c.base.cur_offset + chunk_size)
  ctx' ← slide_one_byte c.rabin_util ctx input_byte
  let chunk_size' = u32 (chunk_size + 1)
  let rest = find_chunk c rounds ctx' chunk_size'
  if is_end c ctx'.fp chunk_size' then some (chunk_size', reset_ctx c.rabin_util ctx') else rest

-- The two branches of `GenerateOneChunk`: the size and the context after it. The loop ends within
-- the bytes that remain.
unfoldable pub chunk_size_of : RabinChunker → Option (ℕ × RabinCtx)
chunk_size_of c =
    if leb c.base.remain_chunking_size c.base.min_chunk_size
    then some (u32 c.base.remain_chunking_size, c.rabin_ctx)
    else find_chunk c c.base.remain_chunking_size c.rabin_ctx 0

unfoldable pub generate_one_chunk : RabinChunker → Outcome RabinChunker
generate_one_chunk c =
    if c.base.pending_chunking_size == 0 || c.base.remain_chunking_size == 0
    then some (0, [], c)
    else do
      found ← chunk_size_of c
      data' ← memcpy c.base.read_data_buf c.base.cur_offset found.0
      some (found.0, data', record c { base = advance c.base found.0; rabin_ctx = found.1 })
