-- ===== src/Chunker/FastCdc.antt =====
-- src/dedup/fastcdc_chunker.cc: content-defined chunks by a gear hash with two masks.
mod Gear
pub mod Scan
pub mod Cut
pub mod Sizes
unfoldable pub use Gear.{gear_table}
use my_codebase.Base.{
  ℕ, zero, suc, ◌+◌, ◌-◌, ◌*◌, ◌/◌, ◌^◌, leb, ltb, ◌==◌, ◌||◌, if◌then◌else◌, List, [], Option,
  none, some, u32, ◌>>>◌, ◌>>=◌, min, drop, bit_and, get_elem?, true, false,
}
use my_codebase.Tool.{compare_limit, div_ceil}
use my_codebase.Chunker.{AbsChunker, Outcome, memcpy, advance}

pub record FastCdc : Type 0 where
  pub base : AbsChunker
  pub normal_chunk_size : ℕ
  pub mask_s : ℕ
  pub mask_l : ℕ

unfoldable pub cal_normal_size : ℕ → ℕ → ℕ → ℕ
cal_normal_size min avg max =
    let off = u32 (min + div_ceil min 2) in
    let off' = if ltb avg off then avg else off in
    let diff = avg - off' in if ltb max diff then max else diff

-- `(1 << b) - 1` for `b` from 1 to 31; at 31 the `int` shift gives the same 32 bits.
unfoldable pub generate_fast_cdc_mask : ℕ → ℕ
generate_fast_cdc_mask bits = u32 (2 ^ compare_limit bits 1 31 - 1)

-- The position of the highest bit; a `uint64_t` has at most 64 halvings.
unfoldable pub log2_floor : ℕ → ℕ → ℕ
log2_floor zero n = 0
log2_floor (suc fuel) n = elim (leb 2 n) [ true ↦ suc (log2_floor fuel (n / 2)) | false ↦ 0 ]

-- `round(log2(n))` in exact arithmetic: up from `k` if `n` is at least `2 ^ (k + 1/2)`.
unfoldable pub round_log2 : ℕ → ℕ
round_log2 n = let k = log2_floor 64 n in if ltb (n * n) (2 ^ (2 * k + 1)) then k else k + 1

-- The constructor, on the object that the base class's constructor built.
unfoldable pub new_fast_cdc : AbsChunker → FastCdc
new_fast_cdc base =
    let bits = u32 (round_log2 base.avg_chunk_size) in
    record {
      base = base;
      normal_chunk_size =
          cal_normal_size (u32 base.min_chunk_size) (u32 base.avg_chunk_size)
            (u32 base.max_chunk_size);
      mask_s = generate_fast_cdc_mask (u32 (bits + 1));
      mask_l = generate_fast_cdc_mask (u32 (bits + 2 ^ 32 - 1));
    }

-- How a loop of `CutPoint` ends: by its `return`, or at its bound with the values of `i` and `fp`.
pub data Scanned : Type 0 where
  cut : ℕ → Scanned
  ended : ℕ → ℕ → Scanned

-- `for (; i < n; i++)` with `n - i` rounds left; `none` is a read outside an array.
unfoldable pub scan : List ℕ → ℕ → ℕ → ℕ → ℕ → Option Scanned
scan src mask zero i fp = some (ended i fp)
scan src mask (suc rounds) i fp = do
  byte ← get_elem? src i
  gear ← get_elem? gear_table byte
  let fp' = u32 ((fp >>> 1) + gear)
  let rest = scan src mask rounds (i + 1) fp'
  if bit_and fp' mask == 0 then some (cut (i + 1)) else rest

-- The second loop of `CutPoint`, after the first.
unfoldable pub cut_point_rest : FastCdc → List ℕ → ℕ → Scanned → Option ℕ
cut_point_rest c src len (cut k) = some k
cut_point_rest c src len (ended i fp) = do
  let n = min (u32 c.base.max_chunk_size) len
  second ← scan src c.mask_l (n - i) i fp
  elim second [ cut k ↦ some k | ended i' _ ↦ some i' ]

unfoldable pub cut_point : FastCdc → List ℕ → ℕ → Option ℕ
cut_point c src len = do
  let i = min len (u32 c.base.min_chunk_size)
  let n = min c.normal_chunk_size len
  first ← scan src c.mask_s (n - i) i 0
  cut_point_rest c src len first

-- The size of the next chunk, where bytes are pending.
unfoldable pub chunk_size_of : FastCdc → Option ℕ
chunk_size_of c =
    if leb c.base.remain_chunking_size c.base.min_chunk_size
    then some (u32 c.base.remain_chunking_size)
    else (cut_point c (drop c.base.cur_offset c.base.read_data_buf)
        (u32 (c.base.pending_chunking_size - c.base.cur_offset)))

unfoldable pub generate_one_chunk : FastCdc → Outcome FastCdc
generate_one_chunk c =
    if c.base.pending_chunking_size == 0 || c.base.remain_chunking_size == 0
    then some (0, [], c)
    else do
      chunk_size ← chunk_size_of c
      data' ← memcpy c.base.read_data_buf c.base.cur_offset chunk_size
      some (chunk_size, data', record c { base = advance c.base chunk_size })
