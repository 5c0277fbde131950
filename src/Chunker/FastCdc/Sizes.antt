-- ===== src/Chunker/FastCdc/Sizes.antt =====
-- The sizes and masks that the FastCDC constructor computes.
use my_codebase.Base.{
  ℕ, ◌+◌, ◌-◌, ◌*◌, ◌/◌, ◌%◌, ◌^◌, ◌≤◌, ◌<◌, ◌≡◌, refl, sym, ap, ◌∙◌, ◌==◌, Option, some, List, [],
  u32, arith, leb, min, bit_and, false, ◌↔◌, take, drop, length, inl, inr, ◌⊎◌, Bool-cases, All,
  All-drop, length-drop, leb→le,
}
use native.Mathlib.Nat.{pow-le-pow_right}
use my_codebase.Bits.{bit_and_mask}
use my_codebase.Tool.{compare_limit, div_ceil, compare_limit_bounds}
use my_codebase.Chunker.{AbsChunker, advance}
use my_codebase.Chunker.Loaded.{IsLoaded, IsCut, pending, memcpy-pending}
use my_codebase.Chunker.FastCdc.{
  FastCdc, cal_normal_size, generate_fast_cdc_mask, new_fast_cdc, cut_point, cut_point_rest, scan,
  chunk_size_of, generate_one_chunk,
}
use my_codebase.Chunker.FastCdc.Cut.{IsFast, cut_point-IsCutPoint}

-- The normal size is at most the largest size.
pub cal_normal_size-le : (least avg most : ℕ) → cal_normal_size least avg most ≤ most
unfolding cal_normal_size
cal_normal_size-le least avg most = ground arith

-- For a least size below `2 ^ 31` the normal size is the average size less one and a half times
-- the least size, rounded up, but not below 0 or above the largest size.
pub cal_normal_size_lem :
    (least avg most : ℕ)
    → least < 2 ^ 31
    → cal_normal_size least avg most ≡ min (avg - (least + (least + 1) / 2)) most
unfolding cal_normal_size div_ceil
cal_normal_size_lem least avg most h = ground arith

mask_lem : (bits : ℕ) → 1 ≤ bits → bits ≤ 31 → generate_fast_cdc_mask bits ≡ 2 ^ bits - 1
unfolding generate_fast_cdc_mask
mask_lem bits h₁ h₂ =
    let kept : compare_limit bits 1 31 ≡ bits =
      omega (arith, compare_limit_bounds bits 1 31 (omega arith)) in
    let bound = pow-le-pow_right {n = 2} (omega arith) {i = bits} {j = 31} h₂ in
    ap (λ t. u32 (2 ^ t - 1)) kept ∙ omega (arith, bound)

-- For 1 to 31 bits, a number has no bit of the mask exactly when the power of two divides it.
pub generate_fast_cdc_mask_iff :
    (bits fp : ℕ)
    → 1 ≤ bits
    → bits ≤ 31
    → (bit_and fp (generate_fast_cdc_mask bits) ≡ 0) ↔ (fp % 2 ^ bits ≡ 0)
generate_fast_cdc_mask_iff bits fp h₁ h₂ =
    let same = ap (bit_and fp) (mask_lem bits h₁ h₂) ∙ bit_and_mask bits fp in
    (λ e. sym same ∙ e, λ e. same ∙ e)

no_rounds :
    (src : List ℕ) (mask mask' rounds i fp : ℕ)
    → rounds ≡ 0
    → scan src mask rounds i fp ≡ scan src mask' rounds i fp
unfolding scan
no_rounds src mask mask' rounds i fp e = rw e

-- On an object that the FastCDC constructor makes, where the least size is below `2 ^ 31`, the
-- others below `2 ^ 32`, and the average size is at most twice the least size and half of it,
-- rounded up: `CutPoint` returns the same whatever the small mask is.
pub cut_point-mask_s :
    (base : AbsChunker) (src : List ℕ) (len mask : ℕ)
    → base.min_chunk_size < 2 ^ 31
    → base.avg_chunk_size < 2 ^ 32
    → base.max_chunk_size < 2 ^ 32
    → base.avg_chunk_size ≤ 2 * base.min_chunk_size + (base.min_chunk_size + 1) / 2
    → cut_point (new_fast_cdc base) src len
      ≡ cut_point (record (new_fast_cdc base) { mask_s = mask }) src len
unfolding cut_point new_fast_cdc cut_point_rest
cut_point-mask_s base src len mask h₁ h₂ h₃ small =
    let least = u32 base.min_chunk_size in
    let normal = cal_normal_size least (u32 base.avg_chunk_size) (u32 base.max_chunk_size) in
    let none_left : min normal len - min len least ≡ 0 = omega (
      arith,
      cal_normal_size_lem least (u32 base.avg_chunk_size) (u32 base.max_chunk_size) (omega arith),
    ) in
    rw (
      no_rounds src (new_fast_cdc base).mask_s mask (min normal len - min len least) (min len least)
        0 none_left)

pub new_fast_cdc-IsFast :
    (base : AbsChunker)
    → base.min_chunk_size ≤ base.max_chunk_size
    → base.max_chunk_size < 2 ^ 32
    → IsFast (new_fast_cdc base)
unfolding new_fast_cdc
new_fast_cdc-IsFast base h w = record {
  min_max = h;
  normal_max = omega (
    arith,
    cal_normal_size-le (u32 base.min_chunk_size) (u32 base.avg_chunk_size)
        (u32 base.max_chunk_size),
  );
  max_word = w;
}

pub generate_one_chunk_end :
    (c : FastCdc) → c.base.remain_chunking_size ≡ 0 → generate_one_chunk c ≡ some (0, [], c)
unfolding generate_one_chunk
generate_one_chunk_end c h = ground arith

not_end : (n : ℕ) → 1 ≤ n → n == 0 ≡ false
not_end n h = ground arith

module _ (c : FastCdc) (v : IsLoaded c.base) (w : IsFast c)
    (bytes : All (λ x. x < 256) c.base.read_data_buf) (more : 1 ≤ c.base.remain_chunking_size) where
  -- The bytes from the current offset to the end of the buffer, and how many of them are pending.
  abbrev src : List ℕ
  src = drop c.base.cur_offset c.base.read_data_buf

  record Size (r : Option ℕ) : Type 0 where
    size : ℕ
    returns : r ≡ some size
    within : size ≤ c.base.remain_chunking_size
    positive : 1 ≤ size
    upper : size ≤ c.base.max_chunk_size
    lower : (c.base.min_chunk_size ≤ size) ⊎ (size ≡ c.base.remain_chunking_size)

  all_left :
      c.base.remain_chunking_size ≤ c.base.min_chunk_size
      → Size (some (u32 c.base.remain_chunking_size))
  all_left few = record {
    size = c.base.remain_chunking_size;
    returns = ap some (omega (arith, v.inside, v.offsets, v.word));
    within = omega arith;
    positive = more;
    upper = omega (arith, w.min_max);
    lower = inr refl;
  }

  found :
      leb c.base.remain_chunking_size c.base.min_chunk_size ≡ false
      → Size (cut_point c src (u32 (c.base.pending_chunking_size - c.base.cur_offset)))
  found e =
      let len : u32 (c.base.pending_chunking_size - c.base.cur_offset)
          ≡ c.base.remain_chunking_size =
        omega (arith, v.inside, v.offsets, v.word) in
      let inside : c.base.remain_chunking_size ≤ length src =
        omega (arith, length-drop c.base.cur_offset c.base.read_data_buf, v.inside, v.offsets) in
      let (k, returns, cutting) =
        cut_point-IsCutPoint w src c.base.remain_chunking_size
          (All-drop (λ x. x < 256) c.base.cur_offset c.base.read_data_buf bytes) inside in
      let large : c.base.min_chunk_size < c.base.remain_chunking_size = ground (arith, e) in
      record {
        size = k;
        returns = ap (cut_point c src) len ∙ returns;
        within = omega (arith, cutting.upper);
        positive = omega (arith, cutting.lower, v.min_pos);
        upper = omega (arith, cutting.upper);
        lower = inl (omega (arith, cutting.lower));
      }

  chunk_size_of-Size : Size (chunk_size_of c)
  unfolding chunk_size_of
  chunk_size_of-Size = elim (Bool-cases (leb c.base.remain_chunking_size c.base.min_chunk_size)) [
    | inl short ↦ rw short (all_left (leb→le _ _ short))
    | inr long ↦ rw long (found long)
  ]

  -- For a loaded buffer of bytes with some pending, and sizes in order: FastCDC returns a chunk
  -- that is the front of the pending bytes, within the size limits or all that is left, and moves
  -- the base object on by it.
  pub generate_one_chunk_fast-IsCut :
      (n : ℕ) × (data' : List ℕ) × (c' : AbsChunker) × (generate_one_chunk c
        ≡ some (n, data', record c { base = c' }))
      × IsCut c.base n data' c'
  unfolding generate_one_chunk
  generate_one_chunk_fast-IsCut =
      let k = chunk_size_of-Size in
      (
        k.size,
        take k.size (pending c.base),
        advance c.base k.size,
        rw (
          not_end c.base.pending_chunking_size (omega (arith, v.offsets)),
          not_end c.base.remain_chunking_size more,
          k.returns,
          memcpy-pending v k.size k.within,
        ),
        record {
          positive = k.positive;
          within = k.within;
          upper = k.upper;
          lower = k.lower;
          copied = refl;
          moved = refl;
        },
      )
