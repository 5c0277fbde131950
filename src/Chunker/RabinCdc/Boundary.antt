-- ===== src/Chunker/RabinCdc/Boundary.antt =====
-- What one `GenerateOneChunk` of the Rabin chunker cuts off.
use mathlib.Core.Bool.{true≢false}
use my_codebase.Base.{
  ℕ, ◌≤◌, ◌<◌, ◌≡◌, refl, sym, ap, ◌∙◌, ◌⊎◌, inl, inr, List, [], Option, some, u32, leb, true,
  false, arith, Bool-cases, leb→le, ==-positive, take,
}
use my_codebase.Rabin.{RabinCtx, new_ctx, new_ctx-HasRoom, reset_ctx}
use my_codebase.Rabin.Window.{reset_ctx-new}
use my_codebase.Chunker.{advance}
use my_codebase.Chunker.Loaded.{IsLoaded, IsCut, pending, memcpy-pending}
use my_codebase.Chunker.RabinCdc.{
  RabinChunker, find_chunk, is_end, chunk_size_of, generate_one_chunk,
}
use my_codebase.Chunker.RabinCdc.Search.{ctx_at, ends_at, Finds, find_chunk-Finds}

pub generate_one_chunk_end :
    (c : RabinChunker) → c.base.remain_chunking_size ≡ 0 → generate_one_chunk c ≡ some (0, [], c)
unfolding generate_one_chunk
generate_one_chunk_end c h = ground arith

-- The chunk's size: all that is left if that is at most the least size, else the first end.
pub data IsFirstEnd (c : RabinChunker) (n : ℕ) : Type 0 where
  all_of_it :
      c.base.remain_chunking_size ≤ c.base.min_chunk_size
      → n ≡ c.base.remain_chunking_size
      → IsFirstEnd c n
  first_end :
      c.base.min_chunk_size < c.base.remain_chunking_size
      → ends_at c n ≡ true
      → ((j : ℕ) → 0 < j → j < n → ends_at c j ≡ false)
      → IsFirstEnd c n

le-or-lt : (m n : ℕ) → (m ≤ n) ⊎ (n < m)
le-or-lt m n = ground arith

leb→gt : (m n : ℕ) → leb m n ≡ false → n < m
leb→gt m n h = ground arith

module _ (c : RabinChunker) (v : IsLoaded c.base) (more : 1 ≤ c.base.remain_chunking_size)
    (new : c.rabin_ctx ≡ new_ctx c.rabin_util) (window : 1 ≤ c.rabin_util.window_size) where
  -- An end is at most the largest size away, and at least the least size unless nothing is left.
  max_ends : ends_at c c.base.max_chunk_size ≡ true
  unfolding is_end
  max_ends = ground arith

  end_size :
      (n : ℕ)
      → ends_at c n ≡ true
      → 1 ≤ n
      → n ≤ c.base.remain_chunking_size
      → (c.base.min_chunk_size ≤ n) ⊎ (n ≡ c.base.remain_chunking_size)
  unfolding is_end
  end_size n e h₁ h₂ = ground (arith, e, v.min_avg, v.avg_max, v.inside, v.offsets, v.word)

  record Cutting (r : Option (ℕ × RabinCtx)) : Type 0 where
    size : ℕ
    ctx : RabinCtx
    returns : r ≡ some (size, ctx)
    fresh : ctx ≡ new_ctx c.rabin_util
    cut : IsCut c.base size (take size (pending c.base)) (advance c.base size)
    first : IsFirstEnd c size

  all_left :
      c.base.remain_chunking_size ≤ c.base.min_chunk_size
      → Cutting (some (u32 c.base.remain_chunking_size, c.rabin_ctx))
  all_left few =
      let word : u32 c.base.remain_chunking_size ≡ c.base.remain_chunking_size =
        omega (arith, v.inside, v.offsets, v.word) in
      record {
        size = c.base.remain_chunking_size;
        ctx = c.rabin_ctx;
        returns = ap (λ t. some (t, c.rabin_ctx)) word;
        fresh = new;
        cut = record {
          positive = more;
          within = omega arith;
          upper = omega (arith, few, v.min_avg, v.avg_max);
          lower = inr refl;
          copied = refl;
          moved = refl;
        };
        first = all_of_it few refl;
      }

  not_beyond : (n : ℕ) → ((j : ℕ) → 0 < j → j < n → ends_at c j ≡ false) → n ≤ c.base.max_chunk_size
  not_beyond n passed = elim (le-or-lt n c.base.max_chunk_size) [
    | inl h ↦ h
    | inr h ↦ absurd (
        true≢false (
          sym max_ends
          ∙ passed c.base.max_chunk_size (omega (arith, v.min_pos, v.min_avg, v.avg_max)) h))
  ]

  find_from_start : Finds c 0 (find_chunk c c.base.remain_chunking_size c.rabin_ctx 0)
  unfolding ctx_at
  find_from_start =
      find_chunk-Finds c v (rw new (new_ctx-HasRoom c.rabin_util window))
        c.base.remain_chunking_size 0 (omega arith) more

  searched :
      c.base.min_chunk_size < c.base.remain_chunking_size
      → Cutting (find_chunk c c.base.remain_chunking_size c.rabin_ctx 0)
  searched long =
      let found = find_from_start in
      record {
        size = found.size;
        ctx = reset_ctx c.rabin_util (ctx_at c found.size);
        returns = found.returns;
        fresh = reset_ctx-new c.rabin_util (ctx_at c found.size);
        cut = record {
          positive = found.after;
          within = found.within;
          upper = not_beyond found.size found.passed;
          lower = end_size found.size found.reached found.after found.within;
          copied = refl;
          moved = refl;
        };
        first = first_end long found.reached found.passed;
      }

  cutting : Cutting (chunk_size_of c)
  unfolding chunk_size_of
  cutting = elim (Bool-cases (leb c.base.remain_chunking_size c.base.min_chunk_size)) [
    | inl short ↦ rw short (all_left (leb→le _ _ short))
    | inr long ↦ rw long (searched (leb→gt _ _ long))
  ]

  -- For a loaded buffer with pending bytes, a window of at least one byte, and a fresh context:
  -- the Rabin chunker returns; it cuts off all pending bytes if they are at most the least size,
  -- and else up to the first position that meets the ending condition; the chunk is the front of
  -- the pending bytes, within the size limits or all that is left, and the context is fresh again,
  -- of the same window size.
  pub generate_one_chunk_rabin-IsCut :
      (n : ℕ) × (data' : List ℕ) × (c' : RabinChunker) × (generate_one_chunk c
        ≡ some (n, data', c'))
      × IsCut c.base n data' c'.base
      × IsFirstEnd c n
      × (c'.rabin_ctx ≡ new_ctx c'.rabin_util)
      × (c'.rabin_util.window_size ≡ c.rabin_util.window_size)
  unfolding generate_one_chunk
  generate_one_chunk_rabin-IsCut =
      let k = cutting in
      (
        k.size,
        take k.size (pending c.base),
        record c { base = advance c.base k.size; rabin_ctx = k.ctx },
        rw (
          ==-positive c.base.pending_chunking_size (omega (arith, v.offsets)),
          ==-positive c.base.remain_chunking_size more,
          k.returns,
          memcpy-pending v k.size k.cut.within,
        ),
        k.cut,
        k.first,
        k.fresh,
        refl,
      )
