-- ===== src/Chunker/RabinCdc/Search.antt =====
-- The loop of `GenerateOneChunk` stops at the first end.
use mathlib.Core.Bool.{true≢false}
use my_codebase.Base.{
  ℕ, zero, suc, ◌+◌, ◌≤◌, ◌<◌, ◌≡◌, sym, ap, ◌∙◌, ◌⊎◌, inl, inr, Bool, Option, some, u32, true,
  false, arith, Bool-cases, if◌then◌else◌, if_true, if_false, get_or, get_elem?-eq-get_or,
}
use my_codebase.Rabin.{
  RabinCtx, slide_one_byte, slid_context, slide_one_byte-slid_context, slid-HasRoom, HasRoom,
  next_pos-inside, reset_ctx,
}
use my_codebase.Chunker.Loaded.{IsLoaded}
use my_codebase.Chunker.RabinCdc.{RabinChunker, find_chunk, is_end}

-- The context after the first `n` pending bytes.
unfoldable pub ctx_at : RabinChunker → ℕ → RabinCtx
ctx_at c zero = c.rabin_ctx
ctx_at c (suc n) =
    slid_context c.rabin_util (ctx_at c n) (get_or c.base.read_data_buf (c.base.cur_offset + n) 0)

abbrev pub ends_at : RabinChunker → ℕ → Bool
ends_at c n = is_end c (ctx_at c n).fp n

pub record Finds (c : RabinChunker) (m : ℕ) (r : Option (ℕ × RabinCtx)) : Type 0 where
  pub size : ℕ
  pub returns : r ≡ some (size, reset_ctx c.rabin_util (ctx_at c size))
  pub after : m < size
  pub within : size ≤ c.base.remain_chunking_size
  pub reached : ends_at c size ≡ true
  pub passed : (j : ℕ) → m < j → j < size → ends_at c j ≡ false

module _ (c : RabinChunker) (v : IsLoaded c.base) (room : HasRoom c.rabin_util c.rabin_ctx) where
  ctx_at-HasRoom : (n : ℕ) → HasRoom c.rabin_util (ctx_at c n)
  unfolding ctx_at
  ctx_at-HasRoom zero = room
  ctx_at-HasRoom (suc n) = slid-HasRoom c.rabin_util (ctx_at c n) _ _ _ (ctx_at-HasRoom n)

  slides :
      (n b : ℕ)
      → slide_one_byte c.rabin_util (ctx_at c n) b ≡ some (slid_context c.rabin_util (ctx_at c n) b)
  slides n b =
      slide_one_byte-slid_context c.rabin_util (ctx_at c n) b
        (next_pos-inside c.rabin_util (ctx_at c n) (ctx_at-HasRoom n))

  first_or_later : (m j : ℕ) → m < j → (j ≡ suc m) ⊎ (suc m < j)
  first_or_later m j h = ground arith

  find_step :
      (rounds m : ℕ)
      → m < c.base.remain_chunking_size
      → find_chunk c (suc rounds) (ctx_at c m) m ≡ (
          if ends_at c (suc m)
          then some (suc m, reset_ctx c.rabin_util (ctx_at c (suc m)))
          else find_chunk c rounds (ctx_at c (suc m)) (suc m))
  unfolding find_chunk ctx_at
  find_step rounds m h =
      let next : u32 (m + 1) ≡ suc m = omega (arith, v.offsets, v.inside, v.word) in
      rw (
        get_elem?-eq-get_or c.base.read_data_buf (c.base.cur_offset + m) 0
            (omega (arith, v.offsets, v.inside)),
        slides m (get_or c.base.read_data_buf (c.base.cur_offset + m) 0),
        next,
      )

  last_ends : ends_at c c.base.remain_chunking_size ≡ true
  unfolding is_end
  last_ends = ground arith

  -- A loop that goes on has bytes left.
  goes_on :
      (rounds m : ℕ)
      → m + suc rounds ≡ c.base.remain_chunking_size
      → ends_at c (suc m) ≡ false
      → 1 ≤ rounds
  goes_on zero m e h =
      let last : c.base.remain_chunking_size ≡ suc m = omega (arith, e) in
      absurd (true≢false (sym last_ends ∙ ap (ends_at c) last ∙ h))
  goes_on (suc rounds) m e h = omega arith

  pub find_chunk-Finds :
      (rounds m : ℕ)
      → m + rounds ≡ c.base.remain_chunking_size
      → 1 ≤ rounds
      → Finds c m (find_chunk c rounds (ctx_at c m) m)
  find_chunk-Finds zero m e pos = absurd (omega arith)
  find_chunk-Finds (suc rounds) m e pos =
      let step = find_step rounds m (omega (arith, e)) in
      elim (Bool-cases (ends_at c (suc m))) [
        | inl stop ↦ record {
          size = suc m;
          returns = step ∙ if_true (ends_at c (suc m)) _ _ stop;
          after = omega arith;
          within = omega (arith, e);
          reached = stop;
          passed = λ j p q. absurd (omega arith);
        }
        | inr more ↦
            let later =
              find_chunk-Finds rounds (suc m) (omega (arith, e)) (goes_on rounds m e more) in
            record {
              size = later.size;
              returns = step ∙ if_false (ends_at c (suc m)) _ _ more ∙ later.returns;
              after = omega (arith, later.after);
              within = later.within;
              reached = later.reached;
              passed = λ j p q. elim (first_or_later m j p) [
                | inl same ↦ rw (same, more)
                | inr rest ↦ later.passed j rest q
              ];
            }
      ]
