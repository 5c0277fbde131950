-- ===== src/Finesse/Returns.antt =====
-- With the numbers of src/app/chunking_test.cc the features of every chunk are found.
use mathlib.Core.Path.{subst}
use native.Mathlib.Nat.{mul-le-mul_right}
use my_codebase.Base.{
  ℕ, zero, suc, ◌+◌, ◌*◌, ◌^◌, ◌≤◌, ◌<◌, ◌≡◌, refl, sym, ap, ◌==◌, ◌⊎◌, inl, inr, List, [], length,
  Option, some, get_or, get_elem?-eq-get_or, arith, Bool-cases, replicate, false,
}
use my_codebase.Rabin.{
  RabinFpUtil, RabinCtx, HasRoom, slid_context, slid-HasRoom, slide_one_byte-slid_context,
  next_pos-inside, new_ctx, new_ctx-HasRoom, reset_ctx,
}
use my_codebase.Rabin.Window.{reset_ctx-new}
use my_codebase.Finesse.{
  FinesseUtil, sub_chunk_size_of, Sliding, slide, sub_chunk, sub_chunks, extract_feature,
}
use my_codebase.Finesse.Groups.{IsProgram, Collects, Pushable, all-Pushable}
use my_codebase.Finesse.Local.{next, before_end, start_lt, after}

reset-HasRoom :
    (util : RabinFpUtil) (ctx : RabinCtx) → 1 ≤ util.window_size → HasRoom util (reset_ctx util ctx)
reset-HasRoom util ctx h = rw (reset_ctx-new util ctx) (new_ctx-HasRoom util h)

module _ (util : RabinFpUtil) (data' : List ℕ) (size : ℕ) (word : size < 2 ^ 32)
    (fits : size ≤ length data') where
  record SubDone (r : Option Sliding) : Type 0 where
    done : Sliding
    returns : r ≡ some done

  -- The context after the byte at a position.
  abbrev next_ctx : ℕ → Sliding → RabinCtx
  next_ctx at st = slid_context util st.ctx (get_or data' at 0)

  room_after :
      (at : ℕ) (st : Sliding) → HasRoom util st.ctx → HasRoom util (slide (next_ctx at st) st).ctx
  unfolding slide
  room_after at st room = slid-HasRoom util st.ctx _ _ _ room

  step :
      (rounds at : ℕ) (st : Sliding)
      → HasRoom util st.ctx
      → at < length data'
      → ((slide (next_ctx at st) st).cur_offset == size ≡ false
          → SubDone (sub_chunk util data' size rounds (at + 1) (slide (next_ctx at st) st)))
      → SubDone (sub_chunk util data' size (suc rounds) at st)
  unfolding sub_chunk
  step rounds at st room inside rest =
      let reads = get_elem?-eq-get_or data' at 0 inside in
      let slides =
        slide_one_byte-slid_context util st.ctx (get_or data' at 0)
          (next_pos-inside util st.ctx room) in
      elim (Bool-cases ((slide (next_ctx at st) st).cur_offset == size)) [
        | inl last ↦ record { done = slide (next_ctx at st) st; returns = rw (reads, slides, last) }
        | inr more ↦
            let later = rest more in
            record { done = later.done; returns = rw (reads, slides, more) later.returns }
      ]

  sub_chunk_free :
      (rounds at : ℕ) (st : Sliding)
      → HasRoom util st.ctx
      → at + rounds ≤ length data'
      → SubDone (sub_chunk util data' size rounds at st)
  unfolding sub_chunk
  sub_chunk_free zero at st room inside = record { done = st; returns = refl }
  sub_chunk_free (suc rounds) at st room inside =
      step rounds at st room (omega (arith, inside)) (λ more.
        sub_chunk_free rounds (at + 1) (slide (next_ctx at st) st) (room_after at st room)
          (omega (arith, inside)))

  sub_chunk_within :
      (rounds at : ℕ) (st : Sliding)
      → HasRoom util st.ctx
      → st.cur_offset ≡ at
      → at < size
      → SubDone (sub_chunk util data' size rounds at st)
  unfolding sub_chunk
  sub_chunk_within zero at st room here inside = record { done = st; returns = refl }
  sub_chunk_within (suc rounds) at st room here inside =
      step rounds at st room (omega (arith, inside, fits)) (λ more.
        sub_chunk_within rounds (at + 1) (slide (next_ctx at st) st) (room_after at st room)
          (next util data' size word (next_ctx at st) at st here inside)
          (before_end util data' size word (next_ctx at st) at st here inside more))

module _ (hash : List ℕ → ℕ) (f : FinesseUtil) (v : IsProgram f) (data' : List ℕ) (size sub : ℕ)
    (word : size < 2 ^ 32) (fits : size ≤ length data') where
  record AllDone (r : Option (RabinCtx × List (List ℕ))) : Type 0 where
    ctx : RabinCtx
    groups : List (List ℕ)
    returns : r ≡ some (ctx, groups)
    collects : Collects hash f groups

  -- Either all sub-chunks lie in the memory, or each starts where the one before it has ended.
  abbrev Reachable : ℕ → ℕ → ℕ → Type 0
  Reachable rounds i cur_offset =
      (12 * sub ≤ length data') ⊎ ((12 * sub < size + sub) × (1 ≤ rounds → cur_offset ≡ i * sub))

  one_done :
      (rounds i cur_offset : ℕ) (ctx : RabinCtx)
      → HasRoom f.rabin_util ctx
      → i + suc rounds ≡ 12
      → Reachable (suc rounds) i cur_offset
      → SubDone f.rabin_util data' size word fits (
          sub_chunk f.rabin_util data' size sub
            (i * sub)
            (record { ctx = ctx; max_rabin_fp = 0; cur_offset = cur_offset }))
  one_done rounds i cur_offset ctx room e (inl inside) =
      let up : suc i * sub ≤ 12 * sub = mul-le-mul_right sub (omega (arith, e)) in
      let next : suc i * sub ≡ i * sub + sub = omega arith in
      sub_chunk_free f.rabin_util data' size word fits sub (i * sub) _ room
        (omega (arith, up, next, inside))
  one_done rounds i cur_offset ctx room e (inr (inside, here)) =
      sub_chunk_within f.rabin_util data' size word fits sub (i * sub) _ room (here (omega arith))
        (start_lt f data' size sub 12 word inside i rounds e)

  reach_on :
      (i rounds cur_offset : ℕ) (ctx : RabinCtx) (done : Sliding)
      → i + suc rounds ≡ 12
      → Reachable (suc rounds) i cur_offset
      → sub_chunk f.rabin_util data' size sub
          (i * sub)
          (record { ctx = ctx; max_rabin_fp = 0; cur_offset = cur_offset })
        ≡ some done
      → Reachable rounds (i + 1) done.cur_offset
  reach_on i rounds cur_offset ctx done e (inl inside) run = inl inside
  reach_on i rounds cur_offset ctx done e (inr (inside, here)) run =
      inr (inside, after f data' size sub 12 word inside i rounds _ done e (here (omega arith)) run)

  sub_chunks-AllDone :
      (rounds i cur_offset : ℕ) (ctx : RabinCtx) (groups : List (List ℕ) × ℕ)
      → i + rounds ≡ 12
      → HasRoom f.rabin_util ctx
      → Reachable rounds i cur_offset
      → Pushable hash f rounds groups
      → AllDone (sub_chunks f data' size sub rounds i ctx cur_offset groups)
  unfolding sub_chunks Pushable
  sub_chunks-AllDone zero i cur_offset ctx groups e room reach push = record {
    ctx = ctx;
    groups = groups.0;
    returns = refl;
    collects = push;
  }
  sub_chunks-AllDone (suc rounds) i cur_offset ctx groups e room reach push =
      let one = one_done rounds i cur_offset ctx room e reach in
      let (groups', pushed, push') = push one.done.max_rabin_fp in
      let rest =
        sub_chunks-AllDone rounds (i + 1) one.done.cur_offset (reset_ctx f.rabin_util one.done.ctx)
          groups' (omega (arith, e)) (reset-HasRoom f.rabin_util one.done.ctx v.window)
          (reach_on i rounds cur_offset ctx one.done e reach one.returns) push' in
      record {
        ctx = rest.ctx;
        groups = rest.groups;
        returns = rw (one.returns, v.super_feature, pushed) rest.returns;
        collects = rest.collects;
      }

-- The sub-chunks lie in a buffer of `2 ^ 14` bytes, or the last one starts within the chunk.
small_or_inside :
    (size : ℕ)
    → size ≤ 2 ^ 14
    → (12 * sub_chunk_size_of size 12 ≤ 2 ^ 14)
      ⊎ (12 * sub_chunk_size_of size 12 < size + sub_chunk_size_of size 12)
unfolding sub_chunk_size_of
small_or_inside size h = ground (arith, h)

-- For the numbers of the program, a window of at least one byte, and a chunk in a buffer of `2 ^ 14`
-- bytes, `ExtractFeature` reads nothing outside the buffer and the window, finds the features, and
-- leaves the context as a new one.
pub extract_feature_returns :
    (hash : List ℕ → ℕ) (f : FinesseUtil) (ctx : RabinCtx) (data' : List ℕ) (size : ℕ)
    → IsProgram f
    → length data' ≡ 2 ^ 14
    → size ≤ 2 ^ 14
    → (features : List ℕ) × (extract_feature hash f ctx data' size
        ≡ some (new_ctx f.rabin_util, features))
unfolding extract_feature Collects
extract_feature_returns hash f ctx data' size v whole fits =
    let sub = sub_chunk_size_of size 12 in
    let reach =
      elim (small_or_inside size fits)
        as (λ _. (12 * sub ≤ length data') ⊎ ((12 * sub < size + sub) × (1 ≤ 12 → 0 ≡ 0 * sub))) [
          | inl small ↦ inl (omega (arith, small, whole))
          | inr inside ↦ inr (inside, λ _. omega arith)
        ] in
    let word : size < 2 ^ 32 = omega (arith, fits) in
    let room : size ≤ length data' = omega (arith, fits, whole) in
    let all =
      sub_chunks-AllDone hash f v data' size sub word room 12 0 0 (reset_ctx f.rabin_util ctx)
        (replicate 12 [], 0) (omega arith) (reset-HasRoom f.rabin_util ctx v.window) reach
        (all-Pushable hash f v) in
    let all' : AllDone hash f v data' size (sub_chunk_size_of size f.feature_per_chunk) word room (
        sub_chunks f data' size (sub_chunk_size_of size f.feature_per_chunk) f.feature_per_chunk 0
          (reset_ctx f.rabin_util ctx) 0 (replicate f.feature_per_chunk [], 0)) =
      subst
        (λ k. AllDone hash f v data' size (sub_chunk_size_of size k) word room (
          sub_chunks f data' size (sub_chunk_size_of size k) k 0 (reset_ctx f.rabin_util ctx) 0
            (replicate k [], 0)))
        (sym v.feature) all in
    let (features, collected) = all'.collects in
    let empty = reset_ctx-new f.rabin_util all'.ctx in
    (features, rw (all'.returns, collected) (ap (λ c. some (c, features)) empty))
