-- ===== src/Finesse/Local.antt =====
-- Where the last sub-chunk starts within the chunk, the features come from the chunk's bytes alone.
use native.Mathlib.Nat.{mul-le-mul_right}
use my_codebase.Base.{
  some_inj, none_or_some, ℕ, zero, suc, ◌+◌, ◌*◌, ◌^◌, ◌≤◌, ◌<◌, ◌≡◌, refl, sym, ap, ◌∙◌, ◌==◌, inl,
  inr, List, [], ◌∷◌, take, some, get_elem?, arith, false, Bool-cases, Option-cases, replicate,
}
use my_codebase.Rabin.{RabinFpUtil, RabinCtx, reset_ctx, slide_one_byte}
use my_codebase.Finesse.{
  FinesseUtil, sub_chunk_size_of, Sliding, slide, sub_chunk, push_feature, sub_chunks,
  extract_feature,
}

get_elem?-take : (n i : ℕ) (xs : List ℕ) → i < n → get_elem? (take n xs) i ≡ get_elem? xs i
get_elem?-take zero i xs h = absurd (omega arith)
get_elem?-take (suc n) i [] h = refl
get_elem?-take (suc n) zero (x ∷ xs) h = refl
get_elem?-take (suc n) (suc i) (x ∷ xs) h = get_elem?-take n i xs (omega arith)

abbrev cur_offset_of : Sliding → ℕ
cur_offset_of st = st.cur_offset

module _ (util : RabinFpUtil) (data' : List ℕ) (size : ℕ) (word : size < 2 ^ 32) where
  pub next :
      (ctx' : RabinCtx) (at : ℕ) (st : Sliding)
      → st.cur_offset ≡ at
      → at < size
      → (slide ctx' st).cur_offset ≡ at + 1
  unfolding slide
  next ctx' at st e h = omega (arith, e, h, word)

  pub before_end :
      (ctx' : RabinCtx) (at : ℕ) (st : Sliding)
      → st.cur_offset ≡ at
      → at < size
      → (slide ctx' st).cur_offset == size ≡ false
      → at + 1 < size
  before_end ctx' at st e h more = ground (arith, next ctx' at st e h, more)

  not_last :
      (ctx' : RabinCtx) (at : ℕ) (st : Sliding)
      → st.cur_offset ≡ at
      → at + 1 < size
      → (slide ctx' st).cur_offset == size ≡ false
  not_last ctx' at st e h = ground (arith, next ctx' at st e (omega arith))

  sub_chunk-take :
      (rounds at : ℕ) (st : Sliding)
      → st.cur_offset ≡ at
      → at < size
      → sub_chunk util data' size rounds at st ≡ sub_chunk util (take size data') size rounds at st
  unfolding sub_chunk
  sub_chunk-take zero at st e h = refl
  sub_chunk-take (suc rounds) at st e h = elim (Option-cases (get_elem? data' at)) [
    | inl outside ↦ rw (get_elem?-take size at data' h, outside)
    | inr (byte, read) ↦ elim (Option-cases (slide_one_byte util st.ctx byte)) [
      | inl no_window ↦ rw (get_elem?-take size at data' h, read, no_window)
      | inr (ctx', slides) ↦ elim (Bool-cases ((slide ctx' st).cur_offset == size)) [
        | inl last ↦ rw (get_elem?-take size at data' h, read, slides, last)
        | inr more ↦
            rw (get_elem?-take size at data' h, read, slides, more)
              (sub_chunk-take rounds (at + 1) (slide ctx' st) (next ctx' at st e h)
                (before_end ctx' at st e h more))
      ]
    ]
  ]

  -- A sub-chunk that ends before the chunk does is read to its end.
  sub_chunk-cur_offset :
      (rounds at : ℕ) (st done : Sliding)
      → st.cur_offset ≡ at
      → at + rounds < size
      → sub_chunk util data' size rounds at st ≡ some done
      → done.cur_offset ≡ at + rounds
  unfolding sub_chunk
  sub_chunk-cur_offset zero at st done e h run =
      sym (ap cur_offset_of (some_inj run)) ∙ e ∙ omega arith
  sub_chunk-cur_offset (suc rounds) at st done e h run = elim (Option-cases (get_elem? data' at)) [
    | inl outside ↦ absurd (none_or_some (rw outside at run))
    | inr (byte, read) ↦ elim (Option-cases (slide_one_byte util st.ctx byte)) [
      | inl no_window ↦ absurd (none_or_some (rw (read, no_window) at run))
      | inr (ctx', slides) ↦
          let more : (slide ctx' st).cur_offset == size ≡ false =
            not_last ctx' at st e (omega arith) in
          let rest : sub_chunk util data' size rounds (at + 1) (slide ctx' st) ≡ some done =
            rw (read, slides, more) at run in
          sub_chunk-cur_offset rounds (at + 1) (slide ctx' st) done
            (next ctx' at st e (omega arith)) (omega arith) rest
          ∙ omega arith
    ]
  ]

module _ (f : FinesseUtil) (data' : List ℕ) (size sub n : ℕ) (word : size < 2 ^ 32)
    (inside : n * sub < size + sub) where
  pub start_lt : (i rounds : ℕ) → i + suc rounds ≡ n → i * sub < size
  start_lt i rounds e =
      let up : suc i * sub ≤ n * sub = mul-le-mul_right sub (omega (arith, e)) in
      let next : suc i * sub ≡ i * sub + sub = omega arith in omega (arith, up, next, inside)

  more_lt : (i rounds : ℕ) → i + suc (suc rounds) ≡ n → i * sub + sub < size
  more_lt i rounds e =
      let next : (i + 1) * sub ≡ i * sub + sub = omega arith in
      omega (arith, next, start_lt (i + 1) rounds (omega (arith, e)))

  pub after :
      (i rounds : ℕ) (st done : Sliding)
      → i + suc rounds ≡ n
      → st.cur_offset ≡ i * sub
      → sub_chunk f.rabin_util data' size sub (i * sub) st ≡ some done
      → 1 ≤ rounds
      → done.cur_offset ≡ (i + 1) * sub
  after i zero st done e here run pos = absurd (omega arith)
  after i (suc rounds) st done e here run pos =
      let next : (i + 1) * sub ≡ i * sub + sub = omega arith in
      sub_chunk-cur_offset f.rabin_util data' size word sub (i * sub) st done here
        (more_lt i rounds e) run
      ∙ sym next

  sub_chunks-take :
      (rounds i : ℕ) (ctx : RabinCtx) (cur_offset : ℕ) (groups : List (List ℕ) × ℕ)
      → i + rounds ≡ n
      → (1 ≤ rounds → cur_offset ≡ i * sub)
      → sub_chunks f data' size sub rounds i ctx cur_offset groups
        ≡ sub_chunks f (take size data') size sub rounds i ctx cur_offset groups
  unfolding sub_chunks
  sub_chunks-take zero i ctx cur_offset groups e at = refl
  sub_chunks-take (suc rounds) i ctx cur_offset groups e at =
      let st : Sliding = record { ctx = ctx; max_rabin_fp = 0; cur_offset = cur_offset } in
      let here : cur_offset ≡ i * sub = at (omega arith) in
      let same =
        sub_chunk-take f.rabin_util data' size word sub (i * sub) st here (start_lt i rounds e) in
      elim (Option-cases (sub_chunk f.rabin_util data' size sub (i * sub) st)) [
        | inl outside ↦ rw (sym same, outside)
        | inr (done, run) ↦
            elim (Option-cases (push_feature f.super_feature_per_chunk done.max_rabin_fp groups)) [
              | inl too_many ↦ rw (sym same, run, too_many)
              | inr (groups', pushed) ↦
                  let next : 1 ≤ rounds → done.cur_offset ≡ (i + 1) * sub =
                    after i rounds st done e here run in
                  rw (sym same, run, pushed)
                    (sub_chunks-take rounds (i + 1) (reset_ctx f.rabin_util done.ctx)
                      done.cur_offset groups' (omega (arith, e)) next)
            ]
      ]

-- For a chunk below `2 ^ 32` bytes whose last sub-chunk starts within it, and any hash:
-- `ExtractFeature` gives the same on the memory behind `data` as on the chunk's bytes alone.
pub extract_feature-take :
    (hash : List ℕ → ℕ) (f : FinesseUtil) (ctx : RabinCtx) (data' : List ℕ) (size : ℕ)
    → size < 2 ^ 32
    → f.feature_per_chunk * sub_chunk_size_of size f.feature_per_chunk
      < size + sub_chunk_size_of size f.feature_per_chunk
    → extract_feature hash f ctx data' size ≡ extract_feature hash f ctx (take size data') size
unfolding extract_feature
extract_feature-take hash f ctx data' size word inside =
    let sub = sub_chunk_size_of size f.feature_per_chunk in
    let n = f.feature_per_chunk in
    rw (
      sub_chunks-take f data' size sub n word inside n 0 (reset_ctx f.rabin_util ctx) 0
        (replicate n [], 0) (omega arith) (λ _. omega arith))
