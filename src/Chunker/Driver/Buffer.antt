-- ===== src/Chunker/Driver/Buffer.antt =====
-- The inner loop cuts up all that is pending.
use my_codebase.Base.{
  ℕ, zero, suc, ◌+◌, ◌≤◌, ◌<◌, ◌≡◌, refl, sym, ap, ◌∙◌, ◌⊎◌, inl, inr, List, [], ◌∷◌, ◌++◌, length,
  take, drop, concat, ltb, false, ◌^◌, some, arith, ==-positive, take-append-drop, length-take,
  length-drop, length-append,
}
use my_codebase.Chunker.{AbsChunker, advance}
use my_codebase.Chunker.Loaded.{
  IsLoaded, IsCut, pending, advance_fields, advance-pending, advance-IsLoaded,
}
use my_codebase.Chunker.Interface.{Chunking}
use my_codebase.Chunker.Driver.{Processed, cut_buffer}
use my_codebase.Rabin.{RabinCtx, new_ctx}
use my_codebase.Finesse.{FinesseUtil, extract_feature}
use my_codebase.Finesse.Groups.{IsProgram}
use my_codebase.Finesse.Returns.{extract_feature_returns}

-- A list of chunks: each is at most the largest size, and each but the last at least the least.
abbrev pub IsChunked : ℕ → ℕ → List (List ℕ) → Type 0
IsChunked least most [] = Unit {0}
IsChunked least most (x ∷ xs) =
    (1 ≤ length x) × (length x ≤ most) × ((least ≤ length x) ⊎ (xs ≡ [])) × IsChunked least most xs

-- What a cut leaves alone.
pub record SameSizes (c c' : AbsChunker) : Type 0 where
  pub min : c'.min_chunk_size ≡ c.min_chunk_size
  pub avg : c'.avg_chunk_size ≡ c.avg_chunk_size
  pub max : c'.max_chunk_size ≡ c.max_chunk_size
  pub read_size : c'.read_size ≡ c.read_size
  pub buffer : c'.read_data_buf ≡ c.read_data_buf

SameSizes-trans : {a b c : AbsChunker} → SameSizes a b → SameSizes b c → SameSizes a c
SameSizes-trans p q = record {
  min = q.min ∙ p.min;
  avg = q.avg ∙ p.avg;
  max = q.max ∙ p.max;
  read_size = q.read_size ∙ p.read_size;
  buffer = q.buffer ∙ p.buffer;
}

advance-SameSizes : (c : AbsChunker) (n : ℕ) → SameSizes c (advance c n)
unfolding advance
advance-SameSizes c n = record {
  min = refl;
  avg = refl;
  max = refl;
  read_size = refl;
  buffer = refl;
}

count :
    {c : AbsChunker}
    → IsLoaded c
    → 1 ≤ c.remain_chunking_size
    → (n : ℕ) → (advance c n).total_chunk_num ≡ c.total_chunk_num + 1
unfolding advance
count v h n = omega (arith, v.chunks_counted)

-- What the inner loop leaves: the chunks make up what was pending, and they are counted.
pub record IsCutUp (c : AbsChunker) (chunks : List (List ℕ)) (c' : AbsChunker) : Type 0 where
  pub whole : concat chunks ≡ pending c
  pub chunked : IsChunked c.min_chunk_size c.max_chunk_size chunks
  pub used_up : c'.remain_chunking_size ≡ 0
  pub bytes_counted : c'.total_file_size ≡ c.total_file_size + c.remain_chunking_size
  pub chunks_counted : c'.total_chunk_num ≡ c.total_chunk_num + length chunks
  pub same : SameSizes c c'

cut_none : (c : AbsChunker) → c.remain_chunking_size ≡ 0 → IsCutUp c [] c
cut_none c e = record {
  whole = ap (λ t. take t (drop c.cur_offset c.read_data_buf)) (sym e);
  chunked = tt;
  used_up = e;
  bytes_counted = omega (arith, e);
  chunks_counted = omega arith;
  same = record { min = refl; avg = refl; max = refl; read_size = refl; buffer = refl };
}

length-pending : {c : AbsChunker} → IsLoaded c → length (pending c) ≡ c.remain_chunking_size
length-pending {c} v = omega (
  arith,
  length-take c.remain_chunking_size (drop c.cur_offset c.read_data_buf),
  length-drop c.cur_offset c.read_data_buf,
  v.offsets,
  v.inside,
)

-- No chunk is empty, so nothing is made up of no chunks only.
no_chunks :
    (least most : ℕ) (chunks : List (List ℕ))
    → IsChunked least most chunks
    → length (concat chunks) ≡ 0
    → chunks ≡ []
no_chunks least most [] h e = refl
no_chunks least most (x ∷ xs) h e = absurd (omega (arith, length-append x (concat xs), h.0))

-- One cut before the others.
cut_more :
    (c : AbsChunker) (n : ℕ) (bytes : List ℕ) (c' : AbsChunker) (chunks : List (List ℕ))
    (c₂ : AbsChunker)
    → IsLoaded c
    → IsCut c n bytes c'
    → IsCutUp (advance c n) chunks c₂
    → IsCutUp c (bytes ∷ chunks) c₂
unfolding advance
cut_more c n bytes c' chunks c₂ v cut rest =
    let after = advance-IsLoaded v n cut.within cut.positive in
    let fields = advance_fields v n cut.within in
    let size : length bytes ≡ n =
      omega
        (arith, ap length cut.copied, length-take n (pending c), length-pending v, cut.within) in
    let last : n ≡ c.remain_chunking_size → chunks ≡ [] = λ e.
      no_chunks _ _ chunks rest.chunked
        (omega (arith, ap length rest.whole, length-pending after, fields.1)) in
    record {
      whole =
          ap (λ t. bytes ++ t) (rest.whole ∙ advance-pending v n cut.within)
          ∙ ap (λ t. t ++ drop n (pending c)) cut.copied
          ∙ take-append-drop n (pending c);
      chunked = (
        omega (arith, size, cut.positive),
        omega (arith, size, cut.upper),
        elim cut.lower [ inl h ↦ inl (omega (arith, size)) | inr e ↦ inr (last e) ],
        rest.chunked,
      );
      used_up = rest.used_up;
      bytes_counted = omega (arith, rest.bytes_counted, fields, cut.within);
      chunks_counted =
          omega (arith, rest.chunks_counted, count v (omega (arith, cut.positive, cut.within)) n);
      same = SameSizes-trans (advance-SameSizes c n) rest.same;
    }

zero_or_more : (n : ℕ) → (n ≡ 0) ⊎ (1 ≤ n)
zero_or_more n = ground arith

-- A chunk in front of what the buffer holds behind it.
length-overwrite :
    (bytes buf : List ℕ)
    → length bytes ≤ length buf
    → length (bytes ++ drop (length bytes) buf) ≡ length buf
length-overwrite bytes buf h =
    omega (arith, h, length-append bytes (drop (length bytes) buf), length-drop (length bytes) buf)

length-cut :
    {c : AbsChunker} (n : ℕ) (bytes : List ℕ) (c' : AbsChunker)
    → IsLoaded c
    → IsCut c n bytes c'
    → length bytes ≡ n
length-cut {c} n bytes c' v cut =
    omega (arith, ap length cut.copied, length-take n (pending c), length-pending v, cut.within)

module _ (m : Chunking) (hash : List ℕ → ℕ) (finesse_util : FinesseUtil) where
  nothing_step :
      (rounds : ℕ) (s : m.State) (ctx : RabinCtx) (buf : List ℕ)
      → m.generate s ≡ some (0, [], s)
      → cut_buffer m hash finesse_util (suc rounds) s ctx buf
        ≡ some (record { chunks = []; features = []; state = s; rabin_ctx = ctx })
  unfolding cut_buffer
  nothing_step rounds s ctx buf e = rw e

  cut_step :
      (rounds : ℕ) (s : m.State) (ctx : RabinCtx) (buf : List ℕ) (n : ℕ) (bytes : List ℕ)
      (s' : m.State) (ctx' : RabinCtx) (features : List ℕ) (r : Processed m.State)
      → m.generate s ≡ some (n, bytes, s')
      → 1 ≤ n
      → n ≤ 2 ^ 14
      → extract_feature hash finesse_util ctx (bytes ++ drop (length bytes) buf) n
        ≡ some (ctx', features)
      → cut_buffer m hash finesse_util rounds s' ctx' (bytes ++ drop (length bytes) buf) ≡ some r
      → cut_buffer m hash finesse_util (suc rounds) s ctx buf
        ≡ some (record {
          chunks = bytes ∷ r.chunks;
          features = features ∷ r.features;
          state = r.state;
          rabin_ctx = r.rabin_ctx;
        })
  unfolding cut_buffer
  cut_step rounds s ctx buf n bytes s' ctx' features r e pos fits extracted run =
      let inside : ltb (2 ^ 14) n ≡ false = ground (arith, fits) in
      rw (e, inside, ==-positive n pos, extracted, run)

  -- For any chunker that fills the interface, ready, with a loaded buffer and a largest size of at
  -- most the `2 ^ 14` bytes of the buffer that a chunk is copied to, and `ExtractFeature` with 12
  -- features in 3 super-features of 4, a window of at least one byte and a new context of it: the
  -- inner loop ends within one round more than there are pending bytes; the chunks one after the
  -- other are what was pending, each but the last is at least the least size, nothing is left,
  -- there are as many lists of features as chunks, the counters have grown by the bytes and the
  -- chunks, the context is as new, and the sizes and the buffer are unchanged.
  pub cut_buffer-IsCutUp :
      (rounds : ℕ) (s : m.State) (buf : List ℕ)
      → IsProgram finesse_util
      → length buf ≡ 2 ^ 14
      → m.IsReady s
      → IsLoaded (m.base s)
      → (m.base s).max_chunk_size ≤ 2 ^ 14
      → (m.base s).remain_chunking_size < rounds
      → (done : Processed m.State) × (cut_buffer m hash finesse_util rounds s
            (new_ctx finesse_util.rabin_util)
            buf
          ≡ some done)
        × IsCutUp (m.base s) done.chunks (m.base done.state)
        × (length done.features ≡ length done.chunks)
        × (done.rabin_ctx ≡ new_ctx finesse_util.rabin_util)
        × m.IsReady done.state
  cut_buffer-IsCutUp zero s buf p whole ready v most h = absurd (omega arith)
  cut_buffer-IsCutUp (suc rounds) s buf p whole ready v most h =
      let ctx = new_ctx finesse_util.rabin_util in
      elim (zero_or_more (m.base s).remain_chunking_size) [
        | inl none_left ↦ (
          record { chunks = []; features = []; state = s; rabin_ctx = ctx },
          nothing_step rounds s ctx buf (m.generate_end s none_left),
          cut_none (m.base s) none_left,
          refl,
          refl,
          ready,
        )
        | inr more ↦
            let (n, bytes, s', e, cut, ready') = m.generate_cut s ready v more in
            let after : IsLoaded (m.base s') =
              rw cut.moved (advance-IsLoaded v n cut.within cut.positive) in
            let fields = advance_fields v n cut.within in
            let same = advance-SameSizes (m.base s) n in
            let most' : (m.base s').max_chunk_size ≤ 2 ^ 14 =
              rw cut.moved (omega (arith, same.max, most)) in
            let fewer : (m.base s').remain_chunking_size < rounds =
              rw cut.moved (omega (arith, fields, cut.positive)) in
            let fits : n ≤ 2 ^ 14 = omega (arith, cut.upper, most) in
            let size = length-cut n bytes (m.base s') v cut in
            let buf' = bytes ++ drop (length bytes) buf in
            let whole' : length buf' ≡ 2 ^ 14 =
              length-overwrite bytes buf (omega (arith, size, fits, whole)) ∙ whole in
            let (features, extracted) =
              extract_feature_returns hash finesse_util ctx buf' n p whole' fits in
            let (done, run, rest, paired, empty, ready'') =
              cut_buffer-IsCutUp rounds s' buf' p whole' ready' after most' fewer in
            (
              record {
                chunks = bytes ∷ done.chunks;
                features = features ∷ done.features;
                state = done.state;
                rabin_ctx = done.rabin_ctx;
              },
              cut_step rounds s ctx buf n bytes s' ctx features done e cut.positive fits extracted
                  run,
              cut_more (m.base s) n bytes (m.base s') done.chunks (m.base done.state) v cut
                  (rw cut.moved at rest),
              ap suc paired,
              empty,
              ready'',
            )
      ]
