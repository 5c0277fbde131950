-- ===== src/Chunker/Driver/Run.antt =====
-- The run over a file ends, and its chunks are the file.
use my_codebase.Base.{
  ℕ, zero, suc, ◌+◌, ◌^◌, ◌≤◌, ◌<◌, ◌≡◌, refl, sym, ap, ◌∙◌, ◌⊎◌, inl, inr, List, [], ◌∷◌, ◌++◌,
  length, Option, some, true, false, arith, ==-positive, length-take, length-append,
}
use my_codebase.Stream.{
  IStream, read, read-append, IsBytes, read-IsBytes, IsGood, more, at_end, read-AfterRead,
}
use my_codebase.Chunker.{load_data_from_file}
use my_codebase.Chunker.Loaded.{IsLoaded, IsSized, load-pending, load-IsLoaded}
use my_codebase.Chunker.Interface.{Chunking}
use my_codebase.Rabin.{RabinCtx, new_ctx}
use my_codebase.Finesse.{FinesseUtil}
use my_codebase.Finesse.Groups.{IsProgram}
use my_codebase.Chunker.Driver.{
  Processed, cut_buffer, chunk_file, chunk_buf_size, cleared_buf, length-cleared_buf,
}
use my_codebase.Chunker.Driver.Buffer.{IsCutUp, cut_buffer-IsCutUp}
use my_codebase.Chunker.Driver.File.{
  IsFile, IsFile-append, buffer-IsFile, buffer-max, buffer-read_size, buffer-IsSized, few_chunks,
}

-- What the run needs of the chunker and of the stream.
pub record IsRunnable (m : Chunking) (s : m.State) (f : IStream) : Type 0 where
  pub ready : m.IsReady s
  pub sized : IsSized (m.base s)
  pub fits : (m.base s).max_chunk_size ≤ 2 ^ 14
  pub reads : 1 ≤ (m.base s).read_size
  pub good : IsGood f
  pub bytes : IsBytes f.rest
  pub bytes_counted : (m.base s).total_file_size + length f.rest < 2 ^ 64
  pub chunks_counted : (m.base s).total_chunk_num + length f.rest < 2 ^ 64

zero_or_more : (n : ℕ) → (n ≡ 0) ⊎ (1 ≤ n)
zero_or_more n = ground arith

length-eq-zero : (xs : List ℕ) → length xs ≡ 0 → xs ≡ []
length-eq-zero [] e = refl
length-eq-zero (x ∷ xs) e = absurd (omega (arith, e))

-- One run after another.
abbrev both : {State : Type 0} → Processed State → Processed State → Processed State
both done later = record {
  chunks = done.chunks ++ later.chunks;
  features = done.features ++ later.features;
  state = later.state;
  rabin_ctx = later.rabin_ctx;
}

both_featured :
    {State : Type 0} (done later : Processed State)
    → length done.features ≡ length done.chunks
    → length later.features ≡ length later.chunks
    → length (both done later).features ≡ length (both done later).chunks
both_featured done later e e' = omega (
  arith,
  e,
  e',
  length-append done.features later.features,
  length-append done.chunks later.chunks,
)

module _ (m : Chunking) (hash : List ℕ → ℕ) (finesse_util : FinesseUtil) where
  -- The context that the driver makes before its loops.
  abbrev ctx : RabinCtx
  ctx = new_ctx finesse_util.rabin_util

  -- The run ends with as many lists of features as chunks, and has cut the file up.
  pub record Runs (s : m.State) (f : IStream) (r : Option (Processed m.State)) : Type 0 where
    pub done : Processed m.State
    pub returns : r ≡ some done
    pub featured : length done.features ≡ length done.chunks
    pub cut : IsFile (m.base s) f.rest done.chunks (m.base done.state)

  module _ (rounds : ℕ) (s : m.State) (f : IStream) (v : IsRunnable m s f) where
    abbrev size : ℕ
    size = (m.base s).read_size

    abbrev got : List ℕ
    got = (read size f).0

    abbrev loaded : m.State
    loaded = m.with_base s (load_data_from_file (m.base s) f).1

    returned : (load_data_from_file (m.base s) f).0 ≡ length got
    returned = (load-pending v.sized f).1

    after_load : (load_data_from_file (m.base s) f).2 ≡ (read size f).1
    unfolding load_data_from_file
    after_load = refl

    remains : (m.base loaded).remain_chunking_size ≡ length got
    unfolding load_data_from_file
    remains =
        ap (λ t. t.remain_chunking_size) (m.base-with_base s (load_data_from_file (m.base s) f).1)

    kept :
        ((m.base loaded).total_file_size ≡ (m.base s).total_file_size)
        × ((m.base loaded).total_chunk_num ≡ (m.base s).total_chunk_num)
    unfolding load_data_from_file
    kept =
        let same = m.base-with_base s (load_data_from_file (m.base s) f).1 in
        (ap (λ t. t.total_file_size) same, ap (λ t. t.total_chunk_num) same)

    max_loaded : (m.base loaded).max_chunk_size ≡ (m.base s).max_chunk_size
    unfolding load_data_from_file
    max_loaded =
        ap (λ t. t.max_chunk_size) (m.base-with_base s (load_data_from_file (m.base s) f).1)

    -- An empty read is the end of the file.
    nothing : length got ≡ 0 → length f.rest ≡ 0
    nothing e = elim (read-AfterRead size f v.good) [
      | more h all rest eof good ↦
          absurd (omega (arith, ap length all, length-take size f.rest, v.reads, e))
      | at_end h all rest eof ↦ ap length (sym all) ∙ e
    ]

    abbrev nothing_done : Processed m.State
    nothing_done = record { chunks = []; features = []; state = loaded; rabin_ctx = ctx }

    empty_step :
        length got ≡ 0 → chunk_file m hash finesse_util (suc rounds) s ctx f ≡ some nothing_done
    unfolding chunk_file
    empty_step e = rw (returned, e)

    run_empty : length got ≡ 0 → Runs s f (chunk_file m hash finesse_util (suc rounds) s ctx f)
    run_empty e = record {
      done = nothing_done;
      returns = empty_step e;
      featured = refl;
      cut = record {
        whole = sym (length-eq-zero f.rest (nothing e));
        sized = tt;
        bytes_counted = omega (arith, kept.0, nothing e);
        chunks_counted = omega (arith, kept.1);
      };
    }

    abbrev cut_loaded : Option (Processed m.State)
    cut_loaded =
        cut_buffer m hash finesse_util (suc (length got)) loaded ctx (cleared_buf chunk_buf_size)

    cut_up :
        IsProgram finesse_util
        → 1 ≤ length got
        → (done : Processed m.State) × (cut_loaded ≡ some done)
          × IsCutUp (load_data_from_file (m.base s) f).1 done.chunks (m.base done.state)
          × (length done.features ≡ length done.chunks)
          × (done.rabin_ctx ≡ ctx)
          × m.IsReady done.state
    cut_up p pos =
        let same = m.base-with_base s (load_data_from_file (m.base s) f).1 in
        let whole : length got + length (read size f).1.rest ≡ length f.rest =
          sym (length-append got (read size f).1.rest) ∙ ap length (read-append size f) in
        let up =
          load-IsLoaded v.sized f (omega (arith, v.bytes_counted, whole))
            (omega (arith, v.chunks_counted, whole)) in
        let up' : IsLoaded (m.base loaded) = rw same up in
        let most : (m.base loaded).max_chunk_size ≤ 2 ^ 14 = omega (arith, v.fits, max_loaded) in
        let (done, run, cut, featured, empty, ready) =
          cut_buffer-IsCutUp m hash finesse_util (suc (length got)) loaded
            (cleared_buf chunk_buf_size) p (length-cleared_buf chunk_buf_size)
            (m.ready_load s f v.ready v.bytes) up' most (omega (arith, remains)) in
        (done, run, rw same at cut, featured, empty, ready)

    module _ (pos : 1 ≤ length got) (done : Processed m.State) (run : cut_loaded ≡ some done) where
      last_step :
          (read size f).1.eof ≡ true
          → chunk_file m hash finesse_util (suc rounds) s ctx f ≡ some done
      unfolding chunk_file
      last_step e = rw (returned, ==-positive (length got) pos, run, after_load, e)

      more_step :
          (later : Processed m.State)
          → (read size f).1.eof ≡ false
          → done.rabin_ctx ≡ ctx
          → chunk_file m hash finesse_util rounds done.state ctx (read size f).1 ≡ some later
          → chunk_file m hash finesse_util (suc rounds) s ctx f ≡ some (both done later)
      unfolding chunk_file
      more_step later e empty run_later =
          rw (returned, ==-positive (length got) pos, run, after_load, e, empty, run_later)

  -- The stream after a full read is good, and shorter.
  next-IsRunnable :
      (s : m.State) (f : IStream)
      → IsRunnable m s f
      → (chunks : List (List ℕ)) (s' : m.State)
      → IsCutUp (load_data_from_file (m.base s) f).1 chunks (m.base s')
      → m.IsReady s'
      → IsGood (read (m.base s).read_size f).1
      → IsRunnable m s' (read (m.base s).read_size f).1
  next-IsRunnable s f v chunks s' cut ready good =
      let n = (m.base s).read_size in
      let file = buffer-IsFile (m.base s) f v.sized chunks (m.base s') cut in
      let whole : length (read n f).0 + length (read n f).1.rest ≡ length f.rest =
        sym (length-append (read n f).0 (read n f).1.rest) ∙ ap length (read-append n f) in
      let few = few_chunks (m.base s).max_chunk_size chunks file.sized in
      record {
        ready = ready;
        sized = buffer-IsSized (m.base s) f v.sized chunks (m.base s') cut;
        fits = omega (arith, v.fits, buffer-max (m.base s) f v.sized chunks (m.base s') cut);
        reads =
            omega (arith, v.reads, buffer-read_size (m.base s) f v.sized chunks (m.base s') cut);
        good = good;
        bytes = (read-IsBytes n f v.bytes).1;
        bytes_counted = omega (arith, v.bytes_counted, file.bytes_counted, whole);
        chunks_counted =
            omega (arith, v.chunks_counted, file.chunks_counted, ap length file.whole, few, whole);
      }

  -- For any chunker that fills the interface, in its ready state, with sizes in order up to the `2
  -- ^ 14` bytes of the buffer that a chunk is copied to, and a file buffer that holds at least one
  -- byte, and a good stream of bytes whose length, added to the counters, does not reach `2 ^ 64`,
  -- and `ExtractFeature` with 12 features in 3 super-features of 4, a window of at least one byte
  -- and a new context of it: the driver's two loops end within one round more than the file has
  -- bytes, the chunks one after the other are the file, none is empty or above the largest size,
  -- there are as many lists of features as chunks, and the two counters have grown by the bytes
  -- and by the chunks.
  pub chunk_file-Runs :
      (rounds : ℕ) (s : m.State) (f : IStream)
      → IsProgram finesse_util
      → IsRunnable m s f
      → length f.rest < rounds
      → Runs s f (chunk_file m hash finesse_util rounds s ctx f)
  chunk_file-Runs zero s f p v h = absurd (omega arith)
  chunk_file-Runs (suc rounds) s f p v h =
      let n = (m.base s).read_size in
      elim (zero_or_more (length (read n f).0)) [
        | inl none_left ↦ run_empty rounds s f v none_left
        | inr pos ↦
            let (done, run, cut, featured, empty, ready) = cut_up rounds s f v p pos in
            let file = buffer-IsFile (m.base s) f v.sized done.chunks (m.base done.state) cut in
            let whole = read-append n f in
            elim (read-AfterRead n f v.good) [
              | at_end short all rest eof ↦ record {
                done = done;
                returns = last_step rounds s f v pos done run eof;
                featured = featured;
                cut = rw all at file;
              }
              | more full all rest eof good ↦
                  let after = next-IsRunnable s f v done.chunks done.state cut ready good in
                  let fewer : length (read n f).1.rest < rounds =
                    omega
                      (arith, pos, ap length whole, length-append (read n f).0 (read n f).1.rest) in
                  let later = chunk_file-Runs rounds done.state (read n f).1 p after fewer in
                  record {
                    done = both done later.done;
                    returns =
                        more_step rounds s f v pos done run later.done eof empty later.returns;
                    featured = both_featured done later.done featured later.featured;
                    cut = rw whole at (
                        IsFile-append (m.base s) (read n f).0 done.chunks (m.base done.state)
                          (read n f).1.rest later.done.chunks (m.base later.done.state) file
                          later.cut
                          (buffer-max (m.base s) f v.sized done.chunks (m.base done.state) cut));
                  }
            ]
      ]
