-- ===== src/Chunker/Driver.antt =====
-- The loops of src/app/chunking_test.cc: a file is loaded buffer by buffer and each is cut up.
pub mod Buffer
pub mod File
pub mod Run
use my_codebase.Base.{
  ℕ, zero, suc, ◌+◌, ◌==◌, ltb, if◌then◌else◌, List, [], ◌∷◌, ◌++◌, length, Option, none, some,
  ◌>>=◌, Bool, true, false, drop, replicate, length-replicate, ◌≡◌,
}
use my_codebase.Compress.{max_chunk_size}
use my_codebase.Stream.{IStream}
use my_codebase.Rabin.{RabinCtx}
use my_codebase.Finesse.{FinesseUtil, extract_feature}
use my_codebase.Chunker.{AbsChunker, load_data_from_file}
use my_codebase.Chunker.Interface.{Chunking}

-- The size of the buffer `chunk_buf` that each chunk is copied to.
abbrev pub chunk_buf_size : ℕ
chunk_buf_size = max_chunk_size

-- `uint8_t chunk_buf[MAX_CHUNK_SIZE] = {0}`
unfoldable pub cleared_buf : ℕ → List ℕ
cleared_buf n = replicate n 0

pub length-cleared_buf : (n : ℕ) → length (cleared_buf n) ≡ n
unfolding cleared_buf
length-cleared_buf n = length-replicate n 0

-- What the loops leave: the chunks, the features of each, the chunker, and the context that
-- `ExtractFeature` works on.
pub record Processed (State : Type 0) : Type 0 where
  pub chunks : List (List ℕ)
  pub features : List (List ℕ)
  pub state : State
  pub rabin_ctx : RabinCtx

module _ (m : Chunking) (hash : List ℕ → ℕ) (finesse_util : FinesseUtil) where
  -- The inner loop, up to the chunk of size 0. `none` is a fault, one of them a chunk that does not
  -- fit `chunk_buf`, or no rounds left.
  unfoldable pub cut_buffer : ℕ → m.State → RabinCtx → List ℕ → Option (Processed m.State)
  cut_buffer zero s rabin_ctx chunk_buf = none
  cut_buffer (suc rounds) s rabin_ctx chunk_buf = do
    out ← m.generate s
    let chunk_buf' = out.1 ++ drop (length out.1) chunk_buf
    let end : Processed m.State = record {
      chunks = [];
      features = [];
      state = out.2;
      rabin_ctx = rabin_ctx;
    }
    if ltb chunk_buf_size out.0 then none else if out.0 == 0 then some end else do
      extracted ← extract_feature hash finesse_util rabin_ctx chunk_buf' out.0
      rest ← cut_buffer rounds out.2 extracted.0 chunk_buf'
      some (record {
        chunks = out.1 ∷ rest.chunks;
        features = extracted.1 ∷ rest.features;
        state = rest.state;
        rabin_ctx = rest.rabin_ctx;
      })

  -- The outer loop. What `LoadDataFromFile` returns decides whether there is a buffer to cut.
  unfoldable pub chunk_file : ℕ → m.State → RabinCtx → IStream → Option (Processed m.State)
  chunk_file zero s rabin_ctx f = none
  chunk_file (suc rounds) s rabin_ctx f =
      let loaded = load_data_from_file (m.base s) f in
      let s' = m.with_base s loaded.1 in
      if loaded.0 == 0
      then some (record { chunks = []; features = []; state = s'; rabin_ctx = rabin_ctx })
      else do
        cut ← cut_buffer (suc loaded.0) s' rabin_ctx (cleared_buf chunk_buf_size)
        let rest = chunk_file rounds cut.state cut.rabin_ctx loaded.2
        if loaded.2.eof
            then some cut
            else rest >>= λ r. some (record {
              chunks = cut.chunks ++ r.chunks;
              features = cut.features ++ r.features;
              state = r.state;
              rabin_ctx = r.rabin_ctx;
            })
