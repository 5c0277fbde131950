-- ===== src/Chunker/Interface.antt =====
-- The virtual methods of include/dedup/abs_chunker.h, with what their callers rely on.
use my_codebase.Base.{ℕ, ◌≤◌, ◌<◌, ◌≡◌, List, [], some, All}
use my_codebase.Stream.{IStream}
use my_codebase.Chunker.{AbsChunker, Outcome, load_data_from_file}
use my_codebase.Chunker.Loaded.{IsLoaded, IsCut}

-- `generate` is `GenerateOneChunk`. `base` is the part of the object that the base class declares,
-- and `with_base` replaces it. `IsReady` is what a chunker keeps true of its own part.
pub record Chunking : Type 1 where
  pub State : Type 0
  pub base : State → AbsChunker
  pub with_base : State → AbsChunker → State
  pub generate : State → Outcome State
  pub IsReady : State → Type 0
  pub base-with_base : (s : State) (b : AbsChunker) → base (with_base s b) ≡ b
  pub ready_load :
      (s : State) (f : IStream)
      → IsReady s
      → All (λ x. x < 256) f.rest
      → IsReady (with_base s (load_data_from_file (base s) f).1)
  pub generate_end : (s : State) → (base s).remain_chunking_size ≡ 0 → generate s ≡ some (0, [], s)
  pub generate_cut :
      (s : State)
      → IsReady s
      → IsLoaded (base s)
      → 1 ≤ (base s).remain_chunking_size
      → (n : ℕ) × (data' : List ℕ) × (s' : State) × (generate s ≡ some (n, data', s'))
        × IsCut (base s) n data' (base s')
        × IsReady s'
