-- ===== src/Chunker/Factory/Run.antt =====
-- What the factory makes is ready for the driver, and is what the program makes for itself.
use my_codebase.Base.{
  ℕ, zero, suc, ◌/◌, ◌^◌, ◌≤◌, ◌<◌, ◌≡◌, refl, ap, ◌==◌, List, length, some, Bool-cases, inl, inr,
  le→leb, ◌-◌, arith,
}
use native.Mathlib.Nat.{pow-suc}
use my_codebase.Configure.{Configure, done}
use my_codebase.Stream.{IsBytes, opened}
use my_codebase.Rabin.{new_ctx}
use my_codebase.Rabin.Tables.{util, window_size-util, new_rabin_fp_util-small}
use my_codebase.Finesse.{FinesseUtil}
use my_codebase.Finesse.Groups.{IsProgram}
use my_codebase.Chunker.{AbsChunker, new_abs_chunker}
use my_codebase.Chunker.Loaded.{IsSized}
use my_codebase.Chunker.Interface.{Chunking}
use my_codebase.Chunker.Instances.{fixed, fast_cdc, rabin_cdc}
use my_codebase.Chunker.FastCdc.{new_fast_cdc}
use my_codebase.Chunker.FastCdc.Sizes.{new_fast_cdc-IsFast}
use my_codebase.Chunker.RabinCdc.{
  RabinChunker, new_rabin_chunker, count_halvings, get_bit_num, mask_of,
}
use my_codebase.Chunker.Driver.{chunk_file}
use my_codebase.Chunker.Driver.Run.{IsRunnable, Runs, chunk_file-Runs}
use my_codebase.Chunker.Factory.{
  AnyChunker, rabin_object, create_chunker, parse_type, test_chunker, chosen_chunker,
}

-- Settings with sizes in order that fit the buffer for a chunk, a window of 1 to `2 ^ 32 - 1` bytes,
-- file buffers below 4 GB, and memory that is as large as was asked for.
pub record IsSuitable (config : Configure) (memory : ℕ → List ℕ) : Type 0 where
  pub min_pos : 1 ≤ config.min_chunk_size
  pub min_avg : config.min_chunk_size ≤ config.avg_chunk_size
  pub avg_max : config.avg_chunk_size ≤ config.max_chunk_size
  pub max_buf : config.max_chunk_size ≤ 2 ^ 14
  pub window : 1 ≤ config.chunker_sliding_win_size
  pub window_word : config.chunker_sliding_win_size < 2 ^ 32
  pub reads : 1 ≤ config.read_size
  pub word : config.read_size < 4096
  pub allocated : (n : ℕ) → length (memory n) ≡ n
  pub bytes : (n : ℕ) → IsBytes (memory n)

-- `n` halvings of a number below `2 ^ (n + 1)`.
count_halvings-le : (k fuel n : ℕ) → n < 2 ^ suc k → count_halvings fuel n ≤ k
unfolding count_halvings
count_halvings-le k zero n h = omega arith
count_halvings-le zero (suc fuel) n h =
    let small : n / 2 ≡ 0 = omega (arith, h) in rw (count_halvings, small) (omega arith)
count_halvings-le (suc k) (suc fuel) n h =
    let half : n / 2 < 2 ^ suc k = omega (arith, h, pow-suc 2 (suc k)) in
    let rest = count_halvings-le k fuel (n / 2) half in
    elim (Bool-cases (n / 2 == 0)) [
      | inl last ↦ rw (count_halvings, last) (omega arith)
      | inr more ↦ rw (count_halvings, more) (omega (arith, rest))
    ]

mask_of_avg : (avg : ℕ) → avg < 2 ^ 31 → mask_of (get_bit_num avg) ≡ some (2 ^ get_bit_num avg - 1)
unfolding mask_of get_bit_num
mask_of_avg avg h =
    let few = count_halvings-le 30 64 avg h in rw (le→leb (count_halvings 64 avg) 30 few)

module _ (config : Configure) (memory : ℕ → List ℕ) (v : IsSuitable config memory) where
  abbrev base : AbsChunker
  base = new_abs_chunker config memory

  base-IsSized : IsSized base
  unfolding new_abs_chunker
  base-IsSized = record {
    buffer = v.allocated _;
    word = omega (arith, v.word);
    min_pos = v.min_pos;
    min_avg = v.min_avg;
    avg_max = v.avg_max;
    max_word = omega (arith, v.max_buf);
  }

  -- The constructor of the Rabin chunker does not fault, and leaves its window empty.
  new_rabin :
      (c : RabinChunker) × (new_rabin_chunker base config.chunker_sliding_win_size ≡ some c)
      × (c.base ≡ base)
      × (c.rabin_ctx ≡ new_ctx c.rabin_util)
      × (1 ≤ c.rabin_util.window_size)
  unfolding new_abs_chunker new_rabin_chunker
  new_rabin =
      let made = new_rabin_fp_util-small config.chunker_sliding_win_size v.window_word in
      let known = mask_of_avg config.avg_chunk_size (omega (arith, v.avg_max, v.max_buf)) in
      (
        record {
          base = base;
          rabin_util = util config.chunker_sliding_win_size;
          rabin_ctx = new_ctx (util config.chunker_sliding_win_size);
          mask = 2 ^ get_bit_num config.avg_chunk_size - 1;
        },
        rw (made, known),
        refl,
        refl,
        omega (arith, v.window, window_size-util config.chunker_sliding_win_size),
      )

  base_order : (base.min_chunk_size ≤ base.max_chunk_size) × (base.max_chunk_size < 2 ^ 32)
  unfolding new_abs_chunker
  base_order = (omega (arith, v.min_avg, v.avg_max), omega (arith, v.max_buf))

  base_bytes : IsBytes base.read_data_buf
  unfolding new_abs_chunker
  base_bytes = v.bytes _

  -- A chunker on the new object runs over any file.
  new-IsRunnable :
      (m : Chunking) (s : m.State) (bytes : List ℕ)
      → m.base s ≡ base
      → m.IsReady s
      → IsBytes bytes
      → length bytes < 2 ^ 64
      → IsRunnable m s (opened bytes)
  unfolding new_abs_chunker
  new-IsRunnable m s bytes e ready are_bytes short = record {
    ready = ready;
    sized = rw e base-IsSized;
    fits = rw e v.max_buf;
    reads = rw e (omega (arith, v.reads, v.word));
    good = record { not_eof = refl; not_failed = refl };
    bytes = are_bytes;
    bytes_counted = rw e (omega (arith, short));
    chunks_counted = rw e (omega (arith, short));
  }

-- What `-t` chooses: the factory and the program agree on a chunker, and it cuts any file up.
abbrev pub Chooses : (List ℕ → ℕ) → FinesseUtil → Configure → (ℕ → List ℕ) → ℕ → ℕ → List ℕ → Type 1
Chooses hash finesse_util config memory type rounds bytes =
    (o : AnyChunker) × (create_chunker config memory type ≡ done o)
    × (chosen_chunker config memory type ≡ done o)
    × Runs o.kind hash finesse_util o.state (opened bytes) (
        chunk_file o.kind hash finesse_util rounds o.state (new_ctx finesse_util.rabin_util)
          (opened bytes))

module _ (hash : List ℕ → ℕ) (finesse_util : FinesseUtil) (program : IsProgram finesse_util)
    (config : Configure) (memory : ℕ → List ℕ) (v : IsSuitable config memory) (rounds : ℕ)
    (bytes : List ℕ) (are_bytes : IsBytes bytes) (short : length bytes < 2 ^ 64)
    (enough : length bytes < rounds) where
  runs :
      (m : Chunking) (s : m.State)
      → m.base s ≡ new_abs_chunker config memory
      → m.IsReady s
      → Runs m hash finesse_util s
          (opened bytes)
          (chunk_file m hash finesse_util rounds s (new_ctx finesse_util.rabin_util) (opened bytes))
  runs m s e ready =
      chunk_file-Runs m hash finesse_util rounds s (opened bytes) program
        (new-IsRunnable config memory v m s bytes e ready are_bytes short) enough

  -- For suitable settings (sizes in order up to the `2 ^ 14` bytes of the buffer for a chunk, a
  -- window of 1 to `2 ^ 32 - 1` bytes, a file buffer of 1 to 4095 MB), memory as large as was
  -- asked for, a file of fewer than `2 ^ 64` bytes more rounds than it has bytes, and
  -- `ExtractFeature` with 12 features in 3 super-features of 4, a window of at least one byte and
  -- a new context of it: for each of the types 0, 1 and 2 the factory makes a chunker, the test
  -- program makes the same one, and its two loops over the file end with chunks that are the file
  -- one after the other, none empty or above the largest size, with as many lists of features as
  -- chunks, and with counters that have grown by the bytes and the chunks.
  pub create_chunker-Chooses :
      (type : ℕ) → type ≤ 2 → Chooses hash finesse_util config memory type rounds bytes
  unfolding create_chunker chosen_chunker parse_type test_chunker rabin_object new_rabin_chunker
      new_fast_cdc
  create_chunker-Chooses zero h =
      (_, refl, refl, runs fixed (new_abs_chunker config memory) refl tt)
  create_chunker-Chooses (suc zero) h =
      let (c, made, on_base, empty, window) = new_rabin config memory v in
      let object : AnyChunker = record { kind = rabin_cdc; state = c } in
      let created : rabin_object
            (new_rabin_chunker (new_abs_chunker config memory) config.chunker_sliding_win_size)
          ≡ done object =
        ap rabin_object made in
      (object, created, created, runs rabin_cdc c on_base (empty, window))
  create_chunker-Chooses (suc (suc zero)) h =
      let base = new_abs_chunker config memory in
      let (order, word) = base_order config memory v in
      (
        _,
        refl,
        refl,
        runs fast_cdc (new_fast_cdc base) refl
            (new_fast_cdc-IsFast base order word, base_bytes config memory v),
      )
  create_chunker-Chooses (suc (suc (suc n))) h = absurd (omega (arith, h))
