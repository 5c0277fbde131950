-- ===== src/CompressTest/Ratio.antt =====
-- The loop over a file ends, and no file grows.
use mathlib.Core.Path.{subst}
use my_codebase.Base.{
  drop-drop, ◌*◌, drop, take, some_inj, none_or_some, Option-cases, ℕ, zero, suc, ◌+◌, ◌==◌, ==_iff,
  ==-positive, ◌≤◌, ◌<◌, ◌^◌, ◌≡◌, refl, sym, ap, ◌∙◌, u32, List, take, length, Option, none, some,
  Bool, true, false, Bool-cases, ◌⊎◌, inl, inr, arith, take_all, length-take, length-drop,
}
use my_codebase.Stream.{IStream, read, IsGood, more, at_end, read-AfterRead}
use my_codebase.InMemDb.Index.{bytes_eq_refl}
use my_codebase.Compress.{
  CompressUtil, CompressType, lz4_compress_type, zstd_compress_type, zlib_compress_type, Libraries,
  try_compress, try_decompress, pack, compress_one_chunk, decompress_one_chunk,
}
use my_codebase.Compress.RoundTrip.{IsLossless, decompress_one_chunk-compress}
use my_codebase.CompressTest.{
  CompressTotals, check_first, measure_chunk, after_measure, add_sizes, measure_file,
}

-- The libraries write no more than there is room for.
pub record IsBounded (libs : Libraries) : Type 0 where
  pub lz4 :
      (level room : ℕ) (xs ys : List ℕ)
      → libs.lz4_compress_fast level xs room ≡ some ys
      → length ys ≤ room
  pub zstd :
      (level room : ℕ) (xs ys : List ℕ)
      → libs.zstd_compress level xs room ≡ some ys
      → length ys ≤ room
  pub zlib :
      (level room : ℕ) (xs ys : List ℕ)
      → libs.zlib_deflate level xs room ≡ some (some ys)
      → length ys ≤ room

positive_of : (n : ℕ) → (n == 0) ≡ false → 1 ≤ n
positive_of n h = ground arith

module _ (libs : Libraries) (util : CompressUtil) where
  -- What the compression of these bytes gives, `none` where it exits.
  abbrev pub compressed : List ℕ → Option (Option (List ℕ))
  compressed xs = try_compress libs util.compress_type util.compress_level xs

  -- A chunk that is kept as it is, and then taken for compressed data or refused.
  abbrev pub IsMistaken : List ℕ → Type 0
  IsMistaken xs =
      (compressed xs ≡ some none) × ¬ (try_decompress libs util.compress_type xs ≡ some none)

  -- A chunk: its size, or an exit and its reason.
  pub data Measures (xs : List ℕ) : Option ℕ → Type 0 where
    measures : (size : ℕ) → size ≤ length xs → Measures xs (some size)
    fails : compressed xs ≡ none → Measures xs none
    misleads : IsMistaken xs → Measures xs none

  -- The chunk at `k` when these bytes are read in chunks of this size.
  abbrev pub chunk_at : ℕ → ℕ → List ℕ → List ℕ
  chunk_at size k bytes = take size (drop (k * size) bytes)

  chunk_at_start : (size : ℕ) (bytes : List ℕ) → chunk_at size 0 bytes ≡ take size bytes
  chunk_at_start size bytes =
      let start : 0 * size ≡ 0 = omega arith in ap (λ i. take size (drop i bytes)) start

  -- A file: a total that is the number of its bytes with a compressed one that is no larger, or the
  -- exit of a compression or of a chunk that is mistaken.
  pub data Ends (size : ℕ) (bytes : List ℕ) (n : ℕ) : Option (Option CompressTotals) → Type 0 where
    ends :
        (t : CompressTotals)
        → t.total_uncompressed_size ≡ n
        → t.total_compressed_size ≤ n
        → Ends size bytes n (some (some t))
    exits :
        (k : ℕ)
        → k * size < length bytes
        → (compressed (chunk_at size k bytes) ≡ none) ⊎ IsMistaken (chunk_at size k bytes)
        → Ends size bytes n (some none)

  -- A file after its first chunk.
  Ends-on :
      (size : ℕ) (bytes : List ℕ) (n : ℕ) (r : Option (Option CompressTotals))
      → size ≤ length bytes
      → Ends size (drop size bytes) n r
      → Ends size bytes n r
  Ends-on size bytes n r full (ends t same small) = ends t same small
  Ends-on size bytes n r full (exits k inside why) =
      let next : size + k * size ≡ suc k * size = omega arith in
      let there : drop (k * size) (drop size bytes) ≡ drop (suc k * size) bytes =
        drop-drop (k * size) size bytes ∙ ap (λ i. drop i bytes) next in
      exits (suc k) (omega (arith, next, inside, length-drop size bytes, full)) (rw there at why)

  module _ (law : IsLossless libs) (bound : IsBounded libs) where
    compressed-le :
        (type : CompressType) (level : ℕ) (xs ys : List ℕ)
        → try_compress libs type level xs ≡ some (some ys)
        → length ys ≤ length xs
    unfolding try_compress
    compressed-le lz4_compress_type level xs ys e = bound.lz4 level (length xs) xs ys (some_inj e)
    compressed-le zstd_compress_type level xs ys e = bound.zstd level (length xs) xs ys (some_inj e)
    compressed-le zlib_compress_type level xs ys e = bound.zlib level (length xs) xs ys e

    pack-le :
        (xs : List ℕ) (result : Option (List ℕ))
        → compressed xs ≡ some result
        → length (pack xs result).1 ≤ length xs
    unfolding pack
    pack-le xs none e = omega arith
    pack-le xs (some ys) e = compressed-le util.compress_type util.compress_level xs ys e

    check_passes :
        (correct_test : Bool) (xs : List ℕ) (size : ℕ)
        → length xs ≤ 2 ^ 14
        → check_first correct_test xs xs size ≡ some size
    unfolding check_first
    check_passes false xs size short = refl
    check_passes true xs size short =
        let word : u32 (length xs) ≡ length xs = omega (arith, short) in
        rw (
          word,
          (==_iff (length xs) (length xs)).1 refl,
          take_all (length xs) xs (omega arith),
          bytes_eq_refl xs,
        )

    first_size :
        (correct_test : Bool) (xs uncompressed : List ℕ) (sent size : ℕ)
        → check_first correct_test xs uncompressed sent ≡ some size
        → size ≡ sent
    unfolding check_first
    first_size false xs uncompressed sent size e = sym (some_inj e)
    first_size true xs uncompressed sent size e = ground (arith, e)

    exits_with :
        (xs : List ℕ) (correct_test : Bool)
        → compressed xs ≡ none
        → measure_chunk libs util correct_test xs ≡ none
    unfolding measure_chunk compress_one_chunk
    exits_with xs correct_test e = rw e

    passes :
        (correct_test : Bool) (xs : List ℕ) (result : Option (List ℕ))
        → 1 ≤ length xs
        → length xs ≤ 2 ^ 14
        → compressed xs ≡ some result
        → (result ≡ none → try_decompress libs util.compress_type xs ≡ some none)
        → measure_chunk libs util correct_test xs ≡ some (length (pack xs result).1)
    unfolding measure_chunk
    passes correct_test xs result pos short e raw =
        let (packed, unpacked) =
          decompress_one_chunk-compress libs law xs pos short util result e raw in
        let output = (pack xs result).1 in
        let word : u32 (length output) ≡ length output =
          omega (arith, pack-le xs result e, short) in
        rw (
          packed,
          word,
          take_all (length output) output (omega arith),
          unpacked,
          check_passes correct_test xs (length output) short,
        )

    -- Without a compression the size is that of the chunk, if the test does not end the program.
    kept_size :
        (correct_test : Bool) (xs : List ℕ) (size : ℕ)
        → length xs ≤ 2 ^ 14
        → compressed xs ≡ some none
        → measure_chunk libs util correct_test xs ≡ some size
        → size ≤ length xs
    unfolding measure_chunk compress_one_chunk pack
    kept_size correct_test xs size short e m =
        let sent = u32 (length xs) in
        let word : sent ≡ length xs = omega (arith, short) in
        elim (Option-cases (decompress_one_chunk libs util (take sent xs))) [
          | inl stopped ↦ absurd (none_or_some (rw (e, stopped) at m))
          | inr (uncompressed, back) ↦
              omega
                (arith, first_size correct_test xs uncompressed sent size (rw (e, back) at m), word)
        ]

    measure_chunk-Measures :
        (correct_test : Bool) (xs : List ℕ)
        → 1 ≤ length xs
        → length xs ≤ 2 ^ 14
        → Measures xs (measure_chunk libs util correct_test xs)
    measure_chunk-Measures correct_test xs pos short = elim (Option-cases (compressed xs)) [
      | inl failed ↦ rw (exits_with xs correct_test failed) (fails failed)
      | inr (some ys, e) ↦
          rw (passes correct_test xs (some ys) pos short e (λ h. absurd (none_or_some (sym h))))
            (measures (length (pack xs (some ys)).1) (pack-le xs (some ys) e))
      | inr (none, e) ↦ elim (Option-cases (measure_chunk libs util correct_test xs)) [
        | inl stopped ↦ rw stopped (
            misleads (
              e,
              λ raw.
                  none_or_some (sym stopped ∙ passes correct_test xs none pos short e (λ h. raw)),
            ))
        | inr (size, m) ↦ rw m (measures size (kept_size correct_test xs size short e m))
      ]
    ]

    after_measure-Ends :
        (chunk_size n : ℕ) (bytes xs : List ℕ) (next : ℕ → Option (Option CompressTotals))
        (r : Option ℕ)
        → take chunk_size bytes ≡ xs
        → 1 ≤ length bytes
        → Measures xs r
        → ((size : ℕ) → size ≤ length xs → Ends chunk_size bytes n (next size))
        → Ends chunk_size bytes n (after_measure libs util next r)
    after_measure-Ends chunk_size n bytes xs next r first inside (measures size small) go =
        go size small
    after_measure-Ends chunk_size n bytes xs next r first inside (fails e) go =
        exits 0 (omega (arith, inside)) (
          subst (λ t. (compressed t ≡ none) ⊎ IsMistaken t)
            (sym (chunk_at_start chunk_size bytes ∙ first)) (inl e))
    after_measure-Ends chunk_size n bytes xs next r first inside (misleads e) go =
        exits 0 (omega (arith, inside)) (
          subst (λ t. (compressed t ≡ none) ⊎ IsMistaken t)
            (sym (chunk_at_start chunk_size bytes ∙ first)) (inr e))

    -- For libraries that turn their output back into the input and write no more than there is
    -- room for, a good stream, chunks of 1 to `2 ^ 14` bytes, totals of which the compressed one
    -- is no larger, the other with the stream's length below `2 ^ 64`, and more rounds than the
    -- stream has bytes: the loop of the program ends. Either the one total has grown by the
    -- stream's length and the compressed one is no larger, or the program has exited and there is
    -- a chunk of the stream whose compression exits, or that is kept as it is and then mistaken
    -- for compressed data or refused.
    pub measure_file-Ends :
        (rounds chunk_size n : ℕ) (correct_test : Bool) (t : CompressTotals) (f : IStream)
        → 1 ≤ chunk_size
        → chunk_size ≤ 2 ^ 14
        → IsGood f
        → n ≡ t.total_uncompressed_size + length f.rest
        → t.total_compressed_size ≤ t.total_uncompressed_size
        → n < 2 ^ 64
        → length f.rest < rounds
        → Ends chunk_size f.rest n (measure_file libs util rounds chunk_size correct_test t f)
    unfolding measure_file
    measure_file-Ends zero chunk_size n correct_test t f pos most good size less word enough =
        absurd (omega (arith, enough))
    measure_file-Ends (suc rounds) chunk_size n correct_test t f pos most good size less word
          enough =
        let (bytes, f') = read chunk_size f in
        elim (read-AfterRead chunk_size f good) [
          | at_end short all rest eof ↦ elim (Bool-cases (length bytes == 0)) [
            | inl none_left ↦
                let done = (==_iff (length bytes) 0).0 none_left in
                rw none_left
                  (ends t (omega (arith, size, ap length all, done)) (omega (arith, size, less)))
            | inr some_left ↦
                let pos' : 1 ≤ length bytes = positive_of (length bytes) some_left in
                rw some_left (
                  after_measure-Ends chunk_size n f.rest bytes _
                    (measure_chunk libs util correct_test bytes)
                    (take_all chunk_size f.rest (omega (arith, short)) ∙ sym all)
                    (omega (arith, ap length all, pos'))
                    (measure_chunk-Measures correct_test bytes pos'
                      (omega (arith, ap length all, short, most)))
                    (λ m small. rw eof (
                      ends (add_sizes t (length bytes) m) (omega (arith, size, word, ap length all))
                        (omega (arith, size, word, ap length all, less, small)))))
          ]
          | more full all rest eof good' ↦
              let whole : length bytes ≡ chunk_size =
                omega (arith, ap length all, length-take chunk_size f.rest, full) in
              let fewer : length f'.rest + chunk_size ≡ length f.rest =
                omega (arith, ap length rest, length-drop chunk_size f.rest, full) in
              let some_left = ==-positive (length bytes) (omega (arith, whole, pos)) in
              rw some_left (
                after_measure-Ends chunk_size n f.rest bytes _
                  (measure_chunk libs util correct_test bytes) (sym all) (omega (arith, full, pos))
                  (measure_chunk-Measures correct_test bytes (omega (arith, whole, pos))
                    (omega (arith, whole, most)))
                  (λ m small. rw eof (
                    Ends-on chunk_size f.rest n _ full (
                      rw rest at (
                        measure_file-Ends rounds chunk_size n false (add_sizes t (length bytes) m)
                          f' pos most good' (omega (arith, size, word, whole, fewer))
                          (omega (arith, size, word, whole, fewer, less, small)) word
                          (omega (arith, fewer, pos, enough)))))))
        ]
