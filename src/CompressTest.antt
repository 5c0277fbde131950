-- ===== src/CompressTest.antt =====
-- src/app/compress_test.cc: compresses a file chunk by chunk, and decompresses each chunk again.
pub mod Ratio
pub mod Options
use my_codebase.Base.{
  ℕ, zero, suc, ◌+◌, ◌==◌, u32, u64, if◌then◌else◌, List, [], ◌∷◌, take, length, Option, none, some,
  ◌>>=◌, Bool, true, false,
}
use my_codebase.Process.{Outcome, returned, exited}
use my_codebase.CryptoTest.{parse_chunk_size}
use my_codebase.Stream.{IStream, read}
use my_codebase.InMemDb.{bytes_eq}
use my_codebase.Compress.{CompressUtil, Libraries, compress_one_chunk, decompress_one_chunk}

-- The option `-t`. Here and below a number is `atoi(optarg)` that is not negative.
unfoldable pub parse_compress_type : ℕ → Outcome ℕ
parse_compress_type n =
    if n == 0
    then returned 0
    else if n == 1
    then returned 1
    else if n == 2
    then returned 2
    else exited

-- What `getopt` delivers.
pub data CompressOption : Type 0 where
  option_i : CompressOption
  option_t option_l option_s : ℕ → CompressOption
  option_unknown : CompressOption

-- The variables that the options set; `type` is not initialised.
pub record CompressSettings : Type 0 where
  pub chunk_size : ℕ
  pub level : ℕ
  pub compress_type : Option ℕ

abbrev pub set_type : Outcome ℕ → CompressSettings → Outcome CompressSettings
set_type exited s = exited
set_type (returned t) s = returned (record s { compress_type = some t })

abbrev pub set_chunk_size : Outcome ℕ → CompressSettings → Outcome CompressSettings
set_chunk_size exited s = exited
set_chunk_size (returned n) s = returned (record s { chunk_size = n })

unfoldable pub parse_compress_option : CompressOption → CompressSettings → Outcome CompressSettings
parse_compress_option option_i s = returned s
parse_compress_option (option_t n) s = set_type (parse_compress_type n) s
parse_compress_option (option_l n) s = returned (record s { level = u32 n })
parse_compress_option (option_s n) s = set_chunk_size (parse_chunk_size n) s
parse_compress_option option_unknown s = exited

abbrev pub unless_exited :
    (CompressSettings → Outcome CompressSettings)
    → Outcome CompressSettings
    → Outcome CompressSettings
unless_exited next exited = exited
unless_exited next (returned s) = next s

-- The loop over the options.
unfoldable pub parse_compress_options :
    List CompressOption → CompressSettings → Outcome CompressSettings
parse_compress_options [] s = returned s
parse_compress_options (o ∷ options) s =
    unless_exited (λ s'. parse_compress_options options s') (parse_compress_option o s)

-- The sizes that the program prints.
pub record CompressTotals : Type 0 where
  pub total_uncompressed_size : ℕ
  pub total_compressed_size : ℕ

abbrev pub add_sizes : CompressTotals → ℕ → ℕ → CompressTotals
add_sizes t read_byte_num compressed_chunk_size = record {
  total_uncompressed_size = u64 (t.total_uncompressed_size + read_byte_num);
  total_compressed_size = u64 (t.total_compressed_size + compressed_chunk_size);
}

-- The size that the chunk is compressed to, if the test of the first chunk lets it through.
unfoldable pub check_first : Bool → List ℕ → List ℕ → ℕ → Option ℕ
check_first false bytes uncompressed size = some size
check_first true bytes uncompressed size =
    if u32 (length uncompressed) == length bytes
    then if bytes_eq bytes (take (length bytes) uncompressed) then some size else none
    else none

module _ (libs : Libraries) (util : CompressUtil) where
  -- The work on one chunk: its compressed size. `none` is an `exit`, as in `CompressOneChunk`.
  unfoldable pub measure_chunk : Bool → List ℕ → Option ℕ
  measure_chunk correct_test bytes = do
    output ← compress_one_chunk libs util bytes
    let size = u32 (length output.1)
    uncompressed ← decompress_one_chunk libs util (take size output.1)
    check_first correct_test bytes uncompressed size

  abbrev pub after_measure :
      (ℕ → Option (Option CompressTotals)) → Option ℕ → Option (Option CompressTotals)
  after_measure next none = some none
  after_measure next (some size) = next size

  -- The loop over the file; the outer `none` is no rounds left.
  unfoldable pub measure_file :
      ℕ → ℕ → Bool → CompressTotals → IStream → Option (Option CompressTotals)
  measure_file zero chunk_size correct_test t f = none
  measure_file (suc rounds) chunk_size correct_test t f =
      let (bytes, f') = read chunk_size f in
      if length bytes == 0
      then some (some t)
      else after_measure
          (λ size.
            let t' = add_sizes t (length bytes) size in
            if f'.eof then some (some t') else measure_file rounds chunk_size false t' f')
          (measure_chunk correct_test bytes)
