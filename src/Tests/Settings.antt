-- ===== src/Tests/Settings.antt =====
-- The settings and the arithmetic helpers at concrete inputs.
use my_codebase.Base.{
  some_inj, none_or_some, ℕ, List, Option, length, ltb, if◌then◌else◌, Bool-cases, inl, inr, ap,
  ◌≤◌, true, none, refl, sym, ◌∷◌, [], ◌≡◌, ◌↔◌, arith, some,
}
use my_codebase.Compress.{
  CompressUtil, lz4_compress_type, zstd_compress_type, Libraries, compress_one_chunk,
  decompress_one_chunk, pack, try_compress, try_decompress, unpack,
}
use my_codebase.Compress.RoundTrip.{IsLossless, decompress_one_chunk-compress}
use my_codebase.CompressTest.{CompressTotals, measure_file, measure_chunk, check_first}
use my_codebase.CompressTest.Ratio.{IsBounded, Ends, measure_file-Ends}
use my_codebase.Stream.{opened, read}
use my_codebase.InMemDb.{bytes_eq}
use my_codebase.Configure.{Configure, Ptree, read_config, done, IsAccepted, read_config_iff}

-- A file in which every path holds the same.
abbrev all_fours : Ptree
all_fours = record {
  get_u64 = λ path. some 4;
  get_u32 = λ path. some 4;
  get_int = λ path. some 4;
  get_string = λ path. some "";
}

abbrev fours : Configure
fours = record {
  chunking_type = 4;
  max_chunk_size = 4;
  min_chunk_size = 4;
  avg_chunk_size = 4;
  chunker_sliding_win_size = 4;
  read_size = 4;
  similar_sliding_win_size = 4;
  storage_server_ip = "";
  storage_server_port = 4;
  recipe_root_path = "";
  container_root_path = "";
  fp_2_chunk_db = "";
  feature_2_fp_db = "";
  container_cache_size = 4;
  km_ip = "";
  km_port = 4;
  feature_2_key_db = "";
  client_id = 4;
  send_chunk_batch_size = 4;
  send_recipe_batch_size = 4;
  user_key = "";
}

read_config_example : (read_config all_fours ≡ done fours) ↔ IsAccepted all_fours fours
read_config_example = read_config_iff all_fours fours

-- A copy, if there is room for it.
abbrev copy : ℕ → List ℕ → Option (List ℕ)
copy room xs = if ltb room (length xs) then none else some xs

copy-eq : (room : ℕ) (xs ys : List ℕ) → copy room xs ≡ some ys → xs ≡ ys
copy-eq room xs ys e = elim (Bool-cases (ltb room (length xs))) [
  | inl full ↦ absurd (none_or_some (rw full at e))
  | inr free ↦ some_inj (rw free at e)
]

copy-le : (room : ℕ) (xs ys : List ℕ) → copy room xs ≡ some ys → length ys ≤ room
copy-le room xs ys e =
    let short : length xs ≤ room = ground (arith, e) in
    omega (arith, short, ap length (copy-eq room xs ys e))

-- Libraries that copy, one of which finds no room and one of which fails.
abbrev copiers : Libraries
copiers = record {
  lz4_compress_fast = λ level xs room. copy room xs;
  lz4_decompress_safe = λ ys room. some ys;
  zstd_compress = λ level xs room. none;
  zstd_decompress = λ ys room. none;
  zlib_deflate = λ level xs room. none;
  zlib_inflate = λ ys room. none;
}

copiers-IsLossless : IsLossless copiers
copiers-IsLossless = record {
  lz4 = λ level room xs ys e pos fits. ap some (sym (copy-eq room xs ys e));
  zstd = λ level room xs ys e fits. absurd (none_or_some e);
  zlib = λ level room xs ys e fits. absurd (none_or_some e);
}

abbrev zstd_util : CompressUtil
zstd_util = record { compress_type = zstd_compress_type; compress_level = 1 }

decompress_example :
    (compress_one_chunk copiers zstd_util (7 ∷ 7 ∷ []) ≡ some (pack (7 ∷ 7 ∷ []) none))
    × (decompress_one_chunk copiers zstd_util (pack (7 ∷ 7 ∷ []) none).1 ≡ some (7 ∷ 7 ∷ []))
unfolding try_compress try_decompress
decompress_example =
    decompress_one_chunk-compress copiers copiers-IsLossless (7 ∷ 7 ∷ []) (omega arith)
      (omega arith) zstd_util none refl (λ _. refl)

copiers-IsBounded : IsBounded copiers
copiers-IsBounded = record {
  lz4 = λ level room xs ys e. copy-le room xs ys e;
  zstd = λ level room xs ys e. absurd (none_or_some e);
  zlib = λ level room xs ys e. absurd (none_or_some e);
}

abbrev lz4_util : CompressUtil
lz4_util = record { compress_type = lz4_compress_type; compress_level = 1 }

abbrev no_bytes : CompressTotals
no_bytes = record { total_uncompressed_size = 0; total_compressed_size = 0 }

measure_file_example :
    Ends copiers lz4_util 2
      (7 ∷ 8 ∷ 9 ∷ [])
      3
      (measure_file copiers lz4_util 4 2 true no_bytes (opened (7 ∷ 8 ∷ 9 ∷ [])))
measure_file_example =
    measure_file-Ends copiers lz4_util copiers-IsLossless copiers-IsBounded 4 2 3 true no_bytes
      (opened (7 ∷ 8 ∷ 9 ∷ [])) (omega arith) (omega arith)
      (record { not_eof = refl; not_failed = refl }) refl (omega arith) (omega arith) (omega arith)

measure_three :
    measure_file copiers lz4_util 4 2 true no_bytes (opened (7 ∷ 8 ∷ 9 ∷ []))
    ≡ some (some (record { total_uncompressed_size = 3; total_compressed_size = 3 }))
unfolding measure_file measure_chunk compress_one_chunk try_compress pack decompress_one_chunk
    try_decompress unpack check_first read bytes_eq
measure_three = refl
