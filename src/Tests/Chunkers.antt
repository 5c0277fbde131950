-- ===== src/Tests/Chunkers.antt =====
-- The chunkers and their driver at concrete inputs.
use my_codebase.Base.{
  ℕ, ◌*◌, ◌<◌, take, ◌+◌, ◌-◌, ◌/◌, ◌≡◌, refl, arith, List, [], ◌∷◌, min, some, length,
}
use my_codebase.Stream.{opened, read, IsBytes}
use my_codebase.Rabin.{new_ctx}
use my_codebase.Rabin.Tables.{util, window_size-util}
use my_codebase.Chunker.{AbsChunker, load_data_from_file}
use my_codebase.Chunker.Loaded.{IsLoaded, IsCut, IsSized, load-IsLoaded}
use my_codebase.Finesse.{FinesseUtil, sub_chunk_size_of, extract_feature}
use my_codebase.Finesse.Groups.{IsProgram}
use my_codebase.Finesse.Local.{extract_feature-take}
use my_codebase.Chunker.Fixed
use my_codebase.Chunker.Fixed.{generate_one_chunk_fixed-IsCut}
use my_codebase.Chunker.FastCdc
use my_codebase.Chunker.FastCdc.{
  FastCdc, cal_normal_size, generate_fast_cdc_mask, new_fast_cdc, cut_point,
}
use my_codebase.Chunker.FastCdc.Cut.{IsFast, IsCutPoint, cut_point-IsCutPoint}
use my_codebase.Chunker.FastCdc.Sizes.{
  cal_normal_size_lem, cut_point-mask_s, generate_one_chunk_fast-IsCut,
}
use my_codebase.Chunker.RabinCdc
use my_codebase.Chunker.RabinCdc.{RabinChunker}
use my_codebase.Chunker.RabinCdc.Boundary.{IsFirstEnd, generate_one_chunk_rabin-IsCut}
use my_codebase.Chunker.Instances.{fixed, fast_cdc, rabin_cdc}
use my_codebase.Chunker.Driver.{
  Processed, cut_buffer, chunk_file, chunk_buf_size, cleared_buf, length-cleared_buf,
}
use my_codebase.Chunker.Driver.Buffer.{IsCutUp, cut_buffer-IsCutUp}
use my_codebase.Chunker.Driver.Run.{IsRunnable, Runs, chunk_file-Runs}

abbrev seven : List ℕ
seven = 10 ∷ 20 ∷ 30 ∷ 40 ∷ 50 ∷ 60 ∷ 70 ∷ []

-- A chunker of at most 5 bytes a buffer, before its first load.
abbrev empty : AbsChunker
empty = record {
  min_chunk_size = 1;
  avg_chunk_size = 2;
  max_chunk_size = 4;
  read_size = 5;
  read_data_buf = 0 ∷ 0 ∷ 0 ∷ 0 ∷ 0 ∷ [];
  pending_chunking_size = 0;
  remain_chunking_size = 0;
  cur_offset = 0;
  total_chunk_num = 0;
  total_file_size = 0;
}

-- One whose buffer has been loaded.
abbrev buffer : AbsChunker
buffer = record empty {
  read_data_buf = 10 ∷ 20 ∷ 30 ∷ 40 ∷ 50 ∷ [];
  pending_chunking_size = 5;
  remain_chunking_size = 5;
}

buffer-IsLoaded : IsLoaded buffer
buffer-IsLoaded = record {
  offsets = refl;
  inside = omega arith;
  word = omega arith;
  min_pos = omega arith;
  min_avg = omega arith;
  avg_max = omega arith;
  max_word = omega arith;
  bytes_counted = omega arith;
  chunks_counted = omega arith;
}

empty-IsSized : IsSized empty
empty-IsSized = record {
  buffer = refl;
  word = omega arith;
  min_pos = omega arith;
  min_avg = omega arith;
  avg_max = omega arith;
  max_word = omega arith;
}

seven-IsBytes : IsBytes seven
seven-IsBytes = omega arith

five-IsBytes : IsBytes buffer.read_data_buf
five-IsBytes = omega arith

load_size : length (read 5 (opened seven)).0 ≡ 5
unfolding read
load_size = refl

load_example : IsLoaded (load_data_from_file empty (opened seven)).1
load_example =
    load-IsLoaded empty-IsSized (opened seven) (omega (arith, load_size)) (omega (arith, load_size))

fixed_example :
    (data' : List ℕ) × (c' : AbsChunker) × (Fixed.generate_one_chunk buffer
      ≡ some (min 2 5, data', c'))
    × IsCut buffer (min 2 5) data' c'
fixed_example = generate_one_chunk_fixed-IsCut buffer buffer-IsLoaded (omega arith)

abbrev fast : FastCdc
fast = record { base = buffer; normal_chunk_size = 2; mask_s = 7; mask_l = 1 }

fast-IsFast : IsFast fast
fast-IsFast = record { min_max = omega arith; normal_max = omega arith; max_word = omega arith }

cut_point_example : (k : ℕ) × (cut_point fast seven 6 ≡ some k) × IsCutPoint fast seven 6 k
cut_point_example = cut_point-IsCutPoint fast-IsFast seven 6 seven-IsBytes (omega arith)

fast_example :
    (n : ℕ) × (data' : List ℕ) × (c' : AbsChunker) × (FastCdc.generate_one_chunk fast
      ≡ some (n, data', record fast { base = c' }))
    × IsCut buffer n data' c'
fast_example =
    generate_one_chunk_fast-IsCut fast buffer-IsLoaded fast-IsFast five-IsBytes (omega arith)

cal_normal_size_example :
    cal_normal_size 2048 8192 16384 ≡ min (8192 - (2048 + (2048 + 1) / 2)) 16384
cal_normal_size_example = cal_normal_size_lem 2048 8192 16384 (omega arith)

-- The sizes of the configuration that the repository ships.
abbrev shipped : AbsChunker
shipped = record empty { min_chunk_size = 4096; avg_chunk_size = 8192; max_chunk_size = 16384 }

mask_s_example :
    cut_point (new_fast_cdc shipped) seven 7
    ≡ cut_point (record (new_fast_cdc shipped) { mask_s = 0 }) seven 7
mask_s_example =
    cut_point-mask_s shipped seven 7 0 (omega arith) (omega arith) (omega arith) (omega arith)

abbrev rabin : RabinChunker
rabin = record { base = buffer; rabin_util = util 2; rabin_ctx = new_ctx (util 2); mask = 1 }

rabin_example :
    (n : ℕ) × (data' : List ℕ) × (c' : RabinChunker) × (RabinCdc.generate_one_chunk rabin
      ≡ some (n, data', c'))
    × IsCut buffer n data' c'.base
    × IsFirstEnd rabin n
    × (c'.rabin_ctx ≡ new_ctx c'.rabin_util)
    × (c'.rabin_util.window_size ≡ (util 2).window_size)
rabin_example =
    generate_one_chunk_rabin-IsCut rabin buffer-IsLoaded (omega arith) refl
      (omega (arith, window_size-util 2))

-- The program's numbers of features.
abbrev program : FinesseUtil
program = record {
  super_feature_per_chunk = 3;
  feature_per_chunk = 12;
  feature_per_super_feature = 4;
  rabin_util = util 2;
}

program-IsProgram : IsProgram program
program-IsProgram = record {
  super_feature = refl;
  feature = refl;
  per_super = refl;
  window = omega (arith, window_size-util 2);
}

cut_buffer_example :
    (r : Processed AbsChunker) × (cut_buffer fixed length program 6 buffer
        (new_ctx (util 2))
        (cleared_buf chunk_buf_size)
      ≡ some r)
    × IsCutUp buffer r.chunks r.state
    × (length r.features ≡ length r.chunks)
    × (r.rabin_ctx ≡ new_ctx (util 2))
    × Unit {0}
cut_buffer_example =
    cut_buffer-IsCutUp fixed length program 6 buffer (cleared_buf chunk_buf_size) program-IsProgram
      (length-cleared_buf chunk_buf_size) tt buffer-IsLoaded (omega arith) (omega arith)

empty-IsRunnable : IsRunnable fixed empty (opened seven)
empty-IsRunnable = record {
  ready = tt;
  sized = empty-IsSized;
  fits = omega arith;
  reads = omega arith;
  good = record { not_eof = refl; not_failed = refl };
  bytes = seven-IsBytes;
  bytes_counted = omega arith;
  chunks_counted = omega arith;
}

chunk_file_example :
    Runs fixed length program empty
      (opened seven)
      (chunk_file fixed length program 8 empty (new_ctx (util 2)) (opened seven))
chunk_file_example =
    chunk_file-Runs fixed length program 8 empty (opened seven) program-IsProgram empty-IsRunnable
      (omega arith)

-- The same run with the two other chunkers.
abbrev fast_start : FastCdc
fast_start = record fast { base = empty }

fast_run :
    Runs fast_cdc length program fast_start
      (opened seven)
      (chunk_file fast_cdc length program 8 fast_start (new_ctx (util 2)) (opened seven))
fast_run =
    chunk_file-Runs fast_cdc length program 8 fast_start (opened seven) program-IsProgram
      (record {
        ready = (
          record { min_max = omega arith; normal_max = omega arith; max_word = omega arith },
          omega arith,
        );
        sized = empty-IsSized;
        fits = omega arith;
        reads = omega arith;
        good = record { not_eof = refl; not_failed = refl };
        bytes = seven-IsBytes;
        bytes_counted = omega arith;
        chunks_counted = omega arith;
      })
      (omega arith)

abbrev rabin_start : RabinChunker
rabin_start = record rabin { base = empty }

rabin_run :
    Runs rabin_cdc length program rabin_start
      (opened seven)
      (chunk_file rabin_cdc length program 8 rabin_start (new_ctx (util 2)) (opened seven))
rabin_run =
    chunk_file-Runs rabin_cdc length program 8 rabin_start (opened seven) program-IsProgram
      (record {
        ready = (refl, omega (arith, window_size-util 2));
        sized = empty-IsSized;
        fits = omega arith;
        reads = omega arith;
        good = record { not_eof = refl; not_failed = refl };
        bytes = seven-IsBytes;
        bytes_counted = omega arith;
        chunks_counted = omega arith;
      })
      (omega arith)

-- Two features of four bytes, in memory that holds more.
abbrev finesse : FinesseUtil
finesse = record {
  super_feature_per_chunk = 1;
  feature_per_chunk = 2;
  feature_per_super_feature = 2;
  rabin_util = util 2;
}

sub_chunk_fits : 2 * sub_chunk_size_of 4 2 < 4 + sub_chunk_size_of 4 2
unfolding sub_chunk_size_of
sub_chunk_fits = omega arith

extract_feature_example :
    extract_feature length finesse (new_ctx (util 2)) seven 4
    ≡ extract_feature length finesse (new_ctx (util 2)) (take 4 seven) 4
extract_feature_example =
    extract_feature-take length finesse (new_ctx (util 2)) seven 4 (omega arith) sub_chunk_fits
