-- ===== src/Tests/Factory.antt =====
-- The chunker factory at a concrete configuration.
use my_codebase.Base.{ℕ, zero, suc, refl, List, [], ◌∷◌, length, replicate, length-replicate, arith}
use my_codebase.Configure.{Configure}
use my_codebase.Stream.{IsBytes}
use my_codebase.Rabin.Tables.{util, window_size-util}
use my_codebase.Finesse.{FinesseUtil}
use my_codebase.Finesse.Groups.{IsProgram}
use my_codebase.Chunker.Factory.Run.{IsSuitable, Chooses, create_chunker-Chooses}

abbrev settings : Configure
settings = record {
  chunking_type = 1;
  max_chunk_size = 16384;
  min_chunk_size = 4096;
  avg_chunk_size = 8192;
  chunker_sliding_win_size = 48;
  read_size = 128;
  similar_sliding_win_size = 48;
  storage_server_ip = "";
  storage_server_port = 0;
  recipe_root_path = "";
  container_root_path = "";
  fp_2_chunk_db = "";
  feature_2_fp_db = "";
  container_cache_size = 0;
  km_ip = "";
  km_port = 0;
  feature_2_key_db = "";
  client_id = 0;
  send_chunk_batch_size = 1;
  send_recipe_batch_size = 1;
  user_key = "";
}

cleared : ℕ → List ℕ
cleared n = replicate n 0

cleared_bytes : (n : ℕ) → IsBytes (replicate n 0)
cleared_bytes zero = tt
cleared_bytes (suc n) = (omega arith, cleared_bytes n)

settings-IsSuitable : IsSuitable settings cleared
unfolding cleared
settings-IsSuitable = record {
  min_pos = omega arith;
  min_avg = omega arith;
  avg_max = omega arith;
  max_buf = omega arith;
  window = omega arith;
  window_word = omega arith;
  reads = omega arith;
  word = omega arith;
  allocated = λ n. length-replicate n 0;
  bytes = cleared_bytes;
}

abbrev text : List ℕ
text = 104 ∷ 101 ∷ 108 ∷ 108 ∷ 111 ∷ []

abbrev finesse : FinesseUtil
finesse = record {
  super_feature_per_chunk = 3;
  feature_per_chunk = 12;
  feature_per_super_feature = 4;
  rabin_util = util 2;
}

finesse-IsProgram : IsProgram finesse
finesse-IsProgram = record {
  super_feature = refl;
  feature = refl;
  per_super = refl;
  window = omega (arith, window_size-util 2);
}

create_chunker_example : Chooses length finesse settings cleared 1 6 text
create_chunker_example =
    create_chunker-Chooses length finesse finesse-IsProgram settings cleared settings-IsSuitable 6
      text (omega arith) (omega arith) (omega arith) 1 (omega arith)
