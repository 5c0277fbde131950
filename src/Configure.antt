-- ===== src/Configure.antt =====
-- include/configure.h and src/util/configure.cc: the settings, read from a JSON file.
use Prim.Native.String.{String}
use my_codebase.Base.{ℕ, ◌%◌, ◌≤◌, Option, none, some, if◌then◌else◌, ◌==◌, ◌≡◌, arith, ◌↔◌}

pub record Configure : Type 0 where
  pub chunking_type : ℕ
  pub max_chunk_size : ℕ
  pub min_chunk_size : ℕ
  pub avg_chunk_size : ℕ
  pub chunker_sliding_win_size : ℕ
  pub read_size : ℕ
  pub similar_sliding_win_size : ℕ
  pub storage_server_ip : String
  pub storage_server_port : ℕ
  pub recipe_root_path : String
  pub container_root_path : String
  pub fp_2_chunk_db : String
  pub feature_2_fp_db : String
  pub container_cache_size : ℕ
  pub km_ip : String
  pub km_port : ℕ
  pub feature_2_key_db : String
  pub client_id : ℕ
  pub send_chunk_batch_size : ℕ
  pub send_recipe_batch_size : ℕ
  pub user_key : String

-- The parsed file (boost's `ptree`): `root.get<T>(path)`, which throws where the path is absent or
-- its text is no T. Ports are taken as the numbers that the file writes, which are not negative.
pub record Ptree : Type 0 where
  pub get_u64 : String → Option ℕ
  pub get_u32 : String → Option ℕ
  pub get_int : String → Option ℕ
  pub get_string : String → Option String

-- How `ReadConfig` ends: with the settings, by an exception out of `get`, by `exit`, or by the fault
-- of `%` by zero.
pub data Reading {ℓ} (A : Type ℓ) : Type ℓ where
  done : A → Reading A
  throws exits faults : Reading A

infixl 5 ◌>>=◌
abbrev pub ◌>>=◌ {ℓ κ} : {A : Type ℓ} {B : Type κ} → Reading A → (A → Reading B) → Reading B
done a >>= f = f a
throws >>= f = throws
exits >>= f = exits
faults >>= f = faults

abbrev or_throw {ℓ} : {A : Type ℓ} → Option A → Reading A
or_throw none = throws
or_throw (some a) = done a

-- The last test of `ReadConfig`.
check_batches : Configure → Reading Configure
check_batches c =
    if c.send_chunk_batch_size == 0
    then faults
    else if c.send_recipe_batch_size % c.send_chunk_batch_size == 0
    then done c
    else exits

pub read_config : Ptree → Reading Configure
unfolding check_batches
read_config root = do
  chunking_type ← or_throw (root.get_u64 "Chunker.chunking_type")
  max_chunk_size ← or_throw (root.get_u64 "Chunker.max_chunk_size")
  min_chunk_size ← or_throw (root.get_u64 "Chunker.min_chunk_size")
  avg_chunk_size ← or_throw (root.get_u64 "Chunker.avg_chunk_size")
  chunker_sliding_win_size ← or_throw (root.get_u64 "Chunker.sliding_win_size")
  read_size ← or_throw (root.get_u64 "Chunker.read_size")
  similar_sliding_win_size ← or_throw (root.get_u64 "Similar.sliding_win_size")
  storage_server_ip ← or_throw (root.get_string "StorageServer.ip")
  storage_server_port ← or_throw (root.get_int "StorageServer.port")
  recipe_root_path ← or_throw (root.get_string "StorageServer.recipe_root_path")
  container_root_path ← or_throw (root.get_string "StorageServer.container_root_path")
  fp_2_chunk_db ← or_throw (root.get_string "StorageServer.fp_2_chunk_db")
  feature_2_fp_db ← or_throw (root.get_string "StorageServer.feature_2_fp_db")
  container_cache_size ← or_throw (root.get_u64 "StorageServer.container_cache_size")
  km_ip ← or_throw (root.get_string "KeyServer.ip")
  km_port ← or_throw (root.get_int "KeyServer.port")
  feature_2_key_db ← or_throw (root.get_string "KeyServer.feature_2_key_db")
  client_id ← or_throw (root.get_u32 "Client.id")
  send_chunk_batch_size ← or_throw (root.get_u64 "Client.send_chunk_batch_size")
  send_recipe_batch_size ← or_throw (root.get_u64 "Client.send_recipe_batch_size")
  user_key ← or_throw (root.get_string "Client.user_key")
  check_batches (record {
    chunking_type = chunking_type;
    max_chunk_size = max_chunk_size;
    min_chunk_size = min_chunk_size;
    avg_chunk_size = avg_chunk_size;
    chunker_sliding_win_size = chunker_sliding_win_size;
    read_size = read_size;
    similar_sliding_win_size = similar_sliding_win_size;
    storage_server_ip = storage_server_ip;
    storage_server_port = storage_server_port;
    recipe_root_path = recipe_root_path;
    container_root_path = container_root_path;
    fp_2_chunk_db = fp_2_chunk_db;
    feature_2_fp_db = feature_2_fp_db;
    container_cache_size = container_cache_size;
    km_ip = km_ip;
    km_port = km_port;
    feature_2_key_db = feature_2_key_db;
    client_id = client_id;
    send_chunk_batch_size = send_chunk_batch_size;
    send_recipe_batch_size = send_recipe_batch_size;
    user_key = user_key;
  })

-- What `ReadConfig` accepts: every setting is the file's, and the recipe batch is a multiple of the
-- chunk batch, which is not zero.
pub record IsAccepted (root : Ptree) (c : Configure) : Type 0 where
  pub chunking_type_read : root.get_u64 "Chunker.chunking_type" ≡ some c.chunking_type
  pub max_chunk_size_read : root.get_u64 "Chunker.max_chunk_size" ≡ some c.max_chunk_size
  pub min_chunk_size_read : root.get_u64 "Chunker.min_chunk_size" ≡ some c.min_chunk_size
  pub avg_chunk_size_read : root.get_u64 "Chunker.avg_chunk_size" ≡ some c.avg_chunk_size
  pub chunker_sliding_win_size_read :
      root.get_u64 "Chunker.sliding_win_size" ≡ some c.chunker_sliding_win_size
  pub read_size_read : root.get_u64 "Chunker.read_size" ≡ some c.read_size
  pub similar_sliding_win_size_read :
      root.get_u64 "Similar.sliding_win_size" ≡ some c.similar_sliding_win_size
  pub storage_server_ip_read : root.get_string "StorageServer.ip" ≡ some c.storage_server_ip
  pub storage_server_port_read : root.get_int "StorageServer.port" ≡ some c.storage_server_port
  pub recipe_root_path_read :
      root.get_string "StorageServer.recipe_root_path" ≡ some c.recipe_root_path
  pub container_root_path_read :
      root.get_string "StorageServer.container_root_path" ≡ some c.container_root_path
  pub fp_2_chunk_db_read : root.get_string "StorageServer.fp_2_chunk_db" ≡ some c.fp_2_chunk_db
  pub feature_2_fp_db_read :
      root.get_string "StorageServer.feature_2_fp_db" ≡ some c.feature_2_fp_db
  pub container_cache_size_read :
      root.get_u64 "StorageServer.container_cache_size" ≡ some c.container_cache_size
  pub km_ip_read : root.get_string "KeyServer.ip" ≡ some c.km_ip
  pub km_port_read : root.get_int "KeyServer.port" ≡ some c.km_port
  pub feature_2_key_db_read : root.get_string "KeyServer.feature_2_key_db" ≡ some c.feature_2_key_db
  pub client_id_read : root.get_u32 "Client.id" ≡ some c.client_id
  pub send_chunk_batch_size_read :
      root.get_u64 "Client.send_chunk_batch_size" ≡ some c.send_chunk_batch_size
  pub send_recipe_batch_size_read :
      root.get_u64 "Client.send_recipe_batch_size" ≡ some c.send_recipe_batch_size
  pub user_key_read : root.get_string "Client.user_key" ≡ some c.user_key
  pub positive : 1 ≤ c.send_chunk_batch_size
  pub multiple : c.send_recipe_batch_size % c.send_chunk_batch_size ≡ 0

read_config-IsAccepted :
    (root : Ptree) (c : Configure) → read_config root ≡ done c → IsAccepted root c
unfolding read_config
read_config-IsAccepted root c h = ground arith

read_config-eq-done : (root : Ptree) (c : Configure) → IsAccepted root c → read_config root ≡ done c
unfolding read_config
read_config-eq-done root c v = ground arith

-- `ReadConfig` succeeds with the given settings exactly when the file holds all of them, the chunk
-- batch is not zero and the recipe batch is a multiple of it.
pub read_config_iff :
    (root : Ptree) (c : Configure) → (read_config root ≡ done c) ↔ IsAccepted root c
read_config_iff root c = (read_config-IsAccepted root c, read_config-eq-done root c)
