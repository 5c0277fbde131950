-- ===== src/Finesse.antt =====
-- include/dedup/finesse_util.h and src/dedup/finesse_util.cc: super-features of a chunk, for finding
-- similar chunks.
pub mod Local
pub mod Groups
pub mod Returns
use my_codebase.Base.{
  ℕ, zero, suc, ◌+◌, ◌-◌, ◌*◌, ◌/◌, ◌%◌, ◌==◌, leb, ltb, if◌then◌else◌, List, [], ◌∷◌, ◌++◌, length,
  set, replicate, map, Option, none, some, ◌>>=◌, get_elem?, u32,
}
use my_codebase.Rabin.{RabinFpUtil, RabinCtx, new_rabin_fp_util, slide_one_byte, reset_ctx}

pub record FinesseUtil : Type 0 where
  pub super_feature_per_chunk : ℕ
  pub feature_per_chunk : ℕ
  pub feature_per_super_feature : ℕ
  pub rabin_util : RabinFpUtil

-- The constructor, with the window size of the configuration.
unfoldable pub new_finesse_util : ℕ → ℕ → ℕ → ℕ → Option FinesseUtil
new_finesse_util super_feature_per_chunk feature_per_chunk feature_per_super_feature window_size =
    do
      rabin_util ← new_rabin_fp_util window_size
      some (record {
        super_feature_per_chunk = super_feature_per_chunk;
        feature_per_chunk = feature_per_chunk;
        feature_per_super_feature = feature_per_super_feature;
        rabin_util = rabin_util;
      })

unfoldable pub sub_chunk_size_of : ℕ → ℕ → ℕ
sub_chunk_size_of size feature_per_chunk =
    if size % feature_per_chunk == 0 then size / feature_per_chunk else size / feature_per_chunk + 1

-- The variables of the loop over the bytes of a sub-chunk.
pub record Sliding : Type 0 where
  pub ctx : RabinCtx
  pub max_rabin_fp : ℕ
  pub cur_offset : ℕ

-- What a turn of the loop leaves, where the context is `ctx'` after the byte.
unfoldable pub slide : RabinCtx → Sliding → Sliding
slide ctx' st = record {
  ctx = ctx';
  max_rabin_fp = if ltb st.max_rabin_fp ctx'.fp then ctx'.fp else st.max_rabin_fp;
  cur_offset = u32 (st.cur_offset + 1);
}

-- The loop over a sub-chunk from position `at` on, with `rounds` rounds left; `none` is a read
-- outside the memory that `data` points into, or outside the window.
unfoldable pub sub_chunk : RabinFpUtil → List ℕ → ℕ → ℕ → ℕ → Sliding → Option Sliding
sub_chunk util data' size zero at st = some st
sub_chunk util data' size (suc rounds) at st = do
  byte ← get_elem? data' at
  ctx' ← slide_one_byte util st.ctx byte
  let st' = slide ctx' st
  let rest = sub_chunk util data' size rounds (at + 1) st'
  if st'.cur_offset == size then some st' else rest

-- `group_features[cur_group_id].push_back(max)`, and the identifier after it.
unfoldable pub push_feature : ℕ → ℕ → List (List ℕ) × ℕ → Option (List (List ℕ) × ℕ)
push_feature super_feature_per_chunk feature (groups, id) = do
  group ← get_elem? groups id
  let group' = group ++ (feature ∷ [])
  some (set groups id group', if length group' == super_feature_per_chunk then id + 1 else id)

-- The loop over the sub-chunks, with `rounds` rounds left: the context and the groups.
unfoldable pub sub_chunks :
    FinesseUtil
    → List ℕ
    → ℕ
    → ℕ
    → ℕ
    → ℕ
    → RabinCtx
    → ℕ
    → List (List ℕ) × ℕ
    → Option (RabinCtx × List (List ℕ))
sub_chunks f data' size sub_chunk_size zero i ctx cur_offset groups = some (ctx, groups.0)
sub_chunks f data' size sub_chunk_size (suc rounds) i ctx cur_offset groups = do
  done ←
      sub_chunk f.rabin_util data' size sub_chunk_size (i * sub_chunk_size)
        (record { ctx = ctx; max_rabin_fp = 0; cur_offset = cur_offset })
  groups' ← push_feature f.super_feature_per_chunk done.max_rabin_fp groups
  sub_chunks f data' size sub_chunk_size rounds (i + 1) (reset_ctx f.rabin_util done.ctx)
      done.cur_offset groups'

-- `sort` with `greater`: the numbers of a group from the greatest on.
unfoldable pub insert_sorted : ℕ → List ℕ → List ℕ
insert_sorted x [] = x ∷ []
insert_sorted x (y ∷ ys) = if leb y x then x ∷ y ∷ ys else y ∷ insert_sorted x ys

unfoldable pub sort_group : List ℕ → List ℕ
sort_group [] = []
sort_group (x ∷ xs) = insert_sorted x (sort_group xs)

-- The loop that sorts the first groups.
unfoldable pub sort_groups : ℕ → List (List ℕ) → List (List ℕ)
sort_groups zero groups = groups
sort_groups (suc n) [] = []
sort_groups (suc n) (group ∷ groups) = sort_group group ∷ sort_groups n groups

-- `super_features[i]`: the features at `i` of the groups from `j` on, with `rounds` rounds left.
unfoldable pub collect : List (List ℕ) → ℕ → ℕ → ℕ → Option (List ℕ)
collect groups zero j i = some []
collect groups (suc rounds) j i = do
  group ← get_elem? groups j
  feature ← get_elem? group i
  rest ← collect groups rounds (j + 1) i
  some (feature ∷ rest)

-- The loops that make the super-features and hash them. `hash` is XXHash64 of the numbers' bytes
-- with the seed 0.
unfoldable pub super_features : (List ℕ → ℕ) → FinesseUtil → List (List ℕ) → ℕ → ℕ → Option (List ℕ)
super_features hash f groups zero i = some []
super_features hash f groups (suc rounds) i = do
  super_feature ← collect groups f.feature_per_super_feature 0 i
  rest ← super_features hash f groups rounds (i + 1)
  some (hash super_feature ∷ rest)

-- `ExtractFeature`: the context and the features.
unfoldable pub extract_feature :
    (List ℕ → ℕ) → FinesseUtil → RabinCtx → List ℕ → ℕ → Option (RabinCtx × List ℕ)
extract_feature hash f ctx data' size = do
  let ctx' = reset_ctx f.rabin_util ctx
  let sub_chunk_size = sub_chunk_size_of size f.feature_per_chunk
  grouped ←
      sub_chunks f data' size sub_chunk_size f.feature_per_chunk 0 ctx' 0
        (replicate f.feature_per_chunk [], 0)
  let groups = sort_groups f.feature_per_super_feature grouped.1
  features ← super_features hash f groups f.super_feature_per_chunk 0
  some (reset_ctx f.rabin_util grouped.0, features)
