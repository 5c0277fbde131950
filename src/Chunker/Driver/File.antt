-- ===== src/Chunker/Driver/File.antt =====
-- The outer loop cuts up the whole file.
use my_codebase.Base.{
  ℕ, ◌+◌, ◌≤◌, ◌≡◌, refl, sym, ap, ◌∙◌, List, [], ◌∷◌, ◌++◌, length, concat, arith, All, All-append,
  length-append, append_assoc,
}
use my_codebase.Stream.{IStream, read}
use my_codebase.Chunker.{AbsChunker, load_data_from_file}
use my_codebase.Chunker.Loaded.{IsSized, load-IsSized, load-pending}
use my_codebase.Chunker.Driver.Buffer.{IsChunked, IsCutUp, SameSizes}

abbrev pub FitsIn : ℕ → List ℕ → Type 0
FitsIn most x = (1 ≤ length x) × (length x ≤ most)

-- What the outer loop leaves.
pub record IsFile (c : AbsChunker) (bytes : List ℕ) (chunks : List (List ℕ)) (c' : AbsChunker)
    : Type 0 where
  pub whole : concat chunks ≡ bytes
  pub sized : All (FitsIn c.max_chunk_size) chunks
  pub bytes_counted : c'.total_file_size ≡ c.total_file_size + length bytes
  pub chunks_counted : c'.total_chunk_num ≡ c.total_chunk_num + length chunks

IsChunked-FitsIn :
    (least most : ℕ) (chunks : List (List ℕ))
    → IsChunked least most chunks
    → All (FitsIn most) chunks
IsChunked-FitsIn least most [] h = tt
IsChunked-FitsIn least most (x ∷ xs) h = ((h.0, h.1), IsChunked-FitsIn least most xs h.3)

pub few_chunks :
    (most : ℕ) (chunks : List (List ℕ))
    → All (FitsIn most) chunks
    → length chunks ≤ length (concat chunks)
few_chunks most [] h = omega arith
few_chunks most (x ∷ xs) h = omega (arith, length-append x (concat xs), few_chunks most xs h.1, h.0)

concat-append : (xss yss : List (List ℕ)) → concat (xss ++ yss) ≡ concat xss ++ concat yss
concat-append [] yss = refl
concat-append (xs ∷ xss) yss =
    ap (λ t. xs ++ t) (concat-append xss yss) ∙ sym (append_assoc xs (concat xss) (concat yss))

SameSizes-IsSized : {c c' : AbsChunker} → SameSizes c c' → IsSized c → IsSized c'
SameSizes-IsSized q v = record {
  buffer = ap length q.buffer ∙ v.buffer ∙ sym q.read_size;
  word = omega (arith, q.read_size, v.word);
  min_pos = omega (arith, q.min, v.min_pos);
  min_avg = omega (arith, q.min, q.avg, v.min_avg);
  avg_max = omega (arith, q.max, q.avg, v.avg_max);
  max_word = omega (arith, q.max, v.max_word);
}

-- One buffer, cut up.
module _ (c : AbsChunker) (f : IStream) (v : IsSized c) (chunks : List (List ℕ)) (c' : AbsChunker)
    (h : IsCutUp (load_data_from_file c f).1 chunks c') where
  buffer_whole : concat chunks ≡ (read c.read_size f).0
  buffer_whole = h.whole ∙ (load-pending v f).0

  pub buffer-IsFile : IsFile c (read c.read_size f).0 chunks c'
  unfolding load_data_from_file
  buffer-IsFile = record {
    whole = buffer_whole;
    sized = IsChunked-FitsIn c.min_chunk_size c.max_chunk_size chunks h.chunked;
    bytes_counted = h.bytes_counted;
    chunks_counted = h.chunks_counted;
  }

  pub buffer-max : c'.max_chunk_size ≡ c.max_chunk_size
  unfolding load_data_from_file
  buffer-max = h.same.max

  pub buffer-read_size : c'.read_size ≡ c.read_size
  unfolding load_data_from_file
  buffer-read_size = h.same.read_size

  pub buffer-IsSized : IsSized c'
  buffer-IsSized = SameSizes-IsSized h.same (load-IsSized v f)

-- Two runs after one another.
pub IsFile-append :
    (c : AbsChunker) (xs : List ℕ) (xss : List (List ℕ)) (c₁ : AbsChunker) (ys : List ℕ)
    (yss : List (List ℕ)) (c₂ : AbsChunker)
    → IsFile c xs xss c₁
    → IsFile c₁ ys yss c₂
    → c₁.max_chunk_size ≡ c.max_chunk_size
    → IsFile c (xs ++ ys) (xss ++ yss) c₂
IsFile-append c xs xss c₁ ys yss c₂ p q e = record {
  whole = concat-append xss yss ∙ ap (λ t. t ++ concat yss) p.whole ∙ ap (λ t. xs ++ t) q.whole;
  sized = All-append (FitsIn c.max_chunk_size) xss yss p.sized (rw e at q.sized);
  bytes_counted = omega (arith, p.bytes_counted, q.bytes_counted, length-append xs ys);
  chunks_counted = omega (arith, p.chunks_counted, q.chunks_counted, length-append xss yss);
}
