-- ===== src/CryptoTest/Passes.antt =====
-- The test passes on every file: only `GenerateHash` can end it early.
use my_codebase.Base.{ℕ, ◌≤◌, ◌<◌, ◌≡◌, List, Option, some, arith}
use my_codebase.Process.{Outcome, returned, exited}
use my_codebase.Crypto.Types.{to_encrypt_set, HashSet, Ciphers, Digests}
use my_codebase.Crypto.{generate_hash}
use my_codebase.CryptoTest.{parse_cipher, parse_chunk_size}

module _ (c : Ciphers) (h : Digests) (hash_type : HashSet) where
  -- How a part of the test ends: with this value, or by the `exit` of a hash.
  pub data Passes {A : Type 0} (a : A) : Outcome A × (c.Context × h.Context) → Type 0 where
    passes : (w : c.Context × h.Context) → Passes a (returned a, w)
    hash_fails :
        (bytes : List ℕ) (v : c.Context) (w w' : h.Context)
        → generate_hash h hash_type bytes w ≡ (exited, w')
        → Passes a (exited, (v, w'))

  pub data Finishes (n : ℕ) : Option (Outcome ℕ × (c.Context × h.Context)) → Type 0 where
    finishes : (r : Outcome ℕ × (c.Context × h.Context)) → Passes n r → Finishes n (some r)

-- The options that the program accepts name what the constructor's casts name.
pub parse_cipher-to_encrypt_set : (n : ℕ) → n < 10 → parse_cipher n ≡ returned (to_encrypt_set n)
unfolding parse_cipher
parse_cipher-to_encrypt_set n h = ground arith

pub parse_chunk_size-le : (n size : ℕ) → parse_chunk_size n ≡ returned size → size ≤ 16384
unfolding parse_chunk_size
parse_chunk_size-le n size e = ground (arith, e)
