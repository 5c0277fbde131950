-- ===== src/CryptoTest.antt =====
-- src/app/crypto_test.cc: encrypts, decrypts and hashes a file chunk by chunk.
pub mod Passes
use my_codebase.Base.{
  ℕ, zero, suc, ◌+◌, ◌*◌, ◌==◌, ltb, u32, u64, if◌then◌else◌, List, [], ◌∷◌, take, length, Option,
  none, some, Bool, true, false, replicate,
}
use my_codebase.Process.{
  Outcome, returned, exited, Program, Done, done, ◌>>=◌, ◌>>◌, pure, exit_unless,
}
use my_codebase.Stream.{IStream, read}
use my_codebase.InMemDb.{bytes_eq}
use my_codebase.Compress.{max_chunk_size}
use my_codebase.Crypto.Types.{
  EncryptSet, aes_256_gcm, aes_128_gcm, aes_256_cfb, aes_128_cfb, aes_256_cbc, aes_128_cbc,
  aes_256_ctr, aes_128_ctr, aes_256_ecb, aes_128_ecb, HashSet, sha_256, md5, sha_1, Ciphers,
  Digests, crypto_block_size,
}
use my_codebase.Crypto.{encrypt_with_key_iv, decrypt_with_key_iv, generate_hash}

-- The option `-c`. Here and below a number is `atoi(optarg)` that is not negative.
unfoldable pub parse_cipher : ℕ → Outcome EncryptSet
parse_cipher n =
    if n == 0
    then returned aes_256_gcm
    else if n == 1
    then returned aes_128_gcm
    else if n == 2
    then returned aes_256_cfb
    else if n == 3
    then returned aes_128_cfb
    else if n == 4
    then returned aes_256_cbc
    else if n == 5
    then returned aes_128_cbc
    else if n == 8
    then returned aes_256_ecb
    else if n == 9
    then returned aes_128_ecb
    else if n == 6
    then returned aes_256_ctr
    else if n == 7
    then returned aes_128_ctr
    else exited

-- The option `-h`.
unfoldable pub parse_hash : ℕ → Outcome HashSet
parse_hash n =
    if n == 0
    then returned sha_256
    else if n == 1
    then returned md5
    else if n == 2
    then returned sha_1
    else exited

-- The option `-s`, in KiB; a product beyond an `int` wraps.
unfoldable pub parse_chunk_size : ℕ → Outcome ℕ
parse_chunk_size n =
    let chunk_size = u32 (n * 1024) in
    if ltb max_chunk_size chunk_size then exited else returned chunk_size

-- What `getopt` delivers, with `atoi` of the argument.
pub data TestOption : Type 0 where
  option_i : TestOption
  option_c option_h option_s : ℕ → TestOption
  option_unknown : TestOption

-- The variables that the options set; the two types are not initialised.
pub record TestSettings : Type 0 where
  pub chunk_size : ℕ
  pub cipher_type : Option EncryptSet
  pub hash_type : Option HashSet

abbrev pub set_cipher : Outcome EncryptSet → TestSettings → Outcome TestSettings
set_cipher exited s = exited
set_cipher (returned t) s = returned (record s { cipher_type = some t })

abbrev pub set_hash : Outcome HashSet → TestSettings → Outcome TestSettings
set_hash exited s = exited
set_hash (returned t) s = returned (record s { hash_type = some t })

abbrev pub set_size : Outcome ℕ → TestSettings → Outcome TestSettings
set_size exited s = exited
set_size (returned n) s = returned (record s { chunk_size = n })

unfoldable pub parse_option : TestOption → TestSettings → Outcome TestSettings
parse_option option_i s = returned s
parse_option (option_c n) s = set_cipher (parse_cipher n) s
parse_option (option_h n) s = set_hash (parse_hash n) s
parse_option (option_s n) s = set_size (parse_chunk_size n) s
parse_option option_unknown s = exited

abbrev pub or_stop :
    (TestSettings → Outcome TestSettings) → Outcome TestSettings → Outcome TestSettings
or_stop next exited = exited
or_stop next (returned s) = next s

-- The loop over the options.
unfoldable pub parse_options : List TestOption → TestSettings → Outcome TestSettings
parse_options [] s = returned s
parse_options (o ∷ options) s = or_stop (λ s'. parse_options options s') (parse_option o s)

abbrev pub key : List ℕ
key = replicate 32 2

abbrev pub iv : List ℕ
iv = replicate 16 1

-- A program on one of the two contexts.
abbrev pub on_first : {V W A : Type 0} → Program V A → Program (V × W) A
on_first f (v, w) = let r = f v in (r.0, (r.1, w))

abbrev pub on_second : {V W A : Type 0} → Program W A → Program (V × W) A
on_second f (v, w) = let r = f w in (r.0, (v, r.1))

-- The test of the first chunk.
unfoldable pub check_chunk : {W : Type 0} → Bool → List ℕ → ℕ → List ℕ → Program W Done
check_chunk false bytes dec_chunk_size dec_chunk = pure done
check_chunk true bytes dec_chunk_size dec_chunk = do
  exit_unless (dec_chunk_size == u32 (length bytes))
  exit_unless (bytes_eq bytes (take (length bytes) dec_chunk))

module _ (c : Ciphers) (h : Digests) (len : ℕ) (cipher_type : EncryptSet)
    (hash_type : HashSet) where
  -- The work on one chunk.
  unfoldable pub test_chunk : Bool → List ℕ → Program (c.Context × h.Context) Done
  test_chunk correct_test bytes = do
    enc ← on_first (encrypt_with_key_iv c cipher_type bytes key iv)
    dec ← on_first (decrypt_with_key_iv c len cipher_type (take enc.0 enc.1) key iv)
    check_chunk correct_test bytes dec.0 dec.1
    hash ← on_second (generate_hash h hash_type bytes)
    pure done

  abbrev pub after_chunk :
      (c.Context × h.Context → Option (Outcome ℕ × (c.Context × h.Context)))
      → Outcome Done × (c.Context × h.Context)
      → Option (Outcome ℕ × (c.Context × h.Context))
  after_chunk next (exited, w) = some (exited, w)
  after_chunk next (returned d, w) = next w

  -- The loop over the file: the bytes that were encrypted. `none` is no rounds left.
  unfoldable pub test_file :
      ℕ
      → ℕ
      → Bool
      → ℕ
      → IStream
      → c.Context × h.Context
      → Option (Outcome ℕ × (c.Context × h.Context))
  test_file zero chunk_size correct_test total f w = none
  test_file (suc rounds) chunk_size correct_test total f w =
      let (bytes, f') = read chunk_size f in
      let total' = u64 (total + length bytes) in
      if length bytes == 0
      then some (returned total, w)
      else after_chunk
          (λ w'.
            if f'.eof
            then some (returned total', w')
            else test_file rounds chunk_size false total' f' w')
          (test_chunk correct_test bytes w)
