-- ===== src/Crypto.antt =====
-- src/crypto/crypto_util.cc: `CryptoUtil`, which calls OpenSSL.
pub mod Types
pub mod Promises
pub mod Settings
pub mod RoundTrip
pub mod Hashing
pub mod Signing
use my_codebase.Base.{ℕ, ◌+◌, ◌%◌, ◌^◌, ◌==◌, List, ◌++◌, length, Option, none, some}
use my_codebase.Process.{Program, Done, done, ◌>>=◌, ◌>>◌, pure, call, or_exit, run, exit_unless}
use Types.*

-- The `switch` of `GenerateHash`: the size that is expected.
unfoldable pub hash_init : (l : Digests) → HashSet → Program l.Context ℕ
hash_init l sha_1 = do exit_unless (← call (l.init evp_sha1)); pure 20
hash_init l sha_256 = do exit_unless (← call (l.init evp_sha256)); pure 32
hash_init l md5 = do exit_unless (← call (l.init evp_md5)); pure 16
hash_init l (other_hash n) = pure 0

-- `GenerateHash`: what it writes to `hash`.
unfoldable pub generate_hash : (l : Digests) → HashSet → List ℕ → Program l.Context (List ℕ)
generate_hash l hash_type bytes = do
  expected_hash_size ← hash_init l hash_type
  exit_unless (← call (l.update bytes))
  hash ← or_exit (← call l.final)
  exit_unless (length hash == expected_hash_size)
  run l.reset
  pure hash

-- The `switch` of `EncryptWithKeyIV`.
unfoldable pub start_encrypt : (l : Ciphers) → EncryptSet → List ℕ → List ℕ → Program l.Context Done
start_encrypt l aes_128_cfb key iv = do
  exit_unless (← call (l.encrypt_init (some evp_aes_128_cfb) (some key) (some iv)))
start_encrypt l aes_256_cfb key iv = do
  exit_unless (← call (l.encrypt_init (some evp_aes_256_cfb) (some key) (some iv)))
start_encrypt l aes_256_cbc key iv = do
  exit_unless (← call (l.encrypt_init (some evp_aes_256_cbc) (some key) (some iv)))
  run (l.set_padding 1)
start_encrypt l aes_128_cbc key iv = do
  exit_unless (← call (l.encrypt_init (some evp_aes_128_cbc) (some key) (some iv)))
  run (l.set_padding 1)
start_encrypt l aes_256_gcm key iv = do
  call (l.encrypt_init (some evp_aes_256_gcm) none none)
  run (l.set_ivlen crypto_block_size)
  exit_unless (← call (l.encrypt_init none (some key) (some iv)))
  run (l.encrypt_aad gcm_aad)
start_encrypt l aes_128_gcm key iv = do
  call (l.encrypt_init (some evp_aes_128_gcm) none none)
  run (l.set_ivlen crypto_block_size)
  exit_unless (← call (l.encrypt_init none (some key) (some iv)))
  run (l.encrypt_aad gcm_aad)
start_encrypt l aes_256_ctr key iv = do
  exit_unless (← call (l.encrypt_init (some evp_aes_256_ctr) (some key) (some iv)))
start_encrypt l aes_128_ctr key iv = do
  exit_unless (← call (l.encrypt_init (some evp_aes_128_ctr) (some key) (some iv)))
start_encrypt l aes_256_ecb key iv = do
  exit_unless (← call (l.encrypt_init (some evp_aes_256_ecb) (some key) none))
  run (l.set_padding 1)
start_encrypt l aes_128_ecb key iv = do
  exit_unless (← call (l.encrypt_init (some evp_aes_128_ecb) (some key) none))
  run (l.set_padding 1)
start_encrypt l (other_cipher n) key iv = pure done

-- `EncryptWithKeyIV`: what it returns and what it writes to `cipher`.
unfoldable pub encrypt_with_key_iv :
    (l : Ciphers) → EncryptSet → List ℕ → List ℕ → List ℕ → Program l.Context (ℕ × List ℕ)
encrypt_with_key_iv l cipher_type plain key iv = do
  start_encrypt l cipher_type key iv
  out ← or_exit (← call (l.encrypt_update plain))
  rest ← call (l.encrypt_final 0)
  run l.reset
  pure ((length out + rest.1) % 2 ^ 32, out ++ rest.0)

-- The `switch` of `DecryptWithKeyIV`.
unfoldable pub start_decrypt : (l : Ciphers) → EncryptSet → List ℕ → List ℕ → Program l.Context Done
start_decrypt l aes_128_cfb key iv = do
  exit_unless (← call (l.decrypt_init (some evp_aes_128_cfb) (some key) (some iv)))
start_decrypt l aes_256_cfb key iv = do
  exit_unless (← call (l.decrypt_init (some evp_aes_256_cfb) (some key) (some iv)))
start_decrypt l aes_256_cbc key iv = do
  exit_unless (← call (l.decrypt_init (some evp_aes_256_cbc) (some key) (some iv)))
  run (l.set_padding 1)
start_decrypt l aes_128_cbc key iv = do
  exit_unless (← call (l.decrypt_init (some evp_aes_128_cbc) (some key) (some iv)))
  run (l.set_padding 1)
start_decrypt l aes_128_gcm key iv = do
  call (l.decrypt_init (some evp_aes_128_gcm) none none)
  run (l.set_ivlen crypto_block_size)
  exit_unless (← call (l.decrypt_init none (some key) (some iv)))
  run (l.decrypt_aad gcm_aad)
start_decrypt l aes_256_gcm key iv = do
  call (l.decrypt_init (some evp_aes_256_gcm) none none)
  run (l.set_ivlen crypto_block_size)
  exit_unless (← call (l.decrypt_init none (some key) (some iv)))
  run (l.decrypt_aad gcm_aad)
start_decrypt l aes_256_ctr key iv = do
  exit_unless (← call (l.decrypt_init (some evp_aes_256_ctr) (some key) (some iv)))
start_decrypt l aes_128_ctr key iv = do
  exit_unless (← call (l.decrypt_init (some evp_aes_128_ctr) (some key) (some iv)))
start_decrypt l aes_256_ecb key iv = do
  exit_unless (← call (l.decrypt_init (some evp_aes_256_ecb) (some key) none))
  run (l.set_padding 1)
start_decrypt l aes_128_ecb key iv = do
  exit_unless (← call (l.decrypt_init (some evp_aes_128_ecb) (some key) none))
  run (l.set_padding 1)
start_decrypt l (other_cipher n) key iv = pure done

-- `DecryptWithKeyIV`; `len` is what the variable of this name holds before anything is stored in it.
unfoldable pub decrypt_with_key_iv :
    (l : Ciphers) → ℕ → EncryptSet → List ℕ → List ℕ → List ℕ → Program l.Context (ℕ × List ℕ)
decrypt_with_key_iv l len cipher_type cipher key iv = do
  start_decrypt l cipher_type key iv
  out ← or_exit (← call (l.decrypt_update cipher))
  rest ← call (l.decrypt_final len)
  run l.reset
  pure ((length out + rest.1) % 2 ^ 32, out ++ rest.0)

-- The `switch` of `GenerateHMAC`.
unfoldable pub hmac_init : (l : Signers) → HashSet → l.Key → Program l.Context ℕ
hmac_init l sha_1 p_key = do exit_unless (← call (l.sign_init evp_sha1 p_key)); pure 20
hmac_init l sha_256 p_key = do exit_unless (← call (l.sign_init evp_sha256 p_key)); pure 32
hmac_init l md5 p_key = do exit_unless (← call (l.sign_init evp_md5 p_key)); pure 16
hmac_init l (other_hash n) p_key = pure 0

-- `GenerateHMAC`: what it writes to `hmac`.
unfoldable pub generate_hmac : (l : Signers) → HashSet → List ℕ → l.Key → Program l.Context (List ℕ)
generate_hmac l hash_type bytes p_key = do
  expected_hash_size ← hmac_init l hash_type p_key
  exit_unless (← call (l.sign_update bytes))
  hmac ← or_exit (← call (l.sign_final 0))
  exit_unless (length hmac == expected_hash_size)
  run l.reset
  pure hmac
