-- ===== src/Crypto/Types.antt =====
-- `ENCRYPT_SET` and `HASH_SET` of include/const_var.h, the object of include/crypto/crypto_util.h,
-- and what src/crypto/crypto_util.cc uses of OpenSSL.
use my_codebase.Base.{ℕ, ◌==◌, if◌then◌else◌, List, [], ◌∷◌, Option, Bool}

-- The last constructor is a number that no enumerator names.
pub data EncryptSet : Type 0 where
  aes_256_gcm aes_128_gcm aes_256_cfb aes_128_cfb aes_256_cbc : EncryptSet
  aes_128_cbc aes_256_ctr aes_128_ctr aes_256_ecb aes_128_ecb : EncryptSet
  other_cipher : ℕ → EncryptSet

pub data HashSet : Type 0 where
  sha_256 md5 sha_1 : HashSet
  other_hash : ℕ → HashSet

-- `static_cast<ENCRYPT_SET>(cipher_type)`
abbrev pub to_encrypt_set : ℕ → EncryptSet
to_encrypt_set n =
    if n == 0
    then aes_256_gcm
    else if n == 1
    then aes_128_gcm
    else if n == 2
    then aes_256_cfb
    else if n == 3
    then aes_128_cfb
    else if n == 4
    then aes_256_cbc
    else if n == 5
    then aes_128_cbc
    else if n == 6
    then aes_256_ctr
    else if n == 7
    then aes_128_ctr
    else if n == 8
    then aes_256_ecb
    else if n == 9
    then aes_128_ecb
    else other_cipher n

-- `static_cast<HASH_SET>(hash_type)`
abbrev pub to_hash_set : ℕ → HashSet
to_hash_set n =
    if n == 0 then sha_256 else if n == 1 then md5 else if n == 2 then sha_1 else other_hash n

-- The object; `Key` is what `EVP_PKEY*` points at.
pub record CryptoUtil (Key : Type 0) : Type 0 where
  pub cipher_type : EncryptSet
  pub hash_type : HashSet
  pub p_key : Key

-- `CryptoUtil(cipher_type, hash_type)`; `new_key` is `EVP_PKEY_new_raw_private_key` for an HMAC.
unfoldable pub new_crypto_util : {Key : Type 0} → (List ℕ → Key) → ℕ → ℕ → CryptoUtil Key
new_crypto_util new_key cipher_type hash_type = record {
  cipher_type = to_encrypt_set cipher_type;
  hash_type = to_hash_set hash_type;
  p_key = new_key (112 ∷ 97 ∷ 115 ∷ 115 ∷ 119 ∷ 111 ∷ 114 ∷ 100 ∷ []);
}

abbrev pub crypto_block_size : ℕ
crypto_block_size = 16

abbrev pub gcm_aad : List ℕ
gcm_aad =
    77 ∷ 35 ∷ 195 ∷ 206 ∷ 195 ∷ 52 ∷ 180 ∷ 155 ∷ 219 ∷ 55 ∷ 12 ∷ 67 ∷ 127 ∷ 236 ∷ 120 ∷ 222 ∷ []

-- `EVP_sha1` and the like.
pub data Digest : Type 0 where
  evp_sha1 evp_sha256 evp_md5 : Digest

-- `EVP_aes_128_cfb` and the like.
pub data Algorithm : Type 0 where
  evp_aes_128_cfb evp_aes_256_cfb evp_aes_128_cbc evp_aes_256_cbc evp_aes_128_gcm : Algorithm
  evp_aes_256_gcm evp_aes_128_ctr evp_aes_256_ctr evp_aes_128_ecb evp_aes_256_ecb : Algorithm

-- The hash functions of OpenSSL. A call takes and returns the context; `false` and `none` are its
-- failure, and `final` delivers the bytes that it writes to `hash`, whose number is `hashSize`.
pub record Digests : Type 1 where
  pub Context : Type 0
  pub init : Digest → Context → Bool × Context
  pub update : List ℕ → Context → Bool × Context
  pub final : Context → Option (List ℕ) × Context
  pub reset : Context → Context

-- `EVP_DigestSign*`: `true` is the result 1. `sign_final` takes the number that `sigLen` holds.
pub record Signers : Type 1 where
  pub Context : Type 0
  pub Key : Type 0
  pub sign_init : Digest → Key → Context → Bool × Context
  pub sign_update : List ℕ → Context → Bool × Context
  pub sign_final : ℕ → Context → Option (List ℕ) × Context
  pub reset : Context → Context

-- The ciphers. An argument that is NULL is `none`. `…_aad` is `…Update` with no output buffer,
-- `…_update` delivers the bytes written, and `…_final` takes what `len` holds and delivers the bytes
-- written and what `len` holds then; the code reads no result of it.
pub record Ciphers : Type 1 where
  pub Context : Type 0
  pub encrypt_init : Option Algorithm → Option (List ℕ) → Option (List ℕ) → Context → Bool × Context
  pub decrypt_init : Option Algorithm → Option (List ℕ) → Option (List ℕ) → Context → Bool × Context
  pub set_ivlen : ℕ → Context → Context
  pub set_padding : ℕ → Context → Context
  pub encrypt_aad : List ℕ → Context → Context
  pub decrypt_aad : List ℕ → Context → Context
  pub encrypt_update : List ℕ → Context → Option (List ℕ) × Context
  pub decrypt_update : List ℕ → Context → Option (List ℕ) × Context
  pub encrypt_final : ℕ → Context → (List ℕ × ℕ) × Context
  pub decrypt_final : ℕ → Context → (List ℕ × ℕ) × Context
  pub reset : Context → Context
