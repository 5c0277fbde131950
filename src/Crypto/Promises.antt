-- ===== src/Crypto/Promises.antt =====
-- What the documentation of OpenSSL promises of the ciphers that src/crypto/crypto_util.cc uses.
use my_codebase.Base.{
  ℕ, ◌+◌, ◌==◌, ◌≤◌, ◌<◌, ◌^◌, ◌≡◌, Bool, true, false, ◌&&◌, ◌||◌, not, List, [], ◌++◌, length,
  Option, none, some,
}
use my_codebase.Crypto.Types.{
  Algorithm, evp_aes_128_cbc, evp_aes_256_cbc, evp_aes_128_gcm, evp_aes_256_gcm, evp_aes_128_ecb,
  evp_aes_256_ecb, Ciphers,
}

-- What a context has been told.
pub record Setting : Type 0 where
  pub algorithm : Option Algorithm
  pub key : Option (List ℕ)
  pub iv : Option (List ℕ)
  pub iv_length : Option ℕ
  pub aad : List ℕ
  pub padding : ℕ

abbrev pub or_else : Option (List ℕ) → Option (List ℕ) → Option (List ℕ)
or_else none y = y
or_else (some x) y = some x

-- `EVP_…Init_ex`: an algorithm starts anew and leaves the padding, without one it is kept.
abbrev pub set_up : Option Algorithm → Option (List ℕ) → Option (List ℕ) → Setting → Setting
set_up none k v s = record s { key = or_else k s.key; iv = or_else v s.iv }
set_up (some a) k v s = record {
  algorithm = some a;
  key = k;
  iv = v;
  iv_length = none;
  aad = [];
  padding = s.padding;
}

abbrev pub is_gcm : Option Algorithm → Bool
is_gcm (some evp_aes_128_gcm) = true
is_gcm (some evp_aes_256_gcm) = true
is_gcm _ = false

abbrev pub is_ecb : Algorithm → Bool
is_ecb evp_aes_128_ecb = true
is_ecb evp_aes_256_ecb = true
is_ecb _ = false

-- The modes that work on whole blocks, so that the last one is padded.
abbrev pub is_block : Algorithm → Bool
is_block evp_aes_128_cbc = true
is_block evp_aes_256_cbc = true
is_block a = is_ecb a

abbrev pub is_some : Option (List ℕ) → Bool
is_some none = false
is_some (some v) = true

abbrev pub is_complete : Option Algorithm → Option (List ℕ) → Option (List ℕ) → ℕ → Bool
is_complete (some a) (some k) v p = (not (is_block a) || p == 1) && (is_ecb a || is_some v)
is_complete _ _ _ _ = false

-- The context has its key, its IV where the mode has one, and pads where the mode has blocks.
abbrev pub is_ready : Setting → Bool
is_ready s = is_complete s.algorithm s.key s.iv s.padding

-- An update and the final call after it write `bytes`, and the final call says how many it wrote.
abbrev pub Writes :
    (l : Ciphers)
    → (l.Context → Option (List ℕ) × l.Context)
    → (l.Context → (List ℕ × ℕ) × l.Context)
    → l.Context
    → List ℕ
    → Type 0
Writes l update final c bytes =
    (out rest : List ℕ) × (c₁ c₂ : l.Context) × (update c ≡ (some out, c₁))
    × (final c₁ ≡ ((rest, length rest), c₂))
    × (out ++ rest ≡ bytes)

-- A call may fail; what is said of `…Init_ex` is what holds after its success.
pub record IsCiphers (l : Ciphers) : Type 0 where
  pub setting : l.Context → Setting
  -- whether the last `…Init_ex` was that of an encryption
  pub encrypting : l.Context → Bool
  -- the ciphertext of a setting
  pub seal : Setting → List ℕ → List ℕ
  pub setting-encrypt_init :
      (a : Option Algorithm) (k v : Option (List ℕ)) (c : l.Context)
      → (l.encrypt_init a k v c).0 ≡ true
      → setting (l.encrypt_init a k v c).1 ≡ set_up a k v (setting c)
  pub encrypting-encrypt_init :
      (a : Option Algorithm) (k v : Option (List ℕ)) (c : l.Context)
      → (l.encrypt_init a k v c).0 ≡ true
      → encrypting (l.encrypt_init a k v c).1 ≡ true
  pub setting-decrypt_init :
      (a : Option Algorithm) (k v : Option (List ℕ)) (c : l.Context)
      → (l.decrypt_init a k v c).0 ≡ true
      → setting (l.decrypt_init a k v c).1 ≡ set_up a k v (setting c)
  pub encrypting-decrypt_init :
      (a : Option Algorithm) (k v : Option (List ℕ)) (c : l.Context)
      → (l.decrypt_init a k v c).0 ≡ true
      → encrypting (l.decrypt_init a k v c).1 ≡ false
  pub encrypting-set_padding :
      (n : ℕ) (c : l.Context) → encrypting (l.set_padding n c) ≡ encrypting c
  pub encrypting-encrypt_aad :
      (bytes : List ℕ) (c : l.Context) → encrypting (l.encrypt_aad bytes c) ≡ encrypting c
  pub encrypting-decrypt_aad :
      (bytes : List ℕ) (c : l.Context) → encrypting (l.decrypt_aad bytes c) ≡ encrypting c
  pub encrypting-decrypt_update :
      (bytes : List ℕ) (c : l.Context) → encrypting (l.decrypt_update bytes c).1 ≡ encrypting c
  pub setting-set_ivlen :
      (n : ℕ) (c : l.Context)
      → setting (l.set_ivlen n c) ≡ record (setting c) { iv_length = some n }
  pub setting-set_padding :
      (n : ℕ) (c : l.Context) → setting (l.set_padding n c) ≡ record (setting c) { padding = n }
  pub setting-encrypt_aad :
      (bytes : List ℕ) (c : l.Context)
      → encrypting c ≡ true
      → setting (l.encrypt_aad bytes c) ≡ record (setting c) { aad = (setting c).aad ++ bytes }
  pub setting-decrypt_aad :
      (bytes : List ℕ) (c : l.Context)
      → encrypting c ≡ false
      → setting (l.decrypt_aad bytes c) ≡ record (setting c) { aad = (setting c).aad ++ bytes }
  -- only the modes with blocks look at the padding
  pub seal-padding :
      (a : Algorithm) (s : Setting) (p : ℕ) (bytes : List ℕ)
      → s.algorithm ≡ some a
      → is_block a ≡ false
      → seal (record s { padding = p }) bytes ≡ seal s bytes
  pub length-seal : (s : Setting) (bytes : List ℕ) → length (seal s bytes) ≤ length bytes + 16
  pub encrypts :
      (bytes : List ℕ) (c : l.Context) (len : ℕ)
      → encrypting c ≡ true
      → is_ready (setting c) ≡ true
      → length bytes < 2 ^ 31
      → Writes l (l.encrypt_update bytes) (l.encrypt_final len) c (seal (setting c) bytes)
  pub decrypts :
      (bytes cipher : List ℕ) (c : l.Context) (len : ℕ)
      → seal (setting c) bytes ≡ cipher
      → encrypting c ≡ false
      → is_ready (setting c) ≡ true
      → is_gcm (setting c).algorithm ≡ false
      → length cipher < 2 ^ 31
      → Writes l (l.decrypt_update cipher) (l.decrypt_final len) c bytes
  -- GCM has no blocks: an update deciphers whatever it gets, and only the final call, which writes
  -- nothing, would compare a tag
  pub gcm_decrypts :
      (bytes : List ℕ) (c : l.Context)
      → encrypting c ≡ false
      → is_ready (setting c) ≡ true
      → is_gcm (setting c).algorithm ≡ true
      → length bytes < 2 ^ 31
      → (out : List ℕ) × (c₁ : l.Context) × (l.decrypt_update bytes c ≡ (some out, c₁))
        × (length out ≡ length bytes)
  pub gcm_final :
      (c : l.Context) (len : ℕ)
      → encrypting c ≡ false
      → is_gcm (setting c).algorithm ≡ true
      → (l.decrypt_final len c).0.0 ≡ []
  pub setting-decrypt_update :
      (bytes : List ℕ) (c : l.Context) → setting (l.decrypt_update bytes c).1 ≡ setting c
