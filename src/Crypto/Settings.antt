-- ===== src/Crypto/Settings.antt =====
-- Both directions tell their context the same.
use my_codebase.Base.{ℕ, ◌≡◌, Bool, true, false, List, [], Option, none, some}
use my_codebase.Process.{Outcome, Done, done, returned}
use my_codebase.Crypto.Types.{
  EncryptSet, aes_256_gcm, aes_128_gcm, aes_256_cfb, aes_128_cfb, aes_256_cbc, aes_128_cbc,
  aes_256_ctr, aes_128_ctr, aes_256_ecb, aes_128_ecb, other_cipher, Algorithm, evp_aes_128_cfb,
  evp_aes_256_cfb, evp_aes_128_cbc, evp_aes_256_cbc, evp_aes_128_gcm, evp_aes_256_gcm,
  evp_aes_128_ctr, evp_aes_256_ctr, evp_aes_128_ecb, evp_aes_256_ecb, Ciphers, crypto_block_size,
  gcm_aad,
}
use my_codebase.Crypto.{start_encrypt, start_decrypt}
use my_codebase.Crypto.Promises.{Setting, IsCiphers}

abbrev plain_setting : Algorithm → Option (List ℕ) → List ℕ → ℕ → Setting
plain_setting a v key p = record {
  algorithm = some a;
  key = some key;
  iv = v;
  iv_length = none;
  aad = [];
  padding = p;
}

abbrev gcm_setting : Algorithm → List ℕ → List ℕ → ℕ → Setting
gcm_setting a key iv p = record {
  algorithm = some a;
  key = some key;
  iv = some iv;
  iv_length = some crypto_block_size;
  aad = gcm_aad;
  padding = p;
}

-- What the header's names promise, for a context that pads by `p`.
abbrev pub setting_of : EncryptSet → List ℕ → List ℕ → ℕ → Setting
setting_of aes_256_gcm key iv p = gcm_setting evp_aes_256_gcm key iv p
setting_of aes_128_gcm key iv p = gcm_setting evp_aes_128_gcm key iv p
setting_of aes_256_cfb key iv p = plain_setting evp_aes_256_cfb (some iv) key p
setting_of aes_128_cfb key iv p = plain_setting evp_aes_128_cfb (some iv) key p
setting_of aes_256_cbc key iv p = plain_setting evp_aes_256_cbc (some iv) key 1
setting_of aes_128_cbc key iv p = plain_setting evp_aes_128_cbc (some iv) key 1
setting_of aes_256_ctr key iv p = plain_setting evp_aes_256_ctr (some iv) key p
setting_of aes_128_ctr key iv p = plain_setting evp_aes_128_ctr (some iv) key p
setting_of aes_256_ecb key iv p = plain_setting evp_aes_256_ecb none key 1
setting_of aes_128_ecb key iv p = plain_setting evp_aes_128_ecb none key 1
setting_of (other_cipher n) key iv p = record {
  algorithm = none;
  key = none;
  iv = none;
  iv_length = none;
  aad = [];
  padding = p;
}

abbrev pub is_named : EncryptSet → Bool
is_named (other_cipher n) = false
is_named _ = true

-- One of the two `EVP_…Init_ex`.
abbrev pub Init : Ciphers → Type 0
Init l = Option Algorithm → Option (List ℕ) → Option (List ℕ) → l.Context → Bool × l.Context

module _ (l : Ciphers) (key iv : List ℕ) (c : l.Context) where
  -- The call with everything at once succeeds.
  abbrev AtOnce : Init l → Algorithm → Option (List ℕ) → Type 0
  AtOnce init a v = (init (some a) (some key) v c).0 ≡ true

  -- The two calls succeed, between which the length of the IV is set.
  abbrev InTwo : Init l → Algorithm → Type 0
  InTwo init a =
      ((init (some a) none none c).0 ≡ true)
      × ((init none (some key) (some iv)
            (l.set_ivlen crypto_block_size (init (some a) none none c).1)).0
          ≡ true)

  -- OpenSSL accepts the cipher, the key and the IV in this context.
  abbrev pub Accepts : Init l → EncryptSet → Type 0
  Accepts init aes_128_cfb = AtOnce init evp_aes_128_cfb (some iv)
  Accepts init aes_256_cfb = AtOnce init evp_aes_256_cfb (some iv)
  Accepts init aes_256_ctr = AtOnce init evp_aes_256_ctr (some iv)
  Accepts init aes_128_ctr = AtOnce init evp_aes_128_ctr (some iv)
  Accepts init aes_128_ecb = AtOnce init evp_aes_128_ecb none
  Accepts init aes_256_ecb = AtOnce init evp_aes_256_ecb none
  Accepts init aes_128_cbc = AtOnce init evp_aes_128_cbc (some iv)
  Accepts init aes_256_cbc = AtOnce init evp_aes_256_cbc (some iv)
  Accepts init aes_256_gcm = InTwo init evp_aes_256_gcm
  Accepts init aes_128_gcm = InTwo init evp_aes_128_gcm
  Accepts init (other_cipher n) = Unit

module _ (l : Ciphers) (law : IsCiphers l) (key iv : List ℕ) (c : l.Context) where
  open law use {
    setting, encrypting, setting-encrypt_init, setting-set_ivlen, setting-set_padding,
    setting-encrypt_aad, setting-decrypt_init, setting-decrypt_aad, encrypting-encrypt_init,
    encrypting-decrypt_init, encrypting-set_padding, encrypting-encrypt_aad, encrypting-decrypt_aad,
  }

  -- What `switch` leaves: it returned, and the context has the setting and the direction.
  abbrev Tells : EncryptSet → Bool → Outcome Done × l.Context → Type 0
  Tells t way r =
      (r.0 ≡ returned done)
      × (setting r.1 ≡ setting_of t key iv (setting c).padding)
      × (encrypting r.1 ≡ way)

  pub start_encrypt-Tells :
      (t : EncryptSet)
      → is_named t ≡ true
      → Accepts l key iv c l.encrypt_init t
      → Tells t true (start_encrypt l t key iv c)
  unfolding start_encrypt
  start_encrypt-Tells aes_128_cfb h ok = (
    rw ok,
    rw ok (setting-encrypt_init (some evp_aes_128_cfb) (some key) (some iv) c ok),
    rw ok (encrypting-encrypt_init (some evp_aes_128_cfb) (some key) (some iv) c ok),
  )
  start_encrypt-Tells aes_256_cfb h ok = (
    rw ok,
    rw ok (setting-encrypt_init (some evp_aes_256_cfb) (some key) (some iv) c ok),
    rw ok (encrypting-encrypt_init (some evp_aes_256_cfb) (some key) (some iv) c ok),
  )
  start_encrypt-Tells aes_256_ctr h ok = (
    rw ok,
    rw ok (setting-encrypt_init (some evp_aes_256_ctr) (some key) (some iv) c ok),
    rw ok (encrypting-encrypt_init (some evp_aes_256_ctr) (some key) (some iv) c ok),
  )
  start_encrypt-Tells aes_128_ctr h ok = (
    rw ok,
    rw ok (setting-encrypt_init (some evp_aes_128_ctr) (some key) (some iv) c ok),
    rw ok (encrypting-encrypt_init (some evp_aes_128_ctr) (some key) (some iv) c ok),
  )
  start_encrypt-Tells aes_128_ecb h ok = (
    rw ok,
    rw (ok, setting-set_padding, setting-encrypt_init (some evp_aes_128_ecb) (some key) none c ok),
    rw (ok, encrypting-set_padding)
        (encrypting-encrypt_init (some evp_aes_128_ecb) (some key) none c ok),
  )
  start_encrypt-Tells aes_256_ecb h ok = (
    rw ok,
    rw (ok, setting-set_padding, setting-encrypt_init (some evp_aes_256_ecb) (some key) none c ok),
    rw (ok, encrypting-set_padding)
        (encrypting-encrypt_init (some evp_aes_256_ecb) (some key) none c ok),
  )
  start_encrypt-Tells aes_128_cbc h ok = (
    rw ok,
    rw (
      ok,
      setting-set_padding,
      setting-encrypt_init (some evp_aes_128_cbc) (some key) (some iv) c ok,
    ),
    rw (ok, encrypting-set_padding)
        (encrypting-encrypt_init (some evp_aes_128_cbc) (some key) (some iv) c ok),
  )
  start_encrypt-Tells aes_256_cbc h ok = (
    rw ok,
    rw (
      ok,
      setting-set_padding,
      setting-encrypt_init (some evp_aes_256_cbc) (some key) (some iv) c ok,
    ),
    rw (ok, encrypting-set_padding)
        (encrypting-encrypt_init (some evp_aes_256_cbc) (some key) (some iv) c ok),
  )
  start_encrypt-Tells aes_256_gcm h (ok, ok') =
      let way = encrypting-encrypt_init none (some key) (some iv) _ ok' in
      (
        rw ok',
        rw (
          ok',
          setting-encrypt_aad gcm_aad _ way,
          setting-encrypt_init none (some key) (some iv) _ ok',
          setting-set_ivlen,
          setting-encrypt_init (some evp_aes_256_gcm) none none c ok,
        ),
        rw (ok', encrypting-encrypt_aad) way,
      )
  start_encrypt-Tells aes_128_gcm h (ok, ok') =
      let way = encrypting-encrypt_init none (some key) (some iv) _ ok' in
      (
        rw ok',
        rw (
          ok',
          setting-encrypt_aad gcm_aad _ way,
          setting-encrypt_init none (some key) (some iv) _ ok',
          setting-set_ivlen,
          setting-encrypt_init (some evp_aes_128_gcm) none none c ok,
        ),
        rw (ok', encrypting-encrypt_aad) way,
      )
  start_encrypt-Tells (other_cipher n) h ok = cc

  pub start_decrypt-Tells :
      (t : EncryptSet)
      → is_named t ≡ true
      → Accepts l key iv c l.decrypt_init t
      → Tells t false (start_decrypt l t key iv c)
  unfolding start_decrypt
  start_decrypt-Tells aes_128_cfb h ok = (
    rw ok,
    rw ok (setting-decrypt_init (some evp_aes_128_cfb) (some key) (some iv) c ok),
    rw ok (encrypting-decrypt_init (some evp_aes_128_cfb) (some key) (some iv) c ok),
  )
  start_decrypt-Tells aes_256_cfb h ok = (
    rw ok,
    rw ok (setting-decrypt_init (some evp_aes_256_cfb) (some key) (some iv) c ok),
    rw ok (encrypting-decrypt_init (some evp_aes_256_cfb) (some key) (some iv) c ok),
  )
  start_decrypt-Tells aes_256_ctr h ok = (
    rw ok,
    rw ok (setting-decrypt_init (some evp_aes_256_ctr) (some key) (some iv) c ok),
    rw ok (encrypting-decrypt_init (some evp_aes_256_ctr) (some key) (some iv) c ok),
  )
  start_decrypt-Tells aes_128_ctr h ok = (
    rw ok,
    rw ok (setting-decrypt_init (some evp_aes_128_ctr) (some key) (some iv) c ok),
    rw ok (encrypting-decrypt_init (some evp_aes_128_ctr) (some key) (some iv) c ok),
  )
  start_decrypt-Tells aes_128_ecb h ok = (
    rw ok,
    rw (ok, setting-set_padding, setting-decrypt_init (some evp_aes_128_ecb) (some key) none c ok),
    rw (ok, encrypting-set_padding)
        (encrypting-decrypt_init (some evp_aes_128_ecb) (some key) none c ok),
  )
  start_decrypt-Tells aes_256_ecb h ok = (
    rw ok,
    rw (ok, setting-set_padding, setting-decrypt_init (some evp_aes_256_ecb) (some key) none c ok),
    rw (ok, encrypting-set_padding)
        (encrypting-decrypt_init (some evp_aes_256_ecb) (some key) none c ok),
  )
  start_decrypt-Tells aes_128_cbc h ok = (
    rw ok,
    rw (
      ok,
      setting-set_padding,
      setting-decrypt_init (some evp_aes_128_cbc) (some key) (some iv) c ok,
    ),
    rw (ok, encrypting-set_padding)
        (encrypting-decrypt_init (some evp_aes_128_cbc) (some key) (some iv) c ok),
  )
  start_decrypt-Tells aes_256_cbc h ok = (
    rw ok,
    rw (
      ok,
      setting-set_padding,
      setting-decrypt_init (some evp_aes_256_cbc) (some key) (some iv) c ok,
    ),
    rw (ok, encrypting-set_padding)
        (encrypting-decrypt_init (some evp_aes_256_cbc) (some key) (some iv) c ok),
  )
  start_decrypt-Tells aes_256_gcm h (ok, ok') =
      let way = encrypting-decrypt_init none (some key) (some iv) _ ok' in
      (
        rw ok',
        rw (
          ok',
          setting-decrypt_aad gcm_aad _ way,
          setting-decrypt_init none (some key) (some iv) _ ok',
          setting-set_ivlen,
          setting-decrypt_init (some evp_aes_256_gcm) none none c ok,
        ),
        rw (ok', encrypting-decrypt_aad) way,
      )
  start_decrypt-Tells aes_128_gcm h (ok, ok') =
      let way = encrypting-decrypt_init none (some key) (some iv) _ ok' in
      (
        rw ok',
        rw (
          ok',
          setting-decrypt_aad gcm_aad _ way,
          setting-decrypt_init none (some key) (some iv) _ ok',
          setting-set_ivlen,
          setting-decrypt_init (some evp_aes_128_gcm) none none c ok,
        ),
        rw (ok', encrypting-decrypt_aad) way,
      )
  start_decrypt-Tells (other_cipher n) h ok = cc
