-- ===== src/Crypto/RoundTrip.antt =====
-- Ciphertexts of `EncryptWithKeyIV` under `DecryptWithKeyIV`.
use my_codebase.Base.{
  ℕ, ◌+◌, ◌%◌, ◌<◌, ◌≤◌, ◌^◌, ◌≡◌, refl, ◌∙◌, ap, sym, Bool, true, false, List, ◌++◌, length, arith,
  length-append,
}
use my_codebase.Process.{done, returned, bind-returned}
use my_codebase.Crypto.Types.{
  EncryptSet, aes_256_gcm, aes_128_gcm, aes_256_cfb, aes_128_cfb, aes_256_cbc, aes_128_cbc,
  aes_256_ctr, aes_128_ctr, aes_256_ecb, aes_128_ecb, other_cipher, Ciphers, evp_aes_128_cfb,
  evp_aes_256_cfb, evp_aes_128_gcm, evp_aes_256_gcm, evp_aes_128_ctr, evp_aes_256_ctr,
}
use my_codebase.Crypto.{start_encrypt, start_decrypt, encrypt_with_key_iv}
use my_codebase.Crypto.Promises.{IsCiphers, is_ready}
use my_codebase.Crypto.Settings.{setting_of, is_named, Accepts, start_encrypt-Tells}

module _ (key iv : List ℕ) where
  setting_of_ready :
      (t : EncryptSet) (p : ℕ) → is_named t ≡ true → is_ready (setting_of t key iv p) ≡ true
  setting_of_ready aes_128_cfb p h = refl
  setting_of_ready aes_256_cfb p h = refl
  setting_of_ready aes_256_ctr p h = refl
  setting_of_ready aes_128_ctr p h = refl
  setting_of_ready aes_128_ecb p h = refl
  setting_of_ready aes_256_ecb p h = refl
  setting_of_ready aes_128_cbc p h = refl
  setting_of_ready aes_256_cbc p h = refl
  setting_of_ready aes_256_gcm p h = refl
  setting_of_ready aes_128_gcm p h = refl
  setting_of_ready (other_cipher n) p h = cc

  module _ (l : Ciphers) (law : IsCiphers l) (bytes : List ℕ) where
    seal-setting_of :
        (t : EncryptSet) (p q : ℕ)
        → is_named t ≡ true
        → law.seal (setting_of t key iv p) bytes ≡ law.seal (setting_of t key iv q) bytes
    seal-setting_of aes_128_cfb p q h =
        sym (law.seal-padding evp_aes_128_cfb (setting_of aes_128_cfb key iv p) q bytes refl refl)
    seal-setting_of aes_256_cfb p q h =
        sym (law.seal-padding evp_aes_256_cfb (setting_of aes_256_cfb key iv p) q bytes refl refl)
    seal-setting_of aes_256_ctr p q h =
        sym (law.seal-padding evp_aes_256_ctr (setting_of aes_256_ctr key iv p) q bytes refl refl)
    seal-setting_of aes_128_ctr p q h =
        sym (law.seal-padding evp_aes_128_ctr (setting_of aes_128_ctr key iv p) q bytes refl refl)
    seal-setting_of aes_128_ecb p q h = refl
    seal-setting_of aes_256_ecb p q h = refl
    seal-setting_of aes_128_cbc p q h = refl
    seal-setting_of aes_256_cbc p q h = refl
    seal-setting_of aes_256_gcm p q h =
        sym (law.seal-padding evp_aes_256_gcm (setting_of aes_256_gcm key iv p) q bytes refl refl)
    seal-setting_of aes_128_gcm p q h =
        sym (law.seal-padding evp_aes_128_gcm (setting_of aes_128_gcm key iv p) q bytes refl refl)
    seal-setting_of (other_cipher n) p q h = cc

-- Whether a mode checks the message: GCM.
abbrev pub is_authenticated : EncryptSet → Bool
is_authenticated aes_256_gcm = true
is_authenticated aes_128_gcm = true
is_authenticated _ = false

module _ (l : Ciphers) (law : IsCiphers l) (t : EncryptSet) (key iv plain : List ℕ)
    (named : is_named t ≡ true) where
  abbrev cipher_for : ℕ → List ℕ
  cipher_for p = law.seal (setting_of t key iv p) plain

  small : (n m : ℕ) → n ≤ m + 16 → m + 16 < 2 ^ 31 → n % 2 ^ 32 ≡ n
  small n m h g = omega arith

  module _ (c : l.Context) (accepted : Accepts l key iv c l.encrypt_init t)
      (short : length plain + 16 < 2 ^ 31) where
    abbrev told : l.Context
    told = (start_encrypt l t key iv c).1

    pub encrypt_with_key_iv_seals :
        (p : ℕ)
        → (c' : l.Context) × (encrypt_with_key_iv l t plain key iv c
            ≡ (returned (length (cipher_for p), cipher_for p), c'))
    unfolding encrypt_with_key_iv
    encrypt_with_key_iv_seals p =
        let (ok, is_set, way) = start_encrypt-Tells l law key iv c t named accepted in
        let ready : is_ready (law.setting told) ≡ true =
          rw is_set (setting_of_ready key iv t (law.setting c).padding named) in
        let (out, rest, c₁, c₂, updates, finishes, all) =
          law.encrypts plain told 0 way ready (omega (arith, short)) in
        let same : out ++ rest ≡ cipher_for p =
          all
          ∙ ap (λ s. law.seal s plain) is_set
          ∙ seal-setting_of key iv l law plain t (law.setting c).padding p named in
        let size : (length out + length rest) % 2 ^ 32 ≡ length (cipher_for p) =
          ap (λ n. n % 2 ^ 32) (sym (length-append out rest) ∙ ap length same)
          ∙ small (length (cipher_for p)) (length plain)
              (law.length-seal (setting_of t key iv p) plain) short in
        (
          l.reset c₂,
          bind-returned (start_encrypt l t key iv) _ done c told (rw ok)
              ∙ rw (updates, finishes, same, size),
        )

module _ (l : Ciphers) (law : IsCiphers l) (t : EncryptSet) (key iv : List ℕ)
    (named : is_named t ≡ true) (d : l.Context)
    (accepted : Accepts l key iv d l.decrypt_init t) where
  abbrev told_back : l.Context
  told_back = (start_decrypt l t key iv d).1
