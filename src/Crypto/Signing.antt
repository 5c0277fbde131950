-- ===== src/Crypto/Signing.antt =====
-- `GenerateHMAC` on what the documentation of OpenSSL promises of `EVP_DigestSign*`.
use my_codebase.Base.{
  ℕ, ◌==◌, ==_iff, ◌≡◌, refl, true, false, inl, inr, List, [], ◌++◌, length, Option, none, some,
}
use my_codebase.Process.{Outcome, returned, exited, call-cases, result-cases}
use my_codebase.Crypto.Types.{Digest, evp_sha1, evp_sha256, evp_md5, Signers}
use my_codebase.Crypto.{hmac_init, generate_hmac}
use my_codebase.Crypto.Hashing.{digest_size, hash_set_of}

-- `told` is the algorithm and the key that a context was started for, and the bytes that it has been
-- given. Whether the final call minds the size that it is told of its buffer is left open; where it
-- succeeds it delivers the signature.
pub record IsSigners (l : Signers) : Type 0 where
  pub signature : Digest → l.Key → List ℕ → List ℕ
  pub length-signature :
      (d : Digest) (key : l.Key) (bytes : List ℕ) → length (signature d key bytes) ≡ digest_size d
  pub told : l.Context → Option (Digest × l.Key × List ℕ)
  pub told-sign_init :
      (d : Digest) (key : l.Key) (c c' : l.Context)
      → l.sign_init d key c ≡ (true, c')
      → told c' ≡ some (d, key, [])
  pub told-sign_update :
      (d : Digest) (key : l.Key) (old bytes : List ℕ) (c c' : l.Context)
      → told c ≡ some (d, key, old)
      → l.sign_update bytes c ≡ (true, c')
      → told c' ≡ some (d, key, old ++ bytes)
  pub final-signature :
      (d : Digest) (key : l.Key) (bytes : List ℕ) (sig_len : ℕ) (hmac : List ℕ) (c c' : l.Context)
      → told c ≡ some (d, key, bytes)
      → l.sign_final sig_len c ≡ (some hmac, c')
      → hmac ≡ signature d key bytes

-- How `GenerateHMAC` ends: with the signature, or by `exit` after the first call that failed.
pub data Signs (l : Signers) (h : List ℕ) (d : Digest) (key : l.Key) (bytes : List ℕ)
    (c : l.Context) : Outcome (List ℕ) × l.Context → Type 0 where
  signs : (c' : l.Context) → Signs l h d key bytes c (returned h, c')
  init_fails :
      (c' : l.Context) → l.sign_init d key c ≡ (false, c') → Signs l h d key bytes c (exited, c')
  update_fails :
      (c₁ c' : l.Context)
      → l.sign_init d key c ≡ (true, c₁)
      → l.sign_update bytes c₁ ≡ (false, c')
      → Signs l h d key bytes c (exited, c')
  final_fails :
      (c₁ c₂ c' : l.Context)
      → l.sign_init d key c ≡ (true, c₁)
      → l.sign_update bytes c₁ ≡ (true, c₂)
      → l.sign_final 0 c₂ ≡ (none, c')
      → Signs l h d key bytes c (exited, c')

module _ (l : Signers) where
  start_works :
      (d : Digest) (key : l.Key) (c c' : l.Context)
      → l.sign_init d key c ≡ (true, c')
      → hmac_init l (hash_set_of d) key c ≡ (returned (digest_size d), c')
  unfolding hmac_init
  start_works evp_sha1 key c c' e = rw e
  start_works evp_sha256 key c c' e = rw e
  start_works evp_md5 key c c' e = rw e

  start_fails :
      (d : Digest) (key : l.Key) (c c' : l.Context)
      → l.sign_init d key c ≡ (false, c')
      → hmac_init l (hash_set_of d) key c ≡ (exited, c')
  unfolding hmac_init
  start_fails evp_sha1 key c c' e = rw e
  start_fails evp_sha256 key c c' e = rw e
  start_fails evp_md5 key c c' e = rw e

module _ (l : Signers) (law : IsSigners l) (d : Digest) (key : l.Key) (bytes : List ℕ)
    (c : l.Context) where
  abbrev Ends : Outcome (List ℕ) × l.Context → Type 0
  Ends = Signs l (law.signature d key bytes) d key bytes c

  after_update :
      (c₁ c₂ : l.Context)
      → l.sign_init d key c ≡ (true, c₁)
      → l.sign_update bytes c₁ ≡ (true, c₂)
      → Ends (generate_hmac l (hash_set_of d) bytes key c)
  unfolding generate_hmac
  after_update c₁ c₂ starts updates = elim (result-cases (l.sign_final 0 c₂)) [
    | inl (hash, c₃, finals) ↦
        let told =
          law.told-sign_update d key [] bytes c₁ c₂ (law.told-sign_init d key c c₁ starts)
            updates in
        let is_digest = law.final-signature d key bytes 0 hash c₂ c₃ told finals in
        let size : (length hash == digest_size d) ≡ true =
          rw (is_digest, law.length-signature) ((==_iff (digest_size d) (digest_size d)).1 refl) in
        rw (start_works l d key c c₁ starts, updates, finals, size, is_digest) (signs (l.reset c₃))
    | inr (c₃, fails) ↦
        rw (start_works l d key c c₁ starts, updates, fails)
          (final_fails c₁ c₂ c₃ starts updates fails)
  ]

  -- For an OpenSSL that does what it documents, and each of the three hash types: `GenerateHMAC`
  -- writes the signature of its input under the key, or exits, and it exits only where the start,
  -- the update or the final call, which is told of a buffer of no bytes, failed, at the first that
  -- did.
  pub generate_hmac-Signs :
      Signs l
        (law.signature d key bytes)
        d
        key
        bytes
        c
        (generate_hmac l (hash_set_of d) bytes key c)
  unfolding generate_hmac
  generate_hmac-Signs = elim (call-cases (l.sign_init d key c)) [
    | inl (c₁, starts) ↦ elim (call-cases (l.sign_update bytes c₁)) [
      | inl (c₂, updates) ↦ after_update c₁ c₂ starts updates
      | inr (c₂, fails) ↦
          rw (start_works l d key c c₁ starts, fails) (update_fails c₁ c₂ starts fails)
    ]
    | inr (c₁, fails) ↦ rw (start_fails l d key c c₁ fails) (init_fails c₁ fails)
  ]
