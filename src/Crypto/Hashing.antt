-- ===== src/Crypto/Hashing.antt =====
-- `GenerateHash` on what the documentation of OpenSSL promises.
use my_codebase.Base.{
  ℕ, ◌==◌, ==_iff, ◌≡◌, refl, true, false, inl, inr, List, [], ◌++◌, length, Option, none, some,
}
use my_codebase.Process.{Outcome, returned, exited, call-cases, result-cases}
use my_codebase.Crypto.Types.{
  HashSet, sha_256, md5, sha_1, Digest, evp_sha1, evp_sha256, evp_md5, Digests,
}
use my_codebase.Crypto.{hash_init, generate_hash}

abbrev pub digest_size : Digest → ℕ
digest_size evp_sha1 = 20
digest_size evp_sha256 = 32
digest_size evp_md5 = 16

-- The enumerator that stands for an algorithm.
abbrev pub hash_set_of : Digest → HashSet
hash_set_of evp_sha1 = sha_1
hash_set_of evp_sha256 = sha_256
hash_set_of evp_md5 = md5

-- `told` is the algorithm that a context was started for and the bytes that it has been given.
pub record IsDigests (l : Digests) : Type 0 where
  pub digest : Digest → List ℕ → List ℕ
  pub length-digest : (d : Digest) (bytes : List ℕ) → length (digest d bytes) ≡ digest_size d
  pub told : l.Context → Option (Digest × List ℕ)
  pub told-init : (d : Digest) (c c' : l.Context) → l.init d c ≡ (true, c') → told c' ≡ some (d, [])
  pub told-update :
      (d : Digest) (old bytes : List ℕ) (c c' : l.Context)
      → told c ≡ some (d, old)
      → l.update bytes c ≡ (true, c')
      → told c' ≡ some (d, old ++ bytes)
  pub final-digest :
      (d : Digest) (bytes hash : List ℕ) (c c' : l.Context)
      → told c ≡ some (d, bytes)
      → l.final c ≡ (some hash, c')
      → hash ≡ digest d bytes

-- How `GenerateHash` ends: with the digest, or by `exit` after the first call that failed.
pub data Hashes (l : Digests) (h : List ℕ) (d : Digest) (bytes : List ℕ) (c : l.Context)
    : Outcome (List ℕ) × l.Context → Type 0 where
  hashes : (c' : l.Context) → Hashes l h d bytes c (returned h, c')
  init_fails : (c' : l.Context) → l.init d c ≡ (false, c') → Hashes l h d bytes c (exited, c')
  update_fails :
      (c₁ c' : l.Context)
      → l.init d c ≡ (true, c₁)
      → l.update bytes c₁ ≡ (false, c')
      → Hashes l h d bytes c (exited, c')
  final_fails :
      (c₁ c₂ c' : l.Context)
      → l.init d c ≡ (true, c₁)
      → l.update bytes c₁ ≡ (true, c₂)
      → l.final c₂ ≡ (none, c')
      → Hashes l h d bytes c (exited, c')

module _ (l : Digests) where
  start_works :
      (d : Digest) (c c' : l.Context)
      → l.init d c ≡ (true, c')
      → hash_init l (hash_set_of d) c ≡ (returned (digest_size d), c')
  unfolding hash_init
  start_works evp_sha1 c c' e = rw e
  start_works evp_sha256 c c' e = rw e
  start_works evp_md5 c c' e = rw e

  start_fails :
      (d : Digest) (c c' : l.Context)
      → l.init d c ≡ (false, c')
      → hash_init l (hash_set_of d) c ≡ (exited, c')
  unfolding hash_init
  start_fails evp_sha1 c c' e = rw e
  start_fails evp_sha256 c c' e = rw e
  start_fails evp_md5 c c' e = rw e

module _ (l : Digests) (law : IsDigests l) (d : Digest) (bytes : List ℕ) (c : l.Context) where
  abbrev Ends : Outcome (List ℕ) × l.Context → Type 0
  Ends = Hashes l (law.digest d bytes) d bytes c

  after_update :
      (c₁ c₂ : l.Context)
      → l.init d c ≡ (true, c₁)
      → l.update bytes c₁ ≡ (true, c₂)
      → Ends (generate_hash l (hash_set_of d) bytes c)
  unfolding generate_hash
  after_update c₁ c₂ starts updates = elim (result-cases (l.final c₂)) [
    | inl (hash, c₃, finals) ↦
        let told = law.told-update d [] bytes c₁ c₂ (law.told-init d c c₁ starts) updates in
        let is_digest = law.final-digest d bytes hash c₂ c₃ told finals in
        let size : (length hash == digest_size d) ≡ true =
          rw (is_digest, law.length-digest) ((==_iff (digest_size d) (digest_size d)).1 refl) in
        rw (start_works l d c c₁ starts, updates, finals, size, is_digest) (hashes (l.reset c₃))
    | inr (c₃, fails) ↦
        rw (start_works l d c c₁ starts, updates, fails) (final_fails c₁ c₂ c₃ starts updates fails)
  ]

  -- For an OpenSSL that does what it documents, and each of the three hash types: `GenerateHash`
  -- writes the digest of its input, or exits, and it exits only where the start, the update or the
  -- final call failed, at the first that did.
  pub generate_hash-Hashes :
      Hashes l (law.digest d bytes) d bytes c (generate_hash l (hash_set_of d) bytes c)
  unfolding generate_hash
  generate_hash-Hashes = elim (call-cases (l.init d c)) [
    | inl (c₁, starts) ↦ elim (call-cases (l.update bytes c₁)) [
      | inl (c₂, updates) ↦ after_update c₁ c₂ starts updates
      | inr (c₂, fails) ↦ rw (start_works l d c c₁ starts, fails) (update_fails c₁ c₂ starts fails)
    ]
    | inr (c₁, fails) ↦ rw (start_fails l d c c₁ fails) (init_fails c₁ fails)
  ]
