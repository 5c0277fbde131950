-- ===== src/Tests/Crypto.antt =====
-- The theorems on CryptoUtil, on small libraries that keep what OpenSSL promises.
use my_codebase.Base.{
  ◌+◌, ℕ, ◌≡◌, refl, sym, ◌∙◌, ap, Bool, true, List, [], ◌∷◌, ◌++◌, length, Option, none, some,
}
use my_codebase.Process.{returned}
use my_codebase.Crypto.Types.{
  aes_256_cbc, Signers, Digest, evp_sha1, evp_sha256, evp_md5, sha_256, sha_1,
}
use my_codebase.Crypto.{encrypt_with_key_iv, generate_hash, generate_hmac, start_encrypt}
use my_codebase.Crypto.Hashing.{IsDigests, Hashes, digest_size, generate_hash-Hashes}
use my_codebase.Crypto.Signing.{IsSigners, Signs, generate_hmac-Signs}
use my_codebase.Tests.Libraries.{fill, toy, blank, message, toy_digest, toy_digests, length-fill}

abbrev small_key : List ℕ
small_key = 1 ∷ 2 ∷ []

encrypt_cbc : encrypt_with_key_iv toy aes_256_cbc message small_key small_key blank ≡ (
  returned (6, 2 ∷ 2 ∷ 0 ∷ message),
  (encrypt_with_key_iv toy aes_256_cbc message small_key small_key blank).1,
)
unfolding encrypt_with_key_iv start_encrypt
encrypt_cbc = refl

abbrev fed : List ℕ → Option (Digest × List ℕ) → Option (Digest × List ℕ)
fed bytes none = none
fed bytes (some (d, old)) = some (d, old ++ bytes)

abbrev finished : Option (Digest × List ℕ) → List ℕ
finished none = []
finished (some (d, old)) = toy_digest d old

abbrev bytes_of : Option (List ℕ) → List ℕ
bytes_of none = []
bytes_of (some bytes) = bytes

toy_final :
    (d : Digest) (bytes hash : List ℕ) (c c' : Digest × List ℕ)
    → ◌≡◌ {A = Option (Digest × List ℕ)} (some c) (some (d, bytes))
    → toy_digests.final c ≡ (some hash, c')
    → hash ≡ toy_digest d bytes
toy_final d bytes hash c c' h e =
    ap (λ (r : Option (List ℕ) × (Digest × List ℕ)). bytes_of r.0) (sym e) ∙ ap finished h

abbrev toy_digests-IsDigests : IsDigests toy_digests
toy_digests-IsDigests = record {
  digest = toy_digest;
  length-digest = λ d bytes. length-fill (digest_size d) (length bytes);
  told = λ c. some c;
  told-init = λ d c c' e. ap (λ (r : Bool × (Digest × List ℕ)). some r.1) (sym e);
  told-update = λ d old bytes c c' h e.
      ap (λ (r : Bool × (Digest × List ℕ)). some r.1) (sym e) ∙ ap (fed bytes) h;
  final-digest = toy_final;
}

generate_hash_example :
    Hashes toy_digests
      (toy_digest evp_sha1 message)
      evp_sha1
      message
      (evp_md5, message)
      (generate_hash toy_digests sha_1 message (evp_md5, message))
generate_hash_example =
    generate_hash-Hashes toy_digests toy_digests-IsDigests evp_sha1 message (evp_md5, message)

-- A signer of the same kind.
abbrev toy_signature : Digest → List ℕ → List ℕ → List ℕ
toy_signature d key bytes = fill (digest_size d) (length key + length bytes)

abbrev toy_signers : Signers
toy_signers = record {
  Context = Digest × List ℕ × List ℕ;
  Key = List ℕ;
  sign_init = λ d k c. (true, (d, k, []));
  sign_update = λ bytes c. (true, (c.0, c.1, c.2 ++ bytes));
  sign_final = λ n c. (some (toy_signature c.0 c.1 c.2), c);
  reset = λ c. c;
}

abbrev fed_signer : List ℕ → Option (Digest × List ℕ × List ℕ) → Option (Digest × List ℕ × List ℕ)
fed_signer bytes none = none
fed_signer bytes (some (d, k, old)) = some (d, k, old ++ bytes)

abbrev signed : Option (Digest × List ℕ × List ℕ) → List ℕ
signed none = []
signed (some (d, k, old)) = toy_signature d k old

toy_signs :
    (d : Digest) (key bytes : List ℕ) (sig_len : ℕ) (hmac : List ℕ) (c c' : toy_signers.Context)
    → ◌≡◌ {A = Option (Digest × List ℕ × List ℕ)} (some c) (some (d, key, bytes))
    → toy_signers.sign_final sig_len c ≡ (some hmac, c')
    → hmac ≡ toy_signature d key bytes
toy_signs d key bytes sig_len hmac c c' h e =
    ap (λ (r : Option (List ℕ) × (Digest × List ℕ × List ℕ)). bytes_of r.0) (sym e) ∙ ap signed h

abbrev toy_signers-IsSigners : IsSigners toy_signers
toy_signers-IsSigners = record {
  signature = toy_signature;
  length-signature = λ d key bytes. length-fill (digest_size d) (length key + length bytes);
  told = λ c. some c;
  told-sign_init = λ d key c c' e. ap (λ (r : Bool × (Digest × List ℕ × List ℕ)). some r.1) (sym e);
  told-sign_update = λ d key old bytes c c' h e.
      ap (λ (r : Bool × (Digest × List ℕ × List ℕ)). some r.1) (sym e) ∙ ap (fed_signer bytes) h;
  final-signature = toy_signs;
}

generate_hmac_example :
    Signs toy_signers
      (toy_signature evp_sha256 small_key message)
      evp_sha256
      small_key
      message
      (evp_md5, [], [])
      (generate_hmac toy_signers sha_256 message small_key (evp_md5, [], []))
generate_hmac_example =
    generate_hmac-Signs toy_signers toy_signers-IsSigners evp_sha256 small_key message
      (evp_md5, [], [])
