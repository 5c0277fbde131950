-- ===== src/Tests/Libraries.antt =====
-- Small libraries for the tests: ciphers and hashes that keep what OpenSSL promises.
use my_codebase.Base.{
  ℕ, zero, suc, ◌<◌, ◌^◌, ◌≡◌, refl, ap, Bool, true, false, List, [], ◌∷◌, ◌++◌, length, drop,
  Option, none, some, arith,
}
use my_codebase.Crypto.Types.{Ciphers, Digests, Digest}
use my_codebase.Crypto.Promises.{Setting, IsCiphers, Writes, set_up, is_gcm, is_ready}
use my_codebase.Crypto.Hashing.{digest_size}

-- A context is its setting and the bytes that the final call will write.
abbrev pub Toy : Type 0
Toy = Setting × Bool × List ℕ

abbrev pub size_of : Option (List ℕ) → ℕ
size_of none = 0
size_of (some bytes) = length bytes

-- Three bytes that show the setting, then the message.
abbrev pub toy_seal : Setting → List ℕ → List ℕ
toy_seal s bytes = size_of s.key ∷ size_of s.iv ∷ length s.aad ∷ bytes

abbrev pub toy_decrypt : Bool → List ℕ → Setting → Bool → Option (List ℕ) × Toy
toy_decrypt true bytes s way = (some bytes, (s, way, []))
toy_decrypt false bytes s way = (some [], (s, way, drop 3 bytes))

abbrev pub toy_last : Bool → Toy → (List ℕ × ℕ) × Toy
toy_last true (s, way, rest) = (([], 0), (s, way, []))
toy_last false (s, way, rest) = ((rest, length rest), (s, way, []))

abbrev pub toy : Ciphers
toy = record {
  Context = Toy;
  encrypt_init = λ a k v c. (true, (set_up a k v c.0, true, c.2));
  decrypt_init = λ a k v c. (true, (set_up a k v c.0, false, c.2));
  set_ivlen = λ n c. (record (c.0) { iv_length = some n }, c.1, c.2);
  set_padding = λ n c. (record (c.0) { padding = n }, c.1, c.2);
  encrypt_aad = λ bytes c. (record (c.0) { aad = c.0.aad ++ bytes }, c.1, c.2);
  decrypt_aad = λ bytes c. (record (c.0) { aad = c.0.aad ++ bytes }, c.1, c.2);
  encrypt_update = λ bytes c. (some [], (c.0, c.1, toy_seal c.0 bytes));
  decrypt_update = λ bytes c. toy_decrypt (is_gcm c.0.algorithm) bytes c.0 c.1;
  encrypt_final = λ len c. ((c.2, length c.2), (c.0, c.1, []));
  decrypt_final = λ len c. toy_last (is_gcm c.0.algorithm) c;
  reset = λ c. c;
}

toy_decrypts :
    (bytes cipher : List ℕ) (c : Toy) (len : ℕ)
    → toy_seal c.0 bytes ≡ cipher
    → c.1 ≡ false
    → is_ready c.0 ≡ true
    → is_gcm c.0.algorithm ≡ false
    → length cipher < 2 ^ 31
    → Writes toy (toy.decrypt_update cipher) (toy.decrypt_final len) c bytes
toy_decrypts bytes cipher c len e way ready unchecked short = (
  [],
  bytes,
  (c.0, c.1, bytes),
  (c.0, c.1, []),
  rw (unchecked, ap (λ (t : List ℕ). drop 3 t) e),
  rw unchecked,
  refl,
)

toy_decrypt_keeps :
    (b : Bool) (bytes : List ℕ) (s : Setting) (way : Bool) → (toy_decrypt b bytes s way).1.0 ≡ s
toy_decrypt_keeps true bytes s way = refl
toy_decrypt_keeps false bytes s way = refl

toy_decrypt_turns :
    (b : Bool) (bytes : List ℕ) (s : Setting) (way : Bool) → (toy_decrypt b bytes s way).1.1 ≡ way
toy_decrypt_turns true bytes s way = refl
toy_decrypt_turns false bytes s way = refl

pub toy-IsCiphers : IsCiphers toy
toy-IsCiphers = record {
  setting = λ c. c.0;
  seal = toy_seal;
  encrypting = λ c. c.1;
  setting-encrypt_init = λ a k v c ok. refl;
  encrypting-encrypt_init = λ a k v c ok. refl;
  setting-decrypt_init = λ a k v c ok. refl;
  encrypting-decrypt_init = λ a k v c ok. refl;
  encrypting-set_padding = λ n c. refl;
  encrypting-encrypt_aad = λ bytes c. refl;
  encrypting-decrypt_aad = λ bytes c. refl;
  setting-set_ivlen = λ n c. refl;
  setting-set_padding = λ n c. refl;
  setting-encrypt_aad = λ bytes c way. refl;
  setting-decrypt_aad = λ bytes c way. refl;
  seal-padding = λ a s p bytes e h. refl;
  length-seal = λ s bytes. omega arith;
  encrypts = λ bytes c len way ready short.
      ([], toy_seal c.0 bytes, (c.0, c.1, toy_seal c.0 bytes), (c.0, c.1, []), refl, refl, refl);
  decrypts = toy_decrypts;
  gcm_decrypts = λ bytes c way ready checked short. (bytes, (c.0, c.1, []), rw checked, refl);
  gcm_final = λ c len way checked. rw checked;
  setting-decrypt_update = λ bytes c. toy_decrypt_keeps (is_gcm c.0.algorithm) bytes c.0 c.1;
  encrypting-decrypt_update = λ bytes c. toy_decrypt_turns (is_gcm c.0.algorithm) bytes c.0 c.1;
}

abbrev pub blank : Toy
blank = (
  record { algorithm = none; key = none; iv = none; iv_length = none; aad = []; padding = 0 },
  false,
  [],
)

abbrev pub message : List ℕ
message = 10 ∷ 11 ∷ 12 ∷ []

-- A hash that repeats the number of bytes.
abbrev pub fill : ℕ → ℕ → List ℕ
fill zero b = []
fill (suc n) b = b ∷ fill n b

pub length-fill : (n b : ℕ) → length (fill n b) ≡ n
length-fill zero b = refl
length-fill (suc n) b = ap suc (length-fill n b)

abbrev pub toy_digest : Digest → List ℕ → List ℕ
toy_digest d bytes = fill (digest_size d) (length bytes)

-- A context is the algorithm and the bytes so far.
abbrev pub toy_digests : Digests
toy_digests = record {
  Context = Digest × List ℕ;
  init = λ d c. (true, (d, []));
  update = λ bytes c. (true, (c.0, c.1 ++ bytes));
  final = λ c. (some (toy_digest c.0 c.1), c);
  reset = λ c. c;
}
