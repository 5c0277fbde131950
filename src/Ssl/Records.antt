-- ===== src/Ssl/Records.antt =====
-- What the documentation of OpenSSL promises of `SSL_write` and `SSL_read`: bytes travel in
-- records, and a read delivers bytes of one record.
use my_codebase.Base.{
  refl, append-nil, append_assoc, ℕ, ◌≤◌, ◌<◌, ◌^◌, ◌≡◌, List, [], ◌∷◌, ◌++◌, length, take, drop,
  Option, none, some,
}
use my_codebase.Memory.{u32_bytes}
use my_codebase.Ssl.Transfer.{Connection}

abbrev pub concat : List (List ℕ) → List ℕ
concat [] = []
concat (r ∷ rs) = r ++ concat rs

-- No record is empty.
pub data AreRecords : List (List ℕ) → Type 0 where
  no_records : AreRecords []
  more_records :
      (r : List ℕ) (rs : List (List ℕ)) → 1 ≤ length r → AreRecords rs → AreRecords (r ∷ rs)

-- The records after a read from the first one, of which these bytes are left.
abbrev pub put_back : List ℕ → List (List ℕ) → List (List ℕ)
put_back [] rs = rs
put_back (b ∷ bs) rs = (b ∷ bs) ∷ rs

module _ (k : Connection) (records : k.World → List (List ℕ)) where
  -- A write fails or takes all bytes, in one record if they fit in one.
  pub data Wrote (bytes : List ℕ) (w : k.World) : Option ℕ × k.World → Type 0 where
    write_fails : (w' : k.World) → Wrote bytes w (none, w')
    writes :
        (rs : List (List ℕ)) (w' : k.World)
        → AreRecords rs
        → concat rs ≡ bytes
        → (length bytes ≤ 16384 → rs ≡ bytes ∷ [])
        → records w' ≡ records w ++ rs
        → Wrote bytes w (some (length bytes), w')

  -- A read fails or delivers the front of the first record.
  pub data Arrived (n : ℕ) (w : k.World) : Option (List ℕ) × k.World → Type 0 where
    read_fails : (w' : k.World) → Arrived n w (none, w')
    arrives :
        (r : List ℕ) (rs : List (List ℕ)) (w' : k.World)
        → records w ≡ r ∷ rs
        → records w' ≡ put_back (drop n r) rs
        → Arrived n w (some (take n r), w')

-- `records` is what this side has sent and the peer has not read.
pub record IsConnection (k : Connection) : Type 0 where
  pub records : k.World → List (List ℕ)
  pub write_law :
      (bytes : List ℕ) (w : k.World) → 1 ≤ length bytes → Wrote k records bytes w (k.write bytes w)
  pub read_law : (n : ℕ) (w : k.World) → 1 ≤ n → Arrived k records n w (k.read n w)

-- The records on the way are those of messages, the oldest first.
pub data Carries : List (List ℕ) → List (List ℕ) → Type 0 where
  nothing : (flow : List (List ℕ)) → flow ≡ [] → Carries [] flow
  carries :
      (msg : List ℕ) (q rs others flow : List (List ℕ))
      → length msg < 2 ^ 32
      → AreRecords rs
      → concat rs ≡ msg
      → Carries q others
      → flow ≡ u32_bytes (length msg) ∷ (rs ++ others)
      → Carries (msg ∷ q) flow

pub Carries-append :
    (msg : List ℕ) (q rs flow : List (List ℕ))
    → length msg < 2 ^ 32
    → AreRecords rs
    → concat rs ≡ msg
    → Carries q flow
    → Carries (q ++ (msg ∷ [])) (flow ++ (u32_bytes (length msg) ∷ rs))
Carries-append msg q rs flow short full e (nothing f empty) =
    carries msg [] rs [] (flow ++ (u32_bytes (length msg) ∷ rs)) short full e (nothing [] refl)
      (rw (empty, append-nil rs))
Carries-append msg q rs flow short full e (carries m q' ms others f small filled e' rest e₂) =
    carries m (q' ++ (msg ∷ [])) ms (others ++ (u32_bytes (length msg) ∷ rs))
      (flow ++ (u32_bytes (length msg) ∷ rs)) small filled e'
      (Carries-append msg q' rs others short full e rest) (rw (e₂, append_assoc))
