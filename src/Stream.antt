-- ===== src/Stream.antt =====
-- `std::ifstream` as the code uses it: `read`, `gcount` and `eof`.
use my_codebase.Base.{
  ℕ, ◌≤◌, ◌<◌, ◌≡◌, Bool, true, false, ◌||◌, List, [], ◌++◌, take, drop, length, leb, if◌then◌else◌,
  arith, take-append-drop, append-nil, All, All-take, All-drop, Bool-cases, leb→le, inl, inr,
}

-- The bytes not yet read, and the two state bits.
pub record IStream : Type 0 where
  pub rest : List ℕ
  pub eof : Bool
  pub failed : Bool

abbrev pub opened : List ℕ → IStream
opened bytes = record { rest = bytes; eof = false; failed = false }

-- The bytes that `read(buf, n)` stores (`gcount()` is their number), and the stream after it. A
-- stream that is not good stores nothing; a short read sets both bits.
unfoldable pub read : ℕ → IStream → List ℕ × IStream
read n s =
    if s.eof || s.failed
    then ([], record s { failed = true })
    else if leb n (length s.rest)
    then (take n s.rest, record s { rest = drop n s.rest })
    else (s.rest, record { rest = []; eof = true; failed = true })

-- Nothing is lost: what was read and what is left make up what was there.
pub read-append : (n : ℕ) (s : IStream) → (read n s).0 ++ (read n s).1.rest ≡ s.rest
unfolding read
read-append n s = ground (arith, take-append-drop n s.rest, append-nil s.rest)

abbrev pub IsBytes : List ℕ → Type 0
IsBytes = All (λ x. x < 256)

pub read-IsBytes :
    (n : ℕ) (s : IStream) → IsBytes s.rest → IsBytes (read n s).0 × IsBytes (read n s).1.rest
unfolding read
read-IsBytes n s h = elim (Bool-cases (s.eof || s.failed)) [
  | inl bad ↦ rw bad (tt, h)
  | inr good ↦ elim (Bool-cases (leb n (length s.rest))) [
    | inl full ↦
        rw (good, full) (All-take (λ x. x < 256) n s.rest h, All-drop (λ x. x < 256) n s.rest h)
    | inr short ↦ rw (good, short) (h, tt)
  ]
]

pub record IsGood (s : IStream) : Type 0 where
  pub not_eof : s.eof ≡ false
  pub not_failed : s.failed ≡ false

-- What a read of a good stream leaves: a good stream with `n` bytes fewer, or one at its end.
pub data AfterRead (n : ℕ) (s : IStream) : Type 0 where
  more :
      n ≤ length s.rest
      → (read n s).0 ≡ take n s.rest
      → (read n s).1.rest ≡ drop n s.rest
      → (read n s).1.eof ≡ false
      → IsGood (read n s).1
      → AfterRead n s
  at_end :
      length s.rest < n
      → (read n s).0 ≡ s.rest
      → (read n s).1.rest ≡ []
      → (read n s).1.eof ≡ true
      → AfterRead n s

leb→gt : (m n : ℕ) → leb m n ≡ false → n < m
leb→gt m n h = ground arith

pub read-AfterRead : (n : ℕ) (s : IStream) → IsGood s → AfterRead n s
unfolding read
read-AfterRead n s g =
    let good : s.eof || s.failed ≡ false = rw (g.not_eof, g.not_failed) in
    elim (Bool-cases (leb n (length s.rest))) [
      | inl full ↦
          more (leb→le _ _ full) (rw (good, full)) (rw (good, full)) (rw (good, full, g.not_eof))
            (rw (good, full) (record { not_eof = g.not_eof; not_failed = g.not_failed }))
      | inr short ↦
          at_end (leb→gt _ _ short) (rw (good, short)) (rw (good, short)) (rw (good, short))
    ]
