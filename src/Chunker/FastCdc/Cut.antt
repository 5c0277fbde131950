-- ===== src/Chunker/FastCdc/Cut.antt =====
-- `CutPoint` returns the first boundary within the size limits.
use my_codebase.Base.{
  ℕ, suc, ◌+◌, ◌-◌, ◌^◌, ◌≤◌, ◌<◌, ◌≡◌, refl, sym, ap, ◌∙◌, ◌==◌, ◌⊎◌, inl, inr, Bool, List, length,
  Option, some, u32, min, bit_and, leb, true, false, arith, All, if◌then◌else◌,
}
use my_codebase.Chunker.FastCdc.{FastCdc, Scanned, cut, ended, scan, cut_point, cut_point_rest}
use my_codebase.Chunker.FastCdc.Scan.{hash, NoCut, IsScanned, cuts, ends, Scans, scan-Scans}

-- Up to the normal size a boundary is where the hash has no bit of the small mask, after it where
-- it has no bit of the large mask. The hash starts at the least size.
unfoldable pub is_boundary : FastCdc → List ℕ → ℕ → ℕ → Bool
is_boundary c src start j =
    bit_and (hash src start (j - start)) (if leb j c.normal_chunk_size then c.mask_s else c.mask_l)
    == 0

pub record IsCutPoint (c : FastCdc) (src : List ℕ) (len k : ℕ) : Type 0 where
  pub lower : min len c.base.min_chunk_size ≤ k
  pub upper : k ≤ min c.base.max_chunk_size len
  pub passed :
      (j : ℕ)
      → min len c.base.min_chunk_size < j
      → j < k
      → is_boundary c src (min len c.base.min_chunk_size) j ≡ false
  pub reached :
      ((min len c.base.min_chunk_size < k)
        × (is_boundary c src (min len c.base.min_chunk_size) k ≡ true))
      ⊎ (k ≡ min c.base.max_chunk_size len)

-- The sizes that `CutPoint` relies on.
pub record IsFast (c : FastCdc) : Type 0 where
  pub min_max : c.base.min_chunk_size ≤ c.base.max_chunk_size
  pub normal_max : c.normal_chunk_size ≤ c.base.max_chunk_size
  pub max_word : c.base.max_chunk_size < 2 ^ 32

le-or-lt : (m n : ℕ) → (m ≤ n) ⊎ (n < m)
le-or-lt m n = ground arith

module _ {c : FastCdc} (v : IsFast c) (src : List ℕ) (len : ℕ) where
  abbrev start : ℕ
  start = min len c.base.min_chunk_size

  abbrev normal_end : ℕ
  normal_end = min c.normal_chunk_size len - start

  abbrev last : ℕ
  last = min c.base.max_chunk_size len - start

  small_boundary :
      (m : ℕ)
      → 1 ≤ m
      → m ≤ normal_end
      → is_boundary c src start (start + m) ≡ bit_and (hash src start m) c.mask_s == 0
  unfolding is_boundary
  small_boundary m pos h =
      let offset : start + m - start ≡ m = omega arith in
      let early : leb (start + m) c.normal_chunk_size ≡ true = ground arith in rw (offset, early)

  large_boundary :
      (m : ℕ)
      → normal_end < m
      → m ≤ last
      → is_boundary c src start (start + m) ≡ bit_and (hash src start m) c.mask_l == 0
  unfolding is_boundary
  large_boundary m h₁ h₂ =
      let offset : start + m - start ≡ m = omega arith in
      let late : leb (start + m) c.normal_chunk_size ≡ false = ground arith in rw (offset, late)

  -- What the two loops have found is what the cut point needs.
  record CutPoint (r : Option ℕ) : Type 0 where
    size : ℕ
    returns : r ≡ some size
    found : IsCutPoint c src len size

  passed_from :
      (k : ℕ)
      → ((m : ℕ) → 0 < m → m < k → is_boundary c src start (start + m) ≡ false)
      → (j : ℕ) → start < j
      → j < start + k
      → is_boundary c src start j ≡ false
  passed_from k each j p q =
      let same : start + (j - start) ≡ j = omega arith in
      ap (is_boundary c src start) (sym same) ∙ each (j - start) (omega arith) (omega arith)

  cut_early :
      (m : ℕ)
      → 0 < m
      → m ≤ normal_end
      → bit_and (hash src start m) c.mask_s == 0 ≡ true
      → ((j : ℕ) → 0 < j → j < m → bit_and (hash src start j) c.mask_s == 0 ≡ false)
      → IsCutPoint c src len (start + m)
  cut_early m h₁ h₂ stop earlier = record {
    lower = omega arith;
    upper = omega (arith, v.min_max, v.normal_max);
    passed = passed_from m (λ j p q. small_boundary j p (omega arith) ∙ earlier j p q);
    reached = inl (omega (arith, h₁), small_boundary m h₁ h₂ ∙ stop);
  }

  module _ (quiet : NoCut src start c.mask_s 0 normal_end) where
    none_between :
        (k : ℕ)
        → k ≤ suc last
        → ((j : ℕ) → normal_end < j → j < k → bit_and (hash src start j) c.mask_l == 0 ≡ false)
        → (m : ℕ) → 0 < m
        → m < k
        → is_boundary c src start (start + m) ≡ false
    none_between k h later m p q = elim (le-or-lt m normal_end) [
      | inl low ↦ small_boundary m p low ∙ quiet m p low
      | inr high ↦ large_boundary m high (omega arith) ∙ later m high q
    ]

    cut_late :
        (m : ℕ)
        → normal_end < m
        → m ≤ last
        → bit_and (hash src start m) c.mask_l == 0 ≡ true
        → ((j : ℕ) → normal_end < j → j < m → bit_and (hash src start j) c.mask_l == 0 ≡ false)
        → IsCutPoint c src len (start + m)
    cut_late m h₁ h₂ stop earlier = record {
      lower = omega arith;
      upper = omega (arith, v.min_max, v.normal_max);
      passed = passed_from m (none_between m (omega arith) earlier);
      reached = inl (omega (arith, h₁), large_boundary m h₁ h₂ ∙ stop);
    }

    cut_last : NoCut src start c.mask_l normal_end last → IsCutPoint c src len (start + last)
    cut_last none_later = record {
      lower = omega arith;
      upper = omega (arith, v.min_max);
      passed =
          passed_from last
            (none_between last (omega arith) (λ j p q. none_later j p (omega arith)));
      reached = inr (omega (arith, v.min_max));
    }

    cut_second :
        (r : Scanned)
        → IsScanned src start c.mask_l normal_end last r
        → CutPoint (elim r [ cut k ↦ some k | ended i' _ ↦ some i' ])
    cut_second (cut k) (cuts m h₁ h₂ stop earlier) = record {
      size = start + m;
      returns = refl;
      found = cut_late m h₁ h₂ stop earlier;
    }
    cut_second (ended i f) (ends none_later) = record {
      size = start + last;
      returns = refl;
      found = cut_last none_later;
    }

  module _ (bytes : All (λ x. x < 256) src) (inside : len ≤ length src) where
    first_loop : Scans src start c.mask_s 0 normal_end (scan src c.mask_s normal_end start 0)
    unfolding hash
    first_loop =
        let from : start + 0 ≡ start = omega arith in
        let loop =
          scan-Scans src start c.mask_s normal_end 0 normal_end (omega arith) bytes (omega arith) in
        rw from at loop

    finish :
        (r : Scanned)
        → IsScanned src start c.mask_s 0 normal_end r
        → CutPoint (cut_point_rest c src len r)
    unfolding cut_point_rest
    finish (cut k) (cuts m h₁ h₂ stop earlier) = record {
      size = start + m;
      returns = refl;
      found = cut_early m h₁ h₂ stop earlier;
    }
    finish (ended i f) (ends quiet) =
        let rounds = min (u32 c.base.max_chunk_size) len - (start + normal_end) in
        let total : normal_end + rounds ≡ last = omega (arith, v.max_word, v.normal_max) in
        let second =
          scan-Scans src start c.mask_l rounds normal_end last total bytes
            (omega (arith, v.min_max)) in
        let end = cut_second quiet second.result second.scanned in
        record { size = end.size; returns = rw second.returns end.returns; found = end.found }

    -- For sizes in order below `2 ^ 32`, a buffer of bytes and a length inside it: `CutPoint`
    -- reads nothing outside the buffer and the gear table and returns the first position after the
    -- least size, or after the length if that is less, at which the hash meets the mask of that
    -- region, or, if there is none, the smaller of the largest size and the length.
    pub cut_point-IsCutPoint : (k : ℕ) × (cut_point c src len ≡ some k) × IsCutPoint c src len k
    unfolding cut_point
    cut_point-IsCutPoint =
        let word : u32 c.base.min_chunk_size ≡ c.base.min_chunk_size =
          omega (arith, v.min_max, v.max_word) in
        let end = finish first_loop.result first_loop.scanned in
        (end.size, rw (word, first_loop.returns) end.returns, end.found)
