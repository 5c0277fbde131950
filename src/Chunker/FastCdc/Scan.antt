-- ===== src/Chunker/FastCdc/Scan.antt =====
-- One loop of `CutPoint` against the hash that it computes.
use my_codebase.Base.{
  ℕ, zero, suc, ◌+◌, ◌/◌, ◌≤◌, ◌<◌, ◌≡◌, refl, ◌∙◌, ◌==◌, ◌⊎◌, inl, inr, List, length, Option, some,
  u32, bit_and, get_or, get_elem?-eq-get_or, true, false, arith, Bool-cases, All, All-get_or,
  if◌then◌else◌, if_true, if_false,
}
use my_codebase.Chunker.FastCdc.{scan, Scanned, cut, ended, gear_table}

-- The hash of the `n` bytes of `src` from `lo` on.
unfoldable pub hash : List ℕ → ℕ → ℕ → ℕ
hash src lo zero = 0
hash src lo (suc n) = u32 (hash src lo n / 2 + get_or gear_table (get_or src (lo + n) 0) 0)

-- No cut at the ends of the strings of more than `a` and at most `b` bytes.
abbrev pub NoCut : List ℕ → ℕ → ℕ → ℕ → ℕ → Type 0
NoCut src lo mask a b = (m : ℕ) → a < m → m ≤ b → bit_and (hash src lo m) mask == 0 ≡ false

-- What a loop that starts after `a` bytes and runs to `b` has found.
pub data IsScanned (src : List ℕ) (lo mask a b : ℕ) : Scanned → Type 0 where
  cuts :
      (m : ℕ)
      → a < m
      → m ≤ b
      → bit_and (hash src lo m) mask == 0 ≡ true
      → ((j : ℕ) → a < j → j < m → bit_and (hash src lo j) mask == 0 ≡ false)
      → IsScanned src lo mask a b (cut (lo + m))
  ends : NoCut src lo mask a b → IsScanned src lo mask a b (ended (lo + b) (hash src lo b))

pub record Scans (src : List ℕ) (lo mask a b : ℕ) (r : Option Scanned) : Type 0 where
  pub result : Scanned
  pub returns : r ≡ some result
  pub scanned : IsScanned src lo mask a b result

gear_length : length gear_table ≡ 256
unfolding gear_table
gear_length = refl

first_or_later : (m j : ℕ) → m < j → (j ≡ suc m) ⊎ (suc m < j)
first_or_later m j h = ground arith

-- One round of the loop.
module _ (src : List ℕ) (lo mask : ℕ) where
  abbrev Stops : ℕ → Type 0
  Stops m = bit_and (hash src lo m) mask == 0 ≡ true

  scan_step :
      (rounds m : ℕ)
      → All (λ x. x < 256) src
      → lo + m < length src
      → scan src mask (suc rounds) (lo + m) (hash src lo m) ≡ (
          if bit_and (hash src lo (suc m)) mask == 0
          then some (cut (lo + suc m))
          else scan src mask rounds (lo + suc m) (hash src lo (suc m)))
  unfolding scan hash
  scan_step rounds m bytes h =
      let byte = get_or src (lo + m) 0 in
      let small : byte < 256 = All-get_or (λ x. x < 256) src (lo + m) 0 bytes (omega arith) in
      let next : lo + m + 1 ≡ lo + suc m = omega arith in
      rw (
        get_elem?-eq-get_or src (lo + m) 0 h,
        get_elem?-eq-get_or gear_table byte 0 (omega (arith, gear_length)),
        next,
      )

  NoCut-suc :
      {m b : ℕ}
      → bit_and (hash src lo (suc m)) mask == 0 ≡ false
      → NoCut src lo mask (suc m) b
      → NoCut src lo mask m b
  NoCut-suc {m} {b} e none_after j h k = elim (first_or_later m j h) [
    | inl same ↦ rw (same, e)
    | inr later ↦ none_after j later k
  ]

  IsScanned-suc :
      {m b : ℕ} {r : Scanned}
      → bit_and (hash src lo (suc m)) mask == 0 ≡ false
      → IsScanned src lo mask (suc m) b r
      → IsScanned src lo mask m b r
  IsScanned-suc {m} {b} e (cuts k h₁ h₂ stop earlier) = cuts k (omega arith) h₂ stop (λ j p q.
      elim (first_or_later m j p) [ inl same ↦ rw (same, e) | inr later ↦ earlier j later q ])
  IsScanned-suc e (ends none_after) = ends (NoCut-suc e none_after)

  -- The loop reads nothing outside the two arrays and stops at the first boundary, if one is near.
  pub scan-Scans :
      (rounds m b : ℕ)
      → m + rounds ≡ b
      → All (λ x. x < 256) src
      → lo + b ≤ length src
      → Scans src lo mask m b (scan src mask rounds (lo + m) (hash src lo m))
  unfolding scan
  scan-Scans zero m b e bytes h = record {
    result = ended (lo + m) (hash src lo m);
    returns = refl;
    scanned =
        (let same : m ≡ b = omega (arith, e) in rw same (ends (λ j p q. absurd (omega arith))));
  }
  scan-Scans (suc rounds) m b e bytes h =
      let step = scan_step rounds m bytes (omega arith) in
      let later = scan-Scans rounds (suc m) b (omega arith) bytes h in
      elim (Bool-cases (bit_and (hash src lo (suc m)) mask == 0)) [
        | inl stop ↦ record {
          result = cut (lo + suc m);
          returns = step ∙ if_true (bit_and (hash src lo (suc m)) mask == 0) _ _ stop;
          scanned = cuts (suc m) (omega arith) (omega arith) stop (λ j p q. absurd (omega arith));
        }
        | inr goes_on ↦ record {
          result = later.result;
          returns =
              step ∙ if_false (bit_and (hash src lo (suc m)) mask == 0) _ _ goes_on ∙ later.returns;
          scanned = IsScanned-suc goes_on later.scanned;
        }
      ]
