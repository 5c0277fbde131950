-- ===== src/Rabin/Append.antt =====
-- `Append8` multiplies the fingerprint's polynomial by `x ^ 8`, adds a byte, and reduces.
use mathlib.Core.Path.{subst}
use native.Mathlib.Nat.{pow-le-pow_right}
use my_codebase.Base.{
  ℕ, zero, suc, ◌+◌, ◌*◌, ◌/◌, ◌%◌, ◌^◌, ◌≤◌, ◌<◌, bit_or, bit_xor, ◌≡◌, sym, ap, ap₂, ◌∙◌, arith,
  u64, get_or, List,
}
use my_codebase.Bits.{xor_fields, bit_or_fields, or_comm, xor-lt, xor_assoc, xor_comm, xor_drop}
use my_codebase.Rabin.{
  polymod, polymmult, polymult, tabulate, fp_poly_constant, t_entry, append8_with,
}
use my_codebase.Rabin.Poly.{
  clmul, clmul-lt, clmul_shift, clmul-Congruent, Congruent, Congruent-trans, Congruent-of_eq,
  Congruent-refl, xor-Congruent,
}
use my_codebase.Rabin.Words.{HasDegree}
use my_codebase.Rabin.Polymult.{polymult-Holds}
use my_codebase.Rabin.Polymod.{IsReduced, polymod-IsReduced}
use my_codebase.Rabin.Fls.{fls64-eq-suc}

-- For a polynomial `d` of degree `k` at most 63 and a second factor of 64 bits: `polymmult` gives
-- a polynomial below `2 ^ k` that is congruent to the product modulo `d`.
pub polymmult-IsReduced :
    (x y d k : ℕ)
    → HasDegree k d
    → k ≤ 63
    → y < 2 ^ 64
    → IsReduced d (clmul 64 x y) k (polymmult x y d)
unfolding polymmult
polymmult-IsReduced x y d k degree fits hy =
    let p = polymult-Holds x y hy in
    let high : (polymult x y).0 < 2 ^ 64 = omega (arith, p.value, p.low, clmul-lt 64 x y 63 hy) in
    let length =
      fls64-eq-suc k d
        (omega (arith, degree.below, pow-le-pow_right {n = 2} (omega arith) {i = k} {j = 63} fits))
        degree in
    let r = polymod-IsReduced d k degree fits (polymult x y).0 (polymult x y).1 length high p.low in
    record {
      below = r.below;
      same =
          subst (λ t. Congruent d t (polymod (polymult x y).0 (polymult x y).1 d)) p.value r.same;
    }

pub get_or-tabulate : (f : ℕ → ℕ) (n lo i : ℕ) → i < n → get_or (tabulate f lo n) i 0 ≡ f (lo + i)
unfolding tabulate
get_or-tabulate f zero lo i h = absurd (omega arith)
get_or-tabulate f (suc n) lo zero h = ap f (omega arith)
get_or-tabulate f (suc n) lo (suc i) h =
    let e : lo + 1 + i ≡ lo + suc i = omega arith in
    get_or-tabulate f n (lo + 1) i (omega arith) ∙ ap f e

-- The polynomial of the fingerprint.
abbrev pub poly : ℕ
poly = fp_poly_constant

pub poly-HasDegree : HasDegree 63 poly
poly-HasDegree = omega arith

abbrev pub IsFingerprint : ℕ → ℕ → Type 0
IsFingerprint n r = IsReduced poly n 63 r

-- The table built by the constructor.
abbrev pub t_of : List ℕ
t_of = tabulate (t_entry poly 63 (polymod 0 (2 ^ 63) poly)) 0 256

-- `x ^ 63`, reduced.
t_one : ℕ
t_one = polymod 0 (2 ^ 63) poly

t_one-IsFingerprint : IsFingerprint (2 ^ 63) t_one
unfolding t_one
t_one-IsFingerprint =
    polymod-IsReduced poly 63 poly-HasDegree (omega arith) 0 (2 ^ 63)
      (fls64-eq-suc 63 poly (omega arith) poly-HasDegree) (omega arith) (omega arith)

-- `q` times `x ^ 63`, reduced.
t_product : ℕ → ℕ
t_product q = polymmult q t_one poly

t_product-IsFingerprint : (q : ℕ) → q < 256 → IsFingerprint (q * 2 ^ 63) (t_product q)
unfolding t_product
t_product-IsFingerprint q h =
    let one = t_one-IsFingerprint in
    let r =
      polymmult-IsReduced q t_one poly 63 poly-HasDegree (omega arith) (omega (arith, one.below)) in
    record {
      below = r.below;
      same =
          Congruent-trans poly
            (Congruent-trans poly (Congruent-of_eq poly (sym (clmul_shift 64 q 63 (omega arith))))
              (clmul-Congruent poly 64 q one.same))
            r.same;
    }

-- An entry of the table: the product, with the bit that the shift by 8 leaves at position 63.
get-t_of : (q : ℕ) → q < 256 → get_or t_of q 0 ≡ bit_xor (q % 2 * 2 ^ 63) (t_product q)
unfolding t_entry t_product t_one
get-t_of q h =
    let r = t_product-IsFingerprint q h in
    let word : u64 (q * 2 ^ 63) ≡ q % 2 * 2 ^ 63 = omega arith in
    get_or-tabulate (t_entry poly 63 (polymod 0 (2 ^ 63) poly)) 256 0 q h
    ∙ ap (t_entry poly 63 (polymod 0 (2 ^ 63) poly)) (let e : 0 + q ≡ q = omega arith in e)
    ∙ ap (bit_or (t_product q)) word
    ∙ or_comm (t_product q) (q % 2 * 2 ^ 63)
    ∙ bit_or_fields 63 (q % 2) (t_product q) r.below
    ∙ sym (xor_fields 63 (q % 2) (t_product q) r.below)

module _ (p m : ℕ) (hp : p < 2 ^ 63) (hm : m < 2 ^ 8) where
  q : ℕ
  q = p / 2 ^ 55

  low : ℕ
  low = p % 2 ^ 55 * 2 ^ 8

  low_lt : low < 2 ^ 63
  unfolding low
  low_lt = omega arith

  product : IsFingerprint (q * 2 ^ 63) (t_product q)
  unfolding q
  product = t_product-IsFingerprint q (omega arith)

  number : p * 2 ^ 8 + m ≡ bit_xor (bit_xor (q * 2 ^ 63) low) m
  unfolding q low
  number =
      let e : p * 2 ^ 8 ≡ q * 2 ^ 63 + low = omega arith in
      sym (xor_fields 8 p m hm)
      ∙ ap (λ t. bit_xor t m) (e ∙ sym (xor_fields 63 q low (omega arith)))

  append8_split : append8_with 55 t_of p m ≡ bit_xor (bit_xor low m) (t_product q)
  unfolding append8_with q low
  append8_split =
      let top = q % 2 * 2 ^ 63 in
      let word : u64 (p * 2 ^ 8) ≡ p % 2 ^ 56 * 2 ^ 8 = omega arith in
      let whole : p % 2 ^ 56 * 2 ^ 8 ≡ top + low = omega arith in
      let shifted : bit_or (u64 (p * 2 ^ 8)) m ≡ bit_xor (bit_xor top low) m =
        ap (λ t. bit_or t m) word
        ∙ bit_or_fields 8 (p % 2 ^ 56) m hm
        ∙ sym (xor_fields 8 (p % 2 ^ 56) m hm)
        ∙ ap (λ t. bit_xor t m) (whole ∙ sym (xor_fields 63 (q % 2) low (omega arith))) in
      ap₂ bit_xor shifted (get-t_of q (omega arith)) ∙ xor_drop top low m (t_product q)

  -- Appending a byte to a fingerprint: the polynomial times `x ^ 8` plus the byte, reduced.
  pub append8_with-IsFingerprint : IsFingerprint (p * 2 ^ 8 + m) (append8_with 55 t_of p m)
  append8_with-IsFingerprint = rw append8_split (record {
    below =
        xor-lt 63 (bit_xor low m) (t_product q) (xor-lt 63 low m low_lt (omega arith))
          product.below;
    same = Congruent-trans poly (Congruent-of_eq poly number) (
        Congruent-trans poly
          (xor-Congruent poly (xor-Congruent poly product.same (Congruent-refl poly low))
            (Congruent-refl poly m))
          (Congruent-of_eq poly
            (xor_assoc (t_product q) low m ∙ xor_comm (t_product q) (bit_xor low m))));
  })
