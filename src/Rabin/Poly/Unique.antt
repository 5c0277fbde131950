-- ===== src/Rabin/Poly/Unique.antt =====
-- Below the degree of `d` the remainder is unique: a nonzero multiple of `d` has its degree.
use native.Mathlib.Nat.{
  mod-eq_of_lt, mod-lt, pow-le-pow_right, div-eq_of_lt, mul-div_cancel, mul_comm, pow-suc, div_self,
  le_trans, mul-lt-mul_of_pos_right,
}
use native.Mathlib.Decide.{dec_lt}
use my_codebase.Base.{
  ℕ, zero, suc, ◌+◌, ◌*◌, ◌/◌, ◌%◌, ◌^◌, ◌≤◌, ◌<◌, bit_xor, ◌≡◌, refl, sym, ap, ap₂, ◌∙◌, ◌⊎◌, inl,
  inr, arith,
}
use my_codebase.Bits.{
  digit, digit-xor, xor-shl, xor_fields, xor_comm, mod-pow-suc_top, digit-cases, zero-xor, xor-zero,
  xor_self, xor_interchange, xor-lt, le-xor_top, pow-add, pow_pos, div_one_digit, xor_cancel,
}
use my_codebase.Rabin.Poly.Product.{clmul, IsMultiple, nothing, shifted, Congruent}

pub digits_of_xor : (s t y : ℕ) → s ≤ 1 → t ≤ 1 → (s + t) % 2 * y ≡ bit_xor (s * y) (t * y)
digits_of_xor zero zero y p q = omega (arith, xor_self (0 * y))
digits_of_xor zero (suc zero) y p q =
    let e : 0 ≡ 0 * y = omega arith in sym (zero-xor (1 * y)) ∙ ap (λ t. bit_xor t (1 * y)) e
digits_of_xor (suc zero) zero y p q =
    let e : 0 ≡ 0 * y = omega arith in sym (xor-zero (1 * y)) ∙ ap (bit_xor (1 * y)) e
digits_of_xor (suc zero) (suc zero) y p q = omega (arith, xor_self (1 * y))
digits_of_xor s (suc (suc t)) y p q = absurd (omega arith)
digits_of_xor (suc (suc s)) t y p q = absurd (omega arith)

-- The product is additive in its first factor.
pub clmul-xor : (n a b y : ℕ) → clmul n (bit_xor a b) y ≡ bit_xor (clmul n a y) (clmul n b y)
unfolding clmul
clmul-xor zero a b y = sym (zero-xor 0)
clmul-xor (suc n) a b y =
    ap₂ bit_xor (clmul-xor n a b y) (
      ap (λ (t : ℕ). t * (y * 2 ^ n)) (digit-xor a b n)
      ∙ digits_of_xor (digit a n) (digit b n) (y * 2 ^ n) (omega arith) (omega arith))
    ∙ xor_interchange (clmul n a y) (clmul n b y) (digit a n * (y * 2 ^ n))
        (digit b n * (y * 2 ^ n))

digit_above : (x n : ℕ) → x < 2 ^ n → digit x n ≡ 0
digit_above x n h = omega (arith, div-eq_of_lt h)

pub clmul_last : (n x y : ℕ) → x < 2 ^ n → clmul (suc n) x y ≡ clmul n x y
unfolding clmul
clmul_last n x y h =
    let nought : digit x n * (y * 2 ^ n) ≡ 0 =
      ap (λ (t : ℕ). t * (y * 2 ^ n)) (digit_above x n h) ∙ omega arith in
    ap (bit_xor (clmul n x y)) nought ∙ xor-zero (clmul n x y)

-- Digits beyond the length of `x` add nothing.
pub clmul_beyond : (m n x y : ℕ) → x < 2 ^ n → clmul (n + m) x y ≡ clmul n x y
unfolding clmul
clmul_beyond zero n x y h = let e : n + 0 ≡ n = omega arith in ap (λ k. clmul k x y) e
clmul_beyond (suc m) n x y h =
    let e : n + suc m ≡ suc (n + m) = omega arith in
    let small : x < 2 ^ (n + m) =
      omega (arith, pow-le-pow_right {n = 2} (omega arith) {i = n} {j = n + m} (omega arith)) in
    ap (λ k. clmul k x y) e ∙ clmul_last (n + m) x y small ∙ clmul_beyond m n x y h

digit_power_below : (n m : ℕ) → digit (2 ^ (n + suc m)) n ≡ 0
digit_power_below n m =
    let e : 2 ^ (n + suc m) ≡ 2 ^ m * 2 * 2 ^ n =
      pow-add n (suc m) ∙ mul_comm (2 ^ n) (2 ^ suc m) ∙ ap (λ (t : ℕ). t * 2 ^ n) (pow-suc 2 m) in
    omega (arith, ap (λ (t : ℕ). t / 2 ^ n) e, mul-div_cancel (2 ^ m * 2) (pow_pos n))

clmul_power_below : (n m y : ℕ) → clmul n (2 ^ (n + m)) y ≡ 0
unfolding clmul
clmul_power_below zero m y = refl
clmul_power_below (suc n) m y =
    let e : suc n + m ≡ n + suc m = omega arith in
    let last : digit (2 ^ (n + suc m)) n * (y * 2 ^ n) ≡ 0 =
      ap (λ (t : ℕ). t * (y * 2 ^ n)) (digit_power_below n m) ∙ omega arith in
    ap (λ k. clmul (suc n) (2 ^ k) y) e
    ∙ ap₂ bit_xor (clmul_power_below n (suc m) y) last
    ∙ zero-xor 0

-- The product with one power.
pub clmul_power : (j y : ℕ) → clmul (suc j) (2 ^ j) y ≡ y * 2 ^ j
unfolding clmul
clmul_power j y =
    let e : j ≡ j + 0 = omega arith in
    let low : clmul j (2 ^ j) y ≡ 0 = ap (λ k. clmul j (2 ^ k) y) e ∙ clmul_power_below j 0 y in
    let top : digit (2 ^ j) j * (y * 2 ^ j) ≡ y * 2 ^ j =
      omega (arith, ap (λ (t : ℕ). t % 2 * (y * 2 ^ j)) (div_self (pow_pos j))) in
    ap₂ bit_xor low top ∙ zero-xor (y * 2 ^ j)

-- Degrees add: the product with `n` terms stays below `2 ^ (n + k)`.
pub clmul-lt : (n x y k : ℕ) → y < 2 * 2 ^ k → clmul n x y < 2 ^ (n + k)
unfolding clmul
clmul-lt zero x y k h = pow_pos (0 + k)
clmul-lt (suc n) x y k h =
    let e : 2 ^ (suc n + k) ≡ 2 * (2 ^ n * 2 ^ k) =
      pow-add (suc n) k ∙ ap (λ (t : ℕ). t * 2 ^ k) (pow-suc 2 n) ∙ omega arith in
    let low : clmul n x y < 2 ^ (suc n + k) = omega (arith, clmul-lt n x y k h, pow-add n k, e) in
    let shift : y * 2 ^ n < 2 ^ (suc n + k) =
      omega (arith, e, mul-lt-mul_of_pos_right h (pow_pos n)) in
    xor-lt (suc n + k) (clmul n x y) (digit x n * (y * 2 ^ n)) low
      (scale (digit x n) (digit-cases x n) shift)
  where
    scale : {z w : ℕ} (t : ℕ) → t ≤ 1 → z < w → t * z < w
    scale zero p q = omega arith
    scale (suc zero) p q = omega arith
    scale (suc (suc t)) p q = absurd (omega arith)

clmul_low : (n x j : ℕ) → clmul n x (2 ^ j) ≡ x % 2 ^ n * 2 ^ j
unfolding clmul
clmul_low zero x j =
    let e : x % 2 ^ 0 ≡ 0 = omega arith in
    let g : 0 * 2 ^ j ≡ 0 = omega arith in sym (ap (λ (t : ℕ). t * 2 ^ j) e ∙ g)
clmul_low (suc n) x j =
    let a = x % 2 ^ n in
    let regroup : digit x n * (2 ^ j * 2 ^ n) ≡ digit x n * 2 ^ n * 2 ^ j = omega arith in
    ap₂ bit_xor (clmul_low n x j) regroup
    ∙ xor-shl j a (digit x n * 2 ^ n)
    ∙ ap (λ (t : ℕ). t * 2 ^ j)
        (xor_comm a (digit x n * 2 ^ n)
          ∙ xor_fields n (digit x n) a (mod-lt x (pow_pos n))
          ∙ sym (mod-pow-suc_top n x))

-- The product with a power on the right: a shift of the lowest `n` digits.
pub clmul_shift : (n x j : ℕ) → x < 2 ^ n → clmul n x (2 ^ j) ≡ x * 2 ^ j
clmul_shift n x j h = clmul_low n x j ∙ ap (λ (t : ℕ). t * 2 ^ j) (mod-eq_of_lt h)

-- A multiple of `d` is a product with `d`.
record IsProduct (d m : ℕ) : Type 0 where
  terms : ℕ
  factor : ℕ
  small : factor < 2 ^ terms
  equation : m ≡ clmul terms factor d

IsMultiple-IsProduct : {d m : ℕ} → IsMultiple d m → IsProduct d m
unfolding clmul
IsMultiple-IsProduct nothing = record {
  terms = 0;
  factor = 0;
  small = omega arith;
  equation = refl;
}
IsMultiple-IsProduct {d} (shifted j {m = m} g) =
    let r = IsMultiple-IsProduct g in
    let n = r.terms + suc j in
    let q = bit_xor (2 ^ j) r.factor in
    let hq : r.factor < 2 ^ n = omega (
      arith,
      r.small,
      pow-le-pow_right {n = 2} (omega arith) {i = r.terms} {j = n} (omega arith),
    ) in
    let hj : 2 ^ j < 2 ^ n = omega (
      arith,
      pow-suc 2 j,
      pow_pos j,
      pow-le-pow_right {n = 2} (omega arith) {i = suc j} {j = n} (omega arith),
    ) in
    let hs : 2 ^ j < 2 ^ suc j = omega (arith, pow-suc 2 j, pow_pos j) in
    let e : n ≡ suc j + r.terms = omega arith in
    record {
      terms = n;
      factor = q;
      small = xor-lt n (2 ^ j) r.factor hj hq;
      equation = sym (
          clmul-xor n (2 ^ j) r.factor d
          ∙ ap₂ bit_xor
              (ap (λ k. clmul k (2 ^ j) d) e
                ∙ clmul_beyond r.terms (suc j) (2 ^ j) d hs
                ∙ clmul_power j d)
              (clmul_beyond (suc j) r.terms r.factor d r.small ∙ sym r.equation));
    }

-- A product with a nonzero factor has at least the degree of `d`.
le-clmul : (n q d k : ℕ) → 2 ^ k ≤ d → d < 2 * 2 ^ k → q < 2 ^ n → (q ≡ 0) ⊎ (2 ^ k ≤ clmul n q d)
unfolding clmul
le-clmul zero q d k p r h = inl (omega arith)
le-clmul (suc n) q d k p r h = elim (dec_lt q (2 ^ n)) [
  | yes small ↦ elim (le-clmul n q d k p r small) [
    | inl e ↦ inl e
    | inr g ↦ inr (rw (clmul_last n q d small) g)
  ]
  | no big ↦
      let top : q / 2 ^ n ≡ 1 = div_one_digit n q (omega arith) (omega (arith, pow-suc 2 n)) in
      let e : digit q n * (d * 2 ^ n) ≡ d * 2 ^ n =
        ap (λ (t : ℕ). t % 2 * (d * 2 ^ n)) top ∙ omega arith in
      let lifted : 2 ^ (n + k) ≤ d * 2 ^ n = rw (pow-add n k) (grind arith) in
      let whole : 2 ^ (n + k) ≤ bit_xor (clmul n q d) (digit q n * (d * 2 ^ n)) =
        rw e (le-xor_top (n + k) (clmul n q d) (d * 2 ^ n) (clmul-lt n q d k r) lifted) in
      inr
        (le_trans (pow-le-pow_right {n = 2} (omega arith) {i = k} {j = n + k} (omega arith)) whole)
]

-- Two congruent numbers below the degree of `d` are equal.
pub Congruent-eq :
    {d a b : ℕ} (k : ℕ)
    → 2 ^ k ≤ d
    → d < 2 * 2 ^ k
    → a < 2 ^ k
    → b < 2 ^ k
    → Congruent d a b
    → a ≡ b
Congruent-eq {d} {a} {b} k p q ha hb h =
    let r = IsMultiple-IsProduct h.difference in
    elim (le-clmul r.terms r.factor d k p q r.small) [
      | inl e ↦
          let len : r.terms ≡ 0 + r.terms = omega arith in
          let zeroed : clmul r.terms 0 d ≡ 0 =
            ap (λ k. clmul k 0 d) len
            ∙ clmul_beyond r.terms 0 0 d (omega arith)
            ∙ unfold clmul in refl in
          let same : bit_xor a b ≡ 0 = r.equation ∙ ap (λ t. clmul r.terms t d) e ∙ zeroed in
          sym (xor_cancel a b) ∙ ap (λ t. bit_xor t b) same ∙ zero-xor b
      | inr g ↦ absurd (omega (arith, g, r.equation, xor-lt k a b ha hb))
    ]
