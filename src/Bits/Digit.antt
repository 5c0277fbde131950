-- ===== src/Bits/Digit.antt =====
-- Binary digits, the test of one bit by a mask, and powers of two.
use native.Mathlib.Nat.{
  pow-suc, mul_assoc, mul_comm, one-le-pow, div-div-eq-div-mul, mod-lt, div-add-mod', div-eq_of_lt,
  div-eq_of_lt-le, le-div_iff_mul-le, mul-add-mod_self_right, mod-eq_of_lt,
}
use my_codebase.Base.{
  ℕ, zero, suc, ◌+◌, ◌*◌, ◌/◌, ◌%◌, ◌^◌, ◌≤◌, ◌<◌, bit_and, bit_xor, ◌≡◌, sym, ap, ap₂, ◌∙◌, arith,
}
use my_codebase.Bits.Step.{bit_and_step}
use my_codebase.Bits.Xor.{
  xor-shr, xor-shl, xor-lt, xor-parity, zero-xor, xor_fields, xor_interchange,
}
use my_codebase.Bits.Mask.{bit_and_mask}

-- The coefficient of `x ^ i` in a polynomial, bit `i` of a word.
abbrev pub digit : ℕ → ℕ → ℕ
digit x i = x / 2 ^ i % 2

pub pow_pos : (k : ℕ) → 1 ≤ 2 ^ k
pow_pos k = one-le-pow k 2 (omega arith)

pub pow-add : (a b : ℕ) → 2 ^ (a + b) ≡ 2 ^ a * 2 ^ b
pow-add a zero = let e : a + zero ≡ a = omega arith in ap (λ (t : ℕ). 2 ^ t) e ∙ omega arith
pow-add a (suc b) =
    let e : a + suc b ≡ suc (a + b) = omega arith in
    ap (λ (t : ℕ). 2 ^ t) e
    ∙ pow-suc 2 (a + b)
    ∙ ap (λ (t : ℕ). t * 2) (pow-add a b)
    ∙ mul_assoc (2 ^ a) (2 ^ b) 2
    ∙ ap (λ (t : ℕ). 2 ^ a * t) (sym (pow-suc 2 b))

pub shl-shl : (x a b : ℕ) → x * 2 ^ a * 2 ^ b ≡ x * 2 ^ (a + b)
shl-shl x a b = mul_assoc x (2 ^ a) (2 ^ b) ∙ ap (λ (t : ℕ). x * t) (sym (pow-add a b))

pub shr-shr : (x a b : ℕ) → x / 2 ^ a / 2 ^ b ≡ x / 2 ^ (a + b)
shr-shr x a b = div-div-eq-div-mul x (2 ^ a) (2 ^ b) ∙ ap (λ (t : ℕ). x / t) (sym (pow-add a b))

pub digit-xor : (a b i : ℕ) → digit (bit_xor a b) i ≡ (digit a i + digit b i) % 2
digit-xor a b i =
    ap (λ t. t % 2) (xor-shr i a b) ∙ omega (arith, xor-parity (a / 2 ^ i) (b / 2 ^ i))

pub digit-cases : (x i : ℕ) → digit x i ≤ 1
digit-cases x i = omega arith

-- `a & (m << k)` looks at the bits from `k` on.
pub bit_and_shifted : (k a m : ℕ) → bit_and a (m * 2 ^ k) ≡ bit_and (a / 2 ^ k) m * 2 ^ k
bit_and_shifted zero a m =
    let ea : a ≡ a / 2 ^ 0 = omega arith in
    let em : m * 2 ^ 0 ≡ m = omega arith in ap₂ bit_and ea em ∙ omega arith
bit_and_shifted (suc k) a m =
    let w = pow-suc 2 k in
    let em : m * 2 ^ suc k ≡ m * 2 ^ k * 2 = omega (arith, ap (λ (t : ℕ). m * t) w) in
    let h : m * 2 ^ k * 2 / 2 ≡ m * 2 ^ k = omega arith in
    let ea : a / 2 / 2 ^ k ≡ a / 2 ^ suc k =
      div-div-eq-div-mul a 2 (2 ^ k) ∙ ap (λ (t : ℕ). a / t) (mul_comm 2 (2 ^ k) ∙ sym w) in
    let high : bit_and (a / 2) (m * 2 ^ k * 2 / 2) ≡ bit_and (a / 2 ^ suc k) m * 2 ^ k =
      ap (bit_and (a / 2)) h ∙ bit_and_shifted k (a / 2) m ∙ ap (λ t. bit_and t m * 2 ^ k) ea in
    rw em (
      omega (
        arith,
        bit_and_step a (m * 2 ^ k * 2),
        high,
        ap (λ (t : ℕ). bit_and (a / 2 ^ suc k) m * t) w,
      ))

pub bit_and_one : (k a : ℕ) → bit_and a (1 * 2 ^ k) ≡ digit a k * 2 ^ k
bit_and_one k a = bit_and_shifted k a 1 ∙ ap (λ t. t * 2 ^ k) (bit_and_mask 1 (a / 2 ^ k))

pub div_one_digit : (k a : ℕ) → 2 ^ k ≤ a → a < 2 * 2 ^ k → a / 2 ^ k ≡ 1
div_one_digit k a p q = div-eq_of_lt-le {k = 1} (2 ^ k) (omega arith) (omega arith)

-- Two numbers with the same top bit: it cancels.
pub xor-lt_top :
    (k a b : ℕ) → 2 ^ k ≤ a → a < 2 * 2 ^ k → 2 ^ k ≤ b → b < 2 * 2 ^ k → bit_xor a b < 2 ^ k
xor-lt_top k a b pa qa pb qb =
    let ea : a / 2 ^ k ≡ 1 = div_one_digit k a pa qa in
    let eb : b / 2 ^ k ≡ 1 = div_one_digit k b pb qb in
    let h : bit_xor a b / 2 ^ k ≡ 0 = xor-shr k a b ∙ ap₂ bit_xor ea eb in
    omega (
      arith,
      div-add-mod' (bit_xor a b) (2 ^ k),
      mod-lt (bit_xor a b) (pow_pos k),
      ap (λ (t : ℕ). t * 2 ^ k) h,
    )

-- A bit above all of the other number stays.
pub le-xor_top : (k a b : ℕ) → a < 2 ^ k → 2 ^ k ≤ b → 2 ^ k ≤ bit_xor a b
le-xor_top k a b p q =
    let ea : a / 2 ^ k ≡ 0 = div-eq_of_lt p in
    let h : bit_xor a b / 2 ^ k ≡ b / 2 ^ k =
      xor-shr k a b ∙ ap (λ t. bit_xor t (b / 2 ^ k)) ea ∙ zero-xor (b / 2 ^ k) in
    let hb : 1 ≤ b / 2 ^ k = (le-div_iff_mul-le (pow_pos k)).1 (omega arith) in
    let hx : 1 ≤ bit_xor a b / 2 ^ k = omega (arith, h, hb) in
    omega (arith, (le-div_iff_mul-le {x = 1} (pow_pos k)).0 hx)

-- Two words of a pair side by side.
pub xor_words :
    (k a b c d : ℕ)
    → b < 2 ^ k
    → d < 2 ^ k
    → bit_xor (a * 2 ^ k + b) (c * 2 ^ k + d) ≡ bit_xor a c * 2 ^ k + bit_xor b d
xor_words k a b c d p q =
    ap₂ bit_xor (sym (xor_fields k a b p)) (sym (xor_fields k c d q))
    ∙ xor_interchange (a * 2 ^ k) b (c * 2 ^ k) d
    ∙ ap (λ t. bit_xor t (bit_xor b d)) (xor-shl k a c)
    ∙ xor_fields k (bit_xor a c) (bit_xor b d) (xor-lt k b d p q)

-- The remainder by a power of two, from the highest digit.
pub mod-pow-suc_top : (k a : ℕ) → a % 2 ^ suc k ≡ digit a k * 2 ^ k + a % 2 ^ k
mod-pow-suc_top k a =
    let w = 2 ^ k in
    let q = a / w in
    let e : 2 ^ suc k ≡ w * 2 = pow-suc 2 k in
    let r : a % w < w = mod-lt a (pow_pos k) in
    let low : q % 2 * w + a % w < w * 2 = lesser (q % 2) w (a % w) (omega arith) r in
    let halves : q ≡ q / 2 * 2 + q % 2 = omega arith in
    let split : a ≡ q / 2 * (w * 2) + (q % 2 * w + a % w) =
      omega (arith, div-add-mod' a w, ap (λ (t : ℕ). t * w) halves) in
    rw e (
      ap (λ t. t % (w * 2)) split
      ∙ mul-add-mod_self_right (q / 2) (w * 2) (q % 2 * w + a % w)
      ∙ mod-eq_of_lt low)
  where
    lesser : (t w r : ℕ) → t ≤ 1 → r < w → t * w + r < w * 2
    lesser zero w r p h = omega arith
    lesser (suc zero) w r p h = omega arith
    lesser (suc (suc t)) w r p h = absurd (omega arith)
