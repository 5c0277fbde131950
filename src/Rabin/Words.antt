-- ===== src/Rabin/Words.antt =====
-- Words of 64 bits as polynomials: the bit test of the code, and what a shift over two words does.
use native.Mathlib.Nat.{
  div-add-mod', mul-div-mul_right, le-div_iff_mul-le, div-lt_iff_lt-mul, mul-lt-mul_of_pos_right,
  pow-suc, mul-le-mul_right, mul-div_cancel, mod-lt,
}
use my_codebase.Base.{
  ℕ, zero, suc, ◌+◌, ◌-◌, ◌*◌, ◌/◌, ◌^◌, ◌≤◌, ◌<◌, bit_xor, ◌≡◌, refl, sym, ap, ◌∙◌, ◌⊎◌, inl, inr,
  true, false, arith, u64, ◌==◌, not, bit_and,
}
use my_codebase.Bits.{digit, bit_and_one, pow-add, pow_pos, xor_words}
use my_codebase.Rabin.{test_bit}

test_of_zero : (v : ℕ) → v ≡ 0 → not (v == 0) ≡ false
test_of_zero v h = ground arith

test_of_pos : (v : ℕ) → 0 < v → not (v == 0) ≡ true
test_of_pos v h = ground arith

pub test_bit-cases :
    (x i : ℕ)
    → ((test_bit x i ≡ true) × (digit x i ≡ 1)) ⊎ ((test_bit x i ≡ false) × (digit x i ≡ 0))
test_bit-cases x i = by_digit (digit x i) refl (omega arith)
  where
    by_digit :
        (t : ℕ)
        → digit x i ≡ t
        → t ≤ 1
        → ((test_bit x i ≡ true) × (digit x i ≡ 1)) ⊎ ((test_bit x i ≡ false) × (digit x i ≡ 0))
    by_digit zero e p =
        let g : bit_and x (1 * 2 ^ i) ≡ 0 =
          bit_and_one i x ∙ ap (λ (t : ℕ). t * 2 ^ i) e ∙ omega arith in
        inr (unfold test_bit in test_of_zero (bit_and x (1 * 2 ^ i)) g, e)
    by_digit (suc zero) e p =
        let g : bit_and x (1 * 2 ^ i) ≡ 2 ^ i =
          bit_and_one i x ∙ ap (λ (t : ℕ). t * 2 ^ i) e ∙ omega arith in
        inl
          (unfold test_bit in test_of_pos (bit_and x (1 * 2 ^ i)) (omega (arith, g, pow_pos i)), e)
    by_digit (suc (suc t)) e p = absurd (omega arith)

module _ (i : ℕ) (room : i ≤ 64) where
  two_words : 2 ^ 64 ≡ 2 ^ (64 - i) * 2 ^ i
  two_words = let e : 64 ≡ 64 - i + i = omega arith in ap (λ k. 2 ^ k) e ∙ pow-add (64 - i) i

  -- `y << i` over two words: the high word is `y >> (64 - i)`.
  pub word_split : (y : ℕ) → y / 2 ^ (64 - i) * 2 ^ 64 + u64 (y * 2 ^ i) ≡ y * 2 ^ i
  word_split y =
      let high : y * 2 ^ i / 2 ^ 64 ≡ y / 2 ^ (64 - i) =
        ap (λ t. y * 2 ^ i / t) two_words ∙ mul-div-mul_right y (2 ^ (64 - i)) (pow_pos i) in
      ap (λ t. t * 2 ^ 64 + u64 (y * 2 ^ i)) (sym high) ∙ div-add-mod' (y * 2 ^ i) (2 ^ 64)

  -- Adding `y << i` to a pair of words.
  pub add_shifted :
      (h l y : ℕ)
      → l < 2 ^ 64
      → bit_xor h (y / 2 ^ (64 - i)) * 2 ^ 64 + bit_xor l (u64 (y * 2 ^ i))
        ≡ bit_xor (h * 2 ^ 64 + l) (y * 2 ^ i)
  add_shifted h l y p =
      sym (xor_words 64 h l (y / 2 ^ (64 - i)) (u64 (y * 2 ^ i)) p (omega arith))
      ∙ ap (bit_xor (h * 2 ^ 64 + l)) (word_split y)

pub shr_shifted : (y a b : ℕ) → y * 2 ^ (a + b) / 2 ^ b ≡ y * 2 ^ a
shr_shifted y a b =
    ap (λ t. y * t / 2 ^ b) (pow-add a b)
    ∙ ap (λ t. t / 2 ^ b) (let e : y * (2 ^ a * 2 ^ b) ≡ y * 2 ^ a * 2 ^ b = omega arith in e)
    ∙ mul-div_cancel (y * 2 ^ a) (pow_pos b)

-- A number with its top bit at `k`.
pub record HasDegree (k d : ℕ) : Type 0 where
  pub least : 2 ^ k ≤ d
  pub below : d < 2 * 2 ^ k

pub shl-HasDegree : (j k : ℕ) {d : ℕ} → HasDegree k d → HasDegree (k + j) (d * 2 ^ j)
shl-HasDegree j k {d} h =
    let e = pow-add k j in
    record {
      least = omega (arith, e, mul-le-mul_right (2 ^ j) h.least);
      below = omega (arith, e, mul-lt-mul_of_pos_right h.below (pow_pos j));
    }

pub shr-HasDegree : (j k : ℕ) {d : ℕ} → HasDegree (k + j) d → HasDegree k (d / 2 ^ j)
shr-HasDegree j k {d} h =
    let e = pow-add k j in
    record {
      least = (le-div_iff_mul-le (pow_pos j)).1 (omega (arith, e, h.least));
      below = (div-lt_iff_lt-mul (pow_pos j)).1 (omega (arith, e, h.below));
    }

-- A number of `k + 1` bits whose bit `k` is set has its top bit there.
pub top_bit : (k x : ℕ) → x < 2 ^ suc k → digit x k ≡ 1 → HasDegree k x
top_bit k x h e =
    let few : x / 2 ^ k < 2 = (div-lt_iff_lt-mul (pow_pos k)).1 (omega (arith, pow-suc 2 k)) in
    let one : x / 2 ^ k ≡ 1 = omega arith in
    record {
      least = omega (arith, div-add-mod' x (2 ^ k), ap (λ (t : ℕ). t * 2 ^ k) one);
      below = omega (arith, pow-suc 2 k);
    }

pub no_top_bit : (k x : ℕ) → x < 2 ^ suc k → digit x k ≡ 0 → x < 2 ^ k
no_top_bit k x h e =
    let few : x / 2 ^ k < 2 = (div-lt_iff_lt-mul (pow_pos k)).1 (omega (arith, pow-suc 2 k)) in
    let nought : x / 2 ^ k ≡ 0 = omega arith in
    omega (arith, div-add-mod' x (2 ^ k), ap (λ (t : ℕ). t * 2 ^ k) nought, mod-lt x (pow_pos k))
