-- ===== src/Bits/Step.antt =====
-- One equation for the lowest digit of each of the three bitwise operations, which stand for a
-- recursion on binary digits with fuel.
use Prim.Native.Nat.{differ, digits, bitwise, bit_and-bitwise, bit_or-bitwise, bit_xor-bitwise, max}
use my_codebase.Base.{
  ℕ, zero, suc, ◌+◌, ◌-◌, ◌*◌, ◌/◌, ◌%◌, ◌≤◌, min, bit_and, bit_or, bit_xor, ◌≡◌, refl, ap, ◌∙◌,
  arith,
}

module _ (alone : ℕ → ℕ) (both : ℕ → ℕ → ℕ) where
  -- A round of fuel more than the first argument needs changes nothing.
  spare_round :
      (fuel x y : ℕ) → x ≤ fuel → digits alone both (suc fuel) x y ≡ digits alone both fuel x y
  spare_round zero zero y h = refl
  spare_round (suc fuel) zero y h = refl
  spare_round zero (suc x) y h = absurd (omega arith)
  spare_round (suc fuel) (suc x) y h =
      ap (λ t. t * 2 + both (suc x % 2) (y % 2))
        (spare_round fuel (suc x / 2) (y / 2) (omega arith))

  spare_rounds :
      (extra fuel total x y : ℕ)
      → total ≡ extra + fuel
      → x ≤ fuel
      → digits alone both total x y ≡ digits alone both fuel x y
  spare_rounds zero fuel total x y e h =
      ap (λ t. digits alone both t x y) (let same : total ≡ fuel = omega (arith, e) in same)
  spare_rounds (suc extra) fuel total x y e h =
      let one_less : total ≡ suc (extra + fuel) = omega (arith, e) in
      ap (λ t. digits alone both t x y) one_less
      ∙ spare_round (extra + fuel) x y (omega (arith, h))
      ∙ spare_rounds extra fuel (extra + fuel) x y refl h

  lowest_digit :
      (x y : ℕ)
      → bitwise alone both (suc x) y
        ≡ bitwise alone both (suc x / 2) (y / 2) * 2 + both (suc x % 2) (y % 2)
  lowest_digit x y =
      ap (λ t. t * 2 + both (suc x % 2) (y % 2))
        (spare_rounds (x - suc x / 2) (suc x / 2) x (suc x / 2) (y / 2) (omega arith) (omega arith))

-- On digits, `differ` is the sum modulo 2.
differ-parity : (x y : ℕ) → x ≤ 1 → y ≤ 1 → differ x y ≡ (x + y) % 2
differ-parity zero zero p q = refl
differ-parity zero (suc zero) p q = refl
differ-parity (suc zero) zero p q = refl
differ-parity (suc zero) (suc zero) p q = refl
differ-parity x (suc (suc y)) p q = absurd (omega arith)
differ-parity (suc (suc x)) y p q = absurd (omega arith)

pub bit_xor_step : (a b : ℕ) → bit_xor a b ≡ bit_xor (a / 2) (b / 2) * 2 + (a % 2 + b % 2) % 2
bit_xor_step zero b = simp bit_xor-bitwise (omega arith)
bit_xor_step (suc a) b =
    let parity = differ-parity (suc a % 2) (b % 2) (omega arith) (omega arith) in
    simp bit_xor-bitwise (
      lowest_digit (λ t. t) differ a b
      ∙ ap (λ t. bitwise (λ u. u) differ (suc a / 2) (b / 2) * 2 + t) parity)

pub bit_or_step : (x y : ℕ) → bit_or x y ≡ bit_or (x / 2) (y / 2) * 2 + max (x % 2) (y % 2)
bit_or_step zero y = simp bit_or-bitwise (omega arith)
bit_or_step (suc x) y = simp bit_or-bitwise (lowest_digit (λ t. t) max x y)

pub bit_and_step : (x y : ℕ) → bit_and x y ≡ bit_and (x / 2) (y / 2) * 2 + min (x % 2) (y % 2)
bit_and_step zero y = simp bit_and-bitwise (omega arith)
bit_and_step (suc x) y = simp bit_and-bitwise (lowest_digit (λ t. 0) min x y)
