-- ===== src/Tool.antt =====
-- The arithmetic helpers of include/define.h, on `uint32_t`.
use my_codebase.Base.{
  ℕ, ◌+◌, ◌*◌, ◌/◌, ◌%◌, ◌^◌, ◌≤◌, ◌<◌, leb, ◌==◌, if◌then◌else◌, ◌≡◌, ◌⊎◌, u32, arith, Bool-cases,
  ==_iff, inl, inr, false,
}
use native.Mathlib.Nat.{div-add-mod', mod-lt, mul-le-mul_left}

unfoldable pub compare_limit : ℕ → ℕ → ℕ → ℕ
compare_limit input lower upper =
    if leb input lower then lower else if leb upper input then upper else input

unfoldable pub div_ceil : ℕ → ℕ → ℕ
div_ceil a b = let tmp = a / b in if a % b == 0 then tmp else u32 (tmp + 1)

-- For a lower limit that is not above the upper one, the result of `CompareLimit` lies between
-- them, and it is the input, or the limit that the input passed.
pub compare_limit_bounds :
    (input lower upper : ℕ)
    → lower ≤ upper
    → (lower ≤ compare_limit input lower upper)
      × (compare_limit input lower upper ≤ upper)
      × ((compare_limit input lower upper ≡ input)
          ⊎ ((input < lower) × (compare_limit input lower upper ≡ lower))
          ⊎ ((upper < input) × (compare_limit input lower upper ≡ upper)))
unfolding compare_limit
compare_limit_bounds input lower upper h = (ground arith, ground arith, ground arith)

not_zero : (v : ℕ) → v == 0 ≡ false → 1 ≤ v
not_zero v h = ground arith

-- For a positive divisor and a 32-bit dividend, `DivCeil` is the least number of blocks that hold
-- the dividend.
pub div_ceil_lem :
    (a b : ℕ) → 0 < b → a < 2 ^ 32 → (a ≤ div_ceil a b * b) × (div_ceil a b * b < a + b)
unfolding div_ceil
div_ceil_lem a b h small =
    let whole = div-add-mod' a b in
    let rest = mod-lt a h in
    elim (Bool-cases (a % b == 0)) [
      | inl e ↦
          let exact : a % b ≡ 0 = (==_iff (a % b) 0).0 e in
          rw e (omega (arith, whole, exact), omega (arith, whole, exact))
      | inr e ↦
          let left : 1 ≤ a % b = not_zero (a % b) e in
          let halved : a / b * 2 ≤ a / b * b = mul-le-mul_left (a / b) (omega arith) in
          let fits : u32 (a / b + 1) ≡ a / b + 1 = omega (arith, whole, halved) in
          rw (e, fits) (omega (arith, whole, rest), omega (arith, whole, rest))
    ]
