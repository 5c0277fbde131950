-- ===== src/Bits/Mask.antt =====
-- `|` of disjoint fields and `&` with a mask of low bits, as arithmetic.
use native.Mathlib.Nat.{
  pow-suc, one-le-pow, mod-lt, div-add-mod', mul-add-mod_self_right, mod-eq_of_lt,
}
use my_codebase.Base.{
  ℕ, zero, suc, ◌+◌, ◌-◌, ◌*◌, ◌/◌, ◌%◌, ◌^◌, ◌≤◌, ◌<◌, bit_or, bit_and, ◌≡◌, refl, ap, ◌∙◌, arith,
}
use my_codebase.Bits.Step.{bit_or_step, bit_and_step}

-- The remainder by a power of two, one digit at a time.
mod-pow-suc : (k a : ℕ) → a % 2 ^ suc k ≡ a / 2 % 2 ^ k * 2 + a % 2
mod-pow-suc k a =
    let w = 2 ^ k in
    let pos = one-le-pow k 2 (omega arith) in
    let e : 2 ^ suc k ≡ w * 2 = pow-suc 2 k in
    let low : a / 2 % w * 2 + a % 2 < w * 2 = omega (arith, mod-lt (a / 2) pos) in
    let split : a ≡ a / 2 / w * (w * 2) + (a / 2 % w * 2 + a % 2) =
      omega (arith, div-add-mod' (a / 2) w, ap (λ (t : ℕ). t * 2) (div-add-mod' (a / 2) w)) in
    rw e (
      ap (λ t. t % (w * 2)) split
      ∙ mul-add-mod_self_right (a / 2 / w) (w * 2) (a / 2 % w * 2 + a % 2)
      ∙ mod-eq_of_lt low)

and-zero_below : (n a : ℕ) → a ≤ n → bit_and a 0 ≡ 0
and-zero_below zero zero h = refl
and-zero_below zero (suc a) h = absurd (omega arith)
and-zero_below (suc n) a h = omega (arith, bit_and_step a 0, and-zero_below n (a / 2) (omega arith))

-- `a & (2 ^ k - 1)`
pub bit_and_mask : (k a : ℕ) → bit_and a (2 ^ k - 1) ≡ a % 2 ^ k
bit_and_mask zero a = and-zero_below a a (omega arith) ∙ omega arith
bit_and_mask (suc k) a =
    let e = pow-suc 2 k in
    let pos = one-le-pow k 2 (omega arith) in
    let half : (2 ^ suc k - 1) / 2 ≡ 2 ^ k - 1 = omega (arith, e, pos) in
    let odd : (2 ^ suc k - 1) % 2 ≡ 1 = omega (arith, e, pos) in
    let high : bit_and (a / 2) ((2 ^ suc k - 1) / 2) ≡ a / 2 % 2 ^ k =
      ap (bit_and (a / 2)) half ∙ bit_and_mask k (a / 2) in
    omega (arith, bit_and_step a (2 ^ suc k - 1), high, odd, mod-pow-suc k a)

or-zero_below : (n a : ℕ) → a ≤ n → bit_or a 0 ≡ a
or-zero_below zero zero h = refl
or-zero_below zero (suc a) h = absurd (omega arith)
or-zero_below (suc n) a h = omega (arith, bit_or_step a 0, or-zero_below n (a / 2) (omega arith))

-- `(q << k) | r` where `r` has k bits.
pub bit_or_fields : (k q r : ℕ) → r < 2 ^ k → bit_or (q * 2 ^ k) r ≡ q * 2 ^ k + r
bit_or_fields zero q zero p = or-zero_below (q * 2 ^ 0) (q * 2 ^ 0) (omega arith) ∙ omega arith
bit_or_fields zero q (suc r) p = absurd (omega arith)
bit_or_fields (suc k) q r p =
    let w = pow-suc 2 k in
    let e : q * 2 ^ suc k ≡ q * 2 ^ k * 2 = omega (arith, ap (λ (t : ℕ). q * t) w) in
    let h : q * 2 ^ k * 2 / 2 ≡ q * 2 ^ k = omega arith in
    let high : bit_or (q * 2 ^ k * 2 / 2) (r / 2) ≡ q * 2 ^ k + r / 2 =
      ap (λ t. bit_or t (r / 2)) h ∙ bit_or_fields k q (r / 2) (omega (arith, w)) in
    rw e (omega (arith, bit_or_step (q * 2 ^ k * 2) r, high))

or_comm_below : (n a b : ℕ) → a ≤ n → b ≤ n → bit_or a b ≡ bit_or b a
or_comm_below zero zero zero p q = refl
or_comm_below zero (suc a) b p q = absurd (omega arith)
or_comm_below zero zero (suc b) p q = absurd (omega arith)
or_comm_below (suc n) a b p q = omega (
  arith,
  bit_or_step a b,
  bit_or_step b a,
  or_comm_below n (a / 2) (b / 2) (omega arith) (omega arith),
)

pub or_comm : (a b : ℕ) → bit_or a b ≡ bit_or b a
or_comm a b = or_comm_below (a + b) a b (omega arith) (omega arith)
