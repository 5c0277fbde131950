-- ===== src/Bits/Xor.antt =====
-- Exclusive or as a group operation, and how it meets shifts and remainders.
use native.Mathlib.Nat.{
  pow-suc, mul_comm, div-div-eq-div-mul, mod-lt, one-le-pow, div-add-mod', mul-add-mod_self_right,
  mod-eq_of_lt,
}
use Prim.Native.Nat.{bit_xor-bitwise}
use my_codebase.Base.{
  ℕ, zero, suc, ◌+◌, ◌*◌, ◌/◌, ◌%◌, ◌^◌, ◌≤◌, ◌<◌, bit_xor, ◌≡◌, refl, sym, ap, ap₂, ◌∙◌, arith,
}
use my_codebase.Bits.Step.{bit_xor_step}

pub zero-xor : (b : ℕ) → bit_xor 0 b ≡ b
zero-xor b = bit_xor-bitwise 0 b

-- Each law goes from the halves to the whole; `n` bounds the arguments.
xor_comm_below : (n a b : ℕ) → a ≤ n → b ≤ n → bit_xor a b ≡ bit_xor b a
xor_comm_below zero zero zero p q = refl
xor_comm_below zero (suc a) b p q = absurd (omega arith)
xor_comm_below zero zero (suc b) p q = absurd (omega arith)
xor_comm_below (suc n) a b p q = omega (
  arith,
  bit_xor_step a b,
  bit_xor_step b a,
  xor_comm_below n (a / 2) (b / 2) (omega arith) (omega arith),
)

pub xor_comm : (a b : ℕ) → bit_xor a b ≡ bit_xor b a
xor_comm a b = xor_comm_below (a + b) a b (omega arith) (omega arith)

pub xor-zero : (a : ℕ) → bit_xor a 0 ≡ a
xor-zero a = xor_comm a 0 ∙ zero-xor a

xor_self_below : (n a : ℕ) → a ≤ n → bit_xor a a ≡ 0
xor_self_below zero zero p = refl
xor_self_below zero (suc a) p = absurd (omega arith)
xor_self_below (suc n) a p = omega (arith, bit_xor_step a a, xor_self_below n (a / 2) (omega arith))

pub xor_self : (a : ℕ) → bit_xor a a ≡ 0
xor_self a = xor_self_below a a (omega arith)

-- The two halves of an exclusive or.
pub xor-half : (a b : ℕ) → bit_xor a b / 2 ≡ bit_xor (a / 2) (b / 2)
xor-half a b = omega (arith, bit_xor_step a b)

pub xor-parity : (a b : ℕ) → bit_xor a b % 2 ≡ (a + b) % 2
xor-parity a b = omega (arith, bit_xor_step a b)

xor_assoc_below :
    (n a b c : ℕ) → a ≤ n → b ≤ n → c ≤ n → bit_xor (bit_xor a b) c ≡ bit_xor a (bit_xor b c)
xor_assoc_below zero zero zero zero p q r = refl
xor_assoc_below zero (suc a) b c p q r = absurd (omega arith)
xor_assoc_below zero zero (suc b) c p q r = absurd (omega arith)
xor_assoc_below zero zero zero (suc c) p q r = absurd (omega arith)
xor_assoc_below (suc n) a b c p q r =
    let ih = xor_assoc_below n (a / 2) (b / 2) (c / 2) (omega arith) (omega arith) (omega arith) in
    let high : bit_xor (bit_xor a b / 2) (c / 2) ≡ bit_xor (a / 2) (bit_xor b c / 2) =
      rw (xor-half a b, xor-half b c) ih in
    omega (
      arith,
      bit_xor_step (bit_xor a b) c,
      bit_xor_step a (bit_xor b c),
      xor-parity a b,
      xor-parity b c,
      high,
    )

pub xor_assoc : (a b c : ℕ) → bit_xor (bit_xor a b) c ≡ bit_xor a (bit_xor b c)
xor_assoc a b c = xor_assoc_below (a + b + c) a b c (omega arith) (omega arith) (omega arith)

-- Two pairs regrouped: the form in which linearity is used.
pub xor_interchange :
    (a b c d : ℕ) → bit_xor (bit_xor a b) (bit_xor c d) ≡ bit_xor (bit_xor a c) (bit_xor b d)
xor_interchange a b c d =
    xor_assoc a b (bit_xor c d)
    ∙ ap (bit_xor a)
        (sym (xor_assoc b c d) ∙ ap (λ t. bit_xor t d) (xor_comm b c) ∙ xor_assoc c b d)
    ∙ sym (xor_assoc a c (bit_xor b d))

-- A term that both sides hold drops out.
pub xor_drop :
    (a b c d : ℕ) → bit_xor (bit_xor (bit_xor a b) c) (bit_xor a d) ≡ bit_xor (bit_xor b c) d
xor_drop a b c d =
    ap (λ t. bit_xor t (bit_xor a d)) (xor_assoc a b c)
    ∙ xor_interchange a (bit_xor b c) a d
    ∙ ap (λ t. bit_xor t (bit_xor (bit_xor b c) d)) (xor_self a)
    ∙ zero-xor (bit_xor (bit_xor b c) d)

pub xor_cancel : (a b : ℕ) → bit_xor (bit_xor a b) b ≡ a
xor_cancel a b = xor_assoc a b b ∙ ap (bit_xor a) (xor_self b) ∙ xor-zero a

mul-pow_zero : (a : ℕ) → a * 2 ^ 0 ≡ a
mul-pow_zero a = omega arith

div-pow_zero : (a : ℕ) → a / 2 ^ 0 ≡ a
div-pow_zero a = omega arith

-- `(a ^ b) << k`
pub xor-shl : (k a b : ℕ) → bit_xor (a * 2 ^ k) (b * 2 ^ k) ≡ bit_xor a b * 2 ^ k
xor-shl zero a b = ap₂ bit_xor (mul-pow_zero a) (mul-pow_zero b) ∙ sym (mul-pow_zero (bit_xor a b))
xor-shl (suc k) a b =
    let ea : a * 2 ^ suc k ≡ a * 2 ^ k * 2 = omega (arith, ap (λ (t : ℕ). a * t) (pow-suc 2 k)) in
    let eb : b * 2 ^ suc k ≡ b * 2 ^ k * 2 = omega (arith, ap (λ (t : ℕ). b * t) (pow-suc 2 k)) in
    let ha : a * 2 ^ k * 2 / 2 ≡ a * 2 ^ k = omega arith in
    let hb : b * 2 ^ k * 2 / 2 ≡ b * 2 ^ k = omega arith in
    let high : bit_xor (a * 2 ^ k * 2 / 2) (b * 2 ^ k * 2 / 2) ≡ bit_xor a b * 2 ^ k =
      ap₂ bit_xor ha hb ∙ xor-shl k a b in
    rw (ea, eb)
      (omega (
        arith,
        bit_xor_step (a * 2 ^ k * 2) (b * 2 ^ k * 2),
        high,
        ap (λ (t : ℕ). bit_xor a b * t) (pow-suc 2 k),
      ))

div-pow-suc : (k a : ℕ) → a / 2 ^ suc k ≡ a / 2 / 2 ^ k
div-pow-suc k a = rw (pow-suc 2 k, mul_comm (2 ^ k) 2) (sym (div-div-eq-div-mul a 2 (2 ^ k)))

-- `(a ^ b) >> k`
pub xor-shr : (k a b : ℕ) → bit_xor a b / 2 ^ k ≡ bit_xor (a / 2 ^ k) (b / 2 ^ k)
xor-shr zero a b = div-pow_zero (bit_xor a b) ∙ sym (ap₂ bit_xor (div-pow_zero a) (div-pow_zero b))
xor-shr (suc k) a b =
    div-pow-suc k (bit_xor a b)
    ∙ ap (λ t. t / 2 ^ k) (xor-half a b)
    ∙ xor-shr k (a / 2) (b / 2)
    ∙ ap₂ bit_xor (sym (div-pow-suc k a)) (sym (div-pow-suc k b))

pub xor-lt : (k a b : ℕ) → a < 2 ^ k → b < 2 ^ k → bit_xor a b < 2 ^ k
xor-lt zero zero zero p q = omega (arith, zero-xor 0)
xor-lt zero (suc a) b p q = absurd (omega arith)
xor-lt zero zero (suc b) p q = absurd (omega arith)
xor-lt (suc k) a b p q =
    let w = pow-suc 2 k in
    omega
      (arith, w, bit_xor_step a b, xor-lt k (a / 2) (b / 2) (omega (arith, w)) (omega (arith, w)))

-- Disjoint fields: exclusive or is a sum.
pub xor_fields : (k q r : ℕ) → r < 2 ^ k → bit_xor (q * 2 ^ k) r ≡ q * 2 ^ k + r
xor_fields zero q zero p = rw (xor-zero (q * 2 ^ 0)) (omega arith)
xor_fields zero q (suc r) p = absurd (omega arith)
xor_fields (suc k) q r p =
    let w = pow-suc 2 k in
    let e : q * 2 ^ suc k ≡ q * 2 ^ k * 2 = omega (arith, ap (λ (t : ℕ). q * t) w) in
    let h : q * 2 ^ k * 2 / 2 ≡ q * 2 ^ k = omega arith in
    let high : bit_xor (q * 2 ^ k * 2 / 2) (r / 2) ≡ q * 2 ^ k + r / 2 =
      ap (λ t. bit_xor t (r / 2)) h ∙ xor_fields k q (r / 2) (omega (arith, w)) in
    rw e (omega (arith, bit_xor_step (q * 2 ^ k * 2) r, high))

-- `(a ^ b) mod 2 ^ k`
pub xor-mod : (k a b : ℕ) → bit_xor a b % 2 ^ k ≡ bit_xor (a % 2 ^ k) (b % 2 ^ k)
xor-mod k a b =
    let w = 2 ^ k in
    let ra : a % w < w = mod-lt a (one-le-pow k 2 (omega arith)) in
    let rb : b % w < w = mod-lt b (one-le-pow k 2 (omega arith)) in
    let ea : a ≡ bit_xor (a / w * w) (a % w) =
      sym (xor_fields k (a / w) (a % w) ra ∙ div-add-mod' a w) in
    let eb : b ≡ bit_xor (b / w * w) (b % w) =
      sym (xor_fields k (b / w) (b % w) rb ∙ div-add-mod' b w) in
    let low : bit_xor (a % w) (b % w) < w = xor-lt k (a % w) (b % w) ra rb in
    let split : bit_xor a b ≡ bit_xor (a / w) (b / w) * w + bit_xor (a % w) (b % w) =
      ap₂ bit_xor ea eb
      ∙ xor_interchange (a / w * w) (a % w) (b / w * w) (b % w)
      ∙ ap (λ t. bit_xor t (bit_xor (a % w) (b % w))) (xor-shl k (a / w) (b / w))
      ∙ xor_fields k (bit_xor (a / w) (b / w)) (bit_xor (a % w) (b % w)) low in
    ap (λ t. t % w) split
    ∙ mul-add-mod_self_right (bit_xor (a / w) (b / w)) w (bit_xor (a % w) (b % w))
    ∙ mod-eq_of_lt low
