-- ===== src/Rabin/Poly/Product.antt =====
-- The carry-less product and congruence modulo a polynomial `d`.
use my_codebase.Base.{ℕ, zero, suc, ◌+◌, ◌*◌, ◌^◌, ◌≤◌, bit_xor, ◌≡◌, sym, ap, ap₂, ◌∙◌, arith}
use mathlib.Core.Path.{subst}
use my_codebase.Bits.{
  digit, zero-xor, xor-zero, xor_self, xor_comm, xor_assoc, xor_interchange, xor-shl, shl-shl,
  xor_cancel,
}

-- The product of the lowest `n` terms of `x` with `y`.
unfoldable pub clmul : ℕ → ℕ → ℕ → ℕ
clmul zero x y = 0
clmul (suc n) x y = bit_xor (clmul n x y) (digit x n * (y * 2 ^ n))

pub clmul-one : (x y : ℕ) → clmul 1 x y ≡ digit x 0 * y
unfolding clmul
clmul-one x y = zero-xor (digit x 0 * (y * 2 ^ 0)) ∙ omega arith

-- A sum of shifts of `d`.
pub data IsMultiple (d : ℕ) : ℕ → Type 0 where
  nothing : IsMultiple d 0
  shifted : (j : ℕ) {m : ℕ} → IsMultiple d m → IsMultiple d (bit_xor (d * 2 ^ j) m)

pub record Congruent (d a b : ℕ) : Type 0 where
  pub difference : IsMultiple d (bit_xor a b)

pub xor-IsMultiple : {d a b : ℕ} → IsMultiple d a → IsMultiple d b → IsMultiple d (bit_xor a b)
xor-IsMultiple {d} {b = b} nothing h = subst (IsMultiple d) (sym (zero-xor b)) h
xor-IsMultiple {d} {b = b} (shifted j {m = m} g) h =
    subst (IsMultiple d) (sym (xor_assoc (d * 2 ^ j) m b)) (shifted j (xor-IsMultiple g h))

pub shl-IsMultiple : {d a : ℕ} (k : ℕ) → IsMultiple d a → IsMultiple d (a * 2 ^ k)
shl-IsMultiple {d} k nothing = subst (IsMultiple d) (omega arith) nothing
shl-IsMultiple {d} k (shifted j {m = m} g) =
    subst (IsMultiple d)
      (ap (λ t. bit_xor t (m * 2 ^ k)) (sym (shl-shl d j k)) ∙ xor-shl k (d * 2 ^ j) m)
      (shifted (j + k) (shl-IsMultiple k g))

pub shift-IsMultiple : (d j : ℕ) → IsMultiple d (d * 2 ^ j)
shift-IsMultiple d j = subst (IsMultiple d) (xor-zero (d * 2 ^ j)) (shifted j nothing)

module _ (d : ℕ) where
  pub Congruent-refl : (a : ℕ) → Congruent d a a
  Congruent-refl a = record { difference = subst (IsMultiple d) (sym (xor_self a)) nothing }

  pub Congruent-of_eq : {a b : ℕ} → a ≡ b → Congruent d a b
  Congruent-of_eq {a} e = subst (Congruent d a) e (Congruent-refl a)

  pub Congruent-sym : {a b : ℕ} → Congruent d a b → Congruent d b a
  Congruent-sym {a} {b} h = record { difference = subst (IsMultiple d) (xor_comm a b) h.difference }

  pub Congruent-trans : {a b c : ℕ} → Congruent d a b → Congruent d b c → Congruent d a c
  Congruent-trans {a} {b} {c} g h = record {
    difference =
        subst (IsMultiple d)
          (sym (xor_assoc (bit_xor a b) b c) ∙ ap (λ t. bit_xor t c) (xor_cancel a b))
          (xor-IsMultiple g.difference h.difference);
  }

  pub xor-Congruent :
      {a b a' b' : ℕ}
      → Congruent d a a'
      → Congruent d b b'
      → Congruent d (bit_xor a b) (bit_xor a' b')
  xor-Congruent {a} {b} {a'} {b'} g h = record {
    difference =
        subst (IsMultiple d) (xor_interchange a a' b b') (xor-IsMultiple g.difference h.difference);
  }

  pub shl-Congruent : {a b : ℕ} (k : ℕ) → Congruent d a b → Congruent d (a * 2 ^ k) (b * 2 ^ k)
  shl-Congruent {a} {b} k h = record {
    difference = subst (IsMultiple d) (sym (xor-shl k a b)) (shl-IsMultiple k h.difference);
  }

  times_digit : {a b : ℕ} (t : ℕ) → t ≤ 1 → Congruent d a b → Congruent d (t * a) (t * b)
  times_digit {a} {b} zero p h = Congruent-of_eq (omega arith)
  times_digit {a} {b} (suc zero) p h =
      let ea : a ≡ 1 * a = omega arith in
      let eb : b ≡ 1 * b = omega arith in
      record { difference = subst (IsMultiple d) (ap₂ bit_xor ea eb) h.difference }
  times_digit (suc (suc t)) p h = absurd (omega arith)

  -- The product respects congruence in its second factor.
  pub clmul-Congruent :
      {y y' : ℕ} (n x : ℕ) → Congruent d y y' → Congruent d (clmul n x y) (clmul n x y')
  unfolding clmul
  clmul-Congruent zero x h = Congruent-refl 0
  clmul-Congruent (suc n) x h =
      xor-Congruent (clmul-Congruent n x h)
        (times_digit (digit x n) (omega arith) (shl-Congruent n h))
