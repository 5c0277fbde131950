-- ===== src/Rabin/Polymult.antt =====
-- `polymult` is the carry-less product over two words.
use my_codebase.Base.{
  ℕ, zero, suc, ◌+◌, ◌-◌, ◌*◌, ◌/◌, ◌^◌, ◌≤◌, ◌<◌, bit_xor, if◌then◌else◌, ◌≡◌, refl, sym, ap, ap₂,
  ◌∙◌, inl, inr, arith, u64,
}
use my_codebase.Bits.{digit, xor-zero, xor-lt}
use my_codebase.Rabin.{test_bit, polymult_from, polymult}
use my_codebase.Rabin.Poly.{clmul, clmul-one}
use my_codebase.Rabin.Words.{test_bit-cases, add_shifted}

-- The two words `p` hold the number `n`.
pub record Holds (n : ℕ) (p : ℕ × ℕ) : Type 0 where
  pub low : p.1 < 2 ^ 64
  pub value : p.0 * 2 ^ 64 + p.1 ≡ n

module _ (x y : ℕ) where
  step-Holds :
      (i : ℕ) (p : ℕ × ℕ)
      → i ≤ 64
      → digit x i ≡ 1
      → Holds (clmul i x y) p
      → Holds (clmul (suc i) x y) (bit_xor p.0 (y / 2 ^ (64 - i)), bit_xor p.1 (u64 (y * 2 ^ i)))
  unfolding clmul
  step-Holds i p b e h = record {
    low = xor-lt 64 p.1 (u64 (y * 2 ^ i)) h.low (omega arith);
    value =
        add_shifted i b p.0 p.1 y h.low
        ∙ ap₂ bit_xor h.value
            (let g : y * 2 ^ i ≡ digit x i * (y * 2 ^ i) = rw e (omega arith) in g);
  }

  skip-Holds :
      (i : ℕ) (p : ℕ × ℕ) → digit x i ≡ 0 → Holds (clmul i x y) p → Holds (clmul (suc i) x y) p
  unfolding clmul
  skip-Holds i p e h =
      let g : digit x i * (y * 2 ^ i) ≡ 0 = rw e (omega arith) in
      record {
        low = h.low;
        value = h.value ∙ sym (ap (bit_xor (clmul i x y)) g ∙ xor-zero (clmul i x y));
      }

  loop-Holds :
      (n i j : ℕ) (p : ℕ × ℕ)
      → i + n ≡ j
      → j ≤ 64
      → Holds (clmul i x y) p
      → Holds (clmul j x y) (polymult_from x y n i p)
  unfolding polymult_from
  loop-Holds zero i j (a, b) e le h = let g : i ≡ j = omega arith in rw (← g) h
  loop-Holds (suc n) i j (a, b) e le h = elim (test_bit-cases x i) [
    | inl (t, one) ↦
        rw t (
          loop-Holds n (i + 1) j _ (omega arith) le
            (next (step-Holds i (a, b) (omega arith) one h)))
    | inr (t, nought) ↦
        rw t (loop-Holds n (i + 1) j _ (omega arith) le (next (skip-Holds i (a, b) nought h)))
  ]
    where
      next : {q : ℕ × ℕ} → Holds (clmul (suc i) x y) q → Holds (clmul (i + 1) x y) q
      next g = let s : i + 1 ≡ suc i = omega arith in rw s g

  -- For a second factor of 64 bits, `polymult` leaves the carry-less product of the low 64 bits of
  -- the first factor with the second in its two words, the low one of 64 bits.
  pub polymult-Holds : y < 2 ^ 64 → Holds (clmul 64 x y) (polymult x y)
  unfolding polymult
  polymult-Holds small = loop-Holds 63 1 64 _ refl (omega arith) first
    where
      first : Holds (clmul 1 x y) (0, if test_bit x 0 then y else 0)
      first = elim (test_bit-cases x 0) [
        | inl (t, one) ↦
            let g : digit x 0 * y ≡ y = rw one (omega arith) in
            rw t (record { low = small; value = omega (arith, g, clmul-one x y) })
        | inr (t, nought) ↦
            let g : digit x 0 * y ≡ 0 = rw nought (omega arith) in
            rw t (record { low = omega arith; value = omega (arith, g, clmul-one x y) })
      ]
