-- ===== src/Rabin/Polymod.antt =====
-- `polymod` is the remainder of the two words modulo `d`.
use mathlib.Core.Path.{subst}
use my_codebase.Base.{
  ℕ, zero, suc, ◌+◌, ◌-◌, ◌*◌, ◌/◌, ◌^◌, ◌≤◌, ◌<◌, bit_xor, ◌≡◌, sym, ap, ◌∙◌, inl, inr, arith, u64,
  ◌==◌, Bool-cases, ==_iff,
}
use my_codebase.Bits.{
  digit, xor_words, xor-zero, zero-xor, xor-lt, xor-lt_top, shl-shl, xor_self, xor_assoc,
}
use my_codebase.Rabin.{polymod_high, polymod_low, polymod_fold, polymod, fls64}
use my_codebase.Rabin.Poly.{
  Congruent, Congruent-refl, Congruent-of_eq, Congruent-trans, IsMultiple, shift-IsMultiple,
}
use my_codebase.Rabin.Words.{
  test_bit-cases, add_shifted, HasDegree, shl-HasDegree, shr-HasDegree, top_bit, no_top_bit,
  shr_shifted,
}

abbrev pub number : ℕ × ℕ → ℕ
number p = p.0 * 2 ^ 64 + p.1

-- Adding a multiple of `d` changes nothing modulo `d`.
Congruent-add : (d n j : ℕ) → Congruent d n (bit_xor n (d * 2 ^ j))
Congruent-add d n j = record { difference = subst (IsMultiple d) e (shift-IsMultiple d j) }
  where
    e : d * 2 ^ j ≡ bit_xor n (bit_xor n (d * 2 ^ j))
    e =
        sym (zero-xor (d * 2 ^ j))
        ∙ ap (λ t. bit_xor t (d * 2 ^ j)) (sym (xor_self n))
        ∙ xor_assoc n n (d * 2 ^ j)

-- What a reduction of `n` by `d` to the number `r` leaves, with `r` below `2 ^ k`.
pub record IsReduced (d n k r : ℕ) : Type 0 where
  pub below : r < 2 ^ k
  pub same : Congruent d n r

module _ (d k : ℕ) (degree : HasDegree k d) (fits : k ≤ 63) where
  abbrev top : ℕ
  top = d * 2 ^ (63 - k)

  top-HasDegree : HasDegree 63 top
  top-HasDegree =
      let e : k + (63 - k) ≡ 63 = omega arith in
      subst (λ j. HasDegree j top) e (shl-HasDegree (63 - k) k degree)

  -- `top >> (63 - i)` has its top bit at `i`.
  top_shr : (i : ℕ) → i ≤ 63 → HasDegree i (top / 2 ^ (63 - i))
  top_shr i le =
      let e : 63 ≡ i + (63 - i) = omega arith in
      shr-HasDegree (63 - i) i (subst (λ j. HasDegree j top) e top-HasDegree)

  Congruent-add_top : (n j : ℕ) → Congruent d n (bit_xor n (top * 2 ^ j))
  Congruent-add_top n j =
      subst (λ t. Congruent d n (bit_xor n t)) (sym (shl-shl d (63 - k) j))
        (Congruent-add d n (63 - k + j))

  high_step :
      (i : ℕ) (p : ℕ × ℕ)
      → suc i ≤ 63
      → p.0 < 2 ^ suc i
      → p.1 < 2 ^ 64
      → digit p.0 i ≡ 1
      → let q : ℕ × ℕ = (bit_xor p.0 (top / 2 ^ (63 - i)), bit_xor p.1 (u64 (top * 2 ^ (i + 1)))) in
        (q.0 < 2 ^ i) × (q.1 < 2 ^ 64) × Congruent d (number p) (number q)
  high_step i p le high low one =
      let own = top_bit i p.0 high one in
      let by = top_shr i (omega arith) in
      let e : 63 - i ≡ 64 - (i + 1) = omega arith in
      (
        xor-lt_top i p.0 (top / 2 ^ (63 - i)) own.least own.below by.least by.below,
        xor-lt 64 p.1 (u64 (top * 2 ^ (i + 1))) low (omega arith),
        Congruent-trans d (Congruent-add_top (number p) (i + 1)) (
            Congruent-of_eq d (
              sym (
                ap (λ t. bit_xor p.0 (top / 2 ^ t) * 2 ^ 64 + bit_xor p.1 (u64 (top * 2 ^ (i + 1))))
                  e
                ∙ add_shifted (i + 1) (omega arith) p.0 p.1 top low))),
      )

  high_loop :
      (i : ℕ) (p : ℕ × ℕ)
      → i ≤ 63
      → p.0 < 2 ^ i
      → p.1 < 2 ^ 64
      → IsReduced d (number p) 64 (polymod_high top i p).1
  unfolding polymod_high
  high_loop zero (nh, nl) le high low = record {
    below = low;
    same = Congruent-of_eq d (omega arith);
  }
  high_loop (suc i) (nh, nl) le high low = elim (test_bit-cases nh i) [
    | inl (t, one) ↦
        let (h, l, same) = high_step i (nh, nl) le high low one in
        let rest =
          high_loop i (bit_xor nh (top / 2 ^ (63 - i)), bit_xor nl (u64 (top * 2 ^ (i + 1))))
            (omega arith) h l in
        rw (t, polymod_high)
          (record { below = rest.below; same = Congruent-trans d same rest.same })
    | inr (t, nought) ↦
        rw (t, polymod_high) (high_loop i (nh, nl) (omega arith) (no_top_bit i nh high nought) low)
  ]

  low_loop : (n nl : ℕ) → k + n ≤ 64 → nl < 2 ^ (k + n) → IsReduced d nl k (polymod_low top k n nl)
  unfolding polymod_low
  low_loop zero nl le h =
      let e : k + 0 ≡ k = omega arith in
      record { below = subst (λ t. nl < 2 ^ t) e h; same = Congruent-refl d nl }
  low_loop (suc n) nl le h =
      let e : k + suc n ≡ suc (k + n) = omega arith in
      let h' = subst (λ t. nl < 2 ^ t) e h in
      elim (test_bit-cases nl (k + n)) [
        | inl (t, one) ↦
            let own = top_bit (k + n) nl h' one in
            let by = top_shr (k + n) (omega arith) in
            let g : 63 - k ≡ n + (63 - (k + n)) = omega arith in
            let shifted : top / 2 ^ (63 - (k + n)) ≡ d * 2 ^ n =
              ap (λ t. d * 2 ^ t / 2 ^ (63 - (k + n))) g ∙ shr_shifted d n (63 - (k + n)) in
            let rest = low_loop n (bit_xor nl (top / 2 ^ (63 - (k + n)))) (omega arith) (
              xor-lt_top (k + n) nl (top / 2 ^ (63 - (k + n))) own.least own.below by.least
                by.below) in
            rw t (record {
              below = rest.below;
              same =
                  Congruent-trans d
                    (subst (λ t. Congruent d nl (bit_xor nl t)) (sym shifted)
                      (Congruent-add d nl n))
                    rest.same;
            })
        | inr (t, nought) ↦ rw t (low_loop n nl (omega arith) (no_top_bit (k + n) nl h' nought))
      ]

  -- The branch over the high word leaves a congruent low word.
  fold_reduces :
      (nh nl : ℕ)
      → nh < 2 ^ 64
      → nl < 2 ^ 64
      → IsReduced d (number (nh, nl)) 64 (polymod_fold top nh nl).1
  unfolding polymod_fold
  fold_reduces nh nl high low = elim (Bool-cases (nh == 0)) [
    | inl e ↦
        rw e (record { below = low; same = Congruent-of_eq d (omega (arith, (==_iff nh 0).0 e)) })
    | inr e ↦ rw e (elim (test_bit-cases nh 63) [
      | inl (t, one) ↦
          let own = top_bit 63 nh high one in
          let by = top-HasDegree in
          let rest =
            high_loop 63 (bit_xor nh top, nl) (omega arith)
              (xor-lt_top 63 nh top own.least own.below by.least by.below) low in
          rw t (record { below = rest.below; same = Congruent-trans d cancelled rest.same })
      | inr (t, nought) ↦
          rw t (high_loop 63 (nh, nl) (omega arith) (no_top_bit 63 nh high nought) low)
    ])
  ]
    where
      cancelled : Congruent d (number (nh, nl)) (number (bit_xor nh top, nl))
      cancelled =
          let e : top * 2 ^ 64 ≡ top * 2 ^ 64 + 0 = omega arith in
          subst (Congruent d (number (nh, nl)))
            (ap (bit_xor (number (nh, nl))) e
              ∙ xor_words 64 nh nl top 0 low (omega arith)
              ∙ ap (λ t. bit_xor nh top * 2 ^ 64 + t) (xor-zero nl))
            (Congruent-add_top (number (nh, nl)) 64)

  -- For a polynomial `d` of degree `k` at most 63, whose highest bit `fls64` finds, and two words
  -- of 64 bits: `polymod` leaves a polynomial below `2 ^ k` that is congruent to the two words
  -- modulo `d`.
  pub polymod-IsReduced :
      (nh nl : ℕ)
      → fls64 d ≡ suc k
      → nh < 2 ^ 64
      → nl < 2 ^ 64
      → IsReduced d (number (nh, nl)) k (polymod nh nl d)
  unfolding polymod
  polymod-IsReduced nh nl length high low =
      let ek : fls64 d - 1 ≡ k = omega (arith, length) in
      let word : u64 top ≡ top = omega (arith, top-HasDegree.below) in
      let e : 64 ≡ k + (64 - k) = omega arith in
      let first = fold_reduces nh nl high low in
      let rest =
        low_loop (64 - k) (polymod_fold top nh nl).1 (omega arith)
          (subst (λ t. (polymod_fold top nh nl).1 < 2 ^ t) e first.below) in
      rw (ek, word) (record { below = rest.below; same = Congruent-trans d first.same rest.same })
