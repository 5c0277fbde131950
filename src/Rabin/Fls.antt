-- ===== src/Rabin/Fls.antt =====
-- `fls32` and `fls64` give the number of binary digits of a word.
use mathlib.Core.Path.{subst}
use native.Mathlib.Nat.{
  pow-suc, div-add-mod', mod-eq_of_lt, div-lt_iff_lt-mul, div-eq_of_lt, mod-lt,
  mul-lt-mul_of_pos_right, mul-le-mul_right, le_of_mul-le-mul_right, lt_of_mul-lt-mul_right,
  pow-le-pow_right,
}
use native.Mathlib.Decide.{dec_lt}
use mathlib.Core.Bool.{false≢true}
use my_codebase.Base.{
  ℕ, suc, ◌+◌, ◌-◌, ◌*◌, ◌/◌, ◌^◌, ◌≤◌, ◌<◌, bit_and, ◌≡◌, ◌≢◌, refl, sym, ap, ◌∙◌, inl, inr, arith,
  u32, ◌==◌, Bool-cases, ==_iff, false,
}
use my_codebase.Bits.{bit_and_shifted, bit_and_mask, pow-add, pow_pos, shl-shl}
use my_codebase.Rabin.{narrow, fls32, fls64}
use my_codebase.Rabin.Words.{HasDegree}

-- Between two tests: the word is `x` shifted to the left, and its top bit is at `lo` or above.
record IsNarrowed (x lo : ℕ) (p : ℕ × ℕ) : Type 0 where
  count : p.1 ≤ 32
  enough : 32 ≤ p.1 + lo
  value : p.0 ≡ x * 2 ^ (32 - p.1)
  least : 2 ^ lo ≤ p.0
  word : p.0 < 2 ^ 32

-- What a mask of the `k` highest bits keeps.
high_mask :
    (k lo v : ℕ)
    → lo + k + k ≡ 32
    → v < 2 ^ 32
    → bit_and v ((2 ^ k - 1) * 2 ^ (lo + k)) ≡ v / 2 ^ (lo + k) * 2 ^ (lo + k)
high_mask k lo v e h =
    let w : 2 ^ 32 ≡ 2 ^ k * 2 ^ (lo + k) =
      let g : 32 ≡ k + (lo + k) = omega arith in ap (λ t. 2 ^ t) g ∙ pow-add k (lo + k) in
    let few : v / 2 ^ (lo + k) < 2 ^ k =
      (div-lt_iff_lt-mul (pow_pos (lo + k))).1 (omega (arith, w)) in
    bit_and_shifted (lo + k) v (2 ^ k - 1)
    ∙ ap (λ t. t * 2 ^ (lo + k)) (bit_and_mask k (v / 2 ^ (lo + k)) ∙ mod-eq_of_lt few)

narrow-IsNarrowed :
    (x k lo mask : ℕ) (p : ℕ × ℕ)
    → lo + k + k ≡ 32
    → mask ≡ (2 ^ k - 1) * 2 ^ (lo + k)
    → IsNarrowed x lo p
    → IsNarrowed x (lo + k) (narrow mask k p)
unfolding narrow
narrow-IsNarrowed x k lo mask (v, r) e m s =
    let kept = ap (bit_and v) m ∙ high_mask k lo v e s.word in
    let w : 2 ^ 32 ≡ 2 ^ (lo + k) * 2 ^ k = ap (λ t. 2 ^ t) (sym e) ∙ pow-add (lo + k) k in
    elim (Bool-cases (bit_and v mask == 0)) [
      | inl t ↦
          let none_high : v / 2 ^ (lo + k) * 2 ^ (lo + k) ≡ 0 = sym kept ∙ (==_iff _ _).0 t in
          let small : v < 2 ^ (lo + k) =
            omega (arith, none_high, div-add-mod' v (2 ^ (lo + k)), mod-lt v (pow_pos (lo + k))) in
          let fits : v * 2 ^ k < 2 ^ 32 =
            omega (arith, w, mul-lt-mul_of_pos_right small (pow_pos k)) in
          let more : 32 - r + k ≡ 32 - (r - k) = omega (arith, s.enough, s.count) in
          rw t (record {
            count = omega (arith, s.count);
            enough = omega (arith, s.enough);
            value =
                mod-eq_of_lt fits
                ∙ ap (λ (t : ℕ). t * 2 ^ k) s.value
                ∙ shl-shl x (32 - r) k
                ∙ ap (λ t. x * 2 ^ t) more;
            least =
                subst (λ t. 2 ^ (lo + k) ≤ t) (sym (mod-eq_of_lt fits))
                  (omega (arith, pow-add lo k, mul-le-mul_right (2 ^ k) s.least));
            word = omega arith;
          })
      | inr t ↦
          let big : 2 ^ (lo + k) ≤ v = elim (dec_lt v (2 ^ (lo + k))) [
            | yes small ↦
                let gone : bit_and v mask ≡ 0 =
                  kept ∙ ap (λ (q : ℕ). q * 2 ^ (lo + k)) (div-eq_of_lt small) ∙ omega arith in
                absurd (false≢true (sym t ∙ (==_iff _ _).1 gone))
            | no big ↦ omega arith
          ] in
          rw t (record {
            count = s.count;
            enough = omega (arith, s.enough);
            value = s.value;
            least = big;
            word = s.word;
          })
    ]

-- When the top bit has reached position 31, the count is the length.
finish : (x : ℕ) (p : ℕ × ℕ) → IsNarrowed x 31 p → (1 ≤ p.1) × (p.1 ≤ 32) × HasDegree (p.1 - 1) x
finish x p s =
    let shift = 32 - p.1 in
    let lower : 2 ^ 31 ≡ 2 ^ (p.1 - 1) * 2 ^ shift =
      let g : 31 ≡ p.1 - 1 + shift = omega (arith, s.enough, s.count) in
      ap (λ t. 2 ^ t) g ∙ pow-add (p.1 - 1) shift in
    (
      omega (arith, s.enough),
      s.count,
      record {
        least = le_of_mul-le-mul_right (omega (arith, lower, s.value, s.least)) (pow_pos shift);
        below = lt_of_mul-lt-mul_right (2 ^ shift) (omega (arith, lower, s.value, s.word));
      },
    )

-- `fls32` returns one more than the position of the highest bit.
not_zero : (v : ℕ) → v == 0 ≡ false → 1 ≤ v
not_zero v h = ground arith

pub fls32-HasDegree :
    (x : ℕ) → x ≢ 0 → x < 2 ^ 32 → (1 ≤ fls32 x) × (fls32 x ≤ 32) × HasDegree (fls32 x - 1) x
unfolding fls32
fls32-HasDegree x nonzero h = elim (Bool-cases (x == 0)) [
  | inl t ↦ absurd (nonzero ((==_iff x 0).0 t))
  | inr t ↦
      let start : IsNarrowed x 0 (x, 32) = record {
        count = omega arith;
        enough = omega arith;
        value = omega arith;
        least = omega (arith, not_zero x t);
        word = h;
      } in
      let s16 = narrow-IsNarrowed x 16 0 0xffff0000 (x, 32) refl refl start in
      let s8 = narrow-IsNarrowed x 8 16 0xff000000 _ refl refl s16 in
      let s4 = narrow-IsNarrowed x 4 24 0xf0000000 _ refl refl s8 in
      let s2 = narrow-IsNarrowed x 2 28 0xc0000000 _ refl refl s4 in
      let s1 = narrow-IsNarrowed x 1 30 0x80000000 _ refl refl s2 in rw t (finish x _ s1)
]

-- For a number of 64 bits that is not zero, `fls64` is between 1 and 64 and one more than the
-- position of the highest bit.
pub fls64-HasDegree :
    (v : ℕ) → v ≢ 0 → v < 2 ^ 64 → (1 ≤ fls64 v) × (fls64 v ≤ 64) × HasDegree (fls64 v - 1) v
unfolding fls64
fls64-HasDegree v nonzero h =
    let w = v / 2 ^ 32 in
    let hw : u32 w ≡ w = omega arith in
    elim (Bool-cases (w == 0)) [
      | inl t ↦
          let low : u32 v ≡ v = omega (arith, (==_iff w 0).0 t) in
          let (a, b, c) = fls32-HasDegree v nonzero (omega arith) in
          rw (hw, t, low) (a, omega arith, c)
      | inr t ↦
          let (a, b, c) = fls32-HasDegree w (λ e. omega (arith, not_zero w t)) (omega arith) in
          let n = fls32 w in
          let up : n - 1 + 32 ≡ 32 + n - 1 = omega arith in
          rw (hw, t)
            (
              omega arith,
              omega arith,
              subst (λ k. HasDegree k v) up
                  (record {
                    least = omega (arith, pow-add (n - 1) 32, c.least);
                    below = omega (arith, pow-add (n - 1) 32, c.below);
                  }),
            )
    ]

HasDegree-unique : (j k d : ℕ) → HasDegree j d → HasDegree k d → j ≡ k
HasDegree-unique j k d p q = elim (dec_lt j k) [
  | yes lt ↦ absurd (omega (arith, pow-suc 2 j, power_mono (suc j) k lt))
  | no ge ↦ elim (dec_lt k j) [
    | yes lt ↦ absurd (omega (arith, pow-suc 2 k, power_mono (suc k) j lt))
    | no le ↦ omega arith
  ]
]
  where
    power_mono : (a b : ℕ) → a ≤ b → 2 ^ a ≤ 2 ^ b
    power_mono a b h = pow-le-pow_right {n = 2} (omega arith) h

-- The number of digits of a word of degree `k`.
pub fls64-eq-suc : (k v : ℕ) → v < 2 ^ 64 → HasDegree k v → fls64 v ≡ suc k
fls64-eq-suc k v h deg =
    let (a, b, c) = fls64-HasDegree v (λ e. omega (arith, pow_pos k, deg.least)) h in
    omega (arith, HasDegree-unique (fls64 v - 1) k v c deg)
