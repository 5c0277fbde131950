-- ===== src/Rabin/Tables.antt =====
-- What the constructor computes: the shift, the table for `Append8` and the table that removes a byte.
use mathlib.Core.Path.{subst}
use my_codebase.Base.{
  some, some_inj, none_or_some, Bool-cases, inl, inr, ltb, ℕ, zero, suc, ◌+◌, ◌-◌, ◌*◌, ◌^◌, ◌<◌,
  ◌≡◌, refl, sym, ap, ◌∙◌, arith, get_or,
}
use my_codebase.Bits.{shl-shl, xor_fields}
use my_codebase.Rabin.{
  RabinFpUtil, new_rabin_fp_util, filled_rabin_fp_util, append8, append8_with, size_shift, polymod,
  polymmult, tabulate, t_entry, fls64,
}
use my_codebase.Rabin.Poly.{
  clmul_shift, clmul-Congruent, Congruent, Congruent-trans, Congruent-of_eq, Congruent-refl,
}
use my_codebase.Rabin.Poly.{xor-Congruent, shl-Congruent}
use my_codebase.Rabin.Append.{
  poly, poly-HasDegree, IsFingerprint, t_of, append8_with-IsFingerprint, polymmult-IsReduced,
  get_or-tabulate,
}
use my_codebase.Rabin.Fls.{fls64-eq-suc}

-- A fingerprint of `n`, with a byte appended, is one of `n * 2 ^ 8 + m`.
pub append-IsFingerprint :
    (n p m : ℕ)
    → m < 2 ^ 8
    → IsFingerprint n p
    → IsFingerprint (n * 2 ^ 8 + m) (append8_with 55 t_of p m)
append-IsFingerprint n p m hm h =
    let r = append8_with-IsFingerprint p m h.below hm in
    record {
      below = r.below;
      same =
          Congruent-trans poly
            (Congruent-trans poly (Congruent-of_eq poly (sym (xor_fields 8 n m hm))) (
              Congruent-trans poly
                (xor-Congruent poly (shl-Congruent poly 8 h.same) (Congruent-refl poly m))
                (Congruent-of_eq poly (xor_fields 8 p m hm))))
            r.same;
    }

-- Appending zero bytes shifts.
size_shift-IsFingerprint :
    (k n p : ℕ) → IsFingerprint n p → IsFingerprint (n * 2 ^ (8 * k)) (size_shift 55 t_of k p)
unfolding size_shift
size_shift-IsFingerprint zero n p h =
    let e : n ≡ n * 2 ^ (8 * 0) = omega arith in subst (λ t. IsFingerprint t p) e h
size_shift-IsFingerprint (suc k) n p h =
    let e : (n * 2 ^ 8 + 0) * 2 ^ (8 * k) ≡ n * 2 ^ (8 * suc k) =
      let drop_zero : (n * 2 ^ 8 + 0) * 2 ^ (8 * k) ≡ n * 2 ^ 8 * 2 ^ (8 * k) =
        let g : n * 2 ^ 8 + 0 ≡ n * 2 ^ 8 = omega arith in ap (λ (t : ℕ). t * 2 ^ (8 * k)) g in
      let exponent : 8 + 8 * k ≡ 8 * suc k = omega arith in
      drop_zero ∙ shl-shl n 8 (8 * k) ∙ ap (λ t. n * 2 ^ t) exponent in
    subst (λ t. IsFingerprint t (size_shift 55 t_of (suc k) p)) e
      (size_shift-IsFingerprint k (n * 2 ^ 8 + 0) (append8_with 55 t_of p 0)
        (append-IsFingerprint n p 0 (omega arith) h))

module _ (w : ℕ) where
  abbrev pub util : RabinFpUtil
  util = filled_rabin_fp_util w

  x_shift : fls64 poly - 1 ≡ 63
  x_shift = omega (arith, fls64-eq-suc 63 poly (omega arith) poly-HasDegree)

  pub window_size-util : util.window_size ≡ w
  unfolding filled_rabin_fp_util
  window_size-util = refl

  pub shift-util : util.shift ≡ 55
  unfolding filled_rabin_fp_util
  shift-util = ap (λ t. t - 8) x_shift

  pub t_table-util : util.t_table ≡ t_of
  unfolding filled_rabin_fp_util
  t_table-util = ap (λ t. tabulate (t_entry poly t (polymod 0 (1 * 2 ^ t) poly)) 0 256) x_shift

  pub append8-util : (p m : ℕ) → append8 util p m ≡ append8_with 55 t_of p m
  unfolding append8
  append8-util p m = rw (shift-util, t_table-util)

  -- `x ^ (8 * (w - 1))`, reduced.
  sizeshift : ℕ
  sizeshift = size_shift 55 t_of (w - 1) 1

  sizeshift-IsFingerprint : IsFingerprint (1 * 2 ^ (8 * (w - 1))) sizeshift
  unfolding sizeshift
  sizeshift-IsFingerprint =
      size_shift-IsFingerprint (w - 1) 1 1
        (record { below = omega arith; same = Congruent-refl poly 1 })

  u_table-util : util.u_table ≡ tabulate (λ i. polymmult i sizeshift poly) 0 256
  unfolding filled_rabin_fp_util sizeshift
  u_table-util =
      ap
        (λ t.
          tabulate
            (λ i.
              polymmult i
                (size_shift (t - 8) (tabulate (t_entry poly t (polymod 0 (1 * 2 ^ t) poly)) 0 256)
                  (w - 1) 1)
                poly)
            0 256)
        x_shift

  -- The entry of a byte in the table that removes it is the byte times `x ^ (8 * (w - 1))`,
  -- reduced, for a window of `w` bytes.
  pub u_table-IsFingerprint :
      (b : ℕ) → b < 256 → IsFingerprint (b * 2 ^ (8 * (w - 1))) (get_or util.u_table b 0)
  u_table-IsFingerprint b h =
      let s = sizeshift-IsFingerprint in
      let r =
        polymmult-IsReduced b sizeshift poly 63 poly-HasDegree (omega arith)
          (omega (arith, s.below)) in
      let n = 8 * (w - 1) in
      let power : 1 * 2 ^ n ≡ 2 ^ n = omega arith in
      let entry : get_or util.u_table b 0 ≡ polymmult b sizeshift poly =
        ap (λ t. get_or t b 0) u_table-util
        ∙ get_or-tabulate (λ i. polymmult i sizeshift poly) 256 0 b h
        ∙ ap (λ i. polymmult i sizeshift poly) (let e : 0 + b ≡ b = omega arith in e) in
      let product : Congruent poly (b * 2 ^ n) (polymmult b sizeshift poly) =
        Congruent-trans poly
          (Congruent-trans poly (Congruent-of_eq poly (sym (clmul_shift 64 b n (omega arith))))
            (clmul-Congruent poly 64 b (subst (λ t. Congruent poly t sizeshift) power s.same)))
          r.same in
      rw entry (record { below = r.below; same = product })

  append8_filled :
      (p m : ℕ) → p < 2 ^ 63 → m < 2 ^ 8 → IsFingerprint (p * 2 ^ 8 + m) (append8 util p m)
  append8_filled p m hp hm = rw (append8-util p m) (append8_with-IsFingerprint p m hp hm)

pub new_rabin_fp_util-small : (w : ℕ) → w < 2 ^ 32 → new_rabin_fp_util w ≡ some (util w)
unfolding new_rabin_fp_util
new_rabin_fp_util-small w h = ground (arith, h)

-- With the tables of any object on which the constructor ends, `Append8` of a byte to a number
-- below `2 ^ 63` gives the polynomial times `x ^ 8` plus the byte, reduced.
pub append8-IsFingerprint :
    (w : ℕ) (u : RabinFpUtil) (p m : ℕ)
    → new_rabin_fp_util w ≡ some u
    → p < 2 ^ 63
    → m < 2 ^ 8
    → IsFingerprint (p * 2 ^ 8 + m) (append8 u p m)
unfolding new_rabin_fp_util
append8-IsFingerprint w u p m made hp hm = elim (Bool-cases (ltb w (2 ^ 32))) [
  | inl small ↦ rw (sym (some_inj (rw small at made))) (append8_filled w p m hp hm)
  | inr big ↦ absurd (none_or_some (rw big at made))
]
