-- ===== src/Rabin/Window.antt =====
-- The rolling fingerprint: what `SlideOneByte` keeps is the polynomial of the window, reduced.
use mathlib.Core.Path.{subst}
use native.Mathlib.Nat.{mul-le-mul_right}
use my_codebase.Base.{
  some, ℕ, zero, suc, ◌+◌, ◌-◌, ◌*◌, ◌^◌, ◌≤◌, ◌<◌, bit_xor, ◌≡◌, refl, sym, ap, ◌∙◌, arith, get_or,
  set, List, [], ◌∷◌, ◌++◌, take, drop, length, All, replicate, length-set, length-append,
  length-take, length-drop, length-replicate, drop-eq-cons, drop-set, drop_all, take-set, take_all,
  All-get_or, All-set, All-replicate, All-append, All-take, All-drop, append_assoc, ◌⊎◌, inl, inr,
  append-nil,
}
use my_codebase.Bits.{shl-shl, xor_fields, xor-lt, pow-add, xor_cancel, xor_comm}
use my_codebase.Rabin.{
  RabinFpUtil, RabinCtx, new_ctx, reset_ctx, next_pos, slid, slid_context, slide_one_byte,
  slide_one_byte-slid_context, append8_with,
}
use my_codebase.Rabin.Poly.{Congruent-trans, Congruent-of_eq, Congruent-refl, xor-Congruent}
use my_codebase.Rabin.Append.{poly, IsFingerprint, t_of}
use my_codebase.Rabin.Tables.{
  append-IsFingerprint, util, window_size-util, append8-util, u_table-IsFingerprint,
}

abbrev pub IsByte : ℕ → Type 0
IsByte b = b < 2 ^ 8

-- A string of bytes as a number, the first byte highest: the polynomial of the string.
abbrev pub value : List ℕ → ℕ
value [] = 0
value (b ∷ bs) = b * 2 ^ (8 * length bs) + value bs

pub value-append_one : (bs : List ℕ) (c : ℕ) → value (bs ++ (c ∷ [])) ≡ value bs * 2 ^ 8 + c
value-append_one [] c = omega arith
value-append_one (b ∷ bs) c =
    let n = length bs in
    let e : 8 * length (bs ++ (c ∷ [])) ≡ 8 * n + 8 = omega (arith, length-append bs (c ∷ [])) in
    let power : b * 2 ^ (8 * length (bs ++ (c ∷ []))) ≡ b * 2 ^ (8 * n) * 2 ^ 8 =
      ap (λ t. b * 2 ^ t) e ∙ sym (shl-shl b (8 * n) 8) in
    omega (arith, power, value-append_one bs c)

pub value-lt : (bs : List ℕ) → All IsByte bs → value bs < 2 ^ (8 * length bs)
value-lt [] h = omega arith
value-lt (b ∷ bs) h =
    let n = 8 * length bs in
    let e : 8 * suc (length bs) ≡ n + 8 = omega arith in
    let p : 2 ^ (8 * suc (length bs)) ≡ 2 ^ n * 2 ^ 8 = ap (λ t. 2 ^ t) e ∙ pow-add n 8 in
    omega (arith, p, value-lt bs h.1, mul-le-mul_right (2 ^ n) h.0)

value-replicate : (n : ℕ) → value (replicate n 0) ≡ 0
value-replicate zero = refl
value-replicate (suc n) = omega (arith, value-replicate n)

-- The bytes of the circular buffer, from the oldest to the newest.
pub window : RabinFpUtil → RabinCtx → List ℕ
window u ctx = let i = next_pos u ctx in drop i ctx.circ_buf ++ take i ctx.circ_buf

pub record IsRolling (w : ℕ) (ctx : RabinCtx) : Type 0 where
  pub whole : length ctx.circ_buf ≡ w
  pub bytes : All IsByte ctx.circ_buf
  pub position : (ctx.cur_pos < w) ⊎ (ctx.cur_pos ≡ 2 ^ 32 - 1)
  pub fingerprint : IsFingerprint (value (window (util w) ctx)) ctx.fp

-- The bytes that stay when the oldest one goes.
abbrev pub rest_of : RabinFpUtil → RabinCtx → List ℕ
rest_of u ctx = drop (suc (next_pos u ctx)) ctx.circ_buf ++ take (next_pos u ctx) ctx.circ_buf

-- A context that has been reset is as good as new.
pub reset_ctx-new : (u : RabinFpUtil) (ctx : RabinCtx) → reset_ctx u ctx ≡ new_ctx u
unfolding reset_ctx new_ctx
reset_ctx-new u ctx = refl

module _ (w : ℕ) (pos : 1 ≤ w) (small : w < 2 ^ 32) where
  pub next_pos-lt : (ctx : RabinCtx) → next_pos (util w) ctx < w
  unfolding next_pos
  next_pos-lt ctx = ground (arith, window_size-util w)

  next_pos_start : (ctx : RabinCtx) → ctx.cur_pos ≡ 2 ^ 32 - 1 → next_pos (util w) ctx ≡ 0
  unfolding next_pos
  next_pos_start ctx e = ground (arith, window_size-util w)

  next_pos-cases :
      (ctx : RabinCtx)
      → ctx.cur_pos < w
      → ((next_pos (util w) ctx ≡ 0) × (suc ctx.cur_pos ≡ w))
        ⊎ (next_pos (util w) ctx ≡ suc ctx.cur_pos)
  unfolding next_pos
  next_pos-cases ctx h = ground (arith, window_size-util w)

  IsRolling-of_reset :
      (ctx : RabinCtx)
      → ctx.circ_buf ≡ replicate w 0
      → ctx.cur_pos ≡ 2 ^ 32 - 1
      → ctx.fp ≡ 0
      → IsRolling w ctx
  unfolding window
  IsRolling-of_reset ctx eb ep ef =
      let i = next_pos (util w) ctx in
      let at_start : i ≡ 0 = next_pos_start ctx ep in
      let zeros : value (drop i ctx.circ_buf ++ take i ctx.circ_buf) ≡ 0 =
        rw (at_start, eb, append-nil) (value-replicate w) in
      record {
        whole = ap length eb ∙ length-replicate w 0;
        bytes = rw eb (All-replicate IsByte w 0 (omega arith));
        position = inr ep;
        fingerprint = rw (zeros, ef) (record { below = omega arith; same = Congruent-refl poly 0 });
      }

  pub new_ctx-IsRolling : IsRolling w (new_ctx (util w))
  unfolding new_ctx
  new_ctx-IsRolling =
      IsRolling-of_reset (new_ctx (util w)) (ap (λ n. replicate n 0) (window_size-util w)) refl refl

  pub window-new_ctx : window (util w) (new_ctx (util w)) ≡ replicate w 0
  unfolding window new_ctx
  window-new_ctx =
      let zeros = ap (λ n. replicate n 0) (window_size-util w) in
      rw (next_pos_start (new_ctx (util w)) refl, append-nil) zeros

  pub reset_ctx-IsRolling : (ctx : RabinCtx) → IsRolling w (reset_ctx (util w) ctx)
  unfolding reset_ctx
  reset_ctx-IsRolling ctx =
      IsRolling-of_reset (reset_ctx (util w) ctx) (ap (λ n. replicate n 0) (window_size-util w))
        refl refl

  pub length-window : (ctx : RabinCtx) → IsRolling w ctx → length (window (util w) ctx) ≡ w
  unfolding window
  length-window ctx v =
      let i = next_pos (util w) ctx in
      omega (
        arith,
        length-append (drop i ctx.circ_buf) (take i ctx.circ_buf),
        length-drop i ctx.circ_buf,
        length-take i ctx.circ_buf,
        next_pos-lt ctx,
        v.whole,
      )

  fp-slid :
      (ctx : RabinCtx) (b : ℕ)
      → (slid_context (util w) ctx b).fp
        ≡ append8_with 55 t_of
            (bit_xor ctx.fp
              (get_or (util w).u_table (get_or ctx.circ_buf (next_pos (util w) ctx) 0) 0))
            b
  unfolding slid
  fp-slid ctx b = append8-util w _ b

  module _ (ctx : RabinCtx) (b : ℕ) (v : IsRolling w ctx) (byte : IsByte b) where
    pub window-before :
        window (util w) ctx ≡ get_or ctx.circ_buf (next_pos (util w) ctx) 0 ∷ rest_of (util w) ctx
    unfolding window
    window-before =
        let i = next_pos (util w) ctx in
        ap (λ t. t ++ take i ctx.circ_buf)
          (drop-eq-cons ctx.circ_buf i 0 (omega (arith, next_pos-lt ctx, v.whole)))

    -- The new byte enters the window at its end.
    pub window-after :
        window (util w) (slid_context (util w) ctx b) ≡ rest_of (util w) ctx ++ (b ∷ [])
    unfolding window slid
    window-after =
        turn (next_pos (util w) (slid_context (util w) ctx b))
          (next_pos-cases (slid_context (util w) ctx b) (next_pos-lt ctx))
      where
        i : ℕ
        i = next_pos (util w) ctx

        buf : List ℕ
        buf = ctx.circ_buf

        inside : i < length buf
        inside = omega (arith, next_pos-lt ctx, v.whole)

        turn :
            (j : ℕ)
            → ((j ≡ 0) × (suc i ≡ w)) ⊎ (j ≡ suc i)
            → drop j (set buf i b) ++ take j (set buf i b)
              ≡ (drop (suc i) buf ++ take i buf) ++ (b ∷ [])
        turn j (inl (e, last)) =
            rw (e, drop_all (suc i) buf (omega (arith, v.whole)), append-nil)
              (sym (take_all (suc i) (set buf i b) (omega (arith, length-set buf i b, v.whole)))
                ∙ take-set buf i b inside)
        turn j (inr e) =
            rw (e, drop-set buf i b, take-set buf i b inside)
              (sym (append_assoc (drop (suc i) buf) (take i buf) (b ∷ [])))

    -- For a window of 1 to `2 ^ 32 - 1` bytes and a context that satisfies the invariant: sliding
    -- a byte drops the oldest byte of the window and adds the new one at its end.
    pub slid-window :
        window (util w) (slid_context (util w) ctx b) ≡ drop 1 (window (util w) ctx ++ (b ∷ []))
    slid-window = window-after ∙ ap (λ t. drop 1 (t ++ (b ∷ []))) (sym window-before)

    rest_bytes : All IsByte (rest_of (util w) ctx)
    rest_bytes =
        let i = next_pos (util w) ctx in
        All-append IsByte (drop (suc i) ctx.circ_buf) (take i ctx.circ_buf)
          (All-drop IsByte (suc i) ctx.circ_buf v.bytes) (All-take IsByte i ctx.circ_buf v.bytes)

    rest_length : length (rest_of (util w) ctx) ≡ w - 1
    rest_length =
        let i = next_pos (util w) ctx in
        omega (
          arith,
          length-append (drop (suc i) ctx.circ_buf) (take i ctx.circ_buf),
          length-drop (suc i) ctx.circ_buf,
          length-take i ctx.circ_buf,
          next_pos-lt ctx,
          v.whole,
        )

    -- Taking the oldest byte out of the fingerprint.
    removed :
        IsFingerprint (value (rest_of (util w) ctx)) (
          bit_xor ctx.fp
            (get_or (util w).u_table (get_or ctx.circ_buf (next_pos (util w) ctx) 0) 0))
    removed =
        let o = get_or ctx.circ_buf (next_pos (util w) ctx) 0 in
        let rest = rest_of (util w) ctx in
        let n = 8 * (w - 1) in
        let byte_o : IsByte o =
          All-get_or IsByte ctx.circ_buf (next_pos (util w) ctx) 0 v.bytes (omega arith) in
        let entry = u_table-IsFingerprint w o byte_o in
        let fits : value rest < 2 ^ n =
          subst (λ k. value rest < 2 ^ (8 * k)) rest_length (value-lt rest rest_bytes) in
        let whole : value (window (util w) ctx) ≡ bit_xor (o * 2 ^ n) (value rest) =
          ap value window-before
          ∙ ap (λ k. o * 2 ^ (8 * k) + value rest) rest_length
          ∙ sym (xor_fields n o (value rest) fits) in
        let gone : value rest ≡ bit_xor (value (window (util w) ctx)) (o * 2 ^ n) = sym (
          ap (λ t. bit_xor t (o * 2 ^ n)) (whole ∙ xor_comm (o * 2 ^ n) (value rest))
          ∙ xor_cancel (value rest) (o * 2 ^ n)) in
        record {
          below = xor-lt 63 ctx.fp (get_or (util w).u_table o 0) v.fingerprint.below entry.below;
          same =
              Congruent-trans poly (Congruent-of_eq poly gone)
                (xor-Congruent poly v.fingerprint.same entry.same);
        }

    pub slid-IsRolling : IsRolling w (slid_context (util w) ctx b)
    slid-IsRolling =
        let p =
          bit_xor ctx.fp
            (get_or (util w).u_table (get_or ctx.circ_buf (next_pos (util w) ctx) 0) 0) in
        let number : value (window (util w) (slid_context (util w) ctx b))
            ≡ value (rest_of (util w) ctx) * 2 ^ 8 + b =
          ap value window-after ∙ value-append_one (rest_of (util w) ctx) b in
        record {
          whole = unfold slid in (length-set ctx.circ_buf (next_pos (util w) ctx) b ∙ v.whole);
          bytes = unfold slid in All-set IsByte ctx.circ_buf (next_pos (util w) ctx) b v.bytes byte;
          position = unfold slid in inl (next_pos-lt ctx);
          fingerprint =
              rw (number, fp-slid ctx b)
                (append-IsFingerprint (value (rest_of (util w) ctx)) p b byte removed);
        }

    pub slide_one_byte-slid : slide_one_byte (util w) ctx b ≡ some (slid_context (util w) ctx b)
    slide_one_byte-slid =
        slide_one_byte-slid_context (util w) ctx b (omega (arith, next_pos-lt ctx, v.whole))

    -- For a window of 1 to `2 ^ 32 - 1` bytes: sliding one byte stays inside the buffer and keeps
    -- the invariant that the buffer has the window's size and holds bytes, the position lies in it
    -- or is that of a fresh context, and the fingerprint is the reduced polynomial of the window.
    pub slide_one_byte-IsRolling :
        (ctx' : RabinCtx) × (slide_one_byte (util w) ctx b ≡ some ctx') × IsRolling w ctx'
    slide_one_byte-IsRolling = (slid_context (util w) ctx b, slide_one_byte-slid, slid-IsRolling)
