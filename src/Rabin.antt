-- ===== src/Rabin.antt =====
-- src/dedup/rabin_poly.cc and include/dedup/rabin_poly.h: polynomial arithmetic over GF(2) on 64-bit
-- words, and the rolling fingerprint built on it. Words are numbers; what a shift drops is dropped
-- by `u64`. The lookup tables are lists, and a read past their end, which never happens, gives 0.
pub mod Poly
pub mod Words
pub mod Polymult
pub mod Polymod
pub mod Fls
pub mod Append
pub mod Tables
pub mod Window
pub mod Rolling
use my_codebase.Base.{
  ℕ, zero, suc, ◌+◌, ◌-◌, ◌*◌, ◌/◌, ◌%◌, ◌^◌, bit_and, bit_or, bit_xor, Bool, not, List, [], ◌∷◌,
  leb, ltb, ◌==◌, if◌then◌else◌, u32, u64, ◌<<<◌, ◌>>>◌, get_or, set, replicate, Option, some, none,
  ◌>>=◌, get_elem?, get_elem?-eq-get_or, length, length-replicate, length-set, ◌≤◌, ◌<◌, ◌≡◌, ◌∙◌,
  arith,
}

-- One test of `fls32`: if the masked bits are clear, shift left by `k`.
pub narrow : ℕ → ℕ → ℕ × ℕ → ℕ × ℕ
narrow mask k (x, r) = if bit_and x mask == 0 then (u32 (x <<< k), r - k) else (x, r)

-- `r` stays positive, so the `int` is a number.
pub fls32 : ℕ → ℕ
fls32 x =
    if x == 0
    then 0
    else (narrow 0x80000000 1 (
        narrow 0xc0000000 2
          (narrow 0xf0000000 4 (narrow 0xff000000 8 (narrow 0xffff0000 16 (x, 32)))))).1

pub fls64 : ℕ → ℕ
fls64 v = let h = u32 (v >>> 32) in if h == 0 then fls32 (u32 v) else 32 + fls32 h

-- `x & (1 << i)`, as a condition.
pub test_bit : ℕ → ℕ → Bool
test_bit x i = not (bit_and x (1 <<< i) == 0)

-- The loop of `polymod` over the high word, from bit `i - 1` down to bit 0; `d` is shifted already.
pub polymod_high : ℕ → ℕ → ℕ × ℕ → ℕ × ℕ
unfolding test_bit
polymod_high d zero (nh, nl) = (nh, nl)
polymod_high d (suc i) (nh, nl) = polymod_high d i (
    if test_bit nh i
    then (bit_xor nh (d >>> (63 - i)), bit_xor nl (u64 (d <<< (i + 1))))
    else (nh, nl))

-- The loop of `polymod` over the low word, from bit `k + n - 1` down to bit `k`.
pub polymod_low : ℕ → ℕ → ℕ → ℕ → ℕ
unfolding test_bit
polymod_low d k zero nl = nl
polymod_low d k (suc n) nl =
    polymod_low d k n (if test_bit nl (k + n) then bit_xor nl (d >>> (63 - (k + n))) else nl)

-- The branch `if (nh)`: the top bit first, then the loop from bit 62.
pub polymod_fold : ℕ → ℕ → ℕ → ℕ × ℕ
unfolding polymod_high
polymod_fold d nh nl =
    if nh == 0
    then (nh, nl)
    else polymod_high d 63 (if test_bit nh 63 then bit_xor nh d else nh, nl)

-- `d` is never 0, for which the code shifts by a negative amount.
pub polymod : ℕ → ℕ → ℕ → ℕ
polymod nh nl d =
    let k = fls64 d - 1 in
    let d' = u64 (d <<< (63 - k)) in polymod_low d' k (64 - k) (polymod_fold d' nh nl).1

-- The loop of `polymult` at bit `i`, with `n` rounds left.
pub polymult_from : ℕ → ℕ → ℕ → ℕ → ℕ × ℕ → ℕ × ℕ
unfolding test_bit
polymult_from x y zero i (ph, pl) = (ph, pl)
polymult_from x y (suc n) i (ph, pl) =
    polymult_from x y n (i + 1)
      (if test_bit x i then (bit_xor ph (y >>> (64 - i)), bit_xor pl (u64 (y <<< i))) else (ph, pl))

pub polymult : ℕ → ℕ → ℕ × ℕ
unfolding polymult_from
polymult x y = polymult_from x y 63 1 (0, if test_bit x 0 then y else 0)

pub polymmult : ℕ → ℕ → ℕ → ℕ
polymmult x y d = let (h, l) = polymult x y in polymod h l d

-- `for (i = lo; i < lo + n; i++) table[i] = f(i);`
pub tabulate : (ℕ → ℕ) → ℕ → ℕ → List ℕ
tabulate f lo zero = []
tabulate f lo (suc n) = f lo ∷ tabulate f (lo + 1) n

pub record RabinFpUtil : Type 0 where
  pub fp_poly : ℕ
  pub window_size : ℕ
  pub shift : ℕ
  pub t_table : List ℕ
  pub u_table : List ℕ

-- `Append8`, over the two fields that it reads.
pub append8_with : ℕ → List ℕ → ℕ → ℕ → ℕ
append8_with shift t_table p m = bit_xor (bit_or (u64 (p <<< 8)) m) (get_or t_table (p >>> shift) 0)

pub append8 : RabinFpUtil → ℕ → ℕ → ℕ
unfolding append8_with
append8 util p m = append8_with util.shift util.t_table p m

-- `for (i = 1; i < window_size_; i++) sizeshift = Append8(sizeshift, 0);`, with `n` rounds left.
pub size_shift : ℕ → List ℕ → ℕ → ℕ → ℕ
unfolding append8_with
size_shift shift t_table zero p = p
size_shift shift t_table (suc n) p = size_shift shift t_table n (append8_with shift t_table p 0)

pub t_entry : ℕ → ℕ → ℕ → ℕ → ℕ
t_entry poly x_shift t1 i = bit_or (polymmult i t1 poly) (u64 (i <<< x_shift))

abbrev pub fp_poly_constant : ℕ
fp_poly_constant = 0xbfe6b8a5bf378d83

-- The object that the constructor fills in.
pub filled_rabin_fp_util : ℕ → RabinFpUtil
filled_rabin_fp_util window_size =
    let poly = fp_poly_constant in
    let x_shift = fls64 poly - 1 in
    let shift = x_shift - 8 in
    let t1 = polymod 0 (1 <<< x_shift) poly in
    let t_table = tabulate (t_entry poly x_shift t1) 0 256 in
    let sizeshift = size_shift shift t_table (window_size - 1) 1 in
    record {
      fp_poly = poly;
      window_size = window_size;
      shift = shift;
      t_table = t_table;
      u_table = tabulate (λ i. polymmult i sizeshift poly) 0 256;
    }

-- The constructor. `none` is a loop without end: its counter is a `uint32_t`, so from `2 ^ 32` on
-- it never reaches the window's size.
unfoldable pub new_rabin_fp_util : ℕ → Option RabinFpUtil
new_rabin_fp_util window_size =
    if ltb window_size (2 ^ 32) then some (filled_rabin_fp_util window_size) else none

pub record RabinCtx : Type 0 where
  pub cur_pos : ℕ
  pub circ_buf : List ℕ
  pub fp : ℕ

-- `cur_pos` is a `uint32_t`, so -1 is its greatest value.
pub new_ctx : RabinFpUtil → RabinCtx
new_ctx util = record { cur_pos = 2 ^ 32 - 1; circ_buf = replicate util.window_size 0; fp = 0 }

-- `memset` of the buffer, which has `window_size` bytes.
pub reset_ctx : RabinFpUtil → RabinCtx → RabinCtx
reset_ctx util ctx = record ctx {
  cur_pos = 2 ^ 32 - 1;
  circ_buf = replicate util.window_size 0;
  fp = 0;
}

-- The position that the next byte is written to.
pub next_pos : RabinFpUtil → RabinCtx → ℕ
next_pos util ctx = let pos = u32 (ctx.cur_pos + 1) in if leb util.window_size pos then 0 else pos

-- The context after the byte `om` has given way to `input_byte` at the position `pos`.
pub slid : RabinFpUtil → RabinCtx → ℕ → ℕ → ℕ → RabinCtx
slid util ctx pos om input_byte = record {
  cur_pos = pos;
  circ_buf = set ctx.circ_buf pos input_byte;
  fp = append8 util (bit_xor ctx.fp (get_or util.u_table om 0)) input_byte;
}

-- `SlideOneByte`; the new fingerprint is the field `fp` of the new context. `none` is a position
-- outside `circ_buf`, which a window of no bytes has.
unfoldable pub slide_one_byte : RabinFpUtil → RabinCtx → ℕ → Option RabinCtx
slide_one_byte util ctx input_byte = do
  let pos = next_pos util ctx
  om ← get_elem? ctx.circ_buf pos
  some (slid util ctx pos om input_byte)

-- The new context where the position lies inside.
abbrev pub slid_context : RabinFpUtil → RabinCtx → ℕ → RabinCtx
slid_context util ctx input_byte =
    slid util ctx (next_pos util ctx) (get_or ctx.circ_buf (next_pos util ctx) 0) input_byte

pub slide_one_byte-slid_context :
    (util : RabinFpUtil) (ctx : RabinCtx) (b : ℕ)
    → next_pos util ctx < length ctx.circ_buf
    → slide_one_byte util ctx b ≡ some (slid_context util ctx b)
unfolding slide_one_byte
slide_one_byte-slid_context util ctx b h =
    rw (get_elem?-eq-get_or ctx.circ_buf (next_pos util ctx) 0 h)

-- A buffer that has the window's size, of at least one byte.
pub record HasRoom (util : RabinFpUtil) (ctx : RabinCtx) : Type 0 where
  pub positive : 1 ≤ util.window_size
  pub whole : length ctx.circ_buf ≡ util.window_size

pub next_pos-inside :
    (util : RabinFpUtil) (ctx : RabinCtx)
    → HasRoom util ctx
    → next_pos util ctx < length ctx.circ_buf
unfolding next_pos
next_pos-inside util ctx v = ground (arith, v.positive, v.whole)

pub new_ctx-HasRoom : (util : RabinFpUtil) → 1 ≤ util.window_size → HasRoom util (new_ctx util)
unfolding new_ctx
new_ctx-HasRoom util h = record { positive = h; whole = length-replicate util.window_size 0 }

pub slid-HasRoom :
    (util : RabinFpUtil) (ctx : RabinCtx) (pos om b : ℕ)
    → HasRoom util ctx
    → HasRoom util (slid util ctx pos om b)
unfolding slid
slid-HasRoom util ctx pos om b v = record {
  positive = v.positive;
  whole = length-set ctx.circ_buf pos b ∙ v.whole;
}
