-- ===== src/RabinTest.antt =====
-- src/app/rabin_test.cc: slides a whole file over one context, read by read.
pub mod Totals
use my_codebase.Base.{
  ℕ, zero, suc, ◌*◌, ◌^◌, ◌==◌, if◌then◌else◌, Option, none, some, ◌>>=◌, length,
}
use my_codebase.Stream.{IStream, read}
use my_codebase.Rabin.{RabinFpUtil, RabinCtx, new_rabin_fp_util, new_ctx}
use my_codebase.Rabin.Rolling.{slide_all}

-- The bytes that one read asks for.
abbrev pub read_size : ℕ
read_size = 128 * 2 ^ 20

-- What the program holds at the end, for its output: the size that it prints, and the context.
pub record TestResult : Type 0 where
  pub pending_size : ℕ
  pub rabin_ctx : RabinCtx

-- The loop over the file; `none` is no rounds left, or a fault.
unfoldable pub slide_file : ℕ → ℕ → RabinFpUtil → RabinCtx → IStream → Option TestResult
slide_file zero size util ctx f = none
slide_file (suc rounds) size util ctx f =
    let (read_buf, f') = read size f in
    if length read_buf == 0 then some (record { pending_size = 0; rabin_ctx = ctx }) else do
      ctx' ← slide_all util ctx read_buf
      let rest = slide_file rounds size util ctx' f'
      if f'.eof then some (record { pending_size = length read_buf; rabin_ctx = ctx' }) else rest

-- The program, from the open file on.
unfoldable pub rabin_test : ℕ → ℕ → IStream → Option TestResult
rabin_test rounds window_size f = do
  rabin_util ← new_rabin_fp_util window_size
  slide_file rounds read_size rabin_util (new_ctx rabin_util) f
