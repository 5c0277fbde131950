-- ===== src/Tests/Rabin.antt =====
-- The fingerprints of src/dedup/rabin_poly.cc at concrete inputs.
use my_codebase.Base.{ℕ, ◌+◌, ◌*◌, ◌%◌, ◌^◌, ◌≡◌, some, refl, arith, List, [], ◌∷◌, drop}
use my_codebase.Rabin.{RabinCtx, new_ctx, slide_one_byte, append8, polymult, polymod, polymmult}
use my_codebase.Rabin.Poly.{clmul}
use my_codebase.Rabin.Fls.{fls64-eq-suc}
use my_codebase.Rabin.Polymult.{Holds, polymult-Holds}
use my_codebase.Rabin.Polymod.{IsReduced, polymod-IsReduced, number}
use my_codebase.Rabin.Append.{IsFingerprint, poly, poly-HasDegree, polymmult-IsReduced}
use my_codebase.Rabin.Tables.{util, new_rabin_fp_util-small, append8-IsFingerprint}
use my_codebase.Rabin.Window.{IsRolling, value, new_ctx-IsRolling, slide_one_byte-IsRolling}
use my_codebase.Rabin.Rolling.{slide_all, slide_all-IsFingerprint}
use my_codebase.Stream.{opened}
use my_codebase.RabinTest.{read_size, rabin_test}
use my_codebase.RabinTest.Totals.{rabin_test_lem}

abbrev two_bytes : List ℕ
two_bytes = 1 ∷ 2 ∷ []

abbrev start : RabinCtx
start = new_ctx (util 2)

start-IsRolling : IsRolling 2 start
start-IsRolling = new_ctx-IsRolling 2 (omega arith) (omega arith)

polymult_example : Holds (clmul 64 3 5) (polymult 3 5)
polymult_example = polymult-Holds 3 5 (omega arith)

polymod_example : IsReduced poly (number (1, 2)) 63 (polymod 1 2 poly)
polymod_example =
    polymod-IsReduced poly 63 poly-HasDegree (omega arith) 1 2
      (fls64-eq-suc 63 poly (omega arith) poly-HasDegree) (omega arith) (omega arith)

polymmult_example : IsReduced poly (clmul 64 3 5) 63 (polymmult 3 5 poly)
polymmult_example = polymmult-IsReduced 3 5 poly 63 poly-HasDegree (omega arith) (omega arith)

append8_example : IsFingerprint (7 * 2 ^ 8 + 9) (append8 (util 48) 7 9)
append8_example =
    append8-IsFingerprint 48 (util 48) 7 9 (new_rabin_fp_util-small 48 (omega arith)) (omega arith)
      (omega arith)

slide_one_byte_example :
    (ctx' : RabinCtx) × (slide_one_byte (util 2) start 7 ≡ some ctx') × IsRolling 2 ctx'
slide_one_byte_example =
    slide_one_byte-IsRolling 2 (omega arith) (omega arith) start 7 start-IsRolling (omega arith)

slide_all_example :
    (ctx' : RabinCtx) × (slide_all (util 2) start two_bytes ≡ some ctx')
    × IsFingerprint (value two_bytes) ctx'.fp
slide_all_example =
    slide_all-IsFingerprint 2 (omega arith) (omega arith) start two_bytes start-IsRolling
      (omega arith, (omega arith, tt)) refl

rabin_test_example :
    (ctx : RabinCtx) × (rabin_test 1 2 (opened two_bytes)
      ≡ some (record { pending_size = 2 % read_size; rabin_ctx = ctx }))
    × IsFingerprint (value (drop 2 (0 ∷ 0 ∷ two_bytes))) ctx.fp
rabin_test_example =
    rabin_test_lem 2 1 (opened two_bytes) (omega arith) (omega arith)
      (record { not_eof = refl; not_failed = refl }) (omega arith, (omega arith, tt)) (omega arith)
