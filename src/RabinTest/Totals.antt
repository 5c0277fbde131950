-- ===== src/RabinTest/Totals.antt =====
-- What the program has at the end: the fingerprint is that of the whole file, the size is not.
use my_codebase.Base.{
  ℕ, zero, suc, ◌+◌, ◌*◌, ◌%◌, ◌^◌, ◌==◌, ==_iff, ==-positive, ◌≤◌, ◌<◌, ◌≡◌, refl, sym, ap, ◌∙◌,
  List, [], ◌∷◌, ◌++◌, drop, length, some, All, Bool-cases, inl, inr, arith, length-take,
  length-drop, replicate,
}
use my_codebase.Stream.{
  IStream, read, read-append, read-IsBytes, IsGood, more, at_end, read-AfterRead,
}
use my_codebase.Rabin.{RabinCtx, new_ctx}
use my_codebase.Rabin.Append.{IsFingerprint}
use my_codebase.Rabin.Tables.{util, new_rabin_fp_util-small}
use my_codebase.Rabin.Window.{IsByte, IsRolling, value, window, new_ctx-IsRolling, window-new_ctx}
use my_codebase.Rabin.Rolling.{
  slid_all, slid_all-append, slide_all-slid_all, slid_all-IsRolling, slid_all-window,
}
use my_codebase.RabinTest.{read_size, slide_file, rabin_test}

empty_of : (bs : List ℕ) → length bs ≡ 0 → bs ≡ []
empty_of [] e = refl
empty_of (b ∷ bs) e = absurd (omega (arith, e))

-- The whole file is slid, and the size is that of the last read.
slide_file_lem :
    (w : ℕ) (pos : 1 ≤ w) (small : w < 2 ^ 32) (rounds : ℕ) (ctx : RabinCtx) (f : IStream)
    → IsRolling w ctx
    → All IsByte f.rest
    → IsGood f
    → length f.rest < rounds * read_size
    → slide_file rounds read_size (util w) ctx f
      ≡ some (record {
        pending_size = length f.rest % read_size;
        rabin_ctx = slid_all (util w) ctx f.rest;
      })
unfolding slide_file slid_all
slide_file_lem w pos small zero ctx f v are good enough = absurd (omega (arith, enough))
slide_file_lem w pos small (suc rounds) ctx f v are good enough =
    let (bytes, f') = read read_size f in
    let parts = read-IsBytes read_size f are in
    let slides = slide_all-slid_all w pos small bytes ctx parts.0 v in
    elim (read-AfterRead read_size f good) [
      | at_end short all rest eof ↦
          let last : length f.rest % read_size ≡ length f.rest = omega (arith, short) in
          elim (Bool-cases (length bytes == 0)) [
            | inl none_left ↦
                let none : f.rest ≡ [] =
                  sym all ∙ empty_of bytes ((==_iff (length bytes) 0).0 none_left) in
                rw (none_left, none)
            | inr some_left ↦ rw (some_left, slides, eof, all, last)
          ]
      | more full all rest eof good' ↦
          let whole : length bytes ≡ read_size =
            omega (arith, ap length all, length-take read_size f.rest, full) in
          let fewer : length f'.rest + read_size ≡ length f.rest =
            omega (arith, ap length rest, length-drop read_size f.rest, full) in
          let some_left = ==-positive (length bytes) (omega (arith, whole)) in
          let same : length f'.rest % read_size ≡ length f.rest % read_size =
            omega (arith, fewer) in
          let slid : slid_all (util w) (slid_all (util w) ctx bytes) f'.rest
              ≡ slid_all (util w) ctx f.rest =
            sym (slid_all-append (util w) ctx bytes f'.rest)
            ∙ ap (slid_all (util w) ctx) (read-append read_size f) in
          rw (
            some_left,
            slides,
            eof,
            slide_file_lem w pos small rounds (slid_all (util w) ctx bytes) f'
                (slid_all-IsRolling w pos small bytes ctx parts.0 v) parts.1 good'
                (omega (arith, fewer, enough)),
            same,
            slid,
          )
    ]

-- For a window of 1 to `2 ^ 32 - 1` bytes, a good stream of bytes and a number of rounds of which
-- each reads 128 MiB and which exceed the stream together: the program ends. Its fingerprint is
-- that of the last bytes of the file, as many as the window holds, with zeros before a shorter
-- file; the size that it prints is the remainder of the file's length by 128 MiB.
pub rabin_test_lem :
    (w rounds : ℕ) (f : IStream)
    → 1 ≤ w
    → w < 2 ^ 32
    → IsGood f
    → All IsByte f.rest
    → length f.rest < rounds * read_size
    → (ctx : RabinCtx) × (rabin_test rounds w f
        ≡ some (record { pending_size = length f.rest % read_size; rabin_ctx = ctx }))
      × IsFingerprint (value (drop (length f.rest) (replicate w 0 ++ f.rest))) ctx.fp
unfolding rabin_test
rabin_test_lem w rounds f pos small good bytes enough =
    let start = new_ctx (util w) in
    let ready = new_ctx-IsRolling w pos small in
    let end = slid_all-IsRolling w pos small f.rest start bytes ready in
    let last : window (util w) (slid_all (util w) start f.rest)
        ≡ drop (length f.rest) (replicate w 0 ++ f.rest) =
      slid_all-window w pos small f.rest start bytes ready
      ∙ ap (λ t. drop (length f.rest) (t ++ f.rest)) (window-new_ctx w pos small) in
    (
      slid_all (util w) start f.rest,
      (rw (new_rabin_fp_util-small w small)
          (slide_file_lem w pos small rounds start f ready bytes good enough)),
      rw last at end.fingerprint,
    )
