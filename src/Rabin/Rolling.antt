-- ===== src/Rabin/Rolling.antt =====
-- Sliding a whole string: the fingerprint is that of its last `window_size` bytes.
use my_codebase.Base.{
  Option, some, ◌>>=◌, ℕ, suc, ◌^◌, ◌≤◌, ◌<◌, ◌≡◌, refl, sym, ap, ◌∙◌, get_or, List, [], ◌∷◌, ◌++◌,
  drop, length, All, append_assoc, append-nil, drop-append_length,
}
use my_codebase.Rabin.{RabinFpUtil, RabinCtx, slid_context, slide_one_byte, next_pos}
use my_codebase.Rabin.Poly.{Congruent-eq, Congruent-trans, Congruent-sym}
use my_codebase.Rabin.Append.{poly, poly-HasDegree, IsFingerprint}
use my_codebase.Rabin.Tables.{util}
use my_codebase.Rabin.Window.{
  IsByte, value, window, IsRolling, rest_of, window-before, window-after, slid-IsRolling,
  slide_one_byte-slid, length-window,
}

-- The loop of a caller that slides the bytes of a string one after the other.
unfoldable pub slide_all : RabinFpUtil → RabinCtx → List ℕ → Option RabinCtx
slide_all u ctx [] = some ctx
slide_all u ctx (b ∷ bs) = do ctx' ← slide_one_byte u ctx b; slide_all u ctx' bs

-- What it leaves where no byte falls outside the buffer.
unfoldable pub slid_all : RabinFpUtil → RabinCtx → List ℕ → RabinCtx
slid_all u ctx [] = ctx
slid_all u ctx (b ∷ bs) = slid_all u (slid_context u ctx b) bs

pub slid_all-append :
    (u : RabinFpUtil) (ctx : RabinCtx) (bs cs : List ℕ)
    → slid_all u ctx (bs ++ cs) ≡ slid_all u (slid_all u ctx bs) cs
unfolding slid_all
slid_all-append u ctx [] cs = refl
slid_all-append u ctx (b ∷ bs) cs = slid_all-append u (slid_context u ctx b) bs cs

module _ (w : ℕ) (pos : 1 ≤ w) (small : w < 2 ^ 32) where
  pub slid_all-IsRolling :
      (bs : List ℕ) (ctx : RabinCtx)
      → All IsByte bs
      → IsRolling w ctx
      → IsRolling w (slid_all (util w) ctx bs)
  unfolding slid_all
  slid_all-IsRolling [] ctx h v = v
  slid_all-IsRolling (b ∷ bs) ctx h v =
      slid_all-IsRolling bs (slid_context (util w) ctx b) h.1
        (slid-IsRolling w pos small ctx b v h.0)

  pub slid_all-window :
      (bs : List ℕ) (ctx : RabinCtx)
      → All IsByte bs
      → IsRolling w ctx
      → window (util w) (slid_all (util w) ctx bs) ≡ drop (length bs) (window (util w) ctx ++ bs)
  unfolding slid_all
  slid_all-window [] ctx h v = sym (append-nil (window (util w) ctx))
  slid_all-window (b ∷ bs) ctx h v =
      let rest = rest_of (util w) ctx in
      let o = get_or ctx.circ_buf (next_pos (util w) ctx) 0 in
      slid_all-window bs (slid_context (util w) ctx b) h.1 (slid-IsRolling w pos small ctx b v h.0)
      ∙ ap (λ t. drop (length bs) (t ++ bs)) (window-after w pos small ctx b v h.0)
      ∙ ap (drop (length bs)) (append_assoc rest (b ∷ []) bs)
      ∙ ap (λ t. drop (suc (length bs)) (t ++ (b ∷ bs)))
          (sym (window-before w pos small ctx b v h.0))

  pub slid_all-IsFingerprint :
      (ctx : RabinCtx) (bs : List ℕ)
      → IsRolling w ctx
      → All IsByte bs
      → length bs ≡ w
      → IsFingerprint (value bs) (slid_all (util w) ctx bs).fp
  slid_all-IsFingerprint ctx bs v h e =
      let v' = slid_all-IsRolling bs ctx h v in
      let before = window (util w) ctx in
      let len : length bs ≡ length before = e ∙ sym (length-window w pos small ctx v) in
      let all : window (util w) (slid_all (util w) ctx bs) ≡ bs =
        slid_all-window bs ctx h v
        ∙ ap (λ n. drop n (before ++ bs)) len
        ∙ drop-append_length before bs in
      rw all at v'.fingerprint

  pub slide_all-slid_all :
      (bs : List ℕ) (ctx : RabinCtx)
      → All IsByte bs
      → IsRolling w ctx
      → slide_all (util w) ctx bs ≡ some (slid_all (util w) ctx bs)
  unfolding slide_all slid_all
  slide_all-slid_all [] ctx h v = refl
  slide_all-slid_all (b ∷ bs) ctx h v = rw (slide_one_byte-slid w pos small ctx b v h.0) (
      slide_all-slid_all bs (slid_context (util w) ctx b) h.1
        (slid-IsRolling w pos small ctx b v h.0))

  -- For a window of 1 to `2 ^ 32 - 1` bytes and a context that satisfies the invariant: sliding as
  -- many bytes as the window holds stays inside the buffer, and the fingerprint after it is the
  -- remainder of their polynomial by the fixed polynomial of degree 63, whatever was slid before.
  pub slide_all-IsFingerprint :
      (ctx : RabinCtx) (bs : List ℕ)
      → IsRolling w ctx
      → All IsByte bs
      → length bs ≡ w
      → (ctx' : RabinCtx) × (slide_all (util w) ctx bs ≡ some ctx')
        × IsFingerprint (value bs) ctx'.fp
  slide_all-IsFingerprint ctx bs v h e =
      (slid_all (util w) ctx bs, slide_all-slid_all bs ctx h v, slid_all-IsFingerprint ctx bs v h e)

  -- For a window of 1 to `2 ^ 32 - 1` bytes: two contexts that satisfy the invariant and are slid
  -- over the same bytes, as many as the window holds, have the same fingerprint.
  pub slid_all-eq :
      (ctx ctx' : RabinCtx) (bs : List ℕ)
      → IsRolling w ctx
      → IsRolling w ctx'
      → All IsByte bs
      → length bs ≡ w
      → (slid_all (util w) ctx bs).fp ≡ (slid_all (util w) ctx' bs).fp
  slid_all-eq ctx ctx' bs v v' h e =
      let r = slid_all-IsFingerprint ctx bs v h e in
      let r' = slid_all-IsFingerprint ctx' bs v' h e in
      Congruent-eq 63 poly-HasDegree.least poly-HasDegree.below r.below r'.below
        (Congruent-trans poly (Congruent-sym poly r.same) r'.same)
