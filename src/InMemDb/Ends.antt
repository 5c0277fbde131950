-- ===== src/InMemDb/Ends.antt =====
-- The loop of `OpenDB` ends on every file.
use mathlib.Core.Bool.{false≢true}
use my_codebase.Base.{
  ℕ, zero, suc, ◌≤◌, ◌<◌, ◌≡◌, refl, sym, ap, ◌∙◌, if◌then◌else◌, Option, some, Bool, true, false,
  arith, inl, inr, ◌⊎◌, length, length-drop,
}
use my_codebase.Memory.{u32_bytes, of_bytes}
use my_codebase.Stream.{IStream, IsGood, more, at_end, read-AfterRead, read}
use my_codebase.InMemDb.{Bytes, Index, read_into, resize, Loading, load_items}

-- A stream that is at its end, or good with fewer than `n` bytes.
abbrev Within : ℕ → IStream → Type 0
Within n f = (f.eof ≡ true) ⊎ (IsGood f × (length f.rest < n))

read_into-eof : (old : Bytes) (f : IStream) → f.eof ≡ true → (read_into old f).1.eof ≡ true
unfolding read_into read
read_into-eof old f e = rw e

read_into-Within : (old : Bytes) (n : ℕ) (f : IStream) → Within n f → Within n (read_into old f).1
unfolding read_into
read_into-Within old n f (inl e) = inl (read_into-eof old f e)
read_into-Within old n f (inr (good, h)) = elim (read-AfterRead (length old) f good) [
  | more full all rest eof still ↦
      inr (still, omega (arith, ap length rest, length-drop (length old) f.rest, h))
  | at_end short all rest eof ↦ inl eof
]

-- A read of something leaves fewer bytes.
read_into-less :
    (old : Bytes) (f : IStream)
    → 1 ≤ length old
    → IsGood f
    → Within (length f.rest) (read_into old f).1
unfolding read_into
read_into-less old f pos good = elim (read-AfterRead (length old) f good) [
  | more full all rest eof still ↦
      inr (still, omega (arith, ap length rest, length-drop (length old) f.rest, full, pos))
  | at_end short all rest eof ↦ inl eof
]

Ends : Option Index → Type 0
Ends r = (index : Index) × (r ≡ some index)

Ends-if :
    (t u : Bool) (x y : Index) (r : Option Index)
    → (u ≡ false → Ends r)
    → Ends (if t then some x else if u then some y else r)
unfolding Ends
Ends-if true u x y r later = (x, refl)
Ends-if false true x y r later = (y, refl)
Ends-if false false x y r later = later refl

four_bytes : (n : ℕ) → 1 ≤ length (u32_bytes n)
unfolding u32_bytes
four_bytes n = omega arith

still-IsGood : (n : ℕ) (f : IStream) → Within n f → f.eof ≡ false → IsGood f × (length f.rest < n)
still-IsGood n f (inl e) h = absurd (false≢true (sym h ∙ e))
still-IsGood n f (inr good) h = good

-- On a good stream of any content the loop of `OpenDB` ends within one round more than there are
-- bytes.
pub load_items-ends :
    (rounds : ℕ) (st : Loading) (f : IStream)
    → IsGood f
    → length f.rest < rounds
    → (index : Index) × (load_items rounds st f ≡ some index)
unfolding load_items Ends
load_items-ends zero st f good h = absurd (omega arith)
load_items-ends (suc rounds) st f good h =
    let n = length f.rest in
    let size₁ = read_into (u32_bytes 0) f in
    let key = read_into (resize (of_bytes size₁.0) st.key) size₁.1 in
    let size₂ = read_into size₁.0 key.1 in
    let value = read_into (resize (of_bytes size₂.0) st.value) size₂.1 in
    let within₁ = read_into-less (u32_bytes 0) f (four_bytes 0) good in
    let within₂ = read_into-Within (resize (of_bytes size₁.0) st.key) n size₁.1 within₁ in
    let within₃ = read_into-Within size₁.0 n key.1 within₂ in
    let within₄ = read_into-Within (resize (of_bytes size₂.0) st.value) n size₂.1 within₃ in
    Ends-if _ value.1.eof _ _ _ (λ e.
      let (good', fewer) = still-IsGood n value.1 within₄ e in
      load_items-ends rounds _ value.1 good' (omega (arith, fewer, h)))
