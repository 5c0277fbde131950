-- ===== src/Process.antt =====
-- Code that may end the process by `exit(EXIT_FAILURE)`: each call takes the state of the libraries
-- and the kernel and hands it on.
use my_codebase.Base.{Bool, true, false, Option, none, some, ◌≡◌, ◌⊎◌, inl, inr, refl}

pub data Done : Type 0 where
  done : Done

pub data Outcome {ℓ} (A : Type ℓ) : Type ℓ where
  returned : A → Outcome A
  exited : Outcome A

abbrev pub Program : Type 0 → Type 0 → Type 0
Program W A = W → Outcome A × W

abbrev pub and_then : {W A B : Type 0} → (A → Program W B) → Outcome A × W → Outcome B × W
and_then f (returned a, w) = f a w
and_then f (exited, w) = (exited, w)

infixl 5 ◌>>=◌ ◌>>◌
abbrev pub ◌>>=◌ : {W A B : Type 0} → Program W A → (A → Program W B) → Program W B
◌>>=◌ m f w = and_then f (m w)

abbrev pub ◌>>◌ : {W A B : Type 0} → Program W A → Program W B → Program W B
m >> k = m >>= λ _. k

module _ {W A : Type 0} where
  abbrev pub pure : A → Program W A
  pure a w = (returned a, w)

  abbrev pub exit : Program W A
  exit w = (exited, w)

  -- A call that returns a value.
  abbrev pub call : (W → A × W) → Program W A
  call f w = let (a, w') = f w in (returned a, w')

  -- A call whose failure ends the process.
  abbrev pub or_exit : Option A → Program W A
  or_exit none = exit
  or_exit (some a) = pure a

module _ {W : Type 0} where
  -- A call for its effect.
  abbrev pub run : (W → W) → Program W Done
  run f w = (returned done, f w)

  abbrev pub exit_unless : Bool → Program W Done
  exit_unless true = pure done
  exit_unless false = exit

-- One step of a program that has been computed.
pub bind-returned :
    {W A B : Type 0} (m : Program W A) (f : A → Program W B) (a : A) (w w' : W)
    → m w ≡ (returned a, w')
    → (m >>= f) w ≡ f a w'
bind-returned m f a w w' e = rw e

pub bind-exited :
    {W A B : Type 0} (m : Program W A) (f : A → Program W B) (w w' : W)
    → m w ≡ (exited, w')
    → (m >>= f) w ≡ (exited, w')
bind-exited m f w w' e = rw e

-- How a call that reports its success ends.
pub call-cases :
    {W : Type 0} (r : Bool × W) → ((w : W) × (r ≡ (true, w))) ⊎ ((w : W) × (r ≡ (false, w)))
call-cases (true, w) = inl (w, refl)
call-cases (false, w) = inr (w, refl)

pub outcome-cases :
    {W A : Type 0} (r : Outcome A × W)
    → ((a : A) × (w : W) × (r ≡ (returned a, w))) ⊎ ((w : W) × (r ≡ (exited, w)))
outcome-cases (returned a, w) = inl (a, w, refl)
outcome-cases (exited, w) = inr (w, refl)

pub result-cases :
    {W A : Type 0} (r : Option A × W)
    → ((a : A) × (w : W) × (r ≡ (some a, w))) ⊎ ((w : W) × (r ≡ (none, w)))
result-cases (some a, w) = inl (a, w, refl)
result-cases (none, w) = inr (w, refl)

-- What holds if a program returns.
pub data Leaves {W A : Type 0} (P : A → W → Type 0) : Outcome A × W → Type 0 where
  leaves : (a : A) (w : W) → P a w → Leaves P (returned a, w)
  ends : (w : W) → Leaves P (exited, w)

module _ {W B : Type 0} (Q : B → W → Type 0) where
  pub Leaves-bind :
      {A : Type 0} (P : A → W → Type 0) (f : A → Program W B) (r : Outcome A × W)
      → Leaves P r
      → ((a : A) (w : W) → P a w → Leaves Q (f a w))
      → Leaves Q (and_then f r)
  Leaves-bind P f r (leaves a w h) go = go a w h
  Leaves-bind P f r (ends w) go = ends w

  pub Leaves-exit_unless :
      (f : Done → Program W B) (b : Bool) (w : W)
      → (b ≡ true → Leaves Q (f done w))
      → Leaves Q (and_then f (exit_unless b w))
  Leaves-exit_unless f true w go = go refl
  Leaves-exit_unless f false w go = ends w
