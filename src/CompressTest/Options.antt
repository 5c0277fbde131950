-- ===== src/CompressTest/Options.antt =====
-- What the options of the program can come to.
use mathlib.Core.Path.{subst}
use my_codebase.Base.{some_inj, ℕ, zero, suc, ◌^◌, ◌≤◌, ◌<◌, ◌≡◌, refl, List, [], ◌∷◌, some, arith}
use my_codebase.Process.{Outcome, returned, exited}
use my_codebase.Compress.{
  CompressType, lz4_compress_type, zstd_compress_type, zlib_compress_type, compress_type_of,
}
use my_codebase.CryptoTest.{parse_chunk_size}
use my_codebase.CryptoTest.Passes.{parse_chunk_size-le}
use my_codebase.CompressTest.{
  parse_compress_type, CompressOption, option_i, option_t, option_l, option_s, option_unknown,
  CompressSettings, parse_compress_option, parse_compress_options, set_type, set_chunk_size,
  unless_exited,
}

-- A chunk fits the program's buffers, and the constructor of the helper accepts the type.
pub record IsUsable (s : CompressSettings) : Type 0 where
  pub fits : s.chunk_size ≤ 2 ^ 14
  pub known :
      (n : ℕ) → s.compress_type ≡ some n → (t : CompressType) × (compress_type_of n ≡ some t)

Keeps : Outcome CompressSettings → Type 0
Keeps exited = Unit
Keeps (returned s) = IsUsable s

type-lt : (n m : ℕ) → parse_compress_type n ≡ returned m → m < 3
unfolding parse_compress_type
type-lt n m e = ground (arith, e)

type_of_lt : (m : ℕ) → m < 3 → (t : CompressType) × (compress_type_of m ≡ some t)
unfolding compress_type_of
type_of_lt zero h = (lz4_compress_type, refl)
type_of_lt (suc zero) h = (zstd_compress_type, refl)
type_of_lt (suc (suc zero)) h = (zlib_compress_type, refl)
type_of_lt (suc (suc (suc m))) h = absurd (omega (arith, h))

set_type-Keeps :
    (r : Outcome ℕ) (s : CompressSettings)
    → IsUsable s
    → ((m : ℕ) → r ≡ returned m → m < 3)
    → Keeps (set_type r s)
unfolding Keeps
set_type-Keeps exited s u small = tt
set_type-Keeps (returned m) s u small = record {
  fits = u.fits;
  known = λ n e. type_of_lt n (subst (λ k. k < 3) (some_inj e) (small m refl));
}

set_chunk_size-Keeps :
    (r : Outcome ℕ) (s : CompressSettings)
    → IsUsable s
    → ((m : ℕ) → r ≡ returned m → m ≤ 2 ^ 14)
    → Keeps (set_chunk_size r s)
unfolding Keeps
set_chunk_size-Keeps exited s u small = tt
set_chunk_size-Keeps (returned m) s u small = record { fits = small m refl; known = u.known }

option-Keeps :
    (o : CompressOption) (s : CompressSettings) → IsUsable s → Keeps (parse_compress_option o s)
unfolding Keeps parse_compress_option
option-Keeps option_i s u = u
option-Keeps (option_t n) s u = set_type-Keeps (parse_compress_type n) s u (type-lt n)
option-Keeps (option_l n) s u = record { fits = u.fits; known = u.known }
option-Keeps (option_s n) s u =
    set_chunk_size-Keeps (parse_chunk_size n) s u (parse_chunk_size-le n)
option-Keeps option_unknown s u = tt

unless_exited-Keeps :
    (next : CompressSettings → Outcome CompressSettings) (r : Outcome CompressSettings)
    → Keeps r
    → ((s : CompressSettings) → IsUsable s → Keeps (next s))
    → Keeps (unless_exited next r)
unfolding Keeps
unless_exited-Keeps next exited u go = tt
unless_exited-Keeps next (returned s) u go = go s u

options-Keeps :
    (options : List CompressOption) (s : CompressSettings)
    → IsUsable s
    → Keeps (parse_compress_options options s)
unfolding Keeps parse_compress_options
options-Keeps [] s u = u
options-Keeps (o ∷ options) s u =
    unless_exited-Keeps (parse_compress_options options) (parse_compress_option o s)
      (option-Keeps o s u) (options-Keeps options)

-- Where the options do not end the program, the chunk fits the buffers and the constructor of the
-- helper accepts the type, if one was given.
pub parse_compress_options-IsUsable :
    (options : List CompressOption) (s s' : CompressSettings)
    → IsUsable s
    → parse_compress_options options s ≡ returned s'
    → IsUsable s'
unfolding Keeps
parse_compress_options-IsUsable options s s' u e = subst Keeps e (options-Keeps options s u)
