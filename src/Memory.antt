-- ===== src/Memory.antt =====
-- Unsigned integers as the code writes them to files and sockets: the bytes of the object, on a
-- machine that stores the lowest byte first.
use my_codebase.Base.{
  ℕ, ◌+◌, ◌*◌, ◌/◌, ◌%◌, ◌^◌, ◌<◌, ◌≡◌, List, [], ◌∷◌, ◌++◌, arith, refl, length,
}

unfoldable pub u32_bytes : ℕ → List ℕ
u32_bytes n = n % 256 ∷ n / 256 % 256 ∷ n / 65536 % 256 ∷ n / 16777216 % 256 ∷ []

unfoldable pub u64_bytes : ℕ → List ℕ
u64_bytes n = u32_bytes n ++ u32_bytes (n / 2 ^ 32)

unfoldable pub of_bytes : List ℕ → ℕ
of_bytes [] = 0
of_bytes (b ∷ bs) = b + 256 * of_bytes bs

pub of_bytes-u32_bytes : (n : ℕ) → n < 2 ^ 32 → of_bytes (u32_bytes n) ≡ n
unfolding of_bytes u32_bytes
of_bytes-u32_bytes n h = omega (arith, h)

pub of_bytes-u64_bytes : (n : ℕ) → n < 2 ^ 64 → of_bytes (u64_bytes n) ≡ n
unfolding of_bytes u32_bytes u64_bytes
of_bytes-u64_bytes n h = omega (arith, h)

pub length-u32_bytes : (n : ℕ) → length (u32_bytes n) ≡ 4
unfolding u32_bytes
length-u32_bytes n = refl

pub length-u64_bytes : (n : ℕ) → length (u64_bytes n) ≡ 8
unfolding u32_bytes u64_bytes
length-u64_bytes n = refl
