-- ===== src/Rabin/Poly.antt =====
-- Polynomials over GF(2) as numbers: the carry-less product, and congruence modulo a polynomial.
-- This is the specification that `polymult`, `polymod` and the fingerprint are measured by.
mod Product
mod Unique
pub use Product.*
unfoldable pub use Product.{clmul}
pub use Unique.*
