-- ===== src/Prelude/Digits.antt =====
-- Numbers written with a leading digit and a rest.
use Prim.Native.Nat.{ℕ, ◌+◌, ◌*◌, ◌/◌, ◌%◌, ◌<◌}
use mathlib.Core.Path.{◌≡◌, refl}
use native.Mathlib.Omega.{arith}

pub mod_lt : (a b : ℕ) → 0 < b → a % b < b
mod_lt a b h = grind arith

pub div_lt : (x l n : ℕ) → 0 < n → x < l * n → x / n < l
div_lt x l n p h = grind arith

pub digit_lt : (a b k m : ℕ) → a < k → b < m → a * m + b < k * m
digit_lt a b k m h l = grind arith

digit_head : (a b c d m : ℕ) → b < m → d < m → a * m + b ≡ c * m + d → a ≡ c
digit_head a b c d m h l e = grind arith

pub digit_inj : (a b c d m : ℕ) → b < m → d < m → a * m + b ≡ c * m + d → (a ≡ c) × (b ≡ d)
digit_inj a b c d m h l e =
    let head = digit_head a b c d m h l e in
    let scaled : a * m ≡ c * m = rw head refl in (head, omega (arith, e, scaled))
