-- ===== src/Prelude/Bits.antt =====
-- The law that the hash of the edge tables needs: masking keeps a number at most the mask.
use Prim.Native.Nat.{ℕ, zero, suc, ◌/◌, ◌-◌, ◌^◌, ◌<◌, ◌≤◌, min, bit_and, digits, bit_and-bitwise}
use mathlib.Core.Path.{◌≡◌, refl, ◌∙◌}
use native.Mathlib.Nat.{pow-suc}
use native.Mathlib.Omega.{arith}

abbrev and_digits : ℕ → ℕ → ℕ → ℕ
and_digits n a b = digits (λ b. zero) min n a b

and_digits-le : (n a b : ℕ) → and_digits n a b ≤ b
and_digits-le zero zero b = omega arith
and_digits-le zero (suc a) b = omega arith
and_digits-le (suc n) zero b = omega arith
and_digits-le (suc n) (suc a) b = omega (arith, and_digits-le n (suc a / 2) (b / 2))

zero-and_digits : (n b : ℕ) → and_digits n 0 b ≡ 0
zero-and_digits zero b = refl
zero-and_digits (suc n) b = refl

pub pow_pos : (w : ℕ) → 0 < 2 ^ w
pow_pos zero = omega arith
pow_pos (suc w) = omega (arith, pow-suc 2 w, pow_pos w)

pub bit_and-le : (a b : ℕ) → bit_and a b ≤ b
bit_and-le a b = omega (arith, bit_and-bitwise a b, and_digits-le a a b)

-- A mask of `w` ones keeps a number below `2 ^ w`, and clears `2 ^ w` itself.
and_digits-mask : (w n a : ℕ) → a < 2 ^ w → a ≤ n → and_digits n a (2 ^ w - 1) ≡ a
and_digits-mask w n zero h f = omega (arith, zero-and_digits n (2 ^ w - 1))
and_digits-mask w zero (suc a) h f = absurd (omega arith)
and_digits-mask zero (suc n) (suc a) h f = absurd (omega arith)
and_digits-mask (suc w) (suc n) (suc a) h f =
    let half : (2 ^ suc w - 1) / 2 ≡ 2 ^ w - 1 = omega (arith, pow-suc 2 w, pow_pos w) in
    rw half (
      omega (
        arith,
        pow-suc 2 w,
        pow_pos w,
        and_digits-mask w n (suc a / 2) (omega (arith, pow-suc 2 w)) (omega arith),
      ))

and_digits-over : (w n a : ℕ) → a ≡ 2 ^ w → a ≤ n → and_digits n a (2 ^ w - 1) ≡ 0
and_digits-over w n zero h f = absurd (omega (arith, pow_pos w))
and_digits-over w zero (suc a) h f = absurd (omega arith)
and_digits-over zero (suc n) (suc a) h f = omega (arith, and_digits-le n (suc a / 2) 0)
and_digits-over (suc w) (suc n) (suc a) h f =
    let half : (2 ^ suc w - 1) / 2 ≡ 2 ^ w - 1 = omega (arith, pow-suc 2 w, pow_pos w) in
    rw half (
      omega (
        arith,
        pow-suc 2 w,
        pow_pos w,
        and_digits-over w n (suc a / 2) (omega (arith, pow-suc 2 w)) (omega arith),
      ))

pub bit_and-mask : (w a : ℕ) → a < 2 ^ w → bit_and a (2 ^ w - 1) ≡ a
bit_and-mask w a h = bit_and-bitwise a (2 ^ w - 1) ∙ and_digits-mask w a a h (omega arith)

pub bit_and-over : (w : ℕ) → bit_and (2 ^ w) (2 ^ w - 1) ≡ 0
bit_and-over w =
    bit_and-bitwise (2 ^ w) (2 ^ w - 1) ∙ and_digits-over w (2 ^ w) (2 ^ w) refl (omega arith)
