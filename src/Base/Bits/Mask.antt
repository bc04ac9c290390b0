-- ===== src/Base/Bits/Mask.antt =====
-- A mask of the six lowest digits.
use Prim.Native.Nat.{ℕ, zero, suc, ◌+◌, ◌*◌, ◌/◌, ◌%◌, ◌≤◌, min, bit_and, bit_and-bitwise, digits}
use mathlib.Core.Path.{◌≡◌, refl}
use native.Mathlib.Omega.{arith}

abbrev shared : ℕ → ℕ → ℕ → ℕ
shared fuel a k = digits (λ r. zero) min fuel a k

shared-zero : (fuel k : ℕ) → shared fuel 0 k ≡ 0
shared-zero zero k = refl
shared-zero (suc fuel) k = refl

-- Any fuel that covers the first number gives the same digits.
shared-fuel : (m n k a : ℕ) → a ≤ m → a ≤ n → shared n a k ≡ shared m a k
shared-fuel m n k zero h h' = omega (arith, shared-zero m k, shared-zero n k)
shared-fuel zero n k (suc a) h h' = absurd (omega arith)
shared-fuel (suc m) zero k (suc a) h h' = absurd (omega arith)
shared-fuel (suc m) (suc n) k (suc a) h h' =
    omega (arith, shared-fuel m n (k / 2) (suc a / 2) (omega arith) (omega arith))

bit_and_lowest : (a k : ℕ) → bit_and a k ≡ bit_and (a / 2) (k / 2) * 2 + min (a % 2) (k % 2)
bit_and_lowest zero k = omega (arith, bit_and-bitwise 0 k, bit_and-bitwise 0 (k / 2))
bit_and_lowest (suc a) k =
    let half = suc a / 2 in
    omega (
      arith,
      shared-fuel half a (k / 2) half (omega arith) (omega arith),
      bit_and-bitwise half (k / 2),
      bit_and-bitwise (suc a) k,
    )

shared-none : (fuel a : ℕ) → shared fuel a 0 ≡ 0
shared-none zero a = refl
shared-none (suc fuel) zero = refl
shared-none (suc fuel) (suc a) = omega (arith, shared-none fuel (suc a / 2))

bit_and-zero : (a : ℕ) → bit_and a 0 ≡ 0
bit_and-zero a = omega (arith, bit_and-bitwise a 0, shared-none a a)

bit_and-one : (a : ℕ) → bit_and a 1 ≡ a % 2
bit_and-one a = omega (arith, bit_and_lowest a 1, bit_and-zero (a / 2))

bit_and-three : (a : ℕ) → bit_and a 3 ≡ a % 4
bit_and-three a = omega (arith, bit_and_lowest a 3, bit_and-one (a / 2))

bit_and-seven : (a : ℕ) → bit_and a 7 ≡ a % 8
bit_and-seven a = omega (arith, bit_and_lowest a 7, bit_and-three (a / 2))

bit_and-fifteen : (a : ℕ) → bit_and a 15 ≡ a % 16
bit_and-fifteen a = omega (arith, bit_and_lowest a 15, bit_and-seven (a / 2))

bit_and-thirty_one : (a : ℕ) → bit_and a 31 ≡ a % 32
bit_and-thirty_one a = omega (arith, bit_and_lowest a 31, bit_and-fifteen (a / 2))

pub bit_and-sixty_three : (a : ℕ) → bit_and a 63 ≡ a % 64
bit_and-sixty_three a = omega (arith, bit_and_lowest a 63, bit_and-thirty_one (a / 2))
