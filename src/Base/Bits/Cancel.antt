-- ===== src/Base/Bits/Cancel.antt =====
-- Exclusive or with the same value twice.
use Prim.Native.Nat.{bit_xor, bit_xor-bitwise, digits, differ}
use pam_nps_mfa.Base.Lists.{Bytes, length}
use Prim.Native.Nat.{ℕ, zero, suc, ◌+◌, ◌*◌, ◌/◌, ◌%◌, ◌≤◌, ◌<◌}
use mathlib.Core.Path.{◌≡◌, refl}
use mathlib.Core.List.{[], ◌∷◌}
use native.Mathlib.Omega.{arith}
use pam_nps_mfa.Base.Bits.{xor_bytes}

abbrev odd_ones : ℕ → ℕ → ℕ → ℕ
odd_ones fuel a k = digits (λ r. r) differ fuel a k

-- Nothing is left of the first number: the second one stands.
odd_ones-zero : (fuel k : ℕ) → odd_ones fuel 0 k ≡ k
odd_ones-zero zero k = refl
odd_ones-zero (suc fuel) k = refl

-- Any fuel that covers the first number gives the same digits.
odd_ones-fuel : (m n k a : ℕ) → a ≤ m → a ≤ n → odd_ones n a k ≡ odd_ones m a k
odd_ones-fuel m n k zero h h' = omega (arith, odd_ones-zero m k, odd_ones-zero n k)
odd_ones-fuel zero n k (suc a) h h' = absurd (omega arith)
odd_ones-fuel (suc m) zero k (suc a) h h' = absurd (omega arith)
odd_ones-fuel (suc m) (suc n) k (suc a) h h' =
    omega (arith, odd_ones-fuel m n (k / 2) (suc a / 2) (omega arith) (omega arith))

bit_xor_lowest : (k a : ℕ) → bit_xor a k ≡ bit_xor (a / 2) (k / 2) * 2 + differ (a % 2) (k % 2)
bit_xor_lowest k zero = omega (arith, bit_xor-bitwise 0 k, bit_xor-bitwise 0 (k / 2))
bit_xor_lowest k (suc a) =
    let half = suc a / 2 in
    omega (
      arith,
      odd_ones-fuel half a (k / 2) half (omega arith) (omega arith),
      bit_xor-bitwise half (k / 2),
      bit_xor-bitwise (suc a) k,
    )

differ-lt-two : (x y : ℕ) → x < 2 → y < 2 → differ x y < 2
differ-lt-two zero y h h' = h'
differ-lt-two (suc x) zero h h' = h
differ-lt-two (suc zero) (suc zero) h h' = omega arith
differ-lt-two (suc zero) (suc (suc y)) h h' = absurd (omega arith)
differ-lt-two (suc (suc x)) (suc y) h h' = absurd (omega arith)

differ-differ : (x y : ℕ) → x < 2 → y < 2 → differ (differ x y) y ≡ x
differ-differ zero zero h h' = refl
differ-differ zero (suc zero) h h' = refl
differ-differ zero (suc (suc y)) h h' = absurd (omega arith)
differ-differ (suc x) zero h h' = refl
differ-differ (suc zero) (suc zero) h h' = refl
differ-differ (suc zero) (suc (suc y)) h h' = absurd (omega arith)
differ-differ (suc (suc x)) (suc y) h h' = absurd (omega arith)

bit_xor-cancel_below : (n a k : ℕ) → a ≤ n → k ≤ n → bit_xor (bit_xor a k) k ≡ a
bit_xor-cancel_below zero zero zero h h' = refl
bit_xor-cancel_below zero zero (suc k) h h' = absurd (omega arith)
bit_xor-cancel_below zero (suc a) k h h' = absurd (omega arith)
bit_xor-cancel_below (suc n) a k h h' =
    let low = differ (a % 2) (k % 2) in
    let small : low < 2 = differ-lt-two (a % 2) (k % 2) (omega arith) (omega arith) in
    let half : bit_xor a k / 2 ≡ bit_xor (a / 2) (k / 2) =
      omega (arith, bit_xor_lowest k a, small) in
    let rest : bit_xor a k % 2 ≡ low = omega (arith, bit_xor_lowest k a, small) in
    let higher = bit_xor-cancel_below n (a / 2) (k / 2) (omega arith) (omega arith) in
    let step : bit_xor (bit_xor a k) k
        ≡ bit_xor (bit_xor (a / 2) (k / 2)) (k / 2) * 2 + differ low (k % 2) =
      rw (← half, ← rest) (bit_xor_lowest k (bit_xor a k)) in
    omega (arith, step, higher, differ-differ (a % 2) (k % 2) (omega arith) (omega arith))

pub bit_xor-cancel : (a k : ℕ) → bit_xor (bit_xor a k) k ≡ a
bit_xor-cancel a k = bit_xor-cancel_below (a + k) a k (omega arith) (omega arith)

-- On octet strings, where the second is at least as long.
pub xor_bytes-cancel : (a k : Bytes) → length a ≤ length k → xor_bytes (xor_bytes a k) k ≡ a
unfolding xor_bytes
xor_bytes-cancel [] k h = refl
xor_bytes-cancel (x ∷ a) [] h = absurd (omega arith)
xor_bytes-cancel (x ∷ a) (y ∷ k) h = rw (bit_xor-cancel x y, xor_bytes-cancel a k (omega arith))
