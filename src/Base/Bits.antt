-- ===== src/Base/Bits.antt =====
-- Exclusive or on octet strings, and shifts of one octet.
pub mod Cancel
pub mod Mask
use Prim.Native.Nat.{ℕ, ◌*◌, ◌/◌, ◌%◌, ◌^◌, bit_xor}
use mathlib.Core.List.{[], ◌∷◌}
use pam_nps_mfa.Base.Lists.{Bytes}

-- `*dst = p ^ k` over two zipped octet strings
unfoldable pub xor_bytes : Bytes → Bytes → Bytes
xor_bytes (p ∷ ps) (k ∷ ks) = bit_xor p k ∷ xor_bytes ps ks
xor_bytes [] _ = []
xor_bytes (p ∷ ps) [] = []

-- `x << k` and `x >> k` on an octet
abbrev pub shl8 : ℕ → ℕ → ℕ
shl8 x k = x * 2 ^ k % 256

abbrev pub shr8 : ℕ → ℕ → ℕ
shr8 x k = x / 2 ^ k
