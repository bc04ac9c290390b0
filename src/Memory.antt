-- ===== src/Memory.antt =====
-- Strings that `malloc` gave out, as crates/pam-ffi/src/ffi.rs handles them. What C leaves undefined
-- (a use of a freed block, a second `free`, an access out of bounds) is `none`.
pub mod Nul
pub mod Wipe
use pam_nps_mfa.Base.{
  ℕ, zero, suc, Bool, true, false, Option, none, some, List, [], ◌∷◌, Bytes, length, ◌||◌, ◌==◌,
  if◌then◌else◌,
}
use pam_nps_mfa.Base.Text.{Text, utf8}
use pam_nps_mfa.Base.Options.{◌>>=◌}

-- A block with its octets, and after `free` those that it was given back with.
pub data Cell : Type 0 where
  live freed : Bytes → Cell

-- The strings by their addresses, and whether the array of the responses is there.
pub record Memory : Type 0 where
  pub strings : ℕ → Cell
  pub array_live : Bool

abbrev pub put : ℕ → Cell → (ℕ → Cell) → ℕ → Cell
put p c strings q = if q == p then c else strings q

abbrev pub octets_of : Cell → Option Bytes
octets_of (live block) = some block
octets_of (freed block) = none

-- The octets before the terminating NUL.
unfoldable pub until_nul : Bytes → Option Bytes
until_nul [] = none
until_nul (zero ∷ block) = some []
until_nul (suc c ∷ block) = do s ← until_nul block; some (suc c ∷ s)

-- `CStr::from_ptr(p).to_bytes()`
unfoldable pub to_bytes : Memory → ℕ → Option Bytes
unfolding until_nul
to_bytes m p = do block ← octets_of (m.strings p); until_nul block

-- `ptr::write_volatile(p.add(i), 0)`
unfoldable pub write_zero : ℕ → Bytes → Option Bytes
write_zero i [] = none
write_zero zero (c ∷ block) = some (0 ∷ block)
write_zero (suc i) (c ∷ block) = do rest ← write_zero i block; some (c ∷ rest)

-- The loop of `wipe_and_free_string`, with the turns left.
unfoldable pub wipe_from : ℕ → ℕ → Bytes → Option Bytes
unfolding write_zero
wipe_from i zero block = some block
wipe_from i (suc n) block = do written ← write_zero i block; wipe_from (suc i) n written

unfoldable pub wipe_and_free_string : Memory → ℕ → Option Memory
unfolding to_bytes wipe_from
wipe_and_free_string m p = do
  block ← octets_of (m.strings p)
  s ← to_bytes m p
  wiped ← wipe_from 0 (length s) block
  some (record m { strings = put p (freed wiped) m.strings })

-- `libc::free` of the array
unfoldable pub free_array : Memory → Option Memory
free_array m = if m.array_live then some (record m { array_live = false }) else none

-- `CString::new`, on the octets
unfoldable pub has_nul : Bytes → Bool
has_nul [] = false
has_nul (b ∷ bytes) = b == 0 || has_nul bytes

unfoldable pub c_string : Text → Option Bytes
unfolding has_nul
c_string t = if has_nul (utf8 t) then none else some (utf8 t)
