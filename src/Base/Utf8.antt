-- ===== src/Base/Utf8.antt =====
-- `str::from_utf8`: one octet at a time, with what is still missing of a character.
use Prim.Native.Nat.{ℕ, zero, suc, ◌+◌, ◌-◌, ◌*◌}
use mathlib.Core.Bool.{Bool, not, ◌&&◌, ◌||◌}
use mathlib.Core.Option.{Option, none, some}
use mathlib.Core.List.{[], ◌∷◌}
use pam_nps_mfa.Base.Tests.{ltb, leb, if◌then◌else◌}
use pam_nps_mfa.Base.Lists.{Bytes}
use pam_nps_mfa.Base.Text.{Text}

-- The octets to come, the value so far, and the least value that this many octets may spell.
pub record Partial : Type 0 where
  pub missing : ℕ
  pub value : ℕ
  pub least : ℕ

abbrev pub fresh : Partial
fresh = record { missing = 0; value = 0; least = 0 }

abbrev pub awaits : ℕ → ℕ → ℕ → Option (Option ℕ × Partial)
awaits missing value least = some (none, record { missing = missing; value = value; least = least })

-- The first octet of a character.
unfoldable pub lead : ℕ → Option (Option ℕ × Partial)
lead b =
    if ltb b 0x80
    then some (some b, fresh)
    else if leb 0xc0 b && ltb b 0xe0
    then awaits 1 (b - 0xc0) 0x80
    else if leb 0xe0 b && ltb b 0xf0
    then awaits 2 (b - 0xe0) 0x800
    else if leb 0xf0 b && ltb b 0xf8
    then awaits 3 (b - 0xf0) 0x10000
    else none

-- `char`'s range: Unicode scalar values
abbrev pub is_scalar : ℕ → Bool
is_scalar v = ltb v 0xd800 || leb 0xe000 v && ltb v 0x110000

-- A later octet, with how many follow it.
unfoldable pub follow : ℕ → ℕ → ℕ → ℕ → Option (Option ℕ × Partial)
follow zero value least b =
    let v = value * 64 + (b - 0x80) in
    if not (leb 0x80 b && ltb b 0xc0)
    then none
    else if ltb v least || not (is_scalar v)
    then none
    else some (some v, fresh)
follow (suc more) value least b =
    if not (leb 0x80 b && ltb b 0xc0)
    then none
    else awaits (suc more) (value * 64 + (b - 0x80)) least

unfoldable pub octet : ℕ → ℕ → ℕ → ℕ → Option (Option ℕ × Partial)
unfolding lead follow
octet zero value least b = lead b
octet (suc more) value least b = follow more value least b

abbrev pub emit : Option ℕ → Option Text → Option Text
emit _ none = none
emit none (some s) = some s
emit (some c) (some s) = some (c ∷ s)

abbrev pub at_end : ℕ → Option Text
at_end zero = some []
at_end (suc missing) = none

unfoldable pub decode : Partial → Bytes → Option Text
unfolding octet
decode p [] = at_end p.missing
decode p (b ∷ bytes) = elim (octet p.missing p.value p.least b) [
  | none ↦ none
  | some (c, p') ↦ emit c (decode p' bytes)
]

unfoldable pub from_utf8 : Bytes → Option Text
unfolding decode
from_utf8 bytes = decode fresh bytes
