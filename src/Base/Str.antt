-- ===== src/Base/Str.antt =====
-- What the sources use of Rust's `str`: lines, words, trimming, and numbers.
pub mod Words
pub mod Numbers
use pam_nps_mfa.Base.Lists.{is_empty, length}
use Prim.Native.Nat.{ℕ, ◌+◌, ◌-◌, ◌*◌}
use mathlib.Core.Bool.{Bool, true, false, not, ◌&&◌, ◌||◌}
use mathlib.Core.Option.{Option, none, some}
use mathlib.Core.List.{List, [], ◌∷◌, map}
use pam_nps_mfa.Base.Tests.{ltb, leb, ◌==◌, if◌then◌else◌}
use pam_nps_mfa.Base.Text.{Text, is_whitespace}

-- Puts a character in front of the first of some texts.
abbrev pub attach : ℕ → List Text → List Text
attach c [] = (c ∷ []) ∷ []
attach c (w ∷ ws) = (c ∷ w) ∷ ws

-- `split_inclusive('\n')`
unfoldable pub split_inclusive : Text → List Text
split_inclusive [] = []
split_inclusive (c ∷ s) =
    let rest = split_inclusive s in if c == b'\n' then (c ∷ []) ∷ rest else attach c rest

-- A line with its "\n" or "\r\n" stripped.
unfoldable pub strip_eol : Text → Text
strip_eol [] = []
strip_eol (c ∷ []) = if c == b'\n' then [] else c ∷ []
strip_eol (c ∷ d ∷ []) =
    let rest = strip_eol (d ∷ []) in if c == b'\r' && d == b'\n' then [] else c ∷ rest
strip_eol (c ∷ d ∷ e ∷ s) = c ∷ strip_eol (d ∷ e ∷ s)

-- `str::lines`
unfoldable pub lines : Text → List Text
unfolding split_inclusive strip_eol
lines s = map strip_eol (split_inclusive s)

-- `&s[..i]` for the `i` of `s.find(h)`, or `s` where `h` is not in it
unfoldable pub before : ℕ → Text → Text
before h [] = []
before h (c ∷ s) = let rest = before h s in if c == h then [] else c ∷ rest

unfoldable pub trim_start : Text → Text
trim_start [] = []
trim_start (c ∷ s) = let rest = trim_start s in if is_whitespace c then rest else c ∷ s

abbrev pub keep_end : ℕ → Text → Text
keep_end c [] = if is_whitespace c then [] else c ∷ []
keep_end c (d ∷ s) = c ∷ d ∷ s

unfoldable pub trim_end : Text → Text
trim_end [] = []
trim_end (c ∷ s) = keep_end c (trim_end s)

-- `str::trim`
unfoldable pub trim : Text → Text
unfolding trim_start trim_end
trim s = trim_start (trim_end s)

abbrev pub starts_word : Text → Bool
starts_word [] = false
starts_word (c ∷ s) = not (is_whitespace c)

-- `str::split_whitespace`
unfoldable pub split_whitespace : Text → List Text
split_whitespace [] = []
split_whitespace (c ∷ s) =
    let rest = split_whitespace s in
    if is_whitespace c then rest else if starts_word s then attach c rest else (c ∷ []) ∷ rest

-- `char::to_digit` for a radix up to 16
abbrev pub to_digit : ℕ → ℕ → Option ℕ
to_digit radix c =
    let d =
      if leb b'0' c && leb c b'9'
      then c - b'0'
      else if leb b'a' c && leb c b'f'
      then c - b'a' + 10
      else if leb b'A' c && leb c b'F'
      then c - b'A' + 10
      else 16 in
    if ltb d radix then some d else none

-- Decimal digits behind `value`, none of which may take it past `limit`.
unfoldable pub from_digits : ℕ → ℕ → Text → Option ℕ
from_digits limit value [] = some value
from_digits limit value (c ∷ s) =
    let more = from_digits limit (value * 10 + (c - b'0')) s in
    if not (leb b'0' c && leb c b'9')
    then none
    else if ltb limit (value * 10 + (c - b'0'))
    then none
    else more

abbrev pub nonempty_digits : ℕ → Text → Option ℕ
nonempty_digits limit [] = none
nonempty_digits limit (c ∷ s) = from_digits limit 0 (c ∷ s)

-- `str::parse::<u32>`: a sign `+` may stand in front of the digits.
unfoldable pub u32_from_str : Text → Option ℕ
unfolding from_digits
u32_from_str [] = none
u32_from_str (c ∷ s) =
    if c == b'+' then nonempty_digits 4294967295 s else nonempty_digits 4294967295 (c ∷ s)
