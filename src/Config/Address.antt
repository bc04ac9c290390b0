-- ===== src/Config/Address.antt =====
-- The parser of addresses in Rust's standard library, as the configuration uses it. A parser takes
-- the rest of a text and returns what it read with what is left.
use pam_nps_mfa.Base.{
  ℕ, zero, suc, ◌+◌, ◌-◌, ◌*◌, ◌/◌, ◌%◌, Bool, true, false, not, ◌&&◌, ◌||◌, Option, none, some,
  List, [], ◌∷◌, ◌++◌, Bytes, length, replicate, ltb, ◌==◌, if◌then◌else◌,
}
use pam_nps_mfa.Base.Text.{Text}
use pam_nps_mfa.Base.Str.{to_digit}
use pam_nps_mfa.World.{SocketAddr, v4, v6}

abbrev pub Reader : Type 0 → Type 0
Reader A = Text → Option (A × Text)

infixl 5 ◌>>=◌ ◌>>◌
abbrev pub ◌>>=◌ : {A B : Type 0} → Reader A → (A → Reader B) → Reader B
◌>>=◌ m f s = elim (m s) [ none ↦ none | some (a, rest) ↦ f a rest ]

abbrev pub ◌>>◌ : {B : Type 0} → Reader (Unit {0}) → Reader B → Reader B
m >> k = m >>= λ _. k

abbrev pub pure : {A : Type 0} → A → Reader A
pure a s = some (a, s)

abbrev pub or_else : {A : Type 0} → Reader A → Reader A → Reader A
or_else m k s = elim (m s) [ none ↦ k s | some r ↦ some r ]

unfoldable pub given_char : ℕ → Reader (Unit {0})
given_char c [] = none
given_char c (d ∷ s) = if d == c then some (tt, s) else none

-- The digits in front.
unfoldable pub span_digits : ℕ → Text → List ℕ × Text
span_digits radix [] = ([], [])
span_digits radix (c ∷ s) =
    let rest = span_digits radix s in
    elim (to_digit radix c) [ none ↦ ([], c ∷ s) | some d ↦ (d ∷ rest.0, rest.1) ]

abbrev pub number : ℕ → ℕ → List ℕ → ℕ
number radix value [] = value
number radix value (d ∷ ds) = number radix (value * radix + d) ds

abbrev pub leading_zero : List ℕ → Bool
leading_zero (zero ∷ d ∷ ds) = true
leading_zero _ = false

-- `read_number`: `too_many` digits are refused, and a value past `limit`.
unfoldable pub read_number : ℕ → (ℕ → Bool) → Bool → ℕ → Reader ℕ
unfolding span_digits
read_number radix too_many allow_zero_prefix limit s =
    let (ds, rest) = span_digits radix s in
    if length ds == 0 || too_many (length ds)
    then none
    else if not allow_zero_prefix && leading_zero ds
    then none
    else if ltb limit (number radix 0 ds)
    then none
    else some (number radix 0 ds, rest)

abbrev pub any_count : ℕ → Bool
any_count n = false

-- `read_ipv4_addr`: four decimal octets of at most three digits, with no leading zero
unfoldable pub read_octet : Reader ℕ
unfolding read_number
read_octet = read_number 10 (ltb 3) false 255

unfoldable pub read_ipv4 : Reader Bytes
unfolding read_octet given_char
read_ipv4 = do
  a ← read_octet
  given_char b'.'
  b ← read_octet
  given_char b'.'
  c ← read_octet
  given_char b'.'
  d ← read_octet
  pure (a ∷ b ∷ c ∷ d ∷ [])

-- `read_separator`: the separator stands before all but the first.
abbrev pub separated : {A : Type 0} → ℕ → ℕ → Reader A → Reader A
separated c zero m = m
separated c (suc index) m = given_char c >> m

unfoldable pub read_group : Reader ℕ
unfolding read_number
read_group = read_number 16 (ltb 4) true 65535

-- A dotted address stands for two groups, where two are left.
abbrev pub tail_ipv4 : ℕ → ℕ → Reader Bytes
tail_ipv4 zero index s = none
tail_ipv4 (suc left) index s = separated b':' index read_ipv4 s

abbrev pub two_groups : Bytes → List ℕ
two_groups (a ∷ b ∷ c ∷ d ∷ []) = (a * 256 + b) ∷ (c * 256 + d) ∷ []
two_groups _ = []

-- `read_groups`, with the slots left and the index of the next; the groups read, and whether the
-- last two were a dotted address.
unfoldable pub read_groups : ℕ → ℕ → Text → (List ℕ × Bool) × Text
unfolding read_ipv4 read_group
read_groups zero index s = (([], false), s)
read_groups (suc left) index s = elim (tail_ipv4 left index s) [
  | some (octets, rest) ↦ ((two_groups octets, true), rest)
  | none ↦ elim (separated b':' index read_group s) [
    | none ↦ (([], false), s)
    | some (g, rest) ↦
        let ((groups, dotted), rest') = read_groups left (index + 1) rest in
        ((g ∷ groups, dotted), rest')
  ]
]

unfoldable pub group_octets : List ℕ → Bytes
group_octets [] = []
group_octets (g ∷ groups) = g / 256 ∷ g % 256 ∷ group_octets groups

-- `read_ipv6_addr`: `::` stands for the groups of zeros that are missing.
unfoldable pub read_ipv6 : Reader Bytes
unfolding read_groups group_octets
read_ipv6 s =
    let ((head, dotted), rest) = read_groups 8 0 s in
    if length head == 8
    then some (group_octets head, rest)
    else if dotted
    then none
    else (do
      given_char b':'
      given_char b':'
      λ rest'.
          let ((tail, _), rest'') = read_groups (8 - (length head + 1)) 0 rest' in
          some
            (group_octets (head ++ (replicate (8 - length head - length tail) 0 ++ tail)), rest''))
        rest

unfoldable pub read_port : Reader ℕ
unfolding read_number
read_port = do given_char b':'; read_number 10 any_count true 65535

unfoldable pub read_scope_id : Reader ℕ
unfolding read_number
read_scope_id = do given_char b'%'; read_number 10 any_count true 4294967295

-- `read_socket_addr_v4` and `read_socket_addr_v6`
unfoldable pub read_socket_v4 : Reader SocketAddr
unfolding read_ipv4 read_port
read_socket_v4 = do
  ip ← read_ipv4
  port ← read_port
  pure (record { ip = v4 ip; port = port; scope = 0 })

unfoldable pub read_socket_v6 : Reader SocketAddr
unfolding read_ipv6 read_port read_scope_id
read_socket_v6 = do
  given_char b'['
  ip ← read_ipv6
  scope ← or_else read_scope_id (pure 0)
  given_char b']'
  port ← read_port
  pure (record { ip = v6 ip; port = port; scope = scope })

-- `parse_with`: nothing may be left.
abbrev pub whole : {A : Type 0} → Option (A × Text) → Option A
whole (some (a, [])) = some a
whole _ = none

-- `str::parse::<SocketAddr>` and `str::parse::<Ipv4Addr>`
unfoldable pub socket_from_str : Text → Option SocketAddr
unfolding read_socket_v4 read_socket_v6
socket_from_str s = whole (or_else read_socket_v4 read_socket_v6 s)

unfoldable pub ipv4_from_str : Text → Option Bytes
unfolding read_ipv4
ipv4_from_str s = if ltb 15 (length s) then none else whole (read_ipv4 s)
