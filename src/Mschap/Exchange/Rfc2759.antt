-- ===== src/Mschap/Exchange/Rfc2759.antt =====
-- The authenticator response of RFC 2759, section 8.7, as a server computes it from the password and
-- from the two attributes of a request, whose layout is that of RFC 2548, sections 2.3.2 and 2.3.3.
use pam_nps_mfa.Base.{ℕ, ◌+◌, ◌-◌, ◌/◌, ◌%◌, [], ◌∷◌, ◌++◌, Bytes, ltb, slice, drop, if◌then◌else◌}
use pam_nps_mfa.Base.Text.{Text}
use pam_nps_mfa.Primitives.{Primitives}

-- The octets of "Magic server to client signing constant", as the RFC lists them.
abbrev pub signing_constant : Bytes
signing_constant =
    0x4d ∷ 0x61 ∷ 0x67 ∷ 0x69 ∷ 0x63 ∷ 0x20 ∷ 0x73 ∷ 0x65 ∷ 0x72 ∷ 0x76 ∷ 0x65 ∷ 0x72 ∷ 0x20 ∷ 0x74
    ∷ 0x6f ∷ 0x20 ∷ 0x63 ∷ 0x6c ∷ 0x69 ∷ 0x65 ∷ 0x6e ∷ 0x74 ∷ 0x20 ∷ 0x73 ∷ 0x69 ∷ 0x67 ∷ 0x6e
    ∷ 0x69 ∷ 0x6e ∷ 0x67 ∷ 0x20 ∷ 0x63 ∷ 0x6f ∷ 0x6e ∷ 0x73 ∷ 0x74 ∷ 0x61 ∷ 0x6e ∷ 0x74 ∷ []

-- Those of "Pad to make it do more than one iteration".
abbrev pub iteration_pad : Bytes
iteration_pad =
    0x50 ∷ 0x61 ∷ 0x64 ∷ 0x20 ∷ 0x74 ∷ 0x6f ∷ 0x20 ∷ 0x6d ∷ 0x61 ∷ 0x6b ∷ 0x65 ∷ 0x20 ∷ 0x69 ∷ 0x74
    ∷ 0x20 ∷ 0x64 ∷ 0x6f ∷ 0x20 ∷ 0x6d ∷ 0x6f ∷ 0x72 ∷ 0x65 ∷ 0x20 ∷ 0x74 ∷ 0x68 ∷ 0x61 ∷ 0x6e
    ∷ 0x20 ∷ 0x6f ∷ 0x6e ∷ 0x65 ∷ 0x20 ∷ 0x69 ∷ 0x74 ∷ 0x65 ∷ 0x72 ∷ 0x61 ∷ 0x74 ∷ 0x69 ∷ 0x6f
    ∷ 0x6e ∷ []

-- A unit of 16 bits, the low octet first, before what follows.
abbrev unit_before : ℕ → Bytes → Bytes
unit_before u behind = u % 256 ∷ u / 256 ∷ behind

-- The password in UTF-16, little-endian.
abbrev pub unicode : Text → Bytes
unicode [] = []
unicode (c ∷ s) =
    if ltb c 0x10000
    then unit_before c (unicode s)
    else unit_before (0xd800 + (c - 0x10000) / 1024)
        (unit_before (0xdc00 + (c - 0x10000) % 1024) (unicode s))

-- A hexadecimal digit is a number, or a letter in upper case.
abbrev pub nibble : ℕ → ℕ
nibble n = if ltb n 10 then 48 + n else 55 + n

abbrev pub hexadecimal : Bytes → Bytes
hexadecimal [] = []
hexadecimal (b ∷ bs) = nibble (b / 16) ∷ nibble (b % 16) ∷ hexadecimal bs

-- The fields of the attribute values, behind the vendor, the type and the length.
abbrev pub challenge_in : Bytes → Bytes
challenge_in ms_chap_challenge = drop 6 ms_chap_challenge

abbrev pub peer_challenge_in : Bytes → Bytes
peer_challenge_in ms_chap2_response = slice 8 24 ms_chap2_response

abbrev pub nt_response_in : Bytes → Bytes
nt_response_in ms_chap2_response = slice 32 56 ms_chap2_response

-- What the server sends back as its proof.
abbrev pub authenticator_digest : Primitives → Text → Bytes → Bytes → Bytes → Bytes
authenticator_digest c password username ms_chap_challenge ms_chap2_response =
    let password_hash_hash = c.md4 (c.md4 (unicode password)) in
    let signed =
      c.sha1 (password_hash_hash ++ (nt_response_in ms_chap2_response ++ signing_constant)) in
    let hashed =
      c.sha1
        (peer_challenge_in ms_chap2_response ++ (challenge_in ms_chap_challenge ++ username)) in
    c.sha1 (signed ++ (slice 0 8 hashed ++ iteration_pad))
