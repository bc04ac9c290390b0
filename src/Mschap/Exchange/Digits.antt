-- ===== src/Mschap/Exchange/Digits.antt =====
-- The hexadecimal digits of crypto.rs, and its UTF-16, against those of RFC 2759.
use pam_nps_mfa.Base.{
  ℕ, zero, suc, ◌+◌, ◌-◌, ◌*◌, ◌/◌, ◌%◌, ◌<◌, ◌≡◌, refl, ap, arith, true, false, not, inl, inr,
  some, Option-cases, [], ◌∷◌, ◌++◌, Bytes, length, ltb, leb, ◌==◌, bytes_eq, bytes_eq_iff,
  Bool-cases, if◌then◌else◌,
}
use mathlib.Core.Option.{bind}
use pam_nps_mfa.Base.Words.{IsBytes}
use pam_nps_mfa.Base.Text.{Text, text, encode_utf16}
use pam_nps_mfa.Mschap.Vsa.{all_hex, is_ascii_hexdigit, upper_all, to_ascii_uppercase}
use pam_nps_mfa.Mschap.Crypto.{
  hex_digit, upper_hex, hex_val, hex_pairs, hex_decode_20, decode_s_value, le_bytes,
}
use pam_nps_mfa.Mschap.Exchange.Rfc2759.{unicode, nibble, hexadecimal}

pub le_bytes-unicode : (s : Text) → le_bytes (encode_utf16 s) ≡ unicode s
unfolding le_bytes encode_utf16
le_bytes-unicode [] = refl
le_bytes-unicode (c ∷ s) = elim (Bool-cases (ltb c 0x10000)) [
  | inl b ↦ rw (b, le_bytes-unicode s) refl
  | inr b ↦ rw (b, le_bytes-unicode s) refl
]

hex_digit-nibble : (n : ℕ) → n < 16 → hex_digit n ≡ nibble n
unfolding hex_digit
hex_digit-nibble zero h = refl
hex_digit-nibble (suc zero) h = refl
hex_digit-nibble (suc (suc zero)) h = refl
hex_digit-nibble (suc (suc (suc zero))) h = refl
hex_digit-nibble (suc (suc (suc (suc zero)))) h = refl
hex_digit-nibble (suc (suc (suc (suc (suc zero))))) h = refl
hex_digit-nibble (suc (suc (suc (suc (suc (suc zero)))))) h = refl
hex_digit-nibble (suc (suc (suc (suc (suc (suc (suc zero))))))) h = refl
hex_digit-nibble (suc (suc (suc (suc (suc (suc (suc (suc zero)))))))) h = refl
hex_digit-nibble (suc (suc (suc (suc (suc (suc (suc (suc (suc zero))))))))) h = refl
hex_digit-nibble (suc (suc (suc (suc (suc (suc (suc (suc (suc (suc zero)))))))))) h = refl
hex_digit-nibble (suc (suc (suc (suc (suc (suc (suc (suc (suc (suc (suc zero))))))))))) h = refl
hex_digit-nibble (suc (suc (suc (suc (suc (suc (suc (suc (suc (suc (suc (suc zero)))))))))))) h =
    refl
hex_digit-nibble (suc (suc (suc (suc (suc (suc (suc (suc (suc (suc (suc (suc (suc zero)))))))))))))
      h =
    refl
hex_digit-nibble
      (suc (suc (suc (suc (suc (suc (suc (suc (suc (suc (suc (suc (suc (suc zero)))))))))))))) h =
    refl
hex_digit-nibble
      (suc (suc (suc (suc (suc (suc (suc (suc (suc (suc (suc (suc (suc (suc (suc zero)))))))))))))))
      h =
    refl
hex_digit-nibble
      (suc
        (suc (suc (suc (suc (suc (suc (suc (suc (suc (suc (suc (suc (suc (suc (suc n))))))))))))))))
      h =
    absurd (omega arith)

hex_val-nibble : (n : ℕ) → n < 16 → hex_val (nibble n) ≡ some n
unfolding hex_val
hex_val-nibble n h = ground arith

pub upper_hex-hexadecimal : (bs : Bytes) → IsBytes bs → upper_hex bs ≡ hexadecimal bs
unfolding upper_hex
upper_hex-hexadecimal [] h = refl
upper_hex-hexadecimal (b ∷ bs) (l, h) =
    rw
      (
        hex_digit-nibble (b / 16) (omega arith),
        hex_digit-nibble (b % 16) (omega arith),
        upper_hex-hexadecimal bs h,
      )
      refl

pub length-hexadecimal : (bs : Bytes) → length (hexadecimal bs) ≡ length bs * 2
length-hexadecimal [] = refl
length-hexadecimal (b ∷ bs) = omega (arith, length-hexadecimal bs)

pub hex_pairs-hexadecimal : (bs : Bytes) → IsBytes bs → hex_pairs (hexadecimal bs) ≡ some bs
unfolding hex_pairs bind
hex_pairs-hexadecimal [] h = refl
hex_pairs-hexadecimal (b ∷ bs) (l, h) =
    let hi = hex_val-nibble (b / 16) (omega arith) in
    let lo = hex_val-nibble (b % 16) (omega arith) in
    let whole : b / 16 * 16 + b % 16 ≡ b = omega arith in
    rw (hi, lo, hex_pairs-hexadecimal bs h) (ap (λ x. some (x ∷ bs)) whole)

-- What a digit in either case stands for.
record IsDigit (c : ℕ) : Type 0 where
  value : ℕ
  fits : value < 16
  upper : to_ascii_uppercase c ≡ nibble value

is_ascii_hexdigit-IsDigit : (c : ℕ) → is_ascii_hexdigit c ≡ true → IsDigit c
unfolding is_ascii_hexdigit to_ascii_uppercase
is_ascii_hexdigit-IsDigit c h = record {
  value = if leb c b'9' then c - 48 else if leb c b'F' then c - 55 else c - 87;
  fits = ground arith;
  upper = ground arith;
}

-- The octets that an even number of digits stands for are written with these digits.
pub hex_pairs-upper_all :
    (k : ℕ) (digits bs : Bytes)
    → length digits ≡ k + k
    → all_hex digits ≡ true
    → hex_pairs (upper_all digits) ≡ some bs
    → hexadecimal bs ≡ upper_all digits
unfolding hex_pairs upper_all all_hex bind
hex_pairs-upper_all k [] bs size hex e = let nothing : [] ≡ bs = cc in rw (← nothing) refl
hex_pairs-upper_all zero (x ∷ digits) bs size hex e = absurd (omega arith)
hex_pairs-upper_all (suc k) (x ∷ []) bs size hex e = absurd (omega arith)
hex_pairs-upper_all (suc k) (x ∷ y ∷ digits) bs size hex e =
    let dx = is_ascii_hexdigit-IsDigit x (ground arith) in
    let dy = is_ascii_hexdigit-IsDigit y (ground arith) in
    let more : all_hex digits ≡ true = ground arith in
    elim (Option-cases (hex_pairs (upper_all digits))) [
      | inl n ↦ absurd (
          cc (
            rw
              (
                dx.upper,
                dy.upper,
                hex_val-nibble dx.value dx.fits,
                hex_val-nibble dy.value dy.fits,
                n,
              )
              at e))
      | inr (rest, n) ↦
          let one : (dx.value * 16 + dy.value) ∷ rest ≡ bs = cc (
            rw
              (
                dx.upper,
                dy.upper,
                hex_val-nibble dx.value dx.fits,
                hex_val-nibble dy.value dy.fits,
                n,
              )
              at e) in
          let fx = dx.fits in
          let fy = dy.fits in
          let hi : (dx.value * 16 + dy.value) / 16 ≡ dx.value = omega arith in
          let lo : (dx.value * 16 + dy.value) % 16 ≡ dy.value = omega arith in
          rw (← one, hi, lo, dx.upper, dy.upper)
            (ap (λ o. nibble dx.value ∷ nibble dy.value ∷ o)
              (hex_pairs-upper_all k digits rest (omega arith) more n))
    ]

pub decode_s_value-hex_pairs :
    (digits : Bytes) → length digits ≡ 40 → decode_s_value (text "S=" ++ digits) ≡ hex_pairs digits
unfolding decode_s_value hex_decode_20
decode_s_value-hex_pairs digits size =
    let prefix : bytes_eq (text "S=") (text "S=") ≡ true =
      (bytes_eq_iff (text "S=") (text "S=")).1 refl in
    let forty : not (length digits == 40) ≡ false = ground arith in rw (prefix, forty) refl

pub length-upper_all : (digits : Bytes) → length (upper_all digits) ≡ length digits
unfolding upper_all
length-upper_all [] = refl
length-upper_all (x ∷ digits) = omega (arith, length-upper_all digits)
