-- ===== src/Connect/Encoding.antt =====
-- The percent encoding of src/db/connect.rs.
use mercury_cortex_core.Common.{
  ℕ, ◌+◌, ◌-◌, ◌*◌, ◌/◌, ◌%◌, ◌<◌, ◌≡◌, refl, true, false, ◌||◌, [], ◌∷◌, arith, ltb, ◌==◌,
  if◌then◌else◌, all, Bool-cases, inl, inr, ap, ◌∙◌,
}
use mercury_cortex_core.Text.{Text}
use mercury_cortex_core.Connect.{percent_encode, unreserved, hex_digit}

-- A decoder of its own: `%` and two digits are a byte.
unfoldable pub digit_value : ℕ → ℕ
digit_value d = if ltb d 65 then d - 48 else d - 55

unfoldable pub decode : Text → Text
unfolding digit_value
decode [] = []
decode (c ∷ []) = c ∷ []
decode (c ∷ h ∷ []) = c ∷ h ∷ []
decode (c ∷ h ∷ l ∷ rest) = elim (c == b'%') [
  | true ↦ (digit_value h * 16 + digit_value l) ∷ decode rest
  | false ↦ c ∷ decode (h ∷ l ∷ rest)
]

digit_value-hex_digit : (n : ℕ) → n < 16 → digit_value (hex_digit n) ≡ n
unfolding digit_value hex_digit
digit_value-hex_digit n h = ground arith

decode-plain : (c : ℕ) (s : Text) → (c == b'%') ≡ false → decode (c ∷ s) ≡ c ∷ decode s
unfolding decode
decode-plain c [] h = refl
decode-plain c (x ∷ []) h = refl
decode-plain c (x ∷ y ∷ s) h = rw (decode, h)

not_percent : (b : ℕ) → unreserved b ≡ true → (b == b'%') ≡ false
unfolding unreserved
not_percent b h = ground arith

-- The decoding of an encoded text of bytes is the text.
pub decode-percent_encode :
    (s : Text) → all (λ b. ltb b 256) s ≡ true → decode (percent_encode s) ≡ s
unfolding percent_encode decode
decode-percent_encode [] h = refl
decode-percent_encode (b ∷ bs) h = elim (Bool-cases (unreserved b)) [
  | inl u ↦
      rw (percent_encode, u)
        (decode-plain b (percent_encode bs) (not_percent b u)
          ∙ ap (◌∷◌ b) (decode-percent_encode bs (ground arith)))
  | inr u ↦
      let bound : b < 256 = ground arith in
      let high = digit_value-hex_digit (b / 16) (omega (arith, bound)) in
      let low = digit_value-hex_digit (b % 16) (omega arith) in
      let value : (b / 16) * 16 + b % 16 ≡ b = omega arith in
      rw (percent_encode, u, decode, high, low, value)
        (ap (◌∷◌ b) (decode-percent_encode bs (ground arith)))
]

hex_digit-unreserved : (n : ℕ) → n < 16 → unreserved (hex_digit n) ≡ true
unfolding unreserved hex_digit
hex_digit-unreserved n h = ground arith

-- An encoded text has no other characters than the unreserved ones and the percent sign, so none that
-- separates the parameters of a connection text.
pub percent_encode-safe :
    (s : Text)
    → all (λ b. ltb b 256) s ≡ true
    → all (λ b. unreserved b || b == b'%') (percent_encode s) ≡ true
unfolding percent_encode
percent_encode-safe [] h = refl
percent_encode-safe (b ∷ bs) h = elim (Bool-cases (unreserved b)) [
  | inl u ↦ ground (arith, percent_encode-safe bs)
  | inr u ↦
      let bound : b < 256 = ground arith in
      let high = hex_digit-unreserved (b / 16) (omega (arith, bound)) in
      let low = hex_digit-unreserved (b % 16) (omega arith) in
      ground (arith, percent_encode-safe bs)
]
