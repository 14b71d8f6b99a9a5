-- ===== src/Importer/Hash.antt =====
-- The texts of hashes (src/engine/index/hash.rs). The digest is the hashing library's.
use mercury_cortex_core.Common.{
  ℕ, ◌+◌, ◌*◌, ◌/◌, ◌%◌, ◌-◌, ◌<◌, ◌≡◌, refl, ap₂, true, List, [], ◌∷◌, ltb, arith, if◌then◌else◌,
  all,
}
use mercury_cortex_core.Common.Results.{Result, ok, err}
use mercury_cortex_core.Text.{Text, codes}
use mercury_cortex_core.Search.Run.{EngineError, internal, io}

pub data ReadError (E : Type 0) : Type 0 where
  file_not_found : ReadError E
  other_error : E → ReadError E

-- A digit of `{b:02x}`.
unfoldable pub lower_hex : ℕ → ℕ
lower_hex n = if ltb n 10 then 48 + n else 87 + n

unfoldable pub hex_encode : List ℕ → Text
unfolding lower_hex
hex_encode [] = []
hex_encode (b ∷ bs) = lower_hex (b / 16) ∷ lower_hex (b % 16) ∷ hex_encode bs

module _ (sha256 : List ℕ → List ℕ) where
  unfoldable pub hash_bytes : List ℕ → Text
  unfolding hex_encode
  hash_bytes bytes = hex_encode (sha256 bytes)

  -- What reading the file gives.
  unfoldable pub hash_file :
      {E : Type 0} → Result (List ℕ) (ReadError E) → Result Text (EngineError E)
  unfolding hash_bytes
  hash_file (ok bytes) = ok (hash_bytes bytes)
  hash_file (err file_not_found) = err (internal (codes "file not found (path redacted)"))
  hash_file (err (other_error e)) = err (io e)

-- What a digit stands for, and the bytes of a text of digits.
abbrev pub digit_value : ℕ → ℕ
digit_value c = if ltb c 58 then c - 48 else c - 87

abbrev pub hex_decode : Text → List ℕ
hex_decode [] = []
hex_decode (h ∷ []) = []
hex_decode (h ∷ l ∷ t) = (16 * digit_value h + digit_value l) ∷ hex_decode t

digit_value-lower_hex : (n : ℕ) → n < 16 → digit_value (lower_hex n) ≡ n
unfolding lower_hex
digit_value-lower_hex n h = ground arith

-- The decoding of an encoded digest is the digest, so digests that differ have texts that differ.
pub hex_decode-hex_encode :
    (bs : List ℕ) → all (λ b. ltb b 256) bs ≡ true → hex_decode (hex_encode bs) ≡ bs
unfolding hex_encode
hex_decode-hex_encode [] h = refl
hex_decode-hex_encode (b ∷ bs) h =
    let below : b < 256 = ground arith in
    let high = digit_value-lower_hex (b / 16) (omega (arith, below)) in
    let low = digit_value-lower_hex (b % 16) (omega arith) in
    ap₂ (λ x xs. x ∷ xs) (omega (arith, high, low)) (hex_decode-hex_encode bs (ground arith))
