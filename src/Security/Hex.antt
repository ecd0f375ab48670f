-- ===== src/Security/Hex.antt =====
-- internal/v3/engine.go: engine identifiers in hexadecimal. `encoding/hex` of the standard library
-- writes lower case and reads both cases.
use go_snmpsim.Prelude.{
  ℕ, ◌+◌, ◌-◌, ◌*◌, ◌/◌, ◌%◌, ◌<◌, ◌≡◌, refl, ap, ◌&&◌, Option, none, some, [], ◌∷◌, Bytes, codes,
  is_empty, trim_space, to_lower, ltb, leb, All, arith, if◌then◌else◌,
}
use go_snmpsim.Strconv.Substrings.{trim_prefix}

abbrev hex_digit : ℕ → ℕ
hex_digit d = if ltb d 10 then b'0' + d else b'a' + (d - 10)

-- `hex.EncodeToString(s)`
unfoldable pub hex_encode : Bytes → Bytes
hex_encode [] = []
hex_encode (c ∷ s) = hex_digit (c / 16) ∷ hex_digit (c % 16) ∷ hex_encode s

abbrev hex_value : ℕ → Option ℕ
hex_value c =
    if leb b'0' c && leb c b'9'
    then some (c - b'0')
    else if leb b'a' c && leb c b'f'
    then some (c - b'a' + 10)
    else if leb b'A' c && leb c b'F'
    then some (c - b'A' + 10)
    else none

abbrev hex_byte : Option ℕ → Option ℕ → Option Bytes → Option Bytes
hex_byte none lo rest = none
hex_byte (some hi) none rest = none
hex_byte (some hi) (some lo) none = none
hex_byte (some hi) (some lo) (some rest) = some ((hi * 16 + lo) ∷ rest)

-- `hex.DecodeString(s)`
unfoldable pub hex_decode : Bytes → Option Bytes
hex_decode [] = some []
hex_decode (c ∷ []) = none
hex_decode (c ∷ d ∷ s) = hex_byte (hex_value c) (hex_value d) (hex_decode s)

abbrev or_text : Option Bytes → Bytes → Bytes
or_text none input = input
or_text (some decoded) input = decoded

-- `ParseEngineID`, which has no errors: what is not hexadecimal stands for itself.
unfoldable pub parse_engine_id : Bytes → Bytes
unfolding trim_space to_lower trim_prefix hex_decode
parse_engine_id input =
    if is_empty input
    then []
    else or_text (hex_decode (trim_prefix (to_lower (trim_space input)) (codes "0x"))) input

hex_value-digit : (d : ℕ) → d < 16 → hex_value (hex_digit d) ≡ some d
hex_value-digit d h = ground arith

-- Bytes are decoded as they were encoded.
pub hex_decode-encode : (s : Bytes) → All (λ c. c < 256) s → hex_decode (hex_encode s) ≡ some s
unfolding hex_encode hex_decode
hex_decode-encode [] h = refl
hex_decode-encode (c ∷ s) h =
    let value : c / 16 * 16 + c % 16 ≡ c = omega arith in
    rw (
      hex_value-digit (c / 16) (omega (arith, h.0)),
      hex_value-digit (c % 16) (omega arith),
      hex_decode-encode s h.1,
      value,
    )

pub hex_encode_injective :
    (s t : Bytes)
    → All (λ c. c < 256) s
    → All (λ c. c < 256) t
    → hex_encode s ≡ hex_encode t
    → s ≡ t
hex_encode_injective s t h k e = cc (hex_decode-encode s h, hex_decode-encode t k, ap hex_decode e)
