-- ===== src/NodeIds/Hex/Reading.antt =====
-- flarch/src/nodeids.rs: which identifier a hexadecimal text is read as.
use mathlib.Core.List.{append-nil}
use fledger.Prelude.{
  ℕ, ◌-◌, ◌*◌, ◌/◌, ◌%◌, ◌^◌, ◌<◌, ◌≤◌, ◌≡◌, refl, ap, ◌∙◌, true, false, Bool, some, List, [], ◌∷◌,
  ◌++◌, arith, ltb, if◌then◌else◌, length, All, is_some,
}
use fledger.NodeIds.{U256, from_bytes, to_bytes}
use fledger.NodeIds.Bytes.{from_bytes-to_bytes, length-to_bytes, to_bytes-All}
use fledger.NodeIds.Hex.{
  parsed, hex_too_long, panicked, hex_digit, hex_byte, hex_bytes, lower_hex, digit_value,
  byte_value, byte_values, filled, zeros, from_str, starts_char, is_boundary, to_id,
}

digit_value-hex_digit : (d : ℕ) → d < 16 → digit_value (hex_digit d) ≡ some d
unfolding digit_value
digit_value-hex_digit d h = ground arith

hex_digit_range : (d : ℕ) → d < 16 → (48 ≤ hex_digit d) × (hex_digit d < 103)
hex_digit_range d h = ground arith

byte_value-hex_byte :
    (b : ℕ) → b < 256 → byte_value (hex_digit (b / 16)) (hex_digit (b % 16)) ≡ some b
unfolding byte_value
byte_value-hex_byte b h = ground (
  arith,
  digit_value-hex_digit (b / 16) (omega arith),
  digit_value-hex_digit (b % 16) (omega arith),
  hex_digit_range (b / 16) (omega arith),
)

starts_char-hex_bytes : (bs : List ℕ) → All (λ b. b < 256) bs → starts_char (hex_bytes bs) ≡ true
unfolding hex_bytes hex_byte
starts_char-hex_bytes [] h = refl
starts_char-hex_bytes (b ∷ bs) h = ground (arith, hex_digit_range (b / 16) (omega (arith, h.0)))

byte_values-hex_bytes :
    (bs : List ℕ) → All (λ b. b < 256) bs → byte_values (hex_bytes bs) ≡ parsed bs
unfolding byte_values hex_bytes hex_byte
byte_values-hex_bytes [] h = refl
byte_values-hex_bytes (b ∷ bs) h =
    let start : is_boundary (hex_digit (b / 16)) ≡ true =
      ground (arith, hex_digit_range (b / 16) (omega (arith, h.0))) in
    let value = byte_value-hex_byte b h.0 in
    let rest = byte_values-hex_bytes bs h.1 in
    let next = starts_char-hex_bytes bs h.1 in
    step (hex_digit (b / 16)) (hex_digit (b % 16)) b (hex_bytes bs) bs start value rest next
  where
    step :
        (c d b : ℕ) (s bs : List ℕ)
        → is_boundary c ≡ true
        → byte_value c d ≡ some b
        → byte_values s ≡ parsed bs
        → starts_char s ≡ true
        → byte_values (c ∷ d ∷ s) ≡ parsed (b ∷ bs)
    step c d b s bs start value rest next = ground arith

length-hex_bytes : (bs : List ℕ) → length (hex_bytes bs) ≡ 2 * length bs
unfolding hex_bytes hex_byte
length-hex_bytes [] = omega arith
length-hex_bytes (b ∷ bs) = omega (arith, length-hex_bytes bs)

from_str_short : (s : List ℕ) → length s ≤ 64 → from_str s ≡ to_id (byte_values s)
unfolding from_str
from_str_short s h = if_false (ltb 64 (length s)) (ground arith)
  where
    if_false :
        (b : Bool)
        → b ≡ false
        → (if b then hex_too_long else to_id (byte_values s)) ≡ to_id (byte_values s)
    if_false true e = absurd (cc)
    if_false false e = refl

-- Up to 32 bytes that are written as hexadecimal digits are read as the identifier that starts with
-- them and ends in zeros.
from_str-hex_bytes :
    (bs : List ℕ)
    → All (λ b. b < 256) bs
    → length bs ≤ 32
    → from_str (hex_bytes bs) ≡ parsed (filled bs)
from_str-hex_bytes bs h fits =
    from_str_short (hex_bytes bs) (omega (arith, length-hex_bytes bs))
    ∙ ap to_id (byte_values-hex_bytes bs h)

hex_is_boundary : (c : ℕ) → is_some (digit_value c) ≡ true → is_boundary c ≡ true
unfolding digit_value
hex_is_boundary c h = ground arith

hex_byte_value :
    (c d : ℕ)
    → is_some (digit_value c) ≡ true
    → is_some (digit_value d) ≡ true
    → is_some (byte_value c d) ≡ true
unfolding byte_value
hex_byte_value c d h k = ground arith

starts_char_digits :
    (s : List ℕ) → All (λ c. is_some (digit_value c) ≡ true) s → starts_char s ≡ true
starts_char_digits [] h = refl
starts_char_digits (c ∷ s) h = hex_is_boundary c h.0

byte_values_odd :
    (s : List ℕ)
    → All (λ c. is_some (digit_value c) ≡ true) s
    → length s % 2 ≡ 1
    → byte_values s ≡ panicked
unfolding byte_values
byte_values_odd [] h odd = absurd (omega (arith, odd))
byte_values_odd (c ∷ []) h odd = refl
byte_values_odd (c ∷ d ∷ s) h odd =
    step c d s (hex_is_boundary c h.0) (starts_char_digits s h.1.1) (hex_byte_value c d h.0 h.1.0)
      (byte_values_odd s h.1.1 (omega (arith, odd)))
  where
    step :
        (c d : ℕ) (s : List ℕ)
        → is_boundary c ≡ true
        → starts_char s ≡ true
        → is_some (byte_value c d) ≡ true
        → byte_values s ≡ panicked
        → byte_values (c ∷ d ∷ s) ≡ panicked
    step c d s start next value rest = ground arith

-- The text of `LowerHex` is read back as the identifier, a number below 256 ^ 32.
pub from_str-lower_hex : (u : U256) → u < 256 ^ 32 → from_str (lower_hex u) ≡ parsed u
unfolding lower_hex
from_str-lower_hex u small =
    from_str-hex_bytes (to_bytes u) (to_bytes-All u) (omega (arith, length-to_bytes u))
    ∙ ap (λ n. parsed (from_bytes (to_bytes u ++ zeros (32 - n)))) (length-to_bytes u)
    ∙ ap (λ bs. parsed (from_bytes bs)) (append-nil (to_bytes u))
    ∙ ap parsed (from_bytes-to_bytes u small)

-- A text with an odd number of digits, at most 64, is neither read nor refused: `from_str` panics.
pub from_str_odd :
    (s : List ℕ)
    → All (λ c. is_some (digit_value c) ≡ true) s
    → length s % 2 ≡ 1
    → length s ≤ 64
    → from_str s ≡ panicked
from_str_odd s digits odd short = from_str_short s short ∙ ap to_id (byte_values_odd s digits odd)
