-- ===== src/NodeIds/Hex.antt =====
-- flarch/src/nodeids.rs: identifiers as hexadecimal texts. A text is the list of its bytes.
pub mod Reading
use fledger.Prelude.{
  ℕ, zero, suc, ◌+◌, ◌-◌, ◌*◌, ◌/◌, ◌%◌, Bool, true, false, not, ◌&&◌, Option, none, some, List, [],
  ◌∷◌, ◌++◌, leb, ltb, ◌==◌, if◌then◌else◌, length, take, flat_map,
}
use fledger.NodeIds.{U256, from_bytes, to_bytes}

-- A result of `from_str`, with the panic of a slice that is out of range or cuts a character.
pub data Parsed {ℓ} (A : Type ℓ) : Type ℓ where
  parsed : A → Parsed A
  hex_too_long : Parsed A
  parse_int : Parsed A
  panicked : Parsed A

-- The digit that `{:02x}` writes.
abbrev pub hex_digit : ℕ → ℕ
hex_digit d = if ltb d 10 then 48 + d else 87 + d

unfoldable pub hex_byte : ℕ → List ℕ
hex_byte b = hex_digit (b / 16) ∷ hex_digit (b % 16) ∷ []

unfoldable pub hex_bytes : List ℕ → List ℕ
unfolding hex_byte
hex_bytes bs = flat_map hex_byte bs

-- `LowerHex`.
unfoldable pub lower_hex : U256 → List ℕ
unfolding hex_bytes
lower_hex u = hex_bytes (to_bytes u)

-- `Display`, which writes the first eight bytes only.
unfoldable display : U256 → List ℕ
unfolding hex_bytes
display u = hex_bytes (take 8 (to_bytes u))

-- `Debug`, with a dash before every eight bytes but the first.
unfoldable debug_from : ℕ → List ℕ → List ℕ
unfolding hex_byte
debug_from index [] = []
debug_from index (b ∷ bs) =
    (if (index % 8 == 0) && ltb 0 index then b'-' ∷ [] else [])
    ++ (hex_byte b ++ debug_from (suc index) bs)

unfoldable debug : U256 → List ℕ
unfolding debug_from
debug u = debug_from 0 (to_bytes u)

-- A digit as `from_str_radix` reads it, of either case.
unfoldable pub digit_value : ℕ → Option ℕ
digit_value c =
    if leb 48 c && ltb c 58
    then some (c - 48)
    else if leb 97 c && ltb c 103
    then some (c - 87)
    else if leb 65 c && ltb c 71
    then some (c - 55)
    else none

-- `u8::from_str_radix` of a text of two bytes, which may start with a plus.
unfoldable pub byte_value : ℕ → ℕ → Option ℕ
unfolding digit_value
byte_value c d = if c == b'+' then digit_value d else elim (digit_value c) [
  | none ↦ none
  | some hi ↦ elim (digit_value d) [ none ↦ none | some lo ↦ some (hi * 16 + lo) ]
]

-- Whether a text can be cut before this byte.
abbrev pub is_boundary : ℕ → Bool
is_boundary c = not (leb 128 c && ltb c 192)

abbrev pub starts_char : List ℕ → Bool
starts_char [] = true
starts_char (c ∷ s) = is_boundary c

abbrev and_byte : ℕ → Parsed (List ℕ) → Parsed (List ℕ)
and_byte b (parsed bs) = parsed (b ∷ bs)
and_byte b hex_too_long = hex_too_long
and_byte b parse_int = parse_int
and_byte b panicked = panicked

-- The bytes of a text, two digits each; the first error ends it.
unfoldable pub byte_values : List ℕ → Parsed (List ℕ)
unfolding byte_value
byte_values [] = parsed []
byte_values (c ∷ []) = panicked
byte_values (c ∷ d ∷ s) = elim (is_boundary c && starts_char s) [
  | false ↦ panicked
  | true ↦ elim (byte_value c d) [ none ↦ parse_int | some b ↦ and_byte b (byte_values s) ]
]

abbrev pub zeros : ℕ → List ℕ
zeros zero = []
zeros (suc n) = 0 ∷ zeros n

-- The first bytes of an identifier, the others being zero.
abbrev pub filled : List ℕ → U256
filled bs = from_bytes (bs ++ zeros (32 - length bs))

abbrev pub to_id : Parsed (List ℕ) → Parsed U256
to_id (parsed bs) = parsed (filled bs)
to_id hex_too_long = hex_too_long
to_id parse_int = parse_int
to_id panicked = panicked

unfoldable pub from_str : List ℕ → Parsed U256
unfolding byte_values from_bytes
from_str s = if ltb 64 (length s) then hex_too_long else to_id (byte_values s)
