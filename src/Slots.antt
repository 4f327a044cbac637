-- ===== src/Slots.antt =====
-- The 32-byte slots of Solidity's abi.encode, as packages/shared/src/epoch.ts and
-- packages/shared/src/price.ts build them. A byte array is the list of its bytes.
pub mod Laws
use aurka.Prelude.{
  ℕ, zero, suc, ◌+◌, ◌-◌, ◌*◌, ◌/◌, ◌%◌, List, [], ◌∷◌, ◌++◌, not, Result, ok, ◌>>=◌, ◌>>◌,
  throw_if, ltb, leb, if◌then◌else◌,
}
use aurka.Prelude.Text.{Text, is_digit}
use aurka.Errors.{Error, not_bytes32, not_address}
use aurka.Financial.Integer.{IntegerLike, to_uint256}
use aurka.Price.{is_bytes32, is_address}

abbrev pub hex_digit : ℕ → ℕ
hex_digit d = if ltb d 10 then b'0' + d else b'a' + (d - 10)

-- Number.parseInt of one hexadecimal digit; every string that reaches it has passed a test that
-- allows no other character.
abbrev pub hex_value : ℕ → ℕ
hex_value c = if is_digit c then c - b'0' else if leb b'a' c then c - b'a' + 10 else c - b'A' + 10

-- "0x" and two digits for each byte, without the prefix.
unfoldable pub byte_digits : List ℕ → Text
byte_digits [] = []
byte_digits (b ∷ bs) = hex_digit (b / 16) ∷ hex_digit (b % 16) ∷ byte_digits bs

unfoldable pub bytes_to_hex : List ℕ → Text
unfolding byte_digits
bytes_to_hex bytes = b'0' ∷ b'x' ∷ byte_digits bytes

-- `value.match(/.{2}/g)`, each pair parsed: a digit left over at the end is dropped.
unfoldable pub hex_to_bytes : Text → List ℕ
hex_to_bytes [] = []
hex_to_bytes (c ∷ []) = []
hex_to_bytes (c ∷ d ∷ s) = (hex_value c * 16 + hex_value d) ∷ hex_to_bytes s

-- value.slice(2)
abbrev pub slice_2 : Text → Text
slice_2 [] = []
slice_2 (c ∷ []) = []
slice_2 (c ∷ d ∷ s) = s

-- `value.toString(16).padStart(width, "0")`, for a value below 16 to the width.
unfoldable pub padded_hex : ℕ → ℕ → Text
padded_hex zero value = []
padded_hex (suc width) value = padded_hex width (value / 16) ++ (hex_digit (value % 16) ∷ [])

abbrev pub zeros : ℕ → Text
zeros zero = []
zeros (suc n) = b'0' ∷ zeros n

-- `bytes32` and `hexSlot`.
unfoldable pub bytes32_slot : Text → Result Error (List ℕ)
bytes32_slot value = do
  throw_if (not (is_bytes32 value)) not_bytes32
  ok (hex_to_bytes (slice_2 value))

-- `uint256` and `uintSlot`.
unfoldable pub uint_slot : IntegerLike → Result Error (List ℕ)
uint_slot value = do result ← to_uint256 value; ok (hex_to_bytes (padded_hex 64 result))

-- The digits of an address are 40, so that padding to 64 adds 24 zeros.
unfoldable pub address_slot : Text → Result Error (List ℕ)
address_slot value = do
  throw_if (not (is_address value)) not_address
  ok (hex_to_bytes (zeros 24 ++ slice_2 value))

-- The slots have 32 bytes each, so that writing each at its offset appends it.
unfoldable pub concat_slots : List (List ℕ) → List ℕ
concat_slots [] = []
concat_slots (slot ∷ rest) = slot ++ concat_slots rest
