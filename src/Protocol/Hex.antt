-- ===== src/Protocol/Hex.antt =====
-- Ids as hexadecimal text: hex_value, id_to_hex and id_from_hex of src/protocol.cpp, and the pairs
-- of functions for the four kinds of id.
use tradep2p.Base.{
  ℕ, zero, suc, ◌+◌, ◌*◌, ◌/◌, ◌%◌, ◌-◌, List, [], ◌∷◌, Bool, true, false, ◌&&◌, not, ◌==◌, leb,
  length, if◌then◌else◌, Result, ok, err, bind, throw_if, invalid_argument,
}
use tradep2p.Base.Outcome.{◌>>◌}
use mathlib.Core.Option.{Option, none, some}
use tradep2p.Protocol.Validate.{validate_nonzero_id}
pub mod RoundTrip

-- `none` stands for -1.
unfoldable pub hex_value : ℕ → Option ℕ
hex_value c =
    if leb b'0' c && leb c b'9'
    then some (c - b'0')
    else (if leb b'a' c && leb c b'f'
        then some (c - b'a' + 10)
        else (if leb b'A' c && leb c b'F' then some (c - b'A' + 10) else none))

-- One digit of `std::hex`.
unfoldable pub hex_digit : ℕ → ℕ
hex_digit n = if leb n 9 then b'0' + n else b'a' + (n - 10)

-- The loop of id_to_hex: two digits for each byte, filled up with '0'.
unfoldable pub bytes_to_hex : List ℕ → List ℕ
bytes_to_hex [] = []
bytes_to_hex (byte ∷ rest) = hex_digit (byte / 16) ∷ hex_digit (byte % 16) ∷ bytes_to_hex rest

unfoldable pub id_to_hex : List ℕ → Result (List ℕ)
id_to_hex id = do validate_nonzero_id id; ok (bytes_to_hex id)

-- `(high << 4) | low`, if both are digits.
unfoldable pub byte_of_digits : Option ℕ → Option ℕ → Result ℕ
byte_of_digits (some high) (some low) = ok (high * 16 + low)
byte_of_digits _ _ = err invalid_argument

-- The loop of id_from_hex, over a text of even length.
unfoldable pub bytes_from_hex : List ℕ → Result (List ℕ)
bytes_from_hex (high ∷ low ∷ rest) =
    let result = bytes_from_hex rest in
    bind (byte_of_digits (hex_value high) (hex_value low))
      (λ byte. bind result (λ bytes. ok (byte ∷ bytes)))
bytes_from_hex _ = ok []

unfoldable pub id_from_hex : ℕ → List ℕ → Result (List ℕ)
id_from_hex n text = do
  throw_if (not (length text == n * 2)) invalid_argument
  bind (bytes_from_hex text) (λ result. validate_nonzero_id result >> ok result)

abbrev pub room_id_to_hex : List ℕ → Result (List ℕ)
room_id_to_hex id = id_to_hex id

abbrev pub room_id_from_hex : List ℕ → Result (List ℕ)
room_id_from_hex text = id_from_hex 32 text

abbrev pub client_id_to_hex : List ℕ → Result (List ℕ)
client_id_to_hex id = id_to_hex id

abbrev pub client_id_from_hex : List ℕ → Result (List ℕ)
client_id_from_hex text = id_from_hex 16 text

abbrev pub invite_id_to_hex : List ℕ → Result (List ℕ)
invite_id_to_hex id = id_to_hex id

abbrev pub invite_id_from_hex : List ℕ → Result (List ℕ)
invite_id_from_hex text = id_from_hex 16 text

abbrev pub certificate_pin_to_hex : List ℕ → Result (List ℕ)
certificate_pin_to_hex pin = id_to_hex pin

abbrev pub certificate_pin_from_hex : List ℕ → Result (List ℕ)
certificate_pin_from_hex text = id_from_hex 32 text
