-- ===== src/Protocol/Hex/RoundTrip.antt =====
-- The text of an id (src/protocol.cpp), printed and then read.
use tradep2p.Base.{
  ℕ, ◌+◌, ◌*◌, ◌/◌, ◌%◌, ◌<◌, ◌≡◌, refl, List, [], ◌∷◌, length, arith, ok, bind-eq-ok,
}
use mathlib.Core.Option.{some}
use tradep2p.Protocol.Wire.Bytes.{IsBytes, IsArray}
use tradep2p.Protocol.Validate.{validate_nonzero_id}
use tradep2p.Protocol.Hex.{
  hex_value, hex_digit, bytes_to_hex, id_to_hex, byte_of_digits, bytes_from_hex, id_from_hex,
}

hex_value-hex_digit : (n : ℕ) → n < 16 → hex_value (hex_digit n) ≡ some n
unfolding hex_value hex_digit
hex_value-hex_digit n h = ground arith

pub length-bytes_to_hex : (id : List ℕ) → length (bytes_to_hex id) ≡ length id * 2
unfolding bytes_to_hex
length-bytes_to_hex [] = refl
length-bytes_to_hex (x ∷ xs) = omega (arith, length-bytes_to_hex xs)

pub bytes_from_hex-bytes_to_hex :
    (id : List ℕ) → IsBytes id → bytes_from_hex (bytes_to_hex id) ≡ ok id
unfolding bytes_from_hex bytes_to_hex byte_of_digits
bytes_from_hex-bytes_to_hex [] h = refl
bytes_from_hex-bytes_to_hex (x ∷ xs) h =
    let small : x < 256 = h.0 in
    let whole : x / 16 * 16 + x % 16 ≡ x = omega arith in
    rw
      (
        hex_value-hex_digit (x / 16) (omega arith),
        hex_value-hex_digit (x % 16) (omega arith),
        bytes_from_hex-bytes_to_hex xs h.1,
      )
      (rw whole refl)

-- If an array of n bytes can be printed as hexadecimal text, the text has two characters for each
-- byte and is read back as the array.
pub id_from_hex-id_to_hex :
    (n : ℕ) (id : List ℕ) {text : List ℕ}
    → IsArray n id
    → id_to_hex id ≡ ok text
    → (length text ≡ n * 2) × (id_from_hex n text ≡ ok id)
unfolding id_to_hex id_from_hex
id_from_hex-id_to_hex n id {text} r e =
    let (u, nonzero, p) = bind-eq-ok (validate_nonzero_id id) _ e in
    let same : bytes_to_hex id ≡ text = ground arith in
    let size = length-bytes_to_hex id in
    (
      rw (← same) (omega (arith, r.size)),
      rw (← same) (ground (arith, r.size, bytes_from_hex-bytes_to_hex id r.bytes)),
    )
