-- ===== src/Protocol/Examples/Hex.antt =====
-- A room id as text (src/protocol.cpp).
use tradep2p.Base.{ℕ, ◌*◌, ◌≡◌, refl, List, ok, length, replicate, arith}
use tradep2p.Protocol.Wire.Bytes.{replicate-IsArray}
use tradep2p.Protocol.Validate.{validate_nonzero_id}
use tradep2p.Protocol.Hex.{hex_digit, bytes_to_hex, id_to_hex, id_from_hex}
use tradep2p.Protocol.Hex.RoundTrip.{id_from_hex-id_to_hex}
use tradep2p.Protocol.Examples.{bytes_of}

abbrev id : List ℕ
id = replicate 32 171

abbrev text : List ℕ
text = bytes_of (id_to_hex id)

id_printed : id_to_hex id ≡ ok text
unfolding id_to_hex bytes_to_hex hex_digit validate_nonzero_id
id_printed = refl

id_from_hex-id_to_hex_example : (length text ≡ 32 * 2) × (id_from_hex 32 text ≡ ok id)
id_from_hex-id_to_hex_example =
    id_from_hex-id_to_hex 32 id (replicate-IsArray 32 171 (omega arith)) id_printed
