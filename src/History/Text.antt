-- ===== src/History/Text.antt =====
-- The fingerprints and hashes of src/history.cpp as hexadecimal text. Its hex_value, bytes_to_hex and
-- bytes_from_hex are copies of the functions of src/protocol.cpp.
use tradep2p.Base.{
  ℕ, ◌≡◌, true, ok, arith, List, not, ◌==◌, length, Result, throw_if, invalid_argument,
}
use tradep2p.Base.Outcome.{◌>>◌}
use tradep2p.Protocol.Hex.{id_to_hex, id_from_hex, bytes_to_hex, bytes_from_hex}
use tradep2p.Protocol.Hex.RoundTrip.{length-bytes_to_hex, bytes_from_hex-bytes_to_hex}
use tradep2p.Protocol.Wire.Bytes.{IsArray}

abbrev fingerprint_to_hex : List ℕ → Result (List ℕ)
fingerprint_to_hex fingerprint = id_to_hex fingerprint

abbrev fingerprint_from_hex : List ℕ → Result (List ℕ)
fingerprint_from_hex text = id_from_hex 32 text

abbrev evidence_hash_to_hex : List ℕ → List ℕ
evidence_hash_to_hex hash = bytes_to_hex hash

abbrev evidence_hash_from_hex : List ℕ → Result (List ℕ)
evidence_hash_from_hex text = do
  throw_if (not (length text == 64)) invalid_argument
  bytes_from_hex text

-- The text of a hash is read back, the zero hash included.
evidence_hash_from_hex-evidence_hash_to_hex :
    (hash : List ℕ) → IsArray 32 hash → evidence_hash_from_hex (evidence_hash_to_hex hash) ≡ ok hash
evidence_hash_from_hex-evidence_hash_to_hex hash a =
    let size = length-bytes_to_hex hash in
    let digits = a.size in
    let whole : (length (bytes_to_hex hash) == 64) ≡ true = ground arith in
    rw whole (bytes_from_hex-bytes_to_hex hash a.bytes)
