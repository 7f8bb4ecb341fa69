-- ===== src/Protocol/Validate.antt =====
-- The validators of src/protocol.cpp. Each throws or returns nothing.
use tradep2p.Base.{
  ℕ, List, [], ◌∷◌, Bool, true, false, ◌&&◌, ◌||◌, not, length, all, ltb, leb, ◌==◌, bytes_eq,
  if◌then◌else◌, Result, ok, err, throw_if, invalid_argument,
}
use tradep2p.Base.Outcome.{◌>>◌}
use tradep2p.Protocol.Types.{
  Party, TradeTerms, FeeTerms, RegistryNode, protocol_version, max_asset_code_length,
  max_address_length, max_reason_length, max_node_host_length, max_rounds, registry_ttl_seconds,
}

abbrev pub is_empty : List ℕ → Bool
is_empty [] = true
is_empty (x ∷ xs) = false

unfoldable pub validate_party : Party → Result (Unit {0})
validate_party Party.a = ok tt
validate_party Party.b = ok tt
validate_party (Party.unnamed n) = err invalid_argument

-- `for (c : text) if (!allowed(c)) throw ...;`
unfoldable pub check_each : (ℕ → Bool) → List ℕ → Result (Unit {0})
check_each allowed [] = ok tt
check_each allowed (c ∷ cs) = throw_if (not (allowed c)) invalid_argument >> check_each allowed cs

-- std::isalnum in the "C" locale.
unfoldable pub is_alnum : ℕ → Bool
is_alnum c = (leb b'0' c && leb c b'9') || (leb b'A' c && leb c b'Z') || (leb b'a' c && leb c b'z')

abbrev pub is_asset_char : ℕ → Bool
unfolding is_alnum
is_asset_char c = is_alnum c || c == b'.' || c == b'_' || c == b'-'

unfoldable pub validate_asset : List ℕ → Result (Unit {0})
validate_asset asset = do
  throw_if (is_empty asset || ltb max_asset_code_length (length asset)) invalid_argument
  check_each is_asset_char asset

abbrev pub is_printable : Bool → ℕ → Bool
is_printable allow_spaces c = (leb 0x21 c && leb c 0x7e) || (allow_spaces && c == 0x20)

unfoldable pub validate_printable : List ℕ → ℕ → Bool → Result (Unit {0})
validate_printable value maximum allow_spaces = do
  throw_if (is_empty value || ltb maximum (length value)) invalid_argument
  check_each (is_printable allow_spaces) value

unfoldable pub validate_nonzero_id : List ℕ → Result (Unit {0})
validate_nonzero_id id = throw_if (all (λ byte. byte == 0) id) invalid_argument

unfoldable pub validate_address : List ℕ → Result (Unit {0})
validate_address address = validate_printable address max_address_length false

unfoldable pub validate_reason : List ℕ → Result (Unit {0})
validate_reason text = validate_printable text max_reason_length true

unfoldable pub validate_room_id : List ℕ → Result (Unit {0})
validate_room_id room_id = validate_nonzero_id room_id

unfoldable pub validate_client_id : List ℕ → Result (Unit {0})
validate_client_id client_id = validate_nonzero_id client_id

unfoldable pub validate_invite_id : List ℕ → Result (Unit {0})
validate_invite_id invite_id = validate_nonzero_id invite_id

unfoldable pub validate_certificate_pin : List ℕ → Result (Unit {0})
validate_certificate_pin pin = validate_nonzero_id pin

unfoldable pub validate_terms : TradeTerms → Result (Unit {0})
validate_terms terms = do
  throw_if (not (terms.version == protocol_version)) invalid_argument
  validate_asset terms.asset_a
  validate_asset terms.asset_b
  throw_if (bytes_eq terms.asset_a terms.asset_b) invalid_argument
  throw_if (terms.total_a == 0 || terms.total_b == 0) invalid_argument
  throw_if (terms.rounds == 0 || ltb max_rounds terms.rounds) invalid_argument
  throw_if (ltb terms.total_a terms.rounds || ltb terms.total_b terms.rounds) invalid_argument
  validate_party terms.first_sender

unfoldable pub validate_fee_terms : FeeTerms → Result (Unit {0})
validate_fee_terms fee =
    if fee.amount == 0
    then throw_if (not (is_empty fee.asset) || not (is_empty fee.address)) invalid_argument
    else (validate_asset fee.asset >> validate_address fee.address)

unfoldable pub validate_registry_node : RegistryNode → Bool → Result (Unit {0})
validate_registry_node node require_ttl = do
  validate_printable node.host max_node_host_length false
  throw_if (node.port == 0) invalid_argument
  validate_certificate_pin node.certificate_pin
  throw_if
      (require_ttl
        && (node.remaining_ttl_seconds == 0 || ltb registry_ttl_seconds node.remaining_ttl_seconds))
      invalid_argument
  throw_if (not require_ttl && not (is_empty node.source_registry)) invalid_argument
  if is_empty node.source_registry
      then ok tt
      else validate_printable node.source_registry max_node_host_length false

-- Welcome and Q7933BlindSigTicketPoll, the first and the last of the numbers.
unfoldable pub validate_message_type : ℕ → Result (Unit {0})
validate_message_type value = throw_if (ltb value 1 || ltb 49 value) invalid_argument
