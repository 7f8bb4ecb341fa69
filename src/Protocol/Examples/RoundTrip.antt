-- ===== src/Protocol/Examples/RoundTrip.antt =====
-- Messages that are encoded and decoded again (src/protocol.cpp).
use tradep2p.Base.{ℕ, ◌≤◌, ◌≡◌, refl, List, ok, length}
use tradep2p.Protocol.Wire.Bytes.{big_endian}
use tradep2p.Protocol.Wire.Writer
use tradep2p.Protocol.Validate.{
  check_each, is_alnum, validate_address, validate_asset, validate_certificate_pin,
  validate_client_id, validate_fee_terms, validate_invite_id, validate_nonzero_id, validate_party,
  validate_printable, validate_reason, validate_registry_node, validate_room_id, validate_terms,
}
use tradep2p.Protocol.Terms.{
  append_fee_terms, append_registry_node, append_terms, decode_terms, encode_terms, flag_to_u8,
}
use tradep2p.Protocol.Types.{max_frame_payload, party_to_u8}
use tradep2p.Protocol.Pages.{
  append_cursor, append_offer, check_next_cursor, cursor_mismatch, decode_offer_list,
  encode_offer_list, validate_cursor,
}
use tradep2p.Protocol.Registry.{
  append_recovered, decode_recovery_state_response, encode_recovery_state_response,
  validate_optional_reason,
}
use tradep2p.Protocol.Disclosure.{
  append_entry, decode_receipt_disclosure, encode_receipt_disclosure, write_disclosure,
}
use tradep2p.Protocol.Issued.{encode_receipt_issued}
use tradep2p.Protocol.Terms.RoundTrip.{decode_terms-encode_terms}
use tradep2p.Protocol.Pages.RoundTrip.{decode_offer_list-encode_offer_list}
use tradep2p.Protocol.Registry.RoundTrip.{
  decode_recovery_state_response-encode_recovery_state_response,
}
use tradep2p.Protocol.Disclosure.RoundTrip.{decode_receipt_disclosure-encode_receipt_disclosure}
use tradep2p.Protocol.Examples.{
  bytes_of, terms, terms-InRange, offer_list, offer_list-InRange, recovery_state_response,
  recovery_state_response-InRange, receipt_disclosure, receipt_disclosure-InRange,
}

abbrev terms_bytes : List ℕ
terms_bytes = bytes_of (encode_terms terms)

terms_encoded : encode_terms terms ≡ ok terms_bytes
unfolding encode_terms party_to_u8 append_terms append_fee_terms append_registry_node flag_to_u8
    validate_party check_each is_alnum validate_asset validate_printable validate_nonzero_id
    validate_address validate_room_id validate_client_id validate_invite_id validate_certificate_pin
    validate_terms validate_fee_terms validate_registry_node Writer.◌>>◌ Writer.check Writer.nothing
    Writer.written Writer.u8 Writer.u16 Writer.u32 Writer.u64 Writer.fixed_id Writer.short_string
    Writer.bytes Writer.each big_endian
terms_encoded = refl

decode_terms-encode_terms_example :
    (decode_terms terms_bytes ≡ ok terms) × (length terms_bytes ≤ 59)
decode_terms-encode_terms_example = decode_terms-encode_terms terms terms-InRange terms_encoded

abbrev offer_list_bytes : List ℕ
offer_list_bytes = bytes_of (encode_offer_list offer_list)

offer_list_encoded : encode_offer_list offer_list ≡ ok offer_list_bytes
unfolding encode_offer_list party_to_u8 append_terms append_fee_terms append_registry_node
    flag_to_u8 validate_party check_each is_alnum validate_asset validate_printable
    validate_nonzero_id validate_address validate_room_id validate_client_id validate_invite_id
    validate_certificate_pin validate_terms validate_fee_terms validate_registry_node append_cursor
    append_offer check_next_cursor cursor_mismatch validate_cursor Writer.◌>>◌ Writer.check
    Writer.nothing Writer.written Writer.u8 Writer.u16 Writer.u32 Writer.u64 Writer.fixed_id
    Writer.short_string Writer.bytes Writer.each big_endian
offer_list_encoded = refl

decode_offer_list-encode_offer_list_example :
    (decode_offer_list offer_list_bytes ≡ ok offer_list)
    × (length offer_list_bytes ≤ max_frame_payload)
decode_offer_list-encode_offer_list_example =
    decode_offer_list-encode_offer_list offer_list offer_list-InRange offer_list_encoded

abbrev recovery_state_response_bytes : List ℕ
recovery_state_response_bytes = bytes_of (encode_recovery_state_response recovery_state_response)

recovery_state_response_encoded :
    encode_recovery_state_response recovery_state_response ≡ ok recovery_state_response_bytes
unfolding encode_recovery_state_response party_to_u8 append_terms append_fee_terms
    append_registry_node flag_to_u8 validate_party check_each is_alnum validate_asset
    validate_printable validate_nonzero_id validate_address validate_room_id validate_client_id
    validate_invite_id validate_certificate_pin validate_terms validate_fee_terms
    validate_registry_node append_recovered validate_optional_reason validate_reason Writer.◌>>◌
    Writer.check Writer.nothing Writer.written Writer.u8 Writer.u16 Writer.u32 Writer.u64
    Writer.fixed_id Writer.short_string Writer.bytes Writer.each big_endian
recovery_state_response_encoded = refl

decode_recovery_state_response-encode_recovery_state_response_example :
    (decode_recovery_state_response recovery_state_response_bytes ≡ ok recovery_state_response)
    × (length recovery_state_response_bytes ≤ max_frame_payload)
decode_recovery_state_response-encode_recovery_state_response_example =
    decode_recovery_state_response-encode_recovery_state_response recovery_state_response
      recovery_state_response-InRange recovery_state_response_encoded

abbrev receipt_disclosure_bytes : List ℕ
receipt_disclosure_bytes = bytes_of (encode_receipt_disclosure receipt_disclosure)

receipt_disclosure_encoded :
    encode_receipt_disclosure receipt_disclosure ≡ ok receipt_disclosure_bytes
unfolding encode_receipt_disclosure party_to_u8 append_terms append_fee_terms append_registry_node
    flag_to_u8 validate_party check_each is_alnum validate_asset validate_printable
    validate_nonzero_id validate_address validate_room_id validate_client_id validate_invite_id
    validate_certificate_pin validate_terms validate_fee_terms validate_registry_node
    write_disclosure append_entry encode_receipt_issued Writer.◌>>◌ Writer.check Writer.nothing
    Writer.written Writer.u8 Writer.u16 Writer.u32 Writer.u64 Writer.fixed_id Writer.short_string
    Writer.bytes Writer.each big_endian
receipt_disclosure_encoded = refl

decode_receipt_disclosure-encode_receipt_disclosure_example :
    (decode_receipt_disclosure receipt_disclosure_bytes ≡ ok receipt_disclosure)
    × (length receipt_disclosure_bytes ≤ max_frame_payload)
decode_receipt_disclosure-encode_receipt_disclosure_example =
    decode_receipt_disclosure-encode_receipt_disclosure receipt_disclosure
      receipt_disclosure-InRange receipt_disclosure_encoded
