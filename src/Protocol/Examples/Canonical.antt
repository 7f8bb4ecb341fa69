-- ===== src/Protocol/Examples/Canonical.antt =====
-- Bytes that are decoded and encoded again (src/protocol.cpp).
use tradep2p.Base.{ℕ, ◌≡◌, refl, List, ok}
use tradep2p.Protocol.Wire.Bytes.{IsBytes, big_endian, from_big_endian}
use tradep2p.Protocol.Wire.Writer
use tradep2p.Protocol.Wire.Reader
use tradep2p.Protocol.Validate.{
  check_each, is_alnum, validate_address, validate_asset, validate_certificate_pin,
  validate_client_id, validate_fee_terms, validate_invite_id, validate_nonzero_id, validate_party,
  validate_printable, validate_registry_node, validate_room_id, validate_terms,
}
use tradep2p.Protocol.Terms.{
  append_fee_terms, append_registry_node, append_terms, decode_terms, encode_terms, flag_to_u8,
  read_bool, read_fee_terms, read_flag, read_party, read_registry_node, read_terms,
}
use tradep2p.Protocol.Types.{TermsInRange, party_of_u8, party_to_u8}
use tradep2p.Protocol.Pages.{
  OfferListInRange, append_cursor, append_offer, check_next_cursor, cursor_mismatch,
  decode_offer_list, encode_offer_list, read_cursor, read_offer, validate_cursor,
}
use tradep2p.Protocol.Terms.Canonical.{encode_terms-decode_terms}
use tradep2p.Protocol.Pages.Canonical.{encode_offer_list-decode_offer_list}
use tradep2p.Protocol.Examples.{bytes_of, bytes_lem, terms, offer_list}

abbrev terms_bytes : List ℕ
terms_bytes = bytes_of (encode_terms terms)

terms_bytes_lem : IsBytes terms_bytes
unfolding encode_terms party_to_u8 append_terms append_fee_terms append_registry_node flag_to_u8
    validate_party check_each is_alnum validate_asset validate_printable validate_nonzero_id
    validate_address validate_room_id validate_client_id validate_invite_id validate_certificate_pin
    validate_terms validate_fee_terms validate_registry_node Writer.◌>>◌ Writer.check Writer.nothing
    Writer.written Writer.u8 Writer.u16 Writer.u32 Writer.u64 Writer.fixed_id Writer.short_string
    Writer.bytes Writer.each big_endian
terms_bytes_lem = bytes_lem terms_bytes refl

terms_decoded : decode_terms terms_bytes ≡ ok terms
unfolding encode_terms decode_terms party_to_u8 party_of_u8 append_terms append_fee_terms
    append_registry_node flag_to_u8 read_party read_flag read_bool read_terms read_fee_terms
    read_registry_node validate_party check_each is_alnum validate_asset validate_printable
    validate_nonzero_id validate_address validate_room_id validate_client_id validate_invite_id
    validate_certificate_pin validate_terms validate_fee_terms validate_registry_node Writer.◌>>◌
    Writer.check Writer.nothing Writer.written Writer.u8 Writer.u16 Writer.u32 Writer.u64
    Writer.fixed_id Writer.short_string Writer.bytes Writer.each Reader.◌>>=◌ Reader.pure
    Reader.check Reader.decoded Reader.take_bytes Reader.u8 Reader.u16 Reader.u32 Reader.u64
    Reader.fixed_id Reader.short_string Reader.bytes Reader.require_finished Reader.times big_endian
    from_big_endian
terms_decoded = refl

encode_terms-decode_terms_example : (TermsInRange terms) × (encode_terms terms ≡ ok terms_bytes)
encode_terms-decode_terms_example =
    encode_terms-decode_terms terms_bytes terms_bytes_lem terms_decoded

abbrev offer_list_bytes : List ℕ
offer_list_bytes = bytes_of (encode_offer_list offer_list)

offer_list_bytes_lem : IsBytes offer_list_bytes
unfolding encode_offer_list party_to_u8 append_terms append_fee_terms append_registry_node
    flag_to_u8 validate_party check_each is_alnum validate_asset validate_printable
    validate_nonzero_id validate_address validate_room_id validate_client_id validate_invite_id
    validate_certificate_pin validate_terms validate_fee_terms validate_registry_node append_cursor
    append_offer check_next_cursor cursor_mismatch validate_cursor Writer.◌>>◌ Writer.check
    Writer.nothing Writer.written Writer.u8 Writer.u16 Writer.u32 Writer.u64 Writer.fixed_id
    Writer.short_string Writer.bytes Writer.each big_endian
offer_list_bytes_lem = bytes_lem offer_list_bytes refl

offer_list_decoded : decode_offer_list offer_list_bytes ≡ ok offer_list
unfolding encode_offer_list decode_offer_list party_to_u8 party_of_u8 append_terms append_fee_terms
    append_registry_node flag_to_u8 read_party read_flag read_bool read_terms read_fee_terms
    read_registry_node validate_party check_each is_alnum validate_asset validate_printable
    validate_nonzero_id validate_address validate_room_id validate_client_id validate_invite_id
    validate_certificate_pin validate_terms validate_fee_terms validate_registry_node append_cursor
    append_offer check_next_cursor cursor_mismatch validate_cursor read_cursor read_offer
    Writer.◌>>◌ Writer.check Writer.nothing Writer.written Writer.u8 Writer.u16 Writer.u32
    Writer.u64 Writer.fixed_id Writer.short_string Writer.bytes Writer.each Reader.◌>>=◌ Reader.pure
    Reader.check Reader.decoded Reader.take_bytes Reader.u8 Reader.u16 Reader.u32 Reader.u64
    Reader.fixed_id Reader.short_string Reader.bytes Reader.require_finished Reader.times big_endian
    from_big_endian
offer_list_decoded = refl

encode_offer_list-decode_offer_list_example :
    (OfferListInRange offer_list) × (encode_offer_list offer_list ≡ ok offer_list_bytes)
encode_offer_list-decode_offer_list_example =
    encode_offer_list-decode_offer_list offer_list_bytes offer_list_bytes_lem offer_list_decoded
