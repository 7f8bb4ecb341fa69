-- ===== src/Protocol/Offers.antt =====
-- The offer messages of include/tradep2p/protocol.hpp and their encoders in src/protocol.cpp. A
-- decoder names its checks in the order of the source.
use tradep2p.Base.{ℕ, List, Result}
use tradep2p.Protocol.Wire.Bytes.{IsArray}
use tradep2p.Protocol.Wire.Writer
use tradep2p.Protocol.Wire.Writer.{◌>>◌, written}
use tradep2p.Protocol.Wire.Reader
use tradep2p.Protocol.Wire.Reader.{◌>>=◌, decoded, pure}
use tradep2p.Protocol.Types.{TradeTerms, TermsInRange, max_asset_code_length, max_address_length}
use tradep2p.Protocol.Validate.{validate_asset, validate_address, validate_room_id, validate_terms}
use tradep2p.Protocol.Terms.{append_terms, read_terms}
pub mod RoundTrip
pub mod Canonical

pub record CreateOfferMessage : Type 0 where
  pub terms : TradeTerms
  pub receive_address_a : List ℕ

pub record CreateOfferInRange (m : CreateOfferMessage) : Type 0 where
  pub terms : TermsInRange m.terms

unfoldable pub encode_create_offer : CreateOfferMessage → Result (List ℕ)
encode_create_offer message = written do
  Writer.check (validate_terms message.terms)
  Writer.check (validate_address message.receive_address_a)
  append_terms message.terms
  Writer.short_string message.receive_address_a max_address_length

unfoldable pub decode_create_offer : List ℕ → Result CreateOfferMessage
decode_create_offer = decoded do
  terms ← read_terms
  receive_address_a ← Reader.short_string max_address_length
  _ ← Reader.check (validate_address receive_address_a)
  _ ← Reader.require_finished
  pure (record { terms = terms; receive_address_a = receive_address_a })

pub record OfferCreatedMessage : Type 0 where
  pub room_id : List ℕ

pub record OfferCreatedInRange (m : OfferCreatedMessage) : Type 0 where
  pub room_id : IsArray 32 m.room_id

unfoldable pub encode_offer_created : OfferCreatedMessage → Result (List ℕ)
encode_offer_created message =
    written do Writer.check (validate_room_id message.room_id); Writer.fixed_id message.room_id

unfoldable pub decode_offer_created : List ℕ → Result OfferCreatedMessage
decode_offer_created = decoded do
  room_id ← Reader.fixed_id 32
  _ ← Reader.check (validate_room_id room_id)
  _ ← Reader.require_finished
  pure (record { room_id = room_id })

pub record JoinOfferMessage : Type 0 where
  pub room_id : List ℕ
  pub receive_address_b : List ℕ

pub record JoinOfferInRange (m : JoinOfferMessage) : Type 0 where
  pub room_id : IsArray 32 m.room_id

unfoldable pub encode_join_offer : JoinOfferMessage → Result (List ℕ)
encode_join_offer message = written do
  Writer.check (validate_room_id message.room_id)
  Writer.check (validate_address message.receive_address_b)
  Writer.fixed_id message.room_id
  Writer.short_string message.receive_address_b max_address_length

unfoldable pub decode_join_offer : List ℕ → Result JoinOfferMessage
decode_join_offer = decoded do
  room_id ← Reader.fixed_id 32
  receive_address_b ← Reader.short_string max_address_length
  _ ← Reader.check (validate_room_id room_id)
  _ ← Reader.check (validate_address receive_address_b)
  _ ← Reader.require_finished
  pure (record { room_id = room_id; receive_address_b = receive_address_b })

pub record CancelOfferMessage : Type 0 where
  pub room_id : List ℕ

pub record CancelOfferInRange (m : CancelOfferMessage) : Type 0 where
  pub room_id : IsArray 32 m.room_id

unfoldable pub encode_cancel_offer : CancelOfferMessage → Result (List ℕ)
encode_cancel_offer message =
    written do Writer.check (validate_room_id message.room_id); Writer.fixed_id message.room_id

unfoldable pub decode_cancel_offer : List ℕ → Result CancelOfferMessage
decode_cancel_offer = decoded do
  room_id ← Reader.fixed_id 32
  _ ← Reader.check (validate_room_id room_id)
  _ ← Reader.require_finished
  pure (record { room_id = room_id })

pub record OfferCancelledMessage : Type 0 where
  pub room_id : List ℕ

pub record OfferCancelledInRange (m : OfferCancelledMessage) : Type 0 where
  pub room_id : IsArray 32 m.room_id

unfoldable pub encode_offer_cancelled : OfferCancelledMessage → Result (List ℕ)
encode_offer_cancelled message =
    written do Writer.check (validate_room_id message.room_id); Writer.fixed_id message.room_id

unfoldable pub decode_offer_cancelled : List ℕ → Result OfferCancelledMessage
decode_offer_cancelled = decoded do
  room_id ← Reader.fixed_id 32
  _ ← Reader.check (validate_room_id room_id)
  _ ← Reader.require_finished
  pure (record { room_id = room_id })

pub record GetCandlesMessage : Type 0 where
  pub asset_a : List ℕ
  pub asset_b : List ℕ

unfoldable pub encode_get_candles : GetCandlesMessage → Result (List ℕ)
encode_get_candles message = written do
  Writer.check (validate_asset message.asset_a)
  Writer.check (validate_asset message.asset_b)
  Writer.short_string message.asset_a max_asset_code_length
  Writer.short_string message.asset_b max_asset_code_length

unfoldable pub decode_get_candles : List ℕ → Result GetCandlesMessage
decode_get_candles = decoded do
  asset_a ← Reader.short_string max_asset_code_length
  asset_b ← Reader.short_string max_asset_code_length
  _ ← Reader.check (validate_asset asset_a)
  _ ← Reader.check (validate_asset asset_b)
  _ ← Reader.require_finished
  pure (record { asset_a = asset_a; asset_b = asset_b })
