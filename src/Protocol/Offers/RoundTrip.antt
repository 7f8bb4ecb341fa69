-- ===== src/Protocol/Offers/RoundTrip.antt =====
-- The encoders of the offer messages (src/protocol.cpp), followed by their decoders.
use tradep2p.Base.{ℕ, ◌≡◌, ◌≤◌, List, [], arith, length, ok}
use tradep2p.Protocol.Types.{max_frame_payload}
use tradep2p.Protocol.Wire.RoundTrip.{
  rt_seq, rt_last, rt_checked, Yields-check, Yields-finished, Yields-pure, decoded-written, rt_id,
  rt_short_string,
}
use tradep2p.Protocol.Terms.RoundTrip.{rt_terms}
use tradep2p.Protocol.Offers.{
  CreateOfferMessage, CreateOfferInRange, encode_create_offer, decode_create_offer,
  OfferCreatedMessage, OfferCreatedInRange, encode_offer_created, decode_offer_created,
  JoinOfferMessage, JoinOfferInRange, encode_join_offer, decode_join_offer, CancelOfferMessage,
  CancelOfferInRange, encode_cancel_offer, decode_cancel_offer, OfferCancelledMessage,
  OfferCancelledInRange, encode_offer_cancelled, decode_offer_cancelled, GetCandlesMessage,
  encode_get_candles, decode_get_candles,
}

-- If a CreateOfferMessage whose fields are in the range of their types can be encoded, the bytes
-- fit the payload of one frame and decode to it.
pub decode_create_offer-encode_create_offer :
    (message : CreateOfferMessage) {bs : List ℕ}
    → CreateOfferInRange message
    → encode_create_offer message ≡ ok bs
    → (decode_create_offer bs ≡ ok message) × (length bs ≤ max_frame_payload)
unfolding encode_create_offer decode_create_offer
decode_create_offer-encode_create_offer message r e =
    decoded-written _ _ e
      (rt_checked λ _. rt_checked λ h2. rt_seq _ (rt_terms message.terms r.terms) (
        rt_last _ (rt_short_string message.receive_address_a _)
          (Yields-check _ h2 (Yields-finished _ (Yields-pure message [])))))
      (omega arith)

-- If an OfferCreatedMessage can be encoded, the bytes fit one frame and decode to it.
pub decode_offer_created-encode_offer_created :
    (message : OfferCreatedMessage) {bs : List ℕ}
    → OfferCreatedInRange message
    → encode_offer_created message ≡ ok bs
    → (decode_offer_created bs ≡ ok message) × (length bs ≤ max_frame_payload)
unfolding encode_offer_created decode_offer_created
decode_offer_created-encode_offer_created message r e =
    decoded-written _ _ e
      (rt_checked λ h1.
        rt_last _ (rt_id 32 message.room_id r.room_id)
          (Yields-check _ h1 (Yields-finished _ (Yields-pure message []))))
      (omega arith)

-- If a JoinOfferMessage can be encoded, the bytes fit one frame and decode to it.
pub decode_join_offer-encode_join_offer :
    (message : JoinOfferMessage) {bs : List ℕ}
    → JoinOfferInRange message
    → encode_join_offer message ≡ ok bs
    → (decode_join_offer bs ≡ ok message) × (length bs ≤ max_frame_payload)
unfolding encode_join_offer decode_join_offer
decode_join_offer-encode_join_offer message r e =
    decoded-written _ _ e
      (rt_checked λ h1. rt_checked λ h2. rt_seq _ (rt_id 32 message.room_id r.room_id) (
        rt_last _ (rt_short_string message.receive_address_b _)
          (Yields-check _ h1 (Yields-check _ h2 (Yields-finished _ (Yields-pure message []))))))
      (omega arith)

-- If a CancelOfferMessage can be encoded, the bytes fit one frame and decode to it.
pub decode_cancel_offer-encode_cancel_offer :
    (message : CancelOfferMessage) {bs : List ℕ}
    → CancelOfferInRange message
    → encode_cancel_offer message ≡ ok bs
    → (decode_cancel_offer bs ≡ ok message) × (length bs ≤ max_frame_payload)
unfolding encode_cancel_offer decode_cancel_offer
decode_cancel_offer-encode_cancel_offer message r e =
    decoded-written _ _ e
      (rt_checked λ h1.
        rt_last _ (rt_id 32 message.room_id r.room_id)
          (Yields-check _ h1 (Yields-finished _ (Yields-pure message []))))
      (omega arith)

-- If an OfferCancelledMessage can be encoded, the bytes fit one frame and decode to it.
pub decode_offer_cancelled-encode_offer_cancelled :
    (message : OfferCancelledMessage) {bs : List ℕ}
    → OfferCancelledInRange message
    → encode_offer_cancelled message ≡ ok bs
    → (decode_offer_cancelled bs ≡ ok message) × (length bs ≤ max_frame_payload)
unfolding encode_offer_cancelled decode_offer_cancelled
decode_offer_cancelled-encode_offer_cancelled message r e =
    decoded-written _ _ e
      (rt_checked λ h1.
        rt_last _ (rt_id 32 message.room_id r.room_id)
          (Yields-check _ h1 (Yields-finished _ (Yields-pure message []))))
      (omega arith)

-- If a GetCandlesMessage can be encoded, the bytes fit one frame and decode to it.
pub decode_get_candles-encode_get_candles :
    (message : GetCandlesMessage) {bs : List ℕ}
    → encode_get_candles message ≡ ok bs
    → (decode_get_candles bs ≡ ok message) × (length bs ≤ max_frame_payload)
unfolding encode_get_candles decode_get_candles
decode_get_candles-encode_get_candles message e =
    decoded-written _ _ e
      (rt_checked λ h1. rt_checked λ h2. rt_seq _ (rt_short_string message.asset_a _) (
        rt_last _ (rt_short_string message.asset_b _)
          (Yields-check _ h1 (Yields-check _ h2 (Yields-finished _ (Yields-pure message []))))))
      (omega arith)
