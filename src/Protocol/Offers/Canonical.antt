-- ===== src/Protocol/Offers/Canonical.antt =====
-- The decoders of the offer messages (src/protocol.cpp), followed by their encoders.
use tradep2p.Base.{ℕ, ◌≡◌, List, ok}
use tradep2p.Protocol.Wire.Bytes.{IsBytes}
use tradep2p.Protocol.Wire.Canonical.{
  wr_seq, wr_last, wr_checked, ra_seq, ra_check, ra_finished, rn_pure, decoded_of_ReadsAll,
  written_of_Writes, rd_id, rd_short_string,
}
use tradep2p.Protocol.Terms.Canonical.{rd_terms}
use tradep2p.Protocol.Offers.{
  CreateOfferMessage, CreateOfferInRange, encode_create_offer, decode_create_offer,
  OfferCreatedMessage, OfferCreatedInRange, encode_offer_created, decode_offer_created,
  JoinOfferMessage, JoinOfferInRange, encode_join_offer, decode_join_offer, CancelOfferMessage,
  CancelOfferInRange, encode_cancel_offer, decode_cancel_offer, OfferCancelledMessage,
  OfferCancelledInRange, encode_offer_cancelled, decode_offer_cancelled, GetCandlesMessage,
  encode_get_candles, decode_get_candles,
}

-- Bytes that decode to a CreateOfferMessage are its encoding, and its fields are in the range of
-- their types.
pub encode_create_offer-decode_create_offer :
    (bs : List ℕ) {message : CreateOfferMessage}
    → IsBytes bs
    → decode_create_offer bs ≡ ok message
    → CreateOfferInRange message × (encode_create_offer message ≡ ok bs)
unfolding encode_create_offer decode_create_offer
encode_create_offer-decode_create_offer bs h e =
    decoded_of_ReadsAll _
      {Q = λ message bs. CreateOfferInRange message × (encode_create_offer message ≡ ok bs)} bs
      (ra_seq _ rd_terms λ terms _ (r1, v1, w1).
        ra_seq _ (rd_short_string _) λ receive_address_a _ w2. ra_check _ λ k1. ra_finished _ (
          rn_pure _ (
            record { terms = r1 },
            written_of_Writes (wr_checked v1 (wr_checked k1 (wr_seq w1 (wr_last w2)))),
          )))
      h e

-- Bytes that decode to an OfferCreatedMessage are its encoding, and its fields are in the range
-- of their types.
pub encode_offer_created-decode_offer_created :
    (bs : List ℕ) {message : OfferCreatedMessage}
    → IsBytes bs
    → decode_offer_created bs ≡ ok message
    → OfferCreatedInRange message × (encode_offer_created message ≡ ok bs)
unfolding encode_offer_created decode_offer_created
encode_offer_created-decode_offer_created bs h e =
    decoded_of_ReadsAll _
      {Q = λ message bs. OfferCreatedInRange message × (encode_offer_created message ≡ ok bs)} bs
      (ra_seq _ (rd_id 32) λ room_id _ (r1, w1). ra_check _ λ k1.
        ra_finished _
          (rn_pure _ (record { room_id = r1 }, written_of_Writes (wr_checked k1 (wr_last w1)))))
      h e

-- Bytes that decode to a JoinOfferMessage are its encoding, and its fields are in the range of
-- their types.
pub encode_join_offer-decode_join_offer :
    (bs : List ℕ) {message : JoinOfferMessage}
    → IsBytes bs
    → decode_join_offer bs ≡ ok message
    → JoinOfferInRange message × (encode_join_offer message ≡ ok bs)
unfolding encode_join_offer decode_join_offer
encode_join_offer-decode_join_offer bs h e =
    decoded_of_ReadsAll _
      {Q = λ message bs. JoinOfferInRange message × (encode_join_offer message ≡ ok bs)} bs
      (ra_seq _ (rd_id 32) λ room_id _ (r1, w1).
        ra_seq _ (rd_short_string _) λ receive_address_b _ w2. ra_check _ λ k1. ra_check _ λ k2.
          ra_finished _ (
            rn_pure _ (
              record { room_id = r1 },
              written_of_Writes (wr_checked k1 (wr_checked k2 (wr_seq w1 (wr_last w2)))),
            )))
      h e

-- Bytes that decode to a CancelOfferMessage are its encoding, and its fields are in the range of
-- their types.
pub encode_cancel_offer-decode_cancel_offer :
    (bs : List ℕ) {message : CancelOfferMessage}
    → IsBytes bs
    → decode_cancel_offer bs ≡ ok message
    → CancelOfferInRange message × (encode_cancel_offer message ≡ ok bs)
unfolding encode_cancel_offer decode_cancel_offer
encode_cancel_offer-decode_cancel_offer bs h e =
    decoded_of_ReadsAll _
      {Q = λ message bs. CancelOfferInRange message × (encode_cancel_offer message ≡ ok bs)} bs
      (ra_seq _ (rd_id 32) λ room_id _ (r1, w1). ra_check _ λ k1.
        ra_finished _
          (rn_pure _ (record { room_id = r1 }, written_of_Writes (wr_checked k1 (wr_last w1)))))
      h e

-- Bytes that decode to an OfferCancelledMessage are its encoding, and its fields are in the range
-- of their types.
pub encode_offer_cancelled-decode_offer_cancelled :
    (bs : List ℕ) {message : OfferCancelledMessage}
    → IsBytes bs
    → decode_offer_cancelled bs ≡ ok message
    → OfferCancelledInRange message × (encode_offer_cancelled message ≡ ok bs)
unfolding encode_offer_cancelled decode_offer_cancelled
encode_offer_cancelled-decode_offer_cancelled bs h e =
    decoded_of_ReadsAll _
      {Q = λ message bs. OfferCancelledInRange message × (encode_offer_cancelled message ≡ ok bs)}
      bs
      (ra_seq _ (rd_id 32) λ room_id _ (r1, w1). ra_check _ λ k1.
        ra_finished _
          (rn_pure _ (record { room_id = r1 }, written_of_Writes (wr_checked k1 (wr_last w1)))))
      h e

-- Bytes that decode to a GetCandlesMessage are its encoding, and its fields are in the range of
-- their types.
pub encode_get_candles-decode_get_candles :
    (bs : List ℕ) {message : GetCandlesMessage}
    → IsBytes bs
    → decode_get_candles bs ≡ ok message
    → encode_get_candles message ≡ ok bs
unfolding encode_get_candles decode_get_candles
encode_get_candles-decode_get_candles bs h e =
    decoded_of_ReadsAll _ {Q = λ message bs. encode_get_candles message ≡ ok bs} bs
      (ra_seq _ (rd_short_string _) λ asset_a _ w1. ra_seq _ (rd_short_string _) λ asset_b _ w2.
        ra_check _ λ k1. ra_check _ λ k2.
          ra_finished _ (
            rn_pure _ (written_of_Writes (wr_checked k1 (wr_checked k2 (wr_seq w1 (wr_last w2)))))))
      h e
