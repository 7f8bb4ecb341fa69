-- ===== src/Protocol/Receipts/Canonical.antt =====
-- The decoders of the recognition and receipt messages (src/protocol.cpp), followed by their
-- encoders.
use tradep2p.Base.{ℕ, ◌≡◌, List, leb, ok, rethrow}
use tradep2p.Protocol.Wire.Bytes.{IsBytes}
use tradep2p.Protocol.Wire.Canonical.{
  wr_seq, wr_last, wr_checked, ra_seq, ra_check, ra_finished, rn_check, rn_pure,
  decoded_of_ReadsAll, written_of_Writes, rd_u8, rd_u16, rd_u64, rd_id, rd_bytes,
}
use tradep2p.Protocol.Receipts.{
  RecoveryStateRequestMessage, RecoveryStateRequestInRange, encode_recovery_state_request,
  decode_recovery_state_request, RecognitionChallengeMessage, RecognitionChallengeInRange,
  encode_recognition_challenge, decode_recognition_challenge, RecognitionResponseMessage,
  RecognitionResponseInRange, encode_recognition_response, decode_recognition_response,
  TradeEphemeralKeyMessage, TradeEphemeralKeyInRange, encode_trade_ephemeral_key,
  decode_trade_ephemeral_key, ReceiptAckMessage, ReceiptAckInRange, encode_receipt_ack,
  decode_receipt_ack, ReceiptAckRequiredMessage, ReceiptAckRequiredInRange,
  encode_receipt_ack_required, decode_receipt_ack_required, FeeConfirmationPendingMessage,
  FeeConfirmationPendingInRange, encode_fee_confirmation_pending, decode_fee_confirmation_pending,
}

-- Bytes that decode to a RecoveryStateRequestMessage are its encoding, and its fields are in the
-- range of their types.
pub encode_recovery_state_request-decode_recovery_state_request :
    (bs : List ℕ) {message : RecoveryStateRequestMessage}
    → IsBytes bs
    → decode_recovery_state_request bs ≡ ok message
    → RecoveryStateRequestInRange message × (encode_recovery_state_request message ≡ ok bs)
unfolding encode_recovery_state_request decode_recovery_state_request
encode_recovery_state_request-decode_recovery_state_request bs h e =
    decoded_of_ReadsAll _
      {Q = λ message bs.
        RecoveryStateRequestInRange message × (encode_recovery_state_request message ≡ ok bs)}
      bs
      (ra_seq _ (rd_id 32) λ room_id _ (r1, w1). ra_check _ λ k1.
        ra_finished _
          (rn_pure _ (record { room_id = r1 }, written_of_Writes (wr_checked k1 (wr_last w1)))))
      h e

-- Bytes that decode to a RecognitionChallengeMessage are its encoding, and its fields are in the
-- range of their types.
pub encode_recognition_challenge-decode_recognition_challenge :
    (bs : List ℕ) {message : RecognitionChallengeMessage}
    → IsBytes bs
    → decode_recognition_challenge bs ≡ ok message
    → RecognitionChallengeInRange message × (encode_recognition_challenge message ≡ ok bs)
unfolding encode_recognition_challenge decode_recognition_challenge
encode_recognition_challenge-decode_recognition_challenge bs h e =
    decoded_of_ReadsAll _
      {Q = λ message bs.
        RecognitionChallengeInRange message × (encode_recognition_challenge message ≡ ok bs)}
      bs
      (ra_seq _ (rd_id 32) λ room_id _ (r1, w1). ra_check _ λ k1.
        ra_seq _ rd_u16 λ suite_id _ (r2, w2). ra_seq _ (rd_id 32) λ nonce _ (r3, w3).
          ra_seq _ rd_u64 λ created_at _ (r4, w4). ra_seq _ rd_u64 λ expires_at _ (r5, w5).
            ra_finished _ (
              rn_check _ λ k2. rn_pure _ (
                record {
                  room_id = r1;
                  suite_id = r2;
                  nonce = r3;
                  created_at = r4;
                  expires_at = r5;
                },
                written_of_Writes (
                    wr_checked k1 (
                      wr_checked (rethrow (leb expires_at created_at) _ _ k2)
                        (wr_seq w1 (wr_seq w2 (wr_seq w3 (wr_seq w4 (wr_last w5))))))),
              )))
      h e

-- Bytes that decode to a RecognitionResponseMessage are its encoding, and its fields are in the
-- range of their types.
pub encode_recognition_response-decode_recognition_response :
    (bs : List ℕ) {message : RecognitionResponseMessage}
    → IsBytes bs
    → decode_recognition_response bs ≡ ok message
    → RecognitionResponseInRange message × (encode_recognition_response message ≡ ok bs)
unfolding encode_recognition_response decode_recognition_response
encode_recognition_response-decode_recognition_response bs h e =
    decoded_of_ReadsAll _
      {Q = λ message bs.
        RecognitionResponseInRange message × (encode_recognition_response message ≡ ok bs)}
      bs
      (ra_seq _ (rd_id 32) λ room_id _ (r1, w1). ra_check _ λ k1.
        ra_seq _ (rd_id 32) λ nonce _ (r2, w2). ra_seq _ rd_u16 λ suite_id _ (r3, w3).
          ra_seq _ (rd_bytes _) λ prover_public_key _ w4. ra_seq _ (rd_bytes _) λ signature _ w5.
            ra_finished _ (
              rn_pure _ (
                record { room_id = r1; nonce = r2; suite_id = r3 },
                written_of_Writes
                    (wr_checked k1 (wr_seq w1 (wr_seq w2 (wr_seq w3 (wr_seq w4 (wr_last w5)))))),
              )))
      h e

-- Bytes that decode to a TradeEphemeralKeyMessage are its encoding, and its fields are in the
-- range of their types.
pub encode_trade_ephemeral_key-decode_trade_ephemeral_key :
    (bs : List ℕ) {message : TradeEphemeralKeyMessage}
    → IsBytes bs
    → decode_trade_ephemeral_key bs ≡ ok message
    → TradeEphemeralKeyInRange message × (encode_trade_ephemeral_key message ≡ ok bs)
unfolding encode_trade_ephemeral_key decode_trade_ephemeral_key
encode_trade_ephemeral_key-decode_trade_ephemeral_key bs h e =
    decoded_of_ReadsAll _
      {Q = λ message bs.
        TradeEphemeralKeyInRange message × (encode_trade_ephemeral_key message ≡ ok bs)}
      bs
      (ra_seq _ (rd_id 32) λ room_id _ (r1, w1). ra_check _ λ k1.
        ra_seq _ (rd_id 32) λ ephemeral_public_key _ (r2, w2).
          ra_seq _ (rd_id 1952) λ ephemeral_public_key_mldsa65 _ (r3, w3). ra_finished _ (
            rn_pure _ (
              record { room_id = r1; ephemeral_public_key = r2; ephemeral_public_key_mldsa65 = r3 },
              written_of_Writes (wr_checked k1 (wr_seq w1 (wr_seq w2 (wr_last w3)))),
            )))
      h e

-- Bytes that decode to a ReceiptAckMessage are its encoding, and its fields are in the range of
-- their types.
pub encode_receipt_ack-decode_receipt_ack :
    (bs : List ℕ) {message : ReceiptAckMessage}
    → IsBytes bs
    → decode_receipt_ack bs ≡ ok message
    → ReceiptAckInRange message × (encode_receipt_ack message ≡ ok bs)
unfolding encode_receipt_ack decode_receipt_ack
encode_receipt_ack-decode_receipt_ack bs h e =
    decoded_of_ReadsAll _
      {Q = λ message bs. ReceiptAckInRange message × (encode_receipt_ack message ≡ ok bs)} bs
      (ra_seq _ (rd_id 32) λ room_id _ (r1, w1). ra_check _ λ k1. ra_seq _ rd_u8 λ stage _ (r2, w2).
        ra_seq _ rd_u64 λ timestamp _ (r3, w3). ra_seq _ (rd_id 64) λ signature _ (r4, w4).
          ra_seq _ (rd_id 3309) λ signature_mldsa65 _ (r5, w5). ra_finished _ (
            rn_pure _ (
              record {
                room_id = r1;
                stage = r2;
                timestamp = r3;
                signature = r4;
                signature_mldsa65 = r5;
              },
              written_of_Writes
                  (wr_checked k1 (wr_seq w1 (wr_seq w2 (wr_seq w3 (wr_seq w4 (wr_last w5)))))),
            )))
      h e

-- Bytes that decode to a ReceiptAckRequiredMessage are its encoding, and its fields are in the
-- range of their types.
pub encode_receipt_ack_required-decode_receipt_ack_required :
    (bs : List ℕ) {message : ReceiptAckRequiredMessage}
    → IsBytes bs
    → decode_receipt_ack_required bs ≡ ok message
    → ReceiptAckRequiredInRange message × (encode_receipt_ack_required message ≡ ok bs)
unfolding encode_receipt_ack_required decode_receipt_ack_required
encode_receipt_ack_required-decode_receipt_ack_required bs h e =
    decoded_of_ReadsAll _
      {Q = λ message bs.
        ReceiptAckRequiredInRange message × (encode_receipt_ack_required message ≡ ok bs)}
      bs
      (ra_seq _ (rd_id 32) λ room_id _ (r1, w1). ra_check _ λ k1.
        ra_finished _
          (rn_pure _ (record { room_id = r1 }, written_of_Writes (wr_checked k1 (wr_last w1)))))
      h e

-- Bytes that decode to a FeeConfirmationPendingMessage are its encoding, and its fields are in
-- the range of their types.
pub encode_fee_confirmation_pending-decode_fee_confirmation_pending :
    (bs : List ℕ) {message : FeeConfirmationPendingMessage}
    → IsBytes bs
    → decode_fee_confirmation_pending bs ≡ ok message
    → FeeConfirmationPendingInRange message × (encode_fee_confirmation_pending message ≡ ok bs)
unfolding encode_fee_confirmation_pending decode_fee_confirmation_pending
encode_fee_confirmation_pending-decode_fee_confirmation_pending bs h e =
    decoded_of_ReadsAll _
      {Q = λ message bs.
        FeeConfirmationPendingInRange message × (encode_fee_confirmation_pending message ≡ ok bs)}
      bs
      (ra_seq _ (rd_id 32) λ room_id _ (r1, w1). ra_check _ λ k1.
        ra_finished _
          (rn_pure _ (record { room_id = r1 }, written_of_Writes (wr_checked k1 (wr_last w1)))))
      h e
