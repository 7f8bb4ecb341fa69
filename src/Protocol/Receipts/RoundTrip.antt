-- ===== src/Protocol/Receipts/RoundTrip.antt =====
-- The encoders of the recognition and receipt messages (src/protocol.cpp), followed by their
-- decoders.
use tradep2p.Base.{ℕ, ◌≡◌, ◌≤◌, List, [], leb, arith, length, ok, rethrow}
use tradep2p.Protocol.Types.{max_frame_payload}
use tradep2p.Protocol.Wire.RoundTrip.{
  rt_seq, rt_last, rt_checked, rt_check, Yields-check, Yields-finished, Yields-pure,
  decoded-written, rt_u8, rt_u16, rt_u64, rt_id, rt_bytes,
}
use tradep2p.Protocol.Receipts.{
  RecoveryStateRequestMessage, RecoveryStateRequestInRange, encode_recovery_state_request,
  decode_recovery_state_request, RecognitionChallengeMessage, RecognitionChallengeInRange,
  encode_recognition_challenge, decode_recognition_challenge, RecognitionResponseMessage,
  RecognitionResponseInRange, encode_recognition_response, decode_recognition_response,
  TradeEphemeralKeyMessage, TradeEphemeralKeyInRange, encode_trade_ephemeral_key,
  decode_trade_ephemeral_key, ReceiptAckMessage, ReceiptAckInRange, encode_receipt_ack,
  decode_receipt_ack, ReceiptAckRequiredMessage, ReceiptAckRequiredInRange,
  encode_receipt_ack_required, decode_receipt_ack_required, FeeConfirmationPendingMessage,
  FeeConfirmationPendingInRange, encode_fee_confirmation_pending, decode_fee_confirmation_pending,
}

-- If a RecoveryStateRequestMessage can be encoded, the bytes fit one frame and decode to it.
pub decode_recovery_state_request-encode_recovery_state_request :
    (message : RecoveryStateRequestMessage) {bs : List ℕ}
    → RecoveryStateRequestInRange message
    → encode_recovery_state_request message ≡ ok bs
    → (decode_recovery_state_request bs ≡ ok message) × (length bs ≤ max_frame_payload)
unfolding encode_recovery_state_request decode_recovery_state_request
decode_recovery_state_request-encode_recovery_state_request message r e =
    decoded-written _ _ e
      (rt_checked λ h1.
        rt_last _ (rt_id 32 message.room_id r.room_id)
          (Yields-check _ h1 (Yields-finished _ (Yields-pure message []))))
      (omega arith)

-- If a RecognitionChallengeMessage whose fields are in the range of their types can be encoded,
-- the bytes fit the payload of one frame and decode to it.
pub decode_recognition_challenge-encode_recognition_challenge :
    (message : RecognitionChallengeMessage) {bs : List ℕ}
    → RecognitionChallengeInRange message
    → encode_recognition_challenge message ≡ ok bs
    → (decode_recognition_challenge bs ≡ ok message) × (length bs ≤ max_frame_payload)
unfolding encode_recognition_challenge decode_recognition_challenge
decode_recognition_challenge-encode_recognition_challenge message r e =
    decoded-written _ _ e
      (rt_checked λ h1. rt_checked λ h2. rt_seq _ (rt_id 32 message.room_id r.room_id) (
        rt_check _ h1 (
          rt_seq _ (rt_u16 message.suite_id r.suite_id) (
            rt_seq _ (rt_id 32 message.nonce r.nonce) (
              rt_seq _ (rt_u64 message.created_at r.created_at) (
                rt_last _ (rt_u64 message.expires_at r.expires_at) (
                  Yields-finished _ (
                    Yields-check _ (rethrow (leb message.expires_at message.created_at) _ _ h2)
                      (Yields-pure message [])))))))))
      (omega arith)

-- If a RecognitionResponseMessage can be encoded, the bytes fit one frame and decode to it.
pub decode_recognition_response-encode_recognition_response :
    (message : RecognitionResponseMessage) {bs : List ℕ}
    → RecognitionResponseInRange message
    → encode_recognition_response message ≡ ok bs
    → (decode_recognition_response bs ≡ ok message) × (length bs ≤ max_frame_payload)
unfolding encode_recognition_response decode_recognition_response
decode_recognition_response-encode_recognition_response message r e =
    decoded-written _ _ e
      (rt_checked λ h1. rt_seq _ (rt_id 32 message.room_id r.room_id) (
        rt_check _ h1 (
          rt_seq _ (rt_id 32 message.nonce r.nonce) (
            rt_seq _ (rt_u16 message.suite_id r.suite_id) (
              rt_seq _ (rt_bytes message.prover_public_key _) (
                rt_last _ (rt_bytes message.signature _)
                  (Yields-finished _ (Yields-pure message []))))))))
      (omega arith)

-- If a TradeEphemeralKeyMessage can be encoded, the bytes fit one frame and decode to it.
pub decode_trade_ephemeral_key-encode_trade_ephemeral_key :
    (message : TradeEphemeralKeyMessage) {bs : List ℕ}
    → TradeEphemeralKeyInRange message
    → encode_trade_ephemeral_key message ≡ ok bs
    → (decode_trade_ephemeral_key bs ≡ ok message) × (length bs ≤ max_frame_payload)
unfolding encode_trade_ephemeral_key decode_trade_ephemeral_key
decode_trade_ephemeral_key-encode_trade_ephemeral_key message r e =
    decoded-written _ _ e
      (rt_checked λ h1. rt_seq _ (rt_id 32 message.room_id r.room_id) (
        rt_check _ h1 (
          rt_seq _ (rt_id 32 message.ephemeral_public_key r.ephemeral_public_key) (
            rt_last _
              (rt_id 1952 message.ephemeral_public_key_mldsa65 r.ephemeral_public_key_mldsa65)
              (Yields-finished _ (Yields-pure message []))))))
      (omega arith)

-- If a ReceiptAckMessage can be encoded, the bytes fit one frame and decode to it.
pub decode_receipt_ack-encode_receipt_ack :
    (message : ReceiptAckMessage) {bs : List ℕ}
    → ReceiptAckInRange message
    → encode_receipt_ack message ≡ ok bs
    → (decode_receipt_ack bs ≡ ok message) × (length bs ≤ max_frame_payload)
unfolding encode_receipt_ack decode_receipt_ack
decode_receipt_ack-encode_receipt_ack message r e =
    decoded-written _ _ e
      (rt_checked λ h1. rt_seq _ (rt_id 32 message.room_id r.room_id) (
        rt_check _ h1 (
          rt_seq _ (rt_u8 message.stage) (
            rt_seq _ (rt_u64 message.timestamp r.timestamp) (
              rt_seq _ (rt_id 64 message.signature r.signature) (
                rt_last _ (rt_id 3309 message.signature_mldsa65 r.signature_mldsa65)
                  (Yields-finished _ (Yields-pure message []))))))))
      (omega arith)

-- If a ReceiptAckRequiredMessage can be encoded, the bytes fit one frame and decode to it.
pub decode_receipt_ack_required-encode_receipt_ack_required :
    (message : ReceiptAckRequiredMessage) {bs : List ℕ}
    → ReceiptAckRequiredInRange message
    → encode_receipt_ack_required message ≡ ok bs
    → (decode_receipt_ack_required bs ≡ ok message) × (length bs ≤ max_frame_payload)
unfolding encode_receipt_ack_required decode_receipt_ack_required
decode_receipt_ack_required-encode_receipt_ack_required message r e =
    decoded-written _ _ e
      (rt_checked λ h1.
        rt_last _ (rt_id 32 message.room_id r.room_id)
          (Yields-check _ h1 (Yields-finished _ (Yields-pure message []))))
      (omega arith)

-- If a FeeConfirmationPendingMessage can be encoded, the bytes fit one frame and decode to it.
pub decode_fee_confirmation_pending-encode_fee_confirmation_pending :
    (message : FeeConfirmationPendingMessage) {bs : List ℕ}
    → FeeConfirmationPendingInRange message
    → encode_fee_confirmation_pending message ≡ ok bs
    → (decode_fee_confirmation_pending bs ≡ ok message) × (length bs ≤ max_frame_payload)
unfolding encode_fee_confirmation_pending decode_fee_confirmation_pending
decode_fee_confirmation_pending-encode_fee_confirmation_pending message r e =
    decoded-written _ _ e
      (rt_checked λ h1.
        rt_last _ (rt_id 32 message.room_id r.room_id)
          (Yields-check _ h1 (Yields-finished _ (Yields-pure message []))))
      (omega arith)
