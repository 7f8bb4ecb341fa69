-- ===== src/Protocol/Issued/RoundTrip.antt =====
-- The encoders of ReceiptIssuedMessage (src/protocol.cpp), followed by their decoders.
use tradep2p.Base.{ℕ, ◌≡◌, ◌≤◌, List, [], arith, length, ok}
use tradep2p.Protocol.Types.{max_frame_payload}
use tradep2p.Protocol.Wire.RoundTrip.{
  rt_seq, rt_last, rt_checked, rt_check, Yields-finished, Yields-pure, decoded-written, rt_u8,
  rt_u64, rt_id, rt_short_string,
}
use tradep2p.Protocol.Terms.RoundTrip.{rt_flag}
use tradep2p.Protocol.Issued.{
  ReceiptIssuedMessage, ReceiptIssuedInRange, encode_receipt_issued, decode_receipt_issued,
}

-- If a ReceiptIssuedMessage whose fields are in the range of their types can be encoded, the
-- bytes fit the payload of one frame and decode to it.
pub decode_receipt_issued-encode_receipt_issued :
    (message : ReceiptIssuedMessage) {bs : List ℕ}
    → ReceiptIssuedInRange message
    → encode_receipt_issued message ≡ ok bs
    → (decode_receipt_issued bs ≡ ok message) × (length bs ≤ max_frame_payload)
unfolding encode_receipt_issued decode_receipt_issued
decode_receipt_issued-encode_receipt_issued message r e =
    decoded-written _ _ e
      (rt_checked λ h1. rt_seq _ (rt_id 32 message.room_id r.room_id) (
        rt_check _ h1 (
          rt_seq _ (rt_short_string message.mediator_id _) (
            rt_seq _ (rt_u8 message.stage) (
              rt_seq _ (rt_flag message.completed) (
                rt_seq _ (rt_id 32 message.terms_commitment r.terms_commitment) (
                  rt_seq _ (rt_id 32 message.party_a_ephemeral_key r.party_a_ephemeral_key) (
                    rt_seq _ (rt_id 32 message.party_b_ephemeral_key r.party_b_ephemeral_key) (
                      rt_seq _
                        (rt_id 1952 message.party_a_ephemeral_key_mldsa65
                          r.party_a_ephemeral_key_mldsa65)
                        (rt_seq _
                          (rt_id 1952 message.party_b_ephemeral_key_mldsa65
                            r.party_b_ephemeral_key_mldsa65)
                          (rt_seq _ (rt_id 32 message.mediator_public_key r.mediator_public_key) (
                            rt_seq _
                              (rt_id 1952 message.mediator_public_key_mldsa65
                                r.mediator_public_key_mldsa65)
                              (rt_seq _ (rt_u64 message.timestamp r.timestamp) (
                                rt_seq _ (rt_id 16 message.nonce r.nonce) (
                                  rt_seq _
                                    (rt_id 32 message.previous_stage_hash r.previous_stage_hash)
                                    (rt_seq _
                                      (rt_id 64 message.mediator_signature r.mediator_signature)
                                      (rt_last _
                                        (rt_id 3309 message.mediator_signature_mldsa65
                                          r.mediator_signature_mldsa65)
                                        (Yields-finished _
                                          (Yields-pure message [])))))))))))))))))))
      (omega arith)
