-- ===== src/Protocol/Issued/Canonical.antt =====
-- The decoders of ReceiptIssuedMessage (src/protocol.cpp), followed by their encoders.
use tradep2p.Base.{ℕ, ◌≡◌, List, ok}
use tradep2p.Protocol.Wire.Bytes.{IsBytes}
use tradep2p.Protocol.Wire.Canonical.{
  wr_seq, wr_last, wr_checked, ra_seq, ra_check, ra_finished, rn_pure, decoded_of_ReadsAll,
  written_of_Writes, rd_u8, rd_u64, rd_id, rd_short_string,
}
use tradep2p.Protocol.Terms.Canonical.{rd_flag}
use tradep2p.Protocol.Issued.{
  ReceiptIssuedMessage, ReceiptIssuedInRange, encode_receipt_issued, decode_receipt_issued,
}

-- Bytes that decode to a ReceiptIssuedMessage are its encoding, and its fields are in the range
-- of their types.
pub encode_receipt_issued-decode_receipt_issued :
    (bs : List ℕ) {message : ReceiptIssuedMessage}
    → IsBytes bs
    → decode_receipt_issued bs ≡ ok message
    → ReceiptIssuedInRange message × (encode_receipt_issued message ≡ ok bs)
unfolding encode_receipt_issued decode_receipt_issued
encode_receipt_issued-decode_receipt_issued bs h e =
    decoded_of_ReadsAll _
      {Q = λ message bs. ReceiptIssuedInRange message × (encode_receipt_issued message ≡ ok bs)} bs
      (ra_seq _ (rd_id 32) λ room_id _ (r1, w1). ra_check _ λ k1.
        ra_seq _ (rd_short_string _) λ mediator_id _ w2. ra_seq _ rd_u8 λ stage _ (r3, w3).
          ra_seq _ rd_flag λ completed _ w4. ra_seq _ (rd_id 32) λ terms_commitment _ (r5, w5).
            ra_seq _ (rd_id 32) λ party_a_ephemeral_key _ (r6, w6).
              ra_seq _ (rd_id 32) λ party_b_ephemeral_key _ (r7, w7).
                ra_seq _ (rd_id 1952) λ party_a_ephemeral_key_mldsa65 _ (r8, w8).
                  ra_seq _ (rd_id 1952) λ party_b_ephemeral_key_mldsa65 _ (r9, w9).
                    ra_seq _ (rd_id 32) λ mediator_public_key _ (r10, w10).
                      ra_seq _ (rd_id 1952) λ mediator_public_key_mldsa65 _ (r11, w11).
                        ra_seq _ rd_u64 λ timestamp _ (r12, w12).
                          ra_seq _ (rd_id 16) λ nonce _ (r13, w13).
                            ra_seq _ (rd_id 32) λ previous_stage_hash _ (r14, w14).
                              ra_seq _ (rd_id 64) λ mediator_signature _ (r15, w15).
                                ra_seq _ (rd_id 3309) λ mediator_signature_mldsa65 _ (r16, w16).
                                  ra_finished _ (
                                    rn_pure _ (
                                      record {
                                        room_id = r1;
                                        stage = r3;
                                        terms_commitment = r5;
                                        party_a_ephemeral_key = r6;
                                        party_b_ephemeral_key = r7;
                                        party_a_ephemeral_key_mldsa65 = r8;
                                        party_b_ephemeral_key_mldsa65 = r9;
                                        mediator_public_key = r10;
                                        mediator_public_key_mldsa65 = r11;
                                        timestamp = r12;
                                        nonce = r13;
                                        previous_stage_hash = r14;
                                        mediator_signature = r15;
                                        mediator_signature_mldsa65 = r16;
                                      },
                                      written_of_Writes (
                                          wr_checked k1 (
                                            wr_seq w1 (
                                              wr_seq w2 (
                                                wr_seq w3 (
                                                  wr_seq w4 (
                                                    wr_seq w5 (
                                                      wr_seq w6 (
                                                        wr_seq w7 (
                                                          wr_seq w8 (
                                                            wr_seq w9 (
                                                            wr_seq w10 (
                                                            wr_seq w11 (
                                                            wr_seq w12 (
                                                            wr_seq w13 (
                                                            wr_seq w14 (
                                                            wr_seq w15
                                                            (wr_last w16))))))))))))))))),
                                    )))
      h e
