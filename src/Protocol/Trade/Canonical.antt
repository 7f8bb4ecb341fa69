-- ===== src/Protocol/Trade/Canonical.antt =====
-- The decoders of the settlement messages (src/protocol.cpp), followed by their encoders.
use tradep2p.Base.{ℕ, ◌≡◌, List, ok}
use tradep2p.Protocol.Wire.Bytes.{IsBytes}
use tradep2p.Protocol.Wire.Canonical.{
  wr_seq, wr_last, wr_checked, ra_seq, ra_check, ra_finished, rn_pure, decoded_of_ReadsAll,
  written_of_Writes, rd_u32, rd_id, rd_short_string,
}
use tradep2p.Protocol.Terms.Canonical.{rd_party, rd_terms, rd_fee_terms}
use tradep2p.Protocol.Trade.{
  TradeReadyMessage, TradeReadyInRange, encode_trade_ready, decode_trade_ready, RoundSignalMessage,
  RoundSignalInRange, encode_round_signal, decode_round_signal, CompleteMessage, CompleteInRange,
  encode_complete, decode_complete, AbortMessage, AbortInRange, encode_abort, decode_abort,
  ErrorMessage, encode_error, decode_error,
}

-- Bytes that decode to a TradeReadyMessage are its encoding, and its fields are in the range of
-- their types.
pub encode_trade_ready-decode_trade_ready :
    (bs : List ℕ) {message : TradeReadyMessage}
    → IsBytes bs
    → decode_trade_ready bs ≡ ok message
    → TradeReadyInRange message × (encode_trade_ready message ≡ ok bs)
unfolding encode_trade_ready decode_trade_ready
encode_trade_ready-decode_trade_ready bs h e =
    decoded_of_ReadsAll _
      {Q = λ message bs. TradeReadyInRange message × (encode_trade_ready message ≡ ok bs)} bs
      (ra_seq _ (rd_id 32) λ room_id _ (r1, w1). ra_seq _ rd_party λ assigned_party _ w2.
        ra_seq _ (rd_id 16) λ peer_id _ (r3, w3). ra_seq _ rd_terms λ terms _ (r4, v4, w4).
          ra_seq _ (rd_short_string _) λ receive_address_a _ w5.
            ra_seq _ (rd_short_string _) λ receive_address_b _ w6.
              ra_seq _ rd_fee_terms λ fee _ (r7, w7). ra_check _ λ k1. ra_check _ λ k2.
                ra_check _ λ k3. ra_check _ λ k4. ra_check _ λ k5. ra_finished _ (
                  rn_pure _ (
                    record { room_id = r1; peer_id = r3; terms = r4; fee = r7 },
                    written_of_Writes (
                        wr_checked k1 (
                          wr_checked k2 (
                            wr_checked k3 (
                              wr_checked v4 (
                                wr_checked k4 (
                                  wr_checked k5 (
                                    wr_seq w1 (
                                      wr_seq w2 (
                                        wr_seq w3
                                          (wr_seq w4 (wr_seq w5 (wr_seq w6 (wr_last w7))))))))))))),
                  )))
      h e

-- Bytes that decode to a RoundSignalMessage are its encoding, and its fields are in the range of
-- their types.
pub encode_round_signal-decode_round_signal :
    (bs : List ℕ) {message : RoundSignalMessage}
    → IsBytes bs
    → decode_round_signal bs ≡ ok message
    → RoundSignalInRange message × (encode_round_signal message ≡ ok bs)
unfolding encode_round_signal decode_round_signal
encode_round_signal-decode_round_signal bs h e =
    decoded_of_ReadsAll _
      {Q = λ message bs. RoundSignalInRange message × (encode_round_signal message ≡ ok bs)} bs
      (ra_seq _ (rd_id 32) λ room_id _ (r1, w1). ra_seq _ rd_u32 λ round_index _ (r2, w2).
        ra_seq _ rd_party λ sender _ w3. ra_check _ λ k1. ra_check _ λ k2. ra_finished _ (
          rn_pure _ (
            record { room_id = r1; round_index = r2 },
            written_of_Writes (wr_checked k1 (wr_checked k2 (wr_seq w1 (wr_seq w2 (wr_last w3))))),
          )))
      h e

-- Bytes that decode to a CompleteMessage are its encoding, and its fields are in the range of
-- their types.
pub encode_complete-decode_complete :
    (bs : List ℕ) {message : CompleteMessage}
    → IsBytes bs
    → decode_complete bs ≡ ok message
    → CompleteInRange message × (encode_complete message ≡ ok bs)
unfolding encode_complete decode_complete
encode_complete-decode_complete bs h e =
    decoded_of_ReadsAll _
      {Q = λ message bs. CompleteInRange message × (encode_complete message ≡ ok bs)} bs
      (ra_seq _ (rd_id 32) λ room_id _ (r1, w1). ra_check _ λ k1.
        ra_finished _
          (rn_pure _ (record { room_id = r1 }, written_of_Writes (wr_checked k1 (wr_last w1)))))
      h e

-- Bytes that decode to an AbortMessage are its encoding, and its fields are in the range of their
-- types.
pub encode_abort-decode_abort :
    (bs : List ℕ) {message : AbortMessage}
    → IsBytes bs
    → decode_abort bs ≡ ok message
    → AbortInRange message × (encode_abort message ≡ ok bs)
unfolding encode_abort decode_abort
encode_abort-decode_abort bs h e =
    decoded_of_ReadsAll _ {Q = λ message bs. AbortInRange message × (encode_abort message ≡ ok bs)}
      bs
      (ra_seq _ (rd_id 32) λ room_id _ (r1, w1). ra_seq _ (rd_short_string _) λ reason _ w2.
        ra_check _ λ k1. ra_check _ λ k2. ra_finished _ (
          rn_pure _ (
            record { room_id = r1 },
            written_of_Writes (wr_checked k1 (wr_checked k2 (wr_seq w1 (wr_last w2)))),
          )))
      h e

-- Bytes that decode to an ErrorMessage are its encoding, and its fields are in the range of their
-- types.
pub encode_error-decode_error :
    (bs : List ℕ) {message : ErrorMessage}
    → IsBytes bs
    → decode_error bs ≡ ok message
    → encode_error message ≡ ok bs
unfolding encode_error decode_error
encode_error-decode_error bs h e =
    decoded_of_ReadsAll _ {Q = λ message bs. encode_error message ≡ ok bs} bs
      (ra_seq _ (rd_short_string _) λ reason _ w1.
        ra_check _ λ k1. ra_finished _ (rn_pure _ (written_of_Writes (wr_checked k1 (wr_last w1)))))
      h e
