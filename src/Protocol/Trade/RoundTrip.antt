-- ===== src/Protocol/Trade/RoundTrip.antt =====
-- The encoders of the settlement messages (src/protocol.cpp), followed by their decoders.
use tradep2p.Base.{ℕ, ◌≡◌, ◌≤◌, List, [], arith, length, ok}
use tradep2p.Protocol.Types.{max_frame_payload}
use tradep2p.Protocol.Wire.RoundTrip.{
  rt_seq, rt_last, rt_checked, Yields-check, Yields-finished, Yields-pure, decoded-written, rt_u32,
  rt_u64, rt_id, rt_short_string,
}
use tradep2p.Protocol.Terms.RoundTrip.{rt_party, rt_bool, rt_terms, rt_fee_terms}
use tradep2p.Protocol.Trade.{
  TradeReadyMessage, TradeReadyInRange, encode_trade_ready, decode_trade_ready, TurnMessage,
  TurnInRange, encode_turn, decode_turn, RoundSignalMessage, RoundSignalInRange,
  encode_round_signal, decode_round_signal, CompleteMessage, CompleteInRange, encode_complete,
  decode_complete, AbortMessage, AbortInRange, encode_abort, decode_abort, ErrorMessage,
  encode_error, decode_error,
}

-- If a TradeReadyMessage whose fields are in the range of their types can be encoded, the bytes
-- fit the payload of one frame and decode to it.
pub decode_trade_ready-encode_trade_ready :
    (message : TradeReadyMessage) {bs : List ℕ}
    → TradeReadyInRange message
    → encode_trade_ready message ≡ ok bs
    → (decode_trade_ready bs ≡ ok message) × (length bs ≤ max_frame_payload)
unfolding encode_trade_ready decode_trade_ready
decode_trade_ready-encode_trade_ready message r e =
    decoded-written _ _ e
      (rt_checked λ h1. rt_checked λ h2. rt_checked λ h3. rt_checked λ _. rt_checked λ h5.
        rt_checked λ h6. rt_seq _ (rt_id 32 message.room_id r.room_id) (
          rt_seq _ (rt_party message.assigned_party h2) (
            rt_seq _ (rt_id 16 message.peer_id r.peer_id) (
              rt_seq _ (rt_terms message.terms r.terms) (
                rt_seq _ (rt_short_string message.receive_address_a _) (
                  rt_seq _ (rt_short_string message.receive_address_b _) (
                    rt_last _ (rt_fee_terms message.fee r.fee) (
                      Yields-check _ h1 (
                        Yields-check _ h2 (
                          Yields-check _ h3 (
                            Yields-check _ h5 (
                              Yields-check _ h6
                                (Yields-finished _ (Yields-pure message []))))))))))))))
      (omega arith)

-- If a TurnMessage whose fields are in the range of their types can be encoded, the bytes fit the
-- payload of one frame and decode to it.
pub decode_turn-encode_turn :
    (message : TurnMessage) {bs : List ℕ}
    → TurnInRange message
    → encode_turn message ≡ ok bs
    → (decode_turn bs ≡ ok message) × (length bs ≤ max_frame_payload)
unfolding encode_turn decode_turn
decode_turn-encode_turn message r e =
    decoded-written _ _ e
      (rt_checked λ h1. rt_checked λ h2. rt_checked λ h3. rt_checked λ h4. rt_checked λ h5.
        rt_seq _ (rt_id 32 message.room_id r.room_id) (
          rt_seq _ (rt_u32 message.round_index r.round_index) (
            rt_seq _ (rt_party message.sender h2) (
              rt_seq _ (rt_short_string message.asset _) (
                rt_seq _ (rt_u64 message.amount r.amount) (
                  rt_seq _ (rt_short_string message.destination _) (
                    rt_last _ (rt_bool message.is_fee) (
                      Yields-check _ h1 (
                        Yields-check _ h2 (
                          Yields-check _ h3 (
                            Yields-check _ h4 (
                              Yields-check _ h5
                                (Yields-finished _ (Yields-pure message []))))))))))))))
      (omega arith)

-- If a RoundSignalMessage whose fields are in the range of their types can be encoded, the bytes
-- fit the payload of one frame and decode to it.
pub decode_round_signal-encode_round_signal :
    (message : RoundSignalMessage) {bs : List ℕ}
    → RoundSignalInRange message
    → encode_round_signal message ≡ ok bs
    → (decode_round_signal bs ≡ ok message) × (length bs ≤ max_frame_payload)
unfolding encode_round_signal decode_round_signal
decode_round_signal-encode_round_signal message r e =
    decoded-written _ _ e
      (rt_checked λ h1. rt_checked λ h2. rt_seq _ (rt_id 32 message.room_id r.room_id) (
        rt_seq _ (rt_u32 message.round_index r.round_index) (
          rt_last _ (rt_party message.sender h2)
            (Yields-check _ h1 (Yields-check _ h2 (Yields-finished _ (Yields-pure message [])))))))
      (omega arith)

-- If a CompleteMessage can be encoded, the bytes fit one frame and decode to it.
pub decode_complete-encode_complete :
    (message : CompleteMessage) {bs : List ℕ}
    → CompleteInRange message
    → encode_complete message ≡ ok bs
    → (decode_complete bs ≡ ok message) × (length bs ≤ max_frame_payload)
unfolding encode_complete decode_complete
decode_complete-encode_complete message r e =
    decoded-written _ _ e
      (rt_checked λ h1.
        rt_last _ (rt_id 32 message.room_id r.room_id)
          (Yields-check _ h1 (Yields-finished _ (Yields-pure message []))))
      (omega arith)

-- If an AbortMessage can be encoded, the bytes fit one frame and decode to it.
pub decode_abort-encode_abort :
    (message : AbortMessage) {bs : List ℕ}
    → AbortInRange message
    → encode_abort message ≡ ok bs
    → (decode_abort bs ≡ ok message) × (length bs ≤ max_frame_payload)
unfolding encode_abort decode_abort
decode_abort-encode_abort message r e =
    decoded-written _ _ e
      (rt_checked λ h1. rt_checked λ h2. rt_seq _ (rt_id 32 message.room_id r.room_id) (
        rt_last _ (rt_short_string message.reason _)
          (Yields-check _ h1 (Yields-check _ h2 (Yields-finished _ (Yields-pure message []))))))
      (omega arith)

-- If an ErrorMessage can be encoded, the bytes fit one frame and decode to it.
pub decode_error-encode_error :
    (message : ErrorMessage) {bs : List ℕ}
    → encode_error message ≡ ok bs
    → (decode_error bs ≡ ok message) × (length bs ≤ max_frame_payload)
unfolding encode_error decode_error
decode_error-encode_error message e =
    decoded-written _ _ e
      (rt_checked λ h1.
        rt_last _ (rt_short_string message.reason _)
          (Yields-check _ h1 (Yields-finished _ (Yields-pure message []))))
      (omega arith)
