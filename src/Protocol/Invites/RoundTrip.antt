-- ===== src/Protocol/Invites/RoundTrip.antt =====
-- The encoders of the welcome and invitation messages (src/protocol.cpp), followed by their
-- decoders.
use tradep2p.Base.{ℕ, ◌≡◌, ◌≤◌, List, [], arith, length, ok}
use tradep2p.Protocol.Types.{max_frame_payload}
use tradep2p.Protocol.Wire.RoundTrip.{
  rt_seq, rt_last, rt_checked, Yields-check, Yields-finished, Yields-pure, decoded-written, rt_id,
  rt_short_string,
}
use tradep2p.Protocol.Terms.RoundTrip.{rt_terms, rt_fee_terms}
use tradep2p.Protocol.Invites.{
  WelcomeMessage, WelcomeInRange, encode_welcome, decode_welcome, InviteTradeMessage,
  InviteTradeInRange, encode_invite_trade, decode_invite_trade, InviteCreatedMessage,
  InviteCreatedInRange, encode_invite_created, decode_invite_created, InviteReceivedMessage,
  InviteReceivedInRange, encode_invite_received, decode_invite_received, AcceptInviteMessage,
  AcceptInviteInRange, encode_accept_invite, decode_accept_invite, DeclineInviteMessage,
  DeclineInviteInRange, encode_decline_invite, decode_decline_invite, InviteDeclinedMessage,
  InviteDeclinedInRange, encode_invite_declined, decode_invite_declined,
}

-- If a WelcomeMessage whose fields are in the range of their types can be encoded, the bytes fit
-- the payload of one frame and decode to it.
pub decode_welcome-encode_welcome :
    (message : WelcomeMessage) {bs : List ℕ}
    → WelcomeInRange message
    → encode_welcome message ≡ ok bs
    → (decode_welcome bs ≡ ok message) × (length bs ≤ max_frame_payload)
unfolding encode_welcome decode_welcome
decode_welcome-encode_welcome message r e =
    decoded-written _ _ e
      (rt_checked λ h1. rt_seq _ (rt_id 16 message.client_id r.client_id) (
        rt_last _ (rt_fee_terms message.fee r.fee)
          (Yields-check _ h1 (Yields-finished _ (Yields-pure message [])))))
      (omega arith)

-- If an InviteTradeMessage can be encoded, the bytes fit one frame and decode to it.
pub decode_invite_trade-encode_invite_trade :
    (message : InviteTradeMessage) {bs : List ℕ}
    → InviteTradeInRange message
    → encode_invite_trade message ≡ ok bs
    → (decode_invite_trade bs ≡ ok message) × (length bs ≤ max_frame_payload)
unfolding encode_invite_trade decode_invite_trade
decode_invite_trade-encode_invite_trade message r e =
    decoded-written _ _ e
      (rt_checked λ h1. rt_checked λ _. rt_checked λ h3.
        rt_seq _ (rt_id 16 message.target r.target) (
          rt_seq _ (rt_terms message.terms r.terms) (
            rt_last _ (rt_short_string message.receive_address_a _) (
              Yields-check _ h1 (Yields-check _ h3 (Yields-finished _ (Yields-pure message [])))))))
      (omega arith)

-- If an InviteCreatedMessage can be encoded, the bytes fit one frame and decode to it.
pub decode_invite_created-encode_invite_created :
    (message : InviteCreatedMessage) {bs : List ℕ}
    → InviteCreatedInRange message
    → encode_invite_created message ≡ ok bs
    → (decode_invite_created bs ≡ ok message) × (length bs ≤ max_frame_payload)
unfolding encode_invite_created decode_invite_created
decode_invite_created-encode_invite_created message r e =
    decoded-written _ _ e
      (rt_checked λ h1. rt_checked λ h2. rt_seq _ (rt_id 16 message.invite_id r.invite_id) (
        rt_last _ (rt_id 16 message.target r.target)
          (Yields-check _ h1 (Yields-check _ h2 (Yields-finished _ (Yields-pure message []))))))
      (omega arith)

-- If an InviteReceivedMessage whose fields are in the range of their types can be encoded, the
-- bytes fit the payload of one frame and decode to it.
pub decode_invite_received-encode_invite_received :
    (message : InviteReceivedMessage) {bs : List ℕ}
    → InviteReceivedInRange message
    → encode_invite_received message ≡ ok bs
    → (decode_invite_received bs ≡ ok message) × (length bs ≤ max_frame_payload)
unfolding encode_invite_received decode_invite_received
decode_invite_received-encode_invite_received message r e =
    decoded-written _ _ e
      (rt_checked λ h1. rt_checked λ h2. rt_checked λ _. rt_checked λ h4.
        rt_seq _ (rt_id 16 message.invite_id r.invite_id) (
          rt_seq _ (rt_id 16 message.sender r.sender) (
            rt_seq _ (rt_terms message.terms r.terms) (
              rt_last _ (rt_short_string message.receive_address_a _) (
                Yields-check _ h1 (
                  Yields-check _ h2
                    (Yields-check _ h4 (Yields-finished _ (Yields-pure message [])))))))))
      (omega arith)

-- If an AcceptInviteMessage can be encoded, the bytes fit one frame and decode to it.
pub decode_accept_invite-encode_accept_invite :
    (message : AcceptInviteMessage) {bs : List ℕ}
    → AcceptInviteInRange message
    → encode_accept_invite message ≡ ok bs
    → (decode_accept_invite bs ≡ ok message) × (length bs ≤ max_frame_payload)
unfolding encode_accept_invite decode_accept_invite
decode_accept_invite-encode_accept_invite message r e =
    decoded-written _ _ e
      (rt_checked λ h1. rt_checked λ h2. rt_seq _ (rt_id 16 message.invite_id r.invite_id) (
        rt_last _ (rt_short_string message.receive_address_b _)
          (Yields-check _ h1 (Yields-check _ h2 (Yields-finished _ (Yields-pure message []))))))
      (omega arith)

-- If a DeclineInviteMessage can be encoded, the bytes fit one frame and decode to it.
pub decode_decline_invite-encode_decline_invite :
    (message : DeclineInviteMessage) {bs : List ℕ}
    → DeclineInviteInRange message
    → encode_decline_invite message ≡ ok bs
    → (decode_decline_invite bs ≡ ok message) × (length bs ≤ max_frame_payload)
unfolding encode_decline_invite decode_decline_invite
decode_decline_invite-encode_decline_invite message r e =
    decoded-written _ _ e
      (rt_checked λ h1.
        rt_last _ (rt_id 16 message.invite_id r.invite_id)
          (Yields-check _ h1 (Yields-finished _ (Yields-pure message []))))
      (omega arith)

-- If an InviteDeclinedMessage can be encoded, the bytes fit one frame and decode to it.
pub decode_invite_declined-encode_invite_declined :
    (message : InviteDeclinedMessage) {bs : List ℕ}
    → InviteDeclinedInRange message
    → encode_invite_declined message ≡ ok bs
    → (decode_invite_declined bs ≡ ok message) × (length bs ≤ max_frame_payload)
unfolding encode_invite_declined decode_invite_declined
decode_invite_declined-encode_invite_declined message r e =
    decoded-written _ _ e
      (rt_checked λ h1.
        rt_last _ (rt_id 16 message.invite_id r.invite_id)
          (Yields-check _ h1 (Yields-finished _ (Yields-pure message []))))
      (omega arith)
