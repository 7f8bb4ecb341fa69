-- ===== src/Protocol/Invites/Canonical.antt =====
-- The decoders of the welcome and invitation messages (src/protocol.cpp), followed by their
-- encoders.
use tradep2p.Base.{ℕ, ◌≡◌, List, ok}
use tradep2p.Protocol.Wire.Bytes.{IsBytes}
use tradep2p.Protocol.Wire.Canonical.{
  wr_seq, wr_last, wr_checked, ra_seq, ra_check, ra_finished, rn_pure, decoded_of_ReadsAll,
  written_of_Writes, rd_id, rd_short_string,
}
use tradep2p.Protocol.Terms.Canonical.{rd_terms, rd_fee_terms}
use tradep2p.Protocol.Invites.{
  WelcomeMessage, WelcomeInRange, encode_welcome, decode_welcome, InviteTradeMessage,
  InviteTradeInRange, encode_invite_trade, decode_invite_trade, InviteCreatedMessage,
  InviteCreatedInRange, encode_invite_created, decode_invite_created, InviteReceivedMessage,
  InviteReceivedInRange, encode_invite_received, decode_invite_received, AcceptInviteMessage,
  AcceptInviteInRange, encode_accept_invite, decode_accept_invite, DeclineInviteMessage,
  DeclineInviteInRange, encode_decline_invite, decode_decline_invite, InviteDeclinedMessage,
  InviteDeclinedInRange, encode_invite_declined, decode_invite_declined,
}

-- Bytes that decode to a WelcomeMessage are its encoding, and its fields are in the range of
-- their types.
pub encode_welcome-decode_welcome :
    (bs : List ℕ) {message : WelcomeMessage}
    → IsBytes bs
    → decode_welcome bs ≡ ok message
    → WelcomeInRange message × (encode_welcome message ≡ ok bs)
unfolding encode_welcome decode_welcome
encode_welcome-decode_welcome bs h e =
    decoded_of_ReadsAll _
      {Q = λ message bs. WelcomeInRange message × (encode_welcome message ≡ ok bs)} bs
      (ra_seq _ (rd_id 16) λ client_id _ (r1, w1). ra_seq _ rd_fee_terms λ fee _ (r2, w2).
        ra_check _ λ k1. ra_finished _ (
          rn_pure _ (
            record { client_id = r1; fee = r2 },
            written_of_Writes (wr_checked k1 (wr_seq w1 (wr_last w2))),
          )))
      h e

-- Bytes that decode to an InviteTradeMessage are its encoding, and its fields are in the range of
-- their types.
pub encode_invite_trade-decode_invite_trade :
    (bs : List ℕ) {message : InviteTradeMessage}
    → IsBytes bs
    → decode_invite_trade bs ≡ ok message
    → InviteTradeInRange message × (encode_invite_trade message ≡ ok bs)
unfolding encode_invite_trade decode_invite_trade
encode_invite_trade-decode_invite_trade bs h e =
    decoded_of_ReadsAll _
      {Q = λ message bs. InviteTradeInRange message × (encode_invite_trade message ≡ ok bs)} bs
      (ra_seq _ (rd_id 16) λ target _ (r1, w1). ra_seq _ rd_terms λ terms _ (r2, v2, w2).
        ra_seq _ (rd_short_string _) λ receive_address_a _ w3. ra_check _ λ k1. ra_check _ λ k2.
          ra_finished _ (
            rn_pure _ (
              record { target = r1; terms = r2 },
              written_of_Writes (
                  wr_checked k1
                    (wr_checked v2 (wr_checked k2 (wr_seq w1 (wr_seq w2 (wr_last w3)))))),
            )))
      h e

-- Bytes that decode to an InviteCreatedMessage are its encoding, and its fields are in the range
-- of their types.
pub encode_invite_created-decode_invite_created :
    (bs : List ℕ) {message : InviteCreatedMessage}
    → IsBytes bs
    → decode_invite_created bs ≡ ok message
    → InviteCreatedInRange message × (encode_invite_created message ≡ ok bs)
unfolding encode_invite_created decode_invite_created
encode_invite_created-decode_invite_created bs h e =
    decoded_of_ReadsAll _
      {Q = λ message bs. InviteCreatedInRange message × (encode_invite_created message ≡ ok bs)} bs
      (ra_seq _ (rd_id 16) λ invite_id _ (r1, w1). ra_seq _ (rd_id 16) λ target _ (r2, w2).
        ra_check _ λ k1. ra_check _ λ k2. ra_finished _ (
          rn_pure _ (
            record { invite_id = r1; target = r2 },
            written_of_Writes (wr_checked k1 (wr_checked k2 (wr_seq w1 (wr_last w2)))),
          )))
      h e

-- Bytes that decode to an InviteReceivedMessage are its encoding, and its fields are in the range
-- of their types.
pub encode_invite_received-decode_invite_received :
    (bs : List ℕ) {message : InviteReceivedMessage}
    → IsBytes bs
    → decode_invite_received bs ≡ ok message
    → InviteReceivedInRange message × (encode_invite_received message ≡ ok bs)
unfolding encode_invite_received decode_invite_received
encode_invite_received-decode_invite_received bs h e =
    decoded_of_ReadsAll _
      {Q = λ message bs. InviteReceivedInRange message × (encode_invite_received message ≡ ok bs)}
      bs
      (ra_seq _ (rd_id 16) λ invite_id _ (r1, w1). ra_seq _ (rd_id 16) λ sender _ (r2, w2).
        ra_seq _ rd_terms λ terms _ (r3, v3, w3).
          ra_seq _ (rd_short_string _) λ receive_address_a _ w4. ra_check _ λ k1. ra_check _ λ k2.
            ra_check _ λ k3. ra_finished _ (
              rn_pure _ (
                record { invite_id = r1; sender = r2; terms = r3 },
                written_of_Writes (
                    wr_checked k1 (
                      wr_checked k2 (
                        wr_checked v3
                          (wr_checked k3 (wr_seq w1 (wr_seq w2 (wr_seq w3 (wr_last w4)))))))),
              )))
      h e

-- Bytes that decode to an AcceptInviteMessage are its encoding, and its fields are in the range
-- of their types.
pub encode_accept_invite-decode_accept_invite :
    (bs : List ℕ) {message : AcceptInviteMessage}
    → IsBytes bs
    → decode_accept_invite bs ≡ ok message
    → AcceptInviteInRange message × (encode_accept_invite message ≡ ok bs)
unfolding encode_accept_invite decode_accept_invite
encode_accept_invite-decode_accept_invite bs h e =
    decoded_of_ReadsAll _
      {Q = λ message bs. AcceptInviteInRange message × (encode_accept_invite message ≡ ok bs)} bs
      (ra_seq _ (rd_id 16) λ invite_id _ (r1, w1).
        ra_seq _ (rd_short_string _) λ receive_address_b _ w2. ra_check _ λ k1. ra_check _ λ k2.
          ra_finished _ (
            rn_pure _ (
              record { invite_id = r1 },
              written_of_Writes (wr_checked k1 (wr_checked k2 (wr_seq w1 (wr_last w2)))),
            )))
      h e

-- Bytes that decode to a DeclineInviteMessage are its encoding, and its fields are in the range
-- of their types.
pub encode_decline_invite-decode_decline_invite :
    (bs : List ℕ) {message : DeclineInviteMessage}
    → IsBytes bs
    → decode_decline_invite bs ≡ ok message
    → DeclineInviteInRange message × (encode_decline_invite message ≡ ok bs)
unfolding encode_decline_invite decode_decline_invite
encode_decline_invite-decode_decline_invite bs h e =
    decoded_of_ReadsAll _
      {Q = λ message bs. DeclineInviteInRange message × (encode_decline_invite message ≡ ok bs)} bs
      (ra_seq _ (rd_id 16) λ invite_id _ (r1, w1). ra_check _ λ k1.
        ra_finished _
          (rn_pure _ (record { invite_id = r1 }, written_of_Writes (wr_checked k1 (wr_last w1)))))
      h e

-- Bytes that decode to an InviteDeclinedMessage are its encoding, and its fields are in the range
-- of their types.
pub encode_invite_declined-decode_invite_declined :
    (bs : List ℕ) {message : InviteDeclinedMessage}
    → IsBytes bs
    → decode_invite_declined bs ≡ ok message
    → InviteDeclinedInRange message × (encode_invite_declined message ≡ ok bs)
unfolding encode_invite_declined decode_invite_declined
encode_invite_declined-decode_invite_declined bs h e =
    decoded_of_ReadsAll _
      {Q = λ message bs. InviteDeclinedInRange message × (encode_invite_declined message ≡ ok bs)}
      bs
      (ra_seq _ (rd_id 16) λ invite_id _ (r1, w1). ra_check _ λ k1.
        ra_finished _
          (rn_pure _ (record { invite_id = r1 }, written_of_Writes (wr_checked k1 (wr_last w1)))))
      h e
