-- ===== src/Protocol/Invites.antt =====
-- The welcome and invitation messages of include/tradep2p/protocol.hpp and their encoders in
-- src/protocol.cpp. A decoder names its checks in the order of the source.
use tradep2p.Base.{ℕ, List, Result}
use tradep2p.Protocol.Wire.Bytes.{IsArray}
use tradep2p.Protocol.Wire.Writer
use tradep2p.Protocol.Wire.Writer.{◌>>◌, written}
use tradep2p.Protocol.Wire.Reader
use tradep2p.Protocol.Wire.Reader.{◌>>=◌, decoded, pure}
use tradep2p.Protocol.Types.{TradeTerms, TermsInRange, FeeTerms, FeeInRange, max_address_length}
use tradep2p.Protocol.Validate.{
  validate_address, validate_client_id, validate_invite_id, validate_terms,
}
use tradep2p.Protocol.Terms.{append_terms, read_terms, append_fee_terms, read_fee_terms}
pub mod RoundTrip
pub mod Canonical

pub record WelcomeMessage : Type 0 where
  pub client_id : List ℕ
  pub fee : FeeTerms

pub record WelcomeInRange (m : WelcomeMessage) : Type 0 where
  pub client_id : IsArray 16 m.client_id
  pub fee : FeeInRange m.fee

unfoldable pub encode_welcome : WelcomeMessage → Result (List ℕ)
encode_welcome message = written do
  Writer.check (validate_client_id message.client_id)
  Writer.fixed_id message.client_id
  append_fee_terms message.fee

unfoldable pub decode_welcome : List ℕ → Result WelcomeMessage
decode_welcome = decoded do
  client_id ← Reader.fixed_id 16
  fee ← read_fee_terms
  _ ← Reader.check (validate_client_id client_id)
  _ ← Reader.require_finished
  pure (record { client_id = client_id; fee = fee })

pub record InviteTradeMessage : Type 0 where
  pub target : List ℕ
  pub terms : TradeTerms
  pub receive_address_a : List ℕ

pub record InviteTradeInRange (m : InviteTradeMessage) : Type 0 where
  pub target : IsArray 16 m.target
  pub terms : TermsInRange m.terms

unfoldable pub encode_invite_trade : InviteTradeMessage → Result (List ℕ)
encode_invite_trade message = written do
  Writer.check (validate_client_id message.target)
  Writer.check (validate_terms message.terms)
  Writer.check (validate_address message.receive_address_a)
  Writer.fixed_id message.target
  append_terms message.terms
  Writer.short_string message.receive_address_a max_address_length

unfoldable pub decode_invite_trade : List ℕ → Result InviteTradeMessage
decode_invite_trade = decoded do
  target ← Reader.fixed_id 16
  terms ← read_terms
  receive_address_a ← Reader.short_string max_address_length
  _ ← Reader.check (validate_client_id target)
  _ ← Reader.check (validate_address receive_address_a)
  _ ← Reader.require_finished
  pure (record { target = target; terms = terms; receive_address_a = receive_address_a })

pub record InviteCreatedMessage : Type 0 where
  pub invite_id : List ℕ
  pub target : List ℕ

pub record InviteCreatedInRange (m : InviteCreatedMessage) : Type 0 where
  pub invite_id : IsArray 16 m.invite_id
  pub target : IsArray 16 m.target

unfoldable pub encode_invite_created : InviteCreatedMessage → Result (List ℕ)
encode_invite_created message = written do
  Writer.check (validate_invite_id message.invite_id)
  Writer.check (validate_client_id message.target)
  Writer.fixed_id message.invite_id
  Writer.fixed_id message.target

unfoldable pub decode_invite_created : List ℕ → Result InviteCreatedMessage
decode_invite_created = decoded do
  invite_id ← Reader.fixed_id 16
  target ← Reader.fixed_id 16
  _ ← Reader.check (validate_invite_id invite_id)
  _ ← Reader.check (validate_client_id target)
  _ ← Reader.require_finished
  pure (record { invite_id = invite_id; target = target })

pub record InviteReceivedMessage : Type 0 where
  pub invite_id : List ℕ
  pub sender : List ℕ
  pub terms : TradeTerms
  pub receive_address_a : List ℕ

pub record InviteReceivedInRange (m : InviteReceivedMessage) : Type 0 where
  pub invite_id : IsArray 16 m.invite_id
  pub sender : IsArray 16 m.sender
  pub terms : TermsInRange m.terms

unfoldable pub encode_invite_received : InviteReceivedMessage → Result (List ℕ)
encode_invite_received message = written do
  Writer.check (validate_invite_id message.invite_id)
  Writer.check (validate_client_id message.sender)
  Writer.check (validate_terms message.terms)
  Writer.check (validate_address message.receive_address_a)
  Writer.fixed_id message.invite_id
  Writer.fixed_id message.sender
  append_terms message.terms
  Writer.short_string message.receive_address_a max_address_length

unfoldable pub decode_invite_received : List ℕ → Result InviteReceivedMessage
decode_invite_received = decoded do
  invite_id ← Reader.fixed_id 16
  sender ← Reader.fixed_id 16
  terms ← read_terms
  receive_address_a ← Reader.short_string max_address_length
  _ ← Reader.check (validate_invite_id invite_id)
  _ ← Reader.check (validate_client_id sender)
  _ ← Reader.check (validate_address receive_address_a)
  _ ← Reader.require_finished
  pure (record {
    invite_id = invite_id;
    sender = sender;
    terms = terms;
    receive_address_a = receive_address_a;
  })

pub record AcceptInviteMessage : Type 0 where
  pub invite_id : List ℕ
  pub receive_address_b : List ℕ

pub record AcceptInviteInRange (m : AcceptInviteMessage) : Type 0 where
  pub invite_id : IsArray 16 m.invite_id

unfoldable pub encode_accept_invite : AcceptInviteMessage → Result (List ℕ)
encode_accept_invite message = written do
  Writer.check (validate_invite_id message.invite_id)
  Writer.check (validate_address message.receive_address_b)
  Writer.fixed_id message.invite_id
  Writer.short_string message.receive_address_b max_address_length

unfoldable pub decode_accept_invite : List ℕ → Result AcceptInviteMessage
decode_accept_invite = decoded do
  invite_id ← Reader.fixed_id 16
  receive_address_b ← Reader.short_string max_address_length
  _ ← Reader.check (validate_invite_id invite_id)
  _ ← Reader.check (validate_address receive_address_b)
  _ ← Reader.require_finished
  pure (record { invite_id = invite_id; receive_address_b = receive_address_b })

pub record DeclineInviteMessage : Type 0 where
  pub invite_id : List ℕ

pub record DeclineInviteInRange (m : DeclineInviteMessage) : Type 0 where
  pub invite_id : IsArray 16 m.invite_id

unfoldable pub encode_decline_invite : DeclineInviteMessage → Result (List ℕ)
encode_decline_invite message =
    written
      do Writer.check (validate_invite_id message.invite_id); Writer.fixed_id message.invite_id

unfoldable pub decode_decline_invite : List ℕ → Result DeclineInviteMessage
decode_decline_invite = decoded do
  invite_id ← Reader.fixed_id 16
  _ ← Reader.check (validate_invite_id invite_id)
  _ ← Reader.require_finished
  pure (record { invite_id = invite_id })

pub record InviteDeclinedMessage : Type 0 where
  pub invite_id : List ℕ

pub record InviteDeclinedInRange (m : InviteDeclinedMessage) : Type 0 where
  pub invite_id : IsArray 16 m.invite_id

unfoldable pub encode_invite_declined : InviteDeclinedMessage → Result (List ℕ)
encode_invite_declined message =
    written
      do Writer.check (validate_invite_id message.invite_id); Writer.fixed_id message.invite_id

unfoldable pub decode_invite_declined : List ℕ → Result InviteDeclinedMessage
decode_invite_declined = decoded do
  invite_id ← Reader.fixed_id 16
  _ ← Reader.check (validate_invite_id invite_id)
  _ ← Reader.require_finished
  pure (record { invite_id = invite_id })
