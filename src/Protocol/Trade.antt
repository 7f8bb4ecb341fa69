-- ===== src/Protocol/Trade.antt =====
-- The settlement messages of include/tradep2p/protocol.hpp and their encoders in
-- src/protocol.cpp. A decoder names its checks in the order of the source.
use tradep2p.Base.{ℕ, Bool, List, ◌==◌, Result, throw_if, invalid_argument}
use tradep2p.Protocol.Wire.Bytes.{IsU32, IsU64, IsArray}
use tradep2p.Protocol.Wire.Writer
use tradep2p.Protocol.Wire.Writer.{◌>>◌, written}
use tradep2p.Protocol.Wire.Reader
use tradep2p.Protocol.Wire.Reader.{◌>>=◌, decoded, pure}
use tradep2p.Protocol.Types.{
  Party, TradeTerms, TermsInRange, FeeTerms, FeeInRange, party_to_u8, max_asset_code_length,
  max_address_length, max_reason_length,
}
use tradep2p.Protocol.Validate.{
  validate_party, validate_asset, validate_address, validate_reason, validate_room_id,
  validate_client_id, validate_terms,
}
use tradep2p.Protocol.Terms.{
  read_party, flag_to_u8, read_bool, append_terms, read_terms, append_fee_terms, read_fee_terms,
}
pub mod RoundTrip
pub mod Canonical

pub record TradeReadyMessage : Type 0 where
  pub room_id : List ℕ
  pub assigned_party : Party
  pub peer_id : List ℕ
  pub terms : TradeTerms
  pub receive_address_a : List ℕ
  pub receive_address_b : List ℕ
  pub fee : FeeTerms

pub record TradeReadyInRange (m : TradeReadyMessage) : Type 0 where
  pub room_id : IsArray 32 m.room_id
  pub peer_id : IsArray 16 m.peer_id
  pub terms : TermsInRange m.terms
  pub fee : FeeInRange m.fee

unfoldable pub encode_trade_ready : TradeReadyMessage → Result (List ℕ)
encode_trade_ready message = written do
  Writer.check (validate_room_id message.room_id)
  Writer.check (validate_party message.assigned_party)
  Writer.check (validate_client_id message.peer_id)
  Writer.check (validate_terms message.terms)
  Writer.check (validate_address message.receive_address_a)
  Writer.check (validate_address message.receive_address_b)
  Writer.fixed_id message.room_id
  Writer.u8 (party_to_u8 message.assigned_party)
  Writer.fixed_id message.peer_id
  append_terms message.terms
  Writer.short_string message.receive_address_a max_address_length
  Writer.short_string message.receive_address_b max_address_length
  append_fee_terms message.fee

unfoldable pub decode_trade_ready : List ℕ → Result TradeReadyMessage
decode_trade_ready = decoded do
  room_id ← Reader.fixed_id 32
  assigned_party ← read_party
  peer_id ← Reader.fixed_id 16
  terms ← read_terms
  receive_address_a ← Reader.short_string max_address_length
  receive_address_b ← Reader.short_string max_address_length
  fee ← read_fee_terms
  _ ← Reader.check (validate_room_id room_id)
  _ ← Reader.check (validate_party assigned_party)
  _ ← Reader.check (validate_client_id peer_id)
  _ ← Reader.check (validate_address receive_address_a)
  _ ← Reader.check (validate_address receive_address_b)
  _ ← Reader.require_finished
  pure (record {
    room_id = room_id;
    assigned_party = assigned_party;
    peer_id = peer_id;
    terms = terms;
    receive_address_a = receive_address_a;
    receive_address_b = receive_address_b;
    fee = fee;
  })

pub record TurnMessage : Type 0 where
  pub room_id : List ℕ
  pub round_index : ℕ
  pub sender : Party
  pub asset : List ℕ
  pub amount : ℕ
  pub destination : List ℕ
  pub is_fee : Bool

pub record TurnInRange (m : TurnMessage) : Type 0 where
  pub room_id : IsArray 32 m.room_id
  pub round_index : IsU32 m.round_index
  pub amount : IsU64 m.amount

unfoldable pub encode_turn : TurnMessage → Result (List ℕ)
encode_turn message = written do
  Writer.check (validate_room_id message.room_id)
  Writer.check (validate_party message.sender)
  Writer.check (validate_asset message.asset)
  Writer.check (validate_address message.destination)
  Writer.check (throw_if (message.amount == 0) invalid_argument)
  Writer.fixed_id message.room_id
  Writer.u32 message.round_index
  Writer.u8 (party_to_u8 message.sender)
  Writer.short_string message.asset max_asset_code_length
  Writer.u64 message.amount
  Writer.short_string message.destination max_address_length
  Writer.u8 (flag_to_u8 message.is_fee)

unfoldable pub decode_turn : List ℕ → Result TurnMessage
decode_turn = decoded do
  room_id ← Reader.fixed_id 32
  round_index ← Reader.u32
  sender ← read_party
  asset ← Reader.short_string max_asset_code_length
  amount ← Reader.u64
  destination ← Reader.short_string max_address_length
  is_fee ← read_bool
  _ ← Reader.check (validate_room_id room_id)
  _ ← Reader.check (validate_party sender)
  _ ← Reader.check (validate_asset asset)
  _ ← Reader.check (validate_address destination)
  _ ← Reader.check (throw_if (amount == 0) invalid_argument)
  _ ← Reader.require_finished
  pure (record {
    room_id = room_id;
    round_index = round_index;
    sender = sender;
    asset = asset;
    amount = amount;
    destination = destination;
    is_fee = is_fee;
  })

pub record RoundSignalMessage : Type 0 where
  pub room_id : List ℕ
  pub round_index : ℕ
  pub sender : Party

pub record RoundSignalInRange (m : RoundSignalMessage) : Type 0 where
  pub room_id : IsArray 32 m.room_id
  pub round_index : IsU32 m.round_index

unfoldable pub encode_round_signal : RoundSignalMessage → Result (List ℕ)
encode_round_signal message = written do
  Writer.check (validate_room_id message.room_id)
  Writer.check (validate_party message.sender)
  Writer.fixed_id message.room_id
  Writer.u32 message.round_index
  Writer.u8 (party_to_u8 message.sender)

unfoldable pub decode_round_signal : List ℕ → Result RoundSignalMessage
decode_round_signal = decoded do
  room_id ← Reader.fixed_id 32
  round_index ← Reader.u32
  sender ← read_party
  _ ← Reader.check (validate_room_id room_id)
  _ ← Reader.check (validate_party sender)
  _ ← Reader.require_finished
  pure (record { room_id = room_id; round_index = round_index; sender = sender })

pub record CompleteMessage : Type 0 where
  pub room_id : List ℕ

pub record CompleteInRange (m : CompleteMessage) : Type 0 where
  pub room_id : IsArray 32 m.room_id

unfoldable pub encode_complete : CompleteMessage → Result (List ℕ)
encode_complete message =
    written do Writer.check (validate_room_id message.room_id); Writer.fixed_id message.room_id

unfoldable pub decode_complete : List ℕ → Result CompleteMessage
decode_complete = decoded do
  room_id ← Reader.fixed_id 32
  _ ← Reader.check (validate_room_id room_id)
  _ ← Reader.require_finished
  pure (record { room_id = room_id })

pub record AbortMessage : Type 0 where
  pub room_id : List ℕ
  pub reason : List ℕ

pub record AbortInRange (m : AbortMessage) : Type 0 where
  pub room_id : IsArray 32 m.room_id

unfoldable pub encode_abort : AbortMessage → Result (List ℕ)
encode_abort message = written do
  Writer.check (validate_room_id message.room_id)
  Writer.check (validate_reason message.reason)
  Writer.fixed_id message.room_id
  Writer.short_string message.reason max_reason_length

unfoldable pub decode_abort : List ℕ → Result AbortMessage
decode_abort = decoded do
  room_id ← Reader.fixed_id 32
  reason ← Reader.short_string max_reason_length
  _ ← Reader.check (validate_room_id room_id)
  _ ← Reader.check (validate_reason reason)
  _ ← Reader.require_finished
  pure (record { room_id = room_id; reason = reason })

pub record ErrorMessage : Type 0 where
  pub reason : List ℕ

unfoldable pub encode_error : ErrorMessage → Result (List ℕ)
encode_error message = written do
  Writer.check (validate_reason message.reason)
  Writer.short_string message.reason max_reason_length

unfoldable pub decode_error : List ℕ → Result ErrorMessage
decode_error = decoded do
  reason ← Reader.short_string max_reason_length
  _ ← Reader.check (validate_reason reason)
  _ ← Reader.require_finished
  pure (record { reason = reason })
