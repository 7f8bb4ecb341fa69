-- ===== src/Protocol/Issued.antt =====
-- ReceiptIssuedMessage of include/tradep2p/protocol.hpp and its encoder in src/protocol.cpp. A
-- decoder names its checks in the order of the source.
use tradep2p.Base.{ℕ, Bool, List, Result}
use tradep2p.Protocol.Wire.Bytes.{IsByte, IsU64, IsArray}
use tradep2p.Protocol.Wire.Writer
use tradep2p.Protocol.Wire.Writer.{◌>>◌, written}
use tradep2p.Protocol.Wire.Reader
use tradep2p.Protocol.Wire.Reader.{◌>>=◌, decoded, pure}
use tradep2p.Protocol.Validate.{validate_room_id}
use tradep2p.Protocol.Terms.{flag_to_u8, read_flag}
pub mod RoundTrip
pub mod Canonical

pub record ReceiptIssuedMessage : Type 0 where
  pub room_id : List ℕ
  pub mediator_id : List ℕ
  pub stage : ℕ
  pub completed : Bool
  pub terms_commitment : List ℕ
  pub party_a_ephemeral_key : List ℕ
  pub party_b_ephemeral_key : List ℕ
  pub party_a_ephemeral_key_mldsa65 : List ℕ
  pub party_b_ephemeral_key_mldsa65 : List ℕ
  pub mediator_public_key : List ℕ
  pub mediator_public_key_mldsa65 : List ℕ
  pub timestamp : ℕ
  pub nonce : List ℕ
  pub previous_stage_hash : List ℕ
  pub mediator_signature : List ℕ
  pub mediator_signature_mldsa65 : List ℕ

pub record ReceiptIssuedInRange (m : ReceiptIssuedMessage) : Type 0 where
  pub room_id : IsArray 32 m.room_id
  pub stage : IsByte m.stage
  pub terms_commitment : IsArray 32 m.terms_commitment
  pub party_a_ephemeral_key : IsArray 32 m.party_a_ephemeral_key
  pub party_b_ephemeral_key : IsArray 32 m.party_b_ephemeral_key
  pub party_a_ephemeral_key_mldsa65 : IsArray 1952 m.party_a_ephemeral_key_mldsa65
  pub party_b_ephemeral_key_mldsa65 : IsArray 1952 m.party_b_ephemeral_key_mldsa65
  pub mediator_public_key : IsArray 32 m.mediator_public_key
  pub mediator_public_key_mldsa65 : IsArray 1952 m.mediator_public_key_mldsa65
  pub timestamp : IsU64 m.timestamp
  pub nonce : IsArray 16 m.nonce
  pub previous_stage_hash : IsArray 32 m.previous_stage_hash
  pub mediator_signature : IsArray 64 m.mediator_signature
  pub mediator_signature_mldsa65 : IsArray 3309 m.mediator_signature_mldsa65

unfoldable pub encode_receipt_issued : ReceiptIssuedMessage → Result (List ℕ)
encode_receipt_issued message = written do
  Writer.check (validate_room_id message.room_id)
  Writer.fixed_id message.room_id
  Writer.short_string message.mediator_id 256
  Writer.u8 message.stage
  Writer.u8 (flag_to_u8 message.completed)
  Writer.fixed_id message.terms_commitment
  Writer.fixed_id message.party_a_ephemeral_key
  Writer.fixed_id message.party_b_ephemeral_key
  Writer.fixed_id message.party_a_ephemeral_key_mldsa65
  Writer.fixed_id message.party_b_ephemeral_key_mldsa65
  Writer.fixed_id message.mediator_public_key
  Writer.fixed_id message.mediator_public_key_mldsa65
  Writer.u64 message.timestamp
  Writer.fixed_id message.nonce
  Writer.fixed_id message.previous_stage_hash
  Writer.fixed_id message.mediator_signature
  Writer.fixed_id message.mediator_signature_mldsa65

unfoldable pub decode_receipt_issued : List ℕ → Result ReceiptIssuedMessage
decode_receipt_issued = decoded do
  room_id ← Reader.fixed_id 32
  _ ← Reader.check (validate_room_id room_id)
  mediator_id ← Reader.short_string 256
  stage ← Reader.u8
  completed ← read_flag
  terms_commitment ← Reader.fixed_id 32
  party_a_ephemeral_key ← Reader.fixed_id 32
  party_b_ephemeral_key ← Reader.fixed_id 32
  party_a_ephemeral_key_mldsa65 ← Reader.fixed_id 1952
  party_b_ephemeral_key_mldsa65 ← Reader.fixed_id 1952
  mediator_public_key ← Reader.fixed_id 32
  mediator_public_key_mldsa65 ← Reader.fixed_id 1952
  timestamp ← Reader.u64
  nonce ← Reader.fixed_id 16
  previous_stage_hash ← Reader.fixed_id 32
  mediator_signature ← Reader.fixed_id 64
  mediator_signature_mldsa65 ← Reader.fixed_id 3309
  _ ← Reader.require_finished
  pure (record {
    room_id = room_id;
    mediator_id = mediator_id;
    stage = stage;
    completed = completed;
    terms_commitment = terms_commitment;
    party_a_ephemeral_key = party_a_ephemeral_key;
    party_b_ephemeral_key = party_b_ephemeral_key;
    party_a_ephemeral_key_mldsa65 = party_a_ephemeral_key_mldsa65;
    party_b_ephemeral_key_mldsa65 = party_b_ephemeral_key_mldsa65;
    mediator_public_key = mediator_public_key;
    mediator_public_key_mldsa65 = mediator_public_key_mldsa65;
    timestamp = timestamp;
    nonce = nonce;
    previous_stage_hash = previous_stage_hash;
    mediator_signature = mediator_signature;
    mediator_signature_mldsa65 = mediator_signature_mldsa65;
  })
