-- ===== src/Protocol/Receipts.antt =====
-- The recognition and receipt messages of include/tradep2p/protocol.hpp and their encoders in
-- src/protocol.cpp. A decoder names its checks in the order of the source.
use tradep2p.Base.{ℕ, List, leb, Result, throw_if, invalid_argument, runtime_error}
use tradep2p.Protocol.Wire.Bytes.{IsByte, IsU16, IsU64, IsArray}
use tradep2p.Protocol.Wire.Writer
use tradep2p.Protocol.Wire.Writer.{◌>>◌, written}
use tradep2p.Protocol.Wire.Reader
use tradep2p.Protocol.Wire.Reader.{◌>>=◌, decoded, pure}
use tradep2p.Protocol.Validate.{validate_room_id}
pub mod RoundTrip
pub mod Canonical

pub record RecoveryStateRequestMessage : Type 0 where
  pub room_id : List ℕ

pub record RecoveryStateRequestInRange (m : RecoveryStateRequestMessage) : Type 0 where
  pub room_id : IsArray 32 m.room_id

unfoldable pub encode_recovery_state_request : RecoveryStateRequestMessage → Result (List ℕ)
encode_recovery_state_request message =
    written do Writer.check (validate_room_id message.room_id); Writer.fixed_id message.room_id

unfoldable pub decode_recovery_state_request : List ℕ → Result RecoveryStateRequestMessage
decode_recovery_state_request = decoded do
  room_id ← Reader.fixed_id 32
  _ ← Reader.check (validate_room_id room_id)
  _ ← Reader.require_finished
  pure (record { room_id = room_id })

pub record RecognitionChallengeMessage : Type 0 where
  pub room_id : List ℕ
  pub suite_id : ℕ
  pub nonce : List ℕ
  pub created_at : ℕ
  pub expires_at : ℕ

pub record RecognitionChallengeInRange (m : RecognitionChallengeMessage) : Type 0 where
  pub room_id : IsArray 32 m.room_id
  pub suite_id : IsU16 m.suite_id
  pub nonce : IsArray 32 m.nonce
  pub created_at : IsU64 m.created_at
  pub expires_at : IsU64 m.expires_at

unfoldable pub encode_recognition_challenge : RecognitionChallengeMessage → Result (List ℕ)
encode_recognition_challenge message = written do
  Writer.check (validate_room_id message.room_id)
  Writer.check (throw_if (leb message.expires_at message.created_at) invalid_argument)
  Writer.fixed_id message.room_id
  Writer.u16 message.suite_id
  Writer.fixed_id message.nonce
  Writer.u64 message.created_at
  Writer.u64 message.expires_at

unfoldable pub decode_recognition_challenge : List ℕ → Result RecognitionChallengeMessage
decode_recognition_challenge = decoded do
  room_id ← Reader.fixed_id 32
  _ ← Reader.check (validate_room_id room_id)
  suite_id ← Reader.u16
  nonce ← Reader.fixed_id 32
  created_at ← Reader.u64
  expires_at ← Reader.u64
  _ ← Reader.require_finished
  _ ← Reader.check (throw_if (leb expires_at created_at) runtime_error)
  pure (record {
    room_id = room_id;
    suite_id = suite_id;
    nonce = nonce;
    created_at = created_at;
    expires_at = expires_at;
  })

pub record RecognitionResponseMessage : Type 0 where
  pub room_id : List ℕ
  pub nonce : List ℕ
  pub suite_id : ℕ
  pub prover_public_key : List ℕ
  pub signature : List ℕ

pub record RecognitionResponseInRange (m : RecognitionResponseMessage) : Type 0 where
  pub room_id : IsArray 32 m.room_id
  pub nonce : IsArray 32 m.nonce
  pub suite_id : IsU16 m.suite_id

unfoldable pub encode_recognition_response : RecognitionResponseMessage → Result (List ℕ)
encode_recognition_response message = written do
  Writer.check (validate_room_id message.room_id)
  Writer.fixed_id message.room_id
  Writer.fixed_id message.nonce
  Writer.u16 message.suite_id
  Writer.bytes message.prover_public_key 1952
  Writer.bytes message.signature 3309

unfoldable pub decode_recognition_response : List ℕ → Result RecognitionResponseMessage
decode_recognition_response = decoded do
  room_id ← Reader.fixed_id 32
  _ ← Reader.check (validate_room_id room_id)
  nonce ← Reader.fixed_id 32
  suite_id ← Reader.u16
  prover_public_key ← Reader.bytes 1952
  signature ← Reader.bytes 3309
  _ ← Reader.require_finished
  pure (record {
    room_id = room_id;
    nonce = nonce;
    suite_id = suite_id;
    prover_public_key = prover_public_key;
    signature = signature;
  })

pub record TradeEphemeralKeyMessage : Type 0 where
  pub room_id : List ℕ
  pub ephemeral_public_key : List ℕ
  pub ephemeral_public_key_mldsa65 : List ℕ

pub record TradeEphemeralKeyInRange (m : TradeEphemeralKeyMessage) : Type 0 where
  pub room_id : IsArray 32 m.room_id
  pub ephemeral_public_key : IsArray 32 m.ephemeral_public_key
  pub ephemeral_public_key_mldsa65 : IsArray 1952 m.ephemeral_public_key_mldsa65

unfoldable pub encode_trade_ephemeral_key : TradeEphemeralKeyMessage → Result (List ℕ)
encode_trade_ephemeral_key message = written do
  Writer.check (validate_room_id message.room_id)
  Writer.fixed_id message.room_id
  Writer.fixed_id message.ephemeral_public_key
  Writer.fixed_id message.ephemeral_public_key_mldsa65

unfoldable pub decode_trade_ephemeral_key : List ℕ → Result TradeEphemeralKeyMessage
decode_trade_ephemeral_key = decoded do
  room_id ← Reader.fixed_id 32
  _ ← Reader.check (validate_room_id room_id)
  ephemeral_public_key ← Reader.fixed_id 32
  ephemeral_public_key_mldsa65 ← Reader.fixed_id 1952
  _ ← Reader.require_finished
  pure (record {
    room_id = room_id;
    ephemeral_public_key = ephemeral_public_key;
    ephemeral_public_key_mldsa65 = ephemeral_public_key_mldsa65;
  })

pub record ReceiptAckMessage : Type 0 where
  pub room_id : List ℕ
  pub stage : ℕ
  pub timestamp : ℕ
  pub signature : List ℕ
  pub signature_mldsa65 : List ℕ

pub record ReceiptAckInRange (m : ReceiptAckMessage) : Type 0 where
  pub room_id : IsArray 32 m.room_id
  pub stage : IsByte m.stage
  pub timestamp : IsU64 m.timestamp
  pub signature : IsArray 64 m.signature
  pub signature_mldsa65 : IsArray 3309 m.signature_mldsa65

unfoldable pub encode_receipt_ack : ReceiptAckMessage → Result (List ℕ)
encode_receipt_ack message = written do
  Writer.check (validate_room_id message.room_id)
  Writer.fixed_id message.room_id
  Writer.u8 message.stage
  Writer.u64 message.timestamp
  Writer.fixed_id message.signature
  Writer.fixed_id message.signature_mldsa65

unfoldable pub decode_receipt_ack : List ℕ → Result ReceiptAckMessage
decode_receipt_ack = decoded do
  room_id ← Reader.fixed_id 32
  _ ← Reader.check (validate_room_id room_id)
  stage ← Reader.u8
  timestamp ← Reader.u64
  signature ← Reader.fixed_id 64
  signature_mldsa65 ← Reader.fixed_id 3309
  _ ← Reader.require_finished
  pure (record {
    room_id = room_id;
    stage = stage;
    timestamp = timestamp;
    signature = signature;
    signature_mldsa65 = signature_mldsa65;
  })

pub record ReceiptAckRequiredMessage : Type 0 where
  pub room_id : List ℕ

pub record ReceiptAckRequiredInRange (m : ReceiptAckRequiredMessage) : Type 0 where
  pub room_id : IsArray 32 m.room_id

unfoldable pub encode_receipt_ack_required : ReceiptAckRequiredMessage → Result (List ℕ)
encode_receipt_ack_required message =
    written do Writer.check (validate_room_id message.room_id); Writer.fixed_id message.room_id

unfoldable pub decode_receipt_ack_required : List ℕ → Result ReceiptAckRequiredMessage
decode_receipt_ack_required = decoded do
  room_id ← Reader.fixed_id 32
  _ ← Reader.check (validate_room_id room_id)
  _ ← Reader.require_finished
  pure (record { room_id = room_id })

pub record FeeConfirmationPendingMessage : Type 0 where
  pub room_id : List ℕ

pub record FeeConfirmationPendingInRange (m : FeeConfirmationPendingMessage) : Type 0 where
  pub room_id : IsArray 32 m.room_id

unfoldable pub encode_fee_confirmation_pending : FeeConfirmationPendingMessage → Result (List ℕ)
encode_fee_confirmation_pending message =
    written do Writer.check (validate_room_id message.room_id); Writer.fixed_id message.room_id

unfoldable pub decode_fee_confirmation_pending : List ℕ → Result FeeConfirmationPendingMessage
decode_fee_confirmation_pending = decoded do
  room_id ← Reader.fixed_id 32
  _ ← Reader.check (validate_room_id room_id)
  _ ← Reader.require_finished
  pure (record { room_id = room_id })
