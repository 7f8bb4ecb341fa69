-- ===== src/Protocol/Disclosure.antt =====
-- ReceiptDisclosureMessage of include/tradep2p/protocol.hpp and its encoder in src/protocol.cpp.
-- Each disclosed receipt stands in the message as the encoding of a ReceiptIssuedMessage.
use tradep2p.Base.{
  ℕ, ◌≡◌, List, Bool, true, false, ltb, if◌then◌else◌, length, All, Result, ok, err, bind, throw_if,
  invalid_argument, runtime_error,
}
use tradep2p.Protocol.Wire.Bytes.{IsU64, IsArray}
use tradep2p.Protocol.Wire.Writer
use tradep2p.Protocol.Wire.Writer.{Writer, ◌>>◌, written}
use tradep2p.Protocol.Wire.Reader
use tradep2p.Protocol.Wire.Reader.{Reader, ◌>>=◌, decoded, pure}
use tradep2p.Protocol.Types.{max_frame_payload}
use tradep2p.Protocol.Validate.{validate_room_id}
use tradep2p.Protocol.Issued.{
  ReceiptIssuedMessage, ReceiptIssuedInRange, encode_receipt_issued, decode_receipt_issued,
}
pub mod RoundTrip

abbrev pub disclosure_max_chain_entries : ℕ
disclosure_max_chain_entries = 8

pub record ReceiptDisclosureMessage : Type 0 where
  pub room_id : List ℕ
  pub recipient_ephemeral_key : List ℕ
  pub disclosed_chain_hash : List ℕ
  pub timestamp : ℕ
  pub nonce : List ℕ
  pub signature : List ℕ
  pub signature_mldsa65 : List ℕ
  pub chain : List ReceiptIssuedMessage

pub record ReceiptDisclosureInRange (m : ReceiptDisclosureMessage) : Type 0 where
  pub room_id : IsArray 32 m.room_id
  pub recipient_ephemeral_key : IsArray 32 m.recipient_ephemeral_key
  pub disclosed_chain_hash : IsArray 32 m.disclosed_chain_hash
  pub timestamp : IsU64 m.timestamp
  pub nonce : IsArray 16 m.nonce
  pub signature : IsArray 64 m.signature
  pub signature_mldsa65 : IsArray 3309 m.signature_mldsa65
  pub chain : All ReceiptIssuedInRange m.chain

-- `writer.short_string(encode_receipt_issued(entry), kMaxFramePayload)`
unfoldable pub append_entry : ReceiptIssuedMessage → Writer
append_entry entry out =
    bind (encode_receipt_issued entry)
      (λ entry_bytes. Writer.short_string entry_bytes max_frame_payload out)

unfoldable pub read_entry : Reader ReceiptIssuedMessage
read_entry = do
  entry_bytes ← Reader.short_string max_frame_payload
  λ input. bind (decode_receipt_issued entry_bytes) (λ entry. ok (entry, input))

unfoldable pub write_disclosure : ReceiptDisclosureMessage → Writer
write_disclosure message = do
  Writer.check (validate_room_id message.room_id)
  Writer.check (throw_if (ltb disclosure_max_chain_entries (length message.chain)) invalid_argument)
  Writer.fixed_id message.room_id
  Writer.fixed_id message.recipient_ephemeral_key
  Writer.fixed_id message.disclosed_chain_hash
  Writer.u64 message.timestamp
  Writer.fixed_id message.nonce
  Writer.fixed_id message.signature
  Writer.fixed_id message.signature_mldsa65
  Writer.check (throw_if (ltb 255 (length message.chain)) invalid_argument)
  Writer.u8 (length message.chain)
  Writer.each append_entry message.chain

unfoldable pub encode_receipt_disclosure : ReceiptDisclosureMessage → Result (List ℕ)
encode_receipt_disclosure message = bind (written (write_disclosure message)) (λ result.
    bind (throw_if (ltb max_frame_payload (length result)) invalid_argument) (λ _. ok result))

unfoldable pub read_disclosure : Reader ReceiptDisclosureMessage
read_disclosure = do
  room_id ← Reader.fixed_id 32
  _ ← Reader.check (validate_room_id room_id)
  recipient_ephemeral_key ← Reader.fixed_id 32
  disclosed_chain_hash ← Reader.fixed_id 32
  timestamp ← Reader.u64
  nonce ← Reader.fixed_id 16
  signature ← Reader.fixed_id 64
  signature_mldsa65 ← Reader.fixed_id 3309
  count ← Reader.u8
  _ ← Reader.check (throw_if (ltb disclosure_max_chain_entries count) runtime_error)
  chain ← Reader.times count read_entry
  _ ← Reader.require_finished
  pure (record {
    room_id = room_id;
    recipient_ephemeral_key = recipient_ephemeral_key;
    disclosed_chain_hash = disclosed_chain_hash;
    timestamp = timestamp;
    nonce = nonce;
    signature = signature;
    signature_mldsa65 = signature_mldsa65;
    chain = chain;
  })

unfoldable pub decode_receipt_disclosure : List ℕ → Result ReceiptDisclosureMessage
decode_receipt_disclosure input =
    bind (throw_if (ltb max_frame_payload (length input)) runtime_error)
      (λ _. decoded read_disclosure input)
