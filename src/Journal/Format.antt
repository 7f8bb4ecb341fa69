-- ===== src/Journal/Format.antt =====
-- The byte formats of src/journal.cpp. Its Writer and Reader are copies of those of
-- src/protocol.cpp, with a JournalFormatError where that Reader throws a std::runtime_error.
use tradep2p.Base.{
  ℕ, zero, suc, ◌-◌, ◌%◌, List, [], ◌∷◌, length, take, drop, ltb, ◌==◌, not, bytes_eq,
  if◌then◌else◌, Result, ok, err, bind, throw_if, invalid_argument, journal_format,
}
use tradep2p.Protocol.Wire.Bytes.{from_big_endian}
use tradep2p.Protocol.Wire.Writer
use tradep2p.Protocol.Wire.Writer.{Writer, ◌>>◌, written}
use tradep2p.Protocol.Wire.Reader
use tradep2p.Protocol.Wire.Reader.{Reader, ◌>>=◌, decoded, pure}
use tradep2p.RoomPersistence.{session_state_to_u8, session_state_of_u8}
use tradep2p.Journal.Types.{
  MessageDirection, AcknowledgementState, JournalEntryFields, journal_max_mediator_id_length,
  journal_checkpoint_suite_ed25519_v1, journal_checkpoint_suite_ml_dsa65_v1,
}

abbrev pub record_kind_entry : ℕ
record_kind_entry = 1

abbrev pub record_kind_checkpoint : ℕ
record_kind_checkpoint = 2

abbrev pub record_kind_checkpoint_suite_v1 : ℕ
record_kind_checkpoint_suite_v1 = 3

abbrev pub max_record_body_length : ℕ
max_record_body_length = 16384

-- 'T', 'P', 'J', 'H'
abbrev pub head_magic : List ℕ
head_magic = b'T' ∷ b'P' ∷ b'J' ∷ b'H' ∷ []

abbrev pub head_format_version : ℕ
head_format_version = 1

abbrev pub head_format_version_suite_v1 : ℕ
head_format_version_suite_v1 = 2

-- "tradep2p-journal-checkpoint-v1"
abbrev pub checkpoint_domain_tag : List ℕ
checkpoint_domain_tag =
    b't' ∷ b'r' ∷ b'a' ∷ b'd' ∷ b'e' ∷ b'p' ∷ b'2' ∷ b'p' ∷ b'-' ∷ b'j' ∷ b'o' ∷ b'u' ∷ b'r' ∷ b'n'
    ∷ b'a' ∷ b'l' ∷ b'-' ∷ b'c' ∷ b'h' ∷ b'e' ∷ b'c' ∷ b'k' ∷ b'p' ∷ b'o' ∷ b'i' ∷ b'n' ∷ b't'
    ∷ b'-' ∷ b'v' ∷ b'1' ∷ []

-- "tradep2p-journal-checkpoint-suite-v1"
abbrev pub checkpoint_suite_domain_tag : List ℕ
checkpoint_suite_domain_tag =
    b't' ∷ b'r' ∷ b'a' ∷ b'd' ∷ b'e' ∷ b'p' ∷ b'2' ∷ b'p' ∷ b'-' ∷ b'j' ∷ b'o' ∷ b'u' ∷ b'r' ∷ b'n'
    ∷ b'a' ∷ b'l' ∷ b'-' ∷ b'c' ∷ b'h' ∷ b'e' ∷ b'c' ∷ b'k' ∷ b'p' ∷ b'o' ∷ b'i' ∷ b'n' ∷ b't'
    ∷ b'-' ∷ b's' ∷ b'u' ∷ b'i' ∷ b't' ∷ b'e' ∷ b'-' ∷ b'v' ∷ b'1' ∷ []

-- Every exception of a Reader is a JournalFormatError.
abbrev pub format_errors {ℓ} : {A : Type ℓ} → Result A → Result A
format_errors (ok a) = ok a
format_errors (err e) = err journal_format

-- `static_cast` to and from the base types of the enumerations.
unfoldable pub direction_to_u8 : MessageDirection → ℕ
direction_to_u8 MessageDirection.outbound = 0
direction_to_u8 MessageDirection.inbound = 1
direction_to_u8 (MessageDirection.unnamed n) = n

unfoldable pub direction_of_u8 : ℕ → MessageDirection
direction_of_u8 zero = MessageDirection.outbound
direction_of_u8 (suc zero) = MessageDirection.inbound
direction_of_u8 n = MessageDirection.unnamed n

unfoldable pub ack_state_to_u8 : AcknowledgementState → ℕ
ack_state_to_u8 AcknowledgementState.not_applicable = 0
ack_state_to_u8 AcknowledgementState.pending = 1
ack_state_to_u8 AcknowledgementState.acknowledged = 2
ack_state_to_u8 (AcknowledgementState.unnamed n) = n

unfoldable pub ack_state_of_u8 : ℕ → AcknowledgementState
ack_state_of_u8 zero = AcknowledgementState.not_applicable
ack_state_of_u8 (suc zero) = AcknowledgementState.pending
ack_state_of_u8 (suc (suc zero)) = AcknowledgementState.acknowledged
ack_state_of_u8 n = AcknowledgementState.unnamed n

unfoldable pub bytes_u16 : List ℕ → Writer
bytes_u16 value = Writer.short_string value 65535

-- The fields of an entry, behind its index.
unfoldable pub append_fields : JournalEntryFields → Writer
append_fields fields = do
  Writer.u16 fields.version
  Writer.fixed_id fields.room_id
  Writer.fixed_id fields.trade_id
  bytes_u16 fields.mediator_id
  Writer.fixed_id fields.counterparty_fingerprint
  Writer.fixed_id fields.terms_commitment
  Writer.u32 fields.round
  Writer.u8 (direction_to_u8 fields.direction)
  Writer.u16 fields.message_type
  Writer.fixed_id fields.message_hash
  Writer.u8 (ack_state_to_u8 fields.ack_state)
  Writer.u8 (session_state_to_u8 fields.local_state)
  Writer.u64 fields.timestamp

unfoldable pub append_entry_content : ℕ → JournalEntryFields → Writer
append_entry_content index fields = do
  Writer.check
      (throw_if (ltb journal_max_mediator_id_length (length fields.mediator_id)) invalid_argument)
  Writer.u64 index
  append_fields fields

unfoldable pub canonical_entry_bytes : ℕ → JournalEntryFields → Result (List ℕ)
canonical_entry_bytes index fields = written (append_entry_content index fields)

unfoldable pub decode_entry_fields : Reader JournalEntryFields
decode_entry_fields = do
  version ← Reader.u16
  room_id ← Reader.fixed_id 32
  trade_id ← Reader.fixed_id 16
  mediator_id ← Reader.short_string journal_max_mediator_id_length
  counterparty_fingerprint ← Reader.fixed_id 32
  terms_commitment ← Reader.fixed_id 32
  round ← Reader.u32
  direction ← Reader.u8
  message_type ← Reader.u16
  message_hash ← Reader.fixed_id 32
  ack_state ← Reader.u8
  local_state ← Reader.u8
  timestamp ← Reader.u64
  pure (record {
    version = version;
    room_id = room_id;
    trade_id = trade_id;
    mediator_id = mediator_id;
    counterparty_fingerprint = counterparty_fingerprint;
    terms_commitment = terms_commitment;
    round = round;
    direction = direction_of_u8 direction;
    message_type = message_type;
    message_hash = message_hash;
    ack_state = ack_state_of_u8 ack_state;
    local_state = session_state_of_u8 local_state;
    timestamp = timestamp;
  })

pub record EntryContent : Type 0 where
  pub index : ℕ
  pub fields : JournalEntryFields

unfoldable pub read_entry_content : Reader EntryContent
read_entry_content = do
  index ← Reader.u64
  fields ← decode_entry_fields
  pure (record { index = index; fields = fields })

-- What `r` reads, and the bytes up to `reader.position()`.
unfoldable pub with_bytes {ℓ} : {A : Type ℓ} → Reader A → Reader (A × List ℕ)
with_bytes r input =
    bind (r input) (λ (a, rest). ok ((a, take (length input - length rest) input), rest))

pub record EntryBody : Type 0 where
  pub content : EntryContent
  pub content_bytes : List ℕ
  pub previous_hash : List ℕ
  pub entry_hash : List ℕ

unfoldable pub read_entry_body : Reader EntryBody
read_entry_body = do
  content ← with_bytes read_entry_content
  previous_hash ← Reader.fixed_id 32
  entry_hash ← Reader.fixed_id 32
  _ ← Reader.require_finished
  pure (record {
    content = content.0;
    content_bytes = content.1;
    previous_hash = previous_hash;
    entry_hash = entry_hash;
  })

unfoldable pub checkpoint_signed_bytes : ℕ → List ℕ → ℕ → Result (List ℕ)
checkpoint_signed_bytes index hash signed_at =
    written do
      bytes_u16 checkpoint_domain_tag
      Writer.u64 index
      Writer.fixed_id hash
      Writer.u64 signed_at

unfoldable pub checkpoint_suite_signed_bytes : ℕ → ℕ → List ℕ → ℕ → Result (List ℕ)
checkpoint_suite_signed_bytes suite_id index hash signed_at = written do
  bytes_u16 checkpoint_suite_domain_tag
  Writer.u16 suite_id
  Writer.u64 index
  Writer.fixed_id hash
  Writer.u64 signed_at

unfoldable pub expected_checkpoint_signature_length : ℕ → ℕ
expected_checkpoint_signature_length suite_id =
    if suite_id == journal_checkpoint_suite_ed25519_v1
    then 64
    else (if suite_id == journal_checkpoint_suite_ml_dsa65_v1 then 3309 else 0)

-- A checkpoint as it stands in a record of the log or in the head file.
pub record HeadPointer : Type 0 where
  pub suite_id : ℕ
  pub index : ℕ
  pub hash : List ℕ
  pub signed_at : ℕ
  pub signature : List ℕ

unfoldable pub append_checkpoint : HeadPointer → Writer
append_checkpoint head = do
  Writer.u64 head.index
  Writer.fixed_id head.hash
  Writer.u64 head.signed_at
  Writer.fixed_id head.signature

unfoldable pub append_suite_checkpoint : HeadPointer → Writer
append_suite_checkpoint head = do Writer.u16 head.suite_id; append_checkpoint head

-- `reader.bytes_remaining()`
unfoldable pub bytes_remaining : Reader (List ℕ)
bytes_remaining input = ok (input, [])

-- The signature of a suite is all that remains, and has the length of the suite.
unfoldable pub read_suite_signature : ℕ → Reader (List ℕ)
read_suite_signature suite_id = do
  signature ← bytes_remaining
  _ ← Reader.check (
      throw_if (not (length signature == expected_checkpoint_signature_length suite_id))
        journal_format)
  pure signature

unfoldable pub read_checkpoint : Reader HeadPointer
read_checkpoint = do
  index ← Reader.u64
  hash ← Reader.fixed_id 32
  signed_at ← Reader.u64
  signature ← Reader.fixed_id 64
  _ ← Reader.require_finished
  pure (record {
    suite_id = journal_checkpoint_suite_ed25519_v1;
    index = index;
    hash = hash;
    signed_at = signed_at;
    signature = signature;
  })

unfoldable pub read_suite_checkpoint : Reader HeadPointer
read_suite_checkpoint = do
  suite_id ← Reader.u16
  index ← Reader.u64
  hash ← Reader.fixed_id 32
  signed_at ← Reader.u64
  _ ← Reader.check (throw_if (expected_checkpoint_signature_length suite_id == 0) journal_format)
  signature ← read_suite_signature suite_id
  pure (record {
    suite_id = suite_id;
    index = index;
    hash = hash;
    signed_at = signed_at;
    signature = signature;
  })

unfoldable pub encode_head : HeadPointer → Result (List ℕ)
encode_head head = written (
    if head.suite_id == journal_checkpoint_suite_ed25519_v1
    then (do Writer.fixed_id head_magic; Writer.u16 head_format_version; append_checkpoint head)
    else (do
      Writer.fixed_id head_magic
      Writer.u16 head_format_version_suite_v1
      append_suite_checkpoint head))

unfoldable pub read_versioned_head : ℕ → Reader HeadPointer
read_versioned_head version =
    if version == head_format_version
    then read_checkpoint
    else (if version == head_format_version_suite_v1
        then (do head ← read_suite_checkpoint; _ ← Reader.require_finished; pure head)
        else λ input. err journal_format)

unfoldable pub read_head : Reader HeadPointer
read_head = do
  magic ← Reader.fixed_id 4
  _ ← Reader.check (throw_if (not (bytes_eq magic head_magic)) journal_format)
  version ← Reader.u16
  read_versioned_head version

unfoldable pub decode_head : List ℕ → Result HeadPointer
decode_head bytes = format_errors (decoded read_head bytes)

-- What stands at the front of the log: nothing, the beginning of a record that was cut short, a
-- record that is too long, or a record and the bytes behind it.
pub data Framing : Type 0 where
  finished torn too_long : Framing
  framed : ℕ → List ℕ → List ℕ → Framing

abbrev pub framed_body : ℕ → ℕ → List ℕ → Framing
framed_body kind body_length rest =
    if ltb max_record_body_length body_length
    then too_long
    else (if ltb (length rest) body_length
        then torn
        else framed kind (take body_length rest) (drop body_length rest))

unfoldable pub next_record : List ℕ → Framing
next_record [] = finished
next_record (kind ∷ b1 ∷ b2 ∷ b3 ∷ b4 ∷ rest) =
    framed_body kind (from_big_endian 4294967296 0 (b1 ∷ b2 ∷ b3 ∷ b4 ∷ [])) rest
next_record _ = torn

unfoldable pub frame : ℕ → List ℕ → Result (List ℕ)
frame kind body =
    written do Writer.u8 kind; Writer.u32 (length body % 4294967296); Writer.fixed_id body
