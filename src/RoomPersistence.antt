-- ===== src/RoomPersistence.antt =====
-- The rooms that the mediator keeps on disk: include/tradep2p/room_persistence.hpp and the
-- encoding of src/room_persistence.cpp. Its Writer and Reader are copies of those of
-- src/protocol.cpp, with a PersistenceFormatError where that Reader throws a std::runtime_error.
use tradep2p.Base.{
  ℕ, zero, suc, ◌+◌, ◌%◌, List, [], ◌∷◌, ◌++◌, Bool, true, false, length, ltb, ◌==◌, not, bytes_eq,
  if◌then◌else◌, Result, ok, err, bind, throw_if, invalid_argument, persistence_format,
}
use tradep2p.Protocol.Wire.Writer
use tradep2p.Protocol.Wire.Writer.{Writer, ◌>>◌, written}
use tradep2p.Protocol.Wire.Reader
use tradep2p.Protocol.Wire.Reader.{Reader, ◌>>=◌, decoded, pure}
use tradep2p.Protocol.Types.{TradeTerms, FeeTerms, max_reason_length}
use tradep2p.Protocol.Validate.{validate_room_id, validate_client_id}
use tradep2p.Protocol.Terms.{encode_terms, decode_terms, append_fee_terms, read_fee_terms}
use tradep2p.Mediator.Session.{SessionState}
pub mod RoundTrip
pub mod Restart
mod Examples

abbrev pub persisted_room_format_version : ℕ
persisted_room_format_version = 1

-- 'T', 'P', 'R', 'S'
abbrev pub magic : List ℕ
magic = b'T' ∷ b'P' ∷ b'R' ∷ b'S' ∷ []

abbrev pub max_room_body_length : ℕ
max_room_body_length = 8192

abbrev pub max_room_count : ℕ
max_room_count = 4096

pub record PersistedRoom : Type 0 where
  pub room_id : List ℕ
  pub party_a : List ℕ
  pub party_b : List ℕ
  pub terms : TradeTerms
  pub fee : FeeTerms
  pub state : SessionState
  pub round_index : ℕ
  pub leg_index : ℕ
  pub abort_reason : List ℕ
  pub updated_at : ℕ

pub record PersistedRoomFile : Type 0 where
  pub format_version : ℕ
  pub rooms : List PersistedRoom

-- `static_cast<std::uint8_t>(state)` and `static_cast<SessionState>(value)`.
unfoldable pub session_state_to_u8 : SessionState → ℕ
session_state_to_u8 SessionState.waiting_for_peer = 0
session_state_to_u8 SessionState.waiting_for_sent = 1
session_state_to_u8 SessionState.waiting_for_received = 2
session_state_to_u8 SessionState.waiting_for_fee_sent = 3
session_state_to_u8 SessionState.complete = 4
session_state_to_u8 SessionState.aborted = 5
session_state_to_u8 SessionState.waiting_for_final_receipt_ack = 6
session_state_to_u8 SessionState.waiting_for_fee_confirmation = 7
session_state_to_u8 (SessionState.unnamed n) = n

unfoldable pub session_state_of_u8 : ℕ → SessionState
session_state_of_u8 zero = SessionState.waiting_for_peer
session_state_of_u8 (suc zero) = SessionState.waiting_for_sent
session_state_of_u8 (suc (suc zero)) = SessionState.waiting_for_received
session_state_of_u8 (suc (suc (suc zero))) = SessionState.waiting_for_fee_sent
session_state_of_u8 (suc (suc (suc (suc zero)))) = SessionState.complete
session_state_of_u8 (suc (suc (suc (suc (suc zero))))) = SessionState.aborted
session_state_of_u8 (suc (suc (suc (suc (suc (suc zero)))))) =
    SessionState.waiting_for_final_receipt_ack
session_state_of_u8 (suc (suc (suc (suc (suc (suc (suc zero))))))) =
    SessionState.waiting_for_fee_confirmation
session_state_of_u8 n = SessionState.unnamed n

unfoldable pub append_bytes_u32 : List ℕ → Writer
append_bytes_u32 value = do Writer.u32 (length value % 4294967296); λ out. ok (out ++ value)

unfoldable pub read_bytes_u32 : ℕ → Reader (List ℕ)
read_bytes_u32 max_len = do
  length ← Reader.u32
  _ ← Reader.check (throw_if (ltb max_len length) persistence_format)
  Reader.take_bytes length

unfoldable pub append_encoded_terms : TradeTerms → Writer
append_encoded_terms terms out =
    bind (encode_terms terms) (λ encoded_terms. append_bytes_u32 encoded_terms out)

unfoldable pub read_encoded_terms : Reader TradeTerms
read_encoded_terms = do
  encoded_terms ← read_bytes_u32 max_room_body_length
  λ input. bind (decode_terms encoded_terms) (λ terms. ok (terms, input))

unfoldable pub write_room : PersistedRoom → Writer
write_room room = do
  Writer.fixed_id room.room_id
  Writer.fixed_id room.party_a
  Writer.fixed_id room.party_b
  append_encoded_terms room.terms
  append_fee_terms room.fee
  Writer.u8 (session_state_to_u8 room.state)
  Writer.u32 room.round_index
  Writer.u8 room.leg_index
  Writer.short_string room.abort_reason max_reason_length
  Writer.u64 room.updated_at

unfoldable pub encode_one_room : PersistedRoom → Result (List ℕ)
encode_one_room room = written (write_room room)

unfoldable pub read_room : Reader PersistedRoom
read_room = do
  room_id ← Reader.fixed_id 32
  party_a ← Reader.fixed_id 16
  party_b ← Reader.fixed_id 16
  terms ← read_encoded_terms
  fee ← read_fee_terms
  state ← Reader.u8
  round_index ← Reader.u32
  leg_index ← Reader.u8
  abort_reason ← Reader.short_string max_reason_length
  updated_at ← Reader.u64
  _ ← Reader.require_finished
  _ ← Reader.check (validate_room_id room_id)
  _ ← Reader.check (validate_client_id party_a)
  _ ← Reader.check (validate_client_id party_b)
  _ ← Reader.check (throw_if (ltb 1 leg_index) persistence_format)
  pure (record {
    room_id = room_id;
    party_a = party_a;
    party_b = party_b;
    terms = terms;
    fee = fee;
    state = session_state_of_u8 state;
    round_index = round_index;
    leg_index = leg_index;
    abort_reason = abort_reason;
    updated_at = updated_at;
  })

-- Every exception becomes a PersistenceFormatError.
abbrev pub as_format_error {ℓ} : {A : Type ℓ} → Result A → Result A
as_format_error (ok a) = ok a
as_format_error (err e) = err persistence_format

unfoldable pub decode_one_room : List ℕ → Result PersistedRoom
decode_one_room body = as_format_error (decoded read_room body)

unfoldable pub append_room : PersistedRoom → Writer
append_room room out = bind (encode_one_room room) (λ body. append_bytes_u32 body out)

unfoldable pub read_one_room : Reader PersistedRoom
read_one_room = do
  body ← read_bytes_u32 max_room_body_length
  λ input. bind (decode_one_room body) (λ room. ok (room, input))

unfoldable pub write_file : PersistedRoomFile → Writer
write_file file = do
  Writer.check (throw_if (ltb max_room_count (length file.rooms)) invalid_argument)
  Writer.fixed_id magic
  Writer.u16 file.format_version
  Writer.u32 (length file.rooms)
  Writer.each append_room file.rooms

unfoldable pub encode_persisted_rooms : PersistedRoomFile → Result (List ℕ)
encode_persisted_rooms file = written (write_file file)

unfoldable pub read_file : Reader PersistedRoomFile
read_file = do
  found ← Reader.fixed_id 4
  _ ← Reader.check (throw_if (not (bytes_eq found magic)) persistence_format)
  format_version ← Reader.u16
  _ ←
      Reader.check
        (throw_if (not (format_version == persisted_room_format_version)) persistence_format)
  count ← Reader.u32
  _ ← Reader.check (throw_if (ltb max_room_count count) persistence_format)
  rooms ← Reader.times count read_one_room
  _ ← Reader.require_finished
  pure (record { format_version = format_version; rooms = rooms })

unfoldable pub decode_persisted_rooms : List ℕ → Result PersistedRoomFile
decode_persisted_rooms bytes = as_format_error (decoded read_file bytes)
