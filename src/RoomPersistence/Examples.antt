-- ===== src/RoomPersistence/Examples.antt =====
-- A room on disk (src/room_persistence.cpp, src/lobby.cpp), on which the theorems are applied.
use tradep2p.Base.{
  some, none, ℕ, ◌≡◌, refl, List, [], ◌∷◌, true, false, ok, err, Result, arith, replicate,
}
use tradep2p.Protocol.Wire.Bytes.{replicate-IsArray, big_endian}
use tradep2p.Protocol.Wire.Writer
use tradep2p.Protocol.Types.{Party, party_to_u8}
use tradep2p.Protocol.Validate.{
  validate_terms, validate_asset, check_each, is_alnum, validate_party, validate_address,
  validate_printable, validate_room_id, validate_client_id, validate_nonzero_id, validate_fee_terms,
}
use tradep2p.Protocol.Terms.{encode_terms, append_terms, append_fee_terms}
use tradep2p.Protocol.Tranche.{first_tranches}
use tradep2p.Mediator.Session.{SessionState, MediatorSession, FeePosition}
use tradep2p.Mediator.Invariant.{IsValid}
use tradep2p.Mediator.Turn.{Configured}
use tradep2p.Mediator.Ledger.{Ledger}
use tradep2p.Mediator.Settlement.{IsSettled}
use tradep2p.RoomPersistence.{
  PersistedRoom, PersistedRoomFile, session_state_to_u8, append_bytes_u32, append_encoded_terms,
  write_room, encode_one_room, append_room, write_file, encode_persisted_rooms,
  decode_persisted_rooms,
}
use tradep2p.RoomPersistence.RoundTrip.{IsPersisted, decode_persisted_rooms-encode_persisted_rooms}
use tradep2p.RoomPersistence.Restart.{
  RoomEntry, persisted_room_snapshot, restored_entry, forgotten,
  restored_entry-persisted_room_snapshot,
}

abbrev session : MediatorSession
session = record {
  creator = record {
    terms = record {
      version = 5;
      asset_a = b'B' ∷ b'T' ∷ b'C' ∷ [];
      asset_b = b'X' ∷ b'M' ∷ b'R' ∷ [];
      total_a = 10;
      total_b = 7;
      rounds = 2;
      first_sender = Party.b;
    };
    receive_address_a = b'q' ∷ b'1' ∷ [];
  };
  room_id = replicate 32 9;
  receive_address_b = b'x' ∷ b'2' ∷ [];
  fee = record { asset = []; amount = 0; address = [] };
  state = SessionState.waiting_for_received;
  round_index = 1;
  leg_index = 0;
  abort_reason = [];
  final_receipt_acked_a = false;
  final_receipt_acked_b = false;
  require_fee_confirmation = false;
  fee_position = FeePosition.after_last_round;
}

-- One party has announced its keys.
abbrev entry : RoomEntry
entry = record {
  id = replicate 32 9;
  party_a = replicate 16 1;
  party_b = replicate 16 2;
  session = session;
  active = true;
  ephemeral_key_a = some (replicate 32 4);
  ephemeral_key_b = none;
  ephemeral_key_a_mldsa65 = some (replicate 1952 4);
  ephemeral_key_b_mldsa65 = none;
  final_ack_receipt = none;
  fee_confirmation_pending_since = none;
}

abbrev stored : PersistedRoom
stored = record {
  room_id = replicate 32 9;
  party_a = replicate 16 1;
  party_b = replicate 16 2;
  terms = session.creator.terms;
  fee = session.fee;
  state = SessionState.waiting_for_received;
  round_index = 1;
  leg_index = 0;
  abort_reason = [];
  updated_at = 1700;
}

stored-IsPersisted : IsPersisted stored
unfolding validate_room_id validate_client_id validate_nonzero_id
stored-IsPersisted = record {
  room_id = replicate-IsArray 32 9 (omega arith);
  party_a = replicate-IsArray 16 1 (omega arith);
  party_b = replicate-IsArray 16 2 (omega arith);
  terms = ground arith;
  fee = ground arith;
  state = refl;
  round_index = omega arith;
  leg_index = omega arith;
  updated_at = omega arith;
  nonzero_room = refl;
  nonzero_a = refl;
  nonzero_b = refl;
}

abbrev bytes_of : Result (List ℕ) → List ℕ
bytes_of (ok bs) = bs
bytes_of (err e) = []

abbrev file : PersistedRoomFile
file = record { format_version = 1; rooms = stored ∷ [] }

abbrev file_bytes : List ℕ
file_bytes = bytes_of (encode_persisted_rooms file)

file_encoded : encode_persisted_rooms file ≡ ok file_bytes
unfolding encode_persisted_rooms write_file append_room encode_one_room write_room
    append_encoded_terms append_bytes_u32 session_state_to_u8 encode_terms append_terms
    append_fee_terms party_to_u8 validate_terms validate_asset check_each is_alnum validate_party
    validate_fee_terms Writer.◌>>◌ Writer.check Writer.nothing Writer.written Writer.u8 Writer.u16
    Writer.u32 Writer.u64 Writer.fixed_id Writer.short_string Writer.each big_endian
file_encoded = refl

decode_persisted_rooms-encode_persisted_rooms_example : decode_persisted_rooms file_bytes ≡ ok file
decode_persisted_rooms-encode_persisted_rooms_example =
    decode_persisted_rooms-encode_persisted_rooms (stored ∷ []) (stored-IsPersisted, tt)
      file_encoded

session-IsValid : IsValid session
session-IsValid = ground arith

session-Configured : Configured session
unfolding validate_terms validate_asset check_each is_alnum validate_party validate_address
    validate_printable validate_room_id validate_nonzero_id validate_fee_terms
session-Configured = record { terms = refl; address_a = refl; room_id = refl; fee = refl }

abbrev ledger : Ledger
ledger = record { delivered_a = 5; delivered_b = 4; fee_paid = 0 }

session-IsSettled : IsSettled session ledger
unfolding first_tranches
session-IsSettled = record { side_a = refl; side_b = refl }

restored_entry-persisted_room_snapshot_example :
    (restored_entry (persisted_room_snapshot 1700 entry) false FeePosition.after_last_round
      ≡ ok (record entry {
        session = forgotten false FeePosition.after_last_round session;
        ephemeral_key_a = none;
        ephemeral_key_a_mldsa65 = none;
      }))
    × IsSettled (forgotten false FeePosition.after_last_round session) ledger
restored_entry-persisted_room_snapshot_example =
    restored_entry-persisted_room_snapshot 1700 entry false FeePosition.after_last_round ledger refl
      session-IsValid session-Configured session-IsSettled
