-- ===== src/RoomPersistence/Restart.antt =====
-- A restart of the mediator: the snapshot that src/lobby.cpp takes of a room, and the room that it
-- builds of a snapshot. The clock is a parameter.
use tradep2p.Base.{
  Option, none, ℕ, ◌≡◌, refl, List, [], Bool, false, ◌&&◌, not, Result, ok, bind, arith,
}
use tradep2p.Mediator.Session.{MediatorSession, FeePosition, restore, is_aborted}
use tradep2p.Mediator.Step.{is_complete}
use tradep2p.Mediator.Invariant.{IsValid}
use tradep2p.Mediator.Turn.{Configured}
use tradep2p.Mediator.Ledger.{Ledger}
use tradep2p.Mediator.Settlement.{IsSettled}
use tradep2p.RoomPersistence.{PersistedRoom}

-- The receipts of include/tradep2p/receipt.hpp. A stage is its number.
pub record ReceiptFields : Type 0 where
  pub suite_id : ℕ
  pub protocol_version : ℕ
  pub mediator_id : List ℕ
  pub room_id : List ℕ
  pub terms_commitment : List ℕ
  pub party_a_ephemeral_key : List ℕ
  pub party_b_ephemeral_key : List ℕ
  pub party_a_ephemeral_key_mldsa65 : List ℕ
  pub party_b_ephemeral_key_mldsa65 : List ℕ
  pub mediator_public_key : List ℕ
  pub mediator_public_key_mldsa65 : List ℕ
  pub stage : ℕ
  pub completed : Bool
  pub timestamp : ℕ
  pub nonce : List ℕ
  pub previous_stage_hash : List ℕ

pub record IssuedReceipt : Type 0 where
  pub fields : ReceiptFields
  pub mediator_signature : List ℕ
  pub mediator_signature_mldsa65 : List ℕ

-- A room of the lobby. Its mutex is left out.
pub record RoomEntry : Type 0 where
  pub id : List ℕ
  pub party_a : List ℕ
  pub party_b : List ℕ
  pub session : MediatorSession
  pub active : Bool
  pub ephemeral_key_a : Option (List ℕ)
  pub ephemeral_key_b : Option (List ℕ)
  pub ephemeral_key_a_mldsa65 : Option (List ℕ)
  pub ephemeral_key_b_mldsa65 : Option (List ℕ)
  pub final_ack_receipt : Option IssuedReceipt
  pub fee_confirmation_pending_since : Option ℕ

unfoldable pub persisted_room_snapshot : ℕ → RoomEntry → PersistedRoom
persisted_room_snapshot now room = record {
  room_id = room.id;
  party_a = room.party_a;
  party_b = room.party_b;
  terms = room.session.creator.terms;
  fee = room.session.fee;
  state = room.session.state;
  round_index = room.session.round_index;
  leg_index = room.session.leg_index;
  abort_reason = room.session.abort_reason;
  updated_at = now;
}

-- The constructor of RoomEntry from a PersistedRoom.
unfoldable pub restored_entry : PersistedRoom → Bool → FeePosition → Result RoomEntry
restored_entry persisted require_fee_confirmation fee_position =
    bind
      (restore persisted.room_id persisted.terms [] [] persisted.fee persisted.state
        persisted.round_index persisted.leg_index persisted.abort_reason require_fee_confirmation
        fee_position)
      (λ session. ok (record {
        id = persisted.room_id;
        party_a = persisted.party_a;
        party_b = persisted.party_b;
        session = session;
        active = not (is_complete persisted.state) && not (is_aborted persisted.state);
        ephemeral_key_a = none;
        ephemeral_key_b = none;
        ephemeral_key_a_mldsa65 = none;
        ephemeral_key_b_mldsa65 = none;
        final_ack_receipt = none;
        fee_confirmation_pending_since = none;
      }))

-- What a session is behind a restart: the addresses and the acknowledgements are gone.
abbrev pub forgotten : Bool → FeePosition → MediatorSession → MediatorSession
forgotten confirm position s = record s {
  creator = record { terms = s.creator.terms; receive_address_a = [] };
  receive_address_b = [];
  final_receipt_acked_a = false;
  final_receipt_acked_b = false;
  require_fee_confirmation = confirm;
  fee_position = position;
}

forgotten-IsSettled :
    (confirm : Bool) (position : FeePosition) (s : MediatorSession) (l : Ledger)
    → IsSettled s l
    → IsSettled (forgotten confirm position s) l
forgotten-IsSettled confirm position s l h = record { side_a = h.side_a; side_b = h.side_b }

restore-forgotten :
    (s : MediatorSession) (confirm : Bool) (position : FeePosition)
    → IsValid s
    → Configured s
    → restore s.room_id s.creator.terms [] [] s.fee s.state s.round_index s.leg_index s.abort_reason
        confirm position
      ≡ ok (forgotten confirm position s)
unfolding restore
restore-forgotten s confirm position v c =
    let p = v.progress in let q = v.leg_cap in ground (arith, c.terms, c.room_id, c.fee)

-- A room of the lobby whose id is that of its session, and whose session is valid, has the terms
-- that the constructor checked and is in step with a ledger, is built again from its snapshot
-- without an exception: it has the same id, parties and session but for the addresses, the
-- acknowledgements and the configuration of the fee; the ephemeral keys that the parties
-- announced, the receipt that was issued and the time since which a fee is pending are gone, and
-- it is active unless it is complete or aborted; it is still in step with the ledger.
pub restored_entry-persisted_room_snapshot :
    (now : ℕ) (room : RoomEntry) (confirm : Bool) (position : FeePosition) (l : Ledger)
    → room.id ≡ room.session.room_id
    → IsValid room.session
    → Configured room.session
    → IsSettled room.session l
    → (restored_entry (persisted_room_snapshot now room) confirm position
        ≡ ok (record room {
          session = forgotten confirm position room.session;
          active = not (is_complete room.session.state) && not (is_aborted room.session.state);
          ephemeral_key_a = none;
          ephemeral_key_b = none;
          ephemeral_key_a_mldsa65 = none;
          ephemeral_key_b_mldsa65 = none;
          final_ack_receipt = none;
          fee_confirmation_pending_since = none;
        }))
      × IsSettled (forgotten confirm position room.session) l
unfolding restored_entry persisted_room_snapshot
restored_entry-persisted_room_snapshot now room confirm position l same v c b = (
  rw (same, restore-forgotten room.session confirm position v c) refl,
  forgotten-IsSettled confirm position room.session l b,
)
