-- ===== src/Journal/Types.antt =====
-- The entries of the journal and its numbers: include/tradep2p/journal.hpp.
use tradep2p.Base.{ℕ, List}
use tradep2p.Mediator.Session.{SessionState}

abbrev pub journal_format_version : ℕ
journal_format_version = 1

abbrev pub journal_max_mediator_id_length : ℕ
journal_max_mediator_id_length = 256

abbrev pub journal_checkpoint_suite_ed25519_v1 : ℕ
journal_checkpoint_suite_ed25519_v1 = 1

abbrev pub journal_checkpoint_suite_ml_dsa65_v1 : ℕ
journal_checkpoint_suite_ml_dsa65_v1 = 2

-- `unnamed` holds the values of the base type that have no name.
pub data MessageDirection : Type 0 where
  outbound inbound : MessageDirection
  unnamed : ℕ → MessageDirection

pub data AcknowledgementState : Type 0 where
  not_applicable pending acknowledged : AcknowledgementState
  unnamed : ℕ → AcknowledgementState

-- A MessageType is its number on the wire.
pub record JournalEntryFields : Type 0 where
  pub version : ℕ
  pub room_id : List ℕ
  pub trade_id : List ℕ
  pub mediator_id : List ℕ
  pub counterparty_fingerprint : List ℕ
  pub terms_commitment : List ℕ
  pub round : ℕ
  pub direction : MessageDirection
  pub message_type : ℕ
  pub message_hash : List ℕ
  pub ack_state : AcknowledgementState
  pub local_state : SessionState
  pub timestamp : ℕ

pub record JournalEntry : Type 0 where
  pub index : ℕ
  pub fields : JournalEntryFields
  pub previous_hash : List ℕ
  pub entry_hash : List ℕ
