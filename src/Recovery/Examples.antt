-- ===== src/Recovery/Examples.antt =====
-- An entry of a journal and an answer of the mediator (src/recovery.cpp), on which the theorems are
-- applied.
use tradep2p.Base.{◌≡◌, ◌↔◌, [], true, replicate}
use mathlib.Core.Option.{Option, some}
use tradep2p.Protocol.Registry.{RecoveryStateResponseMessage, no_recovered_room}
use tradep2p.Mediator.Session.{SessionState}
use tradep2p.Journal.Types.{MessageDirection, AcknowledgementState, JournalEntry}
use tradep2p.Recovery.{RecoveryActionCategory, classify_recovery_action}
use tradep2p.Recovery.Classes.{
  ReportsOwnTransfer, IsWaiting, IsBehind, classify_recovery_action-safe,
  classify_recovery_action-unsafe, classify_recovery_action-committed,
}

abbrev last : Option JournalEntry
last = some (record {
  index = 3;
  fields = record {
    version = 1;
    room_id = replicate 32 9;
    trade_id = replicate 16 1;
    mediator_id = [];
    counterparty_fingerprint = replicate 32 0;
    terms_commitment = replicate 32 0;
    round = 1;
    direction = MessageDirection.outbound;
    message_type = 12;
    message_hash = replicate 32 0;
    ack_state = AcknowledgementState.pending;
    local_state = SessionState.waiting_for_sent;
    timestamp = 1700;
  };
  previous_hash = replicate 32 0;
  entry_hash = replicate 32 0;
})

abbrev answer : Option RecoveryStateResponseMessage
answer = some (record {
  room_id = replicate 32 9;
  found = true;
  room = record no_recovered_room { round_index = 1 };
  reason = [];
})

classify_recovery_action-safe_example :
    (classify_recovery_action last answer ≡ RecoveryActionCategory.safe_idempotent_retry) ↔ (
      (entry : JournalEntry) × (remote : RecoveryStateResponseMessage) × (last ≡ some entry)
      × (answer ≡ some remote)
      × IsWaiting entry.fields remote
      × (¬ ReportsOwnTransfer entry.fields))
classify_recovery_action-safe_example = classify_recovery_action-safe last answer

classify_recovery_action-unsafe_example :
    (classify_recovery_action last answer ≡ RecoveryActionCategory.unsafe_requires_confirmation) ↔ (
      (entry : JournalEntry) × (remote : RecoveryStateResponseMessage) × (last ≡ some entry)
      × (answer ≡ some remote)
      × IsWaiting entry.fields remote
      × ReportsOwnTransfer entry.fields)
classify_recovery_action-unsafe_example = classify_recovery_action-unsafe last answer

classify_recovery_action-committed_example :
    (classify_recovery_action last answer ≡ RecoveryActionCategory.already_committed) ↔ (
      (entry : JournalEntry) × (remote : RecoveryStateResponseMessage) × (last ≡ some entry)
      × (answer ≡ some remote)
      × IsBehind entry.fields remote)
classify_recovery_action-committed_example = classify_recovery_action-committed last answer
