-- ===== src/Recovery.antt =====
-- What a client may resend behind a broken connection: include/tradep2p/recovery.hpp and
-- src/recovery.cpp, and the entry of the journal that they read (include/tradep2p/journal.hpp).
-- The explanations for the user are left out of the outcome.
use tradep2p.Base.{ℕ, List, Bool, true, false, ◌&&◌, ◌||◌, not, ◌==◌, ltb, if◌then◌else◌}
use mathlib.Core.Option.{Option, none, some}
use tradep2p.Protocol.Registry.{RecoveryStateResponseMessage}
use tradep2p.Mediator.Session.{SessionState, is_aborted}
use tradep2p.Mediator.Step.{is_complete}
use tradep2p.Journal.Types.{
  MessageDirection, AcknowledgementState, JournalEntryFields, JournalEntry,
}
pub mod Classes
mod Examples

pub data RecoveryActionCategory : Type 0 where
  safe_idempotent_retry unsafe_requires_confirmation already_committed : RecoveryActionCategory
  unknown_requires_reconciliation : RecoveryActionCategory

-- `type == MessageType::Sent`
unfoldable pub is_value_bearing_message_type : ℕ → Bool
is_value_bearing_message_type type = type == 12

abbrev pub is_outbound : MessageDirection → Bool
is_outbound MessageDirection.outbound = true
is_outbound _ = false

-- The mediator does not know the room.
unfoldable pub classify_missing_room : JournalEntryFields → RecoveryActionCategory
classify_missing_room entry =
    if is_complete entry.local_state || is_aborted entry.local_state
    then RecoveryActionCategory.already_committed
    else RecoveryActionCategory.unknown_requires_reconciliation

-- Both sides are in the same round.
unfoldable pub classify_same_round :
    AcknowledgementState → JournalEntryFields → RecoveryActionCategory
classify_same_round AcknowledgementState.acknowledged entry =
    RecoveryActionCategory.already_committed
classify_same_round AcknowledgementState.pending entry =
    if is_outbound entry.direction && is_value_bearing_message_type entry.message_type
    then RecoveryActionCategory.unsafe_requires_confirmation
    else RecoveryActionCategory.safe_idempotent_retry
classify_same_round _ entry = RecoveryActionCategory.unknown_requires_reconciliation

unfoldable pub classify_entry :
    JournalEntryFields → RecoveryStateResponseMessage → RecoveryActionCategory
classify_entry entry remote =
    if not remote.found
    then classify_missing_room entry
    else (if ltb entry.round remote.room.round_index
        then RecoveryActionCategory.already_committed
        else (if ltb remote.room.round_index entry.round
            then RecoveryActionCategory.unknown_requires_reconciliation
            else classify_same_round entry.ack_state entry))

unfoldable pub classify_recovery_action :
    Option JournalEntry → Option RecoveryStateResponseMessage → RecoveryActionCategory
classify_recovery_action none remote = RecoveryActionCategory.unknown_requires_reconciliation
classify_recovery_action (some entry) none = RecoveryActionCategory.unknown_requires_reconciliation
classify_recovery_action (some entry) (some remote) = classify_entry entry.fields remote
