-- ===== src/Recovery/Classes.antt =====
-- When each class of recovery is answered (src/recovery.cpp).
use tradep2p.Base.{◌≡◌, ◌<◌, ◌↔◌, ◌⊎◌, refl, true, false, arith}
use mathlib.Core.Option.{Option, none, some}
use tradep2p.Protocol.Registry.{RecoveryStateResponseMessage}
use tradep2p.Mediator.Session.{SessionState}
use tradep2p.Journal.Types.{
  MessageDirection, AcknowledgementState, JournalEntryFields, JournalEntry,
}
use tradep2p.Recovery.{
  RecoveryActionCategory, is_value_bearing_message_type, classify_missing_room, classify_same_round,
  classify_entry, classify_recovery_action,
}

-- The last thing that the client did is to report a transfer of its own as sent.
abbrev pub ReportsOwnTransfer : JournalEntryFields → Type 0
ReportsOwnTransfer entry = (entry.direction ≡ MessageDirection.outbound) × (entry.message_type ≡ 12)

-- The mediator knows the room, is in the round of the entry, and the entry waits for an answer.
abbrev pub IsWaiting : JournalEntryFields → RecoveryStateResponseMessage → Type 0
IsWaiting entry remote =
    (remote.found ≡ true)
    × (remote.room.round_index ≡ entry.round)
    × (entry.ack_state ≡ AcknowledgementState.pending)

-- The mediator knows more rounds than the entry, or the entry says that the trade is over and the
-- mediator does not know it, or the entry was answered in the mediator's round.
abbrev pub IsBehind : JournalEntryFields → RecoveryStateResponseMessage → Type 0
IsBehind entry remote =
    ((remote.found ≡ true) × (entry.round < remote.room.round_index))
    ⊎ ((remote.found ≡ false)
        × ((entry.local_state ≡ SessionState.complete)
            ⊎ (entry.local_state ≡ SessionState.aborted)))
    ⊎ ((remote.found ≡ true)
        × (remote.room.round_index ≡ entry.round)
        × (entry.ack_state ≡ AcknowledgementState.acknowledged))

module _ (entry : JournalEntryFields) (remote : RecoveryStateResponseMessage) where
  safe→waiting :
      classify_entry entry remote ≡ RecoveryActionCategory.safe_idempotent_retry
      → IsWaiting entry remote × (¬ ReportsOwnTransfer entry)
  unfolding classify_entry classify_same_round classify_missing_room is_value_bearing_message_type
  safe→waiting h = ground arith

  waiting→safe :
      IsWaiting entry remote
      → ¬ ReportsOwnTransfer entry
      → classify_entry entry remote ≡ RecoveryActionCategory.safe_idempotent_retry
  unfolding classify_entry classify_same_round classify_missing_room is_value_bearing_message_type
  waiting→safe w n = ground arith

  unsafe→waiting :
      classify_entry entry remote ≡ RecoveryActionCategory.unsafe_requires_confirmation
      → IsWaiting entry remote × ReportsOwnTransfer entry
  unfolding classify_entry classify_same_round classify_missing_room is_value_bearing_message_type
  unsafe→waiting h = ground arith

  waiting→unsafe :
      IsWaiting entry remote
      → ReportsOwnTransfer entry
      → classify_entry entry remote ≡ RecoveryActionCategory.unsafe_requires_confirmation
  unfolding classify_entry classify_same_round classify_missing_room is_value_bearing_message_type
  waiting→unsafe w n = ground arith

  committed→behind :
      classify_entry entry remote ≡ RecoveryActionCategory.already_committed → IsBehind entry remote
  unfolding classify_entry classify_same_round classify_missing_room is_value_bearing_message_type
  committed→behind h = ground arith

  behind→committed :
      IsBehind entry remote → classify_entry entry remote ≡ RecoveryActionCategory.already_committed
  unfolding classify_entry classify_same_round classify_missing_room is_value_bearing_message_type
  behind→committed h = ground arith

-- A resend is classified as safe exactly if there is a journal entry and an answer of the
-- mediator, the mediator knows the room and is in the round of the entry, the entry waits for an
-- acknowledgement, and it is not an outbound report of a transfer as sent.
pub classify_recovery_action-safe :
    (last : Option JournalEntry) (state : Option RecoveryStateResponseMessage)
    → (classify_recovery_action last state ≡ RecoveryActionCategory.safe_idempotent_retry) ↔ (
        (entry : JournalEntry) × (remote : RecoveryStateResponseMessage) × (last ≡ some entry)
        × (state ≡ some remote)
        × IsWaiting entry.fields remote
        × (¬ ReportsOwnTransfer entry.fields))
unfolding classify_recovery_action
classify_recovery_action-safe none state = (λ h. cc, λ (entry, remote, p, _, _, _). cc)
classify_recovery_action-safe (some entry) none = (λ h. cc, λ (entry, remote, _, p, _, _). cc)
classify_recovery_action-safe (some entry) (some remote) = (
  λ h. let (w, n) = safe→waiting entry.fields remote h in (entry, remote, refl, refl, w, n),
  λ (other, mine, p, q, w, n). ground (arith, waiting→safe other.fields mine w n),
)

-- The user has to confirm a resend exactly if there is a journal entry and an answer of the
-- mediator, the mediator knows the room and is in the round of the entry, the entry waits for an
-- acknowledgement, and it is an outbound report of a transfer as sent.
pub classify_recovery_action-unsafe :
    (last : Option JournalEntry) (state : Option RecoveryStateResponseMessage)
    → (classify_recovery_action last state ≡ RecoveryActionCategory.unsafe_requires_confirmation)
      ↔ ((entry : JournalEntry) × (remote : RecoveryStateResponseMessage) × (last ≡ some entry)
          × (state ≡ some remote)
          × IsWaiting entry.fields remote
          × ReportsOwnTransfer entry.fields)
unfolding classify_recovery_action
classify_recovery_action-unsafe none state = (λ h. cc, λ (entry, remote, p, _, _, _). cc)
classify_recovery_action-unsafe (some entry) none = (λ h. cc, λ (entry, remote, _, p, _, _). cc)
classify_recovery_action-unsafe (some entry) (some remote) = (
  λ h. let (w, n) = unsafe→waiting entry.fields remote h in (entry, remote, refl, refl, w, n),
  λ (other, mine, p, q, w, n). ground (arith, waiting→unsafe other.fields mine w n),
)

-- An entry is classified as committed already exactly if the mediator answers and knows the room
-- in a later round, or does not know it and the entry says that the trade is complete or aborted,
-- or knows it in the round of the entry and the entry was acknowledged.
pub classify_recovery_action-committed :
    (last : Option JournalEntry) (state : Option RecoveryStateResponseMessage)
    → (classify_recovery_action last state ≡ RecoveryActionCategory.already_committed) ↔ (
        (entry : JournalEntry) × (remote : RecoveryStateResponseMessage) × (last ≡ some entry)
        × (state ≡ some remote)
        × IsBehind entry.fields remote)
unfolding classify_recovery_action
classify_recovery_action-committed none state = (λ h. cc, λ (entry, remote, p, _, _). cc)
classify_recovery_action-committed (some entry) none = (λ h. cc, λ (entry, remote, _, p, _). cc)
classify_recovery_action-committed (some entry) (some remote) = (
  λ h. (entry, remote, refl, refl, committed→behind entry.fields remote h),
  λ (other, mine, p, q, w). ground (arith, behind→committed other.fields mine w),
)
