-- ===== src/History/Types.antt =====
-- The records of include/tradep2p/history.hpp and its numbers.
use tradep2p.Base.{ℕ, List, Bool}

abbrev pub history_format_version : ℕ
history_format_version = 1

abbrev pub history_max_mediator_id_length : ℕ
history_max_mediator_id_length = 256

abbrev pub history_max_note_length : ℕ
history_max_note_length = 4096

abbrev pub history_max_notes_per_entry : ℕ
history_max_notes_per_entry = 256

abbrev pub history_max_outcomes_per_entry : ℕ
history_max_outcomes_per_entry = 4096

abbrev pub history_max_evidence_hashes_per_entry : ℕ
history_max_evidence_hashes_per_entry = 256

abbrev pub history_max_entries : ℕ
history_max_entries = 4096

-- `unnamed` holds the values of the base type that have no name.
pub data LocalOutcome : Type 0 where
  unknown successful incomplete : LocalOutcome
  unnamed : ℕ → LocalOutcome

pub data ConfidenceLevel : Type 0 where
  unknown low medium high : ConfidenceLevel

pub data DisplayCategory : Type 0 where
  unknown_identity previously_encountered previous_successful_interaction : DisplayCategory
  previous_incomplete_interaction locally_blocked : DisplayCategory

pub record HistoryNote : Type 0 where
  pub recorded_at : ℕ
  pub text : List ℕ

-- `scope` is always PerMediator.
pub record CounterpartyHistoryEntry : Type 0 where
  pub fingerprint : List ℕ
  pub mediator_id : List ℕ
  pub first_seen : ℕ
  pub last_seen : ℕ
  pub encounter_count : ℕ
  pub outcome_labels : List LocalOutcome
  pub locally_blocked : Bool
  pub notes : List HistoryNote
  pub evidence_hashes : List (List ℕ)
  pub confidence : ConfidenceLevel
