-- ===== src/History/Store.antt =====
-- The class LocalCounterpartyHistory of src/history.cpp. The clock, the key and the random nonces are
-- parameters; a failing write to the file is not modelled.
use tradep2p.Base.{
  ℕ, zero, suc, ◌+◌, ◌%◌, List, [], ◌∷◌, ◌++◌, Bool, true, false, ◌&&◌, not, length, ltb, leb, ◌==◌,
  bytes_eq, entry_at, if◌then◌else◌, Option, none, some, Result, ok, bind, throw_if,
  invalid_argument,
}
use tradep2p.Base.Outcome.{◌>>◌}
use tradep2p.Crypto.{Aead}
use tradep2p.History.Types.{
  LocalOutcome, ConfidenceLevel, DisplayCategory, CounterpartyHistoryEntry,
  history_max_mediator_id_length, history_max_note_length, history_max_notes_per_entry,
  history_max_outcomes_per_entry, history_max_evidence_hashes_per_entry, history_max_entries,
}
use tradep2p.History.Format.{outcome_to_u8, persist}

-- An entry is of this counterparty at this mediator.
abbrev pub is_of : List ℕ → List ℕ → CounterpartyHistoryEntry → Bool
is_of fingerprint mediator_id entry =
    bytes_eq entry.fingerprint fingerprint && bytes_eq entry.mediator_id mediator_id

unfoldable pub index_of : List ℕ → List ℕ → List CounterpartyHistoryEntry → ℕ
index_of fingerprint mediator_id [] = 0
index_of fingerprint mediator_id (e ∷ es) =
    let rest = index_of fingerprint mediator_id es in
    if is_of fingerprint mediator_id e then 0 else suc rest

unfoldable pub find :
    List ℕ → List ℕ → List CounterpartyHistoryEntry → Option CounterpartyHistoryEntry
find fingerprint mediator_id entries = entry_at (index_of fingerprint mediator_id entries) entries

abbrev pub new_history_entry : List ℕ → List ℕ → ℕ → CounterpartyHistoryEntry
new_history_entry fingerprint mediator_id now = record {
  fingerprint = fingerprint;
  mediator_id = mediator_id;
  first_seen = now;
  last_seen = now;
  encounter_count = 0;
  outcome_labels = [];
  locally_blocked = false;
  notes = [];
  evidence_hashes = [];
  confidence = ConfidenceLevel.unknown;
}

-- The entries with the one that is asked for, and its index.
unfoldable pub get_or_create :
    List ℕ → List ℕ → ℕ → List CounterpartyHistoryEntry → Result (List CounterpartyHistoryEntry × ℕ)
get_or_create fingerprint mediator_id now entries = do
  throw_if (ltb history_max_mediator_id_length (length mediator_id)) invalid_argument
  if not (index_of fingerprint mediator_id entries == length entries)
      then ok (entries, index_of fingerprint mediator_id entries)
      else (throw_if (leb history_max_entries (length entries)) invalid_argument
          >> ok (entries ++ new_history_entry fingerprint mediator_id now ∷ [], length entries))

abbrev no_hashes : List (List ℕ) → Bool
no_hashes [] = true
no_hashes (x ∷ xs) = false

unfoldable pub recompute_confidence : CounterpartyHistoryEntry → CounterpartyHistoryEntry
recompute_confidence entry = record entry {
  confidence =
      if no_hashes entry.evidence_hashes && leb entry.encounter_count 1
      then ConfidenceLevel.unknown
      else (if no_hashes entry.evidence_hashes
          then ConfidenceLevel.low
          else (if ltb (length entry.evidence_hashes) 3
              then ConfidenceLevel.medium
              else ConfidenceLevel.high));
}

-- `entry` is a reference into the entries: it is changed where it stands.
abbrev pub modify :
    ℕ
    → (CounterpartyHistoryEntry → Result CounterpartyHistoryEntry)
    → List CounterpartyHistoryEntry
    → Result (List CounterpartyHistoryEntry)
modify index f [] = ok []
modify zero f (e ∷ es) = bind (f e) (λ changed. ok (changed ∷ es))
modify (suc index) f (e ∷ es) =
    let rest = modify index f es in bind rest (λ changed. ok (e ∷ changed))

abbrev is_unknown : LocalOutcome → Bool
is_unknown outcome = outcome_to_u8 outcome == 0

-- `outcome_labels.push_back(outcome)`, if there is something to say and room for it.
unfoldable pub with_outcome : LocalOutcome → List LocalOutcome → List LocalOutcome
with_outcome outcome labels =
    if not (is_unknown outcome) && ltb (length labels) history_max_outcomes_per_entry
    then labels ++ outcome ∷ []
    else labels

abbrev pub or_clock : ℕ → ℕ → ℕ
or_clock clock now = if now == 0 then clock else now

unfoldable pub encountered :
    LocalOutcome → ℕ → CounterpartyHistoryEntry → Result CounterpartyHistoryEntry
encountered outcome now entry = ok (
    recompute_confidence (record entry {
      last_seen = now;
      encounter_count = (entry.encounter_count + 1) % 18446744073709551616;
      outcome_labels = with_outcome outcome entry.outcome_labels;
    }))

unfoldable pub noted : List ℕ → ℕ → CounterpartyHistoryEntry → Result CounterpartyHistoryEntry
noted text now entry = do
  throw_if (leb history_max_notes_per_entry (length entry.notes)) invalid_argument
  ok (record entry { notes = entry.notes ++ record { recorded_at = now; text = text } ∷ [] })

unfoldable pub evidenced : List ℕ → CounterpartyHistoryEntry → Result CounterpartyHistoryEntry
evidenced hash entry = do
  throw_if (leb history_max_evidence_hashes_per_entry (length entry.evidence_hashes))
      invalid_argument
  ok (recompute_confidence (record entry { evidence_hashes = entry.evidence_hashes ++ hash ∷ [] }))

abbrev pub blocked : Bool → CounterpartyHistoryEntry → Result CounterpartyHistoryEntry
blocked flag entry = ok (record entry { locally_blocked = flag })

-- The entries, and what the file holds if there is one.
pub record History : Type 0 where
  pub entries : List CounterpartyHistoryEntry
  pub file : Option (List ℕ)

module _ (c : Aead) (key : List ℕ) (clock : ℕ) (nonce : List ℕ) where
  -- An entry is found or made, changed by `f`, and all entries are written to the file.
  unfoldable pub change :
      List ℕ
      → List ℕ
      → ℕ
      → (CounterpartyHistoryEntry → Result CounterpartyHistoryEntry)
      → History
      → Result History
  change fingerprint mediator_id now f h =
      bind (get_or_create fingerprint mediator_id now h.entries) (λ (entries, index).
        bind (modify index f entries) (λ changed.
          bind (persist c key nonce changed)
            (λ raw. ok (record { entries = changed; file = some raw }))))

  unfoldable pub record_encounter : List ℕ → List ℕ → LocalOutcome → ℕ → History → Result History
  record_encounter fingerprint mediator_id outcome now h =
      let time = or_clock clock now in
      change fingerprint mediator_id time (encountered outcome time) h

  unfoldable pub set_blocked : List ℕ → List ℕ → Bool → History → Result History
  set_blocked fingerprint mediator_id flag h = change fingerprint mediator_id clock (blocked flag) h

  unfoldable pub add_note : List ℕ → List ℕ → List ℕ → ℕ → History → Result History
  add_note fingerprint mediator_id text now h = do
    throw_if (ltb history_max_note_length (length text)) invalid_argument
    let time = or_clock clock now in change fingerprint mediator_id time (noted text time) h

  unfoldable pub add_evidence_hash : List ℕ → List ℕ → List ℕ → History → Result History
  add_evidence_hash fingerprint mediator_id hash h =
      change fingerprint mediator_id clock (evidenced hash) h

-- std::count
abbrev pub count_outcome : ℕ → List LocalOutcome → ℕ
count_outcome value [] = 0
count_outcome value (outcome ∷ outcomes) =
    let rest = count_outcome value outcomes in
    if outcome_to_u8 outcome == value then suc rest else rest

unfoldable pub settlement_count : CounterpartyHistoryEntry → ℕ
settlement_count entry = count_outcome 1 entry.outcome_labels

unfoldable pub incomplete_count : CounterpartyHistoryEntry → ℕ
incomplete_count entry = count_outcome 2 entry.outcome_labels

abbrev pub any_outcome : ℕ → List LocalOutcome → Bool
any_outcome value [] = false
any_outcome value (outcome ∷ outcomes) =
    let rest = any_outcome value outcomes in if outcome_to_u8 outcome == value then true else rest

unfoldable pub classify_for_display : Option CounterpartyHistoryEntry → DisplayCategory
classify_for_display none = DisplayCategory.unknown_identity
classify_for_display (some entry) =
    if entry.locally_blocked
    then DisplayCategory.locally_blocked
    else (if any_outcome 2 entry.outcome_labels
        then DisplayCategory.previous_incomplete_interaction
        else (if any_outcome 1 entry.outcome_labels
            then DisplayCategory.previous_successful_interaction
            else (if entry.encounter_count == 0
                then DisplayCategory.unknown_identity
                else DisplayCategory.previously_encountered)))

-- The calls that change the history.
pub data Call : Type 0 where
  encounter : LocalOutcome → ℕ → Call
  block : Bool → Call
  note : List ℕ → ℕ → Call
  evidence : List ℕ → Call

-- What a call does to the entry, with the time that the call takes as its own.
unfoldable pub effect : ℕ → Call → CounterpartyHistoryEntry → Result CounterpartyHistoryEntry
effect clock (Call.encounter outcome now) e = encountered outcome (or_clock clock now) e
effect clock (Call.block flag) e = blocked flag e
effect clock (Call.note text now) e = noted text (or_clock clock now) e
effect clock (Call.evidence hash) e = evidenced hash e

unfoldable pub time_of : ℕ → Call → ℕ
time_of clock (Call.encounter outcome now) = or_clock clock now
time_of clock (Call.block flag) = clock
time_of clock (Call.note text now) = or_clock clock now
time_of clock (Call.evidence hash) = clock

unfoldable pub perform :
    Aead → List ℕ → ℕ → List ℕ → List ℕ → List ℕ → Call → History → Result History
perform c key clock nonce fingerprint mediator_id (Call.encounter outcome now) h =
    record_encounter c key clock nonce fingerprint mediator_id outcome now h
perform c key clock nonce fingerprint mediator_id (Call.block flag) h =
    set_blocked c key clock nonce fingerprint mediator_id flag h
perform c key clock nonce fingerprint mediator_id (Call.note text now) h =
    add_note c key clock nonce fingerprint mediator_id text now h
perform c key clock nonce fingerprint mediator_id (Call.evidence hash) h =
    add_evidence_hash c key clock nonce fingerprint mediator_id hash h
