-- ===== src/Journal/Store.antt =====
-- The class Journal of src/journal.cpp. The log and the head file are byte strings; a failing write
-- to a file is not modelled. The clock and the keys are parameters.
use tradep2p.Base.{
  ℕ, List, [], ◌∷◌, ◌++◌, Bool, true, false, ◌||◌, not, length, replicate, ◌==◌, bytes_eq,
  if◌then◌else◌, Option, none, some, Result, ok, err, bind, throw_if, logic_error, journal_tamper,
}
use tradep2p.Base.Outcome.{◌>>◌}
use tradep2p.Crypto.{Primitives}
use tradep2p.Protocol.Wire.Writer.{written}
use tradep2p.Protocol.Hex.{bytes_to_hex}
use tradep2p.RoomPersistence.{session_state_to_u8}
use tradep2p.Mediator.Session.{SessionState}
use tradep2p.Journal.Types.{
  JournalEntryFields, JournalEntry, journal_checkpoint_suite_ed25519_v1,
  journal_checkpoint_suite_ml_dsa65_v1,
}
use tradep2p.Journal.Format.{
  record_kind_entry, record_kind_checkpoint, record_kind_checkpoint_suite_v1, canonical_entry_bytes,
  checkpoint_signed_bytes, checkpoint_suite_signed_bytes, HeadPointer, append_checkpoint,
  append_suite_checkpoint, encode_head, frame,
}

-- `==` on SessionState.
abbrev pub state_eq : SessionState → SessionState → Bool
state_eq s t = session_state_to_u8 s == session_state_to_u8 t

-- The switch of is_valid_transition().
unfoldable pub follows : SessionState → SessionState → Bool
follows SessionState.waiting_for_peer to =
    state_eq to SessionState.waiting_for_sent || state_eq to SessionState.aborted
follows SessionState.waiting_for_sent to =
    state_eq to SessionState.waiting_for_received || state_eq to SessionState.aborted
follows SessionState.waiting_for_received to =
    state_eq to SessionState.waiting_for_sent
    || state_eq to SessionState.waiting_for_final_receipt_ack
    || state_eq to SessionState.complete
    || state_eq to SessionState.aborted
follows SessionState.waiting_for_final_receipt_ack to =
    state_eq to SessionState.waiting_for_sent
    || state_eq to SessionState.waiting_for_fee_sent
    || state_eq to SessionState.aborted
follows SessionState.waiting_for_fee_sent to =
    state_eq to SessionState.complete
    || state_eq to SessionState.waiting_for_fee_confirmation
    || state_eq to SessionState.aborted
follows SessionState.waiting_for_fee_confirmation to =
    state_eq to SessionState.complete || state_eq to SessionState.aborted
follows _ to = false

unfoldable pub is_valid_transition : SessionState → SessionState → Bool
is_valid_transition from to = state_eq from to || follows from to

pub record Journal : Type 0 where
  pub log : List ℕ
  pub head : Option (List ℕ)
  pub entries : List JournalEntry
  pub chain_head : List ℕ
  pub last_checkpoint_index : ℕ
  pub has_checkpoint : Bool
  pub last_state_by_trade : List (List ℕ × SessionState)

-- kGenesisHash
abbrev pub genesis_hash : List ℕ
genesis_hash = replicate 32 0

abbrev pub empty_journal : Journal
empty_journal = record {
  log = [];
  head = none;
  entries = [];
  chain_head = genesis_hash;
  last_checkpoint_index = 0;
  has_checkpoint = false;
  last_state_by_trade = [];
}

-- std::unordered_map: `find` and `map[key] = value`.
abbrev pub lookup : List ℕ → List (List ℕ × SessionState) → Option SessionState
lookup key [] = none
lookup key ((k, s) ∷ m) = if bytes_eq k key then some s else lookup key m

abbrev pub assign :
    List ℕ → SessionState → List (List ℕ × SessionState) → List (List ℕ × SessionState)
assign key s [] = (key, s) ∷ []
assign key s ((k, t) ∷ m) = if bytes_eq k key then (k, s) ∷ m else (k, t) ∷ assign key s m

-- trade_id_hex()
abbrev pub trade_id_hex : List ℕ → List ℕ
trade_id_hex id = bytes_to_hex id

-- The first entry of a trade waits for the peer, any later one follows the one before.
abbrev pub transition_ok : Option SessionState → SessionState → Bool
transition_ok none state = state_eq state SessionState.waiting_for_peer
transition_ok (some previous) state = is_valid_transition previous state

unfoldable pub check_transition : Journal → JournalEntryFields → Result (Unit {0})
check_transition j fields =
    throw_if
      (not (
        transition_ok (lookup (trade_id_hex fields.trade_id) j.last_state_by_trade)
          fields.local_state))
      journal_tamper

-- entries_.back()
abbrev pub back {ℓ} : {A : Type ℓ} → List A → Option A
back [] = none
back (e ∷ []) = some e
back (e ∷ f ∷ es) = back (f ∷ es)

-- An entry becomes the end of the chain.
abbrev pub push_entry : JournalEntry → Journal → Journal
push_entry entry j = record j {
  entries = j.entries ++ entry ∷ [];
  chain_head = entry.entry_hash;
  last_state_by_trade =
      assign (trade_id_hex entry.fields.trade_id) entry.fields.local_state j.last_state_by_trade;
}

abbrev pub mark_checkpoint : ℕ → Journal → Journal
mark_checkpoint index j = record j { last_checkpoint_index = index; has_checkpoint = true }

module _ (c : Primitives) where
  abbrev pub stamped : ℕ → JournalEntryFields → JournalEntryFields
  stamped now fields = record fields {
    timestamp = if fields.timestamp == 0 then now else fields.timestamp;
  }

  abbrev pub new_entry : Journal → JournalEntryFields → List ℕ → JournalEntry
  new_entry j fields content = record {
    index = length j.entries;
    fields = fields;
    previous_hash = j.chain_head;
    entry_hash = c.sha256 (content ++ j.chain_head);
  }

  -- append(), behind the choice of the timestamp.
  unfoldable pub append_stamped : JournalEntryFields → Journal → Result Journal
  append_stamped fields j = do
    check_transition j fields
    bind (canonical_entry_bytes (length j.entries) fields) (λ content.
        bind
          (frame record_kind_entry (content ++ j.chain_head ++ c.sha256 (content ++ j.chain_head)))
          (λ bytes.
            ok (record (push_entry (new_entry j fields content) j) { log = j.log ++ bytes })))

  unfoldable pub append : ℕ → JournalEntryFields → Journal → Result Journal
  append now fields j = append_stamped (stamped now fields) j

  -- A checkpoint goes to the end of the log, and then into the head file.
  unfoldable pub record_checkpoint : ℕ → List ℕ → HeadPointer → Journal → Result Journal
  record_checkpoint kind body head j = bind (frame kind body) (λ bytes.
      bind (encode_head head) (λ head_bytes.
        ok
          (record (mark_checkpoint head.index j) { log = j.log ++ bytes; head = some head_bytes })))

  unfoldable pub checkpoint : List ℕ → ℕ → Journal → Result Journal
  checkpoint seed now j = elim (back j.entries) [
    | none ↦ err logic_error
    | some last ↦ bind (checkpoint_signed_bytes last.index j.chain_head now) (λ signed_bytes.
        let head : HeadPointer = record {
          suite_id = journal_checkpoint_suite_ed25519_v1;
          index = last.index;
          hash = j.chain_head;
          signed_at = now;
          signature = c.ed25519_sign seed signed_bytes;
        } in
        bind (written (append_checkpoint head))
          (λ body. record_checkpoint record_kind_checkpoint body head j))
  ]

  unfoldable pub checkpoint_mldsa65 : List ℕ → ℕ → Journal → Result Journal
  checkpoint_mldsa65 seed now j = elim (back j.entries) [
    | none ↦ err logic_error
    | some last ↦
        bind
          (checkpoint_suite_signed_bytes journal_checkpoint_suite_ml_dsa65_v1 last.index
            j.chain_head now)
          (λ signed_bytes.
            let head : HeadPointer = record {
              suite_id = journal_checkpoint_suite_ml_dsa65_v1;
              index = last.index;
              hash = j.chain_head;
              signed_at = now;
              signature = c.mldsa65_sign seed signed_bytes;
            } in
            bind (written (append_suite_checkpoint head))
              (λ body. record_checkpoint record_kind_checkpoint_suite_v1 body head j))
  ]

  unfoldable pub latest_for_trade : List ℕ → List JournalEntry → Option JournalEntry
  latest_for_trade trade_id [] = none
  latest_for_trade trade_id (e ∷ es) = elim (latest_for_trade trade_id es) [
    | some later ↦ some later
    | none ↦ if bytes_eq e.fields.trade_id trade_id then some e else none
  ]
