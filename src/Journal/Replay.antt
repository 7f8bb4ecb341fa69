-- ===== src/Journal/Replay.antt =====
-- Journal::open() of src/journal.cpp: the replay of the log, and the check of the head file.
use tradep2p.Base.{
  entry_at, ℕ, zero, suc, ◌+◌, List, ◌++◌, Bool, true, false, ◌&&◌, ◌||◌, not, length, take, ltb,
  ◌==◌, bytes_eq, if◌then◌else◌, Option, none, some, Result, ok, err, bind, throw_if,
  journal_format, journal_tamper, journal_rollback,
}
use tradep2p.Base.Outcome.{◌>>◌}
use tradep2p.Crypto.{Primitives}
use tradep2p.Protocol.Wire.Reader.{decoded}
use tradep2p.Journal.Types.{
  JournalEntry, journal_checkpoint_suite_ed25519_v1, journal_checkpoint_suite_ml_dsa65_v1,
}
use tradep2p.Journal.Format.{
  record_kind_entry, record_kind_checkpoint, record_kind_checkpoint_suite_v1, format_errors,
  EntryBody, read_entry_body, checkpoint_signed_bytes, checkpoint_suite_signed_bytes, HeadPointer,
  read_checkpoint, read_suite_checkpoint, decode_head, finished, torn, too_long, framed,
  next_record,
}
use tradep2p.Journal.Store.{Journal, empty_journal, check_transition, push_entry, mark_checkpoint}

-- The public keys that open() is given.
pub record Keys : Type 0 where
  pub ed25519 : List ℕ
  pub mldsa65 : Option (List ℕ)

abbrev pub entry_of : EntryBody → JournalEntry
entry_of body = record {
  index = body.content.index;
  fields = body.content.fields;
  previous_hash = body.previous_hash;
  entry_hash = body.entry_hash;
}

-- The checks of a checkpoint record before its signature. An index that has not occurred yet has no
-- entry.
unfoldable pub check_checkpoint : HeadPointer → Journal → Result (Unit {0})
check_checkpoint head j = do
  elim (entry_at head.index j.entries) [
    | none ↦ err journal_tamper
    | some entry ↦ throw_if (not (bytes_eq entry.entry_hash head.hash)) journal_tamper
  ]
  throw_if (j.has_checkpoint && ltb head.index j.last_checkpoint_index) journal_tamper

-- What a replay leaves: the journal, the length of the complete records, and whether the tail is
-- torn.
pub record Replayed : Type 0 where
  pub journal : Journal
  pub complete_length : ℕ
  pub torn_tail : Bool

module _ (c : Primitives) where
  unfoldable pub replay_entry : EntryBody → Journal → Result Journal
  replay_entry body j = do
    throw_if (not (body.content.index == length j.entries)) journal_tamper
    throw_if (not (bytes_eq body.previous_hash j.chain_head)) journal_tamper
    throw_if (not (bytes_eq (c.sha256 (body.content_bytes ++ body.previous_hash)) body.entry_hash))
        journal_tamper
    check_transition j body.content.fields
    ok (push_entry (entry_of body) j)

  module _ (keys : Keys) where
    -- The signature of a suite.
    unfoldable pub suite_verified : HeadPointer → List ℕ → Result Bool
    suite_verified head signed_bytes =
        if head.suite_id == journal_checkpoint_suite_ml_dsa65_v1
        then elim keys.mldsa65 [
          | none ↦ err journal_tamper
          | some key ↦ ok (c.mldsa65_verify key signed_bytes head.signature)
        ]
        else (if head.suite_id == journal_checkpoint_suite_ed25519_v1
            then ok (c.ed25519_verify keys.ed25519 signed_bytes head.signature)
            else err journal_format)

    unfoldable pub replay_checkpoint : HeadPointer → Journal → Result Journal
    replay_checkpoint head j = do
      check_checkpoint head j
      bind (checkpoint_signed_bytes head.index head.hash head.signed_at) (λ signed_bytes.
          throw_if (not (c.ed25519_verify keys.ed25519 signed_bytes head.signature)) journal_tamper
          >> ok (mark_checkpoint head.index j))

    unfoldable pub replay_suite_checkpoint : HeadPointer → Journal → Result Journal
    replay_suite_checkpoint head j = do
      check_checkpoint head j
      bind (checkpoint_suite_signed_bytes head.suite_id head.index head.hash head.signed_at)
          (λ signed_bytes. bind (suite_verified head signed_bytes) (λ verified.
            throw_if (not verified) journal_tamper >> ok (mark_checkpoint head.index j)))

    -- One record of the log, by its kind.
    unfoldable pub replay_record : ℕ → List ℕ → Journal → Result Journal
    replay_record kind body j =
        if kind == record_kind_entry
        then bind (format_errors (decoded read_entry_body body)) (λ entry. replay_entry entry j)
        else (if kind == record_kind_checkpoint
            then bind (format_errors (decoded read_checkpoint body))
                (λ head. replay_checkpoint head j)
            else (if kind == record_kind_checkpoint_suite_v1
                then bind (format_errors (decoded read_suite_checkpoint body))
                    (λ head. replay_suite_checkpoint head j)
                else err journal_format))

    -- `while (pos < raw.size())`; every round takes at least five bytes, so that the length of the
    -- log is enough fuel.
    unfoldable pub replay : ℕ → List ℕ → ℕ → Journal → Result Replayed
    replay zero raw complete j =
        ok (record { journal = j; complete_length = complete; torn_tail = false })
    replay (suc fuel) raw complete j = elim (next_record raw) [
      | finished ↦ ok (record { journal = j; complete_length = complete; torn_tail = false })
      | torn ↦ ok (record { journal = j; complete_length = complete; torn_tail = true })
      | too_long ↦ err journal_format
      | framed kind body rest ↦
          bind (replay_record kind body j)
            (λ next. replay fuel rest (complete + 5 + length body) next)
    ]

    unfoldable pub head_verified : HeadPointer → Result Bool
    head_verified head =
        if head.suite_id == journal_checkpoint_suite_ml_dsa65_v1
        then elim keys.mldsa65 [
          | none ↦ err journal_tamper
          | some key ↦
              bind (checkpoint_suite_signed_bytes head.suite_id head.index head.hash head.signed_at)
                (λ signed_bytes. ok (c.mldsa65_verify key signed_bytes head.signature))
        ]
        else bind (checkpoint_signed_bytes head.index head.hash head.signed_at)
            (λ signed_bytes. ok (c.ed25519_verify keys.ed25519 signed_bytes head.signature))

    -- The checks of a head pointer against what the replay found.
    unfoldable pub check_head_pointer : HeadPointer → Journal → Result (Unit {0})
    check_head_pointer head j = do
      bind (head_verified head) (λ verified. throw_if (not verified) journal_tamper)
      throw_if (not j.has_checkpoint || ltb j.last_checkpoint_index head.index) journal_rollback
      elim (entry_at head.index j.entries) [
        | none ↦ ok tt
        | some entry ↦ throw_if (not (bytes_eq entry.entry_hash head.hash)) journal_tamper
      ]

    unfoldable pub check_head : Option (List ℕ) → Journal → Result (Unit {0})
    check_head none j = ok tt
    check_head (some bytes) j = bind (decode_head bytes) (λ head. check_head_pointer head j)

    -- open() on the bytes of the two files.
    unfoldable pub open_journal : List ℕ → Option (List ℕ) → Result Journal
    open_journal raw head = bind (replay (length raw) raw 0 empty_journal) (λ found.
        bind (check_head head found.journal) (λ _. ok (record (found.journal) {
          log = if found.torn_tail then take found.complete_length raw else raw;
          head = head;
        })))
