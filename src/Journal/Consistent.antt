-- ===== src/Journal/Consistent.antt =====
-- What the two files of a journal (src/journal.cpp) hold while it is written, and that the replay
-- finds it there.
use tradep2p.Base.{
  entry_at, ℕ, suc, ◌<◌, ◌≤◌, ◌≡◌, ◌⊎◌, inl, inr, refl, List, [], ◌∷◌, ◌++◌, append_assoc,
  append-nil, arith, length, none, some, ok, length-append, true, bytes_eq_refl, take-append_exact,
}
use tradep2p.Crypto.{Primitives}
use tradep2p.Protocol.Wire.Bytes.{IsArray}
use tradep2p.Journal.Types.{JournalEntry}
use tradep2p.Journal.Format.{max_record_body_length, HeadPointer, decode_head, next_record, torn}
use tradep2p.Journal.Framing.{record_bytes}
use tradep2p.Journal.Store.{Journal, empty_journal, back}
use tradep2p.Journal.Replay.{
  Keys, replay_record, replay, head_verified, check_head_pointer, check_head, open_journal,
}
use tradep2p.Journal.Resume.{replay-record_bytes}

-- What the replay of the log finds of a journal.
abbrev pub without_files : Journal → Journal
without_files j = record j { log = []; head = none }

module _ (c : Primitives) (keys : Keys) where
  -- The head file points at the last checkpoint.
  pub record HeadMatches (j : Journal) (bytes : List ℕ) : Type 0 where
    pub head : HeadPointer
    pub entry : JournalEntry
    pub decodes : decode_head bytes ≡ ok head
    pub verified : head_verified c keys head ≡ ok true
    pub has_checkpoint : j.has_checkpoint ≡ true
    pub last : head.index ≡ j.last_checkpoint_index
    pub found : entry_at j.last_checkpoint_index j.entries ≡ some entry
    pub hash : entry.entry_hash ≡ head.hash

  pub record LastEntry (j : Journal) (e : JournalEntry) : Type 0 where
    pub index : suc e.index ≡ length j.entries
    pub found : entry_at e.index j.entries ≡ some e
    pub hash : e.entry_hash ≡ j.chain_head

  -- The log replays to the journal, whatever follows it, and the head file matches.
  pub record Consistent (j : Journal) : Type 0 where
    pub replays :
        (more : List ℕ)
        → replay c keys (length (j.log ++ more)) (j.log ++ more) 0 empty_journal
          ≡ replay c keys (length more) more (length j.log) (without_files j)
    pub chain_head : IsArray 32 j.chain_head
    pub small : length j.entries ≤ 18446744073709551616
    pub last : (e : JournalEntry) → back j.entries ≡ some e → LastEntry j e
    pub checkpointed : j.has_checkpoint ≡ true → j.last_checkpoint_index < length j.entries
    pub head : (j.head ≡ none) ⊎ ((bytes : List ℕ) × (j.head ≡ some bytes) × HeadMatches j bytes)

  pub check_head-HeadMatches :
      (j : Journal) {bytes : List ℕ}
      → HeadMatches j bytes
      → check_head c keys (some bytes) (without_files j) ≡ ok tt
  unfolding check_head check_head_pointer
  check_head-HeadMatches j m =
      rw
        (
          m.decodes,
          m.verified,
          m.has_checkpoint,
          m.last,
          m.found,
          m.hash,
          bytes_eq_refl m.head.hash,
        )
        (ground arith)

  pub check_head-Consistent :
      (j : Journal) → Consistent j → check_head c keys j.head (without_files j) ≡ ok tt
  unfolding check_head
  check_head-Consistent j h = elim h.head [
    | inl e ↦ rw e refl
    | inr (bytes, e, m) ↦ rw e (check_head-HeadMatches j m)
  ]

  -- A consistent journal is what its two files open to.
  pub open_journal-Consistent :
      (j : Journal) → Consistent j → open_journal c keys j.log j.head ≡ ok j
  unfolding open_journal replay
  open_journal-Consistent j h =
      let replayed = rw (append-nil j.log) at (h.replays []) in
      rw (replayed, check_head-Consistent j h) refl

  -- A torn record behind the log of a consistent journal is dropped.
  pub open_journal-torn_Consistent :
      (j : Journal) (tail : List ℕ)
      → Consistent j
      → next_record tail ≡ torn
      → open_journal c keys (j.log ++ tail) j.head ≡ ok j
  unfolding open_journal next_record replay
  open_journal-torn_Consistent j [] h e = cc
  open_journal-torn_Consistent j (b ∷ tail) h e =
      let torn_replay : replay c keys (suc (length tail)) (b ∷ tail) (length j.log)
            (without_files j)
          ≡ ok (record {
            journal = without_files j;
            complete_length = length j.log;
            torn_tail = true;
          }) =
        rw (e, replay) refl in
      rw
        (
          h.replays (b ∷ tail),
          torn_replay,
          check_head-Consistent j h,
          take-append_exact j.log (b ∷ tail) (length j.log) refl,
        )
        refl

  pub replays-step :
      (j t : Journal) (kind : ℕ) (body : List ℕ)
      → Consistent j
      → length body ≤ max_record_body_length
      → t.log ≡ j.log ++ record_bytes kind body
      → replay_record c keys kind body (without_files j) ≡ ok (without_files t)
      → (more : List ℕ)
      → replay c keys (length (t.log ++ more)) (t.log ++ more) 0 empty_journal
        ≡ replay c keys (length more) more (length t.log) (without_files t)
  replays-step j t kind body h l grown replayed more =
      rw
        (
          grown,
          append_assoc j.log (record_bytes kind body) more,
          h.replays (record_bytes kind body ++ more),
          replay-record_bytes c keys kind body more (length j.log) (without_files j) l,
          replayed,
          length-append j.log (record_bytes kind body),
        )
        refl
