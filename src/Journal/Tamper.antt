-- ===== src/Journal/Tamper.antt =====
-- What Journal::open() of src/journal.cpp refuses: a log whose entries are not a chain, a log that
-- was rolled back behind the head file, and a log with other entries under the same hash.
use tradep2p.Base.{
  entry_at, ℕ, zero, suc, ◌<◌, ◌≤◌, ◌≡◌, refl, ap, ◌∙◌, List, [], ◌∷◌, true, not, ◌||◌, arith,
  length, Option, none, some, ok, bind, bind-eq-ok, bytes_eq→eq, throw_if, ltb, journal_tamper,
  journal_rollback, take, if◌then◌else◌,
}
use tradep2p.Crypto.{Primitives}
use tradep2p.Protocol.Wire.Bytes.{IsBytes}
use tradep2p.Journal.Types.{JournalEntry}
use tradep2p.Journal.Format.{HeadPointer, decode_head}
use tradep2p.Journal.Store.{Journal, empty_journal}
use tradep2p.Journal.Replay.{
  Keys, replay, head_verified, check_head, check_head_pointer, open_journal,
}
use tradep2p.Journal.Linked.{Linked, genesis, IsReplayed, replay-IsReplayed}

module _ (c : Primitives) (keys : Keys) where
  empty_journal-IsReplayed : IsReplayed c empty_journal
  empty_journal-IsReplayed = record { linked = genesis; checkpointed = λ p. cc }

  check_head-files :
      (stored : Option (List ℕ)) (j : Journal) (log : List ℕ) (head : Option (List ℕ))
      → check_head c keys stored (record j { log = log; head = head }) ≡ check_head c keys stored j
  unfolding check_head check_head_pointer
  check_head-files none j log head = refl
  check_head-files (some bytes) j log head = refl

  -- The journal that a log replays to, and the head file that was checked against it.
  opened_parts :
      (raw : List ℕ) (head : Option (List ℕ)) {j : Journal}
      → IsBytes raw
      → open_journal c keys raw head ≡ ok j
      → IsReplayed c j × (check_head c keys head j ≡ ok tt)
  unfolding open_journal
  opened_parts raw head {j} b e =
      let (found, e₁, f₁) = bind-eq-ok (replay c keys (length raw) raw 0 empty_journal) _ e in
      let (_, e₂, f₂) = bind-eq-ok (check_head c keys head found.journal) _ f₁ in
      let h =
        replay-IsReplayed c keys (length raw) raw 0 empty_journal b empty_journal-IsReplayed e₁ in
      let log = if found.torn_tail then take found.complete_length raw else raw in
      let same : record (found.journal) { log = log; head = head } ≡ j = cc in
      rw (← same) (
        record { linked = h.linked; checkpointed = h.checkpointed },
        check_head-files head found.journal log head ∙ e₂,
      )

  -- If a log of bytes opens, the entries are a chain from the genesis hash: each has its
  -- position as its index and the hash before it as its previous hash, its hash is the digest
  -- of its canonical bytes and the previous hash, and its state is legal behind the last state
  -- of its trade.
  pub open_journal-Linked :
      (raw : List ℕ) (head : Option (List ℕ)) {j : Journal}
      → IsBytes raw
      → open_journal c keys raw head ≡ ok j
      → Linked c j.entries j.chain_head j.last_state_by_trade
  open_journal-Linked raw head b e = (opened_parts raw head b e).0.linked

  -- The head file stands for an entry of the log at or before its last checkpoint.
  pub record IsCovered (j : Journal) (head : HeadPointer) : Type 0 where
    pub verified : head_verified c keys head ≡ ok true
    pub has_checkpoint : j.has_checkpoint ≡ true
    pub checkpointed : head.index ≤ j.last_checkpoint_index
    pub present : j.last_checkpoint_index < length j.entries
    pub entry : JournalEntry
    pub found : entry_at head.index j.entries ≡ some entry
    pub hash : entry.entry_hash ≡ head.hash

  entry_at-some :
      (i : ℕ) (xs : List JournalEntry)
      → i < length xs
      → (e : JournalEntry) × (entry_at i xs ≡ some e)
  entry_at-some i [] h = absurd (omega arith)
  entry_at-some zero (x ∷ xs) h = (x, refl)
  entry_at-some (suc i) (x ∷ xs) h = entry_at-some i xs (omega arith)

  check_head_pointer-IsCovered :
      (head : HeadPointer) (j : Journal)
      → IsReplayed c j
      → check_head_pointer c keys head j ≡ ok tt
      → IsCovered j head
  unfolding check_head_pointer
  check_head_pointer-IsCovered head j h e =
      let (_, e₁, f₁) =
        bind-eq-ok
          (bind (head_verified c keys head) (λ verified. throw_if (not verified) journal_tamper)) _
          e in
      let (verified, v₁, v₂) = bind-eq-ok (head_verified c keys head) _ e₁ in
      let (_, e₂, f₂) =
        bind-eq-ok
          (throw_if (not j.has_checkpoint || ltb j.last_checkpoint_index head.index)
            journal_rollback)
          _ f₁ in
      let has : j.has_checkpoint ≡ true = ground arith in
      let low : head.index ≤ j.last_checkpoint_index = ground arith in
      let present = h.checkpointed has in
      let (entry, found) = entry_at-some head.index j.entries (omega arith) in
      let f₃ = rw found at f₂ in
      record {
        verified = v₁ ∙ ap ok (ground arith);
        has_checkpoint = has;
        checkpointed = low;
        present = present;
        entry = entry;
        found = found;
        hash = bytes_eq→eq _ _ (ground arith);
      }

  -- If a log of bytes opens beside a head file, the head file decodes, its signature verifies,
  -- the log has a checkpoint, the index of the head file is not ahead of the last one, that
  -- checkpoint is within the entries, and the entry at the index of the head file has the hash
  -- that the head file names.
  pub open_journal-IsCovered :
      (raw bytes : List ℕ) {j : Journal}
      → IsBytes raw
      → open_journal c keys raw (some bytes) ≡ ok j
      → (head : HeadPointer) × (decode_head bytes ≡ ok head) × IsCovered j head
  unfolding check_head
  open_journal-IsCovered raw bytes {j} b e =
      let (h, checked) = opened_parts raw (some bytes) b e in
      let (head, e₁, e₂) = bind-eq-ok (decode_head bytes) _ checked in
      (head, e₁, check_head_pointer-IsCovered head j h e₂)
