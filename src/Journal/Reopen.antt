-- ===== src/Journal/Reopen.antt =====
-- The three writing operations of a journal (src/journal.cpp) keep its files consistent: each record
-- that an operation puts is replayed to what the operation left.
use tradep2p.Base.{
  ℕ, ◌≤◌, ◌≡◌, inl, inr, refl, sym, ◌∙◌, List, [], ◌∷◌, ◌++◌, arith, length, some, ok,
  length-append, true, bytes_eq_refl,
}
use tradep2p.Crypto.{Primitives, IsSound}
use tradep2p.Protocol.Wire.Bytes.{IsArray, IsU64}
use tradep2p.Protocol.Wire.Writer.{Writer, written}
use tradep2p.Journal.Types.{JournalEntryFields, JournalEntry}
use tradep2p.Journal.Format.{
  record_kind_entry, record_kind_checkpoint, record_kind_checkpoint_suite_v1,
  max_record_body_length, canonical_entry_bytes, HeadPointer, append_checkpoint,
  append_suite_checkpoint, expected_checkpoint_signature_length,
}
use tradep2p.Journal.Framing.{record_bytes}
use tradep2p.Journal.RoundTrip.{
  FieldsInRange, CheckpointInRange, IsSigned, read_entry_body-canonical_entry_bytes,
  read_checkpoint-append_checkpoint, read_suite_checkpoint-append_suite_checkpoint,
  decode_head-encode_head,
}
use tradep2p.Journal.Store.{
  Journal, check_transition, back, push_entry, mark_checkpoint, new_entry, append_stamped,
  checkpoint, checkpoint_mldsa65,
}
use tradep2p.Journal.Replay.{
  Keys, replay_entry, check_checkpoint, replay_checkpoint, replay_suite_checkpoint, suite_verified,
  replay_record, head_verified,
}
use tradep2p.Journal.Appends.{
  appended, back-push, entry_at-push, entry_at-append, append_stamped-eq-ok, Recorded,
  ed25519_checkpoint, mldsa65_checkpoint, checkpoint-eq-ok, checkpoint_mldsa65-eq-ok,
}
use tradep2p.Journal.Consistent.{without_files, HeadMatches, LastEntry, Consistent, replays-step}

module _ (c : Primitives) (keys : Keys) where
  check_transition-without_files :
      (j : Journal) (fields : JournalEntryFields)
      → check_transition (without_files j) fields ≡ check_transition j fields
  unfolding check_transition
  check_transition-without_files j fields = refl

  pub replay_record-entry :
      (j : Journal) (fields : JournalEntryFields) {content : List ℕ}
      → IsSound c
      → IsU64 (length j.entries)
      → FieldsInRange fields
      → IsArray 32 j.chain_head
      → canonical_entry_bytes (length j.entries) fields ≡ ok content
      → check_transition j fields ≡ ok tt
      → (replay_record c keys record_kind_entry
            (content ++ j.chain_head ++ c.sha256 (content ++ j.chain_head))
            (without_files j)
          ≡ ok (without_files (push_entry (new_entry c j fields content) j)))
        × (length (content ++ j.chain_head ++ c.sha256 (content ++ j.chain_head))
            ≤ max_record_body_length)
  unfolding replay_record replay_entry
  replay_record-entry j fields {content} sound i r a w legal =
      let hash = sound.sha256_size (content ++ j.chain_head) in
      let (back, short) =
        read_entry_body-canonical_entry_bytes (length j.entries) fields i r w a hash in
      (
        rw
            (
              back,
              bytes_eq_refl j.chain_head,
              bytes_eq_refl (c.sha256 (content ++ j.chain_head)),
              check_transition-without_files j fields,
              legal,
            )
            (ground arith),
        omega (
          arith,
          a.size,
          hash.size,
          length-append content j.chain_head,
          length-append (content ++ j.chain_head) (c.sha256 (content ++ j.chain_head)),
        ),
      )

  LastEntry-appended :
      (fields : JournalEntryFields) (j : Journal) (content : List ℕ) (e : JournalEntry)
      → back (appended c fields j content).entries ≡ some e
      → LastEntry c keys (appended c fields j content) e
  LastEntry-appended fields j content e p =
      let new = new_entry c j fields content in
      let is_new : new ≡ e = ground (arith, back-push j.entries new, p) in
      rw (← is_new) (record {
        index = omega (arith, length-append j.entries (new ∷ []));
        found = entry_at-push j.entries new;
        hash = refl;
      })

  HeadMatches-appended :
      (fields : JournalEntryFields) (j : Journal) (content : List ℕ) {bytes : List ℕ}
      → HeadMatches c keys j bytes
      → HeadMatches c keys (appended c fields j content) bytes
  HeadMatches-appended fields j content m = record {
    head = m.head;
    entry = m.entry;
    decodes = m.decodes;
    verified = m.verified;
    has_checkpoint = m.has_checkpoint;
    last = m.last;
    hash = m.hash;
    found = entry_at-append j.last_checkpoint_index j.entries _ m.found;
  }

  pub append_stamped-Consistent :
      (fields : JournalEntryFields) (j : Journal) {t : Journal}
      → IsSound c
      → IsU64 (length j.entries)
      → FieldsInRange fields
      → Consistent c keys j
      → append_stamped c fields j ≡ ok t
      → Consistent c keys t
  append_stamped-Consistent fields j {t} sound i r h e =
      let (content, legal, w, q) = append_stamped-eq-ok c fields j e in
      let (replayed, short) = replay_record-entry j fields sound i r h.chain_head w legal in
      let grown = length-append j.entries (new_entry c j fields content ∷ []) in
      rw q (record {
        replays =
            replays-step c keys j (appended c fields j content) record_kind_entry _ h short refl
              replayed;
        chain_head = sound.sha256_size (content ++ j.chain_head);
        small = omega arith;
        last = LastEntry-appended fields j content;
        checkpointed = λ p. let b = h.checkpointed p in omega arith;
        head = elim h.head [
          | inl n ↦ inl n
          | inr (bytes, n, m) ↦ inr (bytes, n, HeadMatches-appended fields j content m)
        ];
      })

  check_checkpoint-LastEntry :
      (head : HeadPointer) (j : Journal) (last : JournalEntry)
      → Consistent c keys j
      → LastEntry c keys j last
      → head.index ≡ last.index
      → head.hash ≡ j.chain_head
      → check_checkpoint head (without_files j) ≡ ok tt
  unfolding check_checkpoint
  check_checkpoint-LastEntry head j last h l i p =
      rw (i, l.found, p, l.hash, bytes_eq_refl j.chain_head)
        (ground (arith, l.index, h.checkpointed))

  -- The journal behind a checkpoint.
  Recorded-Consistent :
      (kind : ℕ) (w : HeadPointer → Writer) (head : HeadPointer) (j : Journal) (last : JournalEntry)
      {t : Journal}
      → Consistent c keys j
      → LastEntry c keys j last
      → head.index ≡ last.index
      → head.hash ≡ j.chain_head
      → IsSigned head
      → head_verified c keys head ≡ ok true
      → ((body : List ℕ)
          → written (w head) ≡ ok body
          → (replay_record c keys kind body (without_files j)
              ≡ ok (without_files (mark_checkpoint head.index j)))
            × (length body ≤ max_record_body_length))
      → Recorded c kind w head j t
      → Consistent c keys t
  Recorded-Consistent kind w head j last h l i p signed verified replayed made =
      let (back, short) = replayed made.body made.body_written in
      rw made.result (record {
        replays =
            replays-step c keys j
              (record (mark_checkpoint head.index j) {
                log = j.log ++ record_bytes kind made.body;
                head = some made.head_bytes;
              })
              kind made.body h short refl back;
        chain_head = h.chain_head;
        small = h.small;
        last = λ e q.
            let l' = h.last e q in record { index = l'.index; found = l'.found; hash = l'.hash };
        checkpointed = λ q. let n = l.index in omega arith;
        head = inr (
          made.head_bytes,
          refl,
          record {
            head = head;
            entry = last;
            decodes = decode_head-encode_head head signed made.head_written;
            verified = verified;
            has_checkpoint = refl;
            last = refl;
            found = rw i l.found;
            hash = l.hash ∙ sym p;
          },
        );
      })

  checkpoint-InRange :
      (head : HeadPointer) (j : Journal) (last : JournalEntry)
      → Consistent c keys j
      → LastEntry c keys j last
      → head.index ≡ last.index
      → head.hash ≡ j.chain_head
      → IsU64 head.signed_at
      → CheckpointInRange head
  checkpoint-InRange head j last h l i p now = record {
    index = let n = l.index in let s = h.small in omega arith;
    hash = rw p h.chain_head;
    signed_at = now;
  }

  pub checkpoint-Consistent :
      (seed : List ℕ) (now : ℕ) (j : Journal) {t : Journal}
      → IsSound c
      → keys.ed25519 ≡ c.ed25519_public seed
      → IsU64 now
      → Consistent c keys j
      → checkpoint c seed now j ≡ ok t
      → Consistent c keys t
  unfolding head_verified replay_record replay_checkpoint expected_checkpoint_signature_length
  checkpoint-Consistent seed now j sound key n h e =
      let (last, signed_bytes, found, signed, made) = checkpoint-eq-ok c seed now j e in
      let head = ed25519_checkpoint c seed now last.index j.chain_head signed_bytes in
      let l = h.last last found in
      let range = checkpoint-InRange head j last h l refl refl n in
      let size = sound.ed25519_size seed signed_bytes in
      let correct = sound.ed25519_correct seed signed_bytes in
      let checked = check_checkpoint-LastEntry head j last h l refl refl in
      Recorded-Consistent record_kind_checkpoint append_checkpoint head j last h l refl refl
        (record { in_range = range; suite = inl refl; signature = size })
        (rw (signed, key, correct) refl)
        (λ body w.
          let (back, short) = read_checkpoint-append_checkpoint head range size w in
          (rw (back, checked, signed, key, correct) refl, short))
        made

  pub checkpoint_mldsa65-Consistent :
      (seed : List ℕ) (now : ℕ) (j : Journal) {t : Journal}
      → IsSound c
      → keys.mldsa65 ≡ some (c.mldsa65_public seed)
      → IsU64 now
      → Consistent c keys j
      → checkpoint_mldsa65 c seed now j ≡ ok t
      → Consistent c keys t
  unfolding head_verified replay_record replay_suite_checkpoint suite_verified
      expected_checkpoint_signature_length
  checkpoint_mldsa65-Consistent seed now j sound key n h e =
      let (last, signed_bytes, found, signed, made) = checkpoint_mldsa65-eq-ok c seed now j e in
      let head = mldsa65_checkpoint c seed now last.index j.chain_head signed_bytes in
      let l = h.last last found in
      let range = checkpoint-InRange head j last h l refl refl n in
      let size = sound.mldsa65_size seed signed_bytes in
      let correct = sound.mldsa65_correct seed signed_bytes in
      let checked = check_checkpoint-LastEntry head j last h l refl refl in
      Recorded-Consistent record_kind_checkpoint_suite_v1 append_suite_checkpoint head j last h l
        refl refl (record { in_range = range; suite = inr refl; signature = size })
        (rw (key, signed, correct) refl)
        (λ body w.
          let (back, short) =
            read_suite_checkpoint-append_suite_checkpoint head range refl size w in
          (rw (back, checked, signed, key, correct) refl, short))
        made
