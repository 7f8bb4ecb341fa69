-- ===== src/Journal/Linked.antt =====
-- The chain of the entries that Journal::open() of src/journal.cpp accepts.
use tradep2p.Base.{
  entry_at, ℕ, zero, suc, ◌≡◌, refl, sym, List, [], ◌∷◌, ◌++◌, Bool, true, false, arith, length,
  Option, none, some, Result, ok, err, bind-eq-ok, bytes_eq, bytes_eq→eq, not, ◌==◌, throw_if,
  journal_tamper, journal_format, bind, ◌<◌, length-append, if◌then◌else◌,
}
use tradep2p.Crypto.{Primitives}
use tradep2p.Protocol.Wire.Bytes.{IsBytes, IsArray, IsU64}
use tradep2p.Protocol.Wire.Reader.{decoded}
use tradep2p.Mediator.Session.{SessionState}
use tradep2p.Journal.Types.{JournalEntry}
use tradep2p.Journal.Format.{
  format_errors, canonical_entry_bytes, Framing, finished, torn, too_long, framed, next_record,
  EntryBody, read_entry_body, HeadPointer, checkpoint_signed_bytes, checkpoint_suite_signed_bytes,
  read_checkpoint, read_suite_checkpoint, record_kind_entry, record_kind_checkpoint,
  record_kind_checkpoint_suite_v1,
}
use tradep2p.Journal.Framing.{next_record-IsBytes}
use tradep2p.Journal.RoundTrip.{FieldsInRange}
use tradep2p.Journal.Canonical.{IsCanonical, decoded-IsCanonical}
use tradep2p.Journal.Store.{
  Journal, genesis_hash, lookup, assign, trade_id_hex, transition_ok, check_transition, push_entry,
  mark_checkpoint,
}
use tradep2p.Journal.Replay.{
  Keys, Replayed, entry_of, replay_entry, check_checkpoint, replay_checkpoint,
  replay_suite_checkpoint, suite_verified, replay_record, replay,
}

module _ (c : Primitives) where
  -- An entry that may stand behind `length` entries with this chain head and these states: its hash
  -- covers its canonical bytes and the hash before it.
  pub record IsNext (length : ℕ) (chain_head : List ℕ) (states : List (List ℕ × SessionState))
      (entry : JournalEntry) : Type 0 where
    pub content : List ℕ
    pub fields : FieldsInRange entry.fields
    pub small : IsU64 entry.index
    pub index : entry.index ≡ length
    pub previous_hash : entry.previous_hash ≡ chain_head
    pub encoded : canonical_entry_bytes entry.index entry.fields ≡ ok content
    pub entry_hash : entry.entry_hash ≡ c.sha256 (content ++ chain_head)
    pub size : IsArray 32 chain_head
    pub legal :
        transition_ok (lookup (trade_id_hex entry.fields.trade_id) states) entry.fields.local_state
        ≡ true

  pub data Linked : List JournalEntry → List ℕ → List (List ℕ × SessionState) → Type 0 where
    genesis : Linked [] genesis_hash []
    link :
        (entries : List JournalEntry) (chain_head : List ℕ) (states : List (List ℕ × SessionState))
        (entry : JournalEntry)
        → Linked entries chain_head states
        → IsNext (length entries) chain_head states entry
        → Linked
            (entries ++ entry ∷ [])
            entry.entry_hash
            (assign (trade_id_hex entry.fields.trade_id) entry.fields.local_state states)

  abbrev pub IsLinked : Journal → Type 0
  IsLinked j = Linked j.entries j.chain_head j.last_state_by_trade

  replay_entry-IsNext :
      (body : EntryBody) (j : Journal) {t : Journal}
      → IsCanonical body
      → replay_entry c body j ≡ ok t
      → (t ≡ push_entry (entry_of body) j)
        × IsNext (length j.entries) j.chain_head j.last_state_by_trade (entry_of body)
  unfolding replay_entry check_transition
  replay_entry-IsNext body j h e =
      let (_, e₁, f₁) =
        bind-eq-ok (throw_if (not (body.content.index == length j.entries)) journal_tamper) _ e in
      let (_, e₂, f₂) =
        bind-eq-ok (throw_if (not (bytes_eq body.previous_hash j.chain_head)) journal_tamper) _
          f₁ in
      let (_, e₃, f₃) =
        bind-eq-ok
          (throw_if
            (not (bytes_eq (c.sha256 (body.content_bytes ++ body.previous_hash)) body.entry_hash))
            journal_tamper)
          _ f₂ in
      let (_, e₄, f₄) = bind-eq-ok (check_transition j body.content.fields) _ f₃ in
      let chained : body.previous_hash ≡ j.chain_head = bytes_eq→eq _ _ (ground arith) in
      let hashed : c.sha256 (body.content_bytes ++ body.previous_hash) ≡ body.entry_hash =
        bytes_eq→eq _ _ (ground arith) in
      (
        cc,
        record {
          content = body.content_bytes;
          fields = h.fields;
          small = h.index;
          index = ground arith;
          previous_hash = chained;
          encoded = h.content;
          entry_hash = rw (← chained) (sym hashed);
          size = rw (← chained) h.previous_hash;
          legal = ground arith;
        },
      )

  -- What holds of a journal behind every record of its replay.
  pub record IsReplayed (j : Journal) : Type 0 where
    pub linked : IsLinked j
    pub checkpointed : j.has_checkpoint ≡ true → j.last_checkpoint_index < length j.entries

  entry_at-lt :
      (i : ℕ) (xs : List JournalEntry) {e : JournalEntry} → entry_at i xs ≡ some e → i < length xs
  entry_at-lt i [] h = cc
  entry_at-lt zero (x ∷ xs) h = omega arith
  entry_at-lt (suc i) (x ∷ xs) h = omega (arith, entry_at-lt i xs h)

  check_checkpoint-lt :
      (head : HeadPointer) (j : Journal)
      → check_checkpoint head j ≡ ok tt
      → head.index < length j.entries
  unfolding check_checkpoint
  check_checkpoint-lt head j e = go (entry_at head.index j.entries) refl
    where
      go :
          (x : Option JournalEntry)
          → entry_at head.index j.entries ≡ x
          → head.index < length j.entries
      go none p = let e₁ = rw p at e in cc
      go (some entry) p = entry_at-lt head.index j.entries p

  mark_checkpoint-IsReplayed :
      (head : HeadPointer) (j : Journal)
      → IsReplayed j
      → check_checkpoint head j ≡ ok tt
      → IsReplayed (mark_checkpoint head.index j)
  mark_checkpoint-IsReplayed head j h e = record {
    linked = h.linked;
    checkpointed = λ _. check_checkpoint-lt head j e;
  }

  push_entry-IsReplayed :
      (entry : JournalEntry) (j : Journal)
      → IsReplayed j
      → IsNext (length j.entries) j.chain_head j.last_state_by_trade entry
      → IsReplayed (push_entry entry j)
  push_entry-IsReplayed entry j h n = record {
    linked = link j.entries j.chain_head j.last_state_by_trade entry h.linked n;
    checkpointed =
        λ p. let b = h.checkpointed p in omega (arith, length-append j.entries (entry ∷ []));
  }

  module _ (keys : Keys) where
    replay_checkpoint-IsReplayed :
        (head : HeadPointer) (j : Journal) {t : Journal}
        → IsReplayed j
        → replay_checkpoint c keys head j ≡ ok t
        → IsReplayed t
    unfolding replay_checkpoint
    replay_checkpoint-IsReplayed head j {t} h e =
        let (_, e₁, f₁) = bind-eq-ok (check_checkpoint head j) _ e in
        let (signed_bytes, e₂, f₂) =
          bind-eq-ok (checkpoint_signed_bytes head.index head.hash head.signed_at) _ f₁ in
        let (_, e₃, f₃) =
          bind-eq-ok
            (throw_if (not (c.ed25519_verify keys.ed25519 signed_bytes head.signature))
              journal_tamper)
            _ f₂ in
        let same : mark_checkpoint head.index j ≡ t = cc in
        rw (← same) (mark_checkpoint-IsReplayed head j h e₁)

    replay_suite_checkpoint-IsReplayed :
        (head : HeadPointer) (j : Journal) {t : Journal}
        → IsReplayed j
        → replay_suite_checkpoint c keys head j ≡ ok t
        → IsReplayed t
    unfolding replay_suite_checkpoint
    replay_suite_checkpoint-IsReplayed head j {t} h e =
        let (_, e₁, f₁) = bind-eq-ok (check_checkpoint head j) _ e in
        let (signed_bytes, e₂, f₂) =
          bind-eq-ok
            (checkpoint_suite_signed_bytes head.suite_id head.index head.hash head.signed_at) _
            f₁ in
        let (verified, e₃, f₃) = bind-eq-ok (suite_verified c keys head signed_bytes) _ f₂ in
        let (_, e₄, f₄) = bind-eq-ok (throw_if (not verified) journal_tamper) _ f₃ in
        let same : mark_checkpoint head.index j ≡ t = cc in
        rw (← same) (mark_checkpoint-IsReplayed head j h e₁)

    format_errors-eq-ok {ℓ} :
        {A : Type ℓ} (r : Result A) {a : A} → format_errors r ≡ ok a → r ≡ ok a
    format_errors-eq-ok (ok a) h = h
    format_errors-eq-ok (err e) h = cc

    replay_record-IsReplayed :
        (kind : ℕ) (body : List ℕ) (j : Journal) {t : Journal}
        → IsBytes body
        → IsReplayed j
        → replay_record c keys kind body j ≡ ok t
        → IsReplayed t
    unfolding replay_record
    replay_record-IsReplayed kind body j {t} b h e =
        go (kind == record_kind_entry) (kind == record_kind_checkpoint)
          (kind == record_kind_checkpoint_suite_v1) e
      where
        entry :
            bind (format_errors (decoded read_entry_body body)) (λ entry. replay_entry c entry j)
              ≡ ok t
            → IsReplayed t
        entry e =
            let (eb, e₁, e₂) = bind-eq-ok (format_errors (decoded read_entry_body body)) _ e in
            let canonical = decoded-IsCanonical body b (format_errors-eq-ok _ e₁) in
            let (p, n) = replay_entry-IsNext eb j canonical e₂ in
            rw p (push_entry-IsReplayed (entry_of eb) j h n)

        go :
            (x y z : Bool)
            → (if x
                then bind
                    (format_errors (decoded read_entry_body body))
                    (λ entry. replay_entry c entry j)
                else (if y
                    then bind
                        (format_errors (decoded read_checkpoint body))
                        (λ head. replay_checkpoint c keys head j)
                    else (if z
                        then bind
                            (format_errors (decoded read_suite_checkpoint body))
                            (λ head. replay_suite_checkpoint c keys head j)
                        else err journal_format)))
              ≡ ok t
            → IsReplayed t
        go true y z e = entry e
        go false true z e =
            let (head, e₁, e₂) = bind-eq-ok (format_errors (decoded read_checkpoint body)) _ e in
            replay_checkpoint-IsReplayed head j h e₂
        go false false true e =
            let (head, e₁, e₂) =
              bind-eq-ok (format_errors (decoded read_suite_checkpoint body)) _ e in
            replay_suite_checkpoint-IsReplayed head j h e₂
        go false false false e = cc

    stopped :
        (j : Journal) (complete : ℕ) (torn_tail : Bool)
        → IsReplayed j
        → (found : Replayed)
        → ok (record { journal = j; complete_length = complete; torn_tail = torn_tail }) ≡ ok found
        → IsReplayed found.journal
    stopped j k t h found e = let same : j ≡ found.journal = cc in rw (← same) h

    pub replay-IsReplayed :
        (fuel : ℕ) (raw : List ℕ) (complete : ℕ) (j : Journal) {found : Replayed}
        → IsBytes raw
        → IsReplayed j
        → replay c keys fuel raw complete j ≡ ok found
        → IsReplayed found.journal
    unfolding replay
    replay-IsReplayed zero raw k j {found} b h e = stopped j k false h found e
    replay-IsReplayed (suc fuel) raw k j {found} b h e =
        go (next_record raw) refl
          (λ rest k next found b h e. replay-IsReplayed fuel rest k next b h e)
      where
        go :
            (x : Framing)
            → next_record raw ≡ x
            → ((rest : List ℕ) (complete : ℕ) (next : Journal) (found : Replayed)
                → IsBytes rest
                → IsReplayed next
                → replay c keys fuel rest complete next ≡ ok found
                → IsReplayed found.journal)
            → IsReplayed found.journal
        go finished p ih = stopped j k false h found (rw (p, replay) at e)
        go torn p ih = stopped j k true h found (rw (p, replay) at e)
        go too_long p ih = let e₁ = rw (p, replay) at e in cc
        go (framed kind body rest) p ih =
            let e₁ = rw (p, replay) at e in
            let (next, e₂, e₃) = bind-eq-ok (replay_record c keys kind body j) _ e₁ in
            let (hb, hr) = next_record-IsBytes raw b p in
            ih rest _ next found hr (replay_record-IsReplayed kind body j hb h e₂) e₃
