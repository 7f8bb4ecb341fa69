-- ===== src/Journal/Appends.antt =====
-- What the three writing operations of a journal (src/journal.cpp) leave when they succeed.
use tradep2p.Base.{
  entry_at, ℕ, zero, suc, ◌≡◌, refl, List, [], ◌∷◌, ◌++◌, length, Option, none, some, ok, bind,
  bind-eq-ok,
}
use tradep2p.Crypto.{Primitives}
use tradep2p.Protocol.Wire.Writer.{Writer, written}
use tradep2p.Journal.Types.{
  JournalEntryFields, JournalEntry, journal_checkpoint_suite_ed25519_v1,
  journal_checkpoint_suite_ml_dsa65_v1,
}
use tradep2p.Journal.Format.{
  record_kind_entry, record_kind_checkpoint, record_kind_checkpoint_suite_v1, canonical_entry_bytes,
  checkpoint_signed_bytes, checkpoint_suite_signed_bytes, HeadPointer, append_checkpoint,
  append_suite_checkpoint, encode_head,
}
use tradep2p.Journal.Framing.{record_bytes, frame_lem}
use tradep2p.Journal.Store.{
  Journal, check_transition, back, push_entry, mark_checkpoint, new_entry, append_stamped,
  record_checkpoint, checkpoint, checkpoint_mldsa65,
}

-- The entries, read from either end.
module _ {ℓ} {A : Type ℓ} where
  pub back-push : (xs : List A) (x : A) → back (xs ++ x ∷ []) ≡ some x
  back-push [] x = refl
  back-push (y ∷ []) x = refl
  back-push (y ∷ z ∷ xs) x = back-push (z ∷ xs) x

  pub entry_at-push : (xs : List A) (x : A) → entry_at (length xs) (xs ++ x ∷ []) ≡ some x
  entry_at-push [] x = refl
  entry_at-push (y ∷ xs) x = entry_at-push xs x

  pub entry_at-append :
      (i : ℕ) (xs ys : List A) {x : A} → entry_at i xs ≡ some x → entry_at i (xs ++ ys) ≡ some x
  entry_at-append i [] ys h = cc
  entry_at-append zero (y ∷ xs) ys h = h
  entry_at-append (suc i) (y ∷ xs) ys h = entry_at-append i xs ys h

module _ (c : Primitives) where
  -- A journal behind an append of the entry with these bytes.
  abbrev pub appended : JournalEntryFields → Journal → List ℕ → Journal
  appended fields j content = record (push_entry (new_entry c j fields content) j) {
    log =
        j.log
        ++ record_bytes record_kind_entry
            (content ++ j.chain_head ++ c.sha256 (content ++ j.chain_head));
  }

  pub append_stamped-eq-ok :
      (fields : JournalEntryFields) (j : Journal) {t : Journal}
      → append_stamped c fields j ≡ ok t
      → (content : List ℕ) × (check_transition j fields ≡ ok tt)
        × (canonical_entry_bytes (length j.entries) fields ≡ ok content)
        × (t ≡ appended fields j content)
  unfolding append_stamped
  append_stamped-eq-ok fields j e =
      let (_, legal, e₁) = bind-eq-ok (check_transition j fields) _ e in
      let (content, written, e₂) =
        bind-eq-ok (canonical_entry_bytes (length j.entries) fields) _ e₁ in
      let e₃ =
        rw
          (frame_lem record_kind_entry
            (content ++ j.chain_head ++ c.sha256 (content ++ j.chain_head)))
          at e₂ in
      (content, legal, written, cc)

  -- What a successful checkpoint `head` with the body that `w` writes leaves.
  pub record Recorded (kind : ℕ) (w : HeadPointer → Writer) (head : HeadPointer) (j t : Journal)
      : Type 0 where
    pub body : List ℕ
    pub head_bytes : List ℕ
    pub body_written : written (w head) ≡ ok body
    pub head_written : encode_head head ≡ ok head_bytes
    pub result : t ≡ record (mark_checkpoint head.index j) {
      log = j.log ++ record_bytes kind body;
      head = some head_bytes;
    }

  abbrev pub ed25519_checkpoint : List ℕ → ℕ → ℕ → List ℕ → List ℕ → HeadPointer
  ed25519_checkpoint seed now index hash signed_bytes = record {
    suite_id = journal_checkpoint_suite_ed25519_v1;
    index = index;
    hash = hash;
    signed_at = now;
    signature = c.ed25519_sign seed signed_bytes;
  }

  abbrev pub mldsa65_checkpoint : List ℕ → ℕ → ℕ → List ℕ → List ℕ → HeadPointer
  mldsa65_checkpoint seed now index hash signed_bytes = record {
    suite_id = journal_checkpoint_suite_ml_dsa65_v1;
    index = index;
    hash = hash;
    signed_at = now;
    signature = c.mldsa65_sign seed signed_bytes;
  }

  record_checkpoint-eq-ok :
      (kind : ℕ) (w : HeadPointer → Writer) (head : HeadPointer) (j : Journal) {t : Journal}
      → bind (written (w head)) (λ body. record_checkpoint c kind body head j) ≡ ok t
      → Recorded kind w head j t
  unfolding record_checkpoint
  record_checkpoint-eq-ok kind w head j e =
      let (body, w₁, e₁) = bind-eq-ok (written (w head)) _ e in
      let e₂ = rw (frame_lem kind body) at e₁ in
      let (head_bytes, w₂, e₃) = bind-eq-ok (encode_head head) _ e₂ in
      record {
        body = body;
        head_bytes = head_bytes;
        body_written = w₁;
        head_written = w₂;
        result = cc;
      }

  pub checkpoint-eq-ok :
      (seed : List ℕ) (now : ℕ) (j : Journal) {t : Journal}
      → checkpoint c seed now j ≡ ok t
      → (last : JournalEntry) × (signed_bytes : List ℕ) × (back j.entries ≡ some last)
        × (checkpoint_signed_bytes last.index j.chain_head now ≡ ok signed_bytes)
        × Recorded record_kind_checkpoint append_checkpoint
            (ed25519_checkpoint seed now last.index j.chain_head signed_bytes)
            j
            t
  unfolding checkpoint
  checkpoint-eq-ok seed now j {t} e = go (back j.entries) refl e
    where
      go :
          (x : Option JournalEntry)
          → back j.entries ≡ x
          → checkpoint c seed now j ≡ ok t
          → (last : JournalEntry) × (signed_bytes : List ℕ) × (x ≡ some last)
            × (checkpoint_signed_bytes last.index j.chain_head now ≡ ok signed_bytes)
            × Recorded record_kind_checkpoint append_checkpoint
                (ed25519_checkpoint seed now last.index j.chain_head signed_bytes)
                j
                t
      go none p e = let e₁ = rw (p, checkpoint) at e in cc
      go (some last) p e =
          let (signed_bytes, s, e₁) =
            bind-eq-ok (checkpoint_signed_bytes last.index j.chain_head now) _
              (rw (p, checkpoint) at e) in
          (last, signed_bytes, refl, s, record_checkpoint-eq-ok _ _ _ j e₁)

  pub checkpoint_mldsa65-eq-ok :
      (seed : List ℕ) (now : ℕ) (j : Journal) {t : Journal}
      → checkpoint_mldsa65 c seed now j ≡ ok t
      → (last : JournalEntry) × (signed_bytes : List ℕ) × (back j.entries ≡ some last)
        × (checkpoint_suite_signed_bytes journal_checkpoint_suite_ml_dsa65_v1 last.index
              j.chain_head now
            ≡ ok signed_bytes)
        × Recorded record_kind_checkpoint_suite_v1 append_suite_checkpoint
            (mldsa65_checkpoint seed now last.index j.chain_head signed_bytes)
            j
            t
  unfolding checkpoint_mldsa65
  checkpoint_mldsa65-eq-ok seed now j {t} e = go (back j.entries) refl e
    where
      go :
          (x : Option JournalEntry)
          → back j.entries ≡ x
          → checkpoint_mldsa65 c seed now j ≡ ok t
          → (last : JournalEntry) × (signed_bytes : List ℕ) × (x ≡ some last)
            × (checkpoint_suite_signed_bytes journal_checkpoint_suite_ml_dsa65_v1 last.index
                  j.chain_head now
                ≡ ok signed_bytes)
            × Recorded record_kind_checkpoint_suite_v1 append_suite_checkpoint
                (mldsa65_checkpoint seed now last.index j.chain_head signed_bytes)
                j
                t
      go none p e = let e₁ = rw (p, checkpoint_mldsa65) at e in cc
      go (some last) p e =
          let (signed_bytes, s, e₁) =
            bind-eq-ok
              (checkpoint_suite_signed_bytes journal_checkpoint_suite_ml_dsa65_v1 last.index
                j.chain_head now)
              _ (rw (p, checkpoint_mldsa65) at e) in
          (last, signed_bytes, refl, s, record_checkpoint-eq-ok _ _ _ j e₁)
