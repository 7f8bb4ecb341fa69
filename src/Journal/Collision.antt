-- ===== src/Journal/Collision.antt =====
-- Two logs that Journal::open() of src/journal.cpp accepts with the same last hash.
use tradep2p.Base.{
  ℕ, ◌≡◌, ◌≢◌, ◌⊎◌, inl, inr, refl, sym, ap, ◌∙◌, List, [], ◌∷◌, ◌++◌, arith, length, length-append,
  Option, some, ok, entry_at, false, bytes_eq, bytes_eq→eq, bytes_eq_refl, Bool-cases,
}
use tradep2p.Crypto.{Primitives}
use tradep2p.Protocol.Wire.Bytes.{IsBytes, IsArray, IsU64}
use tradep2p.Mediator.Session.{SessionState}
use tradep2p.Journal.Types.{JournalEntryFields, JournalEntry}
use tradep2p.Journal.Format.{canonical_entry_bytes}
use tradep2p.Journal.RoundTrip.{FieldsInRange, read_entry_body-canonical_entry_bytes}
use tradep2p.Journal.Store.{Journal}
use tradep2p.Journal.Replay.{Keys, open_journal}
use tradep2p.Journal.Linked.{IsNext, Linked, genesis, link}
use tradep2p.Journal.Appends.{entry_at-push, entry_at-append}
use tradep2p.Journal.Tamper.{open_journal-Linked}

same_end :
    (xs xs' ys ys' : List ℕ)
    → length ys ≡ length ys'
    → xs ++ ys ≡ xs' ++ ys'
    → (xs ≡ xs') × (ys ≡ ys')
same_end [] [] ys ys' l e = (refl, e)
same_end (x ∷ xs) [] ys ys' l e = absurd (ground (arith, length-append xs ys, ap length e))
same_end [] (x' ∷ xs') ys ys' l e = absurd (ground (arith, length-append xs' ys', ap length e))
same_end (x ∷ xs) (x' ∷ xs') ys ys' l e =
    let (p, q) = same_end xs xs' ys ys' l (ground (arith, e)) in (ground (arith, e), q)

same_entry :
    (e e' : JournalEntry)
    → e.index ≡ e'.index
    → e.fields ≡ e'.fields
    → e.previous_hash ≡ e'.previous_hash
    → e.entry_hash ≡ e'.entry_hash
    → e ≡ e'
same_entry e e' p q r s = ground arith

bytes_eq-differ : (xs ys : List ℕ) → bytes_eq xs ys ≡ false → xs ≢ ys
bytes_eq-differ xs ys h p = let r = bytes_eq_refl ys in let h₁ = rw p at h in cc

module _ (c : Primitives) where
  -- Two entries at one position of two logs, whose messages, the canonical bytes and the hash before
  -- them, differ and have one digest.
  pub record Clash (entries entries' : List JournalEntry) : Type 0 where
    pub position : ℕ
    pub left : JournalEntry
    pub right : JournalEntry
    pub at_left : entry_at position entries ≡ some left
    pub at_right : entry_at position entries' ≡ some right
    pub left_bytes : List ℕ
    pub right_bytes : List ℕ
    pub left_encoded : canonical_entry_bytes left.index left.fields ≡ ok left_bytes
    pub right_encoded : canonical_entry_bytes right.index right.fields ≡ ok right_bytes
    pub differ : left_bytes ++ left.previous_hash ≢ right_bytes ++ right.previous_hash
    pub same_digest :
        c.sha256 (left_bytes ++ left.previous_hash) ≡ c.sha256 (right_bytes ++ right.previous_hash)

  Clash-append :
      (es es' : List JournalEntry) (e e' : JournalEntry)
      → Clash es es'
      → Clash (es ++ e ∷ []) (es' ++ e' ∷ [])
  Clash-append es es' e e' k = record {
    position = k.position;
    left = k.left;
    right = k.right;
    at_left = entry_at-append k.position es (e ∷ []) k.at_left;
    at_right = entry_at-append k.position es' (e' ∷ []) k.at_right;
    left_bytes = k.left_bytes;
    right_bytes = k.right_bytes;
    left_encoded = k.left_encoded;
    right_encoded = k.right_encoded;
    differ = k.differ;
    same_digest = k.same_digest;
  }

  fields_of_content :
      (index : ℕ) (f g : JournalEntryFields) {content chain_head : List ℕ}
      → IsU64 index
      → FieldsInRange f
      → FieldsInRange g
      → IsArray 32 chain_head
      → canonical_entry_bytes index f ≡ ok content
      → canonical_entry_bytes index g ≡ ok content
      → f ≡ g
  fields_of_content index f g i r s a p q =
      let (e, _) = read_entry_body-canonical_entry_bytes index f i r p a a in
      let (e', _) = read_entry_body-canonical_entry_bytes index g i s q a a in
      let same = sym e ∙ e' in ground arith

  -- Entries with one hash behind equally long chains.
  IsNext-same :
      (es es' : List JournalEntry) (h h' : List ℕ) (s s' : List (List ℕ × SessionState))
      (e e' : JournalEntry)
      → length es ≡ length es'
      → IsNext c (length es) h s e
      → IsNext c (length es') h' s' e'
      → e.entry_hash ≡ e'.entry_hash
      → ((e ≡ e') × (h ≡ h')) ⊎ Clash (es ++ e ∷ []) (es' ++ e' ∷ [])
  IsNext-same es es' h h' s s' e e' n l r p =
      let same_digest : c.sha256 (l.content ++ h) ≡ c.sha256 (r.content ++ h') =
        sym l.entry_hash ∙ p ∙ r.entry_hash in
      elim (Bool-cases (bytes_eq (l.content ++ h) (r.content ++ h'))) [
        | inl q ↦
            let (content, chain) =
              same_end l.content r.content h h' (l.size.size ∙ sym r.size.size)
                (bytes_eq→eq (l.content ++ h) (r.content ++ h') q) in
            let index : e.index ≡ e'.index = l.index ∙ n ∙ sym r.index in
            let previous : e.previous_hash ≡ e'.previous_hash =
              l.previous_hash ∙ chain ∙ sym r.previous_hash in
            let encoded : canonical_entry_bytes e.index e'.fields ≡ ok l.content =
              rw (index, content) r.encoded in
            let fields =
              fields_of_content e.index e.fields e'.fields l.small l.fields r.fields l.size
                l.encoded encoded in
            inl (same_entry e e' index fields previous p, chain)
        | inr q ↦ inr (record {
          position = length es;
          left = e;
          right = e';
          at_left = entry_at-push es e;
          at_right = rw n (entry_at-push es' e');
          left_bytes = l.content;
          right_bytes = r.content;
          left_encoded = l.encoded;
          right_encoded = r.encoded;
          differ =
              rw (l.previous_hash, r.previous_hash)
                (bytes_eq-differ (l.content ++ h) (r.content ++ h') q);
          same_digest = rw (l.previous_hash, r.previous_hash) same_digest;
        })
      ]

  Linked-same :
      {es es' : List JournalEntry} {h h' : List ℕ} {s s' : List (List ℕ × SessionState)}
      → Linked c es h s
      → Linked c es' h' s'
      → length es ≡ length es'
      → h ≡ h'
      → (es ≡ es') ⊎ Clash es es'
  Linked-same genesis genesis n p = inl refl
  Linked-same genesis (link es h s e l next) n p = absurd (omega (arith, length-append es (e ∷ [])))
  Linked-same (link es h s e l next) genesis n p = absurd (omega (arith, length-append es (e ∷ [])))
  Linked-same (link es h s e l next) (link es' h' s' e' l' next') n p =
      let size : length es ≡ length es' =
        omega (arith, length-append es (e ∷ []), length-append es' (e' ∷ [])) in
      joined (Linked-same l l' size) (IsNext-same es es' h h' s s' e e' size next next' p)
    where
      joined :
          (h ≡ h' → (es ≡ es') ⊎ Clash es es')
          → ((e ≡ e') × (h ≡ h')) ⊎ Clash (es ++ e ∷ []) (es' ++ e' ∷ [])
          → (es ++ e ∷ [] ≡ es' ++ e' ∷ []) ⊎ Clash (es ++ e ∷ []) (es' ++ e' ∷ [])
      joined ih (inr found) = inr found
      joined ih (inl (p, q)) = elim (ih q) [
        | inr found ↦ inr (Clash-append es es' e e' found)
        | inl r ↦ inl (rw (p, r) refl)
      ]

  -- If two logs of bytes open, to the same number of entries and with the same last hash, then
  -- they have the same entries, or at some position the two logs have entries whose messages,
  -- the canonical bytes and the hash before them, are different and have one digest.
  pub open_journal-same_chain_head :
      (keys keys' : Keys) (raw raw' : List ℕ) (head head' : Option (List ℕ)) {j j' : Journal}
      → IsBytes raw
      → IsBytes raw'
      → open_journal c keys raw head ≡ ok j
      → open_journal c keys' raw' head' ≡ ok j'
      → length j.entries ≡ length j'.entries
      → j.chain_head ≡ j'.chain_head
      → (j.entries ≡ j'.entries) ⊎ Clash j.entries j'.entries
  open_journal-same_chain_head keys keys' raw raw' head head' b b' e e' n p =
      Linked-same (open_journal-Linked c keys raw head b e)
        (open_journal-Linked c keys' raw' head' b' e') n p
