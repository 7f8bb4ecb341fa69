-- ===== src/History/Reopen.antt =====
-- The limits of include/tradep2p/history.hpp that the calls keep, and the file that they leave behind.
use tradep2p.Base.{
  ℕ, zero, suc, ◌<◌, ◌≤◌, ◌≡◌, ◌⊎◌, inl, inr, refl, ap, ◌∙◌, List, [], ◌∷◌, ◌++◌, Bool, arith,
  length, length-append, All, All-append, ltb, leb, ◌==◌, Bool-cases, some, Result, ok, bind-eq-ok,
  throw_if, invalid_argument,
}
use tradep2p.Crypto.{Aead, IsAead}
use tradep2p.Protocol.Wire.Bytes.{IsArray, IsU64}
use tradep2p.History.Types.{
  LocalOutcome, HistoryNote, CounterpartyHistoryEntry, history_max_entries,
  history_max_mediator_id_length, history_max_note_length, history_max_notes_per_entry,
  history_max_outcomes_per_entry, history_max_evidence_hashes_per_entry,
}
use tradep2p.History.Format.{persist, encode_payload, open_history, max_ciphertext_length}
use tradep2p.History.RoundTrip.{IsNamed, EntryInRange, open_history-persist}
use tradep2p.History.Store.{
  index_of, new_history_entry, get_or_create, modify, History, change, encountered, noted,
  evidenced, blocked, or_clock, with_outcome, record_encounter, set_blocked, add_note,
  add_evidence_hash, Call, perform, recompute_confidence,
}
use tradep2p.History.Update.{ok_field}

-- An entry within the limits.
pub record IsKept (entry : CounterpartyHistoryEntry) : Type 0 where
  pub in_range : EntryInRange entry
  pub mediator_id : length entry.mediator_id ≤ history_max_mediator_id_length
  pub outcome_labels : length entry.outcome_labels ≤ history_max_outcomes_per_entry
  pub notes : length entry.notes ≤ history_max_notes_per_entry
  pub texts : All (λ note. length (HistoryNote.text note) ≤ history_max_note_length) entry.notes
  pub evidence_hashes : length entry.evidence_hashes ≤ history_max_evidence_hashes_per_entry

pub record IsStored (entries : List CounterpartyHistoryEntry) : Type 0 where
  pub each : All IsKept entries
  pub count : length entries ≤ history_max_entries

-- The outcome of an encounter is named, and the other arguments of a call are values of their types.
unfoldable pub CallInRange : Call → Type 0
CallInRange (Call.encounter outcome now) = IsNamed outcome × IsU64 now
CallInRange (Call.block flag) = Unit
CallInRange (Call.note text now) = IsU64 now
CallInRange (Call.evidence hash) = IsArray 32 hash

pub or_clock-IsU64 : (clock now : ℕ) → IsU64 clock → IsU64 now → IsU64 (or_clock clock now)
or_clock-IsU64 clock now c n = ground arith

with_outcome-IsNamed :
    (outcome : LocalOutcome) (labels : List LocalOutcome)
    → IsNamed outcome
    → All IsNamed labels
    → length labels ≤ history_max_outcomes_per_entry
    → All IsNamed (with_outcome outcome labels)
      × (length (with_outcome outcome labels) ≤ history_max_outcomes_per_entry)
unfolding with_outcome
with_outcome-IsNamed outcome labels n h l =
    let grown = length-append labels (outcome ∷ []) in
    let all = All-append IsNamed labels (outcome ∷ []) h (n, tt) in ground arith

pub encountered-IsKept :
    (outcome : LocalOutcome) (now : ℕ) (e t : CounterpartyHistoryEntry)
    → IsNamed outcome
    → IsU64 now
    → encountered outcome now e ≡ ok t
    → IsKept e
    → IsKept t
unfolding encountered recompute_confidence
encountered-IsKept outcome now e t n u h k =
    let (named, few) =
      with_outcome-IsNamed outcome e.outcome_labels n k.in_range.outcome_labels k.outcome_labels in
    rw (ok_field (λ b. b) h) record {
      in_range = record {
        fingerprint = k.in_range.fingerprint;
        first_seen = k.in_range.first_seen;
        last_seen = u;
        encounter_count = omega arith;
        outcome_labels = named;
        notes = k.in_range.notes;
        evidence_hashes = k.in_range.evidence_hashes;
      };
      mediator_id = k.mediator_id;
      outcome_labels = few;
      notes = k.notes;
      texts = k.texts;
      evidence_hashes = k.evidence_hashes;
    }

pub blocked-IsKept :
    (flag : Bool) (e t : CounterpartyHistoryEntry) → blocked flag e ≡ ok t → IsKept e → IsKept t
blocked-IsKept flag e t h k = rw (ok_field (λ b. b) h) record {
  in_range = record {
    fingerprint = k.in_range.fingerprint;
    first_seen = k.in_range.first_seen;
    last_seen = k.in_range.last_seen;
    encounter_count = k.in_range.encounter_count;
    outcome_labels = k.in_range.outcome_labels;
    notes = k.in_range.notes;
    evidence_hashes = k.in_range.evidence_hashes;
  };
  mediator_id = k.mediator_id;
  outcome_labels = k.outcome_labels;
  notes = k.notes;
  texts = k.texts;
  evidence_hashes = k.evidence_hashes;
}

-- A list below its limit takes one more.
room :
    {A : Type 0} (P : A → Type 0) (limit : ℕ) (xs : List A) (x : A)
    → throw_if (leb limit (length xs)) invalid_argument ≡ ok tt
    → All P xs
    → P x
    → All P (xs ++ x ∷ []) × (length (xs ++ x ∷ []) ≤ limit)
room P limit xs x e h p =
    let grown = length-append xs (x ∷ []) in (All-append P xs (x ∷ []) h (p, tt), ground arith)

pub noted-IsKept :
    (text : List ℕ) (now : ℕ) (e t : CounterpartyHistoryEntry)
    → length text ≤ history_max_note_length
    → IsU64 now
    → noted text now e ≡ ok t
    → IsKept e
    → IsKept t
unfolding noted
noted-IsKept text now e t l u h k =
    let note : HistoryNote = record { recorded_at = now; text = text } in
    let (v, e₁, e₂) = bind-eq-ok (throw_if (leb 256 (length e.notes)) invalid_argument) _ h in
    let (dated, few) =
      room (λ n. IsU64 (HistoryNote.recorded_at n)) 256 e.notes note e₁ k.in_range.notes u in
    let (short, more) =
      room (λ n. length (HistoryNote.text n) ≤ history_max_note_length) 256 e.notes note e₁ k.texts
        l in
    rw (ok_field (λ b. b) e₂) record {
      in_range = record {
        fingerprint = k.in_range.fingerprint;
        first_seen = k.in_range.first_seen;
        last_seen = k.in_range.last_seen;
        encounter_count = k.in_range.encounter_count;
        outcome_labels = k.in_range.outcome_labels;
        notes = dated;
        evidence_hashes = k.in_range.evidence_hashes;
      };
      mediator_id = k.mediator_id;
      outcome_labels = k.outcome_labels;
      notes = few;
      texts = short;
      evidence_hashes = k.evidence_hashes;
    }

pub evidenced-IsKept :
    (hash : List ℕ) (e t : CounterpartyHistoryEntry)
    → IsArray 32 hash
    → evidenced hash e ≡ ok t
    → IsKept e
    → IsKept t
unfolding evidenced recompute_confidence
evidenced-IsKept hash e t a h k =
    let (v, e₁, e₂) =
      bind-eq-ok (throw_if (leb 256 (length e.evidence_hashes)) invalid_argument) _ h in
    let (sized, few) =
      room (IsArray 32) 256 e.evidence_hashes hash e₁ k.in_range.evidence_hashes a in
    rw (ok_field (λ b. b) e₂) record {
      in_range = record {
        fingerprint = k.in_range.fingerprint;
        first_seen = k.in_range.first_seen;
        last_seen = k.in_range.last_seen;
        encounter_count = k.in_range.encounter_count;
        outcome_labels = k.in_range.outcome_labels;
        notes = k.in_range.notes;
        evidence_hashes = sized;
      };
      mediator_id = k.mediator_id;
      outcome_labels = k.outcome_labels;
      notes = k.notes;
      texts = k.texts;
      evidence_hashes = few;
    }

new-IsKept :
    (fingerprint mediator_id : List ℕ) (now : ℕ)
    → IsArray 32 fingerprint
    → length mediator_id ≤ history_max_mediator_id_length
    → IsU64 now
    → IsKept (new_history_entry fingerprint mediator_id now)
new-IsKept fingerprint mediator_id now f m u = record {
  in_range = record {
    fingerprint = f;
    first_seen = u;
    last_seen = u;
    encounter_count = omega arith;
    outcome_labels = tt;
    notes = tt;
    evidence_hashes = tt;
  };
  mediator_id = m;
  outcome_labels = omega arith;
  notes = omega arith;
  texts = tt;
  evidence_hashes = omega arith;
}

pub modify-IsKept :
    (i : ℕ) (f : CounterpartyHistoryEntry → Result CounterpartyHistoryEntry)
    (es : List CounterpartyHistoryEntry) {ts : List CounterpartyHistoryEntry}
    → ((e t : CounterpartyHistoryEntry) → f e ≡ ok t → IsKept e → IsKept t)
    → modify i f es ≡ ok ts
    → All IsKept es
    → All IsKept ts × (length ts ≡ length es)
modify-IsKept i f [] keeps h k = rw (ok_field (λ b. b) h) (tt, refl)
modify-IsKept zero f (e ∷ es) keeps h k =
    let (t, e₁, e₂) = bind-eq-ok (f e) (λ changed. ok (changed ∷ es)) h in
    rw (ok_field (λ b. b) e₂) ((keeps e t e₁ k.0, k.1), refl)
modify-IsKept (suc i) f (e ∷ es) keeps h k =
    let (us, e₁, e₂) = bind-eq-ok (modify i f es) (λ changed. ok (e ∷ changed)) h in
    let (kept, same) = modify-IsKept i f es keeps e₁ k.1 in
    rw (ok_field (λ b. b) e₂) ((k.0, kept), ap (λ n. suc n) same)

pub get_or_create-IsStored :
    (fingerprint mediator_id : List ℕ) (now : ℕ) (es us : List CounterpartyHistoryEntry) (i : ℕ)
    → IsArray 32 fingerprint
    → IsU64 now
    → get_or_create fingerprint mediator_id now es ≡ ok (us, i)
    → IsStored es
    → IsStored us
unfolding get_or_create
get_or_create-IsStored fingerprint mediator_id now es us i f u h s =
    let new = new_history_entry fingerprint mediator_id now in
    let (v, h₁, h₂) =
      bind-eq-ok
        (throw_if (ltb history_max_mediator_id_length (length mediator_id)) invalid_argument) _ h in
    let short : length mediator_id ≤ history_max_mediator_id_length = ground arith in
    elim (Bool-cases (index_of fingerprint mediator_id es == length es)) [
      | inl p ↦
          let h₃ = rw p at h₂ in
          let (w, h₄, h₅) =
            bind-eq-ok (throw_if (leb history_max_entries (length es)) invalid_argument) _ h₃ in
          let same : es ++ new ∷ [] ≡ us = cc in
          let (each, count) =
            room IsKept history_max_entries es new h₄ s.each
              (new-IsKept fingerprint mediator_id now f short u) in
          rw (← same) record { each = each; count = count }
      | inr p ↦ let h₃ = rw p at h₂ in let same : es ≡ us = cc in rw (← same) s
    ]

All-IsKept-in_range : (es : List CounterpartyHistoryEntry) → All IsKept es → All EntryInRange es
All-IsKept-in_range [] h = tt
All-IsKept-in_range (e ∷ es) h = (h.0.in_range, All-IsKept-in_range es h.1)

-- The file opens to the entries, unless they are more than a file may hold.
pub record IsSaved (c : Aead) (key : List ℕ) (h : History) : Type 0 where
  pub raw : List ℕ
  pub plaintext : List ℕ
  pub file : h.file ≡ some raw
  pub encoded : encode_payload h.entries ≡ ok plaintext
  pub opens : (max_ciphertext_length < length plaintext) ⊎ (open_history c key raw ≡ ok h.entries)

module _ (c : Aead) (key : List ℕ) (clock : ℕ) (nonce fingerprint mediator_id : List ℕ)
    (sound : IsAead c) (n : IsArray 12 nonce) (a : IsArray 32 fingerprint) where
  persist-IsSaved :
      (entries raw : List _)
      → IsStored entries
      → persist c key nonce entries ≡ ok raw
      → IsSaved c key (record { entries = entries; file = some raw })
  unfolding persist
  persist-IsSaved entries raw s w =
      let (plaintext, e₁, e₂) = bind-eq-ok (encode_payload entries) _ w in
      record {
        raw = raw;
        plaintext = plaintext;
        file = refl;
        encoded = e₁;
        opens = elim (Bool-cases (ltb max_ciphertext_length (length plaintext))) [
          | inl p ↦ inl (ground arith)
          | inr p ↦ inr (
              let back =
                open_history-persist c key nonce entries sound n
                  (All-IsKept-in_range entries s.each) s.count e₁ (ground arith) w in
              back ∙ rw p refl)
        ];
      }

  change-IsSaved :
      (now : ℕ) (f : CounterpartyHistoryEntry → Result CounterpartyHistoryEntry) (h : History)
      {t : History}
      → IsU64 now
      → ((e t : CounterpartyHistoryEntry) → f e ≡ ok t → IsKept e → IsKept t)
      → IsStored h.entries
      → change c key clock nonce fingerprint mediator_id now f h ≡ ok t
      → IsStored t.entries × IsSaved c key t
  unfolding change
  change-IsSaved now f h {t} u keeps s e =
      let ((us, i), e₁, e₂) =
        bind-eq-ok (get_or_create fingerprint mediator_id now h.entries) _ e in
      let (ts, e₃, e₄) = bind-eq-ok (modify i f us) _ e₂ in
      let (raw, e₅, e₆) = bind-eq-ok (persist c key nonce ts) _ e₄ in
      let s₁ = get_or_create-IsStored fingerprint mediator_id now h.entries us i a u e₁ s in
      let (each, same) = modify-IsKept i f us keeps e₃ s₁.each in
      let s₂ : IsStored ts = record { each = each; count = (let k = s₁.count in omega arith) } in
      rw (ok_field (λ b. b) e₆) (s₂, persist-IsSaved ts raw s₂ e₅)

  -- If the cipher calls are as documented, the outcome of an encounter is one of the three that
  -- have a name, and the other arguments are values of their types, then on a history within
  -- the limits of the header a call that does not throw keeps the entries within the limits of
  -- the header, and leaves a file whose payload is the encoding of the entries and which opens
  -- to them, unless that payload is longer than a file may hold.
  pub perform-IsSaved :
      (call : Call) (h : History) {t : History}
      → IsU64 clock
      → CallInRange call
      → IsStored h.entries
      → perform c key clock nonce fingerprint mediator_id call h ≡ ok t
      → IsStored t.entries × IsSaved c key t
  unfolding CallInRange perform record_encounter set_blocked add_note add_evidence_hash
  perform-IsSaved (Call.encounter outcome now) h u r s e =
      let time = or_clock clock now in
      let k = or_clock-IsU64 clock now u r.1 in
      change-IsSaved time (encountered outcome time) h k
        (λ b d q. encountered-IsKept outcome time b d r.0 k q) s e
  perform-IsSaved (Call.block flag) h u r s e =
      change-IsSaved clock (blocked flag) h u (blocked-IsKept flag) s e
  perform-IsSaved (Call.note text now) h u r s e =
      let time = or_clock clock now in
      let k = or_clock-IsU64 clock now u r in
      let (v, e₁, e₂) =
        bind-eq-ok (throw_if (ltb history_max_note_length (length text)) invalid_argument) _ e in
      change-IsSaved time (noted text time) h k
        (λ b d q. noted-IsKept text time b d (ground arith) k q) s e₂
  perform-IsSaved (Call.evidence hash) h u r s e =
      change-IsSaved clock (evidenced hash) h u (λ b d q. evidenced-IsKept hash b d r q) s e
