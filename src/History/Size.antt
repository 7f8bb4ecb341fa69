-- ===== src/History/Size.antt =====
-- The bytes that an entry of src/history.cpp takes in the payload, and how a call makes them grow.
use tradep2p.Base.{
  ℕ, zero, suc, ◌+◌, ◌≤◌, ◌≡◌, inl, inr, List, [], ◌∷◌, ◌++◌, Bool, Bool-cases, arith, length, ltb,
  leb, ◌==◌, Result, ok, bind-eq-ok, throw_if, invalid_argument,
}
use tradep2p.History.Types.{
  LocalOutcome, HistoryNote, CounterpartyHistoryEntry, history_max_entries,
  history_max_mediator_id_length, history_max_note_length,
}
use tradep2p.History.Store.{
  index_of, new_history_entry, get_or_create, modify, encountered, noted, evidenced, blocked,
  with_outcome, recompute_confidence,
}
use tradep2p.History.Update.{ok_field}

abbrev pub total : {A : Type 0} → (A → ℕ) → List A → ℕ
total f [] = 0
total f (x ∷ xs) = f x + total f xs

total-append :
    {A : Type 0} (f : A → ℕ) (xs ys : List A) → total f (xs ++ ys) ≡ total f xs + total f ys
total-append f [] ys = omega arith
total-append f (x ∷ xs) ys = omega (arith, total-append f xs ys)

abbrev pub note_size : HistoryNote → ℕ
note_size note = 8 + (2 + length note.text)

abbrev pub entry_size : CounterpartyHistoryEntry → ℕ
entry_size e =
    length e.fingerprint
    + length e.mediator_id
    + total (λ _. 1) e.outcome_labels
    + total note_size e.notes
    + total length e.evidence_hashes
    + 35

pub encountered-size :
    (outcome : LocalOutcome) (now : ℕ) (e t : CounterpartyHistoryEntry)
    → encountered outcome now e ≡ ok t
    → entry_size t ≤ entry_size e + 4106
unfolding encountered recompute_confidence with_outcome
encountered-size outcome now e t h =
    let longer = total-append (λ _. 1) e.outcome_labels (outcome ∷ []) in
    rw (ok_field (λ b. b) h) (ground arith)

pub blocked-size :
    (flag : Bool) (e t : CounterpartyHistoryEntry)
    → blocked flag e ≡ ok t
    → entry_size t ≤ entry_size e + 4106
blocked-size flag e t h = rw (ok_field (λ b. b) h) (omega arith)

pub noted-size :
    (text : List ℕ) (now : ℕ) (e t : CounterpartyHistoryEntry)
    → length text ≤ history_max_note_length
    → noted text now e ≡ ok t
    → entry_size t ≤ entry_size e + 4106
unfolding noted
noted-size text now e t l h =
    let (v, e₁, e₂) = bind-eq-ok (throw_if (leb 256 (length e.notes)) invalid_argument) _ h in
    let longer = total-append note_size e.notes (record { recorded_at = now; text = text } ∷ []) in
    rw (ok_field (λ b. b) e₂) (omega arith)

pub evidenced-size :
    (hash : List ℕ) (e t : CounterpartyHistoryEntry)
    → length hash ≡ 32
    → evidenced hash e ≡ ok t
    → entry_size t ≤ entry_size e + 4106
unfolding evidenced recompute_confidence
evidenced-size hash e t l h =
    let (v, e₁, e₂) =
      bind-eq-ok (throw_if (leb 256 (length e.evidence_hashes)) invalid_argument) _ h in
    let longer = total-append length e.evidence_hashes (hash ∷ []) in
    rw (ok_field (λ b. b) e₂) (omega arith)

pub modify-size :
    (i : ℕ) (f : CounterpartyHistoryEntry → Result CounterpartyHistoryEntry)
    (es : List CounterpartyHistoryEntry) {ts : List CounterpartyHistoryEntry}
    → ((e t : CounterpartyHistoryEntry) → f e ≡ ok t → entry_size t ≤ entry_size e + 4106)
    → modify i f es ≡ ok ts
    → total entry_size ts ≤ total entry_size es + 4106
modify-size i f [] grows h = rw (ok_field (λ b. b) h) (omega arith)
modify-size zero f (e ∷ es) grows h =
    let (t, e₁, e₂) = bind-eq-ok (f e) (λ changed. ok (changed ∷ es)) h in
    let g = grows e t e₁ in rw (ok_field (λ b. b) e₂) (omega arith)
modify-size (suc i) f (e ∷ es) grows h =
    let (us, e₁, e₂) = bind-eq-ok (modify i f es) (λ changed. ok (e ∷ changed)) h in
    let g = modify-size i f es grows e₁ in rw (ok_field (λ b. b) e₂) (omega arith)

pub get_or_create-size :
    (fingerprint mediator_id : List ℕ) (now : ℕ) (es us : List CounterpartyHistoryEntry) (i : ℕ)
    → length fingerprint ≡ 32
    → get_or_create fingerprint mediator_id now es ≡ ok (us, i)
    → total entry_size us ≤ total entry_size es + 323
unfolding get_or_create
get_or_create-size fingerprint mediator_id now es us i f h =
    let new = new_history_entry fingerprint mediator_id now in
    let (v, h₁, h₂) =
      bind-eq-ok
        (throw_if (ltb history_max_mediator_id_length (length mediator_id)) invalid_argument) _ h in
    let short : length mediator_id ≤ history_max_mediator_id_length = ground arith in
    let longer = total-append entry_size es (new ∷ []) in
    elim (Bool-cases (index_of fingerprint mediator_id es == length es)) [
      | inl p ↦
          let h₃ = rw p at h₂ in
          let (w, h₄, h₅) =
            bind-eq-ok (throw_if (leb history_max_entries (length es)) invalid_argument) _ h₃ in
          let same : es ++ new ∷ [] ≡ us = cc in rw (← same) (omega arith)
      | inr p ↦ let h₃ = rw p at h₂ in let same : es ≡ us = cc in rw (← same) (omega arith)
    ]
