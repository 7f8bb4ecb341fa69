-- ===== src/History/Update.antt =====
-- The calls of LocalCounterpartyHistory (src/history.cpp) as an update of a map.
use tradep2p.Base.{
  ℕ, ◌+◌, ◌<◌, ◌≡◌, inl, inr, refl, sym, ap, ◌∙◌, List, [], ◌∷◌, ◌++◌, Bool, true, false, ◌&&◌,
  arith, length, length-append, ltb, leb, ◌==◌, bytes_eq, bytes_eq_refl, bytes_eq→eq, if◌then◌else◌,
  Bool-cases, Option, none, some, Result, ok, bind-eq-ok, throw_if, invalid_argument,
}
use tradep2p.Crypto.{Aead}
use tradep2p.History.Types.{
  LocalOutcome, CounterpartyHistoryEntry, history_max_entries, history_max_mediator_id_length,
  history_max_note_length,
}
use tradep2p.History.Format.{persist}
use tradep2p.History.Store.{
  is_of, index_of, find, new_history_entry, get_or_create, modify, History, change, encountered,
  noted, evidenced, blocked, or_clock, record_encounter, set_blocked, add_note, add_evidence_hash,
  Call, effect, time_of, perform, recompute_confidence,
}
use tradep2p.History.Lookup.{
  KeepsKey, both-true, find-append, find-append_here, find-present, is_of-other, find-append_other,
  find-absent, index_of-bound, find-modify, find-modify_other,
}

-- The entry that a call starts from.
abbrev pub or_new :
    CounterpartyHistoryEntry → Option CounterpartyHistoryEntry → CounterpartyHistoryEntry
or_new fresh none = fresh
or_new fresh (some e) = e

-- The key looks up the entry that `f` makes of the one before, and every other key what it did.
pub record IsUpdated (fingerprint mediator_id : List ℕ) (fresh : CounterpartyHistoryEntry)
    (f : CounterpartyHistoryEntry → Result CounterpartyHistoryEntry)
    (before after : List CounterpartyHistoryEntry) : Type 0 where
  pub entry : CounterpartyHistoryEntry
  pub changed : f (or_new fresh (find fingerprint mediator_id before)) ≡ ok entry
  pub looked_up :
      (fp mid : List ℕ)
      → find fp mid after ≡ (
          if bytes_eq fingerprint fp && bytes_eq mediator_id mid
          then some entry
          else find fp mid before)

-- Same field of the results of a call.
pub ok_field : {A B : Type 0} (get : A → B) {a b : A} → ok a ≡ ok b → get b ≡ get a
ok_field {A} {B} get {a} {b} e = let same : a ≡ b = cc in sym (ap get same)

encountered-KeepsKey : (outcome : LocalOutcome) (now : ℕ) → KeepsKey (encountered outcome now)
unfolding encountered recompute_confidence
encountered-KeepsKey outcome now = record {
  fingerprint = λ e t h. ok_field (λ b. b.fingerprint) h;
  mediator_id = λ e t h. ok_field (λ b. b.mediator_id) h;
}

blocked-KeepsKey : (flag : Bool) → KeepsKey (blocked flag)
blocked-KeepsKey flag = record {
  fingerprint = λ e t h. ok_field (λ b. b.fingerprint) h;
  mediator_id = λ e t h. ok_field (λ b. b.mediator_id) h;
}

noted-KeepsKey : (text : List ℕ) (now : ℕ) → KeepsKey (noted text now)
unfolding noted
noted-KeepsKey text now = record {
  fingerprint = λ e t h.
      let (u, e₁, e₂) = bind-eq-ok (throw_if (leb 256 (length e.notes)) invalid_argument) _ h in
      ok_field (λ b. b.fingerprint) e₂;
  mediator_id = λ e t h.
      let (u, e₁, e₂) = bind-eq-ok (throw_if (leb 256 (length e.notes)) invalid_argument) _ h in
      ok_field (λ b. b.mediator_id) e₂;
}

evidenced-KeepsKey : (hash : List ℕ) → KeepsKey (evidenced hash)
unfolding evidenced recompute_confidence
evidenced-KeepsKey hash = record {
  fingerprint = λ e t h.
      let (u, e₁, e₂) =
        bind-eq-ok (throw_if (leb 256 (length e.evidence_hashes)) invalid_argument) _ h in
      ok_field (λ b. b.fingerprint) e₂;
  mediator_id = λ e t h.
      let (u, e₁, e₂) =
        bind-eq-ok (throw_if (leb 256 (length e.evidence_hashes)) invalid_argument) _ h in
      ok_field (λ b. b.mediator_id) e₂;
}

module _ (fingerprint mediator_id : List ℕ) (now : ℕ) where
  new_is_of : is_of fingerprint mediator_id (new_history_entry fingerprint mediator_id now) ≡ true
  new_is_of = rw (bytes_eq_refl fingerprint, bytes_eq_refl mediator_id) refl

  -- What get_or_create returns: the key is there, with its old entry or a new one.
  pub get_or_create-ok :
      (es us : List CounterpartyHistoryEntry) (i : ℕ)
      → get_or_create fingerprint mediator_id now es ≡ ok (us, i)
      → (i ≡ index_of fingerprint mediator_id us)
        × (i < length us)
        × (find fingerprint mediator_id us
            ≡ some (
                or_new
                  (new_history_entry fingerprint mediator_id now)
                  (find fingerprint mediator_id es)))
        × ((fp mid : List ℕ)
            → (bytes_eq fingerprint fp && bytes_eq mediator_id mid) ≡ false
            → find fp mid us ≡ find fp mid es)
  unfolding get_or_create
  get_or_create-ok es us i h =
      let new = new_history_entry fingerprint mediator_id now in
      let (u, h₁, h₂) =
        bind-eq-ok
          (throw_if (ltb history_max_mediator_id_length (length mediator_id)) invalid_argument) _
          h in
      let b = index_of-bound fingerprint mediator_id es in
      elim (Bool-cases (index_of fingerprint mediator_id es == length es)) [
        | inl p ↦
            let absent : index_of fingerprint mediator_id es ≡ length es = ground arith in
            let h₃ = rw p at h₂ in
            let (v, h₄, h₅) =
              bind-eq-ok (throw_if (leb history_max_entries (length es)) invalid_argument) _ h₃ in
            let same : es ++ new ∷ [] ≡ us = cc in
            let last : length es ≡ i = cc in
            let at : index_of fingerprint mediator_id (es ++ new ∷ []) ≡ length es =
              find-append fingerprint mediator_id new es new_is_of absent in
            let grown : length (es ++ new ∷ []) ≡ length es + 1 = length-append es (new ∷ []) in
            rw (← same) (
              sym (at ∙ last),
              omega arith,
              find-append_here fingerprint mediator_id new es new_is_of absent
                  ∙ rw (find-absent fingerprint mediator_id es absent) refl,
              (λ fp mid d.
                  find-append_other fp mid new es
                    (is_of-other fingerprint mediator_id fp mid new new_is_of d)),
            )
        | inr p ↦
            let found : index_of fingerprint mediator_id es < length es = ground arith in
            let h₃ = rw p at h₂ in
            let same : es ≡ us = cc in
            let at : index_of fingerprint mediator_id es ≡ i = cc in
            let (e, f) = find-present fingerprint mediator_id es found in
            rw (← same) (sym at, omega arith, f ∙ rw f refl, (λ fp mid d. refl))
      ]

  module _ (c : Aead) (key : List ℕ) (clock : ℕ) (nonce : List ℕ) where
    change-IsUpdated :
        (f : CounterpartyHistoryEntry → Result CounterpartyHistoryEntry) (h : History) {t : History}
        → KeepsKey f
        → change c key clock nonce fingerprint mediator_id now f h ≡ ok t
        → IsUpdated fingerprint mediator_id
            (new_history_entry fingerprint mediator_id now)
            f
            h.entries
            t.entries
    unfolding change
    change-IsUpdated f h {t} k e =
        let ((us, i), e₁, e₂) =
          bind-eq-ok (get_or_create fingerprint mediator_id now h.entries) _ e in
        let (ts, e₃, e₄) = bind-eq-ok (modify i f us) _ e₂ in
        let (raw, e₅, e₆) = bind-eq-ok (persist c key nonce ts) _ e₄ in
        let (a, l, found, others) = get_or_create-ok h.entries us i e₁ in
        let e₇ = rw a at e₃ in
        let (b, d, f₁, f₂, f₃) = find-modify fingerprint mediator_id f k us (omega arith) e₇ in
        let same : ts ≡ t.entries = ok_field (λ r. r.entries) (sym e₆) in
        let start : some b
            ≡ some (
                or_new (new_history_entry fingerprint mediator_id now)
                  (find fingerprint mediator_id h.entries)) =
          sym f₁ ∙ found in
        let start₁ : b
            ≡ or_new (new_history_entry fingerprint mediator_id now)
                (find fingerprint mediator_id h.entries) =
          cc in
        record {
          entry = d;
          changed = ap f (sym start₁) ∙ f₂;
          looked_up = λ fp mid.
              elim (Bool-cases (bytes_eq fingerprint fp && bytes_eq mediator_id mid)) [
                | inl q ↦
                    let (p₁, p₂) = both-true q in
                    rw (q, ← bytes_eq→eq fingerprint fp p₁, ← bytes_eq→eq mediator_id mid p₂)
                      (ap (find fingerprint mediator_id) (sym same) ∙ f₃)
                | inr q ↦ rw q (
                    ap (find fp mid) (sym same)
                    ∙ find-modify_other fingerprint mediator_id f k fp mid us q e₇
                    ∙ others fp mid q)
              ];
        }

-- The history is a map from a fingerprint and a mediator: if a call of record_encounter,
-- set_blocked, add_note or add_evidence_hash does not throw, it does what it says to the entry
-- that the key had, or to a new one, afterwards a lookup of the key finds the result, and a
-- lookup of any other key finds what it found before.
pub perform-IsUpdated :
    (c : Aead) (key : List ℕ) (clock : ℕ) (nonce fingerprint mediator_id : List ℕ) (call : Call)
    (h : History) {t : History}
    → perform c key clock nonce fingerprint mediator_id call h ≡ ok t
    → IsUpdated fingerprint mediator_id
        (new_history_entry fingerprint mediator_id (time_of clock call))
        (effect clock call)
        h.entries
        t.entries
unfolding perform record_encounter set_blocked add_note add_evidence_hash effect time_of
perform-IsUpdated c key clock nonce fingerprint mediator_id (Call.encounter outcome now) h e =
    let time = or_clock clock now in
    change-IsUpdated fingerprint mediator_id time c key clock nonce (encountered outcome time) h
      (encountered-KeepsKey outcome time) e
perform-IsUpdated c key clock nonce fingerprint mediator_id (Call.block flag) h e =
    change-IsUpdated fingerprint mediator_id clock c key clock nonce (blocked flag) h
      (blocked-KeepsKey flag) e
perform-IsUpdated c key clock nonce fingerprint mediator_id (Call.note text now) h e =
    let time = or_clock clock now in
    let (u, e₁, e₂) =
      bind-eq-ok (throw_if (ltb history_max_note_length (length text)) invalid_argument) _ e in
    change-IsUpdated fingerprint mediator_id time c key clock nonce (noted text time) h
      (noted-KeepsKey text time) e₂
perform-IsUpdated c key clock nonce fingerprint mediator_id (Call.evidence hash) h e =
    change-IsUpdated fingerprint mediator_id clock c key clock nonce (evidenced hash) h
      (evidenced-KeepsKey hash) e
