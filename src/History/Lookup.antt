-- ===== src/History/Lookup.antt =====
-- The entries of src/history.cpp as a map from a fingerprint and a mediator: what a change does to
-- the entry that is looked up afterwards.
use tradep2p.Base.{
  ℕ, suc, ◌≤◌, ◌<◌, ◌≡◌, inl, inr, refl, sym, ap, ◌∙◌, List, [], ◌∷◌, ◌++◌, Bool, true, false, ◌&&◌,
  arith, length, bytes_eq, bytes_eq→eq, Bool-cases, none, some, Result, ok, bind-eq-ok,
}
use tradep2p.History.Types.{CounterpartyHistoryEntry}
use tradep2p.History.Store.{is_of, index_of, find, modify}

-- A change leaves the key of an entry alone.
pub record KeepsKey (f : CounterpartyHistoryEntry → Result CounterpartyHistoryEntry) : Type 0 where
  pub fingerprint : (e t : CounterpartyHistoryEntry) → f e ≡ ok t → t.fingerprint ≡ e.fingerprint
  pub mediator_id : (e t : CounterpartyHistoryEntry) → f e ≡ ok t → t.mediator_id ≡ e.mediator_id

pub both-true : {a b : Bool} → (a && b) ≡ true → (a ≡ true) × (b ≡ true)
both-true {a = true} h = (refl, h)
both-true {a = false} h = absurd (cc)

module _ (fingerprint mediator_id : List ℕ) where
  pub index_of-nil : index_of fingerprint mediator_id [] ≡ length {A = CounterpartyHistoryEntry} []
  unfolding index_of
  index_of-nil = refl

  pub find-here :
      (e : CounterpartyHistoryEntry) (es : List CounterpartyHistoryEntry)
      → is_of fingerprint mediator_id e ≡ true
      → find fingerprint mediator_id (e ∷ es) ≡ some e
  unfolding find index_of
  find-here e es h = rw h refl

  pub find-there :
      (e : CounterpartyHistoryEntry) (es : List CounterpartyHistoryEntry)
      → is_of fingerprint mediator_id e ≡ false
      → find fingerprint mediator_id (e ∷ es) ≡ find fingerprint mediator_id es
  unfolding find index_of
  find-there e es h = rw h refl

  pub index_of-here :
      (e : CounterpartyHistoryEntry) (es : List CounterpartyHistoryEntry)
      → is_of fingerprint mediator_id e ≡ true
      → index_of fingerprint mediator_id (e ∷ es) ≡ 0
  unfolding index_of
  index_of-here e es h = rw h refl

  pub index_of-there :
      (e : CounterpartyHistoryEntry) (es : List CounterpartyHistoryEntry)
      → is_of fingerprint mediator_id e ≡ false
      → index_of fingerprint mediator_id (e ∷ es) ≡ suc (index_of fingerprint mediator_id es)
  unfolding index_of
  index_of-there e es h = rw h refl

  -- The key of an entry that was found is the one that was asked for.
  pub is_of-other :
      (fp mid : List ℕ) (e : CounterpartyHistoryEntry)
      → is_of fingerprint mediator_id e ≡ true
      → (bytes_eq fingerprint fp && bytes_eq mediator_id mid) ≡ false
      → is_of fp mid e ≡ false
  is_of-other fp mid e p d =
      let (a, b) = both-true p in
      rw (bytes_eq→eq e.fingerprint fingerprint a, bytes_eq→eq e.mediator_id mediator_id b) d

  -- The list that a key is looked up in grows at its end by an entry that has the key.
  pub find-append :
      (e : CounterpartyHistoryEntry) (es : List CounterpartyHistoryEntry)
      → is_of fingerprint mediator_id e ≡ true
      → index_of fingerprint mediator_id es ≡ length es
      → index_of fingerprint mediator_id (es ++ e ∷ []) ≡ length es
  find-append e [] p h = index_of-here e [] p
  find-append e (b ∷ es) p h = elim (Bool-cases (is_of fingerprint mediator_id b)) [
    | inl q ↦ absurd (let i = index_of-here b es q in omega arith)
    | inr q ↦
        let i = index_of-there b es q in
        index_of-there b (es ++ e ∷ []) q ∙ ap (λ n. suc n) (find-append e es p (omega arith))
  ]

  pub find-append_here :
      (e : CounterpartyHistoryEntry) (es : List CounterpartyHistoryEntry)
      → is_of fingerprint mediator_id e ≡ true
      → index_of fingerprint mediator_id es ≡ length es
      → find fingerprint mediator_id (es ++ e ∷ []) ≡ some e
  find-append_here e [] p h = find-here e [] p
  find-append_here e (b ∷ es) p h = elim (Bool-cases (is_of fingerprint mediator_id b)) [
    | inl q ↦ absurd (let i = index_of-here b es q in omega arith)
    | inr q ↦
        let i = index_of-there b es q in
        find-there b (es ++ e ∷ []) q ∙ find-append_here e es p (omega arith)
  ]

  pub find-present :
      (es : List CounterpartyHistoryEntry)
      → index_of fingerprint mediator_id es < length es
      → (e : CounterpartyHistoryEntry) × (find fingerprint mediator_id es ≡ some e)
  find-present [] h = absurd (omega arith)
  find-present (b ∷ es) h = elim (Bool-cases (is_of fingerprint mediator_id b)) [
    | inl q ↦ (b, find-here b es q)
    | inr q ↦
        let i = index_of-there b es q in
        let (e, f) = find-present es (omega arith) in (e, find-there b es q ∙ f)
  ]

  pub find-append_other :
      (e : CounterpartyHistoryEntry) (es : List CounterpartyHistoryEntry)
      → is_of fingerprint mediator_id e ≡ false
      → find fingerprint mediator_id (es ++ e ∷ []) ≡ find fingerprint mediator_id es
  find-append_other e [] p = find-there e [] p
  find-append_other e (b ∷ es) p = elim (Bool-cases (is_of fingerprint mediator_id b)) [
    | inl q ↦ find-here b (es ++ e ∷ []) q ∙ sym (find-here b es q)
    | inr q ↦ find-there b (es ++ e ∷ []) q ∙ find-append_other e es p ∙ sym (find-there b es q)
  ]

  pub find-absent :
      (es : List CounterpartyHistoryEntry)
      → index_of fingerprint mediator_id es ≡ length es
      → find fingerprint mediator_id es ≡ none
  unfolding find
  find-absent [] h = refl
  find-absent (b ∷ es) h = elim (Bool-cases (is_of fingerprint mediator_id b)) [
    | inl q ↦ absurd (let i = index_of-here b es q in omega arith)
    | inr q ↦ let i = index_of-there b es q in find-there b es q ∙ find-absent es (omega arith)
  ]

  pub index_of-bound :
      (es : List CounterpartyHistoryEntry) → index_of fingerprint mediator_id es ≤ length es
  unfolding index_of
  index_of-bound [] = omega arith
  index_of-bound (b ∷ es) = elim (Bool-cases (is_of fingerprint mediator_id b)) [
    | inl q ↦ let i = index_of-here b es q in omega arith
    | inr q ↦ let i = index_of-there b es q in let k = index_of-bound es in omega arith
  ]

  -- Two lists that agree on a key agree on it behind an entry.
  find-cons :
      (e : CounterpartyHistoryEntry) (us es : List CounterpartyHistoryEntry)
      → find fingerprint mediator_id us ≡ find fingerprint mediator_id es
      → find fingerprint mediator_id (e ∷ us) ≡ find fingerprint mediator_id (e ∷ es)
  find-cons e us es h = elim (Bool-cases (is_of fingerprint mediator_id e)) [
    | inl q ↦ find-here e us q ∙ sym (find-here e es q)
    | inr q ↦ find-there e us q ∙ h ∙ sym (find-there e es q)
  ]

module _ (fingerprint mediator_id : List ℕ) where
  module _ (f : CounterpartyHistoryEntry → Result CounterpartyHistoryEntry) (k : KeepsKey f) where
    kept :
        (fp mid : List ℕ) (e t : CounterpartyHistoryEntry)
        → f e ≡ ok t
        → is_of fp mid t ≡ is_of fp mid e
    kept fp mid e t h = rw (k.fingerprint e t h, k.mediator_id e t h) refl

    -- The entry that was found is changed, and is found again.
    pub find-modify :
        (es : List CounterpartyHistoryEntry) {ts : List CounterpartyHistoryEntry}
        → index_of fingerprint mediator_id es < length es
        → modify (index_of fingerprint mediator_id es) f es ≡ ok ts
        → (e : CounterpartyHistoryEntry) × (t : CounterpartyHistoryEntry) × (find fingerprint
              mediator_id es
            ≡ some e)
          × (f e ≡ ok t)
          × (find fingerprint mediator_id ts ≡ some t)
    find-modify [] l h = absurd (omega arith)
    find-modify (e ∷ es) {ts} l h = elim (Bool-cases (is_of fingerprint mediator_id e)) [
      | inl p ↦
          let h₁ = rw (index_of-here fingerprint mediator_id e es p) at h in
          let (t, e₁, e₂) = bind-eq-ok (f e) (λ changed. ok (changed ∷ es)) h₁ in
          let same : t ∷ es ≡ ts = cc in
          (
            e,
            t,
            find-here fingerprint mediator_id e es p,
            e₁,
            rw (← same)
                (find-here fingerprint mediator_id t es (kept fingerprint mediator_id e t e₁ ∙ p)),
          )
      | inr p ↦
          let i = index_of-there fingerprint mediator_id e es p in
          let h₁ = rw i at h in
          let (us, e₁, e₂) =
            bind-eq-ok (modify (index_of fingerprint mediator_id es) f es)
              (λ changed. ok (e ∷ changed)) h₁ in
          let same : e ∷ us ≡ ts = cc in
          let (b, t, f₁, f₂, f₃) = find-modify es (omega arith) e₁ in
          (
            b,
            t,
            find-there fingerprint mediator_id e es p ∙ f₁,
            f₂,
            rw (← same) (find-there fingerprint mediator_id e us p ∙ f₃),
          )
    ]

    -- An entry with another key stays what it was.
    pub find-modify_other :
        (fp mid : List ℕ) (es : List CounterpartyHistoryEntry) {ts : List CounterpartyHistoryEntry}
        → (bytes_eq fingerprint fp && bytes_eq mediator_id mid) ≡ false
        → modify (index_of fingerprint mediator_id es) f es ≡ ok ts
        → find fp mid ts ≡ find fp mid es
    find-modify_other fp mid [] {ts} d h = let same : [] ≡ ts = cc in rw (← same) refl
    find-modify_other fp mid (e ∷ es) {ts} d h =
        elim (Bool-cases (is_of fingerprint mediator_id e)) [
          | inl p ↦
              let h₁ = rw (index_of-here fingerprint mediator_id e es p) at h in
              let (t, e₁, e₂) = bind-eq-ok (f e) (λ changed. ok (changed ∷ es)) h₁ in
              let same : t ∷ es ≡ ts = cc in
              let other : is_of fp mid e ≡ false =
                is_of-other fingerprint mediator_id fp mid e p d in
              rw (← same) (
                find-there fp mid t es (kept fp mid e t e₁ ∙ other)
                ∙ sym (find-there fp mid e es other))
          | inr p ↦
              let h₁ = rw (index_of-there fingerprint mediator_id e es p) at h in
              let (us, e₁, e₂) =
                bind-eq-ok (modify (index_of fingerprint mediator_id es) f es)
                  (λ changed. ok (e ∷ changed)) h₁ in
              let same : e ∷ us ≡ ts = cc in
              rw (← same) (find-cons fp mid e us es (find-modify_other fp mid es d e₁))
        ]
