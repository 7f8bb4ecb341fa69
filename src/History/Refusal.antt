-- ===== src/History/Refusal.antt =====
-- When the calls of LocalCounterpartyHistory throw (src/history.cpp).
use tradep2p.Base.{
  ◌+◌, ◌≤◌, sym, ◌∙◌, arith, ℕ, ◌≡◌, inl, inr, refl, sym, ◌∙◌, List, [], ◌∷◌, Bool, true, false,
  ◌&&◌, ◌||◌, arith, length, ltb, leb, ◌==◌, Bool-cases, some, Result, ok, err, bind, throw_if,
  invalid_argument,
}
use tradep2p.Crypto.{Aead, IsAead}
use tradep2p.History.Format.{encode_payload, max_ciphertext_length}
use tradep2p.History.Size.{
  total, entry_size, encountered-size, blocked-size, noted-size, evidenced-size, modify-size,
  get_or_create-size,
}
use tradep2p.Protocol.Wire.Bytes.{IsArray, IsU64}
use tradep2p.History.Types.{
  CounterpartyHistoryEntry, history_max_entries, history_max_mediator_id_length,
  history_max_note_length, history_max_notes_per_entry, history_max_evidence_hashes_per_entry,
}
use tradep2p.History.Store.{
  is_of, index_of, find, new_history_entry, get_or_create, modify, History, change, encountered,
  noted, evidenced, blocked, or_clock, record_encounter, set_blocked, add_note, add_evidence_hash,
  Call, time_of, perform,
}
use tradep2p.History.Lookup.{
  find-absent, index_of-nil, find-here, find-there, index_of-here, index_of-there,
}
use tradep2p.History.Update.{ok_field, or_new, get_or_create-ok}
use tradep2p.History.Reopen.{
  IsKept, IsStored, CallInRange, or_clock-IsU64, encountered-IsKept, noted-IsKept, evidenced-IsKept,
  blocked-IsKept, modify-IsKept, get_or_create-IsStored,
}
use tradep2p.History.Total.{encode_payload-total, persist-total}

-- A result is an invalid argument if the test says so, and a value if not.
pub data IsDecided {A : Type 0} (refused : Bool) (result : Result A) : Type 0 where
  throws : refused ≡ true → result ≡ err invalid_argument → IsDecided refused result
  returns : refused ≡ false → (a : A) → result ≡ ok a → IsDecided refused result

bind-IsDecided :
    {A B : Type 0} {b c : Bool} {r : Result A} (g : A → Result B)
    → IsDecided b r
    → ((a : A) → r ≡ ok a → IsDecided c (g a))
    → IsDecided (b || c) (bind r g)
bind-IsDecided g (IsDecided.throws p q) k = rw (p, q) (IsDecided.throws refl refl)
bind-IsDecided g (IsDecided.returns p a q) k = rw (p, q) (k a q)

bind-returns :
    {A B : Type 0} {b : Bool} {r : Result A} (g : A → Result B)
    → IsDecided b r
    → ((a : A) → r ≡ ok a → (v : B) × (g a ≡ ok v))
    → IsDecided b (bind r g)
bind-returns g (IsDecided.throws p q) k = rw (p, q) (IsDecided.throws refl refl)
bind-returns g (IsDecided.returns p a q) k =
    let (v, e) = k a q in rw (p, q) (IsDecided.returns refl v e)

throw_if-IsDecided : (b : Bool) → IsDecided b (throw_if b invalid_argument)
throw_if-IsDecided true = IsDecided.throws refl refl
throw_if-IsDecided false = IsDecided.returns refl tt refl

-- The limits that the entry itself sets to a call.
unfoldable pub entry_full : Call → CounterpartyHistoryEntry → Bool
entry_full (Call.encounter outcome now) e = false
entry_full (Call.block flag) e = false
entry_full (Call.note text now) e = leb history_max_notes_per_entry (length e.notes)
entry_full (Call.evidence hash) e =
    leb history_max_evidence_hashes_per_entry (length e.evidence_hashes)

unfoldable pub text_too_long : Call → Bool
text_too_long (Call.encounter outcome now) = false
text_too_long (Call.block flag) = false
text_too_long (Call.note text now) = ltb history_max_note_length (length text)
text_too_long (Call.evidence hash) = false

module _ (fingerprint mediator_id : List ℕ) where
  -- A mediator with a name that is too long, or a new entry when there is no room.
  abbrev pub no_entry : List CounterpartyHistoryEntry → Bool
  no_entry es =
      ltb history_max_mediator_id_length (length mediator_id)
      || (index_of fingerprint mediator_id es == length es && leb history_max_entries (length es))

  get_or_create-IsDecided :
      (now : ℕ) (es : List CounterpartyHistoryEntry)
      → IsDecided (no_entry es) (get_or_create fingerprint mediator_id now es)
  unfolding get_or_create
  get_or_create-IsDecided now es =
      bind-IsDecided _
        (throw_if-IsDecided (ltb history_max_mediator_id_length (length mediator_id)))
        (λ u q. elim (Bool-cases (index_of fingerprint mediator_id es == length es)) [
          | inl p ↦ rw p (elim (Bool-cases (leb history_max_entries (length es))) [
            | inl q ↦ rw q (IsDecided.throws refl refl)
            | inr q ↦ rw q (IsDecided.returns refl _ refl)
          ])
          | inr p ↦ rw p (IsDecided.returns refl _ refl)
        ])

  modify-IsDecided :
      (f : CounterpartyHistoryEntry → Result CounterpartyHistoryEntry) (b : Bool)
      (e : CounterpartyHistoryEntry) (es : List CounterpartyHistoryEntry)
      → find fingerprint mediator_id es ≡ some e
      → IsDecided b (f e)
      → IsDecided b (modify (index_of fingerprint mediator_id es) f es)
  modify-IsDecided f b e [] h d = absurd (
      let none_there =
        find-absent fingerprint mediator_id [] (index_of-nil fingerprint mediator_id) in
      cc)
  modify-IsDecided f b e (x ∷ es) h d = elim (Bool-cases (is_of fingerprint mediator_id x)) [
    | inl p ↦
        let found : some x ≡ some e = sym (find-here fingerprint mediator_id x es p) ∙ h in
        let same : f x ≡ f e = cc in
        rw (index_of-here fingerprint mediator_id x es p, same)
          (bind-returns _ d (λ t q. (t ∷ es, refl)))
    | inr p ↦
        let found : find fingerprint mediator_id es ≡ some e =
          sym (find-there fingerprint mediator_id x es p) ∙ h in
        rw (index_of-there fingerprint mediator_id x es p)
          (bind-returns _ (modify-IsDecided f b e es found d) (λ ts q. (x ∷ ts, refl)))
  ]

  -- The entry that a call starts from.
  abbrev pub start : ℕ → List CounterpartyHistoryEntry → CounterpartyHistoryEntry
  start now es =
      or_new (new_history_entry fingerprint mediator_id now) (find fingerprint mediator_id es)

  module _ (c : Aead) (key : List ℕ) (clock : ℕ) (nonce : List ℕ) (sound : IsAead c)
      (n : IsArray 12 nonce) (a : IsArray 32 fingerprint) where
    change-IsDecided :
        (now : ℕ) (f : CounterpartyHistoryEntry → Result CounterpartyHistoryEntry) (b : Bool)
        (h : History)
        → IsU64 now
        → ((e t : CounterpartyHistoryEntry) → f e ≡ ok t → IsKept e → IsKept t)
        → ((e t : CounterpartyHistoryEntry) → f e ≡ ok t → entry_size t ≤ entry_size e + 4106)
        → IsStored h.entries
        → total entry_size h.entries ≤ max_ciphertext_length
        → IsDecided b (f (start now h.entries))
        → IsDecided
            (no_entry h.entries || b)
            (change c key clock nonce fingerprint mediator_id now f h)
    unfolding change
    change-IsDecided now f b h u keeps grows s small d =
        bind-IsDecided _ (get_or_create-IsDecided now h.entries) (λ (us, i) q.
          let (at, l, found, others) =
            get_or_create-ok fingerprint mediator_id now h.entries us i q in
          let s₁ = get_or_create-IsStored fingerprint mediator_id now h.entries us i a u q s in
          let g₁ = get_or_create-size fingerprint mediator_id now h.entries us i a.size q in
          bind-returns _ (rw at (modify-IsDecided f b (start now h.entries) us found d)) (λ ts q₁.
            let (each, same) = modify-IsKept i f us keeps q₁ s₁.each in
            let g₂ = modify-size i f us grows q₁ in
            let s₂ : IsStored ts = record {
              each = each;
              count = (let k = s₁.count in omega arith);
            } in
            let (raw, w) = persist-total c key nonce ts sound n s₂ (omega arith) in
            (record { entries = ts; file = some raw }, rw w refl)))

    payload_size :
        (es : List CounterpartyHistoryEntry) {plaintext : List ℕ}
        → IsStored es
        → encode_payload es ≡ ok plaintext
        → length plaintext ≤ max_ciphertext_length
        → total entry_size es ≤ max_ciphertext_length
    payload_size es {plaintext} s e l =
        let (bytes, (e₁, size)) = encode_payload-total es s in
        let same : bytes ≡ plaintext = ok_field (λ b. b) (sym e ∙ e₁) in
        let m : length bytes ≤ max_ciphertext_length = rw same l in omega arith

    -- If the cipher calls are as documented and do not run out of memory, the outcome of an
    -- encounter is one of the three that have a name, and the other arguments are values of
    -- their types, then on a history within the limits of the header whose payload is at most
    -- the 64 MiB that open() accepts, a call of record_encounter, set_blocked, add_note or
    -- add_evidence_hash throws an invalid argument if the text of a note or the name of the
    -- mediator is too long, if a new entry is needed and there are 4096, or if the entry that
    -- the key has, or the new one, has no room for the note or the hash; in all other cases
    -- it returns.
    pub perform-IsDecided :
        (call : Call) (h : History) {plaintext : List ℕ}
        → IsU64 clock
        → CallInRange call
        → IsStored h.entries
        → encode_payload h.entries ≡ ok plaintext
        → length plaintext ≤ max_ciphertext_length
        → IsDecided
            (text_too_long call
              || (no_entry h.entries || entry_full call (start (time_of clock call) h.entries)))
            (perform c key clock nonce fingerprint mediator_id call h)
    unfolding CallInRange perform record_encounter set_blocked add_note add_evidence_hash
        text_too_long entry_full time_of encountered noted evidenced
    perform-IsDecided (Call.encounter outcome now) h u r s e l =
        let time = or_clock clock now in
        let k = or_clock-IsU64 clock now u r.1 in
        change-IsDecided time (encountered outcome time) false h k
          (λ b d q. encountered-IsKept outcome time b d r.0 k q) (encountered-size outcome time) s
          (payload_size h.entries s e l) (IsDecided.returns refl _ refl)
    perform-IsDecided (Call.block flag) h u r s e l =
        change-IsDecided clock (blocked flag) false h u (blocked-IsKept flag) (blocked-size flag) s
          (payload_size h.entries s e l) (IsDecided.returns refl _ refl)
    perform-IsDecided (Call.note text now) h u r s e l =
        let time = or_clock clock now in
        let k = or_clock-IsU64 clock now u r in
        bind-IsDecided _ (throw_if-IsDecided (ltb history_max_note_length (length text))) (λ v p.
          change-IsDecided time (noted text time) _ h k
            (λ b d q. noted-IsKept text time b d (ground arith) k q)
            (λ b d q. noted-size text time b d (ground arith) q) s (payload_size h.entries s e l)
            (bind-returns _ (throw_if-IsDecided _) (λ w q. (_, refl))))
    perform-IsDecided (Call.evidence hash) h u r s e l =
        change-IsDecided clock (evidenced hash) _ h u (λ b d q. evidenced-IsKept hash b d r q)
          (λ b d q. evidenced-size hash b d r.size q) s (payload_size h.entries s e l)
          (bind-returns _ (throw_if-IsDecided _) (λ w q. (_, refl)))
