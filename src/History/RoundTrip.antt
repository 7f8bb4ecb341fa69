-- ===== src/History/RoundTrip.antt =====
-- The history file of src/history.cpp, written and then opened.
use tradep2p.Base.{
  ◌∷◌, ℕ, ◌%◌, ◌≤◌, ◌≡◌, refl, sym, ap, ◌∙◌, List, [], ◌++◌, append_assoc, Bool, if◌then◌else◌,
  Bool-cases, inl, inr, true, false, arith, length, All, Result, ok, err, throw_if, ltb, ◌==◌,
  invalid_argument, history_format,
}
use tradep2p.Crypto.{Aead, IsAead, IsIntLength}
use tradep2p.History.Cipher.{seal-ok, open_sealed-cipher}
use tradep2p.Protocol.Wire.Bytes.{IsArray, IsU32, IsU64, big_endian}
use tradep2p.Protocol.Wire.Writer
use tradep2p.Protocol.Wire.Writer.{written}
use tradep2p.Protocol.Wire.Reader
use tradep2p.Protocol.Wire.Reader.{decoded}
use tradep2p.Protocol.Wire.RoundTrip.{
  RoundTrip, rt_seq, rt_last, rt_checked, rt_check, rt_weaken, rt_each, Yields-check,
  Yields-finished, Yields-pure, decoded-written, rt_u8, rt_u16, rt_u32, rt_u64, rt_id,
  rt_short_string, reads_take, reads_rest, reads_u16, reads_u32,
}
use tradep2p.History.Types.{
  LocalOutcome, ConfidenceLevel, HistoryNote, CounterpartyHistoryEntry, history_max_entries,
  history_max_mediator_id_length, history_max_note_length,
}
use tradep2p.History.Format.{
  history_magic, max_ciphertext_length, outcome_to_u8, outcome_of_u8, confidence_to_u8,
  confidence_of_u8, append_outcome, append_note, encode_history_entry, read_outcome, read_note,
  decode_history_entry, write_payload, encode_payload, read_payload_entries, decode_payload,
  history_header, DecodedFile, write_sealed, read_ciphertext, read_sealed, decode_sealed,
  history_aad, persist, open_history, history_errors, flag_byte,
}

-- A named outcome.
abbrev pub IsNamed : LocalOutcome → Type 0
IsNamed outcome = (outcome_to_u8 outcome ≤ 2) × (outcome_of_u8 (outcome_to_u8 outcome) ≡ outcome)

abbrev pub NoteInRange : HistoryNote → Type 0
NoteInRange note = IsU64 note.recorded_at

-- The values of the C++ types, with outcomes that have a name.
pub record EntryInRange (entry : CounterpartyHistoryEntry) : Type 0 where
  pub fingerprint : IsArray 32 entry.fingerprint
  pub first_seen : IsU64 entry.first_seen
  pub last_seen : IsU64 entry.last_seen
  pub encounter_count : IsU64 entry.encounter_count
  pub outcome_labels : All IsNamed entry.outcome_labels
  pub notes : All NoteInRange entry.notes
  pub evidence_hashes : All (IsArray 32) entry.evidence_hashes

rt_outcome :
    (outcome : LocalOutcome)
    → IsNamed outcome
    → (rest : List ℕ) → RoundTrip (append_outcome outcome) read_outcome outcome 1 rest
unfolding read_outcome
rt_outcome outcome h rest =
    rt_last _ (rt_u8 (outcome_to_u8 outcome))
      (Yields-check _ (ground (arith, h.0)) (rw h.1 (Yields-pure outcome rest)))

rt_note :
    (note : HistoryNote)
    → NoteInRange note
    → (rest : List ℕ) → RoundTrip (append_note note) read_note note 4106 rest
unfolding append_note read_note
rt_note note h rest =
    rt_seq _ (rt_u64 note.recorded_at h)
      (rt_last _ (rt_short_string note.text history_max_note_length) (Yields-pure note rest))

confidence_back :
    (c : ConfidenceLevel) → (confidence_of_u8 (confidence_to_u8 c) ≡ c) × (confidence_to_u8 c ≤ 3)
unfolding confidence_of_u8 confidence_to_u8
confidence_back c = ground arith

few :
    {A : Type 0} (xs : List A)
    → throw_if (ltb 65535 (length xs)) invalid_argument ≡ ok tt
    → length xs ≤ 65535
few xs e = ground arith

flag_back : (b : Bool) → ((flag_byte b == 1) ≡ b) × (flag_byte b ≤ 1)
flag_back true = (refl, omega arith)
flag_back false = (refl, omega arith)

rt_outcomes :
    (xs : List LocalOutcome)
    → All IsNamed xs
    → length xs ≤ 65535
    → (rest : List ℕ)
    → RoundTrip
        (Writer.each append_outcome xs)
        (Reader.times (length xs) read_outcome)
        xs
        65535
        rest
rt_outcomes xs h s rest = rt_weaken _ (omega arith) (rt_each IsNamed rt_outcome xs h rest)

rt_notes :
    (xs : List HistoryNote)
    → All NoteInRange xs
    → length xs ≤ 65535
    → (rest : List ℕ)
    → RoundTrip (Writer.each append_note xs) (Reader.times (length xs) read_note) xs 269086710 rest
rt_notes xs h s rest = rt_weaken _ (omega arith) (rt_each NoteInRange rt_note xs h rest)

rt_hashes :
    (xs : List (List ℕ))
    → All (IsArray 32) xs
    → length xs ≤ 65535
    → (rest : List ℕ)
    → RoundTrip
        (Writer.each Writer.fixed_id xs)
        (Reader.times (length xs) (Reader.fixed_id 32))
        xs
        2097120
        rest
rt_hashes xs h s rest = rt_weaken _ (omega arith) (rt_each (IsArray 32) (rt_id 32) xs h rest)

rt_entry :
    (entry : CounterpartyHistoryEntry)
    → EntryInRange entry
    → (rest : List ℕ)
    → RoundTrip (encode_history_entry entry) decode_history_entry entry 271249688 rest
unfolding encode_history_entry decode_history_entry
rt_entry entry r rest =
    let (flag, small) = flag_back entry.locally_blocked in
    let (named, high) = confidence_back entry.confidence in
    rt_weaken _ (omega arith) (
      rt_seq _ (rt_id 32 entry.fingerprint r.fingerprint) (
        rt_seq _ (rt_u8 1) (
          rt_check _ refl (
            rt_seq _ (rt_short_string entry.mediator_id history_max_mediator_id_length) (
              rt_seq _ (rt_u64 entry.first_seen r.first_seen) (
                rt_seq _ (rt_u64 entry.last_seen r.last_seen) (
                  rt_seq _ (rt_u64 entry.encounter_count r.encounter_count) (
                    rt_checked λ k1.
                      rt_seq _
                        (rt_u16 (length entry.outcome_labels)
                          (ground (arith, few entry.outcome_labels k1)))
                        (rt_seq _
                          (rt_outcomes entry.outcome_labels r.outcome_labels
                            (few entry.outcome_labels k1))
                          (rt_seq _ (rt_u8 (flag_byte entry.locally_blocked)) (
                            rt_check _ (ground arith) (
                              rt_checked λ k2.
                                rt_seq _
                                  (rt_u16 (length entry.notes) (ground (arith, few entry.notes k2)))
                                  (rt_seq _ (rt_notes entry.notes r.notes (few entry.notes k2)) (
                                    rt_checked λ k3.
                                      rt_seq _
                                        (rt_u16 (length entry.evidence_hashes)
                                          (ground (arith, few entry.evidence_hashes k3)))
                                        (rt_seq _
                                          (rt_hashes entry.evidence_hashes r.evidence_hashes
                                            (few entry.evidence_hashes k3))
                                          (rt_last _ (rt_u8 (confidence_to_u8 entry.confidence)) (
                                            Yields-check _ (ground arith) (
                                              rw (flag, named)
                                                (Yields-pure entry rest)))))))))))))))))))

rt_payload :
    (entries : List CounterpartyHistoryEntry)
    → All EntryInRange entries
    → length entries ≤ history_max_entries
    → RoundTrip (write_payload entries) read_payload_entries entries 1111038722052 []
unfolding write_payload read_payload_entries
rt_payload entries r l = rt_weaken _ (omega arith) (
    rt_checked λ _. rt_seq _ (rt_u32 (length entries) (omega arith)) (
      rt_check _ (ground arith) (
        rt_last _
          (λ more.
            rt_weaken 1111038722048 (omega arith) (rt_each EntryInRange rt_entry entries r more))
          (Yields-finished _ (Yields-pure entries [])))))

history_errors-ok {ℓ} : {A : Type ℓ} {r : Result A} {a : A} → r ≡ ok a → history_errors r ≡ ok a
history_errors-ok e = rw e refl

-- A payload of at most 4096 entries is decoded again.
pub decode_payload-encode_payload :
    (entries : List CounterpartyHistoryEntry) {plaintext : List ℕ}
    → All EntryInRange entries
    → length entries ≤ history_max_entries
    → encode_payload entries ≡ ok plaintext
    → decode_payload plaintext ≡ ok entries
unfolding encode_payload decode_payload
decode_payload-encode_payload entries r l e =
    history_errors-ok
      (decoded-written _ read_payload_entries {limit = 1111038722052} e (rt_payload entries r l)
        (omega arith)).0

-- The bytes of the file.
abbrev pub sealed_bytes : DecodedFile → List ℕ
sealed_bytes file =
    history_magic
    ++ (big_endian 2 1
        ++ (file.nonce
            ++ (big_endian 4 (length file.ciphertext % 4294967296)
                ++ (file.ciphertext ++ file.tag))))

pub write_sealed-ok : (file : DecodedFile) → written (write_sealed file) ≡ ok (sealed_bytes file)
unfolding write_sealed history_header written Writer.◌>>◌ Writer.fixed_id Writer.u16 Writer.u32
    big_endian
write_sealed-ok file =
    let size = big_endian 4 (length file.ciphertext % 4294967296) in
    rw
      (
        append_assoc file.nonce size file.ciphertext,
        append_assoc file.nonce (size ++ file.ciphertext) file.tag,
      )
      refl

-- The file is decoded if the ciphertext is not too long, and refused if it is.
pub decode_sealed-sealed_bytes :
    (file : DecodedFile)
    → IsArray 12 file.nonce
    → IsArray 16 file.tag
    → IsU32 (length file.ciphertext)
    → decode_sealed (sealed_bytes file)
      ≡ (if ltb max_ciphertext_length (length file.ciphertext) then err history_format else ok file)
unfolding decode_sealed decoded read_sealed read_ciphertext Reader.◌>>=◌ Reader.check
    Reader.fixed_id Reader.require_finished Reader.pure
decode_sealed-sealed_bytes file n t l =
    let size = length file.ciphertext in
    let small : size % 4294967296 ≡ size = omega arith in
    let body = file.ciphertext ++ file.tag in
    let sized = big_endian 4 size ++ body in
    rw
      (
        small,
        reads_take 4 history_magic (big_endian 2 1 ++ (file.nonce ++ sized)) refl,
        reads_u16 1 (file.nonce ++ sized) (omega arith),
        reads_take 12 file.nonce sized n.size,
        reads_u32 size body l,
      )
      (elim (Bool-cases (ltb max_ciphertext_length size)) [
        | inl p ↦ rw p refl
        | inr p ↦
            rw (p, reads_take size file.ciphertext file.tag refl, reads_rest 16 file.tag t.size)
              refl
      ])

ok_same : {A : Type 0} {a b : A} → ok a ≡ ok b → a ≡ b
ok_same e = cc

-- If the cipher calls are as documented, then the file that persist writes of at most 4096
-- entries, whose outcomes are ones that have a name, whose other fields are values of their types
-- and whose payload has a length that fits an int, opens to those entries when the payload has at
-- most 64 MiB, and is refused with a format error when it is longer.
pub open_history-persist :
    (c : Aead) (key nonce : List ℕ) (entries : List CounterpartyHistoryEntry)
    {plaintext raw : List ℕ}
    → IsAead c
    → IsArray 12 nonce
    → All EntryInRange entries
    → length entries ≤ history_max_entries
    → encode_payload entries ≡ ok plaintext
    → IsIntLength plaintext
    → persist c key nonce entries ≡ ok raw
    → open_history c key raw
      ≡ (if ltb max_ciphertext_length (length plaintext) then err history_format else ok entries)
unfolding persist open_history
open_history-persist c key nonce entries {plaintext} {raw} sound n r l e s w =
    let ciphertext = sound.cipher key nonce plaintext in
    let tag = sound.tag key nonce history_aad plaintext in
    let size = sound.size key nonce plaintext in
    let file : DecodedFile = record { nonce = nonce; ciphertext = ciphertext; tag = tag } in
    let w₁ =
      rw
        (
          e,
          seal-ok c sound key nonce n b'T' (b'P' ∷ b'C' ∷ b'H' ∷ 0 ∷ 1 ∷ []) plaintext (omega arith)
              s,
        )
        at w in
    let written : raw ≡ sealed_bytes file = ok_same (sym w₁ ∙ write_sealed-ok file) in
    let read : decode_sealed raw
        ≡ (if ltb max_ciphertext_length (length plaintext) then err history_format else ok file) =
      ap decode_sealed written
      ∙ decode_sealed-sealed_bytes file n (sound.tag_size key nonce history_aad plaintext)
          (rw size (omega arith))
      ∙ ap (λ k. if ltb max_ciphertext_length k then err history_format else ok file) size in
    elim (Bool-cases (ltb max_ciphertext_length (length plaintext))) [
      | inl p ↦ rw p (let read₁ = rw p at read in rw read₁ refl)
      | inr p ↦ rw p (
          let read₁ = rw p at read in
          rw
            (
              read₁,
              open_sealed-cipher c sound key nonce n b'T' (b'P' ∷ b'C' ∷ b'H' ∷ 0 ∷ 1 ∷ [])
                  plaintext (omega arith) s,
              decode_payload-encode_payload entries r l e,
            )
            refl)
    ]
