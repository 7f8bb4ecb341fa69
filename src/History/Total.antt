-- ===== src/History/Total.antt =====
-- A history within the limits of include/tradep2p/history.hpp can always be written (src/history.cpp).
use tradep2p.Base.{
  ◌+◌, ◌<◌, length-append, ℕ, ◌≤◌, ◌≡◌, refl, List, [], ◌∷◌, ◌++◌, arith, length, All, Result, ok,
}
use tradep2p.Crypto.{Aead, IsAead}
use tradep2p.Protocol.Wire.Bytes.{big_endian, IsArray}
use tradep2p.History.Cipher.{seal-ok}
use tradep2p.History.Size.{total, note_size, entry_size}
use tradep2p.Protocol.Wire.Writer
use tradep2p.Protocol.Wire.Writer.{Writer, ◌>>◌, written}
use tradep2p.History.Types.{
  HistoryNote, CounterpartyHistoryEntry, history_max_note_length, history_max_mediator_id_length,
}
use tradep2p.History.Format.{
  persist, encode_payload, write_payload, encode_history_entry, append_note, append_outcome,
  too_many, outcome_to_u8, confidence_to_u8, flag_byte, DecodedFile, history_aad,
}
use tradep2p.History.RoundTrip.{sealed_bytes, write_sealed-ok}
use tradep2p.History.Reopen.{IsKept, IsStored}

-- A writer that does not throw, whatever was written before, and the bytes that it adds.
record Writes (w : Writer) (size : ℕ) : Type 0 where
  apply :
      (out : List ℕ)
      → (result : List ℕ) × ((w out ≡ ok result) × (length result ≡ length out + size))

then-Writes : (w v : Writer) {n m : ℕ} → Writes w n → Writes v m → Writes (w >> v) (n + m)
unfolding Writer.◌>>◌
then-Writes w v a b = record {
  apply = λ out.
      (let (first, (e, l)) = a.apply out in
        let (second, (f, k)) = b.apply first in (second, (rw e f, omega arith)));
}

sized-Writes : (w : Writer) {n m : ℕ} → n ≡ m → Writes w n → Writes w m
sized-Writes w e a = record {
  apply = λ out. (let (result, (f, l)) = a.apply out in (result, (f, omega arith)));
}

check-Writes : (r : Result (Unit {0})) → r ≡ ok tt → Writes (Writer.check r) 0
unfolding Writer.check
check-Writes r e = record { apply = λ out. (out, (rw e refl, omega arith)) }

each-Writes :
    {A : Type 0} (P : A → Type 0) (w : A → Writer) (size : A → ℕ)
    → ((a : A) → P a → Writes (w a) (size a))
    → (xs : List A) → All P xs
    → Writes (Writer.each w xs) (total size xs)
unfolding Writer.each Writer.nothing
each-Writes P w size f [] h = record { apply = λ out. (out, (refl, omega arith)) }
each-Writes P w size f (x ∷ xs) h =
    then-Writes (w x) (Writer.each w xs) (f x h.0) (each-Writes P w size f xs h.1)

u8-Writes : (v : ℕ) → Writes (Writer.u8 v) 1
unfolding Writer.u8
u8-Writes v = record { apply = λ out. (out ++ v ∷ [], (refl, length-append out (v ∷ []))) }

u16-Writes : (v : ℕ) → Writes (Writer.u16 v) 2
unfolding Writer.u16 big_endian
u16-Writes v = record {
  apply = λ out. (out ++ big_endian 2 v, (refl, length-append out (big_endian 2 v)));
}

u32-Writes : (v : ℕ) → Writes (Writer.u32 v) 4
unfolding Writer.u32 big_endian
u32-Writes v = record {
  apply = λ out. (out ++ big_endian 4 v, (refl, length-append out (big_endian 4 v)));
}

u64-Writes : (v : ℕ) → Writes (Writer.u64 v) 8
unfolding Writer.u64 big_endian
u64-Writes v = record {
  apply = λ out. (out ++ big_endian 8 v, (refl, length-append out (big_endian 8 v)));
}

fixed_id-Writes : (v : List ℕ) → Writes (Writer.fixed_id v) (length v)
unfolding Writer.fixed_id
fixed_id-Writes v = record { apply = λ out. (out ++ v, (refl, length-append out v)) }

short_string-Writes :
    (v : List ℕ) (maximum : ℕ)
    → length v ≤ maximum
    → length v ≤ 65535
    → Writes (Writer.short_string v maximum) (2 + length v)
unfolding Writer.short_string
short_string-Writes v maximum a b = sized-Writes _ (omega arith) (
    then-Writes _ _ (check-Writes _ (ground arith)) (
      then-Writes _ _ (u16-Writes (length v))
        (record { apply = λ out. (out ++ v, (refl, length-append out v)) })))

too_many-Writes :
    {A : Type 0} (xs : List A) → length xs ≤ 4096 → Writes (Writer.check (too_many xs)) 0
too_many-Writes xs l = check-Writes (too_many xs) (ground arith)

append_note-Writes :
    (note : HistoryNote)
    → length note.text ≤ history_max_note_length
    → Writes (append_note note) (note_size note)
unfolding append_note
append_note-Writes note l =
    then-Writes _ _ (u64-Writes note.recorded_at)
      (short_string-Writes note.text history_max_note_length l (omega arith))

trivial_all : {A : Type 0} (xs : List A) → All (λ x. Unit {0}) xs
trivial_all [] = tt
trivial_all (x ∷ xs) = (tt, trivial_all xs)

encode_history_entry-Writes :
    (entry : CounterpartyHistoryEntry)
    → IsKept entry
    → Writes (encode_history_entry entry) (entry_size entry)
unfolding encode_history_entry
encode_history_entry-Writes entry k = sized-Writes _ (omega arith) (
    then-Writes _ _ (fixed_id-Writes entry.fingerprint) (
      then-Writes _ _ (u8-Writes 1) (
        then-Writes _ _
          (short_string-Writes entry.mediator_id history_max_mediator_id_length k.mediator_id
            (let m = k.mediator_id in omega arith))
          (then-Writes _ _ (u64-Writes entry.first_seen) (
            then-Writes _ _ (u64-Writes entry.last_seen) (
              then-Writes _ _ (u64-Writes entry.encounter_count) (
                then-Writes _ _ (too_many-Writes entry.outcome_labels k.outcome_labels) (
                  then-Writes _ _ (u16-Writes (length entry.outcome_labels)) (
                    then-Writes _ _
                      (each-Writes _ append_outcome (λ _. 1) (λ o u. u8-Writes (outcome_to_u8 o))
                        entry.outcome_labels (trivial_all entry.outcome_labels))
                      (then-Writes _ _ (u8-Writes (flag_byte entry.locally_blocked)) (
                        then-Writes _ _
                          (too_many-Writes entry.notes (let m = k.notes in omega arith))
                          (then-Writes _ _ (u16-Writes (length entry.notes)) (
                            then-Writes _ _
                              (each-Writes _ append_note note_size append_note-Writes entry.notes
                                k.texts)
                              (then-Writes _ _
                                (too_many-Writes entry.evidence_hashes
                                  (let m = k.evidence_hashes in omega arith))
                                (then-Writes _ _ (u16-Writes (length entry.evidence_hashes)) (
                                  then-Writes _ _
                                    (each-Writes _ Writer.fixed_id length (λ h u. fixed_id-Writes h)
                                      entry.evidence_hashes (trivial_all entry.evidence_hashes))
                                    (u8-Writes (confidence_to_u8 entry.confidence))))))))))))))))))

write_payload-Writes :
    (entries : List CounterpartyHistoryEntry)
    → IsStored entries
    → Writes (write_payload entries) (4 + total entry_size entries)
unfolding write_payload
write_payload-Writes entries s =
    let l = s.count in
    sized-Writes _ (omega arith) (
      then-Writes _ _ (check-Writes _ (ground arith)) (
        then-Writes _ _ (u32-Writes (length entries)) (
          each-Writes IsKept encode_history_entry entry_size encode_history_entry-Writes entries
            s.each)))

-- A history within the limits is encoded, in so many bytes.
pub encode_payload-total :
    (entries : List CounterpartyHistoryEntry)
    → IsStored entries
    → (plaintext : List ℕ) × ((encode_payload entries ≡ ok plaintext)
        × (length plaintext ≡ 4 + total entry_size entries))
unfolding encode_payload Writer.written
encode_payload-total entries s =
    let (result, (e, l)) = (write_payload-Writes entries s).apply [] in (result, (e, omega arith))

-- If the payload is not too long for the cipher, the file is made.
pub persist-total :
    (c : Aead) (key nonce : List ℕ) (entries : List CounterpartyHistoryEntry)
    → IsAead c
    → IsArray 12 nonce
    → IsStored entries
    → 4 + total entry_size entries < 2147483648
    → (raw : List ℕ) × (persist c key nonce entries ≡ ok raw)
unfolding persist
persist-total c key nonce entries sound n s small =
    let (plaintext, (e, l)) = encode_payload-total entries s in
    let file : DecodedFile = record {
      nonce = nonce;
      ciphertext = sound.cipher key nonce plaintext;
      tag = sound.tag key nonce history_aad plaintext;
    } in
    (
      sealed_bytes file,
      rw
          (
            e,
            seal-ok c sound key nonce n b'T' (b'P' ∷ b'C' ∷ b'H' ∷ 0 ∷ 1 ∷ []) plaintext
                (omega arith) (omega arith),
          )
          (write_sealed-ok file),
    )
