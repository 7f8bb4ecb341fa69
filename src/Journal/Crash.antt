-- ===== src/Journal/Crash.antt =====
-- A crash while src/journal.cpp writes: what the files hold then, opened again.
use tradep2p.Base.{
  ℕ, zero, suc, ◌+◌, ◌<◌, ◌≤◌, ◌≡◌, ap, List, [], ◌∷◌, ◌++◌, append-nil, arith, length,
  length-append, ok, take,
}
use tradep2p.Crypto.{Primitives, IsSound}
use tradep2p.Protocol.Wire.Bytes.{IsU64}
use tradep2p.Journal.Types.{JournalEntryFields}
use tradep2p.Journal.Format.{max_record_body_length, record_kind_entry}
use tradep2p.Protocol.Wire.Writer.{Writer}
use tradep2p.Journal.Framing.{record_bytes, length-record_bytes, next_record-take}
use tradep2p.Journal.RoundTrip.{FieldsInRange}
use tradep2p.Journal.Store.{Journal, stamped, append}
use tradep2p.Journal.Replay.{Keys, open_journal}
use tradep2p.Journal.Appends.{append_stamped-eq-ok}
use tradep2p.Journal.Consistent.{Consistent, open_journal-Consistent, open_journal-torn_Consistent}
use tradep2p.Journal.Reopen.{replay_record-entry}
use tradep2p.Journal.Written.{Written, Written-Consistent, own_keys}

take-append_more :
    {A : Type 0} (xs ys : List A) (n : ℕ) → take (length xs + n) (xs ++ ys) ≡ xs ++ take n ys
take-append_more [] ys n = ap (λ k. take k ys) (omega arith)
take-append_more (x ∷ xs) ys n =
    let count : suc (length xs) + n ≡ suc (length xs + n) = omega arith in
    rw count (ap (λ t. x ∷ t) (take-append_more xs ys n))

module _ (c : Primitives) (keys : Keys) where
  -- A record of which `n` bytes are on the disk.
  cut_record :
      (j : Journal) (kind : ℕ) (body : List ℕ) (n : ℕ)
      → Consistent c keys j
      → length body ≤ max_record_body_length
      → length j.log + n < length (j.log ++ record_bytes kind body)
      → open_journal c keys (take (length j.log + n) (j.log ++ record_bytes kind body)) j.head
        ≡ ok j
  cut_record j kind body zero h l m =
      rw (take-append_more j.log (record_bytes kind body) 0, append-nil j.log)
        (open_journal-Consistent c keys j h)
  cut_record j kind body (suc n) h l m =
      rw (take-append_more j.log (record_bytes kind body) (suc n)) (
        open_journal-torn_Consistent c keys j _ h (
          next_record-take kind body n l (
            omega (
              arith,
              m,
              length-record_bytes kind body,
              length-append j.log (record_bytes kind body),
            ))))

module _ (c : Primitives) (seed seed_mldsa65 : List ℕ) where
  -- If a crash leaves any number of bytes of the record that an append writes, but not all of
  -- them, then the files of a written journal open to the journal before the append; the digest
  -- and the signatures are as documented.
  pub open_journal-append_cut :
      (now : ℕ) (fields : JournalEntryFields) (j t : Journal) (n : ℕ)
      → IsSound c
      → Written c seed seed_mldsa65 j
      → IsU64 (length j.entries)
      → FieldsInRange (stamped c now fields)
      → append c now fields j ≡ ok t
      → length j.log + n < length t.log
      → open_journal c (own_keys c seed seed_mldsa65) (take (length j.log + n) t.log) t.head ≡ ok j
  unfolding append
  open_journal-append_cut now fields j t n sound w i r e l =
      let keys = own_keys c seed seed_mldsa65 in
      let h = Written-Consistent c seed seed_mldsa65 j sound w in
      let (content, legal, encoded, q) = append_stamped-eq-ok c (stamped c now fields) j e in
      let (replayed, short) =
        replay_record-entry c keys j (stamped c now fields) sound i r h.chain_head encoded legal in
      rw q (cut_record c keys j record_kind_entry _ n h short (rw q at l))
