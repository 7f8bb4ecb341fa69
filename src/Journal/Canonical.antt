-- ===== src/Journal/Canonical.antt =====
-- What the replay of src/journal.cpp reads of an entry: the bytes it hashes are the canonical bytes
-- of the fields.
use tradep2p.Base.{
  ℕ, ◌-◌, ◌≤◌, ◌≡◌, sym, ap, subst, List, ◌++◌, arith, length, length-append, take,
  take-append_exact, ok, bind-eq-ok,
}
use tradep2p.Protocol.Wire.Bytes.{IsBytes, IsArray, IsU64}
use tradep2p.Protocol.Wire.Writer
use tradep2p.Protocol.Wire.Writer.{written}
use tradep2p.Protocol.Wire.Reader
use tradep2p.Protocol.Wire.Reader.{Reader, decoded}
use tradep2p.Protocol.Wire.Canonical.{
  Writes, Reads, wr_seq, wr_last, wr_checked, rd_seq, rd_check, rd_pure, rd_weaken, rd_take, ra_seq,
  ra_finished, rn_pure, rd_u8, rd_u16, rd_u32, rd_u64, rd_id, written_of_Writes,
  decoded_of_ReadsAll,
}
use tradep2p.RoomPersistence.{session_state_to_u8, session_state_of_u8}
use tradep2p.Journal.Types.{journal_max_mediator_id_length}
use tradep2p.Journal.Format.{
  direction_to_u8, direction_of_u8, ack_state_to_u8, ack_state_of_u8, bytes_u16, append_fields,
  append_entry_content, canonical_entry_bytes, decode_entry_fields, read_entry_content, with_bytes,
  EntryBody, read_entry_body,
}
use tradep2p.Journal.RoundTrip.{FieldsInRange}

direction_back : (n : ℕ) → direction_to_u8 (direction_of_u8 n) ≡ n
unfolding direction_to_u8 direction_of_u8
direction_back n = ground arith

ack_state_back : (n : ℕ) → ack_state_to_u8 (ack_state_of_u8 n) ≡ n
unfolding ack_state_to_u8 ack_state_of_u8
ack_state_back n = ground arith

session_state_back : (n : ℕ) → session_state_to_u8 (session_state_of_u8 n) ≡ n
unfolding session_state_to_u8 session_state_of_u8
session_state_back n = ground arith

rd_string_u16 :
    (maximum : ℕ)
    → maximum ≤ 65535
    → Reads
        (Reader.short_string maximum)
        (λ xs bs. (length xs ≤ maximum) × Writes (bytes_u16 xs) bs)
unfolding Reader.short_string bytes_u16 Writer.short_string
rd_string_u16 maximum m = rd_seq _ rd_u16 λ n bs (h, w). rd_check _ λ e.
    rd_weaken (rd_take n) λ xs cs (p, a). (
      ground (arith, a.size),
      wr_checked (ground (arith, a.size))
          (wr_seq (rw a.size w) (record { apply = λ out. ap (λ t. ok (out ++ t)) (sym p) })),
    )

rd_fields : Reads decode_entry_fields (λ fields bs.
    FieldsInRange fields
    × (length fields.mediator_id ≤ journal_max_mediator_id_length)
    × Writes (append_fields fields) bs)
unfolding decode_entry_fields append_fields
rd_fields = rd_seq _ rd_u16 λ version _ (r1, w1). rd_seq _ (rd_id 32) λ room_id _ (r2, w2).
    rd_seq _ (rd_id 16) λ trade_id _ (r3, w3).
      rd_seq _ (rd_string_u16 journal_max_mediator_id_length (omega arith))
        λ mediator_id _ (r4, w4). rd_seq _ (rd_id 32) λ counterparty_fingerprint _ (r5, w5).
          rd_seq _ (rd_id 32) λ terms_commitment _ (r6, w6). rd_seq _ rd_u32 λ round _ (r7, w7).
            rd_seq _ rd_u8 λ direction _ (r8, w8). rd_seq _ rd_u16 λ message_type _ (r9, w9).
              rd_seq _ (rd_id 32) λ message_hash _ (r10, w10).
                rd_seq _ rd_u8 λ ack_state _ (r11, w11). rd_seq _ rd_u8 λ local_state _ (r12, w12).
                  rd_seq _ rd_u64 λ timestamp _ (r13, w13). rd_pure _ (
                    record {
                      version = r1;
                      room_id = r2;
                      trade_id = r3;
                      counterparty_fingerprint = r5;
                      terms_commitment = r6;
                      round = r7;
                      direction = ap direction_of_u8 (direction_back direction);
                      message_type = r9;
                      message_hash = r10;
                      ack_state = ap ack_state_of_u8 (ack_state_back ack_state);
                      local_state = ap session_state_of_u8 (session_state_back local_state);
                      timestamp = r13;
                    },
                    r4,
                    wr_seq w1 (
                        wr_seq w2 (
                          wr_seq w3 (
                            wr_seq w4 (
                              wr_seq w5 (
                                wr_seq w6 (
                                  wr_seq w7 (
                                    wr_seq (rw (direction_back direction) w8) (
                                      wr_seq w9 (
                                        wr_seq w10 (
                                          wr_seq (rw (ack_state_back ack_state) w11) (
                                            wr_seq (rw (session_state_back local_state) w12)
                                              (wr_last w13)))))))))))),
                  )

rd_entry_content : Reads read_entry_content (λ content bs.
    FieldsInRange content.fields
    × IsU64 content.index
    × Writes (append_entry_content content.index content.fields) bs)
unfolding read_entry_content append_entry_content
rd_entry_content = rd_seq _ rd_u64 λ index _ (r1, w1).
    rd_seq _ rd_fields
      λ fields _ (r2, l, w2). rd_pure _ (r2, r1, wr_checked (ground arith) (wr_seq w1 (wr_last w2)))

rd_with_bytes {ℓ κ} :
    {A : Type ℓ} {r : Reader A} {Q : A → List ℕ → Type κ}
    → Reads r Q
    → Reads (with_bytes r) (λ (a, taken) bs. (taken ≡ bs) × Q a bs)
unfolding with_bytes
rd_with_bytes {A} {r} {Q} f = record {
  apply = λ input {a} {rest} h e.
      let ((a₁, rest₁), e₁, e₂) = bind-eq-ok (r input) _ e in
      let (bs, p, hr, q) = f.apply input h e₁ in
      let size = length-append bs rest₁ in
      let taken : take (length input - length rest₁) input ≡ bs =
        rw p (take-append_exact bs rest₁ _ (omega arith)) in
      subst
        (λ (x : (A × List ℕ) × List ℕ).
          (bs : List ℕ) × (input ≡ bs ++ x.1) × IsBytes x.1 × ((x.0.1 ≡ bs) × Q x.0.0 bs))
        (cc) (bs, p, hr, (taken, q));
}

-- An entry that the replay reads: the bytes that it hashes are canonical.
pub record IsCanonical (entry : EntryBody) : Type 0 where
  pub fields : FieldsInRange entry.content.fields
  pub index : IsU64 entry.content.index
  pub content :
      canonical_entry_bytes entry.content.index entry.content.fields ≡ ok entry.content_bytes
  pub previous_hash : IsArray 32 entry.previous_hash
  pub entry_hash : IsArray 32 entry.entry_hash

pub decoded-IsCanonical :
    (body : List ℕ) {entry : EntryBody}
    → IsBytes body
    → decoded read_entry_body body ≡ ok entry
    → IsCanonical entry
unfolding read_entry_body canonical_entry_bytes
decoded-IsCanonical body h e =
    decoded_of_ReadsAll _ {Q = λ entry bs. IsCanonical entry} body
      (ra_seq _ (rd_with_bytes rd_entry_content) λ content _ (same, (r1, r2, w)).
        ra_seq _ (rd_id 32) λ previous_hash _ (r3, _). ra_seq _ (rd_id 32) λ entry_hash _ (r4, _).
          ra_finished _ (
            rn_pure _ (record {
              fields = r1;
              index = r2;
              content = rw same (written_of_Writes w);
              previous_hash = r3;
              entry_hash = r4;
            })))
      h e
