-- ===== src/Journal/RoundTrip.antt =====
-- The bodies of the records of a journal and its head file (src/journal.cpp), written and then read.
use tradep2p.Base.{
  ℕ, suc, ◌+◌, ◌≤◌, ◌≡◌, refl, sym, ap, ◌∙◌, List, [], ◌++◌, append_assoc, append-nil, arith,
  length, length-append, take-append_exact, ltb, throw_if, ok, Result, invalid_argument, ◌⊎◌, inl,
  inr,
}
use tradep2p.Protocol.Wire.Bytes.{IsArray, IsU16, IsU32, IsU64}
use tradep2p.Protocol.Wire.Writer
use tradep2p.Protocol.Wire.Writer.{◌>>◌, written}
use tradep2p.Protocol.Wire.Reader
use tradep2p.Protocol.Wire.Reader.{decoded}
use tradep2p.Protocol.Wire.RoundTrip.{
  RoundTrip, Yields, rt_seq, rt_last, rt_checked, rt_check, Yields-finished, Yields-pure,
  decoded-written, reads_take, reads_rest, rt_u8, rt_u16, rt_u32, rt_u64, rt_id, rt_raw, unguarded,
}
use tradep2p.RoomPersistence.{session_state_to_u8, session_state_of_u8}
use tradep2p.Journal.Types.{
  JournalEntryFields, journal_max_mediator_id_length, journal_checkpoint_suite_ed25519_v1,
  journal_checkpoint_suite_ml_dsa65_v1,
}
use tradep2p.Journal.Format.{
  max_record_body_length, head_magic, format_errors, direction_to_u8, direction_of_u8,
  ack_state_to_u8, ack_state_of_u8, bytes_u16, append_entry_content, append_fields,
  canonical_entry_bytes, decode_entry_fields, read_entry_content, with_bytes, read_entry_body,
  expected_checkpoint_signature_length, HeadPointer, append_checkpoint, append_suite_checkpoint,
  bytes_remaining, read_suite_signature, read_checkpoint, read_suite_checkpoint, encode_head,
  read_versioned_head, read_head, decode_head,
}

-- The values of the C++ types: an enumeration holds one byte.
pub record FieldsInRange (fields : JournalEntryFields) : Type 0 where
  pub version : IsU16 fields.version
  pub room_id : IsArray 32 fields.room_id
  pub trade_id : IsArray 16 fields.trade_id
  pub counterparty_fingerprint : IsArray 32 fields.counterparty_fingerprint
  pub terms_commitment : IsArray 32 fields.terms_commitment
  pub round : IsU32 fields.round
  pub direction : direction_of_u8 (direction_to_u8 fields.direction) ≡ fields.direction
  pub message_type : IsU16 fields.message_type
  pub message_hash : IsArray 32 fields.message_hash
  pub ack_state : ack_state_of_u8 (ack_state_to_u8 fields.ack_state) ≡ fields.ack_state
  pub local_state :
      session_state_of_u8 (session_state_to_u8 fields.local_state) ≡ fields.local_state
  pub timestamp : IsU64 fields.timestamp

rt_bytes_u16 :
    (xs : List ℕ) (maximum : ℕ)
    → length xs ≤ maximum
    → maximum ≤ 65535
    → (rest : List ℕ) → RoundTrip (bytes_u16 xs) (Reader.short_string maximum) xs (2 + maximum) rest
unfolding bytes_u16 Writer.short_string Reader.short_string
rt_bytes_u16 xs maximum h m rest = rt_checked λ _.
    rt_seq _ (rt_u16 (length xs) (omega arith))
      (rt_check _ (unguarded (length xs) maximum h) (rt_raw xs maximum (length xs) refl h rest))

within : (n m : ℕ) → throw_if (ltb m n) invalid_argument ≡ ok tt → n ≤ m
within n m e = ground arith

rt_entry_content :
    (index : ℕ) (fields : JournalEntryFields)
    → IsU64 index
    → FieldsInRange fields
    → (rest : List ℕ)
    → RoundTrip
        (append_entry_content index fields)
        read_entry_content
        (record { index = index; fields = fields })
        429
        rest
unfolding append_entry_content append_fields read_entry_content decode_entry_fields
rt_entry_content index fields i r rest = rt_checked λ h. rt_seq _ (rt_u64 index i) (
    rt_last _
      (λ more. rt_seq _ (rt_u16 fields.version r.version) (
        rt_seq _ (rt_id 32 fields.room_id r.room_id) (
          rt_seq _ (rt_id 16 fields.trade_id r.trade_id) (
            rt_seq _
              (rt_bytes_u16 fields.mediator_id journal_max_mediator_id_length (within _ _ h)
                (omega arith))
              (rt_seq _ (rt_id 32 fields.counterparty_fingerprint r.counterparty_fingerprint) (
                rt_seq _ (rt_id 32 fields.terms_commitment r.terms_commitment) (
                  rt_seq _ (rt_u32 fields.round r.round) (
                    rt_seq _ (rt_u8 (direction_to_u8 fields.direction)) (
                      rt_seq _ (rt_u16 fields.message_type r.message_type) (
                        rt_seq _ (rt_id 32 fields.message_hash r.message_hash) (
                          rt_seq _ (rt_u8 (ack_state_to_u8 fields.ack_state)) (
                            rt_seq _ (rt_u8 (session_state_to_u8 fields.local_state)) (
                              rt_last _ (rt_u64 fields.timestamp r.timestamp) (
                                rw (r.direction, r.ack_state, r.local_state)
                                  (Yields-pure fields more)))))))))))))))
      (Yields-pure _ rest))

-- A reader with the bytes that it took.
with_bytes-eq_ok {ℓ} :
    {A : Type ℓ} (r : Reader.Reader A) (bs rest : List ℕ) {a : A}
    → r (bs ++ rest) ≡ ok (a, rest)
    → with_bytes r (bs ++ rest) ≡ ok ((a, bs), rest)
unfolding with_bytes
with_bytes-eq_ok r bs rest {a} e = rw e (
    ap (λ t. ok ((a, t), rest))
      (take-append_exact bs rest _ (omega (arith, length-append bs rest))))

-- The body of an entry is read back, with the bytes that were hashed; it is at most 493 bytes.
pub read_entry_body-canonical_entry_bytes :
    (index : ℕ) (fields : JournalEntryFields) {content previous_hash entry_hash : List ℕ}
    → IsU64 index
    → FieldsInRange fields
    → canonical_entry_bytes index fields ≡ ok content
    → IsArray 32 previous_hash
    → IsArray 32 entry_hash
    → (decoded read_entry_body (content ++ previous_hash ++ entry_hash)
        ≡ ok (record {
          content = record { index = index; fields = fields };
          content_bytes = content;
          previous_hash = previous_hash;
          entry_hash = entry_hash;
        }))
      × (length content ≤ 429)
unfolding canonical_entry_bytes written decoded read_entry_body Reader.◌>>=◌ Reader.fixed_id
    Reader.require_finished Reader.pure
read_entry_body-canonical_entry_bytes index fields {content} {previous_hash} {entry_hash} i r e p
      h =
    let (bs, q, l, back) =
      (rt_entry_content index fields i r (previous_hash ++ entry_hash)).apply [] _ e in
    let taken = with_bytes-eq_ok read_entry_content bs (previous_hash ++ entry_hash) back in
    let first = reads_take 32 previous_hash entry_hash p.size in
    let second = reads_rest 32 entry_hash h.size in
    (rw (q, append_assoc bs previous_hash entry_hash, taken, first, second) refl, rw q l)

-- The two checkpoint records.
pub record CheckpointInRange (head : HeadPointer) : Type 0 where
  pub index : IsU64 head.index
  pub hash : IsArray 32 head.hash
  pub signed_at : IsU64 head.signed_at

-- A checkpoint with its signature of 64 bytes is of the first suite.
rt_checkpoint :
    (head : HeadPointer)
    → CheckpointInRange head
    → IsArray 64 head.signature
    → RoundTrip
        (append_checkpoint head)
        read_checkpoint
        (record head { suite_id = journal_checkpoint_suite_ed25519_v1 })
        112
        []
unfolding append_checkpoint read_checkpoint
rt_checkpoint head r g = rt_seq _ (rt_u64 head.index r.index) (
    rt_seq _ (rt_id 32 head.hash r.hash) (
      rt_seq _ (rt_u64 head.signed_at r.signed_at)
        (rt_last _ (rt_id 64 head.signature g) (Yields-finished _ (Yields-pure _ [])))))

-- The signature is what remains, and its length is checked.
rt_suite_signature :
    (suite_id n : ℕ) (signature : List ℕ)
    → expected_checkpoint_signature_length suite_id ≡ n
    → length signature ≡ n
    → RoundTrip (Writer.fixed_id signature) (read_suite_signature suite_id) signature n []
unfolding Writer.fixed_id read_suite_signature bytes_remaining Reader.◌>>=◌ Reader.check Reader.pure
rt_suite_signature suite_id n signature s h = record {
  apply = λ out out' e.
      (signature, ground arith, omega arith, rw (append-nil signature, s, h) (ground arith));
}

rt_end {ℓ κ} :
    {A : Type ℓ} {B : Type κ} {w : Writer.Writer} {r : Reader.Reader A} (k : A → Reader.Reader B)
    {a : A} {b : B} {n : ℕ}
    → RoundTrip w r a n []
    → Yields (k a) b []
    → RoundTrip w (Reader.◌>>=◌ r k) b n []
unfolding Reader.◌>>=◌
rt_end k f y = record {
  apply = λ out out' e. let (bs, p, l, q) = f.apply out out' e in (bs, p, l, rw q y.apply);
}

rt_suite_checkpoint :
    (head : HeadPointer) (n : ℕ)
    → CheckpointInRange head
    → IsU16 head.suite_id
    → expected_checkpoint_signature_length head.suite_id ≡ suc n
    → length head.signature ≡ suc n
    → RoundTrip
        (append_suite_checkpoint head)
        read_suite_checkpoint
        head
        (2 + (8 + (32 + (8 + suc n))))
        []
unfolding append_suite_checkpoint append_checkpoint read_suite_checkpoint
rt_suite_checkpoint head n r s l g = rt_seq _ (rt_u16 head.suite_id s) (
    rt_seq _ (rt_u64 head.index r.index) (
      rt_seq _ (rt_id 32 head.hash r.hash) (
        rt_seq _ (rt_u64 head.signed_at r.signed_at) (
          rt_check _ (ground arith) (
            rt_end _ (rt_suite_signature head.suite_id (suc n) head.signature l g)
              (Yields-pure head []))))))

-- What a checkpoint of a suite holds: the length of its signature.
pub record IsSigned (head : HeadPointer) : Type 0 where
  pub in_range : CheckpointInRange head
  pub suite :
      (head.suite_id ≡ journal_checkpoint_suite_ed25519_v1)
      ⊎ (head.suite_id ≡ journal_checkpoint_suite_ml_dsa65_v1)
  pub signature : IsArray (expected_checkpoint_signature_length head.suite_id) head.signature

head_magic-IsArray : IsArray 4 head_magic
head_magic-IsArray = ground arith

of_suite :
    (head : HeadPointer) (suite_id : ℕ)
    → head.suite_id ≡ suite_id
    → (record head { suite_id = suite_id }) ≡ head
of_suite head suite_id s = ap (λ t. record head { suite_id = t }) (sym s)

-- The head file of either version.
rt_head_v1 :
    (head : HeadPointer)
    → CheckpointInRange head
    → IsArray 64 head.signature
    → RoundTrip
        (do Writer.fixed_id head_magic; Writer.u16 1; append_checkpoint head)
        read_head
        (record head { suite_id = journal_checkpoint_suite_ed25519_v1 })
        118
        []
unfolding read_head read_versioned_head
rt_head_v1 head h g =
    rt_seq _ (rt_id 4 head_magic head_magic-IsArray)
      (rt_check _ refl (rt_seq _ (rt_u16 1 (omega arith)) (rt_checkpoint head h g)))

rt_head_v2 :
    (head : HeadPointer)
    → CheckpointInRange head
    → head.suite_id ≡ journal_checkpoint_suite_ml_dsa65_v1
    → IsArray 3309 head.signature
    → RoundTrip
        (do Writer.fixed_id head_magic; Writer.u16 2; append_suite_checkpoint head)
        read_head
        head
        3365
        []
unfolding read_head read_versioned_head expected_checkpoint_signature_length
rt_head_v2 head h s g = rt_seq _ (rt_id 4 head_magic head_magic-IsArray) (
    rt_check _ refl (
      rt_seq _ (rt_u16 2 (omega arith)) (
        rt_end _ (rt_suite_checkpoint head 3308 h (omega arith) (rw s refl) g.size)
          (Yields-finished _ (Yields-pure head [])))))

encode_head_v1 :
    (head : HeadPointer)
    → head.suite_id ≡ journal_checkpoint_suite_ed25519_v1
    → encode_head head ≡ written do Writer.fixed_id head_magic; Writer.u16 1; append_checkpoint head
unfolding encode_head
encode_head_v1 head s = rw s refl

encode_head_v2 :
    (head : HeadPointer)
    → head.suite_id ≡ journal_checkpoint_suite_ml_dsa65_v1
    → encode_head head
      ≡ written do Writer.fixed_id head_magic; Writer.u16 2; append_suite_checkpoint head
unfolding encode_head append_suite_checkpoint
encode_head_v2 head s = rw s refl

format_errors-ok {ℓ} : {A : Type ℓ} {r : Result A} {a : A} → r ≡ ok a → format_errors r ≡ ok a
format_errors-ok e = rw e refl

-- If a head pointer of one of the two suites, whose fields are in the range of their types and
-- whose signature has the length of the suite, can be encoded, the bytes decode to it.
pub decode_head-encode_head :
    (head : HeadPointer) {bs : List ℕ}
    → IsSigned head
    → encode_head head ≡ ok bs
    → decode_head bs ≡ ok head
unfolding decode_head expected_checkpoint_signature_length
decode_head-encode_head head {bs} h e = elim h.suite [
  | inl s ↦ format_errors-ok (
      (decoded-written _ read_head {limit = 118} (sym (encode_head_v1 head s) ∙ e)
        (rt_head_v1 head h.in_range (rw s at h.signature)) (omega arith)).0
      ∙ ap ok (of_suite head _ s))
  | inr s ↦
      format_errors-ok
        (decoded-written _ read_head {limit = 3365} (sym (encode_head_v2 head s) ∙ e)
          (rt_head_v2 head h.in_range s (rw s at h.signature)) (omega arith)).0
]

-- The bodies of the two checkpoint records.
pub read_checkpoint-append_checkpoint :
    (head : HeadPointer) {body : List ℕ}
    → CheckpointInRange head
    → IsArray 64 head.signature
    → written (append_checkpoint head) ≡ ok body
    → (decoded read_checkpoint body
        ≡ ok (record head { suite_id = journal_checkpoint_suite_ed25519_v1 }))
      × (length body ≤ max_record_body_length)
read_checkpoint-append_checkpoint head r g e =
    decoded-written _ _ e (rt_checkpoint head r g) (omega arith)

pub read_suite_checkpoint-append_suite_checkpoint :
    (head : HeadPointer) {body : List ℕ}
    → CheckpointInRange head
    → head.suite_id ≡ journal_checkpoint_suite_ml_dsa65_v1
    → IsArray 3309 head.signature
    → written (append_suite_checkpoint head) ≡ ok body
    → (decoded read_suite_checkpoint body ≡ ok head) × (length body ≤ max_record_body_length)
unfolding expected_checkpoint_signature_length
read_suite_checkpoint-append_suite_checkpoint head r s g e =
    decoded-written _ _ e (rt_suite_checkpoint head 3308 r (omega arith) (rw s refl) g.size)
      (omega arith)
