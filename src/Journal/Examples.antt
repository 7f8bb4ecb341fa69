-- ===== src/Journal/Examples.antt =====
-- A journal of one entry and one checkpoint (src/journal.cpp), on which the theorems are applied. Its
-- digests and signatures are short functions of the length of the message.
use tradep2p.Base.{
  ℕ, ◌%◌, ◌≡◌, ◌⊎◌, inl, refl, List, [], ◌∷◌, true, false, Option, some, none, ok, err, Result,
  arith, length, replicate, bytes_eq, bytes_eq_refl, all, ltb, take, ◌+◌, ◌++◌,
}
use tradep2p.Crypto.{Primitives, IsSound}
use tradep2p.Protocol.Wire.Bytes.{IsBytes, replicate-IsArray, big_endian}
use tradep2p.Protocol.Wire.Writer
use tradep2p.RoomPersistence.{session_state_to_u8, session_state_of_u8}
use tradep2p.Protocol.Types.{Party}
use tradep2p.Protocol.Tranche.{other_party}
use tradep2p.Protocol.Validate.{validate_party}
use tradep2p.Mediator.Session.{
  SessionState, MediatorSession, FeePosition, validate_signal, current_sender, current_receiver,
  sender_in, leg_sender, first_sender_for_round,
}
use tradep2p.Mediator.Step.{
  Event, step, receiver_reported_received, advance_after_receipt, after_first_leg, after_second_leg,
}
use tradep2p.Mediator.Invariant.{IsValid}
use tradep2p.Journal.Transitions.{HasEarlyFee, step-is_valid_transition}
use tradep2p.Journal.Types.{MessageDirection, AcknowledgementState, JournalEntryFields}
use tradep2p.Journal.Format.{
  HeadPointer, encode_head, decode_head, expected_checkpoint_signature_length, append_checkpoint,
  checkpoint_signed_bytes, canonical_entry_bytes, append_entry_content, append_fields, bytes_u16,
  direction_to_u8, direction_of_u8, ack_state_to_u8, ack_state_of_u8, frame,
}
use tradep2p.Journal.RoundTrip.{FieldsInRange, IsSigned, decode_head-encode_head}
use tradep2p.Journal.Store.{
  Journal, empty_journal, stamped, append, append_stamped, check_transition, checkpoint,
  record_checkpoint, is_valid_transition,
}
use tradep2p.Journal.Replay.{open_journal}
use tradep2p.Journal.Linked.{Linked}
use tradep2p.Journal.Tamper.{open_journal-Linked, open_journal-IsCovered, IsCovered}
use tradep2p.Journal.Collision.{Clash, open_journal-same_chain_head}
use tradep2p.Journal.Crash.{open_journal-append_cut}
use tradep2p.Journal.Written.{Written, own_keys, open_journal-Written}

abbrev digest_of : List ℕ → ℕ
digest_of m = length m % 256

abbrev toy : Primitives
toy = record {
  sha256 = λ m. replicate 32 (digest_of m);
  ed25519_public = λ seed. seed;
  ed25519_sign = λ seed m. replicate 64 (digest_of m);
  ed25519_verify = λ key m signature. bytes_eq signature (replicate 64 (digest_of m));
  mldsa65_public = λ seed. seed;
  mldsa65_sign = λ seed m. replicate 3309 (digest_of m);
  mldsa65_verify = λ key m signature. bytes_eq signature (replicate 3309 (digest_of m));
}

toy-IsSound : IsSound toy
toy-IsSound = record {
  sha256_size = λ m. replicate-IsArray 32 (digest_of m) (omega arith);
  ed25519_size = λ seed m. replicate-IsArray 64 (digest_of m) (omega arith);
  ed25519_correct = λ seed m. bytes_eq_refl (replicate 64 (digest_of m));
  mldsa65_size = λ seed m. replicate-IsArray 3309 (digest_of m) (omega arith);
  mldsa65_correct = λ seed m. bytes_eq_refl (replicate 3309 (digest_of m));
}

abbrev joined_fields : JournalEntryFields
joined_fields = record {
  version = 1;
  room_id = replicate 32 1;
  trade_id = replicate 16 2;
  mediator_id = b'm' ∷ [];
  counterparty_fingerprint = replicate 32 3;
  terms_commitment = replicate 32 4;
  round = 0;
  direction = MessageDirection.outbound;
  message_type = 5;
  message_hash = replicate 32 6;
  ack_state = AcknowledgementState.pending;
  local_state = SessionState.waiting_for_peer;
  timestamp = 0;
}

abbrev value_of : Result Journal → Journal
value_of (ok j) = j
value_of (err e) = empty_journal

abbrev one_entry : Journal
one_entry = value_of (append toy 1700 joined_fields empty_journal)

one_entry_appended : append toy 1700 joined_fields empty_journal ≡ ok one_entry
unfolding append append_stamped check_transition canonical_entry_bytes append_entry_content
    append_fields bytes_u16 direction_to_u8 ack_state_to_u8 session_state_to_u8 frame Writer.◌>>◌
    Writer.check Writer.nothing Writer.written Writer.u8 Writer.u16 Writer.u32 Writer.u64
    Writer.fixed_id Writer.short_string big_endian
one_entry_appended = refl

joined_fields-InRange : FieldsInRange (stamped toy 1700 joined_fields)
unfolding direction_to_u8 direction_of_u8 ack_state_to_u8 ack_state_of_u8 session_state_to_u8
    session_state_of_u8
joined_fields-InRange = record {
  version = omega arith;
  room_id = replicate-IsArray 32 1 (omega arith);
  trade_id = replicate-IsArray 16 2 (omega arith);
  counterparty_fingerprint = replicate-IsArray 32 3 (omega arith);
  terms_commitment = replicate-IsArray 32 4 (omega arith);
  round = omega arith;
  direction = refl;
  message_type = omega arith;
  message_hash = replicate-IsArray 32 6 (omega arith);
  ack_state = refl;
  local_state = refl;
  timestamp = omega arith;
}

abbrev seed : List ℕ
seed = replicate 32 8

one_entry-Written : Written toy seed seed one_entry
one_entry-Written =
    Written.appended 1700 joined_fields empty_journal one_entry Written.created (omega arith)
      joined_fields-InRange one_entry_appended

abbrev signed_entry : Journal
signed_entry = value_of (checkpoint toy seed 1800 one_entry)

signed_entry_checkpointed : checkpoint toy seed 1800 one_entry ≡ ok signed_entry
unfolding checkpoint record_checkpoint checkpoint_signed_bytes append_checkpoint encode_head append
    append_stamped check_transition canonical_entry_bytes append_entry_content append_fields
    bytes_u16 direction_to_u8 ack_state_to_u8 session_state_to_u8 frame Writer.◌>>◌ Writer.check
    Writer.nothing Writer.written Writer.u8 Writer.u16 Writer.u32 Writer.u64 Writer.fixed_id
    Writer.short_string big_endian
signed_entry_checkpointed = refl

signed_entry-Written : Written toy seed seed signed_entry
signed_entry-Written =
    Written.checkpointed 1800 one_entry signed_entry one_entry-Written (omega arith)
      signed_entry_checkpointed

signed_entry_opened :
    open_journal toy (own_keys toy seed seed) signed_entry.log signed_entry.head ≡ ok signed_entry
signed_entry_opened =
    open_journal-Written toy seed seed signed_entry toy-IsSound signed_entry-Written

open_journal-Written_example :
    open_journal toy (own_keys toy seed seed) signed_entry.log signed_entry.head ≡ ok signed_entry
open_journal-Written_example =
    open_journal-Written toy seed seed signed_entry toy-IsSound signed_entry-Written

abbrev bytes_of : Option (List ℕ) → List ℕ
bytes_of none = []
bytes_of (some bs) = bs

abbrev head_bytes : List ℕ
head_bytes = bytes_of signed_entry.head

small_bytes : (xs : List ℕ) → all (λ b. ltb b 256) xs ≡ true → IsBytes xs
small_bytes [] h = tt
small_bytes (x ∷ xs) h = ground (arith, small_bytes xs)

signed_log-IsBytes : IsBytes signed_entry.log
unfolding checkpoint record_checkpoint checkpoint_signed_bytes append_checkpoint encode_head append
    append_stamped check_transition canonical_entry_bytes append_entry_content append_fields
    bytes_u16 direction_to_u8 ack_state_to_u8 session_state_to_u8 frame Writer.◌>>◌ Writer.check
    Writer.nothing Writer.written Writer.u8 Writer.u16 Writer.u32 Writer.u64 Writer.fixed_id
    Writer.short_string big_endian
signed_log-IsBytes = small_bytes signed_entry.log refl

open_journal-Linked_example :
    Linked toy signed_entry.entries signed_entry.chain_head signed_entry.last_state_by_trade
open_journal-Linked_example =
    open_journal-Linked toy (own_keys toy seed seed) signed_entry.log signed_entry.head
      signed_log-IsBytes signed_entry_opened

one_log-IsBytes : IsBytes one_entry.log
unfolding checkpoint record_checkpoint checkpoint_signed_bytes append_checkpoint encode_head append
    append_stamped check_transition canonical_entry_bytes append_entry_content append_fields
    bytes_u16 direction_to_u8 ack_state_to_u8 session_state_to_u8 frame Writer.◌>>◌ Writer.check
    Writer.nothing Writer.written Writer.u8 Writer.u16 Writer.u32 Writer.u64 Writer.fixed_id
    Writer.short_string big_endian
one_log-IsBytes = small_bytes one_entry.log refl

one_entry_opened :
    open_journal toy (own_keys toy seed seed) one_entry.log one_entry.head ≡ ok one_entry
one_entry_opened = open_journal-Written toy seed seed one_entry toy-IsSound one_entry-Written

open_journal-same_chain_head_example :
    (signed_entry.entries ≡ one_entry.entries) ⊎ Clash toy signed_entry.entries one_entry.entries
unfolding checkpoint record_checkpoint checkpoint_signed_bytes append_checkpoint encode_head append
    append_stamped check_transition canonical_entry_bytes append_entry_content append_fields
    bytes_u16 direction_to_u8 ack_state_to_u8 session_state_to_u8 frame Writer.◌>>◌ Writer.check
    Writer.nothing Writer.written Writer.u8 Writer.u16 Writer.u32 Writer.u64 Writer.fixed_id
    Writer.short_string big_endian
open_journal-same_chain_head_example =
    open_journal-same_chain_head toy (own_keys toy seed seed) (own_keys toy seed seed)
      signed_entry.log one_entry.log signed_entry.head one_entry.head signed_log-IsBytes
      one_log-IsBytes signed_entry_opened one_entry_opened refl refl

signed_head : signed_entry.head ≡ some head_bytes
unfolding checkpoint record_checkpoint checkpoint_signed_bytes append_checkpoint encode_head append
    append_stamped check_transition canonical_entry_bytes append_entry_content append_fields
    bytes_u16 direction_to_u8 ack_state_to_u8 session_state_to_u8 frame Writer.◌>>◌ Writer.check
    Writer.nothing Writer.written Writer.u8 Writer.u16 Writer.u32 Writer.u64 Writer.fixed_id
    Writer.short_string big_endian
signed_head = refl

open_journal-IsCovered_example :
    (head : HeadPointer) × (decode_head head_bytes ≡ ok head)
    × IsCovered toy (own_keys toy seed seed) signed_entry head
open_journal-IsCovered_example =
    open_journal-IsCovered toy (own_keys toy seed seed) signed_entry.log head_bytes
      signed_log-IsBytes (rw signed_head at signed_entry_opened)

-- The append of the entry is cut off behind 17 bytes.
open_journal-append_cut_example :
    open_journal toy
      (own_keys toy seed seed)
      (take (length empty_journal.log + 17) one_entry.log)
      one_entry.head
    ≡ ok empty_journal
unfolding checkpoint record_checkpoint checkpoint_signed_bytes append_checkpoint encode_head append
    append_stamped check_transition canonical_entry_bytes append_entry_content append_fields
    bytes_u16 direction_to_u8 ack_state_to_u8 session_state_to_u8 frame Writer.◌>>◌ Writer.check
    Writer.nothing Writer.written Writer.u8 Writer.u16 Writer.u32 Writer.u64 Writer.fixed_id
    Writer.short_string big_endian
open_journal-append_cut_example =
    open_journal-append_cut toy seed seed 1700 joined_fields empty_journal one_entry 17 toy-IsSound
      Written.created (omega arith) joined_fields-InRange one_entry_appended (omega arith)

abbrev pointer : HeadPointer
pointer = record {
  suite_id = 1;
  index = 3;
  hash = replicate 32 9;
  signed_at = 1900;
  signature = replicate 64 5;
}

abbrev pointer_bytes : List ℕ
pointer_bytes =
    84 ∷ 80 ∷ 74 ∷ 72 ∷ 0 ∷ 1 ∷ 0 ∷ 0 ∷ 0 ∷ 0 ∷ 0 ∷ 0 ∷ 0 ∷ 3 ∷ replicate 32 9
    ++ 0 ∷ 0 ∷ 0 ∷ 0 ∷ 0 ∷ 0 ∷ 7 ∷ 108 ∷ replicate 64 5

pointer_encoded : encode_head pointer ≡ ok pointer_bytes
unfolding checkpoint record_checkpoint checkpoint_signed_bytes append_checkpoint encode_head append
    append_stamped check_transition canonical_entry_bytes append_entry_content append_fields
    bytes_u16 direction_to_u8 ack_state_to_u8 session_state_to_u8 frame Writer.◌>>◌ Writer.check
    Writer.nothing Writer.written Writer.u8 Writer.u16 Writer.u32 Writer.u64 Writer.fixed_id
    Writer.short_string big_endian
pointer_encoded = refl

pointer-IsSigned : IsSigned pointer
unfolding expected_checkpoint_signature_length
pointer-IsSigned = record {
  in_range = record {
    index = omega arith;
    hash = replicate-IsArray 32 9 (omega arith);
    signed_at = omega arith;
  };
  suite = inl refl;
  signature = replicate-IsArray 64 5 (omega arith);
}

decode_head-encode_head_example : decode_head pointer_bytes ≡ ok pointer
decode_head-encode_head_example = decode_head-encode_head pointer pointer-IsSigned pointer_encoded

-- The first leg of the last of two rounds is reported as received.
abbrev late : MediatorSession
late = record {
  creator = record {
    terms = record {
      version = 5;
      asset_a = b'B' ∷ b'T' ∷ b'C' ∷ [];
      asset_b = b'X' ∷ b'M' ∷ b'R' ∷ [];
      total_a = 10;
      total_b = 7;
      rounds = 2;
      first_sender = Party.b;
    };
    receive_address_a = b'q' ∷ b'1' ∷ [];
  };
  room_id = replicate 32 9;
  receive_address_b = b'x' ∷ b'2' ∷ [];
  fee = record { asset = []; amount = 0; address = [] };
  state = SessionState.waiting_for_received;
  round_index = 1;
  leg_index = 0;
  abort_reason = [];
  final_receipt_acked_a = false;
  final_receipt_acked_b = false;
  require_fee_confirmation = false;
  fee_position = FeePosition.after_last_round;
}

abbrev behind : MediatorSession
behind = record late { state = SessionState.waiting_for_final_receipt_ack; leg_index = 1 }

abbrev receipt : Event
receipt =
    Event.received Party.b (record { room_id = replicate 32 9; round_index = 1; sender = Party.a })

late_steps : step late receipt ≡ ok behind
unfolding step receiver_reported_received advance_after_receipt after_first_leg after_second_leg
    validate_signal current_sender current_receiver sender_in leg_sender first_sender_for_round
    other_party validate_party
late_steps = refl

late-IsValid : IsValid late
late-IsValid = ground arith

step-is_valid_transition_example :
    (is_valid_transition late.state behind.state ≡ true) ⊎ HasEarlyFee late behind
step-is_valid_transition_example = step-is_valid_transition late receipt late-IsValid late_steps
