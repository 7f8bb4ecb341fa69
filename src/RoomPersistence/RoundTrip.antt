-- ===== src/RoomPersistence/RoundTrip.antt =====
-- The file of rooms (src/room_persistence.cpp), encoded and then decoded.
use tradep2p.Base.{
  ℕ, ◌≡◌, ◌≤◌, ◌+◌, ◌%◌, refl, List, [], All, true, ltb, arith, length, ok, bind-eq-ok, throw_if,
  rethrow, invalid_argument, runtime_error,
}
use native.Mathlib.Nat.{le_refl}
use tradep2p.Protocol.Wire.Bytes.{IsArray, IsU32, IsU64}
use tradep2p.Protocol.Wire.RoundTrip.{
  RoundTrip, rt_seq, rt_last, rt_checked, rt_check, rt_weaken, rt_each, Yields-finished,
  Yields-check, Yields-pure, decoded-written, rt_u8, rt_u16, rt_u32, rt_u64, rt_id, rt_short_string,
  rt_raw, unguarded,
}
use tradep2p.Protocol.Types.{TradeTerms, TermsInRange, FeeInRange}
use tradep2p.Protocol.Validate.{validate_room_id, validate_client_id}
use tradep2p.Protocol.Terms.{encode_terms}
use tradep2p.Protocol.Terms.RoundTrip.{rt_fee_terms, decode_terms-encode_terms}
use tradep2p.Mediator.Session.{SessionState}
use tradep2p.Mediator.Invariant.{is_named}
use tradep2p.RoomPersistence.{
  PersistedRoom, magic, max_room_count, max_room_body_length, session_state_to_u8,
  session_state_of_u8, append_bytes_u32, read_bytes_u32, append_encoded_terms, read_encoded_terms,
  write_room, read_room, encode_one_room, decode_one_room, append_room, read_one_room,
  encode_persisted_rooms, write_file, read_file, decode_persisted_rooms,
}

-- A room as the lobby keeps it: the encoder checks none of the ids, and not the leg.
pub record IsPersisted (room : PersistedRoom) : Type 0 where
  pub room_id : IsArray 32 room.room_id
  pub party_a : IsArray 16 room.party_a
  pub party_b : IsArray 16 room.party_b
  pub terms : TermsInRange room.terms
  pub fee : FeeInRange room.fee
  pub state : is_named room.state ≡ true
  pub round_index : IsU32 room.round_index
  pub leg_index : room.leg_index ≤ 1
  pub updated_at : IsU64 room.updated_at
  pub nonzero_room : validate_room_id room.room_id ≡ ok tt
  pub nonzero_a : validate_client_id room.party_a ≡ ok tt
  pub nonzero_b : validate_client_id room.party_b ≡ ok tt

state_back :
    (state : SessionState)
    → is_named state ≡ true
    → session_state_of_u8 (session_state_to_u8 state) ≡ state
unfolding session_state_of_u8 session_state_to_u8
state_back (SessionState.unnamed n) h = cc
state_back _ h = refl

rt_bytes_u32 :
    (xs : List ℕ) (n maximum : ℕ)
    → length xs ≤ n
    → n ≤ maximum
    → maximum ≤ 8192
    → (rest : List ℕ) → RoundTrip (append_bytes_u32 xs) (read_bytes_u32 maximum) xs (4 + n) rest
unfolding append_bytes_u32 read_bytes_u32
rt_bytes_u32 xs n maximum h l m rest =
    let small : length xs % 4294967296 ≡ length xs = omega arith in
    rw small (
      rt_seq _ (rt_u32 (length xs) (omega arith)) (
        rt_check _ (rethrow _ runtime_error _ (unguarded (length xs) maximum (omega arith)))
          (rt_raw xs n (length xs) refl h rest)))

rt_encoded_terms :
    (terms : TradeTerms)
    → TermsInRange terms
    → (rest : List ℕ) → RoundTrip (append_encoded_terms terms) read_encoded_terms terms 63 rest
unfolding append_encoded_terms read_encoded_terms
rt_encoded_terms terms r rest = record {
  apply = λ out out' e.
      let (bs, e₁, e₂) = bind-eq-ok (encode_terms terms) _ e in
      let (back, short) = decode_terms-encode_terms terms r e₁ in
      (rt_last _ (rt_bytes_u32 bs 59 max_room_body_length short (omega arith) (omega arith))
          (record { apply = rw back refl })).apply
        out out' e₂;
}

-- The body of a room is at most 555 bytes, far below the limit of the decoder.
rt_room :
    (room : PersistedRoom) → IsPersisted room → RoundTrip (write_room room) read_room room 555 []
unfolding write_room read_room
rt_room room r = rt_weaken 555 (omega arith) (
    rt_seq _ (rt_id 32 room.room_id r.room_id) (
      rt_seq _ (rt_id 16 room.party_a r.party_a) (
        rt_seq _ (rt_id 16 room.party_b r.party_b) (
          rt_seq _ (rt_encoded_terms room.terms r.terms) (
            rt_seq _ (rt_fee_terms room.fee r.fee) (
              rt_seq _ (rt_u8 (session_state_to_u8 room.state)) (
                rt_seq _ (rt_u32 room.round_index r.round_index) (
                  rt_seq _ (rt_u8 room.leg_index) (
                    rt_seq _ (rt_short_string room.abort_reason _) (
                      rt_last _ (rt_u64 room.updated_at r.updated_at) (
                        Yields-finished _ (
                          Yields-check _ r.nonzero_room (
                            Yields-check _ r.nonzero_a (
                              Yields-check _ r.nonzero_b (
                                Yields-check _ (ground (arith, r.leg_index)) (
                                  rw (state_back room.state r.state)
                                    (Yields-pure room [])))))))))))))))))

rt_one_room :
    (room : PersistedRoom)
    → IsPersisted room
    → (rest : List ℕ) → RoundTrip (append_room room) read_one_room room 559 rest
unfolding append_room read_one_room encode_one_room decode_one_room
rt_one_room room r rest = record {
  apply = λ out out' e.
      let (body, e₁, e₂) = bind-eq-ok (encode_one_room room) _ e in
      let (back, short) = decoded-written _ _ e₁ (rt_room room r) (le_refl 555) in
      (rt_last _ (rt_bytes_u32 body 555 max_room_body_length short (omega arith) (omega arith))
          (record { apply = rw back refl })).apply
        out out' e₂;
}

at_most : (n m : ℕ) → throw_if (ltb m n) invalid_argument ≡ ok tt → n ≤ m
at_most n m e = ground arith

magic_bytes : IsArray 4 magic
magic_bytes = ground arith

rt_file :
    (rooms : List PersistedRoom)
    → All IsPersisted rooms
    → RoundTrip
        (write_file (record { format_version = 1; rooms = rooms }))
        read_file
        (record { format_version = 1; rooms = rooms })
        2300000
        []
unfolding write_file read_file
rt_file rooms r = rt_checked λ h.
    let small = at_most (length rooms) max_room_count h in
    rt_weaken 2300000 (omega arith) (
      rt_seq _ (rt_id 4 magic magic_bytes) (
        rt_check _ refl (
          rt_seq _ (rt_u16 1 (omega arith)) (
            rt_check _ refl (
              rt_seq _ (rt_u32 (length rooms) (omega arith)) (
                rt_check _ (rethrow (ltb max_room_count (length rooms)) _ _ h) (
                  rt_last _ (rt_each IsPersisted rt_one_room rooms r)
                    (Yields-finished _ (Yields-pure _ [])))))))))

-- If rooms whose fields are in the range of their types, whose ids are not zero, whose legs are 0
-- or 1 and whose states are named can be encoded as a file of format version 1, the bytes decode
-- to the same file.
pub decode_persisted_rooms-encode_persisted_rooms :
    (rooms : List PersistedRoom) {bs : List ℕ}
    → All IsPersisted rooms
    → encode_persisted_rooms (record { format_version = 1; rooms = rooms }) ≡ ok bs
    → decode_persisted_rooms bs ≡ ok (record { format_version = 1; rooms = rooms })
unfolding encode_persisted_rooms decode_persisted_rooms
decode_persisted_rooms-encode_persisted_rooms rooms r e =
    let (back, _) = decoded-written _ _ e (rt_file rooms r) (le_refl 2300000) in rw back refl
