-- ===== src/Protocol/Registry/RoundTrip.antt =====
-- The encoders of the registry messages and the recovery response (src/protocol.cpp), followed by
-- their decoders.
use tradep2p.Base.{
  ℕ, ◌≡◌, ◌≤◌, refl, List, [], Bool, true, false, ◌==◌, ◌||◌, ltb, if◌then◌else◌, arith, length,
  All, ok, throw_if, rethrow, invalid_argument, runtime_error,
}
use tradep2p.Protocol.Wire.Bytes.{IsU32}
use tradep2p.Protocol.Types.{
  NodeInRange, TermsInRange, FeeInRange, registry_ttl_seconds, max_registry_nodes_in_list,
  max_frame_payload,
}
use tradep2p.Protocol.Wire.RoundTrip.{
  RoundTrip, rt_seq, rt_last, rt_checked, rt_check, rt_nothing, rt_weaken, rt_each, Yields-check,
  Yields-finished, Yields-pure, decoded-written, rt_u8, rt_u16, rt_u32, rt_id, rt_short_string,
}
use tradep2p.Protocol.Terms.{flag_to_u8}
use tradep2p.Protocol.Terms.RoundTrip.{
  rt_flag, rt_terms, rt_fee_terms, rt_registered_node, registrable, rt_listed_node,
}
use tradep2p.Protocol.Registry.{
  RegistryRegisterMessage, encode_registry_register, decode_registry_register,
  RegistryRegisteredMessage, encode_registry_registered, decode_registry_registered,
  RegistryNodesMessage, encode_registry_nodes, decode_registry_nodes, RecoveredRoom,
  no_recovered_room, RecoveryStateResponseMessage, RecoveryStateResponseInRange, append_recovered,
  read_recovered, encode_recovery_state_response, decode_recovery_state_response,
}

-- If a RegistryRegisterMessage can be encoded, the bytes fit one frame and decode to it, with no
-- TTL and no source registry.
pub decode_registry_register-encode_registry_register :
    (message : RegistryRegisterMessage) {bs : List ℕ}
    → NodeInRange message.node
    → encode_registry_register message ≡ ok bs
    → (decode_registry_register bs ≡ ok (record { node = registrable message.node }))
      × (length bs ≤ max_frame_payload)
unfolding encode_registry_register decode_registry_register
decode_registry_register-encode_registry_register message r e =
    decoded-written _ _ e
      (rt_last _ (rt_registered_node message.node r) (Yields-finished _ (Yields-pure _ [])))
      (omega arith)

-- If a RegistryRegisteredMessage can be encoded, the bytes fit one frame and decode to it.
pub decode_registry_registered-encode_registry_registered :
    (message : RegistryRegisteredMessage) {bs : List ℕ}
    → IsU32 message.ttl_seconds
    → encode_registry_registered message ≡ ok bs
    → (decode_registry_registered bs ≡ ok message) × (length bs ≤ max_frame_payload)
unfolding encode_registry_registered decode_registry_registered
decode_registry_registered-encode_registry_registered message r e =
    decoded-written _ _ e
      (rt_checked λ h. rt_last _ (rt_u32 message.ttl_seconds r) (
        Yields-check _
          (rethrow (message.ttl_seconds == 0 || ltb registry_ttl_seconds message.ttl_seconds) _ _ h)
          (Yields-finished _ (Yields-pure message []))))
      (omega arith)

at_most : (n m : ℕ) → throw_if (ltb m n) invalid_argument ≡ ok tt → n ≤ m
at_most n m e = ground arith

-- If a RegistryNodesMessage whose fields are in the range of their types can be encoded, the
-- bytes fit the payload of one frame and decode to it.
pub decode_registry_nodes-encode_registry_nodes :
    (message : RegistryNodesMessage) {bs : List ℕ}
    → All NodeInRange message.nodes
    → encode_registry_nodes message ≡ ok bs
    → (decode_registry_nodes bs ≡ ok message) × (length bs ≤ max_frame_payload)
unfolding encode_registry_nodes decode_registry_nodes
decode_registry_nodes-encode_registry_nodes message r e =
    decoded-written _ _ e
      (rt_checked λ h.
        let small = at_most (length message.nodes) max_registry_nodes_in_list h in
        rt_weaken 40000 (omega arith) (
          rt_seq _ (rt_u16 (length message.nodes) (omega arith)) (
            rt_check _ (rethrow (ltb max_registry_nodes_in_list (length message.nodes)) _ _ h) (
              rt_last _ (rt_each NodeInRange rt_listed_node message.nodes r)
                (Yields-finished _ (Yields-pure message []))))))
      (omega arith)

-- What a reader sees of a room that may not have been found.
abbrev pub room_seen : Bool → RecoveredRoom → RecoveredRoom
room_seen found room = if found then room else no_recovered_room

flags_seen :
    (p q : Bool) → throw_if (ltb 1 (flag_to_u8 p) || ltb 1 (flag_to_u8 q)) runtime_error ≡ ok tt
unfolding flag_to_u8
flags_seen p q = ground arith

flag_seen : (p : Bool) → (flag_to_u8 p == 1) ≡ p
unfolding flag_to_u8
flag_seen true = refl
flag_seen false = refl

rt_recovered :
    (found : Bool) (room : RecoveredRoom)
    → TermsInRange room.terms
    → FeeInRange room.fee
    → IsU32 room.round_index
    → throw_if (ltb 1 room.leg_index) invalid_argument ≡ ok tt
    → (rest : List ℕ)
    → RoundTrip (append_recovered found room) (read_recovered found) (room_seen found room) 351 rest
unfolding append_recovered read_recovered
rt_recovered true room rt rf rr h rest = rt_seq _ (rt_terms room.terms rt) (
    rt_seq _ (rt_fee_terms room.fee rf) (
      rt_seq _ (rt_u8 room.state) (
        rt_seq _ (rt_u32 room.round_index rr) (
          rt_seq _ (rt_u8 room.leg_index) (
            rt_check _ (rethrow (ltb 1 room.leg_index) _ _ h) (
              rt_seq _ (rt_u8 (flag_to_u8 room.party_a_connected)) (
                rt_last _ (rt_u8 (flag_to_u8 room.party_b_connected)) (
                  Yields-check _ (flags_seen room.party_a_connected room.party_b_connected) (
                    rw (flag_seen room.party_a_connected, flag_seen room.party_b_connected)
                      (Yields-pure room rest))))))))))
rt_recovered false room rt rf rr h rest =
    rt_weaken _ (omega arith) (rt_nothing (Yields-pure no_recovered_room rest))

-- If a RecoveryStateResponseMessage whose fields are in the range of their types can be encoded,
-- the bytes fit the payload of one frame and decode to it, with the initial values in place of a
-- room that was not found.
pub decode_recovery_state_response-encode_recovery_state_response :
    (message : RecoveryStateResponseMessage) {bs : List ℕ}
    → RecoveryStateResponseInRange message
    → encode_recovery_state_response message ≡ ok bs
    → (decode_recovery_state_response bs
        ≡ ok (record message { room = room_seen message.found message.room }))
      × (length bs ≤ max_frame_payload)
unfolding encode_recovery_state_response decode_recovery_state_response
decode_recovery_state_response-encode_recovery_state_response message r e =
    decoded-written _ _ e
      (rt_checked λ h₁. rt_checked λ h₂. rt_checked λ h₃.
        rt_seq _ (rt_id 32 message.room_id r.room_id) (
          rt_check _ h₁ (
            rt_seq _ (rt_flag message.found) (
              rt_seq _ (rt_recovered message.found message.room r.terms r.fee r.round_index h₂) (
                rt_last _ (rt_short_string message.reason _)
                  (Yields-check _ h₃ (Yields-finished _ (Yields-pure _ []))))))))
      (omega arith)
