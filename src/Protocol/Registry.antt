-- ===== src/Protocol/Registry.antt =====
-- The registry messages and the recovery response of include/tradep2p/protocol.hpp and their
-- encoders in src/protocol.cpp.
use tradep2p.Base.{
  ℕ, ◌≡◌, List, [], Bool, true, false, ◌||◌, not, ◌==◌, ltb, if◌then◌else◌, length, All, Result, ok,
  throw_if, invalid_argument, runtime_error,
}
use tradep2p.Protocol.Wire.Bytes.{IsByte, IsU32, IsArray}
use tradep2p.Protocol.Wire.Writer
use tradep2p.Protocol.Wire.Writer.{Writer, ◌>>◌, written}
use tradep2p.Protocol.Wire.Reader
use tradep2p.Protocol.Wire.Reader.{Reader, ◌>>=◌, decoded, pure}
use tradep2p.Protocol.Types.{
  Party, TradeTerms, TermsInRange, FeeTerms, FeeInRange, RegistryNode, registry_ttl_seconds,
  max_registry_nodes_in_list, max_reason_length, protocol_version,
}
use tradep2p.Protocol.Validate.{validate_room_id, validate_reason, is_empty}
use tradep2p.Protocol.Terms.{
  append_terms, read_terms, append_fee_terms, read_fee_terms, append_registry_node,
  read_registry_node, flag_to_u8, read_flag,
}
pub mod RoundTrip

pub record RegistryRegisterMessage : Type 0 where
  pub node : RegistryNode

unfoldable pub encode_registry_register : RegistryRegisterMessage → Result (List ℕ)
encode_registry_register message = written (append_registry_node message.node false)

unfoldable pub decode_registry_register : List ℕ → Result RegistryRegisterMessage
decode_registry_register =
    decoded
      do node ← read_registry_node false; _ ← Reader.require_finished; pure (record { node = node })

pub record RegistryRegisteredMessage : Type 0 where
  pub ttl_seconds : ℕ

unfoldable pub encode_registry_registered : RegistryRegisteredMessage → Result (List ℕ)
encode_registry_registered message = written do
  Writer.check (
      throw_if (message.ttl_seconds == 0 || ltb registry_ttl_seconds message.ttl_seconds)
        invalid_argument)
  Writer.u32 message.ttl_seconds

unfoldable pub decode_registry_registered : List ℕ → Result RegistryRegisteredMessage
decode_registry_registered = decoded do
  ttl_seconds ← Reader.u32
  _ ←
      Reader.check
        (throw_if (ttl_seconds == 0 || ltb registry_ttl_seconds ttl_seconds) runtime_error)
  _ ← Reader.require_finished
  pure (record { ttl_seconds = ttl_seconds })

pub record RegistryNodesMessage : Type 0 where
  pub nodes : List RegistryNode

unfoldable pub encode_registry_nodes : RegistryNodesMessage → Result (List ℕ)
encode_registry_nodes message = written do
  Writer.check (throw_if (ltb max_registry_nodes_in_list (length message.nodes)) invalid_argument)
  Writer.u16 (length message.nodes)
  Writer.each (λ node. append_registry_node node true) message.nodes

unfoldable pub decode_registry_nodes : List ℕ → Result RegistryNodesMessage
decode_registry_nodes = decoded do
  count ← Reader.u16
  _ ← Reader.check (throw_if (ltb max_registry_nodes_in_list count) runtime_error)
  nodes ← Reader.times count (read_registry_node true)
  _ ← Reader.require_finished
  pure (record { nodes = nodes })

-- The fields that are on the wire only if the mediator found the room.
pub record RecoveredRoom : Type 0 where
  pub terms : TradeTerms
  pub fee : FeeTerms
  pub state : ℕ
  pub round_index : ℕ
  pub leg_index : ℕ
  pub party_a_connected : Bool
  pub party_b_connected : Bool

pub record RecoveryStateResponseMessage : Type 0 where
  pub room_id : List ℕ
  pub found : Bool
  pub room : RecoveredRoom
  pub reason : List ℕ

pub record RecoveryStateResponseInRange (m : RecoveryStateResponseMessage) : Type 0 where
  pub room_id : IsArray 32 m.room_id
  pub terms : TermsInRange m.room.terms
  pub fee : FeeInRange m.room.fee
  pub state : IsByte m.room.state
  pub round_index : IsU32 m.room.round_index

-- The in-class initialisers of RecoveryStateResponseMessage and of the structs that it holds.
abbrev pub no_recovered_room : RecoveredRoom
no_recovered_room = record {
  terms = record {
    version = protocol_version;
    asset_a = [];
    asset_b = [];
    total_a = 0;
    total_b = 0;
    rounds = 0;
    first_sender = Party.a;
  };
  fee = record { asset = []; amount = 0; address = [] };
  state = 0;
  round_index = 0;
  leg_index = 0;
  party_a_connected = false;
  party_b_connected = false;
}

unfoldable pub append_recovered : Bool → RecoveredRoom → Writer
append_recovered found room =
    if found
    then (do
      append_terms room.terms
      append_fee_terms room.fee
      Writer.u8 room.state
      Writer.u32 room.round_index
      Writer.u8 room.leg_index
      Writer.u8 (flag_to_u8 room.party_a_connected)
      Writer.u8 (flag_to_u8 room.party_b_connected))
    else Writer.nothing

unfoldable pub read_recovered : Bool → Reader RecoveredRoom
read_recovered found =
    if found
    then (do
      terms ← read_terms
      fee ← read_fee_terms
      state ← Reader.u8
      round_index ← Reader.u32
      leg_index ← Reader.u8
      _ ← Reader.check (throw_if (ltb 1 leg_index) runtime_error)
      party_a_flag ← Reader.u8
      party_b_flag ← Reader.u8
      _ ← Reader.check (throw_if (ltb 1 party_a_flag || ltb 1 party_b_flag) runtime_error)
      pure (record {
        terms = terms;
        fee = fee;
        state = state;
        round_index = round_index;
        leg_index = leg_index;
        party_a_connected = party_a_flag == 1;
        party_b_connected = party_b_flag == 1;
      }))
    else pure no_recovered_room

unfoldable pub validate_optional_reason : List ℕ → Result (Unit {0})
validate_optional_reason reason = if is_empty reason then ok tt else validate_reason reason

unfoldable pub encode_recovery_state_response : RecoveryStateResponseMessage → Result (List ℕ)
encode_recovery_state_response message = written do
  Writer.check (validate_room_id message.room_id)
  Writer.check (throw_if (ltb 1 message.room.leg_index) invalid_argument)
  Writer.check (validate_optional_reason message.reason)
  Writer.fixed_id message.room_id
  Writer.u8 (flag_to_u8 message.found)
  append_recovered message.found message.room
  Writer.short_string message.reason max_reason_length

unfoldable pub decode_recovery_state_response : List ℕ → Result RecoveryStateResponseMessage
decode_recovery_state_response = decoded do
  room_id ← Reader.fixed_id 32
  _ ← Reader.check (validate_room_id room_id)
  found ← read_flag
  room ← read_recovered found
  reason ← Reader.short_string max_reason_length
  _ ← Reader.check (validate_optional_reason reason)
  _ ← Reader.require_finished
  pure (record { room_id = room_id; found = found; room = room; reason = reason })
