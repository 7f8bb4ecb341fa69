-- ===== src/Protocol/Types.antt =====
-- The constants and the shared structs of include/tradep2p/protocol.hpp. Integers are numbers and
-- strings and arrays are lists of bytes; what the C++ types promise of them is the record
-- `...InRange` behind each struct. The messages stand with their encoders.
use tradep2p.Base.{ℕ, zero, suc, List}
use tradep2p.Protocol.Wire.Bytes.{IsU16, IsU32, IsU64, IsArray}

abbrev pub protocol_version : ℕ
protocol_version = 5

abbrev pub max_frame_payload : ℕ
max_frame_payload = 131072

abbrev pub max_asset_code_length : ℕ
max_asset_code_length = 16

abbrev pub max_address_length : ℕ
max_address_length = 256

abbrev pub max_reason_length : ℕ
max_reason_length = 128

abbrev pub max_node_host_length : ℕ
max_node_host_length = 96

abbrev pub max_peer_list_entries : ℕ
max_peer_list_entries = 128

abbrev pub max_registry_nodes_in_list : ℕ
max_registry_nodes_in_list = 160

abbrev pub max_offer_page_entries : ℕ
max_offer_page_entries = 32

abbrev pub max_candle_ticks_per_pair : ℕ
max_candle_ticks_per_pair = 300

abbrev pub max_rounds : ℕ
max_rounds = 1000

abbrev pub registry_ttl_seconds : ℕ
registry_ttl_seconds = 300

-- An enum class over std::uint8_t can hold each value of its base: `unnamed` is any but 0 and 1.
pub data Party : Type 0 where
  a b : Party
  unnamed : ℕ → Party

-- `static_cast<std::uint8_t>(party)` and `static_cast<Party>(value)`.
unfoldable pub party_to_u8 : Party → ℕ
party_to_u8 Party.a = 0
party_to_u8 Party.b = 1
party_to_u8 (Party.unnamed n) = n

unfoldable pub party_of_u8 : ℕ → Party
party_of_u8 zero = Party.a
party_of_u8 (suc zero) = Party.b
party_of_u8 (suc (suc n)) = Party.unnamed (suc (suc n))

pub record TradeTerms : Type 0 where
  pub version : ℕ
  pub asset_a : List ℕ
  pub asset_b : List ℕ
  pub total_a : ℕ
  pub total_b : ℕ
  pub rounds : ℕ
  pub first_sender : Party

pub record TermsInRange (t : TradeTerms) : Type 0 where
  pub version : IsU16 t.version
  pub total_a : IsU64 t.total_a
  pub total_b : IsU64 t.total_b
  pub rounds : IsU32 t.rounds

pub record FeeTerms : Type 0 where
  pub asset : List ℕ
  pub amount : ℕ
  pub address : List ℕ

pub record FeeInRange (fee : FeeTerms) : Type 0 where
  pub amount : IsU64 fee.amount

pub record RegistryNode : Type 0 where
  pub host : List ℕ
  pub port : ℕ
  pub certificate_pin : List ℕ
  pub remaining_ttl_seconds : ℕ
  pub source_registry : List ℕ

pub record NodeInRange (n : RegistryNode) : Type 0 where
  pub port : IsU16 n.port
  pub certificate_pin : IsArray 32 n.certificate_pin
  pub remaining_ttl_seconds : IsU32 n.remaining_ttl_seconds
