-- ===== src/Protocol/Terms.antt =====
-- The parts that several messages share: append_... and read_... of src/protocol.cpp for trade
-- terms, fee terms and registry nodes, and the stand-alone encoding of trade terms.
use tradep2p.Base.{
  ℕ, List, [], Bool, true, false, if◌then◌else◌, Result, ltb, ◌==◌, throw_if, not, runtime_error,
}
use tradep2p.Protocol.Wire.Writer
use tradep2p.Protocol.Wire.Writer.{Writer, ◌>>◌, written}
use tradep2p.Protocol.Wire.Reader
use tradep2p.Protocol.Wire.Reader.{Reader, ◌>>=◌, decoded, pure}
use tradep2p.Protocol.Types.{
  Party, TradeTerms, FeeTerms, RegistryNode, party_to_u8, party_of_u8, max_asset_code_length,
  max_address_length, max_node_host_length,
}
use tradep2p.Protocol.Validate.{validate_terms, validate_fee_terms, validate_registry_node}
pub mod RoundTrip
pub mod Canonical

-- `static_cast<Party>(reader.u8())`
unfoldable pub read_party : Reader Party
read_party = do value ← Reader.u8; pure (party_of_u8 value)

-- `flag ? 1U : 0U`, and the flag of a decoder that refuses any byte but 0 and 1.
unfoldable pub flag_to_u8 : Bool → ℕ
flag_to_u8 flag = if flag then 1 else 0

unfoldable pub read_flag : Reader Bool
read_flag = do
  flag ← Reader.u8
  _ ← Reader.check (throw_if (ltb 1 flag) runtime_error)
  pure (flag == 1)

-- `reader.u8() != 0U`
unfoldable pub read_bool : Reader Bool
read_bool = do flag ← Reader.u8; pure (not (flag == 0))

unfoldable pub append_terms : TradeTerms → Writer
append_terms terms = do
  Writer.check (validate_terms terms)
  Writer.u16 terms.version
  Writer.short_string terms.asset_a max_asset_code_length
  Writer.short_string terms.asset_b max_asset_code_length
  Writer.u64 terms.total_a
  Writer.u64 terms.total_b
  Writer.u32 terms.rounds
  Writer.u8 (party_to_u8 terms.first_sender)

unfoldable pub read_terms : Reader TradeTerms
read_terms = do
  version ← Reader.u16
  asset_a ← Reader.short_string max_asset_code_length
  asset_b ← Reader.short_string max_asset_code_length
  total_a ← Reader.u64
  total_b ← Reader.u64
  rounds ← Reader.u32
  first_sender ← read_party
  let terms : TradeTerms = record {
    version = version;
    asset_a = asset_a;
    asset_b = asset_b;
    total_a = total_a;
    total_b = total_b;
    rounds = rounds;
    first_sender = first_sender;
  }
  _ ← Reader.check (validate_terms terms)
  pure terms

unfoldable pub append_fee_terms : FeeTerms → Writer
append_fee_terms fee = do
  Writer.check (validate_fee_terms fee)
  Writer.short_string fee.asset max_asset_code_length
  Writer.u64 fee.amount
  Writer.short_string fee.address max_address_length

unfoldable pub read_fee_terms : Reader FeeTerms
read_fee_terms = do
  asset ← Reader.short_string max_asset_code_length
  amount ← Reader.u64
  address ← Reader.short_string max_address_length
  let fee : FeeTerms = record { asset = asset; amount = amount; address = address }
  _ ← Reader.check (validate_fee_terms fee)
  pure fee

unfoldable pub append_registry_node : RegistryNode → Bool → Writer
append_registry_node node include_ttl = do
  Writer.check (validate_registry_node node include_ttl)
  Writer.short_string node.host max_node_host_length
  Writer.u16 node.port
  Writer.fixed_id node.certificate_pin
  if include_ttl
      then (do
        Writer.u32 node.remaining_ttl_seconds
        Writer.short_string node.source_registry max_node_host_length)
      else Writer.nothing

unfoldable pub read_registry_node : Bool → Reader RegistryNode
read_registry_node include_ttl = do
  host ← Reader.short_string max_node_host_length
  port ← Reader.u16
  certificate_pin ← Reader.fixed_id 32
  remaining_ttl_seconds ← if include_ttl then Reader.u32 else pure 0
  source_registry ← if include_ttl then Reader.short_string max_node_host_length else pure []
  let node : RegistryNode = record {
    host = host;
    port = port;
    certificate_pin = certificate_pin;
    remaining_ttl_seconds = remaining_ttl_seconds;
    source_registry = source_registry;
  }
  _ ← Reader.check (validate_registry_node node include_ttl)
  pure node

unfoldable pub encode_terms : TradeTerms → Result (List ℕ)
encode_terms terms = written (append_terms terms)

unfoldable pub decode_terms : List ℕ → Result TradeTerms
decode_terms = decoded do terms ← read_terms; _ ← Reader.require_finished; pure terms
