-- ===== src/Protocol/Terms/RoundTrip.antt =====
-- The encoders of trade terms, fee terms and registry nodes (src/protocol.cpp), followed by their
-- decoders.
use tradep2p.Base.{ℕ, ◌≤◌, ◌≡◌, refl, List, [], arith, ok, Bool, true, false, length}
use tradep2p.Protocol.Wire.RoundTrip.{
  RoundTrip, rt_seq, rt_last, rt_nothing, Yields-step, rt_checked, Yields-check, Yields-finished,
  Yields-pure, decoded-written, rt_u8, rt_u16, rt_u32, rt_u64, rt_id, rt_short_string,
}
use tradep2p.Protocol.Types.{
  Party, TradeTerms, TermsInRange, FeeTerms, FeeInRange, RegistryNode, NodeInRange, party_to_u8,
  party_of_u8,
}
use tradep2p.Protocol.Wire.Writer
use tradep2p.Protocol.Validate.{validate_party, validate_terms, validate_registry_node}
use tradep2p.Protocol.Terms.{
  read_party, append_terms, read_terms, encode_terms, decode_terms, append_fee_terms,
  read_fee_terms, append_registry_node, read_registry_node, flag_to_u8, read_flag, read_bool,
}

party_back : (p : Party) → validate_party p ≡ ok tt → party_of_u8 (party_to_u8 p) ≡ p
unfolding validate_party party_to_u8 party_of_u8
party_back Party.a h = refl
party_back Party.b h = refl
party_back (Party.unnamed n) h = cc

pub rt_party :
    (p : Party)
    → validate_party p ≡ ok tt
    → (rest : List ℕ) → RoundTrip (Writer.u8 (party_to_u8 p)) read_party p 1 rest
unfolding read_party
rt_party p h rest = rt_last _ (rt_u8 (party_to_u8 p)) (rw (party_back p h) (Yields-pure p rest))

pub rt_flag :
    (flag : Bool) (rest : List ℕ) → RoundTrip (Writer.u8 (flag_to_u8 flag)) read_flag flag 1 rest
unfolding read_flag flag_to_u8
rt_flag true rest = rt_last _ (rt_u8 1) (Yields-check _ refl (Yields-pure true rest))
rt_flag false rest = rt_last _ (rt_u8 0) (Yields-check _ refl (Yields-pure false rest))

pub rt_bool :
    (flag : Bool) (rest : List ℕ) → RoundTrip (Writer.u8 (flag_to_u8 flag)) read_bool flag 1 rest
unfolding read_bool flag_to_u8
rt_bool true rest = rt_last _ (rt_u8 1) (Yields-pure true rest)
rt_bool false rest = rt_last _ (rt_u8 0) (Yields-pure false rest)

terms-party : (t : TradeTerms) → validate_terms t ≡ ok tt → validate_party t.first_sender ≡ ok tt
unfolding validate_terms
terms-party t h = ground arith

pub rt_terms :
    (t : TradeTerms)
    → TermsInRange t
    → (rest : List ℕ) → RoundTrip (append_terms t) read_terms t 59 rest
unfolding append_terms read_terms
rt_terms t r rest = rt_checked λ h. rt_seq _ (rt_u16 t.version r.version) (
    rt_seq _ (rt_short_string t.asset_a _) (
      rt_seq _ (rt_short_string t.asset_b _) (
        rt_seq _ (rt_u64 t.total_a r.total_a) (
          rt_seq _ (rt_u64 t.total_b r.total_b) (
            rt_seq _ (rt_u32 t.rounds r.rounds) (
              rt_last _ (rt_party t.first_sender (terms-party t h))
                (Yields-check _ h (Yields-pure t rest))))))))

pub rt_fee_terms :
    (fee : FeeTerms)
    → FeeInRange fee
    → (rest : List ℕ) → RoundTrip (append_fee_terms fee) read_fee_terms fee 284 rest
unfolding append_fee_terms read_fee_terms
rt_fee_terms fee r rest = rt_checked λ h. rt_seq _ (rt_short_string fee.asset _) (
    rt_seq _ (rt_u64 fee.amount r.amount)
      (rt_last _ (rt_short_string fee.address _) (Yields-check _ h (Yields-pure fee rest))))

-- A registration carries no TTL and no source registry, so they come back as 0 and empty.
abbrev pub registrable : RegistryNode → RegistryNode
registrable node = record node { remaining_ttl_seconds = 0; source_registry = [] }

registrable_kept :
    (node : RegistryNode)
    → validate_registry_node node false ≡ ok tt
    → validate_registry_node (registrable node) false ≡ ok tt
unfolding validate_registry_node
registrable_kept node h = ground arith

pub rt_registered_node :
    (node : RegistryNode)
    → NodeInRange node
    → (rest : List ℕ)
    → RoundTrip
        (append_registry_node node false)
        (read_registry_node false)
        (registrable node)
        132
        rest
unfolding append_registry_node read_registry_node
rt_registered_node node r rest = rt_checked λ h. rt_seq _ (rt_short_string node.host _) (
    rt_seq _ (rt_u16 node.port r.port) (
      rt_seq _ (rt_id 32 node.certificate_pin r.certificate_pin) (
        rt_nothing (
          Yields-step 0 _ (
            Yields-step [] _
              (Yields-check _ (registrable_kept node h) (Yields-pure (registrable node) rest)))))))

pub rt_listed_node :
    (node : RegistryNode)
    → NodeInRange node
    → (rest : List ℕ)
    → RoundTrip (append_registry_node node true) (read_registry_node true) node 234 rest
unfolding append_registry_node read_registry_node
rt_listed_node node r rest = rt_checked λ h. rt_seq _ (rt_short_string node.host _) (
    rt_seq _ (rt_u16 node.port r.port) (
      rt_seq _ (rt_id 32 node.certificate_pin r.certificate_pin) (
        rt_seq _ (rt_u32 node.remaining_ttl_seconds r.remaining_ttl_seconds) (
          rt_last _ (rt_short_string node.source_registry _)
            (Yields-check _ h (Yields-pure node rest))))))

-- If trade terms whose numbers are in the range of their types can be encoded, the bytes decode
-- to them and are at most 59.
pub decode_terms-encode_terms :
    (t : TradeTerms) {bs : List ℕ}
    → TermsInRange t
    → encode_terms t ≡ ok bs
    → (decode_terms bs ≡ ok t) × (length bs ≤ 59)
unfolding encode_terms decode_terms
decode_terms-encode_terms t r e =
    decoded-written _ _ e (rt_last _ (rt_terms t r) (Yields-finished _ (Yields-pure t [])))
      (omega arith)
