-- ===== src/Mediator/Announce.antt =====
-- The turn of a session (src/mediator.cpp) as the message that encode_turn of src/protocol.cpp puts
-- on the wire.
use tradep2p.Base.{ℕ, ◌≤◌, ◌<◌, ◌≡◌, List, true, ok, is_ok, arith, ◌⊎◌, inl, inr, length}
use tradep2p.Protocol.Validate.{validate_asset, validate_address, validate_printable}
use tradep2p.Protocol.Tranche.{tranche_pos}
use tradep2p.Protocol.Wire.Writer
use tradep2p.Protocol.Wire.Writer.{Writer, written}
use tradep2p.Protocol.Trade.{TurnMessage, encode_turn}
use tradep2p.Protocol.Validate.{validate_room_id, validate_party}
use tradep2p.Mediator.Session.{SessionState, MediatorSession, current_turn}
use tradep2p.Mediator.Invariant.{IsValid}
use tradep2p.Mediator.Turn.{Configured, terms-facts, leg_message, current_turn-leg}

asset_short : (asset : List ℕ) → validate_asset asset ≡ ok tt → length asset ≤ 16
unfolding validate_asset
asset_short asset h = ground arith

address_short : (address : List ℕ) → validate_address address ≡ ok tt → length address ≤ 256
unfolding validate_address validate_printable
address_short address h = ground arith

encode_turn_ok :
    (m : TurnMessage)
    → validate_room_id m.room_id ≡ ok tt
    → validate_party m.sender ≡ ok tt
    → validate_asset m.asset ≡ ok tt
    → 0 < m.amount
    → validate_address m.destination ≡ ok tt
    → is_ok (encode_turn m) ≡ true
unfolding encode_turn written Writer.◌>>◌ Writer.check Writer.fixed_id Writer.u8 Writer.u16
    Writer.u32 Writer.u64 Writer.short_string
encode_turn_ok m r p a n d = ground (arith, asset_short m.asset a, address_short m.destination d)

encode_turn-leg_message :
    (s : MediatorSession)
    → IsValid s
    → Configured s
    → validate_address s.receive_address_b ≡ ok tt
    → s.round_index < s.creator.terms.rounds
    → is_ok (encode_turn (leg_message s)) ≡ true
unfolding validate_party
encode_turn-leg_message s v c b h =
    let f = terms-facts s.creator c.terms in
    let a =
      tranche_pos s.creator.terms.total_a s.creator.terms.rounds s.round_index v.rounds_pos
        f.cover_a in
    let d =
      tranche_pos s.creator.terms.total_b s.creator.terms.rounds s.round_index v.rounds_pos
        f.cover_b in
    encode_turn_ok (leg_message s) (ground (arith, c.room_id)) (ground arith)
      (ground (arith, f.asset_a, f.asset_b)) (ground arith) (ground (arith, c.address_a))

-- In a valid session that has what the constructor checked and a valid address of party B, and in
-- which a leg is due or on its way, the current turn is defined and encode_turn accepts it.
pub encode_turn-current_turn :
    (s : MediatorSession)
    → IsValid s
    → Configured s
    → validate_address s.receive_address_b ≡ ok tt
    → (s.state ≡ SessionState.waiting_for_sent) ⊎ (s.state ≡ SessionState.waiting_for_received)
    → (m : TurnMessage) × (current_turn s ≡ ok m) × (is_ok (encode_turn m) ≡ true)
encode_turn-current_turn s v c b h =
    let (_, turn) = current_turn-leg s v (terms-facts s.creator c.terms) h in
    (
      leg_message s,
      turn,
      encode_turn-leg_message s v c b (elim h [ inl p ↦ v.sending p | inr p ↦ v.receiving p ]),
    )
