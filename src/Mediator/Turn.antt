-- ===== src/Mediator/Turn.antt =====
-- Whose turn it is (src/mediator.cpp), in a session between two calls.
use tradep2p.Base.{◌%◌, ◌≤◌, ◌<◌, ◌≡◌, refl, ◌⊎◌, inl, inr, false, ◌==◌, if◌then◌else◌, arith, ok}
use tradep2p.Protocol.Types.{Party}
use tradep2p.Protocol.Validate.{
  validate_address, validate_asset, validate_terms, validate_room_id, validate_fee_terms,
  validate_party,
}
use tradep2p.Protocol.Tranche.{other_party, opposite, tranche, tranche_amount-tranche}
use tradep2p.Protocol.Trade.{TurnMessage}
use tradep2p.Mediator.Session.{
  SessionState, MediatorSession, CreateRoomMessage, party_eq, first_sender_for_round, leg_sender,
  sender_in, current_sender, leg_turn, current_turn,
}
use tradep2p.Mediator.Invariant.{IsValid}

-- What the constructor checks, and no call changes.
pub record Configured (s : MediatorSession) : Type 0 where
  pub terms : validate_terms s.creator.terms ≡ ok tt
  pub address_a : validate_address s.creator.receive_address_a ≡ ok tt
  pub room_id : validate_room_id s.room_id ≡ ok tt
  pub fee : validate_fee_terms s.fee ≡ ok tt

pub record TermsFacts (c : CreateRoomMessage) : Type 0 where
  pub asset_a : validate_asset c.terms.asset_a ≡ ok tt
  pub asset_b : validate_asset c.terms.asset_b ≡ ok tt
  pub cover_a : c.terms.rounds ≤ c.terms.total_a
  pub cover_b : c.terms.rounds ≤ c.terms.total_b
  pub first : (c.terms.first_sender ≡ Party.a) ⊎ (c.terms.first_sender ≡ Party.b)

party_named : (p : Party) → validate_party p ≡ ok tt → (p ≡ Party.a) ⊎ (p ≡ Party.b)
unfolding validate_party
party_named Party.a h = inl refl
party_named Party.b h = inr refl
party_named (Party.unnamed n) h = cc

pub terms-facts : (c : CreateRoomMessage) → validate_terms c.terms ≡ ok tt → TermsFacts c
unfolding validate_terms
terms-facts c h = ground (arith, party_named c.terms.first_sender)

-- The party that sends first in the round, and the sender of the leg.
abbrev pub round_sender : MediatorSession → Party
round_sender s =
    if s.round_index % 2 == 0
    then s.creator.terms.first_sender
    else opposite s.creator.terms.first_sender

abbrev pub leg_party : MediatorSession → Party
leg_party s = if s.leg_index == 0 then round_sender s else opposite (round_sender s)

leg_sender_lem :
    (s : MediatorSession)
    → (s.creator.terms.first_sender ≡ Party.a) ⊎ (s.creator.terms.first_sender ≡ Party.b)
    → leg_sender s ≡ ok (leg_party s)
unfolding leg_sender first_sender_for_round other_party validate_party
leg_sender_lem s h = ground arith

-- The turn of the leg, in full.
abbrev pub leg_message : MediatorSession → TurnMessage
leg_message s =
    if party_eq (leg_party s) Party.a
    then record {
      room_id = s.room_id;
      round_index = s.round_index;
      sender = Party.a;
      asset = s.creator.terms.asset_a;
      amount = tranche s.creator.terms.total_a s.creator.terms.rounds s.round_index;
      destination = s.receive_address_b;
      is_fee = false;
    }
    else record {
      room_id = s.room_id;
      round_index = s.round_index;
      sender = Party.b;
      asset = s.creator.terms.asset_b;
      amount = tranche s.creator.terms.total_b s.creator.terms.rounds s.round_index;
      destination = s.creator.receive_address_a;
      is_fee = false;
    }

leg_turn_lem :
    (s : MediatorSession)
    → IsValid s
    → TermsFacts s.creator
    → s.round_index < s.creator.terms.rounds
    → leg_turn s (leg_party s) ≡ ok (leg_message s)
unfolding leg_turn
leg_turn_lem s v f h = ground (
  arith,
  tranche_amount-tranche s.creator.terms.total_a s.creator.terms.rounds s.round_index,
  tranche_amount-tranche s.creator.terms.total_b s.creator.terms.rounds s.round_index,
)

-- In a valid session whose terms were checked and in which a leg is due or on its way, the
-- current sender is the first sender of the round or, on the second leg, the other party, and the
-- turn names the asset, the tranche of the round and the address that belong to that sender.
pub current_turn-leg :
    (s : MediatorSession)
    → IsValid s
    → TermsFacts s.creator
    → (s.state ≡ SessionState.waiting_for_sent) ⊎ (s.state ≡ SessionState.waiting_for_received)
    → (current_sender s ≡ ok (leg_party s)) × (current_turn s ≡ ok (leg_message s))
unfolding current_turn current_sender sender_in
current_turn-leg s v f (inl h) = (
  ground (arith, leg_sender_lem s f.first),
  ground (arith, leg_sender_lem s f.first, leg_turn_lem s v f (v.sending h)),
)
current_turn-leg s v f (inr h) = (
  ground (arith, leg_sender_lem s f.first),
  ground (arith, leg_sender_lem s f.first, leg_turn_lem s v f (v.receiving h)),
)
