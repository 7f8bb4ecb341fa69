-- ===== src/Mediator/Honest.antt =====
-- The calls that two honest parties and an operator make of a session (src/mediator.cpp), in
-- turn.
use tradep2p.Base.{
  ℕ, zero, suc, ◌≡◌, refl, List, [], ◌∷◌, true, if◌then◌else◌, ok, err, arith, inl, inr,
  bytes_eq_refl, is_ok,
}
use tradep2p.Protocol.Types.{Party}
use tradep2p.Protocol.Validate.{validate_address, validate_party}
use tradep2p.Protocol.Tranche.{opposite, other_party}
use tradep2p.Protocol.Trade.{RoundSignalMessage}
use tradep2p.Mediator.Session.{
  SessionState, MediatorSession, join, party_eq, validate_signal, current_sender, current_receiver,
}
use tradep2p.Mediator.Step.{
  Event, step, final_receipt_acked, sender_reported_sent, sent_in, fee_reported_sent,
  leg_reported_sent, receiver_reported_received, confirm_fee_received, acknowledge_final_receipt,
}
use tradep2p.Mediator.Invariant.{IsValid}
use tradep2p.Mediator.Turn.{TermsFacts, leg_party, current_turn-leg}

abbrev signal : MediatorSession → Party → RoundSignalMessage
signal s sender = record { room_id = s.room_id; round_index = s.round_index; sender = sender }

-- The call that an honest participant makes in the state; `address` is party B's.
abbrev pub next_call : List ℕ → SessionState → MediatorSession → Event
next_call address SessionState.waiting_for_peer s =
    Event.joined (record { room_id = s.room_id; receive_address_b = address })
next_call address SessionState.waiting_for_sent s =
    Event.sent (leg_party s) (signal s (leg_party s))
next_call address SessionState.waiting_for_received s =
    Event.received (opposite (leg_party s)) (signal s (leg_party s))
next_call address SessionState.waiting_for_fee_sent s = Event.sent Party.a (signal s Party.a)
next_call address SessionState.waiting_for_final_receipt_ack s =
    Event.acknowledged (if s.final_receipt_acked_a then Party.b else Party.a)
next_call address _ s = Event.fee_confirmed

-- The honest calls from `s` on, at most `n`.
unfoldable pub honest_calls : ℕ → List ℕ → MediatorSession → List Event
honest_calls zero address s = []
honest_calls (suc n) address s = elim (step s (next_call address s.state s)) [
  | ok t ↦ next_call address s.state s ∷ honest_calls n address t
  | err x ↦ []
]

party_eq_refl : (p : Party) → party_eq p p ≡ true
party_eq_refl Party.a = refl
party_eq_refl Party.b = refl
party_eq_refl (Party.unnamed n) = ground arith

signal_valid :
    (s : MediatorSession) (p : Party)
    → current_sender s ≡ ok p
    → validate_signal s (signal s p) ≡ ok tt
unfolding validate_signal
signal_valid s p h = ground (arith, bytes_eq_refl s.room_id, party_eq_refl p)

pub join_ok :
    (s : MediatorSession) (address : List ℕ)
    → s.state ≡ SessionState.waiting_for_peer
    → validate_address address ≡ ok tt
    → is_ok (step s (next_call address SessionState.waiting_for_peer s)) ≡ true
unfolding step join
join_ok s address h a = ground (arith, bytes_eq_refl s.room_id)

pub sent_ok :
    (s : MediatorSession) (address : List ℕ)
    → IsValid s
    → TermsFacts s.creator
    → s.state ≡ SessionState.waiting_for_sent
    → is_ok (step s (next_call address SessionState.waiting_for_sent s)) ≡ true
unfolding step sender_reported_sent sent_in leg_reported_sent
sent_ok s address v f h =
    let (p, _) = current_turn-leg s v f (inl h) in
    ground (arith, signal_valid s (leg_party s) p, party_eq_refl (leg_party s))

pub received_ok :
    (s : MediatorSession) (address : List ℕ)
    → IsValid s
    → TermsFacts s.creator
    → s.state ≡ SessionState.waiting_for_received
    → is_ok (step s (next_call address SessionState.waiting_for_received s)) ≡ true
unfolding step receiver_reported_received current_receiver other_party validate_party
received_ok s address v f h =
    let (p, _) = current_turn-leg s v f (inr h) in
    let named = f.first in
    ground (arith, signal_valid s (leg_party s) p, party_eq_refl (opposite (leg_party s)))

pub fee_sent_ok :
    (s : MediatorSession) (address : List ℕ)
    → s.state ≡ SessionState.waiting_for_fee_sent
    → is_ok (step s (next_call address SessionState.waiting_for_fee_sent s)) ≡ true
unfolding step sender_reported_sent sent_in fee_reported_sent
fee_sent_ok s address h = ground (arith, bytes_eq_refl s.room_id)

pub acknowledged_ok :
    (s : MediatorSession) (address : List ℕ)
    → IsValid s
    → s.state ≡ SessionState.waiting_for_final_receipt_ack
    → is_ok (step s (next_call address SessionState.waiting_for_final_receipt_ack s)) ≡ true
unfolding step acknowledge_final_receipt final_receipt_acked
acknowledged_ok s address v h = ground arith

pub fee_confirmed_ok :
    (s : MediatorSession)
    → s.state ≡ SessionState.waiting_for_fee_confirmation
    → is_ok (step s Event.fee_confirmed) ≡ true
unfolding step confirm_fee_received
fee_confirmed_ok s h = ground arith
