-- ===== src/Mediator/Examples.antt =====
-- A settlement in two rounds with a fee before the last one (src/mediator.cpp), on which the
-- theorems are applied.
use tradep2p.Base.{
  ℕ, ◌+◌, ◌≤◌, ◌<◌, ◌≡◌, refl, List, [], ◌∷◌, ◌++◌, true, false, ok, arith, ◌⊎◌, inl, inr,
  replicate, is_ok, ◌/◌,
}
use tradep2p.Protocol.Types.{Party, FeeTerms}
use tradep2p.Protocol.Validate.{
  validate_terms, validate_asset, check_each, is_alnum, validate_party, validate_address,
  validate_printable, validate_room_id, validate_nonzero_id, validate_fee_terms,
}
use tradep2p.Protocol.Tranche.{
  tranche_amount, tranche_amount_bounds, sum_tranches, sum_tranches-all, other_party,
  first_tranches,
}
use tradep2p.Mediator.Session.{
  SessionState, MediatorSession, CreateRoomMessage, FeePosition, new_session, join, validate_signal,
  current_sender, current_receiver, current_turn, sender_in, leg_sender, first_sender_for_round,
  is_after_last_round,
}
use tradep2p.Mediator.Step.{
  Event, step, advance_after_receipt, after_first_leg, after_second_leg, sender_reported_sent,
  sent_in, fee_reported_sent, leg_reported_sent, receiver_reported_received, confirm_fee_received,
  acknowledge_final_receipt, open_gate, final_receipt_acked, final_receipt_gate_is_fee_leg,
}
use tradep2p.Mediator.Invariant.{IsValid, Acked, AtFinalLeg, step-IsValid, new_session-IsValid}
use tradep2p.Mediator.Turn.{Configured, TermsFacts, terms-facts, leg_message, current_turn-leg}
use tradep2p.Mediator.Ledger.{Ledger, empty_ledger, book, run, new_session-Configured}
use tradep2p.Mediator.Settlement.{IsSettled, step-IsSettled}
use tradep2p.Mediator.Runs.{run_complete, run_exposure, run_gate}
use tradep2p.Mediator.Announce.{encode_turn-current_turn}
use tradep2p.Protocol.Trade.{TurnMessage, encode_turn}
use tradep2p.Mediator.Bounded.{accepted_calls, accepted_calls-bound}
use tradep2p.Mediator.Honest.{next_call, honest_calls}
use tradep2p.Mediator.Liveness.{next_call_ok, honest_calls-complete, honest_calls-settle}

abbrev creator : CreateRoomMessage
creator = record {
  terms = record {
    version = 5;
    asset_a = b'B' ∷ b'T' ∷ b'C' ∷ [];
    asset_b = b'X' ∷ b'M' ∷ b'R' ∷ [];
    total_a = 10;
    total_b = 7;
    rounds = 2;
    first_sender = Party.b;
  };
  receive_address_a = b'q' ∷ b'1' ∷ [];
}

abbrev room : List ℕ
room = replicate 32 9

abbrev operator_fee : FeeTerms
operator_fee = record { asset = b'B' ∷ b'T' ∷ b'C' ∷ []; amount = 3; address = b'm' ∷ b'1' ∷ [] }

abbrev peer_address : List ℕ
peer_address = b'x' ∷ b'2' ∷ b'3' ∷ []

abbrev start : MediatorSession
start = record {
  creator = creator;
  room_id = room;
  receive_address_b = [];
  fee = operator_fee;
  state = SessionState.waiting_for_peer;
  round_index = 0;
  leg_index = 0;
  abort_reason = [];
  final_receipt_acked_a = false;
  final_receipt_acked_b = false;
  require_fee_confirmation = true;
  fee_position = FeePosition.before_last_round;
}

made : new_session creator room operator_fee true FeePosition.before_last_round ≡ ok start
unfolding new_session validate_terms validate_asset check_each is_alnum validate_party
    validate_address validate_printable validate_room_id validate_nonzero_id validate_fee_terms
made = refl

address_valid : validate_address peer_address ≡ ok tt
unfolding validate_address validate_printable check_each
address_valid = refl

start-IsValid : IsValid start
start-IsValid =
    new_session-IsValid creator room operator_fee true FeePosition.before_last_round made

start-Configured : Configured start
start-Configured =
    new_session-Configured creator room operator_fee true FeePosition.before_last_round made

-- A call that is refused, and then the honest ones.
abbrev calls : List Event
calls = Event.fee_confirmed ∷ honest_calls 39 peer_address start

abbrev some_calls : List Event
some_calls = Event.fee_confirmed ∷ honest_calls 4 peer_address start

-- As far as the second leg of the last round.
abbrev gated_calls : List Event
gated_calls = honest_calls 11 peer_address start

all_settled : (run start empty_ledger calls).0.state ≡ SessionState.complete
unfolding run honest_calls step join validate_address validate_printable check_each
    sender_reported_sent sent_in fee_reported_sent leg_reported_sent receiver_reported_received
    confirm_fee_received acknowledge_final_receipt open_gate final_receipt_acked
    final_receipt_gate_is_fee_leg advance_after_receipt after_first_leg after_second_leg
    validate_signal current_sender current_receiver sender_in leg_sender first_sender_for_round
    other_party validate_party
all_settled = refl

run_complete_example :
    ((run start empty_ledger calls).1.delivered_a ≡ 10)
    × ((run start empty_ledger calls).1.delivered_b ≡ 7)
    × ((run start empty_ledger calls).1.fee_paid ≡ 3)
run_complete_example =
    run_complete creator room operator_fee true FeePosition.before_last_round made calls all_settled

run_exposure_example :
    (j k : ℕ) × ((run start empty_ledger some_calls).1.delivered_a ≡ first_tranches 10 2 j)
    × ((run start empty_ledger some_calls).1.delivered_b ≡ first_tranches 7 2 k)
    × (j ≤ k + 1)
    × (k ≤ j + 1)
    × (j ≤ 2)
    × (k ≤ 2)
run_exposure_example =
    run_exposure creator room operator_fee true FeePosition.before_last_round made some_calls

gated_here :
    (((run start empty_ledger gated_calls).0.state ≡ SessionState.waiting_for_sent)
        ⊎ ((run start empty_ledger gated_calls).0.state ≡ SessionState.waiting_for_received))
      × AtFinalLeg (run start empty_ledger gated_calls).0
    ⊎ ((run start empty_ledger gated_calls).0.state ≡ SessionState.waiting_for_fee_sent)
      × (is_after_last_round (run start empty_ledger gated_calls).0.fee_position ≡ true)
unfolding run honest_calls step join validate_address validate_printable check_each
    sender_reported_sent sent_in fee_reported_sent leg_reported_sent receiver_reported_received
    confirm_fee_received acknowledge_final_receipt open_gate final_receipt_acked
    final_receipt_gate_is_fee_leg advance_after_receipt after_first_leg after_second_leg
    validate_signal current_sender current_receiver sender_in leg_sender first_sender_for_round
    other_party validate_party
gated_here = inl (inl refl, (refl, refl, inr refl))

run_gate_example : Acked (run start empty_ledger gated_calls).0
run_gate_example =
    run_gate creator room operator_fee true FeePosition.before_last_round made gated_calls
      gated_here

honest_calls-settle_example :
    let out : MediatorSession × Ledger =
      run start empty_ledger (honest_calls 39 peer_address start) in
    (out.0.state ≡ SessionState.complete)
    × (out.1.delivered_a ≡ 10)
    × (out.1.delivered_b ≡ 7)
    × (out.1.fee_paid ≡ 3)
honest_calls-settle_example =
    honest_calls-settle creator room operator_fee true FeePosition.before_last_round peer_address
      made address_valid

honest_calls-complete_example :
    (run start empty_ledger (honest_calls 39 peer_address start)).0.state ≡ SessionState.complete
honest_calls-complete_example =
    honest_calls-complete 39 peer_address start empty_ledger start-IsValid start-Configured
      address_valid (ground arith) (omega arith)

next_call_ok_example : is_ok (step start (next_call peer_address start.state start)) ≡ true
next_call_ok_example =
    next_call_ok start peer_address start-IsValid start-Configured address_valid (ground arith)
      (ground arith)

-- The first leg of the last round is reported as received.
abbrev late : MediatorSession
late = record start {
  receive_address_b = peer_address;
  state = SessionState.waiting_for_received;
  round_index = 1;
}

late-IsValid : IsValid late
late-IsValid = ground arith

late-TermsFacts : TermsFacts late.creator
late-TermsFacts = terms-facts creator start-Configured.terms

abbrev receipt : Event
receipt = Event.received Party.b (record { room_id = room; round_index = 1; sender = Party.a })

abbrev behind : MediatorSession
behind = record late { state = SessionState.waiting_for_final_receipt_ack; leg_index = 1 }

late_steps : step late receipt ≡ ok behind
unfolding run honest_calls step join validate_address validate_printable check_each
    sender_reported_sent sent_in fee_reported_sent leg_reported_sent receiver_reported_received
    confirm_fee_received acknowledge_final_receipt open_gate final_receipt_acked
    final_receipt_gate_is_fee_leg advance_after_receipt after_first_leg after_second_leg
    validate_signal current_sender current_receiver sender_in leg_sender first_sender_for_round
    other_party validate_party
late_steps = refl

abbrev late_ledger : Ledger
late_ledger = record { delivered_a = 5; delivered_b = 4; fee_paid = 3 }

late-IsSettled : IsSettled late late_ledger
unfolding first_tranches
late-IsSettled = record { side_a = refl; side_b = refl }

step-IsValid_example : IsValid behind
step-IsValid_example = step-IsValid late receipt late-IsValid late_steps

step-IsSettled_example : IsSettled behind (book late receipt late_ledger)
step-IsSettled_example =
    step-IsSettled late receipt late_ledger late-IsValid late-TermsFacts late_steps late-IsSettled

-- The calls, and then one that is too late.
accepted_calls-bound_example : accepted_calls start (calls ++ Event.fee_confirmed ∷ []) ≤ 39
accepted_calls-bound_example =
    accepted_calls-bound creator room operator_fee true FeePosition.before_last_round
      (calls ++ Event.fee_confirmed ∷ []) made

current_turn-leg_example :
    (current_sender late ≡ ok Party.a) × (current_turn late ≡ ok (leg_message late))
current_turn-leg_example = current_turn-leg late late-IsValid late-TermsFacts (inr refl)

sum_tranches-all_example : sum_tranches 7 2 2 ≡ ok 7
sum_tranches-all_example = sum_tranches-all 7 2 (omega arith) (omega arith)

four : tranche_amount 7 2 0 ≡ ok 4
unfolding tranche_amount
four = refl

tranche_amount_bounds_example :
    (0 < 2) × (2 ≤ 7) × (0 < 4) × (7 / 2 ≤ 4) × (4 ≤ 7 / 2 + 1) × (4 ≤ 7)
tranche_amount_bounds_example = tranche_amount_bounds 7 2 0 four

late-Configured : Configured late
late-Configured = record {
  terms = start-Configured.terms;
  address_a = start-Configured.address_a;
  room_id = start-Configured.room_id;
  fee = start-Configured.fee;
}

encode_turn-current_turn_example :
    (m : TurnMessage) × (current_turn late ≡ ok m) × (is_ok (encode_turn m) ≡ true)
encode_turn-current_turn_example =
    encode_turn-current_turn late late-IsValid late-Configured address_valid (inr refl)
