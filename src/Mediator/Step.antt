-- ===== src/Mediator/Step.antt =====
-- The methods of MediatorSession that move a settlement on (src/mediator.cpp), and one step of a
-- session: a call of one of its mutating methods.
use tradep2p.Base.{
  ℕ, ◌+◌, List, [], ◌∷◌, Bool, true, false, ◌&&◌, ◌||◌, not, ◌==◌, ltb, if◌then◌else◌, bytes_eq,
  take, Result, ok, err, bind, throw_if, invalid_argument, logic_error,
}
use tradep2p.Base.Outcome.{◌>>◌}
use tradep2p.Protocol.Types.{Party, max_reason_length}
use tradep2p.Protocol.Validate.{is_empty}
use tradep2p.Protocol.Trade.{RoundSignalMessage}
use tradep2p.Mediator.Session.{
  SessionState, MediatorSession, JoinRoomMessage, party_eq, is_after_last_round,
  is_before_last_round, u32, join, current_sender, current_receiver, validate_signal,
}

-- The state behind a fee that the party says it paid.
abbrev pub after_fee : MediatorSession → SessionState
after_fee s =
    if is_after_last_round s.fee_position
    then SessionState.complete
    else SessionState.waiting_for_sent

-- The branch of sender_reported_sent() in which the fee is due.
unfoldable pub fee_reported_sent :
    MediatorSession → Party → RoundSignalMessage → Result MediatorSession
fee_reported_sent s reporting_party message = do
  throw_if (not (bytes_eq message.room_id s.room_id)) invalid_argument
  throw_if (not (message.round_index == s.round_index)) invalid_argument
  throw_if (not (party_eq reporting_party Party.a) || not (party_eq message.sender Party.a))
      invalid_argument
  ok (record s {
    state =
        if s.require_fee_confirmation
        then SessionState.waiting_for_fee_confirmation
        else after_fee s;
  })

-- The branch in which a leg of a round is due.
unfoldable pub leg_reported_sent :
    MediatorSession → Party → RoundSignalMessage → Result MediatorSession
leg_reported_sent s reporting_party message = do
  validate_signal s message
  bind (current_sender s) (λ sender.
      throw_if (not (party_eq reporting_party sender)) invalid_argument
      >> ok (record s { state = SessionState.waiting_for_received }))

-- The choice by the state in sender_reported_sent().
unfoldable pub sent_in :
    SessionState → MediatorSession → Party → RoundSignalMessage → Result MediatorSession
sent_in SessionState.waiting_for_fee_sent s reporting_party message =
    fee_reported_sent s reporting_party message
sent_in SessionState.waiting_for_sent s reporting_party message =
    leg_reported_sent s reporting_party message
sent_in _ s reporting_party message = err logic_error

unfoldable pub sender_reported_sent :
    MediatorSession → Party → RoundSignalMessage → Result MediatorSession
sender_reported_sent s reporting_party message = sent_in s.state s reporting_party message

abbrev pub has_fee : MediatorSession → Bool
has_fee s = ltb 0 s.fee.amount

-- Ask both parties for their acknowledgement.
abbrev pub gated : MediatorSession → MediatorSession
gated s = record s {
  final_receipt_acked_a = false;
  final_receipt_acked_b = false;
  state = SessionState.waiting_for_final_receipt_ack;
}

abbrev pub await_sent : MediatorSession → MediatorSession
await_sent s = record s { state = SessionState.waiting_for_sent }

-- `this_leg_is_final_tranche`: the second leg of the last round, unless the fee comes after it.
abbrev pub second_leg_is_final : MediatorSession → Bool
second_leg_is_final s =
    u32 (s.round_index + 1) == s.creator.terms.rounds
    && (s.fee.amount == 0 || not (is_after_last_round s.fee_position))

-- The first leg of a round was received.
unfoldable pub after_first_leg : MediatorSession → MediatorSession
after_first_leg s = if second_leg_is_final s then gated s else await_sent s

-- The second leg was received, and `round_index` has been counted up.
unfoldable pub after_second_leg : MediatorSession → MediatorSession
after_second_leg s =
    if has_fee s
      && is_before_last_round s.fee_position
      && s.round_index == u32 (s.creator.terms.rounds + 4294967295)
    then record s { state = SessionState.waiting_for_fee_sent }
    else (if s.round_index == s.creator.terms.rounds
        then (if has_fee s && is_after_last_round s.fee_position
            then gated s
            else record s { state = SessionState.complete })
        else await_sent s)

unfoldable pub advance_after_receipt : MediatorSession → MediatorSession
advance_after_receipt s =
    if s.leg_index == 0
    then after_first_leg (record s { leg_index = 1 })
    else after_second_leg (record s { leg_index = 0; round_index = u32 (s.round_index + 1) })

abbrev pub is_waiting_for_received : SessionState → Bool
is_waiting_for_received SessionState.waiting_for_received = true
is_waiting_for_received _ = false

unfoldable pub receiver_reported_received :
    MediatorSession → Party → RoundSignalMessage → Result MediatorSession
receiver_reported_received s reporting_party message = do
  throw_if (not (is_waiting_for_received s.state)) logic_error
  validate_signal s message
  bind (current_receiver s) (λ receiver.
      throw_if (not (party_eq reporting_party receiver)) invalid_argument
      >> ok (advance_after_receipt s))

abbrev pub is_waiting_for_fee_confirmation : SessionState → Bool
is_waiting_for_fee_confirmation SessionState.waiting_for_fee_confirmation = true
is_waiting_for_fee_confirmation _ = false

unfoldable pub confirm_fee_received : MediatorSession → Result MediatorSession
confirm_fee_received s = do
  throw_if (not (is_waiting_for_fee_confirmation s.state)) logic_error
  ok (record s { state = after_fee s })

abbrev pub is_waiting_for_final_receipt_ack : SessionState → Bool
is_waiting_for_final_receipt_ack SessionState.waiting_for_final_receipt_ack = true
is_waiting_for_final_receipt_ack _ = false

unfoldable pub final_receipt_acked : MediatorSession → Party → Bool
final_receipt_acked s party =
    if party_eq party Party.a then s.final_receipt_acked_a else s.final_receipt_acked_b

unfoldable pub final_receipt_gate_is_fee_leg : MediatorSession → Bool
final_receipt_gate_is_fee_leg s =
    has_fee s && is_after_last_round s.fee_position && s.round_index == s.creator.terms.rounds

abbrev pub with_ack : MediatorSession → Party → MediatorSession
with_ack s party =
    if party_eq party Party.a
    then record s { final_receipt_acked_a = true }
    else record s { final_receipt_acked_b = true }

-- Open the gate once both parties have acknowledged.
unfoldable pub open_gate : MediatorSession → MediatorSession
open_gate s =
    if s.final_receipt_acked_a && s.final_receipt_acked_b
    then record s {
      state =
          if final_receipt_gate_is_fee_leg s
          then SessionState.waiting_for_fee_sent
          else SessionState.waiting_for_sent;
    }
    else s

unfoldable pub acknowledge_final_receipt : MediatorSession → Party → Result MediatorSession
acknowledge_final_receipt s party = do
  throw_if (not (is_waiting_for_final_receipt_ack s.state)) logic_error
  throw_if (final_receipt_acked s party) logic_error
  ok (open_gate (with_ack s party))

abbrev pub is_complete : SessionState → Bool
is_complete SessionState.complete = true
is_complete _ = false

-- "session aborted"
abbrev default_reason : List ℕ
default_reason =
    b's' ∷ b'e' ∷ b's' ∷ b's' ∷ b'i' ∷ b'o' ∷ b'n' ∷ b' ' ∷ b'a' ∷ b'b' ∷ b'o' ∷ b'r' ∷ b't' ∷ b'e'
    ∷ b'd' ∷ []

unfoldable pub abort : MediatorSession → List ℕ → Result MediatorSession
abort s reason = do
  throw_if (is_complete s.state) logic_error
  ok (record s {
    abort_reason = take max_reason_length (if is_empty reason then default_reason else reason);
    state = SessionState.aborted;
  })

-- A call of a mutating method.
pub data Event : Type 0 where
  joined : JoinRoomMessage → Event
  sent : Party → RoundSignalMessage → Event
  received : Party → RoundSignalMessage → Event
  acknowledged : Party → Event
  fee_confirmed : Event
  abandoned : List ℕ → Event

unfoldable pub step : MediatorSession → Event → Result MediatorSession
step s (joined message) = join s message
step s (sent party message) = sender_reported_sent s party message
step s (received party message) = receiver_reported_received s party message
step s (acknowledged party) = acknowledge_final_receipt s party
step s fee_confirmed = confirm_fee_received s
step s (abandoned reason) = abort s reason
