-- ===== src/Mediator/Ends.antt =====
-- A bound on the calls that a session (src/mediator.cpp) can still accept.
use tradep2p.Base.{ℕ, ◌+◌, ◌-◌, ◌*◌, ◌<◌, ◌≡◌, false, if◌then◌else◌, ok, arith, inl, inr, ◌≢◌}
use tradep2p.Protocol.Types.{Party}
use tradep2p.Mediator.Session.{SessionState, MediatorSession}
use tradep2p.Mediator.Step.{
  Event, step, with_ack, advance_after_receipt, after_first_leg, after_second_leg, open_gate,
  final_receipt_gate_is_fee_leg, final_receipt_acked,
}
use tradep2p.Mediator.Invariant.{
  IsValid, join-eq-ok, received-eq-ok, sent-eq-ok, fee_sent-eq-ok, leg_sent-eq-ok, confirm-eq-ok,
  acknowledge-eq-ok, abort-eq-ok,
}

-- What is left to do at one place of the settlement.
abbrev left_here : SessionState → MediatorSession → ℕ
left_here SessionState.waiting_for_peer s = 7
left_here SessionState.waiting_for_final_receipt_ack s =
    if s.final_receipt_acked_a then 5 else (if s.final_receipt_acked_b then 5 else 6)
left_here SessionState.waiting_for_fee_sent s = 4
left_here SessionState.waiting_for_fee_confirmation s = 3
left_here SessionState.waiting_for_sent s = 2
left_here _ s = 1

-- A bound on the calls that can still be accepted.
abbrev pub calls_left : SessionState → MediatorSession → ℕ
calls_left SessionState.complete s = 0
calls_left SessionState.aborted s = 0
calls_left state s =
    8 * (2 * s.creator.terms.rounds - (2 * s.round_index + s.leg_index)) + left_here state s

received-calls_left :
    (s : MediatorSession)
    → IsValid s
    → s.state ≡ SessionState.waiting_for_received
    → calls_left (advance_after_receipt s).state (advance_after_receipt s) < calls_left s.state s
unfolding advance_after_receipt after_first_leg after_second_leg
received-calls_left s v h = ground arith

acknowledged-calls_left :
    (s : MediatorSession) (party : Party)
    → IsValid s
    → s.state ≡ SessionState.waiting_for_final_receipt_ack
    → final_receipt_acked s party ≡ false
    → calls_left (open_gate (with_ack s party)).state (open_gate (with_ack s party))
      < calls_left s.state s
unfolding open_gate final_receipt_gate_is_fee_leg final_receipt_acked
acknowledged-calls_left s Party.a v h a = ground arith
acknowledged-calls_left s _ v h a = ground arith

-- In a valid session that is not aborted, every call that does not throw lowers the bound on the
-- calls left.
pub step-calls_left :
    (s : MediatorSession) (e : Event) {t : MediatorSession}
    → IsValid s
    → s.state ≢ SessionState.aborted
    → step s e ≡ ok t
    → calls_left t.state t < calls_left s.state s
unfolding step
step-calls_left s (Event.joined message) v n p = ground (arith, join-eq-ok s message p)
step-calls_left s (Event.sent party message) v n p = elim (sent-eq-ok s party message p) [
  | inl (h, g) ↦ ground (arith, fee_sent-eq-ok s party message g)
  | inr (h, g) ↦ ground (arith, leg_sent-eq-ok s party message g)
]
step-calls_left s (Event.received party message) v n p =
    let (h, q) = received-eq-ok s party message p in rw q (received-calls_left s v h)
step-calls_left s (Event.acknowledged party) v n p =
    let (h, a, q) = acknowledge-eq-ok s party p in rw q (acknowledged-calls_left s party v h a)
step-calls_left s Event.fee_confirmed v n p = ground (arith, confirm-eq-ok s p)
step-calls_left s (Event.abandoned reason) v n p = ground (arith, abort-eq-ok s reason p)
