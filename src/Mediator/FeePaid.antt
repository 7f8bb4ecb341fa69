-- ===== src/Mediator/FeePaid.antt =====
-- The fee of src/mediator.cpp in the ledger of a run.
use tradep2p.Base.{
  ◌+◌, ◌≡◌, Bool, true, false, ◌&&◌, ◌||◌, leb, not, if◌then◌else◌, ok, arith, inl, inr, ◌≢◌,
}
use tradep2p.Protocol.Types.{Party}
use tradep2p.Protocol.Trade.{RoundSignalMessage}
use tradep2p.Mediator.Session.{
  SessionState, MediatorSession, is_after_last_round, is_before_first_round,
}
use tradep2p.Mediator.Step.{
  Event, step, has_fee, with_ack, advance_after_receipt, after_first_leg, after_second_leg,
  open_gate, final_receipt_gate_is_fee_leg,
}
use tradep2p.Mediator.Invariant.{
  IsValid, join-eq-ok, received-eq-ok, sent-eq-ok, fee_sent-eq-ok, leg_sent-eq-ok, confirm-eq-ok,
  acknowledge-eq-ok, abort-eq-ok,
}
use tradep2p.Mediator.Ledger.{Ledger, book}

-- The fee's time has come before the round that is on.
abbrev fee_is_behind : MediatorSession → Bool
fee_is_behind s =
    is_before_first_round s.fee_position || leb s.creator.terms.rounds (s.round_index + 1)

-- The fee was reported as paid, by the state of a session that is not aborted.
abbrev pub fee_reported : SessionState → MediatorSession → Bool
fee_reported SessionState.waiting_for_peer s = false
fee_reported SessionState.waiting_for_fee_sent s = false
fee_reported SessionState.waiting_for_fee_confirmation s = true
fee_reported SessionState.complete s = has_fee s
fee_reported _ s = has_fee s && not (is_after_last_round s.fee_position) && fee_is_behind s

-- The ledger holds the whole fee, or nothing of it.
abbrev pub FeeSettled : MediatorSession → Ledger → Type 0
FeeSettled s l =
    s.state ≢ SessionState.aborted
    → l.fee_paid ≡ (if fee_reported s.state s then s.fee.amount else 0)

received-FeeSettled :
    (s : MediatorSession) (l : Ledger)
    → IsValid s
    → s.state ≡ SessionState.waiting_for_received
    → FeeSettled s l
    → FeeSettled (advance_after_receipt s) l
unfolding advance_after_receipt after_first_leg after_second_leg
received-FeeSettled s l v h b = ground arith

open_gate-FeeSettled :
    (s : MediatorSession) (party : Party) (l : Ledger)
    → IsValid s
    → s.state ≡ SessionState.waiting_for_final_receipt_ack
    → FeeSettled s l
    → FeeSettled (open_gate (with_ack s party)) l
unfolding open_gate final_receipt_gate_is_fee_leg
open_gate-FeeSettled s Party.a l v h b = ground arith
open_gate-FeeSettled s _ l v h b = ground arith

book-sent_leg :
    (s : MediatorSession) (party : Party) (message : RoundSignalMessage) (l : Ledger)
    → s.state ≡ SessionState.waiting_for_sent
    → book s (Event.sent party message) l ≡ l
unfolding book
book-sent_leg s party message l h = ground arith

book-sent_fee :
    (s : MediatorSession) (party : Party) (message : RoundSignalMessage) (l : Ledger)
    → s.state ≡ SessionState.waiting_for_fee_sent
    → (book s (Event.sent party message) l).fee_paid ≡ l.fee_paid + s.fee.amount
unfolding book
book-sent_fee s party message l h = ground arith

book-received_fee :
    (s : MediatorSession) (party : Party) (message : RoundSignalMessage) (l : Ledger)
    → (book s (Event.received party message) l).fee_paid ≡ l.fee_paid
unfolding book
book-received_fee s party message l = ground arith

-- Every accepted call keeps the fee in the ledger in step with the state.
pub step-FeeSettled :
    (s : MediatorSession) (e : Event) (l : Ledger) {t : MediatorSession}
    → IsValid s
    → step s e ≡ ok t
    → FeeSettled s l
    → FeeSettled t (book s e l)
unfolding step
step-FeeSettled s (Event.joined message) l v p b =
    unfold book in ground (arith, join-eq-ok s message p)
step-FeeSettled s (Event.sent party message) l v p b = elim (sent-eq-ok s party message p) [
  | inl (h, g) ↦ ground (arith, fee_sent-eq-ok s party message g, book-sent_fee s party message l h)
  | inr (h, g) ↦ ground (arith, leg_sent-eq-ok s party message g, book-sent_leg s party message l h)
]
step-FeeSettled s (Event.received party message) l v p b =
    let (h, q) = received-eq-ok s party message p in
    rw q (ground (arith, received-FeeSettled s l v h b, book-received_fee s party message l))
step-FeeSettled s (Event.acknowledged party) l v p b =
    let (h, _, q) = acknowledge-eq-ok s party p in
    unfold book in rw q (open_gate-FeeSettled s party l v h b)
step-FeeSettled s Event.fee_confirmed l v p b = unfold book in ground (arith, confirm-eq-ok s p)
step-FeeSettled s (Event.abandoned reason) l v p b =
    unfold book in ground (arith, abort-eq-ok s reason p)
