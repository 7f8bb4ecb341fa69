-- ===== src/Mediator/Liveness.antt =====
-- A session (src/mediator.cpp) under the calls of honest participants.
use tradep2p.Base.{
  ℕ, zero, suc, ◌≤◌, ◌+◌, ◌*◌, ◌≡◌, refl, List, [], ◌∷◌, Bool, true, ok, err, Result, arith, ◌⊎◌,
  inl, inr, ◌≢◌, is_ok, Error,
}
use tradep2p.Protocol.Validate.{validate_address}
use tradep2p.Protocol.Types.{Party, FeeTerms}
use tradep2p.Protocol.Trade.{RoundSignalMessage}
use tradep2p.Mediator.Session.{
  SessionState, MediatorSession, CreateRoomMessage, FeePosition, new_session,
}
use tradep2p.Mediator.Step.{
  Event, step, advance_after_receipt, after_first_leg, after_second_leg, open_gate,
  sender_reported_sent,
}
use tradep2p.Mediator.Invariant.{
  IsValid, step-IsValid, new_session-IsValid, join-eq-ok, received-eq-ok, sent-eq-ok,
  fee_sent-eq-ok, leg_sent-eq-ok, confirm-eq-ok, acknowledge-eq-ok,
}
use tradep2p.Mediator.Turn.{Configured, terms-facts}
use tradep2p.Mediator.Ledger.{
  Ledger, empty_ledger, new_session-Configured, book, run, step-SameRoom, Configured-SameRoom,
}
use tradep2p.Mediator.Ends.{calls_left, step-calls_left}
use tradep2p.Mediator.Runs.{run_complete, new_session-eq-ok}
use tradep2p.Mediator.Honest.{
  next_call, honest_calls, join_ok, sent_ok, received_ok, fee_sent_ok, acknowledged_ok,
  fee_confirmed_ok,
}

-- In a session that is valid, has the terms that the constructor checked, and is neither complete
-- nor aborted, the call that an honest participant makes in its state does not throw, if the
-- address of party B is valid.
pub next_call_ok :
    (s : MediatorSession) (address : List ℕ)
    → IsValid s
    → Configured s
    → validate_address address ≡ ok tt
    → s.state ≢ SessionState.complete
    → s.state ≢ SessionState.aborted
    → is_ok (step s (next_call address s.state s)) ≡ true
next_call_ok s address v c a n m = go s.state refl
  where
    go :
        (state : SessionState) → s.state ≡ state → is_ok (step s (next_call address state s)) ≡ true
    go SessionState.waiting_for_peer h = join_ok s address h a
    go SessionState.waiting_for_sent h = sent_ok s address v (terms-facts s.creator c.terms) h
    go SessionState.waiting_for_received h =
        received_ok s address v (terms-facts s.creator c.terms) h
    go SessionState.waiting_for_fee_sent h = fee_sent_ok s address h
    go SessionState.waiting_for_final_receipt_ack h = acknowledged_ok s address v h
    go SessionState.waiting_for_fee_confirmation h = fee_confirmed_ok s h
    go SessionState.complete h = ground (arith, n h)
    go SessionState.aborted h = ground (arith, m h)
    go (SessionState.unnamed k) h = ground (arith, v.named)

advance_goes_on : (s : MediatorSession) → (advance_after_receipt s).state ≢ SessionState.aborted
unfolding advance_after_receipt after_first_leg after_second_leg
advance_goes_on s = ground arith

open_gate_goes_on :
    (s : MediatorSession)
    → s.state ≢ SessionState.aborted
    → (open_gate s).state ≢ SessionState.aborted
unfolding open_gate
open_gate_goes_on s h = ground arith

sent_goes_on :
    (s : MediatorSession) (address : List ℕ) (party : Party) (message : RoundSignalMessage)
    {t : MediatorSession}
    → sender_reported_sent s party message ≡ ok t
    → t.state ≢ SessionState.aborted
sent_goes_on s address party message p = elim (sent-eq-ok s party message p) [
  | inl (_, f) ↦ ground (arith, fee_sent-eq-ok s party message f)
  | inr (_, f) ↦ ground (arith, leg_sent-eq-ok s party message f)
]

-- No honest call aborts the session.
next_call_goes_on :
    (s : MediatorSession) (address : List ℕ) (state : SessionState) {t : MediatorSession}
    → step s (next_call address state s) ≡ ok t
    → t.state ≢ SessionState.aborted
unfolding step
next_call_goes_on s address SessionState.waiting_for_peer p = ground (arith, join-eq-ok s _ p)
next_call_goes_on s address SessionState.waiting_for_sent p = sent_goes_on s address _ _ p
next_call_goes_on s address SessionState.waiting_for_fee_sent p = sent_goes_on s address _ _ p
next_call_goes_on s address SessionState.waiting_for_received p =
    let (_, q) = received-eq-ok s _ _ p in rw q (advance_goes_on s)
next_call_goes_on s address SessionState.waiting_for_final_receipt_ack p =
    let (h, _, q) = acknowledge-eq-ok s _ p in rw q (open_gate_goes_on _ (ground arith))
next_call_goes_on s address _ p = ground (arith, confirm-eq-ok s p)

calls_left_zero :
    (s : MediatorSession)
    → IsValid s
    → s.state ≢ SessionState.aborted
    → calls_left s.state s ≤ 0
    → s.state ≡ SessionState.complete
calls_left_zero s v n h = go s.state refl
  where
    go : (state : SessionState) → s.state ≡ state → state ≡ SessionState.complete
    go SessionState.complete p = refl
    go _ p = ground (arith, v.named)

run_ok :
    (s t : MediatorSession) (l : Ledger) (e : Event) (es : List Event)
    → step s e ≡ ok t
    → run s l (e ∷ es) ≡ run t (book s e l) es
unfolding run
run_ok s t l e es p = rw (p, run) refl

complete_or_not :
    (state : SessionState) → (state ≡ SessionState.complete) ⊎ (state ≢ SessionState.complete)
complete_or_not SessionState.complete = inl refl
complete_or_not _ = inr (λ p. cc)

-- Only a complete session refuses the honest call.
refused-complete :
    (s : MediatorSession) (address : List ℕ) {x : Error}
    → IsValid s
    → Configured s
    → validate_address address ≡ ok tt
    → s.state ≢ SessionState.aborted
    → step s (next_call address s.state s) ≡ err x
    → s.state ≡ SessionState.complete
refused-complete s address v c a m p = elim (complete_or_not s.state) [
  | inl h ↦ h
  | inr n ↦ ground (arith, next_call_ok s address v c a n m)
]

-- From any session that is valid, has the terms that the constructor checked and is not aborted,
-- and for a valid address of party B, as many honest calls as the bound on the calls left end in
-- the state complete.
pub honest_calls-complete :
    (n : ℕ) (address : List ℕ) (s : MediatorSession) (l : Ledger)
    → IsValid s
    → Configured s
    → validate_address address ≡ ok tt
    → s.state ≢ SessionState.aborted
    → calls_left s.state s ≤ n
    → (run s l (honest_calls n address s)).0.state ≡ SessionState.complete
unfolding honest_calls
honest_calls-complete zero address s l v c a m h = unfold run in calls_left_zero s v m h
honest_calls-complete (suc n) address s l v c a m h = go (step s call) refl (λ t p.
    honest_calls-complete n address t (book s call l) (step-IsValid s call v p)
      (Configured-SameRoom (step-SameRoom s call p) c) a (next_call_goes_on s address s.state p)
      (let less = step-calls_left s call v m p in ground arith))
  where
    call : Event
    call = next_call address s.state s

    go :
        (r : Result MediatorSession)
        → step s call ≡ r
        → ((t : MediatorSession)
            → step s call ≡ ok t
            → (run t (book s call l) (honest_calls n address t)).0.state ≡ SessionState.complete)
        → let es : List Event = elim r [ ok t ↦ call ∷ honest_calls n address t | err x ↦ [] ] in
          (run s l es).0.state ≡ SessionState.complete
    go (ok t) p more = rw (run_ok s t l call (honest_calls n address t) p) (more t p)
    go (err x) p more = unfold run in refused-complete s address v c a m p

-- For a session that the constructor accepts and a valid address of party B, the calls that
-- honest participants make, at most 16 per round and 7 more, end in the state complete; party A
-- has then got across exactly its total, party B exactly its total, and the fee reported as paid
-- is the amount configured.
pub honest_calls-settle :
    (creator : CreateRoomMessage) (room_id : List ℕ) (fee : FeeTerms) (confirm : Bool)
    (position : FeePosition) {s : MediatorSession} (address : List ℕ)
    → new_session creator room_id fee confirm position ≡ ok s
    → validate_address address ≡ ok tt
    → let out : MediatorSession × Ledger =
        run s empty_ledger (honest_calls (16 * creator.terms.rounds + 7) address s) in
      (out.0.state ≡ SessionState.complete)
      × (out.1.delivered_a ≡ creator.terms.total_a)
      × (out.1.delivered_b ≡ creator.terms.total_b)
      × (out.1.fee_paid ≡ fee.amount)
honest_calls-settle creator room_id fee confirm position {s} address made a =
    let valid = new_session-IsValid creator room_id fee confirm position made in
    let configured = new_session-Configured creator room_id fee confirm position made in
    let (c, _, h, r, l) = new_session-eq-ok creator room_id fee confirm position made in
    let done =
      honest_calls-complete (16 * creator.terms.rounds + 7) address s empty_ledger valid configured
        a (ground arith) (ground arith) in
    let (x, y, z) = run_complete creator room_id fee confirm position made _ done in (done, x, y, z)
