-- ===== src/Journal/Transitions.antt =====
-- The local states that src/journal.cpp accepts beside the states that src/mediator.cpp goes through.
use tradep2p.Base.{◌≡◌, refl, ◌≢◌, ◌⊎◌, inl, inr, true, false, ok, arith}
use tradep2p.Protocol.Types.{Party}
use tradep2p.RoomPersistence.{session_state_to_u8}
use tradep2p.Mediator.Session.{SessionState, MediatorSession, is_after_last_round}
use tradep2p.Mediator.Step.{
  Event, step, with_ack, advance_after_receipt, after_first_leg, after_second_leg, open_gate,
  final_receipt_gate_is_fee_leg,
}
use tradep2p.Mediator.Invariant.{
  IsValid, join-eq-ok, received-eq-ok, sent-eq-ok, fee_sent-eq-ok, leg_sent-eq-ok, confirm-eq-ok,
  acknowledge-eq-ok, abort-eq-ok,
}
use tradep2p.Journal.Store.{follows, is_valid_transition}

-- A fee before the last round is asked for or was asked for.
abbrev pub HasEarlyFee : MediatorSession → MediatorSession → Type 0
HasEarlyFee s t =
    (is_after_last_round s.fee_position ≡ false)
    × ((t.state ≡ SessionState.waiting_for_fee_sent)
        ⊎ (s.state ≡ SessionState.waiting_for_fee_sent)
        ⊎ (s.state ≡ SessionState.waiting_for_fee_confirmation))

received-follows :
    (s : MediatorSession)
    → s.state ≡ SessionState.waiting_for_received
    → (is_valid_transition s.state (advance_after_receipt s).state ≡ true)
      ⊎ HasEarlyFee s (advance_after_receipt s)
unfolding advance_after_receipt after_first_leg after_second_leg is_valid_transition follows
    session_state_to_u8
received-follows s h = ground arith

acknowledged-follows :
    (s : MediatorSession) (party : Party)
    → s.state ≡ SessionState.waiting_for_final_receipt_ack
    → is_valid_transition s.state (open_gate (with_ack s party)).state ≡ true
unfolding open_gate final_receipt_gate_is_fee_leg is_valid_transition follows session_state_to_u8
acknowledged-follows s party h = ground arith

abandoned-follows :
    (s : MediatorSession) (to : SessionState)
    → IsValid s
    → s.state ≢ SessionState.complete
    → to ≡ SessionState.aborted
    → (is_valid_transition s.state to ≡ true) ⊎ HasEarlyFee s (record s { state = to })
unfolding is_valid_transition follows session_state_to_u8
abandoned-follows s to v n e = go s.state refl
  where
    go :
        (from : SessionState)
        → s.state ≡ from
        → (is_valid_transition from to ≡ true) ⊎ HasEarlyFee s (record s { state = to })
    go (SessionState.unnamed k) h = ground (arith, v.named)
    go SessionState.complete h = ground (arith, n h)
    go _ h = inl (rw e refl)

-- Every call on a valid session that does not throw moves it to a state that the journal accepts
-- behind the state before, unless a fee before the first or the last round is asked for or was
-- asked for.
pub step-is_valid_transition :
    (s : MediatorSession) (e : Event) {t : MediatorSession}
    → IsValid s
    → step s e ≡ ok t
    → (is_valid_transition s.state t.state ≡ true) ⊎ HasEarlyFee s t
unfolding step is_valid_transition follows session_state_to_u8
step-is_valid_transition s (Event.joined message) v p = ground (arith, join-eq-ok s message p)
step-is_valid_transition s (Event.sent party message) v p = elim (sent-eq-ok s party message p) [
  | inl (h, g) ↦ ground (arith, fee_sent-eq-ok s party message g)
  | inr (h, g) ↦ ground (arith, leg_sent-eq-ok s party message g)
]
step-is_valid_transition s (Event.received party message) v p =
    let (h, q) = received-eq-ok s party message p in rw q (received-follows s h)
step-is_valid_transition s (Event.acknowledged party) v p =
    let (h, _, q) = acknowledge-eq-ok s party p in rw q (inl (acknowledged-follows s party h))
step-is_valid_transition s Event.fee_confirmed v p = ground (arith, confirm-eq-ok s p)
step-is_valid_transition s (Event.abandoned reason) {t} v p =
    abandoned-follows s t.state v (ground (arith, abort-eq-ok s reason p))
      (ground (arith, abort-eq-ok s reason p))
