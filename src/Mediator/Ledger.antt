-- ===== src/Mediator/Ledger.antt =====
-- A run of a session: calls in any order, of which those that throw change nothing, and a ledger of
-- what the accepted calls claim was transferred.
use tradep2p.Base.{
  ℕ, ◌+◌, ◌≡◌, refl, List, [], ◌∷◌, Bool, if◌then◌else◌, Result, ok, err, arith, inl, inr,
}
use tradep2p.Protocol.Types.{Party, FeeTerms}
use tradep2p.Protocol.Trade.{TurnMessage}
use tradep2p.Mediator.Session.{
  MediatorSession, CreateRoomMessage, FeePosition, party_eq, is_waiting_for_fee_sent, current_turn,
  new_session,
}
use tradep2p.Mediator.Step.{
  Event, step, with_ack, advance_after_receipt, after_first_leg, after_second_leg, open_gate,
}
use tradep2p.Mediator.Invariant.{
  join-eq-ok, received-eq-ok, sent-eq-ok, fee_sent-eq-ok, leg_sent-eq-ok, confirm-eq-ok,
  acknowledge-eq-ok, abort-eq-ok,
}
use tradep2p.Mediator.Turn.{Configured}

-- What each party has got across, and what of the fee was reported as paid.
pub record Ledger : Type 0 where
  pub delivered_a : ℕ
  pub delivered_b : ℕ
  pub fee_paid : ℕ

abbrev pub empty_ledger : Ledger
empty_ledger = record { delivered_a = 0; delivered_b = 0; fee_paid = 0 }

abbrev pub credit : TurnMessage → Ledger → Ledger
credit turn l =
    if party_eq turn.sender Party.a
    then record l { delivered_a = l.delivered_a + turn.amount }
    else record l { delivered_b = l.delivered_b + turn.amount }

-- An accepted receipt credits the turn that was on; an accepted report of the fee credits the fee.
unfoldable pub book : MediatorSession → Event → Ledger → Ledger
book s (Event.received party message) l = elim (current_turn s) [
  | ok turn ↦ credit turn l
  | err e ↦ l
]
book s (Event.sent party message) l =
    if is_waiting_for_fee_sent s.state then record l { fee_paid = l.fee_paid + s.fee.amount } else l
book s _ l = l

unfoldable pub run : MediatorSession → Ledger → List Event → MediatorSession × Ledger
run s l [] = (s, l)
run s l (e ∷ es) = elim (step s e) [ ok t ↦ run t (book s e l) es | err x ↦ run s l es ]

-- What every accepted call keeps, a run keeps.
pub run_inv {κ} :
    (P : MediatorSession → Ledger → Type κ)
    → ((s t : MediatorSession) (l : Ledger) (e : Event)
        → P s l
        → step s e ≡ ok t
        → P t (book s e l))
    → (s : MediatorSession) (l : Ledger) (es : List Event) → P s l
    → P (run s l es).0 (run s l es).1
unfolding run
run_inv P keep s l [] h = h
run_inv P keep s l (e ∷ es) h =
    go (step s e) refl (λ t p. run_inv P keep t (book s e l) es p) (run_inv P keep s l es h)
  where
    go :
        (r : Result MediatorSession)
        → step s e ≡ r
        → ((t : MediatorSession)
            → P t (book s e l)
            → P (run t (book s e l) es).0 (run t (book s e l) es).1)
        → P (run s l es).0 (run s l es).1
        → let out : MediatorSession × Ledger = elim r [
          | ok t ↦ run t (book s e l) es
          | err x ↦ run s l es
        ] in
          P out.0 out.1
    go (ok t) p more same = more t (keep s t l e h p)
    go (err x) p more same = same

-- What no call changes.
pub record SameRoom (s t : MediatorSession) : Type 0 where
  pub creator : t.creator ≡ s.creator
  pub room_id : t.room_id ≡ s.room_id
  pub fee : t.fee ≡ s.fee
  pub position : t.fee_position ≡ s.fee_position
  pub confirmation : t.require_fee_confirmation ≡ s.require_fee_confirmation

advance-SameRoom : (s : MediatorSession) → SameRoom s (advance_after_receipt s)
unfolding advance_after_receipt after_first_leg after_second_leg
advance-SameRoom s = ground arith

open_gate-SameRoom : (s : MediatorSession) → SameRoom s (open_gate s)
unfolding open_gate
open_gate-SameRoom s = ground arith

pub step-SameRoom :
    (s : MediatorSession) (e : Event) {t : MediatorSession} → step s e ≡ ok t → SameRoom s t
unfolding step
step-SameRoom s (Event.joined message) p = ground (arith, join-eq-ok s message p)
step-SameRoom s (Event.sent party message) p = elim (sent-eq-ok s party message p) [
  | inl (_, f) ↦ ground (arith, fee_sent-eq-ok s party message f)
  | inr (_, f) ↦ ground (arith, leg_sent-eq-ok s party message f)
]
step-SameRoom s (Event.received party message) p =
    ground (arith, received-eq-ok s party message p, advance-SameRoom s)
step-SameRoom s (Event.acknowledged party) p =
    ground (arith, acknowledge-eq-ok s party p, open_gate-SameRoom (with_ack s party))
step-SameRoom s Event.fee_confirmed p = ground (arith, confirm-eq-ok s p)
step-SameRoom s (Event.abandoned reason) p = ground (arith, abort-eq-ok s reason p)

pub Configured-SameRoom : {s t : MediatorSession} → SameRoom s t → Configured s → Configured t
Configured-SameRoom same c = record {
  terms = rw same.creator c.terms;
  address_a = rw same.creator c.address_a;
  room_id = rw same.room_id c.room_id;
  fee = rw same.fee c.fee;
}

pub new_session-Configured :
    (creator : CreateRoomMessage) (room_id : List ℕ) (fee : FeeTerms) (confirm : Bool)
    (position : FeePosition) {s : MediatorSession}
    → new_session creator room_id fee confirm position ≡ ok s
    → Configured s
unfolding new_session
new_session-Configured creator room_id fee confirm position e = ground arith
