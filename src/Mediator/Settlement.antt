-- ===== src/Mediator/Settlement.antt =====
-- The ledger of a run beside the round and the leg of the session (src/mediator.cpp).
use tradep2p.Base.{
  ℕ, ◌+◌, ◌≤◌, ◌<◌, ◌≡◌, refl, subst, sym, ◌&&◌, ◌==◌, if◌then◌else◌, ok, arith, ◌⊎◌, inl, inr,
}
use tradep2p.Protocol.Types.{Party}
use tradep2p.Protocol.Trade.{RoundSignalMessage}
use tradep2p.Protocol.Tranche.{first_tranches, first_tranches-next}
use tradep2p.Mediator.Session.{SessionState, MediatorSession, u32, party_eq}
use tradep2p.Mediator.Step.{
  Event, step, with_ack, advance_after_receipt, after_first_leg, after_second_leg, open_gate,
}
use tradep2p.Mediator.Invariant.{
  IsValid, join-eq-ok, received-eq-ok, sent-eq-ok, fee_sent-eq-ok, leg_sent-eq-ok, confirm-eq-ok,
  acknowledge-eq-ok, abort-eq-ok,
}
use tradep2p.Mediator.Turn.{TermsFacts, round_sender, current_turn-leg, leg_message}
use tradep2p.Mediator.Ledger.{Ledger, credit, book}

-- How many tranches the party has got across.
abbrev pub tranches_by : Party → MediatorSession → ℕ
tranches_by party s =
    s.round_index + (if s.leg_index == 1 && party_eq (round_sender s) party then 1 else 0)

-- The ledger holds the first so many tranches of each party.
pub record IsSettled (s : MediatorSession) (l : Ledger) : Type 0 where
  pub side_a :
      l.delivered_a
      ≡ first_tranches s.creator.terms.total_a s.creator.terms.rounds (tranches_by Party.a s)
  pub side_b :
      l.delivered_b
      ≡ first_tranches s.creator.terms.total_b s.creator.terms.rounds (tranches_by Party.b s)

-- Only a receipt moves the round and the leg.
record SamePlace (s t : MediatorSession) : Type 0 where
  creator : t.creator ≡ s.creator
  round : t.round_index ≡ s.round_index
  leg : t.leg_index ≡ s.leg_index

IsSettled-SamePlace :
    {s t : MediatorSession} (l m : Ledger)
    → SamePlace s t
    → m.delivered_a ≡ l.delivered_a
    → m.delivered_b ≡ l.delivered_b
    → IsSettled s l
    → IsSettled t m
IsSettled-SamePlace {s} {t} l m same p q h = ground arith

open_gate-SamePlace : (s : MediatorSession) → SamePlace s (open_gate s)
unfolding open_gate
open_gate-SamePlace s = ground arith

first_leg-IsSettled :
    (s : MediatorSession) (l : Ledger)
    → IsValid s
    → TermsFacts s.creator
    → s.leg_index ≡ 0
    → IsSettled s l
    → IsSettled (after_first_leg (record s { leg_index = 1 })) (credit (leg_message s) l)
unfolding after_first_leg
first_leg-IsSettled s l v f h b = ground (
  arith,
  first_tranches-next s.creator.terms.total_a s.creator.terms.rounds s.round_index,
  first_tranches-next s.creator.terms.total_b s.creator.terms.rounds s.round_index,
)

second_leg-IsSettled :
    (s : MediatorSession) (l : Ledger)
    → IsValid s
    → TermsFacts s.creator
    → s.round_index < s.creator.terms.rounds
    → s.leg_index ≡ 1
    → IsSettled s l
    → IsSettled
        (after_second_leg (record s { leg_index = 0; round_index = u32 (s.round_index + 1) }))
        (credit (leg_message s) l)
unfolding after_second_leg
second_leg-IsSettled s l v f r h b = ground (
  arith,
  first_tranches-next s.creator.terms.total_a s.creator.terms.rounds s.round_index,
  first_tranches-next s.creator.terms.total_b s.creator.terms.rounds s.round_index,
)

advance-first :
    (s : MediatorSession)
    → s.leg_index ≡ 0
    → advance_after_receipt s ≡ after_first_leg (record s { leg_index = 1 })
unfolding advance_after_receipt
advance-first s h = ground arith

advance-second :
    (s : MediatorSession)
    → s.leg_index ≡ 1
    → advance_after_receipt s
      ≡ after_second_leg (record s { leg_index = 0; round_index = u32 (s.round_index + 1) })
unfolding advance_after_receipt
advance-second s h = ground arith

leg-cases : (n : ℕ) → n ≤ 1 → (n ≡ 0) ⊎ (n ≡ 1)
leg-cases n h = ground arith

received-IsSettled :
    (s : MediatorSession) (l : Ledger)
    → IsValid s
    → TermsFacts s.creator
    → s.state ≡ SessionState.waiting_for_received
    → IsSettled s l
    → IsSettled (advance_after_receipt s) (credit (leg_message s) l)
received-IsSettled s l v f h b = elim (leg-cases s.leg_index v.leg_cap) [
  | inl p ↦
      subst (λ t. IsSettled t (credit (leg_message s) l)) (sym (advance-first s p))
        (first_leg-IsSettled s l v f p b)
  | inr p ↦
      subst (λ t. IsSettled t (credit (leg_message s) l)) (sym (advance-second s p))
        (second_leg-IsSettled s l v f (v.receiving h) p b)
]

-- The booking of a receipt is the credit of the leg that was on.
book-received :
    (s : MediatorSession) (party : Party) (message : RoundSignalMessage) (l : Ledger)
    → IsValid s
    → TermsFacts s.creator
    → s.state ≡ SessionState.waiting_for_received
    → book s (Event.received party message) l ≡ credit (leg_message s) l
unfolding book
book-received s party message l v f h = ground (arith, current_turn-leg s v f (inr h))

book-sent :
    (s : MediatorSession) (party : Party) (message : RoundSignalMessage) (l : Ledger)
    → ((book s (Event.sent party message) l).delivered_a ≡ l.delivered_a)
      × ((book s (Event.sent party message) l).delivered_b ≡ l.delivered_b)
unfolding book
book-sent s party message l = ground arith

-- In a valid session whose terms were checked, every call that does not throw keeps the credit of
-- each party at the sum of its first tranches, as many as the round and the leg say.
pub step-IsSettled :
    (s : MediatorSession) (e : Event) (l : Ledger) {t : MediatorSession}
    → IsValid s
    → TermsFacts s.creator
    → step s e ≡ ok t
    → IsSettled s l
    → IsSettled t (book s e l)
unfolding step
step-IsSettled s (Event.joined message) l v f p b =
    IsSettled-SamePlace l _ (ground (arith, join-eq-ok s message p)) (unfold book in refl)
      (unfold book in refl) b
step-IsSettled s (Event.sent party message) l v f p b = elim (sent-eq-ok s party message p) [
  | inl (_, g) ↦
      IsSettled-SamePlace l _ (ground (arith, fee_sent-eq-ok s party message g))
        (book-sent s party message l).0 (book-sent s party message l).1 b
  | inr (_, g) ↦
      IsSettled-SamePlace l _ (ground (arith, leg_sent-eq-ok s party message g))
        (book-sent s party message l).0 (book-sent s party message l).1 b
]
step-IsSettled s (Event.received party message) l v f p b =
    let (h, q) = received-eq-ok s party message p in
    rw (q, book-received s party message l v f h) (received-IsSettled s l v f h b)
step-IsSettled s (Event.acknowledged party) l v f p b =
    IsSettled-SamePlace l _
      (ground (arith, acknowledge-eq-ok s party p, open_gate-SamePlace (with_ack s party)))
      (unfold book in refl) (unfold book in refl) b
step-IsSettled s Event.fee_confirmed l v f p b =
    IsSettled-SamePlace l _ (ground (arith, confirm-eq-ok s p)) (unfold book in refl)
      (unfold book in refl) b
step-IsSettled s (Event.abandoned reason) l v f p b =
    IsSettled-SamePlace l _ (ground (arith, abort-eq-ok s reason p)) (unfold book in refl)
      (unfold book in refl) b
