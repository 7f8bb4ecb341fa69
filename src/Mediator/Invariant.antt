-- ===== src/Mediator/Invariant.antt =====
-- The well-formedness of a session (src/mediator.cpp) between two calls.
use tradep2p.Base.{
  ℕ, ◌+◌, ◌*◌, ◌≤◌, ◌<◌, ◌≡◌, ◌⊎◌, inl, inr, ◌≢◌, Bool, true, false, ◌==◌, if◌then◌else◌, arith,
  Bool-cases, ok, List,
}
use tradep2p.Protocol.Types.{Party, FeeTerms}
use tradep2p.Protocol.Validate.{validate_address, validate_terms}
use tradep2p.Protocol.Trade.{RoundSignalMessage}
use tradep2p.Mediator.Session.{
  SessionState, MediatorSession, JoinRoomMessage, CreateRoomMessage, FeePosition, u32, join,
  new_session, fee_due_before_any_round, is_after_last_round, is_before_last_round,
}
use tradep2p.Mediator.Step.{
  sender_reported_sent, sent_in, fee_reported_sent, leg_reported_sent, receiver_reported_received,
  advance_after_receipt, after_first_leg, after_second_leg, after_fee, confirm_fee_received,
  acknowledge_final_receipt, open_gate, with_ack, abort, final_receipt_gate_is_fee_leg,
  final_receipt_acked, Event, step,
}

-- Both parties have acknowledged the final receipt.
abbrev pub Acked : MediatorSession → Type 0
Acked s = (s.final_receipt_acked_a ≡ true) × (s.final_receipt_acked_b ≡ true)

-- The next leg is the second one of the last round, and no fee comes after it.
abbrev pub AtFinalLeg : MediatorSession → Type 0
AtFinalLeg s =
    (s.round_index + 1 ≡ s.creator.terms.rounds)
    × (s.leg_index ≡ 1)
    × ((s.fee.amount ≡ 0) ⊎ (is_after_last_round s.fee_position ≡ false))

-- All rounds are settled, and the fee is what is left.
abbrev pub AtFinalFee : MediatorSession → Type 0
AtFinalFee s =
    (s.round_index ≡ s.creator.terms.rounds)
    × (0 < s.fee.amount)
    × (is_after_last_round s.fee_position ≡ true)

-- The state is one that the enumeration names.
abbrev pub is_named : SessionState → Bool
is_named (SessionState.unnamed n) = false
is_named _ = true

pub record IsValid (s : MediatorSession) : Type 0 where
  pub named : is_named s.state ≡ true
  pub rounds_pos : 0 < s.creator.terms.rounds
  pub rounds_cap : s.creator.terms.rounds ≤ 1000
  pub leg_cap : s.leg_index ≤ 1
  pub progress : 2 * s.round_index + s.leg_index ≤ 2 * s.creator.terms.rounds
  pub fresh : s.state ≡ SessionState.waiting_for_peer → (s.round_index ≡ 0) × (s.leg_index ≡ 0)
  pub sending : s.state ≡ SessionState.waiting_for_sent → s.round_index < s.creator.terms.rounds
  pub receiving :
      s.state ≡ SessionState.waiting_for_received → s.round_index < s.creator.terms.rounds
  pub gate : s.state ≡ SessionState.waiting_for_final_receipt_ack → AtFinalLeg s ⊎ AtFinalFee s
  pub gate_open :
      s.state ≡ SessionState.waiting_for_final_receipt_ack
      → (s.final_receipt_acked_a ≡ false) ⊎ (s.final_receipt_acked_b ≡ false)
  pub fee_due :
      (s.state ≡ SessionState.waiting_for_fee_sent)
        ⊎ (s.state ≡ SessionState.waiting_for_fee_confirmation)
      → (AtFinalFee s × Acked s)
        ⊎ ((s.round_index < s.creator.terms.rounds)
            × (s.leg_index ≡ 0)
            × (0 < s.fee.amount)
            × (is_after_last_round s.fee_position ≡ false)
            × ((is_before_last_round s.fee_position ≡ false)
                ⊎ (s.round_index + 1 ≡ s.creator.terms.rounds)))
  pub final_sending : s.state ≡ SessionState.waiting_for_sent → AtFinalLeg s → Acked s
  pub final_receiving : s.state ≡ SessionState.waiting_for_received → AtFinalLeg s → Acked s
  pub finished :
      s.state ≡ SessionState.complete
      → (s.round_index ≡ s.creator.terms.rounds)
        × ((0 < s.fee.amount) × (is_after_last_round s.fee_position ≡ true) → Acked s)

-- What a call that did not throw found and did.
pub join-eq-ok :
    (s : MediatorSession) (message : JoinRoomMessage) {t : MediatorSession}
    → join s message ≡ ok t
    → (s.state ≡ SessionState.waiting_for_peer)
      × (validate_address message.receive_address_b ≡ ok tt)
      × (t ≡ record s {
        receive_address_b = message.receive_address_b;
        state =
            if fee_due_before_any_round s
            then SessionState.waiting_for_fee_sent
            else SessionState.waiting_for_sent;
      })
unfolding join
join-eq-ok s message e = ground arith

pub received-eq-ok :
    (s : MediatorSession) (party : Party) (message : RoundSignalMessage) {t : MediatorSession}
    → receiver_reported_received s party message ≡ ok t
    → (s.state ≡ SessionState.waiting_for_received) × (t ≡ advance_after_receipt s)
unfolding receiver_reported_received
received-eq-ok s party message e = ground arith

join-IsValid :
    (s : MediatorSession) (message : JoinRoomMessage) {t : MediatorSession}
    → IsValid s
    → join s message ≡ ok t
    → IsValid t
join-IsValid s message v e = let (h, _, p) = join-eq-ok s message e in rw p (ground arith)

first_leg-IsValid :
    (s : MediatorSession)
    → IsValid s
    → s.state ≡ SessionState.waiting_for_received
    → s.leg_index ≡ 0
    → IsValid (after_first_leg (record s { leg_index = 1 }))
unfolding after_first_leg
first_leg-IsValid s v h l = ground arith

second_leg-IsValid :
    (s : MediatorSession)
    → IsValid s
    → s.state ≡ SessionState.waiting_for_received
    → s.leg_index ≡ 1
    → IsValid (after_second_leg (record s { leg_index = 0; round_index = u32 (s.round_index + 1) }))
unfolding after_second_leg
second_leg-IsValid s v h l = ground arith

advance-IsValid :
    (s : MediatorSession)
    → IsValid s
    → s.state ≡ SessionState.waiting_for_received
    → IsValid (advance_after_receipt s)
unfolding advance_after_receipt
advance-IsValid s v h = elim (Bool-cases (s.leg_index == 0)) [
  | inl first ↦ rw first (first_leg-IsValid s v h (ground arith))
  | inr second ↦ rw second (second_leg-IsValid s v h (ground arith))
]

pub fee_sent-eq-ok :
    (s : MediatorSession) (party : Party) (message : RoundSignalMessage) {t : MediatorSession}
    → fee_reported_sent s party message ≡ ok t
    → (party ≡ Party.a)
      × (t ≡ record s {
        state =
            if s.require_fee_confirmation
            then SessionState.waiting_for_fee_confirmation
            else after_fee s;
      })
unfolding fee_reported_sent
fee_sent-eq-ok s party message e = ground arith

pub leg_sent-eq-ok :
    (s : MediatorSession) (party : Party) (message : RoundSignalMessage) {t : MediatorSession}
    → leg_reported_sent s party message ≡ ok t
    → t ≡ record s { state = SessionState.waiting_for_received }
unfolding leg_reported_sent
leg_sent-eq-ok s party message e = ground arith

-- The two calls that sender_reported_sent() makes, by the state that it finds.
pub sent-eq-ok :
    (s : MediatorSession) (party : Party) (message : RoundSignalMessage) {t : MediatorSession}
    → sender_reported_sent s party message ≡ ok t
    → ((s.state ≡ SessionState.waiting_for_fee_sent) × (fee_reported_sent s party message ≡ ok t))
      ⊎ ((s.state ≡ SessionState.waiting_for_sent) × (leg_reported_sent s party message ≡ ok t))
unfolding sender_reported_sent sent_in
sent-eq-ok s party message e = ground arith

fee_sent-IsValid :
    (s : MediatorSession)
    → IsValid s
    → s.state ≡ SessionState.waiting_for_fee_sent
    → IsValid (record s {
      state =
          if s.require_fee_confirmation
          then SessionState.waiting_for_fee_confirmation
          else after_fee s;
    })
fee_sent-IsValid s v h = ground arith

leg_sent-IsValid :
    (s : MediatorSession)
    → IsValid s
    → s.state ≡ SessionState.waiting_for_sent
    → IsValid (record s { state = SessionState.waiting_for_received })
leg_sent-IsValid s v h = ground arith

sent-IsValid :
    (s : MediatorSession) (party : Party) (message : RoundSignalMessage) {t : MediatorSession}
    → IsValid s
    → sender_reported_sent s party message ≡ ok t
    → IsValid t
sent-IsValid s party message v e = elim (sent-eq-ok s party message e) [
  | inl (h, f) ↦ rw (fee_sent-eq-ok s party message f).1 (fee_sent-IsValid s v h)
  | inr (h, f) ↦ rw (leg_sent-eq-ok s party message f) (leg_sent-IsValid s v h)
]

pub confirm-eq-ok :
    (s : MediatorSession) {t : MediatorSession}
    → confirm_fee_received s ≡ ok t
    → (s.state ≡ SessionState.waiting_for_fee_confirmation) × (t ≡ record s { state = after_fee s })
unfolding confirm_fee_received
confirm-eq-ok s e = ground arith

confirmed-IsValid :
    (s : MediatorSession)
    → IsValid s
    → s.state ≡ SessionState.waiting_for_fee_confirmation
    → IsValid (record s { state = after_fee s })
confirmed-IsValid s v h = ground arith

pub acknowledge-eq-ok :
    (s : MediatorSession) (party : Party) {t : MediatorSession}
    → acknowledge_final_receipt s party ≡ ok t
    → (s.state ≡ SessionState.waiting_for_final_receipt_ack)
      × (final_receipt_acked s party ≡ false)
      × (t ≡ open_gate (with_ack s party))
unfolding acknowledge_final_receipt
acknowledge-eq-ok s party e = ground arith

open_gate-IsValid :
    (s : MediatorSession) (party : Party)
    → IsValid s
    → s.state ≡ SessionState.waiting_for_final_receipt_ack
    → IsValid (open_gate (with_ack s party))
unfolding open_gate final_receipt_gate_is_fee_leg
open_gate-IsValid s Party.a v h = ground arith
open_gate-IsValid s _ v h = ground arith

pub abort-eq-ok :
    (s : MediatorSession) (reason : List ℕ) {t : MediatorSession}
    → abort s reason ≡ ok t
    → (s.state ≢ SessionState.complete)
      × (t ≡ record s { abort_reason = t.abort_reason; state = SessionState.aborted })
unfolding abort
abort-eq-ok s reason e = ground arith

aborted-IsValid :
    (s : MediatorSession) (reason : List ℕ)
    → IsValid s
    → IsValid (record s { abort_reason = reason; state = SessionState.aborted })
aborted-IsValid s reason v = ground arith

-- Every call that does not throw keeps the validity of a session: the round and the leg are in
-- range, and each state has the round, the leg, the fee and the acknowledgements that belong to
-- it.
pub step-IsValid :
    (s : MediatorSession) (e : Event) {t : MediatorSession}
    → IsValid s
    → step s e ≡ ok t
    → IsValid t
unfolding step
step-IsValid s (Event.joined message) v p = join-IsValid s message v p
step-IsValid s (Event.sent party message) v p = sent-IsValid s party message v p
step-IsValid s (Event.received party message) v p =
    let (h, q) = received-eq-ok s party message p in rw q (advance-IsValid s v h)
step-IsValid s (Event.acknowledged party) v p =
    let (h, _, q) = acknowledge-eq-ok s party p in rw q (open_gate-IsValid s party v h)
step-IsValid s Event.fee_confirmed v p =
    let (h, q) = confirm-eq-ok s p in rw q (confirmed-IsValid s v h)
step-IsValid s (Event.abandoned reason) v p =
    let (_, q) = abort-eq-ok s reason p in rw q (aborted-IsValid s _ v)

terms-rounds :
    (c : CreateRoomMessage)
    → validate_terms c.terms ≡ ok tt
    → (0 < c.terms.rounds) × (c.terms.rounds ≤ 1000)
unfolding validate_terms
terms-rounds c h = ground arith

-- A session that the constructor makes satisfies it.
pub new_session-IsValid :
    (creator : CreateRoomMessage) (room_id : List ℕ) (fee : FeeTerms) (confirm : Bool)
    (position : FeePosition) {s : MediatorSession}
    → new_session creator room_id fee confirm position ≡ ok s
    → IsValid s
unfolding new_session
new_session-IsValid creator room_id fee confirm position e = ground (arith, terms-rounds creator)
