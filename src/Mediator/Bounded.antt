-- ===== src/Mediator/Bounded.antt =====
-- How many calls a session made by the constructor of src/mediator.cpp can accept.
use tradep2p.Base.{
  ℕ, suc, ◌+◌, ◌*◌, ◌≤◌, ◌≡◌, ◌≢◌, refl, List, [], ◌∷◌, Bool, true, false, Result, ok, err, arith,
}
use tradep2p.Protocol.Types.{FeeTerms}
use tradep2p.Mediator.Session.{
  SessionState, MediatorSession, CreateRoomMessage, FeePosition, new_session, is_aborted,
}
use tradep2p.Mediator.Step.{Event, step}
use tradep2p.Mediator.Invariant.{IsValid, step-IsValid, new_session-IsValid}
use tradep2p.Mediator.Ends.{calls_left, step-calls_left}
use tradep2p.Mediator.Runs.{new_session-eq-ok}

-- The calls that are accepted until the session is aborted; the call that aborts it is one of them,
-- and a call that throws changes nothing.
unfoldable pub accepted_calls : MediatorSession → List Event → ℕ
accepted_calls s [] = 0
accepted_calls s (call ∷ calls) = elim (is_aborted s.state) [
  | true ↦ 0
  | false ↦ elim (step s call) [
    | ok t ↦ suc (accepted_calls t calls)
    | err e ↦ accepted_calls s calls
  ]
]

not_aborted : (state : SessionState) → is_aborted state ≡ false → state ≢ SessionState.aborted
not_aborted state h p = let h₁ = rw p at h in cc

accepted_calls-calls_left :
    (s : MediatorSession) (calls : List Event)
    → IsValid s
    → accepted_calls s calls ≤ calls_left s.state s
unfolding accepted_calls
accepted_calls-calls_left s [] v = omega arith
accepted_calls-calls_left s (call ∷ calls) v =
    aborted (is_aborted s.state) refl (λ t w. accepted_calls-calls_left t calls w)
      (accepted_calls-calls_left s calls v)
  where
    stepped :
        (r : Result MediatorSession)
        → step s call ≡ r
        → s.state ≢ SessionState.aborted
        → ((t : MediatorSession) → IsValid t → accepted_calls t calls ≤ calls_left t.state t)
        → accepted_calls s calls ≤ calls_left s.state s
        → elim r [ ok t ↦ suc (accepted_calls t calls) | err e ↦ accepted_calls s calls ]
          ≤ calls_left s.state s
    stepped (ok t) p n more same =
        let less = step-calls_left s call v n p in
        let rest = more t (step-IsValid s call v p) in omega arith
    stepped (err e) p n more same = same

    aborted :
        (b : Bool)
        → is_aborted s.state ≡ b
        → ((t : MediatorSession) → IsValid t → accepted_calls t calls ≤ calls_left t.state t)
        → accepted_calls s calls ≤ calls_left s.state s
        → elim b [
          | true ↦ 0
          | false ↦ elim (step s call) [
            | ok t ↦ suc (accepted_calls t calls)
            | err e ↦ accepted_calls s calls
          ]
        ]
          ≤ calls_left s.state s
    aborted true p more same = omega arith
    aborted false p more same = stepped (step s call) refl (not_aborted s.state p) more same

-- A session that the constructor accepts, driven by any calls, of which those that throw change
-- nothing, accepts at most 16 calls per round and 7 more until it is aborted, the call that
-- aborts it included.
pub accepted_calls-bound :
    (creator : CreateRoomMessage) (room_id : List ℕ) (fee : FeeTerms) (confirm : Bool)
    (position : FeePosition) {s : MediatorSession} (calls : List Event)
    → new_session creator room_id fee confirm position ≡ ok s
    → accepted_calls s calls ≤ 16 * creator.terms.rounds + 7
accepted_calls-bound creator room_id fee confirm position {s} calls e =
    let (c, f, h, r, l) = new_session-eq-ok creator room_id fee confirm position e in
    let rounds : s.creator.terms.rounds ≡ creator.terms.rounds = rw c refl in
    let b =
      accepted_calls-calls_left s calls
        (new_session-IsValid creator room_id fee confirm position e) in
    let left : calls_left s.state s ≤ 16 * creator.terms.rounds + 7 =
      rw (h, rounds, r, l) (omega arith) in
    omega arith
