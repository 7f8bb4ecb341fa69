-- ===== src/Mediator/Runs.antt =====
-- Sessions made by the constructor of src/mediator.cpp and driven by any calls.
use tradep2p.Base.{
  ℕ, ◌+◌, ◌≤◌, ◌<◌, ◌≡◌, refl, ap, ◌∙◌, subst, List, Bool, true, ok, arith, ◌⊎◌, inl, inr,
}
use tradep2p.Protocol.Types.{Party, FeeTerms}
use tradep2p.Protocol.Tranche.{first_tranches, first_tranches-all, first_tranches-none}
use tradep2p.Mediator.Session.{
  SessionState, MediatorSession, CreateRoomMessage, FeePosition, is_after_last_round, new_session,
}
use tradep2p.Mediator.Step.{Event, step}
use tradep2p.Mediator.Invariant.{IsValid, Acked, AtFinalLeg, step-IsValid, new_session-IsValid}
use tradep2p.Mediator.Turn.{Configured, terms-facts}
use tradep2p.Mediator.Ledger.{
  Ledger, empty_ledger, book, run, run_inv, step-SameRoom, SameRoom, Configured-SameRoom,
  new_session-Configured,
}
use tradep2p.Mediator.Settlement.{IsSettled, step-IsSettled, tranches_by}
use tradep2p.Mediator.FeePaid.{FeeSettled, step-FeeSettled}

-- A session of a run that began with the constructor, and the run's ledger.
pub record IsRunning (start s : MediatorSession) (l : Ledger) : Type 0 where
  pub room : SameRoom start s
  pub valid : IsValid s
  pub configured : Configured s
  pub settled : IsSettled s l
  pub fee_settled : FeeSettled s l

SameRoom-trans : {r s t : MediatorSession} → SameRoom r s → SameRoom s t → SameRoom r t
SameRoom-trans g h = record {
  creator = h.creator ∙ g.creator;
  room_id = h.room_id ∙ g.room_id;
  fee = h.fee ∙ g.fee;
  position = h.position ∙ g.position;
  confirmation = h.confirmation ∙ g.confirmation;
}

step-IsRunning :
    (start s t : MediatorSession) (l : Ledger) (e : Event)
    → IsRunning start s l
    → step s e ≡ ok t
    → IsRunning start t (book s e l)
step-IsRunning start s t l e h p = record {
  room = SameRoom-trans h.room (step-SameRoom s e p);
  valid = step-IsValid s e h.valid p;
  configured = Configured-SameRoom (step-SameRoom s e p) h.configured;
  settled = step-IsSettled s e l h.valid (terms-facts s.creator h.configured.terms) p h.settled;
  fee_settled = step-FeeSettled s e l h.valid p h.fee_settled;
}

-- What the constructor puts where.
pub new_session-eq-ok :
    (creator : CreateRoomMessage) (room_id : List ℕ) (fee : FeeTerms) (confirm : Bool)
    (position : FeePosition) {s : MediatorSession}
    → new_session creator room_id fee confirm position ≡ ok s
    → (s.creator ≡ creator)
      × (s.fee ≡ fee)
      × (s.state ≡ SessionState.waiting_for_peer)
      × (s.round_index ≡ 0)
      × (s.leg_index ≡ 0)
unfolding new_session
new_session-eq-ok creator room_id fee confirm position e = ground arith

new_session-IsRunning :
    (creator : CreateRoomMessage) (room_id : List ℕ) (fee : FeeTerms) (confirm : Bool)
    (position : FeePosition) {s : MediatorSession}
    → new_session creator room_id fee confirm position ≡ ok s
    → IsRunning s s empty_ledger
new_session-IsRunning creator room_id fee confirm position {s} e =
    let (_, _, h, r, l) = new_session-eq-ok creator room_id fee confirm position e in
    record {
      room = record {
        creator = refl;
        room_id = refl;
        fee = refl;
        position = refl;
        confirmation = refl;
      };
      valid = new_session-IsValid creator room_id fee confirm position e;
      configured = new_session-Configured creator room_id fee confirm position e;
      settled = ground (
        arith,
        first_tranches-none s.creator.terms.total_a s.creator.terms.rounds,
        first_tranches-none s.creator.terms.total_b s.creator.terms.rounds,
      );
      fee_settled = ground arith;
    }

settled_total :
    (total rounds k : ℕ) → 0 < rounds → k ≡ rounds → first_tranches total rounds k ≡ total
settled_total total rounds k h p = rw p (first_tranches-all total rounds h)

complete_exact :
    (creator : CreateRoomMessage) (fee : FeeTerms) {start t : MediatorSession} {l : Ledger}
    → (t.creator ≡ creator) × (t.fee ≡ fee)
    → IsRunning start t l
    → t.state ≡ SessionState.complete
    → (l.delivered_a ≡ creator.terms.total_a)
      × (l.delivered_b ≡ creator.terms.total_b)
      × (l.fee_paid ≡ fee.amount)
complete_exact creator fee {start} {t} {l} (c, f) h done =
    let (r, _) = h.valid.finished done in
    let lt = h.valid.progress in
    let k : tranches_by Party.a t ≡ t.creator.terms.rounds = ground arith in
    let j : tranches_by Party.b t ≡ t.creator.terms.rounds = ground arith in
    (
      h.settled.side_a
          ∙ settled_total t.creator.terms.total_a t.creator.terms.rounds _ h.valid.rounds_pos k
          ∙ ap (λ (x : CreateRoomMessage). x.terms.total_a) c,
      h.settled.side_b
          ∙ settled_total t.creator.terms.total_b t.creator.terms.rounds _ h.valid.rounds_pos j
          ∙ ap (λ (x : CreateRoomMessage). x.terms.total_b) c,
      ground (arith, h.fee_settled),
    )

exposure :
    (creator : CreateRoomMessage) {start t : MediatorSession} {l : Ledger}
    → t.creator ≡ creator
    → IsRunning start t l
    → (j k : ℕ) × (l.delivered_a ≡ first_tranches creator.terms.total_a creator.terms.rounds j)
      × (l.delivered_b ≡ first_tranches creator.terms.total_b creator.terms.rounds k)
      × (j ≤ k + 1)
      × (k ≤ j + 1)
      × (j ≤ creator.terms.rounds)
      × (k ≤ creator.terms.rounds)
exposure creator {start} {t} {l} c h =
    let p = h.valid.progress in
    let q = h.valid.leg_cap in
    subst
      (λ (x : CreateRoomMessage).
        (j k : ℕ) × (l.delivered_a ≡ first_tranches x.terms.total_a x.terms.rounds j)
        × (l.delivered_b ≡ first_tranches x.terms.total_b x.terms.rounds k)
        × (j ≤ k + 1)
        × (k ≤ j + 1)
        × (j ≤ x.terms.rounds)
        × (k ≤ x.terms.rounds))
      c
      (
        tranches_by Party.a t,
        tranches_by Party.b t,
        h.settled.side_a,
        h.settled.side_b,
        ground arith,
        ground arith,
        ground arith,
        ground arith,
      )

gate_kept :
    {t : MediatorSession}
    → IsValid t
    → ((t.state ≡ SessionState.waiting_for_sent) ⊎ (t.state ≡ SessionState.waiting_for_received))
        × AtFinalLeg t
      ⊎ (t.state ≡ SessionState.waiting_for_fee_sent) × (is_after_last_round t.fee_position ≡ true)
    → Acked t
gate_kept v (inl (inl h, f)) = v.final_sending h f
gate_kept v (inl (inr h, f)) = v.final_receiving h f
gate_kept v (inr (h, a)) = ground (arith, v.fee_due (inl h))

-- A session made by the constructor, driven by any calls.
module _ (creator : CreateRoomMessage) (room_id : List ℕ) (fee : FeeTerms) (confirm : Bool)
    (position : FeePosition) {s : MediatorSession}
    (made : new_session creator room_id fee confirm position ≡ ok s) (es : List Event) where
  pub run-IsRunning : IsRunning s (run s empty_ledger es).0 (run s empty_ledger es).1
  run-IsRunning =
      run_inv (IsRunning s) (step-IsRunning s) s empty_ledger es
        (new_session-IsRunning creator room_id fee confirm position made)

  run-terms : ((run s empty_ledger es).0.creator ≡ creator) × ((run s empty_ledger es).0.fee ≡ fee)
  run-terms =
      let (c, f, _, _, _) = new_session-eq-ok creator room_id fee confirm position made in
      (run-IsRunning.room.creator ∙ c, run-IsRunning.room.fee ∙ f)

  -- For a session that the constructor accepts and any list of calls, of which those that throw
  -- change nothing: if the session is complete then, the accepted receipts credit party A with
  -- exactly its total and party B with exactly its total, and the fee reported as paid is the
  -- amount configured.
  pub run_complete :
      (run s empty_ledger es).0.state ≡ SessionState.complete
      → ((run s empty_ledger es).1.delivered_a ≡ creator.terms.total_a)
        × ((run s empty_ledger es).1.delivered_b ≡ creator.terms.total_b)
        × ((run s empty_ledger es).1.fee_paid ≡ fee.amount)
  run_complete h = complete_exact creator fee run-terms run-IsRunning h

  -- For a session that the constructor accepts and any list of calls, what the accepted
  -- receipts credit each party with is the sum of its first tranches, for two counts of
  -- tranches that differ by one at most and are at most the number of rounds.
  pub run_exposure :
      (j k : ℕ) × ((run s empty_ledger es).1.delivered_a
        ≡ first_tranches creator.terms.total_a creator.terms.rounds j)
      × ((run s empty_ledger es).1.delivered_b
          ≡ first_tranches creator.terms.total_b creator.terms.rounds k)
      × (j ≤ k + 1)
      × (k ≤ j + 1)
      × (j ≤ creator.terms.rounds)
      × (k ≤ creator.terms.rounds)
  run_exposure = exposure creator run-terms.0 run-IsRunning

  -- For a session that the constructor accepts and any list of calls: if the second leg of the
  -- last round is due or on its way and no fee comes after the rounds, or a fee behind all
  -- rounds is due, then both parties have acknowledged the final receipt.
  pub run_gate :
      (((run s empty_ledger es).0.state ≡ SessionState.waiting_for_sent)
            ⊎ ((run s empty_ledger es).0.state ≡ SessionState.waiting_for_received))
          × AtFinalLeg (run s empty_ledger es).0
        ⊎ ((run s empty_ledger es).0.state ≡ SessionState.waiting_for_fee_sent)
          × (is_after_last_round (run s empty_ledger es).0.fee_position ≡ true)
      → Acked (run s empty_ledger es).0
  run_gate = gate_kept run-IsRunning.valid
