-- ===== src/Journal/Resume.antt =====
-- The loop of Journal::open() (src/journal.cpp): its fuel, and one record more.
use tradep2p.Base.{
  ℕ, zero, suc, ◌+◌, ◌≤◌, ◌≡◌, refl, sym, ap, ◌∙◌, List, [], ◌∷◌, ◌++◌, arith, length,
  length-append, Result, ok, err, bind,
}
use tradep2p.Crypto.{Primitives}
use tradep2p.Journal.Format.{
  max_record_body_length, Framing, finished, torn, too_long, framed, next_record,
}
use tradep2p.Journal.Framing.{
  record_bytes, length-record_bytes, next_record-record_bytes, next_record-framed,
}
use tradep2p.Journal.Store.{Journal}
use tradep2p.Journal.Replay.{Keys, replay_record, replay}

bind-ext {ℓ κ} :
    {A : Type ℓ} {B : Type κ} (m : Result A) {f g : A → Result B}
    → ((a : A) → f a ≡ g a)
    → bind m f ≡ bind m g
bind-ext (ok a) h = h a
bind-ext (err e) h = refl

module _ (c : Primitives) (keys : Keys) where
  -- One round of the loop.
  replay-framed :
      (n : ℕ) (raw : List ℕ) (complete : ℕ) (j : Journal) {kind : ℕ} {body rest : List ℕ}
      → next_record raw ≡ framed kind body rest
      → replay c keys (suc n) raw complete j
        ≡ bind
            (replay_record c keys kind body j)
            (λ next. replay c keys n rest (complete + 5 + length body) next)
  unfolding replay
  replay-framed n raw complete j e = rw (e, replay) refl

  -- The length of the log is enough fuel: more changes nothing.
  pub replay_fuel :
      (n m : ℕ) (raw : List ℕ) (complete : ℕ) (j : Journal)
      → length raw ≤ n
      → length raw ≤ m
      → replay c keys n raw complete j ≡ replay c keys m raw complete j
  unfolding replay next_record
  replay_fuel zero zero raw k j h l = refl
  replay_fuel zero (suc m) [] k j h l = refl
  replay_fuel (suc n) zero [] k j h l = refl
  replay_fuel zero (suc m) (b ∷ raw) k j h l = absurd (omega arith)
  replay_fuel (suc n) zero (b ∷ raw) k j h l = absurd (omega arith)
  replay_fuel (suc n) (suc m) raw k j h l = go (next_record raw) refl (replay_fuel n m)
    where
      go :
          (x : Framing)
          → next_record raw ≡ x
          → ((rest : List ℕ) (complete : ℕ) (next : Journal)
              → length rest ≤ n
              → length rest ≤ m
              → replay c keys n rest complete next ≡ replay c keys m rest complete next)
          → replay c keys (suc n) raw k j ≡ replay c keys (suc m) raw k j
      go finished e ih = rw (e, replay) refl
      go torn e ih = rw (e, replay) refl
      go too_long e ih = rw (e, replay) refl
      go (framed kind body rest) e ih =
          let shorter = next_record-framed raw e in
          replay-framed n raw k j e
          ∙ bind-ext (replay_record c keys kind body j)
              (λ next. ih rest (k + 5 + length body) next (omega arith) (omega arith))
          ∙ sym (replay-framed m raw k j e)

  -- A record in front of `more` is replayed, and then `more`.
  pub replay-record_bytes :
      (kind : ℕ) (body more : List ℕ) (complete : ℕ) (j : Journal)
      → length body ≤ max_record_body_length
      → replay c keys
          (length (record_bytes kind body ++ more))
          (record_bytes kind body ++ more)
          complete
          j
        ≡ bind (replay_record c keys kind body j) (λ next.
          replay c keys (length more) more (complete + length (record_bytes kind body)) next)
  replay-record_bytes kind body more k j h =
      let size = length-record_bytes kind body in
      replay-framed _ _ k j (next_record-record_bytes kind body more h)
      ∙ bind-ext (replay_record c keys kind body j) (λ next.
        replay_fuel _ _ more _ next (omega (arith, length-append (record_bytes kind body) more))
          (omega arith)
        ∙ ap (λ k. replay c keys (length more) more k next) (omega arith))
