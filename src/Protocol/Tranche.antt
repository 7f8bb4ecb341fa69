-- ===== src/Protocol/Tranche.antt =====
-- tranche_amount and other_party of src/protocol.cpp.
use tradep2p.Base.{
  ℕ, zero, suc, ◌+◌, ◌*◌, ◌/◌, ◌%◌, ◌≤◌, ◌<◌, ◌≡◌, refl, ap, ◌∙◌, ◌||◌, ◌==◌, ltb, leb,
  if◌then◌else◌, arith, Result, ok, bind, throw_if, invalid_argument,
}
use tradep2p.Base.Outcome.{◌>>◌}
use tradep2p.Protocol.Types.{Party}
use tradep2p.Protocol.Validate.{validate_party}
use native.Mathlib.Numerals.{add-one}
use native.Mathlib.Nat.{div-add-mod, mod-lt}

unfoldable pub tranche_amount : ℕ → ℕ → ℕ → Result ℕ
tranche_amount total rounds round_index = do
  throw_if (total == 0 || rounds == 0 || leb rounds round_index || ltb total rounds)
      invalid_argument
  ok (total / rounds + (if ltb round_index (total % rounds) then 1 else 0))

abbrev pub opposite : Party → Party
opposite Party.a = Party.b
opposite _ = Party.a

unfoldable pub other_party : Party → Result Party
other_party party = validate_party party >> ok (opposite party)

-- What the first `k` rounds move.
unfoldable pub first_tranches : ℕ → ℕ → ℕ → ℕ
first_tranches total rounds zero = 0
first_tranches total rounds (suc k) =
    first_tranches total rounds k + (total / rounds + (if ltb k (total % rounds) then 1 else 0))

first_tranches_lem :
    (total rounds k : ℕ)
    → (k ≤ total % rounds → first_tranches total rounds k ≡ k * (total / rounds) + k)
      × (total % rounds ≤ k → first_tranches total rounds k ≡ k * (total / rounds) + total % rounds)
unfolding first_tranches
first_tranches_lem total rounds zero = ground arith
first_tranches_lem total rounds (suc k) = ground (arith, first_tranches_lem total rounds k)

-- The tranches of all rounds add up to the total: nothing is lost to the integer division.
pub first_tranches-all :
    (total rounds : ℕ) → 0 < rounds → first_tranches total rounds rounds ≡ total
first_tranches-all total rounds h = omega (
  arith,
  (first_tranches_lem total rounds rounds).1 (omega (arith, mod-lt total h)),
  div-add-mod total rounds,
)

-- The amount of a round, where the call does not throw.
abbrev pub tranche : ℕ → ℕ → ℕ → ℕ
tranche total rounds round_index =
    total / rounds + (if ltb round_index (total % rounds) then 1 else 0)

pub tranche_amount-tranche :
    (total rounds round_index : ℕ)
    → 0 < rounds
    → rounds ≤ total
    → round_index < rounds
    → tranche_amount total rounds round_index ≡ ok (tranche total rounds round_index)
unfolding tranche_amount
tranche_amount-tranche total rounds round_index h₁ h₂ h₃ = ground arith

pub tranche_pos :
    (total rounds round_index : ℕ)
    → 0 < rounds
    → rounds ≤ total
    → 0 < tranche total rounds round_index
tranche_pos total rounds round_index h₁ h₂ =
    grind (arith, div-add-mod total rounds, mod-lt total h₁)

le-mul_pos : (r q : ℕ) → 0 < r → q ≤ r * q
le-mul_pos zero q h = absurd (omega arith)
le-mul_pos (suc r) q h = omega arith

tranche-le : (total rounds round_index : ℕ) → 0 < rounds → tranche total rounds round_index ≤ total
tranche-le total rounds round_index h =
    ground (arith, div-add-mod total rounds, le-mul_pos rounds (total / rounds) h)

tranche_amount-eq-ok :
    (total rounds round_index : ℕ) {amount : ℕ}
    → tranche_amount total rounds round_index ≡ ok amount
    → (round_index < rounds) × (rounds ≤ total) × (amount ≡ tranche total rounds round_index)
unfolding tranche_amount
tranche_amount-eq-ok total rounds round_index e = ground arith

-- If tranche_amount answers, the round exists, the total has a unit for every round, and the
-- amount is positive, at most the total, and the share of a round or one more.
pub tranche_amount_bounds :
    (total rounds round_index : ℕ) {amount : ℕ}
    → tranche_amount total rounds round_index ≡ ok amount
    → (round_index < rounds)
      × (rounds ≤ total)
      × (0 < amount)
      × (total / rounds ≤ amount)
      × (amount ≤ total / rounds + 1)
      × (amount ≤ total)
unfolding tranche_amount
tranche_amount_bounds total rounds round_index e =
    let (h, l, p) = tranche_amount-eq-ok total rounds round_index e in
    let pos = tranche_pos total rounds round_index (omega arith) l in
    let le = tranche-le total rounds round_index (omega arith) in
    (h, l, rw p pos, ground arith, ground arith, rw p le)

pub first_tranches-none : (total rounds : ℕ) → first_tranches total rounds 0 ≡ 0
unfolding first_tranches
first_tranches-none total rounds = refl

pub first_tranches-next :
    (total rounds k : ℕ)
    → first_tranches total rounds (k + 1) ≡ first_tranches total rounds k + tranche total rounds k
unfolding first_tranches
first_tranches-next total rounds k = rw add-one refl

-- What tranche_amount gives over the first `k` rounds.
pub sum_tranches : ℕ → ℕ → ℕ → Result ℕ
sum_tranches total rounds zero = ok 0
sum_tranches total rounds (suc k) =
    bind (sum_tranches total rounds k)
      (λ sum. bind (tranche_amount total rounds k) (λ amount. ok (sum + amount)))

sum_tranches-first :
    (total rounds k : ℕ)
    → rounds ≤ total
    → k ≤ rounds
    → sum_tranches total rounds k ≡ ok (first_tranches total rounds k)
unfolding sum_tranches first_tranches
sum_tranches-first total rounds zero h l = refl
sum_tranches-first total rounds (suc k) h l = rw (
  sum_tranches-first total rounds k h (omega arith),
  tranche_amount-tranche total rounds k (omega arith) h l,
)

-- If there is at least one round and the total has a unit for every round, the tranches of all
-- rounds are defined and add up to the total.
pub sum_tranches-all :
    (total rounds : ℕ) → 0 < rounds → rounds ≤ total → sum_tranches total rounds rounds ≡ ok total
sum_tranches-all total rounds h l =
    sum_tranches-first total rounds rounds l (omega arith)
    ∙ ap ok (first_tranches-all total rounds h)
