-- ===== src/Protocol/Wire/RoundTrip.antt =====
-- What a writer of src/protocol.cpp puts, and the reader that takes it back: one rule for each
-- primitive and each way to combine.
use tradep2p.Base.{
  ℕ, ◌+◌, ◌*◌, ◌≤◌, ◌≡◌, refl, sym, ap, ◌∙◌, All, List, [], ◌∷◌, ◌++◌, append_assoc, append-nil,
  arith, length, length-append, take-append_exact, drop-append_exact, Result, ok, err, bind-eq-ok,
  ltb, throw_if, runtime_error,
}
use tradep2p.Protocol.Wire.Bytes.{
  IsArray, IsU16, IsU32, IsU64, big_endian, length-big_endian, big_endian_u16, big_endian_u32,
  big_endian_u64,
}
use tradep2p.Protocol.Wire.Writer
use tradep2p.Protocol.Wire.Writer.{Writer, written}
use tradep2p.Protocol.Wire.Reader
use tradep2p.Protocol.Wire.Reader.{Reader, decoded}

-- If `w` writes, it writes at most `n` bytes, and `r` reads `a` off them when `rest` follows.
pub record RoundTrip {ℓ} {A : Type ℓ} (w : Writer) (r : Reader A) (a : A) (n : ℕ) (rest : List ℕ)
    : Type ℓ where
  pub apply :
      (out out' : List ℕ)
      → w out ≡ ok out'
      → (bs : List ℕ) × (out' ≡ out ++ bs) × (length bs ≤ n) × (r (bs ++ rest) ≡ ok (a, rest))

-- `r` ends with `a` where `rest` is what is left.
pub record Yields {ℓ} {A : Type ℓ} (r : Reader A) (a : A) (rest : List ℕ) : Type ℓ where
  pub apply : r rest ≡ ok (a, rest)

module _ {ℓ κ} {A : Type ℓ} {B : Type κ} where
  pub rt_seq :
      {w v : Writer} {r : Reader A} (k : A → Reader B) {a : A} {b : B} {n m : ℕ} {rest : List ℕ}
      → ((more : List ℕ) → RoundTrip w r a n more)
      → RoundTrip v (k a) b m rest
      → RoundTrip (Writer.◌>>◌ w v) (Reader.◌>>=◌ r k) b (n + m) rest
  unfolding Writer.◌>>◌ Reader.◌>>=◌
  rt_seq {w} {v} {r} k {a} {b} {n} {m} {rest} f g = record {
    apply = λ out out' e.
        let (mid, e₁, e₂) = bind-eq-ok (w out) v e in
        let (cs, p, l, q) = g.apply mid out' e₂ in
        let (ds, p', l', q') = (f (cs ++ rest)).apply out mid e₁ in
        (
          ds ++ cs,
          p ∙ ap (λ t. t ++ cs) p' ∙ append_assoc out ds cs,
          omega (arith, length-append ds cs),
          rw (append_assoc ds cs rest, q') q,
        );
  }

  -- The last field.
  pub rt_last :
      {w : Writer} {r : Reader A} (k : A → Reader B) {a : A} {b : B} {n : ℕ} {rest : List ℕ}
      → ((more : List ℕ) → RoundTrip w r a n more)
      → Yields (k a) b rest
      → RoundTrip w (Reader.◌>>=◌ r k) b n rest
  unfolding Reader.◌>>=◌
  rt_last {w} {r} k {a} {b} {n} {rest} f y = record {
    apply = λ out out' e. let (bs, p, l, q) = (f rest).apply out out' e in (bs, p, l, rw q y.apply);
  }

module _ {ℓ} {B : Type ℓ} where
  -- A check of the encoder holds on the way back.
  pub rt_checked :
      {c : Result (Unit {0})} {w : Writer} {r : Reader B} {b : B} {n : ℕ} {rest : List ℕ}
      → (c ≡ ok tt → RoundTrip w r b n rest)
      → RoundTrip (Writer.◌>>◌ (Writer.check c) w) r b n rest
  unfolding Writer.◌>>◌ Writer.check
  rt_checked {c = ok tt} f = record { apply = (f refl).apply }
  rt_checked {c = err e} f = record { apply = λ out out' h. cc }

  pub rt_check :
      {c : Result (Unit {0})} {w : Writer} (k : Unit {0} → Reader B) {b : B} {n : ℕ} {rest : List ℕ}
      → c ≡ ok tt
      → RoundTrip w (k tt) b n rest
      → RoundTrip w (Reader.◌>>=◌ (Reader.check c) k) b n rest
  unfolding Reader.◌>>=◌ Reader.check
  rt_check k h f = record { apply = rw h f.apply }

  pub rt_nothing :
      {r : Reader B} {b : B} {rest : List ℕ} → Yields r b rest → RoundTrip Writer.nothing r b 0 rest
  unfolding Writer.nothing
  rt_nothing {rest} y = record {
    apply = λ out out' e. ([], ground (arith, append-nil out), omega arith, y.apply);
  }

  pub rt_weaken :
      {w : Writer} {r : Reader B} {b : B} {n : ℕ} (m : ℕ) {rest : List ℕ}
      → n ≤ m
      → RoundTrip w r b n rest
      → RoundTrip w r b m rest
  rt_weaken m h f = record {
    apply = λ out out' e. let (bs, p, l, q) = f.apply out out' e in (bs, p, omega arith, q);
  }

  pub Yields-check :
      {c : Result (Unit {0})} (k : Unit {0} → Reader B) {b : B} {rest : List ℕ}
      → c ≡ ok tt
      → Yields (k tt) b rest
      → Yields (Reader.◌>>=◌ (Reader.check c) k) b rest
  unfolding Reader.◌>>=◌ Reader.check
  Yields-check k h y = record { apply = rw h y.apply }

  pub Yields-step {κ} :
      {A : Type κ} (a : A) (k : A → Reader B) {b : B} {rest : List ℕ}
      → Yields (k a) b rest
      → Yields (Reader.◌>>=◌ (Reader.pure a) k) b rest
  unfolding Reader.◌>>=◌ Reader.pure
  Yields-step a k y = record { apply = y.apply }

  pub Yields-finished :
      (k : Unit {0} → Reader B) {b : B}
      → Yields (k tt) b []
      → Yields (Reader.◌>>=◌ Reader.require_finished k) b []
  unfolding Reader.◌>>=◌ Reader.require_finished
  Yields-finished k y = record { apply = y.apply }

  pub Yields-pure : (b : B) (rest : List ℕ) → Yields (Reader.pure b) b rest
  unfolding Reader.pure
  Yields-pure b rest = record { apply = refl }

  -- A whole message, of at most `limit` bytes.
  pub decoded-written :
      (w : Writer) (r : Reader B) {b : B} {n limit : ℕ} {bs : List ℕ}
      → written w ≡ ok bs
      → RoundTrip w r b n []
      → n ≤ limit
      → (decoded r bs ≡ ok b) × (length bs ≤ limit)
  unfolding written decoded
  decoded-written w r e f h =
      let (cs, p, l, q) = f.apply [] _ e in (rw (p, ← append-nil cs, q), rw p (omega arith))

-- The primitives.
pub reads_take :
    (n : ℕ) (xs rest : List ℕ) → length xs ≡ n → Reader.take_bytes n (xs ++ rest) ≡ ok (xs, rest)
unfolding Reader.take_bytes
reads_take n xs rest h =
    ground (arith, length-append xs rest, take-append_exact xs rest n, drop-append_exact xs rest n)

pub reads_rest : (n : ℕ) (xs : List ℕ) → length xs ≡ n → Reader.take_bytes n xs ≡ ok (xs, [])
reads_rest n xs h = ap (Reader.take_bytes n) (sym (append-nil xs)) ∙ reads_take n xs [] h

pub rt_u8 : (v : ℕ) (rest : List ℕ) → RoundTrip (Writer.u8 v) Reader.u8 v 1 rest
unfolding Writer.u8 Reader.u8
rt_u8 v rest = record { apply = λ out out' e. (v ∷ [], ground arith, omega arith, refl) }

pub rt_u16 : (v : ℕ) → IsU16 v → (rest : List ℕ) → RoundTrip (Writer.u16 v) Reader.u16 v 2 rest
unfolding Writer.u16 Reader.u16 Reader.◌>>=◌ Reader.pure
rt_u16 v h rest = record {
  apply = λ out out' e. (
    big_endian 2 v,
    ground arith,
    omega (arith, length-big_endian 2 v),
    rw (reads_take 2 (big_endian 2 v) rest (length-big_endian 2 v)) (rw (big_endian_u16 v h)),
  );
}

pub rt_u32 : (v : ℕ) → IsU32 v → (rest : List ℕ) → RoundTrip (Writer.u32 v) Reader.u32 v 4 rest
unfolding Writer.u32 Reader.u32 Reader.◌>>=◌ Reader.pure
rt_u32 v h rest = record {
  apply = λ out out' e. (
    big_endian 4 v,
    ground arith,
    omega (arith, length-big_endian 4 v),
    rw (reads_take 4 (big_endian 4 v) rest (length-big_endian 4 v)) (rw (big_endian_u32 v h)),
  );
}

pub rt_u64 : (v : ℕ) → IsU64 v → (rest : List ℕ) → RoundTrip (Writer.u64 v) Reader.u64 v 8 rest
unfolding Writer.u64 Reader.u64 Reader.◌>>=◌ Reader.pure
rt_u64 v h rest = record {
  apply = λ out out' e. (
    big_endian 8 v,
    ground arith,
    omega (arith, length-big_endian 8 v),
    rw (reads_take 8 (big_endian 8 v) rest (length-big_endian 8 v)) (rw (big_endian_u64 v h)),
  );
}

-- What the readers find of the bytes of a number.
pub reads_u16 :
    (v : ℕ) (rest : List ℕ) → IsU16 v → Reader.u16 (big_endian 2 v ++ rest) ≡ ok (v, rest)
unfolding Writer.u16
reads_u16 v rest h = let (bs, p, l, q) = (rt_u16 v h rest).apply [] _ refl in rw p q

pub reads_u32 :
    (v : ℕ) (rest : List ℕ) → IsU32 v → Reader.u32 (big_endian 4 v ++ rest) ≡ ok (v, rest)
unfolding Writer.u32
reads_u32 v rest h = let (bs, p, l, q) = (rt_u32 v h rest).apply [] _ refl in rw p q

pub reads_u64 :
    (v : ℕ) (rest : List ℕ) → IsU64 v → Reader.u64 (big_endian 8 v ++ rest) ≡ ok (v, rest)
unfolding Writer.u64
reads_u64 v rest h = let (bs, p, l, q) = (rt_u64 v h rest).apply [] _ refl in rw p q

pub rt_id :
    (n : ℕ) (xs : List ℕ)
    → IsArray n xs
    → (rest : List ℕ) → RoundTrip (Writer.fixed_id xs) (Reader.fixed_id n) xs n rest
unfolding Writer.fixed_id Reader.fixed_id
rt_id n xs h rest = record {
  apply = λ out out' e. (xs, ground arith, omega (arith, h.size), reads_take n xs rest h.size);
}

pub unguarded : (n maximum : ℕ) → n ≤ maximum → throw_if (ltb maximum n) runtime_error ≡ ok tt
unguarded n maximum h = ground arith

pub rt_raw :
    (xs : List ℕ) (maximum n : ℕ)
    → length xs ≡ n
    → n ≤ maximum
    → (rest : List ℕ) → RoundTrip (λ out. ok (out ++ xs)) (Reader.take_bytes n) xs maximum rest
rt_raw xs maximum n h l rest = record {
  apply = λ out out' e. (xs, ground arith, omega arith, reads_take n xs rest h);
}

pub rt_short_string :
    (xs : List ℕ) (maximum : ℕ) (rest : List ℕ)
    → RoundTrip (Writer.short_string xs maximum) (Reader.short_string maximum) xs (2 + maximum) rest
unfolding Writer.short_string Reader.short_string
rt_short_string xs maximum rest = rt_checked λ h. rt_seq _ (rt_u16 (length xs) (ground arith)) (
    rt_check _ (unguarded (length xs) maximum (ground arith))
      (rt_raw xs maximum (length xs) refl (ground arith) rest))

pub rt_bytes :
    (xs : List ℕ) (maximum : ℕ) (rest : List ℕ)
    → RoundTrip (Writer.bytes xs maximum) (Reader.bytes maximum) xs (2 + maximum) rest
unfolding Writer.bytes Reader.bytes
rt_bytes xs maximum rest = rt_checked λ h. rt_seq _ (rt_u16 (length xs) (ground arith)) (
    rt_check _ (unguarded (length xs) maximum (ground arith))
      (rt_raw xs maximum (length xs) refl (ground arith) rest))

-- A loop over a list, if each round is taken back in at most `n` bytes.
pub rt_each {ℓ κ} :
    {A : Type ℓ} {w : A → Writer} {r : Reader A} {n : ℕ} (P : A → Type κ)
    → ((x : A) → P x → (rest : List ℕ) → RoundTrip (w x) r x n rest)
    → (xs : List A) → All P xs
    → (rest : List ℕ)
    → RoundTrip (Writer.each w xs) (Reader.times (length xs) r) xs (length xs * n) rest
unfolding Writer.each Reader.times
rt_each P f [] h rest = rt_weaken _ (omega arith) (rt_nothing (Yields-pure [] rest))
rt_each {n} P f (x ∷ xs) h rest =
    rt_weaken _ (omega arith)
      (rt_seq _ (f x h.0) (rt_last _ (rt_each P f xs h.1) (Yields-pure (x ∷ xs) rest)))
