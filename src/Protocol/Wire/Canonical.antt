-- ===== src/Protocol/Wire/Canonical.antt =====
-- What a reader of src/protocol.cpp accepts beside what the writer puts: one rule for each
-- primitive and combination.
use tradep2p.Base.{
  ℕ, ◌≡◌, refl, sym, subst, ap, ◌∙◌, List, [], ◌∷◌, ◌++◌, append_assoc, append-nil, arith, length,
  take-append-drop, length-take_le, All-of_append, Result, ok, err, bind-eq-ok, ltb, ◌||◌, throw_if,
  zero, suc, All, invalid_argument, runtime_error,
}
use tradep2p.Protocol.Wire.Bytes.{
  IsByte, IsBytes, IsArray, IsU16, IsU32, IsU64, from_big_endian-IsU16, big_endian_u16_back,
  big_endian-IsU32_back, big_endian-IsU64_back,
}
use tradep2p.Protocol.Wire.Writer
use tradep2p.Protocol.Wire.Writer.{Writer, written}
use tradep2p.Protocol.Wire.Reader
use tradep2p.Protocol.Wire.Reader.{Reader, decoded}

-- `w` appends `bs`, whatever was written before.
pub record Writes (w : Writer) (bs : List ℕ) : Type 0 where
  pub apply : (out : List ℕ) → w out ≡ ok (out ++ bs)

-- What `r` reads, the value and the bytes taken, satisfies `Q`.
pub record Reads {ℓ κ} {A : Type ℓ} (r : Reader A) (Q : A → List ℕ → Type κ) : Type (ℓ ⊔ κ) where
  pub apply :
      (input : List ℕ) {a : A} {rest : List ℕ}
      → IsBytes input
      → r input ≡ ok (a, rest)
      → (bs : List ℕ) × (input ≡ bs ++ rest) × IsBytes rest × Q a bs

-- The same, and `r` takes all there is.
pub record ReadsAll {ℓ κ} {A : Type ℓ} (r : Reader A) (Q : A → List ℕ → Type κ) : Type (ℓ ⊔ κ) where
  pub apply :
      (input : List ℕ) {a : A} {rest : List ℕ} → IsBytes input → r input ≡ ok (a, rest) → Q a input

-- `r` takes nothing.
pub record ReadsNothing {ℓ κ} {A : Type ℓ} (r : Reader A) (P : A → Type κ) : Type (ℓ ⊔ κ) where
  pub apply : (input : List ℕ) {a : A} {rest : List ℕ} → r input ≡ ok (a, rest) → P a

pub wr_seq :
    {w v : Writer} {bs cs : List ℕ}
    → Writes w bs
    → Writes v cs
    → Writes (Writer.◌>>◌ w v) (bs ++ cs)
unfolding Writer.◌>>◌
wr_seq {w} {v} {bs} {cs} f g = record {
  apply = λ out. rw (f.apply out) (g.apply (out ++ bs) ∙ ap ok (append_assoc out bs cs));
}

pub wr_last : {w : Writer} {bs : List ℕ} → Writes w bs → Writes w (bs ++ [])
wr_last {bs} f = rw (append-nil bs) f

pub wr_checked :
    {c : Result (Unit {0})} {w : Writer} {bs : List ℕ}
    → c ≡ ok tt
    → Writes w bs
    → Writes (Writer.◌>>◌ (Writer.check c) w) bs
unfolding Writer.◌>>◌ Writer.check
wr_checked h f = record { apply = λ out. rw h (f.apply out) }

pub wr_nothing : Writes Writer.nothing []
unfolding Writer.nothing
wr_nothing = record { apply = λ out. ap ok (sym (append-nil out)) }

pub written_of_Writes : {w : Writer} {bs : List ℕ} → Writes w bs → written w ≡ ok bs
unfolding written
written_of_Writes f = f.apply []

module _ {ℓ κ} {A : Type ℓ} {B : Type κ} where
  pub rd_seq {μ ν} :
      {r : Reader A} (k : A → Reader B) {P : A → List ℕ → Type μ} {Q : B → List ℕ → Type ν}
      → Reads r P
      → ((a : A) (bs : List ℕ) → P a bs → Reads (k a) (λ b cs. Q b (bs ++ cs)))
      → Reads (Reader.◌>>=◌ r k) Q
  unfolding Reader.◌>>=◌
  rd_seq {r} k {P} {Q} f g = record {
    apply = λ input h e.
        let ((a, mid), e₁, e₂) = bind-eq-ok (r input) (λ (a, rest). k a rest) e in
        let (bs, p, hm, pa) = f.apply input h e₁ in
        let (cs, q, hr, qb) = (g a bs pa).apply mid hm e₂ in
        (bs ++ cs, p ∙ ap (λ t. bs ++ t) q ∙ sym (append_assoc bs cs _), hr, qb);
  }

  pub ra_seq {μ ν} :
      {r : Reader A} (k : A → Reader B) {P : A → List ℕ → Type μ} {Q : B → List ℕ → Type ν}
      → Reads r P
      → ((a : A) (bs : List ℕ) → P a bs → ReadsAll (k a) (λ b cs. Q b (bs ++ cs)))
      → ReadsAll (Reader.◌>>=◌ r k) Q
  unfolding Reader.◌>>=◌
  ra_seq {r} k {P} {Q} f g = record {
    apply = λ input h e.
        let ((a, mid), e₁, e₂) = bind-eq-ok (r input) (λ (a, rest). k a rest) e in
        let (bs, p, hm, pa) = f.apply input h e₁ in rw p ((g a bs pa).apply mid hm e₂);
  }

module _ {ℓ} {B : Type ℓ} where
  pub rd_check {ν} :
      {c : Result (Unit {0})} (k : Unit {0} → Reader B) {Q : B → List ℕ → Type ν}
      → (c ≡ ok tt → Reads (k tt) Q)
      → Reads (Reader.◌>>=◌ (Reader.check c) k) Q
  unfolding Reader.◌>>=◌ Reader.check
  rd_check {c = ok tt} k f = record { apply = (f refl).apply }
  rd_check {c = err e} k f = record { apply = λ input h p. cc }

  pub ra_check {ν} :
      {c : Result (Unit {0})} (k : Unit {0} → Reader B) {Q : B → List ℕ → Type ν}
      → (c ≡ ok tt → ReadsAll (k tt) Q)
      → ReadsAll (Reader.◌>>=◌ (Reader.check c) k) Q
  unfolding Reader.◌>>=◌ Reader.check
  ra_check {c = ok tt} k f = record { apply = (f refl).apply }
  ra_check {c = err e} k f = record { apply = λ input h p. cc }

  pub rn_check {ν} :
      {c : Result (Unit {0})} (k : Unit {0} → Reader B) {P : B → Type ν}
      → (c ≡ ok tt → ReadsNothing (k tt) P)
      → ReadsNothing (Reader.◌>>=◌ (Reader.check c) k) P
  unfolding Reader.◌>>=◌ Reader.check
  rn_check {c = ok tt} k f = record { apply = (f refl).apply }
  rn_check {c = err e} k f = record { apply = λ input p. cc }

  pub rd_pure {ν} : (b : B) {Q : B → List ℕ → Type ν} → Q b [] → Reads (Reader.pure b) Q
  unfolding Reader.pure
  rd_pure b {Q} q = record {
    apply = λ input h e. ([], cc, subst (IsBytes) (cc) h, subst (λ t. Q t []) (cc) q);
  }

  pub rn_pure {ν} : (b : B) {P : B → Type ν} → P b → ReadsNothing (Reader.pure b) P
  unfolding Reader.pure
  rn_pure b {P} q = record { apply = λ input e. subst P (cc) q }

  pub ra_finished {ν} :
      (k : Unit {0} → Reader B) {Q : B → List ℕ → Type ν}
      → ReadsNothing (k tt) (λ b. Q b [])
      → ReadsAll (Reader.◌>>=◌ Reader.require_finished k) Q
  unfolding Reader.◌>>=◌ Reader.require_finished
  ra_finished k f = record { apply = elim [ [] ↦ λ h e. f.apply [] e | x ∷ xs ↦ λ h e. cc ] }

  -- A whole message.
  pub decoded_of_ReadsAll {ν} :
      (r : Reader B) {Q : B → List ℕ → Type ν} {b : B} (input : List ℕ)
      → ReadsAll r Q
      → IsBytes input
      → decoded r input ≡ ok b
      → Q b input
  unfolding decoded
  decoded_of_ReadsAll r {Q} input f h e =
      let ((a, rest), e₁, e₂) = bind-eq-ok (r input) (λ (a, _). ok a) e in
      subst (λ t. Q t input) (cc) (f.apply input h e₁)

module _ {ℓ μ ν} {A : Type ℓ} where
  pub rd_weaken :
      {r : Reader A} {P : A → List ℕ → Type μ} {Q : A → List ℕ → Type ν}
      → Reads r P
      → ((a : A) (bs : List ℕ) → P a bs → Q a bs)
      → Reads r Q
  rd_weaken f g = record {
    apply = λ input {a} h e. let (bs, p, hr, pa) = f.apply input h e in (bs, p, hr, g a bs pa);
  }

-- The primitives. Each value read is in the range of its type, and the writer puts it back.
take_bytes_ok :
    (n : ℕ) (input : List ℕ) {xs rest : List ℕ}
    → Reader.take_bytes n input ≡ ok (xs, rest)
    → (input ≡ xs ++ rest) × (length xs ≡ n)
unfolding Reader.take_bytes
take_bytes_ok n input e = ground (arith, take-append-drop n input, length-take_le n input)

pub rd_take : (n : ℕ) → Reads (Reader.take_bytes n) (λ xs bs. (bs ≡ xs) × IsArray n xs)
rd_take n = record {
  apply = λ input {a} {rest} h e.
      let (p, l) = take_bytes_ok n input e in
      let (hx, hr) = All-of_append IsByte a rest (subst IsBytes p h) in
      (a, p, hr, (refl, record { size = l; bytes = hx }));
}

pub rd_u8 : Reads Reader.u8 (λ v bs. IsByte v × Writes (Writer.u8 v) bs)
unfolding Reader.u8 Writer.u8
rd_u8 = record {
  apply = elim [
    | [] ↦ λ h e. cc
    | x ∷ xs ↦ λ {a} {rest} h e. (
      a ∷ [],
      cc,
      subst IsBytes (cc) h.1,
      (subst IsByte (cc) h.0, record { apply = λ out. refl }),
    )
  ];
}

wr_raw : {bs xs ys : List ℕ} → bs ≡ xs → ys ≡ xs → Writes (λ out. ok (out ++ ys)) (bs ++ [])
wr_raw {bs} p q = record {
  apply = λ out. ap (λ t. ok (out ++ t)) (q ∙ sym p ∙ sym (append-nil bs));
}

pub rd_u16 : Reads Reader.u16 (λ v bs. IsU16 v × Writes (Writer.u16 v) bs)
unfolding Reader.u16 Writer.u16
rd_u16 = rd_seq _ (rd_take 2) λ xs bs (p, h).
    rd_pure _ (from_big_endian-IsU16 xs h.size, wr_raw p (big_endian_u16_back xs h.size h.bytes))

pub rd_u32 : Reads Reader.u32 (λ v bs. IsU32 v × Writes (Writer.u32 v) bs)
unfolding Reader.u32 Writer.u32
rd_u32 = rd_seq _ (rd_take 4) λ xs bs (p, h).
    let (r, back) = big_endian-IsU32_back xs h.size h.bytes in rd_pure _ (r, wr_raw p back)

pub rd_u64 : Reads Reader.u64 (λ v bs. IsU64 v × Writes (Writer.u64 v) bs)
unfolding Reader.u64 Writer.u64
rd_u64 = rd_seq _ (rd_take 8) λ xs bs (p, h).
    let (r, back) = big_endian-IsU64_back xs h.size h.bytes in rd_pure _ (r, wr_raw p back)

pub rd_id :
    (n : ℕ) → Reads (Reader.fixed_id n) (λ xs bs. IsArray n xs × Writes (Writer.fixed_id xs) bs)
unfolding Reader.fixed_id Writer.fixed_id
rd_id n =
    rd_weaken (rd_take n)
      λ xs bs (p, h). (h, record { apply = λ out. ap (λ t. ok (out ++ t)) (sym p) })

-- The length prefix of a string that the reader let through is one that the writer accepts.
accepted :
    (xs : List ℕ) (maximum : ℕ)
    → IsU16 (length xs)
    → throw_if (ltb maximum (length xs)) runtime_error ≡ ok tt
    → throw_if (ltb maximum (length xs) || ltb 65535 (length xs)) invalid_argument ≡ ok tt
accepted xs maximum h e = ground arith

pub rd_short_string :
    (maximum : ℕ)
    → Reads (Reader.short_string maximum) (λ xs bs. Writes (Writer.short_string xs maximum) bs)
unfolding Reader.short_string Writer.short_string
rd_short_string maximum = rd_seq _ rd_u16 λ n bs (h, w). rd_check _ λ e.
    rd_weaken (rd_take n) λ xs cs (p, a).
      wr_checked (accepted xs maximum (rw a.size h) (rw a.size e))
        (wr_seq (rw a.size w) (record { apply = λ out. ap (λ t. ok (out ++ t)) (sym p) }))

pub rd_bytes :
    (maximum : ℕ) → Reads (Reader.bytes maximum) (λ xs bs. Writes (Writer.bytes xs maximum) bs)
unfolding Reader.bytes Writer.bytes
rd_bytes maximum = rd_seq _ rd_u16 λ n bs (h, w). rd_check _ λ e.
    rd_weaken (rd_take n) λ xs cs (p, a).
      wr_checked (accepted xs maximum (rw a.size h) (rw a.size e))
        (wr_seq (rw a.size w) (record { apply = λ out. ap (λ t. ok (out ++ t)) (sym p) }))

pub rd_times {ℓ κ} :
    {A : Type ℓ} {r : Reader A} {w : A → Writer} {P : A → Type κ}
    → Reads r (λ a bs. P a × Writes (w a) bs)
    → (n : ℕ)
    → Reads (Reader.times n r) (λ xs bs. (length xs ≡ n) × All P xs × Writes (Writer.each w xs) bs)
unfolding Reader.times Writer.each
rd_times f zero = rd_pure [] (refl, tt, wr_nothing)
rd_times f (suc n) = rd_seq _ f λ x _ (h, v).
    rd_seq _ (rd_times f n)
      λ xs _ (l, hs, vs). rd_pure (x ∷ xs) (ap suc l, (h, hs), wr_seq v (wr_last vs))
