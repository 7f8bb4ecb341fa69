-- ===== src/Journal/Framing.antt =====
-- The records of a log (src/journal.cpp): what one append puts, and what the replay finds there.
use tradep2p.Base.{
  ℕ, zero, suc, ◌+◌, ◌%◌, ◌≤◌, ◌<◌, ◌≡◌, refl, List, [], ◌∷◌, ◌++◌, arith, length, length-append,
  take, drop, take-append_exact, drop-append_exact, length-take_le, ok, All,
}
use tradep2p.Protocol.Wire.Bytes.{
  IsByte, IsBytes, big_endian, from_big_endian, big_endian_u32, length-big_endian,
}
use tradep2p.Protocol.Wire.Writer
use tradep2p.Protocol.Wire.Writer.{written}
use tradep2p.Journal.Format.{max_record_body_length, torn, framed_body, framed, next_record, frame}

-- The bytes of a record.
abbrev pub record_bytes : ℕ → List ℕ → List ℕ
record_bytes kind body = kind ∷ big_endian 4 (length body % 4294967296) ++ body

pub frame_lem : (kind : ℕ) (body : List ℕ) → frame kind body ≡ ok (record_bytes kind body)
unfolding frame written Writer.◌>>◌ Writer.u8 Writer.u32 Writer.fixed_id big_endian
frame_lem kind body = refl

pub length-record_bytes :
    (kind : ℕ) (body : List ℕ) → length (record_bytes kind body) ≡ 5 + length body
length-record_bytes kind body =
    let n = length body % 4294967296 in
    omega (arith, length-append (big_endian 4 n) body, length-big_endian 4 n)

-- A record of at most 16384 bytes is found again, and behind it what follows it.
pub next_record-record_bytes :
    (kind : ℕ) (body more : List ℕ)
    → length body ≤ max_record_body_length
    → next_record (record_bytes kind body ++ more) ≡ framed kind body more
unfolding next_record big_endian
next_record-record_bytes kind body more h =
    let small : length body % 4294967296 ≡ length body = omega arith in
    let spelled = big_endian_u32 (length body) (omega arith) in
    rw (small, spelled)
      (ground (
        arith,
        length-append body more,
        take-append_exact body more (length body) refl,
        drop-append_exact body more (length body) refl,
      ))

-- A record that is cut short is a torn tail.
pub next_record-take :
    (kind : ℕ) (body : List ℕ) (n : ℕ)
    → length body ≤ max_record_body_length
    → n < 4 + length body
    → next_record (take (suc n) (record_bytes kind body)) ≡ torn
unfolding next_record big_endian
next_record-take kind body zero h l = refl
next_record-take kind body (suc zero) h l = refl
next_record-take kind body (suc (suc zero)) h l = refl
next_record-take kind body (suc (suc (suc zero))) h l = refl
next_record-take kind body (suc (suc (suc (suc n)))) h l =
    let small : length body % 4294967296 ≡ length body = omega arith in
    let spelled = big_endian_u32 (length body) (omega arith) in
    rw (small, spelled) (ground (arith, length-take_le n body))

length-drop :
    {A : Type 0} (n : ℕ) (xs : List A) → n ≤ length xs → n + length (drop n xs) ≡ length xs
length-drop zero xs h = omega arith
length-drop (suc n) [] h = absurd (omega arith)
length-drop (suc n) (x ∷ xs) h = omega (arith, length-drop n xs (omega arith))

-- A record takes its five bytes of header and its body.
pub next_record-framed :
    (raw : List ℕ) {kind : ℕ} {body rest : List ℕ}
    → next_record raw ≡ framed kind body rest
    → length raw ≡ 5 + (length body + length rest)
unfolding next_record
next_record-framed [] e = cc
next_record-framed (a ∷ []) e = cc
next_record-framed (a ∷ b ∷ []) e = cc
next_record-framed (a ∷ b ∷ c ∷ []) e = cc
next_record-framed (a ∷ b ∷ c ∷ d ∷ []) e = cc
next_record-framed (a ∷ b1 ∷ b2 ∷ b3 ∷ b4 ∷ raw) e =
    omega (arith, cut (from_big_endian 4294967296 0 (b1 ∷ b2 ∷ b3 ∷ b4 ∷ [])) e)
  where
    cut :
        (n : ℕ) {kind : ℕ} {body rest : List ℕ}
        → framed_body a n raw ≡ framed kind body rest
        → 5 + length raw ≡ 5 + (length body + length rest)
    cut n e = ground (arith, length-take_le n raw, length-drop n raw)

module _ {A : Type 0} (P : A → Type 0) where
  All-take : (n : ℕ) (xs : List A) → All P xs → All P (take n xs)
  All-take zero xs h = tt
  All-take (suc n) [] h = tt
  All-take (suc n) (x ∷ xs) h = (h.0, All-take n xs h.1)

  All-drop : (n : ℕ) (xs : List A) → All P xs → All P (drop n xs)
  All-drop zero xs h = h
  All-drop (suc n) [] h = tt
  All-drop (suc n) (x ∷ xs) h = All-drop n xs h.1

pub next_record-IsBytes :
    (raw : List ℕ) {kind : ℕ} {body rest : List ℕ}
    → IsBytes raw
    → next_record raw ≡ framed kind body rest
    → IsBytes body × IsBytes rest
unfolding next_record
next_record-IsBytes [] h e = cc
next_record-IsBytes (a ∷ []) h e = cc
next_record-IsBytes (a ∷ b ∷ []) h e = cc
next_record-IsBytes (a ∷ b ∷ c ∷ []) h e = cc
next_record-IsBytes (a ∷ b ∷ c ∷ d ∷ []) h e = cc
next_record-IsBytes (a ∷ b1 ∷ b2 ∷ b3 ∷ b4 ∷ raw) h e =
    cut (from_big_endian 4294967296 0 (b1 ∷ b2 ∷ b3 ∷ b4 ∷ [])) e
  where
    cut :
        (n : ℕ) {kind : ℕ} {body rest : List ℕ}
        → framed_body a n raw ≡ framed kind body rest
        → IsBytes body × IsBytes rest
    cut n e = ground (arith, All-take IsByte n raw h.1.1.1.1.1, All-drop IsByte n raw h.1.1.1.1.1)
