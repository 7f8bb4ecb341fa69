-- ===== src/Channel/Order.antt =====
-- What a channel (src/secure_channel.cpp) receives of any bytes.
use tradep2p.Base.{
  ℕ, zero, suc, ◌+◌, ◌≤◌, ◌≡◌, refl, List, [], ◌∷◌, arith, length, Result, ok, err, true,
  bind-eq-ok, ◌==◌, Bool-cases, inl, inr, length-take_le,
}
use tradep2p.Protocol.Types.{max_frame_payload}
use tradep2p.Protocol.Validate.{validate_message_type}
use tradep2p.Protocol.Wire.Reader
use tradep2p.Protocol.Wire.Reader.{decoded}
use tradep2p.Protocol.Wire.Canonical.{ReadsNothing, rn_check, rn_pure}
use tradep2p.Channel.{
  Channel, Frame, FrameHeader, max_sequence, header_reader, read_payload, receive_frame,
  receive_all,
}

-- What a header says once it was read.
record IsExpected (receive_sequence : ℕ) (header : FrameHeader) : Type 0 where
  type : validate_message_type header.type ≡ ok tt
  sequence : header.sequence ≡ receive_sequence
  length : header.length ≤ max_frame_payload

after {ℓ κ μ} :
    {A : Type ℓ} {B : Type κ} {P : B → Type μ} (r : Reader.Reader A) (k : A → Reader.Reader B)
    → ((a : A) → ReadsNothing (k a) P)
    → ReadsNothing (Reader.◌>>=◌ r k) P
unfolding Reader.◌>>=◌
after r k f = record {
  apply = λ input e.
      let ((a, rest), e₁, e₂) = bind-eq-ok (r input) (λ (a, rest). k a rest) e in
      (f a).apply rest e₂;
}

header_reader-IsExpected : (n : ℕ) → ReadsNothing (header_reader n) (IsExpected n)
unfolding header_reader
header_reader-IsExpected n = after _ _ λ found. rn_check _ λ _. after _ _ λ version. rn_check _ λ _.
    after _ _ λ type. rn_check _ λ known. after _ _ λ sequence. rn_check _ λ expected.
      after _ _ λ size.
        rn_check _ λ short.
          rn_pure _ (record { type = known; sequence = ground arith; length = ground arith })

-- A frame received by a channel that expects the number `sequence`, and the channel behind it.
record IsNextFrame (expected : ℕ) (after : Channel) (frame : Frame) : Type 0 where
  type : validate_message_type frame.type ≡ ok tt
  sequence : frame.sequence ≡ expected
  payload : length frame.payload ≤ max_frame_payload
  channel : after.receive_sequence ≡ expected + 1

took_all :
    (n : ℕ) (input : List ℕ) {payload rest : List ℕ}
    → Reader.take_bytes n input ≡ ok (payload, rest)
    → length payload ≡ n
unfolding Reader.take_bytes
took_all n input e = ground (arith, length-take_le n input)

read_payload-IsNextFrame :
    (header : FrameHeader) (b : Channel) (input : List ℕ) {frame : Frame}
    → IsExpected b.receive_sequence header
    → (read_payload header b input).outcome ≡ ok frame
    → IsNextFrame b.receive_sequence (read_payload header b input).channel frame
unfolding read_payload
read_payload-IsNextFrame header b input {frame} h = go (Reader.take_bytes header.length input) refl
  where
    go :
        (x : Result (List ℕ × List ℕ))
        → Reader.take_bytes header.length input ≡ x
        → (read_payload header b input).outcome ≡ ok frame
        → IsNextFrame b.receive_sequence (read_payload header b input).channel frame
    go (err e') p e = let e₁ = rw (p, read_payload) at e in cc
    go (ok (payload, rest)) p e = elim (Bool-cases (b.receive_sequence == max_sequence)) [
      | inl q ↦ let e₁ = rw (p, read_payload, q) at e in cc
      | inr q ↦
          let size = took_all header.length input p in
          let e₁ = rw (p, read_payload, q) at e in
          let same : record { type = header.type; sequence = header.sequence; payload = payload }
              ≡ frame =
            cc in
          rw (p, read_payload, q, ← same)
            (record {
              type = h.type;
              sequence = h.sequence;
              payload = rw size h.length;
              channel = refl;
            })
    ]

decoded-IsExpected :
    (n : ℕ) (bs : List ℕ) {header : FrameHeader}
    → decoded (header_reader n) bs ≡ ok header
    → IsExpected n header
unfolding decoded
decoded-IsExpected n bs {header} e =
    let ((found, rest), e₁, e₂) = bind-eq-ok (header_reader n bs) (λ (a, _). ok a) e in
    let same : found ≡ header = cc in rw (← same) ((header_reader-IsExpected n).apply bs e₁)

receive_frame-IsNextFrame :
    (b : Channel) (input : List ℕ) {frame : Frame}
    → (receive_frame b input).outcome ≡ ok frame
    → IsNextFrame b.receive_sequence (receive_frame b input).channel frame
unfolding receive_frame
receive_frame-IsNextFrame b input {frame} e = elim (Bool-cases b.is_open) [
  | inr q ↦ let e₁ = rw (q, receive_frame) at e in cc
  | inl q ↦ took (Reader.take_bytes 20 input) refl q
]
  where
    parsed :
        (header rest : List ℕ) (x : Result FrameHeader)
        → b.is_open ≡ true
        → Reader.take_bytes 20 input ≡ ok (header, rest)
        → decoded (header_reader b.receive_sequence) header ≡ x
        → IsNextFrame b.receive_sequence (receive_frame b input).channel frame
    parsed header rest (err e') q p r = let e₁ = rw (q, receive_frame, p, r) at e in cc
    parsed header rest (ok h) q p r =
        let e₁ = rw (q, receive_frame, p, r) at e in
        rw (q, receive_frame, p, r)
          (read_payload-IsNextFrame h b rest (decoded-IsExpected b.receive_sequence header r) e₁)

    took :
        (x : Result (List ℕ × List ℕ))
        → Reader.take_bytes 20 input ≡ x
        → b.is_open ≡ true
        → IsNextFrame b.receive_sequence (receive_frame b input).channel frame
    took (err e') p q = let e₁ = rw (q, receive_frame, p) at e in cc
    took (ok (header, rest)) p q =
        parsed header rest (decoded (header_reader b.receive_sequence) header) q p refl

-- Frames whose numbers follow each other from `sequence` on, each with a known type and a payload
-- within the limit.
abbrev pub AreNumbered : ℕ → List Frame → Type 0
AreNumbered sequence [] = Unit {0}
AreNumbered sequence (frame ∷ frames) =
    (frame.sequence ≡ sequence)
    × (validate_message_type frame.type ≡ ok tt)
    × (length frame.payload ≤ max_frame_payload)
    × AreNumbered (sequence + 1) frames

-- Whatever the bytes are, a number of receive_frame calls that do not throw yields that number of
-- frames, numbered from the counter of the channel on without a gap, with known types and
-- payloads within the limit, and the counter goes up by the number of frames.
pub receive_all-AreNumbered :
    (n : ℕ) (b : Channel) (input : List ℕ) {frames : List Frame} {last : Channel} {rest : List ℕ}
    → receive_all n b input ≡ ok (frames, last, rest)
    → (length frames ≡ n)
      × (last.receive_sequence ≡ b.receive_sequence + n)
      × AreNumbered b.receive_sequence frames
unfolding receive_all
receive_all-AreNumbered zero b input e = ground arith
receive_all-AreNumbered (suc n) b input {frames} {last} {rest} e =
    let (frame, e₁, f₁) = bind-eq-ok (receive_frame b input).outcome _ e in
    let next = receive_frame-IsNextFrame b input e₁ in
    let ((more, end, left), e₂, f₂) =
      bind-eq-ok (receive_all n (receive_frame b input).channel (receive_frame b input).input) _
        f₁ in
    let (size, counter, ordered) =
      receive_all-AreNumbered n (receive_frame b input).channel (receive_frame b input).input e₂ in
    let joined : frame ∷ more ≡ frames = cc in
    let same : end ≡ last = cc in
    let numbered = rw next.channel at ordered in
    rw (← joined, ← same, size, counter, next.channel)
      (refl, omega arith, (next.sequence, next.type, next.payload, numbered))
