-- ===== src/Channel/Delivery.antt =====
-- What one end of a channel (src/secure_channel.cpp) receives of what the other end sends.
use tradep2p.Base.{
  ℕ, ◌+◌, ◌≤◌, ◌<◌, ◌≡◌, ◌≢◌, refl, List, [], ◌∷◌, ◌++◌, append_assoc, arith, length, ok, true,
  false, runtime_error, ◌==◌, ltb,
}
use tradep2p.Protocol.Types.{max_frame_payload}
use tradep2p.Protocol.Validate.{validate_message_type}
use tradep2p.Protocol.Wire.RoundTrip.{reads_take}
use tradep2p.Channel.{Channel, Frame, max_sequence, write_frame, send_frame, receive_frame, failed}
use tradep2p.Channel.Header.{
  header_bytes, header_writer-ok, length-header_bytes, decoded-header_bytes_other,
}

-- A message that may be sent.
pub record IsSendable (message : ℕ × List ℕ) : Type 0 where
  pub type : validate_message_type message.0 ≡ ok tt
  pub payload : length message.1 ≤ max_frame_payload

-- The frames of messages that are numbered from `sequence` on.
abbrev pub numbered : ℕ → List (ℕ × List ℕ) → List Frame
numbered sequence [] = []
numbered sequence ((type, payload) ∷ messages) =
    record { type = type; sequence = sequence; payload = payload }
    ∷ numbered (sequence + 1) messages

abbrev pub frame_bytes : ℕ → ℕ → List ℕ → List ℕ
frame_bytes type sequence payload = header_bytes type sequence (length payload) ++ payload

-- A channel that is not closed, with its two counters.
abbrev pub open_channel : ℕ → ℕ → Channel
open_channel sending receiving = record {
  is_open = true;
  send_sequence = sending;
  receive_sequence = receiving;
}

abbrev pub frame_of : ℕ → ℕ → List ℕ → Frame
frame_of type sequence payload = record { type = type; sequence = sequence; payload = payload }

write_frame-ok :
    (type : ℕ) (payload : List ℕ) (n r : ℕ)
    → n < max_sequence
    → write_frame type payload (open_channel n r) ≡ record {
      outcome = ok tt;
      channel = open_channel (n + 1) r;
      output = frame_bytes type n payload;
    }
unfolding write_frame
write_frame-ok type payload n r s =
    let fresh : (n == max_sequence) ≡ false = ground arith in
    rw (header_writer-ok type n (length payload), write_frame, fresh) refl

send_frame-ok :
    (type : ℕ) (payload : List ℕ) (n r : ℕ)
    → IsSendable (type, payload)
    → n < max_sequence
    → send_frame type payload (open_channel n r) ≡ record {
      outcome = ok tt;
      channel = open_channel (n + 1) r;
      output = frame_bytes type n payload;
    }
unfolding send_frame
send_frame-ok type payload n r m s =
    let short : ltb max_frame_payload (length payload) ≡ false = ground (arith, m.payload) in
    rw (m.type, send_frame, short) (write_frame-ok type payload n r s)

-- The bytes of messages that are numbered from `sequence` on.
abbrev pub stream : ℕ → List (ℕ × List ℕ) → List ℕ
stream sequence [] = []
stream sequence ((type, payload) ∷ messages) =
    frame_bytes type sequence payload ++ stream (sequence + 1) messages

-- A frame that is sent with one number and arrives at an open channel that expects another,
-- because it is repeated, lost or out of order, is refused with a runtime error, and the channel
-- is as it was.
pub receive_frame-send_frame_other :
    (type : ℕ) (payload more : List ℕ) (n r s other : ℕ)
    → IsSendable (type, payload)
    → n < max_sequence
    → n ≢ other
    → receive_frame
        (open_channel s other)
        ((send_frame type payload (open_channel n r)).output ++ more)
      ≡ failed runtime_error (open_channel s other) (payload ++ more)
unfolding receive_frame
receive_frame-send_frame_other type payload more n r s other m l differ =
    let header = header_bytes type n (length payload) in
    rw
      (
        send_frame-ok type payload n r m l,
        append_assoc header payload more,
        reads_take 20 header (payload ++ more) (length-header_bytes type n (length payload)),
        receive_frame,
        decoded-header_bytes_other type n other (length payload) m.type (omega arith) differ,
      )
      refl
