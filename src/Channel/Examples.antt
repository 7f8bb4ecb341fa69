-- ===== src/Channel/Examples.antt =====
-- Messages on a channel (src/secure_channel.cpp), on which the theorems are applied.
use tradep2p.Base.{length, ℕ, ◌+◌, ◌≡◌, refl, List, [], ◌∷◌, ◌++◌, ok, arith, runtime_error}
use tradep2p.Protocol.Validate.{validate_message_type}
use tradep2p.Protocol.Wire.Bytes.{big_endian, from_big_endian}
use tradep2p.Protocol.Wire.Reader
use tradep2p.Channel.{
  Frame, send_frame, receive_all, receive_frame, failed, header_reader, read_payload,
}
use tradep2p.Channel.Delivery.{
  IsSendable, open_channel, frame_of, stream, receive_frame-send_frame_other,
}
use tradep2p.Channel.Order.{AreNumbered, receive_all-AreNumbered}

abbrev messages : List (ℕ × List ℕ)
messages = (2, []) ∷ (12, 5 ∷ 6 ∷ []) ∷ []

messages-IsSendable : IsSendable (2, []) × (IsSendable (12, 5 ∷ 6 ∷ []) × Unit {0})
unfolding validate_message_type
messages-IsSendable = (
  record { type = refl; payload = omega arith },
  (record { type = refl; payload = omega arith }, tt),
)

-- The first frame is delivered once more.
receive_frame-send_frame_other_example :
    receive_frame
      (open_channel 4 2)
      ((send_frame 12 (5 ∷ 6 ∷ []) (open_channel 1 7)).output ++ 9 ∷ [])
    ≡ failed runtime_error (open_channel 4 2) (5 ∷ 6 ∷ 9 ∷ [])
receive_frame-send_frame_other_example =
    receive_frame-send_frame_other 12 (5 ∷ 6 ∷ []) (9 ∷ []) 1 7 4 2 messages-IsSendable.1.0
      (omega arith) (omega arith)

abbrev two_frames : List Frame
two_frames = frame_of 2 1 [] ∷ frame_of 12 2 (5 ∷ 6 ∷ []) ∷ []

two_received :
    receive_all 2 (open_channel 4 1) (stream 1 messages) ≡ ok (two_frames, open_channel 4 3, [])
unfolding receive_all receive_frame header_reader read_payload validate_message_type Reader.◌>>=◌
    Reader.check Reader.pure Reader.decoded Reader.take_bytes Reader.u16 Reader.u32 Reader.u64
    Reader.fixed_id big_endian from_big_endian
two_received = refl

receive_all-AreNumbered_example :
    (length two_frames ≡ 2)
    × ((open_channel 4 3).receive_sequence ≡ 1 + 2)
    × AreNumbered 1 two_frames
receive_all-AreNumbered_example =
    receive_all-AreNumbered 2 (open_channel 4 1) (stream 1 messages) two_received
