-- ===== src/Channel.antt =====
-- The frames of src/secure_channel.cpp. TLS is a stream of bytes in order: what one end writes is the
-- input of the other. Making and closing a connection is not modelled.
use tradep2p.Base.{
  bind, zero, suc, ℕ, ◌+◌, ◌%◌, List, [], ◌∷◌, ◌++◌, Bool, ◌||◌, not, length, take, drop, ltb, ◌==◌,
  bytes_eq, if◌then◌else◌, Result, ok, err, throw_if, Error, invalid_argument, runtime_error,
  logic_error,
}
use tradep2p.Protocol.Types.{protocol_version, max_frame_payload}
use tradep2p.Protocol.Validate.{validate_message_type}
use tradep2p.Protocol.Wire.Writer
use tradep2p.Protocol.Wire.Writer.{Writer, ◌>>◌}
use tradep2p.Protocol.Wire.Reader
use tradep2p.Protocol.Wire.Reader.{Reader, ◌>>=◌, decoded, pure}
pub mod Header
pub mod Delivery
pub mod Order
mod Examples

-- `is_open` stands for `ssl_ != nullptr`.
pub record Channel : Type 0 where
  pub is_open : Bool
  pub send_sequence : ℕ
  pub receive_sequence : ℕ

-- A MessageType is its number.
pub record Frame : Type 0 where
  pub type : ℕ
  pub sequence : ℕ
  pub payload : List ℕ

abbrev pub max_sequence : ℕ
max_sequence = 18446744073709551615

-- 'T', 'P', '2', 'P'
abbrev pub frame_magic : List ℕ
frame_magic = b'T' ∷ b'P' ∷ b'2' ∷ b'P' ∷ []

unfoldable pub header_writer : ℕ → ℕ → ℕ → Writer
header_writer type sequence length = do
  Writer.fixed_id frame_magic
  Writer.u16 protocol_version
  Writer.u16 type
  Writer.u64 sequence
  Writer.u32 (length % 4294967296)

-- What a call leaves: its outcome, the channel, and the bytes that it wrote.
pub record Sent : Type 0 where
  pub outcome : Result (Unit {0})
  pub channel : Channel
  pub output : List ℕ

abbrev pub refused : Error → Channel → Sent
refused e channel = record { outcome = err e; channel = channel; output = [] }

unfoldable pub write_frame : ℕ → List ℕ → Channel → Sent
write_frame type payload channel =
    elim (Writer.written (header_writer type channel.send_sequence (length payload))) [
      | err e ↦ refused e channel
      | ok header ↦
          if channel.send_sequence == max_sequence
          then record { outcome = err runtime_error; channel = channel; output = header ++ payload }
          else record {
            outcome = ok tt;
            channel = record channel { send_sequence = channel.send_sequence + 1 };
            output = header ++ payload;
          }
    ]

unfoldable pub send_frame : ℕ → List ℕ → Channel → Sent
send_frame type payload channel =
    if not channel.is_open then refused logic_error channel else elim (validate_message_type type) [
      | err e ↦ refused e channel
      | ok _ ↦
          if ltb max_frame_payload (length payload)
          then refused invalid_argument channel
          else write_frame type payload channel
    ]

pub record FrameHeader : Type 0 where
  pub type : ℕ
  pub sequence : ℕ
  pub length : ℕ

unfoldable pub header_reader : ℕ → Reader FrameHeader
header_reader receive_sequence = do
  found ← Reader.fixed_id 4
  _ ← Reader.check (throw_if (not (bytes_eq found frame_magic)) runtime_error)
  version ← Reader.u16
  _ ← Reader.check (throw_if (not (version == protocol_version)) runtime_error)
  type ← Reader.u16
  _ ← Reader.check (validate_message_type type)
  sequence ← Reader.u64
  _ ← Reader.check (throw_if (not (sequence == receive_sequence)) runtime_error)
  length ← Reader.u32
  _ ← Reader.check (throw_if (ltb max_frame_payload length) runtime_error)
  pure (record { type = type; sequence = sequence; length = length })

-- What a call leaves: its outcome, the channel, and the input that is left.
pub record Received : Type 0 where
  pub outcome : Result Frame
  pub channel : Channel
  pub input : List ℕ

abbrev pub failed : Error → Channel → List ℕ → Received
failed e channel input = record { outcome = err e; channel = channel; input = input }

-- ssl_read_exact() for the payload; a stream that ends early is used up.
unfoldable pub read_payload : FrameHeader → Channel → List ℕ → Received
read_payload header channel input = elim (Reader.take_bytes header.length input) [
  | err e ↦ failed e channel []
  | ok (payload, rest) ↦
      if channel.receive_sequence == max_sequence
      then failed runtime_error channel rest
      else record {
        outcome = ok (record { type = header.type; sequence = header.sequence; payload = payload });
        channel = record channel { receive_sequence = channel.receive_sequence + 1 };
        input = rest;
      }
]

unfoldable pub receive_frame : Channel → List ℕ → Received
receive_frame channel input =
    if not channel.is_open
    then failed logic_error channel input
    else elim (Reader.take_bytes 20 input) [
      | err e ↦ failed e channel []
      | ok (header, rest) ↦ elim (decoded (header_reader channel.receive_sequence) header) [
        | err e ↦ failed e channel rest
        | ok parsed ↦ read_payload parsed channel rest
      ]
    ]

-- Several calls, one after the other, of which none may throw.
unfoldable pub send_all : List (ℕ × List ℕ) → Channel → Result (Channel × List ℕ)
send_all [] channel = ok (channel, [])
send_all ((type, payload) ∷ messages) channel =
    let sent = send_frame type payload channel in
    bind sent.outcome (λ _.
      bind (send_all messages sent.channel) (λ (last, output). ok (last, sent.output ++ output)))

unfoldable pub receive_all : ℕ → Channel → List ℕ → Result (List Frame × Channel × List ℕ)
receive_all zero channel input = ok ([], channel, input)
receive_all (suc n) channel input =
    let received = receive_frame channel input in
    bind received.outcome (λ frame.
      bind (receive_all n received.channel received.input)
        (λ (frames, last, rest). ok (frame ∷ frames, last, rest)))
