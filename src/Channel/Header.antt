-- ===== src/Channel/Header.antt =====
-- The header of a frame (src/secure_channel.cpp), written and then read.
use tradep2p.Base.{
  ℕ, ◌%◌, ◌≤◌, ◌<◌, ◌≡◌, ◌≢◌, refl, List, [], ◌++◌, arith, length, ok, err, runtime_error,
}
use tradep2p.Protocol.Types.{protocol_version, max_frame_payload}
use tradep2p.Protocol.Validate.{validate_message_type}
use tradep2p.Protocol.Wire.Bytes.{IsArray, IsU64, big_endian}
use tradep2p.Protocol.Wire.Writer
use tradep2p.Protocol.Wire.Reader
use tradep2p.Protocol.Wire.Reader.{decoded}
use tradep2p.Protocol.Wire.RoundTrip.{
  RoundTrip, rt_seq, rt_check, rt_last, Yields-check, Yields-pure, decoded-written, rt_u16, rt_u32,
  rt_u64, rt_id, reads_take, reads_u16, reads_u64,
}
use tradep2p.Channel.{frame_magic, header_writer, header_reader}

-- The bytes of the header.
abbrev pub header_bytes : ℕ → ℕ → ℕ → List ℕ
header_bytes type sequence n =
    frame_magic
    ++ (big_endian 2 protocol_version
        ++ (big_endian 2 type ++ (big_endian 8 sequence ++ big_endian 4 (n % 4294967296))))

pub header_writer-ok :
    (type sequence n : ℕ)
    → Writer.written (header_writer type sequence n) ≡ ok (header_bytes type sequence n)
unfolding header_writer Writer.written Writer.◌>>◌ Writer.fixed_id Writer.u16 Writer.u32 Writer.u64
    big_endian
header_writer-ok type sequence n = refl

pub length-header_bytes : (type sequence n : ℕ) → length (header_bytes type sequence n) ≡ 20
unfolding big_endian
length-header_bytes type sequence n = refl

frame_magic-IsArray : IsArray 4 frame_magic
frame_magic-IsArray = ground arith

known_type : (type : ℕ) → validate_message_type type ≡ ok tt → type < 65536
unfolding validate_message_type
known_type type h = ground arith

rt_header :
    (type sequence n : ℕ)
    → validate_message_type type ≡ ok tt
    → IsU64 sequence
    → n ≤ max_frame_payload
    → RoundTrip
        (header_writer type sequence n)
        (header_reader sequence)
        (record { type = type; sequence = sequence; length = n })
        20
        []
unfolding header_writer header_reader
rt_header type sequence n known s l =
    let small : n % 4294967296 ≡ n = omega arith in
    rw small (
      rt_seq _ (rt_id 4 frame_magic frame_magic-IsArray) (
        rt_check _ refl (
          rt_seq _ (rt_u16 protocol_version (omega arith)) (
            rt_check _ refl (
              rt_seq _ (rt_u16 type (known_type type known)) (
                rt_check _ known (
                  rt_seq _ (rt_u64 sequence s) (
                    rt_check _ (ground arith) (
                      rt_last _ (rt_u32 n (omega arith))
                        (Yields-check _ (ground arith) (Yields-pure _ [])))))))))))

-- A header is read by the channel that expects its number.
pub decoded-header_bytes :
    (type sequence n : ℕ)
    → validate_message_type type ≡ ok tt
    → IsU64 sequence
    → n ≤ max_frame_payload
    → decoded (header_reader sequence) (header_bytes type sequence n)
      ≡ ok (record { type = type; sequence = sequence; length = n })
decoded-header_bytes type sequence n known s l =
    (decoded-written _ (header_reader sequence) {limit = 20} (header_writer-ok type sequence n)
      (rt_header type sequence n known s l) (omega arith)).0

-- A header is refused by the channel that expects another number.
pub decoded-header_bytes_other :
    (type sequence other n : ℕ)
    → validate_message_type type ≡ ok tt
    → IsU64 sequence
    → sequence ≢ other
    → decoded (header_reader other) (header_bytes type sequence n) ≡ err runtime_error
unfolding header_reader Reader.◌>>=◌ Reader.check Reader.fixed_id decoded
decoded-header_bytes_other type sequence other n known s differ =
    let tail = big_endian 4 (n % 4294967296) in
    let numbered = big_endian 8 sequence ++ tail in
    let typed = big_endian 2 type ++ numbered in
    rw
      (
        reads_take 4 frame_magic (big_endian 2 protocol_version ++ typed) refl,
        reads_u16 protocol_version typed (omega arith),
        reads_u16 type numbered (known_type type known),
        known,
        reads_u64 sequence tail s,
      )
      (ground (arith, differ))
