-- ===== src/History/Format.antt =====
-- The bytes of the history file (src/history.cpp). Its Writer and Reader are copies of those of
-- src/protocol.cpp, with a HistoryFormatError where that Reader throws a std::runtime_error.
use tradep2p.Base.{
  ℕ, zero, suc, ◌%◌, List, [], ◌∷◌, ◌++◌, Bool, true, false, length, ltb, ◌==◌, not, bytes_eq,
  Result, ok, err, bind, throw_if, invalid_argument, history_format,
}
use tradep2p.Crypto.{Aead}
use tradep2p.Protocol.Wire.Writer
use tradep2p.Protocol.Wire.Writer.{Writer, ◌>>◌, written}
use tradep2p.Protocol.Wire.Reader
use tradep2p.Protocol.Wire.Reader.{Reader, ◌>>=◌, decoded, pure}
use tradep2p.History.Cipher.{seal, open_sealed}
use tradep2p.History.Types.{
  LocalOutcome, ConfidenceLevel, HistoryNote, CounterpartyHistoryEntry, history_format_version,
  history_max_mediator_id_length, history_max_note_length, history_max_entries,
}

-- 'T', 'P', 'C', 'H'
abbrev pub history_magic : List ℕ
history_magic = b'T' ∷ b'P' ∷ b'C' ∷ b'H' ∷ []

-- 64 MiB
abbrev pub max_ciphertext_length : ℕ
max_ciphertext_length = 67108864

unfoldable pub outcome_to_u8 : LocalOutcome → ℕ
outcome_to_u8 LocalOutcome.unknown = 0
outcome_to_u8 LocalOutcome.successful = 1
outcome_to_u8 LocalOutcome.incomplete = 2
outcome_to_u8 (LocalOutcome.unnamed n) = n

unfoldable pub confidence_to_u8 : ConfidenceLevel → ℕ
confidence_to_u8 ConfidenceLevel.unknown = 0
confidence_to_u8 ConfidenceLevel.low = 1
confidence_to_u8 ConfidenceLevel.medium = 2
confidence_to_u8 ConfidenceLevel.high = 3

unfoldable pub outcome_of_u8 : ℕ → LocalOutcome
outcome_of_u8 zero = LocalOutcome.unknown
outcome_of_u8 (suc zero) = LocalOutcome.successful
outcome_of_u8 (suc (suc zero)) = LocalOutcome.incomplete
outcome_of_u8 n = LocalOutcome.unnamed n

-- The cast of a value that was compared with High.
unfoldable pub confidence_of_u8 : ℕ → ConfidenceLevel
confidence_of_u8 zero = ConfidenceLevel.unknown
confidence_of_u8 (suc zero) = ConfidenceLevel.low
confidence_of_u8 (suc (suc zero)) = ConfidenceLevel.medium
confidence_of_u8 n = ConfidenceLevel.high

abbrev pub flag_byte : Bool → ℕ
flag_byte true = 1
flag_byte false = 0

abbrev pub too_many {ℓ} : {A : Type ℓ} → List A → Result (Unit {0})
too_many xs = throw_if (ltb 65535 (length xs)) invalid_argument

abbrev pub append_outcome : LocalOutcome → Writer
append_outcome outcome = Writer.u8 (outcome_to_u8 outcome)

unfoldable pub append_note : HistoryNote → Writer
append_note note = do
  Writer.u64 note.recorded_at
  Writer.short_string note.text history_max_note_length

unfoldable pub encode_history_entry : CounterpartyHistoryEntry → Writer
encode_history_entry entry = do
  Writer.fixed_id entry.fingerprint
  Writer.u8 1
  Writer.short_string entry.mediator_id history_max_mediator_id_length
  Writer.u64 entry.first_seen
  Writer.u64 entry.last_seen
  Writer.u64 entry.encounter_count
  Writer.check (too_many entry.outcome_labels)
  Writer.u16 (length entry.outcome_labels)
  Writer.each append_outcome entry.outcome_labels
  Writer.u8 (flag_byte entry.locally_blocked)
  Writer.check (too_many entry.notes)
  Writer.u16 (length entry.notes)
  Writer.each append_note entry.notes
  Writer.check (too_many entry.evidence_hashes)
  Writer.u16 (length entry.evidence_hashes)
  Writer.each Writer.fixed_id entry.evidence_hashes
  Writer.u8 (confidence_to_u8 entry.confidence)

unfoldable pub read_outcome : Reader LocalOutcome
read_outcome = do
  raw ← Reader.u8
  _ ← Reader.check (throw_if (ltb 2 raw) history_format)
  pure (outcome_of_u8 raw)

unfoldable pub read_note : Reader HistoryNote
read_note = do
  recorded_at ← Reader.u64
  text ← Reader.short_string history_max_note_length
  pure (record { recorded_at = recorded_at; text = text })

unfoldable pub decode_history_entry : Reader CounterpartyHistoryEntry
decode_history_entry = do
  fingerprint ← Reader.fixed_id 32
  scope ← Reader.u8
  _ ← Reader.check (throw_if (not (scope == 1)) history_format)
  mediator_id ← Reader.short_string history_max_mediator_id_length
  first_seen ← Reader.u64
  last_seen ← Reader.u64
  encounter_count ← Reader.u64
  outcome_count ← Reader.u16
  outcome_labels ← Reader.times outcome_count read_outcome
  blocked ← Reader.u8
  _ ← Reader.check (throw_if (ltb 1 blocked) history_format)
  note_count ← Reader.u16
  notes ← Reader.times note_count read_note
  evidence_count ← Reader.u16
  evidence_hashes ← Reader.times evidence_count (Reader.fixed_id 32)
  confidence ← Reader.u8
  _ ← Reader.check (throw_if (ltb 3 confidence) history_format)
  pure (record {
    fingerprint = fingerprint;
    mediator_id = mediator_id;
    first_seen = first_seen;
    last_seen = last_seen;
    encounter_count = encounter_count;
    outcome_labels = outcome_labels;
    locally_blocked = blocked == 1;
    notes = notes;
    evidence_hashes = evidence_hashes;
    confidence = confidence_of_u8 confidence;
  })

unfoldable pub write_payload : List CounterpartyHistoryEntry → Writer
write_payload entries = do
  Writer.check (throw_if (ltb 4294967295 (length entries)) invalid_argument)
  Writer.u32 (length entries)
  Writer.each encode_history_entry entries

unfoldable pub encode_payload : List CounterpartyHistoryEntry → Result (List ℕ)
encode_payload entries = written (write_payload entries)

unfoldable pub read_payload_entries : Reader (List CounterpartyHistoryEntry)
read_payload_entries = do
  count ← Reader.u32
  _ ← Reader.check (throw_if (ltb history_max_entries count) history_format)
  entries ← Reader.times count decode_history_entry
  _ ← Reader.require_finished
  pure entries

-- Every exception of a Reader is a HistoryFormatError.
abbrev pub history_errors {ℓ} : {A : Type ℓ} → Result A → Result A
history_errors (ok a) = ok a
history_errors (err e) = err history_format

unfoldable pub decode_payload : List ℕ → Result (List CounterpartyHistoryEntry)
decode_payload plaintext = history_errors (decoded read_payload_entries plaintext)

-- The header, which is also the associated data of the cipher.
unfoldable pub history_header : Writer
history_header = do Writer.fixed_id history_magic; Writer.u16 history_format_version

pub record DecodedFile : Type 0 where
  pub nonce : List ℕ
  pub ciphertext : List ℕ
  pub tag : List ℕ

unfoldable pub write_sealed : DecodedFile → Writer
write_sealed file = do
  history_header
  Writer.fixed_id file.nonce
  Writer.u32 (length file.ciphertext % 4294967296)
  Writer.fixed_id file.ciphertext
  Writer.fixed_id file.tag

-- `reader.bytes_u32(kMaxCiphertextLength)`
unfoldable pub read_ciphertext : Reader (List ℕ)
read_ciphertext = do
  length ← Reader.u32
  _ ← Reader.check (throw_if (ltb max_ciphertext_length length) history_format)
  Reader.take_bytes length

unfoldable pub read_sealed : Reader DecodedFile
read_sealed = do
  found ← Reader.fixed_id 4
  _ ← Reader.check (throw_if (not (bytes_eq found history_magic)) history_format)
  version ← Reader.u16
  _ ← Reader.check (throw_if (not (version == history_format_version)) history_format)
  nonce ← Reader.fixed_id 12
  ciphertext ← read_ciphertext
  tag ← Reader.fixed_id 16
  _ ← Reader.require_finished
  pure (record { nonce = nonce; ciphertext = ciphertext; tag = tag })

unfoldable pub decode_sealed : List ℕ → Result DecodedFile
decode_sealed bytes = history_errors (decoded read_sealed bytes)

-- The associated data, which a file that was decoded begins with.
abbrev pub history_aad : List ℕ
history_aad = history_magic ++ 0 ∷ 1 ∷ []

module _ (c : Aead) where
  -- The file that persist() writes, with a nonce of random bytes.
  unfoldable pub persist : List ℕ → List ℕ → List CounterpartyHistoryEntry → Result (List ℕ)
  persist key nonce entries = bind (encode_payload entries) (λ plaintext.
      bind (seal c key nonce history_aad plaintext) (λ (ciphertext, tag).
        written (write_sealed (record { nonce = nonce; ciphertext = ciphertext; tag = tag }))))

  -- open() of a file that exists.
  unfoldable pub open_history : List ℕ → List ℕ → Result (List CounterpartyHistoryEntry)
  open_history key raw = bind (decode_sealed raw) (λ file.
      bind (open_sealed c key file.nonce history_aad file.ciphertext file.tag) decode_payload)
