-- ===== src/History/Examples.antt =====
-- A history of one counterparty (src/history.cpp), on which the theorems are applied. Its cipher
-- leaves the plaintext as it is.
use tradep2p.Base.{
  ℕ, ◌≡◌, ◌≤◌, refl, ◌||◌, List, [], ◌∷◌, ◌++◌, false, arith, length, replicate, some, none, ok,
  ltb, if◌then◌else◌, err, history_format,
}
use tradep2p.Crypto.{Aead, IsAead}
use tradep2p.Protocol.Wire.Bytes.{big_endian, replicate-IsArray, IsArray}
use tradep2p.Protocol.Wire.Writer
use tradep2p.History.Cipher.{seal, as_int}
use tradep2p.History.Types.{LocalOutcome, ConfidenceLevel, CounterpartyHistoryEntry}
use tradep2p.History.Format.{
  persist, encode_payload, open_history, max_ciphertext_length, write_payload, encode_history_entry,
  history_header, write_sealed, outcome_to_u8, outcome_of_u8, confidence_to_u8,
}
use tradep2p.History.RoundTrip.{EntryInRange, open_history-persist}
use tradep2p.History.Store.{
  index_of, new_history_entry, History, Call, effect, time_of, perform, change, get_or_create,
  record_encounter, encountered, recompute_confidence, with_outcome,
}
use tradep2p.History.Update.{IsUpdated, perform-IsUpdated}
use tradep2p.History.Refusal.{
  IsDecided, text_too_long, no_entry, entry_full, start, perform-IsDecided,
}
use tradep2p.History.Reopen.{IsKept, IsStored, IsSaved, CallInRange, perform-IsSaved}

abbrev clear : Aead
clear = record {
  Context = Unit {0};
  new_context = some tt;
  encrypt_init = λ x. some tt;
  decrypt_init = λ x. some tt;
  set_nonce_length = λ x size. some tt;
  set_encrypt_key = λ x key nonce. some tt;
  set_decrypt_key = λ x key nonce. some tt;
  encrypt_aad = λ x aad size. some tt;
  decrypt_aad = λ x aad size. some tt;
  encrypt_update = λ x plaintext size. some (tt, plaintext);
  decrypt_update = λ x ciphertext size. some (tt, ciphertext);
  encrypt_final = λ x. some (tt, []);
  decrypt_final = λ x. some (tt, []);
  get_tag = λ x size. some (replicate 16 0);
  set_tag = λ x tag size. some tt;
}

clear-IsAead : IsAead clear
clear-IsAead = record {
  cipher = λ key nonce plaintext. plaintext;
  tag = λ key nonce header plaintext. replicate 16 0;
  fresh = tt;
  encryption = tt;
  decryption = tt;
  encrypting = λ key nonce header plaintext. tt;
  decrypting = λ key nonce header ciphertext. tt;
  tagged = λ key nonce header ciphertext t. tt;
  size = λ key nonce plaintext. refl;
  tag_size = λ key nonce header plaintext. replicate-IsArray 16 0 (omega arith);
  created = refl;
  begun = (tt, (refl, refl));
  begun_open = (tt, (refl, refl));
  keyed = λ key nonce. refl;
  keyed_open = λ key nonce. refl;
  headed = λ key nonce header h. refl;
  headed_open = λ key nonce header h. refl;
  encrypted = λ key nonce header plaintext h. refl;
  decrypted = λ key nonce header plaintext h. refl;
  ended = λ key nonce header plaintext. (tt, (refl, refl));
  with_tag = λ key nonce header ciphertext t. refl;
  authentic = λ key nonce header plaintext. (tt, refl);
}

abbrev peer : List ℕ
peer = replicate 32 1

abbrev nonce : List ℕ
nonce = replicate 12 7

peer-IsArray : IsArray 32 peer
peer-IsArray = replicate-IsArray 32 1 (omega arith)

nonce-IsArray : IsArray 12 nonce
nonce-IsArray = replicate-IsArray 12 7 (omega arith)

abbrev met : CounterpartyHistoryEntry
met = record {
  fingerprint = peer;
  mediator_id = 109 ∷ [];
  first_seen = 5;
  last_seen = 5;
  encounter_count = 1;
  outcome_labels = LocalOutcome.successful ∷ [];
  locally_blocked = false;
  notes = [];
  evidence_hashes = [];
  confidence = ConfidenceLevel.unknown;
}

abbrev eight : ℕ → List ℕ
eight n = 0 ∷ 0 ∷ 0 ∷ 0 ∷ 0 ∷ 0 ∷ 0 ∷ n ∷ []

abbrev met_bytes : List ℕ
met_bytes =
    0
    ∷ 0
    ∷ 0
    ∷ 1
    ∷ (peer
        ++ (1
            ∷ 0
            ∷ 1
            ∷ 109
            ∷ (eight 5 ++ (eight 5 ++ (eight 1 ++ (0 ∷ 1 ∷ 1 ∷ 0 ∷ 0 ∷ 0 ∷ 0 ∷ 0 ∷ 0 ∷ []))))))

abbrev met_file : List ℕ
met_file = 84 ∷ 80 ∷ 67 ∷ 72 ∷ 0 ∷ 1 ∷ (nonce ++ (0 ∷ 0 ∷ 0 ∷ 73 ∷ (met_bytes ++ replicate 16 0)))

met_encoded : encode_payload (met ∷ []) ≡ ok met_bytes
unfolding encode_payload write_payload encode_history_entry outcome_to_u8 confidence_to_u8
    Writer.◌>>◌ Writer.u8 Writer.u16 Writer.u32 Writer.u64 Writer.fixed_id Writer.short_string
    Writer.each Writer.written big_endian Writer.check Writer.nothing
met_encoded = refl

met_persisted : persist clear [] nonce (met ∷ []) ≡ ok met_file
unfolding persist seal as_int encode_payload write_payload encode_history_entry outcome_to_u8
    confidence_to_u8 write_sealed history_header Writer.◌>>◌ Writer.u8 Writer.u16 Writer.u32
    Writer.u64 Writer.fixed_id Writer.short_string Writer.each Writer.written big_endian
    Writer.check Writer.nothing
met_persisted = refl

successful-IsNamed :
    (outcome_to_u8 LocalOutcome.successful ≤ 2)
    × (outcome_of_u8 (outcome_to_u8 LocalOutcome.successful) ≡ LocalOutcome.successful)
unfolding outcome_to_u8 outcome_of_u8
successful-IsNamed = (omega arith, refl)

met-EntryInRange : EntryInRange met
met-EntryInRange = record {
  fingerprint = peer-IsArray;
  first_seen = omega arith;
  last_seen = omega arith;
  encounter_count = omega arith;
  outcome_labels = (successful-IsNamed, tt);
  notes = tt;
  evidence_hashes = tt;
}

open_history-persist_example :
    open_history clear [] met_file
    ≡ (if ltb max_ciphertext_length (length met_bytes) then err history_format else ok (met ∷ []))
open_history-persist_example =
    open_history-persist clear [] nonce (met ∷ []) clear-IsAead nonce-IsArray (met-EntryInRange, tt)
      (omega arith) met_encoded (omega arith) met_persisted

abbrev unknown_peer : History
unknown_peer = record { entries = []; file = none }

abbrev known_peer : History
known_peer = record { entries = met ∷ []; file = some met_file }

abbrev meeting : Call
meeting = Call.encounter LocalOutcome.successful 5

met_first : perform clear [] 9 nonce peer (109 ∷ []) meeting unknown_peer ≡ ok known_peer
unfolding perform record_encounter change get_or_create index_of encountered recompute_confidence
    with_outcome outcome_to_u8
met_first = rw met_persisted refl

perform-IsUpdated_example :
    IsUpdated peer
      (109 ∷ [])
      (new_history_entry peer (109 ∷ []) (time_of 9 meeting))
      (effect 9 meeting)
      []
      (met ∷ [])
perform-IsUpdated_example =
    perform-IsUpdated clear [] 9 nonce peer (109 ∷ []) meeting unknown_peer met_first

meeting-CallInRange : CallInRange meeting
unfolding CallInRange
meeting-CallInRange = (successful-IsNamed, omega arith)

perform-IsSaved_example : IsStored (met ∷ []) × IsSaved clear [] known_peer
perform-IsSaved_example =
    perform-IsSaved clear [] 9 nonce peer (109 ∷ []) clear-IsAead nonce-IsArray peer-IsArray meeting
      unknown_peer (omega arith) meeting-CallInRange (record { each = tt; count = omega arith })
      met_first

met-IsKept : IsKept met
met-IsKept = record {
  in_range = met-EntryInRange;
  mediator_id = omega arith;
  outcome_labels = omega arith;
  notes = omega arith;
  texts = tt;
  evidence_hashes = omega arith;
}

abbrev remark : Call
remark = Call.note (104 ∷ 105 ∷ []) 6

remark-CallInRange : CallInRange remark
unfolding CallInRange
remark-CallInRange = omega arith

perform-IsDecided_example :
    IsDecided
      (text_too_long remark
        || (no_entry peer (109 ∷ []) (met ∷ [])
            || entry_full remark (start peer (109 ∷ []) (time_of 9 remark) (met ∷ []))))
      (perform clear [] 9 nonce peer (109 ∷ []) remark known_peer)
perform-IsDecided_example =
    perform-IsDecided peer (109 ∷ []) clear [] 9 nonce clear-IsAead nonce-IsArray peer-IsArray
      remark known_peer (omega arith) remark-CallInRange
      (record { each = (met-IsKept, tt); count = omega arith }) met_encoded (omega arith)
