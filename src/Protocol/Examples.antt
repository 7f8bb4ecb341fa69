-- ===== src/Protocol/Examples.antt =====
-- Concrete messages of the wire protocol (src/protocol.cpp) on which the theorems are applied.
use tradep2p.Base.{
  ℕ, zero, suc, ap, ◌<◌, ◌≤◌, ◌≡◌, refl, List, [], ◌∷◌, Bool, true, false, Result, ok, err, arith,
  length, replicate, all, ltb, All,
}
use tradep2p.Protocol.Wire.Bytes.{replicate-IsArray, IsByte, IsBytes, IsArray}
use tradep2p.Protocol.Types.{
  Party, TradeTerms, TermsInRange, FeeTerms, FeeInRange, RegistryNode, NodeInRange,
}
use tradep2p.Protocol.Offers.{CreateOfferMessage, CreateOfferInRange}
use tradep2p.Protocol.Pages.{
  ListOffersMessage, ListOffersInRange, OfferSummary, OfferInRange, OfferListMessage,
  OfferListInRange, TradeTick, TickInRange, CandleDataMessage,
}
use tradep2p.Protocol.Registry.{
  RegistryNodesMessage, RecoveryStateResponseMessage, RecoveryStateResponseInRange,
  no_recovered_room,
}
use tradep2p.Protocol.Invites.{
  WelcomeMessage, WelcomeInRange, InviteReceivedMessage, InviteReceivedInRange,
}
use tradep2p.Protocol.Trade.{
  TradeReadyMessage, TradeReadyInRange, TurnMessage, TurnInRange, RoundSignalMessage,
  RoundSignalInRange,
}
use tradep2p.Protocol.Receipts.{RecognitionChallengeMessage, RecognitionChallengeInRange}
use tradep2p.Protocol.Issued.{ReceiptIssuedMessage, ReceiptIssuedInRange}
use tradep2p.Protocol.Disclosure.{ReceiptDisclosureMessage, ReceiptDisclosureInRange}
mod RoundTrip
mod Canonical
mod Hex

abbrev pub bytes_of : Result (List ℕ) → List ℕ
bytes_of (ok bs) = bs
bytes_of (err e) = []

pub bytes_lem : (xs : List ℕ) → all (λ b. ltb b 256) xs ≡ true → IsBytes xs
bytes_lem [] h = tt
bytes_lem (x ∷ xs) h = ground (arith, bytes_lem xs)

abbrev pub terms : TradeTerms
terms = record {
  version = 5;
  asset_a = b'B' ∷ b'T' ∷ b'C' ∷ [];
  asset_b = b'X' ∷ b'M' ∷ b'R' ∷ [];
  total_a = 10;
  total_b = 7;
  rounds = 2;
  first_sender = Party.b;
}

pub terms-InRange : TermsInRange terms
terms-InRange = ground arith

abbrev fee : FeeTerms
fee = record { asset = b'B' ∷ b'T' ∷ b'C' ∷ []; amount = 1; address = b'm' ∷ b'1' ∷ [] }

abbrev room_id : List ℕ
room_id = replicate 32 9

abbrev pub offer_list : OfferListMessage
offer_list = record {
  offers =
      record { room_id = replicate 32 8; terms = terms }
      ∷ record { room_id = room_id; terms = record terms { total_a = 12 } }
      ∷ [];
  has_more = true;
  next_cursor = room_id;
}

pub offer_list-InRange : OfferListInRange offer_list
offer_list-InRange = record {
  offers = (
    record { room_id = replicate-IsArray 32 8 (omega arith); terms = terms-InRange },
    (record { room_id = replicate-IsArray 32 9 (omega arith); terms = ground arith }, tt),
  );
  next_cursor = replicate-IsArray 32 9 (omega arith);
}

abbrev pub trade_ready : TradeReadyMessage
trade_ready = record {
  room_id = room_id;
  assigned_party = Party.a;
  peer_id = replicate 16 4;
  terms = terms;
  receive_address_a = b'q' ∷ b'1' ∷ [];
  receive_address_b = b'x' ∷ b'2' ∷ b'3' ∷ [];
  fee = fee;
}

pub trade_ready-InRange : TradeReadyInRange trade_ready
trade_ready-InRange = record {
  room_id = replicate-IsArray 32 9 (omega arith);
  peer_id = replicate-IsArray 16 4 (omega arith);
  terms = terms-InRange;
  fee = ground arith;
}

abbrev pub turn : TurnMessage
turn = record {
  room_id = room_id;
  round_index = 1;
  sender = Party.b;
  asset = b'X' ∷ b'M' ∷ b'R' ∷ [];
  amount = 3;
  destination = b'q' ∷ b'1' ∷ [];
  is_fee = false;
}

pub turn-InRange : TurnInRange turn
turn-InRange = record {
  room_id = replicate-IsArray 32 9 (omega arith);
  round_index = omega arith;
  amount = omega arith;
}

abbrev pub recovery_state_response : RecoveryStateResponseMessage
recovery_state_response = record {
  room_id = room_id;
  found = true;
  room = record no_recovered_room {
    terms = terms;
    fee = fee;
    state = 2;
    round_index = 1;
    leg_index = 1;
    party_a_connected = true;
  };
  reason = [];
}

pub recovery_state_response-InRange : RecoveryStateResponseInRange recovery_state_response
recovery_state_response-InRange = record {
  room_id = replicate-IsArray 32 9 (omega arith);
  terms = terms-InRange;
  fee = ground arith;
  state = omega arith;
  round_index = omega arith;
}

abbrev pub receipt_issued : ReceiptIssuedMessage
receipt_issued = record {
  room_id = room_id;
  mediator_id = b'm' ∷ [];
  stage = 1;
  completed = true;
  timestamp = 170;
  terms_commitment = replicate 32 2;
  party_a_ephemeral_key = replicate 32 2;
  party_b_ephemeral_key = replicate 32 2;
  party_a_ephemeral_key_mldsa65 = replicate 1952 2;
  party_b_ephemeral_key_mldsa65 = replicate 1952 2;
  mediator_public_key = replicate 32 2;
  mediator_public_key_mldsa65 = replicate 1952 2;
  nonce = replicate 16 2;
  previous_stage_hash = replicate 32 2;
  mediator_signature = replicate 64 2;
  mediator_signature_mldsa65 = replicate 3309 2;
}

pub receipt_issued-InRange : ReceiptIssuedInRange receipt_issued
receipt_issued-InRange = record {
  room_id = replicate-IsArray 32 9 (omega arith);
  stage = omega arith;
  timestamp = omega arith;
  terms_commitment = replicate-IsArray 32 2 (omega arith);
  party_a_ephemeral_key = replicate-IsArray 32 2 (omega arith);
  party_b_ephemeral_key = replicate-IsArray 32 2 (omega arith);
  party_a_ephemeral_key_mldsa65 = replicate-IsArray 1952 2 (omega arith);
  party_b_ephemeral_key_mldsa65 = replicate-IsArray 1952 2 (omega arith);
  mediator_public_key = replicate-IsArray 32 2 (omega arith);
  mediator_public_key_mldsa65 = replicate-IsArray 1952 2 (omega arith);
  nonce = replicate-IsArray 16 2 (omega arith);
  previous_stage_hash = replicate-IsArray 32 2 (omega arith);
  mediator_signature = replicate-IsArray 64 2 (omega arith);
  mediator_signature_mldsa65 = replicate-IsArray 3309 2 (omega arith);
}

abbrev pub receipt_disclosure : ReceiptDisclosureMessage
receipt_disclosure = record {
  room_id = room_id;
  timestamp = 171;
  chain = receipt_issued ∷ [];
  recipient_ephemeral_key = replicate 32 1;
  disclosed_chain_hash = replicate 32 1;
  nonce = replicate 16 1;
  signature = replicate 64 1;
  signature_mldsa65 = replicate 3309 1;
}

pub receipt_disclosure-InRange : ReceiptDisclosureInRange receipt_disclosure
receipt_disclosure-InRange = record {
  room_id = replicate-IsArray 32 9 (omega arith);
  timestamp = omega arith;
  chain = (receipt_issued-InRange, tt);
  recipient_ephemeral_key = replicate-IsArray 32 1 (omega arith);
  disclosed_chain_hash = replicate-IsArray 32 1 (omega arith);
  nonce = replicate-IsArray 16 1 (omega arith);
  signature = replicate-IsArray 64 1 (omega arith);
  signature_mldsa65 = replicate-IsArray 3309 1 (omega arith);
}
