-- ===== src/Mediator/Session.antt =====
-- The class MediatorSession of src/mediator.cpp. A method returns the new session or throws; one
-- that throws leaves the session as it was.
use tradep2p.Base.{
  ℕ, ◌%◌, List, [], Bool, true, false, ◌&&◌, ◌||◌, not, ◌==◌, ltb, leb, if◌then◌else◌, bytes_eq,
  Result, ok, err, bind, throw_if, invalid_argument, logic_error,
}
use tradep2p.Base.Outcome.{◌>>◌}
use tradep2p.Protocol.Types.{Party, TradeTerms, FeeTerms}
use tradep2p.Protocol.Validate.{
  is_empty, validate_terms, validate_address, validate_room_id, validate_client_id,
  validate_fee_terms,
}
use tradep2p.Protocol.Tranche.{tranche_amount, other_party}
use tradep2p.Protocol.Trade.{TradeReadyMessage, TurnMessage, RoundSignalMessage}

-- An enum class over std::uint8_t can hold each value of its base: `unnamed` is any above 7.
pub data SessionState : Type 0 where
  waiting_for_peer waiting_for_sent waiting_for_received waiting_for_fee_sent : SessionState
  complete aborted waiting_for_final_receipt_ack waiting_for_fee_confirmation : SessionState
  unnamed : ℕ → SessionState

pub data FeePosition : Type 0 where
  before_first_round before_last_round after_last_round : FeePosition

pub record CreateRoomMessage : Type 0 where
  pub terms : TradeTerms
  pub receive_address_a : List ℕ

pub record JoinRoomMessage : Type 0 where
  pub room_id : List ℕ
  pub receive_address_b : List ℕ

pub record MediatorSession : Type 0 where
  pub creator : CreateRoomMessage
  pub room_id : List ℕ
  pub receive_address_b : List ℕ
  pub fee : FeeTerms
  pub state : SessionState
  pub round_index : ℕ
  pub leg_index : ℕ
  pub abort_reason : List ℕ
  pub final_receipt_acked_a : Bool
  pub final_receipt_acked_b : Bool
  pub require_fee_confirmation : Bool
  pub fee_position : FeePosition

-- `==` on the three enumerations.
abbrev pub party_eq : Party → Party → Bool
party_eq Party.a Party.a = true
party_eq Party.b Party.b = true
party_eq (Party.unnamed n) (Party.unnamed m) = n == m
party_eq _ _ = false

abbrev pub is_after_last_round : FeePosition → Bool
is_after_last_round FeePosition.after_last_round = true
is_after_last_round _ = false

abbrev pub is_before_last_round : FeePosition → Bool
is_before_last_round FeePosition.before_last_round = true
is_before_last_round _ = false

abbrev pub is_before_first_round : FeePosition → Bool
is_before_first_round FeePosition.before_first_round = true
is_before_first_round _ = false

-- std::uint32_t arithmetic wraps.
abbrev pub u32 : ℕ → ℕ
u32 n = n % 4294967296

-- The constructor.
unfoldable pub new_session :
    CreateRoomMessage → List ℕ → FeeTerms → Bool → FeePosition → Result MediatorSession
new_session creator room_id fee require_fee_confirmation fee_position = do
  validate_terms creator.terms
  validate_address creator.receive_address_a
  validate_room_id room_id
  validate_fee_terms fee
  ok (record {
    creator = creator;
    room_id = room_id;
    receive_address_b = [];
    fee = fee;
    state = SessionState.waiting_for_peer;
    round_index = 0;
    leg_index = 0;
    abort_reason = [];
    final_receipt_acked_a = false;
    final_receipt_acked_b = false;
    require_fee_confirmation = require_fee_confirmation;
    fee_position = fee_position;
  })

-- An address that a restored room has not got again yet is empty.
abbrev validate_restored_address : List ℕ → Result (Unit {0})
validate_restored_address address = if is_empty address then ok tt else validate_address address

unfoldable pub restore :
    List ℕ
    → TradeTerms
    → List ℕ
    → List ℕ
    → FeeTerms
    → SessionState
    → ℕ
    → ℕ
    → List ℕ
    → Bool
    → FeePosition
    → Result MediatorSession
restore room_id terms receive_address_a receive_address_b fee state round_index leg_index
      abort_reason require_fee_confirmation fee_position =
    do
      validate_terms terms
      validate_room_id room_id
      validate_fee_terms fee
      validate_restored_address receive_address_a
      validate_restored_address receive_address_b
      throw_if (ltb terms.rounds round_index) invalid_argument
      throw_if (ltb 1 leg_index) invalid_argument
      ok (record {
        creator = record { terms = terms; receive_address_a = receive_address_a };
        room_id = room_id;
        receive_address_b = receive_address_b;
        fee = fee;
        state = state;
        round_index = round_index;
        leg_index = leg_index;
        abort_reason = abort_reason;
        final_receipt_acked_a = false;
        final_receipt_acked_b = false;
        require_fee_confirmation = require_fee_confirmation;
        fee_position = fee_position;
      })

abbrev require_state : Bool → Result (Unit {0})
require_state holds = throw_if (not holds) logic_error

abbrev pub is_waiting_for_peer : SessionState → Bool
is_waiting_for_peer SessionState.waiting_for_peer = true
is_waiting_for_peer _ = false

abbrev pub is_aborted : SessionState → Bool
is_aborted SessionState.aborted = true
is_aborted _ = false

-- `fee_due_before_any_round` of join().
abbrev pub fee_due_before_any_round : MediatorSession → Bool
fee_due_before_any_round s =
    ltb 0 s.fee.amount
    && (is_before_first_round s.fee_position
        || (is_before_last_round s.fee_position && leb s.creator.terms.rounds 1))

unfoldable pub join : MediatorSession → JoinRoomMessage → Result MediatorSession
join s message = do
  require_state (is_waiting_for_peer s.state)
  throw_if (not (bytes_eq message.room_id s.room_id)) invalid_argument
  validate_address message.receive_address_b
  ok (record s {
    receive_address_b = message.receive_address_b;
    state =
        if fee_due_before_any_round s
        then SessionState.waiting_for_fee_sent
        else SessionState.waiting_for_sent;
  })

unfoldable pub ready_message : MediatorSession → Party → List ℕ → Result TradeReadyMessage
ready_message s party peer_id = do
  throw_if (is_waiting_for_peer s.state) logic_error
  throw_if (is_aborted s.state) logic_error
  validate_client_id peer_id
  ok (record {
    room_id = s.room_id;
    assigned_party = party;
    peer_id = peer_id;
    terms = s.creator.terms;
    receive_address_a = s.creator.receive_address_a;
    receive_address_b = s.receive_address_b;
    fee = s.fee;
  })

unfoldable pub first_sender_for_round : MediatorSession → Result Party
first_sender_for_round s =
    if s.round_index % 2 == 0
    then ok s.creator.terms.first_sender
    else other_party s.creator.terms.first_sender

-- The leg's sender, in a state that has one and is not the fee's.
unfoldable pub leg_sender : MediatorSession → Result Party
leg_sender s =
    bind (first_sender_for_round s)
      (λ first. if s.leg_index == 0 then ok first else other_party first)

-- The switch on the state in current_sender().
unfoldable pub sender_in : SessionState → MediatorSession → Result Party
sender_in SessionState.waiting_for_peer s = err logic_error
sender_in SessionState.complete s = err logic_error
sender_in SessionState.aborted s = err logic_error
sender_in SessionState.waiting_for_final_receipt_ack s = err logic_error
sender_in SessionState.waiting_for_fee_confirmation s = err logic_error
sender_in SessionState.waiting_for_fee_sent s = ok Party.a
sender_in _ s = leg_sender s

unfoldable pub current_sender : MediatorSession → Result Party
current_sender s = sender_in s.state s

unfoldable pub current_receiver : MediatorSession → Result Party
current_receiver s = bind (current_sender s) other_party

abbrev pub is_waiting_for_fee_sent : SessionState → Bool
is_waiting_for_fee_sent SessionState.waiting_for_fee_sent = true
is_waiting_for_fee_sent _ = false

abbrev pub fee_turn : MediatorSession → TurnMessage
fee_turn s = record {
  room_id = s.room_id;
  round_index = s.round_index;
  sender = Party.a;
  asset = s.fee.asset;
  amount = s.fee.amount;
  destination = s.fee.address;
  is_fee = true;
}

-- The turn of a leg that `sender` sends.
unfoldable pub leg_turn : MediatorSession → Party → Result TurnMessage
leg_turn s sender =
    if party_eq sender Party.a
    then bind (tranche_amount s.creator.terms.total_a s.creator.terms.rounds s.round_index)
        (λ amount. ok (record {
          room_id = s.room_id;
          round_index = s.round_index;
          sender = sender;
          asset = s.creator.terms.asset_a;
          amount = amount;
          destination = s.receive_address_b;
          is_fee = false;
        }))
    else bind (tranche_amount s.creator.terms.total_b s.creator.terms.rounds s.round_index)
        (λ amount. ok (record {
          room_id = s.room_id;
          round_index = s.round_index;
          sender = sender;
          asset = s.creator.terms.asset_b;
          amount = amount;
          destination = s.creator.receive_address_a;
          is_fee = false;
        }))

unfoldable pub current_turn : MediatorSession → Result TurnMessage
current_turn s =
    if is_waiting_for_fee_sent s.state
    then ok (fee_turn s)
    else bind (current_sender s) (leg_turn s)

unfoldable pub validate_signal : MediatorSession → RoundSignalMessage → Result (Unit {0})
validate_signal s message = do
  throw_if (not (bytes_eq message.room_id s.room_id)) invalid_argument
  throw_if (not (message.round_index == s.round_index)) invalid_argument
  bind (current_sender s)
      (λ sender. throw_if (not (party_eq message.sender sender)) invalid_argument)
