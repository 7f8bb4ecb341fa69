-- ===== src/Protocol/Pages.antt =====
-- The messages that carry a page of entries: offer pages, the peer list and trade ticks
-- (include/tradep2p/protocol.hpp and their encoders in src/protocol.cpp).
use tradep2p.Base.{
  ℕ, ◌≡◌, List, [], ◌∷◌, Bool, true, false, ◌||◌, not, ◌==◌, ltb, if◌then◌else◌, bytes_eq, length,
  replicate, All, Result, ok, throw_if, Error, invalid_argument, runtime_error,
}
use tradep2p.Base.Outcome
use tradep2p.Protocol.Wire.Bytes.{IsU16, IsU64, IsArray}
use tradep2p.Protocol.Wire.Writer
use tradep2p.Protocol.Wire.Writer.{Writer, ◌>>◌, written}
use tradep2p.Protocol.Wire.Reader
use tradep2p.Protocol.Wire.Reader.{Reader, ◌>>=◌, decoded, pure}
use tradep2p.Protocol.Types.{
  TradeTerms, TermsInRange, max_asset_code_length, max_offer_page_entries, max_peer_list_entries,
  max_candle_ticks_per_pair,
}
use tradep2p.Protocol.Validate.{
  validate_asset, validate_room_id, validate_client_id, validate_terms,
}
use tradep2p.Protocol.Terms.{append_terms, read_terms, flag_to_u8, read_flag}
pub mod RoundTrip
pub mod Canonical

-- `RoomId{}`
abbrev pub no_room : List ℕ
no_room = replicate 32 0

-- The room id of a cursor is on the wire only behind a flag that is set.
unfoldable pub append_cursor : Bool → List ℕ → Writer
append_cursor present cursor = if present then Writer.fixed_id cursor else Writer.nothing

unfoldable pub read_cursor : Bool → Reader (List ℕ)
read_cursor present =
    if present
    then (do cursor ← Reader.fixed_id 32; _ ← Reader.check (validate_room_id cursor); pure cursor)
    else pure no_room

unfoldable pub validate_cursor : Bool → List ℕ → Result (Unit {0})
validate_cursor present cursor = if present then validate_room_id cursor else ok tt

pub record ListOffersMessage : Type 0 where
  pub has_cursor : Bool
  pub after_room_id : List ℕ
  pub limit : ℕ

pub record ListOffersInRange (m : ListOffersMessage) : Type 0 where
  pub after_room_id : IsArray 32 m.after_room_id
  pub limit : IsU16 m.limit

unfoldable pub encode_list_offers : ListOffersMessage → Result (List ℕ)
encode_list_offers message = written do
  Writer.check
      (throw_if (message.limit == 0 || ltb max_offer_page_entries message.limit) invalid_argument)
  Writer.check (validate_cursor message.has_cursor message.after_room_id)
  Writer.u8 (flag_to_u8 message.has_cursor)
  append_cursor message.has_cursor message.after_room_id
  Writer.u16 message.limit

unfoldable pub decode_list_offers : List ℕ → Result ListOffersMessage
decode_list_offers = decoded do
  has_cursor ← read_flag
  after_room_id ← read_cursor has_cursor
  limit ← Reader.u16
  _ ← Reader.check (throw_if (limit == 0 || ltb max_offer_page_entries limit) runtime_error)
  _ ← Reader.require_finished
  pure (record { has_cursor = has_cursor; after_room_id = after_room_id; limit = limit })

pub record OfferSummary : Type 0 where
  pub room_id : List ℕ
  pub terms : TradeTerms

pub record OfferInRange (o : OfferSummary) : Type 0 where
  pub room_id : IsArray 32 o.room_id
  pub terms : TermsInRange o.terms

pub record OfferListMessage : Type 0 where
  pub offers : List OfferSummary
  pub has_more : Bool
  pub next_cursor : List ℕ

pub record OfferListInRange (m : OfferListMessage) : Type 0 where
  pub offers : All OfferInRange m.offers
  pub next_cursor : IsArray 32 m.next_cursor

-- `message.offers.empty() || message.next_cursor != message.offers.back().room_id`
unfoldable pub cursor_mismatch : List ℕ → List OfferSummary → Bool
cursor_mismatch cursor [] = true
cursor_mismatch cursor (o ∷ []) = not (bytes_eq cursor o.room_id)
cursor_mismatch cursor (o ∷ p ∷ os) = cursor_mismatch cursor (p ∷ os)

-- The check of a page that says that more follow, and the exception if it fails.
unfoldable pub check_next_cursor : Bool → List ℕ → List OfferSummary → Error → Result (Unit {0})
check_next_cursor has_more cursor offers e =
    if has_more then throw_if (cursor_mismatch cursor offers) e else ok tt

unfoldable pub append_offer : OfferSummary → Writer
append_offer offer = do
  Writer.check (validate_room_id offer.room_id)
  Writer.check (validate_terms offer.terms)
  Writer.fixed_id offer.room_id
  append_terms offer.terms

unfoldable pub read_offer : Reader OfferSummary
read_offer = do
  room_id ← Reader.fixed_id 32
  terms ← read_terms
  _ ← Reader.check (validate_room_id room_id)
  pure (record { room_id = room_id; terms = terms })

unfoldable pub encode_offer_list : OfferListMessage → Result (List ℕ)
encode_offer_list message = written do
  Writer.check (throw_if (ltb max_offer_page_entries (length message.offers)) invalid_argument)
  Writer.check (validate_cursor message.has_more message.next_cursor)
  Writer.check
      (check_next_cursor message.has_more message.next_cursor message.offers invalid_argument)
  Writer.u8 (flag_to_u8 message.has_more)
  append_cursor message.has_more message.next_cursor
  Writer.u16 (length message.offers)
  Writer.each append_offer message.offers

unfoldable pub decode_offer_list : List ℕ → Result OfferListMessage
decode_offer_list = decoded do
  has_more ← read_flag
  next_cursor ← read_cursor has_more
  count ← Reader.u16
  _ ← Reader.check (throw_if (ltb max_offer_page_entries count) runtime_error)
  offers ← Reader.times count read_offer
  _ ← Reader.check (check_next_cursor has_more next_cursor offers runtime_error)
  _ ← Reader.require_finished
  pure (record { offers = offers; has_more = has_more; next_cursor = next_cursor })

pub record PeerListMessage : Type 0 where
  pub peers : List (List ℕ)

unfoldable pub append_peer : List ℕ → Writer
append_peer peer = do Writer.check (validate_client_id peer); Writer.fixed_id peer

unfoldable pub read_peer : Reader (List ℕ)
read_peer = do peer ← Reader.fixed_id 16; _ ← Reader.check (validate_client_id peer); pure peer

unfoldable pub encode_peer_list : PeerListMessage → Result (List ℕ)
encode_peer_list message = written do
  Writer.check (throw_if (ltb max_peer_list_entries (length message.peers)) invalid_argument)
  Writer.u16 (length message.peers)
  Writer.each append_peer message.peers

unfoldable pub decode_peer_list : List ℕ → Result PeerListMessage
decode_peer_list = decoded do
  count ← Reader.u16
  _ ← Reader.check (throw_if (ltb max_peer_list_entries count) runtime_error)
  peers ← Reader.times count read_peer
  _ ← Reader.require_finished
  pure (record { peers = peers })

pub record TradeTick : Type 0 where
  pub timestamp : ℕ
  pub base_amount : ℕ
  pub quote_amount : ℕ

pub record TickInRange (t : TradeTick) : Type 0 where
  pub timestamp : IsU64 t.timestamp
  pub base_amount : IsU64 t.base_amount
  pub quote_amount : IsU64 t.quote_amount

unfoldable pub validate_trade_tick : TradeTick → Result (Unit {0})
validate_trade_tick tick =
    throw_if (tick.base_amount == 0 || tick.quote_amount == 0) invalid_argument

pub record CandleDataMessage : Type 0 where
  pub base_asset : List ℕ
  pub quote_asset : List ℕ
  pub ticks : List TradeTick

unfoldable pub append_tick : TradeTick → Writer
append_tick tick = do
  Writer.check (validate_trade_tick tick)
  Writer.u64 tick.timestamp
  Writer.u64 tick.base_amount
  Writer.u64 tick.quote_amount

unfoldable pub read_tick : Reader TradeTick
read_tick = do
  timestamp ← Reader.u64
  base_amount ← Reader.u64
  quote_amount ← Reader.u64
  let tick : TradeTick = record {
    timestamp = timestamp;
    base_amount = base_amount;
    quote_amount = quote_amount;
  }
  _ ← Reader.check (validate_trade_tick tick)
  pure tick

unfoldable pub encode_candle_data : CandleDataMessage → Result (List ℕ)
encode_candle_data message = written do
  Writer.check (validate_asset message.base_asset)
  Writer.check (validate_asset message.quote_asset)
  Writer.check (throw_if (ltb max_candle_ticks_per_pair (length message.ticks)) invalid_argument)
  Writer.short_string message.base_asset max_asset_code_length
  Writer.short_string message.quote_asset max_asset_code_length
  Writer.u16 (length message.ticks)
  Writer.each append_tick message.ticks

unfoldable pub decode_candle_data : List ℕ → Result CandleDataMessage
decode_candle_data = decoded do
  base_asset ← Reader.short_string max_asset_code_length
  quote_asset ← Reader.short_string max_asset_code_length
  _ ← Reader.check (validate_asset base_asset)
  _ ← Reader.check (validate_asset quote_asset)
  count ← Reader.u16
  _ ← Reader.check (throw_if (ltb max_candle_ticks_per_pair count) runtime_error)
  ticks ← Reader.times count read_tick
  _ ← Reader.require_finished
  pure (record { base_asset = base_asset; quote_asset = quote_asset; ticks = ticks })
