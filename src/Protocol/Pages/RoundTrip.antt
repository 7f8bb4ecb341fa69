-- ===== src/Protocol/Pages/RoundTrip.antt =====
-- The encoders of the messages that carry a page of entries (src/protocol.cpp), followed by their
-- decoders.
use tradep2p.Base.{
  ℕ, ◌≡◌, ◌≤◌, refl, List, [], Bool, true, false, ◌==◌, ◌||◌, ltb, if◌then◌else◌, arith, length,
  All, ok, throw_if, rethrow, invalid_argument, runtime_error,
}
use tradep2p.Protocol.Wire.Bytes.{IsArray}
use tradep2p.Protocol.Types.{
  max_offer_page_entries, max_peer_list_entries, max_candle_ticks_per_pair, max_frame_payload,
}
use tradep2p.Protocol.Wire.RoundTrip.{
  RoundTrip, rt_seq, rt_last, rt_checked, rt_check, rt_nothing, rt_weaken, rt_each, Yields-check,
  Yields-finished, Yields-pure, decoded-written, rt_u16, rt_u64, rt_id, rt_short_string,
}
use tradep2p.Protocol.Terms.RoundTrip.{rt_flag, rt_terms}
use tradep2p.Protocol.Pages.{
  no_room, append_cursor, read_cursor, validate_cursor, check_next_cursor, cursor_mismatch,
  ListOffersMessage, ListOffersInRange, encode_list_offers, decode_list_offers, OfferSummary,
  OfferInRange, OfferListMessage, OfferListInRange, append_offer, read_offer, encode_offer_list,
  decode_offer_list, PeerListMessage, append_peer, read_peer, encode_peer_list, decode_peer_list,
  TradeTick, TickInRange, CandleDataMessage, append_tick, read_tick, encode_candle_data,
  decode_candle_data,
}

-- What a reader sees of a cursor.
abbrev pub cursor_seen : Bool → List ℕ → List ℕ
cursor_seen present cursor = if present then cursor else no_room

rt_cursor :
    (present : Bool) (cursor : List ℕ)
    → IsArray 32 cursor
    → validate_cursor present cursor ≡ ok tt
    → (rest : List ℕ)
    → RoundTrip
        (append_cursor present cursor)
        (read_cursor present)
        (cursor_seen present cursor)
        32
        rest
unfolding append_cursor read_cursor validate_cursor
rt_cursor true cursor a h rest =
    rt_last _ (rt_id 32 cursor a) (Yields-check _ h (Yields-pure cursor rest))
rt_cursor false cursor a h rest = rt_weaken _ (omega arith) (rt_nothing (Yields-pure no_room rest))

-- The same check, with the other exception, of the cursor that was seen.
next_cursor_seen :
    (has_more : Bool) (cursor : List ℕ) (offers : List OfferSummary)
    → check_next_cursor has_more cursor offers invalid_argument ≡ ok tt
    → check_next_cursor has_more (cursor_seen has_more cursor) offers runtime_error ≡ ok tt
unfolding check_next_cursor
next_cursor_seen true cursor offers h = rethrow (cursor_mismatch cursor offers) _ _ h
next_cursor_seen false cursor offers h = refl

-- If a ListOffersMessage whose fields are in the range of their types can be encoded, the bytes
-- fit the payload of one frame and decode to it, with the zero id in place of a cursor that is
-- not set.
pub decode_list_offers-encode_list_offers :
    (message : ListOffersMessage) {bs : List ℕ}
    → ListOffersInRange message
    → encode_list_offers message ≡ ok bs
    → (decode_list_offers bs
        ≡ ok (record message {
          after_room_id = cursor_seen message.has_cursor message.after_room_id;
        }))
      × (length bs ≤ max_frame_payload)
unfolding encode_list_offers decode_list_offers
decode_list_offers-encode_list_offers message r e =
    decoded-written _ _ e
      (rt_checked λ h₁. rt_checked λ h₂. rt_seq _ (rt_flag message.has_cursor) (
        rt_seq _ (rt_cursor message.has_cursor message.after_room_id r.after_room_id h₂) (
          rt_last _ (rt_u16 message.limit r.limit) (
            Yields-check _
              (rethrow (message.limit == 0 || ltb max_offer_page_entries message.limit) _ _ h₁)
              (Yields-finished _ (Yields-pure _ []))))))
      (omega arith)

rt_offer :
    (offer : OfferSummary)
    → OfferInRange offer
    → (rest : List ℕ) → RoundTrip (append_offer offer) read_offer offer 91 rest
unfolding append_offer read_offer
rt_offer offer r rest = rt_checked λ h. rt_checked λ _.
    rt_seq _ (rt_id 32 offer.room_id r.room_id)
      (rt_last _ (rt_terms offer.terms r.terms) (Yields-check _ h (Yields-pure offer rest)))

fits_u16 : (n m : ℕ) → m ≤ 65535 → throw_if (ltb m n) invalid_argument ≡ ok tt → n ≤ m
fits_u16 n m h e = ground arith

-- If an OfferListMessage whose fields are in the range of their types can be encoded, the bytes
-- fit the payload of one frame and decode to it, with the zero id in place of a cursor that is
-- not set.
pub decode_offer_list-encode_offer_list :
    (message : OfferListMessage) {bs : List ℕ}
    → OfferListInRange message
    → encode_offer_list message ≡ ok bs
    → (decode_offer_list bs
        ≡ ok (record message { next_cursor = cursor_seen message.has_more message.next_cursor }))
      × (length bs ≤ max_frame_payload)
unfolding encode_offer_list decode_offer_list
decode_offer_list-encode_offer_list message r e =
    decoded-written _ _ e
      (rt_checked λ h₁. rt_checked λ h₂. rt_checked λ h₃.
        let small = fits_u16 (length message.offers) max_offer_page_entries (omega arith) h₁ in
        rt_weaken 3000 (omega arith) (
          rt_seq _ (rt_flag message.has_more) (
            rt_seq _ (rt_cursor message.has_more message.next_cursor r.next_cursor h₂) (
              rt_seq _ (rt_u16 (length message.offers) (omega arith)) (
                rt_check _ (rethrow (ltb max_offer_page_entries (length message.offers)) _ _ h₁) (
                  rt_last _ (rt_each OfferInRange rt_offer message.offers r.offers) (
                    Yields-check _
                      (next_cursor_seen message.has_more message.next_cursor message.offers h₃)
                      (Yields-finished _ (Yields-pure _ [])))))))))
      (omega arith)

rt_peer :
    (peer : List ℕ)
    → IsArray 16 peer
    → (rest : List ℕ) → RoundTrip (append_peer peer) read_peer peer 16 rest
unfolding append_peer read_peer
rt_peer peer r rest =
    rt_checked λ h. rt_last _ (rt_id 16 peer r) (Yields-check _ h (Yields-pure peer rest))

-- If a PeerListMessage can be encoded, the bytes fit one frame and decode to it.
pub decode_peer_list-encode_peer_list :
    (message : PeerListMessage) {bs : List ℕ}
    → All (IsArray 16) message.peers
    → encode_peer_list message ≡ ok bs
    → (decode_peer_list bs ≡ ok message) × (length bs ≤ max_frame_payload)
unfolding encode_peer_list decode_peer_list
decode_peer_list-encode_peer_list message r e =
    decoded-written _ _ e
      (rt_checked λ h.
        let small = fits_u16 (length message.peers) max_peer_list_entries (omega arith) h in
        rt_weaken 3000 (omega arith) (
          rt_seq _ (rt_u16 (length message.peers) (omega arith)) (
            rt_check _ (rethrow (ltb max_peer_list_entries (length message.peers)) _ _ h) (
              rt_last _ (rt_each (IsArray 16) rt_peer message.peers r)
                (Yields-finished _ (Yields-pure message []))))))
      (omega arith)

rt_tick :
    (tick : TradeTick)
    → TickInRange tick
    → (rest : List ℕ) → RoundTrip (append_tick tick) read_tick tick 24 rest
unfolding append_tick read_tick
rt_tick tick r rest = rt_checked λ h. rt_seq _ (rt_u64 tick.timestamp r.timestamp) (
    rt_seq _ (rt_u64 tick.base_amount r.base_amount) (
      rt_last _ (rt_u64 tick.quote_amount r.quote_amount)
        (Yields-check _ h (Yields-pure tick rest))))

-- If a CandleDataMessage whose fields are in the range of their types can be encoded, the bytes
-- fit the payload of one frame and decode to it.
pub decode_candle_data-encode_candle_data :
    (message : CandleDataMessage) {bs : List ℕ}
    → All TickInRange message.ticks
    → encode_candle_data message ≡ ok bs
    → (decode_candle_data bs ≡ ok message) × (length bs ≤ max_frame_payload)
unfolding encode_candle_data decode_candle_data
decode_candle_data-encode_candle_data message r e =
    decoded-written _ _ e
      (rt_checked λ h₁. rt_checked λ h₂. rt_checked λ h₃.
        let small = fits_u16 (length message.ticks) max_candle_ticks_per_pair (omega arith) h₃ in
        rt_weaken 8000 (omega arith) (
          rt_seq _ (rt_short_string message.base_asset _) (
            rt_seq _ (rt_short_string message.quote_asset _) (
              rt_check _ h₁ (
                rt_check _ h₂ (
                  rt_seq _ (rt_u16 (length message.ticks) (omega arith)) (
                    rt_check _
                      (rethrow (ltb max_candle_ticks_per_pair (length message.ticks)) _ _ h₃)
                      (rt_last _ (rt_each TickInRange rt_tick message.ticks r)
                        (Yields-finished _ (Yields-pure message []))))))))))
      (omega arith)
