-- ===== src/Protocol/Pages/Canonical.antt =====
-- The decoders of the messages that carry a page of entries (src/protocol.cpp), followed by their
-- encoders.
use tradep2p.Base.{
  ℕ, ◌≡◌, refl, List, Bool, true, false, ◌==◌, ◌||◌, ltb, arith, All, ok, throw_if, rethrow,
  invalid_argument, runtime_error,
}
use tradep2p.Protocol.Wire.Bytes.{IsBytes, IsArray}
use tradep2p.Protocol.Wire.Canonical.{
  Writes, Reads, wr_seq, wr_last, wr_checked, wr_nothing, rd_seq, rd_check, rd_pure, rd_times,
  rd_u16, rd_u64, rd_id, rd_short_string, ra_seq, ra_check, ra_finished, rn_pure,
  decoded_of_ReadsAll, written_of_Writes,
}
use tradep2p.Protocol.Types.{
  max_offer_page_entries, max_peer_list_entries, max_candle_ticks_per_pair,
}
use tradep2p.Protocol.Terms.Canonical.{rd_flag, rd_terms}
use tradep2p.Protocol.Pages.{
  no_room, append_cursor, read_cursor, validate_cursor, check_next_cursor, cursor_mismatch,
  ListOffersMessage, ListOffersInRange, encode_list_offers, decode_list_offers, OfferSummary,
  OfferInRange, OfferListMessage, OfferListInRange, append_offer, read_offer, encode_offer_list,
  decode_offer_list, PeerListMessage, append_peer, read_peer, encode_peer_list, decode_peer_list,
  TickInRange, CandleDataMessage, append_tick, read_tick, encode_candle_data, decode_candle_data,
}

no_room-IsArray : IsArray 32 no_room
no_room-IsArray = record { size = refl; bytes = omega arith }

rd_cursor :
    (present : Bool)
    → Reads (read_cursor present) (λ cursor bs.
      IsArray 32 cursor
      × (validate_cursor present cursor ≡ ok tt)
      × Writes (append_cursor present cursor) bs)
unfolding append_cursor read_cursor validate_cursor
rd_cursor true = rd_seq _ (rd_id 32) λ cursor _ (r, w). rd_check _ λ h. rd_pure _ (r, h, wr_last w)
rd_cursor false = rd_pure _ (no_room-IsArray, refl, wr_nothing)

-- Bytes that decode to a ListOffersMessage are its encoding.
pub encode_list_offers-decode_list_offers :
    (bs : List ℕ) {message : ListOffersMessage}
    → IsBytes bs
    → decode_list_offers bs ≡ ok message
    → ListOffersInRange message × (encode_list_offers message ≡ ok bs)
unfolding encode_list_offers decode_list_offers
encode_list_offers-decode_list_offers bs h e =
    decoded_of_ReadsAll _
      {Q = λ message bs. ListOffersInRange message × (encode_list_offers message ≡ ok bs)} bs
      (ra_seq _ rd_flag λ has_cursor _ w₁. ra_seq _ (rd_cursor has_cursor) λ after _ (r₂, v₂, w₂).
        ra_seq _ rd_u16 λ limit _ (r₃, w₃). ra_check _ λ k. ra_finished _ (
          rn_pure _ (
            record { after_room_id = r₂; limit = r₃ },
            written_of_Writes (
                wr_checked (rethrow (limit == 0 || ltb max_offer_page_entries limit) _ _ k)
                  (wr_checked v₂ (wr_seq w₁ (wr_seq w₂ (wr_last w₃))))),
          )))
      h e

rd_offer : Reads read_offer (λ offer bs. OfferInRange offer × Writes (append_offer offer) bs)
unfolding append_offer read_offer
rd_offer = rd_seq _ (rd_id 32) λ room_id _ (r₁, w₁). rd_seq _ rd_terms λ terms _ (r₂, v₂, w₂).
    rd_check _ λ k.
      rd_pure _
        (record { room_id = r₁; terms = r₂ }, wr_checked k (wr_checked v₂ (wr_seq w₁ (wr_last w₂))))

next_cursor_kept :
    (has_more : Bool) (cursor : List ℕ) (offers : List OfferSummary)
    → check_next_cursor has_more cursor offers runtime_error ≡ ok tt
    → check_next_cursor has_more cursor offers invalid_argument ≡ ok tt
unfolding check_next_cursor
next_cursor_kept true cursor offers h = rethrow (cursor_mismatch cursor offers) _ _ h
next_cursor_kept false cursor offers h = refl

-- A count that the decoder let through, as the check of the list that was read.
count_kept :
    (maximum : ℕ) {n m : ℕ}
    → m ≡ n
    → throw_if (ltb maximum n) runtime_error ≡ ok tt
    → throw_if (ltb maximum m) invalid_argument ≡ ok tt
count_kept maximum {n} p h = rw p (rethrow (ltb maximum n) _ _ h)

-- Bytes that decode to an OfferListMessage are its encoding, and its fields are in the range of
-- their types.
pub encode_offer_list-decode_offer_list :
    (bs : List ℕ) {message : OfferListMessage}
    → IsBytes bs
    → decode_offer_list bs ≡ ok message
    → OfferListInRange message × (encode_offer_list message ≡ ok bs)
unfolding encode_offer_list decode_offer_list
encode_offer_list-decode_offer_list bs h e =
    decoded_of_ReadsAll _
      {Q = λ message bs. OfferListInRange message × (encode_offer_list message ≡ ok bs)} bs
      (ra_seq _ rd_flag λ has_more _ w₁. ra_seq _ (rd_cursor has_more) λ cursor _ (r₂, v₂, w₂).
        ra_seq _ rd_u16 λ count _ (r₃, w₃). ra_check _ λ k₁.
          ra_seq _ (rd_times rd_offer count) λ offers _ (l, r₄, w₄). ra_check _ λ k₂.
            ra_finished _ (
              rn_pure _ (
                record { offers = r₄; next_cursor = r₂ },
                written_of_Writes (
                    wr_checked (count_kept max_offer_page_entries l k₁) (
                      wr_checked v₂ (
                        wr_checked (next_cursor_kept has_more cursor offers k₂)
                          (wr_seq w₁ (wr_seq w₂ (wr_seq (rw l w₃) (wr_last w₄))))))),
              )))
      h e

rd_peer : Reads read_peer (λ peer bs. IsArray 16 peer × Writes (append_peer peer) bs)
unfolding append_peer read_peer
rd_peer =
    rd_seq _ (rd_id 16) λ peer _ (r, w). rd_check _ λ k. rd_pure _ (r, wr_checked k (wr_last w))

-- Bytes that decode to a PeerListMessage are its encoding.
pub encode_peer_list-decode_peer_list :
    (bs : List ℕ) {message : PeerListMessage}
    → IsBytes bs
    → decode_peer_list bs ≡ ok message
    → All (IsArray 16) message.peers × (encode_peer_list message ≡ ok bs)
unfolding encode_peer_list decode_peer_list
encode_peer_list-decode_peer_list bs h e =
    decoded_of_ReadsAll _
      {Q = λ message bs. All (IsArray 16) message.peers × (encode_peer_list message ≡ ok bs)} bs
      (ra_seq _ rd_u16 λ count _ (r₁, w₁). ra_check _ λ k.
        ra_seq _ (rd_times rd_peer count) λ peers _ (l, r₂, w₂). ra_finished _ (
          rn_pure _ (
            r₂,
            written_of_Writes
                (wr_checked (count_kept max_peer_list_entries l k) (wr_seq (rw l w₁) (wr_last w₂))),
          )))
      h e

rd_tick : Reads read_tick (λ tick bs. TickInRange tick × Writes (append_tick tick) bs)
unfolding append_tick read_tick
rd_tick = rd_seq _ rd_u64 λ timestamp _ (r₁, w₁). rd_seq _ rd_u64 λ base _ (r₂, w₂).
    rd_seq _ rd_u64 λ quote _ (r₃, w₃). rd_check _ λ k. rd_pure _ (
      record { timestamp = r₁; base_amount = r₂; quote_amount = r₃ },
      wr_checked k (wr_seq w₁ (wr_seq w₂ (wr_last w₃))),
    )

-- Bytes that decode to a CandleDataMessage are its encoding, and its fields are in the range of
-- their types.
pub encode_candle_data-decode_candle_data :
    (bs : List ℕ) {message : CandleDataMessage}
    → IsBytes bs
    → decode_candle_data bs ≡ ok message
    → All TickInRange message.ticks × (encode_candle_data message ≡ ok bs)
unfolding encode_candle_data decode_candle_data
encode_candle_data-decode_candle_data bs h e =
    decoded_of_ReadsAll _
      {Q = λ message bs. All TickInRange message.ticks × (encode_candle_data message ≡ ok bs)} bs
      (ra_seq _ (rd_short_string _) λ base _ w₁. ra_seq _ (rd_short_string _) λ quote _ w₂.
        ra_check _ λ k₁. ra_check _ λ k₂. ra_seq _ rd_u16 λ count _ (r₃, w₃). ra_check _ λ k₃.
          ra_seq _ (rd_times rd_tick count) λ ticks _ (l, r₄, w₄). ra_finished _ (
            rn_pure _ (
              r₄,
              written_of_Writes (
                  wr_checked k₁ (
                    wr_checked k₂ (
                      wr_checked (count_kept max_candle_ticks_per_pair l k₃)
                        (wr_seq w₁ (wr_seq w₂ (wr_seq (rw l w₃) (wr_last w₄))))))),
            )))
      h e
