-- ===== src/Protocol/Terms/Canonical.antt =====
-- The decoders of trade terms, fee terms and registry nodes (src/protocol.cpp), followed by their
-- encoders.
use tradep2p.Base.{
  ℕ, ◌≡◌, refl, List, ok, zero, suc, true, arith, ltb, throw_if, runtime_error, ◌==◌,
}
use tradep2p.Protocol.Wire.Bytes.{IsBytes}
use tradep2p.Protocol.Wire.Canonical.{
  Writes, Reads, wr_seq, wr_last, wr_checked, rd_seq, rd_check, rd_pure, rd_u8, rd_u16, rd_u32,
  rd_u64, rd_id, rd_short_string, ra_seq, ra_finished, rn_pure, decoded_of_ReadsAll,
  written_of_Writes,
}
use tradep2p.Protocol.Types.{
  TradeTerms, TermsInRange, FeeInRange, NodeInRange, party_to_u8, party_of_u8,
}
use tradep2p.Protocol.Wire.Writer
use tradep2p.Protocol.Validate.{validate_terms}
use tradep2p.Protocol.Terms.{
  read_party, append_terms, read_terms, encode_terms, decode_terms, append_fee_terms,
  read_fee_terms, append_registry_node, read_registry_node, flag_to_u8, read_flag,
}

party_forth : (n : ℕ) → party_to_u8 (party_of_u8 n) ≡ n
unfolding party_to_u8 party_of_u8
party_forth zero = refl
party_forth (suc zero) = refl
party_forth (suc (suc n)) = refl

pub rd_party : Reads read_party (λ p bs. Writes (Writer.u8 (party_to_u8 p)) bs)
unfolding read_party
rd_party = rd_seq _ rd_u8 λ n bs (h, w). rd_pure _ (rw (party_forth n) (wr_last w))

flag_forth : (n : ℕ) → throw_if (ltb 1 n) runtime_error ≡ ok tt → flag_to_u8 (n == 1) ≡ n
unfolding flag_to_u8
flag_forth n h = ground arith

pub rd_flag : Reads read_flag (λ flag bs. Writes (Writer.u8 (flag_to_u8 flag)) bs)
unfolding read_flag
rd_flag = rd_seq _ rd_u8 λ n bs (h, w). rd_check _ λ e. rd_pure _ (rw (flag_forth n e) (wr_last w))

pub rd_terms :
    Reads read_terms
      (λ t bs. TermsInRange t × (validate_terms t ≡ ok tt) × Writes (append_terms t) bs)
unfolding append_terms read_terms
rd_terms = rd_seq _ rd_u16 λ version b₁ (r₁, w₁). rd_seq _ (rd_short_string _) λ asset_a b₂ w₂.
    rd_seq _ (rd_short_string _) λ asset_b b₃ w₃. rd_seq _ rd_u64 λ total_a b₄ (r₄, w₄).
      rd_seq _ rd_u64 λ total_b b₅ (r₅, w₅). rd_seq _ rd_u32 λ rounds b₆ (r₆, w₆).
        rd_seq _ rd_party λ first_sender b₇ w₇. rd_check _ λ h. rd_pure _ (
          record { version = r₁; total_a = r₄; total_b = r₅; rounds = r₆ },
          h,
          wr_checked h
              (wr_seq w₁ (wr_seq w₂ (wr_seq w₃ (wr_seq w₄ (wr_seq w₅ (wr_seq w₆ (wr_last w₇))))))),
        )

pub rd_fee_terms :
    Reads read_fee_terms (λ fee bs. FeeInRange fee × Writes (append_fee_terms fee) bs)
unfolding append_fee_terms read_fee_terms
rd_fee_terms = rd_seq _ (rd_short_string _) λ asset _ w₁. rd_seq _ rd_u64 λ amount _ (r, w₂).
    rd_seq _ (rd_short_string _) λ address _ w₃.
      rd_check _
        λ h. rd_pure _ (record { amount = r }, wr_checked h (wr_seq w₁ (wr_seq w₂ (wr_last w₃))))

-- A node of a listing.
pub rd_listed_node :
    Reads
      (read_registry_node true)
      (λ node bs. NodeInRange node × Writes (append_registry_node node true) bs)
unfolding append_registry_node read_registry_node
rd_listed_node = rd_seq _ (rd_short_string _) λ host _ w₁. rd_seq _ rd_u16 λ port _ (r₂, w₂).
    rd_seq _ (rd_id 32) λ pin _ (r₃, w₃). rd_seq _ rd_u32 λ ttl _ (r₄, w₄).
      rd_seq _ (rd_short_string _) λ source _ w₅. rd_check _ λ h. rd_pure _ (
        record { port = r₂; certificate_pin = r₃; remaining_ttl_seconds = r₄ },
        wr_checked h (wr_seq w₁ (wr_seq w₂ (wr_seq w₃ (wr_seq w₄ (wr_last w₅))))),
      )

-- Bytes that decode to trade terms are their encoding, and the numbers are in the range of their
-- types.
pub encode_terms-decode_terms :
    (bs : List ℕ) {t : TradeTerms}
    → IsBytes bs
    → decode_terms bs ≡ ok t
    → TermsInRange t × (encode_terms t ≡ ok bs)
unfolding encode_terms decode_terms
encode_terms-decode_terms bs h e =
    decoded_of_ReadsAll _ {Q = λ t bs. TermsInRange t × (encode_terms t ≡ ok bs)} bs
      (ra_seq _ rd_terms
        λ t _ (r, _, w). ra_finished _ (rn_pure _ (r, written_of_Writes (wr_last w))))
      h e
