-- ===== src/Protocol/Disclosure/RoundTrip.antt =====
-- The encoders of ReceiptDisclosureMessage (src/protocol.cpp), followed by their decoders.
use tradep2p.Base.{
  ℕ, ◌≡◌, ◌≤◌, refl, List, [], ltb, arith, length, ok, bind-eq-ok, throw_if, rethrow,
  invalid_argument, runtime_error,
}
use native.Mathlib.Nat.{le_refl}
use tradep2p.Protocol.Wire.Writer.{written}
use tradep2p.Protocol.Types.{max_frame_payload}
use tradep2p.Protocol.Wire.RoundTrip.{
  RoundTrip, rt_seq, rt_last, rt_checked, rt_check, rt_weaken, rt_each, Yields-finished,
  Yields-pure, decoded-written, rt_u8, rt_u64, rt_id, rt_short_string,
}
use tradep2p.Protocol.Issued.{ReceiptIssuedMessage, ReceiptIssuedInRange, encode_receipt_issued}
use tradep2p.Protocol.Issued.RoundTrip.{decode_receipt_issued-encode_receipt_issued}
use tradep2p.Protocol.Disclosure.{
  ReceiptDisclosureMessage, ReceiptDisclosureInRange, disclosure_max_chain_entries, append_entry,
  read_entry, write_disclosure, read_disclosure, encode_receipt_disclosure,
  decode_receipt_disclosure,
}

rt_entry :
    (entry : ReceiptIssuedMessage)
    → ReceiptIssuedInRange entry
    → (rest : List ℕ) → RoundTrip (append_entry entry) read_entry entry 131074 rest
unfolding append_entry read_entry
rt_entry entry r rest = record {
  apply = λ out out' e.
      let (bs, e₁, e₂) = bind-eq-ok (encode_receipt_issued entry) _ e in
      let (back, _) = decode_receipt_issued-encode_receipt_issued entry r e₁ in
      (rt_last _ (rt_short_string bs max_frame_payload) (record { apply = rw back refl })).apply out
        out' e₂;
}

at_most : (n m : ℕ) → throw_if (ltb m n) invalid_argument ≡ ok tt → n ≤ m
at_most n m e = ground arith

rt_disclosure :
    (m : ReceiptDisclosureMessage)
    → ReceiptDisclosureInRange m
    → RoundTrip (write_disclosure m) read_disclosure m 2000000 []
unfolding write_disclosure read_disclosure
rt_disclosure m r = rt_checked λ h₁. rt_checked λ h₂.
    let small = at_most (length m.chain) disclosure_max_chain_entries h₂ in
    rt_weaken 2000000 (omega arith) (
      rt_seq _ (rt_id 32 m.room_id r.room_id) (
        rt_check _ h₁ (
          rt_seq _ (rt_id 32 m.recipient_ephemeral_key r.recipient_ephemeral_key) (
            rt_seq _ (rt_id 32 m.disclosed_chain_hash r.disclosed_chain_hash) (
              rt_seq _ (rt_u64 m.timestamp r.timestamp) (
                rt_seq _ (rt_id 16 m.nonce r.nonce) (
                  rt_seq _ (rt_id 64 m.signature r.signature) (
                    rt_seq _ (rt_id 3309 m.signature_mldsa65 r.signature_mldsa65) (
                      rt_checked λ _. rt_seq _ (rt_u8 (length m.chain)) (
                        rt_check _
                          (rethrow (ltb disclosure_max_chain_entries (length m.chain)) _ _ h₂)
                          (rt_last _ (rt_each ReceiptIssuedInRange rt_entry m.chain r.chain)
                            (Yields-finished _ (Yields-pure m [])))))))))))))

-- If a ReceiptDisclosureMessage whose fields are in the range of their types can be encoded, the
-- bytes fit the payload of one frame and decode to it.
pub decode_receipt_disclosure-encode_receipt_disclosure :
    (message : ReceiptDisclosureMessage) {bs : List ℕ}
    → ReceiptDisclosureInRange message
    → encode_receipt_disclosure message ≡ ok bs
    → (decode_receipt_disclosure bs ≡ ok message) × (length bs ≤ max_frame_payload)
unfolding encode_receipt_disclosure decode_receipt_disclosure
decode_receipt_disclosure-encode_receipt_disclosure message {bs} r e =
    let (cs, e₁, e₂) = bind-eq-ok (written (write_disclosure message)) _ e in
    let (u, e₃, e₄) =
      bind-eq-ok (throw_if (ltb max_frame_payload (length cs)) invalid_argument) _ e₂ in
    let same : cs ≡ bs = cc in
    let fits : throw_if (ltb max_frame_payload (length bs)) invalid_argument ≡ ok tt =
      rw (← same) e₃ in
    let (back, _) =
      decoded-written _ _ (rw same at e₁) (rt_disclosure message r) (le_refl 2000000) in
    (
      rw (rethrow (ltb max_frame_payload (length bs)) _ runtime_error fits) back,
      at_most (length bs) max_frame_payload fits,
    )
