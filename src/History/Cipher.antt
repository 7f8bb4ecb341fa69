-- ===== src/History/Cipher.antt =====
-- chacha20poly1305_seal and chacha20poly1305_open of src/history.cpp, over the EVP calls.
use tradep2p.Base.{
  ℕ, suc, ◌-◌, ◌%◌, ◌<◌, ◌≡◌, refl, List, [], ◌∷◌, ◌++◌, append-nil, true, false, ltb, length,
  if◌then◌else◌, arith, Option, none, some, Error, Result, ok, err, bind, runtime_error,
  history_authentication,
}
use tradep2p.Protocol.Wire.Bytes.{IsArray}
use tradep2p.Protocol.Validate.{is_empty}
use tradep2p.Crypto.{ℤ, pos, negsuc, Aead, IsAead, IsIntLength}

-- `static_cast<int>(size)`
unfoldable pub as_int : ℕ → ℤ
as_int size =
    let value = size % 4294967296 in
    if ltb value 2147483648 then pos value else negsuc (4294967295 - value)

-- An exception where a call fails.
abbrev pub or_throw : {A : Type 0} → Error → Option A → Result A
or_throw e none = err e
or_throw e (some a) = ok a

module _ (c : Aead) where
  unfoldable pub seal : List ℕ → List ℕ → List ℕ → List ℕ → Result (List ℕ × List ℕ)
  seal key nonce aad plaintext = bind (or_throw runtime_error c.new_context) (λ ctx.
      bind (or_throw runtime_error (c.encrypt_init ctx)) (λ ctx.
        bind (or_throw runtime_error (c.set_nonce_length ctx (as_int (length nonce)))) (λ ctx.
          bind (or_throw runtime_error (c.set_encrypt_key ctx key nonce)) (λ ctx.
            bind
              (if is_empty aad
                then ok ctx
                else or_throw runtime_error (c.encrypt_aad ctx aad (as_int (length aad))))
              (λ ctx.
                bind
                  (if is_empty plaintext
                    then ok (ctx, [])
                    else or_throw runtime_error
                        (c.encrypt_update ctx plaintext (as_int (length plaintext))))
                  (λ (ctx, written).
                    bind (or_throw runtime_error (c.encrypt_final ctx)) (λ (ctx, last).
                      bind (or_throw runtime_error (c.get_tag ctx (pos 16)))
                        (λ tag. ok (written ++ last, tag)))))))))

  unfoldable pub open_sealed : List ℕ → List ℕ → List ℕ → List ℕ → List ℕ → Result (List ℕ)
  open_sealed key nonce aad ciphertext tag = bind (or_throw runtime_error c.new_context) (λ ctx.
      bind (or_throw runtime_error (c.decrypt_init ctx)) (λ ctx.
        bind (or_throw runtime_error (c.set_nonce_length ctx (as_int (length nonce)))) (λ ctx.
          bind (or_throw runtime_error (c.set_decrypt_key ctx key nonce)) (λ ctx.
            bind
              (if is_empty aad
                then ok ctx
                else or_throw runtime_error (c.decrypt_aad ctx aad (as_int (length aad))))
              (λ ctx.
                bind
                  (if is_empty ciphertext
                    then ok (ctx, [])
                    else or_throw history_authentication
                        (c.decrypt_update ctx ciphertext (as_int (length ciphertext))))
                  (λ (ctx, written).
                    bind (or_throw runtime_error (c.set_tag ctx tag (as_int (length tag)))) (λ ctx.
                      bind (or_throw history_authentication (c.decrypt_final ctx))
                        (λ (ctx, last). ok (written ++ last)))))))))

as_int-pos : (n : ℕ) → n < 2147483648 → as_int n ≡ pos n
unfolding as_int
as_int-pos n h =
    let small : n % 4294967296 ≡ n = omega arith in
    let t : ltb n 2147483648 ≡ true = ground arith in rw (small, t) refl

nil_of_length : (xs : List ℕ) → length xs ≡ 0 → xs ≡ []
nil_of_length [] h = refl
nil_of_length (x ∷ xs) h = absurd (omega arith)

is_empty-suc : (xs : List ℕ) (m : ℕ) → length xs ≡ suc m → is_empty xs ≡ false
is_empty-suc [] m h = absurd (omega arith)
is_empty-suc (x ∷ xs) m h = refl

module _ (c : Aead) (sound : IsAead c) (key nonce : List ℕ) (n : IsArray 12 nonce) where
  cipher-nil : sound.cipher key nonce [] ≡ []
  cipher-nil = nil_of_length (sound.cipher key nonce []) (sound.size key nonce [])

  -- With a header, data that is not too long is sealed.
  pub seal-ok :
      (x : ℕ) (aad plaintext : List ℕ)
      → IsIntLength (x ∷ aad)
      → IsIntLength plaintext
      → seal c key nonce (x ∷ aad) plaintext
        ≡ ok (sound.cipher key nonce plaintext, sound.tag key nonce (x ∷ aad) plaintext)
  unfolding seal
  seal-ok x aad [] a p =
      let (u, (e₁, e₂)) = sound.begun in
      let (v, (e₃, e₄)) = sound.ended key nonce (x ∷ aad) [] in
      rw
        (
          sound.created,
          e₁,
          n.size,
          as_int-pos 12 (omega arith),
          e₂,
          sound.keyed key nonce,
          as_int-pos (length (x ∷ aad)) a,
          sound.headed key nonce (x ∷ aad) a,
          e₃,
          e₄,
          cipher-nil,
        )
        refl
  seal-ok x aad (y ∷ plaintext) a p =
      let (u, (e₁, e₂)) = sound.begun in
      let (v, (e₃, e₄)) = sound.ended key nonce (x ∷ aad) (y ∷ plaintext) in
      rw
        (
          sound.created,
          e₁,
          n.size,
          as_int-pos 12 (omega arith),
          e₂,
          sound.keyed key nonce,
          as_int-pos (length (x ∷ aad)) a,
          sound.headed key nonce (x ∷ aad) a,
          as_int-pos (length (y ∷ plaintext)) p,
          sound.encrypted key nonce (x ∷ aad) (y ∷ plaintext) p,
          e₃,
          e₄,
          append-nil (sound.cipher key nonce (y ∷ plaintext)),
        )
        refl

  -- What was sealed is opened.
  pub open_sealed-cipher :
      (x : ℕ) (aad plaintext : List ℕ)
      → IsIntLength (x ∷ aad)
      → IsIntLength plaintext
      → open_sealed c key nonce
          (x ∷ aad)
          (sound.cipher key nonce plaintext)
          (sound.tag key nonce (x ∷ aad) plaintext)
        ≡ ok plaintext
  unfolding open_sealed
  open_sealed-cipher x aad [] a p =
      let (u, (e₁, e₂)) = sound.begun_open in
      let (v, e₃) = sound.authentic key nonce (x ∷ aad) [] in
      let e₄ = rw cipher-nil at e₃ in
      let tag_size = (sound.tag_size key nonce (x ∷ aad) []).size in
      rw
        (
          sound.created,
          e₁,
          n.size,
          as_int-pos 12 (omega arith),
          e₂,
          sound.keyed_open key nonce,
          as_int-pos (length (x ∷ aad)) a,
          sound.headed_open key nonce (x ∷ aad) a,
          cipher-nil,
          tag_size,
          as_int-pos 16 (omega arith),
          sound.with_tag key nonce (x ∷ aad) [] (sound.tag key nonce (x ∷ aad) []),
          e₄,
        )
        refl
  open_sealed-cipher x aad (y ∷ plaintext) a p =
      let (u, (e₁, e₂)) = sound.begun_open in
      let sealed = sound.cipher key nonce (y ∷ plaintext) in
      let tag = sound.tag key nonce (x ∷ aad) (y ∷ plaintext) in
      let (v, e₃) = sound.authentic key nonce (x ∷ aad) (y ∷ plaintext) in
      let size = sound.size key nonce (y ∷ plaintext) in
      let tag_size = (sound.tag_size key nonce (x ∷ aad) (y ∷ plaintext)).size in
      rw
        (
          sound.created,
          e₁,
          n.size,
          as_int-pos 12 (omega arith),
          e₂,
          sound.keyed_open key nonce,
          as_int-pos (length (x ∷ aad)) a,
          sound.headed_open key nonce (x ∷ aad) a,
          is_empty-suc sealed (length plaintext) size,
          size,
          as_int-pos (length (y ∷ plaintext)) p,
          sound.decrypted key nonce (x ∷ aad) (y ∷ plaintext) p,
          tag_size,
          as_int-pos 16 (omega arith),
          sound.with_tag key nonce (x ∷ aad) sealed tag,
          e₃,
          append-nil plaintext,
        )
        refl
