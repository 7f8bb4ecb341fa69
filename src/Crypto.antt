-- ===== src/Crypto.antt =====
-- What src/identity.cpp and src/journal.cpp take from OpenSSL: SHA-256 and two signature schemes,
-- as functions of byte strings. For src/history.cpp, the calls on a context of ChaCha20-Poly1305. With
-- them, the laws that OpenSSL documents.
use tradep2p.Base.{ℕ, ◌<◌, List, [], Bool, true, ◌≡◌, Option, some, length}
use tradep2p.Protocol.Wire.Bytes.{IsArray}

-- The `int` of C, of 32 bits.
pub data ℤ : Type 0 where
  pos negsuc : ℕ → ℤ

-- A length that is an `int`.
abbrev pub IsIntLength : List ℕ → Type 0
IsIntLength xs = length xs < 2147483648

pub record Primitives : Type 0 where
  pub sha256 : List ℕ → List ℕ
  pub ed25519_public : List ℕ → List ℕ
  pub ed25519_sign : List ℕ → List ℕ → List ℕ
  pub ed25519_verify : List ℕ → List ℕ → List ℕ → Bool
  pub mldsa65_public : List ℕ → List ℕ
  pub mldsa65_sign : List ℕ → List ℕ → List ℕ
  pub mldsa65_verify : List ℕ → List ℕ → List ℕ → Bool

-- A digest has 32 bytes, a signature has the length of its scheme, and what a seed signs verifies
-- against the public key of the seed.
pub record IsSound (c : Primitives) : Type 0 where
  pub sha256_size : (m : List ℕ) → IsArray 32 (c.sha256 m)
  pub ed25519_size : (seed m : List ℕ) → IsArray 64 (c.ed25519_sign seed m)
  pub ed25519_correct :
      (seed m : List ℕ) → c.ed25519_verify (c.ed25519_public seed) m (c.ed25519_sign seed m) ≡ true
  pub mldsa65_size : (seed m : List ℕ) → IsArray 3309 (c.mldsa65_sign seed m)
  pub mldsa65_correct :
      (seed m : List ℕ) → c.mldsa65_verify (c.mldsa65_public seed) m (c.mldsa65_sign seed m) ≡ true

-- The EVP calls for ChaCha20-Poly1305, on a context: `none` where a call does not return 1 or a
-- context. A length is an `int` of its own, as in C.
pub record Aead : Type 1 where
  pub Context : Type 0
  pub new_context : Option Context
  pub encrypt_init : Context → Option Context
  pub decrypt_init : Context → Option Context
  pub set_nonce_length : Context → ℤ → Option Context
  pub set_encrypt_key : Context → List ℕ → List ℕ → Option Context
  pub set_decrypt_key : Context → List ℕ → List ℕ → Option Context
  pub encrypt_aad : Context → List ℕ → ℤ → Option Context
  pub decrypt_aad : Context → List ℕ → ℤ → Option Context
  pub encrypt_update : Context → List ℕ → ℤ → Option (Context × List ℕ)
  pub decrypt_update : Context → List ℕ → ℤ → Option (Context × List ℕ)
  pub encrypt_final : Context → Option (Context × List ℕ)
  pub decrypt_final : Context → Option (Context × List ℕ)
  pub get_tag : Context → ℤ → Option (List ℕ)
  pub set_tag : Context → List ℕ → ℤ → Option Context

-- The contexts that the calls lead through, with a key, a nonce of 12 bytes and data whose lengths
-- are an `int` of at least 0: the calls succeed, a ciphertext is as long as its plaintext, the tag
-- has 16 bytes, the last call of an encryption writes nothing, decryption undoes encryption, and
-- the last call of a decryption accepts the tag of the encryption. That memory does not run out is
-- part of it.
pub record IsAead (c : Aead) : Type 0 where
  pub cipher : List ℕ → List ℕ → List ℕ → List ℕ
  pub tag : List ℕ → List ℕ → List ℕ → List ℕ → List ℕ
  pub fresh : c.Context
  pub encryption : c.Context
  pub decryption : c.Context
  pub encrypting : List ℕ → List ℕ → List ℕ → List ℕ → c.Context
  pub decrypting : List ℕ → List ℕ → List ℕ → List ℕ → c.Context
  pub tagged : List ℕ → List ℕ → List ℕ → List ℕ → List ℕ → c.Context
  pub size : (key nonce plaintext : List ℕ) → length (cipher key nonce plaintext) ≡ length plaintext
  pub tag_size : (key nonce header plaintext : List ℕ) → IsArray 16 (tag key nonce header plaintext)
  pub created : c.new_context ≡ some fresh
  pub begun :
      (x : c.Context) × ((c.encrypt_init fresh ≡ some x)
        × (c.set_nonce_length x (pos 12) ≡ some encryption))
  pub begun_open :
      (x : c.Context) × ((c.decrypt_init fresh ≡ some x)
        × (c.set_nonce_length x (pos 12) ≡ some decryption))
  pub keyed :
      (key nonce : List ℕ)
      → c.set_encrypt_key encryption key nonce ≡ some (encrypting key nonce [] [])
  pub keyed_open :
      (key nonce : List ℕ)
      → c.set_decrypt_key decryption key nonce ≡ some (decrypting key nonce [] [])
  pub headed :
      (key nonce header : List ℕ)
      → IsIntLength header
      → c.encrypt_aad (encrypting key nonce [] []) header (pos (length header))
        ≡ some (encrypting key nonce header [])
  pub headed_open :
      (key nonce header : List ℕ)
      → IsIntLength header
      → c.decrypt_aad (decrypting key nonce [] []) header (pos (length header))
        ≡ some (decrypting key nonce header [])
  pub encrypted :
      (key nonce header plaintext : List ℕ)
      → IsIntLength plaintext
      → c.encrypt_update (encrypting key nonce header []) plaintext (pos (length plaintext))
        ≡ some (encrypting key nonce header plaintext, cipher key nonce plaintext)
  pub decrypted :
      (key nonce header plaintext : List ℕ)
      → IsIntLength plaintext
      → c.decrypt_update
          (decrypting key nonce header [])
          (cipher key nonce plaintext)
          (pos (length plaintext))
        ≡ some (decrypting key nonce header (cipher key nonce plaintext), plaintext)
  pub ended :
      (key nonce header plaintext : List ℕ)
      → (x : c.Context) × ((c.encrypt_final (encrypting key nonce header plaintext) ≡ some (x, []))
          × (c.get_tag x (pos 16) ≡ some (tag key nonce header plaintext)))
  pub with_tag :
      (key nonce header ciphertext t : List ℕ)
      → c.set_tag (decrypting key nonce header ciphertext) t (pos 16)
        ≡ some (tagged key nonce header ciphertext t)
  pub authentic :
      (key nonce header plaintext : List ℕ)
      → (x : c.Context) × (c.decrypt_final
            (tagged key nonce header (cipher key nonce plaintext) (tag key nonce header plaintext))
          ≡ some (x, []))
