-- ===== src/Protocol/Wire/Writer.antt =====
-- The class Writer of src/protocol.cpp. A method maps the bytes written so far to the new ones.
use tradep2p.Base.{
  ℕ, List, [], ◌∷◌, ◌++◌, ◌||◌, length, ltb, Result, ok, bind, throw_if, invalid_argument,
}
use tradep2p.Protocol.Wire.Bytes.{big_endian}

abbrev pub Writer : Type 0
Writer = List ℕ → Result (List ℕ)

infixl 5 ◌>>◌
unfoldable pub ◌>>◌ : Writer → Writer → Writer
◌>>◌ w v out = bind (w out) v

-- A check of the encoder: it throws or writes nothing.
unfoldable pub check : Result (Unit {0}) → Writer
check r out = bind r (λ _. ok out)

-- No call at all, on the branch of an `if` that writes nothing.
unfoldable pub nothing : Writer
nothing out = ok out

-- `Writer writer; ...; return writer.take();`
unfoldable pub written : Writer → Result (List ℕ)
written w = w []

unfoldable pub u8 : ℕ → Writer
u8 value out = ok (out ++ value ∷ [])

unfoldable pub u16 : ℕ → Writer
u16 value out = ok (out ++ big_endian 2 value)

unfoldable pub u32 : ℕ → Writer
u32 value out = ok (out ++ big_endian 4 value)

unfoldable pub u64 : ℕ → Writer
u64 value out = ok (out ++ big_endian 8 value)

unfoldable pub fixed_id : List ℕ → Writer
fixed_id value out = ok (out ++ value)

unfoldable pub short_string : List ℕ → ℕ → Writer
short_string value maximum = do
  check (throw_if (ltb maximum (length value) || ltb 65535 (length value)) invalid_argument)
  u16 (length value)
  λ out. ok (out ++ value)

unfoldable pub bytes : List ℕ → ℕ → Writer
bytes value maximum = do
  check (throw_if (ltb maximum (length value) || ltb 65535 (length value)) invalid_argument)
  u16 (length value)
  λ out. ok (out ++ value)

-- `for (x : xs) ...`
unfoldable pub each {ℓ} : {A : Type ℓ} → (A → Writer) → List A → Writer
each w [] = nothing
each w (x ∷ xs) = w x >> each w xs
