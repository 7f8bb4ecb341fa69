-- ===== src/Protocol/Wire/Reader.antt =====
-- The class Reader of src/protocol.cpp. `input_` and `position_` are the bytes not yet read.
use tradep2p.Base.{
  ℕ, zero, suc, List, [], ◌∷◌, length, take, drop, ltb, if◌then◌else◌, Result, ok, err, bind,
  throw_if, runtime_error,
}
use tradep2p.Protocol.Wire.Bytes.{from_big_endian}

abbrev pub Reader {ℓ} : Type ℓ → Type ℓ
Reader A = List ℕ → Result (A × List ℕ)

module _ {ℓ κ} {A : Type ℓ} {B : Type κ} where
  infixl 5 ◌>>=◌ ◌>>◌
  unfoldable pub ◌>>=◌ : Reader A → (A → Reader B) → Reader B
  ◌>>=◌ r f input = bind (r input) (λ (a, rest). f a rest)

  abbrev pub ◌>>◌ : Reader A → Reader B → Reader B
  r >> s = r >>= λ _. s

unfoldable pub pure {ℓ} : {A : Type ℓ} → A → Reader A
pure a input = ok (a, input)

-- A check of the decoder: it throws or reads nothing.
unfoldable pub check : Result (Unit {0}) → Reader (Unit {0})
check r input = bind r (λ _. ok (tt, input))

-- `Reader reader(bytes); ...; return message;`
unfoldable pub decoded {ℓ} : {A : Type ℓ} → Reader A → List ℕ → Result A
decoded r input = bind (r input) (λ (a, _). ok a)

-- `require(count)`, then `count` bytes.
unfoldable pub take_bytes : ℕ → Reader (List ℕ)
take_bytes count input =
    if ltb (length input) count then err runtime_error else ok (take count input, drop count input)

unfoldable pub u8 : Reader ℕ
u8 [] = err runtime_error
u8 (b ∷ rest) = ok (b, rest)

unfoldable pub u16 : Reader ℕ
u16 = do bs ← take_bytes 2; pure (from_big_endian 65536 0 bs)

unfoldable pub u32 : Reader ℕ
u32 = do bs ← take_bytes 4; pure (from_big_endian 4294967296 0 bs)

unfoldable pub u64 : Reader ℕ
u64 = do bs ← take_bytes 8; pure (from_big_endian 18446744073709551616 0 bs)

unfoldable pub fixed_id : ℕ → Reader (List ℕ)
fixed_id n = take_bytes n

unfoldable pub short_string : ℕ → Reader (List ℕ)
short_string maximum = do
  length ← u16
  check (throw_if (ltb maximum length) runtime_error)
  take_bytes length

unfoldable pub bytes : ℕ → Reader (List ℕ)
bytes maximum = do
  length ← u16
  check (throw_if (ltb maximum length) runtime_error)
  take_bytes length

unfoldable pub require_finished : Reader (Unit {0})
require_finished [] = ok (tt, [])
require_finished (b ∷ rest) = err runtime_error

-- `for (i = 0; i < count; ++i) result.push_back(...)`
unfoldable pub times {ℓ} : {A : Type ℓ} → ℕ → Reader A → Reader (List A)
times zero r = pure []
times (suc n) r = do x ← r; xs ← times n r; pure (x ∷ xs)
