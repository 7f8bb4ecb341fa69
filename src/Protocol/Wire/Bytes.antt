-- ===== src/Protocol/Wire/Bytes.antt =====
-- The byte values of fixed-width unsigned integers, highest byte first.
use tradep2p.Base.{
  ℕ, zero, suc, ◌+◌, ◌*◌, ◌/◌, ◌%◌, ◌^◌, ◌<◌, ◌≡◌, refl, List, [], ◌∷◌, ap, arith, length, All,
  replicate,
}

abbrev pub IsByte : ℕ → Type 0
IsByte b = b < 256

-- std::string and std::vector<std::uint8_t>: any number of bytes.
abbrev pub IsBytes : List ℕ → Type 0
IsBytes = All IsByte

-- std::array<std::uint8_t, n>.
pub record IsArray (n : ℕ) (xs : List ℕ) : Type 0 where
  pub size : length xs ≡ n
  pub bytes : IsBytes xs

abbrev pub IsU16 : ℕ → Type 0
IsU16 v = v < 65536

abbrev pub IsU32 : ℕ → Type 0
IsU32 v = v < 4294967296

abbrev pub IsU64 : ℕ → Type 0
IsU64 v = v < 18446744073709551616

-- `for (shift = 8 * k; shift >= 0; shift -= 8) push_back((value >> shift) & 0xff)` over k bytes.
unfoldable pub big_endian : ℕ → ℕ → List ℕ
big_endian zero value = []
big_endian (suc k) value = (value / 256 ^ k % 256) ∷ big_endian k value

-- `for (...) result = (result << 8) | byte`, in an integer that holds `modulus` values.
unfoldable pub from_big_endian : ℕ → ℕ → List ℕ → ℕ
from_big_endian modulus result [] = result
from_big_endian modulus result (b ∷ bs) = from_big_endian modulus ((result * 256 + b) % modulus) bs

pub length-big_endian : (k v : ℕ) → length (big_endian k v) ≡ k
unfolding big_endian
length-big_endian zero v = omega arith
length-big_endian (suc k) v = ap suc (length-big_endian k v)

pub big_endian_u16 : (v : ℕ) → IsU16 v → from_big_endian 65536 0 (big_endian 2 v) ≡ v
unfolding big_endian from_big_endian
big_endian_u16 v h = omega arith

pub big_endian_u32 : (v : ℕ) → IsU32 v → from_big_endian 4294967296 0 (big_endian 4 v) ≡ v
unfolding big_endian from_big_endian
big_endian_u32 v h = omega arith

pub big_endian_u64 : (v : ℕ) → IsU64 v → from_big_endian 18446744073709551616 0 (big_endian 8 v) ≡ v
unfolding big_endian from_big_endian
big_endian_u64 v h = omega arith

pub from_big_endian-IsU16 : (xs : List ℕ) → length xs ≡ 2 → IsU16 (from_big_endian 65536 0 xs)
unfolding from_big_endian
from_big_endian-IsU16 [] e = absurd (omega arith)
from_big_endian-IsU16 (b ∷ []) e = absurd (omega arith)
from_big_endian-IsU16 (b ∷ c ∷ []) e = omega arith
from_big_endian-IsU16 (b ∷ c ∷ d ∷ xs) e = absurd (omega arith)

-- `k` bytes are the big-endian form of the number that they spell.
pub big_endian_u16_back :
    (xs : List ℕ) → length xs ≡ 2 → IsBytes xs → big_endian 2 (from_big_endian 65536 0 xs) ≡ xs
unfolding big_endian from_big_endian
big_endian_u16_back [] e h = absurd (omega arith)
big_endian_u16_back (b ∷ []) e h = absurd (omega arith)
big_endian_u16_back (b ∷ c ∷ []) e h = ground arith
big_endian_u16_back (b ∷ c ∷ d ∷ xs) e h = absurd (omega arith)

-- The first `k` of at least `k` values.
take_shape_4 : (xs : List ℕ) → length xs ≡ 4 → (b c d e : ℕ) × (xs ≡ b ∷ c ∷ d ∷ e ∷ [])
take_shape_4 (b ∷ c ∷ d ∷ e ∷ []) h = (b, c, d, e, refl)
take_shape_4 [] h = absurd (omega arith)
take_shape_4 (b ∷ []) h = absurd (omega arith)
take_shape_4 (b ∷ c ∷ []) h = absurd (omega arith)
take_shape_4 (b ∷ c ∷ d ∷ []) h = absurd (omega arith)
take_shape_4 (b ∷ c ∷ d ∷ e ∷ f ∷ xs) h = absurd (omega arith)

pub big_endian-IsU32_back :
    (xs : List ℕ)
    → length xs ≡ 4
    → IsBytes xs
    → IsU32 (from_big_endian 4294967296 0 xs)
      × (big_endian 4 (from_big_endian 4294967296 0 xs) ≡ xs)
unfolding big_endian from_big_endian
big_endian-IsU32_back xs l h =
    let (b, c, d, e, p) = take_shape_4 xs l in rw p (u32_back b c d e (rw p at h))
  where
    u32_back :
        (b c d e : ℕ)
        → IsBytes (b ∷ c ∷ d ∷ e ∷ [])
        → IsU32 (from_big_endian 4294967296 0 (b ∷ c ∷ d ∷ e ∷ []))
          × (big_endian 4 (from_big_endian 4294967296 0 (b ∷ c ∷ d ∷ e ∷ [])) ≡ b ∷ c ∷ d ∷ e ∷ [])
    u32_back b c d e h = (omega arith, ground arith)

shape_8 :
    (xs : List ℕ)
    → length xs ≡ 8
    → (b c d e f g i j : ℕ) × (xs ≡ b ∷ c ∷ d ∷ e ∷ f ∷ g ∷ i ∷ j ∷ [])
shape_8 [] l = absurd (omega arith)
shape_8 (b ∷ []) l = absurd (omega arith)
shape_8 (b ∷ c ∷ []) l = absurd (omega arith)
shape_8 (b ∷ c ∷ d ∷ []) l = absurd (omega arith)
shape_8 (b ∷ c ∷ d ∷ e ∷ xs) l =
    let (f, g, i, j, p) = take_shape_4 xs (omega arith) in
    (b, c, d, e, f, g, i, j, ap (λ t. b ∷ c ∷ d ∷ e ∷ t) p)

pub big_endian-IsU64_back :
    (xs : List ℕ)
    → length xs ≡ 8
    → IsBytes xs
    → IsU64 (from_big_endian 18446744073709551616 0 xs)
      × (big_endian 8 (from_big_endian 18446744073709551616 0 xs) ≡ xs)
unfolding big_endian from_big_endian
big_endian-IsU64_back xs l h =
    let (b, c, d, e, f, g, i, j, p) = shape_8 xs l in rw p (u64_back b c d e f g i j (rw p at h))
  where
    u64_back :
        (b c d e f g i j : ℕ)
        → IsBytes (b ∷ c ∷ d ∷ e ∷ f ∷ g ∷ i ∷ j ∷ [])
        → IsU64 (from_big_endian 18446744073709551616 0 (b ∷ c ∷ d ∷ e ∷ f ∷ g ∷ i ∷ j ∷ []))
          × (big_endian 8
                (from_big_endian 18446744073709551616 0 (b ∷ c ∷ d ∷ e ∷ f ∷ g ∷ i ∷ j ∷ []))
              ≡ b ∷ c ∷ d ∷ e ∷ f ∷ g ∷ i ∷ j ∷ [])
    u64_back b c d e f g i j h = (omega arith, ground arith)

pub replicate-IsArray : (n b : ℕ) → IsByte b → IsArray n (replicate n b)
replicate-IsArray zero b h = record { size = refl; bytes = tt }
replicate-IsArray (suc n) b h =
    let rest = replicate-IsArray n b h in
    record { size = ap suc rest.size; bytes = (h, rest.bytes) }
