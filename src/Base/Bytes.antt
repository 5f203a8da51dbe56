-- ===== src/Base/Bytes.antt =====
-- Byte buffers: big-endian fields, copies, and the comparison of two buffers. Bytes are numbers
-- below 256; reading past the end of a list gives 0, and the theorems that need it say that it
-- does not happen.
use mathlib.Core.List.{List, [], ◌∷◌, ◌++◌}
use mathlib.Core.Path.{◌≡◌, ap, ap₂}
use Prim.Native.Nat.{ℕ, zero, suc, ◌+◌, ◌*◌, ◌^◌, ◌<◌, ◌≤◌, bit_or}
use native.Mathlib.Omega.{arith}
use esp32p4_nts_time_server.Base.Words.{u8, u16, u32, ◌<<<◌, ◌>>>◌}
use esp32p4_nts_time_server.Base.Lists.{get_or, All, length, take, drop, replicate}
use esp32p4_nts_time_server.Base.Bits.{bit_or_fields}

abbrev pub IsByte : ℕ → Type 0
IsByte b = b < 256

abbrev pub IsBytes : List ℕ → Type 0
IsBytes = All IsByte

abbrev pub byte_at : List ℕ → ℕ → ℕ
byte_at buf i = get_or buf i 0

pub byte_at-lt : (buf : List ℕ) (i : ℕ) → IsBytes buf → byte_at buf i < 256
byte_at-lt [] i h = omega arith
byte_at-lt (x ∷ xs) zero h = h.0
byte_at-lt (x ∷ xs) (suc i) h = byte_at-lt xs i h.1

-- `((uint16_t)p[0] << 8) | p[1]`
unfoldable pub read_be16 : List ℕ → ℕ
read_be16 p = u16 (bit_or (byte_at p 0 <<< 8) (byte_at p 1))

-- The four bytes shifted into place and joined by `|`.
unfoldable pub read_be32 : List ℕ → ℕ
read_be32 p =
    bit_or (bit_or (bit_or (u32 (byte_at p 0 <<< 24)) (byte_at p 1 <<< 16)) (byte_at p 2 <<< 8))
      (byte_at p 3)

-- The two bytes that `write_be16` stores.
unfoldable pub be16_bytes : ℕ → List ℕ
be16_bytes v = u8 (v >>> 8) ∷ u8 v ∷ []

-- The four bytes that `write_be32` stores.
unfoldable pub be32_bytes : ℕ → List ℕ
be32_bytes v = u8 (v >>> 24) ∷ u8 (v >>> 16) ∷ u8 (v >>> 8) ∷ u8 v ∷ []

pub read_be16_sum : (p : List ℕ) → IsBytes p → read_be16 p ≡ byte_at p 0 * 256 + byte_at p 1
unfolding read_be16
read_be16_sum p h =
    ground (arith, byte_at-lt p 0 h, byte_at-lt p 1 h, bit_or_fields 8 (byte_at p 0) (byte_at p 1))

-- The value of four bytes, most significant first.
abbrev pub be32_value : ℕ → ℕ → ℕ → ℕ → ℕ
be32_value a b c d = ((a * 256 + b) * 256 + c) * 256 + d

four_fields :
    (a b c d : ℕ)
    → a < 256
    → b < 256
    → c < 256
    → d < 256
    → bit_or (bit_or (bit_or (u32 (a <<< 24)) (b <<< 16)) (c <<< 8)) d ≡ be32_value a b c d
four_fields a b c d ha hb hc hd =
    rw
      (
        fits,
        bit_or_fields 24 a (b * 2 ^ 16) (omega arith),
        two,
        bit_or_fields 16 (a * 256 + b) (c * 2 ^ 8) (omega arith),
        three,
        bit_or_fields 8 ((a * 256 + b) * 256 + c) d (omega arith),
      )
      (omega arith)
  where
    fits : u32 (a <<< 24) ≡ a <<< 24
    fits = omega arith

    two : a * 2 ^ 24 + b * 2 ^ 16 ≡ (a * 256 + b) <<< 16
    two = omega arith

    three : (a * 256 + b) * 2 ^ 16 + c * 2 ^ 8 ≡ ((a * 256 + b) * 256 + c) <<< 8
    three = omega arith

pub read_be32_sum :
    (p : List ℕ)
    → IsBytes p
    → read_be32 p ≡ be32_value (byte_at p 0) (byte_at p 1) (byte_at p 2) (byte_at p 3)
unfolding read_be32
read_be32_sum p h =
    four_fields (byte_at p 0) (byte_at p 1) (byte_at p 2) (byte_at p 3) (byte_at-lt p 0 h)
      (byte_at-lt p 1 h) (byte_at-lt p 2 h) (byte_at-lt p 3 h)

pub read_be16-lt : (p : List ℕ) → IsBytes p → read_be16 p < 2 ^ 16
unfolding read_be16
read_be16-lt p h = omega arith

pub read_be32-lt : (p : List ℕ) → IsBytes p → read_be32 p < 2 ^ 32
read_be32-lt p h = omega (
  arith,
  read_be32_sum p h,
  byte_at-lt p 0 h,
  byte_at-lt p 1 h,
  byte_at-lt p 2 h,
  byte_at-lt p 3 h,
)

-- A stored 32-bit field reads back, whatever follows it.
pub read_be32-bytes : (v : ℕ) (rest : List ℕ) → v < 2 ^ 32 → read_be32 (be32_bytes v ++ rest) ≡ v
unfolding read_be32 be32_bytes
read_be32-bytes v rest h =
    rw
      (four_fields (u8 (v >>> 24)) (u8 (v >>> 16)) (u8 (v >>> 8)) (u8 v) (omega arith) (omega arith)
        (omega arith) (omega arith))
      (omega arith)

pub read_be16-bytes : (v : ℕ) (rest : List ℕ) → v < 2 ^ 16 → read_be16 (be16_bytes v ++ rest) ≡ v
unfolding read_be16 be16_bytes
read_be16-bytes v rest h = rw (bit_or_fields 8 (u8 (v >>> 8)) (u8 v) (omega arith)) (omega arith)

pub be32_bytes-IsBytes : (v : ℕ) → IsBytes (be32_bytes v)
unfolding be32_bytes
be32_bytes-IsBytes v = omega arith

pub be16_bytes-IsBytes : (v : ℕ) → IsBytes (be16_bytes v)
unfolding be16_bytes
be16_bytes-IsBytes v = omega arith

-- The bytes of a value built from four bytes are those bytes.
pub be32_bytes-value :
    (a b c d : ℕ)
    → a < 256
    → b < 256
    → c < 256
    → d < 256
    → be32_bytes (be32_value a b c d) ≡ a ∷ b ∷ c ∷ d ∷ []
unfolding be32_bytes
be32_bytes-value a b c d ha hb hc hd =
    ap₂ ◌∷◌ (omega arith)
      (ap₂ ◌∷◌ (omega arith) (ap₂ ◌∷◌ (omega arith) (ap (λ x. x ∷ []) (omega arith))))

-- Reading a 32-bit field and storing it again gives the same four bytes.
pub be32_bytes-read_be32 :
    (p : List ℕ) → IsBytes p → 4 ≤ length p → be32_bytes (read_be32 p) ≡ take 4 p
be32_bytes-read_be32 [] h l = absurd (omega arith)
be32_bytes-read_be32 (a ∷ []) h l = absurd (omega arith)
be32_bytes-read_be32 (a ∷ b ∷ []) h l = absurd (omega arith)
be32_bytes-read_be32 (a ∷ b ∷ c ∷ []) h l = absurd (omega arith)
be32_bytes-read_be32 (a ∷ b ∷ c ∷ d ∷ rest) h l =
    rw (read_be32_sum (a ∷ b ∷ c ∷ d ∷ rest) h)
      (be32_bytes-value a b c d h.0 h.1.0 h.1.1.0 h.1.1.1.0)

abbrev pub zeros : ℕ → List ℕ
zeros n = replicate n 0

-- `memcpy` of `bytes` to offset `n` of a buffer that has room for them.
abbrev pub store : List ℕ → ℕ → List ℕ → List ℕ
store buffer n bytes = take n buffer ++ bytes ++ drop (n + length bytes) buffer

-- `bytes` written from the start of a buffer on.
abbrev pub overwrite : List ℕ → List ℕ → List ℕ
overwrite buffer bytes = bytes ++ drop (length bytes) buffer
