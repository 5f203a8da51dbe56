-- ===== src/Base/Bits.antt =====
-- The laws of `|`, `&` and `^` that the code relies on, at every width. Each goes by the lowest
-- binary digit: an operation on `a` is the operation on `a / 2`, doubled, and one digit.
use Prim.Native.Nat.{
  ℕ, zero, suc, ◌+◌, ◌-◌, ◌*◌, ◌/◌, ◌%◌, ◌^◌, ◌≤◌, ◌<◌, min, max, bit_and, bit_or, bit_xor, bitwise,
  differ, bit_and-bitwise, bit_or-bitwise, bit_xor-bitwise, digits,
}
use mathlib.Core.Path.{◌≡◌, refl, ap}
use native.Mathlib.Nat.{pow-suc, one-le-pow}
use native.Mathlib.Omega.{arith}
use esp32p4_nts_time_server.Base.Words.{◌<<<◌}

module _ (z : ℕ → ℕ) (f : ℕ → ℕ → ℕ) where
  -- More digits to go than the number has change nothing.
  enough_digits : (a n m b : ℕ) → a ≤ n → a ≤ m → digits z f n a b ≡ digits z f m a b
  enough_digits zero zero zero b le_n le_m = refl
  enough_digits zero zero (suc m) b le_n le_m = refl
  enough_digits zero (suc n) zero b le_n le_m = refl
  enough_digits zero (suc n) (suc m) b le_n le_m = refl
  enough_digits (suc a) zero m b le_n le_m = absurd (omega arith)
  enough_digits (suc a) (suc n) zero b le_n le_m = absurd (omega arith)
  enough_digits (suc a) (suc n) (suc m) b le_n le_m =
      rw (enough_digits (suc a / 2) n m (b / 2) (omega arith) (omega arith))

  bitwise_lowest :
      (a b : ℕ)
      → bitwise z f (suc a) b ≡ bitwise z f (suc a / 2) (b / 2) * 2 + f (suc a % 2) (b % 2)
  bitwise_lowest a b =
      omega (arith, enough_digits (suc a / 2) a (suc a / 2) (b / 2) (omega arith) (omega arith))

pub bit_or_lowest : (a b : ℕ) → bit_or a b ≡ bit_or (a / 2) (b / 2) * 2 + max (a % 2) (b % 2)
bit_or_lowest zero b = simp bit_or-bitwise (omega arith)
bit_or_lowest (suc a) b = simp bit_or-bitwise (bitwise_lowest (λ y. y) max a b)

pub bit_and_lowest : (a b : ℕ) → bit_and a b ≡ bit_and (a / 2) (b / 2) * 2 + min (a % 2) (b % 2)
bit_and_lowest zero b = simp bit_and-bitwise (omega arith)
bit_and_lowest (suc a) b = simp bit_and-bitwise (bitwise_lowest (λ y. 0) min a b)

differ_digits : (x y : ℕ) → x < 2 → y < 2 → differ x y ≡ (x + y) % 2
differ_digits zero y p q = omega arith
differ_digits (suc zero) zero p q = refl
differ_digits (suc zero) (suc zero) p q = refl
differ_digits (suc zero) (suc (suc y)) p q = absurd (omega arith)
differ_digits (suc (suc x)) y p q = absurd (omega arith)

pub bit_xor_lowest : (a b : ℕ) → bit_xor a b ≡ bit_xor (a / 2) (b / 2) * 2 + (a + b) % 2
bit_xor_lowest zero b = simp bit_xor-bitwise (omega arith)
bit_xor_lowest (suc a) b =
    omega (arith, lowest, differ_digits (suc a % 2) (b % 2) (omega arith) (omega arith))
  where
    lowest : bit_xor (suc a) b ≡ bit_xor (suc a / 2) (b / 2) * 2 + differ (suc a % 2) (b % 2)
    lowest = simp bit_xor-bitwise (bitwise_lowest (λ y. y) differ a b)

-- Induction from `a / 2` and `b / 2`, with a bound that falls.
bit_or-zero_below : (n a : ℕ) → a ≤ n → bit_or a 0 ≡ a
bit_or-zero_below n zero h = refl
bit_or-zero_below zero (suc a) h = absurd (omega arith)
bit_or-zero_below (suc n) (suc a) h =
    omega (arith, bit_or_lowest (suc a) 0, bit_or-zero_below n (suc a / 2) (omega arith))

pub bit_or-zero : (a : ℕ) → bit_or a 0 ≡ a
bit_or-zero a = bit_or-zero_below a a (omega arith)

bit_and-zero_below : (n a : ℕ) → a ≤ n → bit_and a 0 ≡ 0
bit_and-zero_below n zero h = refl
bit_and-zero_below zero (suc a) h = absurd (omega arith)
bit_and-zero_below (suc n) (suc a) h =
    omega (arith, bit_and_lowest (suc a) 0, bit_and-zero_below n (suc a / 2) (omega arith))

bit_and-zero : (a : ℕ) → bit_and a 0 ≡ 0
bit_and-zero a = bit_and-zero_below a a (omega arith)

scaled : (n k : ℕ) → n * 2 ^ suc k ≡ n * 2 ^ k * 2
scaled n k = let doubled = ap (λ (power : ℕ). n * power) (pow-suc 2 k) in omega (arith, doubled)

-- `(q << k) | r` is a sum where `r` fits `k` bits.
pub bit_or_fields :
    (width high low : ℕ) → low < 2 ^ width → bit_or (high <<< width) low ≡ high * 2 ^ width + low
bit_or_fields zero high low small = ground (arith, bit_or-zero high)
bit_or_fields (suc width) high low small =
    let rest = bit_or_fields width high (low / 2) (omega (arith, pow-suc 2 width)) in
    ground
      (arith, bit_or_lowest (high * 2 ^ suc width) low, scaled high width, pow-suc 2 width, rest)

low_field : (k q r : ℕ) → r < 2 ^ k → bit_and (q <<< k + r) (2 ^ k - 1) ≡ r
low_field zero q r h = rw bit_and-zero (omega arith)
low_field (suc k) q r h = ground (
  arith,
  bit_and_lowest (q * 2 ^ suc k + r) (2 ^ suc k - 1),
  scaled q k,
  pow-suc 2 k,
  one-le-pow k 2,
  low_field k q (r / 2) (omega (arith, pow-suc 2 k)),
)

-- `a & (2^k - 1)` is the remainder by `2^k`.
pub bit_and_mask : (k a : ℕ) → bit_and a (2 ^ k - 1) ≡ a % 2 ^ k
bit_and_mask k a = ground (arith, one-le-pow k 2, low_field k (a / 2 ^ k) (a % 2 ^ k))

pub bit_xor-lt : (k a b : ℕ) → a < 2 ^ k → b < 2 ^ k → bit_xor a b < 2 ^ k
bit_xor-lt zero zero zero p q = omega arith
bit_xor-lt zero zero (suc b) p q = absurd (omega arith)
bit_xor-lt zero (suc a) b p q = absurd (omega arith)
bit_xor-lt (suc k) a b p q = omega (
  arith,
  pow-suc 2 k,
  bit_xor_lowest a b,
  bit_xor-lt k (a / 2) (b / 2) (omega (arith, pow-suc 2 k)) (omega (arith, pow-suc 2 k)),
)

pub bit_or-lt : (k a b : ℕ) → a < 2 ^ k → b < 2 ^ k → bit_or a b < 2 ^ k
bit_or-lt zero zero zero p q = omega arith
bit_or-lt zero zero (suc b) p q = absurd (omega arith)
bit_or-lt zero (suc a) b p q = absurd (omega arith)
bit_or-lt (suc k) a b p q = omega (
  arith,
  pow-suc 2 k,
  bit_or_lowest a b,
  bit_or-lt k (a / 2) (b / 2) (omega (arith, pow-suc 2 k)) (omega (arith, pow-suc 2 k)),
)

bit_xor_cancel_below : (n a b : ℕ) → a ≤ n → b ≤ n → bit_xor (bit_xor a b) b ≡ a
bit_xor_cancel_below zero zero zero p q = refl
bit_xor_cancel_below zero zero (suc b) p q = absurd (omega arith)
bit_xor_cancel_below zero (suc a) b p q = absurd (omega arith)
bit_xor_cancel_below (suc n) a b p q = ground (
  arith,
  bit_xor_lowest a b,
  bit_xor_lowest (bit_xor a b) b,
  halved,
  bit_xor_cancel_below n (a / 2) (b / 2) (omega arith) (omega arith),
)
  where
    halved : bit_xor a b / 2 ≡ bit_xor (a / 2) (b / 2)
    halved = omega (arith, bit_xor_lowest a b)

-- Exclusive or by the same number twice changes nothing.
pub bit_xor_cancel : (a b : ℕ) → bit_xor (bit_xor a b) b ≡ a
bit_xor_cancel a b = bit_xor_cancel_below (a + b) a b (omega arith) (omega arith)

bit_xor_eq_below : (n a b : ℕ) → a ≤ n → b ≤ n → bit_xor a b ≡ 0 → a ≡ b
bit_xor_eq_below zero zero zero p q h = refl
bit_xor_eq_below zero zero (suc b) p q h = absurd (omega arith)
bit_xor_eq_below zero (suc a) b p q h = absurd (omega arith)
bit_xor_eq_below (suc n) a b p q h = omega (
  arith,
  bit_xor_lowest a b,
  bit_xor_eq_below n (a / 2) (b / 2) (omega arith) (omega arith)
      (omega (arith, bit_xor_lowest a b)),
)

bit_xor_same_below : (n a : ℕ) → a ≤ n → bit_xor a a ≡ 0
bit_xor_same_below n zero p = refl
bit_xor_same_below zero (suc a) p = absurd (omega arith)
bit_xor_same_below (suc n) (suc a) p =
    omega (arith, bit_xor_lowest (suc a) (suc a), bit_xor_same_below n (suc a / 2) (omega arith))

-- Exclusive or is 0 exactly at equal numbers.
pub bit_xor-eq-zero : (a b : ℕ) → bit_xor a b ≡ 0 → a ≡ b
bit_xor-eq-zero a b = bit_xor_eq_below (a + b) a b (omega arith) (omega arith)

pub bit_xor_same : (a : ℕ) → bit_xor a a ≡ 0
bit_xor_same a = bit_xor_same_below a a (omega arith)

bit_or_zero_below : (n a b : ℕ) → a ≤ n → b ≤ n → bit_or a b ≡ 0 → (a ≡ 0) × (b ≡ 0)
bit_or_zero_below zero zero zero p q h = (refl, refl)
bit_or_zero_below zero zero (suc b) p q h = absurd (omega arith)
bit_or_zero_below zero (suc a) b p q h = absurd (omega arith)
bit_or_zero_below (suc n) a b p q h = omega (
  arith,
  bit_or_lowest a b,
  bit_or_zero_below n (a / 2) (b / 2) (omega arith) (omega arith)
      (omega (arith, bit_or_lowest a b)),
)

-- `|` is 0 only where both numbers are.
pub bit_or-eq-zero : (a b : ℕ) → bit_or a b ≡ 0 → (a ≡ 0) × (b ≡ 0)
bit_or-eq-zero a b = bit_or_zero_below (a + b) a b (omega arith) (omega arith)

bit_xor-zero_below : (n a : ℕ) → a ≤ n → bit_xor a 0 ≡ a
bit_xor-zero_below n zero h = refl
bit_xor-zero_below zero (suc a) h = absurd (omega arith)
bit_xor-zero_below (suc n) (suc a) h =
    omega (arith, bit_xor_lowest (suc a) 0, bit_xor-zero_below n (suc a / 2) (omega arith))

pub bit_xor-zero : (a : ℕ) → bit_xor a 0 ≡ a
bit_xor-zero a = bit_xor-zero_below a a (omega arith)

-- Exclusive or with a mask of `k` bits leaves the higher bits alone.
pub bit_xor_fields :
    (k q r c : ℕ) → r < 2 ^ k → c < 2 ^ k → bit_xor (q <<< k + r) c ≡ q <<< k + bit_xor r c
bit_xor_fields zero q zero zero h i = ground (arith, bit_xor-zero (q * 1 + 0), bit_xor-zero 0)
bit_xor_fields zero q zero (suc c) h i = absurd (omega arith)
bit_xor_fields zero q (suc r) c h i = absurd (omega arith)
bit_xor_fields (suc k) q r c h i = ground (
  arith,
  bit_xor_lowest (q * 2 ^ suc k + r) c,
  bit_xor_lowest r c,
  scaled q k,
  pow-suc 2 k,
  bit_xor_fields k q (r / 2) (c / 2) (omega (arith, pow-suc 2 k)) (omega (arith, pow-suc 2 k)),
)

-- `r | (q << k)` is the same sum.
pub bit_or_fields_low :
    (width high low : ℕ) → low < 2 ^ width → bit_or low (high <<< width) ≡ high * 2 ^ width + low
bit_or_fields_low zero high zero small = ground (arith, bit_or_lowest 0 high, zero_left high)
  where
    zero_left : (n : ℕ) → bit_or 0 n ≡ n
    zero_left n = simp bit_or-bitwise (omega arith)
bit_or_fields_low zero high (suc low) small = absurd (omega arith)
bit_or_fields_low (suc width) high low small =
    let rest = bit_or_fields_low width high (low / 2) (omega (arith, pow-suc 2 width)) in
    ground
      (arith, bit_or_lowest low (high * 2 ^ suc width), scaled high width, pow-suc 2 width, rest)

-- A mask of high digits is a mask of what stands above the low ones.
pub bit_and_high :
    (width high low mask : ℕ)
    → low < 2 ^ width
    → bit_and (high <<< width + low) (mask <<< width) ≡ bit_and high mask <<< width
bit_and_high zero high low mask small =
    ground (arith, ap (λ (n : ℕ). bit_and n mask) (let e : high + low ≡ high = omega arith in e))
bit_and_high (suc width) high low mask small =
    let rest = bit_and_high width high (low / 2) mask (omega (arith, pow-suc 2 width)) in
    ground (
      arith,
      bit_and_lowest (high * 2 ^ suc width + low) (mask * 2 ^ suc width),
      scaled high width,
      scaled mask width,
      scaled (bit_and high mask) width,
      pow-suc 2 width,
      rest,
    )
