-- ===== src/Nts/AesSiv/Blocks.antt =====
-- `dbl_block` is the doubling of the 128-bit field that CMAC and S2V work in.
use native.Mathlib.Nat.{pow-suc}
use esp32p4_nts_time_server.Base.{
  ℕ, zero, suc, ◌+◌, ◌-◌, ◌*◌, ◌/◌, ◌^◌, ◌<◌, ◌≤◌, ◌≡◌, ap, ◌∙◌, List, [], ◌∷◌, length, take, set,
  ltb, if◌then◌else◌, arith, bit_xor, bit_or, bit_and, u8, ◌<<<◌, ◌>>>◌, take_all, length-set,
  All-set, Bool-cases, inl, inr, ◌==◌,
}
use esp32p4_nts_time_server.Base.Bits.{bit_or_fields, bit_and_mask, bit_xor_fields, bit_xor-lt}
use esp32p4_nts_time_server.Base.Bytes.{IsByte, IsBytes, byte_at, byte_at-lt}
use esp32p4_nts_time_server.Nts.AesSiv.{shift_left, dbl_block}

-- The number that a byte string stands for, the most significant byte first.
abbrev pub be_value : List ℕ → ℕ
be_value [] = 0
be_value (b ∷ bs) = b * 256 ^ length bs + be_value bs

-- Doubling modulo x^128 + x^7 + x^2 + x + 1, on the coefficients as binary digits.
pub gf_double : ℕ → ℕ
gf_double v = if ltb v (2 ^ 127) then 2 * v else bit_xor (2 * v - 2 ^ 128) 0x87

shifted_byte :
    (b c : ℕ)
    → b < 256
    → c < 2
    → u8 (bit_and (b >>> 7) 0x01) * 256 + u8 (bit_or (b <<< 1) c) ≡ 2 * b + c
shifted_byte b c hb hc = ground (arith, bit_or_fields 1 b c, bit_and_mask 1 (b / 128))

record Shifted (bs out : List ℕ) (carry : ℕ) : Type 0 where
  same_length : length out ≡ length bs
  bytes : IsBytes out
  digit : carry < 2
  value : carry * 256 ^ length bs + be_value out ≡ 2 * be_value bs

shift_left-Shifted : (bs : List ℕ) → IsBytes bs → Shifted bs (shift_left bs).0 (shift_left bs).1
unfolding shift_left
shift_left-Shifted [] h = omega arith
shift_left-Shifted (b ∷ bs) h =
    let rest = shift_left-Shifted bs h.1 in
    let carry = (shift_left bs).1 in
    let step = shifted_byte b carry h.0 rest.digit in
    record {
      same_length = ap suc rest.same_length;
      bytes = (omega arith, rest.bytes);
      digit = omega (arith, bit_and_mask 1 (b / 128));
      value = omega (
        arith,
        ap (λ (t : ℕ). t * 256 ^ length bs) step,
        ap (λ (t : ℕ). u8 (bit_and (b >>> 7) 0x01) * t) (pow-suc 256 (length bs)),
        ap (λ (k : ℕ). u8 (bit_or (b <<< 1) carry) * 256 ^ k) rest.same_length,
        rest.value,
      );
    }

-- A byte string stands for a number of its width.
pub be_value-lt : (bs : List ℕ) → IsBytes bs → be_value bs < 256 ^ length bs
be_value-lt [] h = omega arith
be_value-lt (b ∷ bs) h = grind (arith, pow-suc 256 (length bs), be_value-lt bs h.1)

-- The last of `n + 1` bytes is the low digit.
last_digit :
    (n : ℕ) (bs : List ℕ) (v : ℕ)
    → length bs ≡ suc n
    → (q : ℕ) × (be_value bs ≡ q * 256 + byte_at bs n) × (be_value (set bs n v) ≡ q * 256 + v)
last_digit n [] v h = absurd (omega arith)
last_digit zero (b ∷ []) v h = (0, omega arith, omega arith)
last_digit zero (b ∷ c ∷ bs) v h = absurd (omega arith)
last_digit (suc n) (b ∷ bs) v h =
    let (q, e, f) = last_digit n bs v (omega arith) in
    let same : length bs ≡ suc n = omega arith in
    let top = ap (λ (k : ℕ). b * 256 ^ k) same in
    let top' = ap (λ (k : ℕ). b * 256 ^ k) (length-set bs n v ∙ same) in
    let power = ap (λ (t : ℕ). b * t) (pow-suc 256 n) in
    (b * 256 ^ n + q, omega (arith, top, power), omega (arith, top', power))

-- On 16 bytes `dbl_block` gives 16 bytes, which stand for the double of the number that the
-- input stands for.
pub dbl_block-doubles :
    (block : List ℕ)
    → IsBytes block
    → length block ≡ 16
    → IsBytes (dbl_block block)
      × (length (dbl_block block) ≡ 16)
      × (be_value (dbl_block block) ≡ gf_double (be_value block))
unfolding dbl_block gf_double
dbl_block-doubles block h l =
    let s : Shifted block (shift_left (take 16 block)).0 (shift_left (take 16 block)).1 =
      rw (take_all 16 block (omega arith)) (shift_left-Shifted block h) in
    let out = (shift_left (take 16 block)).0 in
    let carry = (shift_left (take 16 block)).1 in
    let v = bit_xor (byte_at out 15) 0x87 in
    let wide : length out ≡ 16 = omega (arith, s.same_length) in
    let small = bit_xor-lt 8 (byte_at out 15) 0x87 (byte_at-lt out 15 s.bytes) (omega arith) in
    let (q, e, f) = last_digit 15 out v wide in
    let fields =
      bit_xor_fields 8 q (byte_at out 15) 0x87 (byte_at-lt out 15 s.bytes) (omega arith) in
    let power = ap (λ (k : ℕ). carry * 256 ^ k) l in
    let below = be_value-lt out s.bytes in
    let width = ap (λ (k : ℕ). 256 ^ k) wide in
    elim (Bool-cases (carry == 0)) [
      | inl no_carry ↦
          let d : dbl_block block ≡ out = ground arith in
          let twice : be_value out ≡ 2 * be_value block = ground (arith, s.value, power) in
          let low : be_value block < 2 ^ 127 = omega (arith, twice, below, width) in
          rw d (s.bytes, wide, ground (arith, twice, low))
      | inr with_carry ↦
          let d : dbl_block block ≡ set out 15 v = ground arith in
          let one : carry ≡ 1 = ground (arith, s.digit) in
          let twice : be_value out + 2 ^ 128 ≡ 2 * be_value block =
            omega (arith, s.value, power, one) in
          let high : 2 ^ 127 ≤ be_value block = omega (arith, twice) in
          let cut : 2 * be_value block - 2 ^ 128 ≡ q <<< 8 + byte_at out 15 =
            omega (arith, twice, e) in
          rw d (
            All-set IsByte out 15 v s.bytes small,
            length-set out 15 v ∙ wide,
            ground (arith, high, ap (λ (t : ℕ). bit_xor t 0x87) cut, fields, f),
          )
    ]
