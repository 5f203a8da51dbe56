-- ===== src/Nts/Ke/Records.antt =====
-- Records as they lie one after the other: what is appended, and what the loop of the parser takes.
use esp32p4_nts_time_server.Base.{
  ℕ, suc, ◌+◌, ◌-◌, ◌^◌, ◌<◌, ◌≤◌, ◌≡◌, refl, List, [], ◌∷◌, ◌++◌, Bool, true, false, not, length,
  take, drop, ◌==◌, arith, bit_and, ok, err, Status, esp_ok, length-append, take_prefix,
  drop_prefix, if◌then◌else◌,
}
use esp32p4_nts_time_server.Base.Bits.{bit_and_mask, bit_or_fields_low, bit_and_high}
use esp32p4_nts_time_server.Base.Bytes.{read_be16, be16_bytes, read_be16-bytes}
use esp32p4_nts_time_server.Nts.Ke.{
  wire_type_of, append_record, RequestState, take_record, parse_from,
}

pub record KeRecord : Type 0 where
  pub kind : ℕ
  pub critical : Bool
  pub body : List ℕ

abbrev pub encode_record : KeRecord → List ℕ
encode_record r =
    be16_bytes (wire_type_of r.kind r.critical) ++ (be16_bytes (length r.body) ++ r.body)

abbrev pub encode : List KeRecord → List ℕ
encode [] = []
encode (r ∷ rs) = encode_record r ++ encode rs

-- The type fits 15 bits, and the length of the body 16.
abbrev pub RecordFits : KeRecord → Type 0
RecordFits r = (r.kind < 2 ^ 15) × (length r.body < 2 ^ 16)

-- The wire type keeps the type and the critical bit apart.
wire_type-sum :
    (t : ℕ) (c : Bool) → t < 2 ^ 15 → wire_type_of t c ≡ (elim c [ true ↦ 32768 | false ↦ 0 ]) + t
unfolding wire_type_of
wire_type-sum t true h = ground (arith, bit_and_mask 15 t, bit_or_fields_low 15 1 t)
wire_type-sum t false h = ground (arith, bit_and_mask 15 t)

pub wire_type_parts :
    (t : ℕ) (c : Bool)
    → t < 2 ^ 15
    → (wire_type_of t c < 2 ^ 16)
      × (bit_and (wire_type_of t c) 0x7FFF ≡ t)
      × (not (bit_and (wire_type_of t c) 0x8000 == 0) ≡ c)
wire_type_parts t true h = rw (wire_type-sum t true h) (
  omega arith,
  omega (arith, bit_and_mask 15 (32768 + t)),
  ground (arith, bit_and_high 15 1 t 1 h),
)
wire_type_parts t false h =
    rw (wire_type-sum t false h)
      (omega arith, omega (arith, bit_and_mask 15 (0 + t)), ground (arith, bit_and_high 15 0 t 1 h))

-- A record that fits the buffer stands behind the others.
pub append_record-encode_record :
    (buffer_size : ℕ) (r : KeRecord) (used : List ℕ)
    → RecordFits r
    → length used + (4 + length r.body) ≤ buffer_size
    → append_record buffer_size r.kind r.critical r.body used ≡ ok (used ++ encode_record r)
unfolding append_record
append_record-encode_record buffer_size r used fits room = ground (arith, fits)

pub length-encode_record : (r : KeRecord) → length (encode_record r) ≡ 4 + length r.body
unfolding be16_bytes
length-encode_record r = omega arith

-- What the parser does behind a record.
unfoldable pub after_record : ℕ → List ℕ → Status × RequestState → Status × RequestState
after_record fuel tail (err e, next) = (err e, next)
after_record fuel tail (ok _, next) =
    if next.end_seen then (esp_ok, next) else parse_from fuel tail next

-- One round of the parser, by the parts that it reads.
parse_step :
    (fuel t n : ℕ) (c : Bool) (bytes body tail : List ℕ) (state : RequestState)
    → 4 + n ≤ length bytes
    → bit_and (read_be16 bytes) 0x7FFF ≡ t
    → not (bit_and (read_be16 bytes) 0x8000 == 0) ≡ c
    → read_be16 (drop 2 bytes) ≡ n
    → take n (drop 4 bytes) ≡ body
    → drop n (drop 4 bytes) ≡ tail
    → length tail ≡ length (drop 4 bytes) - n
    → length (drop 4 bytes) ≡ length bytes - 4
    → parse_from (suc fuel) bytes state
      ≡ after_record fuel tail (take_record t c body (length tail) state)
unfolding parse_from after_record
parse_step fuel t n c bytes body tail state long et ec en eb el left four =
    ground (arith, et, ec, en, eb, el, left, four)

-- A record in front of others: what the parser reads of it, and what is behind it.
record_parts :
    (r : KeRecord) (rest : List ℕ)
    → RecordFits r
    → (read_be16 (encode_record r ++ rest) ≡ wire_type_of r.kind r.critical)
      × (read_be16 (drop 2 (encode_record r ++ rest)) ≡ length r.body)
      × (drop 4 (encode_record r ++ rest) ≡ r.body ++ rest)
unfolding be16_bytes
record_parts r rest fits =
    let wire = wire_type_of r.kind r.critical in
    let (small, _, _) = wire_type_parts r.kind r.critical fits.0 in
    (
      read_be16-bytes wire (be16_bytes (length r.body) ++ (r.body ++ rest)) small,
      read_be16-bytes (length r.body) (r.body ++ rest) fits.1,
      refl,
    )

-- The parser takes the first of the records, with the length of the others for what is left.
pub parse_from-next :
    (fuel : ℕ) (r : KeRecord) (rest : List ℕ) (state : RequestState)
    → RecordFits r
    → parse_from (suc fuel) (encode_record r ++ rest) state
      ≡ after_record fuel rest (take_record r.kind r.critical r.body (length rest) state)
parse_from-next fuel r rest state fits =
    let parts = record_parts r rest fits in
    let wire = wire_type_parts r.kind r.critical fits.0 in
    parse_step fuel r.kind (length r.body) r.critical (encode_record r ++ rest) r.body rest state
      (omega (arith, length-append (encode_record r) rest, length-encode_record r))
      (rw parts.0 wire.1) (rw parts.0 wire.2) parts.1
      (rw parts.2 (take_prefix (length r.body) r.body rest refl))
      (rw parts.2 (drop_prefix (length r.body) r.body rest refl))
      (rw parts.2 (omega (arith, length-append r.body rest)))
      (rw parts.2 (
        omega (
          arith,
          length-append r.body rest,
          length-append (encode_record r) rest,
          length-encode_record r,
        )))
