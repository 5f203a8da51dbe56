-- ===== src/Gnss/Ubx.antt =====
-- main/gnss_service.c: the UBX frames, as `ubx_write_frame` sends them and as the parser takes them
-- byte by byte. The parser's buffer is a list of 512 bytes.
pub mod Steps
pub mod RoundTrip
pub mod Bounds
mod Tests
use esp32p4_nts_time_server.Base.{
  ℕ, ◌+◌, ◌*◌, ◌/◌, ◌%◌, ◌^◌, Bool, true, false, not, ◌&&◌, Option, none, some, List, [], ◌∷◌, ◌++◌,
  length, take, set, u8, u16, u32, ltb, leb, ◌==◌, if◌then◌else◌, ◌<<<◌, ◌>>>◌, bit_or,
}
use esp32p4_nts_time_server.Base.Bytes.{byte_at, zeros}

unfoldable pub read_le_u16 : List ℕ → ℕ
read_le_u16 p = u16 (bit_or (byte_at p 0) (byte_at p 1 <<< 8))

unfoldable pub read_le_u32 : List ℕ → ℕ
read_le_u32 p =
    bit_or (bit_or (bit_or (byte_at p 0) (byte_at p 1 <<< 8)) (byte_at p 2 <<< 16))
      (u32 (byte_at p 3 <<< 24))

unfoldable pub write_le_u32 : ℕ → List ℕ
write_le_u32 value = u8 value ∷ u8 (value >>> 8) ∷ u8 (value >>> 16) ∷ u8 (value >>> 24) ∷ []

-- `ubx_parse_state_t`
pub data UbxParseState : Type 0 where
  wait_sync_1 wait_sync_2 wait_class wait_id wait_length_1 wait_length_2 wait_payload wait_ck_a
        wait_ck_b :
      UbxParseState

-- `ubx_parser_t`
pub record UbxParser : Type 0 where
  pub state : UbxParseState
  pub message_class : ℕ
  pub message_id : ℕ
  pub payload_length : ℕ
  pub payload_index : ℕ
  pub ck_a : ℕ
  pub ck_b : ℕ
  pub received_ck_a : ℕ
  pub received_ck_b : ℕ
  pub payload : List ℕ

abbrev pub max_payload_length : ℕ
max_payload_length = 512

unfoldable pub empty_payload : List ℕ
empty_payload = zeros max_payload_length

unfoldable pub ubx_parser_reset : UbxParser
ubx_parser_reset = record {
  state = wait_sync_1;
  message_class = 0;
  message_id = 0;
  payload_length = 0;
  payload_index = 0;
  ck_a = 0;
  ck_b = 0;
  received_ck_a = 0;
  received_ck_b = 0;
  payload = empty_payload;
}

unfoldable pub ubx_checksum_add : ℕ → UbxParser → UbxParser
ubx_checksum_add byte p =
    let sum = u8 (p.ck_a + byte) in record p { ck_a = sum; ck_b = u8 (p.ck_b + sum) }

-- What a byte makes of the service's state, next to the parser's own: the call of
-- `dispatch_ubx_frame`, or the counter that goes up.
pub data UbxOutcome : Type 0 where
  nothing invalid_length invalid_checksum : UbxOutcome
  dispatch : ℕ → ℕ → List ℕ → UbxOutcome

-- The second byte of the length.
unfoldable pub consume_length_2 : ℕ → UbxParser → UbxParser × UbxOutcome
consume_length_2 byte given =
    let p =
      ubx_checksum_add byte
        (record given { payload_length = bit_or given.payload_length (byte <<< 8) }) in
    if ltb max_payload_length p.payload_length then (ubx_parser_reset, invalid_length) else (
      record p {
        payload_index = 0;
        state = if p.payload_length == 0 then wait_ck_a else wait_payload;
      },
      nothing,
    )

unfoldable pub consume_payload : ℕ → UbxParser → UbxParser
consume_payload byte given =
    let p = ubx_checksum_add byte (record given {
      payload = set given.payload given.payload_index byte;
      payload_index = u16 (given.payload_index + 1);
    }) in
    if leb p.payload_length p.payload_index then record p { state = wait_ck_a } else p

-- The second byte of the checksum. A frame is handed on as the part of the buffer that it fills.
unfoldable pub consume_ck_b : ℕ → UbxParser → UbxOutcome
consume_ck_b byte p =
    if (p.received_ck_a == p.ck_a) && (byte == p.ck_b)
    then dispatch p.message_class p.message_id (take p.payload_length p.payload)
    else invalid_checksum

unfoldable pub ubx_parser_consume : ℕ → UbxParser → UbxParser × UbxOutcome
ubx_parser_consume byte p = elim p.state [
  | wait_sync_1 ↦ (if byte == 181 then record p { state = wait_sync_2 } else p, nothing)
  | wait_sync_2 ↦ (
    record p {
      state = if byte == 98 then wait_class else if byte == 181 then wait_sync_2 else wait_sync_1;
    },
    nothing,
  )
  | wait_class ↦ (
    record (ubx_checksum_add byte (record p { message_class = byte })) { state = wait_id },
    nothing,
  )
  | wait_id ↦ (
    record (ubx_checksum_add byte (record p { message_id = byte })) { state = wait_length_1 },
    nothing,
  )
  | wait_length_1 ↦ (
    record (ubx_checksum_add byte (record p { payload_length = byte })) { state = wait_length_2 },
    nothing,
  )
  | wait_length_2 ↦ consume_length_2 byte p
  | wait_payload ↦ (consume_payload byte p, nothing)
  | wait_ck_a ↦ (record p { received_ck_a = byte; state = wait_ck_b }, nothing)
  | wait_ck_b ↦ (ubx_parser_reset, consume_ck_b byte p)
]

-- The two sums over a run of bytes, from two given sums on.
unfoldable pub checksum : ℕ → ℕ → List ℕ → ℕ × ℕ
checksum a b [] = (a, b)
checksum a b (byte ∷ bytes) = let sum = u8 (a + byte) in checksum sum (u8 (b + sum)) bytes

-- The part of a frame that the checksum covers.
unfoldable pub ubx_body : ℕ → ℕ → List ℕ → List ℕ
ubx_body message_class message_id payload =
    message_class ∷ message_id ∷ u8 (length payload) ∷ u8 (length payload >>> 8) ∷ payload

-- The bytes that `ubx_write_frame` sends.
unfoldable pub ubx_frame : ℕ → ℕ → List ℕ → List ℕ
ubx_frame message_class message_id payload =
    let body = ubx_body message_class message_id payload in
    let sums = checksum 0 0 body in 181 ∷ 98 ∷ (body ++ sums.0 ∷ sums.1 ∷ [])

-- The parser on a run of bytes, with what it made of each.
unfoldable pub ubx_consume_all : List ℕ → UbxParser → UbxParser × List UbxOutcome
ubx_consume_all [] p = (p, [])
ubx_consume_all (byte ∷ bytes) p =
    let (next, outcome) = ubx_parser_consume byte p in
    let (last, outcomes) = ubx_consume_all bytes next in (last, outcome ∷ outcomes)
