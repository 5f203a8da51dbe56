-- ===== src/Gnss/Ubx/Bounds.antt =====
-- main/gnss_service.c: the UBX parser stays in its buffer.
use esp32p4_nts_time_server.Base.{
  ℕ, ◌≤◌, ◌<◌, ◌≡◌, refl, ap, Bool, true, false, List, [], ◌∷◌, arith, length, length-set,
  length-replicate, length-take, All,
}
use esp32p4_nts_time_server.Gnss.Ubx.{
  UbxParser, UbxParseState, wait_sync_1, wait_sync_2, wait_class, wait_id, wait_length_1,
  wait_length_2, wait_payload, wait_ck_a, wait_ck_b, UbxOutcome, dispatch, max_payload_length,
  empty_payload, ubx_parser_reset, ubx_checksum_add, consume_length_2, consume_payload,
  consume_ck_b, ubx_parser_consume, ubx_consume_all,
}

-- Whether the length of the frame has been read and found to fit.
abbrev pub knows_length : UbxParseState → Bool
knows_length wait_payload = true
knows_length wait_ck_a = true
knows_length wait_ck_b = true
knows_length _ = false

-- The buffer has 512 bytes; the frame's length fits it once it is read; and a byte of the payload
-- is stored at an index below that length.
pub record IsBounded (p : UbxParser) : Type 0 where
  pub buffer_size : length p.payload ≡ max_payload_length
  pub length_fits : knows_length p.state ≡ true → p.payload_length ≤ max_payload_length
  pub index_in : p.state ≡ wait_payload → p.payload_index < p.payload_length

pub ubx_parser_reset-IsBounded : IsBounded ubx_parser_reset
unfolding ubx_parser_reset empty_payload
ubx_parser_reset-IsBounded =
    let size = length-replicate max_payload_length (let z : ℕ = 0 in z) in ground (arith, size)

consume_length_2-IsBounded :
    (byte : ℕ) (p : UbxParser) → IsBounded p → IsBounded (consume_length_2 byte p).0
unfolding consume_length_2 ubx_checksum_add
consume_length_2-IsBounded byte p h = ground (arith, h, ubx_parser_reset-IsBounded)

consume_payload-IsBounded :
    (byte : ℕ) (p : UbxParser)
    → p.state ≡ wait_payload
    → IsBounded p
    → IsBounded (consume_payload byte p)
unfolding consume_payload ubx_checksum_add
consume_payload-IsBounded byte p s h =
    let fits : p.payload_length ≤ max_payload_length = h.length_fits (ap knows_length s) in
    ground (arith, h, s, fits, h.index_in s, length-set p.payload p.payload_index byte)

-- At any byte, the parser stays in its buffer.
ubx_parser_consume-IsBounded :
    (byte : ℕ) (p : UbxParser) → IsBounded p → IsBounded (ubx_parser_consume byte p).0
unfolding ubx_parser_consume ubx_checksum_add
ubx_parser_consume-IsBounded byte p h = by_state p.state refl
  where
    by_state : (s : UbxParseState) → p.state ≡ s → IsBounded (ubx_parser_consume byte p).0
    by_state wait_sync_1 e = ground (arith, h, e)
    by_state wait_sync_2 e = ground (arith, h, e)
    by_state wait_class e = ground (arith, h, e)
    by_state wait_id e = ground (arith, h, e)
    by_state wait_length_1 e = ground (arith, h, e)
    by_state wait_length_2 e = ground (arith, e, consume_length_2-IsBounded byte p h)
    by_state wait_payload e = ground (arith, e, consume_payload-IsBounded byte p e h)
    by_state wait_ck_a e = ground (arith, h, e)
    by_state wait_ck_b e = ground (arith, h, e, ubx_parser_reset-IsBounded)

abbrev pub FitsBuffer : UbxOutcome → Type 0
FitsBuffer (dispatch message_class message_id payload) = length payload ≤ max_payload_length
FitsBuffer _ = Unit

consume_ck_b-FitsBuffer :
    (byte : ℕ) (p : UbxParser)
    → p.payload_length ≤ max_payload_length
    → FitsBuffer (consume_ck_b byte p)
unfolding consume_ck_b
consume_ck_b-FitsBuffer byte p fits = ground (arith, fits, length-take p.payload_length p.payload)

consume_length_2-FitsBuffer : (byte : ℕ) (p : UbxParser) → FitsBuffer (consume_length_2 byte p).1
unfolding consume_length_2
consume_length_2-FitsBuffer byte p = ground arith

ubx_parser_consume-FitsBuffer :
    (byte : ℕ) (p : UbxParser) → IsBounded p → FitsBuffer (ubx_parser_consume byte p).1
unfolding ubx_parser_consume
ubx_parser_consume-FitsBuffer byte p h = by_state p.state h.length_fits
  where
    by_state :
        (s : UbxParseState)
        → (knows_length s ≡ true → p.payload_length ≤ max_payload_length)
        → FitsBuffer (ubx_parser_consume byte (record p { state = s })).1
    by_state wait_length_2 fits = consume_length_2-FitsBuffer byte _
    by_state wait_ck_b fits = consume_ck_b-FitsBuffer byte _ (fits refl)
    by_state _ fits = tt

-- Whatever bytes come, the parser stays in its buffer of 512 bytes, stores each byte of a payload
-- below the length that the frame gives, and hands on no payload that is longer than the buffer.
pub ubx_consume_all-IsBounded :
    (bytes : List ℕ) (p : UbxParser)
    → IsBounded p
    → IsBounded (ubx_consume_all bytes p).0 × All FitsBuffer (ubx_consume_all bytes p).1
unfolding ubx_consume_all
ubx_consume_all-IsBounded [] p h = (h, tt)
ubx_consume_all-IsBounded (byte ∷ bytes) p h =
    let rest =
      ubx_consume_all-IsBounded bytes (ubx_parser_consume byte p).0
        (ubx_parser_consume-IsBounded byte p h) in
    (rest.0, (ubx_parser_consume-FitsBuffer byte p h, rest.1))
