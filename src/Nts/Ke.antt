-- ===== src/Nts/Ke.antt =====
-- main/nts_ke.c: the records of the key exchange, the parsing of a request and the building of a
-- response. A buffer with its length is the list of the bytes that the length covers.
pub mod Records
pub mod Parse
pub mod Response
pub mod Session
use esp32p4_nts_time_server.Base.{
  ℕ, zero, suc, ◌+◌, ◌-◌, ◌*◌, ◌%◌, List, [], ◌∷◌, ◌++◌, Bool, true, false, not, ◌&&◌, ◌||◌, Option,
  none, some, length, take, drop, ltb, leb, ◌==◌, if◌then◌else◌, u16, bit_and, bit_or, Result, ok,
  err, EspErr, Status, esp_ok, fail, invalid_arg, invalid_size, invalid_response, not_supported,
}
use esp32p4_nts_time_server.Base.Bytes.{zeros, read_be16, be16_bytes}
use esp32p4_nts_time_server.Nts.AesSiv.{Psa}
use esp32p4_nts_time_server.Nts.Keyring.{Nvs, Memory}
use esp32p4_nts_time_server.Nts.Cookie.{CookieKeys, Draws, zero_keys, create, generate_keys}

abbrev pub record_end_of_message : ℕ
record_end_of_message = 0

abbrev pub record_next_protocol : ℕ
record_next_protocol = 1

abbrev pub record_error : ℕ
record_error = 2

abbrev pub record_warning : ℕ
record_warning = 3

abbrev pub record_aead_algorithm : ℕ
record_aead_algorithm = 4

abbrev pub record_new_cookie : ℕ
record_new_cookie = 5

abbrev pub record_ntp_server : ℕ
record_ntp_server = 6

abbrev pub record_ntp_port : ℕ
record_ntp_port = 7

abbrev pub error_unrecognized_critical : ℕ
error_unrecognized_critical = 0

abbrev pub error_bad_request : ℕ
error_bad_request = 1

abbrev pub error_internal_server : ℕ
error_internal_server = 2

-- The type of a record with its critical bit.
unfoldable pub wire_type_of : ℕ → Bool → ℕ
wire_type_of record_type critical =
    let wire_type = u16 (bit_and record_type 0x7FFF) in
    if critical then bit_or wire_type 0x8000 else wire_type

-- `append_record` to the bytes that `used` counts, in a buffer of `buffer_size`.
unfoldable pub append_record : ℕ → ℕ → Bool → List ℕ → List ℕ → Result (List ℕ)
append_record buffer_size record_type critical body used =
    if ltb 65535 (length body)
    then err invalid_arg
    else if ltb buffer_size (length used) || ltb (buffer_size - length used) (length body + 4)
    then err invalid_size
    else ok (
        used
        ++ (be16_bytes (wire_type_of record_type critical) ++ (be16_bytes (length body) ++ body)))

-- The loop of `list_contains_u16` over pairs of bytes.
unfoldable pub pairs_contain : List ℕ → ℕ → Bool
pairs_contain [] wanted = false
pairs_contain (a ∷ []) wanted = false
pairs_contain (a ∷ b ∷ rest) wanted =
    let further = pairs_contain rest wanted in
    if read_be16 (a ∷ b ∷ []) == wanted then true else further

unfoldable pub list_contains_u16 : List ℕ → ℕ → Bool
list_contains_u16 body wanted =
    if length body == 0 || not (length body % 2 == 0) then false else pairs_contain body wanted

-- `nts_ke_request_state_t`
pub record RequestState : Type 0 where
  pub next_protocol_seen : Bool
  pub aead_seen : Bool
  pub end_seen : Bool
  pub ntpv4_offered : Bool
  pub aes_siv_offered : Bool
  pub protocol_error : ℕ

abbrev pub zero_state : RequestState
zero_state = record {
  next_protocol_seen = false;
  aead_seen = false;
  end_seen = false;
  ntpv4_offered = false;
  aes_siv_offered = false;
  protocol_error = 0;
}

abbrev pub bad_request : RequestState → Status × RequestState
bad_request state = (err invalid_response, record state { protocol_error = error_bad_request })

-- The `switch` of `parse_request` over the type of a record; `left` counts the bytes behind it.
unfoldable pub take_record : ℕ → Bool → List ℕ → ℕ → RequestState → Status × RequestState
take_record record_type critical body left state =
    if record_type == record_end_of_message
    then (if not critical || not (length body == 0) || state.end_seen
        then bad_request state
        else if not (left == 0)
        then bad_request (record state { end_seen = true })
        else (esp_ok, record state { end_seen = true }))
    else if record_type == record_next_protocol
    then (if not critical
          || state.next_protocol_seen
          || length body == 0
          || not (length body % 2 == 0)
        then bad_request state
        else (
          esp_ok,
          record state { next_protocol_seen = true; ntpv4_offered = list_contains_u16 body 0 },
        ))
    else if record_type == record_aead_algorithm
    then (if state.aead_seen || length body == 0 || not (length body % 2 == 0)
        then bad_request state
        else (
          esp_ok,
          record state { aead_seen = true; aes_siv_offered = list_contains_u16 body 15 },
        ))
    else if record_type == record_error || record_type == record_warning
    then bad_request state
    else if record_type == record_ntp_server
    then (if length body == 0 then bad_request state else (esp_ok, state))
    else if record_type == record_ntp_port
    then (if not (length body == 2) then bad_request state else (esp_ok, state))
    else if critical
    then (err not_supported, record state { protocol_error = error_unrecognized_critical })
    else (esp_ok, state)

-- The loop of `parse_request` on the bytes from the offset on. ESP_FAIL stands for fuel that has
-- run out.
unfoldable pub parse_from : ℕ → List ℕ → RequestState → Status × RequestState
parse_from zero rest state = (err fail, state)
parse_from (suc fuel) rest state =
    let wire_type = read_be16 rest in
    let body_len = read_be16 (drop 2 rest) in
    let after = drop 4 rest in
    let left = length after - body_len in
    if ltb (length rest) 4
    then (esp_ok, state)
    else if ltb (length after) body_len
    then bad_request state
    else let (status, next) =
        take_record (bit_and wire_type 0x7FFF) (not (bit_and wire_type 0x8000 == 0))
          (take body_len after) left state in
      elim status [
        | err e ↦ (err e, next)
        | ok _ ↦ elim next.end_seen [
          | true ↦ (esp_ok, next)
          | false ↦ parse_from fuel (drop body_len after) next
        ]
      ]

-- The last test of `parse_request`.
unfoldable pub incomplete : RequestState → Bool
incomplete state =
    not state.end_seen
    || not state.next_protocol_seen
    || not state.ntpv4_offered
    || not state.aead_seen
    || not state.aes_siv_offered

unfoldable pub parse_request : List ℕ → Status × RequestState
parse_request request =
    let (status, state) = parse_from (length request + 1) request zero_state in
    elim status [
      | err e ↦ (err e, state)
      | ok _ ↦ if incomplete state then bad_request state else (esp_ok, state)
    ]

-- The two calls of `append_record` of `build_error_response`. What is left in the buffer where
-- the second one fails is the first record.
unfoldable pub build_error_response : ℕ → ℕ → Status × List ℕ
build_error_response error_code response_size =
    elim (append_record response_size record_error true (be16_bytes error_code) []) [
      | err e ↦ (err e, [])
      | ok one ↦ elim (append_record response_size record_end_of_message true [] one) [
        | err e ↦ (err e, one)
        | ok both ↦ (esp_ok, both)
      ]
    ]
