-- ===== src/Nts/Auth.antt =====
-- main/nts_ntp_auth.c: the authentication of NTP packets by NTS extension fields. The critical
-- section makes each step of a counter one step of the state, and the static buffers are local to
-- a call. The cookies and AES-SIV are those of Cookie and AesSiv.
pub mod Fields
pub mod Shape
pub mod Verify
pub mod Counters
pub mod Response
mod Tests
use esp32p4_nts_time_server.Base.{
  ℕ, zero, suc, ◌+◌, ◌-◌, ◌*◌, ◌/◌, ◌%◌, List, [], ◌∷◌, ◌++◌, Bool, true, false, not, ◌&&◌, ◌||◌,
  Option, none, some, length, take, drop, ltb, leb, ◌==◌, if◌then◌else◌, u32, Result, ok, err,
  EspErr, Status, esp_ok, fail, invalid_arg, invalid_size, invalid_response, not_found,
  not_supported,
}
use esp32p4_nts_time_server.Base.Bytes.{zeros, read_be16, be16_bytes}
use esp32p4_nts_time_server.Nts.AesSiv.{Psa, decrypt}
use esp32p4_nts_time_server.Nts.Keyring.{Nvs, Memory}
use esp32p4_nts_time_server.Nts.Cookie.{CookieKeys, zero_keys, unpack}

abbrev pub ef_unique_identifier : ℕ
ef_unique_identifier = 0x0104

abbrev pub ef_cookie : ℕ
ef_cookie = 0x0204

abbrev pub ef_cookie_placeholder : ℕ
ef_cookie_placeholder = 0x0304

abbrev pub ef_authenticator : ℕ
ef_authenticator = 0x0404

-- `nts_ntp_auth_context_t`; the identifier is the bytes that its length covers.
pub record AuthContext : Type 0 where
  pub unique_id : List ℕ
  pub valid_placeholders : ℕ
  pub request_length : ℕ
  pub keys : CookieKeys
  pub authenticated : Bool

abbrev pub zero_context : AuthContext
zero_context = record {
  unique_id = [];
  valid_placeholders = 0;
  request_length = 0;
  keys = zero_keys;
  authenticated = false;
}

-- `nts_ntp_auth_stats_t`, the variable `s_stats`.
pub record AuthStats : Type 0 where
  pub verification_attempts : ℕ
  pub authenticated_requests : ℕ
  pub verification_failures : ℕ
  pub protected_responses : ℕ
  pub protection_failures : ℕ

-- The three steps of the counters of `nts_ntp_auth_verify_request`.
unfoldable pub count_verification : Status → AuthStats → AuthStats
count_verification (ok _) s = record s {
  verification_attempts = u32 (s.verification_attempts + 1);
  authenticated_requests = u32 (s.authenticated_requests + 1);
}
count_verification (err e) s = record s {
  verification_attempts = u32 (s.verification_attempts + 1);
  verification_failures = u32 (s.verification_failures + 1);
}

-- The two low bits of `value + 3` cleared.
abbrev pub round_up_4 : ℕ → ℕ
round_up_4 value = (value + 3) / 4 * 4

unfoldable pub is_nts_type : ℕ → Bool
is_nts_type field_type =
    field_type == ef_unique_identifier
    || field_type == ef_cookie
    || field_type == ef_cookie_placeholder
    || field_type == ef_authenticator

-- The test of a length field against the bytes that are left.
unfoldable pub bad_length : ℕ → ℕ → Bool
bad_length field_len left = ltb field_len 4 || not (field_len % 4 == 0) || ltb left field_len

-- The loop of `nts_ntp_auth_request_present` on the bytes from the offset on.
unfoldable pub present_from : ℕ → List ℕ → Bool
present_from zero rest = false
present_from (suc fuel) rest =
    let field_len = read_be16 (drop 2 rest) in
    let further = present_from fuel (drop field_len rest) in
    if ltb (length rest) 4
    then false
    else if is_nts_type (read_be16 rest)
    then true
    else if bad_length field_len (length rest)
    then false
    else further

unfoldable pub request_present : List ℕ → Bool
request_present packet =
    if leb (length packet) 48 then false else present_from (length packet) (drop 48 packet)

-- The local variables of the loop of `verify_request_impl`: the lengths of the placeholders, the
-- last first, and the authenticator with its offset.
pub record Seen : Type 0 where
  pub uid : Option (List ℕ)
  pub cookie : Option (List ℕ)
  pub placeholder_lengths : List ℕ
  pub auth : Option (ℕ × List ℕ)

abbrev pub nothing_seen : Seen
nothing_seen = record { uid = none; cookie = none; placeholder_lengths = []; auth = none }

-- The `switch` over the type of a field in front of the authenticator.
unfoldable pub switch_field : ℕ → List ℕ → ℕ → Seen → Result Seen
switch_field field_type body offset seen =
    if field_type == ef_unique_identifier
    then elim seen.uid [
      | some _ ↦ err invalid_response
      | none ↦
          if ltb (length body) 32 || ltb 256 (length body)
          then err invalid_response
          else ok (record seen { uid = some body })
    ]
    else if field_type == ef_cookie
    then elim seen.cookie [
      | some _ ↦ err invalid_response
      | none ↦
          if length body == 0 || ltb 256 (length body)
          then err invalid_response
          else ok (record seen { cookie = some body })
    ]
    else if field_type == ef_cookie_placeholder
    then ok (
        if ltb (length seen.placeholder_lengths) 7
        then record seen { placeholder_lengths = length body ∷ seen.placeholder_lengths }
        else seen)
    else if field_type == ef_authenticator
    then ok (record seen { auth = some (offset, body) })
    else ok seen

-- Behind the authenticator a field is only measured.
unfoldable pub see_field : ℕ → List ℕ → ℕ → Seen → Result Seen
see_field field_type body offset seen = elim seen.auth [
  | none ↦ switch_field field_type body offset seen
  | some _ ↦ ok seen
]

-- The loop of `verify_request_impl` on the bytes from `offset` on. ESP_FAIL stands for fuel that
-- has run out.
unfoldable pub walk : ℕ → List ℕ → ℕ → Seen → Result Seen
walk zero rest offset seen = err fail
walk (suc fuel) rest offset seen =
    let field_len = read_be16 (drop 2 rest) in
    let body = drop 4 (take field_len rest) in
    if length rest == 0
    then ok seen
    else if ltb (length rest) 4
    then err invalid_size
    else if bad_length field_len (length rest)
    then err invalid_size
    else elim (see_field (read_be16 rest) body offset seen) [
      | err e ↦ err e
      | ok next ↦ walk fuel (drop field_len rest) (offset + field_len) next
    ]

-- The loop over the placeholders.
unfoldable pub count_equal : ℕ → List ℕ → ℕ
count_equal n [] = 0
count_equal n (l ∷ ls) = let rest = count_equal n ls in if l == n then rest + 1 else rest

-- `append_extension` to the `offset` bytes of a packet with room for `capacity`.
unfoldable pub append_extension : ℕ → ℕ → List ℕ → List ℕ → Result (List ℕ)
append_extension capacity field_type body packet =
    let field_len = 4 + length body in
    if ltb 65535 field_len || not (field_len % 4 == 0) || ltb (capacity - length packet) field_len
    then err invalid_size
    else ok (packet ++ (be16_bytes field_type ++ (be16_bytes field_len ++ body)))

-- The parts of the authenticator that the code uses: the nonce and the ciphertext.
unfoldable pub split_authenticator : List ℕ → Result (List ℕ × List ℕ)
split_authenticator body =
    let nonce_len = read_be16 body in
    let ciphertext_len = read_be16 (drop 2 body) in
    if ltb (length body) 4
    then err invalid_size
    else if not (nonce_len == 16)
        || ltb ciphertext_len 16
        || ltb (length body) (4 + round_up_4 nonce_len + round_up_4 ciphertext_len)
    then err invalid_size
    else ok
        (take nonce_len (drop 4 body), take ciphertext_len (drop (4 + round_up_4 nonce_len) body))

module _ (nvs : Nvs) (psa : Psa) (random : ℕ → List ℕ) (clock clock' : Option ℕ) where
  -- The end of `verify_request_impl`, behind the unpacking of the cookie.
  unfoldable pub verify_authenticator :
      List ℕ → Seen → List ℕ → List ℕ → ℕ → List ℕ × List ℕ → CookieKeys → Status × AuthContext
  verify_authenticator packet seen uid cookie auth_offset (n, ciphertext) keys =
      let r =
        decrypt psa keys.c2s_key (take auth_offset packet) (some n) ciphertext (zeros 1280) 1280 in
      elim r.status [
        | err e ↦ (err e, zero_context)
        | ok _ ↦ if not (r.output_len == 0) then (err not_supported, zero_context) else (
          esp_ok,
          record {
            unique_id = uid;
            valid_placeholders = count_equal (length cookie) seen.placeholder_lengths;
            request_length = length packet;
            keys = keys;
            authenticated = true;
          },
        )
      ]

  -- Behind the loop, with a unique identifier, a cookie and an authenticator.
  unfoldable pub verify_found :
      List ℕ → Seen → List ℕ → List ℕ → ℕ → List ℕ → Memory nvs → Status × AuthContext × Memory nvs
  verify_found packet seen uid cookie auth_offset body m = elim (split_authenticator body) [
    | err e ↦ (err e, zero_context, m)
    | ok parts ↦
        let u = unpack nvs psa random clock clock' cookie zero_keys m in
        elim u.status [
          | err e ↦ (err e, zero_context, u.memory)
          | ok _ ↦
              let r = verify_authenticator packet seen uid cookie auth_offset parts u.keys in
              (r.0, r.1, u.memory)
        ]
  ]

  unfoldable pub verify_seen : List ℕ → Seen → Memory nvs → Status × AuthContext × Memory nvs
  verify_seen packet seen m = elim seen.uid [
    | none ↦ (err not_found, zero_context, m)
    | some uid ↦ elim seen.cookie [
      | none ↦ (err not_found, zero_context, m)
      | some cookie ↦ elim seen.auth [
        | none ↦ (err not_found, zero_context, m)
        | some (auth_offset, body) ↦ verify_found packet seen uid cookie auth_offset body m
      ]
    ]
  ]

  -- `verify_request_impl`; `context` is what the caller's context held.
  unfoldable pub verify_request_impl :
      List ℕ → AuthContext → Memory nvs → Status × AuthContext × Memory nvs
  verify_request_impl packet context m =
      if ltb (length packet) 48 || ltb 1280 (length packet)
      then (err invalid_arg, context, m)
      else elim (walk (length packet) (drop 48 packet) 48 nothing_seen) [
        | err e ↦ (err e, zero_context, m)
        | ok seen ↦ verify_seen packet seen m
      ]

  unfoldable pub verify_request :
      List ℕ
      → AuthContext
      → Memory nvs
      → AuthStats
      → (Status × AuthContext × Memory nvs) × AuthStats
  verify_request packet context m stats =
      let r = verify_request_impl packet context m in (r, count_verification r.0 stats)
