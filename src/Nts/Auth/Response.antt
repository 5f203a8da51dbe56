-- ===== src/Nts/Auth/Response.antt =====
-- main/nts_ntp_auth.c: the protection of responses. The packet is the list of the bytes that
-- `offset` covers; what a refused call has written behind them is sent by nobody, and is not part
-- of the result. The counters are those of Auth.
pub mod Bounds
pub mod Trip
pub mod Opens
mod Tests
use esp32p4_nts_time_server.Base.{
  ℕ, zero, suc, ◌+◌, ◌-◌, ◌*◌, List, [], ◌∷◌, ◌++◌, Bool, true, false, not, ◌||◌, Option, none,
  some, length, take, drop, ltb, leb, ◌==◌, if◌then◌else◌, u16, u32, Result, ok, err, EspErr,
  Status, esp_ok, invalid_arg, invalid_size,
}
use esp32p4_nts_time_server.Base.Bytes.{zeros, be16_bytes}
use esp32p4_nts_time_server.Nts.AesSiv.{Psa, encrypt}
use esp32p4_nts_time_server.Nts.Keyring.{Nvs, Memory}
use esp32p4_nts_time_server.Nts.Cookie.{CookieKeys, Draws, create}
use esp32p4_nts_time_server.Nts.Auth.{
  AuthContext, AuthStats, append_extension, round_up_4, ef_unique_identifier, ef_cookie,
  ef_authenticator,
}

-- One cookie, and one for each placeholder, but not more than eight.
unfoldable pub cookie_count : ℕ → ℕ
cookie_count valid_placeholders =
    let count = u16 (1 + valid_placeholders) in if ltb 8 count then 8 else count

-- The body of the authenticator: two lengths, the nonce and the ciphertext, padded with zeros.
unfoldable pub authenticator_body : List ℕ → List ℕ → List ℕ
authenticator_body n ciphertext =
    be16_bytes (length n)
    ++ (be16_bytes (u16 (length ciphertext))
        ++ (n ++ (ciphertext ++ zeros (round_up_4 (length ciphertext) - length ciphertext))))

-- The end of `protect_response_impl`, from the authenticator on, and the rule against
-- amplification.
unfoldable pub append_authenticator : ℕ → ℕ → List ℕ → List ℕ → Result (List ℕ)
append_authenticator capacity request_length body packet =
    if ltb 1280 (length body)
    then err invalid_size
    else elim (append_extension capacity ef_authenticator body packet) [
      | err e ↦ err e
      | ok response ↦ if ltb request_length (length response) then err invalid_size else ok response
    ]

module _ (nvs : Nvs) (psa : Psa) (draws : Draws) where
  -- The loop over `n` more cookies, the next one of index `i`.
  unfoldable pub append_cookies :
      CookieKeys → ℕ → ℕ → List ℕ → Memory nvs → Result (List ℕ) × Memory nvs
  append_cookies keys zero i plaintext m = (ok plaintext, m)
  append_cookies keys (suc n) i plaintext m =
      let c =
        create nvs psa (draws.rotation i) (draws.nonce i) (draws.clock i) keys (zeros 256) 256 m in
      elim c.status [
        | err e ↦ (err e, c.memory)
        | ok _ ↦ elim (append_extension 1280 ef_cookie (take c.cookie_len c.cookie) plaintext) [
          | err e ↦ (err e, c.memory)
          | ok longer ↦ append_cookies keys n (i + 1) longer c.memory
        ]
      ]

  -- The encryption of the cookies under the packet so far, and the authenticator.
  unfoldable pub seal_response : AuthContext → List ℕ → ℕ → List ℕ → List ℕ → Result (List ℕ)
  seal_response context nonce_bytes capacity packet plaintext =
      let r =
        encrypt psa context.keys.s2c_key packet (some nonce_bytes) plaintext (zeros 1280) 1280 in
      elim r.status [
        | err e ↦ err e
        | ok _ ↦
            append_authenticator capacity context.request_length
              (authenticator_body nonce_bytes (take r.output_len r.output)) packet
      ]

  unfoldable pub protect_response_impl :
      AuthContext → List ℕ → List ℕ → ℕ → Memory nvs → Result (List ℕ) × Memory nvs
  protect_response_impl context nonce_bytes packet capacity m =
      if not context.authenticated
        || not (length packet == 48)
        || ltb capacity (length packet)
        || ltb 1280 capacity
      then (err invalid_arg, m)
      else elim (append_extension capacity ef_unique_identifier context.unique_id packet) [
        | err e ↦ (err e, m)
        | ok named ↦
            let (cookies, m') =
              append_cookies context.keys (cookie_count context.valid_placeholders) 0 [] m in
            elim cookies [
              | err e ↦ (err e, m')
              | ok plaintext ↦ (seal_response context nonce_bytes capacity named plaintext, m')
            ]
      ]

-- The two outcomes that `nts_ntp_auth_protect_response` counts.
unfoldable pub count_protection : Result (List ℕ) → AuthStats → AuthStats
count_protection (ok _) s = record s { protected_responses = u32 (s.protected_responses + 1) }
count_protection (err e) s = record s { protection_failures = u32 (s.protection_failures + 1) }
