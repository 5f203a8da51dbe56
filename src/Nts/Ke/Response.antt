-- ===== src/Nts/Ke/Response.antt =====
-- main/nts_ke.c: the response that carries the cookies. The exporter of the TLS session is the
-- parameter `exporter`: what it answers for a label and a context, or nothing where it fails.
pub mod Issue
pub mod Carried
mod Tests
use esp32p4_nts_time_server.Base.{
  ℕ, zero, suc, ◌+◌, List, [], ◌∷◌, ◌++◌, Bool, true, false, Option, none, some, length, take,
  Result, ok, err, EspErr, Status, esp_ok, fail,
}
use esp32p4_nts_time_server.Base.Bytes.{zeros}
use esp32p4_nts_time_server.Nts.AesSiv.{Psa}
use esp32p4_nts_time_server.Nts.Keyring.{Nvs, Memory}
use esp32p4_nts_time_server.Nts.Cookie.{CookieKeys, Draws, zero_keys, create, generate_keys}
use esp32p4_nts_time_server.Nts.Ke.{
  append_record, record_end_of_message, record_next_protocol, record_aead_algorithm,
  record_new_cookie,
}

-- "EXPORTER-network-time-security"
abbrev pub exporter_label : List ℕ
exporter_label =
    69 ∷ 88 ∷ 80 ∷ 79 ∷ 82 ∷ 84 ∷ 69 ∷ 82 ∷ 45 ∷ 110 ∷ 101 ∷ 116 ∷ 119 ∷ 111 ∷ 114 ∷ 107 ∷ 45 ∷ 116
    ∷ 105 ∷ 109 ∷ 101 ∷ 45 ∷ 115 ∷ 101 ∷ 99 ∷ 117 ∷ 114 ∷ 105 ∷ 116 ∷ 121 ∷ []

abbrev pub c2s_context : List ℕ
c2s_context = 0 ∷ 0 ∷ 0 ∷ 15 ∷ 0 ∷ []

abbrev pub s2c_context : List ℕ
s2c_context = 0 ∷ 0 ∷ 0 ∷ 15 ∷ 1 ∷ []

abbrev pub Exporter : Type 0
Exporter = List ℕ → List ℕ → Option (List ℕ)

unfoldable pub export_traffic_keys : Exporter → Status × CookieKeys
export_traffic_keys exporter = elim (exporter exporter_label c2s_context) [
  | none ↦ (err fail, zero_keys)
  | some c2s ↦ elim (exporter exporter_label s2c_context) [
    | none ↦ (err fail, zero_keys)
    | some s2c ↦ (esp_ok, record zero_keys { c2s_key = c2s; s2c_key = s2c })
  ]
]

-- What a response takes from outside: the random bytes and the times of the two calls for the
-- keys' metadata, and those of the cookies.
pub record ResponseDraws : Type 0 where
  pub rotation : ℕ → List ℕ
  pub c2s : List ℕ
  pub s2c : List ℕ
  pub clock : Option ℕ
  pub clock_again : Option ℕ
  pub cookies : Draws

abbrev pub cookie_lifetime_seconds : ℕ
cookie_lifetime_seconds = 86_400

module _ (nvs : Nvs) (psa : Psa) (draws : ResponseDraws) where
  -- The loop over the cookies: `n` are left, the next one has the index `i`, and `used` is what
  -- the response holds.
  unfoldable pub issue_cookies :
      ℕ → CookieKeys → ℕ → ℕ → List ℕ → Memory nvs → (Status × List ℕ) × Memory nvs
  issue_cookies size keys zero i used m = ((esp_ok, used), m)
  issue_cookies size keys (suc n) i used m =
      let made =
        create nvs psa (draws.cookies.rotation i) (draws.cookies.nonce i) (draws.cookies.clock i)
          keys (zeros 256) 256 m in
      elim made.status [
        | err e ↦ ((err e, used), made.memory)
        | ok _ ↦
            elim (append_record size record_new_cookie false (take made.cookie_len made.cookie)
              used) [
                | err e ↦ ((err e, used), made.memory)
                | ok more ↦ issue_cookies size keys n (i + 1) more made.memory
              ]
      ]

  -- The end of `build_success_response`, from the first record on, for the keys of the client.
  unfoldable pub issue_response : ℕ → CookieKeys → Memory nvs → (Status × List ℕ) × Memory nvs
  issue_response size keys m = elim (append_record size record_next_protocol true (0 ∷ 0 ∷ []) []) [
    | err e ↦ ((err e, []), m)
    | ok one ↦ elim (append_record size record_aead_algorithm false (0 ∷ 15 ∷ []) one) [
      | err e ↦ ((err e, one), m)
      | ok two ↦
          let ((status, used), m') = issue_cookies size keys 8 0 two m in
          elim status [
            | err e ↦ ((err e, used), m')
            | ok _ ↦ elim (append_record size record_end_of_message true [] used) [
              | err e ↦ ((err e, used), m')
              | ok whole ↦ ((esp_ok, whole), m')
            ]
          ]
    ]
  ]

  -- The bytes of the response are there as far as they were written, also with an error.
  unfoldable pub build_success_response : Exporter → ℕ → Memory nvs → (Status × List ℕ) × Memory nvs
  build_success_response exporter size m =
      let (exported, keys) = export_traffic_keys exporter in
      elim exported [
        | err e ↦ ((err e, []), m)
        | ok _ ↦
            let g =
              generate_keys nvs draws.rotation draws.c2s draws.s2c draws.clock draws.clock_again
                cookie_lifetime_seconds zero_keys m in
            elim g.status [
              | err e ↦ ((err e, []), g.memory)
              | ok _ ↦
                  issue_response size
                    (record keys {
                      master_key_id = g.keys.master_key_id;
                      issued_ntp_seconds = g.keys.issued_ntp_seconds;
                      expires_ntp_seconds = g.keys.expires_ntp_seconds;
                    })
                    g.memory
            ]
      ]
