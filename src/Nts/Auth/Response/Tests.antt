-- ===== src/Nts/Auth/Response/Tests.antt =====
-- The answer to a request with two placeholders.
use esp32p4_nts_time_server.Base.{ℕ, ◌≡◌, refl, List, [], ◌∷◌, ◌++◌, true, some, arith, ok}
use esp32p4_nts_time_server.Base.Bytes.{zeros}
use esp32p4_nts_time_server.Nts.Keyring.{Memory, first_ring, ring}
use esp32p4_nts_time_server.Nts.Keyring.Rotation.{IsKept, first_ring-IsKept}
use esp32p4_nts_time_server.Nts.Cookie.{Draws}
use esp32p4_nts_time_server.Nts.Cookie.Wire.{Fits}
use esp32p4_nts_time_server.Nts.Cookie.Life.{Timely}
use esp32p4_nts_time_server.Nts.Auth.{AuthContext, ef_unique_identifier, ef_authenticator}
use esp32p4_nts_time_server.Nts.Auth.Fields.{field_bytes}
use esp32p4_nts_time_server.Nts.Auth.Response.{
  cookie_count, protect_response_impl, authenticator_body,
}
use esp32p4_nts_time_server.Nts.Auth.Response.Bounds.{Protected, protect_response_impl-Protected}
use esp32p4_nts_time_server.Nts.Auth.Response.Opens.{Opens, protect_response_impl-Opens}
use esp32p4_nts_time_server.Nts.Doubles.{
  length_mac, sevens, toy_psa, toy_psa-Works, toy_nvs, toy_nvs-Works, booted,
}

abbrev keys_of : ℕ → List ℕ
keys_of n = n ∷ zeros 31

abbrev memory : Memory toy_nvs
memory = booted (ring (first_ring keys_of 1_000))

ring-IsKept : IsKept (first_ring keys_of 1_000)
ring-IsKept = (first_ring-IsKept keys_of 1_000 (omega arith)).0

abbrev draws : Draws
draws = record { rotation = λ i. keys_of; nonce = λ i. zeros 16; clock = λ i. some 2_000 }

draws-Timely : Timely draws
draws-Timely = record {
  nonces = λ i. refl;
  now = λ i. 2_000;
  clocks = λ i. refl;
  small = λ i. omega arith;
}

-- What the verification left of a request of 600 bytes.
abbrev context : AuthContext
context = record {
  unique_id = zeros 32;
  valid_placeholders = 2;
  request_length = 600;
  keys = record {
    c2s_key = keys_of 5;
    s2c_key = keys_of 6;
    master_key_id = 1;
    issued_ntp_seconds = 2_000;
    expires_ntp_seconds = 261_200;
  };
  authenticated = true;
}

context-Fits : Fits context.keys
context-Fits = record { c2s = refl; s2c = refl; issued = omega arith; expires = omega arith }

three_cookies : cookie_count 2 ≡ 3
unfolding cookie_count
three_cookies = refl

abbrev named : List ℕ
named = zeros 48 ++ field_bytes (ef_unique_identifier, zeros 32)

protect_response_impl-Opens_example :
    (ciphertext : List ℕ) × ((protect_response_impl toy_nvs toy_psa draws context
        (zeros 16)
        (zeros 48)
        1280
        memory).0
      ≡ ok (named ++ field_bytes (ef_authenticator, authenticator_body (zeros 16) ciphertext)))
    × Opens toy_psa (keys_of 6) named (zeros 16) ciphertext (cookie_count 2) [] 1056
protect_response_impl-Opens_example =
    protect_response_impl-Opens toy_nvs length_mac sevens toy_psa toy_psa toy_nvs-Works
      toy_psa-Works toy_psa-Works draws context (zeros 16) (zeros 48) [] 1056 memory
      (first_ring keys_of 1_000) draws-Timely refl ring-IsKept context-Fits refl refl refl refl
      (omega arith) (omega (arith, three_cookies)) (omega arith)

-- The response of that example.
answer :
    (ciphertext : List ℕ) × ((protect_response_impl toy_nvs toy_psa draws context
        (zeros 16)
        (zeros 48)
        1280
        memory).0
      ≡ ok (named ++ field_bytes (ef_authenticator, authenticator_body (zeros 16) ciphertext)))
    × Opens toy_psa (keys_of 6) named (zeros 16) ciphertext (cookie_count 2) [] 1056
answer =
    protect_response_impl-Opens toy_nvs length_mac sevens toy_psa toy_psa toy_nvs-Works
      toy_psa-Works toy_psa-Works draws context (zeros 16) (zeros 48) [] 1056 memory
      (first_ring keys_of 1_000) draws-Timely refl ring-IsKept context-Fits refl refl refl refl
      (omega arith) (omega (arith, three_cookies)) (omega arith)

protect_response_impl-Protected_example :
    Protected toy_nvs toy_psa draws context
      (zeros 16)
      (zeros 48)
      1280
      memory
      (named ++ field_bytes (ef_authenticator, authenticator_body (zeros 16) answer.0))
protect_response_impl-Protected_example =
    protect_response_impl-Protected toy_nvs toy_psa draws context (zeros 16) (zeros 48) 1280 memory
      (named ++ field_bytes (ef_authenticator, authenticator_body (zeros 16) answer.0)) answer.1
