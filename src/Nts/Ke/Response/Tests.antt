-- ===== src/Nts/Ke/Response/Tests.antt =====
-- A response over the stand-ins, an hour after the first ring was made.
use esp32p4_nts_time_server.Base.{
  ℕ, ◌+◌, ◌≡◌, refl, List, ◌∷◌, some, length, arith, All, esp_ok, ◌++◌,
}
use esp32p4_nts_time_server.Base.Bytes.{zeros}
use esp32p4_nts_time_server.Nts.Keyring.{Memory, first_ring, ring}
use esp32p4_nts_time_server.Nts.Keyring.Rotation.{IsKept, first_ring-IsKept}
use esp32p4_nts_time_server.Nts.Cookie.Life.{Timely}
use esp32p4_nts_time_server.Nts.Ke.Records.{encode}
use esp32p4_nts_time_server.Nts.Ke.Response.{Exporter, ResponseDraws, build_success_response}
use esp32p4_nts_time_server.Nts.Ke.Response.Issue.{Carries}
use esp32p4_nts_time_server.Nts.Ke.Response.Carried.{
  response_records, build_success_response-Carries,
}
use esp32p4_nts_time_server.Nts.Doubles.{
  length_mac, sevens, toy_psa, toy_psa-Works, toy_nvs, toy_nvs-Works, booted,
}

abbrev keys_of : ℕ → List ℕ
keys_of n = n ∷ zeros 31

abbrev memory : Memory toy_nvs
memory = booted (ring (first_ring keys_of 1_000))

ring-IsKept : IsKept (first_ring keys_of 1_000)
ring-IsKept = (first_ring-IsKept keys_of 1_000 (omega arith)).0

-- The last byte of the context tells the directions apart.
abbrev exporter : Exporter
exporter = λ label context. some (context ++ zeros 27)

abbrev draws : ResponseDraws
draws = record {
  rotation = keys_of;
  c2s = zeros 32;
  s2c = zeros 32;
  clock = some 4_600;
  clock_again = some 4_601;
  cookies = record { rotation = λ i. keys_of; nonce = λ i. zeros 16; clock = λ i. some 4_601 };
}

draws-Timely : Timely draws.cookies
draws-Timely = record {
  nonces = λ i. refl;
  now = λ i. 4_601;
  clocks = λ i. refl;
  small = λ i. omega arith;
}

build_success_response-Carries_example :
    (id : ℕ) × (cookies : List (List ℕ)) × (length cookies ≡ 8)
    × All
        (Carries length_mac sevens (record {
          c2s_key = 0 ∷ 0 ∷ 0 ∷ 15 ∷ 0 ∷ zeros 27;
          s2c_key = 0 ∷ 0 ∷ 0 ∷ 15 ∷ 1 ∷ zeros 27;
          master_key_id = id;
          issued_ntp_seconds = 4_601;
          expires_ntp_seconds = 4_601 + 86_400;
        }))
        cookies
    × ((build_success_response toy_nvs toy_psa draws exporter 4_096 memory).0
        ≡ (esp_ok, encode (response_records cookies)))
build_success_response-Carries_example =
    build_success_response-Carries toy_nvs length_mac sevens toy_psa toy_nvs-Works toy_psa-Works
      draws draws-Timely exporter 4_096 (0 ∷ 0 ∷ 0 ∷ 15 ∷ 0 ∷ zeros 27)
      (0 ∷ 0 ∷ 0 ∷ 15 ∷ 1 ∷ zeros 27) 4_600 4_601 memory (first_ring keys_of 1_000) refl ring-IsKept
      refl (omega arith) refl (omega arith) refl refl refl refl refl refl (omega arith)
