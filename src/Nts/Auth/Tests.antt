-- ===== src/Nts/Auth/Tests.antt =====
-- Requests with extension fields, and the theorems about them.
use esp32p4_nts_time_server.Base.{
  ℕ, ◌≤◌, ◌≡◌, ◌⊎◌, refl, List, [], ◌∷◌, true, false, ◌++◌, some, length, err, EspErr, esp_ok,
}
use esp32p4_nts_time_server.Base.Bytes.{zeros, read_be16}
use esp32p4_nts_time_server.Nts.Keyring.{first_ring, ring}
use esp32p4_nts_time_server.Nts.Auth.{
  zero_context, verify_request_impl, request_present, present_from, is_nts_type,
}
use esp32p4_nts_time_server.Nts.Auth.{AuthStats}
use esp32p4_nts_time_server.Nts.Auth.Fields.{Field}
use esp32p4_nts_time_server.Nts.Auth.Shape.{Carries, IsAuthenticator}
use esp32p4_nts_time_server.Nts.Auth.Verify.{Proves, verify_request_impl_cases}
use esp32p4_nts_time_server.Nts.Doubles.{toy_psa, toy_nvs, booted}

-- An identifier, a cookie and an authenticator.
abbrev fields : List Field
fields = (0x0104, zeros 32) ∷ (0x0204, zeros 128) ∷ (0x0404, zeros 40) ∷ []

-- An NTP header without fields.
bare_request : request_present (zeros 48) ≡ false
unfolding request_present
bare_request = refl

-- A header with the first four octets of an authenticator.
marked_request : request_present (zeros 48 ++ (4 ∷ 4 ∷ 0 ∷ 4 ∷ [])) ≡ true
unfolding request_present present_from is_nts_type read_be16
marked_request = refl

abbrev keys_of : ℕ → List ℕ
keys_of n = n ∷ zeros 31

verify_request_impl_cases_example :
    let r =
      verify_request_impl toy_nvs toy_psa keys_of
        (some 2_000)
        (some 2_000)
        (zeros 48)
        zero_context
        (booted (ring (first_ring keys_of 1_000))) in
    ((e : EspErr) × (r.0 ≡ err e) × ((r.1 ≡ zero_context) ⊎ (r.1 ≡ zero_context)))
    ⊎ ((uid : List ℕ) × (cookie : List ℕ) × (auth_offset : ℕ) × (body : List ℕ) × (parts : List ℕ
          × List ℕ)
        × (r.0 ≡ esp_ok)
        × (48 ≤ length (zeros 48))
        × (length (zeros 48) ≤ 1280)
        × Carries (zeros 48) uid cookie auth_offset body
        × IsAuthenticator body parts.0 parts.1
        × Proves toy_nvs toy_psa keys_of
            (some 2_000)
            (some 2_000)
            (zeros 48)
            uid
            cookie
            auth_offset
            parts
            (booted (ring (first_ring keys_of 1_000)))
            r.1)
verify_request_impl_cases_example =
    verify_request_impl_cases toy_nvs toy_psa keys_of (some 2_000) (some 2_000) (zeros 48)
      zero_context (booted (ring (first_ring keys_of 1_000)))

abbrev zero_stats : AuthStats
zero_stats = record {
  verification_attempts = 0;
  authenticated_requests = 0;
  verification_failures = 0;
  protected_responses = 0;
  protection_failures = 0;
}
