-- ===== src/Nts/Cookie/Tests.antt =====
-- The theorems about cookies, over the stand-in API and partition.
use esp32p4_nts_time_server.Base.{
  ℕ, ◌≡◌, ◌⊎◌, refl, List, ◌∷◌, some, length, take, arith, ok, err, EspErr, esp_ok,
}
use esp32p4_nts_time_server.Base.Bytes.{zeros, read_be32}
use esp32p4_nts_time_server.Nts.Keyring.{CookieKey, Keyring, ring, first_ring}
use esp32p4_nts_time_server.Nts.Keyring.Rotation.{IsKept, first_ring-IsKept}
use esp32p4_nts_time_server.Nts.Cookie.{CookieKeys, zero_keys, current_keyring, create, unpack}
use esp32p4_nts_time_server.Nts.Cookie.Wire.{Fits}
use esp32p4_nts_time_server.Nts.Cookie.Unpack.{Held, Opens, unpack_cases}
use esp32p4_nts_time_server.Nts.Cookie.Life.{unpack-create}
use esp32p4_nts_time_server.Nts.Doubles.{
  length_mac, sevens, toy_psa, toy_psa-Works, toy_nvs, toy_nvs-Works, booted,
}

abbrev keys_of : ℕ → List ℕ
keys_of n = n ∷ zeros 31

abbrev young : Keyring
young = first_ring keys_of 1_000

young-IsKept : IsKept young
young-IsKept = (first_ring-IsKept keys_of 1_000 (omega arith)).0

-- The keys of a client, made at 2,000 for three days.
abbrev client_keys : CookieKeys
client_keys = record {
  c2s_key = keys_of 5;
  s2c_key = keys_of 6;
  master_key_id = 1;
  issued_ntp_seconds = 2_000;
  expires_ntp_seconds = 261_200;
}

client_keys-Fits : Fits client_keys
client_keys-Fits = record { c2s = refl; s2c = refl; issued = omega arith; expires = omega arith }

unpack_cases_example :
    let u =
      unpack toy_nvs toy_psa keys_of
        (some 3_000)
        (some 3_000)
        (zeros 128)
        zero_keys
        (booted (ring young)) in
    ((e : EspErr) × (u.status ≡ err e) × (u.keys ≡ zero_keys))
    ⊎ ((r : Keyring) × (master : CookieKey) × (u.status ≡ esp_ok)
        × (length (zeros 128) ≡ 128)
        × ((current_keyring toy_nvs keys_of (some 3_000) (booted (ring young))).0 ≡ ok r)
        × Held r (read_be32 (zeros 128)) master
        × Opens toy_psa master (zeros 128) u.keys (some 3_000))
unpack_cases_example =
    unpack_cases toy_nvs toy_psa keys_of (some 3_000) (some 3_000) (zeros 128) zero_keys
      (booted (ring young))

-- Created at 2,000 and opened at 200,000.
unpack-create_example :
    let c =
      create toy_nvs toy_psa keys_of
        (zeros 16)
        (some 2_000)
        client_keys
        (zeros 256)
        256
        (booted (ring young)) in
    let u =
      unpack toy_nvs toy_psa keys_of
        (some 200_000)
        (some 200_000)
        (take c.cookie_len c.cookie)
        zero_keys
        c.memory in
    (c.status ≡ esp_ok)
    × (c.cookie_len ≡ 128)
    × (u.status ≡ esp_ok)
    × ((id : ℕ) × (u.keys ≡ record client_keys { master_key_id = id }))
unpack-create_example =
    unpack-create toy_nvs length_mac sevens toy_psa toy_psa toy_nvs-Works toy_psa-Works
      toy_psa-Works keys_of keys_of (zeros 16) client_keys zero_keys (zeros 256) 256 2_000 200_000
      200_000 (booted (ring young)) young refl young-IsKept refl client_keys-Fits (omega arith)
      (omega arith) (omega arith) (omega arith) (omega arith) (omega arith)
