-- ===== src/Nts/Auth/Response/Opens.antt =====
-- A protected response is built for every request that the device has accepted and that is long
-- enough, and its client opens it.
use esp32p4_nts_time_server.Base.{
  ℕ, ◌+◌, ◌*◌, ◌%◌, ◌≤◌, ◌≡◌, ap, ◌∙◌, List, [], ◌++◌, true, some, length, take, drop, arith,
  Result, ok, esp_ok, length-append, take_prefix, All,
}
use esp32p4_nts_time_server.Base.Bytes.{zeros, overwrite}
use esp32p4_nts_time_server.Nts.AesSiv.{Psa, decrypt}
use esp32p4_nts_time_server.Nts.AesSiv.Works as Siv
use esp32p4_nts_time_server.Nts.AesSiv.Works.{sealed, encrypt-Works, decrypt-Works, sealed-length}
use esp32p4_nts_time_server.Nts.Keyring.{Keyring, Nvs, Memory, ring}
use esp32p4_nts_time_server.Nts.Keyring.Rotation.{IsKept}
use esp32p4_nts_time_server.Nts.Keyring.Storage as Store
use esp32p4_nts_time_server.Nts.Cookie.Wire.{Fits}
use esp32p4_nts_time_server.Nts.Cookie.Trip.{Cmac, Stream}
use esp32p4_nts_time_server.Nts.Cookie.{Draws}
use esp32p4_nts_time_server.Nts.Cookie.Life.{Timely}
use esp32p4_nts_time_server.Nts.Auth.{AuthContext, ef_unique_identifier, ef_authenticator}
use esp32p4_nts_time_server.Nts.Auth.Fields.{
  Field, field_bytes, packed, length-field_bytes, append_extension-packed,
}
use esp32p4_nts_time_server.Nts.Auth.Response.{
  append_cookies, cookie_count, protect_response_impl, authenticator_body,
}
use esp32p4_nts_time_server.Nts.Auth.Response.Trip.{
  cookie_fields, append_cookies-Filled, cookie_count_bound, length-packed,
  length-authenticator_body, append_authenticator_step, seal_response_step, protect_step,
}

-- The ciphertext that the client decrypts under its key with the bytes in front of the
-- authenticator as associated data: it holds the fields of `count` cookies of 128 bytes each.
abbrev pub Opens : Psa → List ℕ → List ℕ → List ℕ → List ℕ → ℕ → List ℕ → ℕ → Type 0
Opens psa key ad n ciphertext count buffer room =
    (cookies : List (List ℕ)) × (length cookies ≡ count)
    × All (λ (c : List ℕ). length c ≡ 128) cookies
    × (decrypt psa key ad (some n) ciphertext buffer room ≡ record {
      status = esp_ok;
      output = overwrite buffer (packed (cookie_fields cookies));
      output_len = count * 132;
    })

-- While the store holds a ring that is kept and works, and the API works over the same CMAC and
-- cipher here and at the client: an authenticated request whose identifier is a multiple of four
-- bytes and not longer than 128, and which is at least as long as the response, is answered. The
-- response is the header, the identifier and an authenticator; the client decrypts that one to as
-- many cookies as `cookie_count` says.
pub protect_response_impl-Opens :
    (nvs : Nvs) (cm : Cmac) (ks : Stream) (psa psa' : Psa)
    → Store.Works nvs
    → Siv.Works psa cm ks
    → Siv.Works psa' cm ks
    → (draws : Draws) (context : AuthContext) (n packet buffer : List ℕ) (room : ℕ) (m : Memory nvs)
      (r : Keyring)
    → Timely draws
    → nvs.get_blob m.store ≡ ring r
    → IsKept r
    → Fits context.keys
    → context.authenticated ≡ true
    → length packet ≡ 48
    → length n ≡ 16
    → length context.unique_id % 4 ≡ 0
    → length context.unique_id ≤ 128
    → 92 + length context.unique_id + cookie_count context.valid_placeholders * 132
      ≤ context.request_length
    → 1056 ≤ room
    → let named = packet ++ field_bytes (ef_unique_identifier, context.unique_id) in
      (ciphertext : List ℕ) × ((protect_response_impl nvs psa draws context n packet 1280 m).0
        ≡ ok (named ++ field_bytes (ef_authenticator, authenticator_body n ciphertext)))
      × Opens psa' context.keys.s2c_key named n ciphertext
          (cookie_count context.valid_placeholders)
          buffer
          room
protect_response_impl-Opens nvs cm ks psa psa' works w w' draws context n packet buffer room m r
      timely h k f authentic header n16 whole short long wide =
    let count = cookie_count context.valid_placeholders in
    let few = cookie_count_bound context.valid_placeholders in
    let uid : Field = (ef_unique_identifier, context.unique_id) in
    let named = packet ++ field_bytes uid in
    let named_size = length-append packet (field_bytes uid) in
    let uid_size = length-field_bytes uid in
    let e =
      append_extension-packed 1280 uid packet (omega arith, omega arith, whole) (omega arith) in
    let (cookies, after, number, sizes, all, _, _) =
      append_cookies-Filled nvs cm ks psa works w draws timely context.keys count 0 [] m r h k f
        (omega arith) in
    let plaintext = packed (cookie_fields cookies) in
    let size : length plaintext ≡ count * 132 =
      length-packed cookies sizes ∙ ap (λ (c : ℕ). c * 132) number in
    let key = context.keys.s2c_key in
    let ciphertext = sealed cm ks key named (some n) plaintext in
    let total = sealed-length cm ks psa w key named (some n) plaintext in
    let sealing =
      encrypt-Works cm ks psa w key named (some n) plaintext (zeros 1280) 1280 (omega arith) in
    let sent : take (16 + length plaintext) (overwrite (zeros 1280) ciphertext) ≡ ciphertext =
      take_prefix (16 + length plaintext) ciphertext (drop (length ciphertext) (zeros 1280))
        total in
    let body = authenticator_body n ciphertext in
    let body_size = length-authenticator_body n ciphertext (omega (arith, total, size)) in
    let m' = (append_cookies nvs psa draws context.keys count 0 [] m).1 in
    let done =
      append_authenticator_step context.request_length body named (omega arith)
        (omega arith, omega arith, omega arith) (omega arith) (omega arith) in
    (
      ciphertext,
      protect_step nvs psa draws context n packet named plaintext m m' authentic header e
            (ap (λ (q : Result (List ℕ)). (q, m')) all)
          ∙ seal_response_step nvs psa draws context n named plaintext
              (overwrite (zeros 1280) ciphertext) ciphertext (16 + length plaintext) sealing sent
          ∙ done,
      (
        cookies,
        number,
        sizes,
        decrypt-Works cm ks psa' w' key named (some n) plaintext buffer room (omega arith) ∙ (λ i.
            record { status = esp_ok; output = overwrite buffer plaintext; output_len = size i }),
      ),
    )
