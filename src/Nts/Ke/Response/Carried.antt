-- ===== src/Nts/Ke/Response/Carried.antt =====
-- The whole response: its records, and the keys that its cookies carry.
use esp32p4_nts_time_server.Base.{
  ℕ, ◌+◌, ◌*◌, ◌^◌, ◌<◌, ◌≤◌, ◌≡◌, refl, ap, sym, ◌∙◌, List, [], ◌∷◌, ◌++◌, true, false, some,
  length, arith, ok, esp_ok, Status, length-append, append_assoc, append-nil, All,
}
use esp32p4_nts_time_server.Nts.AesSiv.{Psa}
use esp32p4_nts_time_server.Nts.AesSiv.Works as Siv
use esp32p4_nts_time_server.Nts.Keyring.{Keyring, Nvs, Memory, ring}
use esp32p4_nts_time_server.Nts.Keyring.Rotation.{IsKept}
use esp32p4_nts_time_server.Nts.Keyring.Storage as Store
use esp32p4_nts_time_server.Nts.Cookie.{CookieKeys, generate_keys, zero_keys}
use esp32p4_nts_time_server.Nts.Cookie.Wire.{Fits}
use esp32p4_nts_time_server.Nts.Cookie.Trip.{Cmac, Stream}
use esp32p4_nts_time_server.Nts.Cookie.Life.{Timely, generate_keys-Fits}
use esp32p4_nts_time_server.Nts.Ke.{append_record}
use esp32p4_nts_time_server.Nts.Ke.Records.{
  KeRecord, encode, encode_record, length-encode_record, append_record-encode_record,
}
use esp32p4_nts_time_server.Nts.Ke.Response.{
  Exporter, exporter_label, c2s_context, s2c_context, ResponseDraws, export_traffic_keys,
  issue_cookies, issue_response, build_success_response,
}
use esp32p4_nts_time_server.Nts.Ke.Response.Issue.{
  cookie_record, cookie_records, next_protocol_record, aead_record, end_record, Carries,
  issue_cookies-Issued,
}

cookie_records-append :
    (cookies : List (List ℕ)) (after : List KeRecord)
    → encode (cookie_records cookies after) ≡ encode (cookie_records cookies []) ++ encode after
cookie_records-append [] after = refl
cookie_records-append (c ∷ cs) after =
    ap (λ (b : List ℕ). encode_record (cookie_record c) ++ b) (cookie_records-append cs after)
    ∙ sym (
        append_assoc (encode_record (cookie_record c)) (encode (cookie_records cs []))
          (encode after))

length-cookie_records :
    (cm : Cmac) (ks : Stream) (keys : CookieKeys) (cookies : List (List ℕ))
    → All (Carries cm ks keys) cookies
    → length (encode (cookie_records cookies [])) ≡ length cookies * 132
length-cookie_records cm ks keys [] all = refl
length-cookie_records cm ks keys (c ∷ cs) all =
    let below = length-cookie_records cm ks keys cs all.1 in
    omega (
      arith,
      length-append (encode_record (cookie_record c)) (encode (cookie_records cs [])),
      length-encode_record (cookie_record c),
      all.0.0,
      below,
    )

-- The records of a response with its cookies.
abbrev pub response_records : List (List ℕ) → List KeRecord
response_records cookies =
    next_protocol_record ∷ aead_record ∷ cookie_records cookies (end_record ∷ [])

issue_response_step :
    (nvs : Nvs) (psa : Psa) (draws : ResponseDraws) (size : ℕ) (keys : CookieKeys)
    (one two used whole : List ℕ) (m m' : Memory nvs)
    → append_record size 1 true (0 ∷ 0 ∷ []) [] ≡ ok one
    → append_record size 4 false (0 ∷ 15 ∷ []) one ≡ ok two
    → issue_cookies nvs psa draws size keys 8 0 two m ≡ ((esp_ok, used), m')
    → append_record size 0 true [] used ≡ ok whole
    → issue_response nvs psa draws size keys m ≡ ((esp_ok, whole), m')
unfolding issue_response
issue_response_step nvs psa draws size keys one two used whole m m' e1 e2 e3 e4 =
    ground (arith, e1, e2, e3, e4)

build_step :
    (nvs : Nvs) (psa : Psa) (draws : ResponseDraws) (exporter : Exporter) (size : ℕ)
    (c2s s2c : List ℕ) (m : Memory nvs)
    → exporter exporter_label c2s_context ≡ some c2s
    → exporter exporter_label s2c_context ≡ some s2c
    → let g =
        generate_keys nvs draws.rotation draws.c2s draws.s2c draws.clock draws.clock_again 86_400
          zero_keys m in
      g.status ≡ esp_ok
      → build_success_response nvs psa draws exporter size m
        ≡ issue_response nvs psa draws size
            (record {
              c2s_key = c2s;
              s2c_key = s2c;
              master_key_id = g.keys.master_key_id;
              issued_ntp_seconds = g.keys.issued_ntp_seconds;
              expires_ntp_seconds = g.keys.expires_ntp_seconds;
            })
            g.memory
unfolding build_success_response export_traffic_keys
build_step nvs psa draws exporter size c2s s2c m e1 e2 made = ground (arith, e1, e2, made)

regroup :
    (cookies : List (List ℕ))
    → (encode_record next_protocol_record ++ encode_record aead_record)
        ++ encode (cookie_records cookies [])
        ++ encode_record end_record
      ≡ encode (response_records cookies)
regroup cookies =
    let one = encode_record next_protocol_record in
    let two = encode_record aead_record in
    let sealed = encode (cookie_records cookies []) in
    let end = encode_record end_record in
    append_assoc (one ++ two) sealed end
    ∙ append_assoc one two (sealed ++ end)
    ∙ ap (λ (b : List ℕ). one ++ (two ++ b))
        (ap (λ (b : List ℕ). sealed ++ b) (sym (append-nil end))
          ∙ sym (cookie_records-append cookies (end_record ∷ [])))

module _ (nvs : Nvs) (cm : Cmac) (ks : Stream) (psa : Psa) (works : Store.Works nvs)
    (w : Siv.Works psa cm ks) (draws : ResponseDraws) (timely : Timely draws.cookies) where
  issue_response-Carries :
      (size : ℕ) (keys : CookieKeys) (m : Memory nvs) (r : Keyring)
      → nvs.get_blob m.store ≡ ring r
      → IsKept r
      → Fits keys
      → 1_072 ≤ size
      → (cookies : List (List ℕ)) × (length cookies ≡ 8)
        × All (Carries cm ks keys) cookies
        × ((issue_response nvs psa draws size keys m).0
            ≡ (esp_ok, encode (response_records cookies)))
  issue_response-Carries size keys m r h k f room =
      let one = encode_record next_protocol_record in
      let two = one ++ encode_record aead_record in
      let two_size : length two ≡ 12 = omega (
        arith,
        length-append one (encode_record aead_record),
        length-encode_record next_protocol_record,
        length-encode_record aead_record,
      ) in
      let (cookies, after, count, all, same, _, _) =
        issue_cookies-Issued nvs cm ks psa works w draws timely size keys 8 0 two m r h k f
          (omega (arith, two_size)) in
      let sealed = encode (cookie_records cookies []) in
      let used = two ++ sealed in
      let m' = (issue_cookies nvs psa draws size keys 8 0 two m).1 in
      let used_size : length used ≡ 12 + 8 * 132 = omega (
        arith,
        length-append two sealed,
        two_size,
        length-cookie_records cm ks keys cookies all,
        count,
      ) in
      let e1 =
        append_record-encode_record size next_protocol_record [] (omega arith, omega arith)
          (omega arith) in
      let e2 =
        append_record-encode_record size aead_record one (omega arith, omega arith)
          (omega (arith, length-encode_record next_protocol_record)) in
      let e4 =
        append_record-encode_record size end_record used (omega arith, omega arith)
          (omega (arith, used_size)) in
      let step =
        issue_response_step nvs psa draws size keys one two used (used ++ encode_record end_record)
          m m' e1 e2 (ap (λ (q : Status × List ℕ). (q, m')) same) e4 in
      (
        cookies,
        count,
        all,
        ap (λ (q : (Status × List ℕ) × Memory nvs). q.0) step
            ∙ ap (λ (b : List ℕ). (esp_ok, b)) (regroup cookies),
      )

  -- While the store holds a ring that is kept and works, the API works, and the TLS exporter gives
  -- a key of 32 bytes for each direction: `build_success_response` succeeds in a buffer of 1072
  -- bytes or more. The response is NTPv4 as the next protocol, AES-SIV-CMAC-256 as the AEAD
  -- algorithm, eight cookies of 128 bytes and the end of message; each cookie seals the two
  -- exported keys, the time of issue and that time plus a day, under a master key.
  pub build_success_response-Carries :
      (exporter : Exporter) (size : ℕ) (c2s s2c : List ℕ) (t0 now : ℕ) (m : Memory nvs)
      (r : Keyring)
      → nvs.get_blob m.store ≡ ring r
      → IsKept r
      → draws.clock ≡ some t0
      → t0 < 2 ^ 32
      → draws.clock_again ≡ some now
      → now + 86_400 < 2 ^ 64
      → length draws.c2s ≡ 32
      → length draws.s2c ≡ 32
      → exporter exporter_label c2s_context ≡ some c2s
      → exporter exporter_label s2c_context ≡ some s2c
      → length c2s ≡ 32
      → length s2c ≡ 32
      → 1_072 ≤ size
      → (id : ℕ) × (cookies : List (List ℕ)) × (length cookies ≡ 8)
        × All
            (Carries cm ks (record {
              c2s_key = c2s;
              s2c_key = s2c;
              master_key_id = id;
              issued_ntp_seconds = now;
              expires_ntp_seconds = now + 86_400;
            }))
            cookies
        × ((build_success_response nvs psa draws exporter size m).0
            ≡ (esp_ok, encode (response_records cookies)))
  build_success_response-Carries exporter size c2s s2c t0 now m r h k clock small again late lc ls
        e1 e2 n1 n2 room =
      let g =
        generate_keys nvs draws.rotation draws.c2s draws.s2c (some t0) (some now) 86_400 zero_keys
          m in
      let (made, fits, _, _, issued, expires, (after, blob, kept, _, _)) =
        generate_keys-Fits nvs works draws.rotation draws.c2s draws.s2c t0 now 86_400 zero_keys m r
          h k small late (omega arith) lc ls in
      let keys : CookieKeys = record {
        c2s_key = c2s;
        s2c_key = s2c;
        master_key_id = g.keys.master_key_id;
        issued_ntp_seconds = now;
        expires_ntp_seconds = now + 86_400;
      } in
      let step : build_success_response nvs psa draws exporter size m
          ≡ issue_response nvs psa draws size keys g.memory =
        build_step nvs psa draws exporter size c2s s2c m e1 e2 (rw (clock, again) made)
        ∙ rw (clock, again, issued, expires) refl in
      let (cookies, count, all, same) =
        issue_response-Carries size keys g.memory after blob kept
          (record { c2s = n1; s2c = n2; issued = omega arith; expires = late }) room in
      (
        g.keys.master_key_id,
        cookies,
        count,
        all,
        ap (λ (q : (Status × List ℕ) × Memory nvs). q.0) step ∙ same,
      )
