-- ===== src/Ntp/Server/Request/Content.antt =====
-- What a datagram that is sent holds, and what has to be the case for it to be sent.
use mathlib.Core.Path.{subst}
use esp32p4_nts_time_server.Base.{
  ℕ, ◌≡◌, refl, ap, ◌∙◌, inl, inr, ◌⊎◌, List, true, false, not, ◌&&◌, none, some, Option, ◌==◌,
  arith, esp_ok, Bool-cases, Option-cases, Result-cases, take,
}
use esp32p4_nts_time_server.Ntp.Packet.{NtpTimestamp, NtpPacketFields, parse, build}
use esp32p4_nts_time_server.Ntp.RateLimit.{allow}
use esp32p4_nts_time_server.Ntp.Server.{
  valid_client_request, kod_fields, Surroundings, zero_timestamp,
}
use esp32p4_nts_time_server.Nts.AesSiv.{Psa}
use esp32p4_nts_time_server.Nts.Keyring.{Nvs, Memory}
use esp32p4_nts_time_server.Nts.Auth.{
  zero_context, request_present, verify_request, verify_request_impl, count_verification,
}
use esp32p4_nts_time_server.Ntp.Server.Request.Header.{
  IsClient, valid_client_request-IsClient, refid_from_text-rate,
}
use esp32p4_nts_time_server.Ntp.Server.Request.{
  Server, refuse, verify_and_respond, limit, received, handle_request,
}
use esp32p4_nts_time_server.Ntp.Server.Request.Normal.{Normal, respond-Normal}

-- The header of a kiss-o'-death packet, with one timestamp for reference, receiving and sending.
abbrev rate_kod : NtpPacketFields → NtpTimestamp → NtpPacketFields
rate_kod request stamp = record {
  leap_indicator = 3;
  version = request.version;
  mode = 4;
  stratum = 0;
  precision = 236;
  root_delay = 0;
  root_dispersion = 0;
  reference_id = 0x5241_5445;
  reference_timestamp = stamp;
  origin_timestamp = request.transmit_timestamp;
  receive_timestamp = stamp;
  transmit_timestamp = stamp;
}

-- A kiss-o'-death packet, stamped with the time of the clock, or with zero where there is none.
abbrev pub IsRateKod : NtpPacketFields → Option NtpTimestamp → List ℕ → Type 0
IsRateKod request kod_now response =
    ((stamp : NtpTimestamp) × (kod_now ≡ some stamp) × (response ≡ build (rate_kod request stamp)))
    ⊎ ((kod_now ≡ none)
        × (response ≡ build (rate_kod request (record { seconds = 0; fraction = 0 }))))

kod_fields-IsRateKod :
    (request : NtpPacketFields) (kod_now : Option NtpTimestamp) (response : List ℕ)
    → response ≡ build (kod_fields request kod_now)
    → IsRateKod request kod_now response
unfolding kod_fields
kod_fields-IsRateKod request none response e = inr (
  refl,
  e
      ∙ ap (λ (id : ℕ). build (record (rate_kod request zero_timestamp) { reference_id = id }))
          refid_from_text-rate,
)
kod_fields-IsRateKod request (some stamp) response e = inl (
  stamp,
  refl,
  e
      ∙ ap (λ (id : ℕ). build (record (rate_kod request stamp) { reference_id = id }))
          refid_from_text-rate,
)

module _ (nvs : Nvs) (psa : Psa) (now : Surroundings) where
  -- A request with NTS fields has been verified over this storage.
  abbrev pub Verified : List ℕ → Memory nvs → Type 0
  Verified packet m =
      (verify_request_impl nvs psa now.random now.cookie_clock now.cookie_clock_again packet
        zero_context m).0
      ≡ esp_ok

  verify_and_respond-Normal :
      (packet : List ℕ) (request : NtpPacketFields) (s : Server nvs) (response : List ℕ)
      → (verify_and_respond nvs psa now packet request s).1 ≡ some response
      → Verified packet s.memory × Normal now request (take 48 response)
  unfolding verify_and_respond verify_request
  verify_and_respond-Normal packet request s response e =
      let r =
        verify_request_impl nvs psa now.random now.cookie_clock now.cookie_clock_again packet
          zero_context s.memory in
      let verified : Server nvs = record s {
        memory = r.2;
        auth_stats = count_verification r.0 s.auth_stats;
      } in
      elim (Result-cases r.0) [
        | inr (code, q) ↦ absurd (ground (arith, q, e))
        | inl (v, q) ↦ (
          ground (arith, q),
          respond-Normal nvs psa now request true r.1 verified response (ground (arith, q, e)),
        )
      ]

  -- A kiss-o'-death for a plain request that the limiter refuses, or a normal response to one that
  -- it allows.
  abbrev pub Sent : ℕ → List ℕ → NtpPacketFields → Server nvs → List ℕ → Type 0
  Sent client_ipv4 packet request s response =
      (((allow s.clients client_ipv4 now.times.limited).allowed ≡ false)
        × (request_present packet ≡ false)
        × IsRateKod request now.kod_now response)
      ⊎ (((allow s.clients client_ipv4 now.times.limited).allowed ≡ true)
          × (request_present packet ≡ true → Verified packet s.memory)
          × Normal now request (take 48 response))

  limit-Sent :
      (client_ipv4 : ℕ) (packet : List ℕ) (request : NtpPacketFields) (s : Server nvs)
      (response : List ℕ)
      → (limit nvs psa now client_ipv4 packet request (request_present packet) s).1 ≡ some response
      → Sent client_ipv4 packet request s response
  unfolding limit refuse
  limit-Sent client_ipv4 packet request s response e =
      let verdict = allow s.clients client_ipv4 now.times.limited in
      let nts = request_present packet in
      let limited : Server nvs = record s { clients = verdict.clients } in
      elim (Bool-cases verdict.allowed) [
        | inr q ↦ elim (Bool-cases (verdict.send_kod && not nts)) [
          | inl k ↦ inl (
            q,
            ground (arith, k),
            kod_fields-IsRateKod request now.kod_now response (ground (arith, q, k, e)),
          )
          | inr k ↦ absurd (ground (arith, q, k, e))
        ]
        | inl q ↦ elim (Bool-cases nts) [
          | inl there ↦
              let (sure, normal) =
                verify_and_respond-Normal packet request limited response
                  (ground (arith, q, there, e)) in
              inr (q, (λ (x : nts ≡ true). sure), normal)
          | inr plain ↦ inr (
            q,
            (λ (x : nts ≡ true). absurd (ground (arith, plain, x))),
            respond-Normal nvs psa now request false zero_context limited response
                (ground (arith, q, plain, e)),
          )
        ]
      ]

  received-keeps :
      (client_ipv4 : ℕ) (s : Server nvs)
      → ((received nvs psa now client_ipv4 s).clients ≡ s.clients)
        × ((received nvs psa now client_ipv4 s).memory ≡ s.memory)
  unfolding received
  received-keeps client_ipv4 s = elim (Option-cases now.hardware) [
    | inl q ↦ (ground (arith, q), ground (arith, q))
    | inr (h, q) ↦ (ground (arith, q), ground (arith, q))
  ]

  -- Whatever the server sends answers a header in client mode, of version 1 to 4, and of version 4
  -- where the datagram has NTS fields. It is a kiss-o'-death packet of
  -- stratum 0 and "RATE", which only a plain request gets that the limiter refuses; or the limiter
  -- has allowed the request, its NTS fields, if it has any, have been verified, and the first 48
  -- bytes are the response in mode 4: version and transmit timestamp of the request, as the
  -- origin, the timestamp of the hardware as the receive timestamp, those of the clock, and a
  -- quality. A clock with a solution allows it: synchronized with the known leap indicator of
  -- GNSS, stratum 1 and "GPS ", or in holdover without a leap second, stratum 2 and "HOLD".
  pub handle_request-Sent :
      (client_ipv4 : ℕ) (packet : List ℕ) (s : Server nvs) (response : List ℕ)
      → (handle_request nvs psa now client_ipv4 packet s).1 ≡ some response
      → (request : NtpPacketFields) × (parse packet ≡ some request)
        × IsClient request
        × (request_present packet ≡ true → request.version ≡ 4)
        × Sent client_ipv4 packet request s response
  unfolding handle_request
  handle_request-Sent client_ipv4 packet s response e =
      let known : Server nvs = received nvs psa now client_ipv4 s in
      let (clients, memory) = received-keeps client_ipv4 s in
      let nts = request_present packet in
      elim (Option-cases (parse packet)) [
        | inl q ↦ absurd (ground (arith, q, e))
        | inr (request, q) ↦ elim (Bool-cases (valid_client_request request)) [
          | inr v ↦ absurd (ground (arith, q, v, e))
          | inl v ↦ elim (Bool-cases (nts && not (request.version == 4))) [
            | inl old ↦ absurd (ground (arith, q, v, old, e))
            | inr fine ↦
                let sent =
                  limit-Sent client_ipv4 packet request known response
                    (ground (arith, q, v, fine, e)) in
                (
                  request,
                  q,
                  valid_client_request-IsClient request v,
                  (λ (x : nts ≡ true). ground (arith, fine, x)),
                  elim sent [
                    | inl (refused, plain, kod) ↦ inl (ground (arith, refused, clients), plain, kod)
                    | inr (allowed, sure, normal) ↦ inr (
                      ground (arith, allowed, clients),
                      (λ (x : nts ≡ true). subst (Verified packet) (memory) (sure x)),
                      normal,
                    )
                  ],
                )
          ]
        ]
      ]
