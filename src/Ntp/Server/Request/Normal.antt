-- ===== src/Ntp/Server/Request/Normal.antt =====
-- The header of a normal response, plain or protected.
use esp32p4_nts_time_server.Base.{
  ℕ, ◌≡◌, ◌≢◌, refl, ap, ◌∙◌, inl, inr, List, Bool, false, none, some, length, arith, Bool-cases,
  Option-cases, Result-cases, take, take_prefix, take_all,
}
use esp32p4_nts_time_server.Base.Bytes.{be32_bytes}
use esp32p4_nts_time_server.Ntp.Packet.{NtpTimestamp, NtpPacketFields, build, timestamp_bytes}
use esp32p4_nts_time_server.Ntp.Server.{Quality, get_server_quality, response_fields, Surroundings}
use esp32p4_nts_time_server.Ntp.Server.Comparison.{HwRxTimestamp}
use esp32p4_nts_time_server.Nts.AesSiv.{Psa}
use esp32p4_nts_time_server.Nts.Keyring.{Nvs}
use esp32p4_nts_time_server.Nts.Auth.{AuthContext}
use esp32p4_nts_time_server.Nts.Auth.Response.{protect_response_impl}
use esp32p4_nts_time_server.Nts.Auth.Response.Bounds.{protect_response_impl-Protected}
use esp32p4_nts_time_server.Ntp.Server.Request.Header.{IsOffered, get_server_quality-IsOffered}
use esp32p4_nts_time_server.Ntp.Server.Request.{
  Server, server_response, send_response, protect_and_send, compared, respond,
}

length-build : (p : NtpPacketFields) → length (build p) ≡ 48
unfolding build be32_bytes timestamp_bytes
length-build p = refl

-- The header of a normal response: mode 4 in the version of the request, whose transmit timestamp
-- is the origin; the clock and GNSS allow the quality; and the reference, receive and transmit
-- timestamps are those of the clock's reference, the hardware stamp of the request and the clock.
abbrev pub Normal : Surroundings → NtpPacketFields → List ℕ → Type 0
Normal now request header =
    (hardware : HwRxTimestamp) × (quality : Quality) × (reference : NtpTimestamp)
    × (transmit : NtpTimestamp) × (now.hardware ≡ some hardware)
    × (now.software ≢ none)
    × IsOffered now.clock now.gnss_leap quality
    × (now.reference ≡ some reference)
    × (now.transmit ≡ some transmit)
    × (header
        ≡ build (record {
          leap_indicator = quality.leap;
          version = request.version;
          mode = 4;
          stratum = quality.stratum;
          precision = 236;
          root_delay = 0;
          root_dispersion = quality.dispersion;
          reference_id = quality.refid;
          reference_timestamp = reference;
          origin_timestamp = request.transmit_timestamp;
          receive_timestamp = hardware.stamp;
          transmit_timestamp = transmit;
        }))

module _ (nvs : Nvs) (psa : Psa) (now : Surroundings) where
  -- The packet and the quality of a response.
  server_response-some :
      (request : NtpPacketFields) (receive : NtpTimestamp) (packet : NtpPacketFields)
      (quality : Quality)
      → server_response nvs psa now request receive ≡ some (packet, quality)
      → (get_server_quality now.clock now.gnss_leap ≡ some quality)
        × ((reference : NtpTimestamp) × (transmit : NtpTimestamp) × (now.reference ≡ some reference)
            × (now.transmit ≡ some transmit)
            × (packet ≡ response_fields request quality reference receive transmit))
  unfolding server_response
  server_response-some request receive packet quality e =
      elim (Option-cases (get_server_quality now.clock now.gnss_leap)) [
        | inl q ↦ absurd (ground (arith, q, e))
        | inr (found, q) ↦ elim (Option-cases now.reference) [
          | inl r ↦ absurd (ground (arith, q, r, e))
          | inr (reference, r) ↦ elim (Option-cases now.transmit) [
            | inl t ↦ absurd (ground (arith, q, r, t, e))
            | inr (transmit, t) ↦ (
              ground (arith, q, r, t, e),
              (reference, transmit, r, t, ground (arith, q, r, t, e)),
            )
          ]
        ]
      ]

  protect_and_send-header :
      (context : AuthContext) (quality : Quality) (packet : NtpPacketFields) (s : Server nvs)
      (response : List ℕ)
      → (protect_and_send nvs psa now context quality (build packet) s).1 ≡ some response
      → take 48 response ≡ build packet
  unfolding protect_and_send send_response
  protect_and_send-header context quality packet s response e =
      elim (Result-cases
        (protect_response_impl nvs psa now.draws context now.response_nonce (build packet) 1_280
          s.memory).0) [
            | inr (code, q) ↦ absurd (ground (arith, q, e))
            | inl (longer, q) ↦
                let p =
                  protect_response_impl-Protected nvs psa now.draws context now.response_nonce
                    (build packet) 1_280 s.memory longer q in
                let same : response ≡ longer = ground (arith, q, e) in
                rw (same, p.layout) (take_prefix 48 (build packet) _ (length-build packet))
          ]

  send_response-header :
      (quality : Quality) (packet : NtpPacketFields) (s : Server nvs) (response : List ℕ)
      → (send_response nvs psa now false quality (build packet) s).1 ≡ some response
      → take 48 response ≡ build packet
  unfolding send_response
  send_response-header quality packet s response e =
      let same : response ≡ build packet = ground (arith, e) in
      rw same (take_all 48 (build packet) (omega (arith, length-build packet)))

  pub respond-Normal :
      (request : NtpPacketFields) (nts_request : Bool) (context : AuthContext) (s : Server nvs)
      (response : List ℕ)
      → (respond nvs psa now request nts_request context s).1 ≡ some response
      → Normal now request (take 48 response)
  unfolding respond response_fields
  respond-Normal request nts_request context s response e = elim (Option-cases now.software) [
    | inl q ↦ absurd (ground (arith, q, e))
    | inr (software, q) ↦ elim (Option-cases now.hardware) [
      | inl h ↦ absurd (ground (arith, q, h, e))
      | inr (hardware, h) ↦
          elim (Option-cases (server_response nvs psa now request hardware.stamp)) [
            | inl r ↦ absurd (ground (arith, q, h, r, e))
            | inr ((packet, quality), r) ↦
                let t : Server nvs = compared nvs psa now software hardware s in
                let (gate, (reference, transmit, er, et, ep)) =
                  server_response-some request hardware.stamp packet quality r in
                let header : take 48 response ≡ build packet = elim (Bool-cases nts_request) [
                  | inl nts ↦
                      protect_and_send-header context quality packet t response
                        (ground (arith, q, h, r, nts, e))
                  | inr plain ↦
                      send_response-header quality packet t response
                        (ground (arith, q, h, r, plain, e))
                ] in
                (
                  hardware,
                  quality,
                  reference,
                  transmit,
                  h,
                  (λ (n : now.software ≡ none). ground (arith, q, n)),
                  get_server_quality-IsOffered now.clock now.gnss_leap quality gate,
                  er,
                  et,
                  header ∙ ap build ep,
                )
          ]
    ]
  ]
