-- ===== src/Ntp/Server/Request.antt =====
-- main/ntp_server.c: the loop of `ntp_server_task` for one datagram that has been received, and
-- the start and the status of the server.
pub mod Amplification
pub mod Outcome
pub mod Header
pub mod Normal
pub mod Content
mod Tests
use esp32p4_nts_time_server.Base.{
  ℕ, zero, suc, ◌+◌, List, [], ◌∷◌, ◌++◌, Bool, true, false, not, ◌&&◌, ◌||◌, Option, none, some,
  length, ltb, leb, ◌==◌, if◌then◌else◌, u32, Result, ok, err, EspErr, Status, esp_ok, no_mem,
}
use esp32p4_nts_time_server.Ntp.Packet.{NtpTimestamp, NtpPacketFields, parse, build}
use esp32p4_nts_time_server.Ntp.RateLimit.{Clients, init, allow}
use esp32p4_nts_time_server.Ntp.Server.{
  ClockStatus, Quality, get_server_quality, valid_client_request, kod_fields, response_fields,
  Times, Surroundings, ServerStatus, record_request, record_invalid_request,
  record_unsynchronized_drop, record_kod, record_response, record_send_failure,
  record_authority_drop, record_authoritative,
}
use esp32p4_nts_time_server.Ntp.Server.Timing.{
  TimingStats, Span, Sample, clamp_duration_us, record_timing,
}
use esp32p4_nts_time_server.Ntp.Server.Comparison.{HwRxTimestamp, record_comparison, record_miss}
use esp32p4_nts_time_server.Nts.AesSiv.{Psa}
use esp32p4_nts_time_server.Nts.Keyring.{Nvs, Memory}
use esp32p4_nts_time_server.Nts.Auth.{
  AuthContext, AuthStats, zero_context, request_present, verify_request,
}
use esp32p4_nts_time_server.Nts.Auth.Response.{protect_response_impl, count_protection}

-- The server with what it works on: its own status, the clients of the limiter, the storage of
-- the master keys, and the counters of the authentication.
pub record Server (nvs : Nvs) : Type 0 where
  pub status : ServerStatus
  pub clients : Clients
  pub memory : Memory nvs
  pub auth_stats : AuthStats

-- The server after the datagram, and what was given to `sendto`.
abbrev pub Answer : Nvs → Type 0
Answer nvs = Server nvs × Option (List ℕ)

-- The durations of a response, of which the protection moves the end of the building.
unfoldable pub sample_of : Bool → Times → Sample
sample_of nts_request t = record {
  rx_start_us = clamp_duration_us t.recv_return t.rx_start;
  rx_call_us = clamp_duration_us t.rx_start t.rx_complete;
  build_us =
      clamp_duration_us t.build_start (if nts_request then t.packet_protected else t.packet_built);
  tx_to_send_us = clamp_duration_us t.tx_complete t.send_start;
  send_call_us = clamp_duration_us t.send_start t.send_complete;
  total_us = clamp_duration_us t.recv_return t.send_complete;
}

module _ (nvs : Nvs) (psa : Psa) (now : Surroundings) where
  abbrev pub update : (ServerStatus → ServerStatus) → Server nvs → Server nvs
  update f s = record s { status = f s.status }

  -- `build_server_response` up to the packet.
  unfoldable pub server_response :
      NtpPacketFields → NtpTimestamp → Option (NtpPacketFields × Quality)
  server_response request receive = elim (get_server_quality now.clock now.gnss_leap) [
    | none ↦ none
    | some quality ↦ elim now.reference [
      | none ↦ none
      | some reference ↦ elim now.transmit [
        | none ↦ none
        | some transmit ↦ some (response_fields request quality reference receive transmit, quality)
      ]
    ]
  ]

  -- From the second `sendto` on.
  unfoldable pub send_response : Bool → Quality → List ℕ → Server nvs → Answer nvs
  send_response nts_request quality response s =
      let timed : Server nvs =
        update
          (λ (t : ServerStatus). record t {
            timing = record_timing (sample_of nts_request now.times) t.timing;
          })
          s in
      if now.sends
      then (update (record_response now.times.answered quality) timed, some response)
      else (update record_send_failure s, some response)

  -- The protection of a response to an NTS request.
  unfoldable pub protect_and_send : AuthContext → Quality → List ℕ → Server nvs → Answer nvs
  protect_and_send context quality packet s =
      let (result, m) =
        protect_response_impl nvs psa now.draws context now.response_nonce packet 1280 s.memory in
      let counted : Server nvs = record s {
        memory = m;
        auth_stats = count_protection result s.auth_stats;
      } in
      elim result [
        | err e ↦ (update record_send_failure counted, none)
        | ok response ↦ send_response true quality response counted
      ]

  -- What is recorded of the two receive timestamps.
  abbrev pub compared : NtpTimestamp → HwRxTimestamp → Server nvs → Server nvs
  compared software hardware s =
      update
        (λ (t : ServerStatus).
          record_authoritative
            (record t { comparison = record_comparison software hardware t.comparison }))
        s

  -- From the receive timestamp on.
  unfoldable pub respond : NtpPacketFields → Bool → AuthContext → Server nvs → Answer nvs
  respond request nts_request context s = elim now.software [
    | none ↦ (update record_unsynchronized_drop s, none)
    | some software ↦ elim now.hardware [
      | none ↦ (update record_authority_drop s, none)
      | some hardware ↦ elim (server_response request hardware.stamp) [
        | none ↦ (update record_unsynchronized_drop (compared software hardware s), none)
        | some (packet, quality) ↦
            if nts_request
            then protect_and_send context quality (build packet) (compared software hardware s)
            else send_response false quality (build packet) (compared software hardware s)
      ]
    ]
  ]

  -- A request that the limiter has refused.
  unfoldable pub refuse : NtpPacketFields → Bool → Bool → Server nvs → Answer nvs
  refuse request nts_request send_kod s =
      if send_kod && not nts_request
      then (
        update (if now.sends then record_kod now.times.answered else record_send_failure) s,
        some (build (kod_fields request now.kod_now)),
      )
      else (s, none)

  -- The verification of an NTS request.
  unfoldable pub verify_and_respond : List ℕ → NtpPacketFields → Server nvs → Answer nvs
  verify_and_respond packet request s =
      let ((status, context, m), stats) =
        verify_request nvs psa now.random now.cookie_clock now.cookie_clock_again packet
          zero_context s.memory s.auth_stats in
      let verified : Server nvs = record s { memory = m; auth_stats = stats } in
      elim status [
        | err e ↦ (update record_invalid_request verified, none)
        | ok _ ↦ respond request true context verified
      ]

  -- From the limiter on.
  unfoldable pub limit : ℕ → List ℕ → NtpPacketFields → Bool → Server nvs → Answer nvs
  limit client_ipv4 packet request nts_request s =
      let verdict = allow s.clients client_ipv4 now.times.limited in
      let limited : Server nvs = record s { clients = verdict.clients } in
      if not verdict.allowed
      then refuse request nts_request verdict.send_kod limited
      else if nts_request
      then verify_and_respond packet request limited
      else respond request false zero_context limited

  -- What is recorded of every datagram.
  unfoldable pub received : ℕ → Server nvs → Server nvs
  received client_ipv4 s =
      let recorded : Server nvs = update (record_request client_ipv4 now.times.recorded) s in
      elim now.hardware [
        | some _ ↦ recorded
        | none ↦
            update (λ (t : ServerStatus). record t { comparison = record_miss t.comparison })
              recorded
      ]

  unfoldable pub handle_request : ℕ → List ℕ → Server nvs → Answer nvs
  handle_request client_ipv4 packet s =
      let known = received client_ipv4 s in
      elim (parse packet) [
        | none ↦ (update record_invalid_request known, none)
        | some request ↦
            if not (valid_client_request request)
            then (update record_invalid_request known, none)
            else if request_present packet && not (request.version == 4)
            then (update record_invalid_request known, none)
            else limit client_ipv4 packet request (request_present packet) known
      ]
