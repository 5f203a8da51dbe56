-- ===== src/Ntp/Server/Request/Outcome.antt =====
-- The counters of the status: what becomes of a datagram.
use mathlib.Core.Path.{subst}
use esp32p4_nts_time_server.Base.{
  ℕ, ◌+◌, ◌^◌, ◌<◌, ◌≡◌, inl, inr, ◌⊎◌, List, Bool, true, false, not, ◌&&◌, none, ◌==◌, arith,
  Bool-cases, Option-cases, Result-cases,
}
use esp32p4_nts_time_server.Ntp.Packet.{NtpPacketFields, parse, build}
use esp32p4_nts_time_server.Ntp.RateLimit.{Clients, allow}
use esp32p4_nts_time_server.Ntp.Server.{
  Quality, valid_client_request, Surroundings, ServerStatus, record_request, record_invalid_request,
  record_unsynchronized_drop, record_kod, record_response, record_send_failure,
  record_authority_drop, record_authoritative,
}
use esp32p4_nts_time_server.Nts.AesSiv.{Psa}
use esp32p4_nts_time_server.Nts.Keyring.{Nvs}
use esp32p4_nts_time_server.Nts.Auth.{
  AuthContext, zero_context, request_present, verify_request, verify_request_impl,
  count_verification,
}
use esp32p4_nts_time_server.Nts.Auth.Response.{protect_response_impl}
use esp32p4_nts_time_server.Ntp.Server.Request.{
  Server, Answer, server_response, send_response, protect_and_send, compared, respond, refuse,
  verify_and_respond, limit, received, handle_request,
}

-- The datagrams that the status has counted as refused, dropped, answered or failed.
abbrev pub outcomes : ServerStatus → ℕ
outcomes t =
    t.invalid_requests + t.unsynchronized_drops + t.rate_kod_responses + t.normal_responses
    + t.send_failures + t.authority_drops

-- None of these counters is about to wrap.
abbrev pub HasRoom : ServerStatus → Type 0
HasRoom t =
    (t.invalid_requests + 1 < 2 ^ 32)
    × (t.unsynchronized_drops + 1 < 2 ^ 32)
    × (t.rate_kod_responses + 1 < 2 ^ 32)
    × (t.normal_responses + 1 < 2 ^ 32)
    × (t.send_failures + 1 < 2 ^ 32)
    × (t.authority_drops + 1 < 2 ^ 32)

-- One outcome more, and no request more.
abbrev OneMore : ServerStatus → ServerStatus → Type 0
OneMore before after =
    (outcomes after ≡ outcomes before + 1) × (after.requests_received ≡ before.requests_received)

module _ (nvs : Nvs) (psa : Psa) (now : Surroundings) where
  send_response-OneMore :
      (nts_request : Bool) (quality : Quality) (packet : List ℕ) (s : Server nvs)
      → HasRoom s.status
      → OneMore s.status (send_response nvs psa now nts_request quality packet s).0.status
  unfolding send_response record_response record_send_failure
  send_response-OneMore nts_request quality packet s room = ground (arith, room)

  protect_and_send-OneMore :
      (context : AuthContext) (quality : Quality) (packet : List ℕ) (s : Server nvs)
      → HasRoom s.status
      → OneMore s.status (protect_and_send nvs psa now context quality packet s).0.status
  unfolding protect_and_send send_response record_response record_send_failure
  protect_and_send-OneMore context quality packet s room =
      elim (Result-cases
        (protect_response_impl nvs psa now.draws context now.response_nonce packet 1_280
          s.memory).0) [
            | inr (code, q) ↦ ground (arith, q, room)
            | inl (longer, q) ↦ ground (arith, q, room)
          ]

  respond-OneMore :
      (request : NtpPacketFields) (nts_request : Bool) (context : AuthContext) (s : Server nvs)
      → HasRoom s.status
      → OneMore s.status (respond nvs psa now request nts_request context s).0.status
  unfolding respond record_unsynchronized_drop record_authority_drop record_authoritative
  respond-OneMore request nts_request context s room = elim (Option-cases now.software) [
    | inl q ↦ ground (arith, q, room)
    | inr (software, q) ↦ elim (Option-cases now.hardware) [
      | inl h ↦ ground (arith, q, h, room)
      | inr (hardware, h) ↦
          let t : Server nvs = compared nvs psa now software hardware s in
          let room' : HasRoom t.status = room in
          elim (Option-cases (server_response nvs psa now request hardware.stamp)) [
            | inl r ↦ ground (arith, q, h, r, room)
            | inr ((packet, quality), r) ↦ elim (Bool-cases nts_request) [
              | inl nts ↦ ground (
                arith,
                q,
                h,
                r,
                nts,
                protect_and_send-OneMore context quality (build packet) t room',
              )
              | inr plain ↦ ground (
                arith,
                q,
                h,
                r,
                plain,
                send_response-OneMore false quality (build packet) t room',
              )
            ]
          ]
    ]
  ]

  -- The limiter has refused the datagram, and nothing is sent.
  abbrev Silent : ServerStatus → Answer nvs → Type 0
  Silent before answer =
      (outcomes answer.0.status ≡ outcomes before)
      × (answer.0.status.requests_received ≡ before.requests_received)
      × (answer.1 ≡ none)

  refuse-OneMore :
      (request : NtpPacketFields) (nts_request send_kod : Bool) (s : Server nvs)
      → HasRoom s.status
      → (send_kod && not nts_request) ≡ true
      → OneMore s.status (refuse nvs psa now request nts_request send_kod s).0.status
  unfolding refuse record_kod record_send_failure
  refuse-OneMore request nts_request send_kod s room q = elim (Bool-cases now.sends) [
    | inl sent ↦ ground (arith, q, sent, room)
    | inr failed ↦ ground (arith, q, failed, room)
  ]

  refuse-Silent :
      (request : NtpPacketFields) (nts_request send_kod : Bool) (s : Server nvs)
      → (send_kod && not nts_request) ≡ false
      → Silent s.status (refuse nvs psa now request nts_request send_kod s)
  unfolding refuse
  refuse-Silent request nts_request send_kod s q =
      (ground (arith, q), ground (arith, q), ground (arith, q))

  verify_and_respond-OneMore :
      (packet : List ℕ) (request : NtpPacketFields) (s : Server nvs)
      → HasRoom s.status
      → OneMore s.status (verify_and_respond nvs psa now packet request s).0.status
  unfolding verify_and_respond verify_request record_invalid_request
  verify_and_respond-OneMore packet request s room =
      let r =
        verify_request_impl nvs psa now.random now.cookie_clock now.cookie_clock_again packet
          zero_context s.memory in
      let verified : Server nvs = record s {
        memory = r.2;
        auth_stats = count_verification r.0 s.auth_stats;
      } in
      let room' : HasRoom verified.status = room in
      elim (Result-cases r.0) [
        | inr (e, q) ↦ ground (arith, q, room)
        | inl (v, q) ↦ ground (arith, q, respond-OneMore request true r.1 verified room')
      ]

  -- What the limiter lets through counts, and so does a kiss-o'-death; the rest is silent.
  limit-cases :
      (client_ipv4 : ℕ) (packet : List ℕ) (request : NtpPacketFields) (nts_request : Bool)
      (s : Server nvs)
      → HasRoom s.status
      → let answer = limit nvs psa now client_ipv4 packet request nts_request s in
        OneMore s.status answer.0.status
        ⊎ (((allow s.clients client_ipv4 now.times.limited).allowed ≡ false)
            × Silent s.status answer)
  unfolding limit
  limit-cases client_ipv4 packet request nts_request s room =
      let verdict = allow s.clients client_ipv4 now.times.limited in
      let limited : Server nvs = record s { clients = verdict.clients } in
      let room' : HasRoom limited.status = room in
      elim (Bool-cases verdict.allowed) [
        | inr q ↦ elim (Bool-cases (verdict.send_kod && not nts_request)) [
          | inl k ↦ inl (
              ground
                (arith, q, refuse-OneMore request nts_request verdict.send_kod limited room' k))
          | inr k ↦
              inr (
                q,
                (ground (arith, q, refuse-Silent request nts_request verdict.send_kod limited k)),
              )
        ]
        | inl q ↦ elim (Bool-cases nts_request) [
          | inl nts ↦
              inl (ground (arith, q, nts, verify_and_respond-OneMore packet request limited room'))
          | inr plain ↦
              inl
                (ground (arith, q, plain, respond-OneMore request false zero_context limited room'))
        ]
      ]

  received-counts :
      (client_ipv4 : ℕ) (s : Server nvs)
      → HasRoom s.status
      → s.status.requests_received + 1 < 2 ^ 32
      → let t = (received nvs psa now client_ipv4 s).status in
        (t.requests_received ≡ s.status.requests_received + 1)
        × (outcomes t ≡ outcomes s.status)
        × HasRoom t
  unfolding received record_request
  received-counts client_ipv4 s room more = elim (Option-cases now.hardware) [
    | inl q ↦ ground (arith, q, room, more)
    | inr (h, q) ↦ ground (arith, q, room, more)
  ]

  received-clients :
      (client_ipv4 : ℕ) (s : Server nvs) → (received nvs psa now client_ipv4 s).clients ≡ s.clients
  unfolding received
  received-clients client_ipv4 s = elim (Option-cases now.hardware) [
    | inl q ↦ ground (arith, q)
    | inr (h, q) ↦ ground (arith, q)
  ]

  -- While no counter is about to wrap, every datagram is counted as received, and then either as
  -- exactly one of: invalid, dropped for want of a clock, answered with a kiss-o'-death, answered,
  -- failed to be sent, or dropped for want of a hardware timestamp; or the limiter has refused it,
  -- no such counter moves, and nothing is sent.
  pub handle_request-counts :
      (client_ipv4 : ℕ) (packet : List ℕ) (s : Server nvs)
      → HasRoom s.status
      → s.status.requests_received + 1 < 2 ^ 32
      → let answer = handle_request nvs psa now client_ipv4 packet s in
        (answer.0.status.requests_received ≡ s.status.requests_received + 1)
        × ((outcomes answer.0.status ≡ outcomes s.status + 1)
            ⊎ (((allow s.clients client_ipv4 now.times.limited).allowed ≡ false)
                × (outcomes answer.0.status ≡ outcomes s.status)
                × (answer.1 ≡ none)))
  unfolding handle_request record_invalid_request
  handle_request-counts client_ipv4 packet s room more =
      let known : Server nvs = received nvs psa now client_ipv4 s in
      let (count, same, room') = received-counts client_ipv4 s room more in
      let nts = request_present packet in
      elim (Option-cases (parse packet)) [
        | inl q ↦ (ground (arith, q, count), inl (ground (arith, q, same, room')))
        | inr (request, q) ↦ elim (Bool-cases (valid_client_request request)) [
          | inr v ↦ (ground (arith, q, v, count), inl (ground (arith, q, v, same, room')))
          | inl v ↦ elim (Bool-cases (nts && not (request.version == 4))) [
            | inl old ↦
                (ground (arith, q, v, old, count), inl (ground (arith, q, v, old, same, room')))
            | inr fine ↦ elim (limit-cases client_ipv4 packet request nts known room') [
              | inl one ↦ (
                ground (arith, q, v, fine, one, count),
                inl (ground (arith, q, v, fine, one, same)),
              )
              | inr (refused, silent) ↦ (
                ground (arith, q, v, fine, silent, count),
                inr (
                  (let e : known.clients ≡ s.clients = received-clients client_ipv4 s in
                      subst
                        (λ (c : Clients). (allow c client_ipv4 now.times.limited).allowed ≡ false)
                        (e) refused),
                  ground (arith, q, v, fine, silent, same),
                  ground (arith, q, v, fine, silent),
                ),
              )
            ]
          ]
        ]
      ]
