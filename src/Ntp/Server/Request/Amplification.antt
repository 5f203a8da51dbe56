-- ===== src/Ntp/Server/Request/Amplification.antt =====
-- The size of what is sent, against the size of what was received.
use mathlib.Core.Path.{subst}
use esp32p4_nts_time_server.Base.{
  ℕ, ◌≤◌, ◌≡◌, refl, sym, ◌∙◌, inl, inr, List, Bool, true, false, not, ◌&&◌, Option, none, some,
  length, ◌==◌, arith, Bool-cases, Option-cases, Result-cases,
}
use esp32p4_nts_time_server.Base.Bytes.{be32_bytes}
use esp32p4_nts_time_server.Ntp.Packet.{NtpPacketFields, parse, build, timestamp_bytes}
use esp32p4_nts_time_server.Ntp.RateLimit.{allow}
use esp32p4_nts_time_server.Ntp.Server.{Quality, valid_client_request, kod_fields, Surroundings}
use esp32p4_nts_time_server.Nts.AesSiv.{Psa}
use esp32p4_nts_time_server.Nts.Keyring.{Nvs}
use esp32p4_nts_time_server.Nts.Auth.{
  AuthContext, zero_context, request_present, verify_request, verify_request_impl,
  count_verification,
}
use esp32p4_nts_time_server.Nts.Auth.Verify.{verify_request_impl_cases}
use esp32p4_nts_time_server.Nts.Auth.Response.{protect_response_impl}
use esp32p4_nts_time_server.Nts.Auth.Response.Bounds.{protect_response_impl-Protected}
use esp32p4_nts_time_server.Ntp.Server.Request.{
  Server, server_response, send_response, protect_and_send, compared, respond, refuse,
  verify_and_respond, limit, received, handle_request,
}

length-build : (p : NtpPacketFields) → length (build p) ≡ 48
unfolding build be32_bytes timestamp_bytes
length-build p = refl

parse-long : (packet : List ℕ) (p : NtpPacketFields) → parse packet ≡ some p → 48 ≤ length packet
unfolding parse
parse-long packet p h = ground (arith, h)

module _ (nvs : Nvs) (psa : Psa) (now : Surroundings) where
  -- Whatever is sent is no longer than `n` bytes.
  abbrev Bounded : ℕ → Option (List ℕ) → Type 0
  Bounded n sent = (response : List ℕ) → sent ≡ some response → length response ≤ n

  send_response-sends :
      (nts_request : Bool) (quality : Quality) (packet : List ℕ) (s : Server nvs)
      → (send_response nvs psa now nts_request quality packet s).1 ≡ some packet
  unfolding send_response
  send_response-sends nts_request quality packet s = ground arith

  given :
      (n : ℕ) (sent : Option (List ℕ)) (packet : List ℕ)
      → sent ≡ some packet
      → length packet ≤ n
      → Bounded n sent
  given n sent packet q h response e = ground (arith, q, e, h)

  nothing : (n : ℕ) (sent : Option (List ℕ)) → sent ≡ none → Bounded n sent
  nothing n sent q response e = absurd (ground (arith, q, e))

  same : (n : ℕ) (sent other : Option (List ℕ)) → sent ≡ other → Bounded n other → Bounded n sent
  same n sent other q h response e = h response (sym q ∙ e)

  protect_and_send-Bounded :
      (context : AuthContext) (quality : Quality) (packet : List ℕ) (s : Server nvs)
      → Bounded context.request_length (protect_and_send nvs psa now context quality packet s).1
  unfolding protect_and_send send_response
  protect_and_send-Bounded context quality packet s =
      let result =
        (protect_response_impl nvs psa now.draws context now.response_nonce packet 1_280
          s.memory).0 in
      elim (Result-cases result) [
        | inr (code, q) ↦ nothing context.request_length _ (ground (arith, q))
        | inl (longer, q) ↦
            let p =
              protect_response_impl-Protected nvs psa now.draws context now.response_nonce packet
                1_280 s.memory longer q in
            given context.request_length _ longer (ground (arith, q)) p.within.1
      ]

  respond-Bounded :
      (request : NtpPacketFields) (nts_request : Bool) (context : AuthContext) (s : Server nvs)
      (n : ℕ)
      → 48 ≤ n
      → (nts_request ≡ true → context.request_length ≡ n)
      → Bounded n (respond nvs psa now request nts_request context s).1
  unfolding respond
  respond-Bounded request nts_request context s n long asked = elim (Option-cases now.software) [
    | inl q ↦ nothing n _ (ground (arith, q))
    | inr (software, q) ↦ elim (Option-cases now.hardware) [
      | inl h ↦ nothing n _ (ground (arith, q, h))
      | inr (hardware, h) ↦
          elim (Option-cases (server_response nvs psa now request hardware.stamp)) [
            | inl r ↦ nothing n _ (ground (arith, q, h, r))
            | inr ((packet, quality), r) ↦
                let t = compared nvs psa now software hardware s in
                elim (Bool-cases nts_request) [
                  | inl nts ↦
                      same n _ (protect_and_send nvs psa now context quality (build packet) t).1
                        (ground (arith, q, h, r, nts))
                        (subst
                          (λ (k : ℕ).
                            Bounded k
                              (protect_and_send nvs psa now context quality (build packet) t).1)
                          (asked nts) (protect_and_send-Bounded context quality (build packet) t))
                  | inr plain ↦
                      same n _ (send_response nvs psa now false quality (build packet) t).1
                        (ground (arith, q, h, r, plain))
                        (given n _ (build packet)
                          (send_response-sends false quality (build packet) t)
                          (omega (arith, length-build packet)))
                ]
          ]
    ]
  ]

  refuse-Bounded :
      (request : NtpPacketFields) (nts_request send_kod : Bool) (s : Server nvs) (n : ℕ)
      → 48 ≤ n
      → Bounded n (refuse nvs psa now request nts_request send_kod s).1
  unfolding refuse
  refuse-Bounded request nts_request send_kod s n long =
      elim (Bool-cases (send_kod && not nts_request)) [
        | inl q ↦
            given n _ (build (kod_fields request now.kod_now)) (ground (arith, q))
              (omega (arith, length-build (kod_fields request now.kod_now)))
        | inr q ↦ nothing n _ (ground (arith, q))
      ]

  verify_and_respond-Bounded :
      (packet : List ℕ) (request : NtpPacketFields) (s : Server nvs)
      → 48 ≤ length packet
      → Bounded (length packet) (verify_and_respond nvs psa now packet request s).1
  unfolding verify_and_respond verify_request
  verify_and_respond-Bounded packet request s long =
      let r =
        verify_request_impl nvs psa now.random now.cookie_clock now.cookie_clock_again packet
          zero_context s.memory in
      elim (verify_request_impl_cases nvs psa now.random now.cookie_clock now.cookie_clock_again
        packet zero_context s.memory) [
          | inl (e, q, _) ↦ nothing (length packet) _ (ground (arith, q))
          | inr (_, _, _, _, (_, _), q, _, _, _, _, proves) ↦
              let verified : Server nvs = record s {
                memory = r.2;
                auth_stats = count_verification r.0 s.auth_stats;
              } in
              same (length packet) _ (respond nvs psa now request true r.1 verified).1
                (ground (arith, q))
                (respond-Bounded request true r.1 verified (length packet) long (λ _. proves.5))
        ]

  limit-Bounded :
      (client_ipv4 : ℕ) (packet : List ℕ) (request : NtpPacketFields) (nts_request : Bool)
      (s : Server nvs)
      → 48 ≤ length packet
      → Bounded (length packet) (limit nvs psa now client_ipv4 packet request nts_request s).1
  unfolding limit
  limit-Bounded client_ipv4 packet request nts_request s long =
      let n = length packet in
      let verdict = allow s.clients client_ipv4 now.times.limited in
      let limited : Server nvs = record s { clients = verdict.clients } in
      elim (Bool-cases verdict.allowed) [
        | inr q ↦
            same n _ (refuse nvs psa now request nts_request verdict.send_kod limited).1
              (ground (arith, q))
              (refuse-Bounded request nts_request verdict.send_kod limited n long)
        | inl q ↦ elim (Bool-cases nts_request) [
          | inl nts ↦
              same n _ (verify_and_respond nvs psa now packet request limited).1
                (ground (arith, q, nts)) (verify_and_respond-Bounded packet request limited long)
          | inr plain ↦
              same n _ (respond nvs psa now request false zero_context limited).1
                (ground (arith, q, plain))
                (respond-Bounded request false zero_context limited n long
                  (λ (e : false ≡ true). absurd (cc)))
        ]
      ]

  -- The server never amplifies: what it sends in answer to a datagram, be it a response, a
  -- protected response or a kiss-o'-death packet, is no longer than that datagram.
  pub handle_request-no_longer :
      (client_ipv4 : ℕ) (packet : List ℕ) (s : Server nvs) (response : List ℕ)
      → (handle_request nvs psa now client_ipv4 packet s).1 ≡ some response
      → length response ≤ length packet
  unfolding handle_request
  handle_request-no_longer client_ipv4 packet s =
      let n = length packet in
      let known = received nvs psa now client_ipv4 s in
      elim (Option-cases (parse packet)) [
        | inl q ↦ nothing n _ (ground (arith, q))
        | inr (request, q) ↦ elim (Bool-cases (valid_client_request request)) [
          | inr v ↦ nothing n _ (ground (arith, q, v))
          | inl v ↦ elim (Bool-cases (request_present packet && not (request.version == 4))) [
            | inl old ↦ nothing n _ (ground (arith, q, v, old))
            | inr fine ↦
                same n _
                  (limit nvs psa now client_ipv4 packet request (request_present packet) known).1
                  (ground (arith, q, v, fine))
                  (limit-Bounded client_ipv4 packet request (request_present packet) known
                    (parse-long packet request q))
          ]
        ]
      ]
