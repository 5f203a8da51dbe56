-- ===== src/Ntp/Server/Request/Tests.antt =====
-- A plain request of version 4 to a synchronised server, and what it is answered.
use esp32p4_nts_time_server.Base.{
  ℕ, ◌≤◌, ◌≡◌, refl, ◌⊎◌, List, ◌∷◌, true, false, none, some, length, arith,
}
use esp32p4_nts_time_server.Base.Bytes.{zeros}
use esp32p4_nts_time_server.Clock.{synchronized}
use esp32p4_nts_time_server.Ntp.Packet.{
  NtpTimestamp, NtpPacketFields, parse, parsed_fields, build, refid_from_text,
}
use esp32p4_nts_time_server.Ntp.RateLimit.{
  init, allow, find_or_allocate_client, scan, enter, serve, refill_client,
}
use esp32p4_nts_time_server.Ntp.Server.{
  refid_gps, Surroundings, ServerStatus, valid_client_request, response_fields, get_server_quality,
  quality_of, leap_from_gnss, record_request,
}
use esp32p4_nts_time_server.Ntp.Server.Request.{
  Server, handle_request, limit, respond, server_response, send_response, received,
}
use esp32p4_nts_time_server.Ntp.Server.Lifecycle.{zero_status}
use esp32p4_nts_time_server.Ntp.Server.Request.Amplification.{handle_request-no_longer}
use esp32p4_nts_time_server.Ntp.Server.Request.Outcome.{outcomes, HasRoom, handle_request-counts}
use esp32p4_nts_time_server.Ntp.Server.Request.Header.{IsClient}
use esp32p4_nts_time_server.Ntp.Server.Request.Content.{Sent, handle_request-Sent}
use esp32p4_nts_time_server.Nts.Auth.{request_present}
use esp32p4_nts_time_server.Nts.Keyring.{ring, first_ring}
use esp32p4_nts_time_server.Nts.Doubles.{toy_psa, toy_nvs, booted}

abbrev fresh_status : ServerStatus
fresh_status = record zero_status {
  started = true;
  socket_bound = true;
  advertised_stratum = 16;
  advertised_leap = 3;
}

abbrev server : Server toy_nvs
server = record {
  status = fresh_status;
  clients = init;
  memory = booted (ring (first_ring (λ n. zeros 32) 1_000));
  auth_stats = record {
    verification_attempts = 0;
    authenticated_requests = 0;
    verification_failures = 0;
    protected_responses = 0;
    protection_failures = 0;
  };
}

abbrev stamp : ℕ → NtpTimestamp
stamp n = record { seconds = n; fraction = 5 }

abbrev now : Surroundings
now = record {
  hardware = some (record { stamp = stamp 2_000; mapping_bracket_ns = 80; mapping_age_us = 10 });
  software = some (stamp 2_000);
  clock = some (record { state = synchronized; solution_valid = true; root_dispersion_16_16 = 6 });
  gnss_leap = some 0;
  reference = some (stamp 1_999);
  transmit = some (stamp 2_001);
  kod_now = some (stamp 2_001);
  sends = true;
  times = record {
    recv_return = 10;
    recorded = 11;
    limited = 12;
    rx_start = 13;
    rx_complete = 14;
    build_start = 15;
    tx_complete = 16;
    packet_built = 17;
    packet_protected = 18;
    send_start = 19;
    send_complete = 20;
    answered = 21;
  };
  random = λ n. zeros 32;
  cookie_clock = some 2_000;
  cookie_clock_again = some 2_000;
  draws = record { rotation = λ i n. zeros 32; nonce = λ i. zeros 16; clock = λ i. some 2_000 };
  response_nonce = zeros 16;
}

-- Version 4, client mode.
abbrev request : List ℕ
request = 0x23 ∷ zeros 47

abbrev response : List ℕ
response = build (
    response_fields (parsed_fields request)
      (record { stratum = 1; leap = 0; refid = refid_from_text refid_gps; dispersion = 6 })
      (stamp 1_999) (stamp 2_000) (stamp 2_001))

answered : (handle_request toy_nvs toy_psa now 77 request server).1 ≡ some response
unfolding handle_request parse valid_client_request parsed_fields request_present limit allow init
    find_or_allocate_client scan enter serve refill_client respond server_response
    get_server_quality quality_of leap_from_gnss send_response received record_request
answered = refl

handle_request-no_longer_example : length response ≤ length request
handle_request-no_longer_example =
    handle_request-no_longer toy_nvs toy_psa now 77 request server response answered

fresh_status-HasRoom : HasRoom fresh_status
fresh_status-HasRoom = omega arith

handle_request-counts_example :
    let answer = handle_request toy_nvs toy_psa now 77 request server in
    (answer.0.status.requests_received ≡ 1)
    × ((outcomes answer.0.status ≡ 1)
        ⊎ (((allow init 77 12).allowed ≡ false)
            × (outcomes answer.0.status ≡ 0)
            × (answer.1 ≡ none)))
handle_request-counts_example =
    handle_request-counts toy_nvs toy_psa now 77 request server fresh_status-HasRoom (omega arith)

handle_request-Sent_example :
    (asked : NtpPacketFields) × (parse request ≡ some asked)
    × IsClient asked
    × (request_present request ≡ true → asked.version ≡ 4)
    × Sent toy_nvs toy_psa now 77 request asked server response
handle_request-Sent_example =
    handle_request-Sent toy_nvs toy_psa now 77 request server response answered
