-- ===== src/Ntp/Server/Lifecycle.antt =====
-- main/ntp_server.c: the start of the server, its socket, and the status that others read.
use esp32p4_nts_time_server.Base.{
  ℕ, ◌+◌, Bool, true, false, Option, none, some, if◌then◌else◌, u32, err, Status, esp_ok, no_mem,
}
use esp32p4_nts_time_server.Ntp.RateLimit.{init}
use esp32p4_nts_time_server.Ntp.Server.{ClockStatus, get_server_quality, ServerStatus}
use esp32p4_nts_time_server.Ntp.Server.Timing.{Span}
use esp32p4_nts_time_server.Ntp.Server.Request.{Server}
use esp32p4_nts_time_server.Nts.Keyring.{Nvs}

-- What `memset` leaves of the status and the sums.
abbrev pub zero_span : Span
zero_span = record { sum = 0; minimum = 0; average = 0; maximum = 0 }

abbrev pub zero_status : ServerStatus
zero_status = record {
  started = false;
  socket_bound = false;
  requests_received = 0;
  invalid_requests = 0;
  unsynchronized_drops = 0;
  rate_kod_responses = 0;
  normal_responses = 0;
  send_failures = 0;
  socket_open_failures = 0;
  last_client_ipv4 = 0;
  last_request_us = 0;
  last_response_us = 0;
  timing = record {
    samples = 0;
    timing_samples = 0;
    rx_start = zero_span;
    rx_call = zero_span;
    building = zero_span;
    tx_to_send = zero_span;
    send_call = zero_span;
    total = zero_span;
  };
  comparison = record {
    samples = 0;
    misses = 0;
    delta_sum_ns = 0;
    delta_last_ns = 0;
    delta_min_ns = 0;
    delta_avg_ns = 0;
    delta_max_ns = 0;
    bracket_last_ns = 0;
    age_last_us = 0;
  };
  authoritative_responses = 0;
  authority_drops = 0;
  advertised_stratum = 0;
  advertised_leap = 0;
  advertised_dispersion = 0;
}

-- `ntp_server_get_status`: what a normal response would advertise now.
unfoldable pub get_status : Option ClockStatus → Option ℕ → ServerStatus → ServerStatus
get_status clock gnss_leap s = elim (get_server_quality clock gnss_leap) [
  | none ↦ record s { advertised_stratum = 16; advertised_leap = 3; advertised_dispersion = 0 }
  | some quality ↦ record s {
    advertised_stratum = quality.stratum;
    advertised_leap = quality.leap;
    advertised_dispersion = quality.dispersion;
  }
]

-- The task has opened the socket, or failed to.
unfoldable pub record_socket : Bool → ServerStatus → ServerStatus
record_socket opened s =
    if opened
    then record s { socket_bound = true }
    else record s { socket_open_failures = u32 (s.socket_open_failures + 1); socket_bound = false }

-- `ntp_server_start`, where `created` says whether the task
-- is created; the Boolean is `s_started`.
unfoldable pub start : {nvs : Nvs} → Bool → Bool × Server nvs → Status × (Bool × Server nvs)
start created (true, s) = (esp_ok, (true, s))
start created (false, s) =
    let fresh = record zero_status {
      started = true;
      advertised_stratum = 16;
      advertised_leap = 3;
    } in
    if created
    then (esp_ok, (true, record s { clients = init; status = fresh }))
    else (err no_mem, (false, record s { clients = init; status = zero_status }))
