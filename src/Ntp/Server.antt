-- ===== src/Ntp/Server.antt =====
-- main/ntp_server.c: the answer to a datagram, from the parsing of it to the sending of the response. What the
-- other parts of the device and the system answer in the course of a request stands in
-- `Surroundings`; a time that a call of `esp_timer_get_time` gives is a number of microseconds.
pub mod Timing
pub mod Comparison
pub mod Request
pub mod Lifecycle
use esp32p4_nts_time_server.Base.{
  ℕ, zero, suc, ◌+◌, List, [], ◌∷◌, ◌++◌, Bool, true, false, not, ◌&&◌, ◌||◌, Option, none, some,
  length, ltb, leb, ◌==◌, if◌then◌else◌, u32, Result, ok, err, EspErr, Status, esp_ok,
}
use esp32p4_nts_time_server.Clock.{
  ClockState, unsynchronized, acquiring, synchronized, holdover, fail_closed,
}
use esp32p4_nts_time_server.Ntp.Packet.{
  NtpTimestamp, NtpPacketFields, parse, build, refid_from_text,
}
use esp32p4_nts_time_server.Ntp.RateLimit.{Clients, allow}
use esp32p4_nts_time_server.Ntp.Server.Timing.{
  TimingStats, Sample, clamp_duration_us, record_timing,
}
use esp32p4_nts_time_server.Ntp.Server.Comparison.{
  RxComparison, HwRxTimestamp, record_comparison, record_miss,
}
use esp32p4_nts_time_server.Nts.AesSiv.{Psa}
use esp32p4_nts_time_server.Nts.Keyring.{Nvs, Memory}
use esp32p4_nts_time_server.Nts.Cookie.{Draws}
use esp32p4_nts_time_server.Nts.Auth.{
  AuthContext, AuthStats, zero_context, request_present, verify_request,
}
use esp32p4_nts_time_server.Nts.Auth.Response.{protect_response_impl, count_protection}

-- The parts of `clock_discipline_status_t` that the server reads.
pub record ClockStatus : Type 0 where
  pub state : ClockState
  pub solution_valid : Bool
  pub root_dispersion_16_16 : ℕ

pub record Quality : Type 0 where
  pub stratum : ℕ
  pub leap : ℕ
  pub refid : ℕ
  pub dispersion : ℕ

-- The leap indicator of the GNSS status, or nothing where there is none.
unfoldable pub leap_from_gnss : Option ℕ → ℕ
leap_from_gnss none = 3
leap_from_gnss (some indicator) =
    if indicator == 1 then 1 else if indicator == 2 then 2 else if indicator == 0 then 0 else 3

-- "GPS "
abbrev pub refid_gps : List ℕ
refid_gps = 71 ∷ 80 ∷ 83 ∷ 32 ∷ []

-- "HOLD"
abbrev pub refid_hold : List ℕ
refid_hold = 72 ∷ 79 ∷ 76 ∷ 68 ∷ []

-- "RATE"
abbrev pub refid_rate : List ℕ
refid_rate = 82 ∷ 65 ∷ 84 ∷ 69 ∷ []

-- The state is one whose two tests `get_server_quality` makes in turn.
unfoldable pub quality_of : ClockStatus → ℕ → Option Quality
quality_of clock leap = elim clock.state [
  | synchronized ↦
      if not clock.solution_valid || leap == 3
      then none
      else some (record {
        stratum = 1;
        leap = leap;
        refid = refid_from_text refid_gps;
        dispersion = clock.root_dispersion_16_16;
      })
  | holdover ↦
      if not clock.solution_valid
      then none
      else some (record {
        stratum = 2;
        leap = 0;
        refid = refid_from_text refid_hold;
        dispersion = clock.root_dispersion_16_16;
      })
  | _ ↦ none
]

unfoldable pub get_server_quality : Option ClockStatus → Option ℕ → Option Quality
get_server_quality none gnss = none
get_server_quality (some clock) gnss = quality_of clock (leap_from_gnss gnss)

unfoldable pub valid_client_request : NtpPacketFields → Bool
valid_client_request request = request.mode == 3 && leb 1 request.version && leb request.version 4

abbrev pub zero_timestamp : NtpTimestamp
zero_timestamp = record { seconds = 0; fraction = 0 }

-- The packet of `build_rate_kod`, where `now` is the current timestamp if there is one.
unfoldable pub kod_fields : NtpPacketFields → Option NtpTimestamp → NtpPacketFields
kod_fields request now =
    let stamp : NtpTimestamp = elim now [ none ↦ zero_timestamp | some t ↦ t ] in
    record {
      leap_indicator = 3;
      version = request.version;
      mode = 4;
      stratum = 0;
      precision = 236;
      root_delay = 0;
      root_dispersion = 0;
      reference_id = refid_from_text refid_rate;
      reference_timestamp = stamp;
      origin_timestamp = request.transmit_timestamp;
      receive_timestamp = stamp;
      transmit_timestamp = stamp;
    }

-- The packet of `build_server_response`.
unfoldable pub response_fields :
    NtpPacketFields → Quality → NtpTimestamp → NtpTimestamp → NtpTimestamp → NtpPacketFields
response_fields request quality reference receive transmit = record {
  leap_indicator = quality.leap;
  version = request.version;
  mode = 4;
  stratum = quality.stratum;
  precision = 236;
  root_delay = 0;
  root_dispersion = quality.dispersion;
  reference_id = quality.refid;
  reference_timestamp = reference;
  origin_timestamp = request.transmit_timestamp;
  receive_timestamp = receive;
  transmit_timestamp = transmit;
}

-- The readings of the timer, in the order of a request.
pub record Times : Type 0 where
  pub recv_return : ℕ
  pub recorded : ℕ
  pub limited : ℕ
  pub rx_start : ℕ
  pub rx_complete : ℕ
  pub build_start : ℕ
  pub tx_complete : ℕ
  pub packet_built : ℕ
  pub packet_protected : ℕ
  pub send_start : ℕ
  pub send_complete : ℕ
  pub answered : ℕ

-- What the request meets: the mapped hardware timestamp, the answers of the clock and of the
-- GNSS service, whether `sendto` sends the whole datagram, and what the NTS functions draw.
pub record Surroundings : Type 0 where
  pub hardware : Option HwRxTimestamp
  pub software : Option NtpTimestamp
  pub clock : Option ClockStatus
  pub gnss_leap : Option ℕ
  pub reference : Option NtpTimestamp
  pub transmit : Option NtpTimestamp
  pub kod_now : Option NtpTimestamp
  pub sends : Bool
  pub times : Times
  pub random : ℕ → List ℕ
  pub cookie_clock : Option ℕ
  pub cookie_clock_again : Option ℕ
  pub draws : Draws
  pub response_nonce : List ℕ

-- `ntp_server_status_t` with the sums behind its averages.
pub record ServerStatus : Type 0 where
  pub started : Bool
  pub socket_bound : Bool
  pub requests_received : ℕ
  pub invalid_requests : ℕ
  pub unsynchronized_drops : ℕ
  pub rate_kod_responses : ℕ
  pub normal_responses : ℕ
  pub send_failures : ℕ
  pub socket_open_failures : ℕ
  pub last_client_ipv4 : ℕ
  pub last_request_us : ℕ
  pub last_response_us : ℕ
  pub timing : TimingStats
  pub comparison : RxComparison
  pub authoritative_responses : ℕ
  pub authority_drops : ℕ
  pub advertised_stratum : ℕ
  pub advertised_leap : ℕ
  pub advertised_dispersion : ℕ

unfoldable pub record_request : ℕ → ℕ → ServerStatus → ServerStatus
record_request client_ipv4 now_us s = record s {
  requests_received = u32 (s.requests_received + 1);
  last_client_ipv4 = client_ipv4;
  last_request_us = now_us;
}

unfoldable pub record_invalid_request : ServerStatus → ServerStatus
record_invalid_request s = record s { invalid_requests = u32 (s.invalid_requests + 1) }

unfoldable pub record_unsynchronized_drop : ServerStatus → ServerStatus
record_unsynchronized_drop s = record s { unsynchronized_drops = u32 (s.unsynchronized_drops + 1) }

unfoldable pub record_kod : ℕ → ServerStatus → ServerStatus
record_kod now_us s = record s {
  rate_kod_responses = u32 (s.rate_kod_responses + 1);
  last_response_us = now_us;
}

unfoldable pub record_response : ℕ → Quality → ServerStatus → ServerStatus
record_response now_us quality s = record s {
  normal_responses = u32 (s.normal_responses + 1);
  last_response_us = now_us;
  advertised_stratum = quality.stratum;
  advertised_leap = quality.leap;
  advertised_dispersion = quality.dispersion;
}

unfoldable pub record_send_failure : ServerStatus → ServerStatus
record_send_failure s = record s { send_failures = u32 (s.send_failures + 1) }

unfoldable pub record_authority_drop : ServerStatus → ServerStatus
record_authority_drop s = record s { authority_drops = u32 (s.authority_drops + 1) }

unfoldable pub record_authoritative : ServerStatus → ServerStatus
record_authoritative s = record s { authoritative_responses = u32 (s.authoritative_responses + 1) }
