-- ===== src/Gnss/Service/Start.antt =====
-- main/gnss_service.c: the commands that configure the receiver, and the state at the start.
use esp32p4_nts_time_server.Base.{
  ℕ, ◌+◌, Bool, true, false, ◌&&◌, List, [], ◌∷◌, ◌++◌, Status, ok, err, esp_ok, fail, timeout,
  no_mem, ◌>>◌, if◌then◌else◌,
}
use esp32p4_nts_time_server.Base.Bytes.{zeros}
use esp32p4_nts_time_server.Gnss.Ubx.{ubx_parser_reset, write_le_u32}
use esp32p4_nts_time_server.Gnss.Messages.{Gnss, GnssServiceStatus, leap_unknown}
use esp32p4_nts_time_server.Gnss.Service.{Attempt, send_and_wait, process_bytes, ubx_write_frame}

-- The payload of CFG-MSG.
unfoldable pub message_rate_payload : ℕ → ℕ → ℕ → List ℕ
message_rate_payload message_class message_id rate =
    message_class ∷ message_id ∷ 0 ∷ rate ∷ 0 ∷ 0 ∷ 0 ∷ 0 ∷ []

unfoldable pub ubx_configure_message_rate : ℕ → ℕ → ℕ → List Attempt → Gnss → Gnss × Status
ubx_configure_message_rate message_class message_id rate attempts g =
    send_and_wait 6 1 (message_rate_payload message_class message_id rate) attempts (err fail) g

-- The payload of CFG-TP5: a rising pulse of 100 ms at 1 Hz, aligned to the time of week.
unfoldable pub tp1_payload : List ℕ
tp1_payload =
    (0 ∷ 1 ∷ 0 ∷ 0 ∷ 0 ∷ 0 ∷ 0 ∷ 0 ∷ [])
    ++ (write_le_u32 1
        ++ (write_le_u32 1
            ++ (write_le_u32 100_000
                ++ (write_le_u32 100_000 ++ (zeros 4 ++ write_le_u32 (1 + 2 + 8 + 16 + 32 + 64))))))

unfoldable pub ubx_configure_tp1 : List Attempt → Gnss → Gnss × Status
ubx_configure_tp1 attempts g = send_and_wait 6 49 tp1_payload attempts (err fail) g

unfoldable pub succeeded : Status → Bool
succeeded (ok _) = true
succeeded (err _) = false

-- What meets the attempts of the five commands, three at most for each.
pub record Attempts : Type 0 where
  pub nav_pvt : List Attempt
  pub nav_timels : List Attempt
  pub tim_tp : List Attempt
  pub zda : List Attempt
  pub tp1 : List Attempt

-- The part of `gnss_configure_receiver` on the time pulse, where the build asks for it, with
-- whether all is complete.
unfoldable pub configure_timepulse : Bool → Bool → List Attempt → Gnss → Gnss × Bool
configure_timepulse false complete attempts g = (g, complete)
configure_timepulse true complete attempts g =
    let attempted = record g {
      status = record g.status { ubx_timepulse_configuration_attempted = true };
    } in
    let (next, answer) = ubx_configure_tp1 attempts attempted in
    if succeeded answer
    then (
      record next { status = record next.status { ubx_timepulse_configuration_complete = true } },
      complete,
    )
    else (next, false)

unfoldable pub gnss_configure_receiver : Bool → Attempts → Gnss → Gnss
gnss_configure_receiver timepulse attempts g0 =
    let g1 = record g0 { status = record g0.status { ubx_configuration_attempted = true } } in
    let (g2, pvt) = ubx_configure_message_rate 1 7 1 attempts.nav_pvt g1 in
    let (g3, timels) = ubx_configure_message_rate 1 38 1 attempts.nav_timels g2 in
    let (g4, tim_tp) = ubx_configure_message_rate 13 1 1 attempts.tim_tp g3 in
    let (g5, zda) = ubx_configure_message_rate 240 8 1 attempts.zda g4 in
    let all = succeeded pvt && succeeded timels && succeeded tim_tp && succeeded zda in
    let (g6, complete) = configure_timepulse timepulse all attempts.tp1 g5 in
    record g6 { status = record g6.status { ubx_configuration_complete = complete } }

-- `s_status` as `gnss_service_init` sets it.
abbrev pub initial_status : GnssServiceStatus
initial_status = record {
  initialized = true;
  utc_valid = false;
  utc_from_ubx_pvt = false;
  utc_seconds = 0;
  utc_age_us = 0;
  gnss_fix_valid = false;
  gnss_time_fully_resolved = false;
  fix_type = 0;
  satellites_used = 0;
  leap_indicator = leap_unknown;
  leap_information_valid = false;
  current_leap_seconds = 0;
  pending_leap_change = 0;
  seconds_to_leap_event = 0;
  timing_pulse_valid = false;
  timing_week = 0;
  timing_tow_ms = 0;
  timing_tow_sub_ms = 0;
  timing_quantization_error = 0;
  timing_pulse_flags = 0;
  timing_pulse_age_us = 0;
  ubx_configuration_attempted = false;
  ubx_configuration_complete = false;
  ubx_timepulse_configuration_attempted = false;
  ubx_timepulse_configuration_complete = false;
  ubx_ack_count = 0;
  ubx_nak_count = 0;
  ubx_configuration_failures = 0;
  ubx_frames_valid = 0;
  ubx_frames_invalid_checksum = 0;
  ubx_frames_invalid_length = 0;
  ubx_frames_unsupported = 0;
  ubx_nav_pvt_messages = 0;
  ubx_nav_timels_messages = 0;
  ubx_tim_tp_messages = 0;
  valid_zda_messages = 0;
  invalid_messages = 0;
  uart_bytes_received = 0;
  receiver_identity_valid = false;
  receiver_model = [];
  receiver_software_version = [];
  receiver_hardware_version = [];
}

-- The service's variables as `gnss_service_init` sets them before the receiver is configured.
unfoldable pub initial : Gnss
initial = record {
  status = initial_status;
  parser = ubx_parser_reset;
  nmea_line = [];
  last_utc_rx_us = 0;
  last_pvt_rx_us = 0;
  last_tim_tp_rx_us = 0;
  ack_waiting = false;
  ack_expected_class = 0;
  ack_expected_id = 0;
  ack_result = err timeout;
  reports = [];
}

-- The loop of `ubx_poll_mon_ver`, on what each read up to the deadline returned.
unfoldable pub await_identity : List (List (ℕ × ℕ)) → Gnss → Gnss
await_identity [] g = g
await_identity (bytes ∷ reads) g =
    let next = process_bytes bytes g in
    let later = await_identity reads next in
    if next.status.receiver_identity_valid then next else later

unfoldable pub ubx_poll_mon_ver : Attempt → Gnss → Gnss
ubx_poll_mon_ver attempt g = elim (ubx_write_frame attempt.uart []) [
  | err code ↦ g
  | ok _ ↦ await_identity attempt.reads g
]

-- What the UART driver and the scheduler answer to `gnss_service_init`.
pub record GnssDrivers : Type 0 where
  pub uart_installed : Status
  pub uart_configured : Status
  pub pins_set : Status
  pub task_created : Bool

-- `gnss_service_init`, with whether the build configures the receiver and its time pulse.
unfoldable pub gnss_service_init :
    Bool → Bool → GnssDrivers → Attempts → Attempt → Gnss → Gnss × Status
gnss_service_init configure_ubx timepulse drivers attempts poll g =
    if g.status.initialized
    then (g, esp_ok)
    else elim (drivers.uart_installed >> drivers.uart_configured >> drivers.pins_set) [
      | err code ↦ (g, err code)
      | ok _ ↦
          let fresh = record initial { reports = g.reports } in
          let configured =
            if configure_ubx then gnss_configure_receiver timepulse attempts fresh else fresh in
          (ubx_poll_mon_ver poll configured, if drivers.task_created then esp_ok else err no_mem)
    ]
