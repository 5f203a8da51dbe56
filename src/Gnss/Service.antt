-- ===== src/Gnss/Service.antt =====
-- main/gnss_service.c: the dispatch of messages, the bytes of the UART, the ageing of what was
-- received, the commands to the receiver and the start of the service.
pub mod Age
pub mod Source
pub mod Start
mod Tests
use Prim.Native.Nat.{zero, suc}
use esp32p4_nts_time_server.Base.{
  ℕ, ◌+◌, ◌-◌, ◌*◌, Bool, true, false, not, ◌&&◌, ◌||◌, Option, none, some, List, [], ◌∷◌, ◌++◌,
  length, u32, ltb, leb, ◌==◌, if◌then◌else◌, Status, Result, ok, err, esp_ok, fail, timeout,
  no_mem,
}
use esp32p4_nts_time_server.Gnss.Ubx.{
  UbxParser, UbxParseState, wait_sync_1, UbxOutcome, nothing, invalid_length, invalid_checksum,
  dispatch, ubx_parser_consume, ubx_parser_reset, write_le_u32,
}
use esp32p4_nts_time_server.Gnss.Nmea.{before, nmea_checksum_valid, parse_zda_epoch}
use esp32p4_nts_time_server.Gnss.Messages.{
  Gnss, GnssServiceStatus, timeout_us, leap_unknown, report, handle_ubx_ack, handle_ubx_nav_pvt,
  handle_ubx_nav_timels, handle_ubx_tim_tp,
}
use esp32p4_nts_time_server.Gnss.Messages.Identity.{handle_ubx_mon_ver}

-- Whether a ZDA line stands in for UBX-NAV-PVT.
unfoldable pub uses_fallback : ℕ → Gnss → Bool
uses_fallback now g =
    not g.status.utc_from_ubx_pvt
    || (g.last_pvt_rx_us == 0)
    || ltb timeout_us (now - g.last_pvt_rx_us)

unfoldable pub take_zda : ℕ → ℕ → Gnss → Gnss
take_zda now epoch given =
    let g = record given {
      status = record given.status {
        valid_zda_messages = u32 (given.status.valid_zda_messages + 1);
      };
    } in
    if uses_fallback now g
    then report true epoch leap_unknown 0 (record g {
      status = record g.status {
        utc_valid = true;
        utc_from_ubx_pvt = false;
        utc_seconds = epoch;
        utc_age_us = 0;
        leap_indicator = leap_unknown;
      };
      last_utc_rx_us = now;
    })
    else g

unfoldable pub count_invalid_message : Gnss → Gnss
count_invalid_message g = record g {
  status = record g.status { invalid_messages = u32 (g.status.invalid_messages + 1) };
}

unfoldable pub process_nmea_line : ℕ → List ℕ → Gnss → Gnss
process_nmea_line now line g =
    if not (nmea_checksum_valid line)
    then count_invalid_message g
    else elim (parse_zda_epoch line) [ none ↦ g | some epoch ↦ take_zda now epoch g ]

-- `dispatch_ubx_frame` behind its counter of valid frames.
unfoldable pub dispatch_message : ℕ → ℕ → ℕ → List ℕ → Gnss → Gnss
dispatch_message now message_class message_id payload g =
    if (message_class == 5) && ((message_id == 1) || (message_id == 0))
    then handle_ubx_ack message_id payload g
    else if (message_class == 1) && (message_id == 7)
    then handle_ubx_nav_pvt now payload g
    else if (message_class == 1) && (message_id == 38)
    then handle_ubx_nav_timels payload g
    else if (message_class == 13) && (message_id == 1)
    then handle_ubx_tim_tp now payload g
    else if (message_class == 10) && (message_id == 4)
    then handle_ubx_mon_ver payload g
    else record g {
      status = record g.status {
        ubx_frames_unsupported = u32 (g.status.ubx_frames_unsupported + 1);
      };
    }

unfoldable pub dispatch_ubx_frame : ℕ → ℕ → ℕ → List ℕ → Gnss → Gnss
dispatch_ubx_frame now message_class message_id payload g =
    dispatch_message now message_class message_id payload (record g {
      status = record g.status { ubx_frames_valid = u32 (g.status.ubx_frames_valid + 1) };
    })

-- What the parser made of a byte, done to the service.
unfoldable pub perform : ℕ → UbxOutcome → Gnss → Gnss
perform now nothing g = g
perform now invalid_length g = record g {
  status = record g.status {
    ubx_frames_invalid_length = u32 (g.status.ubx_frames_invalid_length + 1);
  };
}
perform now invalid_checksum g = record g {
  status = record g.status {
    ubx_frames_invalid_checksum = u32 (g.status.ubx_frames_invalid_checksum + 1);
  };
}
perform now (dispatch message_class message_id payload) g =
    dispatch_ubx_frame now message_class message_id payload g

unfoldable pub is_idle : UbxParseState → Bool
is_idle wait_sync_1 = true
is_idle _ = false

-- A byte of an NMEA line.
unfoldable pub process_nmea_byte : ℕ → ℕ → Gnss → Gnss
process_nmea_byte now byte g =
    if byte == 36
    then record g { nmea_line = 36 ∷ [] }
    else if length g.nmea_line == 0
    then g
    else if byte == 13
    then g
    else if byte == 10
    then record (process_nmea_line now (before 0 g.nmea_line) g) { nmea_line = [] }
    else if ltb (length g.nmea_line) 159
    then record g { nmea_line = g.nmea_line ++ byte ∷ [] }
    else count_invalid_message (record g { nmea_line = [] })

unfoldable pub process_received_byte : ℕ → ℕ → Gnss → Gnss
process_received_byte now byte g =
    let (parser, outcome) = ubx_parser_consume byte g.parser in
    if not (is_idle g.parser.state) || (byte == 181)
    then perform now outcome (record g { nmea_line = []; parser = parser })
    else process_nmea_byte now byte g

-- Bytes, each with the time at which it is processed.
unfoldable pub process_bytes : List (ℕ × ℕ) → Gnss → Gnss
process_bytes [] g = g
process_bytes ((now, byte) ∷ bytes) g = process_bytes bytes (process_received_byte now byte g)

-- The first half of `gnss_update_staleness`.
unfoldable pub update_utc_age : ℕ → Gnss → Gnss
update_utc_age now g =
    if g.status.utc_valid && ltb 0 g.last_utc_rx_us
    then (let age = now - g.last_utc_rx_us in
        let aged = record g.status { utc_age_us = age } in
        if ltb timeout_us age
        then report false 0 leap_unknown age
            (record g { status = record aged { utc_valid = false; utc_from_ubx_pvt = false } })
        else record g { status = aged })
    else g

unfoldable pub update_timing_age : ℕ → Gnss → Gnss
update_timing_age now g =
    if g.status.timing_pulse_valid && ltb 0 g.last_tim_tp_rx_us
    then (let age = now - g.last_tim_tp_rx_us in
        let aged = record g.status { timing_pulse_age_us = age } in
        record g {
          status = if ltb timeout_us age then record aged { timing_pulse_valid = false } else aged;
        })
    else g

unfoldable pub gnss_update_staleness : ℕ → Gnss → Gnss
gnss_update_staleness now g = update_timing_age now (update_utc_age now g)

-- A round of `gnss_task`: the bytes that one read returned, and the time behind them.
unfoldable pub gnss_task_round : List (ℕ × ℕ) → ℕ → Gnss → Gnss
gnss_task_round bytes now g =
    let counted = record g {
      status = record g.status {
        uart_bytes_received = u32 (g.status.uart_bytes_received + length bytes);
      };
    } in
    gnss_update_staleness now (if ltb 0 (length bytes) then process_bytes bytes counted else g)

unfoldable pub gnss_service_get_status : ℕ → Gnss → GnssServiceStatus
gnss_service_get_status now g =
    let s = g.status in
    record s {
      utc_age_us =
          if s.utc_valid && ltb 0 g.last_utc_rx_us then now - g.last_utc_rx_us else s.utc_age_us;
      timing_pulse_age_us =
          if s.timing_pulse_valid && ltb 0 g.last_tim_tp_rx_us
          then now - g.last_tim_tp_rx_us
          else s.timing_pulse_age_us;
    }

-- What the UART driver answers to `ubx_write_frame`: the bytes written by its three calls, and
-- `uart_wait_tx_done`.
pub record UartAnswers : Type 0 where
  pub header_written : ℕ
  pub payload_written : ℕ
  pub checksum_written : ℕ
  pub tx_done : Status

-- The result of `ubx_write_frame`, which sends the bytes of `ubx_frame`.
unfoldable pub ubx_write_frame : UartAnswers → List ℕ → Status
ubx_write_frame uart payload =
    if not (uart.header_written == 6)
    then err fail
    else if ltb 0 (length payload) && not (uart.payload_written == length payload)
    then err fail
    else if not (uart.checksum_written == 2)
    then err fail
    else uart.tx_done

-- An attempt of a command: the driver's answers, and what each read up to the deadline returned.
pub record Attempt : Type 0 where
  pub uart : UartAnswers
  pub reads : List (List (ℕ × ℕ))

-- The inner loop of `ubx_send_and_wait_ack`.
unfoldable pub wait_ack : List (List (ℕ × ℕ)) → Gnss → Gnss
wait_ack [] g = g
wait_ack (bytes ∷ reads) g = if g.ack_waiting then wait_ack reads (process_bytes bytes g) else g

-- One round of the outer loop, with the result that it leaves and whether it returns.
unfoldable pub send_once : ℕ → ℕ → List ℕ → Attempt → Gnss → Gnss × Status × Bool
send_once message_class message_id payload attempt given =
    let g = record given {
      ack_waiting = true;
      ack_expected_class = message_class;
      ack_expected_id = message_id;
      ack_result = err timeout;
    } in
    elim (ubx_write_frame attempt.uart payload) [
      | err code ↦ (record g { ack_waiting = false }, err code, false)
      | ok _ ↦
          let waited = wait_ack attempt.reads g in
          elim waited.ack_result [
            | ok _ ↦
                if not waited.ack_waiting
                then (waited, esp_ok, true)
                else (record waited { ack_waiting = false }, esp_ok, false)
            | err code ↦ (record waited { ack_waiting = false }, err code, false)
          ]
    ]

-- `ubx_send_and_wait_ack`, on what meets its attempts.
unfoldable pub send_and_wait : ℕ → ℕ → List ℕ → List Attempt → Status → Gnss → Gnss × Status
send_and_wait message_class message_id payload [] result g = (
  record g {
    status = record g.status {
      ubx_configuration_failures = u32 (g.status.ubx_configuration_failures + 1);
    };
  },
  result,
)
send_and_wait message_class message_id payload (attempt ∷ attempts) result g =
    let (next, answer, done) = send_once message_class message_id payload attempt g in
    if done
    then (next, answer)
    else send_and_wait message_class message_id payload attempts answer next
