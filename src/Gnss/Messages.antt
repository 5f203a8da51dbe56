-- ===== src/Gnss/Messages.antt =====
-- main/gnss_service.c: the state of the service, and the handlers of the UBX messages. Values of
-- the types int8_t and int32_t stand as int64_t bit patterns. Times are those of
-- `esp_timer_get_time`, which is never negative; a difference of two times stops at 0, as the code
-- has it where the age would be negative.
pub mod Identity
use esp32p4_nts_time_server.Base.{
  ℕ, ◌+◌, ◌-◌, ◌*◌, ◌/◌, ◌%◌, ◌^◌, Bool, true, false, not, ◌&&◌, ◌||◌, Option, none, some, List, [],
  ◌∷◌, length, take, drop, u32, u64, ltb, leb, ◌==◌, if◌then◌else◌, Status, esp_ok, err,
  invalid_response,
}
use esp32p4_nts_time_server.Base.Bytes.{byte_at}
use esp32p4_nts_time_server.Base.Signed.{signed_ltb}
use esp32p4_nts_time_server.Gnss.Dates.{datetime_to_epoch}
use esp32p4_nts_time_server.Gnss.Ubx.{UbxParser, read_le_u16, read_le_u32}

-- `gnss_service_status_t`
pub record GnssServiceStatus : Type 0 where
  pub initialized : Bool
  pub utc_valid : Bool
  pub utc_from_ubx_pvt : Bool
  pub utc_seconds : ℕ
  pub utc_age_us : ℕ
  pub gnss_fix_valid : Bool
  pub gnss_time_fully_resolved : Bool
  pub fix_type : ℕ
  pub satellites_used : ℕ
  pub leap_indicator : ℕ
  pub leap_information_valid : Bool
  pub current_leap_seconds : ℕ
  pub pending_leap_change : ℕ
  pub seconds_to_leap_event : ℕ
  pub timing_pulse_valid : Bool
  pub timing_week : ℕ
  pub timing_tow_ms : ℕ
  pub timing_tow_sub_ms : ℕ
  pub timing_quantization_error : ℕ
  pub timing_pulse_flags : ℕ
  pub timing_pulse_age_us : ℕ
  pub ubx_configuration_attempted : Bool
  pub ubx_configuration_complete : Bool
  pub ubx_timepulse_configuration_attempted : Bool
  pub ubx_timepulse_configuration_complete : Bool
  pub ubx_ack_count : ℕ
  pub ubx_nak_count : ℕ
  pub ubx_configuration_failures : ℕ
  pub ubx_frames_valid : ℕ
  pub ubx_frames_invalid_checksum : ℕ
  pub ubx_frames_invalid_length : ℕ
  pub ubx_frames_unsupported : ℕ
  pub ubx_nav_pvt_messages : ℕ
  pub ubx_nav_timels_messages : ℕ
  pub ubx_tim_tp_messages : ℕ
  pub valid_zda_messages : ℕ
  pub invalid_messages : ℕ
  pub uart_bytes_received : ℕ
  pub receiver_identity_valid : Bool
  pub receiver_model : List ℕ
  pub receiver_software_version : List ℕ
  pub receiver_hardware_version : List ℕ

-- A call of `app_state_set_gnss_valid`.
pub record GnssReport : Type 0 where
  pub valid : Bool
  pub utc_seconds : ℕ
  pub leap_indicator : ℕ
  pub age_us : ℕ

-- The service's variables, and the calls of `app_state_set_gnss_valid` so far, the last one first.
-- The line that is being read has `s_nmea_length` characters.
pub record Gnss : Type 0 where
  pub status : GnssServiceStatus
  pub parser : UbxParser
  pub nmea_line : List ℕ
  pub last_utc_rx_us : ℕ
  pub last_pvt_rx_us : ℕ
  pub last_tim_tp_rx_us : ℕ
  pub ack_waiting : Bool
  pub ack_expected_class : ℕ
  pub ack_expected_id : ℕ
  pub ack_result : Status
  pub reports : List GnssReport

-- `APP_GNSS_TIMEOUT_SECONDS`, in microseconds
abbrev pub timeout_us : ℕ
timeout_us = 5_000_000

-- `APP_LEAP_UNKNOWN`
abbrev pub leap_unknown : ℕ
leap_unknown = 3

unfoldable pub report : Bool → ℕ → ℕ → ℕ → Gnss → Gnss
report valid seconds leap age g = record g {
  reports =
      record { valid = valid; utc_seconds = seconds; leap_indicator = leap; age_us = age }
      ∷ g.reports;
}

-- The bit 2^k of a byte.
unfoldable pub has_bit : ℕ → ℕ → Bool
has_bit byte k = not (byte / 2 ^ k % 2 == 0)

-- `(int8_t)byte`
unfoldable pub int8_of : ℕ → ℕ
int8_of byte = if ltb byte 128 then byte else u64 (2 ^ 64 - 256 + byte)

unfoldable pub read_le_i32 : List ℕ → ℕ
read_le_i32 p =
    let word = read_le_u32 p in if ltb word (2 ^ 31) then word else u64 (2 ^ 64 - 2 ^ 32 + word)

unfoldable pub count_ack : ℕ → GnssServiceStatus → GnssServiceStatus
count_ack message_id s =
    if message_id == 1
    then record s { ubx_ack_count = u32 (s.ubx_ack_count + 1) }
    else if message_id == 0
    then record s { ubx_nak_count = u32 (s.ubx_nak_count + 1) }
    else s

unfoldable pub handle_ubx_ack : ℕ → List ℕ → Gnss → Gnss
handle_ubx_ack message_id payload g =
    if not (length payload == 2)
    then g
    else (let counted = record g { status = count_ack message_id g.status } in
        if g.ack_waiting
          && (byte_at payload 0 == g.ack_expected_class)
          && (byte_at payload 1 == g.ack_expected_id)
        then record counted {
          ack_result = if message_id == 1 then esp_ok else err invalid_response;
          ack_waiting = false;
        }
        else counted)

-- The fix that a NAV-PVT message reports.
unfoldable pub pvt_fix_valid : List ℕ → Bool
pvt_fix_valid payload = has_bit (byte_at payload 21) 0 && leb 2 (byte_at payload 20)

-- The time that a NAV-PVT message gives, where its flags make it valid.
unfoldable pub pvt_epoch : List ℕ → Option ℕ
pvt_epoch payload =
    let valid_flags = byte_at payload 11 in
    if has_bit valid_flags 0
      && has_bit valid_flags 1
      && has_bit valid_flags 2
      && pvt_fix_valid payload
    then datetime_to_epoch (read_le_u16 (drop 4 payload)) (byte_at payload 6) (byte_at payload 7)
        (byte_at payload 8) (byte_at payload 9) (byte_at payload 10)
    else none

-- The fields that every NAV-PVT message sets.
unfoldable pub record_pvt : List ℕ → GnssServiceStatus → GnssServiceStatus
record_pvt payload s = record s {
  ubx_nav_pvt_messages = u32 (s.ubx_nav_pvt_messages + 1);
  gnss_fix_valid = pvt_fix_valid payload;
  gnss_time_fully_resolved = has_bit (byte_at payload 11) 2;
  fix_type = byte_at payload 20;
  satellites_used = byte_at payload 23;
}

unfoldable pub handle_ubx_nav_pvt : ℕ → List ℕ → Gnss → Gnss
handle_ubx_nav_pvt now payload g =
    if ltb (length payload) 92
    then g
    else (let s = record_pvt payload g.status in
        elim (pvt_epoch payload) [
          | some epoch ↦ report true epoch s.leap_indicator 0 (record g {
            status = record s {
              utc_valid = true;
              utc_from_ubx_pvt = true;
              utc_seconds = epoch;
              utc_age_us = 0;
            };
            last_pvt_rx_us = now;
            last_utc_rx_us = now;
          })
          | none ↦ report false 0 leap_unknown 0 (record g {
            status = if s.utc_from_ubx_pvt then record s { utc_valid = false } else s;
          })
        ])

-- What a NAV-TIMELS message says of leap seconds, by its flags, its leap seconds, the coming change
-- and the seconds up to it.
unfoldable pub leap_usable : ℕ → ℕ → ℕ → ℕ → Bool
leap_usable flags current change to_event =
    has_bit flags 0
    || (not (signed_ltb current 0)
        && not (signed_ltb 64 current)
        && (change == 0)
        && signed_ltb 86_400 to_event)

unfoldable pub leap_of : ℕ → ℕ → ℕ → ℕ → ℕ
leap_of flags current change to_event =
    if not (leap_usable flags current change to_event)
    then leap_unknown
    else if has_bit flags 1 && signed_ltb 0 to_event && signed_ltb 0 change
    then 1
    else if has_bit flags 1 && signed_ltb 0 to_event && signed_ltb change 0
    then 2
    else 0

unfoldable pub handle_ubx_nav_timels : List ℕ → Gnss → Gnss
handle_ubx_nav_timels payload g =
    if ltb (length payload) 24
    then g
    else (let current = int8_of (byte_at payload 9) in
        let change = int8_of (byte_at payload 11) in
        let to_event = read_le_i32 (drop 12 payload) in
        let flags = byte_at payload 20 in
        let s = g.status in
        record g {
          status = record s {
            ubx_nav_timels_messages = u32 (s.ubx_nav_timels_messages + 1);
            leap_information_valid = leap_usable flags current change to_event;
            current_leap_seconds = current;
            pending_leap_change = change;
            seconds_to_leap_event = to_event;
            leap_indicator = leap_of flags current change to_event;
          };
        })

unfoldable pub handle_ubx_tim_tp : ℕ → List ℕ → Gnss → Gnss
handle_ubx_tim_tp now payload g =
    if ltb (length payload) 16
    then g
    else (let s = g.status in
        record g {
          status = record s {
            ubx_tim_tp_messages = u32 (s.ubx_tim_tp_messages + 1);
            timing_pulse_valid = true;
            timing_week = read_le_u16 (drop 12 payload);
            timing_tow_ms = read_le_u32 payload;
            timing_tow_sub_ms = read_le_i32 (drop 4 payload);
            timing_quantization_error = read_le_i32 (drop 8 payload);
            timing_pulse_flags = byte_at payload 14;
            timing_pulse_age_us = 0;
          };
          last_tim_tp_rx_us = now;
        })
