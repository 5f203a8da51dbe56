-- ===== src/Gnss/Service/Age.antt =====
-- main/gnss_service.c: how long what was received counts.
use esp32p4_nts_time_server.Base.{ℕ, ◌+◌, ◌-◌, ◌≤◌, ◌≡◌, ◌≢◌, true, arith, u32}
use esp32p4_nts_time_server.Clock.Discipline.Monitor.{GnssStatus, gnss_ready}
use esp32p4_nts_time_server.Gnss.Messages.{Gnss, GnssServiceStatus, timeout_us, report}
use esp32p4_nts_time_server.Gnss.Service.{
  update_utc_age, update_timing_age, gnss_update_staleness, take_zda, uses_fallback,
  gnss_service_get_status,
}
use esp32p4_nts_time_server.Gnss.Service.Source.{IsSound}

-- The part of the status that the clock reads.
abbrev pub clock_part : GnssServiceStatus → GnssStatus
clock_part s = record {
  utc_valid = s.utc_valid;
  utc_from_ubx_pvt = s.utc_from_ubx_pvt;
  gnss_fix_valid = s.gnss_fix_valid;
  gnss_time_fully_resolved = s.gnss_time_fully_resolved;
  leap_information_valid = s.leap_information_valid;
  leap_indicator = s.leap_indicator;
  current_leap_seconds = s.current_leap_seconds;
  timing_pulse_valid = s.timing_pulse_valid;
  timing_week = s.timing_week;
  timing_tow_ms = s.timing_tow_ms;
  timing_quantization_error = s.timing_quantization_error;
  timing_pulse_age_us = s.timing_pulse_age_us;
}

-- Behind an update of the ages, a status that the clock takes as ready rests on UTC and on a time
-- pulse that were both received at most 5 s before, and the status that is read at that time gives
-- those ages. The state is sound.
pub ready_is_recent :
    (now later : ℕ) (g : Gnss)
    → IsSound g
    → let aged = gnss_update_staleness now g in
      gnss_ready (clock_part (gnss_service_get_status later aged)) ≡ true
      → (now - aged.last_utc_rx_us ≤ timeout_us)
        × (now - aged.last_tim_tp_rx_us ≤ timeout_us)
        × ((gnss_service_get_status later aged).utc_age_us ≡ later - aged.last_utc_rx_us)
        × ((gnss_service_get_status later aged).timing_pulse_age_us
            ≡ later - aged.last_tim_tp_rx_us)
unfolding gnss_update_staleness update_utc_age update_timing_age gnss_service_get_status gnss_ready
    report
ready_is_recent now later g h ready = ground (arith, h, ready)

-- While UTC comes from UBX-NAV-PVT, with one received at most 5 s before, a ZDA line changes
-- nothing but the count of such lines.
pub take_zda_ignored :
    (now epoch : ℕ) (g : Gnss)
    → g.status.utc_from_ubx_pvt ≡ true
    → g.last_pvt_rx_us ≢ 0
    → now - g.last_pvt_rx_us ≤ timeout_us
    → take_zda now epoch g ≡ record g {
      status = record g.status { valid_zda_messages = u32 (g.status.valid_zda_messages + 1) };
    }
unfolding take_zda uses_fallback
take_zda_ignored now epoch g from dated recent = ground (arith, from, dated, recent)
