-- ===== src/Gnss/Service/Tests.antt =====
-- The service at its start, and one that has a fix and a time pulse.
use esp32p4_nts_time_server.Base.{ℕ, ◌-◌, ◌≤◌, ◌≡◌, refl, true, List, [], ◌∷◌, arith}
use esp32p4_nts_time_server.Clock.Discipline.Monitor.{gnss_ready}
use esp32p4_nts_time_server.Gnss.Messages.{Gnss, timeout_us}
use esp32p4_nts_time_server.Gnss.Service.{gnss_update_staleness, gnss_service_get_status}
use esp32p4_nts_time_server.Gnss.Service.Start.{initial, initial_status}
use esp32p4_nts_time_server.Gnss.Service.Source.{IsSound, task_run, task_run-IsSound}
use esp32p4_nts_time_server.Gnss.Service.Age.{clock_part, ready_is_recent}

initial-IsSound : IsSound initial
unfolding initial
initial-IsSound = ground arith

-- The beginning of a line, and a byte of a frame.
abbrev rounds : List (List (ℕ × ℕ) × ℕ)
rounds =
    ((1_000_000, 36) ∷ (1_000_010, 71) ∷ [], 1_000_020) ∷ ((1_250_000, 181) ∷ [], 1_250_010) ∷ []

task_run-IsSound_example : IsSound (task_run rounds initial)
task_run-IsSound_example = task_run-IsSound rounds initial (omega arith) initial-IsSound

abbrev fixed : Gnss
fixed = record initial {
  status = record initial_status {
    utc_valid = true;
    utc_from_ubx_pvt = true;
    gnss_fix_valid = true;
    gnss_time_fully_resolved = true;
    leap_information_valid = true;
    timing_pulse_valid = true;
  };
  last_utc_rx_us = 10_000_000;
  last_tim_tp_rx_us = 10_100_000;
}

fixed-IsSound : IsSound fixed
unfolding initial
fixed-IsSound = ground arith

fixed_ready :
    gnss_ready
      (clock_part (gnss_service_get_status 12_000_000 (gnss_update_staleness 11_000_000 fixed)))
    ≡ true
unfolding gnss_ready gnss_service_get_status gnss_update_staleness
    esp32p4_nts_time_server.Gnss.Service.update_utc_age
    esp32p4_nts_time_server.Gnss.Service.update_timing_age
fixed_ready = refl

ready_is_recent_example :
    let aged = gnss_update_staleness 11_000_000 fixed in
    (11_000_000 - aged.last_utc_rx_us ≤ timeout_us)
    × (11_000_000 - aged.last_tim_tp_rx_us ≤ timeout_us)
    × ((gnss_service_get_status 12_000_000 aged).utc_age_us ≡ 12_000_000 - aged.last_utc_rx_us)
    × ((gnss_service_get_status 12_000_000 aged).timing_pulse_age_us
        ≡ 12_000_000 - aged.last_tim_tp_rx_us)
ready_is_recent_example = ready_is_recent 11_000_000 12_000_000 fixed fixed-IsSound fixed_ready
