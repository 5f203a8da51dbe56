-- ===== src/Clock/Pps/Tests.antt =====
-- Two captures a second apart.
use esp32p4_nts_time_server.Base.{
  ℕ, ◌+◌, ◌≤◌, ◌≡◌, ◌≢◌, ◌↔◌, ◌⊎◌, refl, true, false, Option, some, arith,
}
use esp32p4_nts_time_server.Clock.Discipline.Monitor.{pps_status_usable}
use esp32p4_nts_time_server.Clock.Pps.{Pps, wait_for_capture, get_pps_status, get_monotonic_us}
use esp32p4_nts_time_server.Clock.Pps.Intervals.{
  clock_part, wait_for_capture-interval, usable_is_regular,
}

abbrev running : Pps
running = record {
  status = record {
    initialized = true;
    etm_active = true;
    interval_valid = false;
    last_capture_us = 3_000_000;
    period_us = 0;
    jitter_us = 0;
    edge_count = 1;
    valid_interval_count = 0;
    invalid_interval_count = 0;
    queue_drops = 0;
    age_us = 0;
  };
  previous_capture_us = 3_000_000;
  has_queue = true;
  has_timer = true;
}

wait_for_capture-interval_example :
    let s = (wait_for_capture (some 4_000_100) running).0.status in
    ((s.interval_valid ≡ true) ↔ (
      (running.previous_capture_us ≢ 0)
      × (running.previous_capture_us + 800_000 ≤ 4_000_100)
      × (4_000_100 ≤ running.previous_capture_us + 1_200_000)))
    × (s.interval_valid ≡ true
        → (running.previous_capture_us + s.period_us ≡ 4_000_100)
          × ((s.period_us ≡ 1_000_000 + s.jitter_us) ⊎ (1_000_000 ≡ s.period_us + s.jitter_us)))
wait_for_capture-interval_example = wait_for_capture-interval 4_000_100 running refl

usable :
    pps_status_usable
      (clock_part (get_pps_status (some 4_200_000) (wait_for_capture (some 4_000_100) running).0))
    ≡ true
unfolding pps_status_usable get_pps_status wait_for_capture get_monotonic_us
    esp32p4_nts_time_server.Clock.Pps.interval_of esp32p4_nts_time_server.Clock.Pps.ticks_to_us
    esp32p4_nts_time_server.Base.Signed.llabs esp32p4_nts_time_server.Base.Signed.signed_ltb
usable = refl

usable_is_regular_example :
    (running.previous_capture_us ≢ 0)
    × (running.previous_capture_us + 999_750 ≤ 4_000_100)
    × (4_000_100 ≤ running.previous_capture_us + 1_000_250)
    × ((now : ℕ) × (get_monotonic_us (some 4_200_000) (wait_for_capture (some 4_000_100) running).0
          ≡ some now)
        × (4_000_100 ≤ now)
        × (now ≤ 4_000_100 + 2_500_000))
usable_is_regular_example = usable_is_regular 4_000_100 (some 4_200_000) running refl usable
