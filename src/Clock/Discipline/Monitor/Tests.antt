-- ===== src/Clock/Discipline/Monitor/Tests.antt =====
-- An edge, with a record that comes at the second poll.
use esp32p4_nts_time_server.Base.{◌≡◌, refl, List, [], ◌∷◌, true, Option, none, some, ◌⊎◌}
use esp32p4_nts_time_server.Base.Signed.{signed_ltb, llabs, signed_quotient}
use esp32p4_nts_time_server.Clock.Discipline.{initial_clock}
use esp32p4_nts_time_server.Clock.Doubles.{whole}
use esp32p4_nts_time_server.Clock.Discipline.Monitor.{
  PpsStatus, GnssStatus, GnssSample, Round, tim_tp_is_new, tim_tp_to_utc, gnss_ready, is_awaited,
  sample_from, wait_for_gnss_sample, take_edge,
}
use esp32p4_nts_time_server.Clock.Discipline.Monitor.Fresh.{
  IsPolled, IsFrom, wait_for_gnss_sample-IsFrom,
}
use esp32p4_nts_time_server.Clock.Discipline.Monitor.Rounds.{IsMissed, IsTaken, take_edge_cases}

-- Week 2400 with 18 leap seconds.
abbrev status : GnssStatus
status = record {
  utc_valid = true;
  utc_from_ubx_pvt = true;
  gnss_fix_valid = true;
  gnss_time_fully_resolved = true;
  leap_information_valid = true;
  leap_indicator = 0;
  current_leap_seconds = 18;
  timing_pulse_valid = true;
  timing_week = 2_400;
  timing_tow_ms = 5_000;
  timing_quantization_error = 7_000;
  timing_pulse_age_us = 100;
}

abbrev polls : List (Option GnssStatus)
polls = none ∷ some status ∷ []

abbrev sample : GnssSample
sample = record {
  week = 2_400;
  tow_ms = 5_000;
  utc_seconds = 1_767_484_787;
  quantization_error_ns = 7;
  leap_indicator = 0;
}

taken : wait_for_gnss_sample (some (2_400, 4_000)) polls ≡ some sample
unfolding wait_for_gnss_sample is_awaited gnss_ready tim_tp_is_new sample_from tim_tp_to_utc
    signed_ltb llabs signed_quotient
taken = refl

wait_for_gnss_sample-IsFrom_example :
    (s : GnssStatus) × IsPolled s polls × IsFrom (some (2_400, 4_000)) s sample
wait_for_gnss_sample-IsFrom_example =
    wait_for_gnss_sample-IsFrom (some (2_400, 4_000)) polls sample taken

abbrev usable : PpsStatus
usable = record { interval_valid = true; age_us = 10; period_us = 1_000_000; jitter_us = 2 }

abbrev round : Round
round = record {
  capture_us = some 9_000_000;
  pps_status = some usable;
  polls = polls;
  submit_locked = true;
  reference = some (status, usable);
  counter = some 9_000_500;
}

take_edge_cases_example :
    let next = take_edge whole round (initial_clock whole, some (2_400, 4_000)) in
    (IsMissed (some (2_400, 4_000)) round × (next ≡ (initial_clock whole, some (2_400, 4_000))))
    ⊎ IsTaken whole round (initial_clock whole) (some (2_400, 4_000)) next
take_edge_cases_example = take_edge_cases whole round (initial_clock whole) (some (2_400, 4_000))
