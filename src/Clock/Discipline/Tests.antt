-- ===== src/Clock/Discipline/Tests.antt =====
-- A clock over whole numbers in place of `double`, with a second between the samples.
use Prim.{tt}
use esp32p4_nts_time_server.Base.{
  ℕ, zero, suc, ◌+◌, ◌*◌, ◌≡◌, refl, List, [], ◌∷◌, true, none, some, arith,
}
use esp32p4_nts_time_server.Base.Signed.{signed_ltb, llabs}
use esp32p4_nts_time_server.Clock.{synchronized}
use esp32p4_nts_time_server.Clock.Discipline.{
  Clock, initial_clock, accept_initial, accept_sample, compare_sample, submit_sample,
  filtered_frequency, utc_at, phase_error, enforce_holdover_policy, get_ntp_timestamp,
  get_reference_timestamp, calculate_holdover_seconds,
}
use esp32p4_nts_time_server.Clock.Doubles.{whole}
use esp32p4_nts_time_server.Clock.Discipline.Invariant.{
  Event, submit, refer, step, run, IsSound, run-IsSound,
}
use esp32p4_nts_time_server.Clock.Discipline.Serving.{
  after, AcceptsNone, enforce_holdover_policy-silences,
}

abbrev samples : ℕ → List Event
samples zero = []
samples (suc k) = submit true (suc k * 1_000_000) (1_000 + k) 0 0 ∷ samples k

abbrev clock : Clock whole
clock = (run whole (samples 32)).0

run-IsSound_example : IsSound whole clock (run whole (samples 32)).1
run-IsSound_example = run-IsSound whole (samples 32)

served : get_ntp_timestamp whole true (some 32_500_000) clock ≡ some (2_208_989_831, 0)
unfolding run step submit_sample compare_sample initial_clock accept_initial accept_sample
    filtered_frequency utc_at phase_error get_ntp_timestamp signed_ltb llabs
served = refl

-- That clock, written out.
abbrev locked_clock : Clock whole
locked_clock = record {
  initialized = true;
  solution_valid = true;
  anchor_capture_us = 32_000_000;
  anchor_utc_seconds = 1_031;
  last_sample_capture_us = 32_000_000;
  last_sample_utc_seconds = 1_031;
  reference_timestamp_valid = true;
  reference_capture_us = 32_000_000;
  reference_utc_seconds = 1_031;
  last_phase_error_ns = 0;
  frequency_ppm = 0;
  accepted_samples = 32;
  rejected_samples = 0;
  consecutive_rejects = 0;
  leap_indicator = 0;
  state = synchronized;
}

-- A sample that the closed clock refuses, and a reference update behind it.
abbrev refused_then_refer : List Event
refused_then_refer = refer true true ∷ submit true 0 1_040 0 0 ∷ []

refused_then_refer-AcceptsNone :
    AcceptsNone whole refused_then_refer
      (enforce_holdover_policy whole (some 3_633_000_000) locked_clock)
unfolding AcceptsNone after step submit_sample signed_ltb enforce_holdover_policy
    calculate_holdover_seconds
refused_then_refer-AcceptsNone = (refl, (refl, tt))

enforce_holdover_policy-silences_example :
    let later =
      after whole refused_then_refer
        (enforce_holdover_policy whole (some 3_633_000_000) locked_clock) in
    (get_ntp_timestamp whole true (some 3_633_000_001) later ≡ none)
    × (get_reference_timestamp whole true (some 3_633_000_001) later ≡ none)
enforce_holdover_policy-silences_example =
    enforce_holdover_policy-silences whole 3_633_000_000 locked_clock refused_then_refer true
      (some 3_633_000_001) (omega arith) (omega arith) (omega arith) refused_then_refer-AcceptsNone
