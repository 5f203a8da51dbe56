-- ===== src/Clock/Discipline/Published.antt =====
-- main/clock_discipline.c: the status that others read.
use esp32p4_nts_time_server.Base.{
  ℕ, ◌-◌, ◌/◌, Bool, not, ◌&&◌, ◌||◌, Option, none, some, ltb, leb, if◌then◌else◌, u32,
}
use esp32p4_nts_time_server.Clock.{ClockState}
use esp32p4_nts_time_server.Clock.Discipline.{
  Double, Clock, is_serving, calculate_holdover_seconds, calculate_dispersion_16_16,
}

module _ (d : Double) where
  -- `clock_discipline_status_t`
  pub record Report : Type 0 where
    pub initialized : Bool
    pub solution_valid : Bool
    pub state : ClockState
    pub phase_error_ns : ℕ
    pub frequency_ppm : d.F
    pub accepted_samples : ℕ
    pub rejected_samples : ℕ
    pub holdover_seconds : ℕ
    pub root_dispersion_16_16 : ℕ
    pub reference_timestamp_valid : Bool
    pub reference_utc_seconds : ℕ
    pub reference_age_seconds : ℕ

  -- `clock_discipline_get_status`; without an answer of the counter the time is that of the last
  -- sample.
  unfoldable pub get_status : Bool → Option ℕ → Clock d → Option Report
  get_status locked counter c =
      let now_us : ℕ = elim counter [ none ↦ c.last_sample_capture_us | some t ↦ t ] in
      let seconds = calculate_holdover_seconds d now_us c in
      let referenced = c.reference_timestamp_valid && c.solution_valid && is_serving d c.state in
      let age = (now_us - c.reference_capture_us) / 1_000_000 in
      if not c.initialized || not locked
      then none
      else some (record {
        initialized = c.initialized;
        solution_valid = c.solution_valid;
        state = c.state;
        phase_error_ns = c.last_phase_error_ns;
        frequency_ppm = c.frequency_ppm;
        accepted_samples = c.accepted_samples;
        rejected_samples = c.rejected_samples;
        holdover_seconds = seconds;
        root_dispersion_16_16 = calculate_dispersion_16_16 d seconds c;
        reference_timestamp_valid = referenced;
        reference_utc_seconds = c.reference_utc_seconds;
        reference_age_seconds =
            if referenced && leb c.reference_capture_us now_us
            then (if ltb 0xFFFFFFFF age then 0xFFFFFFFF else u32 age)
            else 0;
      })
