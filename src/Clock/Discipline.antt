-- ===== src/Clock/Discipline.antt =====
-- main/clock_discipline.c: the clock that PPS edges and GNSS seconds discipline. The arithmetic
-- of `double` is the parameter `d`; an int64_t is its bit pattern. The lock and the PPS counter
-- answer for each call: `locked`, and the counter's microseconds or nothing. What a call
-- publishes to the application state is derived from the clock and is left out.
pub mod Invariant
pub mod Serving
pub mod Monitor
pub mod Published
mod Tests
use esp32p4_nts_time_server.Base.{
  ℕ, zero, suc, ◌+◌, ◌-◌, ◌*◌, ◌/◌, ◌^◌, Bool, true, false, not, ◌&&◌, ◌||◌, Option, none, some,
  ltb, leb, ◌==◌, if◌then◌else◌, u32, u64, ok, err, EspErr, Status, esp_ok, invalid_arg,
  invalid_response, invalid_state, timeout, no_mem,
}
use esp32p4_nts_time_server.Base.Signed.{signed_ltb, llabs}
use esp32p4_nts_time_server.Clock.{
  ClockState, unsynchronized, acquiring, synchronized, holdover, fail_closed,
}

-- What the file uses of `double`. The literals are of_nat and their quotients; a conversion to an
-- integer type gives its bit pattern.
pub record Double : Type 1 where
  pub F : Type 0
  pub of_nat : ℕ → F
  pub of_int64 : ℕ → F
  pub add : F → F → F
  pub sub : F → F → F
  pub mul : F → F → F
  pub div : F → F → F
  pub neg : F → F
  pub lt : F → F → Bool
  pub llround : F → ℕ
  pub to_uint64 : F → ℕ

abbrev pub lock_samples : ℕ
lock_samples = 32

abbrev pub holdover_max_seconds : ℕ
holdover_max_seconds = 3_600

abbrev pub max_consecutive_rejects : ℕ
max_consecutive_rejects = 3

abbrev pub max_timing_qerr_ns : ℕ
max_timing_qerr_ns = 50_000

abbrev pub max_acceptable_error_ns : ℕ
max_acceptable_error_ns = 250_000_000

abbrev pub ntp_epoch_delta : ℕ
ntp_epoch_delta = 2_208_988_800

module _ (d : Double) where
  open d use {F, of_nat, of_int64, add, sub, mul, div, neg, lt, llround, to_uint64}

  -- `clock_context_t`; the leap indicator is a number.
  pub record Clock : Type 0 where
    pub initialized : Bool
    pub solution_valid : Bool
    pub anchor_capture_us : ℕ
    pub anchor_utc_seconds : ℕ
    pub last_sample_capture_us : ℕ
    pub last_sample_utc_seconds : ℕ
    pub reference_timestamp_valid : Bool
    pub reference_capture_us : ℕ
    pub reference_utc_seconds : ℕ
    pub last_phase_error_ns : ℕ
    pub frequency_ppm : F
    pub accepted_samples : ℕ
    pub rejected_samples : ℕ
    pub consecutive_rejects : ℕ
    pub leap_indicator : ℕ
    pub state : ClockState

  abbrev million : F
  million = of_nat 1_000_000

  abbrev eighth : F
  eighth = div (of_nat 1) (of_nat 8)

  -- What `clock_discipline_init` leaves.
  unfoldable pub initial_clock : Clock
  initial_clock = record {
    initialized = true;
    solution_valid = false;
    anchor_capture_us = 0;
    anchor_utc_seconds = 0;
    last_sample_capture_us = 0;
    last_sample_utc_seconds = 0;
    reference_timestamp_valid = false;
    reference_capture_us = 0;
    reference_utc_seconds = 0;
    last_phase_error_ns = 0;
    frequency_ppm = of_nat 0;
    accepted_samples = 0;
    rejected_samples = 0;
    consecutive_rejects = 0;
    leap_indicator = 3;
    state = unsynchronized;
  }

  unfoldable pub calculate_holdover_seconds : ℕ → Clock → ℕ
  calculate_holdover_seconds now_us c =
      if not c.solution_valid || ltb now_us c.last_sample_capture_us
      then 0
      else u32 ((now_us - c.last_sample_capture_us) / 1_000_000)

  -- The sum of an int64_t and the wander, which is only added where it is positive.
  unfoldable pub calculate_dispersion_16_16 : ℕ → Clock → ℕ
  calculate_dispersion_16_16 holdover_seconds c =
      let base_ns = u64 (100_000 + llabs c.last_phase_error_ns) in
      let wander_ns = mul (mul (of_nat 20) (of_nat 1_000)) (of_nat holdover_seconds) in
      let sum_ns =
        if lt (of_nat 0) wander_ns then u64 (base_ns + to_uint64 wander_ns) else base_ns in
      let dispersion_ns = if signed_ltb 1_000_000_000 sum_ns then 1_000_000_000 else sum_ns in
      let result = u64 (dispersion_ns * 65_536) / 1_000_000_000 in
      if ltb 0xFFFFFFFF result then 0xFFFFFFFF else u32 result

  unfoldable pub reject_sample : Clock → Clock
  reject_sample c =
      let rejected = record c {
        rejected_samples = u32 (c.rejected_samples + 1);
        consecutive_rejects = u32 (c.consecutive_rejects + 1);
      } in
      if leb max_consecutive_rejects (u32 (c.consecutive_rejects + 1))
      then record rejected {
        solution_valid = false;
        state = acquiring;
        accepted_samples = 0;
        frequency_ppm = of_nat 0;
      }
      else rejected

  -- One `else if` of `update_reference_state`; `gnss_ready` and `pps_usable` are its two tests.
  unfoldable pub update_reference_state : Bool → Bool → Clock → Clock
  update_reference_state gnss_ready pps_usable c =
      if not c.solution_valid && gnss_ready && pps_usable
      then record c { state = acquiring }
      else if not c.solution_valid && (not gnss_ready || not pps_usable)
      then record c { state = unsynchronized }
      else c

  abbrev pub is_synchronized : ClockState → Bool
  is_synchronized state = elim state [ synchronized ↦ true | _ ↦ false ]

  -- The state is one that time is served in.
  abbrev pub is_serving : ClockState → Bool
  is_serving state = elim state [ synchronized ↦ true | holdover ↦ true | _ ↦ false ]

  -- `enforce_holdover_policy` with the lock.
  unfoldable pub enforce_holdover_policy : Option ℕ → Clock → Clock
  enforce_holdover_policy none c = c
  enforce_holdover_policy (some now_us) c =
      let seconds = calculate_holdover_seconds now_us c in
      if not c.solution_valid
      then c
      else if ltb holdover_max_seconds seconds
      then record c { solution_valid = false; state = fail_closed }
      else if ltb 0 seconds && is_synchronized c.state
      then record c { state = holdover }
      else c

  -- The correction of the frequency, and its clamp to 200 ppm on either side.
  unfoldable pub filtered_frequency : ℕ → ℕ → F → F
  filtered_frequency local_elapsed_us utc_elapsed_seconds frequency =
      let expected = mul (of_int64 utc_elapsed_seconds) million in
      let error = mul (div (sub (of_nat local_elapsed_us) expected) expected) million in
      let filtered = add (mul (sub (of_nat 1) eighth) frequency) (mul eighth (neg error)) in
      if lt (of_nat 200) filtered
      then of_nat 200
      else if lt filtered (neg (of_nat 200))
      then neg (of_nat 200)
      else filtered

  -- The UTC seconds at `elapsed_us` behind the anchor.
  unfoldable pub utc_at : ℕ → ℕ → F → F
  utc_at anchor_utc_seconds elapsed_us frequency =
      add (of_int64 anchor_utc_seconds)
        (mul (div (of_nat elapsed_us) million) (add (of_nat 1) (div frequency million)))

  unfoldable pub phase_error : ℕ → ℕ → F → ℕ
  phase_error utc_seconds qerr_ns predicted =
      u64 (llround (mul (sub (of_int64 utc_seconds) predicted) (of_nat 1_000_000_000)) + qerr_ns)

  -- The first sample of a clock that has no solution.
  unfoldable pub accept_initial : ℕ → ℕ → ℕ → ℕ → Clock → Clock
  accept_initial capture_us utc_seconds qerr_ns leap c = record c {
    anchor_capture_us = capture_us;
    anchor_utc_seconds = utc_seconds;
    last_sample_capture_us = capture_us;
    last_sample_utc_seconds = utc_seconds;
    reference_timestamp_valid = true;
    reference_capture_us = capture_us;
    reference_utc_seconds = utc_seconds;
    last_phase_error_ns = qerr_ns;
    frequency_ppm = of_nat 0;
    accepted_samples = 1;
    rejected_samples = 0;
    consecutive_rejects = 0;
    leap_indicator = leap;
    state = acquiring;
    solution_valid = true;
  }

  -- A sample whose phase error is too large: it becomes the anchor, and is rejected.
  unfoldable pub reject_step : ℕ → ℕ → ℕ → Clock → Clock
  reject_step capture_us utc_seconds error_ns c = reject_sample (record c {
    anchor_capture_us = capture_us;
    anchor_utc_seconds = utc_seconds;
    last_sample_capture_us = capture_us;
    last_sample_utc_seconds = utc_seconds;
    last_phase_error_ns = error_ns;
    frequency_ppm = of_nat 0;
    accepted_samples = 1;
  })

  -- A sample that agrees with the clock.
  unfoldable pub accept_sample : ℕ → ℕ → ℕ → F → ℕ → Clock → Clock
  accept_sample capture_us utc_seconds error_ns frequency leap c = record c {
    anchor_capture_us = capture_us;
    anchor_utc_seconds = utc_seconds;
    last_sample_capture_us = capture_us;
    last_sample_utc_seconds = utc_seconds;
    reference_timestamp_valid = true;
    reference_capture_us = capture_us;
    reference_utc_seconds = utc_seconds;
    last_phase_error_ns = error_ns;
    frequency_ppm = frequency;
    leap_indicator = leap;
    accepted_samples = u32 (c.accepted_samples + 1);
    consecutive_rejects = 0;
    state = if leb lock_samples (u32 (c.accepted_samples + 1)) then synchronized else acquiring;
  }

  -- The end of `clock_discipline_submit_sample`, for a clock with a solution and a sample that is
  -- later than the last one. The second test of the elapsed seconds cannot fail there, unless
  -- they overflow.
  unfoldable pub compare_sample : ℕ → ℕ → ℕ → ℕ → Clock → Status × Clock
  compare_sample capture_us utc_seconds qerr_ns leap c =
      let utc_elapsed = u64 (utc_seconds + (2 ^ 64 - c.last_sample_utc_seconds)) in
      let frequency =
        filtered_frequency (capture_us - c.last_sample_capture_us) utc_elapsed c.frequency_ppm in
      let predicted =
        utc_at c.anchor_utc_seconds (u64 (capture_us + (2 ^ 64 - c.anchor_capture_us))) frequency in
      let error_ns = phase_error utc_seconds qerr_ns predicted in
      if not (signed_ltb 0 utc_elapsed)
      then (err invalid_state, reject_sample c)
      else if ltb max_acceptable_error_ns (llabs error_ns)
      then (err invalid_response, reject_step capture_us utc_seconds error_ns c)
      else (esp_ok, accept_sample capture_us utc_seconds error_ns frequency leap c)

  -- `clock_discipline_submit_sample`; `qerr_ns` is an int32_t as an int64_t.
  unfoldable pub submit_sample : Bool → ℕ → ℕ → ℕ → ℕ → Clock → Status × Clock
  submit_sample locked capture_us utc_seconds qerr_ns leap c =
      if not c.initialized || capture_us == 0 || not (signed_ltb 0 utc_seconds)
      then (err invalid_arg, c)
      else if ltb max_timing_qerr_ns (llabs qerr_ns)
      then (err invalid_response, if locked then reject_sample c else c)
      else if not locked
      then (err timeout, c)
      else if not c.solution_valid
      then (esp_ok, accept_initial capture_us utc_seconds qerr_ns leap c)
      else if leb capture_us c.last_sample_capture_us
          || not (signed_ltb c.last_sample_utc_seconds utc_seconds)
      then (err invalid_state, reject_sample c)
      else compare_sample capture_us utc_seconds qerr_ns leap c

  -- The seconds and the fraction of a timestamp.
  unfoldable pub get_ntp_timestamp : Bool → Option ℕ → Clock → Option (ℕ × ℕ)
  get_ntp_timestamp locked none c = none
  get_ntp_timestamp locked (some now_us) c =
      let utc = utc_at c.anchor_utc_seconds (now_us - c.anchor_capture_us) c.frequency_ppm in
      let whole = to_uint64 utc in
      if not c.initialized
        || not locked
        || not c.solution_valid
        || not (is_serving c.state)
        || ltb now_us c.anchor_capture_us
        || lt utc (of_nat 0)
      then none
      else some (
        u32 (whole + ntp_epoch_delta),
        u32 (to_uint64 (mul (sub utc (of_nat whole)) (of_nat 4_294_967_296))),
      )

  -- The seconds of the reference timestamp, whose fraction is 0, and its age.
  unfoldable pub get_reference_timestamp : Bool → Option ℕ → Clock → Option (ℕ × ℕ)
  get_reference_timestamp locked none c = none
  get_reference_timestamp locked (some now_us) c =
      let age = (now_us - c.reference_capture_us) / 1_000_000 in
      if not c.initialized
        || not locked
        || not c.solution_valid
        || not c.reference_timestamp_valid
        || not (is_serving c.state)
        || not (signed_ltb 0 c.reference_utc_seconds)
        || ltb now_us c.reference_capture_us
      then none
      else some (
        u32 (c.reference_utc_seconds + ntp_epoch_delta),
        if ltb 0xFFFFFFFF age then 0xFFFFFFFF else u32 age,
      )
