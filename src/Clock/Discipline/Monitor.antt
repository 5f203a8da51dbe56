-- ===== src/Clock/Discipline/Monitor.antt =====
-- main/clock_discipline.c: the task that takes a PPS edge and the GNSS record that belongs to it.
-- An int8_t and an int32_t are converted to an int64_t, whose bit pattern stands here.
pub mod Fresh
pub mod Lacking
pub mod Rounds
mod Tests
use esp32p4_nts_time_server.Base.{
  ℕ, ◌+◌, ◌-◌, ◌*◌, ◌/◌, ◌^◌, List, [], ◌∷◌, Bool, true, false, not, ◌&&◌, ◌||◌, Option, none, some,
  ltb, leb, ◌==◌, if◌then◌else◌, ok, err,
}
use esp32p4_nts_time_server.Base.Signed.{signed_ltb, llabs, signed_quotient}
use esp32p4_nts_time_server.Clock.Discipline.{
  Double, Clock, max_timing_qerr_ns, submit_sample, update_reference_state, enforce_holdover_policy,
}

-- The parts of `pps_service_status_t` that the clock reads.
pub record PpsStatus : Type 0 where
  pub interval_valid : Bool
  pub age_us : ℕ
  pub period_us : ℕ
  pub jitter_us : ℕ

unfoldable pub pps_status_usable : PpsStatus → Bool
pps_status_usable s =
    s.interval_valid
    && not (signed_ltb s.age_us 0)
    && not (signed_ltb 2_500_000 s.age_us)
    && leb 800_000 s.period_us
    && leb s.period_us 1_200_000
    && leb s.jitter_us 250

-- The parts of `gnss_service_status_t` that the clock reads.
pub record GnssStatus : Type 0 where
  pub utc_valid : Bool
  pub utc_from_ubx_pvt : Bool
  pub gnss_fix_valid : Bool
  pub gnss_time_fully_resolved : Bool
  pub leap_information_valid : Bool
  pub leap_indicator : ℕ
  pub current_leap_seconds : ℕ
  pub timing_pulse_valid : Bool
  pub timing_week : ℕ
  pub timing_tow_ms : ℕ
  pub timing_quantization_error : ℕ
  pub timing_pulse_age_us : ℕ

-- The week and the time of the record that was used last, if there is one.
abbrev pub LastTimTp : Type 0
LastTimTp = Option (ℕ × ℕ)

unfoldable pub tim_tp_is_new : LastTimTp → GnssStatus → Bool
tim_tp_is_new none s = s.timing_pulse_valid
tim_tp_is_new (some (week, tow_ms)) s =
    s.timing_pulse_valid && (not (s.timing_week == week) || not (s.timing_tow_ms == tow_ms))

unfoldable pub tim_tp_to_utc : GnssStatus → Option ℕ
tim_tp_to_utc s =
    if not s.timing_pulse_valid
      || not s.leap_information_valid
      || signed_ltb s.current_leap_seconds 0
      || signed_ltb 64 s.current_leap_seconds
      || leb 604_800_000 s.timing_tow_ms
    then none
    else some
        (315_964_800 + s.timing_week * 604_800 + s.timing_tow_ms / 1_000 - s.current_leap_seconds)

-- `clock_gnss_sample_t`
pub record GnssSample : Type 0 where
  pub week : ℕ
  pub tow_ms : ℕ
  pub utc_seconds : ℕ
  pub quantization_error_ns : ℕ
  pub leap_indicator : ℕ

-- The six conditions that the loop and `update_reference_state` share.
unfoldable pub gnss_ready : GnssStatus → Bool
gnss_ready s =
    s.utc_valid && s.utc_from_ubx_pvt && s.gnss_fix_valid && s.gnss_time_fully_resolved
    && s.leap_information_valid && s.timing_pulse_valid

-- The record of a status that the loop goes on waiting for no longer.
unfoldable pub is_awaited : LastTimTp → GnssStatus → Bool
is_awaited last s =
    gnss_ready s
    && not (signed_ltb s.timing_pulse_age_us 0)
    && not (signed_ltb 1_500_000 s.timing_pulse_age_us)
    && tim_tp_is_new last s

-- The end of a round of the loop, with such a record.
unfoldable pub sample_from : GnssStatus → Option GnssSample
sample_from s = elim (tim_tp_to_utc s) [
  | none ↦ none
  | some utc_seconds ↦
      let qerr_ns = signed_quotient s.timing_quantization_error 1_000 in
      if ltb max_timing_qerr_ns (llabs qerr_ns)
      then none
      else some (record {
        week = s.timing_week;
        tow_ms = s.timing_tow_ms;
        utc_seconds = utc_seconds;
        quantization_error_ns = qerr_ns;
        leap_indicator = s.leap_indicator;
      })
]

-- `wait_for_gnss_sample`, on what `gnss_service_get_status` answers up to the deadline.
unfoldable pub wait_for_gnss_sample : LastTimTp → List (Option GnssStatus) → Option GnssSample
wait_for_gnss_sample last [] = none
wait_for_gnss_sample last (none ∷ polls) = wait_for_gnss_sample last polls
wait_for_gnss_sample last (some s ∷ polls) =
    let further = wait_for_gnss_sample last polls in
    if is_awaited last s then sample_from s else further

-- What the task meets in a round: the edge, the status of the PPS service and of the polls behind
-- it, and what the two calls at the end find.
pub record Round : Type 0 where
  pub capture_us : Option ℕ
  pub pps_status : Option PpsStatus
  pub polls : List (Option GnssStatus)
  pub submit_locked : Bool
  pub reference : Option (GnssStatus × PpsStatus)
  pub counter : Option ℕ

module _ (d : Double) where
  -- The edge, if the PPS status is usable and a record comes.
  unfoldable pub take_edge : Round → Clock d × LastTimTp → Clock d × LastTimTp
  take_edge round (c, last) = elim round.capture_us [
    | none ↦ (c, last)
    | some capture_us ↦ elim round.pps_status [
      | none ↦ (c, last)
      | some status ↦ elim (wait_for_gnss_sample last round.polls) [
        | none ↦ (c, last)
        | some sample ↦
            let r =
              submit_sample d round.submit_locked capture_us sample.utc_seconds
                sample.quantization_error_ns sample.leap_indicator c in
            if not (pps_status_usable status)
            then (c, last)
            else elim r.0 [ err _ ↦ (r.1, last) | ok _ ↦ (r.1, some (sample.week, sample.tow_ms)) ]
      ]
    ]
  ]

  -- `reference` and `counter` are nothing as well where the lock is not taken.
  unfoldable pub monitor_round : Round → Clock d × LastTimTp → Clock d × LastTimTp
  monitor_round round s =
      let (c, last) = take_edge round s in
      let referenced : Clock d = elim round.reference [
        | none ↦ c
        | some (gnss, pps) ↦ update_reference_state d (gnss_ready gnss) (pps_status_usable pps) c
      ] in
      (enforce_holdover_policy d round.counter referenced, last)
