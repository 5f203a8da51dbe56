-- ===== src/Clock/Discipline/Monitor/Fresh.antt =====
-- The GNSS record that the task takes for an edge.
use esp32p4_nts_time_server.Base.{
  ◌+◌, ◌-◌, ◌*◌, ◌/◌, ◌<◌, ◌≤◌, ◌≡◌, ◌≢◌, refl, ◌∙◌, inl, inr, ◌⊎◌, List, [], ◌∷◌, true, Option,
  none, some, ltb, arith, Bool-cases, Option-cases, u64,
}
use esp32p4_nts_time_server.Base.Signed.{signed_ltb, llabs, signed_quotient}
use esp32p4_nts_time_server.Clock.Discipline.Monitor.{
  GnssStatus, LastTimTp, GnssSample, tim_tp_is_new, tim_tp_to_utc, gnss_ready, is_awaited,
  sample_from, wait_for_gnss_sample,
}

abbrev pub IsPolled : GnssStatus → List (Option GnssStatus) → Type 0
IsPolled s [] = ⊥
IsPolled s (p ∷ polls) = (p ≡ some s) ⊎ IsPolled s polls

-- What a sample that is taken says of the status that it is from.
abbrev pub IsFrom : LastTimTp → GnssStatus → GnssSample → Type 0
IsFrom last s sample =
    (s.utc_valid ≡ true)
    × (s.utc_from_ubx_pvt ≡ true)
    × (s.gnss_fix_valid ≡ true)
    × (s.gnss_time_fully_resolved ≡ true)
    × (s.leap_information_valid ≡ true)
    × (s.timing_pulse_valid ≡ true)
    × (u64 s.timing_pulse_age_us ≤ 1_500_000)
    × (u64 s.current_leap_seconds ≤ 64)
    × (sample.week ≡ s.timing_week)
    × (sample.tow_ms ≡ s.timing_tow_ms)
    × (last ≢ some (sample.week, sample.tow_ms))
    × (s.timing_tow_ms < 604_800_000)
    × (sample.utc_seconds
        ≡ 315_964_800 + s.timing_week * 604_800 + s.timing_tow_ms / 1_000 - s.current_leap_seconds)
    × (sample.quantization_error_ns ≡ signed_quotient s.timing_quantization_error 1_000)
    × (llabs sample.quantization_error_ns ≤ 50_000)
    × (sample.leap_indicator ≡ s.leap_indicator)

awaited_new :
    (last : LastTimTp) (s : GnssStatus)
    → is_awaited last s ≡ true
    → last ≢ some (s.timing_week, s.timing_tow_ms)
unfolding is_awaited tim_tp_is_new
awaited_new none s h e = absurd (ground (arith, e))
awaited_new (some (week, tow_ms)) s h e = absurd (ground (arith, h, e))

sample_from-IsFrom :
    (last : LastTimTp) (s : GnssStatus) (sample : GnssSample)
    → is_awaited last s ≡ true
    → sample_from s ≡ some sample
    → IsFrom last s sample
unfolding sample_from tim_tp_to_utc is_awaited gnss_ready signed_ltb
sample_from-IsFrom last s sample w h = elim (Option-cases (tim_tp_to_utc s)) [
  | inl q ↦ absurd (ground (arith, h, q))
  | inr (utc, q) ↦
      let qerr_ns = signed_quotient s.timing_quantization_error 1_000 in
      elim (Bool-cases (ltb 50_000 (llabs qerr_ns))) [
        | inl rough ↦ absurd (ground (arith, h, q, rough))
        | inr exact ↦
            let week : sample.week ≡ s.timing_week = ground (arith, h, q, exact) in
            let tow : sample.tow_ms ≡ s.timing_tow_ms = ground (arith, h, q, exact) in
            (
              ground (arith, w),
              ground (arith, w),
              ground (arith, w),
              ground (arith, w),
              ground (arith, w),
              ground (arith, w),
              ground (arith, w),
              ground (arith, q),
              week,
              tow,
              (λ (e : last ≡ some (sample.week, sample.tow_ms)).
                  awaited_new last s w (e ∙ (λ i. some (week i, tow i)))),
              ground (arith, q),
              ground (arith, h, q, exact),
              ground (arith, h, q, exact),
              ground (arith, h, q, exact),
              ground (arith, h, q, exact),
            )
      ]
]

-- A sample that the task takes for an edge is from one of the polls. In it UTC is valid and from
-- a PVT message, the fix, the leap information and the timing pulse are valid, the time is fully
-- resolved, the pulse is between 0 and 1.5 seconds old and there are 0 to 64 leap seconds. It is
-- not the record that was used last; its UTC second is the GPS week and time of week less the
-- leap seconds, its quantization error is the one of the status in nanoseconds, 50 microseconds
-- at most, and its leap indicator is the one of the status.
pub wait_for_gnss_sample-IsFrom :
    (last : LastTimTp) (polls : List (Option GnssStatus)) (sample : GnssSample)
    → wait_for_gnss_sample last polls ≡ some sample
    → (s : GnssStatus) × IsPolled s polls × IsFrom last s sample
unfolding wait_for_gnss_sample
wait_for_gnss_sample-IsFrom last [] sample h = absurd (ground (arith, h))
wait_for_gnss_sample-IsFrom last (none ∷ polls) sample h =
    let (s, polled, from) = wait_for_gnss_sample-IsFrom last polls sample h in (s, inr polled, from)
wait_for_gnss_sample-IsFrom last (some s ∷ polls) sample h = elim (Bool-cases (is_awaited last s)) [
  | inr skip ↦
      let (s', polled, from) =
        wait_for_gnss_sample-IsFrom last polls sample (ground (arith, h, skip)) in
      (s', inr polled, from)
  | inl take ↦ (s, inl refl, sample_from-IsFrom last s sample take (ground (arith, h, take)))
]
