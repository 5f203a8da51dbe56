-- ===== src/Clock/Discipline/Monitor/Lacking.antt =====
-- When no GNSS record is taken for an edge.
use Prim.{tt}
use esp32p4_nts_time_server.Base.{
  ◌<◌, ◌≤◌, ◌≡◌, ◌≢◌, inl, inr, ◌⊎◌, List, [], ◌∷◌, true, Option, none, some, ltb, u64, ◌==◌, arith,
  Bool-cases, Option-cases,
}
use esp32p4_nts_time_server.Base.Signed.{signed_ltb, llabs, signed_quotient}
use esp32p4_nts_time_server.Clock.Discipline.Monitor.{
  GnssStatus, LastTimTp, tim_tp_is_new, tim_tp_to_utc, gnss_ready, is_awaited, sample_from,
  wait_for_gnss_sample,
}

-- A status with a valid fix and time, and a valid pulse of the last 1.5 seconds that is new.
abbrev pub IsRecent : LastTimTp → GnssStatus → Type 0
IsRecent last s =
    (s.utc_valid ≡ true)
    × (s.utc_from_ubx_pvt ≡ true)
    × (s.gnss_fix_valid ≡ true)
    × (s.gnss_time_fully_resolved ≡ true)
    × (s.leap_information_valid ≡ true)
    × (s.timing_pulse_valid ≡ true)
    × (u64 s.timing_pulse_age_us ≤ 1_500_000)
    × (last ≢ some (s.timing_week, s.timing_tow_ms))

-- A status that gives no second, or one that is not exact to 50 microseconds.
abbrev pub IsRough : GnssStatus → Type 0
IsRough s =
    (64 < u64 s.current_leap_seconds)
    ⊎ (604_800_000 ≤ s.timing_tow_ms)
    ⊎ (50_000 < llabs (signed_quotient s.timing_quantization_error 1_000))

-- No poll answers with a recent status, or the first that does is rough.
unfoldable pub Lacks : LastTimTp → List (Option GnssStatus) → Type 0
Lacks last [] = Unit
Lacks last (none ∷ polls) = Lacks last polls
Lacks last (some s ∷ polls) =
    ((¬ IsRecent last s) × Lacks last polls) ⊎ (IsRecent last s × IsRough s)

tim_tp_is_new-true :
    (last : LastTimTp) (s : GnssStatus)
    → s.timing_pulse_valid ≡ true
    → last ≢ some (s.timing_week, s.timing_tow_ms)
    → tim_tp_is_new last s ≡ true
unfolding tim_tp_is_new
tim_tp_is_new-true none s valid other = valid
tim_tp_is_new-true (some (week, tow_ms)) s valid other = elim (Bool-cases (s.timing_week == week)) [
  | inr w ↦ ground (arith, valid, w)
  | inl w ↦ elim (Bool-cases (s.timing_tow_ms == tow_ms)) [
    | inr t ↦ ground (arith, valid, w, t)
    | inl t ↦
        let same_week : week ≡ s.timing_week = ground (arith, w) in
        let same_tow : tow_ms ≡ s.timing_tow_ms = ground (arith, t) in
        absurd (other (λ i. some (same_week i, same_tow i)))
  ]
]

tim_tp_is_new-other :
    (last : LastTimTp) (s : GnssStatus)
    → tim_tp_is_new last s ≡ true
    → last ≢ some (s.timing_week, s.timing_tow_ms)
unfolding tim_tp_is_new
tim_tp_is_new-other none s h e = absurd (ground (arith, e))
tim_tp_is_new-other (some (week, tow_ms)) s h e = absurd (ground (arith, h, e))

is_awaited-true : (last : LastTimTp) (s : GnssStatus) → IsRecent last s → is_awaited last s ≡ true
unfolding is_awaited gnss_ready signed_ltb
is_awaited-true last s (a, b, c, e, f, g, young, other) =
    ground (arith, a, b, c, e, f, g, young, tim_tp_is_new-true last s g other)

is_awaited-IsRecent :
    (last : LastTimTp) (s : GnssStatus) → is_awaited last s ≡ true → IsRecent last s
unfolding is_awaited gnss_ready signed_ltb
is_awaited-IsRecent last s h = (
  ground (arith, h),
  ground (arith, h),
  ground (arith, h),
  ground (arith, h),
  ground (arith, h),
  ground (arith, h),
  ground (arith, h),
  tim_tp_is_new-other last s (ground (arith, h)),
)

tim_tp_to_utc-none :
    (s : GnssStatus)
    → s.timing_pulse_valid ≡ true
    → s.leap_information_valid ≡ true
    → tim_tp_to_utc s ≡ none
    → (64 < u64 s.current_leap_seconds) ⊎ (604_800_000 ≤ s.timing_tow_ms)
unfolding tim_tp_to_utc signed_ltb
tim_tp_to_utc-none s pulse leap h = elim (Bool-cases (ltb 64 (u64 s.current_leap_seconds))) [
  | inl many ↦ inl (ground (arith, many))
  | inr few ↦ inr (ground (arith, pulse, leap, h, few))
]

sample_from-IsRough :
    (s : GnssStatus)
    → s.timing_pulse_valid ≡ true
    → s.leap_information_valid ≡ true
    → sample_from s ≡ none
    → IsRough s
unfolding sample_from
sample_from-IsRough s pulse leap h = elim (Option-cases (tim_tp_to_utc s)) [
  | inl q ↦ elim (tim_tp_to_utc-none s pulse leap q) [
    | inl many ↦ inl many
    | inr late ↦ inr (inl late)
  ]
  | inr (utc, q) ↦ inr (inr (ground (arith, h, q)))
]

pub wait_for_gnss_sample-Lacks :
    (last : LastTimTp) (polls : List (Option GnssStatus))
    → wait_for_gnss_sample last polls ≡ none
    → Lacks last polls
unfolding wait_for_gnss_sample Lacks
wait_for_gnss_sample-Lacks last [] h = tt
wait_for_gnss_sample-Lacks last (none ∷ polls) h = wait_for_gnss_sample-Lacks last polls h
wait_for_gnss_sample-Lacks last (some s ∷ polls) h = elim (Bool-cases (is_awaited last s)) [
  | inr skip ↦ inl (
    (λ (r : IsRecent last s). absurd (ground (arith, skip, is_awaited-true last s r))),
    wait_for_gnss_sample-Lacks last polls (ground (arith, h, skip)),
  )
  | inl take ↦
      let recent = is_awaited-IsRecent last s take in
      inr (recent, sample_from-IsRough s recent.5 recent.4 (ground (arith, h, take)))
]
