-- ===== src/Clock/Pps/Intervals.antt =====
-- main/pps_service.c: which intervals count as valid, and that every capture is counted.
use Prim.Native.Nat.{zero, suc}
use esp32p4_nts_time_server.Base.{
  ℕ, ◌+◌, ◌^◌, ◌≤◌, ◌<◌, ◌≡◌, ◌≢◌, ◌↔◌, ◌⊎◌, refl, Bool, true, Option, none, some, List, [], ◌∷◌,
  All, arith, u32, ◌==◌, if◌then◌else◌, Bool-cases, Option-cases, inl, inr,
}
use esp32p4_nts_time_server.Base.Signed.{llabs, signed_ltb}
use esp32p4_nts_time_server.Clock.Discipline.Monitor.{PpsStatus, pps_status_usable}
use esp32p4_nts_time_server.Clock.Pps.{
  Pps, PpsServiceStatus, interval_of, wait_for_capture, get_pps_status, get_monotonic_us,
  ticks_to_us,
}

-- What `interval_of` gives, by the interval itself.
record IsInterval (previous capture period jitter : ℕ) (valid : Bool) : Type 0 where
  pub valid_iff :
      (valid ≡ true)
      ↔ ((previous ≢ 0) × (previous + 800_000 ≤ capture) × (capture ≤ previous + 1_200_000))
  pub measured : valid ≡ true → previous + period ≡ capture
  pub deviates : valid ≡ true → (period ≡ 1_000_000 + jitter) ⊎ (1_000_000 ≡ period + jitter)

interval_of-IsInterval :
    (previous capture : ℕ)
    → let (period, jitter, valid) = interval_of previous capture in
      IsInterval previous capture period jitter valid
unfolding interval_of llabs
interval_of-IsInterval previous capture = ground arith

-- Behind a capture, the interval counts as valid exactly where there was a capture before it, 800
-- ms to 1200 ms earlier; the period is then the difference of the two, and the jitter is its
-- distance from a second.
pub wait_for_capture-interval :
    (capture : ℕ) (p : Pps)
    → p.has_queue ≡ true
    → let s = (wait_for_capture (some capture) p).0.status in
      ((s.interval_valid ≡ true) ↔ (
        (p.previous_capture_us ≢ 0)
        × (p.previous_capture_us + 800_000 ≤ capture)
        × (capture ≤ p.previous_capture_us + 1_200_000)))
      × (s.interval_valid ≡ true
          → (p.previous_capture_us + s.period_us ≡ capture)
            × ((s.period_us ≡ 1_000_000 + s.jitter_us) ⊎ (1_000_000 ≡ s.period_us + s.jitter_us)))
unfolding wait_for_capture
wait_for_capture-interval capture p q =
    let i = interval_of-IsInterval p.previous_capture_us capture in ground (arith, q, i)

-- Each capture but the first one ends an interval, which is counted as valid or as invalid.
pub record IsCounted (p : Pps) : Type 0 where
  pub intervals :
      p.status.edge_count
      ≡ u32 (
          p.status.valid_interval_count
          + p.status.invalid_interval_count
          + (if p.previous_capture_us == 0 then 0 else 1))

wait_for_capture-IsCounted :
    (received : Option ℕ) (p : Pps)
    → ◌≢◌ {A = Option ℕ} received (some 0)
    → IsCounted p
    → IsCounted (wait_for_capture received p).0
unfolding wait_for_capture
wait_for_capture-IsCounted none p positive h = ground (arith, h)
wait_for_capture-IsCounted (some zero) p positive h = absurd (positive refl)
wait_for_capture-IsCounted (some (suc capture)) p positive h =
    let valid = (interval_of p.previous_capture_us (suc capture)).2 in
    ground (arith, h, Bool-cases valid)

-- The captures that are waited for one after the other.
unfoldable pub captures_run : List (Option ℕ) → Pps → Pps
captures_run [] p = p
captures_run (received ∷ others) p = captures_run others (wait_for_capture received p).0

-- Whatever captures and timeouts follow each other, every capture but the first one is counted as
-- the end of a valid or of an invalid interval, up to the width of the counters. No capture stands
-- at time 0.
pub captures_run-IsCounted :
    (captures : List (Option ℕ)) (p : Pps)
    → All (λ (received : Option ℕ). ◌≢◌ {A = Option ℕ} received (some 0)) captures
    → IsCounted p
    → IsCounted (captures_run captures p)
unfolding captures_run
captures_run-IsCounted [] p positive h = h
captures_run-IsCounted (received ∷ others) p positive h =
    captures_run-IsCounted others (wait_for_capture received p).0 positive.1
      (wait_for_capture-IsCounted received p positive.0 h)

-- The part of the status that the clock reads.
abbrev pub clock_part : PpsServiceStatus → PpsStatus
clock_part s = record {
  interval_valid = s.interval_valid;
  age_us = s.age_us;
  period_us = s.period_us;
  jitter_us = s.jitter_us;
}

get_monotonic_us-lt :
    (raw : Option ℕ) (p : Pps) (now : ℕ) → get_monotonic_us raw p ≡ some now → now < 2 ^ 64
unfolding get_monotonic_us ticks_to_us
get_monotonic_us-lt raw p now e = ground (arith, e)

-- A usable status has a known age of 2.5 s at most.
usable_age :
    (raw : Option ℕ) (p : Pps)
    → pps_status_usable (clock_part (get_pps_status raw p)) ≡ true
    → (now : ℕ) × (get_monotonic_us raw p ≡ some now)
      × (p.status.last_capture_us ≤ now)
      × (now ≤ p.status.last_capture_us + 2_500_000)
unfolding get_pps_status pps_status_usable signed_ltb
usable_age raw p usable = elim (Option-cases (get_monotonic_us raw p)) [
  | inl e ↦ absurd (ground (arith, e, usable))
  | inr (now, e) ↦
      let bound = get_monotonic_us-lt raw p now e in
      (now, e, ground (arith, e, usable, bound), ground (arith, e, usable, bound))
]

usable_interval :
    (raw : Option ℕ) (p : Pps)
    → pps_status_usable (clock_part (get_pps_status raw p)) ≡ true
    → (p.status.interval_valid ≡ true) × (p.status.jitter_us ≤ 250)
unfolding get_pps_status pps_status_usable
usable_interval raw p usable = elim (Option-cases (get_monotonic_us raw p)) [
  | inl e ↦ ground (arith, e, usable)
  | inr (now, e) ↦ ground (arith, e, usable)
]

captured_at :
    (capture : ℕ) (p : Pps)
    → p.has_queue ≡ true
    → (wait_for_capture (some capture) p).0.status.last_capture_us ≡ capture
unfolding wait_for_capture
captured_at capture p q = ground (arith, q)

-- What the clock takes as usable right after a capture is a pulse that came a second after the one
-- before it, 250 μs earlier or later at most, and at most 2.5 s before the status is read.
pub usable_is_regular :
    (capture : ℕ) (raw : Option ℕ) (p : Pps)
    → p.has_queue ≡ true
    → let after = (wait_for_capture (some capture) p).0 in
      pps_status_usable (clock_part (get_pps_status raw after)) ≡ true
      → (p.previous_capture_us ≢ 0)
        × (p.previous_capture_us + 999_750 ≤ capture)
        × (capture ≤ p.previous_capture_us + 1_000_250)
        × ((now : ℕ) × (get_monotonic_us raw after ≡ some now)
            × (capture ≤ now)
            × (now ≤ capture + 2_500_000))
usable_is_regular capture raw p q usable =
    let after = (wait_for_capture (some capture) p).0 in
    let interval = wait_for_capture-interval capture p q in
    let (now, e, behind, near) = usable_age raw after usable in
    let regular = usable_interval raw after usable in
    let at = captured_at capture p q in
    (
      ground (arith, interval, regular),
      ground (arith, interval, regular),
      ground (arith, interval, regular),
      (now, e, omega (arith, behind, at), omega (arith, near, at)),
    )
