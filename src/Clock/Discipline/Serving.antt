-- ===== src/Clock/Discipline/Serving.antt =====
-- When the clock gives the time, and when it does not.
use esp32p4_nts_time_server.Base.{
  ℕ, ◌-◌, ◌/◌, ◌^◌, ◌<◌, ◌≤◌, ◌≡◌, List, Bool, true, false, Option, none, some, arith, ok, err,
  Bool-cases, [], ◌∷◌, Option-cases, inl, inr,
}
use esp32p4_nts_time_server.Clock.Discipline.{
  Double, Clock, reject_sample, is_serving, enforce_holdover_policy, update_reference_state,
  calculate_holdover_seconds, submit_sample, get_ntp_timestamp, get_reference_timestamp,
}
use esp32p4_nts_time_server.Clock.Discipline.Invariant.{
  Event, submit, refer, enforce, step, run, run-IsSound,
}

module _ (d : Double) where
  -- What the two getters have in common.
  abbrev Serves : Clock d → Type 0
  Serves c = (c.solution_valid ≡ true) × (is_serving d c.state ≡ true)

  get_ntp_timestamp-Serves :
      (locked : Bool) (now_us : Option ℕ) (c : Clock d) (t : ℕ × ℕ)
      → get_ntp_timestamp d locked now_us c ≡ some t
      → Serves c
  unfolding get_ntp_timestamp
  get_ntp_timestamp-Serves locked none c t e = absurd (ground (arith, e))
  get_ntp_timestamp-Serves locked (some now_us) c t e = (ground (arith, e), ground (arith, e))

  get_reference_timestamp-Serves :
      (locked : Bool) (now_us : Option ℕ) (c : Clock d) (t : ℕ × ℕ)
      → get_reference_timestamp d locked now_us c ≡ some t
      → Serves c
  unfolding get_reference_timestamp
  get_reference_timestamp-Serves locked none c t e = absurd (ground (arith, e))
  get_reference_timestamp-Serves locked (some now_us) c t e = (ground (arith, e), ground (arith, e))

  -- However the calls since the initialisation went: where the clock gives a timestamp, at least
  -- 32 samples have been accepted since then, fewer than three have been rejected in a row, and
  -- the time counts on from the last sample, with the reference of an accepted one.
  pub run-served :
      (events : List Event) (locked : Bool) (now_us : Option ℕ) (t : ℕ × ℕ)
      → let c = (run d events).0 in
        get_ntp_timestamp d locked now_us c ≡ some t
        → (32 ≤ (run d events).1)
          × (c.consecutive_rejects < 3)
          × (c.anchor_capture_us ≡ c.last_sample_capture_us)
          × (c.anchor_utc_seconds ≡ c.last_sample_utc_seconds)
          × (c.reference_timestamp_valid ≡ true)
  run-served events locked now_us t e =
      let c = (run d events).0 in
      let h = run-IsSound d events in
      let (valid, serving) = get_ntp_timestamp-Serves locked now_us c t e in
      (h.locked serving, h.rejects valid, h.anchor, h.anchor_utc, h.referenced valid)

  enforce_holdover_policy-closes :
      (now_us : ℕ) (c : Clock d)
      → c.last_sample_capture_us ≤ now_us
      → 3_601 ≤ (now_us - c.last_sample_capture_us) / 1_000_000
      → (now_us - c.last_sample_capture_us) / 1_000_000 < 2 ^ 32
      → (enforce_holdover_policy d (some now_us) c).solution_valid ≡ false
  unfolding enforce_holdover_policy calculate_holdover_seconds
  enforce_holdover_policy-closes now_us c later old small = elim (Bool-cases c.solution_valid) [
    | inl v ↦ ground (arith, v, later, old, small)
    | inr v ↦ ground (arith, v)
  ]

  -- The clock after the calls, the last of which comes first.
  unfoldable pub after : List Event → Clock d → Clock d
  after [] c = c
  after (e ∷ es) c = (step d e (after es c)).0

  -- None of the calls accepts a sample.
  unfoldable pub AcceptsNone : List Event → Clock d → Type 0
  AcceptsNone [] c = Unit
  AcceptsNone (e ∷ es) c = ((step d e (after es c)).1 ≡ false) × AcceptsNone es c

  submit_sample-closed :
      (locked : Bool) (capture_us utc_seconds qerr_ns leap : ℕ) (c : Clock d)
      → c.solution_valid ≡ false
      → let r = submit_sample d locked capture_us utc_seconds qerr_ns leap c in
        elim r.0 [ ok _ ↦ true | err _ ↦ false ] ≡ false → r.1.solution_valid ≡ false
  unfolding submit_sample reject_sample
  submit_sample-closed locked capture_us utc_seconds qerr_ns leap c v refused = ground arith

  step-closed :
      (e : Event) (c : Clock d)
      → c.solution_valid ≡ false
      → (step d e c).1 ≡ false
      → (step d e c).0.solution_valid ≡ false
  unfolding step update_reference_state enforce_holdover_policy
  step-closed (submit locked capture_us utc_seconds qerr_ns leap) c v refused =
      submit_sample-closed locked capture_us utc_seconds qerr_ns leap c v refused
  step-closed (refer gnss_ready pps_usable) c v refused = ground (arith, v)
  step-closed (enforce none) c v refused = v
  step-closed (enforce (some now_us)) c v refused = ground (arith, v)

  after-closed :
      (es : List Event) (c : Clock d)
      → c.solution_valid ≡ false
      → AcceptsNone es c
      → (after es c).solution_valid ≡ false
  unfolding after AcceptsNone
  after-closed [] c v h = v
  after-closed (e ∷ es) c v (refused, rest) = step-closed e _ (after-closed es c v rest) refused

  closed_no_time :
      (c : Clock d) (locked : Bool) (now_us : Option ℕ)
      → c.solution_valid ≡ false
      → (get_ntp_timestamp d locked now_us c ≡ none)
        × (get_reference_timestamp d locked now_us c ≡ none)
  closed_no_time c locked now_us closed = (
    elim (Option-cases (get_ntp_timestamp d locked now_us c)) [
      | inl e ↦ e
      | inr (t, e) ↦
          absurd (ground (arith, closed, (get_ntp_timestamp-Serves locked now_us c t e).0))
    ],
    elim (Option-cases (get_reference_timestamp d locked now_us c)) [
      | inl e ↦ e
      | inr (t, e) ↦
          absurd (ground (arith, closed, (get_reference_timestamp-Serves locked now_us c t e).0))
    ],
  )

  -- A holdover check 3,601 seconds or more behind the last sample, and less than 2 ^ 32 seconds,
  -- takes the time away: behind any further samples, reference updates and holdover checks of
  -- which none accepts a sample, neither getter answers, whatever the time.
  pub enforce_holdover_policy-silences :
      (checked_us : ℕ) (c : Clock d) (events : List Event) (locked : Bool) (now_us : Option ℕ)
      → c.last_sample_capture_us ≤ checked_us
      → 3_601 ≤ (checked_us - c.last_sample_capture_us) / 1_000_000
      → (checked_us - c.last_sample_capture_us) / 1_000_000 < 2 ^ 32
      → let checked = enforce_holdover_policy d (some checked_us) c in
        AcceptsNone events checked
        → let later = after events checked in
          (get_ntp_timestamp d locked now_us later ≡ none)
          × (get_reference_timestamp d locked now_us later ≡ none)
  enforce_holdover_policy-silences checked_us c events locked now_us late old small none_accepted =
      closed_no_time _ locked now_us (
        after-closed events _ (enforce_holdover_policy-closes checked_us c late old small)
          none_accepted)
