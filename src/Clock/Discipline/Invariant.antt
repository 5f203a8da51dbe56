-- ===== src/Clock/Discipline/Invariant.antt =====
-- The clock over any sequence of samples, reference updates and holdover checks.
use mathlib.Core.Path.{subst}
use esp32p4_nts_time_server.Base.{
  ℕ, suc, ◌+◌, ◌-◌, ◌^◌, ◌<◌, ◌≤◌, ◌≡◌, sym, inl, inr, List, [], ◌∷◌, Bool, true, false, not, ◌&&◌,
  ◌||◌, Option, none, some, ltb, leb, ◌==◌, if◌then◌else◌, u32, u64, arith, invalid_arg,
  invalid_response, invalid_state, timeout, ok, err, Status, esp_ok, Bool-cases, Result-cases,
}
use esp32p4_nts_time_server.Base.Signed.{signed_ltb, llabs}
use esp32p4_nts_time_server.Clock.{fail_closed}
use esp32p4_nts_time_server.Clock.Discipline.{
  Double, Clock, initial_clock, reject_sample, update_reference_state, is_synchronized, is_serving,
  enforce_holdover_policy, calculate_holdover_seconds, accept_initial, reject_step, accept_sample,
  compare_sample, submit_sample, filtered_frequency, utc_at, phase_error,
}

-- The calls that change the clock, with what they are given and what they meet.
pub data Event : Type 0 where
  submit : Bool → ℕ → ℕ → ℕ → ℕ → Event
  refer : Bool → Bool → Event
  enforce : Option ℕ → Event

module _ (d : Double) where
  -- The clock after a call, and whether the call has accepted a sample.
  unfoldable pub step : Event → Clock d → Clock d × Bool
  step (submit locked capture_us utc_seconds qerr_ns leap) c =
      let r = submit_sample d locked capture_us utc_seconds qerr_ns leap c in
      (r.1, elim r.0 [ ok _ ↦ true | err _ ↦ false ])
  step (refer gnss_ready pps_usable) c = (update_reference_state d gnss_ready pps_usable c, false)
  step (enforce now_us) c = (enforce_holdover_policy d now_us c, false)

  -- The clock after the calls, the last of which comes first, and the number of accepted samples.
  unfoldable pub run : List Event → Clock d × ℕ
  run [] = (initial_clock d, 0)
  run (e ∷ es) =
      let (c, n) = run es in
      let (next, accepted) = step e c in (next, if accepted then suc n else n)

  -- Time is served only with a solution; a solution has fewer than three rejects behind it, its
  -- anchor is its last sample, and the reference is a sample that is not later.
  pub record IsSound (c : Clock d) (n : ℕ) : Type 0 where
    pub ready : c.initialized ≡ true
    pub serving : is_serving d c.state ≡ true → c.solution_valid ≡ true
    pub closed : c.state ≡ fail_closed → c.solution_valid ≡ false
    pub rejects : c.solution_valid ≡ true → c.consecutive_rejects < 3
    pub anchor : c.anchor_capture_us ≡ c.last_sample_capture_us
    pub anchor_utc : c.anchor_utc_seconds ≡ c.last_sample_utc_seconds
    pub referenced : c.solution_valid ≡ true → c.reference_timestamp_valid ≡ true
    pub earlier : c.reference_capture_us ≤ c.last_sample_capture_us
    pub locked : is_serving d c.state ≡ true → 32 ≤ n
    pub counted : c.accepted_samples ≤ n
    pub begun : c.solution_valid ≡ true → 1 ≤ n

  reject_sample-IsSound : (c : Clock d) (n : ℕ) → IsSound c n → IsSound (reject_sample d c) n
  unfolding reject_sample
  reject_sample-IsSound c n h = elim (Bool-cases (leb 3 (u32 (c.consecutive_rejects + 1)))) [
    | inl q ↦ ground (arith, h, q)
    | inr q ↦ ground (arith, h, q)
  ]

  accept_initial-IsSound :
      (capture_us utc_seconds qerr_ns leap : ℕ) (c : Clock d) (n : ℕ)
      → IsSound c n
      → IsSound (accept_initial d capture_us utc_seconds qerr_ns leap c) (suc n)
  unfolding accept_initial
  accept_initial-IsSound capture_us utc_seconds qerr_ns leap c n h = ground (arith, h)

  accept_sample-IsSound :
      (capture_us utc_seconds error_ns : ℕ) (frequency : d.F) (leap : ℕ) (c : Clock d) (n : ℕ)
      → IsSound c n
      → c.solution_valid ≡ true
      → IsSound (accept_sample d capture_us utc_seconds error_ns frequency leap c) (suc n)
  unfolding accept_sample
  accept_sample-IsSound capture_us utc_seconds error_ns frequency leap c n h v =
      elim (Bool-cases (leb 32 (u32 (c.accepted_samples + 1)))) [
        | inl q ↦ ground (arith, h, v, q)
        | inr q ↦ ground (arith, h, v, q)
      ]

  reject_step-IsSound :
      (capture_us utc_seconds error_ns : ℕ) (c : Clock d) (n : ℕ)
      → IsSound c n
      → c.solution_valid ≡ true
      → c.last_sample_capture_us < capture_us
      → IsSound (reject_step d capture_us utc_seconds error_ns c) n
  unfolding reject_step
  reject_step-IsSound capture_us utc_seconds error_ns c n h v later =
      let moved : Clock d = record c {
        anchor_capture_us = capture_us;
        anchor_utc_seconds = utc_seconds;
        last_sample_capture_us = capture_us;
        last_sample_utc_seconds = utc_seconds;
        last_phase_error_ns = error_ns;
        frequency_ppm = d.of_nat 0;
        accepted_samples = 1;
      } in
      reject_sample-IsSound moved n (ground (arith, h, v, later))

  update_reference_state-IsSound :
      (gnss_ready pps_usable : Bool) (c : Clock d) (n : ℕ)
      → IsSound c n
      → IsSound (update_reference_state d gnss_ready pps_usable c) n
  unfolding update_reference_state
  update_reference_state-IsSound gnss_ready pps_usable c n h = elim (Bool-cases c.solution_valid) [
    | inl v ↦ ground (arith, h, v)
    | inr v ↦ ground (arith, h, v)
  ]

  enforce_holdover_policy-IsSound :
      (now_us : Option ℕ) (c : Clock d) (n : ℕ)
      → IsSound c n
      → IsSound (enforce_holdover_policy d now_us c) n
  unfolding enforce_holdover_policy
  enforce_holdover_policy-IsSound none c n h = h
  enforce_holdover_policy-IsSound (some now_us) c n h =
      let seconds = calculate_holdover_seconds d now_us c in
      elim (Bool-cases c.solution_valid) [
        | inr v ↦ ground (arith, h, v)
        | inl v ↦ elim (Bool-cases (ltb 3_600 seconds)) [
          | inl over ↦ ground (arith, h, v, over)
          | inr within ↦ elim (Bool-cases (ltb 0 seconds && is_synchronized d c.state)) [
            | inl held ↦ ground (arith, h, v, within, held)
            | inr kept ↦ ground (arith, h, v, within, kept)
          ]
        ]
      ]

  -- The clock and the count after a call that may accept a sample.
  record Follows (r : Status × Clock d) (n : ℕ) : Type 0 where
    sound : IsSound r.1 (elim r.0 [ ok _ ↦ suc n | err _ ↦ n ])

  same_Follows : (r r' : Status × Clock d) (n : ℕ) → r ≡ r' → Follows r' n → Follows r n
  same_Follows r r' n e h = subst (λ (q : Status × Clock d). Follows q n) (sym e) h

  compare_sample-Follows :
      (capture_us utc_seconds qerr_ns leap : ℕ) (c : Clock d) (n : ℕ)
      → IsSound c n
      → c.solution_valid ≡ true
      → c.last_sample_capture_us < capture_us
      → Follows (compare_sample d capture_us utc_seconds qerr_ns leap c) n
  unfolding compare_sample
  compare_sample-Follows capture_us utc_seconds qerr_ns leap c n h v later =
      let utc_elapsed = u64 (utc_seconds + (2 ^ 64 - c.last_sample_utc_seconds)) in
      let frequency =
        filtered_frequency d (capture_us - c.last_sample_capture_us) utc_elapsed c.frequency_ppm in
      let error_ns = phase_error d utc_seconds qerr_ns (
        utc_at d c.anchor_utc_seconds (u64 (capture_us + (2 ^ 64 - c.anchor_capture_us)))
          frequency) in
      elim (Bool-cases (signed_ltb 0 utc_elapsed)) [
        | inr q ↦
            same_Follows _ (err invalid_state, reject_sample d c) n (ground (arith, q))
              (record { sound = reject_sample-IsSound c n h })
        | inl q ↦ elim (Bool-cases (ltb 250_000_000 (llabs error_ns))) [
          | inl far ↦
              same_Follows _ (err invalid_response, reject_step d capture_us utc_seconds error_ns c)
                n (ground (arith, q, far))
                (record {
                  sound = reject_step-IsSound capture_us utc_seconds error_ns c n h v later;
                })
          | inr near ↦
              same_Follows _
                (esp_ok, accept_sample d capture_us utc_seconds error_ns frequency leap c) n
                (ground (arith, q, near))
                (record {
                  sound =
                      accept_sample-IsSound capture_us utc_seconds error_ns frequency leap c n h v;
                })
        ]
      ]

  submit_sample-Follows :
      (locked : Bool) (capture_us utc_seconds qerr_ns leap : ℕ) (c : Clock d) (n : ℕ)
      → IsSound c n
      → Follows (submit_sample d locked capture_us utc_seconds qerr_ns leap c) n
  unfolding submit_sample
  submit_sample-Follows locked capture_us utc_seconds qerr_ns leap c n h =
      elim (Bool-cases (not c.initialized || capture_us == 0 || not (signed_ltb 0 utc_seconds))) [
        | inl bad ↦
            same_Follows _ (err invalid_arg, c) n (ground (arith, bad)) (record { sound = h })
        | inr fine ↦ elim (Bool-cases (ltb 50_000 (llabs qerr_ns))) [
          | inl rough ↦ elim (Bool-cases locked) [
            | inl free ↦
                same_Follows _ (err invalid_response, reject_sample d c) n
                  (ground (arith, fine, rough, free))
                  (record { sound = reject_sample-IsSound c n h })
            | inr busy ↦
                same_Follows _ (err invalid_response, c) n (ground (arith, fine, rough, busy))
                  (record { sound = h })
          ]
          | inr exact ↦ elim (Bool-cases locked) [
            | inr busy ↦
                same_Follows _ (err timeout, c) n (ground (arith, fine, exact, busy))
                  (record { sound = h })
            | inl free ↦ later_Follows fine exact free
          ]
        ]
      ]
    where
      later_Follows :
          (not c.initialized || capture_us == 0 || not (signed_ltb 0 utc_seconds)) ≡ false
          → ltb 50_000 (llabs qerr_ns) ≡ false
          → locked ≡ true
          → Follows (submit_sample d locked capture_us utc_seconds qerr_ns leap c) n
      later_Follows fine exact free = elim (Bool-cases c.solution_valid) [
        | inr first ↦
            same_Follows _ (esp_ok, accept_initial d capture_us utc_seconds qerr_ns leap c) n
              (ground (arith, fine, exact, free, first))
              (record { sound = accept_initial-IsSound capture_us utc_seconds qerr_ns leap c n h })
        | inl v ↦
            elim (Bool-cases (
              leb capture_us c.last_sample_capture_us
              || not (signed_ltb c.last_sample_utc_seconds utc_seconds))) [
                | inl late ↦
                    same_Follows _ (err invalid_state, reject_sample d c) n
                      (ground (arith, fine, exact, free, v, late))
                      (record { sound = reject_sample-IsSound c n h })
                | inr next ↦
                    same_Follows _ (compare_sample d capture_us utc_seconds qerr_ns leap c) n
                      (ground (arith, fine, exact, free, v, next))
                      (compare_sample-Follows capture_us utc_seconds qerr_ns leap c n h v
                        (ground (arith, next)))
              ]
      ]

  initial_clock-IsSound : IsSound (initial_clock d) 0
  unfolding initial_clock
  initial_clock-IsSound = ground arith

  step-IsSound :
      (e : Event) (c : Clock d) (n : ℕ)
      → IsSound c n
      → IsSound (step e c).0 (if (step e c).1 then suc n else n)
  unfolding step
  step-IsSound (submit locked capture_us utc_seconds qerr_ns leap) c n h =
      let r = submit_sample d locked capture_us utc_seconds qerr_ns leap c in
      let follows =
        (submit_sample-Follows locked capture_us utc_seconds qerr_ns leap c n h).sound in
      elim (Result-cases r.0) [
        | inl (v, q) ↦ ground (arith, follows, q)
        | inr (e, q) ↦ ground (arith, follows, q)
      ]
  step-IsSound (refer gnss_ready pps_usable) c n h =
      update_reference_state-IsSound gnss_ready pps_usable c n h
  step-IsSound (enforce now_us) c n h = enforce_holdover_policy-IsSound now_us c n h

  -- After any calls since the clock was initialised: time is served only with a solution, and only
  -- after 32 samples have been accepted; a clock that has failed closed has none; a solution has
  -- fewer than three rejects in a row behind it, and its reference is set, by a sample not later
  -- than the last; and the anchor is the last sample.
  pub run-IsSound : (events : List Event) → IsSound (run events).0 (run events).1
  unfolding run
  run-IsSound [] = initial_clock-IsSound
  run-IsSound (e ∷ es) = step-IsSound e (run es).0 (run es).1 (run-IsSound es)
