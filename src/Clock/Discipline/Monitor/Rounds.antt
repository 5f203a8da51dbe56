-- ===== src/Clock/Discipline/Monitor/Rounds.antt =====
-- What a round of the task does with an edge.
use esp32p4_nts_time_server.Base.{
  ℕ, ◌≡◌, ◌≤◌, inl, inr, ◌⊎◌, true, none, some, arith, ok, err, u64, Bool-cases, Option-cases,
  Result-cases,
}
use esp32p4_nts_time_server.Base.Signed.{signed_ltb}
use esp32p4_nts_time_server.Clock.Discipline.{Double, Clock, submit_sample}
use esp32p4_nts_time_server.Clock.Discipline.Monitor.{
  LastTimTp, PpsStatus, GnssSample, GnssStatus, Round, pps_status_usable, wait_for_gnss_sample,
  take_edge,
}
use esp32p4_nts_time_server.Clock.Discipline.Monitor.Lacking.{Lacks, wait_for_gnss_sample-Lacks}
use esp32p4_nts_time_server.Clock.Discipline.Monitor.Fresh.{
  IsPolled, IsFrom, wait_for_gnss_sample-IsFrom,
}

-- The interval is valid and at most 2.5 s old, from 0.8 to 1.2 s long, with 250 us of jitter.
abbrev pub IsUsable : PpsStatus → Type 0
IsUsable s =
    (s.interval_valid ≡ true)
    × (u64 s.age_us ≤ 2_500_000)
    × (800_000 ≤ s.period_us)
    × (s.period_us ≤ 1_200_000)
    × (s.jitter_us ≤ 250)

-- There is no edge, no status of the PPS service, no usable one, or the polls lack a record.
abbrev pub IsMissed : LastTimTp → Round → Type 0
IsMissed last round =
    (round.capture_us ≡ none)
    ⊎ (round.pps_status ≡ none)
    ⊎ ((s : PpsStatus) × (round.pps_status ≡ some s) × ¬ (IsUsable s))
    ⊎ Lacks last round.polls

pps_status_usable-IsUsable : (s : PpsStatus) → pps_status_usable s ≡ true → IsUsable s
unfolding pps_status_usable signed_ltb
pps_status_usable-IsUsable s h =
    (ground (arith, h), ground (arith, h), ground (arith, h), ground (arith, h), ground (arith, h))

IsUsable-pps_status_usable : (s : PpsStatus) → IsUsable s → pps_status_usable s ≡ true
unfolding pps_status_usable signed_ltb
IsUsable-pps_status_usable s (valid, young, least, most, even) =
    ground (arith, valid, young, least, most, even)

module _ (d : Double) where
  -- The calls on the clock for an edge at `capture_us` and a record: the clock is the one that
  -- `submit_sample` leaves, and the record is the last one where the sample is accepted.
  abbrev pub IsSubmitted :
      Round → Clock d → LastTimTp → ℕ → GnssSample → Clock d × LastTimTp → Type 0
  IsSubmitted round c last capture_us sample next =
      let r =
        submit_sample d round.submit_locked capture_us sample.utc_seconds
          sample.quantization_error_ns sample.leap_indicator c in
      (next.0 ≡ r.1)
      × (next.1 ≡ elim r.0 [ err _ ↦ last | ok _ ↦ some (sample.week, sample.tow_ms) ])

  -- The edge of the round, a usable PPS status, and a record from one of the polls.
  pub record IsTaken (round : Round) (c : Clock d) (last : LastTimTp) (next : Clock d × LastTimTp)
      : Type 0 where
    pub capture_us : ℕ
    pub captured : round.capture_us ≡ some capture_us
    pub pps : PpsStatus
    pub measured : round.pps_status ≡ some pps
    pub usable : IsUsable pps
    pub gnss : GnssStatus
    pub polled : IsPolled gnss round.polls
    pub sample : GnssSample
    pub fresh : IsFrom last gnss sample
    pub submitted : IsSubmitted round c last capture_us sample next

  -- A round takes its edge in one of two ways. Either there is no edge, no PPS status, no usable
  -- one, no recent and new record in the polls, or the first such is rough, and the clock and the
  -- last record stay. Or there are an edge, a usable PPS status and a record from one of the polls
  -- that is valid, recent and new: its second, error and leap indicator are submitted with the
  -- time of the edge, the clock is what that leaves, and the record becomes the last one exactly
  -- where the sample is accepted.
  pub take_edge_cases :
      (round : Round) (c : Clock d) (last : LastTimTp)
      → let next = take_edge d round (c, last) in
        (IsMissed last round × (next ≡ (c, last))) ⊎ IsTaken round c last next
  unfolding take_edge
  take_edge_cases round c last = elim (Option-cases round.capture_us) [
    | inl q ↦ inl (inl q, ground (arith, q))
    | inr (capture_us, q) ↦ elim (Option-cases round.pps_status) [
      | inl p ↦ inl (inr (inl p), ground (arith, q, p))
      | inr (status, p) ↦ elim (Option-cases (wait_for_gnss_sample last round.polls)) [
        | inl w ↦ inl (
          inr (inr (inr (wait_for_gnss_sample-Lacks last round.polls w))),
          ground (arith, q, p, w),
        )
        | inr (sample, w) ↦ elim (Bool-cases (pps_status_usable status)) [
          | inr useless ↦ inl (
            inr (
                inr (
                  inl (
                    status,
                    p,
                    (λ (u : IsUsable status).
                        absurd (ground (arith, useless, IsUsable-pps_status_usable status u))),
                  ))),
            ground (arith, q, p, w, useless),
          )
          | inl useful ↦
              let (gnss, polled, fresh) = wait_for_gnss_sample-IsFrom last round.polls sample w in
              inr (record {
                capture_us = capture_us;
                captured = q;
                pps = status;
                measured = p;
                usable = pps_status_usable-IsUsable status useful;
                gnss = gnss;
                polled = polled;
                sample = sample;
                fresh = fresh;
                submitted = submitted capture_us status sample q p w useful;
              })
        ]
      ]
    ]
  ]
    where
      submitted :
          (capture_us : ℕ) (status : PpsStatus) (sample : GnssSample)
          → round.capture_us ≡ some capture_us
          → round.pps_status ≡ some status
          → wait_for_gnss_sample last round.polls ≡ some sample
          → pps_status_usable status ≡ true
          → IsSubmitted round c last capture_us sample (take_edge d round (c, last))
      submitted capture_us status sample q p w useful =
          let r =
            submit_sample d round.submit_locked capture_us sample.utc_seconds
              sample.quantization_error_ns sample.leap_indicator c in
          elim (Result-cases r.0) [
            | inl (v, s) ↦ (ground (arith, q, p, w, useful, s), ground (arith, q, p, w, useful, s))
            | inr (v, s) ↦ (ground (arith, q, p, w, useful, s), ground (arith, q, p, w, useful, s))
          ]
