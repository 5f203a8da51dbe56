-- ===== src/Ntp/Server/Request/Header.antt =====
-- The headers that the server sends, field by field, and the quality that it may claim.
use esp32p4_nts_time_server.Base.{
  ℕ, ◌≤◌, ◌≡◌, ◌≢◌, refl, ap, sym, ◌∙◌, inl, inr, ◌⊎◌, true, Option, none, some, arith, ◌==◌,
  Bool-cases,
}
use esp32p4_nts_time_server.Clock.{
  ClockState, unsynchronized, acquiring, synchronized, holdover, fail_closed,
}
use esp32p4_nts_time_server.Ntp.Packet.{NtpPacketFields, refid_from_text}
use esp32p4_nts_time_server.Ntp.Server.{
  ClockStatus, Quality, get_server_quality, quality_of, leap_from_gnss, valid_client_request,
  refid_gps, refid_hold, refid_rate,
}

-- A header in client mode, of version 1 to 4.
abbrev pub IsClient : NtpPacketFields → Type 0
IsClient request = (request.mode ≡ 3) × (1 ≤ request.version) × (request.version ≤ 4)

pub valid_client_request-IsClient :
    (request : NtpPacketFields) → valid_client_request request ≡ true → IsClient request
unfolding valid_client_request
valid_client_request-IsClient request h = (ground (arith, h), ground (arith, h), ground (arith, h))

-- Stratum 1 with the leap indicator of GNSS, which is known, and the reference "GPS "; or
-- stratum 2 without a leap second and the reference "HOLD".
abbrev pub IsClaimed : ClockState → Option ℕ → Quality → Type 0
IsClaimed state gnss_leap q =
    ((state ≡ synchronized)
      × (gnss_leap ≡ some q.leap)
      × (q.leap ≤ 2)
      × (q.stratum ≡ 1)
      × (q.refid ≡ 0x4750_5320))
    ⊎ ((state ≡ holdover) × (q.leap ≡ 0) × (q.stratum ≡ 2) × (q.refid ≡ 0x484F_4C44))

-- A clock with a solution allows the quality.
abbrev pub IsOffered : Option ClockStatus → Option ℕ → Quality → Type 0
IsOffered clock gnss_leap q =
    (c : ClockStatus) × (clock ≡ some c)
    × (c.solution_valid ≡ true)
    × (q.dispersion ≡ c.root_dispersion_16_16)
    × IsClaimed c.state gnss_leap q

leap_from_gnss-known :
    (gnss_leap : Option ℕ)
    → leap_from_gnss gnss_leap ≢ 3
    → (gnss_leap ≡ some (leap_from_gnss gnss_leap)) × (leap_from_gnss gnss_leap ≤ 2)
unfolding leap_from_gnss
leap_from_gnss-known none h = absurd (h refl)
leap_from_gnss-known (some indicator) h = elim (Bool-cases (indicator == 1)) [
  | inl one ↦ (ground (arith, one), ground (arith, one))
  | inr e ↦ elim (Bool-cases (indicator == 2)) [
    | inl two ↦ (ground (arith, e, two), ground (arith, e, two))
    | inr f ↦ elim (Bool-cases (indicator == 0)) [
      | inl none_due ↦ (ground (arith, none_due), ground (arith, none_due))
      | inr g ↦ absurd (h (ground (arith, e, f, g)))
    ]
  ]
]

-- The reference ids, as numbers.
refid_from_text-gps : refid_from_text refid_gps ≡ 0x4750_5320
unfolding refid_from_text
refid_from_text-gps = refl

refid_from_text-hold : refid_from_text refid_hold ≡ 0x484F_4C44
unfolding refid_from_text
refid_from_text-hold = refl

pub refid_from_text-rate : refid_from_text refid_rate ≡ 0x5241_5445
unfolding refid_from_text
refid_from_text-rate = refl

quality_of-synchronized :
    (clock : ClockStatus) (gnss_leap : Option ℕ) (q : Quality)
    → clock.state ≡ synchronized
    → quality_of clock (leap_from_gnss gnss_leap) ≡ some q
    → (clock.solution_valid ≡ true)
      × (q.dispersion ≡ clock.root_dispersion_16_16)
      × (leap_from_gnss gnss_leap ≢ 3)
      × (q.leap ≡ leap_from_gnss gnss_leap)
      × (q.stratum ≡ 1)
      × (q.refid ≡ refid_from_text refid_gps)
unfolding quality_of
quality_of-synchronized clock gnss_leap q s h = (
  ground (arith, s, h),
  ground (arith, s, h),
  (λ (e : leap_from_gnss gnss_leap ≡ 3). ground (arith, s, h, e)),
  ground (arith, s, h),
  ground (arith, s, h),
  ground (arith, s, h),
)

quality_of-holdover :
    (clock : ClockStatus) (leap : ℕ) (q : Quality)
    → clock.state ≡ holdover
    → quality_of clock leap ≡ some q
    → (clock.solution_valid ≡ true)
      × (q.dispersion ≡ clock.root_dispersion_16_16)
      × (q.leap ≡ 0)
      × (q.stratum ≡ 2)
      × (q.refid ≡ refid_from_text refid_hold)
unfolding quality_of
quality_of-holdover clock leap q s h = (
  ground (arith, s, h),
  ground (arith, s, h),
  ground (arith, s, h),
  ground (arith, s, h),
  ground (arith, s, h),
)

quality_of-IsClaimed :
    (state : ClockState) (clock : ClockStatus) (gnss_leap : Option ℕ) (q : Quality)
    → clock.state ≡ state
    → quality_of clock (leap_from_gnss gnss_leap) ≡ some q
    → (clock.solution_valid ≡ true)
      × (q.dispersion ≡ clock.root_dispersion_16_16)
      × IsClaimed clock.state gnss_leap q
unfolding quality_of
quality_of-IsClaimed synchronized clock gnss_leap q s h =
    let (valid, dispersion, known, leap, stratum, refid) =
      quality_of-synchronized clock gnss_leap q s h in
    let (given, small) = leap_from_gnss-known gnss_leap known in
    (
      valid,
      dispersion,
      inl (
        s,
        given ∙ ap some (sym leap),
        ground (arith, leap, small),
        stratum,
        refid ∙ refid_from_text-gps,
      ),
    )
quality_of-IsClaimed holdover clock gnss_leap q s h =
    let (valid, dispersion, leap, stratum, refid) =
      quality_of-holdover clock (leap_from_gnss gnss_leap) q s h in
    (valid, dispersion, inr (s, leap, stratum, refid ∙ refid_from_text-hold))
quality_of-IsClaimed unsynchronized clock gnss_leap q s h = absurd (ground (arith, s, h))
quality_of-IsClaimed acquiring clock gnss_leap q s h = absurd (ground (arith, s, h))
quality_of-IsClaimed fail_closed clock gnss_leap q s h = absurd (ground (arith, s, h))

pub get_server_quality-IsOffered :
    (clock : Option ClockStatus) (gnss_leap : Option ℕ) (q : Quality)
    → get_server_quality clock gnss_leap ≡ some q
    → IsOffered clock gnss_leap q
unfolding get_server_quality
get_server_quality-IsOffered none gnss_leap q h = absurd (ground (arith, h))
get_server_quality-IsOffered (some clock) gnss_leap q h =
    let (valid, dispersion, claimed) = quality_of-IsClaimed clock.state clock gnss_leap q refl h in
    (clock, refl, valid, dispersion, claimed)
