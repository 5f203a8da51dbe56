-- ===== src/Nts/Auth/Counters.antt =====
-- The counters of main/nts_ntp_auth.c over verified requests.
use esp32p4_nts_time_server.Base.{ℕ, ◌+◌, ◌≡◌, List, [], ◌∷◌, Option, u32, Status, ok, err, arith}
use esp32p4_nts_time_server.Nts.AesSiv.{Psa}
use esp32p4_nts_time_server.Nts.Keyring.{Nvs, Memory}
use esp32p4_nts_time_server.Nts.Auth.{AuthContext, AuthStats, count_verification, verify_request}

-- Every attempt is counted once more, as a success or as a failure, modulo 2^32.
abbrev pub Balanced : AuthStats → Type 0
Balanced s = s.verification_attempts ≡ u32 (s.authenticated_requests + s.verification_failures)

count_verification-Balanced :
    (status : Status) (s : AuthStats) → Balanced s → Balanced (count_verification status s)
unfolding count_verification
count_verification-Balanced (ok _) s h = omega arith
count_verification-Balanced (err e) s h = omega arith

module _ (nvs : Nvs) (psa : Psa) (random : ℕ → List ℕ) (clock clock' : Option ℕ) where
  -- The counters and the storage after requests that came one after the other.
  unfoldable pub stats_after : List (List ℕ) → AuthContext → Memory nvs → AuthStats → AuthStats
  stats_after [] context m s = s
  stats_after (p ∷ ps) context m s =
      let (r, s') = verify_request nvs psa random clock clock' p context m s in
      stats_after ps r.1 r.2 s'

  -- Any sequence of requests keeps the counters balanced: the attempts are the sum of the
  -- authenticated requests and the failures, modulo 2^32.
  pub stats_after-Balanced :
      (ps : List (List ℕ)) (context : AuthContext) (m : Memory nvs) (s : AuthStats)
      → Balanced s
      → Balanced (stats_after ps context m s)
  unfolding stats_after verify_request
  stats_after-Balanced [] context m s h = h
  stats_after-Balanced (p ∷ ps) context m s h =
      let r = (verify_request nvs psa random clock clock' p context m s).0 in
      stats_after-Balanced ps r.1 r.2 (count_verification r.0 s)
        (count_verification-Balanced r.0 s h)
