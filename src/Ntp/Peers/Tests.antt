-- ===== src/Ntp/Peers/Tests.antt =====
-- A peer at its start, two samples, and three polls without an answer.
use esp32p4_nts_time_server.Base.{
  ℕ, ◌≡◌, refl, inl, false, true, none, List, [], ◌∷◌, ◌++◌, arith, length, leb, if◌then◌else◌,
}
use esp32p4_nts_time_server.Base.Bytes.{zeros}
use esp32p4_nts_time_server.Ntp.Peers.{
  PeerRuntime, PeerStatus, Failure, unknown, degraded, unreachable,
}
use esp32p4_nts_time_server.Ntp.Peers.Window.{
  IsWindow, samples_of, last_samples, push_all, offsets_of, delays_of, push_all-last_samples,
}
use esp32p4_nts_time_server.Ntp.Peers.Failures.{fail_all, unreachable_after_three}

abbrev fresh : PeerRuntime
fresh = record {
  offset = zeros 16;
  delay = zeros 16;
  count = 0;
  next = 0;
  last_server_t3 = none;
  last_success_us = 0;
}

fresh-IsWindow : IsWindow fresh
fresh-IsWindow = record {
  offset_size = refl;
  delay_size = refl;
  used = omega arith;
  next_free = inl (refl, omega arith);
}

abbrev pairs : List (ℕ × ℕ)
pairs = (5, 1_000) ∷ (7, 1_200) ∷ []

push_all-last_samples_example :
    let last = push_all pairs fresh in
    IsWindow last
    × (samples_of last.offset last
        ≡ last_samples (samples_of fresh.offset fresh ++ offsets_of pairs))
    × (samples_of last.delay last ≡ last_samples (samples_of fresh.delay fresh ++ delays_of pairs))
push_all-last_samples_example = push_all-last_samples pairs fresh fresh-IsWindow

abbrev peer : PeerStatus
peer = record {
  configured = true;
  health = unknown;
  reachability = 0;
  stratum = 0;
  leap = 0;
  reference_id = [];
  offset_ns = 0;
  delay_ns = 0;
  jitter_ns = 0;
  min_offset_ns = 0;
  max_offset_ns = 0;
  mean_offset_ns = 0;
  rms_offset_ns = 0;
  min_delay_ns = 0;
  mean_delay_ns = 0;
  root_delay = 0;
  root_dispersion = 0;
  successful_polls = 0;
  failed_polls = 0;
  rejected_responses = 0;
  duplicate_responses = 0;
  consecutive_failures = 0;
  kod_responses = 0;
  dns_failures = 0;
  timeout_failures = 0;
  samples = 0;
  rolling_samples = 0;
  last_success_age_seconds = 0;
}

abbrev unanswered : Failure
unanswered = record {
  requested = degraded;
  timeout = true;
  dns = false;
  rejected = false;
  duplicate = false;
}

unreachable_after_three_example :
    let fs = unanswered ∷ unanswered ∷ [] in
    let last = fail_all (fs ++ unanswered ∷ []) peer in
    (last.health ≡ (if leb 2 (length fs) then unreachable else degraded))
    × (last.samples ≡ peer.samples)
    × (last.offset_ns ≡ peer.offset_ns)
unreachable_after_three_example =
    unreachable_after_three (unanswered ∷ unanswered ∷ []) unanswered peer refl refl (omega arith)
