-- ===== src/Ntp/Peers/Summary.antt =====
-- main/ntp_peer_monitor.c: the summary over all peers.
use esp32p4_nts_time_server.Base.{
  ℕ, ◌+◌, ◌-◌, ◌/◌, ◌^◌, ◌≤◌, ◌≡◌, All, arith, Bool-cases, Option-cases, inl, inr, Bool, true,
  false, not, ◌&&◌, Option, none, some, List, [], ◌∷◌, map, u32, u64, ltb, leb, ◌==◌, if◌then◌else◌,
}
use esp32p4_nts_time_server.Base.Signed.{signed_ltb}
use esp32p4_nts_time_server.Ntp.Peers.{
  PeerHealth, healthy, unreachable, divergent, kod, invalid, PeerRuntime, PeerStatus, abs_i64,
}

-- The three states of health that leave a peer out of the summary.
unfoldable pub is_out : PeerHealth → Bool
is_out unreachable = true
is_out kod = true
is_out invalid = true
is_out _ = false

unfoldable pub is_healthy : PeerHealth → Bool
is_healthy healthy = true
is_healthy _ = false

-- A peer that counts in the summary.
unfoldable pub is_sampled : PeerStatus → Bool
is_sampled peer = peer.configured && not (peer.samples == 0) && not (is_out peer.health)

unfoldable pub with_age : ℕ → PeerRuntime × PeerStatus → PeerRuntime × PeerStatus
with_age now (rt, peer) =
    if peer.configured && ltb 0 rt.last_success_us
    then (
      rt,
      record peer { last_success_age_seconds = u32 ((now - rt.last_success_us) / 1_000_000) },
    )
    else (rt, peer)

-- The sum of two scores, which stops at the last int64_t.
abbrev pub add_score : ℕ → ℕ → ℕ
add_score score more = if ltb (2 ^ 63 - 1 - more) score then 2 ^ 63 - 1 else score + more

unfoldable pub score_of : PeerStatus → ℕ
score_of peer =
    let delay_score = if signed_ltb 0 peer.delay_ns then peer.delay_ns / 4 else 0 in
    add_score (add_score (abs_i64 peer.offset_ns) (abs_i64 peer.jitter_ns)) delay_score

-- The variables of the loop: the offsets' range, the number of peers that count, and the best peer
-- with its score.
pub record Tally : Type 0 where
  pub range : Option (ℕ × ℕ)
  pub sampled : ℕ
  pub best : Option (ℕ × ℕ)

abbrev pub widen : ℕ → Option (ℕ × ℕ) → Option (ℕ × ℕ)
widen offset none = some (offset, offset)
widen offset (some (low, high)) =
    some (
      if signed_ltb offset low then offset else low,
      if signed_ltb high offset then offset else high,
    )

abbrev pub better : ℕ → ℕ → Option (ℕ × ℕ) → Option (ℕ × ℕ)
better index score none = some (index, score)
better index score (some (best, best_score)) =
    if ltb score best_score then some (index, score) else some (best, best_score)

-- The loop over the peers from an index on.
unfoldable pub tally_peers : ℕ → List PeerStatus → Tally → Tally
tally_peers index [] t = t
tally_peers index (peer ∷ peers) t = tally_peers (index + 1) peers (
    if is_sampled peer
    then record {
      range = widen peer.offset_ns t.range;
      sampled = t.sampled + 1;
      best = better index (score_of peer) t.best;
    }
    else t)

unfoldable pub spread_of : Tally → Option ℕ
spread_of t = elim t.range [
  | none ↦ none
  | some (low, high) ↦ if leb 2 t.sampled then some (u64 (high + 2 ^ 64 - low)) else none
]

unfoldable pub diverge : PeerStatus → PeerStatus
diverge peer = if is_sampled peer then record peer { health = divergent } else peer

unfoldable pub count_healthy : List PeerStatus → ℕ
count_healthy [] = 0
count_healthy (peer ∷ peers) = (if is_healthy peer.health then 1 else 0) + count_healthy peers

-- The parts of `ntp_peer_monitor_status_t` that the summary sets.
pub record Aggregate : Type 0 where
  pub healthy_peers : ℕ
  pub cross_peer_spread : Option ℕ
  pub best_observed_peer : Option ℕ
  pub peers : List PeerStatus

-- `refresh_aggregate_health` behind the update of the ages, which `with_age` is for each peer.
unfoldable pub refresh_aggregate_health : List PeerStatus → Aggregate
refresh_aggregate_health peers =
    let t = tally_peers 0 peers (record { range = none; sampled = 0; best = none }) in
    let spread = spread_of t in
    let judged : List PeerStatus = elim spread [
      | none ↦ peers
      | some wide ↦ if signed_ltb 10_000_000 wide then map diverge peers else peers
    ] in
    record {
      healthy_peers = count_healthy judged;
      cross_peer_spread = spread;
      best_observed_peer = elim t.best [ none ↦ none | some (index, score) ↦ some index ];
      peers = judged;
    }

-- A score that no peer of a list that counts goes below.
abbrev pub IsLeast : ℕ → List PeerStatus → Type 0
IsLeast least = All (λ (peer : PeerStatus). is_sampled peer ≡ true → least ≤ score_of peer)

tally_peers-IsLeast_from :
    (index : ℕ) (peers : List PeerStatus) (t : Tally) (best least : ℕ)
    → (tally_peers index peers t).best ≡ some (best, least)
    → IsLeast least peers × ((i s : ℕ) → t.best ≡ some (i, s) → least ≤ s)
unfolding tally_peers
tally_peers-IsLeast_from index [] t best least e = (tt, λ i s h. ground (arith, e, h))
tally_peers-IsLeast_from index (peer ∷ peers) t best least e =
    let (rest, earlier) = tally_peers-IsLeast_from (index + 1) peers _ best least e in
    elim (Bool-cases (is_sampled peer)) [
      | inl sampled ↦ elim (Option-cases t.best) [
        | inl first ↦
            let bound = earlier index (score_of peer) (ground (arith, sampled, first)) in
            ((λ h. bound, rest), λ i s h. absurd (ground (arith, first, h)))
        | inr ((j, r), before) ↦ elim (Bool-cases (ltb (score_of peer) r)) [
          | inl lower ↦
              let bound = earlier index (score_of peer) (ground (arith, sampled, before, lower)) in
              ((λ h. bound, rest), λ i s h. ground (arith, before, h, bound, lower))
          | inr kept ↦
              let bound = earlier j r (ground (arith, sampled, before, kept)) in
              ((λ h. ground (arith, bound, kept), rest), λ i s h. ground (arith, before, h, bound))
        ]
      ]
      | inr out ↦ (
        (λ h. absurd (ground (arith, out, h)), rest),
        λ i s h. earlier i s (ground (arith, out, h)),
      )
    ]

-- No peer that counts has a score below that of the best peer of the summary.
pub tally_peers-IsLeast :
    (peers : List PeerStatus) (best least : ℕ)
    → (tally_peers 0 peers (record { range = none; sampled = 0; best = none })).best
      ≡ some (best, least)
    → IsLeast least peers
tally_peers-IsLeast peers best least e = (tally_peers-IsLeast_from 0 peers _ best least e).0
