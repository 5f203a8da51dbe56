-- ===== src/Ntp/Peers/Failures.antt =====
-- main/ntp_peer_monitor.c: what polls that fail make of a peer.
use esp32p4_nts_time_server.Base.{
  ℕ, ◌+◌, ◌^◌, ◌<◌, ◌≡◌, refl, ap, ◌∙◌, ◌++◌, List, [], ◌∷◌, arith, length, u32, leb, if◌then◌else◌,
}
use esp32p4_nts_time_server.Ntp.Peers.{
  unreachable, degraded, PeerStatus, Failure, failure_health, update_failure,
}

-- Polls that all fail.
unfoldable pub fail_all : List Failure → PeerStatus → PeerStatus
fail_all [] peer = peer
fail_all (f ∷ fs) peer = fail_all fs (update_failure f peer)

failed_once :
    (f : Failure) (peer : PeerStatus)
    → (update_failure f peer).consecutive_failures ≡ u32 (peer.consecutive_failures + 1)
unfolding update_failure
failed_once f peer = refl

counted_run :
    (fs : List Failure) (peer : PeerStatus)
    → peer.consecutive_failures + length fs < 2 ^ 32
    → (fail_all fs peer).consecutive_failures ≡ peer.consecutive_failures + length fs
unfolding fail_all
counted_run [] peer h = omega arith
counted_run (f ∷ fs) peer h =
    let once = failed_once f peer in
    omega (arith, once, counted_run fs (update_failure f peer) (omega (arith, once)))

fail_all-append :
    (fs : List Failure) (f : Failure) (peer : PeerStatus)
    → fail_all (fs ++ f ∷ []) peer ≡ update_failure f (fail_all fs peer)
unfolding fail_all
fail_all-append [] f peer = refl
fail_all-append (g ∷ gs) f peer = fail_all-append gs f (update_failure g peer)

last_failure :
    (f : Failure) (peer : PeerStatus) (n : ℕ)
    → f.requested ≡ degraded
    → peer.consecutive_failures ≡ n
    → n + 1 < 2 ^ 32
    → (update_failure f peer).health ≡ (if leb 2 n then unreachable else degraded)
unfolding update_failure failure_health
last_failure f peer n r c h = ground (arith, r, c)

kept_samples :
    (fs : List Failure) (peer : PeerStatus)
    → ((fail_all fs peer).samples ≡ peer.samples)
      × ((fail_all fs peer).successful_polls ≡ peer.successful_polls)
      × ((fail_all fs peer).offset_ns ≡ peer.offset_ns)
unfolding fail_all update_failure
kept_samples [] peer = (refl, refl, refl)
kept_samples (f ∷ fs) peer = kept_samples fs (update_failure f peer)

-- A peer whose polls fail one after the other, the last one without an answer, is unreachable from
-- the third failure on and degraded before, whatever the failures before the last one are; the
-- count of its samples and its last offset stay.
pub unreachable_after_three :
    (fs : List Failure) (f : Failure) (peer : PeerStatus)
    → peer.consecutive_failures ≡ 0
    → f.requested ≡ degraded
    → length fs + 1 < 2 ^ 32
    → let last = fail_all (fs ++ f ∷ []) peer in
      (last.health ≡ (if leb 2 (length fs) then unreachable else degraded))
      × (last.samples ≡ peer.samples)
      × (last.offset_ns ≡ peer.offset_ns)
unreachable_after_three fs f peer c r h =
    let counted = counted_run fs peer (omega (arith, c)) in
    let kept = kept_samples (fs ++ f ∷ []) peer in
    (
      ap (λ (p : PeerStatus). p.health) (fail_all-append fs f peer)
          ∙ last_failure f (fail_all fs peer) (length fs) r (omega (arith, counted, c)) h,
      kept.0,
      kept.2,
    )
