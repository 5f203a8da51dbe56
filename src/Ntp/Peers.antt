-- ===== src/Ntp/Peers.antt =====
-- main/ntp_peer_monitor.c: the NTP servers that are watched. An int64_t is its bit pattern below
-- 2 ^ 64; the clock's timestamps, the network and the timer are arguments.
pub mod Window
pub mod Response
pub mod Failures
pub mod Summary
mod Tests
use Prim.Native.Nat.{zero, suc}
use esp32p4_nts_time_server.Base.{
  ℕ, ◌+◌, ◌-◌, ◌*◌, ◌/◌, ◌%◌, ◌^◌, Bool, true, false, not, ◌&&◌, ◌||◌, Option, none, some, List, [],
  ◌∷◌, ◌++◌, map, length, take, drop, set, get_or, u8, u32, u64, ltb, leb, ◌==◌, if◌then◌else◌,
  ◌>>>◌,
}
use esp32p4_nts_time_server.Base.Bytes.{byte_at, read_be32, zeros}
use esp32p4_nts_time_server.Base.Signed.{signed_ltb, llabs, signed_quotient}

-- `ntp_peer_health_t`
pub data PeerHealth : Type 0 where
  disabled unknown healthy degraded unreachable divergent kod invalid : PeerHealth

-- The integral seconds and the fraction of a 32.32 duration, in nanoseconds, each rounded down.
abbrev pub fixed_ns : ℕ → ℕ
fixed_ns d = d / 2 ^ 32 * 1_000_000_000 + d % 2 ^ 32 * 1_000_000_000 / 2 ^ 32

-- The division and the remainder of C round towards zero.
unfoldable pub fixed_delta_ns : ℕ → ℕ → ℕ
fixed_delta_ns a b =
    let delta = u64 (a + 2 ^ 64 - b) in
    if ltb delta (2 ^ 63) then fixed_ns delta else u64 (2 ^ 64 - fixed_ns (2 ^ 64 - delta))

unfoldable pub abs_i64 : ℕ → ℕ
abs_i64 value = if value == 2 ^ 63 then 2 ^ 63 - 1 else llabs value

-- The first loop of `isqrt_u64`, with the bits that it may still shift.
unfoldable pub isqrt_start : ℕ → ℕ → ℕ → ℕ
isqrt_start zero value bit = bit
isqrt_start (suc fuel) value bit =
    let smaller = isqrt_start fuel value (bit >>> 2) in if ltb value bit then smaller else bit

-- The second loop.
unfoldable pub isqrt_rounds : ℕ → ℕ → ℕ → ℕ → ℕ
isqrt_rounds zero value bit result = result
isqrt_rounds (suc fuel) value bit result =
    let further = isqrt_rounds fuel in
    if bit == 0
    then result
    else if leb (result + bit) value
    then further (value - (result + bit)) (bit >>> 2) (result >>> 1 + bit)
    else further value (bit >>> 2) (result >>> 1)

-- Bit 62 is gone after 32 shifts by two.
unfoldable pub isqrt_u64 : ℕ → ℕ
isqrt_u64 value = isqrt_rounds 32 value (isqrt_start 32 value (2 ^ 62)) 0

-- The denominator is not negative.
unfoldable pub div_round_i64 : ℕ → ℕ → ℕ
div_round_i64 numerator denominator =
    if denominator == 0
    then 0
    else if ltb numerator (2 ^ 63)
    then (numerator + denominator / 2) / denominator
    else u64 (2 ^ 64 - (2 ^ 64 - numerator + denominator / 2) / denominator)

-- A square that stops at the last number of 64 bits.
unfoldable pub square_u64 : ℕ → ℕ
square_u64 a = if not (a == 0) && ltb ((2 ^ 64 - 1) / a) a then 2 ^ 64 - 1 else a * a

unfoldable pub add_saturated : ℕ → ℕ → ℕ
add_saturated sum more = if ltb (2 ^ 64 - 1 - sum) more then 2 ^ 64 - 1 else sum + more

-- `peer_runtime_t`: the rolling window and what was seen last.
pub record PeerRuntime : Type 0 where
  pub offset : List ℕ
  pub delay : List ℕ
  pub count : ℕ
  pub next : ℕ
  pub last_server_t3 : Option ℕ
  pub last_success_us : ℕ

-- `NTP_PEER_ROLLING_WINDOW`
abbrev pub window : ℕ
window = 16

-- The indices in chronological order, from `next` on.
abbrev pub rotated : ℕ → List ℕ → List ℕ
rotated next xs =
    map (λ i. get_or xs ((next + i) % window) 0)
      (0 ∷ 1 ∷ 2 ∷ 3 ∷ 4 ∷ 5 ∷ 6 ∷ 7 ∷ 8 ∷ 9 ∷ 10 ∷ 11 ∷ 12 ∷ 13 ∷ 14 ∷ 15 ∷ [])

-- The part of `update_success` on the two arrays.
unfoldable pub push_sample : ℕ → ℕ → PeerRuntime → PeerRuntime
push_sample offset_ns delay_ns given =
    let stored = record given {
      offset = set given.offset given.next offset_ns;
      delay = set given.delay given.next delay_ns;
      next = (given.next + 1) % window;
      count = if ltb given.count window then given.count + 1 else given.count;
    } in
    if (stored.count == window) && not (stored.next == 0)
    then record stored {
      offset = rotated stored.next stored.offset;
      delay = rotated stored.next stored.delay;
      next = 0;
    }
    else stored

-- `ntp_peer_status_t`
pub record PeerStatus : Type 0 where
  pub configured : Bool
  pub health : PeerHealth
  pub reachability : ℕ
  pub stratum : ℕ
  pub leap : ℕ
  pub reference_id : List ℕ
  pub offset_ns : ℕ
  pub delay_ns : ℕ
  pub jitter_ns : ℕ
  pub min_offset_ns : ℕ
  pub max_offset_ns : ℕ
  pub mean_offset_ns : ℕ
  pub rms_offset_ns : ℕ
  pub min_delay_ns : ℕ
  pub mean_delay_ns : ℕ
  pub root_delay : ℕ
  pub root_dispersion : ℕ
  pub successful_polls : ℕ
  pub failed_polls : ℕ
  pub rejected_responses : ℕ
  pub duplicate_responses : ℕ
  pub consecutive_failures : ℕ
  pub kod_responses : ℕ
  pub dns_failures : ℕ
  pub timeout_failures : ℕ
  pub samples : ℕ
  pub rolling_samples : ℕ
  pub last_success_age_seconds : ℕ

abbrev pub add_if : Bool → ℕ → ℕ
add_if test n = if test then u32 (n + 1) else n

-- The health behind a failure, with the count of consecutive failures.
unfoldable pub failure_health : PeerHealth → ℕ → PeerHealth
failure_health kod failures = kod
failure_health invalid failures = invalid
failure_health _ failures = if leb 3 failures then unreachable else degraded

-- What `update_failure` is told.
pub record Failure : Type 0 where
  pub requested : PeerHealth
  pub timeout : Bool
  pub dns : Bool
  pub rejected : Bool
  pub duplicate : Bool

unfoldable pub update_failure : Failure → PeerStatus → PeerStatus
update_failure f peer =
    let failures = u32 (peer.consecutive_failures + 1) in
    record peer {
      reachability = u8 (peer.reachability * 2);
      failed_polls = u32 (peer.failed_polls + 1);
      consecutive_failures = failures;
      timeout_failures = add_if f.timeout peer.timeout_failures;
      dns_failures = add_if f.dns peer.dns_failures;
      rejected_responses = add_if f.rejected peer.rejected_responses;
      duplicate_responses = add_if f.duplicate peer.duplicate_responses;
      health = failure_health f.requested failures;
    }

-- The sums over the window.
pub record Sums : Type 0 where
  pub min_offset : ℕ
  pub max_offset : ℕ
  pub min_delay : ℕ
  pub offset_sum : ℕ
  pub delay_sum : ℕ
  pub offset_sq_sum : ℕ
  pub diff_sq_sum : ℕ

-- The loop of `compute_rolling_stats`, with the offset before where there is one.
unfoldable pub sum_window : Option ℕ → List ℕ → List ℕ → Sums → Sums
sum_window previous [] delays s = s
sum_window previous (o ∷ offsets) [] s = s
sum_window previous (o ∷ offsets) (d ∷ delays) s = sum_window (some o) offsets delays (record {
  min_offset = if signed_ltb o s.min_offset then o else s.min_offset;
  max_offset = if signed_ltb s.max_offset o then o else s.max_offset;
  min_delay = if signed_ltb d s.min_delay then d else s.min_delay;
  offset_sum = u64 (s.offset_sum + o);
  delay_sum = u64 (s.delay_sum + d);
  offset_sq_sum = add_saturated s.offset_sq_sum (square_u64 (abs_i64 o));
  diff_sq_sum = elim previous [
    | none ↦ s.diff_sq_sum
    | some p ↦ add_saturated s.diff_sq_sum (square_u64 (abs_i64 (u64 (o + 2 ^ 64 - p))))
  ];
})

unfoldable pub compute_rolling_stats : PeerRuntime → PeerStatus → PeerStatus
compute_rolling_stats rt peer =
    if rt.count == 0
    then peer
    else (let s = sum_window none (take rt.count rt.offset) (take rt.count rt.delay) (record {
      min_offset = byte_at rt.offset 0;
      max_offset = byte_at rt.offset 0;
      min_delay = byte_at rt.delay 0;
      offset_sum = 0;
      delay_sum = 0;
      offset_sq_sum = 0;
      diff_sq_sum = 0;
    }) in
        record peer {
          rolling_samples = rt.count;
          min_offset_ns = s.min_offset;
          max_offset_ns = s.max_offset;
          mean_offset_ns = div_round_i64 s.offset_sum rt.count;
          rms_offset_ns = isqrt_u64 (s.offset_sq_sum / rt.count);
          min_delay_ns = s.min_delay;
          mean_delay_ns = div_round_i64 s.delay_sum rt.count;
          jitter_ns = if ltb 1 rt.count then isqrt_u64 (s.diff_sq_sum / (rt.count - 1)) else 0;
        })
