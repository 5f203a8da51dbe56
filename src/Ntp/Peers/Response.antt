-- ===== src/Ntp/Peers/Response.antt =====
-- main/ntp_peer_monitor.c: the answer of a peer, from its checks to what it changes.
pub mod Checks
mod Tests
use Prim.Native.Nat.{zero, suc}
use esp32p4_nts_time_server.Base.{
  ℕ, ◌+◌, ◌-◌, ◌*◌, ◌/◌, ◌%◌, ◌^◌, Bool, true, false, not, ◌&&◌, ◌||◌, Option, none, some, List, [],
  ◌∷◌, map, length, take, drop, u8, u32, u64, ltb, leb, ◌==◌, if◌then◌else◌, ◌<<<◌, ◌>>>◌, bit_and,
  bit_or,
}
use esp32p4_nts_time_server.Base.Bytes.{byte_at, read_be32}
use esp32p4_nts_time_server.Base.Signed.{signed_ltb, signed_quotient}
use esp32p4_nts_time_server.Ntp.Peers.{
  PeerHealth, degraded, healthy, kod, invalid, fixed_delta_ns, PeerRuntime, push_sample, PeerStatus,
  Failure, update_failure, compute_rolling_stats,
}

-- What `recvfrom` gave: the packet, whether it came from the address that was asked, and the clock
-- behind it.
pub record Arrival : Type 0 where
  pub response : List ℕ
  pub same_source : Bool
  pub t4 : Option ℕ

-- The end of `process_response`: the failure that it reports, with a kiss-o'-death where it is one,
-- or the time of the server, the offset and the delay.
pub data Judgement : Type 0 where
  refused repeated kiss_of_death : Judgement
  accepted : (server_t3 offset_ns delay_ns : ℕ) → Judgement

-- The remainder towards zero of a bit pattern by 2.
unfoldable pub signed_half_rest : ℕ → ℕ
signed_half_rest a = if ltb a (2 ^ 63) then a % 2 else u64 (2 ^ 64 - (2 ^ 64 - a) % 2)

unfoldable pub offset_of : ℕ → ℕ → ℕ
offset_of a b = u64 (
    u64 (signed_quotient a 2 + signed_quotient b 2)
    + signed_quotient (u64 (signed_half_rest a + signed_half_rest b)) 2)

unfoldable pub field_time : List ℕ → ℕ → ℕ
field_time response at =
    bit_or (read_be32 (drop at response) <<< 32) (read_be32 (drop (at + 4) response))

-- The test of the header and the three timestamps, with the seconds and the fraction that were
-- sent.
unfoldable pub header_invalid : List ℕ → ℕ → ℕ → Bool
header_invalid response seconds fraction =
    ltb (bit_and (byte_at response 0 >>> 3) 7) 3
    || not (bit_and (byte_at response 0) 7 == 4)
    || (byte_at response 0 >>> 6 == 3)
    || ltb 15 (byte_at response 1)
    || not (read_be32 (drop 24 response) == seconds)
    || not (read_be32 (drop 28 response) == fraction)
    || ((read_be32 (drop 32 response) == 0) && (read_be32 (drop 36 response) == 0))
    || ((read_be32 (drop 40 response) == 0) && (read_be32 (drop 44 response) == 0))

abbrev pub is_last : Option ℕ → ℕ → Bool
is_last none t = false
is_last (some last) t = last == t

-- The offset and the delay of an exchange at the times `f1` to `f4`, where the delay is not
-- negative.
unfoldable pub judge_times : ℕ → ℕ → ℕ → ℕ → Judgement
judge_times f1 f2 f3 f4 =
    let delay_ns = u64 (fixed_delta_ns f4 f1 + 2 ^ 64 - fixed_delta_ns f3 f2) in
    if signed_ltb delay_ns 0
    then refused
    else accepted f3 (offset_of (fixed_delta_ns f2 f1) (fixed_delta_ns f3 f4)) delay_ns

unfoldable pub judge : ℕ → ℕ → Option ℕ → Arrival → Judgement
judge seconds fraction last_t3 a = elim a.t4 [
  | none ↦ refused
  | some f4 ↦
      if ltb (length a.response) 48 || not a.same_source
      then refused
      else if byte_at a.response 1 == 0
      then kiss_of_death
      else if header_invalid a.response seconds fraction
      then refused
      else if is_last last_t3 (field_time a.response 40)
      then repeated
      else judge_times (bit_or (seconds <<< 32) fraction) (field_time a.response 32)
          (field_time a.response 40) f4
]

-- The four characters of a reference identifier of a primary server.
unfoldable pub printable : ℕ → ℕ
printable c = if leb 32 c && leb c 126 then c else 46

abbrev pub hex_digit : ℕ → ℕ
hex_digit n = if ltb n 10 then 48 + n else 55 + n

unfoldable pub hex_byte : ℕ → List ℕ → List ℕ
hex_byte b rest = hex_digit (b / 16) ∷ hex_digit (b % 16) ∷ rest

unfoldable pub reference_id_to_text : List ℕ → ℕ → List ℕ
reference_id_to_text packet stratum =
    if leb stratum 1
    then map printable (take 4 (drop 12 packet))
    else hex_byte (byte_at packet 12) (
        hex_byte (byte_at packet 13)
          (hex_byte (byte_at packet 14) (hex_byte (byte_at packet 15) [])))

unfoldable pub update_success :
    List ℕ → ℕ → ℕ → ℕ → ℕ → PeerRuntime × PeerStatus → PeerRuntime × PeerStatus
update_success packet server_t3 offset_ns delay_ns now (rt, peer) =
    let pushed = record (push_sample offset_ns delay_ns rt) {
      last_server_t3 = some server_t3;
      last_success_us = now;
    } in
    let stratum = byte_at packet 1 in
    let computed = compute_rolling_stats pushed (record peer {
      reachability = u8 (bit_or (peer.reachability <<< 1) 1);
      successful_polls = u32 (peer.successful_polls + 1);
      consecutive_failures = 0;
      samples = u32 (peer.samples + 1);
      stratum = stratum;
      leap = byte_at packet 0 >>> 6;
      root_delay = read_be32 (drop 4 packet);
      root_dispersion = read_be32 (drop 8 packet);
      reference_id = reference_id_to_text packet stratum;
      offset_ns = offset_ns;
      delay_ns = delay_ns;
      last_success_age_seconds = 0;
    }) in
    (
      pushed,
      record computed {
        health =
            if signed_ltb 100_000_000 delay_ns || signed_ltb 5_000_000 computed.jitter_ns
            then degraded
            else healthy;
      },
    )

abbrev rejection : PeerHealth → Bool → Failure
rejection health again = record {
  requested = health;
  timeout = false;
  dns = false;
  rejected = true;
  duplicate = again;
}

-- What `process_response` does to the peer once a packet has been received.
unfoldable pub process_response :
    ℕ → ℕ → ℕ → Arrival → PeerRuntime × PeerStatus → PeerRuntime × PeerStatus
process_response seconds fraction now a (rt, peer) =
    elim (judge seconds fraction rt.last_server_t3 a) [
      | refused ↦ (rt, update_failure (rejection invalid false) peer)
      | repeated ↦ (rt, update_failure (rejection invalid true) peer)
      | kiss_of_death ↦ (
        rt,
        update_failure (rejection kod false) (record peer {
          kod_responses = u32 (peer.kod_responses + 1);
          reference_id = reference_id_to_text a.response 0;
        }),
      )
      | accepted server_t3 offset_ns delay_ns ↦
          update_success a.response server_t3 offset_ns delay_ns now (rt, peer)
    ]
