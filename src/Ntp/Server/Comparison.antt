-- ===== src/Ntp/Server/Comparison.antt =====
-- main/ntp_server.c: the software timestamp against the one of the hardware. An int64_t is kept
-- as its bit pattern, a number below 2 ^ 64.
use esp32p4_nts_time_server.Base.{ℕ, ◌+◌, ◌-◌, ◌*◌, ◌^◌, ◌||◌, ◌==◌, if◌then◌else◌, u32, u64, ◌>>>◌}
use esp32p4_nts_time_server.Base.Signed.{signed_ltb, signed_quotient}
use esp32p4_nts_time_server.Ntp.Packet.{NtpTimestamp}

-- `eth_service_ntp_rx_timestamp_t`
pub record HwRxTimestamp : Type 0 where
  pub stamp : NtpTimestamp
  pub mapping_bracket_ns : ℕ
  pub mapping_age_us : ℕ

unfoldable pub ntp_timestamp_to_ns : NtpTimestamp → ℕ
ntp_timestamp_to_ns t =
    let fractional_ns = (t.fraction * 1_000_000_000 + 0x80000000) >>> 32 in
    u64 (u64 (t.seconds * 1_000_000_000) + fractional_ns)

-- The fields `hw_rx_*` of the status, and the sum of the differences.
pub record RxComparison : Type 0 where
  pub samples : ℕ
  pub misses : ℕ
  pub delta_sum_ns : ℕ
  pub delta_last_ns : ℕ
  pub delta_min_ns : ℕ
  pub delta_avg_ns : ℕ
  pub delta_max_ns : ℕ
  pub bracket_last_ns : ℕ
  pub age_last_us : ℕ

-- Where the count of samples has wrapped to 0, the code divides by it; the model's quotient is 0.
unfoldable pub record_comparison : NtpTimestamp → HwRxTimestamp → RxComparison → RxComparison
record_comparison software hardware c =
    let delta_ns =
      u64 (ntp_timestamp_to_ns software + (2 ^ 64 - ntp_timestamp_to_ns hardware.stamp)) in
    let n = u32 (c.samples + 1) in
    let sum = u64 (c.delta_sum_ns + delta_ns) in
    record c {
      samples = n;
      delta_sum_ns = sum;
      delta_last_ns = delta_ns;
      delta_avg_ns = signed_quotient sum n;
      delta_min_ns =
          if n == 1 || signed_ltb delta_ns c.delta_min_ns then delta_ns else c.delta_min_ns;
      delta_max_ns =
          if n == 1 || signed_ltb c.delta_max_ns delta_ns then delta_ns else c.delta_max_ns;
      bracket_last_ns = hardware.mapping_bracket_ns;
      age_last_us = hardware.mapping_age_us;
    }

unfoldable pub record_miss : RxComparison → RxComparison
record_miss c = record c { misses = u32 (c.misses + 1) }
