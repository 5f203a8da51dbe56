-- ===== src/Ntp/Server/Timing.antt =====
-- main/ntp_server.c: the statistics of the software path, each with its smallest, mean and
-- largest value.
pub mod Summary
mod Tests
use esp32p4_nts_time_server.Base.{
  ℕ, ◌+◌, ◌-◌, ◌/◌, ◌^◌, Bool, ◌||◌, ltb, leb, ◌==◌, if◌then◌else◌, u32, u64,
}

-- `uint32_max` microseconds at most, and 0 where the clock has not moved on.
unfoldable pub clamp_duration_us : ℕ → ℕ → ℕ
clamp_duration_us start_us end_us =
    if leb end_us start_us
    then 0
    else if ltb 0xFFFFFFFF (end_us - start_us)
    then 0xFFFFFFFF
    else u32 (end_us - start_us)

-- One of the six durations: its sum, and the fields of the status.
pub record Span : Type 0 where
  pub sum : ℕ
  pub minimum : ℕ
  pub average : ℕ
  pub maximum : ℕ

unfoldable pub update_min_max : ℕ → ℕ → Span → Span
update_min_max value sample_number s = record s {
  minimum = if sample_number == 1 || ltb value s.minimum then value else s.minimum;
  maximum = if sample_number == 1 || ltb s.maximum value then value else s.maximum;
}

-- The lines of `ntp_status_record_timing` for one of the durations, in a record of its own.
unfoldable pub record_span : ℕ → ℕ → Span → Span
record_span value n s =
    let sum = u64 (s.sum + value) in
    update_min_max value n (record s { sum = sum; average = u32 (sum / n) })

-- The six durations of a response.
pub record Sample : Type 0 where
  pub rx_start_us : ℕ
  pub rx_call_us : ℕ
  pub build_us : ℕ
  pub tx_to_send_us : ℕ
  pub send_call_us : ℕ
  pub total_us : ℕ

pub record TimingStats : Type 0 where
  pub samples : ℕ
  pub timing_samples : ℕ
  pub rx_start : Span
  pub rx_call : Span
  pub building : Span
  pub tx_to_send : Span
  pub send_call : Span
  pub total : Span

unfoldable pub record_timing : Sample → TimingStats → TimingStats
record_timing sample t =
    let n = u64 (t.samples + 1) in
    record {
      samples = n;
      timing_samples = if ltb 0xFFFFFFFF n then 0xFFFFFFFF else u32 n;
      rx_start = record_span sample.rx_start_us n t.rx_start;
      rx_call = record_span sample.rx_call_us n t.rx_call;
      building = record_span sample.build_us n t.building;
      tx_to_send = record_span sample.tx_to_send_us n t.tx_to_send;
      send_call = record_span sample.send_call_us n t.send_call;
      total = record_span sample.total_us n t.total;
    }
