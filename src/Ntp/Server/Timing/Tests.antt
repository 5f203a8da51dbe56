-- ===== src/Ntp/Server/Timing/Tests.antt =====
-- Two responses, one after the other.
use esp32p4_nts_time_server.Base.{ℕ, ◌+◌, ◌*◌, ◌≡◌, refl, List, [], ◌∷◌, arith}
use esp32p4_nts_time_server.Ntp.Server.Timing.{Span, Sample, TimingStats}
use esp32p4_nts_time_server.Ntp.Server.Timing.Summary.{
  AllSummarise, recorded, record_timing-AllSummarise,
}

abbrev zero_span : Span
zero_span = record { sum = 0; minimum = 0; average = 0; maximum = 0 }

abbrev zero_timing : TimingStats
zero_timing = record {
  samples = 0;
  timing_samples = 0;
  rx_start = zero_span;
  rx_call = zero_span;
  building = zero_span;
  tx_to_send = zero_span;
  send_call = zero_span;
  total = zero_span;
}

abbrev sample : ℕ → Sample
sample k = record {
  rx_start_us = k;
  rx_call_us = k + 1;
  build_us = 2 * k;
  tx_to_send_us = 7;
  send_call_us = 3;
  total_us = 40 + k;
}

abbrev two_samples : List Sample
two_samples = sample 9 ∷ sample 4 ∷ []

record_timing-AllSummarise_example :
    ((recorded zero_timing two_samples).samples ≡ 2)
    × AllSummarise two_samples (recorded zero_timing two_samples)
record_timing-AllSummarise_example =
    record_timing-AllSummarise zero_timing two_samples refl (refl, refl, refl, refl, refl, refl)
      (omega arith) (omega arith)
