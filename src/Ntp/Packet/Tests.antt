-- ===== src/Ntp/Packet/Tests.antt =====
-- A client request and its fields, and the theorems about headers at them.
use esp32p4_nts_time_server.Base.{ℕ, ◌≡◌, refl, List, [], ◌∷◌, some, take, set, arith}
use esp32p4_nts_time_server.Base.Bytes.{zeros}
use esp32p4_nts_time_server.Ntp.Packet.{
  NtpTimestamp, NtpPacketFields, parse, build, refid_from_text,
}
use esp32p4_nts_time_server.Ntp.Packet.RoundTrip.{Fits, parse-build, build-parse}

abbrev no_time : NtpTimestamp
no_time = record { seconds = 0; fraction = 0 }

-- A server answer of stratum 1.
abbrev answer : NtpPacketFields
answer = record {
  leap_indicator = 0;
  version = 4;
  mode = 4;
  stratum = 1;
  precision = 236;
  root_delay = 0;
  root_dispersion = 65;
  reference_id = 0x47505300;
  reference_timestamp = record { seconds = 3_950_000_000; fraction = 0 };
  origin_timestamp = no_time;
  receive_timestamp = record { seconds = 3_950_000_001; fraction = 1 };
  transmit_timestamp = record { seconds = 3_950_000_001; fraction = 9 };
}

-- A client request: version 4, mode 3, all else zero.
abbrev request : List ℕ
request = 35 ∷ zeros 47

gps_refid : refid_from_text (b'G' ∷ b'P' ∷ b'S' ∷ 0 ∷ []) ≡ 0x47505300
unfolding refid_from_text
gps_refid = refl

answer-Fits : Fits answer
answer-Fits = omega arith

parse-build_example : parse (build answer) ≡ some answer
parse-build_example = parse-build answer answer-Fits

build-parse_example :
    (p : NtpPacketFields) × (parse request ≡ some p) × (build p ≡ take 48 (set request 2 6))
build-parse_example = build-parse request (omega arith) (omega arith)
