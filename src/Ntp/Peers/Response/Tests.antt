-- ===== src/Ntp/Peers/Response/Tests.antt =====
-- A genuine answer: sent at 100 s, received and answered at 101 s, received back at 102 s.
use esp32p4_nts_time_server.Base.{
  ℕ, ◌*◌, ◌^◌, ◌≡◌, refl, true, none, some, List, [], ◌∷◌, ◌++◌, ◌<<<◌, bit_or,
}
use esp32p4_nts_time_server.Base.Bytes.{zeros, read_be32}
use esp32p4_nts_time_server.Base.Signed.{signed_ltb, signed_quotient}
use esp32p4_nts_time_server.Ntp.Peers.{fixed_delta_ns}
use esp32p4_nts_time_server.Ntp.Peers.Response.{
  Arrival, accepted, judge, judge_times, field_time, header_invalid, offset_of, signed_half_rest,
}
use esp32p4_nts_time_server.Ntp.Peers.Response.Checks.{IsGenuine, IsMeasured, judge_accepted}

abbrev at_second : ℕ → List ℕ
at_second second = 0 ∷ 0 ∷ 0 ∷ second ∷ 0 ∷ 0 ∷ 0 ∷ 0 ∷ []

abbrev answer : Arrival
answer = record {
  response = (36 ∷ 1 ∷ 6 ∷ 0 ∷ []) ++ zeros 20 ++ at_second 100 ++ at_second 101 ++ at_second 101;
  same_source = true;
  t4 = some (102 * 2 ^ 32);
}

answer_taken : judge 100 0 none answer ≡ accepted (101 * 2 ^ 32) 0 2_000_000_000
unfolding judge judge_times field_time header_invalid offset_of signed_half_rest signed_ltb
    signed_quotient read_be32 fixed_delta_ns
answer_taken = refl

judge_accepted_example :
    (f4 : ℕ) × IsGenuine 100 0 none answer f4
    × (101 * 2 ^ 32 ≡ field_time answer.response 40)
    × IsMeasured
        (bit_or (100 <<< 32) 0)
        (field_time answer.response 32)
        (field_time answer.response 40)
        f4
        0
        2_000_000_000
judge_accepted_example =
    judge_accepted 100 0 none answer (101 * 2 ^ 32) 0 2_000_000_000 answer_taken
