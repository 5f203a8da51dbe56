-- ===== src/Nts/Ke/Parse/Tests.antt =====
-- A request with four records.
use esp32p4_nts_time_server.Base.{
  ℕ, ◌≡◌, ◌↔◌, ◌<◌, refl, inl, inr, List, [], ◌∷◌, Bool, true, false, arith, All, esp_ok,
}
use esp32p4_nts_time_server.Nts.Ke.{parse_request}
use esp32p4_nts_time_server.Nts.Ke.Records.{KeRecord, encode, RecordFits}
use esp32p4_nts_time_server.Nts.Ke.Parse.{Acceptable}
use esp32p4_nts_time_server.Nts.Ke.Parse.Grammar.{parse_request_iff}

abbrev requested : List KeRecord
requested =
    record { kind = 4; critical = false; body = 0 ∷ 30 ∷ 0 ∷ 15 ∷ [] }
    ∷ record { kind = 6; critical = false; body = 116 ∷ [] }
    ∷ record { kind = 1; critical = true; body = 0 ∷ 0 ∷ [] }
    ∷ record { kind = 0; critical = true; body = [] }
    ∷ []

requested-All : All RecordFits requested
requested-All = omega arith

parse_request_iff_example :
    ((parse_request (encode requested)).0 ≡ esp_ok) ↔ Acceptable false false requested
parse_request_iff_example = parse_request_iff requested requested-All

-- The request is acceptable.
requested-Acceptable : Acceptable false false requested
unfolding esp32p4_nts_time_server.Nts.Ke.list_contains_u16
    esp32p4_nts_time_server.Nts.Ke.pairs_contain esp32p4_nts_time_server.Base.Bytes.read_be16
requested-Acceptable = inr (
    inr (
      inl (
        (refl, refl),
        refl,
        inr (
            inr (
              inr (
                inl (refl, omega arith),
                inr (inl ((refl, refl, refl), refl, inl ((refl, refl, refl), refl, refl, refl))),
              ))),
      )))
