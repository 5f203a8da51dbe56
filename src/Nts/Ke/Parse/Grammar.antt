-- ===== src/Nts/Ke/Parse/Grammar.antt =====
-- The requests that are accepted.
use esp32p4_nts_time_server.Base.{◌+◌, ◌≡◌, refl, List, false, length, esp_ok, All, ◌↔◌}
use esp32p4_nts_time_server.Nts.Ke.{zero_state, parse_request}
use esp32p4_nts_time_server.Nts.Ke.Records.{KeRecord, encode, RecordFits}
use esp32p4_nts_time_server.Nts.Ke.Parse.{Acceptable, parse_request_takes, parse_request-Accepted}
use esp32p4_nts_time_server.Nts.Ke.Parse.Steps.{Fair}
use esp32p4_nts_time_server.Nts.Ke.Parse.Sound.{parse_from_sound}
use esp32p4_nts_time_server.Nts.Ke.Parse.Complete.{parse_from_complete, length-encode}

-- `parse_request` accepts the bytes of a list of records, whose types fit 15 bits and whose bodies
-- fit 16-bit lengths, exactly when the list is acceptable: one critical next protocol record that
-- offers NTPv4 and one AEAD record that offers AES-SIV-CMAC-256, in either order, among records
-- that negotiate nothing, and one critical and empty end of message as the last record.
pub parse_request_iff :
    (rs : List KeRecord)
    → All RecordFits rs
    → ((parse_request (encode rs)).0 ≡ esp_ok) ↔ Acceptable false false rs
parse_request_iff rs fits =
    let enough = length-encode rs in
    let fair : Fair zero_state = (refl, refl, refl) in
    (
      (λ h.
          parse_from_sound (length (encode rs) + 1) rs zero_state enough fits fair
            (parse_request-Accepted (encode rs) h)),
      (λ h.
          parse_request_takes (encode rs)
            (parse_from_complete (length (encode rs) + 1) rs zero_state enough fits fair h)),
    )
