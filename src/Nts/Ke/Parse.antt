-- ===== src/Nts/Ke/Parse.antt =====
-- main/nts_ke.c: which requests `parse_request` accepts, as a grammar of their records.
pub mod Steps
pub mod Sound
pub mod Complete
pub mod Grammar
mod Tests
use mathlib.Core.Path.{subst}
use esp32p4_nts_time_server.Base.{
  ℕ, zero, suc, ◌+◌, ◌%◌, ◌<◌, ◌≤◌, ◌≡◌, ◌≢◌, refl, ap, sym, ◌∙◌, List, [], ◌∷◌, ◌++◌, Bool, true,
  false, not, length, take, drop, ◌==◌, ltb, arith, Result, ok, err, EspErr, Status, esp_ok, All,
  Result-cases, Bool-cases, inl, inr, ◌⊎◌, ◌↔◌, length-append,
}
use esp32p4_nts_time_server.Nts.Ke.{
  RequestState, zero_state, take_record, parse_from, incomplete, parse_request, list_contains_u16,
}
use esp32p4_nts_time_server.Nts.Ke.Records.{
  KeRecord, encode, encode_record, RecordFits, after_record, parse_from-next, length-encode_record,
}

-- A critical and empty end of message.
abbrev pub IsEnd : KeRecord → Type 0
IsEnd r = (r.kind ≡ 0) × (r.critical ≡ true) × (r.body ≡ [])

-- A critical next protocol record with NTPv4 among its protocols.
abbrev pub OffersNtpv4 : KeRecord → Type 0
OffersNtpv4 r = (r.kind ≡ 1) × (r.critical ≡ true) × (list_contains_u16 r.body 0 ≡ true)

-- An AEAD record with AES-SIV-CMAC-256 among its algorithms.
abbrev pub OffersAesSiv : KeRecord → Type 0
OffersAesSiv r = (r.kind ≡ 4) × (list_contains_u16 r.body 15 ≡ true)

-- A record that negotiates nothing: a server that is named, a port, or a record that is not
-- critical and of a type without meaning here.
abbrev pub IsNeutral : KeRecord → Type 0
IsNeutral r =
    ((r.kind ≡ 6) × (0 < length r.body))
    ⊎ ((r.kind ≡ 7) × (length r.body ≡ 2))
    ⊎ ((r.kind ≡ 5) × (r.critical ≡ false))
    ⊎ ((7 < r.kind) × (r.critical ≡ false))

-- The records of a request in turn, where `protocol` and `aead` say what has been offered.
abbrev pub Acceptable : Bool → Bool → List KeRecord → Type 0
Acceptable protocol aead [] = ⊥
Acceptable protocol aead (r ∷ rs) =
    (IsEnd r × (rs ≡ []) × (protocol ≡ true) × (aead ≡ true))
    ⊎ (OffersNtpv4 r × (protocol ≡ false) × Acceptable true aead rs)
    ⊎ (OffersAesSiv r × (aead ≡ false) × Acceptable protocol true rs)
    ⊎ (IsNeutral r × Acceptable protocol aead rs)

abbrev pub Accepted : Status × RequestState → Type 0
Accepted outcome = (outcome.0 ≡ esp_ok) × (incomplete outcome.1 ≡ false)

pub parse_request_takes :
    (request : List ℕ)
    → Accepted (parse_from (length request + 1) request zero_state)
    → (parse_request request).0 ≡ esp_ok
unfolding parse_request
parse_request_takes request h = ground (arith, h.0, h.1)

pub parse_request-Accepted :
    (request : List ℕ)
    → (parse_request request).0 ≡ esp_ok
    → Accepted (parse_from (length request + 1) request zero_state)
unfolding parse_request
parse_request-Accepted request h =
    let outcome : Status × RequestState = parse_from (length request + 1) request zero_state in
    elim (Result-cases outcome.0) [
      | inr (e, q) ↦ absurd (ground (arith, q))
      | inl (v, q) ↦ elim (Bool-cases (incomplete outcome.1)) [
        | inl bad ↦ absurd (ground (arith, q, bad))
        | inr good ↦ (ground (arith, q), good)
      ]
    ]
