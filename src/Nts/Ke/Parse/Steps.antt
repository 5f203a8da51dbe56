-- ===== src/Nts/Ke/Parse/Steps.antt =====
-- One record of a request, and what the loop of the parser makes of it.
use esp32p4_nts_time_server.Base.{
  ℕ, ◌≡◌, ◌≢◌, refl, List, [], ◌∷◌, Bool, true, false, length, ◌==◌, arith, ok, err, Status, esp_ok,
  Bool-cases, inl, inr, ◌⊎◌,
}
use esp32p4_nts_time_server.Nts.Ke.{
  RequestState, take_record, parse_from, incomplete, list_contains_u16,
}
use esp32p4_nts_time_server.Nts.Ke.Records.{KeRecord, after_record}
use esp32p4_nts_time_server.Nts.Ke.Parse.{IsEnd, IsNeutral, Accepted}

-- What a state has seen, it has been offered.
abbrev pub Fair : RequestState → Type 0
Fair s =
    (s.end_seen ≡ false)
    × (s.ntpv4_offered ≡ s.next_protocol_seen)
    × (s.aes_siv_offered ≡ s.aead_seen)

-- A negotiation record has been seen that does not offer what is needed.
abbrev pub Refused : RequestState → Type 0
Refused s =
    ((s.next_protocol_seen ≡ true) × (s.ntpv4_offered ≡ false))
    ⊎ ((s.aead_seen ≡ true) × (s.aes_siv_offered ≡ false))

pub take_record-Refused :
    (t : ℕ) (c : Bool) (body : List ℕ) (left : ℕ) (s : RequestState)
    → Refused s
    → (take_record t c body left s).0 ≡ esp_ok
    → Refused (take_record t c body left s).1
unfolding take_record
take_record-Refused t c body left s (inl h) taken = inl (ground (arith, h, taken))
take_record-Refused t c body left s (inr h) taken = inr (ground (arith, h, taken))

pub Refused-incomplete : (s : RequestState) → Refused s → incomplete s ≢ false
unfolding incomplete
Refused-incomplete s (inl h) e = absurd (ground (arith, h))
Refused-incomplete s (inr h) e = absurd (ground (arith, h))

empty_body : (body : List ℕ) → length body ≡ 0 → body ≡ []
empty_body [] h = refl
empty_body (b ∷ rest) h = absurd (omega arith)

-- What the parser can have made of a record that it takes.
pub take_record_cases :
    (r : KeRecord) (left : ℕ) (s : RequestState)
    → s.end_seen ≡ false
    → (take_record r.kind r.critical r.body left s).0 ≡ esp_ok
    → let next = (take_record r.kind r.critical r.body left s).1 in
      (IsEnd r × (left ≡ 0) × (next ≡ record s { end_seen = true }))
      ⊎ ((r.kind ≡ 1)
          × (r.critical ≡ true)
          × (s.next_protocol_seen ≡ false)
          × (next
              ≡ record s { next_protocol_seen = true; ntpv4_offered = list_contains_u16 r.body 0 }))
      ⊎ ((r.kind ≡ 4)
          × (s.aead_seen ≡ false)
          × (next ≡ record s { aead_seen = true; aes_siv_offered = list_contains_u16 r.body 15 }))
      ⊎ (IsNeutral r × (next ≡ s))
unfolding take_record
take_record_cases r left s open_end taken = elim (Bool-cases (r.kind == 0)) [
  | inl k ↦ inl (ground (arith, k, open_end, taken, empty_body r.body))
  | inr k0 ↦ elim (Bool-cases (r.kind == 1)) [
    | inl k ↦ inr (inl (ground (arith, k, taken)))
    | inr k1 ↦ elim (Bool-cases (r.kind == 4)) [
      | inl k ↦ inr (inr (inl (ground (arith, k, taken))))
      | inr k4 ↦ inr (
          inr (
            inr (elim (Bool-cases (r.kind == 6)) [
              | inl k ↦ (inl (ground (arith, k, taken)), ground (arith, k, taken))
              | inr k6 ↦ elim (Bool-cases (r.kind == 7)) [
                | inl k ↦ (inr (inl (ground (arith, k, taken))), ground (arith, k, taken))
                | inr k7 ↦ elim (Bool-cases (r.kind == 5)) [
                  | inl k ↦ (inr (inr (inl (ground (arith, k, taken)))), ground (arith, k, taken))
                  | inr k5 ↦ (
                    inr (inr (inr (ground (arith, k0, k1, k4, k5, k6, k7, taken)))),
                    ground (arith, k0, k1, k4, k5, k6, k7, taken),
                  )
                ]
              ]
            ])))
    ]
  ]
]

pub after_record_cases :
    (fuel : ℕ) (tail : List ℕ) (outcome : Status × RequestState)
    → Accepted (after_record fuel tail outcome)
    → (outcome.0 ≡ esp_ok)
      × (((outcome.1.end_seen ≡ true) × (incomplete outcome.1 ≡ false))
          ⊎ ((outcome.1.end_seen ≡ false) × Accepted (parse_from fuel tail outcome.1)))
unfolding after_record
after_record_cases fuel tail (err e, next) h = absurd (ground (arith, h))
after_record_cases fuel tail (ok v, next) h = elim (Bool-cases next.end_seen) [
  | inl e ↦ (ground arith, inl (e, ground (arith, h, e)))
  | inr e ↦ (ground arith, inr (e, (ground (arith, h, e), ground (arith, h, e))))
]

pub after_record_ends :
    (fuel : ℕ) (tail : List ℕ) (next : RequestState)
    → next.end_seen ≡ true
    → after_record fuel tail (esp_ok, next) ≡ (esp_ok, next)
unfolding after_record
after_record_ends fuel tail next e = ground (arith, e)

pub after_record_continues :
    (fuel : ℕ) (tail : List ℕ) (next : RequestState)
    → next.end_seen ≡ false
    → after_record fuel tail (esp_ok, next) ≡ parse_from fuel tail next
unfolding after_record
after_record_continues fuel tail next e = ground (arith, e)
