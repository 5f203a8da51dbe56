-- ===== src/Nts/Ke/Parse/Complete.antt =====
-- What is acceptable, the parser accepts.
use mathlib.Core.Path.{subst}
use esp32p4_nts_time_server.Base.{
  ℕ, zero, suc, ◌+◌, ◌%◌, ◌<◌, ◌≡◌, ◌≢◌, refl, ap, sym, ◌∙◌, List, [], ◌∷◌, ◌++◌, true, false,
  length, arith, esp_ok, All, inl, inr, length-append,
}
use esp32p4_nts_time_server.Nts.Ke.{
  RequestState, take_record, parse_from, incomplete, list_contains_u16,
}
use esp32p4_nts_time_server.Nts.Ke.Records.{
  KeRecord, encode, encode_record, RecordFits, after_record, parse_from-next, length-encode_record,
}
use esp32p4_nts_time_server.Nts.Ke.Parse.{
  IsEnd, OffersNtpv4, OffersAesSiv, IsNeutral, Acceptable, Accepted,
}
use esp32p4_nts_time_server.Nts.Ke.Parse.Steps.{Fair, after_record_ends, after_record_continues}

-- The four kinds of record that the grammar has, as the parser takes them.
take_record-end :
    (r : KeRecord) (s : RequestState)
    → IsEnd r
    → s.end_seen ≡ false
    → take_record r.kind r.critical r.body 0 s ≡ (esp_ok, record s { end_seen = true })
unfolding take_record
take_record-end r s is e = ground (arith, is, ap length is.2, e)

contains-even :
    (body : List ℕ) (wanted : ℕ)
    → list_contains_u16 body wanted ≡ true
    → (length body ≢ 0) × (length body % 2 ≡ 0)
unfolding list_contains_u16
contains-even body wanted h = ground (arith, h)

take_record-next_protocol :
    (r : KeRecord) (left : ℕ) (s : RequestState)
    → OffersNtpv4 r
    → s.next_protocol_seen ≡ false
    → take_record r.kind r.critical r.body left s
      ≡ (esp_ok, record s { next_protocol_seen = true; ntpv4_offered = true })
unfolding take_record
take_record-next_protocol r left s offers unseen =
    ground (arith, offers, unseen, contains-even r.body 0 offers.2)

take_record-aead :
    (r : KeRecord) (left : ℕ) (s : RequestState)
    → OffersAesSiv r
    → s.aead_seen ≡ false
    → take_record r.kind r.critical r.body left s
      ≡ (esp_ok, record s { aead_seen = true; aes_siv_offered = true })
unfolding take_record
take_record-aead r left s offers unseen =
    ground (arith, offers, unseen, contains-even r.body 15 offers.1)

take_record-neutral :
    (r : KeRecord) (left : ℕ) (s : RequestState)
    → IsNeutral r
    → take_record r.kind r.critical r.body left s ≡ (esp_ok, s)
unfolding take_record
take_record-neutral r left s (inl h) = ground (arith, h)
take_record-neutral r left s (inr (inl h)) = ground (arith, h)
take_record-neutral r left s (inr (inr (inl h))) = ground (arith, h)
take_record-neutral r left s (inr (inr (inr h))) = ground (arith, h)

complete_step :
    (fuel : ℕ) (r : KeRecord) (tail : List ℕ) (s next : RequestState)
    → RecordFits r
    → take_record r.kind r.critical r.body (length tail) s ≡ (esp_ok, next)
    → next.end_seen ≡ false
    → Accepted (parse_from fuel tail next)
    → Accepted (parse_from (suc fuel) (encode_record r ++ tail) s)
complete_step fuel r tail s next fits taken open_end rest =
    let step : parse_from (suc fuel) (encode_record r ++ tail) s ≡ parse_from fuel tail next =
      parse_from-next fuel r tail s fits
      ∙ ap (after_record fuel tail) taken
      ∙ after_record_continues fuel tail next open_end in
    subst Accepted (sym step) rest

complete_end :
    (fuel : ℕ) (r : KeRecord) (s : RequestState)
    → RecordFits r
    → IsEnd r
    → Fair s
    → s.next_protocol_seen ≡ true
    → s.aead_seen ≡ true
    → Accepted (parse_from (suc fuel) (encode_record r ++ []) s)
unfolding incomplete
complete_end fuel r s fits is fair protocol aead =
    let next : RequestState = record s { end_seen = true } in
    let step : parse_from (suc fuel) (encode_record r ++ []) s ≡ (esp_ok, next) =
      parse_from-next fuel r [] s fits
      ∙ ap (after_record fuel []) (take_record-end r s is fair.0)
      ∙ after_record_ends fuel [] next refl in
    let whole : Accepted (esp_ok, next) = (refl, ground (arith, fair, protocol, aead)) in
    subst Accepted (sym step) whole

pub parse_from_complete :
    (fuel : ℕ) (rs : List KeRecord) (s : RequestState)
    → length rs < fuel
    → All RecordFits rs
    → Fair s
    → Acceptable s.next_protocol_seen s.aead_seen rs
    → Accepted (parse_from fuel (encode rs) s)
parse_from_complete zero rs s enough fits fair h = absurd (omega arith)
parse_from_complete (suc fuel) [] s enough fits fair h = absurd h
parse_from_complete (suc fuel) (r ∷ rs) s enough fits fair (inl (is, none_left, protocol, aead)) =
    rw none_left (complete_end fuel r s fits.0 is fair protocol aead)
parse_from_complete (suc fuel) (r ∷ rs) s enough fits fair (inr (inl (offers, unseen, below))) =
    let next : RequestState = record s { next_protocol_seen = true; ntpv4_offered = true } in
    complete_step fuel r (encode rs) s next fits.0
      (take_record-next_protocol r (length (encode rs)) s offers unseen) fair.0
      (parse_from_complete fuel rs next (omega arith) fits.1 (fair.0, refl, fair.2) below)
parse_from_complete (suc fuel) (r ∷ rs) s enough fits fair
      (inr (inr (inl (offers, unseen, below)))) =
    let next : RequestState = record s { aead_seen = true; aes_siv_offered = true } in
    complete_step fuel r (encode rs) s next fits.0
      (take_record-aead r (length (encode rs)) s offers unseen) fair.0
      (parse_from_complete fuel rs next (omega arith) fits.1 (fair.0, fair.1, refl) below)
parse_from_complete (suc fuel) (r ∷ rs) s enough fits fair (inr (inr (inr (neutral, below)))) =
    complete_step fuel r (encode rs) s s fits.0
      (take_record-neutral r (length (encode rs)) s neutral) fair.0
      (parse_from_complete fuel rs s (omega arith) fits.1 fair below)

pub length-encode : (rs : List KeRecord) → length rs < length (encode rs) + 1
length-encode [] = omega arith
length-encode (r ∷ rs) =
    let below = length-encode rs in
    omega (arith, length-append (encode_record r) (encode rs), length-encode_record r)
