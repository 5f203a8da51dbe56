-- ===== src/Nts/Ke/Parse/Sound.antt =====
-- What the parser accepts is acceptable.
use mathlib.Core.Path.{subst}
use esp32p4_nts_time_server.Base.{
  ℕ, zero, suc, ◌<◌, ◌≡◌, refl, ap, sym, ◌∙◌, List, [], ◌∷◌, true, false, length, arith, Status,
  esp_ok, All, Bool-cases, inl, inr, ◌⊎◌, length-append,
}
use esp32p4_nts_time_server.Nts.Ke.{
  RequestState, take_record, parse_from, incomplete, list_contains_u16,
}
use esp32p4_nts_time_server.Nts.Ke.Records.{
  KeRecord, encode, encode_record, RecordFits, parse_from-next, length-encode_record,
}
use esp32p4_nts_time_server.Nts.Ke.Parse.{Acceptable, Accepted}
use esp32p4_nts_time_server.Nts.Ke.Parse.Steps.{
  Fair, Refused, take_record-Refused, Refused-incomplete, take_record_cases, after_record_cases,
}

parse_from-nil : (fuel : ℕ) (s : RequestState) → parse_from (suc fuel) [] s ≡ (esp_ok, s)
unfolding parse_from
parse_from-nil fuel s = ground arith

-- What has refused the client stays refused to the end.
parse_from-Refused :
    (fuel : ℕ) (rs : List KeRecord) (s : RequestState)
    → length rs < fuel
    → All RecordFits rs
    → Refused s
    → ¬ Accepted (parse_from fuel (encode rs) s)
parse_from-Refused zero rs s enough fits bad h = absurd (omega arith)
parse_from-Refused (suc fuel) [] s enough fits bad h =
    Refused-incomplete s bad
      (sym (ap (λ (o : Status × RequestState). incomplete o.1) (parse_from-nil fuel s)) ∙ h.1)
parse_from-Refused (suc fuel) (r ∷ rs) s enough fits bad h =
    let taken = take_record r.kind r.critical r.body (length (encode rs)) s in
    let next = parse_from-next fuel r (encode rs) s fits.0 in
    let (fine, rest) = after_record_cases fuel (encode rs) taken (subst Accepted (next) h) in
    let stays = take_record-Refused r.kind r.critical r.body (length (encode rs)) s bad fine in
    elim rest [
      | inl (_, whole) ↦ Refused-incomplete taken.1 stays whole
      | inr (_, more) ↦ parse_from-Refused fuel rs taken.1 (omega arith) fits.1 stays more
    ]

list_length-zero : (rs : List KeRecord) → length (encode rs) ≡ 0 → rs ≡ []
list_length-zero [] h = refl
list_length-zero (r ∷ rs) h =
    absurd (omega (arith, length-append (encode_record r) (encode rs), length-encode_record r))

running :
    (tail : List ℕ) (fuel : ℕ) (next : RequestState)
    → ((next.end_seen ≡ true) × (incomplete next ≡ false))
      ⊎ ((next.end_seen ≡ false) × Accepted (parse_from fuel tail next))
    → next.end_seen ≡ false
    → Accepted (parse_from fuel tail next)
running tail fuel next (inl h) e = absurd (ground (arith, h, e))
running tail fuel next (inr h) e = h.1

unfinished : (s : RequestState) → Fair s → ¬ Accepted (esp_ok, s)
unfolding incomplete
unfinished s fair h = ground (arith, h, fair)

finished :
    (s next : RequestState)
    → Fair s
    → next ≡ record s { end_seen = true }
    → incomplete next ≡ false
    → (s.next_protocol_seen ≡ true) × (s.aead_seen ≡ true)
unfolding incomplete
finished s next fair e h = ground (arith, fair, e, h)

-- The loop on records that fit: sound.
pub parse_from_sound :
    (fuel : ℕ) (rs : List KeRecord) (s : RequestState)
    → length rs < fuel
    → All RecordFits rs
    → Fair s
    → Accepted (parse_from fuel (encode rs) s)
    → Acceptable s.next_protocol_seen s.aead_seen rs
parse_from_sound zero rs s enough fits fair h = absurd (omega arith)
parse_from_sound (suc fuel) [] s enough fits fair h =
    absurd (unfinished s fair (subst Accepted (parse_from-nil fuel s) h))
parse_from_sound (suc fuel) (r ∷ rs) s enough fits fair h =
    let tail = encode rs in
    let taken = take_record r.kind r.critical r.body (length tail) s in
    let (fine, rest) =
      after_record_cases fuel tail taken
        (subst Accepted (parse_from-next fuel r tail s fits.0) h) in
    let followed = parse_from_sound fuel rs taken.1 (omega arith) fits.1 in
    let refused = parse_from-Refused fuel rs taken.1 (omega arith) fits.1 in
    elim (take_record_cases r (length tail) s fair.0 fine) [
      | inl (is_end, none_left, e) ↦ elim rest [
        | inl (_, whole) ↦
            let (protocol, aead) = finished s taken.1 fair e whole in
            inl (is_end, list_length-zero rs none_left, protocol, aead)
        | inr (open_end, _) ↦ absurd (ground (arith, e, open_end))
      ]
      | inr (inl (kind, critical, unseen, e)) ↦
          let more = running tail fuel taken.1 rest (ground (arith, e, fair)) in
          elim (Bool-cases (list_contains_u16 r.body 0)) [
            | inl found ↦ inr (
                inl (
                  (kind, critical, found),
                  unseen,
                  (let below : Acceptable taken.1.next_protocol_seen taken.1.aead_seen rs =
                        followed (ground (arith, e, fair, found)) more in
                      subst (λ (n : RequestState). Acceptable n.next_protocol_seen n.aead_seen rs)
                        (e) below),
                ))
            | inr missing ↦ absurd (refused (inl (ground (arith, e, missing))) more)
          ]
      | inr (inr (inl (kind, unseen, e))) ↦
          let more = running tail fuel taken.1 rest (ground (arith, e, fair)) in
          elim (Bool-cases (list_contains_u16 r.body 15)) [
            | inl found ↦ inr (
                inr (
                  inl (
                    (kind, found),
                    unseen,
                    (let below : Acceptable taken.1.next_protocol_seen taken.1.aead_seen rs =
                          followed (ground (arith, e, fair, found)) more in
                        subst (λ (n : RequestState). Acceptable n.next_protocol_seen n.aead_seen rs)
                          (e) below),
                  )))
            | inr missing ↦ absurd (refused (inr (ground (arith, e, missing))) more)
          ]
      | inr (inr (inr (neutral, e))) ↦
          let more = running tail fuel taken.1 rest (ground (arith, e, fair)) in
          inr (
            inr (
              inr (
                neutral,
                subst (λ (n : RequestState). Acceptable n.next_protocol_seen n.aead_seen rs) (e)
                    (followed (ground (arith, e, fair)) more),
              )))
    ]
