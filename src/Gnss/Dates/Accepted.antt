-- ===== src/Gnss/Dates/Accepted.antt =====
-- main/gnss_service.c: the dates that `datetime_to_epoch` accepts.
use esp32p4_nts_time_server.Base.{
  ℕ, ◌+◌, ◌*◌, ◌^◌, ◌≤◌, ◌<◌, min, ◌≡◌, refl, ◌∙◌, sym, inl, inr, ◌↔◌, true, false, ◌||◌, some,
  arith, ltb, ◌==◌, if◌then◌else◌, Bool-cases,
}
use esp32p4_nts_time_server.Gnss.Dates.{
  int_ltb, outside, out_of_range, datetime_to_epoch, days_from_civil,
}
use esp32p4_nts_time_server.Gnss.Dates.Calendar.{day_number, days_from_civil-day_number}

outside-false :
    (low high field : ℕ)
    → low ≤ high
    → high < 2 ^ 31
    → field < 2 ^ 32
    → outside low high field ≡ (ltb field low || ltb high field)
unfolding outside int_ltb
outside-false low high field h i j = ground arith

-- The fields of a date that are in their ranges.
pub record IsDatetime (year month day hour minute second : ℕ) : Type 0 where
  pub year_in : (2000 ≤ year) × (year ≤ 2100)
  pub month_in : (1 ≤ month) × (month ≤ 12)
  pub day_in : (1 ≤ day) × (day ≤ 31)
  pub hour_in : hour ≤ 23
  pub minute_in : minute ≤ 59
  pub second_in : second ≤ 60

module _ (year month day hour minute second : ℕ) (int_year : year < 2 ^ 32)
    (int_month : month < 2 ^ 32) (int_day : day < 2 ^ 32) (int_hour : hour < 2 ^ 32)
    (int_minute : minute < 2 ^ 32) (int_second : second < 2 ^ 32) where
  tests : out_of_range year month day hour minute second ≡ (
      (ltb year 2000 || ltb 2100 year)
      || (ltb month 1 || ltb 12 month)
      || (ltb day 1 || ltb 31 day)
      || (ltb hour 0 || ltb 23 hour)
      || (ltb minute 0 || ltb 59 minute)
      || (ltb second 0 || ltb 60 second))
  unfolding out_of_range
  tests =
      rw
        (
          outside-false 2000 2100 year (omega arith) (omega arith) int_year,
          outside-false 1 12 month (omega arith) (omega arith) int_month,
          outside-false 1 31 day (omega arith) (omega arith) int_day,
          outside-false 0 23 hour (omega arith) (omega arith) int_hour,
          outside-false 0 59 minute (omega arith) (omega arith) int_minute,
          outside-false 0 60 second (omega arith) (omega arith) int_second,
        )
        refl

  in_range :
      out_of_range year month day hour minute second ≡ false
      → IsDatetime year month day hour minute second
  in_range h = let plain = sym tests ∙ h in ground arith

  tests_pass :
      IsDatetime year month day hour minute second
      → out_of_range year month day hour minute second ≡ false
  tests_pass d = tests ∙ ground (arith, d)

  epoch_of :
      IsDatetime year month day hour minute second
      → days_from_civil year month day * 86_400
          + hour * 3_600
          + minute * 60
          + (if second == 60 then 59 else second)
        ≡ day_number year month day * 86_400 + hour * 3_600 + minute * 60 + min second 59
  epoch_of d =
      let days : days_from_civil year month day ≡ day_number year month day =
        days_from_civil-day_number year month day (omega (arith, d.year_in)) d.month_in.0
          d.month_in.1 d.day_in.0 in
      ground (arith, days, d.second_in)

  -- `datetime_to_epoch` accepts exactly the fields that are in their ranges, a leap second and any
  -- day up to 31 among them, and returns the seconds of the whole days since 1970 and of the time
  -- of day; second 60 counts as 59.
  pub datetime_to_epoch_iff :
      (epoch : ℕ)
      → (datetime_to_epoch year month day hour minute second ≡ some epoch) ↔ (
          IsDatetime year month day hour minute second
          × (epoch
              ≡ day_number year month day * 86_400 + hour * 3_600 + minute * 60 + min second 59))
  unfolding datetime_to_epoch
  datetime_to_epoch_iff epoch = elim (Bool-cases (out_of_range year month day hour minute second)) [
    | inl refused ↦
        let none_left : IsDatetime year month day hour minute second → false ≡ true =
          λ d. sym (tests_pass d) ∙ refused in
        ground (arith, refused, none_left)
    | inr taken ↦ let d = in_range taken in ground (arith, taken, epoch_of d, d)
  ]
