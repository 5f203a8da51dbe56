-- ===== src/Gnss/Dates/Tests.antt =====
-- The first of March 2024, and its time of day.
use esp32p4_nts_time_server.Base.{◌+◌, ◌*◌, ◌≡◌, refl, ◌↔◌, min, some, arith}
use esp32p4_nts_time_server.Gnss.Dates.{days_from_civil, datetime_to_epoch}
use esp32p4_nts_time_server.Gnss.Dates.Calendar.{day_number, days_from_civil-day_number}
use esp32p4_nts_time_server.Gnss.Dates.Accepted.{IsDatetime, datetime_to_epoch_iff}

days_from_civil-day_number_example : days_from_civil 2024 3 1 ≡ day_number 2024 3 1
days_from_civil-day_number_example =
    days_from_civil-day_number 2024 3 1 (omega arith) (omega arith) (omega arith) (omega arith)

datetime_to_epoch_iff_example : (datetime_to_epoch 2024 3 1 12 30 60 ≡ some 1_709_296_259) ↔ (
    IsDatetime 2024 3 1 12 30 60
    × (1_709_296_259 ≡ day_number 2024 3 1 * 86_400 + 12 * 3_600 + 30 * 60 + min 60 59))
datetime_to_epoch_iff_example =
    datetime_to_epoch_iff 2024 3 1 12 30 60 (omega arith) (omega arith) (omega arith) (omega arith)
      (omega arith) (omega arith) 1_709_296_259

leap_second_taken : datetime_to_epoch 2024 3 1 12 30 60 ≡ some 1_709_296_259
unfolding datetime_to_epoch days_from_civil esp32p4_nts_time_server.Gnss.Dates.out_of_range
    esp32p4_nts_time_server.Gnss.Dates.outside esp32p4_nts_time_server.Gnss.Dates.int_ltb
leap_second_taken = refl
