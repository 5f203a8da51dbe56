-- ===== src/Gnss/Dates.antt =====
-- main/gnss_service.c: calendar dates as seconds since 1970. An int is its bit pattern below
-- 2 ^ 32; the calendar itself is reached with years from 2000 to 2100 only.
pub mod Calendar
pub mod Accepted
mod Tests
use esp32p4_nts_time_server.Base.{
  ℕ, ◌+◌, ◌-◌, ◌*◌, ◌/◌, ◌^◌, Bool, true, false, ◌&&◌, ◌||◌, Option, none, some, List, u32, ltb,
  leb, ◌==◌, if◌then◌else◌,
}
use esp32p4_nts_time_server.Base.Bytes.{byte_at}

-- `<` on two ints.
unfoldable pub int_ltb : ℕ → ℕ → Bool
int_ltb a b = ltb (u32 (a + 2 ^ 31)) (u32 (b + 2 ^ 31))

-- The days from 1970-01-01 on, for a year from 1970 on.
unfoldable pub days_from_civil : ℕ → ℕ → ℕ → ℕ
days_from_civil given_year month day =
    let year = given_year - (if leb month 2 then 1 else 0) in
    let era = year / 400 in
    let yoe = year - era * 400 in
    let shifted_month = if ltb 2 month then month - 3 else month + 9 in
    let doy = (153 * shifted_month + 2) / 5 + day - 1 in
    let doe = yoe * 365 + yoe / 4 - yoe / 100 + doy in era * 146_097 + doe - 719_468

-- The two tests of a field in `datetime_to_epoch`.
unfoldable pub outside : ℕ → ℕ → ℕ → Bool
outside low high field = int_ltb field low || int_ltb high field

unfoldable pub out_of_range : ℕ → ℕ → ℕ → ℕ → ℕ → ℕ → Bool
out_of_range year month day hour minute second =
    outside 2000 2100 year
    || outside 1 12 month
    || outside 1 31 day
    || outside 0 23 hour
    || outside 0 59 minute
    || outside 0 60 second

unfoldable pub datetime_to_epoch : ℕ → ℕ → ℕ → ℕ → ℕ → ℕ → Option ℕ
datetime_to_epoch year month day hour minute second =
    if out_of_range year month day hour minute second
    then none
    else some (
        days_from_civil year month day * 86_400
        + hour * 3_600
        + minute * 60
        + (if second == 60 then 59 else second))

unfoldable pub is_digit : ℕ → Bool
is_digit c = leb 48 c && leb c 57

unfoldable pub parse_two_digits : List ℕ → Option ℕ
parse_two_digits text =
    if is_digit (byte_at text 0) && is_digit (byte_at text 1)
    then some ((byte_at text 0 - 48) * 10 + (byte_at text 1 - 48))
    else none
