-- ===== src/Gnss/Dates/Calendar.antt =====
-- The day numbers of main/gnss_service.c are those of the Gregorian calendar.
use Prim.Native.Nat.{zero, suc}
use esp32p4_nts_time_server.Base.{
  ℕ, ◌+◌, ◌-◌, ◌*◌, ◌/◌, ◌%◌, ◌≤◌, ◌≡◌, refl, ap, Bool, true, false, not, ◌&&◌, ◌||◌, arith, ltb,
  leb, leb→le, Bool-cases, inl, inr, ◌==◌, if◌then◌else◌,
}
use mathlib.Core.Path.{subst}
use esp32p4_nts_time_server.Gnss.Dates.{days_from_civil}

unfoldable pub is_leap_year : ℕ → Bool
is_leap_year y = (y % 4 == 0) && (not (y % 100 == 0) || (y % 400 == 0))

unfoldable pub year_length : ℕ → ℕ
year_length y = if is_leap_year y then 366 else 365

-- The days of the `n` years from 1970 on.
unfoldable pub days_of_years : ℕ → ℕ
days_of_years zero = 0
days_of_years (suc n) = days_of_years n + year_length (1970 + n)

unfoldable pub month_length : ℕ → ℕ → ℕ
month_length y m =
    if m == 2
    then (if is_leap_year y then 29 else 28)
    else if (m == 4) || (m == 6) || (m == 9) || (m == 11)
    then 30
    else 31

-- The days of the first `n` months of a year.
unfoldable pub days_of_months : ℕ → ℕ → ℕ
days_of_months y zero = 0
days_of_months y (suc n) = days_of_months y n + month_length y (suc n)

-- The days before a date, counted one year and one month at a time.
unfoldable pub day_number : ℕ → ℕ → ℕ → ℕ
day_number y m d = days_of_years (y - 1970) + days_of_months y (m - 1) + (d - 1)

-- The day number of the first of January.
new_year :
    (p : ℕ) → days_from_civil (1 + p) 1 1 ≡ 365 * p + (p / 4 - p / 100 + p / 400) + 306 - 719_468
unfolding days_from_civil
new_year p = omega arith

new_year_next :
    (n : ℕ)
    → days_from_civil (1971 + n) 1 1 ≡ days_from_civil (1970 + n) 1 1 + year_length (1970 + n)
unfolding year_length is_leap_year
new_year_next n = ground (arith, new_year (1970 + n), new_year (1969 + n))

new_year_1970 : days_from_civil 1970 1 1 ≡ 0
unfolding days_from_civil
new_year_1970 = refl

new_years : (n : ℕ) → days_from_civil (1970 + n) 1 1 ≡ days_of_years n
unfolding days_of_years
new_years zero = new_year_1970
new_years (suc n) =
    let shift : 1970 + suc n ≡ 1971 + n = omega arith in
    omega (arith, new_years n, new_year_next n, ap (λ (y : ℕ). days_from_civil y 1 1) shift)

-- The days up to the first of March of a year, from the first of March of year 0.
unfoldable pub century : ℕ → ℕ
century y = 365 * y + (y / 4 - y / 100 + y / 400)

century_lem :
    (y t : ℕ)
    → y / 400 * 146_097
        + ((y - y / 400 * 400) * 365 + (y - y / 400 * 400) / 4 - (y - y / 400 * 400) / 100 + t)
        - 719_468
      ≡ century y + t - 719_468
unfolding century
century_lem y t = omega arith

early :
    (p m d : ℕ)
    → m ≤ 2
    → days_from_civil (suc p) m d ≡ century p + ((153 * (m + 9) + 2) / 5 + d - 1) - 719_468
unfolding days_from_civil
early p m d h =
    let before : leb m 2 ≡ true = ground arith in
    let behind : ltb 2 m ≡ false = ground arith in
    let year : suc p - 1 ≡ p = omega arith in
    rw (before, behind, year) (century_lem p ((153 * (m + 9) + 2) / 5 + d - 1))

late :
    (y m d : ℕ)
    → 3 ≤ m
    → days_from_civil y m d ≡ century y + ((153 * (m - 3) + 2) / 5 + d - 1) - 719_468
unfolding days_from_civil
late y m d h =
    let before : leb m 2 ≡ false = ground arith in
    let behind : ltb 2 m ≡ true = ground arith in
    let year : y - 0 ≡ y = omega arith in
    rw (before, behind, year) (century_lem y ((153 * (m - 3) + 2) / 5 + d - 1))

century_ge : (y : ℕ) → 1970 ≤ y → 719_468 ≤ century y
unfolding century
century_ge y h = omega arith

century_next : (p : ℕ) → century (suc p) ≡ century p + year_length (suc p)
unfolding century year_length is_leap_year
century_next p = ground arith

month_next_late :
    (y m : ℕ)
    → 1970 ≤ y
    → 3 ≤ m
    → m ≤ 11
    → days_from_civil y (suc m) 1 ≡ days_from_civil y m 1 + month_length y m
unfolding month_length
month_next_late y m h i j =
    ground (arith, late y m 1 i, late y (suc m) 1 (omega arith), century_ge y h)

century_ge_1969 : (y : ℕ) → 1969 ≤ y → 719_162 ≤ century y
unfolding century
century_ge_1969 y h = omega arith

february : (p : ℕ) → 1969 ≤ p → days_from_civil (suc p) 2 1 ≡ days_from_civil (suc p) 1 1 + 31
february p h = omega (arith, early p 1 1 (omega arith), early p 2 1 (omega arith), base)
  where
    base : 719_468 ≤ century p + 306
    base = let g : 719_162 ≤ century p = century_ge_1969 p h in omega arith

march :
    (p : ℕ)
    → 1969 ≤ p
    → days_from_civil (suc p) 3 1
      ≡ days_from_civil (suc p) 1 1 + (31 + (if is_leap_year (suc p) then 29 else 28))
unfolding year_length
march p h = ground (
  arith,
  early p 1 1 (omega arith),
  late (suc p) 3 1 (omega arith),
  century_next p,
  century_ge_1969 p h,
)

months_before :
    (p n : ℕ)
    → 1969 ≤ p
    → n ≤ 11
    → days_from_civil (suc p) (suc n) 1 ≡ days_from_civil (suc p) 1 1 + days_of_months (suc p) n
unfolding days_of_months month_length
months_before p zero h i = omega arith
months_before p (suc zero) h i = omega (arith, february p h)
months_before p (suc (suc zero)) h i = omega (arith, march p h)
months_before p (suc (suc (suc n))) h i = omega (
  arith,
  months_before p (suc (suc n)) h (omega arith),
  month_next_late (suc p) (suc (suc (suc n))) (omega arith) (omega arith) (omega arith),
)

days_later_early :
    (p m d : ℕ)
    → 1969 ≤ p
    → m ≤ 2
    → 1 ≤ m
    → 1 ≤ d
    → days_from_civil (suc p) m d ≡ days_from_civil (suc p) m 1 + (d - 1)
days_later_early p m d h i j k = omega (arith, early p m 1 i, early p m d i, century_ge_1969 p h)

days_later_late :
    (y m d : ℕ) → 1970 ≤ y → 3 ≤ m → 1 ≤ d → days_from_civil y m d ≡ days_from_civil y m 1 + (d - 1)
days_later_late y m d h i k = omega (arith, late y m 1 i, late y m d i, century_ge y h)

days_later :
    (p m d : ℕ)
    → 1969 ≤ p
    → 1 ≤ m
    → 1 ≤ d
    → days_from_civil (suc p) m d ≡ days_from_civil (suc p) m 1 + (d - 1)
days_later p m d h i k = elim (Bool-cases (leb m 2)) [
  | inl e ↦ days_later_early p m d h (leb→le m 2 e) i k
  | inr e ↦ days_later_late (suc p) m d (omega arith) (ground arith) k
]

counted :
    (n m d : ℕ)
    → 1 ≤ m
    → m ≤ 12
    → 1 ≤ d
    → days_from_civil (suc (1969 + n)) m d
      ≡ days_of_years n + days_of_months (suc (1969 + n)) (m - 1) + (d - 1)
counted n zero d h i k = absurd (omega arith)
counted n (suc m) d h i k =
    let shift : suc (1969 + n) ≡ 1970 + n = omega arith in
    let same : suc m - 1 ≡ m = omega arith in
    omega (
      arith,
      days_later (1969 + n) (suc m) d (omega arith) h k,
      months_before (1969 + n) m (omega arith) (omega arith),
      ap (λ (y : ℕ). days_from_civil y 1 1) shift,
      new_years n,
      ap (λ (l : ℕ). days_of_months (suc (1969 + n)) l) same,
    )

-- From 1970 on, `days_from_civil` counts the days of the Gregorian calendar: those of the whole
-- years, of the whole months and of the month, a year having 366 days where it is a leap year. A
-- day past the end of its month is counted on into the next.
pub days_from_civil-day_number :
    (y m d : ℕ) → 1970 ≤ y → 1 ≤ m → m ≤ 12 → 1 ≤ d → days_from_civil y m d ≡ day_number y m d
unfolding day_number
days_from_civil-day_number y m d h i j k =
    let year : suc (1969 + (y - 1970)) ≡ y = omega arith in
    subst
      (λ (y' : ℕ).
        days_from_civil y' m d ≡ days_of_years (y - 1970) + days_of_months y' (m - 1) + (d - 1))
      year (counted (y - 1970) m d i j k)
