-- ===== src/Clock/Tick.antt =====
-- A second of the clock of kernel/src/time.c against the calendar, whose days and months count from 1
-- as in INIT_RTC and dayofweek.
use efi_os.Prelude.{
  ℕ, zero, suc, refl, ap₂, ◌∙◌, inl, inr, Bool, Bool-cases, false, not, ◌&&◌, ◌||◌, ◌+◌, ◌-◌, ◌*◌,
  ◌/◌, ◌%◌, ◌<◌, ◌≤◌, ◌≡◌, ◌==◌, if◌then◌else◌, arith, leb, add8,
}
use efi_os.Clock.{
  Time, system_time_increment, carry_second, carry_minute, carry_hour, carry_day, carry_month,
}

-- The Gregorian calendar.
abbrev is_leap : (year : ℕ) → Bool
is_leap year = year % 4 == 0 && (not (year % 100 == 0) || year % 400 == 0)

abbrev pub month_length : (year month : ℕ) → ℕ
month_length year month =
    if month == 2
    then (if is_leap year then 29 else 28)
    else if month == 4 || month == 6 || month == 9 || month == 11
    then 30
    else 31

month_start : (year month : ℕ) → ℕ
month_start year zero = 0
month_start year (suc zero) = 0
month_start year (suc (suc m)) = month_start year (suc m) + month_length year (suc m)

-- The days before a month, from the start of the year 0.
pub days_before : (year month : ℕ) → ℕ
unfolding month_start
days_before year month =
    365 * year + (year + 3) / 4 - (year + 99) / 100 + (year + 399) / 400 + month_start year month

-- From the first of January 1970 to the first of March 2000, and over the 29th of February.
days_before-epoch : days_before 2000 3 ≡ days_before 1970 1 + 11017
unfolding days_before
days_before-epoch = refl

-- A time of day of a date that there is.
pub record IsDate (t : Time) : Type 0 where
  pub seconds : t.second < 60
  pub minutes : t.minute < 60
  pub hours : t.hour < 24
  pub first_day : 1 ≤ t.day
  pub last_day : t.day ≤ month_length t.year t.month
  pub first_month : 1 ≤ t.month
  pub last_month : t.month ≤ 12

abbrev pub time_of_day : Time → ℕ
time_of_day t = (t.hour * 60 + t.minute) * 60 + t.second

-- The seconds of a date and a time from the start of the year 0.
abbrev pub seconds_of : Time → ℕ
seconds_of t = (days_before t.year t.month + t.day) * 86400 + time_of_day t

-- Bounds of the fields between two tests.
record Within (s m h d : ℕ) (t : Time) : Type 0 where
  seconds : t.second < s
  minutes : t.minute < m
  hours : t.hour < h
  days : t.day < d

-- A test keeps the second that the fields say, and the month.
abbrev Same : Time → Time → Type 0
Same t u = (seconds_of u ≡ seconds_of t) × (u.year ≡ t.year) × (u.month ≡ t.month)

second_carried :
    (t : Time)
    → Within 61 60 24 30 t
    → Within 60 61 24 30 (carry_second t) × Same t (carry_second t)
unfolding carry_second
second_carried t v = elim (Bool-cases (leb 60 t.second)) [
  | inl e ↦ rw e (
    record {
      seconds = omega arith;
      minutes = omega (arith, v.minutes);
      hours = v.hours;
      days = v.days;
    },
    (ground (arith, v.seconds, v.minutes), refl, refl),
  )
  | inr e ↦ rw e (
    record {
      seconds = ground arith;
      minutes = omega (arith, v.minutes);
      hours = v.hours;
      days = v.days;
    },
    (refl, refl, refl),
  )
]

minute_carried :
    (t : Time)
    → Within 60 61 24 30 t
    → Within 60 60 25 30 (carry_minute t) × Same t (carry_minute t)
unfolding carry_minute
minute_carried t v = elim (Bool-cases (leb 60 t.minute)) [
  | inl e ↦ rw e (
    record {
      seconds = v.seconds;
      minutes = omega arith;
      hours = omega (arith, v.hours);
      days = v.days;
    },
    (ground (arith, v.minutes, v.hours), refl, refl),
  )
  | inr e ↦ rw e (
    record {
      seconds = v.seconds;
      minutes = ground arith;
      hours = omega (arith, v.hours);
      days = v.days;
    },
    (refl, refl, refl),
  )
]

hour_carried :
    (t : Time) → Within 60 60 25 30 t → Within 60 60 24 31 (carry_hour t) × Same t (carry_hour t)
unfolding carry_hour
hour_carried t v = elim (Bool-cases (leb 24 t.hour)) [
  | inl e ↦ rw e (
    record {
      seconds = v.seconds;
      minutes = v.minutes;
      hours = omega arith;
      days = omega (arith, v.days);
    },
    (ground (arith, v.hours, v.days), refl, refl),
  )
  | inr e ↦ rw e (
    record {
      seconds = v.seconds;
      minutes = v.minutes;
      hours = ground arith;
      days = omega (arith, v.days);
    },
    (refl, refl, refl),
  )
]

no_carry : (t : Time) → t.day < 30 → t.month < 12 → carry_month (carry_day t) ≡ t
unfolding carry_day carry_month
no_carry t day month =
    let a : leb 30 t.day ≡ false = ground arith in
    let b : leb 12 t.month ≡ false = ground arith in rw a (rw b refl)

-- The first three tests.
abbrev clock_carried : Time → Time
clock_carried t = carry_hour (carry_minute (carry_second (record t { second = add8 t.second 1 })))

clock_carried-Within :
    (t : Time)
    → IsDate t
    → t.day < 30
    → Within 60 60 24 31 (clock_carried t)
      × (seconds_of (clock_carried t) ≡ seconds_of t + 1)
      × ((clock_carried t).year ≡ t.year)
      × ((clock_carried t).month ≡ t.month)
clock_carried-Within t v small =
    let t0 = record t { second = add8 t.second 1 } in
    let w0 : Within 61 60 24 30 t0 = record {
      seconds = omega (arith, v.seconds);
      minutes = v.minutes;
      hours = v.hours;
      days = small;
    } in
    let (w1, s1) = second_carried t0 w0 in
    let (w2, s2) = minute_carried (carry_second t0) w1 in
    let (w3, s3) = hour_carried (carry_minute (carry_second t0)) w2 in
    (w3, s3.0 ∙ s2.0 ∙ s1.0 ∙ omega (arith, v.seconds), s3.1 ∙ s2.1 ∙ s1.1, s3.2 ∙ s2.2 ∙ s1.2)

-- `SYSTEM_TIME_INCREMENT` of a date of the Gregorian calendar that is not in December nor a 30th or
-- 31st, and whose day, at its last second, is neither the 29th nor the last one of its month: the
-- result is a date of the calendar, one second on.
pub system_time_increment-IsDate :
    (t : Time)
    → IsDate t
    → t.month < 12
    → t.day < 30
    → (time_of_day t ≡ 86399 → (t.day < 29) × (t.day < month_length t.year t.month))
    → IsDate (system_time_increment t) × (seconds_of (system_time_increment t) ≡ seconds_of t + 1)
unfolding system_time_increment
system_time_increment-IsDate t v month day midnight =
    let u = clock_carried t in
    let (w, s, year_same, month_same) = clock_carried-Within t v day in
    let same : days_before u.year u.month ≡ days_before t.year t.month =
      ap₂ days_before year_same month_same in
    let length : month_length u.year u.month ≡ month_length t.year t.month =
      ap₂ month_length year_same month_same in
    let fits : (1 ≤ u.day) × (u.day < 30) × (u.day ≤ month_length t.year t.month) =
      elim (Bool-cases (time_of_day t == 86399)) [
        | inl e ↦
            let k = midnight (ground arith) in
            (
              omega (arith, w.seconds, w.minutes, w.hours, v.first_day),
              omega (arith, w.seconds, w.minutes, w.hours, k.0),
              omega (arith, w.seconds, w.minutes, w.hours, k.1),
            )
        | inr e ↦
            let here : u.day ≡ t.day =
              ground (arith, w.seconds, w.minutes, w.hours, v.seconds, v.minutes, v.hours) in
            (omega (arith, v.first_day), omega (arith, day), omega (arith, v.last_day))
      ] in
    rw (no_carry u fits.1 (omega (arith, month_same, month))) (
      record {
        seconds = w.seconds;
        minutes = w.minutes;
        hours = w.hours;
        first_day = fits.0;
        last_day = omega (arith, length, fits.2);
        first_month = omega (arith, month_same, v.first_month);
        last_month = omega (arith, month_same, month);
      },
      s,
    )
