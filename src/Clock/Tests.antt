-- ===== src/Clock/Tests.antt =====
-- The clock at the last second of a day, and the registers read.
use efi_os.Prelude.{refl, ◌+◌, ◌≡◌, arith}
use efi_os.Clock.{Time, system_time_increment, init_rtc, bcd_to_int}
use efi_os.Clock.Tick.{IsDate, seconds_of, system_time_increment-IsDate}

-- The 28th of February of a leap year.
abbrev leap_eve : Time
leap_eve = record { second = 59; minute = 59; hour = 23; day = 28; month = 2; year = 2024 }

leap_eve-IsDate : IsDate leap_eve
leap_eve-IsDate = record {
  seconds = omega arith;
  minutes = omega arith;
  hours = omega arith;
  first_day = omega arith;
  last_day = omega arith;
  first_month = omega arith;
  last_month = omega arith;
}

system_time_increment-IsDate_example :
    IsDate (system_time_increment leap_eve)
    × (seconds_of (system_time_increment leap_eve) ≡ seconds_of leap_eve + 1)
system_time_increment-IsDate_example =
    system_time_increment-IsDate leap_eve leap_eve-IsDate (omega arith) (omega arith)
      (λ e. (omega arith, omega arith))

-- Half past seven in the morning of the 12th, in BCD, is half past eleven in the evening before.
evening_before :
    init_rtc 0
      (record { second = 0x00; minute = 0x30; hour = 0x07; day = 0x12; month = 0x05; year = 0x23 })
    ≡ record { second = 0; minute = 30; hour = 23; day = 11; month = 5; year = 2023 }
unfolding init_rtc bcd_to_int
evening_before = refl
