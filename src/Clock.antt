-- ===== src/Clock.antt =====
-- The system clock of kernel/src/time.c: the tick of a second, and the time read from the registers
-- of the real-time clock. The fields are bytes, and the year has 32 bits.
pub mod Tick
mod Tests
use efi_os.Prelude.{
  ℕ, ◌+◌, ◌-◌, ◌*◌, ◌/◌, ◌%◌, ◌^◌, Bool, true, false, Option, ltb, leb, ◌==◌, if◌then◌else◌,
  bit_and, add8, sub8, add32, List, [], ◌∷◌, get_elem?, get_or,
}

-- `time`.
pub record Time : Type 0 where
  pub second : ℕ
  pub minute : ℕ
  pub hour : ℕ
  pub day : ℕ
  pub month : ℕ
  pub year : ℕ

pub bcd_to_int : (bcd : ℕ) → ℕ
bcd_to_int bcd = (bit_and bcd 0x0f + bcd / 16 * 10) % 2 ^ 8

-- The code of `INIT_RTC` behind the reads: the register B says whether the others are binary, and the
-- time zone is eight hours behind.
pub init_rtc : (register_b : ℕ) → (read : Time) → Time
unfolding bcd_to_int
init_rtc register_b r =
    let decode : ℕ → ℕ = λ x. if bit_and register_b 0x04 == 0 then bcd_to_int x else x in
    let t : Time = record {
      second = decode r.second;
      minute = decode r.minute;
      hour = decode r.hour;
      day = decode r.day;
      month = decode r.month;
      year = add32 2000 (decode r.year);
    } in
    if ltb 8 t.hour
    then record t { hour = sub8 t.hour 8 }
    else record t { hour = add8 t.hour 16; day = sub8 t.day 1 }

-- The five tests of `SYSTEM_TIME_INCREMENT` in turn.
carry_second : Time → Time
carry_second t = if leb 60 t.second then record t { second = 0; minute = add8 t.minute 1 } else t

carry_minute : Time → Time
carry_minute t = if leb 60 t.minute then record t { minute = 0; hour = add8 t.hour 1 } else t

carry_hour : Time → Time
carry_hour t = if leb 24 t.hour then record t { hour = 0; day = add8 t.day 1 } else t

carry_day : Time → Time
carry_day t = if leb 30 t.day then record t { day = 0; month = add8 t.month 1 } else t

carry_month : Time → Time
carry_month t = if leb 12 t.month then record t { month = 0; year = add32 t.year 1 } else t

pub system_time_increment : Time → Time
unfolding carry_second carry_minute carry_hour carry_day carry_month
system_time_increment t =
    carry_month
      (carry_day (carry_hour (carry_minute (carry_second (record t { second = add8 t.second 1 })))))

-- 0 is Sunday. `y -= m < 3`; the sum is not negative for a year of at least 1.
pub dayofweek : Time → ℕ
dayofweek t =
    let y = if ltb t.month 3 then t.year - 1 else t.year in
    let table = 0 ∷ 3 ∷ 2 ∷ 5 ∷ 0 ∷ 3 ∷ 5 ∷ 1 ∷ 4 ∷ 6 ∷ 2 ∷ 4 ∷ [] in
    (y + y / 4 - y / 100 + y / 400 + get_or table (t.month - 1) 0 + t.day) % 7
