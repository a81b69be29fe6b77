-- ===== src/Rtc/Tests.antt =====
-- kernel/drivers/rtc.c: a clock, whose state is the register that was chosen.
use gnuwindows.Base.{ℕ, ◌≡◌, refl, false, ◌==◌, if◌then◌else◌, arith}
use gnuwindows.Rtc.Clock.{Ports, Time, cmos_read, rtc_read, hour_of, decoded, bcd_to_bin}
use gnuwindows.Rtc.Registers.{IsTime, Shows, rtc_read-Shows}

abbrev register : ℕ → ℕ
register v =
    if v == 0x80
    then 0x45
    else if v == 0x82
    then 0x34
    else if v == 0x84
    then 0x18
    else if v == 0x87
    then 0x25
    else if v == 0x88
    then 0x11
    else if v == 0x89
    then 0x26
    else if v == 0xB2
    then 0x20
    else 2

abbrev clock : Ports ℕ
clock = record { outb = λ port v s. v; inb = λ port s. (register s, s) }

abbrev evening : Time
evening = record { year = 2026; month = 11; day = 25; hour = 18; minute = 34; second = 45 }

evening-IsTime : IsTime evening
evening-IsTime = record {
  second-lt = omega arith;
  minute-lt = omega arith;
  hour-lt = omega arith;
  day-lt = omega arith;
  month-lt = omega arith;
  year_from = omega arith;
  year-lt = omega arith;
}

clock-Shows : Shows clock false evening
unfolding cmos_read
clock-Shows = record {
  seconds = λ s. refl;
  minutes = λ s. refl;
  hours = λ s. refl;
  days = λ s. refl;
  months = λ s. refl;
  years = λ s. refl;
  centuries = λ s. refl;
  formats = λ s. refl;
}

rtc_example : (rtc_read clock 0).0 ≡ evening
rtc_example = rtc_read-Shows clock false evening 0 evening-IsTime clock-Shows

-- One in the afternoon on a clock of 12 hours, whose bit 7 is dropped.
afternoon : hour_of false false 0x81 ≡ 1
unfolding hour_of decoded bcd_to_bin
afternoon = refl
