-- ===== src/Rtc/Registers.antt =====
-- kernel/drivers/rtc.c: the time that a clock of 24 hours shows is the time that rtc_read gives.
use gnuwindows.Base.{
  ℕ, ◌+◌, ◌*◌, ◌/◌, ◌%◌, ◌^◌, ◌≤◌, ◌<◌, ◌≡◌, refl, ap, ◌∙◌, Bool, true, false, ◌==◌, arith,
}
use gnuwindows.Rtc.Clock.{
  Ports, Time, bcd_to_bin, decoded, hour_of, year_of, cmos_read, wait_update, rtc_read,
}

-- a number of two decimal digits, one in each half of a byte, or as it is
abbrev pub encoded : Bool → ℕ → ℕ
encoded true v = v
encoded false v = v / 10 * 16 + v % 10

-- register B of a clock of 24 hours
abbrev pub format : Bool → ℕ
format true = 6
format false = 2

pub record IsTime (t : Time) : Type 0 where
  pub second-lt : t.second < 60
  pub minute-lt : t.minute < 60
  pub hour-lt : t.hour < 24
  pub day-lt : t.day < 32
  pub month-lt : t.month < 13
  pub year_from : 100 ≤ t.year
  pub year-lt : t.year < 10000

-- The documented behaviour of the clock: while it shows `t`, each register has its part of it.
pub record Shows {P : Type 0} (p : Ports P) (binary : Bool) (t : Time) : Type 0 where
  pub seconds : (s : P) → (cmos_read p 0x00 s).0 ≡ encoded binary t.second
  pub minutes : (s : P) → (cmos_read p 0x02 s).0 ≡ encoded binary t.minute
  pub hours : (s : P) → (cmos_read p 0x04 s).0 ≡ encoded binary t.hour
  pub days : (s : P) → (cmos_read p 0x07 s).0 ≡ encoded binary t.day
  pub months : (s : P) → (cmos_read p 0x08 s).0 ≡ encoded binary t.month
  pub years : (s : P) → (cmos_read p 0x09 s).0 ≡ encoded binary (t.year % 100)
  pub centuries : (s : P) → (cmos_read p 0x32 s).0 ≡ encoded binary (t.year / 100)
  pub formats : (s : P) → (cmos_read p 0x0B s).0 ≡ format binary

decoded-encoded : (binary : Bool) (v : ℕ) → v < 100 → decoded binary (encoded binary v) ≡ v
unfolding decoded bcd_to_bin
decoded-encoded true v h = refl
decoded-encoded false v h = omega arith

hour_of-encoded : (binary : Bool) (v : ℕ) → v < 24 → hour_of binary true (encoded binary v) ≡ v
unfolding hour_of
hour_of-encoded true v h =
    let e : v % 2 ^ 7 ≡ v = omega arith in
    ap (decoded true) e ∙ decoded-encoded true v (omega arith)
hour_of-encoded false v h =
    let e : (v / 10 * 16 + v % 10) % 2 ^ 7 ≡ v / 10 * 16 + v % 10 = omega arith in
    ap (decoded false) e ∙ decoded-encoded false v (omega arith)

encoded_pos : (binary : Bool) (v : ℕ) → 0 < v → (encoded binary v == 0) ≡ false
encoded_pos true v h = ground arith
encoded_pos false v h = ground arith

year_of-encoded :
    (binary : Bool) (v : ℕ)
    → 100 ≤ v
    → v < 10000
    → year_of binary (encoded binary (v / 100)) (encoded binary (v % 100)) ≡ v
unfolding year_of
year_of-encoded binary v lo hi =
    let c = decoded-encoded binary (v / 100) (omega arith) in
    let pos : (v / 100 == 0) ≡ false = ground arith in
    rw
      (
        encoded_pos binary (v / 100) (omega arith),
        c,
        pos,
        decoded-encoded binary (v % 100) (omega arith),
      )
      (omega arith)

format_bits :
    (binary : Bool)
    → ((format binary / 2 ^ 2 % 2 == 1) ≡ binary) × ((format binary / 2 % 2 == 1) ≡ true)
format_bits true = (refl, refl)
format_bits false = (refl, refl)

-- While a clock of 24 hours, whose registers are binary or two decimal digits each, shows a time with
-- a year from 100 to 9999, rtc_read gives this time.
pub rtc_read-Shows :
    {P : Type 0} (p : Ports P) (binary : Bool) (t : Time) (s : P)
    → IsTime t
    → Shows p binary t
    → (rtc_read p s).0 ≡ t
unfolding rtc_read
rtc_read-Shows p binary t s i h =
    let s1 = (cmos_read p 0x00 (wait_update p 10000 s)).1 in
    let s2 = (cmos_read p 0x02 s1).1 in
    let s3 = (cmos_read p 0x04 s2).1 in
    let s4 = (cmos_read p 0x07 s3).1 in
    let s5 = (cmos_read p 0x08 s4).1 in
    let s6 = (cmos_read p 0x09 s5).1 in
    let s7 = (cmos_read p 0x32 s6).1 in
    let (bin, h24) = format_bits binary in
    rw
      (
        h.seconds (wait_update p 10000 s),
        h.minutes s1,
        h.hours s2,
        h.days s3,
        h.months s4,
        h.years s5,
        h.centuries s6,
        h.formats s7,
        bin,
        h24,
        decoded-encoded binary t.second (omega (arith, i.second-lt)),
        decoded-encoded binary t.minute (omega (arith, i.minute-lt)),
        decoded-encoded binary t.day (omega (arith, i.day-lt)),
        decoded-encoded binary t.month (omega (arith, i.month-lt)),
        hour_of-encoded binary t.hour i.hour-lt,
        year_of-encoded binary t.year i.year_from i.year-lt,
      )
      refl
