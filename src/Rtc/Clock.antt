-- ===== src/Rtc/Clock.antt =====
-- kernel/drivers/rtc.c: the registers of the clock and the time. The two ports come as a record
-- `Ports`, whose state is a `P`.
use gnuwindows.Base.{ℕ, zero, suc, ◌+◌, ◌*◌, ◌/◌, ◌%◌, ◌^◌, Bool, ◌==◌, if◌then◌else◌, not}

pub record Ports (P : Type 0) : Type 0 where
  pub outb : ℕ → ℕ → P → P
  pub inb : ℕ → P → ℕ × P

pub record Time : Type 0 where
  pub year : ℕ
  pub month : ℕ
  pub day : ℕ
  pub hour : ℕ
  pub minute : ℕ
  pub second : ℕ

unfoldable pub bcd_to_bin : ℕ → ℕ
bcd_to_bin v = v % 2 ^ 4 + v / 2 ^ 4 * 10

-- a register in the format that bit 2 of register B tells
unfoldable pub decoded : Bool → ℕ → ℕ
decoded binary v = if binary then v else bcd_to_bin v % 2 ^ 8

-- the hour, of which bit 7 is dropped, and 12 is 0 on a clock of 12 hours
unfoldable pub hour_of : Bool → Bool → ℕ → ℕ
hour_of binary h24 hr =
    let h = decoded binary (hr % 2 ^ 7) in if not h24 then (if h == 12 then 0 else h) else h

unfoldable pub year_of : Bool → ℕ → ℕ → ℕ
year_of binary cent yr =
    let c = (if cent == 0 then cent else decoded binary cent) in
    if c == 0 then 2000 + decoded binary yr else c * 100 + decoded binary yr

module _ {P : Type 0} (p : Ports P) where
  -- `reg | 0x80` of a register below 0x80
  unfoldable pub cmos_read : ℕ → P → ℕ × P
  cmos_read reg s = p.inb 0x71 (p.outb 0x70 (reg + 0x80) s)

  -- the loop that waits for the end of an update, for so many rounds at most
  unfoldable pub wait_update : ℕ → P → P
  wait_update zero s = s
  wait_update (suc n) s =
      let r = cmos_read 0x0A s in
      let rest = wait_update n r.1 in if r.0 / 2 ^ 7 % 2 == 0 then r.1 else rest

  -- the time from the eight registers that are read
  unfoldable pub rtc_read : P → Time × P
  rtc_read s0 =
      let sec = cmos_read 0x00 (wait_update 10000 s0) in
      let min = cmos_read 0x02 sec.1 in
      let hr = cmos_read 0x04 min.1 in
      let day = cmos_read 0x07 hr.1 in
      let mon = cmos_read 0x08 day.1 in
      let yr = cmos_read 0x09 mon.1 in
      let cent = cmos_read 0x32 yr.1 in
      let regb = cmos_read 0x0B cent.1 in
      let binary = regb.0 / 2 ^ 2 % 2 == 1 in
      let h24 = regb.0 / 2 % 2 == 1 in
      (
        record {
          year = year_of binary cent.0 yr.0;
          month = decoded binary mon.0;
          day = decoded binary day.0;
          hour = hour_of binary h24 hr.0;
          minute = decoded binary min.0;
          second = decoded binary sec.0;
        },
        regb.1,
      )
