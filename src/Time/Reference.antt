-- ===== src/Time/Reference.antt =====
-- A calendar to compare kern/time.c with, which uses nothing of it: leap years are counted by multiples of
-- 4, 100 and 400, and the length of a month alternates between 31 and 30 days, from August on anew.
use elos.Base.{
  ℕ, zero, suc, ◌+◌, ◌-◌, ◌*◌, ◌/◌, ◌%◌, ◌≡◌, Bool, false, ◌&&◌, if◌then◌else◌, ltb, leb, ◌==◌,
  arith, Bool-cases, inl, inr,
}
use elos.Time.{Datetime, leapyear}

-- the leap years among the years from 1 to `y`
abbrev pub leap_years : ℕ → ℕ
leap_years y = y / 4 + y / 400 - y / 100

abbrev pub month_length : (year month : ℕ) → ℕ
month_length year month =
    if month == 2
    then 28 + (leap_years year - leap_years (year - 1))
    else 30 + (month + month / 8) % 2

unfoldable pub month_lengths : (year n : ℕ) → ℕ
month_lengths year zero = 0
month_lengths year (suc n) = month_lengths year n + month_length year (suc n)

-- the days from 1 January 1970 to a date
abbrev pub date_number : (year month day : ℕ) → ℕ
date_number year month day =
    365 * (year - 1970)
    + (leap_years (year - 1) - leap_years 1969)
    + month_lengths year (month - 1)
    + (day - 1)

-- the date and the time exist
abbrev pub exists : Datetime → Bool
exists t =
    ltb t.sec 60
    && ltb t.min 60
    && ltb t.hour 24
    && leb 1 t.mon
    && leb t.mon 12
    && leb 1 t.day
    && leb t.day (month_length t.year t.mon)

-- the seconds from 1 January 1970, 00:00
abbrev pub seconds : Datetime → ℕ
seconds t = ((date_number t.year t.mon t.day * 24 + t.hour) * 60 + t.min) * 60 + t.sec

multiples_4 : (z : ℕ) → suc z / 4 ≡ z / 4 + (if suc z % 4 == 0 then 1 else 0)
multiples_4 z = ground arith

multiples_100 : (z : ℕ) → suc z / 100 ≡ z / 100 + (if suc z % 100 == 0 then 1 else 0)
multiples_100 z = ground arith

multiples_400 : (z : ℕ) → suc z / 400 ≡ z / 400 + (if suc z % 400 == 0 then 1 else 0)
multiples_400 z = ground arith

-- `leapyear` is true of exactly the years that are counted.
pub leapyear-leap_years :
    (z : ℕ) → leap_years (suc z) ≡ leap_years z + (if leapyear (suc z) then 1 else 0)
unfolding leapyear
leapyear-leap_years z = elim (Bool-cases (suc z % 4 == 0)) [
  | inr e4 ↦
      let n100 : (suc z % 100 == 0) ≡ false = ground arith in
      let n400 : (suc z % 400 == 0) ≡ false = ground arith in
      rw e4 (
        omega (
          arith,
          simp e4 at (multiples_4 z),
          simp n100 at (multiples_100 z),
          simp n400 at (multiples_400 z),
        ))
  | inl e4 ↦ elim (Bool-cases (suc z % 100 == 0)) [
    | inr e100 ↦
        let n400 : (suc z % 400 == 0) ≡ false = ground arith in
        rw (e4, e100)
          (omega (
            arith,
            simp e4 at (multiples_4 z),
            simp e100 at (multiples_100 z),
            simp n400 at (multiples_400 z),
          ))
    | inl e100 ↦ elim (Bool-cases (suc z % 400 == 0)) [
      | inl e400 ↦
          rw (e4, e100, e400)
            (omega (
              arith,
              simp e4 at (multiples_4 z),
              simp e100 at (multiples_100 z),
              simp e400 at (multiples_400 z),
            ))
      | inr e400 ↦
          rw (e4, e100, e400)
            (omega (
              arith,
              simp e4 at (multiples_4 z),
              simp e100 at (multiples_100 z),
              simp e400 at (multiples_400 z),
            ))
    ]
  ]
]
