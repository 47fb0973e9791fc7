-- ===== src/Time.antt =====
-- kern/time.c and kern/time.h: calendar times, and arithmetic on `struct timespec`. The fields of a
-- `datetime_t` are natural numbers; those below zero, which the source does not reject, are left out.
pub mod Reference
pub mod Calendar
pub mod Dates
mod Tests
use elos.Base.{
  ℕ, zero, suc, ◌+◌, ◌-◌, ◌*◌, ◌/◌, ◌%◌, ◌^◌, Bool, true, false, ◌&&◌, ◌||◌, List, [], ◌∷◌, not,
  Option, none, some, if◌then◌else◌, ltb, leb, ◌==◌,
}
use elos.Base.Errno.{Errno, Result, ok, err, einval}
use elos.Base.{get_or}

-- `leapyear`
unfoldable pub leapyear : ℕ → Bool
leapyear y = (y % 4 == 0) && (not (y % 100 == 0) || (y % 400 == 0))

unfoldable pub year_days : ℕ → ℕ
unfolding leapyear
year_days y = if leapyear y then 366 else 365

abbrev pub cur_year : ℕ
cur_year = 2017

abbrev pub cur_year_days : ℕ
cur_year_days = 17167

abbrev pub year_base : ℕ
year_base = 1970

-- `month_days`; its table, with -1 for February as 0, is only read at the other months.
unfoldable pub month_days : (year month : ℕ) → ℕ
unfolding leapyear
month_days year month =
    if month == 2
    then (if leapyear year then 29 else 28)
    else get_or (31 ∷ 0 ∷ 31 ∷ 30 ∷ 31 ∷ 30 ∷ 31 ∷ 31 ∷ 30 ∷ 31 ∷ 30 ∷ 31 ∷ []) (month - 1) 0

-- `year_month_days`: the switch falls through from the month down to January.
unfoldable pub year_month_days : (year month : ℕ) → ℕ
unfolding leapyear
year_month_days year month =
    let days : ℕ → ℕ → ℕ = λ m d. if leb m month then d else 0 in
    if ltb 11 month
    then 0
    else days 11 30
      + days 10 31
      + days 9 30
      + days 8 31
      + days 7 31
      + days 6 30
      + days 5 31
      + days 4 30
      + days 3 31
      + days 2 (if leapyear year then 29 else 28)
      + days 1 31

-- `datetime_t`
pub record Datetime : Type 0 where
  pub nsec : ℕ
  pub sec : ℕ
  pub min : ℕ
  pub hour : ℕ
  pub day : ℕ
  pub mon : ℕ
  pub year : ℕ

-- `struct timespec`
pub record Timespec : Type 0 where
  pub tv_sec : ℕ
  pub tv_nsec : ℕ

-- the loop over the years from `i` on, `n` of them
unfoldable pub add_years : (n i days : ℕ) → ℕ
unfolding year_days
add_years zero i days = days
add_years (suc n) i days = add_years n (suc i) (days + year_days i)

abbrev pub int_limit : ℕ
int_limit = 2 ^ 31

-- The sums are of type `int`; `none` is an overflow, which C leaves undefined. `days` only grows in its
-- loop, so that its last value decides.
unfoldable pub datetime_to_ts : Datetime → Option (Result Timespec)
datetime_to_ts time =
    let year = time.year in
    let start = if leb cur_year year then cur_year else year_base in
    let days0 = if leb cur_year year then cur_year_days else 0 in
    let days =
      add_years (year - start) start days0 + year_month_days year (time.mon - 1) + (time.day - 1) in
    let hours = days * 24 + time.hour in
    let mins = hours * 60 + time.min in
    let secs = mins * 60 + time.sec in
    if leb 60 time.sec
      || leb 60 time.min
      || leb 24 time.hour
      || ltb time.mon 1
      || ltb 12 time.mon
      || ltb time.day 1
      || ltb (month_days year time.mon) time.day
    then some (err einval)
    else if leb int_limit days || leb int_limit hours || leb int_limit mins || leb int_limit secs
    then none
    else some (ok (record { tv_sec = secs; tv_nsec = time.nsec }))

abbrev pub sec_nanosecs : ℕ
sec_nanosecs = 1000000000

-- `nsec_to_ts`
unfoldable pub nsec_to_ts : ℕ → Timespec
nsec_to_ts ns = record { tv_sec = ns / sec_nanosecs; tv_nsec = ns % sec_nanosecs }

-- `ts_to_nsec`
unfoldable pub ts_to_nsec : Timespec → ℕ
ts_to_nsec ts = ts.tv_sec * sec_nanosecs + ts.tv_nsec

-- `ts_add`; its assertions are the condition of its theorem
unfoldable pub ts_add : Timespec → Timespec → Timespec
ts_add a b =
    let sec = a.tv_sec + b.tv_sec in
    let nsec = a.tv_nsec + b.tv_nsec in
    if leb sec_nanosecs nsec
    then record { tv_sec = sec + 1; tv_nsec = nsec - sec_nanosecs }
    else record { tv_sec = sec; tv_nsec = nsec }

unfoldable pub ts_inc : Timespec → ℕ → Timespec
unfolding ts_add nsec_to_ts
ts_inc ts ns = ts_add ts (nsec_to_ts ns)
