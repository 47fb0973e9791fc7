-- ===== src/Time/Tests.antt =====
-- kern/time.c on dates around a leap day and a new year.
use elos.Base.{◌≡◌, refl, none, some}
use elos.Base.Errno.{ok, err, einval}
use elos.Time.{Datetime, Timespec, datetime_to_ts, month_days, add_years, year_month_days}

abbrev leap_day : Datetime
leap_day = record { nsec = 5; sec = 59; min = 59; hour = 23; day = 29; mon = 2; year = 2020 }

to_seconds : datetime_to_ts leap_day ≡ some (ok (record { tv_sec = 1583020799; tv_nsec = 5 }))
unfolding datetime_to_ts month_days add_years year_month_days
to_seconds = refl

no_such_day : datetime_to_ts (record leap_day { year = 2019 }) ≡ some (err einval)
unfolding datetime_to_ts month_days
no_such_day = refl

in_2038 : datetime_to_ts (record leap_day { year = 2038; mon = 1; day = 20 }) ≡ none
unfolding datetime_to_ts month_days add_years year_month_days
in_2038 = refl

abbrev half : Timespec
half = record { tv_sec = 3; tv_nsec = 500000000 }
