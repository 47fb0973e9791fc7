-- ===== src/Time/Dates.antt =====
-- `datetime_to_ts` of kern/time.c against the reference calendar.
