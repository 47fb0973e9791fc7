-- ===== src/Time/Calendar.antt =====
-- The day count from which `datetime_to_ts` makes seconds, by years and months; sums of times.
use elos.Base.{
  ℕ, zero, suc, ◌+◌, ◌-◌, ◌≤◌, ◌<◌, ◌≡◌, refl, sym, ap, ◌∙◌, true, false, if◌then◌else◌, ltb, leb,
  arith, Bool-cases, inl, inr, dec_lt,
}
use elos.Time.{
  leapyear, year_days, month_days, year_month_days, add_years, Timespec, cur_year, cur_year_days,
  year_base, sec_nanosecs, ts_add, ts_inc, ts_to_nsec, nsec_to_ts,
}

-- The day count by whole years and months, with the lengths of the code: days before a year, before a month of it, and so the number of a date, where
-- 1 January 1970 has number 0.
unfoldable pub days_before : (n : ℕ) → ℕ
days_before zero = 0
days_before (suc n) = days_before n + year_days (year_base + n)

unfoldable pub month_days_before : (year n : ℕ) → ℕ
month_days_before year zero = 0
month_days_before year (suc n) = month_days_before year n + month_days year (suc n)

unfoldable pub day_number : (year mon day : ℕ) → ℕ
day_number year mon day =
    days_before (year - year_base) + month_days_before year (mon - 1) + (day - 1)

add_years-days_before :
    (n i k : ℕ)
    → i ≡ year_base + k
    → (days : ℕ) → days ≡ days_before k
    → add_years n i days ≡ days_before (n + k)
unfolding add_years days_before
add_years-days_before zero i k e days d =
    let sum : 0 + k ≡ k = omega arith in d ∙ ap days_before (sym sum)
add_years-days_before (suc n) i k e days d =
    let next : days + year_days i ≡ days_before (suc k) = omega (arith, d, ap year_days e) in
    let sum : suc n + k ≡ n + suc k = omega arith in
    add_years-days_before n (suc i) (suc k) (omega arith) (days + year_days i) next
    ∙ ap days_before (sym sum)

until_2017 : cur_year_days ≡ days_before 47
unfolding days_before year_days leapyear
until_2017 = refl

in_order :
    (year n : ℕ)
    → n < 11
    → year_month_days year (suc n) ≡ year_month_days year n + month_days year (suc n)
unfolding year_month_days month_days leapyear
in_order year zero l = omega arith
in_order year (suc zero) l = elim (Bool-cases (leapyear year)) [
  | inl e ↦ rw e refl
  | inr e ↦ rw e refl
]
in_order year (suc (suc zero)) l = omega arith
in_order year (suc (suc (suc zero))) l = omega arith
in_order year (suc (suc (suc (suc zero)))) l = omega arith
in_order year (suc (suc (suc (suc (suc zero))))) l = omega arith
in_order year (suc (suc (suc (suc (suc (suc zero)))))) l = omega arith
in_order year (suc (suc (suc (suc (suc (suc (suc zero))))))) l = omega arith
in_order year (suc (suc (suc (suc (suc (suc (suc (suc zero)))))))) l = omega arith
in_order year (suc (suc (suc (suc (suc (suc (suc (suc (suc zero))))))))) l = omega arith
in_order year (suc (suc (suc (suc (suc (suc (suc (suc (suc (suc zero)))))))))) l = omega arith
in_order year (suc (suc (suc (suc (suc (suc (suc (suc (suc (suc (suc n))))))))))) l =
    absurd (omega arith)

pub year_month_days-sum : (year n : ℕ) → n < 12 → year_month_days year n ≡ month_days_before year n
unfolding month_days_before year_month_days
year_month_days-sum year zero l = refl
year_month_days-sum year (suc n) l =
    in_order year n (omega arith)
    ∙ ap (λ m. m + month_days year (suc n)) (year_month_days-sum year n (omega arith))

year_days-sum : (year : ℕ) → month_days_before year 12 ≡ year_days year
unfolding month_days_before month_days year_days
year_days-sum year = elim (Bool-cases (leapyear year)) [ inl e ↦ rw e refl | inr e ↦ rw e refl ]

zero_days : 0 ≡ days_before 0
unfolding days_before
zero_days = refl

pub years_from :
    (y : ℕ)
    → year_base ≤ y
    → add_years
        (y - (if leb cur_year y then cur_year else year_base))
        (if leb cur_year y then cur_year else year_base)
        (if leb cur_year y then cur_year_days else 0)
      ≡ days_before (y - year_base)
years_from y le = elim (Bool-cases (leb cur_year y)) [
  | inl late ↦
      let total : (y - cur_year) + 47 ≡ y - year_base = ground arith in
      rw late (
        add_years-days_before (y - cur_year) cur_year 47 refl cur_year_days until_2017
        ∙ ap days_before total)
  | inr early ↦
      let total : (y - year_base) + 0 ≡ y - year_base = omega arith in
      rw early
        (add_years-days_before (y - year_base) year_base 0 refl 0 zero_days ∙ ap days_before total)
]

month_days_before-suc :
    (year mon : ℕ)
    → 1 ≤ mon
    → month_days_before year mon ≡ month_days_before year (mon - 1) + month_days year mon
unfolding month_days_before
month_days_before-suc year zero m1 = absurd (omega arith)
month_days_before-suc year (suc n) m1 = let pred : suc n - 1 ≡ n = omega arith in rw pred refl

december : (year : ℕ) → month_days_before year 11 + month_days year 12 ≡ year_days year
december year = sym (month_days_before-suc year 12 (omega arith)) ∙ year_days-sum year

next_year :
    (year : ℕ)
    → year_base ≤ year
    → days_before (year + 1 - year_base) ≡ days_before (year - year_base) + year_days year
unfolding days_before
next_year year le =
    let up : year + 1 - year_base ≡ suc (year - year_base) = omega arith in
    let back : year_base + (year - year_base) ≡ year = omega arith in
    ap days_before up ∙ ap (λ y. days_before (year - year_base) + year_days y) back

no_months : (year : ℕ) → month_days_before year 0 ≡ 0
unfolding month_days_before
no_months year = refl

-- the day after a date
pub tomorrow : (year mon day : ℕ) → ℕ × ℕ × ℕ
tomorrow year mon day =
    if ltb day (month_days year mon)
    then (year, mon, day + 1)
    else if ltb mon 12
    then (year, mon + 1, 1)
    else (year + 1, 1, 1)

-- The reference calendar counts each day once: from 1970 on, the day after a date that exists has
-- the next number.
pub day_number-tomorrow :
    (year mon day : ℕ)
    → year_base ≤ year
    → 1 ≤ mon
    → mon ≤ 12
    → 1 ≤ day
    → day ≤ month_days year mon
    → let (year', mon', day') = tomorrow year mon day in
      day_number year' mon' day' ≡ day_number year mon day + 1
unfolding tomorrow day_number
day_number-tomorrow year mon day y m1 m12 d1 d2 = elim (dec_lt day (month_days year mon)) [
  | yes within ↦ let t : ltb day (month_days year mon) ≡ true = ground arith in rw t (omega arith)
  | no last ↦
      let t : ltb day (month_days year mon) ≡ false = ground arith in
      let end_of : day ≡ month_days year mon = omega arith in
      elim (dec_lt mon 12) [
        | yes in_year ↦
            let t' : ltb mon 12 ≡ true = ground arith in
            let pred : mon + 1 - 1 ≡ mon = omega arith in
            rw (t, t', pred) (omega (arith, month_days_before-suc year mon m1))
        | no at_end ↦
            let t' : ltb mon 12 ≡ false = ground arith in
            let e : mon ≡ 12 = omega arith in
            let before = ap (λ m. month_days_before year (m - 1)) e in
            let here = ap (month_days year) e in
            rw (t, t')
              (omega (arith, next_year year y, december year, before, here, no_months (year + 1)))
      ]
]

-- `ts_add` of two normalised times adds their nanoseconds and is normalised.
pub ts_add-nsec :
    (a b : Timespec)
    → a.tv_nsec < sec_nanosecs
    → b.tv_nsec < sec_nanosecs
    → (ts_to_nsec (ts_add a b) ≡ ts_to_nsec a + ts_to_nsec b)
      × ((ts_add a b).tv_nsec < sec_nanosecs)
unfolding ts_add ts_to_nsec
ts_add-nsec a b ha hb = elim (Bool-cases (leb sec_nanosecs (a.tv_nsec + b.tv_nsec))) [
  | inl carry ↦
      let le : sec_nanosecs ≤ a.tv_nsec + b.tv_nsec = ground arith in
      rw carry (omega arith, omega arith)
  | inr small ↦
      let lt : a.tv_nsec + b.tv_nsec < sec_nanosecs = ground arith in
      rw small (omega arith, omega arith)
]

-- `ts_inc` of a normalised time adds the nanoseconds and is normalised, whatever their number.
pub ts_inc-nsec :
    (a : Timespec) (ns : ℕ)
    → a.tv_nsec < sec_nanosecs
    → (ts_to_nsec (ts_inc a ns) ≡ ts_to_nsec a + ns) × ((ts_inc a ns).tv_nsec < sec_nanosecs)
unfolding ts_inc nsec_to_ts ts_to_nsec
ts_inc-nsec a ns h =
    let (sum, normal) = ts_add-nsec a (nsec_to_ts ns) h (omega arith) in
    (omega (arith, sum), normal)
