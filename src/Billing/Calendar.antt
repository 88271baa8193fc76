-- ===== src/Billing/Calendar.antt =====
-- What the services use of Go's package `time`, in UTC: `Time.AddDate`, and the whole days of a
-- duration (internal/domain/plan.go, internal/service/billing_service.go).
--
-- `int(d.Hours() / 24)` is computed exactly here; the code computes it in floating point.
use guestbook.Prelude.{
  ℕ, ◌+◌, ◌-◌, ◌*◌, ◌/◌, ◌%◌, ◌^◌, Bool, ◌&&◌, ◌||◌, not, ◌==◌, ltb, leb, if◌then◌else◌, List, [],
  ◌∷◌, take, ℤ, pos, negsuc,
}

abbrev pub hour : ℕ
hour = 3600 * 10 ^ 9

abbrev pub day : ℕ
day = 24 * hour

abbrev is_leap : ℕ → Bool
is_leap y = y % 4 == 0 && (not (y % 100 == 0) || y % 400 == 0)

-- The lengths of the months of a year.
abbrev months : ℕ → List ℕ
months y =
    31 ∷ (if is_leap y then 29 else 28) ∷ 31 ∷ 30 ∷ 31 ∷ 30 ∷ 31 ∷ 31 ∷ 30 ∷ 31 ∷ 30 ∷ 31 ∷ []

abbrev total : List ℕ → ℕ
total [] = 0
total (n ∷ ns) = n + total ns

-- The days from the start of the year 1 to the start of a year.
abbrev days_before : ℕ → ℕ
days_before y = let p = y - 1 in 365 * p + p / 4 - p / 100 + p / 400

-- The year of a day, counted from the start of the year 1, and the day's number in it.
abbrev year_and_day : ℕ → ℕ × ℕ
year_and_day d =
    let n400 = d / 146097 in
    let d400 = d % 146097 in
    let q100 = d400 / 36524 in
    let n100 = q100 - q100 / 4 in
    let d100 = d400 - 36524 * n100 in
    let n4 = d100 / 1461 in
    let d4 = d100 % 1461 in
    let q1 = d4 / 365 in
    let n1 = q1 - q1 / 4 in (400 * n400 + 100 * n100 + 4 * n4 + n1 + 1, d4 - 365 * n1)

-- The month, counted from 0, and the day in it, counted from 0.
abbrev month_and_day : ℕ → List ℕ → ℕ × ℕ
month_and_day d [] = (0, d)
month_and_day d (n ∷ ns) =
    let (m, rest) = month_and_day (d - n) ns in if ltb d n then (0, d) else (m + 1, rest)

-- `t.AddDate(years, months, days)`; a day that the month does not have runs into the next one.
unfoldable pub add_date : ℕ → ℕ → ℕ → ℕ → ℕ
add_date years moons days t =
    let (y, n) = year_and_day (t / day) in
    let (m, d) = month_and_day n (months y) in
    let m' = m + moons in
    let y' = y + years + m' / 12 in
    day * (days_before y' + total (take (m' % 12) (months y')) + d + days) + t % day

-- `int(time.Until(t).Hours() / 24)`, with the clock at `now`
unfoldable pub days_until : ℕ → ℕ → ℤ
days_until now t =
    if leb now t
    then pos ((t - now) / day)
    else let n = (now - t) / day in if n == 0 then pos 0 else negsuc (n - 1)
