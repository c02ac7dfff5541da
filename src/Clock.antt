-- ===== src/Clock.antt =====
-- Moments as the program keeps them: aware UTC datetimes at the resolution of a microsecond,
-- counted from 1970. `datetime.isoformat` is computed by the proleptic Gregorian calendar.
use Prim.Native.String.{◌++◌}
use tender_phase.Prelude.{ℕ, ◌+◌, ◌*◌, ◌-◌, ◌/◌, ◌%◌, String, ◌≡◌, refl, ltb, ◌==◌, if◌then◌else◌}
use tender_phase.Prelude.Decimal.{print_nat}

abbrev pub Time : Type 0
Time = ℕ

-- `timedelta(seconds=n)` and `timedelta(days=n)`
abbrev pub seconds : ℕ → Time
seconds n = n * 1000000

abbrev pub days : ℕ → Time
days n = n * 86400000000

pad2 : ℕ → String
pad2 n = if ltb n 10 then "0" ++ print_nat n else print_nat n

pad4 : ℕ → String
unfolding pad2
pad4 n =
    if ltb n 100 then "00" ++ pad2 n else if ltb n 1000 then "0" ++ print_nat n else print_nat n

pad6 : ℕ → String
unfolding pad4
pad6 n =
    if ltb n 10000 then "00" ++ pad4 n else if ltb n 100000 then "0" ++ print_nat n else print_nat n

-- The date of a day counted from 1970-01-01, by four-century eras that begin in March.
unfoldable pub iso_date : ℕ → String
unfolding pad2 pad4
iso_date day =
    let z = day + 719468 in
    let era = z / 146097 in
    let doe = z % 146097 in
    let yoe = (doe + doe / 36524 - doe / 1460 - doe / 146096) / 365 in
    let doy = doe + yoe / 100 - (365 * yoe + yoe / 4) in
    let mp = (5 * doy + 2) / 153 in
    let dom = doy + 1 - (153 * mp + 2) / 5 in
    let month = if ltb mp 10 then mp + 3 else mp - 9 in
    let year = yoe + era * 400 + (if ltb mp 10 then 0 else 1) in
    pad4 year ++ "-" ++ pad2 month ++ "-" ++ pad2 dom

unfoldable pub isoformat : Time → String
unfolding iso_date pad2 pad6 print_nat
isoformat t =
    let s = t / 1000000 in
    let us = t % 1000000 in
    let clock = s % 86400 in
    iso_date (s / 86400)
    ++ "T"
    ++ pad2 (clock / 3600)
    ++ ":"
    ++ pad2 (clock / 60 % 60)
    ++ ":"
    ++ pad2 (clock % 60)
    ++ (if us == 0 then "" else "." ++ pad6 us)
    ++ "+00:00"

leap_day : isoformat (seconds 1709209845 + 1500) ≡ "2024-02-29T12:30:45.001500+00:00"
unfolding isoformat
leap_day = refl
