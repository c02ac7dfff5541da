-- ===== src/Prelude/Decimal.antt =====
-- Python's `str` and `int` on decimal numbers. Digits outside ASCII are not read.
pub mod RoundTrip
use Prim.Native.Char.{Char, code}
use Prim.Native.String
use tender_phase.Prelude.{
  ℕ, zero, suc, ◌+◌, ◌*◌, ◌-◌, ◌/◌, ◌%◌, String, Bool, true, false, ◌&&◌, Option, none, some, ◌≡◌,
  refl, leb, ◌==◌, if◌then◌else◌,
}
use tender_phase.Prelude.Integers.{ℤ, pos, negsuc}

unfoldable pub digit_char : ℕ → Char
digit_char d =
    if d == 0
    then "0"
    else if d == 1
    then "1"
    else if d == 2
    then "2"
    else if d == 3
    then "3"
    else if d == 4
    then "4"
    else if d == 5
    then "5"
    else if d == 6
    then "6"
    else if d == 7
    then "7"
    else if d == 8
    then "8"
    else "9"

-- The digits of `n` before `out`; a number has fewer digits than its successor counts.
unfoldable pub digits : ℕ → ℕ → String → String
unfolding digit_char
digits zero n out = out
digits (suc fuel) n out =
    let c = digit_char (n % 10) in
    let rest = digits fuel (n / 10) (String.◌∷◌ c out) in
    if n / 10 == 0 then (String.◌∷◌ c out) else rest

unfoldable pub print_nat : ℕ → String
unfolding digits
print_nat n = digits (suc n) n ""

-- `str(n)`
unfoldable pub print_int : ℤ → String
unfolding print_nat
print_int (pos n) = print_nat n
print_int (negsuc n) = String.◌∷◌ "-" (print_nat (suc n))

abbrev pub is_digit : ℕ → Bool
is_digit c = leb 48 c && leb c 57

-- Digits with single underscores between them; `after_digit` tells whether one may end here.
unfoldable pub scan : ℕ → Bool → String → Option ℕ
scan acc after_digit String.[] = if after_digit then some acc else none
scan acc after_digit (String.◌∷◌ c s) =
    let next = code c in
    let more = scan (acc * 10 + (next - 48)) true s in
    let skipped = scan acc false s in
    if is_digit next then more else if next == 95 && after_digit then skipped else none

abbrev pub negate : ℕ → ℤ
negate zero = pos zero
negate (suc n) = negsuc n

-- `int(s)` for a text with no space at its ends; `none` stands for `ValueError`.
unfoldable pub parse_int : String → Option ℤ
parse_int String.[] = none
parse_int (String.◌∷◌ c s) =
    if code c == 45
    then elim (scan 0 false s) [ none ↦ none | some n ↦ some (negate n) ]
    else if code c == 43
    then elim (scan 0 false s) [ none ↦ none | some n ↦ some (pos n) ]
    else elim (scan 0 false (String.◌∷◌ c s)) [ none ↦ none | some n ↦ some (pos n) ]

print_year : print_int (pos 2026) ≡ "2026"
unfolding print_int
print_year = refl

parse_samples : (parse_int "-1_0" ≡ some (negsuc 9)) × (parse_int "1__0" ≡ none)
unfolding parse_int scan
parse_samples = (refl, refl)
