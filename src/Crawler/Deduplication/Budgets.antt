-- ===== src/Crawler/Deduplication/Budgets.antt =====
-- `normalize_budget_bucket`: amounts to the nearest thousand. `Decimal` computes exactly here, as it
-- does in Python for amounts of at most 28 digits.
use Prim.Native.Char.{code}
use Prim.Native.Nat.{◌^◌}
use Prim.Native.String.{String, [], ◌∷◌}
use tender_phase.Prelude.{
  ℕ, suc, ◌+◌, ◌-◌, ◌*◌, ◌/◌, Bool, true, false, Option, none, some, ◌==◌, if◌then◌else◌, or_option,
}
use tender_phase.Prelude.Integers.{ℤ, pos}
use tender_phase.Prelude.Search.{contains}
use tender_phase.Prelude.Decimal.{is_digit, negate, print_int}
use tender_phase.Payloads.{JsonValue}
use tender_phase.Crawler.Python.{Python}
use tender_phase.Crawler.Items.{replace_char}
use tender_phase.Crawler.Deduplication.Texts.{normalize_text}

-- The digits that a text starts with: the number that they make after `acc`, how many, the rest.
unfoldable pub take_digits : (acc taken : ℕ) → String → ℕ × ℕ × String
take_digits acc taken [] = (acc, taken, [])
take_digits acc taken (c ∷ s) =
    let more = take_digits (acc * 10 + (code c - 48)) (suc taken) s in
    if is_digit (code c) then more else (acc, taken, c ∷ s)

-- A number in decimal notation: its digits, and how many of them follow the point.
pub record Amount : Type 0 where
  pub negative : Bool
  pub digits : ℕ
  pub scale : ℕ

abbrev pub with_fraction : Bool → ℕ → String → Amount
with_fraction negative n [] = record { negative = negative; digits = n; scale = 0 }
with_fraction negative n (c ∷ s) =
    let (digits, scale, rest) = take_digits n 0 s in
    if code c == b'.'
    then record { negative = negative; digits = digits; scale = scale }
    else record { negative = negative; digits = n; scale = 0 }

abbrev pub unsigned_at : Bool → String → Option Amount
unsigned_at negative s =
    let (n, taken, rest) = take_digits 0 0 s in
    if taken == 0 then none else some (with_fraction negative n rest)

abbrev pub amount_at : String → Option Amount
amount_at [] = none
amount_at (c ∷ s) = if code c == b'-' then unsigned_at true s else unsigned_at false (c ∷ s)

-- `re.search(r"-?[0-9]+(?:\.[0-9]+)?", s)`
unfoldable pub find_amount : String → Option Amount
find_amount [] = none
find_amount (c ∷ s) = or_option (amount_at (c ∷ s)) (find_amount s)

-- `"万元" in s or "万" in s`
abbrev pub unit_multiplier : String → ℕ
unit_multiplier s = if contains (λ c. c) s "万" then 10000 else 1

-- The magnitude of the amount by the thousand, half of one rounded up.
unfoldable pub bucket_steps : (multiplier : ℕ) → Amount → ℕ
bucket_steps multiplier a =
    (2 * (a.digits * multiplier) + 1000 * 10 ^ a.scale) / (2 * (1000 * 10 ^ a.scale))

abbrev pub bucket_value : ℕ → Amount → ℤ
bucket_value multiplier a =
    let n = bucket_steps multiplier a * 1000 in if a.negative then negate n else pos n

abbrev pub bucket_text : ℕ → Option Amount → Option String
bucket_text multiplier none = none
bucket_text multiplier (some a) = some (print_int (bucket_value multiplier a))

abbrev pub bucket_of : Option String → Option String
bucket_of none = none
bucket_of (some t) = bucket_text (unit_multiplier t) (find_amount (replace_char b',' "" t))

module _ (python : Python) where
  unfoldable pub normalize_budget_bucket : Option JsonValue → Option String
  normalize_budget_bucket v = bucket_of (normalize_text python v)
