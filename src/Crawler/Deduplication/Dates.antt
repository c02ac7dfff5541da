-- ===== src/Crawler/Deduplication/Dates.antt =====
-- `parse_datetime_like` and `normalize_published_date`.
use Prim.Native.Char.{code}
use Prim.Native.String.{String, [], ◌∷◌}
use tender_phase.Prelude.{
  ℕ, ◌+◌, ◌-◌, ◌*◌, ◌/◌, ◌||◌, Option, none, some, List, ◌==◌, if◌then◌else◌, or_option,
}
use tender_phase.Prelude.Decimal.{is_digit}
use tender_phase.Clock.{Time, iso_date}
use tender_phase.Payloads.{JsonValue}
use tender_phase.Crawler.Python.{Python}
use tender_phase.Crawler.Items.{replace_char}
use tender_phase.Crawler.Deduplication.Texts.{normalize_text}

-- One digit at the start of a text, after the number that those before it make.
abbrev pub digit_at : ℕ → String → Option (ℕ × String)
digit_at acc [] = none
digit_at acc (c ∷ s) = if is_digit (code c) then some (acc * 10 + (code c - 48), s) else none

abbrev pub then_do : {A B : Type 0} → Option A → (A → Option B) → Option B
then_do none f = none
then_do (some a) f = f a

-- `[0-9]{4}`
unfoldable pub four_digits : String → Option (ℕ × String)
four_digits s = then_do (digit_at 0 s) (λ r1.
    then_do (digit_at r1.0 r1.1) (λ r2. then_do (digit_at r2.0 r2.1) (λ r3. digit_at r3.0 r3.1)))

-- `[0-9]{1,2}`
unfoldable pub two_digits : String → Option (ℕ × String)
two_digits s = then_do (digit_at 0 s) (λ r. or_option (digit_at r.0 r.1) (some r))

-- `[-/年]` and `[-/月]`, the Chinese character by its code point
unfoldable pub separator : ℕ → String → Option String
separator k [] = none
separator k (c ∷ s) = if code c == b'-' || code c == b'/' || code c == k then some s else none

-- The date that a text starts with, in the form of the pattern.
unfoldable pub date_at : String → Option (ℕ × ℕ × ℕ)
date_at s = then_do (four_digits s) (λ y. then_do (separator 0x5e74 y.1) (λ s1.
    then_do (two_digits s1) (λ m.
      then_do (separator 0x6708 m.1) (λ s2. then_do (two_digits s2) (λ d. some (y.0, m.0, d.0))))))

-- `re.search`
unfoldable pub find_date : String → Option (ℕ × ℕ × ℕ)
find_date [] = none
find_date (c ∷ s) = or_option (date_at (c ∷ s)) (find_date s)

module _ (python : Python) where
  unfoldable pub first_format : List String → String → Option Time
  first_format List.[] t = none
  first_format (List.◌∷◌ f fs) t = or_option (python.strptime t f) (first_format fs t)

  abbrev pub date_formats : List String
  date_formats = List.◌∷◌ "%Y-%m-%d %H:%M:%S" (
      List.◌∷◌ "%Y-%m-%d %H:%M" (
        List.◌∷◌ "%Y/%m/%d %H:%M:%S" (
          List.◌∷◌ "%Y/%m/%d %H:%M" (
            List.◌∷◌ "%Y-%m-%d" (
              List.◌∷◌ "%Y/%m/%d" (
                List.◌∷◌ "%Y%m%d" (
                  List.◌∷◌ "%Y年%m月%d日 %H点%M分"
                    (List.◌∷◌ "%Y年%m月%d日%H点%M分" (List.◌∷◌ "%Y年%m月%d日" List.[])))))))))

  -- A datetime is read from the text that `str` gives.
  unfoldable pub parse_datetime_like : Option JsonValue → Option Time
  parse_datetime_like v = then_do (normalize_text python v) (λ t.
      or_option (python.fromisoformat (replace_char b'Z' "+00:00" t)) (first_format date_formats t))

  abbrev pub day_of : Time → String
  day_of t = iso_date (t / 86400000000)

  unfoldable pub normalize_published_date : Option JsonValue → Option String
  normalize_published_date v = elim (parse_datetime_like v) [
    | some t ↦ some (day_of t)
    | none ↦
        then_do (normalize_text python v)
          (λ t. then_do (find_date t) (λ d. some (day_of (python.utc_date d.0 d.1 d.2))))
  ]
