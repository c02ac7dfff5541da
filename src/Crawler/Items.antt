-- ===== src/Crawler/Items.antt =====
-- The items that a spider yields, and the readers of their values that the writers share.
use Prim.Native.Char.{code}
use Prim.Native.String.{String, [], ◌∷◌, ◌++◌}
use tender_phase.Prelude.{
  ℕ, ◌+◌, Bool, true, false, not, ◌&&◌, ◌||◌, Option, none, some, List, str_eq, leb, ◌==◌,
  if◌then◌else◌, or_else, or_option,
}
use tender_phase.Prelude.Integers.{ℤ, pos, negsuc}
use tender_phase.Prelude.Text.{strip, as_str}
use tender_phase.Prelude.Decimal.{parse_int}
use tender_phase.Clock.{Time}
use tender_phase.Payloads.{JsonValue, null, bool, int, text, other, Payload, get, str_of}
use tender_phase.Crawler.Python.{Python}

-- A dict of plain values; of its two values that may be dicts themselves, what is one.
pub record Item : Type 0 where
  pub fields : Payload
  pub extra_meta : Option Payload
  pub structured_data : Option Payload

-- `bool(value)`; of a float or a container, by the texts that the empty ones have.
unfoldable pub is_true : JsonValue → Bool
is_true null = false
is_true (bool b) = b
is_true (int (pos n)) = not (n == 0)
is_true (int (negsuc n)) = true
is_true (text s) = not (str_eq s "")
is_true (other s) = not (str_eq s "0.0" || str_eq s "-0.0" || str_eq s "[]" || str_eq s "{}")

-- `a or b`
unfoldable pub or_value : Option JsonValue → Option JsonValue → Option JsonValue
or_value none b = b
or_value (some v) b = if is_true v then some v else b

-- `_as_str`
unfoldable pub as_text : Option JsonValue → Option String
as_text none = none
as_text (some null) = none
as_text (some v) = as_str (some (str_of v))

-- `_as_int`
unfoldable pub as_int : Option JsonValue → Option ℤ
as_int none = none
as_int (some null) = none
as_int (some v) = parse_int (strip (str_of v))

abbrev pub value_of : String → Item → Option JsonValue
value_of key i = get key i.fields

abbrev pub text_of : String → Item → Option String
text_of key i = as_text (value_of key i)

abbrev pub int_of : String → Item → Option ℤ
int_of key i = as_int (value_of key i)

-- `_non_negative_int`
unfoldable pub non_negative_int : Option JsonValue → ℤ
non_negative_int v = elim (as_int v) [
  | none ↦ pos 0
  | some n ↦ elim n [ pos k ↦ pos k | negsuc k ↦ pos 0 ]
]

-- `str.lower` on the letters A to Z
unfoldable pub lower_ascii : String → List ℕ
lower_ascii String.[] = List.[]
lower_ascii (c ∷ s) =
    let k = code c in List.◌∷◌ (if leb 65 k && leb k 90 then k + 32 else k) (lower_ascii s)

abbrev pub codes_eq : List ℕ → String → Bool
codes_eq List.[] String.[] = true
codes_eq List.[] (c ∷ t) = false
codes_eq (List.◌∷◌ k ks) String.[] = false
codes_eq (List.◌∷◌ k ks) (c ∷ t) = k == code c && codes_eq ks t

-- `_as_bool`; the words that are tested have no letter that another than A to Z gives
unfoldable pub as_bool : Option JsonValue → Bool → Bool
as_bool none default = default
as_bool (some null) default = default
as_bool (some v) default =
    let t = lower_ascii (strip (str_of v)) in
    if codes_eq t "1" || codes_eq t "true" || codes_eq t "yes" || codes_eq t "y"
    then true
    else if codes_eq t "0" || codes_eq t "false" || codes_eq t "no" || codes_eq t "n"
    then false
    else default

-- `s.replace(c, t)`, for one character
unfoldable pub replace_char : ℕ → String → String → String
replace_char k t [] = []
replace_char k t (c ∷ s) =
    let rest = replace_char k t s in if code c == k then t ++ rest else (c ∷ rest)

module _ (python : Python) where
  try_formats : List String → String → Option Time
  try_formats List.[] t = none
  try_formats (List.◌∷◌ f fs) t = or_option (python.strptime t f) (try_formats fs t)

  -- `_as_datetime`
  unfoldable pub as_datetime : Option JsonValue → Option Time
  unfolding try_formats
  as_datetime none = none
  as_datetime (some null) = none
  as_datetime (some v) =
      let t = strip (str_of v) in
      if str_eq t ""
      then none
      else or_option (python.fromisoformat (replace_char b'Z' "+00:00" t)) (
          try_formats
            (List.◌∷◌ "%Y-%m-%d %H:%M:%S"
              (List.◌∷◌ "%Y-%m-%d %H:%M" (List.◌∷◌ "%Y-%m-%d" (List.◌∷◌ "%Y%m%d" List.[]))))
            t)

  -- `_as_decimal`
  unfoldable pub as_decimal : Option JsonValue → Option String
  as_decimal none = none
  as_decimal (some null) = none
  as_decimal (some v) =
      let t = replace_char b',' "" (strip (str_of v)) in
      if str_eq t "" then none else python.decimal t

  base_of : Option String → Option String
  base_of none = none
  base_of (some url) =
      let parts = python.urlsplit url in
      if str_eq parts.scheme "" || str_eq parts.netloc ""
      then none
      else some (parts.scheme ++ "://" ++ parts.netloc)

  -- `_guess_base_url`
  unfoldable pub guess_base_url : Item → String
  unfolding base_of
  guess_base_url i =
      or_else
        (or_option (base_of (text_of "source_site_url" i)) (
          or_option (base_of (text_of "detail_page_url" i)) (
            or_option (base_of (text_of "source_url" i))
              (or_option (base_of (text_of "url" i)) (base_of (text_of "file_url" i))))))
        "https://example.com"
