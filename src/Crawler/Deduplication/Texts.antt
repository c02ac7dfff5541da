-- ===== src/Crawler/Deduplication/Texts.antt =====
-- `normalize_text` and what is made of it.
use Prim.Native.Char.{Char, code}
use Prim.Native.String.{String, [], ◌∷◌, ◌++◌}
use tender_phase.Prelude.{Bool, true, false, Option, none, some, str_eq, ◌==◌, if◌then◌else◌}
use tender_phase.Prelude.Text.{strip, is_space}
use tender_phase.Payloads.{JsonValue}
use tender_phase.Crawler.Python.{Python}
use tender_phase.Crawler.Items.{as_text}

-- `text or None`
unfoldable pub or_none : String → Option String
or_none s = if str_eq s "" then none else some s

-- `re.sub(r"\s+", " ", s)`; the flag tells whether a space has just been read.
unfoldable pub collapse : Bool → String → String
collapse after_space [] = []
collapse after_space (c ∷ s) =
    let rest_space = collapse true s in
    let rest = collapse false s in
    if is_space (code c)
    then (if after_space then rest_space else (" " ++ rest_space))
    else (c ∷ rest)

-- `re.sub(r"\s+", "", s)`
unfoldable pub drop_spaces : String → String
drop_spaces [] = []
drop_spaces (c ∷ s) = let rest = drop_spaces s in if is_space (code c) then rest else (c ∷ rest)

-- `_PUNCT_TRANSLATIONS`, by code points
abbrev pub translated : Char → String
translated c =
    let k = code c in
    if k == 0xff0c
    then ","
    else if k == 0x3002
    then "."
    else if k == 0xff1b
    then ";"
    else if k == 0xff1a
    then ":"
    else if k == 0xff08
    then "("
    else if k == 0xff09
    then ")"
    else if k == 0x3010
    then "["
    else if k == 0x3011
    then "]"
    else if k == 0x201c
    then "\""
    else if k == 0x201d
    then "\""
    else if k == 0x2018
    then "'"
    else if k == 0x2019
    then "'"
    else if k == 0x3001
    then ","
    else if k == 0xff0d
    then "-"
    else (c ∷ [])

-- `text.translate(_PUNCT_TRANSLATIONS)`
unfoldable pub translate : String → String
translate [] = []
translate (c ∷ s) = translated c ++ translate s

module _ (python : Python) where
  abbrev pub normal_form : Option String → Option String
  normal_form none = none
  normal_form (some t) = or_none (strip (collapse false (python.nfkc t)))

  unfoldable pub normalize_text : Option JsonValue → Option String
  normalize_text v = normal_form (as_text v)

  abbrev pub lowered : Option String → Option String
  lowered none = none
  lowered (some t) = some (python.lower t)

  -- `normalize_text(value, lowercase=True)`
  unfoldable pub normalize_lower : Option JsonValue → Option String
  normalize_lower v = lowered (normalize_text v)

  abbrev pub without_marks : Option String → Option String
  without_marks none = none
  without_marks (some t) = or_none (drop_spaces (translate t))

  unfoldable pub normalize_title : Option JsonValue → Option String
  normalize_title v = without_marks (normalize_lower v)

  unfoldable pub normalize_region : Option JsonValue → Option String
  normalize_region v = normalize_lower v

  unfoldable pub normalize_purchaser_or_publisher : Option JsonValue → Option String
  normalize_purchaser_or_publisher v = without_marks (normalize_lower v)
