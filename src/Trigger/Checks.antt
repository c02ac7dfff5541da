-- ===== src/Trigger/Checks.antt =====
-- The checks of what goes into the command line of a worker or a spider.
use Prim.Native.Char.{code}
use Prim.Native.String.{◌++◌}
use tender_phase.Prelude.{
  ℕ, zero, suc, String, Bool, true, false, not, ◌&&◌, ◌||◌, List, [], ◌∷◌, str_eq, leb, ltb, ◌==◌,
  length, if◌then◌else◌,
}
use tender_phase.Prelude.Text.{strip}
use tender_phase.Prelude.Outcome.{Outcome, returns, raises, ◌>>=◌}
use tender_phase.Adapters.{is_one_of}

-- The errors of the checks; the label says which value was refused.
pub data CheckError : Type 0 where
  is_empty : String → CheckError
  control_characters : String → CheckError
  unsupported_characters : String → CheckError
  unsupported_job_type : String → CheckError
  unsupported_arg_key : String → CheckError
  arg_not_allowed : String → CheckError
  incomplete_command : String → CheckError
  executable_not_absolute : CheckError
  unexpected_prefix : String → CheckError
  max_pages_too_small : CheckError
  backfill_year_too_small : CheckError

-- `str(exc)`
abbrev pub check_text : CheckError → String
check_text (is_empty label) = label ++ " must not be empty"
check_text (control_characters label) = label ++ " contains unsupported control characters"
check_text (unsupported_characters label) = label ++ " contains unsupported characters"
check_text (unsupported_job_type s) = "unsupported job_type for subprocess dispatch: " ++ s
check_text (unsupported_arg_key s) = "unsupported spider arg key: " ++ s
check_text (arg_not_allowed s) = "spider arg is not allowed for subprocess dispatch: " ++ s
check_text (incomplete_command label) = label ++ " command is incomplete"
check_text executable_not_absolute = "python executable must be absolute"
check_text (unexpected_prefix label) = "unexpected " ++ (label ++ " command prefix")
check_text max_pages_too_small = "max_pages must be >= 1"
check_text backfill_year_too_small = "backfill_year must be >= 2000"

abbrev pub Checked : Type 0 → Type 0
Checked A = Outcome CheckError A

-- `all(test(c) for c in s)`, on code points
abbrev pub every_char : (ℕ → Bool) → String → Bool
every_char test String.[] = true
every_char test (String.◌∷◌ c s) = test (code c) && every_char test s

-- Not one of NUL, carriage return and newline.
abbrev pub is_plain : ℕ → Bool
is_plain c = not (c == 0 || c == 10 || c == 13)

abbrev pub is_lower : ℕ → Bool
is_lower c = leb 97 c && leb c 122

-- `[a-z0-9_]`
abbrev pub is_word : ℕ → Bool
is_word c = is_lower c || (leb 48 c && leb c 57) || c == 95

unfoldable pub validate_fragment : String → String → Checked String
validate_fragment value label =
    let text = strip value in
    if str_eq text ""
    then raises (is_empty label)
    else if not (every_char is_plain text)
    then raises (control_characters label)
    else returns text

unfoldable pub validate_database_url : String → Checked String
validate_database_url url = validate_fragment url "database_url"

-- `^[a-z0-9_]+$`, on a text that is not empty
unfoldable pub validate_source_code : String → Checked String
validate_source_code source_code = do
  normalized ← validate_fragment source_code "source_code"
  if every_char is_word normalized
      then returns normalized
      else raises (unsupported_characters "source_code")

abbrev pub allowed_job_types : List String
allowed_job_types = "manual" ∷ "scheduled" ∷ "backfill" ∷ "manual_retry" ∷ []

unfoldable pub validate_job_type : String → Checked String
validate_job_type job_type = do
  normalized ← validate_fragment job_type "job_type"
  if is_one_of normalized allowed_job_types
      then returns normalized
      else raises (unsupported_job_type normalized)

-- `^[a-z][a-z0-9_]*$`
abbrev pub is_identifier : String → Bool
is_identifier String.[] = false
is_identifier (String.◌∷◌ c s) = is_lower (code c) && every_char is_word s

unfoldable pub validate_spider_name : String → Checked String
validate_spider_name spider = do
  normalized ← validate_fragment spider "spider"
  if is_identifier normalized then returns normalized else raises (unsupported_characters "spider")

abbrev pub allowed_spider_arg_keys : List String
allowed_spider_arg_keys = "job_type" ∷ "max_pages" ∷ "backfill_year" ∷ []

-- One round of the loop over the arguments.
unfoldable pub validate_spider_arg : String → String → Checked String
validate_spider_arg key value = do
  normalized_key ← validate_fragment key "spider arg key"
  if not (is_identifier normalized_key)
      then raises (unsupported_arg_key normalized_key)
      else if not (is_one_of normalized_key allowed_spider_arg_keys)
      then raises (arg_not_allowed normalized_key)
      else validate_fragment value ("spider arg value[" ++ (normalized_key ++ "]"))

unfoldable pub validate_spider_args : List (String × String) → Checked (Unit {0})
validate_spider_args [] = returns tt
validate_spider_args ((key, value) ∷ args) = do
  checked ← validate_spider_arg key value
  validate_spider_args args

unfoldable pub validate_all : String → List String → Checked (Unit {0})
validate_all label [] = returns tt
validate_all label (argument ∷ arguments) = do
  checked ← validate_fragment argument label
  validate_all label arguments

-- `Path(text).is_absolute()` on a POSIX system
abbrev pub is_absolute : String → Bool
is_absolute String.[] = false
is_absolute (String.◌∷◌ c s) = code c == 47

abbrev pub starts_with : List String → List String → Bool
starts_with [] arguments = true
starts_with (p ∷ ps) [] = false
starts_with (p ∷ ps) (a ∷ as_given) = str_eq p a && starts_with ps as_given

abbrev pub without : ℕ → List String → List String
without zero arguments = arguments
without (suc n) [] = []
without (suc n) (a ∷ arguments) = without n arguments

abbrev pub validate_executable : List String → Checked (Unit {0})
validate_executable [] = raises (incomplete_command "")
validate_executable (executable ∷ arguments) = do
  path ← validate_fragment executable "python executable"
  if is_absolute path then returns tt else raises executable_not_absolute

-- A command has at least `least` parts, its first is an absolute path, the next are `prefix`, and
-- all after the first `kept` parts are plain texts.
unfoldable pub validate_command : ℕ → List String → ℕ → String → List String → Checked (Unit {0})
validate_command least prefix kept label command =
    if ltb (length command) least then raises (incomplete_command label) else (do
      absolute ← validate_executable command
      if not (starts_with prefix (without 1 command))
          then raises (unexpected_prefix label)
          else validate_all (label ++ " argv") (without kept command))

unfoldable pub validate_scrapy_command : List String → Checked (Unit {0})
validate_scrapy_command = validate_command 6 ("-m" ∷ "scrapy" ∷ "crawl" ∷ []) 1 "scrapy"

unfoldable pub validate_worker_command : List String → Checked (Unit {0})
validate_worker_command = validate_command 8 ("-m" ∷ "app.run_crawl_job" ∷ []) 3 "worker"
