-- ===== src/Auth/Parameters.antt =====
-- What app/core/auth.py takes from libraries and settings, and `secrets.compare_digest`.
use Prim.Native.Char.{code}
use tender_phase.Prelude.{
  ℕ, String, Bool, true, false, ◌&&◌, ◌||◌, List, ◌≡◌, str_eq, leb, if◌then◌else◌,
}
use tender_phase.Prelude.Outcome.{Outcome, returns, raises}

pub data UserRole : Type 0 where
  viewer : UserRole
  ops : UserRole
  admin : UserRole

-- `_ConfiguredAuthUser`
pub record ConfiguredUser : Type 0 where
  pub username : String
  pub password : String
  pub role : UserRole

-- `json.loads` and `model_validate` on AUTH_BASIC_USERS_JSON
pub data Loaded : Type 0 where
  not_json : Loaded
  not_list : Loaded
  not_users : Loaded
  users : List ConfiguredUser → Loaded

-- `hmac.new(key, message, sha256).hexdigest()` on texts in UTF-8, and `parse_qs` on a body
pub record Libraries : Type 0 where
  pub hexdigest : (key message : String) → String
  pub load_users : String → Loaded
  pub parse_qs : List ℕ → List (String × List String)

-- Every character of a text passes a test.
abbrev pub Every : (ℕ → Bool) → String → Type 0
Every test String.[] = Unit
Every test (String.◌∷◌ c s) = (test (code c) ≡ true) × Every test s

abbrev pub is_hex : ℕ → Bool
is_hex c = (leb 48 c && leb c 57) || (leb 97 c && leb c 102)

-- A digest is a text of hexadecimal digits, and not an empty one.
pub record IsLibraries (l : Libraries) : Type 0 where
  pub hex : (key message : String) → Every is_hex (l.hexdigest key message)
  pub filled : (key message : String) → str_eq (l.hexdigest key message) "" ≡ false

pub record Settings : Type 0 where
  pub admin_auth_secret : String
  pub admin_auth_dev_fallback_secret : String
  pub auth_basic_users_json : String

-- `CsrfValidationError`, `HTTPException`, and the `TypeError` of `compare_digest`
pub data AuthError : Type 0 where
  csrf_validation : String → AuthError
  http : ℕ → String → AuthError
  type_error : AuthError

unfoldable pub is_ascii : String → Bool
is_ascii String.[] = true
is_ascii (String.◌∷◌ c s) = leb (code c) 127 && is_ascii s

-- `secrets.compare_digest` takes texts in ASCII only.
unfoldable pub compare_digest : String → String → Outcome AuthError Bool
compare_digest a b =
    if is_ascii a && is_ascii b then returns (str_eq a b) else raises AuthError.type_error
