-- ===== src/Auth/Guards.antt =====
-- The dependencies of the routes: `get_current_user`, `require_min_role`, `require_admin_csrf`, and
-- the token that a page is given.
use Prim.Native.String.{◌++◌}
use tender_phase.Prelude.{
  ℕ, String, Bool, ◌&&◌, Option, none, some, List, [], ◌∷◌, str_eq, leb, if◌then◌else◌, or_else,
}
use tender_phase.Prelude.Outcome.{Outcome, returns, raises, ◌>>=◌}
use tender_phase.Prelude.Text.{strip}
use tender_phase.Auth.Parameters.{
  UserRole, viewer, ops, admin, ConfiguredUser, Loaded, Libraries, Settings, AuthError,
  compare_digest,
}
use tender_phase.Auth.Tokens.{signing_secret, build_admin_csrf_token, is_valid_admin_csrf_token}

pub record AuthenticatedUser : Type 0 where
  pub username : String
  pub role : UserRole

pub record Credentials : Type 0 where
  pub username : String
  pub password : String

-- What a request brings: the cookie and the header of the token, and its body.
pub record Request : Type 0 where
  pub cookie : Option String
  pub header : Option String
  pub body : List ℕ

-- `request.state`
pub record RequestState : Type 0 where
  pub auth_user : Option AuthenticatedUser
  pub admin_csrf_token : Option String

-- `_ROLE_LEVELS`
abbrev pub role_level : UserRole → ℕ
role_level viewer = 1
role_level ops = 2
role_level admin = 3

abbrev pub role_text : UserRole → String
role_text viewer = "viewer"
role_text ops = "ops"
role_text admin = "admin"

unfoldable pub has_required_role : (user_role required_role : UserRole) → Bool
has_required_role user_role required_role = leb (role_level required_role) (role_level user_role)

unfoldable pub require_min_role :
    (required_role : UserRole) → AuthenticatedUser → Outcome AuthError AuthenticatedUser
require_min_role required_role user =
    if has_required_role user.role required_role
    then returns user
    else raises (AuthError.http 403 (role_text required_role ++ " role required"))

-- `_unauthorized`
abbrev pub unauthorized : String → AuthError
unauthorized detail = AuthError.http 401 detail

-- The loop of `get_current_user` over the configured users.
unfoldable pub find_user : List ConfiguredUser → Credentials → Outcome AuthError AuthenticatedUser
find_user [] c = raises (unauthorized "invalid credentials")
find_user (u ∷ us) c =
    let rest = find_user us c in
    compare_digest u.username c.username >>= λ username_matches.
    compare_digest u.password c.password >>= λ password_matches.
    if username_matches && password_matches
    then returns (record { username = u.username; role = u.role })
    else rest

abbrev loaded_users : Loaded → Outcome String (List ConfiguredUser)
loaded_users Loaded.not_json = raises "AUTH_BASIC_USERS_JSON 配置无效，必须是 JSON 数组"
loaded_users Loaded.not_list = raises "AUTH_BASIC_USERS_JSON 配置无效，必须是 JSON 数组"
loaded_users Loaded.not_users = raises "AUTH_BASIC_USERS_JSON 配置无效，必须包含 username/password/role"
loaded_users (Loaded.users us) = returns us

abbrev pub first_of : List String → String
first_of [] = ""
first_of (s ∷ rest) = s

-- `(form_data.get(field) or [""])[0]`
abbrev pub form_value : String → List (String × List String) → String
form_value field [] = ""
form_value field ((key, values) ∷ rest) =
    let later = form_value field rest in if str_eq key field then first_of values else later

abbrev pub cookie_of : Request → String
cookie_of request = strip (or_else request.cookie "")

abbrev pub reused_or_new : (cookie new : String) → Bool → String
reused_or_new cookie new valid = if valid then cookie else new

abbrev pub refuse_unless : Bool → String → Outcome AuthError (Unit {0})
refuse_unless ok message = if ok then returns tt else raises (AuthError.csrf_validation message)

module _ (libraries : Libraries) where
  -- The token that is submitted: in the header, or else in a field of the form.
  abbrev pub submitted : Request → String
  submitted request =
      let in_header = strip (or_else request.header "") in
      let in_form = strip (form_value "csrf_token" (libraries.parse_qs request.body)) in
      let in_body : String = elim request.body [ [] ↦ "" | _ ∷ _ ↦ in_form ] in
      if str_eq in_header "" then in_body else in_header

module _ (libraries : Libraries) (settings : Settings) (ephemeral : String) where
  -- `_parse_configured_users`; a `RuntimeError` is its message.
  unfoldable pub parse_configured_users : String → Outcome String (List ConfiguredUser)
  parse_configured_users raw_value =
      let t = strip raw_value in
      if str_eq t "" then returns [] else loaded_users (libraries.load_users t)

  abbrev pub among :
      Credentials → Outcome String (List ConfiguredUser) → Outcome AuthError AuthenticatedUser
  among c (raises message) = raises (AuthError.http 503 message)
  among c (returns []) = raises (unauthorized "authentication required")
  among c (returns (u ∷ us)) = find_user (u ∷ us) c

  unfoldable pub get_current_user : Option Credentials → Outcome AuthError AuthenticatedUser
  get_current_user none = raises (unauthorized "authentication required")
  get_current_user (some c) = among c (parse_configured_users settings.auth_basic_users_json)

  abbrev pub secret : String
  secret = signing_secret settings ephemeral

  -- The cookie's token, if it is valid, or a new one.
  abbrev pub token_for :
      (username cookie : String) → (now : ℕ) → (random : String) → Outcome AuthError String
  token_for username cookie now random =
      let new = build_admin_csrf_token libraries secret username none none now random in
      if str_eq cookie ""
      then returns new
      else is_valid_admin_csrf_token libraries secret cookie username now >>= λ valid.
          returns (reused_or_new cookie new valid)

  abbrev pub made_token :
      (user : AuthenticatedUser)
      → Outcome AuthError String
      → Outcome AuthError (String × RequestState)
  made_token user m = m >>= λ token.
      returns (token, record { auth_user = some user; admin_csrf_token = some token })

  abbrev pub cached_or :
      RequestState
      → Outcome AuthError (String × RequestState)
      → Option String
      → Outcome AuthError (String × RequestState)
  cached_or state made none = made
  cached_or state made (some t) = if str_eq t "" then made else returns (t, state)

  unfoldable pub get_or_create_admin_csrf_token :
      Request
      → AuthenticatedUser
      → RequestState
      → (now : ℕ) → (random : String) → Outcome AuthError (String × RequestState)
  get_or_create_admin_csrf_token request user state now random =
      cached_or state (made_token user (token_for user.username (cookie_of request) now random))
        state.admin_csrf_token

  abbrev pub check_tokens :
      (username cookie token : String) → (now : ℕ) → Outcome AuthError (Unit {0})
  check_tokens username cookie token now = compare_digest cookie token >>= λ same.
      refuse_unless same "CSRF Token 不匹配，请刷新页面后重试。" >>= λ _.
      is_valid_admin_csrf_token libraries secret cookie username now >>= λ valid.
      refuse_unless valid "CSRF Token 无效或已过期，请刷新页面后重试。"

  unfoldable pub require_admin_csrf :
      Request → AuthenticatedUser → (now : ℕ) → Outcome AuthError (Unit {0})
  require_admin_csrf request user now =
      if str_eq (cookie_of request) ""
      then raises (AuthError.csrf_validation "缺少 CSRF Cookie，请刷新页面后重试。")
      else if str_eq (submitted libraries request) ""
      then raises (AuthError.csrf_validation "缺少 CSRF Token，请刷新页面后重试。")
      else check_tokens user.username (cookie_of request) (submitted libraries request) now
