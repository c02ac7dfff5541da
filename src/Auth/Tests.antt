-- ===== src/Auth/Tests.antt =====
-- Tokens, requests and users on small settings.
use tender_phase.Prelude.{String, true, false, none, some, [], ◌∷◌, ◌≡◌, ◌≢◌, refl, eq_iff}
use tender_phase.Prelude.Outcome.{returns, ◌>>=◌}
use tender_phase.Prelude.Text.{strip}
use tender_phase.Prelude.Decimal.{parse_int, scan}
use tender_phase.Auth.Parameters.{
  ops, admin, ConfiguredUser, Loaded, Libraries, IsLibraries, Settings, compare_digest, is_ascii,
}
use tender_phase.Auth.Tokens.{is_valid_admin_csrf_token, split_dots, signing_secret}
use tender_phase.Auth.Guards.{
  AuthenticatedUser, Credentials, Request, cookie_of, submitted, get_or_create_admin_csrf_token,
  require_admin_csrf, get_current_user, require_min_role, find_user, parse_configured_users,
  has_required_role,
}
use tender_phase.Auth.Owners.{IsSignedFor, is_valid_collision}
use tender_phase.Auth.Accepted.{require_admin_csrf-IsSignedFor}
use tender_phase.Auth.Rendered.{rendered_accepted}
use tender_phase.Auth.Entry.{IsEntitled, entry-IsEntitled}

abbrev ann : ConfiguredUser
ann = record { username = "ann"; password = "one"; role = admin }

-- One digest for all texts, and one configured user.
abbrev small : Libraries
small = record {
  hexdigest = λ key message. "0a";
  load_users = λ t. Loaded.users (ann ∷ []);
  parse_qs = λ body. [];
}

small-IsLibraries : IsLibraries small
small-IsLibraries = record { hex = λ key message. (refl, (refl, tt)); filled = λ key message. refl }

abbrev settings : Settings
settings = record {
  admin_auth_secret = "";
  admin_auth_dev_fallback_secret = "dev";
  auth_basic_users_json = "[…]";
}

abbrev signed_in : AuthenticatedUser
signed_in = record { username = "ann"; role = admin }

abbrev token : String
token = "100.n_1.0a"

abbrev form : Request
form = record { cookie = some token; header = some token; body = [] }

valid_token :
    (username : String) → is_valid_admin_csrf_token small "dev" token username 200 ≡ returns true
unfolding is_valid_admin_csrf_token split_dots parse_int strip scan compare_digest is_ascii
valid_token username = refl

abbrev bob : String
bob = "bob"

ann_not_bob : ann.username ≢ bob
ann_not_bob e = let equal : false ≡ true = (eq_iff ann.username bob).1 e in absurd (cc)

is_valid_collision_example :
    (p : String) × (q : String) × (p ≢ q) × (small.hexdigest "dev" p ≡ small.hexdigest "dev" q)
is_valid_collision_example =
    is_valid_collision small "dev" token "ann" "bob" 200 200 (refl, (refl, (refl, tt)))
      (refl, (refl, (refl, tt))) ann_not_bob (valid_token "ann") (valid_token "bob")

let_through : require_admin_csrf small settings "x" form signed_in 200 ≡ returns tt
unfolding require_admin_csrf is_valid_admin_csrf_token split_dots parse_int strip scan
    compare_digest is_ascii
let_through = refl

require_admin_csrf-IsSignedFor_example :
    (cookie_of form ≡ submitted small form)
    × IsSignedFor small (signing_secret settings "x") (cookie_of form) signed_in.username 200
require_admin_csrf-IsSignedFor_example =
    require_admin_csrf-IsSignedFor small settings "x" form signed_in 200 let_through

rendered_accepted_example :
    (t : String) × (get_or_create_admin_csrf_token small settings "x" form signed_in
        (record { auth_user = none; admin_csrf_token = none })
        50000
        "n_2"
      ≡ returns (t, record { auth_user = some signed_in; admin_csrf_token = some t }))
    × (require_admin_csrf small settings "x"
          (record { cookie = some t; header = some t; body = 1 ∷ [] })
          signed_in
          50000
        ≡ returns tt)
unfolding is_ascii strip
rendered_accepted_example =
    rendered_accepted small small-IsLibraries settings "x" form signed_in 50000 "n_2" (1 ∷ [])
      (refl, (refl, (refl, tt))) refl refl

abbrev given : Credentials
given = record { username = "ann"; password = "one" }

let_in :
    (get_current_user small settings "x" (some given) >>= require_min_role ops) ≡ returns signed_in
unfolding get_current_user require_min_role parse_configured_users find_user has_required_role
    compare_digest is_ascii strip
let_in = refl

entry-IsEntitled_example :
    IsEntitled
      (parse_configured_users small settings "x" settings.auth_basic_users_json)
      (some given)
      ops
      signed_in
entry-IsEntitled_example = entry-IsEntitled small settings "x" (some given) ops signed_in let_in
