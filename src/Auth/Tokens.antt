-- ===== src/Auth/Tokens.antt =====
-- The tokens: `build_admin_csrf_token` and `_is_valid_admin_csrf_token`.
use Prim.Native.Char.{Char, code}
use Prim.Native.String.{◌++◌}
use tender_phase.Prelude.{
  ℕ, zero, suc, ◌+◌, ◌*◌, String, Bool, false, ◌&&◌, ◌||◌, Option, none, some, List, [], ◌∷◌,
  str_eq, leb, ◌==◌, if◌then◌else◌,
}
use tender_phase.Prelude.Integers.{ℤ, pos, negsuc}
use tender_phase.Prelude.Outcome.{Outcome, returns}
use tender_phase.Prelude.Text.{strip}
use tender_phase.Prelude.Decimal.{print_int, parse_int}
use tender_phase.Auth.Parameters.{Libraries, Settings, AuthError, compare_digest}

abbrev pub ttl_seconds : ℕ
ttl_seconds = 12 * 60 * 60

-- `a or b` on texts
abbrev pub or_text : String → String → String
or_text a b = if str_eq a "" then b else a

-- `_admin_csrf_signing_secret`; the last secret is the one that the process has made for itself.
abbrev pub signing_secret : Settings → (ephemeral : String) → String
signing_secret s ephemeral =
    or_text s.admin_auth_secret (or_text s.admin_auth_dev_fallback_secret ephemeral)

abbrev pub payload : (username : String) → (issued_at : ℤ) → (nonce : String) → String
payload username issued_at nonce = username ++ ":" ++ print_int issued_at ++ ":" ++ nonce

-- `int(issued_at or time.time())`
abbrev pub issued_or_now : Option ℤ → (now : ℕ) → ℤ
issued_or_now none now = pos now
issued_or_now (some (pos zero)) now = pos now
issued_or_now (some (pos (suc n))) now = pos (suc n)
issued_or_now (some (negsuc n)) now = negsuc n

abbrev pub nonce_or : Option String → (random : String) → String
nonce_or none random = random
nonce_or (some n) random = or_text n random

abbrev pub add_first : Char → List String → List String
add_first c [] = String.◌∷◌ c "" ∷ []
add_first c (s ∷ rest) = String.◌∷◌ c s ∷ rest

-- `s.split(".")`
unfoldable pub split_dots : String → List String
split_dots String.[] = "" ∷ []
split_dots (String.◌∷◌ c s) =
    let rest = split_dots s in if code c == 46 then "" ∷ rest else add_first c rest

-- Not more than a minute ahead of the clock, and not older than the lifetime.
abbrev pub is_fresh : ℤ → (now : ℕ) → Bool
is_fresh (pos n) now = leb n (now + 60) && leb now (n + ttl_seconds)
is_fresh (negsuc n) now = leb (now + suc n) ttl_seconds

module _ (libraries : Libraries) (secret : String) where
  -- `_sign_admin_csrf_token`
  abbrev pub sign : (username : String) → (issued_at : ℤ) → (nonce : String) → String
  sign username issued_at nonce = libraries.hexdigest secret (payload username issued_at nonce)

  abbrev pub token_of : (username : String) → (issued_at : ℤ) → (nonce : String) → String
  token_of username issued_at nonce =
      print_int issued_at ++ "." ++ nonce ++ "." ++ sign username issued_at nonce

  unfoldable pub build_admin_csrf_token :
      (username : String)
      → (issued_at : Option ℤ) → (nonce : Option String) → (now : ℕ) → (random : String) → String
  build_admin_csrf_token username issued_at nonce now random =
      token_of username (issued_or_now issued_at now) (nonce_or nonce random)

  abbrev pub is_signed :
      (username : String)
      → (now : ℕ) → (nonce signature : String) → Option ℤ
      → Outcome AuthError Bool
  is_signed username now nonce signature none = returns false
  is_signed username now nonce signature (some issued_at) =
      if is_fresh issued_at now
      then compare_digest signature (sign username issued_at nonce)
      else returns false

  abbrev pub are_valid : (username : String) → (now : ℕ) → List String → Outcome AuthError Bool
  are_valid username now (issued_at ∷ nonce ∷ signature ∷ []) =
      if str_eq nonce "" || str_eq signature ""
      then returns false
      else is_signed username now nonce signature (parse_int (strip issued_at))
  are_valid username now _ = returns false

  unfoldable pub is_valid_admin_csrf_token :
      (token username : String) → (now : ℕ) → Outcome AuthError Bool
  is_valid_admin_csrf_token token username now = are_valid username now (split_dots token)
