-- ===== src/Auth/Rendered.antt =====
-- A page is given a token with which its own form is let through.
use Prim.Native.Char.{Char, code}
use tender_phase.Prelude.{
  ℕ, String, Bool, true, false, ◌&&◌, ◌||◌, Option, none, some, ◌≡◌, refl, ap, ◌∙◌, sym, str_eq,
  eq_iff, Bool-cases, inl, inr, arith, List, [], ◌∷◌, leb, ◌==◌,
}
use tender_phase.Prelude.Integers.{ℤ, pos}
use tender_phase.Prelude.Outcome.{Outcome, returns}
use tender_phase.Prelude.Text.{strip}
use tender_phase.Prelude.Text.Laws.{strip-strip}
use tender_phase.Prelude.Decimal.{print_int, parse_int}
use tender_phase.Prelude.Decimal.RoundTrip.{strip-NoSpaces}
use tender_phase.Auth.Parameters.{
  Libraries, IsLibraries, Settings, Every, is_ascii, compare_digest, AuthError,
}
use tender_phase.Auth.Tokens.{
  is_fresh, sign, token_of, are_valid, is_signed, build_admin_csrf_token, is_valid_admin_csrf_token,
  split_dots, signing_secret, add_first,
}
use tender_phase.Auth.Guards.{
  AuthenticatedUser, Request, cookie_of, token_for, require_admin_csrf,
  get_or_create_admin_csrf_token,
}
use tender_phase.Auth.Pieces.{
  is_urlsafe, is_token, urlsafe_token, is_ascii-token, is_ascii-urlsafe, token-NoSpaces,
  Every-append, print_int-urlsafe,
}
use tender_phase.Auth.Signed.{is_valid-build, sign-urlsafe, token_pieces}

abbrev AllAscii : List String → Type 0
AllAscii [] = Unit
AllAscii (s ∷ rest) = (is_ascii s ≡ true) × AllAscii rest

add_first-AllAscii :
    (c : Char) (ps : List String)
    → leb (code c) 127 ≡ true
    → AllAscii ps
    → AllAscii (add_first c ps)
unfolding is_ascii
add_first-AllAscii c [] h k = (rw h refl, tt)
add_first-AllAscii c (s ∷ rest) h k = (rw (h, k.0) refl, k.1)

both : (a b : Bool) → (a && b) ≡ true → (a ≡ true) × (b ≡ true)
both true b h = (refl, h)
both false b h = absurd (cc)

split_dots-AllAscii : (s : String) → is_ascii s ≡ true → AllAscii (split_dots s)
unfolding split_dots is_ascii
split_dots-AllAscii String.[] h = (refl, tt)
split_dots-AllAscii (String.◌∷◌ c s) h =
    let (here, later) = both (leb (code c) 127) (is_ascii s) h in
    let rest : AllAscii (split_dots s) = split_dots-AllAscii s later in
    elim (Bool-cases (code c == 46)) [
      | inl dot ↦ rw dot (refl, rest)
      | inr other ↦ rw other (add_first-AllAscii c (split_dots s) here rest)
    ]

abbrev Decides : Outcome AuthError Bool → Type 0
Decides m = (b : Bool) × (m ≡ returns b)

-- What a request needs to be let through.
record IsUsable (libraries : Libraries) (secret : String) (username token : String) (now : ℕ)
    : Type 0 where
  stripped : strip token ≡ token
  filled : str_eq token "" ≡ false
  ascii : is_ascii token ≡ true
  valid : is_valid_admin_csrf_token libraries secret token username now ≡ returns true

one_not_three : (a b c : String) → "" ∷ [] ≡ a ∷ b ∷ c ∷ [] → ⊥
one_not_three a b c e = cc

module _ (libraries : Libraries) (lawful : IsLibraries libraries) (secret : String) where
  is_signed-Decides :
      (username : String) (now : ℕ) (nonce signature : String) (o : Option ℤ)
      → is_ascii signature ≡ true
      → Decides (is_signed libraries secret username now nonce signature o)
  unfolding compare_digest
  is_signed-Decides username now nonce signature none h = (false, refl)
  is_signed-Decides username now nonce signature (some t) h =
      let digest : is_ascii (sign libraries secret username t nonce) ≡ true =
        is_ascii-urlsafe _ (sign-urlsafe libraries lawful secret username t nonce) in
      elim (Bool-cases (is_fresh t now)) [
        | inl fresh ↦
            rw (fresh, h, digest) (str_eq signature (sign libraries secret username t nonce), refl)
        | inr stale ↦ rw stale (false, refl)
      ]

  are_valid-Decides :
      (username : String) (now : ℕ) (ps : List String)
      → AllAscii ps
      → Decides (are_valid libraries secret username now ps)
  are_valid-Decides username now [] h = (false, refl)
  are_valid-Decides username now (a ∷ []) h = (false, refl)
  are_valid-Decides username now (a ∷ b ∷ []) h = (false, refl)
  are_valid-Decides username now (a ∷ b ∷ c ∷ d ∷ r) h = (false, refl)
  are_valid-Decides username now (a ∷ nonce ∷ signature ∷ []) h =
      elim (Bool-cases (str_eq nonce "" || str_eq signature "")) [
        | inl empty ↦ rw empty (false, refl)
        | inr filled ↦
            rw filled (is_signed-Decides username now nonce signature (parse_int (strip a)) h.1.1.0)
      ]

  is_valid-Decides :
      (username token : String) (now : ℕ)
      → is_ascii token ≡ true
      → Decides (is_valid_admin_csrf_token libraries secret token username now)
  unfolding is_valid_admin_csrf_token
  is_valid-Decides username token now h =
      are_valid-Decides username now (split_dots token) (split_dots-AllAscii token h)

  token-filled :
      (username random : String) (now : ℕ)
      → Every is_urlsafe random
      → str_eq (token_of libraries secret username (pos now) random) "" ≡ false
  unfolding split_dots
  token-filled username random now h =
      elim (Bool-cases (str_eq (token_of libraries secret username (pos now) random) "")) [
        | inr filled ↦ filled
        | inl empty ↦
            let same = (eq_iff (token_of libraries secret username (pos now) random) "").0 empty in
            let one : split_dots (token_of libraries secret username (pos now) random) ≡ "" ∷ [] =
              rw same refl in
            let three = token_pieces libraries lawful secret username now random h in
            absurd (one_not_three _ _ _ (sym one ∙ three))
      ]

  token-Every :
      (username random : String) (now : ℕ)
      → Every is_urlsafe random
      → Every is_token (token_of libraries secret username (pos now) random)
  token-Every username random now h =
      Every-append is_token (print_int (pos now)) _ (urlsafe_token _ (print_int-urlsafe now)) (
        Every-append is_token "." _ (refl, tt)
          (Every-append is_token random _ (urlsafe_token _ h) (
            Every-append is_token "." _ (refl, tt)
              (urlsafe_token _ (sign-urlsafe libraries lawful secret username (pos now) random)))))

  new-IsUsable :
      (username random : String) (now : ℕ)
      → Every is_urlsafe random
      → str_eq random "" ≡ false
      → IsUsable libraries secret username
          (build_admin_csrf_token libraries secret username none none now random)
          now
  new-IsUsable username random now h filled =
      let every = token-Every username random now h in
      let fresh : is_fresh (pos now) now ≡ true = ground arith in
      record {
        stripped = unfold build_admin_csrf_token in strip-NoSpaces _ (token-NoSpaces _ every);
        filled = unfold build_admin_csrf_token in token-filled username random now h;
        ascii = unfold build_admin_csrf_token in is_ascii-token _ every;
        valid =
            is_valid-build libraries lawful secret username random now now h filled
            ∙ ap returns fresh;
      }

module _ (libraries : Libraries) (lawful : IsLibraries libraries) (settings : Settings)
    (ephemeral : String) where
  token_for-IsUsable :
      (username cookie : String) (now : ℕ) (random : String)
      → Every is_urlsafe random
      → str_eq random "" ≡ false
      → is_ascii cookie ≡ true
      → strip cookie ≡ cookie
      → (t : String) × (token_for libraries settings ephemeral username cookie now random
          ≡ returns t)
        × IsUsable libraries (signing_secret settings ephemeral) username t now
  token_for-IsUsable username cookie now random h filled ascii stripped =
      let secret = signing_secret settings ephemeral in
      let new = new-IsUsable libraries lawful secret username random now h filled in
      let (b, decided) = is_valid-Decides libraries lawful secret username cookie now ascii in
      elim (Bool-cases (str_eq cookie "")) [
        | inl empty ↦ rw empty (_, refl, new)
        | inr full ↦ elim (Bool-cases b) [
          | inl valid ↦
              rw (full, decided, valid)
                (
                  cookie,
                  refl,
                  record {
                    stripped = stripped;
                    filled = full;
                    ascii = ascii;
                    valid = decided ∙ ap returns valid;
                  },
                )
          | inr invalid ↦ rw (full, decided, invalid) (_, refl, new)
        ]
      ]

  accepted :
      (user : AuthenticatedUser) (now : ℕ) (body : List ℕ) (t : String)
      → IsUsable libraries (signing_secret settings ephemeral) user.username t now
      → require_admin_csrf libraries settings ephemeral
          (record { cookie = some t; header = some t; body = body })
          user
          now
        ≡ returns tt
  unfolding require_admin_csrf compare_digest
  accepted user now body t h =
      rw (h.stripped, h.filled, h.filled, h.ascii, (eq_iff t t).1 refl, h.valid) refl

  -- A request whose cookie is in ASCII, and that has no token yet, is given one, whether or not its
  -- cookie is valid; and a request of the same user with that token in its cookie and its header is
  -- let through at that moment, whatever its body.
  pub rendered_accepted :
      (request : Request) (user : AuthenticatedUser) (now : ℕ) (random : String) (body : List ℕ)
      → Every is_urlsafe random
      → str_eq random "" ≡ false
      → is_ascii (cookie_of request) ≡ true
      → (t : String) × (get_or_create_admin_csrf_token libraries settings ephemeral request user
            (record { auth_user = none; admin_csrf_token = none })
            now
            random
          ≡ returns (t, record { auth_user = some user; admin_csrf_token = some t }))
        × (require_admin_csrf libraries settings ephemeral
              (record { cookie = some t; header = some t; body = body })
              user
              now
            ≡ returns tt)
  unfolding get_or_create_admin_csrf_token
  rendered_accepted request user now random body h filled ascii =
      let (t, made, usable) =
        token_for-IsUsable user.username (cookie_of request) now random h filled ascii
          (strip-strip _) in
      (t, rw made refl, accepted user now body t usable)
