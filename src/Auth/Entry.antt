-- ===== src/Auth/Entry.antt =====
-- `get_current_user` and `require_min_role`: who is let in.
use tender_phase.Prelude.{
  String, Bool, true, false, ◌&&◌, Option, none, some, List, [], ◌∷◌, ◌≡◌, ◌⊎◌, refl, ◌≤◌, leb,
  arith, if◌then◌else◌, Bool-cases, inl, inr,
}
use tender_phase.Prelude.Outcome.{Outcome, returns, raises, ◌>>=◌}
use tender_phase.Table.Order.{In}
use tender_phase.Auth.Parameters.{
  UserRole, ConfiguredUser, Libraries, Settings, AuthError, compare_digest,
}
use tender_phase.Auth.Guards.{
  AuthenticatedUser, Credentials, role_level, has_required_role, require_min_role, find_user, among,
  get_current_user, parse_configured_users,
}
use tender_phase.Auth.Owners.{compare_digest-true}

-- A configured user with the name and the password of the credentials, as whom they sign in.
pub record IsUserOf (us : List ConfiguredUser) (c : Credentials) (user : AuthenticatedUser)
    : Type 0 where
  pub configured : ConfiguredUser
  pub member : In configured us
  pub same_name : configured.username ≡ c.username
  pub same_password : configured.password ≡ c.password
  pub as_configured : user ≡ record { username = configured.username; role = configured.role }

later :
    (v : ConfiguredUser) (us : List ConfiguredUser) (c : Credentials) (user : AuthenticatedUser)
    → IsUserOf us c user
    → IsUserOf (v ∷ us) c user
later v us c user h = record {
  configured = h.configured;
  member = In.there h.member;
  same_name = h.same_name;
  same_password = h.same_password;
  as_configured = h.as_configured;
}

tried :
    (m n : Outcome AuthError Bool) (here rest : Outcome AuthError AuthenticatedUser)
    (user : AuthenticatedUser)
    → (m >>= λ a. n >>= λ b. if a && b then here else rest) ≡ returns user
    → ((m ≡ returns true) × (n ≡ returns true) × (here ≡ returns user)) ⊎ (rest ≡ returns user)
tried (raises e) n here rest user h = absurd (cc)
tried (returns a) (raises e) here rest user h = absurd (cc)
tried (returns true) (returns true) here rest user h = inl (refl, refl, h)
tried (returns true) (returns false) here rest user h = inr h
tried (returns false) (returns b) here rest user h = inr h

abbrev entered : AuthenticatedUser → Outcome AuthError AuthenticatedUser
entered user = returns user

signed_in : (v user : AuthenticatedUser) → returns v ≡ entered user → user ≡ v
signed_in v user h = cc

find_user-IsUserOf :
    (us : List ConfiguredUser) (c : Credentials) (user : AuthenticatedUser)
    → find_user us c ≡ returns user
    → IsUserOf us c user
unfolding find_user
find_user-IsUserOf [] c user h = absurd (cc)
find_user-IsUserOf (v ∷ us) c user h =
    elim (tried (compare_digest v.username c.username) (compare_digest v.password c.password) _ _
      user h) [
        | inr rest ↦ later v us c user (find_user-IsUserOf us c user rest)
        | inl same ↦ record {
          configured = v;
          member = In.here;
          same_name = compare_digest-true _ _ same.0;
          same_password = compare_digest-true _ _ same.1;
          as_configured = signed_in _ user same.2;
        }
      ]

-- Who is let in with some credentials: a configured user whose role is high enough.
pub record IsEntitled (configured : Outcome String (List ConfiguredUser)) (c : Option Credentials)
    (required : UserRole) (user : AuthenticatedUser) : Type 0 where
  pub users : List ConfiguredUser
  pub credentials : Credentials
  pub parsed : configured ≡ returns users
  pub given : c ≡ some credentials
  pub known : IsUserOf users credentials user
  pub high_enough : role_level required ≤ role_level user.role

ranked :
    (required : UserRole) (found user : AuthenticatedUser)
    → leb (role_level required) (role_level found.role) ≡ true
    → entered found ≡ returns user
    → role_level required ≤ role_level user.role
ranked required found user high h =
    let same : found ≡ user = cc in
    let higher : leb (role_level required) (role_level user.role) ≡ true = rw same at high in
    ground (arith)

never : (e : AuthError) (user : AuthenticatedUser) → raises e ≡ entered user → ⊥
never e user h = cc

returned :
    (m : Outcome AuthError AuthenticatedUser) (required : UserRole) (user : AuthenticatedUser)
    → (m >>= require_min_role required) ≡ returns user
    → (m ≡ returns user) × (role_level required ≤ role_level user.role)
unfolding require_min_role has_required_role
returned (raises e) required user h = absurd (cc)
returned (returns found) required user h =
    elim (Bool-cases (leb (role_level required) (role_level found.role))) [
      | inl high ↦
          let same : entered found ≡ returns user = rw high at h in
          (same, ranked required found user high same)
      | inr low ↦ absurd (never _ user (rw low at h))
    ]

module _ (libraries : Libraries) (settings : Settings) (ephemeral : String) where
  among-IsEntitled :
      (c : Credentials) (configured : Outcome String (List ConfiguredUser)) (required : UserRole)
      (user : AuthenticatedUser)
      → among libraries settings ephemeral c configured ≡ returns user
      → role_level required ≤ role_level user.role
      → IsEntitled configured (some c) required user
  among-IsEntitled c (raises message) required user h high = absurd (cc)
  among-IsEntitled c (returns []) required user h high = absurd (cc)
  among-IsEntitled c (returns (u ∷ us)) required user h high = record {
    users = u ∷ us;
    credentials = c;
    parsed = refl;
    given = refl;
    known = find_user-IsUserOf (u ∷ us) c user h;
    high_enough = high;
  }

  -- Whoever is let in to a route that asks for a role has the name and the password of a configured
  -- user, enters as that user, and has a role that is at least the one asked for.
  pub entry-IsEntitled :
      (c : Option Credentials) (required : UserRole) (user : AuthenticatedUser)
      → (get_current_user libraries settings ephemeral c >>= require_min_role required)
        ≡ returns user
      → IsEntitled
          (parse_configured_users libraries settings ephemeral settings.auth_basic_users_json)
          c
          required
          user
  unfolding get_current_user
  entry-IsEntitled none required user h = absurd (cc)
  entry-IsEntitled (some c) required user h =
      let (found, high) = returned _ required user h in
      among-IsEntitled c _ required user found high
