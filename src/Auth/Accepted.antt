-- ===== src/Auth/Accepted.antt =====
-- `require_admin_csrf`: what it lets through, and that it lets a page's own form through.
use tender_phase.Prelude.{ℕ, String, Bool, true, false, ◌≡◌, refl, str_eq, Bool-cases, inl, inr}
use tender_phase.Prelude.Outcome.{Outcome, returns, raises, ◌>>=◌}
use tender_phase.Auth.Parameters.{Libraries, Settings, compare_digest, AuthError}
use tender_phase.Auth.Tokens.{is_valid_admin_csrf_token, signing_secret}
use tender_phase.Auth.Guards.{
  AuthenticatedUser, Request, cookie_of, submitted, require_admin_csrf, check_tokens, refuse_unless,
}
use tender_phase.Auth.Owners.{IsSignedFor, is_valid-IsSignedFor, compare_digest-true}

passed :
    (m : Outcome AuthError Bool) (text : String) (f : Outcome AuthError (Unit {0}))
    → (m >>= λ b. refuse_unless b text >>= λ _. f) ≡ returns tt
    → (m ≡ returns true) × (f ≡ returns tt)
passed (returns true) text f h = (refl, h)
passed (returns false) text f h = absurd (cc)
passed (raises e) text f h = absurd (cc)

passed_last :
    (m : Outcome AuthError Bool) (text : String)
    → (m >>= λ b. refuse_unless b text) ≡ returns tt
    → m ≡ returns true
passed_last (returns true) text h = refl
passed_last (returns false) text h = absurd (cc)
passed_last (raises e) text h = absurd (cc)

refused : (e : AuthError) → Outcome.raises e ≡ refuse_unless true "" → ⊥
refused e h = cc

module _ (libraries : Libraries) (settings : Settings) (ephemeral : String) where
  checked_tokens :
      (username cookie token : String) (now : ℕ)
      → check_tokens libraries settings ephemeral username cookie token now ≡ returns tt
      → (compare_digest cookie token ≡ returns true)
        × (is_valid_admin_csrf_token libraries
              (signing_secret settings ephemeral)
              cookie
              username
              now
            ≡ returns true)
  checked_tokens username cookie token now h =
      let (same, rest) = passed (compare_digest cookie token) _ _ h in (same, passed_last _ _ rest)

  -- If a request is let through, then the text that it submits is that of its cookie, and it is a
  -- moment in the lifetime of tokens, a nonce, and the signature of both for the user.
  pub require_admin_csrf-IsSignedFor :
      (request : Request) (user : AuthenticatedUser) (now : ℕ)
      → require_admin_csrf libraries settings ephemeral request user now ≡ returns tt
      → (cookie_of request ≡ submitted libraries request)
        × IsSignedFor libraries
            (signing_secret settings ephemeral)
            (cookie_of request)
            user.username
            now
  unfolding require_admin_csrf
  require_admin_csrf-IsSignedFor request user now h =
      elim (Bool-cases (str_eq (cookie_of request) "")) [
        | inl empty ↦ absurd (refused _ (rw empty at h))
        | inr full ↦ elim (Bool-cases (str_eq (submitted libraries request) "")) [
          | inl empty ↦ absurd (refused _ (rw (full, empty) at h))
          | inr filled ↦
              let (same, valid) = checked_tokens user.username _ _ now (rw (full, filled) at h) in
              (compare_digest-true _ _ same, is_valid-IsSignedFor _ _ _ user.username now valid)
        ]
      ]
