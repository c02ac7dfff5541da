-- ===== src/Auth/Signed.antt =====
-- When a token that the program has made is valid.
use tender_phase.Prelude.{
  ℕ, String, true, false, none, ◌≡◌, refl, ap, ◌∙◌, str_eq, eq_iff, Bool-cases, inl, inr, [], ◌∷◌,
}
use tender_phase.Prelude.Integers.{ℤ, pos}
use tender_phase.Prelude.Outcome.{returns}
use tender_phase.Prelude.Decimal.{print_int}
use tender_phase.Prelude.Decimal.RoundTrip.{parse_int-print_int, strip-print_int}
use tender_phase.Auth.Parameters.{Libraries, IsLibraries, Every, is_hex, compare_digest}
use tender_phase.Auth.Tokens.{
  is_fresh, sign, token_of, build_admin_csrf_token, is_valid_admin_csrf_token, split_dots,
}
use tender_phase.Auth.Pieces.{
  is_urlsafe, Every-weaken, hex_urlsafe, print_int-urlsafe, is_ascii-urlsafe, split_dots-one,
  split_dots-append,
}

pub compare_digest-same : (s : String) → Every is_urlsafe s → compare_digest s s ≡ returns true
unfolding compare_digest
compare_digest-same s h = rw (is_ascii-urlsafe s h, (eq_iff s s).1 refl) refl

module _ (libraries : Libraries) (lawful : IsLibraries libraries) (secret : String) where
  pub sign-urlsafe :
      (username : String) (issued : ℤ) (nonce : String)
      → Every is_urlsafe (sign libraries secret username issued nonce)
  sign-urlsafe username issued nonce = Every-weaken is_hex is_urlsafe _ hex_urlsafe (lawful.hex _ _)

  pub token_pieces :
      (username : String) (issued : ℕ) (nonce : String)
      → Every is_urlsafe nonce
      → split_dots (token_of libraries secret username (pos issued) nonce)
        ≡ print_int (pos issued) ∷ nonce ∷ sign libraries secret username (pos issued) nonce ∷ []
  token_pieces username issued nonce h =
      split_dots-append (print_int (pos issued)) _ (print_int-urlsafe issued)
      ∙ ap (λ r. print_int (pos issued) ∷ r)
          (split_dots-append nonce _ h
            ∙ ap (λ r. nonce ∷ r) (split_dots-one _ (sign-urlsafe username (pos issued) nonce)))

  pub is_valid-build :
      (username nonce : String) (issued now : ℕ)
      → Every is_urlsafe nonce
      → str_eq nonce "" ≡ false
      → is_valid_admin_csrf_token libraries secret
          (build_admin_csrf_token libraries secret username none none issued nonce)
          username
          now
        ≡ returns (is_fresh (pos issued) now)
  unfolding is_valid_admin_csrf_token build_admin_csrf_token
  is_valid-build username nonce issued now h filled =
      rw
        (
          token_pieces username issued nonce h,
          filled,
          lawful.filled,
          strip-print_int,
          parse_int-print_int,
        )
        (elim (Bool-cases (is_fresh (pos issued) now)) [
          | inl fresh ↦ rw fresh (compare_digest-same _ (sign-urlsafe username (pos issued) nonce))
          | inr stale ↦ rw stale refl
        ])
