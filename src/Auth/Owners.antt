-- ===== src/Auth/Owners.antt =====
-- A token belongs to one user.
use Prim.Native.Char.{Char, code}
use Prim.Native.String.{◌++◌}
use Prim.Native.String.append
use tender_phase.Prelude.{
  ℕ, String, Bool, true, false, not, ◌&&◌, ◌||◌, Option, none, some, ◌≡◌, ◌≢◌, refl, ap, ◌∙◌, sym,
  str_eq, eq_iff, Bool-cases, inl, inr, arith, List, [], ◌∷◌, ◌==◌,
}
use tender_phase.Prelude.Integers.{ℤ}
use tender_phase.Prelude.Outcome.{Outcome, returns, raises}
use tender_phase.Prelude.Text.{strip}
use tender_phase.Prelude.Decimal.{print_int, parse_int}
use tender_phase.Auth.Parameters.{Libraries, Every, is_ascii, compare_digest, AuthError}
use tender_phase.Auth.Tokens.{
  is_fresh, sign, payload, are_valid, is_signed, is_valid_admin_csrf_token, split_dots,
}

-- What a valid token is made of.
pub record IsSignedFor (libraries : Libraries) (secret : String) (token username : String) (now : ℕ)
    : Type 0 where
  pub issued_text : String
  pub nonce : String
  pub issued_at : ℤ
  pub pieces :
      split_dots token ≡ issued_text ∷ nonce ∷ sign libraries secret username issued_at nonce ∷ []
  pub issued : parse_int (strip issued_text) ≡ some issued_at
  pub fresh : is_fresh issued_at now ≡ true

abbrev result : Bool → Outcome AuthError Bool
result b = returns b

pub same_result : (a b : Bool) → result a ≡ result b → a ≡ b
same_result a b h = cc

false_not : result false ≡ result true → ⊥
false_not h = cc

raises_not : (e : AuthError) (b : Bool) → raises e ≡ result b → ⊥
raises_not e b h = cc

pub compare_digest-true : (a b : String) → compare_digest a b ≡ returns true → a ≡ b
unfolding compare_digest
compare_digest-true a b h = elim (Bool-cases (is_ascii a && is_ascii b)) [
  | inl ascii ↦ (eq_iff a b).0 (same_result (str_eq a b) true (rw ascii at h))
  | inr other ↦ absurd (raises_not AuthError.type_error true (rw other at h))
]

abbrev pub is_no_colon : ℕ → Bool
is_no_colon c = not (c == 58)

cons_same : (c d : Char) (s t : String) → String.◌∷◌ c s ≡ String.◌∷◌ d t → (c ≡ d) × (s ≡ t)
cons_same c d s t e = let first : c ≡ d = cc in let rest : s ≡ t = cc in (first, rest)

colon_first : (d : Char) (v r s : String) → ":" ++ r ≡ String.◌∷◌ d v ++ s → code d ≡ 58
colon_first d v r s e =
    ap code (sym (cons_same ":" d ("" ++ r) (v ++ s) (rw (append.cons d v s, append.cons) at e)).0)

before_colon :
    (u v r s : String)
    → Every is_no_colon u
    → Every is_no_colon v
    → u ++ ":" ++ r ≡ v ++ ":" ++ s
    → u ≡ v
before_colon String.[] String.[] r s h k e = refl
before_colon String.[] (String.◌∷◌ d v) r s h k e =
    let colon : code d ≡ 58 = colon_first d v r (":" ++ s) (rw (append.nil (":" ++ r)) at e) in
    absurd (ground (arith, k.0))
before_colon (String.◌∷◌ c u) String.[] r s h k e =
    let colon : code c ≡ 58 =
      colon_first c u s (":" ++ r) (rw (append.nil (":" ++ s)) at (sym e)) in
    absurd (ground (arith, h.0))
before_colon (String.◌∷◌ c u) (String.◌∷◌ d v) r s h k e =
    let (same, later) =
      cons_same c d (u ++ ":" ++ r) (v ++ ":" ++ s)
        (rw (append.cons c u (":" ++ r), append.cons d v (":" ++ s)) at e) in
    let rest : u ≡ v = before_colon u v r s h.1 k.1 later in cc

same_third : (a a' b b' c c' : String) → List.◌∷◌ a (b ∷ c ∷ []) ≡ a' ∷ b' ∷ c' ∷ [] → c ≡ c'
same_third a a' b b' c c' e = cc

module _ (libraries : Libraries) (secret : String) where
  checked :
      (token username : String) (now : ℕ) (a nonce signature : String) (o : Option ℤ)
      → split_dots token ≡ a ∷ nonce ∷ signature ∷ []
      → parse_int (strip a) ≡ o
      → is_signed libraries secret username now nonce signature o ≡ returns true
      → IsSignedFor libraries secret token username now
  checked token username now a nonce signature none e p h = absurd (false_not h)
  checked token username now a nonce signature (some t) e p h = elim (Bool-cases (is_fresh t now)) [
    | inr stale ↦ absurd (false_not (rw stale at h))
    | inl fresh ↦
        let same : signature ≡ sign libraries secret username t nonce =
          compare_digest-true _ _ (rw fresh at h) in
        record {
          issued_text = a;
          nonce = nonce;
          issued_at = t;
          pieces = rw same at e;
          issued = p;
          fresh = fresh;
        }
  ]

  signed_pieces :
      (token username : String) (now : ℕ) (ps : List String)
      → split_dots token ≡ ps
      → are_valid libraries secret username now ps ≡ returns true
      → IsSignedFor libraries secret token username now
  signed_pieces token username now [] e h = absurd (cc)
  signed_pieces token username now (a ∷ []) e h = absurd (cc)
  signed_pieces token username now (a ∷ b ∷ []) e h = absurd (cc)
  signed_pieces token username now (a ∷ b ∷ c ∷ d ∷ r) e h = absurd (cc)
  signed_pieces token username now (a ∷ nonce ∷ signature ∷ []) e h =
      elim (Bool-cases (str_eq nonce "" || str_eq signature "")) [
        | inl empty ↦ absurd (false_not (rw empty at h))
        | inr filled ↦
            checked token username now a nonce signature (parse_int (strip a)) e refl
              (rw filled at h)
      ]

  -- A valid token consists of a moment in its lifetime, a nonce, and the signature of both for the
  -- user.
  pub is_valid-IsSignedFor :
      (token username : String) (now : ℕ)
      → is_valid_admin_csrf_token libraries secret token username now ≡ returns true
      → IsSignedFor libraries secret token username now
  unfolding is_valid_admin_csrf_token
  is_valid-IsSignedFor token username now h =
      signed_pieces token username now (split_dots token) refl h

  -- If a token is valid for two users, whose names have no colon, then two texts have one digest under
  -- the secret: the texts that are signed for the two.
  pub is_valid_collision :
      (token u v : String) (now later : ℕ)
      → Every is_no_colon u
      → Every is_no_colon v
      → u ≢ v
      → is_valid_admin_csrf_token libraries secret token u now ≡ returns true
      → is_valid_admin_csrf_token libraries secret token v later ≡ returns true
      → (p : String) × (q : String) × (p ≢ q)
        × (libraries.hexdigest secret p ≡ libraries.hexdigest secret q)
  is_valid_collision token u v now later h k other first second =
      let a = is_valid-IsSignedFor token u now first in
      let b = is_valid-IsSignedFor token v later second in
      (
        payload u a.issued_at a.nonce,
        payload v b.issued_at b.nonce,
        (λ e. other (
            before_colon u v (print_int a.issued_at ++ ":" ++ a.nonce)
              (print_int b.issued_at ++ ":" ++ b.nonce) h k e)),
        same_third a.issued_text b.issued_text a.nonce b.nonce _ _ (sym a.pieces ∙ b.pieces),
      )
