-- ===== src/Auth/Pieces.antt =====
-- The pieces of a token, and the characters in them.
use Prim.Native.Char.{code}
use Prim.Native.String.{◌++◌}
use Prim.Native.String.append
use tender_phase.Prelude.{
  ℕ, String, Bool, true, false, ◌&&◌, ◌||◌, [], ◌∷◌, ◌≡◌, refl, leb, ◌==◌, arith,
}
use tender_phase.Prelude.Integers.{pos}
use tender_phase.Prelude.Text.{is_space}
use tender_phase.Prelude.Decimal.{print_int}
use tender_phase.Prelude.Decimal.RoundTrip.{AllDigits, NoSpaces, print_nat-AllDigits}
use tender_phase.Auth.Parameters.{Every, is_hex, is_ascii}
use tender_phase.Auth.Tokens.{split_dots}

-- The characters of `secrets.token_urlsafe`
abbrev pub is_urlsafe : ℕ → Bool
is_urlsafe c =
    (leb 48 c && leb c 57)
    || (leb 65 c && leb c 90)
    || c == 95
    || (leb 97 c && leb c 122)
    || c == 45

pub Every-weaken :
    (p q : ℕ → Bool) (s : String) → ((c : ℕ) → p c ≡ true → q c ≡ true) → Every p s → Every q s
Every-weaken p q String.[] h e = tt
Every-weaken p q (String.◌∷◌ c s) h e = (h (code c) e.0, Every-weaken p q s h e.1)

pub Every-append : (p : ℕ → Bool) (s t : String) → Every p s → Every p t → Every p (s ++ t)
Every-append p String.[] t h k = rw (append.nil t) k
Every-append p (String.◌∷◌ c s) t h k = rw (append.cons c s t) (h.0, Every-append p s t h.1 k)

pub hex_urlsafe : (c : ℕ) → is_hex c ≡ true → is_urlsafe c ≡ true
hex_urlsafe c h = ground arith

digit_urlsafe : (s : String) → AllDigits s → Every is_urlsafe s
digit_urlsafe String.[] h = tt
digit_urlsafe (String.◌∷◌ c s) h = (ground (arith, h.0), digit_urlsafe s h.1)

pub print_int-urlsafe : (n : ℕ) → Every is_urlsafe (print_int (pos n))
unfolding print_int
print_int-urlsafe n = digit_urlsafe _ (print_nat-AllDigits n)

abbrev pub is_token : ℕ → Bool
is_token c = is_urlsafe c || c == 46

pub urlsafe_token : (s : String) → Every is_urlsafe s → Every is_token s
urlsafe_token s h = Every-weaken is_urlsafe is_token s (λ c e. rw e refl) h

pub is_ascii-token : (s : String) → Every is_token s → is_ascii s ≡ true
unfolding is_ascii
is_ascii-token String.[] h = refl
is_ascii-token (String.◌∷◌ c s) h =
    let here : leb (code c) 127 ≡ true = ground (arith, h.0) in rw (here, is_ascii-token s h.1) refl

pub is_ascii-urlsafe : (s : String) → Every is_urlsafe s → is_ascii s ≡ true
is_ascii-urlsafe s h = is_ascii-token s (urlsafe_token s h)

token_not_space : (c : ℕ) → is_token c ≡ true → is_space c ≡ false
unfolding is_space
token_not_space c h = ground arith

pub token-NoSpaces : (s : String) → Every is_token s → NoSpaces s
token-NoSpaces String.[] h = tt
token-NoSpaces (String.◌∷◌ c s) h = (token_not_space (code c) h.0, token-NoSpaces s h.1)

no_dot : (c : ℕ) → is_urlsafe c ≡ true → (c == 46) ≡ false
no_dot c h = ground arith

pub split_dots-one : (s : String) → Every is_urlsafe s → split_dots s ≡ s ∷ []
unfolding split_dots
split_dots-one String.[] h = refl
split_dots-one (String.◌∷◌ c s) h = rw (no_dot (code c) h.0, split_dots-one s h.1) refl

pub split_dots-append :
    (s t : String) → Every is_urlsafe s → split_dots (s ++ "." ++ t) ≡ s ∷ split_dots t
unfolding split_dots
split_dots-append String.[] t h = rw (append.nil, append.cons, append.nil t) refl
split_dots-append (String.◌∷◌ c s) t h =
    rw (append.cons c s, no_dot (code c) h.0, split_dots-append s t h.1) refl
