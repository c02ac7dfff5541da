-- ===== src/Prelude/Decimal/RoundTrip.antt =====
-- `int(str(n))` is `n`.
use Prim.Native.Char.{code}
use tender_phase.Prelude.{
  ℕ, zero, suc, ◌+◌, ◌*◌, ◌/◌, ◌%◌, ◌<◌, String, Bool, true, false, some, ◌≡◌, refl, ◌∙◌, ◌==◌,
  arith, ap, Bool-cases, inl, inr,
}
use tender_phase.Prelude.Integers.{ℤ, pos, negsuc}
use tender_phase.Prelude.Text.{is_space, lstrip, rstrip, before_stripped, strip}
use tender_phase.Prelude.Decimal.{
  digit_char, digits, print_nat, print_int, is_digit, scan, parse_int,
}

code-digit_char : (d : ℕ) → d < 10 → code (digit_char d) ≡ 48 + d
unfolding digit_char
code-digit_char zero h = refl
code-digit_char (suc zero) h = refl
code-digit_char (suc (suc zero)) h = refl
code-digit_char (suc (suc (suc zero))) h = refl
code-digit_char (suc (suc (suc (suc zero)))) h = refl
code-digit_char (suc (suc (suc (suc (suc zero))))) h = refl
code-digit_char (suc (suc (suc (suc (suc (suc zero)))))) h = refl
code-digit_char (suc (suc (suc (suc (suc (suc (suc zero))))))) h = refl
code-digit_char (suc (suc (suc (suc (suc (suc (suc (suc zero)))))))) h = refl
code-digit_char (suc (suc (suc (suc (suc (suc (suc (suc (suc zero))))))))) h = refl
code-digit_char (suc (suc (suc (suc (suc (suc (suc (suc (suc (suc n)))))))))) h =
    absurd (omega arith)

digit_char-IsDigit : (d : ℕ) → d < 10 → is_digit (code (digit_char d)) ≡ true
digit_char-IsDigit d h = rw (code-digit_char d h) (ground arith)

-- Reading one printed digit.
scan-digit :
    (acc d : ℕ) (b : Bool) (s : String)
    → d < 10
    → scan acc b (String.◌∷◌ (digit_char d) s) ≡ scan (acc * 10 + d) true s
scan-digit acc d b s h =
    unfold scan in
    rw (digit_char-IsDigit d h) (ap (λ k. scan k true s) (omega (arith, code-digit_char d h)))

-- A text of digits, of which there is one at least.
abbrev pub AllDigits : String → Type 0
AllDigits String.[] = Unit
AllDigits (String.◌∷◌ c s) = (is_digit (code c) ≡ true) × AllDigits s

digits-AllDigits : (fuel n : ℕ) (out : String) → AllDigits out → AllDigits (digits fuel n out)
unfolding digits
digits-AllDigits zero n out h = h
digits-AllDigits (suc fuel) n out h = elim (Bool-cases (n / 10 == 0)) [
  | inl last ↦ rw last (digit_char-IsDigit (n % 10) (omega arith), h)
  | inr more ↦ rw more (
      digits-AllDigits fuel (n / 10) (String.◌∷◌ (digit_char (n % 10)) out)
        (digit_char-IsDigit (n % 10) (omega arith), h))
]

scan-digits :
    (fuel n : ℕ) (b : Bool) (out : String)
    → n < fuel
    → scan 0 b (digits fuel n out) ≡ scan n true out
unfolding digits
scan-digits zero n b out h = elim h [ ]
scan-digits (suc fuel) n b out h = elim (Bool-cases (n / 10 == 0)) [
  | inl last ↦
      rw last (scan-digit 0 (n % 10) b out (omega arith) ∙ ap (λ k. scan k true out) (ground arith))
  | inr more ↦ rw more (
      scan-digits fuel (n / 10) b (String.◌∷◌ (digit_char (n % 10)) out) (ground arith)
      ∙ scan-digit (n / 10) (n % 10) true out (omega arith)
      ∙ ap (λ k. scan k true out) (omega arith))
]

-- What a printed number begins with.
abbrev StartsWithDigit : String → Type 0
StartsWithDigit String.[] = ⊥
StartsWithDigit (String.◌∷◌ c s) = is_digit (code c) ≡ true

digits-StartsWithDigit :
    (fuel n : ℕ) (out : String) → n < fuel → StartsWithDigit (digits fuel n out)
unfolding digits
digits-StartsWithDigit zero n out h = elim h [ ]
digits-StartsWithDigit (suc fuel) n out h = elim (Bool-cases (n / 10 == 0)) [
  | inl last ↦ rw last (digit_char-IsDigit (n % 10) (omega arith))
  | inr more ↦
      rw more
        (digits-StartsWithDigit fuel (n / 10) (String.◌∷◌ (digit_char (n % 10)) out) (ground arith))
]

not_sign : (c : ℕ) → is_digit c ≡ true → ((c == 45) ≡ false) × ((c == 43) ≡ false)
not_sign c h = ground arith

-- A text that begins with a digit is read without a sign.
parse_int-StartsWithDigit :
    (s : String) (n : ℕ) → StartsWithDigit s → scan 0 false s ≡ some n → parse_int s ≡ some (pos n)
unfolding parse_int
parse_int-StartsWithDigit String.[] n h e = absurd h
parse_int-StartsWithDigit (String.◌∷◌ c s) n h e =
    let (minus, plus) = not_sign (code c) h in rw (minus, plus, e)

scan-print_nat : (n : ℕ) → scan 0 false (print_nat n) ≡ some n
unfolding print_nat scan
scan-print_nat n = scan-digits (suc n) n false "" (omega arith)

pub parse_int-print_int : (z : ℤ) → parse_int (print_int z) ≡ some z
unfolding print_int
parse_int-print_int (pos n) =
    parse_int-StartsWithDigit (print_nat n) n (digits-StartsWithDigit (suc n) n "" (omega arith))
      (scan-print_nat n)
parse_int-print_int (negsuc n) = unfold parse_int in rw (scan-print_nat (suc n))

-- A text with no space in it.
abbrev pub NoSpaces : String → Type 0
NoSpaces String.[] = Unit
NoSpaces (String.◌∷◌ c s) = (is_space (code c) ≡ false) × NoSpaces s

rstrip-NoSpaces : (s : String) → NoSpaces s → rstrip s ≡ s
unfolding rstrip before_stripped
rstrip-NoSpaces String.[] h = refl
rstrip-NoSpaces (String.◌∷◌ c String.[]) h = rw h.0
rstrip-NoSpaces (String.◌∷◌ c (String.◌∷◌ d s)) h = rw (rstrip-NoSpaces (String.◌∷◌ d s) h.1)

lstrip-NoSpaces : (s : String) → NoSpaces s → lstrip s ≡ s
unfolding lstrip
lstrip-NoSpaces String.[] h = refl
lstrip-NoSpaces (String.◌∷◌ c s) h = rw h.0

pub strip-NoSpaces : (s : String) → NoSpaces s → strip s ≡ s
unfolding strip
strip-NoSpaces s h = rw (lstrip-NoSpaces s h) (rstrip-NoSpaces s h)

digit_not_space : (c : ℕ) → is_digit c ≡ true → is_space c ≡ false
unfolding is_space
digit_not_space c h = ground arith

AllDigits-NoSpaces : (s : String) → AllDigits s → NoSpaces s
AllDigits-NoSpaces String.[] h = tt
AllDigits-NoSpaces (String.◌∷◌ c s) h = (digit_not_space (code c) h.0, AllDigits-NoSpaces s h.1)

pub print_nat-AllDigits : (n : ℕ) → AllDigits (print_nat n)
unfolding print_nat
print_nat-AllDigits n = digits-AllDigits (suc n) n "" tt

print_nat-NoSpaces : (n : ℕ) → NoSpaces (print_nat n)
print_nat-NoSpaces n = AllDigits-NoSpaces _ (print_nat-AllDigits n)

pub strip-print_int : (z : ℤ) → strip (print_int z) ≡ print_int z
unfolding print_int is_space
strip-print_int (pos n) = strip-NoSpaces _ (print_nat-NoSpaces n)
strip-print_int (negsuc n) = strip-NoSpaces _ (refl, print_nat-NoSpaces (suc n))
