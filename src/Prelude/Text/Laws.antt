-- ===== src/Prelude/Text/Laws.antt =====
-- `str.strip` and `_as_str` give a text that they leave alone.
use Prim.Native.Char.{Char, code}
use tender_phase.Prelude.{
  String, false, Option, none, some, ◌≡◌, refl, ap, str_eq, Bool-cases, inl, inr, arith,
}
use tender_phase.Prelude.Text.{is_space, lstrip, rstrip, before_stripped, strip, as_str}

-- The first character, if there is one, is no space.
abbrev StartsInk : String → Type 0
StartsInk String.[] = Unit
StartsInk (String.◌∷◌ c s) = is_space (code c) ≡ false

lstrip-StartsInk : (s : String) → StartsInk (lstrip s)
unfolding lstrip
lstrip-StartsInk String.[] = tt
lstrip-StartsInk (String.◌∷◌ c s) = elim (Bool-cases (is_space (code c))) [
  | inl space ↦ rw space (lstrip-StartsInk s)
  | inr ink ↦ rw ink ink
]

lstrip_of_StartsInk : (s : String) → StartsInk s → lstrip s ≡ s
unfolding lstrip
lstrip_of_StartsInk String.[] h = refl
lstrip_of_StartsInk (String.◌∷◌ c s) h = rw h

before_stripped-StartsInk :
    (c : Char) (s : String) → is_space (code c) ≡ false → StartsInk (before_stripped c s)
unfolding before_stripped
before_stripped-StartsInk c String.[] h = rw h h
before_stripped-StartsInk c (String.◌∷◌ d s) h = h

rstrip-StartsInk : (s : String) → StartsInk s → StartsInk (rstrip s)
unfolding rstrip
rstrip-StartsInk String.[] h = tt
rstrip-StartsInk (String.◌∷◌ c s) h = before_stripped-StartsInk c (rstrip s) h

-- A text that `rstrip` leaves alone stays so behind one more character.
rstrip-before_stripped :
    (c : Char) (s : String) → rstrip s ≡ s → rstrip (before_stripped c s) ≡ before_stripped c s
unfolding before_stripped
rstrip-before_stripped c String.[] h = elim (Bool-cases (is_space (code c))) [
  | inl space ↦ unfold rstrip in rw space
  | inr ink ↦ unfold rstrip in rw ink (rw ink)
]
rstrip-before_stripped c (String.◌∷◌ d s) h = unfold rstrip in ap (before_stripped c) h

rstrip-rstrip : (s : String) → rstrip (rstrip s) ≡ rstrip s
unfolding rstrip
rstrip-rstrip String.[] = refl
rstrip-rstrip (String.◌∷◌ c s) = rstrip-before_stripped c (rstrip s) (rstrip-rstrip s)

pub strip-strip : (s : String) → strip (strip s) ≡ strip s
unfolding strip
strip-strip s =
    rw (lstrip_of_StartsInk (rstrip (lstrip s)) (rstrip-StartsInk (lstrip s) (lstrip-StartsInk s)))
      (rstrip-rstrip (lstrip s))

-- What `_as_str` returns is stripped and not empty, and `_as_str` leaves it alone.
pub as_str_lem :
    (o : Option String) {s : String} → as_str o ≡ some s → (strip s ≡ s) × (str_eq s "" ≡ false)
unfolding as_str
as_str_lem none h = cc
as_str_lem (some t) h = ground (arith, strip-strip t)
