-- ===== src/Prelude/Text.antt =====
-- Python text: `str.strip`, and the helper `_as_str` that several modules of the program repeat.
pub mod Laws
use Prim.Native.Nat.{ℕ}
use Prim.Native.Char.{Char, code}
use Prim.Native.String.{String, [], ◌∷◌}
use mathlib.Core.Bool.{Bool, ◌||◌, ◌&&◌}
use mathlib.Core.Option.{Option, none, some}
use text.Mathlib.Text.{◌==◌ as str_eq}
use tender_phase.Prelude.Tests.{leb, ◌==◌, if◌then◌else◌}

-- The characters that `str.isspace` accepts.
unfoldable pub is_space : ℕ → Bool
is_space c =
    (leb 9 c && leb c 13)
    || (leb 28 c && leb c 32)
    || c == 133
    || c == 160
    || c == 5760
    || (leb 8192 c && leb c 8202)
    || c == 8232
    || c == 8233
    || c == 8239
    || c == 8287
    || c == 12288

unfoldable pub lstrip : String → String
lstrip [] = []
lstrip (c ∷ s) = let rest = lstrip s in if is_space (code c) then rest else (c ∷ s)

-- Puts a character before a text that is stripped at its right end.
unfoldable pub before_stripped : Char → String → String
before_stripped c [] = if is_space (code c) then [] else (c ∷ [])
before_stripped c (d ∷ s) = c ∷ d ∷ s

unfoldable pub rstrip : String → String
rstrip [] = []
rstrip (c ∷ s) = before_stripped c (rstrip s)

unfoldable pub strip : String → String
unfolding lstrip rstrip before_stripped is_space
strip s = rstrip (lstrip s)

-- `_as_str`: the stripped text, or `None` if nothing is left of it.
unfoldable pub as_str : Option String → Option String
as_str none = none
as_str (some s) = let t = strip s in if str_eq t "" then none else some t

-- A text that `_as_str` treats as missing.
unfoldable pub is_blank : String → Bool
is_blank s = str_eq (strip s) ""
