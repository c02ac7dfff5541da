-- ===== src/Prelude/Search.antt =====
-- Python's `str.startswith` and `in` on texts.
use Prim.Native.Nat.{ℕ}
use Prim.Native.Char.{code}
use Prim.Native.String.{String, [], ◌∷◌}
use mathlib.Core.Bool.{Bool, true, false, ◌&&◌, ◌||◌}
use tender_phase.Prelude.Tests.{◌==◌}

-- `s` begins with `t`, the characters of `s` being read through a function.
unfoldable pub begins_through : (ℕ → ℕ) → String → String → Bool
begins_through f s [] = true
begins_through f [] (d ∷ t) = false
begins_through f (c ∷ s) (d ∷ t) = f (code c) == code d && begins_through f s t

unfoldable pub begins_with : String → String → Bool
begins_with s t = begins_through (λ c. c) s t

-- `t in s`
unfoldable pub contains : (ℕ → ℕ) → String → String → Bool
contains f [] t = begins_through f "" t
contains f (c ∷ s) t = begins_through f (c ∷ s) t || contains f s t
