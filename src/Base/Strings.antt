-- ===== src/Base/Strings.antt =====
-- C strings as their bytes before the terminator, and `strcmp` on them.
use Prim.Native.Nat.{ℕ}
use Prim.Native.Char.{code}
use Prim.Native.String.{String}
use mathlib.Core.Path.{◌≡◌, refl, subst}
use mathlib.Core.Logic.{◌↔◌}
use mathlib.Core.Bool.{Bool, true, false}
use mathlib.Core.List.{List, [], ◌∷◌}
use native.Mathlib.Omega.{arith}
use qorechain_pqc.Base.Tests.{ltb, ◌==◌, if◌then◌else◌}
use qorechain_pqc.Base.Int.{ℤ, pos, negsuc}

abbrev pub Text : Type 0
Text = List ℕ

-- The bytes of an ASCII literal.
abbrev pub codes : String → Text
codes String.[] = []
codes (String.◌∷◌ c s) = code c ∷ codes s

-- The sign of `strcmp`.
unfoldable pub strcmp : Text → Text → ℤ
strcmp [] [] = pos 0
strcmp [] (b ∷ t) = negsuc 0
strcmp (a ∷ s) [] = pos 1
strcmp (a ∷ s) (b ∷ t) = if a == b then strcmp s t else (if ltb a b then negsuc 0 else pos 1)

abbrev is_zero : ℤ → Bool
is_zero (pos n) = n == 0
is_zero (negsuc n) = false

-- `!strcmp(s, t)`
abbrev pub str_eq : Text → Text → Bool
str_eq s t = is_zero (strcmp s t)

str_eq_iff_left : (s t : Text) → str_eq s t ≡ true → s ≡ t
unfolding strcmp
str_eq_iff_left [] [] h = refl
str_eq_iff_left [] (b ∷ t) h = ground arith
str_eq_iff_left (a ∷ s) [] h = ground arith
str_eq_iff_left (a ∷ s) (b ∷ t) h = ground (arith, str_eq_iff_left s t)

pub str_eq_self : (s : Text) → str_eq s s ≡ true
unfolding strcmp
str_eq_self [] = refl
str_eq_self (a ∷ s) = ground (arith, str_eq_self s)

pub str_eq_iff : (s t : Text) → (str_eq s t ≡ true) ↔ (s ≡ t)
str_eq_iff s t = (str_eq_iff_left s t, λ e. subst (λ r. str_eq s r ≡ true) e (str_eq_self s))
