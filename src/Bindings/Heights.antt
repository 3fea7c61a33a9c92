-- ===== src/Bindings/Heights.antt =====
-- When the greatest height is positive: in each of the bindings, if one of the two heights is.
use qorechain_pqc.Base.{
  ◌≡◌, refl, ap, ◌∙◌, ℤ, pos, negsuc, ltb_ℤ, Bool, true, false, ◌||◌, Option, none, some, [], arith,
  if◌then◌else◌,
}
use qorechain_pqc.Upgrades.Rule.{is_positive}
use qorechain_pqc.Bindings.{Height, nothing, blank, number, Applied, Dict}
use qorechain_pqc.Bindings.Go
use qorechain_pqc.Bindings.Java
use qorechain_pqc.Bindings.Js
use qorechain_pqc.Bindings.Python
use qorechain_pqc.Bindings.Rust

-- The records as the typed languages take them.
abbrev pub typed : Option Height → Option ℤ
typed none = none
typed (some v) = some (Python.height v)

abbrev pub records : Option Dict → Applied
records none name = none
records (some heights) name = typed (heights name)

-- The greater of a height and 0 is positive if the height is.
higher : (g h : ℤ) → is_positive (if ltb_ℤ g h then h else g) ≡ (is_positive g || is_positive h)
higher (pos m) (pos n) = ground arith
higher (pos m) (negsuc n) = ground arith
higher (negsuc m) (pos n) = ground arith
higher (negsuc m) (negsuc n) = ground arith

or_false : (b : Bool) → b ≡ (b || false)
or_false true = refl
or_false false = refl

pub higher_of_two :
    (g h : ℤ)
    → is_positive (
        if ltb_ℤ (if ltb_ℤ (pos 0) g then g else pos 0) h
        then h
        else (if ltb_ℤ (pos 0) g then g else pos 0))
      ≡ (is_positive g || is_positive h)
higher_of_two g h =
    higher (if ltb_ℤ (pos 0) g then g else pos 0) h
    ∙ ap (λ b. b || is_positive h) (higher (pos 0) g)

max_higher : (g h : ℤ) → is_positive (Rust.max g h) ≡ (is_positive g || is_positive h)
max_higher (pos m) (pos n) = ground arith
max_higher (pos m) (negsuc n) = ground arith
max_higher (negsuc m) (pos n) = ground arith
max_higher (negsuc m) (negsuc n) = ground arith

pub rust_two :
    (a b : Option ℤ)
    → is_positive (Rust.fold_max (Rust.keep a (Rust.keep b [])) (pos 0))
      ≡ (is_positive (Go.lookup a) || is_positive (Go.lookup b))
rust_two none none = refl
rust_two none (some h) = max_higher (pos 0) h
rust_two (some g) none = max_higher (pos 0) g ∙ or_false (is_positive g)
rust_two (some g) (some h) =
    max_higher (Rust.max (pos 0) g) h ∙ ap (λ b. b || is_positive h) (max_higher (pos 0) g)

pub java_two :
    (a b : Option ℤ)
    → is_positive (Java.raise_to b (Java.raise_to a (pos 0)))
      ≡ (is_positive (Go.lookup a) || is_positive (Go.lookup b))
java_two none none = refl
java_two none (some h) = higher (pos 0) h
java_two (some g) none = higher (pos 0) g ∙ or_false (is_positive g)
java_two (some g) (some h) = higher_of_two g h

pub either_typed :
    (a b : Option Height)
    → (is_positive (Python.height (Python.get a)) || is_positive (Python.height (Python.get b)))
      ≡ (is_positive (Go.lookup (typed a)) || is_positive (Go.lookup (typed b)))
either_typed none none = refl
either_typed none (some h) = refl
either_typed (some g) none = refl
either_typed (some g) (some h) = refl

pub js_typed :
    (a : Option Height)
    → Js.to_height (elim a [ none ↦ nothing | some v ↦ v ]) ≡ Go.lookup (typed a)
js_typed none = refl
js_typed (some nothing) = refl
js_typed (some blank) = refl
js_typed (some (number h)) = refl
