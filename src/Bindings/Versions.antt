-- ===== src/Bindings/Versions.antt =====
-- The choice of the form in the five bindings and in c/qorechain_pqc.c, for the same records.
use qorechain_pqc.Base.{
  ◌≡◌, refl, sym, ap, ◌∙◌, ℤ, pos, Bool, ◌||◌, Option, none, some, List, [], ◌∷◌, map, arith, Text,
  codes, strcmp, str_eq,
}
use qorechain_pqc.Upgrades.{v2_upgrades}
use qorechain_pqc.Upgrades.Rule.{Answer, is_positive, applied, rule}
use qorechain_pqc.Upgrades.Order.{asked, asked-rule}
use qorechain_pqc.Bindings.{Height, number, Applied, Dict}
use qorechain_pqc.Bindings.Go
use qorechain_pqc.Bindings.Java
use qorechain_pqc.Bindings.Js
use qorechain_pqc.Bindings.Python
use qorechain_pqc.Bindings.Rust
use qorechain_pqc.Bindings.Forms.{number_of, version_number}
use qorechain_pqc.Bindings.Heights.{
  typed, records, higher_of_two, rust_two, java_two, either_typed, js_typed,
}

str_eq_comm : (s t : Text) → str_eq s t ≡ str_eq t s
unfolding strcmp
str_eq_comm [] [] = refl
str_eq_comm [] (b ∷ t) = refl
str_eq_comm (a ∷ s) [] = refl
str_eq_comm (a ∷ s) (b ∷ t) = ground (arith, str_eq_comm s t)

-- The same records as the arrays of the C function.
abbrev pub answer_for : Applied → Text → Answer
answer_for heights name = record { name = some name; height = Go.lookup (heights name) }

abbrev pub answers_for : Applied → List Answer
answers_for heights = map (answer_for heights) v2_upgrades

-- Some known plan was applied.
abbrev switched : Applied → Bool
switched heights =
    is_positive (Go.lookup (heights (codes "v3.2.0")))
    || is_positive (Go.lookup (heights (codes "v3.1.98")))

applied-answers_for : (heights : Applied) → applied (answers_for heights) ≡ switched heights
unfolding applied strcmp
applied-answers_for heights = ground arith

module _ (chain_id : Text) where
  abbrev rule_of : Bool → ℤ
  rule_of switched = rule (some chain_id) switched

  go_for : (h : ℤ) → Go.sign_bytes_version_for chain_id h ≡ rule_of (is_positive h)
  unfolding Go.sign_bytes_version_for rule
  go_for h = ground (
    arith,
    str_eq_comm (codes "qorechain-vladi") chain_id,
    str_eq_comm (codes "qorechain-diana") chain_id,
  )

  go-rule :
      (heights : Applied)
      → Go.sign_bytes_version_for_applied chain_id heights ≡ rule_of (switched heights)
  unfolding Go.sign_bytes_version_for_applied
  go-rule heights =
      go_for _
      ∙ ap rule_of (
          higher_of_two (Go.lookup (heights (codes "v3.2.0")))
            (Go.lookup (heights (codes "v3.1.98"))))

  rust_for : (h : ℤ) → number_of (Rust.sign_bytes_version_for chain_id h) ≡ rule_of (is_positive h)
  unfolding Rust.sign_bytes_version_for rule
  rust_for h = ground arith

  rust-rule :
      (heights : Applied)
      → number_of (Rust.sign_bytes_version_for_applied chain_id heights)
        ≡ rule_of (switched heights)
  unfolding Rust.sign_bytes_version_for_applied
  rust-rule heights =
      rust_for _ ∙ ap rule_of (rust_two (heights (codes "v3.2.0")) (heights (codes "v3.1.98")))

  python_for :
      (v : Height)
      → version_number (Python.sign_bytes_version_for chain_id v)
        ≡ rule_of (is_positive (Python.height v))
  unfolding Python.sign_bytes_version_for rule strcmp
  python_for v = ground arith

  python-rule :
      (heights : Option Dict)
      → version_number (Python.sign_bytes_version_for_applied chain_id heights)
        ≡ rule_of (switched (records heights))
  unfolding Python.sign_bytes_version_for_applied
  python-rule none = python_for (number (pos 0))
  python-rule (some heights) =
      python_for _
      ∙ ap rule_of (
          higher_of_two (Python.height (Python.get (heights (codes "v3.2.0"))))
            (Python.height (Python.get (heights (codes "v3.1.98"))))
          ∙ either_typed (heights (codes "v3.2.0")) (heights (codes "v3.1.98")))

  js_for :
      (v : Height)
      → version_number (Js.sign_bytes_version_for chain_id v)
        ≡ rule_of (is_positive (Js.to_height v))
  unfolding Js.sign_bytes_version_for rule strcmp
  js_for v = ground arith

  js-rule :
      (heights : Option Dict)
      → version_number (Js.sign_bytes_version_for_applied chain_id heights)
        ≡ rule_of (switched (records heights))
  unfolding Js.sign_bytes_version_for_applied
  js-rule none = js_for (number (pos 0))
  js-rule (some heights) =
      js_for _
      ∙ ap rule_of (
          higher_of_two (Js.to_height (Js.get_in (some heights) (codes "v3.2.0")))
            (Js.to_height (Js.get_in (some heights) (codes "v3.1.98")))
          ∙ ap
              (λ h.
                is_positive h
                || is_positive (Js.to_height (Js.get_in (some heights) (codes "v3.1.98"))))
              (js_typed (heights (codes "v3.2.0")))
          ∙ ap (λ h. is_positive (Go.lookup (typed (heights (codes "v3.2.0")))) || is_positive h)
              (js_typed (heights (codes "v3.1.98"))))

  java_for :
      (h : ℤ) → Java.sign_bytes_version_for (some chain_id) h ≡ some (rule_of (is_positive h))
  unfolding Java.sign_bytes_version_for rule
  java_for h = ground arith

  java-rule :
      (heights : Applied)
      → Java.sign_bytes_version_for_applied (some chain_id) (some heights)
        ≡ some (rule_of (switched heights))
  unfolding Java.sign_bytes_version_for_applied
  java-rule heights =
      java_for _
      ∙ ap (λ b. some (rule_of b)) (java_two (heights (codes "v3.2.0")) (heights (codes "v3.1.98")))

  -- For any chain-id and any records, `qpqc_sign_bytes_version_for_applied` on the arrays of the known
  -- names and their heights, and the functions of the Go, Rust, Python, JavaScript and Java bindings on
  -- the map, name the same form; a record that is missing, None or empty counts as height 0.
  pub same_version :
      (heights : Option Dict)
      → (asked (some chain_id) (answers_for (records heights))
          ≡ some (Go.sign_bytes_version_for_applied chain_id (records heights)))
        × (number_of (Rust.sign_bytes_version_for_applied chain_id (records heights))
            ≡ Go.sign_bytes_version_for_applied chain_id (records heights))
        × (version_number (Python.sign_bytes_version_for_applied chain_id heights)
            ≡ Go.sign_bytes_version_for_applied chain_id (records heights))
        × (version_number (Js.sign_bytes_version_for_applied chain_id heights)
            ≡ Go.sign_bytes_version_for_applied chain_id (records heights))
        × (Java.sign_bytes_version_for_applied (some chain_id) (some (records heights))
            ≡ some (Go.sign_bytes_version_for_applied chain_id (records heights)))
  same_version heights =
      let go = sym (go-rule (records heights)) in
      (
        asked-rule (some chain_id) (answers_for (records heights))
            ∙ ap (λ b. some (rule_of b)) (applied-answers_for (records heights))
            ∙ ap some go,
        rust-rule (records heights) ∙ go,
        python-rule heights ∙ go,
        js-rule heights ∙ go,
        java-rule (records heights) ∙ ap some go,
      )
