-- ===== src/Bindings/Fips.antt =====
-- The lengths of ML-DSA in FIPS 204 and in the tables of the bindings, and the tests of lengths in front
-- of verification.
use qorechain_pqc.Base.{
  ℕ, ◌≡◌, refl, Bool, false, not, ◌&&◌, ◌||◌, ◌==◌, some, List, arith, length, if◌then◌else◌,
  Bool-cases, inl, inr, strcmp,
}
use qorechain_pqc.Bindings.{Level, ml_dsa_44, ml_dsa_65, ml_dsa_87, level_name, Lengths}
use qorechain_pqc.Bindings.Java
use qorechain_pqc.Bindings.Js
use qorechain_pqc.Bindings.Python
use qorechain_pqc.Bindings.Rust

-- FIPS 204, table 2: the bytes of a public key, of a secret key and of a signature.
abbrev pub fips_lengths : Level → Lengths
fips_lengths ml_dsa_44 = record { public_key = 1312; secret_key = 2560; signature = 2420 }
fips_lengths ml_dsa_65 = record { public_key = 1952; secret_key = 4032; signature = 3309 }
fips_lengths ml_dsa_87 = record { public_key = 2592; secret_key = 4896; signature = 4627 }

-- Verification of a message, a signature and a public key on whole byte strings of any length.
module _ (level : Level) (holds : List ℕ → List ℕ → List ℕ → Bool) where
  abbrev pub accepts : List ℕ → List ℕ → List ℕ → Bool
  accepts m sig pk =
      length pk == (fips_lengths level).public_key
      && (length sig == (fips_lengths level).signature && holds m sig pk)

  module _ (m sig pk : List ℕ) where
    pub guarded :
        (answer : Bool)
        → (length pk ≡ (fips_lengths level).public_key
            → length sig ≡ (fips_lengths level).signature
            → answer ≡ holds m sig pk)
        → (if not (length pk == (fips_lengths level).public_key)
            then false
            else (if not (length sig == (fips_lengths level).signature) then false else answer))
          ≡ accepts m sig pk
    guarded answer agree = elim (Bool-cases (length pk == (fips_lengths level).public_key)) [
      | inr other ↦ rw other
      | inl whole ↦ rw whole (elim (Bool-cases (length sig == (fips_lengths level).signature)) [
        | inr other ↦ rw other
        | inl whole' ↦ rw whole' (agree (ground arith) (ground arith))
      ])
    ]

-- The same where the key is looked at last.
pub guarded_size :
    (level : Level) (holds : List ℕ → List ℕ → List ℕ → Bool) (m sig pk : List ℕ) (answer : Bool)
    → (length sig ≡ (fips_lengths level).signature → answer ≡ accepts level holds m sig pk)
    → (if not (length sig == (fips_lengths level).signature) then false else answer)
      ≡ accepts level holds m sig pk
guarded_size level holds m sig pk answer agree =
    elim (Bool-cases (length sig == (fips_lengths level).signature)) [
      | inl whole ↦ ground (arith, agree (ground arith))
      | inr other ↦ ground arith
    ]

pub js_lengths : (level : Level) → Js.sig_lengths (level_name level) ≡ some (fips_lengths level)
unfolding strcmp
js_lengths ml_dsa_44 = refl
js_lengths ml_dsa_65 = refl
js_lengths ml_dsa_87 = refl

pub python_lengths :
    (level : Level) → Python.mldsa_lengths (level_name level) ≡ some (fips_lengths level)
unfolding strcmp
python_lengths ml_dsa_44 = refl
python_lengths ml_dsa_65 = refl
python_lengths ml_dsa_87 = refl

pub rust_lengths : (level : Level) → Rust.mldsa_level level ≡ fips_lengths level
rust_lengths ml_dsa_44 = refl
rust_lengths ml_dsa_65 = refl
rust_lengths ml_dsa_87 = refl

pub java_switch :
    (level : Level)
    → (Java.mldsa_params (level_name level) ≡ some level)
      × (Java.mldsa_public_key_length (level_name level) ≡ some (fips_lengths level).public_key)
      × (Java.mldsa_signature_length (level_name level) ≡ some (fips_lengths level).signature)
unfolding strcmp Java.mldsa_params Java.mldsa_public_key_length Java.mldsa_signature_length
java_switch ml_dsa_44 = (refl, refl, refl)
java_switch ml_dsa_65 = (refl, refl, refl)
java_switch ml_dsa_87 = (refl, refl, refl)

pub if_or :
    (a b c : Bool)
    → (if not a || not b then false else c)
      ≡ (if not a then false else (if not b then false else c))
if_or a b c = ground arith

pub if_some :
    (a : Bool) (b : Bool)
    → (if not a then some false else some b) ≡ some (if not a then false else b)
if_some a b = ground arith
