-- ===== src/Bindings/Guards.antt =====
-- The checks in front of the libraries: what the library would do with an argument of another length
-- does not matter, since no such argument gets there.
use qorechain_pqc.Base.{
  ℕ, ◌≡◌, refl, Bool, ◌==◌, Option, none, some, List, length, Text, arith, Bool-cases, Option-cases,
  inl, inr,
}
use qorechain_pqc.Machine.{Source}
use qorechain_pqc.Dsa.Sign.{zeros}
use qorechain_pqc.Bindings.{Level, Lengths}
use qorechain_pqc.Bindings.Java.{mldsa_params}
use qorechain_pqc.Bindings.Java.Primitives.{BouncyDsa}
use qorechain_pqc.Bindings.Java.Methods as Java
use qorechain_pqc.Bindings.Js.Wrap as Js
use qorechain_pqc.Bindings.Rust.{mldsa_level}
use qorechain_pqc.Bindings.Rust.Levels as Rust
use qorechain_pqc.Bindings.Python.Effects.{
  State, with_lock, with_object, custom_algorithm, switch_to_system, draw_source, source_of,
}
use qorechain_pqc.Bindings.Python.Handles.{MlDsa}
use qorechain_pqc.Bindings.Python.Package as Package
use qorechain_pqc.Bindings.Python.Methods as Python

module _ (noble : Js.NobleSig) (lens : Lengths)
    (f : Source → List ℕ → List ℕ → Js.SignOptions → Option (List ℕ))
    (same : (r : Source) (m k : List ℕ) (o : Js.SignOptions)
      → length k ≡ lens.secret_key
      → f r m k o ≡ noble.sign_noble r m k o) where
  js_sign_guard :
      (r : Source) (sk m : Option (List ℕ)) (hedged : Bool)
      → Js.sign (record noble { sign_noble = f }) lens r sk m hedged
        ≡ Js.sign noble lens r sk m hedged
  unfolding Js.sign
  js_sign_guard r none m hedged = refl
  js_sign_guard r (some k) none hedged = ground arith
  js_sign_guard r (some k) (some m) hedged =
      ground (arith, same r m k Js.left_out, same r m k Js.no_extra_entropy)

module _ {P S : Type 0} (fips204 : Rust.Fips204 P S) (level : Level) (f : List ℕ → Option S)
    (same : (k : List ℕ)
      → length k ≡ (mldsa_level level).secret_key
      → f k ≡ fips204.private_from_bytes k) where
  rust_sign_guard :
      (r : Source) (k m : List ℕ)
      → (Rust.sign (record fips204 { private_from_bytes = f }) level k m
          ≡ Rust.sign fips204 level k m)
        × (Rust.sign_hedged (record fips204 { private_from_bytes = f }) level r k m
            ≡ Rust.sign_hedged fips204 level r k m)
  unfolding Rust.sign Rust.sign_hedged
  rust_sign_guard r k m = elim (Bool-cases (length k == (mldsa_level level).secret_key)) [
    | inr other ↦ rw other (refl, refl)
    | inl whole ↦ rw (whole, same k (ground arith)) (refl, refl)
  ]

module _ {P S : Type 0} (bc : BouncyDsa P S) (f : Level → List ℕ → Option S)
    (same : (level : Level) (k : List ℕ) → length k ≡ 32 → f level k ≡ bc.private_key level k) where
  java_sign_guard :
      (r : Source) (level : Option Text) (k m : Option (List ℕ))
      → (Java.mldsa_sign (record bc { private_key = f }) level k m ≡ Java.mldsa_sign bc level k m)
        × (Java.mldsa_sign_hedged (record bc { private_key = f }) r level k m
            ≡ Java.mldsa_sign_hedged bc r level k m)
        × (Java.mldsa_keygen_from_seed (record bc { private_key = f }) level k
            ≡ Java.mldsa_keygen_from_seed bc level k)
  unfolding Java.mldsa_sign Java.mldsa_sign_hedged Java.mldsa_keygen_from_seed
  java_sign_guard r none k m = (refl, refl, refl)
  java_sign_guard r (some name) none m = (refl, refl, refl)
  java_sign_guard r (some name) (some k) m = elim (Bool-cases (length k == 32)) [
    | inr other ↦ rw other (ground arith, ground arith, ground arith)
    | inl whole ↦ elim (Option-cases (mldsa_params name)) [
      | inl missing ↦ rw (whole, missing) (ground arith, ground arith, ground arith)
      | inr (level, e) ↦
          rw (whole, e, same level k (ground arith)) (ground arith, ground arith, ground arith)
    ]
  ]

-- A package that has this object for the algorithm, whatever else it has.
module _ (pyoqs pyoqs' : Package.Package) (self : MlDsa) (s : Package.Signature)
    (f : Source → List ℕ → List ℕ → Option (List ℕ)) (found : pyoqs.signature self.alg ≡ some s)
    (found' : pyoqs'.signature self.alg ≡ some (record s { sign_message = f }))
    (same : (r : Source) (k m : List ℕ)
      → length k ≡ self.lens.secret_key
      → f r k m ≡ s.sign_message r k m) where
  python_sign_guard :
      (sk m : Option (List ℕ)) (hedged : Bool) (w : State)
      → Python.sign pyoqs' self sk m hedged w ≡ Python.sign pyoqs self sk m hedged w
  unfolding Python.sign with_lock with_object draw_source custom_algorithm switch_to_system
  python_sign_guard none m hedged w = refl
  python_sign_guard (some k) none hedged w = ground arith
  python_sign_guard (some k) (some m) hedged w =
      elim (Bool-cases (length k == self.lens.secret_key)) [
        | inr other ↦ rw other refl
        | inl whole ↦
            rw (whole, found, found') (ground (arith, same (source_of w w.rng) k m, same zeros k m))
      ]

-- The libraries' functions that take a secret key, and others that agree with them on keys of the
-- level's length (in Java, of the seed's) and do anything with others.
module _ {P S P' S' : Type 0} (level : Level) (lens : Lengths) (self : MlDsa) (noble : Js.NobleSig)
    (fips204 : Rust.Fips204 P S) (bc : BouncyDsa P' S') (pyoqs pyoqs' : Package.Package)
    (s : Package.Signature) (on_js : Source → List ℕ → List ℕ → Js.SignOptions → Option (List ℕ))
    (on_rust : List ℕ → Option S) (on_java : Level → List ℕ → Option S')
    (on_python : Source → List ℕ → List ℕ → Option (List ℕ)) where
  -- Whatever arguments they get, signing and hedged signing of the JavaScript, Rust and Python bindings,
  -- and signing, hedged signing and key generation from a seed of the Java binding, give the same result
  -- over a library that does anything else with a secret key that has not the length of the handle's
  -- table, of the level, or of the seed: no such key reaches the library. In Python the outcome includes
  -- the state.
  pub sign_guards :
      ((r : Source) (m k : List ℕ) (o : Js.SignOptions)
        → length k ≡ lens.secret_key
        → on_js r m k o ≡ noble.sign_noble r m k o)
      → ((k : List ℕ)
          → length k ≡ (mldsa_level level).secret_key
          → on_rust k ≡ fips204.private_from_bytes k)
      → ((any : Level) (k : List ℕ) → length k ≡ 32 → on_java any k ≡ bc.private_key any k)
      → pyoqs.signature self.alg ≡ some s
      → pyoqs'.signature self.alg ≡ some (record s { sign_message = on_python })
      → ((r : Source) (k m : List ℕ)
          → length k ≡ self.lens.secret_key
          → on_python r k m ≡ s.sign_message r k m)
      → (r : Source) (sk m : Option (List ℕ)) (hedged : Bool) (k n : List ℕ) (name : Option Text)
        (w : State)
      → (Js.sign (record noble { sign_noble = on_js }) lens r sk m hedged
          ≡ Js.sign noble lens r sk m hedged)
        × (Rust.sign (record fips204 { private_from_bytes = on_rust }) level k n
            ≡ Rust.sign fips204 level k n)
        × (Rust.sign_hedged (record fips204 { private_from_bytes = on_rust }) level r k n
            ≡ Rust.sign_hedged fips204 level r k n)
        × (Java.mldsa_sign (record bc { private_key = on_java }) name sk m
            ≡ Java.mldsa_sign bc name sk m)
        × (Java.mldsa_sign_hedged (record bc { private_key = on_java }) r name sk m
            ≡ Java.mldsa_sign_hedged bc r name sk m)
        × (Java.mldsa_keygen_from_seed (record bc { private_key = on_java }) name sk
            ≡ Java.mldsa_keygen_from_seed bc name sk)
        × (Python.sign pyoqs' self sk m hedged w ≡ Python.sign pyoqs self sk m hedged w)
  sign_guards js_same rust_same java_same found found' python_same r sk m hedged k n name w =
      let (rust, rust') = rust_sign_guard fips204 level on_rust rust_same r k n in
      let (java, java', java'') = java_sign_guard bc on_java java_same r name sk m in
      (
        js_sign_guard noble lens on_js js_same r sk m hedged,
        rust,
        rust',
        java,
        java',
        java'',
        python_sign_guard pyoqs pyoqs' self s on_python found found' python_same sk m hedged w,
      )
