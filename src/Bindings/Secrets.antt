-- ===== src/Bindings/Secrets.antt =====
-- Decapsulation in c/qorechain_pqc.c and in the five bindings, over libraries that agree.
use qorechain_pqc.Base.{
  ℕ, ◌≡◌, refl, ◌≢◌, Bool, true, false, ◌&&◌, ◌==◌, Option, none, some, List, arith, length,
  if◌then◌else◌, Bool-cases, Option-cases, inl, inr, strcmp, ◌>>=◌,
}
use qorechain_pqc.Machine.{Source}
use qorechain_pqc.Bindings.{
  KemLevel, ml_kem_512, ml_kem_768, ml_kem_1024, KemLengths, kem_level_name,
}
use qorechain_pqc.Bindings.Go.Schemes as Go
use qorechain_pqc.Bindings.Java.Primitives.{
  BouncyKem, ok, thrown, wrong_length, mlkem_lengths, mlkem_params,
}
use qorechain_pqc.Bindings.Java.Methods as Java
use qorechain_pqc.Bindings.Js.Wrap as Js
use qorechain_pqc.Bindings.Rust.Levels as Rust
use qorechain_pqc.Bindings.Python.Effects.{State, with_object}
use qorechain_pqc.Bindings.Python.Handles.{MlKem, mlkem_handle}
use qorechain_pqc.Bindings.Python.Package as Package
use qorechain_pqc.Bindings.Python.Methods as Python
use qorechain_pqc.Bindings.Python.Draws.{value_of}

-- FIPS 203, table 3: the bytes of an encapsulation key, of a decapsulation key and of a ciphertext.
abbrev pub kem_sizes : KemLevel → KemLengths
kem_sizes ml_kem_512 = record { public_key = 800; secret_key = 1632; ciphertext = 768 }
kem_sizes ml_kem_768 = record { public_key = 1184; secret_key = 2400; ciphertext = 1088 }
kem_sizes ml_kem_1024 = record { public_key = 1568; secret_key = 3168; ciphertext = 1568 }

abbrev pub whole_pair : KemLevel → List ℕ → List ℕ → Bool
whole_pair level k c =
    length k == (kem_sizes level).secret_key && length c == (kem_sizes level).ciphertext

-- The secret for a key and a ciphertext of the level's lengths, and none for others.
abbrev pub secret_for : KemLevel → List ℕ → List ℕ → List ℕ → Option (List ℕ)
secret_for level k c ss = if whole_pair level k c then some ss else none

pub js_kem_lengths :
    (level : KemLevel) → Js.kem_lengths (kem_level_name level) ≡ some (kem_sizes level)
unfolding strcmp
js_kem_lengths ml_kem_512 = refl
js_kem_lengths ml_kem_768 = refl
js_kem_lengths ml_kem_1024 = refl

pub rust_kem_lengths : (level : KemLevel) → Rust.mlkem_level level ≡ kem_sizes level
rust_kem_lengths ml_kem_512 = refl
rust_kem_lengths ml_kem_768 = refl
rust_kem_lengths ml_kem_1024 = refl

pub java_kem_switch :
    (level : KemLevel)
    → (mlkem_lengths (kem_level_name level) ≡ ok (kem_sizes level))
      × (mlkem_params (kem_level_name level) ≡ ok level)
unfolding strcmp mlkem_lengths mlkem_params
java_kem_switch ml_kem_512 = (refl, refl)
java_kem_switch ml_kem_768 = (refl, refl)
java_kem_switch ml_kem_1024 = (refl, refl)

pub python_kem_handle :
    (level : KemLevel) (self : MlKem)
    → mlkem_handle (kem_level_name level) ≡ some self
    → self.lens ≡ kem_sizes level
unfolding mlkem_handle strcmp
python_kem_handle ml_kem_512 self e = ground arith
python_kem_handle ml_kem_768 self e = ground arith
python_kem_handle ml_kem_1024 self e = ground arith

module _ (level : KemLevel) (k c ss : List ℕ) where
  pub js_secret :
      (noble : Js.NobleKem) (random : Source)
      → (whole_pair level k c ≡ true → noble.decapsulate_noble c k ≡ some ss)
      → Js.decapsulate noble (kem_sizes level) random (some k) (some c) ≡ secret_for level k c ss
  unfolding Js.decapsulate
  js_secret noble random agrees = ground (arith, agrees)

  pub rust_secret :
      {E D C : Type 0} (fips203 : Rust.Fips203 E D C)
      → (whole_pair level k c ≡ true
          → (fips203.decaps_from_bytes k >>= λ dk.
              fips203.ciphertext_from_bytes c >>= λ ct. fips203.try_decaps dk ct)
            ≡ some ss)
      → Rust.decapsulate fips203 level k c ≡ secret_for level k c ss
  unfolding Rust.decapsulate
  rust_secret fips203 agrees = rw (rust_kem_lengths level) (ground (arith, agrees))

  pub go_secret :
      {P S : Type 0} (circl : Go.Kem P S)
      → (length k ≢ (kem_sizes level).secret_key → circl.unmarshal_private k ≡ none)
      → ((key : S)
          → length c ≢ (kem_sizes level).ciphertext
          → circl.scheme_decapsulate key c ≡ none)
      → (whole_pair level k c ≡ true
          → (circl.unmarshal_private k >>= λ key. circl.scheme_decapsulate key c) ≡ some ss)
      → Go.decapsulate circl k c ≡ secret_for level k c ss
  unfolding Go.decapsulate
  go_secret circl refuses rejects agrees =
      elim (Bool-cases (length k == (kem_sizes level).secret_key)) [
        | inr other ↦ rw (other, refuses (λ e. ground arith))
        | inl whole ↦ elim (Bool-cases (length c == (kem_sizes level).ciphertext)) [
          | inl whole' ↦ ground (arith, agrees)
          | inr other ↦ elim (Option-cases (circl.unmarshal_private k)) [
            | inl refused ↦ rw (whole, other, refused)
            | inr (key, e) ↦ rw (whole, other, e, rejects key (λ e'. ground arith))
          ]
        ]
      ]

  pub python_secret :
      (pyoqs : Package.Package) (self : MlKem) (o : Package.KeyEncapsulation) (w : State)
      → self.lens ≡ kem_sizes level
      → pyoqs.kem self.alg ≡ some o
      → (whole_pair level k c ≡ true → o.decap_secret k c ≡ some ss)
      → w.refuse w.requests ≡ false
      → value_of (Python.decapsulate pyoqs self (some k) (some c) w) ≡ secret_for level k c ss
  unfolding Python.decapsulate with_object
  python_secret pyoqs self o w size known agrees grant = rw (size, known) (ground (arith, agrees))

  pub java_secret :
      {P S : Type 0} (bc : BouncyKem P S)
      → (whole_pair level k c ≡ true
          → (key : S) × (bc.kem_private_key level k ≡ some key)
            × (bc.extract_secret key c ≡ some ss))
      → Java.mlkem_decapsulate bc (some (kem_level_name level)) (some k) (some c)
        ≡ (if whole_pair level k c then ok ss else thrown wrong_length)
  unfolding Java.mlkem_decapsulate
  java_secret bc agrees =
      let (lens, params) = java_kem_switch level in
      rw (lens, params)
        (elim (Bool-cases (whole_pair level k c)) [
          | inr other ↦ ground arith
          | inl whole ↦ let (key, known, made) = agrees whole in ground (arith, known, made)
        ])
