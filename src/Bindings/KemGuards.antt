-- ===== src/Bindings/KemGuards.antt =====
-- The checks in front of the libraries of ML-KEM: no key and no ciphertext of another length gets there.
use qorechain_pqc.Base.{
  ℕ, ◌≡◌, refl, ◌==◌, Option, none, some, List, length, Text, arith, Bool-cases, Option-cases, ◌⊎◌,
  inl, inr, str_eq, codes,
}
use qorechain_pqc.Machine.{Source}
use qorechain_pqc.Bindings.{KemLevel, KemLengths, ml_kem_512, ml_kem_768, ml_kem_1024}
use qorechain_pqc.Bindings.Secrets.{kem_sizes, rust_kem_lengths}
use qorechain_pqc.Bindings.Java.Primitives.{
  BouncyKem, mlkem_lengths, mlkem_params, Exception, unknown_level, ok, thrown,
}
use qorechain_pqc.Bindings.Java.Methods as Java
use qorechain_pqc.Bindings.Js.Wrap as Js
use qorechain_pqc.Bindings.Rust.Levels as Rust
use qorechain_pqc.Bindings.Python.Effects.{State, with_lock, with_object, draw_source, source_of}
use qorechain_pqc.Bindings.Python.Handles.{MlKem}
use qorechain_pqc.Bindings.Python.Package as Package
use qorechain_pqc.Bindings.Python.Methods as Python

-- The crate and Bouncy Castle with other functions from bytes.
abbrev pub replaced :
    {E D C : Type 0}
    → Rust.Fips203 E D C
    → (List ℕ → Option E)
    → (List ℕ → Option D)
    → (List ℕ → Option C)
    → Rust.Fips203 E D C
replaced fips203 f g h = record fips203 {
  encaps_from_bytes = f;
  decaps_from_bytes = g;
  ciphertext_from_bytes = h;
}

abbrev pub java_replaced :
    {P S : Type 0}
    → BouncyKem P S
    → (KemLevel → List ℕ → Option P)
    → (KemLevel → List ℕ → Option S)
    → (S → List ℕ → Option (List ℕ))
    → BouncyKem P S
java_replaced bc f g h = record bc { kem_public_key = f; kem_private_key = g; extract_secret = h }

module _ (noble : Js.NobleKem) (lens : KemLengths) (f : Source → List ℕ → Option (List ℕ × List ℕ))
    (g : List ℕ → List ℕ → Option (List ℕ))
    (same : (r : Source) (pk : List ℕ)
      → length pk ≡ lens.public_key
      → f r pk ≡ noble.encapsulate_noble r pk)
    (same' : (c k : List ℕ)
      → length k ≡ lens.secret_key
      → length c ≡ lens.ciphertext
      → g c k ≡ noble.decapsulate_noble c k) where
  pub js_kem_guard :
      (r : Source) (pk sk ct : Option (List ℕ))
      → (Js.encapsulate (record noble { encapsulate_noble = f; decapsulate_noble = g }) lens r pk
          ≡ Js.encapsulate noble lens r pk)
        × (Js.decapsulate
              (record noble { encapsulate_noble = f; decapsulate_noble = g })
              lens
              r
              sk
              ct
            ≡ Js.decapsulate noble lens r sk ct)
  unfolding Js.encapsulate Js.decapsulate
  js_kem_guard r pk sk ct = (encaps pk, decaps sk ct)
    where
      encaps :
          (pk : Option (List ℕ))
          → Js.encapsulate (record noble { encapsulate_noble = f; decapsulate_noble = g }) lens r pk
            ≡ Js.encapsulate noble lens r pk
      encaps none = refl
      encaps (some pk) = ground (arith, same r pk)

      decaps :
          (sk ct : Option (List ℕ))
          → Js.decapsulate
              (record noble { encapsulate_noble = f; decapsulate_noble = g })
              lens
              r
              sk
              ct
            ≡ Js.decapsulate noble lens r sk ct
      decaps none ct = refl
      decaps (some k) none = ground arith
      decaps (some k) (some c) = ground (arith, same' c k)

module _ {E D C : Type 0} (fips203 : Rust.Fips203 E D C) (level : KemLevel) (f : List ℕ → Option E)
    (g : List ℕ → Option D) (h : List ℕ → Option C)
    (same : (pk : List ℕ)
      → length pk ≡ (kem_sizes level).public_key
      → f pk ≡ fips203.encaps_from_bytes pk)
    (same' : (k : List ℕ)
      → length k ≡ (kem_sizes level).secret_key
      → g k ≡ fips203.decaps_from_bytes k)
    (same'' : (c : List ℕ)
      → length c ≡ (kem_sizes level).ciphertext
      → h c ≡ fips203.ciphertext_from_bytes c) where
  pub rust_kem_guard :
      (r : Source) (pk k c : List ℕ)
      → (Rust.encapsulate (replaced fips203 f g h) level r pk ≡ Rust.encapsulate fips203 level r pk)
        × (Rust.decapsulate (replaced fips203 f g h) level k c ≡ Rust.decapsulate fips203 level k c)
  unfolding Rust.encapsulate Rust.decapsulate
  rust_kem_guard r pk k c =
      rw (rust_kem_lengths level) (ground (arith, same pk), ground (arith, same' k, same'' c))

-- The Java switches know the same levels.
java_levels :
    (name : Text)
    → ((e : Exception) × (mlkem_lengths name ≡ thrown e))
      ⊎ ((level : KemLevel) × (mlkem_lengths name ≡ ok (kem_sizes level))
          × (mlkem_params name ≡ ok level))
unfolding mlkem_lengths mlkem_params
java_levels name = elim (Bool-cases (str_eq name (codes "ml-kem-512"))) [
  | inl e ↦ inr (ml_kem_512, rw e refl, rw e refl)
  | inr e ↦ elim (Bool-cases (str_eq name (codes "ml-kem-768"))) [
    | inl e' ↦ inr (ml_kem_768, rw (e, e') refl, rw (e, e') refl)
    | inr e' ↦ elim (Bool-cases (str_eq name (codes "ml-kem-1024"))) [
      | inl e'' ↦ inr (ml_kem_1024, rw (e, e', e'') refl, rw (e, e', e'') refl)
      | inr e'' ↦ inl (unknown_level, rw (e, e', e'') refl)
    ]
  ]
]

module _ {P S : Type 0} (bc : BouncyKem P S) (f : KemLevel → List ℕ → Option P)
    (g : KemLevel → List ℕ → Option S) (h : S → List ℕ → Option (List ℕ))
    (same : (level : KemLevel) (pk : List ℕ)
      → length pk ≡ (kem_sizes level).public_key
      → f level pk ≡ bc.kem_public_key level pk)
    (same' : (level : KemLevel) (k : List ℕ)
      → length k ≡ (kem_sizes level).secret_key
      → g level k ≡ bc.kem_private_key level k)
    (same'' : (level : KemLevel) (k : List ℕ) (key : S) (c : List ℕ)
      → bc.kem_private_key level k ≡ some key
      → length c ≡ (kem_sizes level).ciphertext
      → h key c ≡ bc.extract_secret key c) where
  pub java_encaps_guard :
      (r : Source) (name : Option Text) (pk : Option (List ℕ))
      → Java.mlkem_encapsulate (java_replaced bc f g h) r name pk
        ≡ Java.mlkem_encapsulate bc r name pk
  unfolding Java.mlkem_encapsulate
  java_encaps_guard r none pk = refl
  java_encaps_guard r (some name) none = ground arith
  java_encaps_guard r (some name) (some pk) = elim (java_levels name) [
    | inl (e, unknown) ↦ rw unknown refl
    | inr (level, lens, params) ↦
        rw (lens, params)
          (elim (Bool-cases (length pk == (kem_sizes level).public_key)) [
            | inr other ↦ rw other refl
            | inl whole ↦ rw (whole, same level pk (ground arith)) refl
          ])
  ]

  pub java_decaps_guard :
      (name : Option Text) (sk ct : Option (List ℕ))
      → Java.mlkem_decapsulate (java_replaced bc f g h) name sk ct
        ≡ Java.mlkem_decapsulate bc name sk ct
  unfolding Java.mlkem_decapsulate
  java_decaps_guard none sk ct = refl
  java_decaps_guard (some name) none ct = ground arith
  java_decaps_guard (some name) (some k) none = ground arith
  java_decaps_guard (some name) (some k) (some c) = elim (java_levels name) [
    | inl (e, unknown) ↦ rw unknown refl
    | inr (level, lens, params) ↦
        rw (lens, params)
          (elim (Bool-cases (length k == (kem_sizes level).secret_key)) [
            | inr other ↦ rw other refl
            | inl whole ↦ elim (Bool-cases (length c == (kem_sizes level).ciphertext)) [
              | inr other ↦ rw (whole, other) refl
              | inl whole' ↦
                  rw (whole, whole', same' level k (ground arith))
                    (elim (Option-cases (bc.kem_private_key level k)) [
                      | inl refused ↦ rw refused refl
                      | inr (key, e) ↦ rw (e, same'' level k key c e (ground arith)) refl
                    ])
            ]
          ])
  ]

module _ (pyoqs pyoqs' : Package.Package) (self : MlKem) (o : Package.KeyEncapsulation)
    (f : Source → List ℕ → Option (List ℕ × List ℕ)) (g : List ℕ → List ℕ → Option (List ℕ))
    (found : pyoqs.kem self.alg ≡ some o)
    (found' : pyoqs'.kem self.alg ≡ some (record o { encap_secret = f; decap_secret = g }))
    (same : (r : Source) (pk : List ℕ)
      → length pk ≡ self.lens.public_key
      → f r pk ≡ o.encap_secret r pk)
    (same' : (k c : List ℕ)
      → length k ≡ self.lens.secret_key
      → length c ≡ self.lens.ciphertext
      → g k c ≡ o.decap_secret k c) where
  pub python_encaps_guard :
      (pk : Option (List ℕ)) (w : State)
      → Python.encapsulate pyoqs' self pk w ≡ Python.encapsulate pyoqs self pk w
  unfolding Python.encapsulate with_lock with_object draw_source
  python_encaps_guard none w = refl
  python_encaps_guard (some pk) w = rw (found, found') (ground (arith, same (source_of w w.rng) pk))

  pub python_decaps_guard :
      (sk ct : Option (List ℕ)) (w : State)
      → Python.decapsulate pyoqs' self sk ct w ≡ Python.decapsulate pyoqs self sk ct w
  unfolding Python.decapsulate with_object
  python_decaps_guard none ct w = refl
  python_decaps_guard (some k) none w = ground arith
  python_decaps_guard (some k) (some c) w = rw (found, found') (ground (arith, same' k c))
