-- ===== src/Bindings/KemGuarded.antt =====
-- Encapsulation and decapsulation of the bindings over two libraries that differ only on arguments of
-- other lengths.
use qorechain_pqc.Base.{ℕ, ◌≡◌, Option, some, List, length, Text}
use qorechain_pqc.Machine.{Source}
use qorechain_pqc.Bindings.{KemLevel, KemLengths}
use qorechain_pqc.Bindings.Java.Primitives.{BouncyKem}
use qorechain_pqc.Bindings.Java.Methods as Java
use qorechain_pqc.Bindings.Js.Wrap as Js
use qorechain_pqc.Bindings.Rust.Levels as Rust
use qorechain_pqc.Bindings.Python.Effects.{State}
use qorechain_pqc.Bindings.Python.Handles.{MlKem}
use qorechain_pqc.Bindings.Python.Package as Package
use qorechain_pqc.Bindings.Python.Methods as Python
use qorechain_pqc.Bindings.Secrets.{kem_sizes}
use qorechain_pqc.Bindings.KemGuards.{
  replaced, java_replaced, js_kem_guard, rust_kem_guard, java_encaps_guard, java_decaps_guard,
  python_encaps_guard, python_decaps_guard,
}

-- The libraries' functions that take a key or a ciphertext, and others that agree with them on those of
-- the level's length and do anything with others.
module _ {E D C P S : Type 0} (level : KemLevel) (lens : KemLengths) (self : MlKem)
    (noble : Js.NobleKem) (fips203 : Rust.Fips203 E D C) (bc : BouncyKem P S)
    (pyoqs pyoqs' : Package.Package) (o : Package.KeyEncapsulation)
    (on_js on_python : Source → List ℕ → Option (List ℕ × List ℕ))
    (on_js' on_python' : List ℕ → List ℕ → Option (List ℕ)) (on_rust : List ℕ → Option E)
    (on_rust' : List ℕ → Option D) (on_rust'' : List ℕ → Option C)
    (on_java : KemLevel → List ℕ → Option P) (on_java' : KemLevel → List ℕ → Option S)
    (on_java'' : S → List ℕ → Option (List ℕ)) where
  -- Whatever arguments they get, encapsulation and decapsulation of the JavaScript, Rust, Java and
  -- Python bindings give the same result over a library that does anything else with public keys,
  -- secret keys and ciphertexts that have not the lengths of the handle's table or of the level: no such
  -- argument reaches the library. In Python the outcome includes the state.
  pub kem_guards :
      ((r : Source) (pk : List ℕ)
        → length pk ≡ lens.public_key
        → on_js r pk ≡ noble.encapsulate_noble r pk)
      → ((c k : List ℕ)
          → length k ≡ lens.secret_key
          → length c ≡ lens.ciphertext
          → on_js' c k ≡ noble.decapsulate_noble c k)
      → ((pk : List ℕ)
          → length pk ≡ (kem_sizes level).public_key
          → on_rust pk ≡ fips203.encaps_from_bytes pk)
      → ((k : List ℕ)
          → length k ≡ (kem_sizes level).secret_key
          → on_rust' k ≡ fips203.decaps_from_bytes k)
      → ((c : List ℕ)
          → length c ≡ (kem_sizes level).ciphertext
          → on_rust'' c ≡ fips203.ciphertext_from_bytes c)
      → ((any : KemLevel) (pk : List ℕ)
          → length pk ≡ (kem_sizes any).public_key
          → on_java any pk ≡ bc.kem_public_key any pk)
      → ((any : KemLevel) (k : List ℕ)
          → length k ≡ (kem_sizes any).secret_key
          → on_java' any k ≡ bc.kem_private_key any k)
      → ((any : KemLevel) (k : List ℕ) (key : S) (c : List ℕ)
          → bc.kem_private_key any k ≡ some key
          → length c ≡ (kem_sizes any).ciphertext
          → on_java'' key c ≡ bc.extract_secret key c)
      → pyoqs.kem self.alg ≡ some o
      → pyoqs'.kem self.alg
        ≡ some (record o { encap_secret = on_python; decap_secret = on_python' })
      → ((r : Source) (pk : List ℕ)
          → length pk ≡ self.lens.public_key
          → on_python r pk ≡ o.encap_secret r pk)
      → ((k c : List ℕ)
          → length k ≡ self.lens.secret_key
          → length c ≡ self.lens.ciphertext
          → on_python' k c ≡ o.decap_secret k c)
      → (r : Source) (pk sk ct : Option (List ℕ)) (q k c : List ℕ) (name : Option Text) (w : State)
      → (Js.encapsulate
            (record noble { encapsulate_noble = on_js; decapsulate_noble = on_js' })
            lens
            r
            pk
          ≡ Js.encapsulate noble lens r pk)
        × (Js.decapsulate
              (record noble { encapsulate_noble = on_js; decapsulate_noble = on_js' })
              lens
              r
              sk
              ct
            ≡ Js.decapsulate noble lens r sk ct)
        × (Rust.encapsulate (replaced fips203 on_rust on_rust' on_rust'') level r q
            ≡ Rust.encapsulate fips203 level r q)
        × (Rust.decapsulate (replaced fips203 on_rust on_rust' on_rust'') level k c
            ≡ Rust.decapsulate fips203 level k c)
        × (Java.mlkem_encapsulate (java_replaced bc on_java on_java' on_java'') r name pk
            ≡ Java.mlkem_encapsulate bc r name pk)
        × (Java.mlkem_decapsulate (java_replaced bc on_java on_java' on_java'') name sk ct
            ≡ Java.mlkem_decapsulate bc name sk ct)
        × (Python.encapsulate pyoqs' self pk w ≡ Python.encapsulate pyoqs self pk w)
        × (Python.decapsulate pyoqs' self sk ct w ≡ Python.decapsulate pyoqs self sk ct w)
  kem_guards js js' rust rust' rust'' java java' java'' found found' python python' r pk sk ct q k c
        name w =
      let (js_encaps, js_decaps) = js_kem_guard noble lens on_js on_js' js js' r pk sk ct in
      let (rust_encaps, rust_decaps) =
        rust_kem_guard fips203 level on_rust on_rust' on_rust'' rust rust' rust'' r q k c in
      (
        js_encaps,
        js_decaps,
        rust_encaps,
        rust_decaps,
        java_encaps_guard bc on_java on_java' on_java'' java java' java'' r name pk,
        java_decaps_guard bc on_java on_java' on_java'' java java' java'' name sk ct,
        python_encaps_guard pyoqs pyoqs' self o on_python on_python' found found' python python' pk
            w,
        python_decaps_guard pyoqs pyoqs' self o on_python on_python' found found' python python' sk
            ct w,
      )
