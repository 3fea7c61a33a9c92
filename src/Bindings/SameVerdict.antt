-- ===== src/Bindings/SameVerdict.antt =====
-- One verdict on a signature: `qpqc_mldsa_verify` and the verification of the five bindings.
use qorechain_pqc.Base.{ℕ, ◌≡◌, ◌≢◌, ◌⊎◌, false, Bool, ◌&&◌, ◌==◌, none, some, List, length, Text}
use qorechain_pqc.Machine.{World}
use qorechain_pqc.Machine.Ends.{Ends}
use qorechain_pqc.Oqs.{Sig, Oqs}
use qorechain_pqc.Dsa.{mldsa_verify}
use qorechain_pqc.Bindings.{Level, level_name, Verifier}
use qorechain_pqc.Bindings.Go
use qorechain_pqc.Bindings.Java
use qorechain_pqc.Bindings.Js
use qorechain_pqc.Bindings.Python
use qorechain_pqc.Bindings.Rust
use qorechain_pqc.Bindings.Fips.{fips_lengths, accepts, js_lengths, python_lengths}
use qorechain_pqc.Bindings.Verdicts.{
  verdict_code, js_verdict, python_verdict, java_verdict, go_verdict, rust_verdict, c_verdict,
}

-- A level, what FIPS 204 says of messages, signatures and keys of its lengths, the libraries that the
-- bindings use, and arguments.
module _ {K F : Type 0} (level : Level) (holds : List ℕ → List ℕ → List ℕ → Bool)
    (noble pyoqs : Verifier) (bouncy : Level → Verifier) (circl : Go.Scheme K)
    (fips204 : Rust.Scheme F) (oqs : Oqs) (alg : Text) (s : Sig) (m sig pk : List ℕ) where
  -- If the libraries agree with FIPS 204 on a key and a signature of the level's lengths, where CIRCL
  -- takes the key, and fips204 takes it or refuses one under which the signature is not valid, CIRCL
  -- takes no key of another length, and liboqs rejects signatures of another length: then for keys and
  -- signatures of any length the JavaScript, Python, Java, Go and Rust functions accept exactly what has
  -- the lengths of FIPS 204 and is valid by it, the first two with the lengths that their tables give,
  -- and no exception leaves the Java method; and `qpqc_mldsa_verify`, granted its memory, returns 1 for
  -- exactly these, QPQC_ERR for a key of another length, and 0 for the others.
  pub same_verdict :
      (length pk ≡ (fips_lengths level).public_key
        → length sig ≡ (fips_lengths level).signature
        → noble m sig pk ≡ some (holds m sig pk))
      → (length pk ≡ (fips_lengths level).public_key
          → length sig ≡ (fips_lengths level).signature
          → pyoqs m sig pk ≡ some (holds m sig pk))
      → (length pk ≡ (fips_lengths level).public_key
          → length sig ≡ (fips_lengths level).signature
          → bouncy level m sig pk ≡ some (holds m sig pk))
      → circl.signature_size ≡ (fips_lengths level).signature
      → (length pk ≢ (fips_lengths level).public_key → circl.unmarshal_binary_public_key pk ≡ none)
      → (length pk ≡ (fips_lengths level).public_key
          → length sig ≡ (fips_lengths level).signature
          → (key : K) × (circl.unmarshal_binary_public_key pk ≡ some key)
            × (circl.scheme_verify key m sig ≡ holds m sig pk))
      → (length pk ≡ (fips_lengths level).public_key
          → length sig ≡ (fips_lengths level).signature
          → ((fips204.try_from_bytes pk ≡ none) × (holds m sig pk ≡ false))
            ⊎ ((key : F) × (fips204.try_from_bytes pk ≡ some key)
                × (fips204.key_verify key m sig ≡ holds m sig pk)))
      → oqs.sig alg ≡ some s
      → s.length_public_key ≡ (fips_lengths level).public_key
      → (length pk ≡ (fips_lengths level).public_key
          → s.verify m sig pk ≡ (length sig == (fips_lengths level).signature && holds m sig pk))
      → (w : World) → w.refuse w.calls ≡ false
      → (Js.sig_lengths (level_name level) ≡ some (fips_lengths level))
        × (Js.verify noble (fips_lengths level) (some pk) (some m) (some sig)
            ≡ accepts level holds m sig pk)
        × (Python.mldsa_lengths (level_name level) ≡ some (fips_lengths level))
        × (Python.verify pyoqs (fips_lengths level) (some pk) (some m) (some sig)
            ≡ accepts level holds m sig pk)
        × (Java.mldsa_verify bouncy (some (level_name level)) (some pk) (some m) (some sig)
            ≡ some (accepts level holds m sig pk))
        × (Go.verify circl pk m sig ≡ accepts level holds m sig pk)
        × (Rust.verify fips204 level pk m sig ≡ accepts level holds m sig pk)
        × Ends
            (λ rc _. rc ≡ verdict_code level holds m sig pk)
            (mldsa_verify oqs alg
              (some pk)
              (length pk)
              (some m)
              (length m)
              (some sig)
              (length sig)
              w)
  same_verdict noble_holds pyoqs_holds bouncy_holds size refuses circl_holds fips204_holds known
        key_size oqs_holds w grant =
      (
        js_lengths level,
        js_verdict level holds m sig pk noble noble_holds,
        python_lengths level,
        python_verdict level holds m sig pk pyoqs pyoqs_holds,
        java_verdict level holds m sig pk bouncy bouncy_holds,
        go_verdict level holds m sig pk circl size refuses circl_holds,
        rust_verdict level holds m sig pk fips204 fips204_holds,
        c_verdict level holds m sig pk oqs alg s w known key_size oqs_holds grant,
      )
