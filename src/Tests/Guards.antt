-- ===== src/Tests/Guards.antt =====
-- The theorems on keys from a seed and on what reaches a library, applied to small libraries.
use qorechain_pqc.Base.{
  ℕ, ◌≡◌, refl, false, ◌==◌, Option, none, some, List, length, if◌then◌else◌, arith,
}
use qorechain_pqc.Machine.{Source}
use qorechain_pqc.Dsa.Sign.{zeros}
use qorechain_pqc.Bindings.{Level, ml_dsa_87, level_name}
use qorechain_pqc.Bindings.Fips.{fips_lengths}
use qorechain_pqc.Bindings.Go.Schemes as Go
use qorechain_pqc.Bindings.Java.Primitives.{ok, thrown}
use qorechain_pqc.Bindings.Java.Methods as Java
use qorechain_pqc.Bindings.Js.Wrap as Js
use qorechain_pqc.Bindings.Rust.Levels as Rust
use qorechain_pqc.Bindings.Python.Package as Package
use qorechain_pqc.Bindings.Python.Methods as Python
use qorechain_pqc.Bindings.Signatures.{java_refusal}
use qorechain_pqc.Bindings.SameKeys.{same_keys}
use qorechain_pqc.Bindings.Guards.{sign_guards}
use qorechain_pqc.Tests.Libraries.{
  message, seed, toy_signature, toy_public, toy_private, noble, fips204, circl, bouncy, pyoqs,
  py_signature, handle, fresh,
}

same_keys_example :
    (Js.keygen noble (fips_lengths ml_dsa_87) zeros (some (some seed))
      ≡ (if length seed == 32 then some (toy_public seed, toy_private seed) else none))
    × (Go.keygen_from_seed circl seed
        ≡ (if length seed == 32 then some (toy_public seed, toy_private seed) else none))
    × (Java.mldsa_keygen_from_seed bouncy (some (level_name ml_dsa_87)) (some seed) ≡ (
        if length seed == 32
        then ok (toy_public seed, seed)
        else thrown (java_refusal ml_dsa_87 seed)))
same_keys_example =
    same_keys ml_dsa_87 seed (toy_public seed) (toy_private seed) noble circl bouncy (λ h r. refl)
      refl (λ h. refl) (λ h. refl) (λ h. (seed, refl, refl, refl)) zeros

-- A message is no seed.
same_keys_refused : Go.keygen_from_seed circl message ≡ none
unfolding Go.keygen_from_seed
same_keys_refused = refl

-- Functions that differ from those of the libraries on keys of other lengths.
abbrev other_js : Source → List ℕ → List ℕ → Js.SignOptions → Option (List ℕ)
other_js r m k o = if length k == 4896 then some (toy_signature m) else some k

abbrev other_rust : List ℕ → Option (List ℕ)
other_rust k = if length k == 4896 then some k else some message

abbrev other_java : Level → List ℕ → Option (List ℕ)
other_java level k = if length k == 32 then some k else some message

abbrev other_python : Source → List ℕ → List ℕ → Option (List ℕ)
other_python r k m = if length k == 4896 then some (toy_signature m) else some k

abbrev other_pyoqs : Package.Package
other_pyoqs = record pyoqs {
  signature = λ alg. some (record py_signature { sign_message = other_python });
}

sign_guards_example :
    (Js.sign
        (record noble { sign_noble = other_js })
        (fips_lengths ml_dsa_87)
        zeros
        (some message)
        (some message)
        false
      ≡ Js.sign noble (fips_lengths ml_dsa_87) zeros (some message) (some message) false)
    × (Rust.sign (record fips204 { private_from_bytes = other_rust }) ml_dsa_87 message message
        ≡ Rust.sign fips204 ml_dsa_87 message message)
    × (Rust.sign_hedged
          (record fips204 { private_from_bytes = other_rust })
          ml_dsa_87
          zeros
          message
          message
        ≡ Rust.sign_hedged fips204 ml_dsa_87 zeros message message)
    × (Java.mldsa_sign
          (record bouncy { private_key = other_java })
          (some (level_name ml_dsa_87))
          (some message)
          (some message)
        ≡ Java.mldsa_sign bouncy (some (level_name ml_dsa_87)) (some message) (some message))
    × (Java.mldsa_sign_hedged
          (record bouncy { private_key = other_java })
          zeros
          (some (level_name ml_dsa_87))
          (some message)
          (some message)
        ≡ Java.mldsa_sign_hedged bouncy zeros
            (some (level_name ml_dsa_87))
            (some message)
            (some message))
    × (Java.mldsa_keygen_from_seed
          (record bouncy { private_key = other_java })
          (some (level_name ml_dsa_87))
          (some message)
        ≡ Java.mldsa_keygen_from_seed bouncy (some (level_name ml_dsa_87)) (some message))
    × (Python.sign other_pyoqs handle (some message) (some message) false fresh
        ≡ Python.sign pyoqs handle (some message) (some message) false fresh)
sign_guards_example =
    sign_guards ml_dsa_87 (fips_lengths ml_dsa_87) handle noble fips204 bouncy pyoqs other_pyoqs
      py_signature other_js other_rust other_java other_python (λ r m k o h. ground arith)
      (λ k h. ground arith) (λ any k h. ground arith) refl refl (λ r k m h. ground arith) zeros
      (some message) (some message) false message message (some (level_name ml_dsa_87)) fresh
