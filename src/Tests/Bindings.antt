-- ===== src/Tests/Bindings.antt =====
-- The theorems on the bindings, applied to small messages and to records of two networks.
use qorechain_pqc.Base.{
  inr, length, Option, Bool, true, ◌&&◌, ◌==◌, ◌≢◌, replicate, length-replicate, ℕ, ◌≡◌, refl, pos,
  none, some, List, [], ◌∷◌, ◌>>=◌, arith, Text, codes, str_eq, if◌then◌else◌, strcmp,
}
use qorechain_pqc.SignBytes.{sign_bytes_v2, hybrid_sign_bytes}
use qorechain_pqc.SignBytes.Form.{sign_bytes_form, answer}
use qorechain_pqc.Upgrades.Order.{asked}
use qorechain_pqc.Bindings.{Dict, number}
use qorechain_pqc.Bindings.Go
use qorechain_pqc.Bindings.Java
use qorechain_pqc.Bindings.Js
use qorechain_pqc.Bindings.Python
use qorechain_pqc.Bindings.Rust
use qorechain_pqc.Bindings.Pieces.{bounded}
use qorechain_pqc.Bindings.Arrays.{java-form}
use qorechain_pqc.Bindings.Forms.{number_of, version_number, python-form, packable}
use qorechain_pqc.Bindings.Heights.{records}
use qorechain_pqc.Bindings.Versions.{answers_for, same_version}
use qorechain_pqc.Bindings.Agreement.{same_sign_bytes}
use qorechain_pqc.Bindings.Fips.{fips_lengths, accepts}
use qorechain_pqc.Bindings.Verdicts.{verdict_code}
use qorechain_pqc.Bindings.SameVerdict.{same_verdict}
use qorechain_pqc.Bindings.Batch.{Batch, batch_verify-Batch}
use qorechain_pqc.Oqs.{Sig, Oqs}
use qorechain_pqc.Dsa.{mldsa_verify, mldsa_default}
use qorechain_pqc.Machine.Ends.{Ends}
use qorechain_pqc.Bindings.{ml_dsa_87, level_name, Lengths, Verifier}
use qorechain_pqc.Tests.Fixtures.{start, no_out, toy_sig, toy_oqs}

abbrev body : List ℕ
body = 1 ∷ 2 ∷ 3 ∷ []

abbrev auth : List ℕ
auth = 4 ∷ 5 ∷ []

abbrev testnet : Text
testnet = codes "qorechain-diana"

-- The records of a network that took the switch under the older name.
abbrev heights : Dict
heights name = if str_eq name (codes "v3.1.98") then some (number (pos 900)) else none

java-form_example :
    Java.hybrid_sign_bytes sign_bytes_v2 (some testnet) (some body) (some auth)
    ≡ (sign_bytes_form sign_bytes_v2 testnet body auth >>= bounded)
java-form_example = java-form body auth sign_bytes_v2 (some testnet)

python-form_example : Python.hybrid_sign_bytes (codes "v2") testnet body auth ≡ (
    if packable body auth
    then sign_bytes_form (version_number (codes "v2")) testnet body auth
    else none)
python-form_example = python-form body auth testnet (codes "v2") (omega arith)

same_sign_bytes_example :
    (hybrid_sign_bytes sign_bytes_v2 (some testnet) 15 (some body) 3 (some auth) 2 no_out start
      ≡ answer start no_out (Go.hybrid_sign_bytes sign_bytes_v2 testnet body auth))
    × (Rust.try_hybrid_sign_bytes Rust.v2 testnet body auth
        ≡ Go.hybrid_sign_bytes sign_bytes_v2 testnet body auth)
    × (Python.hybrid_sign_bytes (codes "v2") testnet body auth
        ≡ Go.hybrid_sign_bytes sign_bytes_v2 testnet body auth)
    × (Js.hybrid_sign_bytes (codes "v2") (some testnet) body auth
        ≡ Go.hybrid_sign_bytes sign_bytes_v2 testnet body auth)
    × (Java.hybrid_sign_bytes sign_bytes_v2 (some testnet) (some body) (some auth)
        ≡ Go.hybrid_sign_bytes sign_bytes_v2 testnet body auth)
same_sign_bytes_example = same_sign_bytes testnet body auth (omega arith) Rust.v2 no_out start

same_version_example :
    (asked (some testnet) (answers_for (records (some heights)))
      ≡ some (Go.sign_bytes_version_for_applied testnet (records (some heights))))
    × (number_of (Rust.sign_bytes_version_for_applied testnet (records (some heights)))
        ≡ Go.sign_bytes_version_for_applied testnet (records (some heights)))
    × (version_number (Python.sign_bytes_version_for_applied testnet (some heights))
        ≡ Go.sign_bytes_version_for_applied testnet (records (some heights)))
    × (version_number (Js.sign_bytes_version_for_applied testnet (some heights))
        ≡ Go.sign_bytes_version_for_applied testnet (records (some heights)))
    × (Java.sign_bytes_version_for_applied (some testnet) (some (records (some heights)))
        ≡ some (Go.sign_bytes_version_for_applied testnet (records (some heights))))
same_version_example = same_version testnet (some heights)

-- That network verifies v2, and before the switch it verified v1.
testnet_switched : Go.sign_bytes_version_for_applied testnet (records (some heights)) ≡ pos 2
unfolding Go.sign_bytes_version_for_applied Go.sign_bytes_version_for strcmp
testnet_switched = refl

testnet_before : Go.sign_bytes_version_for_applied testnet (records none) ≡ pos 1
unfolding Go.sign_bytes_version_for_applied Go.sign_bytes_version_for strcmp
testnet_before = refl

-- An exception where the C function answers 2.
java_null : Java.sign_bytes_version_for none (pos 0) ≡ none
unfolding Java.sign_bytes_version_for
java_null = refl

-- A signature is valid if it has the first byte of the message in front.
abbrev first : List ℕ → ℕ
first [] = 0
first (b ∷ bs) = b

abbrev toy_holds : List ℕ → List ℕ → List ℕ → Bool
toy_holds m sig pk = first m == first sig

abbrev toy_verifier : Verifier
toy_verifier m sig pk = some (toy_holds m sig pk)

abbrev toy_circl : Go.Scheme (List ℕ)
toy_circl = record {
  signature_size = 4627;
  unmarshal_binary_public_key = λ pk. if length pk == 2592 then some pk else none;
  scheme_verify = λ pk m sig. toy_holds m sig pk;
}

abbrev toy_fips204 : Rust.Scheme (List ℕ)
toy_fips204 = record { try_from_bytes = λ pk. some pk; key_verify = λ pk m sig. toy_holds m sig pk }

abbrev full_sig : Sig
full_sig = record toy_sig {
  length_public_key = 2592;
  verify = λ m sig pk. length sig == 4627 && toy_holds m sig pk;
}

abbrev full_oqs : Oqs
full_oqs = record toy_oqs { sig = λ name. some full_sig }

abbrev whole_key : List ℕ
whole_key = replicate 2592 7

abbrev whole_sig : List ℕ
whole_sig = replicate 4627 1

circl_refuses : length whole_key ≢ 2592 → toy_circl.unmarshal_binary_public_key whole_key ≡ none
circl_refuses wrong = absurd (wrong (length-replicate 2592 7))

circl_takes :
    length whole_key ≡ 2592 → toy_circl.unmarshal_binary_public_key whole_key ≡ some whole_key
circl_takes whole = ground arith

same_verdict_example :
    (Js.sig_lengths (level_name ml_dsa_87) ≡ some (fips_lengths ml_dsa_87))
    × (Js.verify toy_verifier (fips_lengths ml_dsa_87) (some whole_key) (some body) (some whole_sig)
        ≡ accepts ml_dsa_87 toy_holds body whole_sig whole_key)
    × (Python.mldsa_lengths (level_name ml_dsa_87) ≡ some (fips_lengths ml_dsa_87))
    × (Python.verify toy_verifier
          (fips_lengths ml_dsa_87)
          (some whole_key)
          (some body)
          (some whole_sig)
        ≡ accepts ml_dsa_87 toy_holds body whole_sig whole_key)
    × (Java.mldsa_verify
          (λ level. toy_verifier)
          (some (level_name ml_dsa_87))
          (some whole_key)
          (some body)
          (some whole_sig)
        ≡ some (accepts ml_dsa_87 toy_holds body whole_sig whole_key))
    × (Go.verify toy_circl whole_key body whole_sig
        ≡ accepts ml_dsa_87 toy_holds body whole_sig whole_key)
    × (Rust.verify toy_fips204 ml_dsa_87 whole_key body whole_sig
        ≡ accepts ml_dsa_87 toy_holds body whole_sig whole_key)
    × Ends
        (λ rc _. rc ≡ verdict_code ml_dsa_87 toy_holds body whole_sig whole_key)
        (mldsa_verify full_oqs mldsa_default
          (some whole_key)
          (length whole_key)
          (some body)
          3
          (some whole_sig)
          (length whole_sig)
          start)
same_verdict_example =
    same_verdict ml_dsa_87 toy_holds toy_verifier toy_verifier (λ level. toy_verifier) toy_circl
      toy_fips204 full_oqs mldsa_default full_sig body whole_sig whole_key (λ h k. refl)
      (λ h k. refl) (λ h k. refl) refl circl_refuses (λ h k. (whole_key, circl_takes h, refl))
      (λ h k. inr (whole_key, refl, refl)) refl refl (λ h. refl) start refl

-- That signature is accepted.
whole_accepted : accepts ml_dsa_87 toy_holds body whole_sig whole_key ≡ true
unfolding replicate
whole_accepted = refl

abbrev small : Lengths
small = record { public_key = 1; secret_key = 1; signature = 1 }

-- The second element has no signature.
abbrev items : List (Option Js.Item)
items =
    some (record { public_key = some (1 ∷ []); message = some (5 ∷ []); signature = some (5 ∷ []) })
    ∷ some (record { public_key = some (1 ∷ []); message = some (5 ∷ []); signature = none })
    ∷ none
    ∷ []

batch_verify-Batch_example :
    Batch toy_verifier small 0 items (Js.batch_verify toy_verifier small items)
batch_verify-Batch_example = batch_verify-Batch toy_verifier small items

second_invalid : Js.batch_verify toy_verifier small items ≡ pos 1
unfolding Js.batch_verify
second_invalid = refl
