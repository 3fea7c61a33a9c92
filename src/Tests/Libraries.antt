-- ===== src/Tests/Libraries.antt =====
-- Small libraries below the bindings, which agree with each other, and the theorems on signing,
-- decapsulation, keys and hashes over them.
use mathlib.Core.Path.{subst}
use qorechain_pqc.Base.{
  ℕ, ◌≡◌, refl, ap, sym, ◌≢◌, ◌==◌, true, false, none, some, some_inj, List, [], ◌∷◌, arith, length,
  length-replicate, replicate, if◌then◌else◌, Text, strcmp,
}
use qorechain_pqc.Machine.{system}
use qorechain_pqc.Machine.Ends.{Ends}
use qorechain_pqc.Oqs.{Sig, SigLaws, Oqs}
use qorechain_pqc.Dsa.{mldsa_sign, mldsa_default}
use qorechain_pqc.Dsa.Sign.{zeros}
use qorechain_pqc.Bindings.{ml_dsa_87, level_name}
use qorechain_pqc.Bindings.Fips.{fips_lengths}
use qorechain_pqc.Bindings.Go.Schemes as Go
use qorechain_pqc.Bindings.Java.Primitives.{BouncyDsa}
use qorechain_pqc.Bindings.Java.Methods as Java
use qorechain_pqc.Bindings.Js.{sig_lengths}
use qorechain_pqc.Bindings.Js.Wrap as Js
use qorechain_pqc.Bindings.Rust.Levels as Rust
use qorechain_pqc.Bindings.Python.Effects.{State}
use qorechain_pqc.Bindings.Python.Handles.{MlDsa, mldsa_handle}
use qorechain_pqc.Bindings.Python.Package as Package
use qorechain_pqc.Bindings.Python.Methods as Python
use qorechain_pqc.Bindings.Python.Draws.{value_of}
use qorechain_pqc.Bindings.Signatures.{signature_for, java_answer, CSignature}
use qorechain_pqc.Bindings.SameSignature.{same_signature}
use qorechain_pqc.Tests.Fixtures.{start, no_out, toy_oqs, first_byte}

abbrev pub message : List ℕ
message = 5 ∷ 6 ∷ []

abbrev pub whole_key : List ℕ
whole_key = replicate 4896 7

abbrev pub seed : List ℕ
seed = replicate 32 9

-- A signature repeats the first byte of the message.
abbrev pub toy_signature : List ℕ → List ℕ
toy_signature m = replicate 4627 (first_byte m)

-- The keys of a seed: its first byte again and again.
abbrev pub toy_public : List ℕ → List ℕ
toy_public xi = replicate 2592 (first_byte xi)

abbrev pub toy_private : List ℕ → List ℕ
toy_private xi = replicate 4896 (first_byte xi)

abbrev pub noble : Js.NobleSig
noble = record {
  generate = λ r given. elim given [
    | none ↦ some (toy_public (r 0 32), toy_private (r 0 32))
    | some xi ↦ some (toy_public xi, toy_private xi)
  ];
  sign_noble = λ r m k o. some (toy_signature m);
}

abbrev pub fips204 : Rust.Fips204 (List ℕ) (List ℕ)
fips204 = record {
  try_keygen = λ r. some (toy_public (r 0 32), toy_private (r 0 32));
  derive = λ xi. (toy_public xi.bytes, toy_private xi.bytes);
  public_into_bytes = λ pk. pk;
  private_into_bytes = λ sk. sk;
  private_from_bytes = λ k. some k;
  try_sign_with_seed = λ k rnd m. some (toy_signature m);
  try_sign = λ r k m. some (toy_signature m);
}

abbrev pub circl : Go.SignScheme (List ℕ) (List ℕ)
circl = record {
  size_of_seed = 32;
  size_of_signature = 4627;
  generate_key = λ r. some (toy_public (r 0 32), toy_private (r 0 32));
  derive_key = λ xi. (toy_public xi, toy_private xi);
  marshal_public = λ pk. pk;
  marshal_private = λ sk. sk;
  unmarshal_private = λ k. if length k == 4896 then some k else none;
  sign_scheme = λ k m. toy_signature m;
}

abbrev pub bouncy : BouncyDsa (List ℕ) (List ℕ)
bouncy = record {
  generate_dsa = λ r level. some (toy_public (r 0 32), r 0 32);
  private_key = λ level xi. some xi;
  public_of = toy_public;
  public_encoded = λ pk. pk;
  seed_of = λ xi. xi;
  generate_signature = λ xi r m. some (toy_signature m);
}

abbrev pub py_signature : Package.Signature
py_signature = record {
  generate_keypair = λ r. some (toy_public (r 0 32), toy_private (r 0 32));
  export_secret_key = λ own. some own;
  sign_message = λ r own m. some (toy_signature m);
  check = λ m sig pk. some true;
}

-- Secrets of 3 bytes.
abbrev pub py_kem : Package.KeyEncapsulation
py_kem = record {
  generate_keypair = λ r. some (replicate 1568 (first_byte (r 0 64)), replicate 3168 1);
  export_secret_key = λ own. some own;
  encap_secret = λ r pk. some (replicate 1568 (first_byte pk), first_byte pk ∷ 1 ∷ 2 ∷ []);
  decap_secret = λ own ct. some (first_byte ct ∷ 1 ∷ 2 ∷ []);
}

abbrev pub pyoqs : Package.Package
pyoqs = record { signature = λ alg. some py_signature; kem = λ alg. some py_kem }

abbrev pub handle : MlDsa
handle = record { alg = mldsa_default; lens = fips_lengths ml_dsa_87 }

pub handle_known : mldsa_handle (level_name ml_dsa_87) ≡ some handle
unfolding mldsa_handle strcmp
handle_known = refl

-- A Python process at its start.
abbrev pub fresh : State
fresh = record {
  locked = false;
  rng = system;
  entropy = λ n i k. replicate k n;
  draws = 0;
  objects = 0;
  requests = 0;
  refuse = λ n. false;
  log = [];
}

abbrev pub full_sig : Sig
full_sig = record {
  length_public_key = 2592;
  length_secret_key = 4896;
  length_signature = 4627;
  keypair = λ r. (true, toy_public (r 0 32), toy_private (r 0 32));
  sign = λ r m k. record { success = true; bytes = toy_signature m; reported = some 4627 };
  verify = λ m sig pk. true;
}

abbrev pub full_oqs : Oqs
full_oqs = record toy_oqs { sig = λ name. some full_sig }

full_sig_laws : SigLaws full_sig
full_sig_laws = record {
  keypair_fits = λ r. (
    omega (arith, length-replicate 2592 (first_byte (r 0 32))),
    omega (arith, length-replicate 4896 (first_byte (r 0 32))),
  );
  keypair_full = λ r h.
      (length-replicate 2592 (first_byte (r 0 32)), length-replicate 4896 (first_byte (r 0 32)));
  sign_fits = λ r m k. omega (arith, length-replicate 4627 (first_byte m));
  sign_reports = λ r m k h. ap some (sym (length-replicate 4627 (first_byte m)));
}

full_laws : (name : Text) (s : Sig) → full_oqs.sig name ≡ some s → SigLaws s
full_laws name s e = subst SigLaws (some_inj full_sig s e) full_sig_laws

circl_refuses : length whole_key ≢ 4896 → circl.unmarshal_private whole_key ≡ none
circl_refuses wrong = absurd (wrong (length-replicate 4896 7))

circl_takes :
    length whole_key ≡ 4896
    → (key : List ℕ) × (circl.unmarshal_private whole_key ≡ some key)
      × (circl.sign_scheme key message ≡ toy_signature message)
circl_takes whole = (whole_key, ground arith, refl)

same_signature_example :
    (sig_lengths (level_name ml_dsa_87) ≡ some (fips_lengths ml_dsa_87))
    × (Js.sign noble (fips_lengths ml_dsa_87) zeros (some whole_key) (some message) false
        ≡ signature_for ml_dsa_87 whole_key (toy_signature message))
    × (Rust.sign fips204 ml_dsa_87 whole_key message
        ≡ signature_for ml_dsa_87 whole_key (toy_signature message))
    × (Go.sign circl whole_key message ≡ signature_for ml_dsa_87 whole_key (toy_signature message))
    × (value_of (Python.sign pyoqs handle (some whole_key) (some message) false fresh)
        ≡ signature_for ml_dsa_87 whole_key (toy_signature message))
    × (Java.mldsa_sign bouncy (some (level_name ml_dsa_87)) (some seed) (some message)
        ≡ java_answer ml_dsa_87 seed (toy_signature message))
    × Ends (CSignature ml_dsa_87 whole_key message (toy_signature message)) (
        mldsa_sign full_oqs mldsa_default
          (some whole_key)
          (length whole_key)
          (some message)
          2
          no_out
          start)
same_signature_example =
    same_signature ml_dsa_87 whole_key message (toy_signature message) seed noble fips204 circl
      bouncy pyoqs handle py_signature full_oqs full_laws mldsa_default full_sig (λ h r. refl)
      (λ h. refl) circl_refuses circl_takes handle_known refl (λ h. refl) (λ h. (seed, refl, refl))
      refl refl refl (λ h. (refl, refl)) zeros fresh no_out start refl refl refl refl refl refl
