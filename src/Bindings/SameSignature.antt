-- ===== src/Bindings/SameSignature.antt =====
-- One signature for a key and a message: `qpqc_mldsa_sign` and the deterministic signing of the five
-- bindings.
use qorechain_pqc.Base.{
  ℕ, suc, ◌≡◌, ◌≢◌, true, false, none, some, ◌>>=◌, List, length, replicate, Text,
}
use qorechain_pqc.Machine.{World, Source, system}
use qorechain_pqc.Machine.Ends.{Ends}
use qorechain_pqc.Oqs.{Sig, SigLaws, Oqs}
use qorechain_pqc.SignBytes.{Out}
use qorechain_pqc.Dsa.{mldsa_sign}
use qorechain_pqc.Dsa.Sign.{zeros}
use qorechain_pqc.Bindings.{Level, level_name}
use qorechain_pqc.Bindings.Fips.{fips_lengths, js_lengths}
use qorechain_pqc.Bindings.Go.Schemes as Go
use qorechain_pqc.Bindings.Java.Primitives.{BouncyDsa}
use qorechain_pqc.Bindings.Java.Methods as Java
use qorechain_pqc.Bindings.Js.{sig_lengths}
use qorechain_pqc.Bindings.Js.Wrap as Js
use qorechain_pqc.Bindings.Rust.Levels as Rust
use qorechain_pqc.Bindings.Python.Draws.{value_of}
use qorechain_pqc.Bindings.Python.Effects.{State}
use qorechain_pqc.Bindings.Python.Handles.{MlDsa, mldsa_handle}
use qorechain_pqc.Bindings.Python.Package as Package
use qorechain_pqc.Bindings.Python.Methods as Python
use qorechain_pqc.Bindings.Signatures.{
  signature_for, java_answer, CSignature, js_signature, rust_signature, go_signature, python_handle,
  python_signature, java_signature, c_signature,
}

-- A level, a key of any length, a message and the signature that FIPS 204's deterministic variant
-- makes of them, the seed that stands for the key in Java, and the libraries.
module _ {P S P' S' P'' S'' : Type 0} (level : Level) (k m sig seed : List ℕ) (noble : Js.NobleSig)
    (fips204 : Rust.Fips204 P S) (circl : Go.SignScheme P' S') (bouncy : BouncyDsa P'' S'')
    (pyoqs : Package.Package) (self : MlDsa) (o : Package.Signature) (oqs : Oqs)
    (laws : (alg : Text) (s : Sig) → oqs.sig alg ≡ some s → SigLaws s) (alg : Text) (s : Sig) where
  -- If the libraries make this signature with a key of the level's length, CIRCL takes no key of
  -- another, and Bouncy Castle makes it with the 32 bytes of the seed: then for a key of the level's
  -- length deterministic signing gives just this signature in JavaScript, with the lengths of its
  -- table, in Rust, in Go and, with the lock free and an object to be had, in Python, and for a key of another length none of the four gives
  -- one. Java gives it for a seed of 32 bytes, and for any other length an exception, which tells
  -- the length of the expanded key apart. `qpqc_mldsa_sign`, with the lock free, the system's generator
  -- and its memory, gives it with its length for a key of the level's length, and else QPQC_ERR.
  pub same_signature :
      (length k ≡ (fips_lengths level).secret_key
        → (random : Source) → noble.sign_noble random m k Js.no_extra_entropy ≡ some sig)
      → (length k ≡ (fips_lengths level).secret_key
          → (fips204.private_from_bytes k >>= λ key.
              fips204.try_sign_with_seed key (replicate 32 0) m)
            ≡ some sig)
      → (length k ≢ (fips_lengths level).secret_key → circl.unmarshal_private k ≡ none)
      → (length k ≡ (fips_lengths level).secret_key
          → (key : S') × (circl.unmarshal_private k ≡ some key) × (circl.sign_scheme key m ≡ sig))
      → mldsa_handle (level_name level) ≡ some self
      → pyoqs.signature self.alg ≡ some o
      → (length k ≡ (fips_lengths level).secret_key → o.sign_message zeros k m ≡ some sig)
      → (length seed ≡ 32
          → (key : S'') × (bouncy.private_key level seed ≡ some key)
            × (bouncy.generate_signature key none m ≡ some sig))
      → oqs.sig alg ≡ some s
      → s.length_secret_key ≡ (fips_lengths level).secret_key
      → s.length_signature ≡ (fips_lengths level).signature
      → (length k ≡ (fips_lengths level).secret_key
          → ((s.sign zeros m k).success ≡ true) × ((s.sign zeros m k).bytes ≡ sig))
      → (random : Source) (p : State) (out : Out) (w : World) → p.locked ≡ false
      → p.refuse p.requests ≡ false
      → w.held ≡ false
      → w.rng ≡ system
      → w.refuse w.calls ≡ false
      → w.refuse (suc w.calls) ≡ false
      → (sig_lengths (level_name level) ≡ some (fips_lengths level))
        × (Js.sign noble (fips_lengths level) random (some k) (some m) false
            ≡ signature_for level k sig)
        × (Rust.sign fips204 level k m ≡ signature_for level k sig)
        × (Go.sign circl k m ≡ signature_for level k sig)
        × (value_of (Python.sign pyoqs self (some k) (some m) false p) ≡ signature_for level k sig)
        × (Java.mldsa_sign bouncy (some (level_name level)) (some seed) (some m)
            ≡ java_answer level seed sig)
        × Ends
            (CSignature level k m sig)
            (mldsa_sign oqs alg (some k) (length k) (some m) (length m) out w)
  same_signature noble_signs fips204_signs refuses circl_signs handle found pyoqs_signs bouncy_signs
        known key_size size oqs_signs random p out w unlocked had free sys grant grant' =
      (
        js_lengths level,
        js_signature level k m sig noble random (λ whole. noble_signs whole random),
        rust_signature level k m sig fips204 fips204_signs,
        go_signature level k m sig circl refuses circl_signs,
        python_signature level k m sig pyoqs self o p (python_handle level self handle) found
            pyoqs_signs unlocked had,
        java_signature level k m sig bouncy seed bouncy_signs,
        c_signature level k m sig oqs laws alg s known key_size size oqs_signs out w free sys grant
            grant',
      )
