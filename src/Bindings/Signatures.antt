-- ===== src/Bindings/Signatures.antt =====
-- Deterministic signing in c/qorechain_pqc.c and in the five bindings, over libraries that agree.
use qorechain_pqc.Base.{
  ℕ, ◌≡◌, refl, sym, ap, ◌∙◌, ◌≢◌, ℤ, true, false, ◌==◌, ==_iff, Option, none, some, List, suc,
  arith, length, if◌then◌else◌, Bool-cases, inl, inr, Text, some_inj, strcmp, ◌>>=◌, replicate,
}
use qorechain_pqc.Machine.{Cell, World, Source, system}
use qorechain_pqc.Machine.Args.{some-Holds}
use qorechain_pqc.Machine.Ends.{Ends, Ends-mono, part}
use qorechain_pqc.Oqs.{Sig, SigLaws, Oqs}
use qorechain_pqc.SignBytes.{qpqc_ok, qpqc_err, Out}
use qorechain_pqc.Dsa.{status, mldsa_sign}
use qorechain_pqc.Dsa.Sign.{zeros, sign_events, mldsa_sign-SignPost}
use qorechain_pqc.Dsa.Deterministic.{Signature, Signature-SignPost, gave_up}
use qorechain_pqc.Bindings.{Level, ml_dsa_44, ml_dsa_65, ml_dsa_87, level_name}
use qorechain_pqc.Bindings.Fips.{fips_lengths, rust_lengths, java_switch}
use qorechain_pqc.Bindings.Go.Schemes as Go
use qorechain_pqc.Bindings.Java.Primitives.{
  BouncyDsa, Exception, Result, ok, thrown, expanded_key, wrong_length,
  mldsa_expanded_secret_key_length,
}
use qorechain_pqc.Bindings.Java.Methods as Java
use qorechain_pqc.Bindings.Js.Wrap as Js
use qorechain_pqc.Bindings.Rust.Levels as Rust
use qorechain_pqc.Bindings.Python.Effects.{
  State, with_lock, with_object, draw_source, custom_algorithm, switch_to_system,
}
use qorechain_pqc.Bindings.Python.Draws.{value_of}
use qorechain_pqc.Bindings.Python.Handles.{MlDsa, mldsa_handle}
use qorechain_pqc.Bindings.Python.Package as Package
use qorechain_pqc.Bindings.Python.Methods as Python

part_eq :
    {a b : ℕ} {xs ys : List ℕ}
    → a ≡ b
    → xs ≡ ys
    → ◌≡◌ {A = Option (List Cell)} (some (part a xs)) (some (part b ys))
part_eq e f = rw (e, f)

-- The signature sig for a key of the level's length, and none for another.
abbrev pub signature_for : Level → List ℕ → List ℕ → Option (List ℕ)
signature_for level k sig = if length k == (fips_lengths level).secret_key then some sig else none

-- The Java binding's key is the seed. It tells the expanded key apart from other wrong lengths.
abbrev pub java_refusal : Level → List ℕ → Exception
java_refusal level seed =
    if length seed == (fips_lengths level).secret_key then expanded_key else wrong_length

abbrev pub java_answer : Level → List ℕ → List ℕ → Result (List ℕ)
java_answer level seed sig = if length seed == 32 then ok sig else thrown (java_refusal level seed)

pub java_expanded :
    (level : Level)
    → mldsa_expanded_secret_key_length (level_name level) ≡ ok (fips_lengths level).secret_key
unfolding strcmp mldsa_expanded_secret_key_length
java_expanded ml_dsa_44 = refl
java_expanded ml_dsa_65 = refl
java_expanded ml_dsa_87 = refl

-- The handle of a level has its lengths.
pub python_handle :
    (level : Level) (self : MlDsa)
    → mldsa_handle (level_name level) ≡ some self
    → self.lens ≡ fips_lengths level
unfolding mldsa_handle strcmp
python_handle ml_dsa_44 self e = ground arith
python_handle ml_dsa_65 self e = ground arith
python_handle ml_dsa_87 self e = ground arith

module _ (level : Level) (k m sig : List ℕ) where
  pub js_signature :
      (noble : Js.NobleSig) (random : Source)
      → (length k ≡ (fips_lengths level).secret_key
          → noble.sign_noble random m k Js.no_extra_entropy ≡ some sig)
      → Js.sign noble (fips_lengths level) random (some k) (some m) false
        ≡ signature_for level k sig
  unfolding Js.sign
  js_signature noble random agrees = ground (arith, agrees)

  pub rust_signature :
      {P S : Type 0} (fips204 : Rust.Fips204 P S)
      → (length k ≡ (fips_lengths level).secret_key
          → (fips204.private_from_bytes k >>= λ key.
              fips204.try_sign_with_seed key (replicate 32 0) m)
            ≡ some sig)
      → Rust.sign fips204 level k m ≡ signature_for level k sig
  unfolding Rust.sign
  rust_signature fips204 agrees = rw (rust_lengths level) (ground (arith, agrees))

  pub go_signature :
      {P S : Type 0} (circl : Go.SignScheme P S)
      → (length k ≢ (fips_lengths level).secret_key → circl.unmarshal_private k ≡ none)
      → (length k ≡ (fips_lengths level).secret_key
          → (key : S) × (circl.unmarshal_private k ≡ some key) × (circl.sign_scheme key m ≡ sig))
      → Go.sign circl k m ≡ signature_for level k sig
  unfolding Go.sign
  go_signature circl refuses agrees =
      elim (Bool-cases (length k == (fips_lengths level).secret_key)) [
        | inl whole ↦ let (key, known, made) = agrees (ground arith) in rw (whole, known, made)
        | inr other ↦ rw (other, refuses (λ e. ground arith))
      ]

  pub python_signature :
      (package' : Package.Package) (self : MlDsa) (s : Package.Signature) (w : State)
      → self.lens ≡ fips_lengths level
      → package'.signature self.alg ≡ some s
      → (length k ≡ (fips_lengths level).secret_key → s.sign_message zeros k m ≡ some sig)
      → w.locked ≡ false
      → w.refuse w.requests ≡ false
      → value_of (Python.sign package' self (some k) (some m) false w) ≡ signature_for level k sig
  unfolding Python.sign with_lock with_object draw_source custom_algorithm switch_to_system
  python_signature package' self s w size known agrees free grant =
      elim (Bool-cases (length k == (fips_lengths level).secret_key)) [
        | inl whole ↦ rw (size, whole, free, known, grant, agrees (ground arith))
        | inr other ↦ rw (size, other)
      ]

  pub java_signature :
      {P S : Type 0} (bc : BouncyDsa P S) (seed : List ℕ)
      → (length seed ≡ 32
          → (key : S) × (bc.private_key level seed ≡ some key)
            × (bc.generate_signature key none m ≡ some sig))
      → Java.mldsa_sign bc (some (level_name level)) (some seed) (some m)
        ≡ java_answer level seed sig
  unfolding Java.mldsa_sign
  java_signature bc seed agrees = elim (Bool-cases (length seed == 32)) [
    | inl whole ↦
        let (key, known, made) = agrees (ground arith) in
        rw (whole, (java_switch level).0, known, made)
    | inr other ↦ rw (other, java_expanded level) (ground arith)
  ]

  -- What `qpqc_mldsa_sign` gives: the signature in `*sig` and `*sig_len`, or QPQC_ERR.
  abbrev pub CSignature : ℤ × Out → World → Type 0
  CSignature r v =
      if length k == (fips_lengths level).secret_key
      then (r.0 ≡ qpqc_ok) × Signature sig (fips_lengths level).signature r v
      else r.0 ≡ qpqc_err

  module _ (oqs : Oqs) (laws : (alg : Text) (s : Sig) → oqs.sig alg ≡ some s → SigLaws s)
      (alg : Text) (s : Sig) (known : oqs.sig alg ≡ some s)
      (key_size : s.length_secret_key ≡ (fips_lengths level).secret_key)
      (size : s.length_signature ≡ (fips_lengths level).signature)
      (agrees : length k ≡ (fips_lengths level).secret_key
        → ((s.sign zeros m k).success ≡ true) × ((s.sign zeros m k).bytes ≡ sig)) where
    pub c_signature :
        (out : Out) (w : World)
        → w.held ≡ false
        → w.rng ≡ system
        → w.refuse w.calls ≡ false
        → w.refuse (suc w.calls) ≡ false
        → Ends
            (λ r v. CSignature r v)
            (mldsa_sign oqs alg (some k) (length k) (some m) (length m) out w)
    c_signature out w free sys grant grant' =
        Ends-mono (mldsa_sign oqs alg (some k) (length k) (some m) (length m) out w)
          (mldsa_sign-SignPost oqs laws alg (some k) (some m) (length k) (length m) k m
            (some-Holds k) (some-Holds m) out w free sys)
          λ r v post. elim post.1 [
            | inl gave ↦
                let (code, why) =
                  gave_up (oqs.sig alg) (length k) k m (laws alg) w out r v grant grant' gave in
                elim (Bool-cases (length k == (fips_lengths level).secret_key)) [
                  | inr other ↦ rw other code
                  | inl whole ↦ absurd (elim why [
                    | inl missing ↦ ground (arith, sym known ∙ missing)
                    | inr (t, found, short) ↦ short (
                        (==_iff (length k) (fips_lengths level).secret_key).0 whole
                        ∙ sym key_size
                        ∙ ap (λ (a : Sig). a.length_secret_key) (some_inj s t (sym known ∙ found)))
                  ])
                ]
            | inr signed ↦
                let same : signed.0 ≡ s = some_inj signed.0 s (sym signed.1 ∙ known) in
                let whole : length k ≡ (fips_lengths level).secret_key =
                  signed.2 ∙ ap (λ (a : Sig). a.length_secret_key) same ∙ key_size in
                let test : (length k == (fips_lengths level).secret_key) ≡ true = ground arith in
                let good : r.0 ≡ qpqc_ok =
                  signed.3
                  ∙ ap (λ (a : Sig). status (a.sign zeros m k).success) same
                  ∙ ap status (agrees whole).0 in
                let (t, known', fine, (len, block)) =
                  Signature-SignPost (oqs.sig alg) (length k) zeros sign_events k m w out r v
                    (laws alg) (inr signed) good in
                let same' : t ≡ s = some_inj t s (sym known' ∙ known) in
                let bytes : (t.sign zeros m k).bytes ≡ sig =
                  ap (λ (a : Sig). (a.sign zeros m k).bytes) same' ∙ (agrees whole).1 in
                let full : t.length_signature ≡ (fips_lengths level).signature =
                  ap (λ (a : Sig). a.length_signature) same' ∙ size in
                rw test (good, (len ∙ ap length bytes, block ∙ part_eq full bytes))
          ]
