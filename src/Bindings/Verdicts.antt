-- ===== src/Bindings/Verdicts.antt =====
-- Verification in c/qorechain_pqc.c and in the five bindings, over libraries that agree.
use qorechain_pqc.Base.{
  ℕ, ◌≡◌, sym, ap, ◌∙◌, ◌≢◌, ◌⊎◌, ℤ, pos, Bool, true, false, not, ◌&&◌, ◌==◌, ==_iff, none, some,
  List, arith, length, if◌then◌else◌, Bool-cases, inl, inr, Text, some_inj,
}
use qorechain_pqc.Machine.{World}
use qorechain_pqc.Machine.Args.{some-Holds}
use qorechain_pqc.Machine.Ends.{Ends, Ends-mono}
use qorechain_pqc.Oqs.{Sig, Oqs}
use qorechain_pqc.SignBytes.{qpqc_err}
use qorechain_pqc.Dsa.{mldsa_verify}
use qorechain_pqc.Dsa.Verify.{mldsa_verify-Verdict}
use qorechain_pqc.Bindings.{Level, level_name, Verifier, caught}
use qorechain_pqc.Bindings.Go
use qorechain_pqc.Bindings.Java
use qorechain_pqc.Bindings.Js
use qorechain_pqc.Bindings.Python
use qorechain_pqc.Bindings.Rust
use qorechain_pqc.Bindings.Fips.{
  fips_lengths, accepts, guarded, guarded_size, rust_lengths, java_switch, if_or, if_some,
}

module _ (level : Level) (holds : List ℕ → List ℕ → List ℕ → Bool) (m sig pk : List ℕ) where
  module _ (library : Verifier)
      (agrees : length pk ≡ (fips_lengths level).public_key
        → length sig ≡ (fips_lengths level).signature
        → library m sig pk ≡ some (holds m sig pk)) where
    verified :
        (if not (length pk == (fips_lengths level).public_key)
          then false
          else (if not (length sig == (fips_lengths level).signature)
              then false
              else caught (library m sig pk)))
        ≡ accepts level holds m sig pk
    verified =
        guarded level holds m sig pk (caught (library m sig pk)) λ h k. ap caught (agrees h k)

    pub js_verdict :
        Js.verify library (fips_lengths level) (some pk) (some m) (some sig)
        ≡ accepts level holds m sig pk
    unfolding Js.verify
    js_verdict = verified

    pub python_verdict :
        Python.verify library (fips_lengths level) (some pk) (some m) (some sig)
        ≡ accepts level holds m sig pk
    unfolding Python.verify
    python_verdict =
        if_or (length pk == (fips_lengths level).public_key)
          (length sig == (fips_lengths level).signature) (caught (library m sig pk))
        ∙ verified

  pub java_verdict :
      (bc : Level → Verifier)
      → (length pk ≡ (fips_lengths level).public_key
          → length sig ≡ (fips_lengths level).signature
          → bc level m sig pk ≡ some (holds m sig pk))
      → Java.mldsa_verify bc (some (level_name level)) (some pk) (some m) (some sig)
        ≡ some (accepts level holds m sig pk)
  unfolding Java.mldsa_verify
  java_verdict bc agrees =
      let (params, keys, sigs) = java_switch level in
      rw (params, keys, sigs)
        (if_some (length pk == (fips_lengths level).public_key) (
            if not (length sig == (fips_lengths level).signature)
            then false
            else caught (bc level m sig pk))
          ∙ ap some (verified (bc level) agrees))

  -- A public key that CIRCL does not take has another length.
  circl_verdict :
      {K : Type 0} (circl : Go.Scheme K)
      → (length pk ≢ (fips_lengths level).public_key → circl.unmarshal_binary_public_key pk ≡ none)
      → (length pk ≡ (fips_lengths level).public_key
          → length sig ≡ (fips_lengths level).signature
          → (key : K) × (circl.unmarshal_binary_public_key pk ≡ some key)
            × (circl.scheme_verify key m sig ≡ holds m sig pk))
      → length sig ≡ (fips_lengths level).signature
      → Go.verify_with circl (circl.unmarshal_binary_public_key pk) m sig
        ≡ accepts level holds m sig pk
  circl_verdict circl refuses agrees whole' =
      elim (Bool-cases (length pk == (fips_lengths level).public_key)) [
        | inl whole ↦
            let (key, taken, verdict) = agrees (ground arith) whole' in
            rw (taken, verdict) (ground arith)
        | inr other ↦ rw (refuses (λ e. ground arith)) (ground arith)
      ]

  pub go_verdict :
      {K : Type 0} (circl : Go.Scheme K)
      → circl.signature_size ≡ (fips_lengths level).signature
      → (length pk ≢ (fips_lengths level).public_key → circl.unmarshal_binary_public_key pk ≡ none)
      → (length pk ≡ (fips_lengths level).public_key
          → length sig ≡ (fips_lengths level).signature
          → (key : K) × (circl.unmarshal_binary_public_key pk ≡ some key)
            × (circl.scheme_verify key m sig ≡ holds m sig pk))
      → Go.verify circl pk m sig ≡ accepts level holds m sig pk
  unfolding Go.verify
  go_verdict circl size refuses agrees = rw size (
      guarded_size level holds m sig pk
        (Go.verify_with circl (circl.unmarshal_binary_public_key pk) m sig)
        (circl_verdict circl refuses agrees))

  pub rust_verdict :
      {F : Type 0} (fips204 : Rust.Scheme F)
      → (length pk ≡ (fips_lengths level).public_key
          → length sig ≡ (fips_lengths level).signature
          → ((fips204.try_from_bytes pk ≡ none) × (holds m sig pk ≡ false))
            ⊎ ((key : F) × (fips204.try_from_bytes pk ≡ some key)
                × (fips204.key_verify key m sig ≡ holds m sig pk)))
      → Rust.verify fips204 level pk m sig ≡ accepts level holds m sig pk
  unfolding Rust.verify
  rust_verdict fips204 agrees = rw (rust_lengths level) (
      guarded level holds m sig pk
        (Rust.verify_with fips204 level (fips204.try_from_bytes pk) m sig)
        λ h k. elim (agrees h k) [
          | inl (refused, invalid) ↦ rw (refused, invalid)
          | inr (key, taken, verdict) ↦ rw (taken, verdict)
        ])

  -- What `qpqc_mldsa_verify` returns, if `OQS_SIG_new` is granted its memory.
  abbrev pub verdict_code : ℤ
  verdict_code =
      if length pk == (fips_lengths level).public_key
      then (if accepts level holds m sig pk then pos 1 else pos 0)
      else qpqc_err

  pub c_verdict :
      (oqs : Oqs) (alg : Text) (s : Sig) (w : World)
      → oqs.sig alg ≡ some s
      → s.length_public_key ≡ (fips_lengths level).public_key
      → (length pk ≡ (fips_lengths level).public_key
          → s.verify m sig pk ≡ (length sig == (fips_lengths level).signature && holds m sig pk))
      → w.refuse w.calls ≡ false
      → Ends
          (λ rc _. rc ≡ verdict_code)
          (mldsa_verify oqs alg (some pk) (length pk) (some m) (length m) (some sig) (length sig) w)
  c_verdict oqs alg s w known size agrees grant =
      Ends-mono
        (mldsa_verify oqs alg (some pk) (length pk) (some m) (length m) (some sig) (length sig) w)
        (mldsa_verify-Verdict oqs alg (some pk) (some m) (some sig) (length pk) (length m)
          (length sig) pk m sig (some-Holds pk) (some-Holds m) (some-Holds sig) w)
        λ rc v post. elim post.1 [
          | inl (inl (inl refused), e) ↦ absurd (ground arith)
          | inl (inl (inr missing), e) ↦ absurd (ground arith)
          | inl (inr (t, found, short), e) ↦
              elim (Bool-cases (length pk == (fips_lengths level).public_key)) [
                | inl whole ↦ absurd (
                    short (
                      (==_iff (length pk) (fips_lengths level).public_key).0 whole
                      ∙ sym size
                      ∙ ap (λ (a : Sig). a.length_public_key) (some_inj s t (sym known ∙ found))))
                | inr other ↦ rw other e
              ]
          | inr (t, found, fits, granted, e) ↦
              let same : t ≡ s = some_inj t s (sym found ∙ known) in
              let whole : length pk ≡ (fips_lengths level).public_key =
                fits ∙ ap (λ (a : Sig). a.length_public_key) same ∙ size in
              let test : (length pk == (fips_lengths level).public_key) ≡ true = ground arith in
              e
              ∙ ap (λ b. if b then pos 1 else pos 0)
                  (ap (λ (a : Sig). a.verify m sig pk) same ∙ agrees whole)
              ∙ ground (arith, test)
        ]
