-- ===== src/Dsa/Verify.antt =====
-- The branches of `qpqc_mldsa_verify`.
use mathlib.Core.Path.{subst}
use qorechain_pqc.Base.{
  false, ℕ, ◌≡◌, refl, ◌≢◌, ◌⊎◌, inl, inr, ℤ, pos, Option, some, List, ◌==◌, ==_iff, if◌then◌else◌,
  Bool-cases, Text, arith,
}
use qorechain_pqc.Machine.{ConstPtr, World}
use qorechain_pqc.Machine.Args.{Holds}
use qorechain_pqc.Machine.Ends.{Ends, Settled, read_eq}
use qorechain_pqc.Oqs.{Sig, Oqs, object_free, sig_verify}
use qorechain_pqc.Oqs.Objects.{NoObject, obtained, object_new_cases}
use qorechain_pqc.SignBytes.{qpqc_err}
use qorechain_pqc.Dsa.{verify_with, mldsa_verify}

-- Nothing but the allocator's count has changed.
abbrev pub Untouched : World → World → Type 0
Untouched w v = Settled w v × (v.block ≡ w.block) × (v.log ≡ w.log) × (v.draws ≡ w.draws)

-- QPQC_ERR exactly for want of the algorithm or for a key of another length; else 1 or 0, as the
-- primitive says of message, signature and key.
abbrev pub Verdict : Option Sig → ℕ → List ℕ → List ℕ → List ℕ → World → ℤ → Type 0
Verdict found pk_len m t k w rc =
    ((NoObject found w ⊎ ((s : Sig) × (found ≡ some s) × (pk_len ≢ s.length_public_key)))
      × (rc ≡ qpqc_err))
    ⊎ ((s : Sig) × (found ≡ some s)
        × (pk_len ≡ s.length_public_key)
        × (w.refuse w.calls ≡ false)
        × (rc ≡ (if s.verify m t k then pos 1 else pos 0)))

module _ (oqs : Oqs) (alg : Text) (pk msg sig : ConstPtr) (pk_len n l : ℕ) (k m t : List ℕ)
    (hk : Holds pk pk_len k) (hm : Holds msg n m) (ht : Holds sig l t) (w : World) where
  verify_with-Verdict :
      (s : Sig)
      → oqs.sig alg ≡ some s
      → w.refuse w.calls ≡ false
      → Ends
          (λ rc v. Untouched w v × Verdict (oqs.sig alg) pk_len m t k w rc)
          (verify_with pk pk_len msg n sig l (some s) (obtained w))
  unfolding verify_with object_free sig_verify
  verify_with-Verdict s known grant = elim (Bool-cases (pk_len == s.length_public_key)) [
    | inr short ↦ rw short (
      (record { handles = refl; held = refl; rng = refl }, refl, refl, refl),
      inl (inr (s, known, λ e. ground arith), refl),
    )
    | inl fits ↦
        let e : pk_len ≡ s.length_public_key = (==_iff pk_len s.length_public_key).0 fits in
        rw
          (
            fits,
            read_eq msg n m hm,
            read_eq sig l t ht,
            read_eq pk s.length_public_key k (subst (λ j. Holds pk j k) e hk),
          )
          (
            (record { handles = refl; held = refl; rng = refl }, refl, refl, refl),
            inr (s, known, e, grant, refl),
          )
  ]

  -- For a key, a message and a signature that may be read, in any state, whoever holds the lock:
  -- verification ends without fault or deadlock, draws no randomness, changes no block, gives back its
  -- OQS_SIG, and answers as `Verdict` says.
  pub mldsa_verify-Verdict :
      Ends
        (λ rc v. Untouched w v × Verdict (oqs.sig alg) pk_len m t k w rc)
        (mldsa_verify oqs alg pk pk_len msg n sig l w)
  unfolding mldsa_verify
  mldsa_verify-Verdict = elim (object_new_cases (oqs.sig alg) w) [
    | inl (why, e) ↦ rw e (
      (record { handles = refl; held = refl; rng = refl }, refl, refl, refl),
      inl (inl why, refl),
    )
    | inr (s, known, grant, e) ↦ rw e (verify_with-Verdict s known grant)
  ]
