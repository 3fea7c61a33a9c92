-- ===== src/Dsa/RoundTrip.antt =====
-- `qpqc_mldsa_verify` after `qpqc_mldsa_sign` or `qpqc_mldsa_sign_hedged`.
use mathlib.Core.Path.{subst}
use qorechain_pqc.Base.{
  Bool-cases, ◌⊎◌, false, suc, ℕ, ◌≡◌, sym, ap, ◌∙◌, inl, inr, ℤ, pos, true, some, List, length,
  Text, arith, some_inj, if◌then◌else◌,
}
use qorechain_pqc.Machine.{Source, Event, ConstPtr, system, World}
use qorechain_pqc.Machine.Args.{Holds, some-Holds}
use qorechain_pqc.Machine.Ends.{Ends, Ends-mono}
use qorechain_pqc.Oqs.{Signed, Sig, SigLaws, Oqs}
use qorechain_pqc.SignBytes.{qpqc_ok, qpqc_err, Out}
use qorechain_pqc.Dsa.{status, mldsa_sign, mldsa_sign_hedged, mldsa_verify}
use qorechain_pqc.Dsa.Signing.{SignPost}
use qorechain_pqc.Dsa.Sign.{zeros, sign_events, mldsa_sign-SignPost}
use qorechain_pqc.Dsa.Hedged.{hedged_events, mldsa_sign_hedged-SignPost}
use qorechain_pqc.Dsa.Deterministic.{Signature, Signature-SignPost}
use qorechain_pqc.Dsa.Verify.{mldsa_verify-Verdict}

-- FIPS 204: a signature made with one half of a key pair passes verification with the other.
abbrev pub Correct : Sig → Type 0
Correct s =
    (made signed : Source) (m : List ℕ)
    → (s.keypair made).0 ≡ true
    → (s.sign signed m (s.keypair made).2).success ≡ true
    → s.verify m (s.sign signed m (s.keypair made).2).bytes (s.keypair made).1 ≡ true

-- Verification of these bytes says 1, or QPQC_ERR if `OQS_SIG_new` has no memory for its object.
abbrev pub Accepted : Oqs → Text → ConstPtr → ℕ → List ℕ → List ℕ → World → Type 0
Accepted oqs alg msg n pk bytes v =
    Ends (λ rc _. rc ≡ (if v.refuse v.calls then qpqc_err else pos 1))
      (mldsa_verify oqs alg (some pk) (length pk) msg n (some bytes) (length bytes) v)

-- `OQS_SIG_new` or `malloc` was refused its memory.
abbrev pub Starved : World → Type 0
Starved w = (w.refuse w.calls ≡ true) ⊎ (w.refuse (suc w.calls) ≡ true)

-- A signing call returned QPQC_ERR for want of memory or because the primitive failed, or it returned
-- QPQC_OK and left a signature that is accepted afterwards.
abbrev pub Accepting :
    Oqs → Text → ConstPtr → ℕ → List ℕ → ℕ → Signed → World → ℤ × Out → World → Type 0
Accepting oqs alg msg n pk size signed w r v =
    ((r.0 ≡ qpqc_err) × (Starved w ⊎ (signed.success ≡ false)))
    ⊎ ((r.0 ≡ qpqc_ok) × Signature signed.bytes size r v × Accepted oqs alg msg n pk signed.bytes v)

module _ (oqs : Oqs) (laws : (alg : Text) (s : Sig) → oqs.sig alg ≡ some s → SigLaws s) (alg : Text)
    (s : Sig) (known : oqs.sig alg ≡ some s) (correct : Correct s) (made : Source)
    (keys : (s.keypair made).0 ≡ true) (msg : ConstPtr) (n : ℕ) (m : List ℕ)
    (hm : Holds msg n m) where
  abbrev pub pk_bytes : List ℕ
  pk_bytes = (s.keypair made).1

  abbrev pub sk_bytes : List ℕ
  sk_bytes = (s.keypair made).2

  -- The keys have the lengths that the calls ask for.
  whole :
      ((t : Sig) → oqs.sig alg ≡ some t → length pk_bytes ≡ t.length_public_key)
      × ((t : Sig) → oqs.sig alg ≡ some t → length sk_bytes ≡ t.length_secret_key)
  whole = (
    λ t found.
        ((laws alg s known).keypair_full made keys).0
        ∙ ap (λ (a : Sig). a.length_public_key) (some_inj s t (sym known ∙ found)),
    λ t found.
        ((laws alg s known).keypair_full made keys).1
        ∙ ap (λ (a : Sig). a.length_secret_key) (some_inj s t (sym known ∙ found)),
  )

  accepted :
      (source : Source)
      → (s.sign source m sk_bytes).success ≡ true
      → (v : World) → Accepted oqs alg msg n pk_bytes (s.sign source m sk_bytes).bytes v
  accepted source ok v =
      Ends-mono
        (mldsa_verify oqs alg (some pk_bytes) (length pk_bytes) msg n
          (some (s.sign source m sk_bytes).bytes) (length (s.sign source m sk_bytes).bytes) v)
        (mldsa_verify-Verdict oqs alg (some pk_bytes) msg (some (s.sign source m sk_bytes).bytes)
          (length pk_bytes) n (length (s.sign source m sk_bytes).bytes) pk_bytes m
          (s.sign source m sk_bytes).bytes (some-Holds pk_bytes) hm
          (some-Holds (s.sign source m sk_bytes).bytes) v)
        λ rc u post. elim post.1 [
          | inl (inl (inl refused), e) ↦ e ∙ sym (ap (λ b. if b then qpqc_err else pos 1) refused)
          | inl (inl (inr missing), e) ↦ absurd (ground arith)
          | inl (inr (t, found, short), e) ↦ absurd (short (whole.0 t found))
          | inr (t, found, fits, grant, e) ↦
              e
              ∙ ap (λ b. if b then pos 1 else pos 0)
                  (ap (λ (a : Sig). a.verify m (s.sign source m sk_bytes).bytes pk_bytes)
                      (some_inj t s (sym found ∙ known))
                    ∙ correct made source m keys ok)
              ∙ sym (ap (λ b. if b then qpqc_err else pos 1) grant)
        ]

  accepting :
      (source : Source) (events : List Event) (out : Out) (w : World) (r : ℤ × Out) (v : World)
      → SignPost (oqs.sig alg) (length sk_bytes) source events sk_bytes m w out r v
      → Accepting oqs alg msg n pk_bytes s.length_signature (s.sign source m sk_bytes) w r v
  accepting source events out w r v post = elim post.1 [
    | inl (code, block, log, inl (inl (inl refused), e)) ↦ inl (code, inl (inl refused))
    | inl (code, block, log, inl (inl (inr missing), e)) ↦ absurd (ground arith)
    | inl (code, block, log, inl (inr (t, found, short), e)) ↦ absurd (short (whole.1 t found))
    | inl (code, block, log, inr (refused, e)) ↦ inl (code, inl (inr refused))
    | inr (t, found, fits, made_code, len, buf, block, log) ↦
        let e : t ≡ s = some_inj t s (sym found ∙ known) in
        let code : r.0 ≡ status (s.sign source m sk_bytes).success =
          made_code ∙ ap (λ (a : Sig). status (a.sign source m sk_bytes).success) e in
        elim (Bool-cases (s.sign source m sk_bytes).success) [
          | inr failed ↦ inl (code ∙ ap status failed, inr failed)
          | inl fine ↦
              let ok : r.0 ≡ qpqc_ok = code ∙ ap status fine in
              let (u, found', fine', signature) =
                Signature-SignPost (oqs.sig alg) (length sk_bytes) source events sk_bytes m w out r
                  v (laws alg) post.1 ok in
              inr (
                ok,
                subst
                    (λ (a : Sig). Signature (a.sign source m sk_bytes).bytes a.length_signature r v)
                    (some_inj u s (sym found' ∙ known)) signature,
                accepted source fine v,
              )
        ]
  ]

  -- For an algorithm that is correct and keeps liboqs's laws, a key pair of it, a message that may be
  -- read, a free lock and the system generator: signing ends without fault or deadlock; it returned
  -- QPQC_ERR, and then memory was refused or the primitive failed on zeros, or it returned QPQC_OK,
  -- and then `*sig` and `*sig_len` are the primitive's signature, for which verification with the
  -- public key returns 1 in the state that signing left (QPQC_ERR, if `OQS_SIG_new` has no memory).
  pub mldsa_verify-mldsa_sign :
      (out : Out) (w : World)
      → w.held ≡ false
      → w.rng ≡ system
      → Ends
          (Accepting oqs alg msg n pk_bytes s.length_signature (s.sign zeros m sk_bytes) w)
          (mldsa_sign oqs alg (some sk_bytes) (length sk_bytes) msg n out w)
  mldsa_verify-mldsa_sign out w free sys =
      Ends-mono (mldsa_sign oqs alg (some sk_bytes) (length sk_bytes) msg n out w)
        (mldsa_sign-SignPost oqs laws alg (some sk_bytes) msg (length sk_bytes) n sk_bytes m
          (some-Holds sk_bytes) hm out w free sys)
        λ r v post. accepting zeros sign_events out w r v post

  -- For an algorithm that is correct and keeps liboqs's laws, a key pair of it, a message that may be
  -- read, a free lock and the system generator: hedged signing ends without fault or deadlock; it
  -- returned QPQC_ERR, and then memory was refused or the primitive failed on the system's next
  -- source, or it returned QPQC_OK, and then `*sig` and `*sig_len` are the primitive's signature, for
  -- which verification with the public key returns 1 in the state that signing left (QPQC_ERR, if
  -- `OQS_SIG_new` has no memory).
  pub mldsa_verify-mldsa_sign_hedged :
      (out : Out) (w : World)
      → w.held ≡ false
      → w.rng ≡ system
      → Ends
          (Accepting oqs alg msg n pk_bytes s.length_signature
            (s.sign (w.entropy w.draws) m sk_bytes)
            w)
          (mldsa_sign_hedged oqs alg (some sk_bytes) (length sk_bytes) msg n out w)
  mldsa_verify-mldsa_sign_hedged out w free sys =
      Ends-mono (mldsa_sign_hedged oqs alg (some sk_bytes) (length sk_bytes) msg n out w)
        (mldsa_sign_hedged-SignPost oqs laws alg (some sk_bytes) msg (length sk_bytes) n sk_bytes m
          (some-Holds sk_bytes) hm out w free sys)
        λ r v post. accepting (w.entropy w.draws) hedged_events out w r v post
