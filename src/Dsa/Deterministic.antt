-- ===== src/Dsa/Deterministic.antt =====
-- Two calls of `qpqc_mldsa_sign` on the same bytes, in different states.
use qorechain_pqc.Base.{
  none, ◌≢◌, Bool-cases, some_inj, ℕ, suc, ◌≡◌, sym, ap, ◌∙◌, inl, inr, ℤ, false, some, Option,
  List, length, Text, arith, true, ◌⊎◌,
}
use qorechain_pqc.Machine.{Event, Source, Ptr, ConstPtr, Cell, system, World}
use qorechain_pqc.Machine.Args.{Holds}
use qorechain_pqc.Machine.Block.{update_at}
use qorechain_pqc.Machine.Ends.{Ends, Ends-mono, part}
use qorechain_pqc.Oqs.{Sig, SigLaws, Oqs}
use qorechain_pqc.SignBytes.{qpqc_ok, qpqc_err, Out}
use qorechain_pqc.Dsa.{status, stored_len, mldsa_sign}
use qorechain_pqc.Dsa.Signing.{status_ok, SignedBy, GaveUp}
use qorechain_pqc.Dsa.Sign.{zeros, sign_events, mldsa_sign-SignPost}

-- The call returned this signature: `*sig` with the contents of its block, and `*sig_len`.
abbrev pub Signature : List ℕ → ℕ → ℤ × Out → World → Type 0
Signature bytes n r v = (r.1.len ≡ length bytes) × (v.block r.1.buf ≡ some (part n bytes))

-- A call that returned QPQC_OK made a signature.
pub Signature-SignPost :
    (found : Option Sig) (sk_len : ℕ) (source : Source) (events : List Event) (k m : List ℕ)
    (w : World) (out : Out) (r : ℤ × Out) (v : World)
    → ((s : Sig) → found ≡ some s → SigLaws s)
    → (GaveUp found sk_len w out r v ⊎ SignedBy found sk_len source events k m w out r v)
    → r.0 ≡ qpqc_ok
    → (s : Sig) × (found ≡ some s)
      × ((s.sign source m k).success ≡ true)
      × Signature (s.sign source m k).bytes s.length_signature r v
Signature-SignPost found sk_len source events k m w out r v laws (inl gave) ok =
    absurd (ground arith)
Signature-SignPost found sk_len source events k m w out r v laws
      (inr (s, known, fits, code, len, buf, block, log)) ok =
    let fine = status_ok _ (sym code ∙ ok) in
    let report = (laws s known).sign_reports source m k fine in
    (
      s,
      known,
      fine,
      (
        len ∙ ap (stored_len out.len) report,
        ap (λ p. v.block p) buf
            ∙ ap (λ (f : Ptr → Option (List Cell)). f (suc (suc w.calls))) block
            ∙ update_at (suc (suc w.calls))
                (some (part s.length_signature (s.sign source m k).bytes)) w.block,
      ),
    )

-- The call did not get as far as the primitive, though there was memory.
abbrev pub Unusable : Option Sig → ℕ → Type 0
Unusable found sk_len =
    (found ≡ none) ⊎ ((s : Sig) × (found ≡ some s) × (sk_len ≢ s.length_secret_key))

-- What two calls agree on.
abbrev pub Agree : ℤ × Out → World → ℤ × Out → World → Type 0
Agree r v r' v' =
    (r.0 ≡ r'.0)
    × ((r.0 ≡ qpqc_err) ⊎ ((r.1.len ≡ r'.1.len) × (v.block r.1.buf ≡ v'.block r'.1.buf)))

module _ (found : Option Sig) (sk_len : ℕ) (k m : List ℕ)
    (laws : (s : Sig) → found ≡ some s → SigLaws s) where
  pub gave_up :
      (w : World) (out : Out) (r : ℤ × Out) (v : World)
      → w.refuse w.calls ≡ false
      → w.refuse (suc w.calls) ≡ false
      → GaveUp found sk_len w out r v
      → (r.0 ≡ qpqc_err) × Unusable found sk_len
  gave_up w out r v grant grant' (code, block, log, inl (inl (inl refused), e)) =
      absurd (ground arith)
  gave_up w out r v grant grant' (code, block, log, inl (inl (inr missing), e)) =
      (code, inl missing)
  gave_up w out r v grant grant' (code, block, log, inl (inr why, e)) = (code, inr why)
  gave_up w out r v grant grant' (code, block, log, inr (refused, e)) = absurd (ground arith)

  usable :
      (w : World) (out : Out) (r : ℤ × Out) (v : World)
      → SignedBy found sk_len zeros sign_events k m w out r v
      → Unusable found sk_len
      → ⊥
  usable w out r v (s, known, fits, code, len, buf, block, log) (inl missing) =
      absurd (ground arith)
  usable w out r v (s, known, fits, code, len, buf, block, log) (inr (t, known', short)) =
      short (fits ∙ ap (λ (u : Sig). u.length_secret_key) (some_inj s t (sym known ∙ known')))

  both_signed :
      (w w' : World) (out out' : Out) (r r' : ℤ × Out) (v v' : World)
      → SignedBy found sk_len zeros sign_events k m w out r v
      → SignedBy found sk_len zeros sign_events k m w' out' r' v'
      → Agree r v r' v'
  both_signed w w' out out' r r' v v' signed signed' =
      let e : signed.0 ≡ signed'.0 = some_inj signed.0 signed'.0 (sym signed.1 ∙ signed'.1) in
      let codes_agree : r.0 ≡ r'.0 =
        signed.3 ∙ ap (λ (u : Sig). status (u.sign zeros m k).success) e ∙ sym signed'.3 in
      elim (Bool-cases (signed.0.sign zeros m k).success) [
        | inr failed ↦ (codes_agree, inl (signed.3 ∙ ap status failed))
        | inl fine ↦
            let ok : r.0 ≡ qpqc_ok = signed.3 ∙ ap status fine in
            let (s, known, fine_s, sign) =
              Signature-SignPost found sk_len zeros sign_events k m w out r v laws (inr signed)
                ok in
            let (t, known', fine_t, sign') =
              Signature-SignPost found sk_len zeros sign_events k m w' out' r' v' laws (inr signed')
                (sym codes_agree ∙ ok) in
            let same : s ≡ t = some_inj s t (sym known ∙ known') in
            (
              codes_agree,
              inr (
                sign.0 ∙ ap (λ (u : Sig). length (u.sign zeros m k).bytes) same ∙ sym sign'.0,
                sign.1
                    ∙ ap (λ (u : Sig). some (part u.length_signature (u.sign zeros m k).bytes)) same
                    ∙ sym sign'.1,
              ),
            )
      ]

module _ (oqs : Oqs) (laws : (alg : Text) (s : Sig) → oqs.sig alg ≡ some s → SigLaws s) (alg : Text)
    (sk msg : ConstPtr) (sk_len n : ℕ) (k m : List ℕ) (hk : Holds sk sk_len k) (hm : Holds msg n m)
    (sk' msg' : ConstPtr) (hk' : Holds sk' sk_len k) (hm' : Holds msg' n m) where
  -- Two calls with the same algorithm and the same bytes of key and message, each with a free lock,
  -- the system generator and memory for its OQS_SIG and its buffer, but otherwise in any two states,
  -- end without fault or deadlock and return the same status; unless that is QPQC_ERR, their signature
  -- buffers have the same contents and the same length.
  pub mldsa_sign_deterministic :
      (out out' : Out) (w w' : World)
      → w.held ≡ false
      → w.rng ≡ system
      → w.refuse w.calls ≡ false
      → w.refuse (suc w.calls) ≡ false
      → w'.held ≡ false
      → w'.rng ≡ system
      → w'.refuse w'.calls ≡ false
      → w'.refuse (suc w'.calls) ≡ false
      → Ends
          (λ r v. Ends (Agree r v) (mldsa_sign oqs alg sk' sk_len msg' n out' w'))
          (mldsa_sign oqs alg sk sk_len msg n out w)
  mldsa_sign_deterministic out out' w w' free sys got got_buf free' sys' got' got_buf' =
      Ends-mono (mldsa_sign oqs alg sk sk_len msg n out w)
        (mldsa_sign-SignPost oqs laws alg sk msg sk_len n k m hk hm out w free sys)
        λ r v post.
          Ends-mono (mldsa_sign oqs alg sk' sk_len msg' n out' w')
            (mldsa_sign-SignPost oqs laws alg sk' msg' sk_len n k m hk' hm' out' w' free' sys')
            λ r' v' post'. elim post.1 [
              | inl gave ↦
                  let (code, why) =
                    gave_up (oqs.sig alg) sk_len k m (laws alg) w out r v got got_buf gave in
                  elim post'.1 [
                    | inl gave' ↦ (
                      code
                          ∙ sym
                              (gave_up (oqs.sig alg) sk_len k m (laws alg) w' out' r' v' got'
                                got_buf' gave').0,
                      inl code,
                    )
                    | inr signed' ↦
                        absurd
                          (usable (oqs.sig alg) sk_len k m (laws alg) w' out' r' v' signed' why)
                  ]
              | inr signed ↦ elim post'.1 [
                | inl gave' ↦ absurd (
                    usable (oqs.sig alg) sk_len k m (laws alg) w out r v signed
                      (gave_up (oqs.sig alg) sk_len k m (laws alg) w' out' r' v' got' got_buf'
                        gave').1)
                | inr signed' ↦
                    both_signed (oqs.sig alg) sk_len k m (laws alg) w w' out out' r r' v v' signed
                      signed'
              ]
            ]
