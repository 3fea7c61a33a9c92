-- ===== src/Dsa/Lifecycle.antt =====
-- A key pair's way through c/qorechain_pqc.c: generated, used for a signature, and the signature verified.
use mathlib.Core.Path.{subst}
use qorechain_pqc.Base.{
  ℕ, suc, ◌≡◌, sym, ap, ◌∙◌, ◌⊎◌, inl, inr, ℤ, true, false, some, some_inj, none, List, ◌++◌, map,
  length, replicate, Text, arith, Bool-cases, append-nil, replicate_zero,
}
use qorechain_pqc.Machine.{Ptr, Source, Cell, ConstPtr, system, World}
use qorechain_pqc.Machine.Args.{Holds}
use qorechain_pqc.Machine.Ends.{Ends, Ends-mono, part}
use qorechain_pqc.Oqs.{Sig, SigLaws, Oqs}
use qorechain_pqc.SignBytes.{qpqc_ok, qpqc_err, Out}
use qorechain_pqc.Dsa.{KeyOut, status, mldsa_keygen, mldsa_sign}
use qorechain_pqc.Dsa.Sign.{zeros}
use qorechain_pqc.Dsa.Keygen.{NoBuffers, KeyPair, KeygenPost, mldsa_keygen-KeygenPost}
use qorechain_pqc.Dsa.RoundTrip.{Correct, Accepting, mldsa_verify-mldsa_sign}

-- `OQS_SIG_new` or one of the two calls of `malloc` was refused its memory.
abbrev pub KeysStarved : World → Type 0
KeysStarved w =
    (w.refuse w.calls ≡ true)
    ⊎ (w.refuse (suc w.calls) ≡ true)
    ⊎ (w.refuse (suc (suc w.calls)) ≡ true)

-- The block at p holds these bytes and no more, and this is their number.
abbrev pub Holding : Ptr → ℕ → List ℕ → World → Type 0
Holding p n bytes v = (v.block p ≡ some (map some bytes)) × (n ≡ length bytes)

whole_part : (n : ℕ) (bytes : List ℕ) → length bytes ≡ n → part n bytes ≡ map some bytes
whole_part n bytes full =
    ap (λ k. map some bytes ++ replicate k none) (omega arith)
    ∙ ap (λ (l : List Cell). map some bytes ++ l) (replicate_zero {A = Cell} none)
    ∙ append-nil (map some bytes)

NoBuffers-starved :
    (s : Sig) (w : World) (out : KeyOut) (r : ℤ × KeyOut) (v : World)
    → NoBuffers s w out r v
    → KeysStarved w
NoBuffers-starved s w out r v (inl (no_pk, no_sk, same, e)) = inr (inl no_pk)
NoBuffers-starved s w out r v (inr (inl (no_pk, got_sk, same, e))) = inr (inl no_pk)
NoBuffers-starved s w out r v (inr (inr (got_pk, no_sk, same, e))) = inr (inr no_sk)

module _ (oqs : Oqs) (laws : (alg : Text) (s : Sig) → oqs.sig alg ≡ some s → SigLaws s) (alg : Text)
    (s : Sig) (known : oqs.sig alg ≡ some s) (correct : Correct s) (msg : ConstPtr) (n : ℕ)
    (m : List ℕ) (hm : Holds msg n m) (sig_out : Out) where
  -- What key generation from this source leaves: QPQC_ERR for want of memory or because the primitive
  -- failed, or the two keys in their blocks, and a signature with the secret key that the public key
  -- accepts.
  abbrev pub Serviceable : Source → World → ℤ × KeyOut → World → Type 0
  Serviceable made w r v =
      ((r.0 ≡ qpqc_err) × (KeysStarved w ⊎ ((s.keypair made).0 ≡ false)))
      ⊎ ((r.0 ≡ qpqc_ok)
          × Holding r.1.pk r.1.pk_len (s.keypair made).1 v
          × Holding r.1.sk r.1.sk_len (s.keypair made).2 v
          × Ends
              (Accepting oqs alg msg n (s.keypair made).1 s.length_signature
                (s.sign zeros m (s.keypair made).2) v)
              (mldsa_sign oqs alg (some (s.keypair made).2) r.1.sk_len msg n sig_out v))

  module _ (w : World) (free : w.held ≡ false) (sys : w.rng ≡ system) (r : ℤ × KeyOut)
      (v : World) where
    pair-Serviceable :
        v.held ≡ w.held
        → v.rng ≡ w.rng
        → KeyPair s (w.entropy w.draws) w r v
        → Serviceable (w.entropy w.draws) w r v
    pair-Serviceable held rng pair = elim (Bool-cases (s.keypair (w.entropy w.draws)).0) [
      | inr failed ↦ inl (pair.code ∙ ap status failed, inr failed)
      | inl fine ↦
          let full = (laws alg s known).keypair_full (w.entropy w.draws) fine in
          let sk_len : r.1.sk_len ≡ length (s.keypair (w.entropy w.draws)).2 =
            ap (λ (o : KeyOut). o.sk_len) pair.answer ∙ sym full.1 in
          inr (
            pair.code ∙ ap status fine,
            (
              ap (λ (o : KeyOut). v.block o.pk) pair.answer
                  ∙ pair.pk_block
                  ∙ ap some
                      (whole_part s.length_public_key (s.keypair (w.entropy w.draws)).1 full.0),
              ap (λ (o : KeyOut). o.pk_len) pair.answer ∙ sym full.0,
            ),
            (
              ap (λ (o : KeyOut). v.block o.sk) pair.answer
                  ∙ pair.sk_block
                  ∙ ap some
                      (whole_part s.length_secret_key (s.keypair (w.entropy w.draws)).2 full.1),
              sk_len,
            ),
            subst
                (λ k.
                  Ends
                    (Accepting oqs alg msg n (s.keypair (w.entropy w.draws)).1 s.length_signature
                      (s.sign zeros m (s.keypair (w.entropy w.draws)).2) v)
                    (mldsa_sign oqs alg (some (s.keypair (w.entropy w.draws)).2) k msg n sig_out v))
                (sym sk_len)
                (mldsa_verify-mldsa_sign oqs laws alg s known correct (w.entropy w.draws) fine msg n
                  m hm sig_out v (held ∙ free) (rng ∙ sys)),
          )
    ]

    keygen-Serviceable :
        (out : KeyOut) → KeygenPost (oqs.sig alg) w out r v → Serviceable (w.entropy w.draws) w r v
    keygen-Serviceable out (settled, inl (inl refused, code, same, block, log)) =
        inl (code, inl (inl refused))
    keygen-Serviceable out (settled, inl (inr missing, code, same, block, log)) =
        absurd (ground arith)
    keygen-Serviceable out (settled, inr (inl (t, found, code, none_left, log))) =
        inl (code, inl (NoBuffers-starved t w out r v none_left))
    keygen-Serviceable out (settled, inr (inr (t, found, pair))) =
        pair-Serviceable settled.held settled.rng (
          subst (λ (a : Sig). KeyPair a (w.entropy w.draws) w r v)
            (some_inj t s (sym found ∙ known)) pair)

  -- For an algorithm that is correct and keeps liboqs's laws, a message that may be read, a free lock
  -- and the system generator: key generation ends without fault or deadlock; it returned QPQC_ERR, and
  -- then memory was refused or the primitive failed, or it returned QPQC_OK, and then `*pk` and `*sk`
  -- are blocks that hold just the bytes of a key pair, with their lengths in `*pk_len` and `*sk_len`,
  -- and signing the message with these bytes and this length in the state that key generation left
  -- ends as `mldsa_verify-mldsa_sign` says, with a signature that the public key accepts, unless
  -- memory is refused or the primitive fails on zeros.
  pub mldsa_keygen-Serviceable :
      (out : KeyOut) (w : World)
      → w.held ≡ false
      → w.rng ≡ system
      → Ends (Serviceable (w.entropy w.draws) w) (mldsa_keygen oqs alg out w)
  mldsa_keygen-Serviceable out w free sys =
      Ends-mono (mldsa_keygen oqs alg out w) (mldsa_keygen-KeygenPost oqs laws alg out w free sys)
        λ r v post. keygen-Serviceable w free sys r v out post
