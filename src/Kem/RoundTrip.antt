-- ===== src/Kem/RoundTrip.antt =====
-- `qpqc_mlkem_decapsulate` after `qpqc_mlkem_encapsulate`.
use mathlib.Core.Path.{subst}
use qorechain_pqc.Base.{
  ℕ, ◌≤◌, ◌≡◌, sym, ap, ◌∙◌, inl, inr, ◌⊎◌, ◌≢◌, ℤ, true, false, some, Option, List, length, Text,
  arith, some_inj, Bool-cases,
}
use qorechain_pqc.Machine.{Source, Ptr, Cell, system, World}
use qorechain_pqc.Machine.Args.{some-Holds}
use qorechain_pqc.Machine.Block.{update_at}
use qorechain_pqc.Machine.Ends.{Ends, Ends-mono, part, over}
use qorechain_pqc.Oqs.{Kem, KemLaws, Oqs}
use qorechain_pqc.SignBytes.{qpqc_ok, qpqc_err}
use qorechain_pqc.Dsa.{status}
use qorechain_pqc.Dsa.RoundTrip.{Starved}
use qorechain_pqc.Kem.{EncapsOut, mlkem_encapsulate, mlkem_decapsulate}
use qorechain_pqc.Kem.Encaps.{Encapsulated, mlkem_encapsulate-EncapsPost}
use qorechain_pqc.Kem.Decaps.{mlkem_decapsulate-Decapsulated}

-- FIPS 203, for a key pair: what one half encapsulates, the other decapsulates.
abbrev pub Matched : Kem → List ℕ → List ℕ → Type 0
Matched k pk sk =
    (r : Source)
    → (k.encaps r pk).0 ≡ true
    → k.decaps (k.encaps r pk).1 sk ≡ (true, (k.encaps r pk).2)

-- Decapsulation of these bytes into a block stores the secret there and returns QPQC_OK, or it
-- returns QPQC_ERR, if `OQS_KEM_new` has no memory for its object.
abbrev pub Recovers : Oqs → Text → List ℕ → List ℕ → List ℕ → Ptr → ℕ → List Cell → World → Type 0
Recovers oqs alg sk ct secret ss_out ss_len cells v =
    Ends
      (λ r u.
        ((r.0 ≡ qpqc_err) × (v.refuse v.calls ≡ true))
        ⊎ ((r.0 ≡ qpqc_ok) × (u.block ss_out ≡ some (over secret cells))))
      (mlkem_decapsulate oqs alg (some sk) (length sk) (some ct) (length ct) ss_out ss_len v)

module _ (oqs : Oqs) (laws : (alg : Text) (k : Kem) → oqs.kem alg ≡ some k → KemLaws k) (alg : Text)
    (k : Kem) (known : oqs.kem alg ≡ some k) (pk sk : List ℕ) (matched : Matched k pk sk)
    (pk_whole : length pk ≡ k.length_public_key) (sk_whole : length sk ≡ k.length_secret_key)
    (ss_out ss_out' ss_len : ℕ) (cells cells' : List Cell) (w : World)
    (place : w.block ss_out ≡ some cells) (place' : w.block ss_out' ≡ some cells')
    (old : ss_out ≤ w.calls) (old' : ss_out' ≤ w.calls) (apart : ss_out' ≢ ss_out)
    (room : k.length_shared_secret ≤ length cells)
    (room' : k.length_shared_secret ≤ length cells') where
  abbrev pub ciphertext : List ℕ
  ciphertext = (k.encaps (w.entropy w.draws) pk).1

  abbrev pub secret : List ℕ
  secret = (k.encaps (w.entropy w.draws) pk).2

  -- Encapsulation returned QPQC_ERR for want of memory or because the primitive failed, or it returned
  -- QPQC_OK and left a secret in the caller's block and a ciphertext from which it is recovered.
  abbrev pub Shared : ℤ × EncapsOut → World → Type 0
  Shared r v =
      ((r.0 ≡ qpqc_err) × (Starved w ⊎ ((k.encaps (w.entropy w.draws) pk).0 ≡ false)))
      ⊎ ((r.0 ≡ qpqc_ok)
          × (v.block r.1.ct ≡ some (part k.length_ciphertext ciphertext))
          × (r.1.ct_len ≡ length ciphertext)
          × (v.block ss_out ≡ some (over secret cells))
          × Recovers oqs alg sk ciphertext secret ss_out' ss_len cells' v)

  recovers :
      (k.encaps (w.entropy w.draws) pk).0 ≡ true
      → (v : World) → v.block ss_out' ≡ some cells'
      → Recovers oqs alg sk ciphertext secret ss_out' ss_len cells' v
  recovers ok v kept =
      Ends-mono
        (mlkem_decapsulate oqs alg (some sk) (length sk) (some ciphertext) (length ciphertext)
          ss_out' ss_len v)
        (mlkem_decapsulate-Decapsulated oqs laws alg (some sk) (some ciphertext) (length sk)
          (length ciphertext) sk ciphertext (some-Holds sk) (some-Holds ciphertext) ss_out' ss_len
          cells' v kept
          (λ t found.
            subst (λ (a : Kem). a.length_shared_secret ≤ length cells')
              (some_inj k t (sym known ∙ found)) room'))
        λ r u post. elim post.1 [
          | inl (inl (inl refused), e, len, block) ↦ inl (e, refused)
          | inl (inl (inr missing), e, len, block) ↦ absurd (ground arith)
          | inl (inr (t, found, inl short), e, len, block) ↦ absurd (
              short (
                sk_whole
                ∙ ap (λ (a : Kem). a.length_secret_key) (some_inj k t (sym known ∙ found))))
          | inl (inr (t, found, inr short), e, len, block) ↦ absurd (
              short (
                (laws alg k known).encaps_full (w.entropy w.draws) pk ok
                ∙ ap (λ (a : Kem). a.length_ciphertext) (some_inj k t (sym known ∙ found))))
          | inr (t, found, fits, fits', grant, code, len, block) ↦
              let same : t.decaps ciphertext sk ≡ (true, secret) =
                ap (λ (a : Kem). a.decaps ciphertext sk) (some_inj t k (sym found ∙ known))
                ∙ matched (w.entropy w.draws) ok in
              inr (
                code ∙ ap (λ x. status x.0) same,
                ap (λ (f : Ptr → Option (List Cell)). f ss_out') block
                    ∙ update_at ss_out' (some (over (t.decaps ciphertext sk).1 cells')) v.block
                    ∙ ap (λ x. some (over x.1 cells')) same,
              )
        ]

  shared :
      (r : ℤ × EncapsOut) (v : World)
      → Encapsulated k (w.entropy w.draws) pk ss_out cells w r v
      → Shared r v
  shared r v made = elim (Bool-cases (k.encaps (w.entropy w.draws) pk).0) [
    | inr failed ↦ inl (made.code ∙ ap status failed, inr failed)
    | inl fine ↦ inr (
      made.code ∙ ap status fine,
      ap (λ (o : EncapsOut). v.block o.ct) made.answer ∙ made.ct_block,
      ap (λ (o : EncapsOut). o.ct_len) made.answer
          ∙ sym ((laws alg k known).encaps_full (w.entropy w.draws) pk fine),
      made.ss_block,
      recovers fine v (made.others ss_out' (λ e. absurd (omega arith)) apart ∙ place'),
    )
  ]

  -- For an algorithm that keeps liboqs's laws, a matching key pair of its lengths, two different
  -- blocks `ss_out` and `ss_out'` that are older and have room for the secret, a free lock and the
  -- system generator: encapsulation into `ss_out` ends without fault or deadlock; it returned
  -- QPQC_ERR, and then memory was refused or the primitive failed, or it returned QPQC_OK, and then
  -- decapsulating `*ct` into `ss_out'` in the state that it left returns QPQC_OK and stores the secret
  -- that encapsulation stored, or returns QPQC_ERR for want of memory.
  pub mlkem_decapsulate-mlkem_encapsulate :
      (out : EncapsOut)
      → w.held ≡ false
      → w.rng ≡ system
      → Ends Shared (mlkem_encapsulate oqs alg (some pk) (length pk) ss_out out w)
  mlkem_decapsulate-mlkem_encapsulate out free sys =
      Ends-mono (mlkem_encapsulate oqs alg (some pk) (length pk) ss_out out w)
        (mlkem_encapsulate-EncapsPost oqs laws alg (some pk) (length pk) pk (some-Holds pk) ss_out
          cells out w place old
          (λ t found.
            subst (λ (a : Kem). a.length_shared_secret ≤ length cells)
              (some_inj k t (sym known ∙ found)) room)
          free sys)
        λ r v post. elim post.1 [
          | inl (code, block, log, inl (inl (inl refused), e)) ↦ inl (code, inl (inl refused))
          | inl (code, block, log, inl (inl (inr missing), e)) ↦ absurd (ground arith)
          | inl (code, block, log, inl (inr (t, found, short), e)) ↦ absurd (
              short (
                pk_whole
                ∙ ap (λ (a : Kem). a.length_public_key) (some_inj k t (sym known ∙ found))))
          | inl (code, block, log, inr (refused, e)) ↦ inl (code, inl (inr refused))
          | inr (t, found, fits, made) ↦ shared r v (
              subst (λ (a : Kem). Encapsulated a (w.entropy w.draws) pk ss_out cells w r v)
                (some_inj t k (sym found ∙ known)) made)
        ]
