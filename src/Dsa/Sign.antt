-- ===== src/Dsa/Sign.antt =====
-- The branches of `qpqc_mldsa_sign`.
use mathlib.Core.Path.{subst}
use qorechain_pqc.Base.{
  ℕ, suc, ◌≡◌, refl, inl, inr, false, none, some, List, [], ◌∷◌, ◌==◌, replicate, Text,
}
use qorechain_pqc.Machine.{
  null, ConstPtr, Source, system, Event, World, store, mutex_lock, mutex_unlock, draw_source,
}
use qorechain_pqc.Machine.Args.{Holds}
use qorechain_pqc.Machine.Block.{update_at}
use qorechain_pqc.Machine.Ends.{Ends, read_eq, write_fresh}
use qorechain_pqc.Oqs.{Sig, SigLaws, Oqs, object_free, use_custom, use_system, sig_sign}
use qorechain_pqc.Oqs.Objects.{obtained, object_new_cases}
use qorechain_pqc.SignBytes.{Out}
use qorechain_pqc.SignBytes.Fields.{address_ne_null}
use qorechain_pqc.Dsa.{sign_into, sign_with, mldsa_sign}
use qorechain_pqc.Dsa.Signing.{SignPost, Filled, checked-SignPost}

-- The source of FIPS-204's deterministic variant: zeros, however many are asked for.
abbrev pub zeros : Source
zeros i n = replicate n 0

-- The last event first.
abbrev pub sign_events : List Event
sign_events = Event.unlock ∷ Event.use_system ∷ Event.draw ∷ Event.use_custom ∷ Event.lock ∷ []

sign_into-Filled :
    (s : Sig)
    → SigLaws s
    → (sk msg : ConstPtr) (n : ℕ) (k m : List ℕ) → Holds sk s.length_secret_key k
    → Holds msg n m
    → (out : Out) (sig h : ℕ) (w : World) → (sig == null) ≡ false
    → w.block sig ≡ some (replicate s.length_signature none)
    → w.held ≡ false
    → w.handles ≡ suc h
    → Ends (Filled s zeros sign_events k m w out sig h) (sign_into s sk msg n out sig w)
unfolding sign_into mutex_lock mutex_unlock use_custom use_system sig_sign store draw_source
    object_free
sign_into-Filled s laws sk msg n k m hk hm out sig h w ne fresh free live =
    rw
      (
        ne,
        free,
        read_eq msg n m hm,
        read_eq sk s.length_secret_key k hk,
        fresh,
        write_fresh s.length_signature (s.sign zeros m k).bytes (laws.sign_fits zeros m k),
        live,
      )
      (record {
        code = refl;
        answer = refl;
        block = refl;
        held = refl;
        rng = refl;
        handles = refl;
        log = refl;
      })

module _ (oqs : Oqs) (laws : (alg : Text) (s : Sig) → oqs.sig alg ≡ some s → SigLaws s) (alg : Text)
    (sk msg : ConstPtr) (sk_len n : ℕ) (k m : List ℕ) (hk : Holds sk sk_len k) (hm : Holds msg n m)
    (out : Out) (w : World) (free : w.held ≡ false) (sys : w.rng ≡ system) where
  sign_with-SignPost :
      (s : Sig)
      → oqs.sig alg ≡ some s
      → Ends
          (SignPost (oqs.sig alg) sk_len zeros sign_events k m w out)
          (sign_with sk sk_len msg n out (some s) (obtained w))
  unfolding sign_with
  sign_with-SignPost s known =
      checked-SignPost (sign_into s sk msg n) s sk_len k m zeros sign_events out w (oqs.sig alg)
        known free sys (λ v. refl)
        (λ e.
          sign_into-Filled s (laws alg s known) sk msg n k m (subst (λ j. Holds sk j k) e hk) hm out
            (suc (suc w.calls)) w.handles _ (address_ne_null (suc w.calls))
            (update_at (suc (suc w.calls)) (some (replicate s.length_signature none)) w.block) free
            refl)

  -- For a key and a message that may be read, a free lock and the system generator, signing ends
  -- without fault or deadlock, gives back its OQS_SIG and the lock and leaves the system generator in
  -- place; the state and the answer are as follows. Either it gave up for a reason that `GaveUp`
  -- names, or the key has the algorithm's length and the answer is that of the primitive on the bytes
  -- of message and key with a source of zeros, in a fresh block, every other block unchanged, and the
  -- lock was held around the switch to zeros, the draw and the switch back.
  pub mldsa_sign-SignPost :
      Ends
        (SignPost (oqs.sig alg) sk_len zeros sign_events k m w out)
        (mldsa_sign oqs alg sk sk_len msg n out w)
  unfolding mldsa_sign
  mldsa_sign-SignPost = elim (object_new_cases (oqs.sig alg) w) [
    | inl (why, e) ↦ rw e (
      record { handles = refl; held = refl; rng = refl },
      inl (refl, refl, refl, inl (inl why, refl)),
    )
    | inr (s, known, grant, e) ↦ rw e (sign_with-SignPost s known)
  ]
