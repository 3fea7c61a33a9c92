-- ===== src/Dsa/Keygen.antt =====
-- The branches of `qpqc_mldsa_keygen`.
use qorechain_pqc.Base.{
  ℕ, suc, ◌≡◌, refl, ◌≢◌, ◌⊎◌, inl, inr, ℤ, true, false, Option, none, some, List, ◌++◌, ◌==◌,
  ==_self, Bool-cases, replicate, Text, arith,
}
use qorechain_pqc.Machine.{
  Ptr, null, Source, system, World, update, malloc, store, mutex_lock, mutex_unlock, draw_source,
  Cell,
}
use qorechain_pqc.Machine.Block.{update_at}
use qorechain_pqc.Machine.Ends.{Ends, Ends-mono, Settled, part, write_fresh}
use qorechain_pqc.Oqs.{Sig, SigLaws, Oqs, object_free, sig_keypair}
use qorechain_pqc.Oqs.Objects.{NoObject, obtained, object_new_cases}
use qorechain_pqc.SignBytes.{qpqc_err}
use qorechain_pqc.SignBytes.Fields.{address_ne_null}
use qorechain_pqc.Dsa.{KeyOut, status, keygen_into, keygen_with, mldsa_keygen}
use qorechain_pqc.Dsa.Hedged.{hedged_events}

-- The addresses of the two buffers, if `malloc` grants them.
abbrev pub pk_address : World → Ptr
pk_address w = suc (suc w.calls)

abbrev pub sk_address : World → Ptr
sk_address w = suc (suc (suc w.calls))

-- A fresh block of this size.
abbrev pub fresh : ℕ → Option (List Cell)
fresh n = some (replicate n none)

-- One of the two buffers was refused: QPQC_ERR, the lengths untouched, and the other buffer, if it was
-- granted, stays allocated behind its out parameter.
abbrev pub NoBuffers : Sig → World → KeyOut → ℤ × KeyOut → World → Type 0
NoBuffers s w out r v =
    ((w.refuse (suc w.calls) ≡ true)
      × (w.refuse (suc (suc w.calls)) ≡ true)
      × (v.block ≡ w.block)
      × (r.1 ≡ record out { pk = null; sk = null }))
    ⊎ ((w.refuse (suc w.calls) ≡ true)
        × (w.refuse (suc (suc w.calls)) ≡ false)
        × (v.block ≡ update w.block (sk_address w) (fresh s.length_secret_key))
        × (r.1 ≡ record out { pk = null; sk = sk_address w }))
    ⊎ ((w.refuse (suc w.calls) ≡ false)
        × (w.refuse (suc (suc w.calls)) ≡ true)
        × (v.block ≡ update w.block (pk_address w) (fresh s.length_public_key))
        × (r.1 ≡ record out { pk = pk_address w; sk = null }))

-- The primitive made a key pair of this source, and its bytes are in two fresh blocks.
pub record KeyPair (s : Sig) (source : Source) (w : World) (r : ℤ × KeyOut) (v : World)
    : Type 0 where
  pub code : r.0 ≡ status (s.keypair source).0
  pub answer : r.1 ≡ record {
    pk = pk_address w;
    pk_len = s.length_public_key;
    sk = sk_address w;
    sk_len = s.length_secret_key;
  }
  pub pk_block : v.block (pk_address w) ≡ some (part s.length_public_key (s.keypair source).1)
  pub sk_block : v.block (sk_address w) ≡ some (part s.length_secret_key (s.keypair source).2)
  pub others : (q : Ptr) → q ≢ pk_address w → q ≢ sk_address w → v.block q ≡ w.block q
  pub log : v.log ≡ hedged_events ++ w.log

abbrev pub KeygenPost : Option Sig → World → KeyOut → ℤ × KeyOut → World → Type 0
KeygenPost found w out r v =
    Settled w v
    × ((NoObject found w × (r.0 ≡ qpqc_err) × (r.1 ≡ out) × (v.block ≡ w.block) × (v.log ≡ w.log))
        ⊎ ((s : Sig) × (found ≡ some s)
            × (r.0 ≡ qpqc_err)
            × NoBuffers s w out r v
            × (v.log ≡ w.log))
        ⊎ ((s : Sig) × (found ≡ some s) × KeyPair s (w.entropy w.draws) w r v))

-- The world when both buffers have been allocated.
abbrev with_buffers : Sig → World → World
with_buffers s w = record w {
  calls = suc (suc (suc w.calls));
  block =
      update (update w.block (pk_address w) (fresh s.length_public_key)) (sk_address w)
        (fresh s.length_secret_key);
  handles = suc w.handles;
}

addresses_differ : (n : ℕ) → ((suc n == n) ≡ false) × ((n == suc n) ≡ false)
addresses_differ n = ground arith

module _ (s : Sig) (laws : SigLaws s) (out : KeyOut) (w : World) where
  abbrev made : Ptr → Option (List Cell)
  made =
      update
        (update (with_buffers s w).block (pk_address w)
          (some (part s.length_public_key (s.keypair (w.entropy w.draws)).1)))
        (sk_address w) (some (part s.length_secret_key (s.keypair (w.entropy w.draws)).2))

  made_pk : made (pk_address w) ≡ some (part s.length_public_key (s.keypair (w.entropy w.draws)).1)
  made_pk = ground (arith, addresses_differ (pk_address w))

  made_sk : made (sk_address w) ≡ some (part s.length_secret_key (s.keypair (w.entropy w.draws)).2)
  made_sk =
      update_at (sk_address w) (some (part s.length_secret_key (s.keypair (w.entropy w.draws)).2)) (
        update (with_buffers s w).block (pk_address w)
          (some (part s.length_public_key (s.keypair (w.entropy w.draws)).1)))

  made_others : (q : Ptr) → q ≢ pk_address w → q ≢ sk_address w → made q ≡ w.block q
  made_others q h k = ground arith

  keygen_into-KeyPair :
      w.held ≡ false
      → w.rng ≡ system
      → Ends
          (λ r v. Settled w v × KeyPair s (w.entropy w.draws) w r v)
          (keygen_into s out (pk_address w) (sk_address w) (with_buffers s w))
  unfolding keygen_into mutex_lock mutex_unlock sig_keypair store draw_source object_free
  keygen_into-KeyPair free sys =
      rw
        (
          address_ne_null (suc w.calls),
          address_ne_null (suc (suc w.calls)),
          free,
          sys,
          (addresses_differ (pk_address w)).0,
          update_at (pk_address w) (fresh s.length_public_key) w.block,
          write_fresh s.length_public_key (s.keypair (w.entropy w.draws)).1
              (laws.keypair_fits (w.entropy w.draws)).0,
          (addresses_differ (pk_address w)).1,
          ==_self (sk_address w) (sk_address w) refl,
          write_fresh s.length_secret_key (s.keypair (w.entropy w.draws)).2
              (laws.keypair_fits (w.entropy w.draws)).1,
        )
        (
          record { handles = refl; held = refl; rng = refl },
          record {
            code = refl;
            answer = refl;
            pk_block = made_pk;
            sk_block = made_sk;
            others = made_others;
            log = refl;
          },
        )

module _ (oqs : Oqs) (laws : (alg : Text) (s : Sig) → oqs.sig alg ≡ some s → SigLaws s) (alg : Text)
    (out : KeyOut) (w : World) (free : w.held ≡ false) (sys : w.rng ≡ system) where
  keygen_with-KeygenPost :
      (s : Sig)
      → oqs.sig alg ≡ some s
      → Ends (KeygenPost (oqs.sig alg) w out) (keygen_with out (some s) (obtained w))
  unfolding keygen_with malloc object_free
  keygen_with-KeygenPost s known = elim (Bool-cases (w.refuse (suc w.calls))) [
    | inl no_pk ↦ elim (Bool-cases (w.refuse (suc (suc w.calls)))) [
      | inl no_sk ↦
          rw (no_pk, no_sk)
            (
              record { handles = refl; held = refl; rng = refl },
              inr (inl (s, known, refl, inl (no_pk, no_sk, refl, refl), refl)),
            )
      | inr got_sk ↦
          rw (no_pk, got_sk)
            (
              record { handles = refl; held = refl; rng = refl },
              inr (inl (s, known, refl, inr (inl (no_pk, got_sk, refl, refl)), refl)),
            )
    ]
    | inr got_pk ↦ elim (Bool-cases (w.refuse (suc (suc w.calls)))) [
      | inl no_sk ↦
          rw (got_pk, no_sk, address_ne_null (suc w.calls))
            (
              record { handles = refl; held = refl; rng = refl },
              inr (inl (s, known, refl, inr (inr (got_pk, no_sk, refl, refl)), refl)),
            )
      | inr got_sk ↦
          rw (got_pk, got_sk)
            (Ends-mono (keygen_into s out (pk_address w) (sk_address w) (with_buffers s w))
              (keygen_into-KeyPair s (laws alg s known) out w free sys)
              λ r v post. (post.0, inr (inr (s, known, post.1))))
    ]
  ]

  -- With a free lock and the system generator, key generation ends without fault or deadlock, gives
  -- back its OQS_SIG and the lock and leaves the system generator in place. Without an OQS_SIG it
  -- returns QPQC_ERR with out parameters and memory untouched. If one of the buffers or both were
  -- refused, it returns QPQC_ERR as `NoBuffers` says: a buffer that was granted stays allocated.
  -- Otherwise the answer is that of the primitive on the next source of the operating system, the
  -- key pair is in two fresh blocks, every other block is unchanged, and the lock was held around the
  -- draw.
  pub mldsa_keygen-KeygenPost : Ends (KeygenPost (oqs.sig alg) w out) (mldsa_keygen oqs alg out w)
  unfolding mldsa_keygen
  mldsa_keygen-KeygenPost = elim (object_new_cases (oqs.sig alg) w) [
    | inl (why, e) ↦
        rw e (record { handles = refl; held = refl; rng = refl }, inl (why, refl, refl, refl, refl))
    | inr (s, known, grant, e) ↦ rw e (keygen_with-KeygenPost s known)
  ]
