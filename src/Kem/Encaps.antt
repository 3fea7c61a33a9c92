-- ===== src/Kem/Encaps.antt =====
-- The branches of `qpqc_mlkem_encapsulate`.
use mathlib.Core.Path.{subst}
use qorechain_pqc.Base.{
  ℕ, suc, ◌≤◌, ◌≡◌, refl, ◌≢◌, ◌⊎◌, inl, inr, ℤ, true, false, Option, none, some, List, ◌++◌, ◌==◌,
  ==_iff, ==_self, Bool-cases, length, replicate, Text, arith,
}
use qorechain_pqc.Machine.{
  Ptr, null, Cell, ConstPtr, Source, system, World, update, malloc, store, mutex_lock, mutex_unlock,
  draw_source,
}
use qorechain_pqc.Machine.Args.{Holds}
use qorechain_pqc.Machine.Ends.{
  Ends, Ends-mono, Settled, read_eq, part, write_fresh, over, write_over,
}
use qorechain_pqc.Oqs.{Kem, KemLaws, Oqs, object_free, kem_encaps}
use qorechain_pqc.Oqs.Objects.{NoObject, obtained, object_new_cases}
use qorechain_pqc.SignBytes.{qpqc_err}
use qorechain_pqc.SignBytes.Fields.{address_ne_null}
use qorechain_pqc.Dsa.{status}
use qorechain_pqc.Dsa.Hedged.{hedged_events}
use qorechain_pqc.Kem.{EncapsOut, encapsulate_into, encapsulate_with, mlkem_encapsulate}

-- The address of the ciphertext, if `malloc` grants it.
abbrev pub ct_address : World → Ptr
ct_address w = suc (suc w.calls)

-- The primitive made a ciphertext and a shared secret from this source and the key: the one is in a
-- fresh block, the other at the start of the caller's.
pub record Encapsulated (m : Kem) (source : Source) (k : List ℕ) (ss_out : Ptr) (cells : List Cell)
    (w : World) (r : ℤ × EncapsOut) (v : World) : Type 0 where
  pub code : r.0 ≡ status (m.encaps source k).0
  pub answer :
      r.1
      ≡ record { ct = ct_address w; ct_len = m.length_ciphertext; ss_len = m.length_shared_secret }
  pub ct_block : v.block (ct_address w) ≡ some (part m.length_ciphertext (m.encaps source k).1)
  pub ss_block : v.block ss_out ≡ some (over (m.encaps source k).2 cells)
  pub others : (q : Ptr) → q ≢ ct_address w → q ≢ ss_out → v.block q ≡ w.block q
  pub log : v.log ≡ hedged_events ++ w.log

-- The call gave up: QPQC_ERR, no block changed, no event. Its reason is the algorithm or the length of
-- the key, with the out parameters untouched, or that the buffer was refused, with `*ct` NULL.
abbrev pub NoCiphertext : Option Kem → ℕ → World → EncapsOut → ℤ × EncapsOut → World → Type 0
NoCiphertext found pk_len w out r v =
    (r.0 ≡ qpqc_err)
    × (v.block ≡ w.block)
    × (v.log ≡ w.log)
    × (((NoObject found w ⊎ ((m : Kem) × (found ≡ some m) × (pk_len ≢ m.length_public_key)))
          × (r.1 ≡ out))
        ⊎ ((w.refuse (suc w.calls) ≡ true) × (r.1 ≡ record out { ct = null })))

abbrev pub EncapsPost :
    Option Kem → ℕ → List ℕ → Ptr → List Cell → World → EncapsOut → ℤ × EncapsOut → World → Type 0
EncapsPost found pk_len k ss_out cells w out r v =
    Settled w v
    × (NoCiphertext found pk_len w out r v
        ⊎ ((m : Kem) × (found ≡ some m)
            × (pk_len ≡ m.length_public_key)
            × Encapsulated m (w.entropy w.draws) k ss_out cells w r v))

-- The world when the ciphertext's buffer has been allocated.
abbrev with_ciphertext : Kem → World → World
with_ciphertext m w = record w {
  calls = suc (suc w.calls);
  block = update w.block (ct_address w) (some (replicate m.length_ciphertext none));
  handles = suc w.handles;
}

older : (n p : ℕ) → p ≤ n → ((suc (suc n) == p) ≡ false) × ((p == suc (suc n)) ≡ false)
older n p h = ground arith

module _ (m : Kem) (laws : KemLaws m) (pk : ConstPtr) (k : List ℕ)
    (hk : Holds pk m.length_public_key k) (ss_out : ℕ) (cells : List Cell) (out : EncapsOut)
    (w : World) (place : w.block ss_out ≡ some cells) (old : ss_out ≤ w.calls)
    (room : m.length_shared_secret ≤ length cells) where
  abbrev made : Ptr → Option (List Cell)
  made =
      update
        (update (with_ciphertext m w).block (ct_address w)
          (some (part m.length_ciphertext (m.encaps (w.entropy w.draws) k).1)))
        ss_out (some (over (m.encaps (w.entropy w.draws) k).2 cells))

  made_ct : made (ct_address w) ≡ some (part m.length_ciphertext (m.encaps (w.entropy w.draws) k).1)
  made_ct = ground (arith, older w.calls ss_out old)

  made_ss : made ss_out ≡ some (over (m.encaps (w.entropy w.draws) k).2 cells)
  made_ss = ground arith

  made_others : (q : Ptr) → q ≢ ct_address w → q ≢ ss_out → made q ≡ w.block q
  made_others q h l = ground arith

  encapsulate_into-Encapsulated :
      w.held ≡ false
      → w.rng ≡ system
      → Ends
          (λ r v. Settled w v × Encapsulated m (w.entropy w.draws) k ss_out cells w r v)
          (encapsulate_into m pk ss_out out (ct_address w) (with_ciphertext m w))
  unfolding encapsulate_into mutex_lock mutex_unlock kem_encaps store draw_source object_free
  encapsulate_into-Encapsulated free sys =
      rw
        (
          address_ne_null (suc w.calls),
          free,
          read_eq pk m.length_public_key k hk,
          sys,
          ==_self (ct_address w) (ct_address w) refl,
          write_fresh m.length_ciphertext (m.encaps (w.entropy w.draws) k).1
              (laws.encaps_fits (w.entropy w.draws) k).0,
          (older w.calls ss_out old).0,
          place,
          write_over (m.encaps (w.entropy w.draws) k).2 cells
              (omega (arith, (laws.encaps_fits (w.entropy w.draws) k).1)),
        )
        (
          record { handles = refl; held = refl; rng = refl },
          record {
            code = refl;
            answer = refl;
            ct_block = made_ct;
            ss_block = made_ss;
            others = made_others;
            log = refl;
          },
        )

module _ (oqs : Oqs) (laws : (alg : Text) (m : Kem) → oqs.kem alg ≡ some m → KemLaws m) (alg : Text)
    (pk : ConstPtr) (pk_len : ℕ) (k : List ℕ) (hk : Holds pk pk_len k) (ss_out : ℕ)
    (cells : List Cell) (out : EncapsOut) (w : World) (place : w.block ss_out ≡ some cells)
    (old : ss_out ≤ w.calls)
    (room : (m : Kem) → oqs.kem alg ≡ some m → m.length_shared_secret ≤ length cells)
    (free : w.held ≡ false) (sys : w.rng ≡ system) where
  encapsulate_with-EncapsPost :
      (m : Kem)
      → oqs.kem alg ≡ some m
      → Ends
          (EncapsPost (oqs.kem alg) pk_len k ss_out cells w out)
          (encapsulate_with pk pk_len ss_out out (some m) (obtained w))
  unfolding encapsulate_with malloc object_free
  encapsulate_with-EncapsPost m known = elim (Bool-cases (pk_len == m.length_public_key)) [
    | inr short ↦ rw short (
      record { handles = refl; held = refl; rng = refl },
      inl (refl, refl, refl, inl (inr (m, known, λ e. ground arith), refl)),
    )
    | inl fits ↦ rw fits (elim (Bool-cases (w.refuse (suc w.calls))) [
      | inl refused ↦ rw refused (
        record { handles = refl; held = refl; rng = refl },
        inl (refl, refl, refl, inr (refused, refl)),
      )
      | inr grant ↦
          let e : pk_len ≡ m.length_public_key = (==_iff pk_len m.length_public_key).0 fits in
          rw grant (
            Ends-mono (encapsulate_into m pk ss_out out (ct_address w) (with_ciphertext m w))
              (encapsulate_into-Encapsulated m (laws alg m known) pk k
                (subst (λ j. Holds pk j k) e hk) ss_out cells out w place old (room m known) free
                sys)
              λ r v post. (post.0, inr (m, known, e, post.1)))
    ])
  ]

  -- For a key that may be read, an older block `ss_out` with room for the shared secret, a free lock
  -- and the system generator: encapsulation ends without fault or deadlock, gives back its OQS_KEM and
  -- the lock, leaves the system generator in place, and either gave up for a reason that
  -- `NoCiphertext` names, or the key has the algorithm's length and ciphertext and shared secret are
  -- what the primitive makes of the next source of the operating system and of the key.
  pub mlkem_encapsulate-EncapsPost :
      Ends
        (EncapsPost (oqs.kem alg) pk_len k ss_out cells w out)
        (mlkem_encapsulate oqs alg pk pk_len ss_out out w)
  unfolding mlkem_encapsulate
  mlkem_encapsulate-EncapsPost = elim (object_new_cases (oqs.kem alg) w) [
    | inl (why, e) ↦ rw e (
      record { handles = refl; held = refl; rng = refl },
      inl (refl, refl, refl, inl (inl why, refl)),
    )
    | inr (m, known, grant, e) ↦ rw e (encapsulate_with-EncapsPost m known)
  ]
