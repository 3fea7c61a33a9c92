-- ===== src/Kem/Decaps.antt =====
-- The branches of `qpqc_mlkem_decapsulate`.
use mathlib.Core.Path.{subst}
use qorechain_pqc.Base.{
  ℕ, ◌≤◌, ◌≡◌, refl, ◌≢◌, ◌⊎◌, inl, inr, ℤ, true, false, ◌||◌, not, Option, some, List, ◌==◌,
  Bool-cases, length, Text, arith,
}
use qorechain_pqc.Machine.{Ptr, Cell, ConstPtr, World, update, store}
use qorechain_pqc.Machine.Args.{Holds}
use qorechain_pqc.Machine.Ends.{Ends, Settled, read_eq, over, write_over}
use qorechain_pqc.Oqs.{Kem, KemLaws, Oqs, object_free, kem_decaps}
use qorechain_pqc.Oqs.Objects.{NoObject, obtained, object_new_cases}
use qorechain_pqc.SignBytes.{qpqc_err}
use qorechain_pqc.Dsa.{status}
use qorechain_pqc.Kem.{decapsulate_with, mlkem_decapsulate}

-- QPQC_ERR with nothing stored exactly for want of the algorithm or for a secret key or ciphertext of
-- another length; else the answer of the primitive, whose bytes are at the start of the block
-- `ss_out`, and the length of the shared secret, whatever the primitive's status.
abbrev pub Decapsulated :
    Option Kem → ℕ → ℕ → List ℕ → List ℕ → Ptr → List Cell → ℕ → World → ℤ × ℕ → World → Type 0
Decapsulated found sk_len ct_len k c ss_out cells ss_len w r v =
    ((NoObject found w
        ⊎ ((m : Kem) × (found ≡ some m)
            × ((sk_len ≢ m.length_secret_key) ⊎ (ct_len ≢ m.length_ciphertext))))
      × (r.0 ≡ qpqc_err)
      × (r.1 ≡ ss_len)
      × (v.block ≡ w.block))
    ⊎ ((m : Kem) × (found ≡ some m)
        × (sk_len ≡ m.length_secret_key)
        × (ct_len ≡ m.length_ciphertext)
        × (w.refuse w.calls ≡ false)
        × (r.0 ≡ status (m.decaps c k).0)
        × (r.1 ≡ m.length_shared_secret)
        × (v.block ≡ update w.block ss_out (some (over (m.decaps c k).1 cells))))

lengths_right : (a b : ℕ) (c d : ℕ) → (not (a == b) || not (c == d)) ≡ false → (a ≡ b) × (c ≡ d)
lengths_right a b c d h = ground arith

lengths_wrong : (a b : ℕ) (c d : ℕ) → (not (a == b) || not (c == d)) ≡ true → (a ≢ b) ⊎ (c ≢ d)
lengths_wrong a b c d h = ground arith

module _ (oqs : Oqs) (laws : (alg : Text) (m : Kem) → oqs.kem alg ≡ some m → KemLaws m) (alg : Text)
    (sk ct : ConstPtr) (sk_len ct_len : ℕ) (k c : List ℕ) (hk : Holds sk sk_len k)
    (hc : Holds ct ct_len c) (ss_out ss_len : ℕ) (cells : List Cell) (w : World)
    (place : w.block ss_out ≡ some cells)
    (room : (m : Kem) → oqs.kem alg ≡ some m → m.length_shared_secret ≤ length cells) where
  decapsulate_with-Decapsulated :
      (m : Kem)
      → oqs.kem alg ≡ some m
      → w.refuse w.calls ≡ false
      → Ends
          (λ r v.
            Settled w v × Decapsulated (oqs.kem alg) sk_len ct_len k c ss_out cells ss_len w r v)
          (decapsulate_with sk sk_len ct ct_len ss_out ss_len (some m) (obtained w))
  unfolding decapsulate_with object_free kem_decaps store
  decapsulate_with-Decapsulated m known grant =
      elim (Bool-cases
        (not (sk_len == m.length_secret_key) || not (ct_len == m.length_ciphertext))) [
          | inl wrong ↦ rw wrong (
            record { handles = refl; held = refl; rng = refl },
            inl (
              inr (
                m,
                known,
                lengths_wrong sk_len m.length_secret_key ct_len m.length_ciphertext wrong,
              ),
              refl,
              refl,
              refl,
            ),
          )
          | inr right ↦
              let (e, f) =
                lengths_right sk_len m.length_secret_key ct_len m.length_ciphertext right in
              rw
                (
                  right,
                  read_eq ct m.length_ciphertext c (subst (λ j. Holds ct j c) f hc),
                  read_eq sk m.length_secret_key k (subst (λ j. Holds sk j k) e hk),
                  place,
                  write_over (m.decaps c k).1 cells
                      (omega (arith, (laws alg m known).decaps_fits c k, room m known)),
                )
                (
                  record { handles = refl; held = refl; rng = refl },
                  inr (m, known, e, f, grant, refl, refl, refl),
                )
        ]

  -- For a key and a ciphertext that may be read and a block `ss_out` that has room for the shared
  -- secret, in any state, whoever holds the lock: decapsulation ends without fault or deadlock, gives
  -- back its OQS_KEM, leaves lock and generator alone and answers as `Decapsulated` says.
  pub mlkem_decapsulate-Decapsulated :
      Ends
        (λ r v.
          Settled w v × Decapsulated (oqs.kem alg) sk_len ct_len k c ss_out cells ss_len w r v)
        (mlkem_decapsulate oqs alg sk sk_len ct ct_len ss_out ss_len w)
  unfolding mlkem_decapsulate
  mlkem_decapsulate-Decapsulated = elim (object_new_cases (oqs.kem alg) w) [
    | inl (why, e) ↦
        rw e (record { handles = refl; held = refl; rng = refl }, inl (inl why, refl, refl, refl))
    | inr (m, known, grant, e) ↦ rw e (decapsulate_with-Decapsulated m known grant)
  ]
