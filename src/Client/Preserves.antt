-- ===== src/Client/Preserves.antt =====
-- Each function of c/qorechain_pqc.c, called as its header asks, keeps the process in order.
use mathlib.Core.Path.{subst}
use qorechain_pqc.Base.{
  ℕ, suc, ◌≡◌, sym, ap, ◌∙◌, ◌≢◌, inl, inr, ℤ, false, Option, none, some, List, ◌==◌, ==_iff,
  Bool-cases, arith, replicate,
}
use qorechain_pqc.Machine.{
  Ptr, Cell, Event, Source, system, World, Run, done, fault, deadlock, pure, and_then, update,
}
use qorechain_pqc.Machine.Ends.{Ends, Settled, part, over}
use qorechain_pqc.Oqs.{Sig, Kem}
use qorechain_pqc.SignBytes.{Out}
use qorechain_pqc.Dsa.{KeyOut}
use qorechain_pqc.Dsa.Signing.{SignPost}
use qorechain_pqc.Dsa.Keygen.{NoBuffers, KeygenPost, pk_address, sk_address}
use qorechain_pqc.Kem.{EncapsOut}
use qorechain_pqc.Kem.Encaps.{EncapsPost, ct_address}
use qorechain_pqc.Client.Typed.{
  IsBlock, AllCells, Typed, SigBytes, KemBytes, update-Typed, blanks-AllCells, part-AllCells,
  over-AllCells,
}

-- The lock is free, the system's generator is in place, and memory holds bytes.
pub record Sane (w : World) : Type 0 where
  pub held : w.held ≡ false
  pub rng : w.rng ≡ system
  pub typed : Typed w.block

-- A call that keeps that, and the number of live objects.
abbrev pub Kept : World → World → Type 0
Kept w v = Sane v × (v.handles ≡ w.handles)

pub finished-Ends :
    {A : Type 0} {P : A → World → Type 0} {Q : World → Type 0} (r : Run A)
    → Ends P r
    → ((a : A) (v : World) → P a v → Q v)
    → Ends (λ _ v. Q v) (and_then r (λ _. pure tt))
finished-Ends (done a v) p weaken = weaken a v p
finished-Ends fault p weaken = p
finished-Ends deadlock p weaken = p

module _ (w : World) (sane : Sane w) where
  -- What a call did to memory is the rest of what is to show.
  pub Settled-Kept : (v : World) → Settled w v → Typed v.block → Kept w v
  Settled-Kept v settled typed = (
    record { held = settled.held ∙ sane.held; rng = settled.rng ∙ sane.rng; typed = typed },
    settled.handles,
  )

  pub same-Typed : (f : Ptr → Option (List Cell)) → f ≡ w.block → Typed f
  same-Typed f same = subst Typed (sym same) sane.typed

  pub updated-Typed :
      (p : Ptr) (cells : List Cell) (f : Ptr → Option (List Cell))
      → AllCells cells
      → f ≡ update w.block p (some cells)
      → Typed f
  updated-Typed p cells f bytes same =
      subst Typed (sym same) (update-Typed p (some cells) w.block sane.typed bytes)

  -- Two blocks are new, and the others as they were.
  two-Typed :
      (p q : Ptr) (f : Ptr → Option (List Cell)) (xs ys : List Cell)
      → f p ≡ some xs
      → AllCells xs
      → f q ≡ some ys
      → AllCells ys
      → ((r : Ptr) → r ≢ p → r ≢ q → f r ≡ w.block r)
      → Typed f
  two-Typed p q f xs ys at_p hx at_q hy others r = elim (Bool-cases (r == p)) [
    | inl same ↦ subst IsBlock (sym (ap f ((==_iff r p).0 same) ∙ at_p)) hx
    | inr not_p ↦ elim (Bool-cases (r == q)) [
      | inl same ↦ subst IsBlock (sym (ap f ((==_iff r q).0 same) ∙ at_q)) hy
      | inr not_q ↦
          subst IsBlock (sym (others r (λ e. ground arith) (λ e. ground arith))) (sane.typed r)
    ]
  ]

  pub signed-Kept :
      (found : Option Sig) (bytes : (s : Sig) → found ≡ some s → SigBytes s) (sk_len : ℕ)
      (source : Source) (events : List Event) (k m : List ℕ) (out : Out) (r : ℤ × Out) (v : World)
      → SignPost found sk_len source events k m w out r v
      → Kept w v
  signed-Kept found bytes sk_len source events k m out r v (settled, inl (code, block, rest, why)) =
      Settled-Kept v settled (same-Typed v.block block)
  signed-Kept found bytes sk_len source events k m out r v
        (settled, inr (s, known, fits, code, len, buf, block, log)) =
      Settled-Kept v settled (
        updated-Typed (suc (suc w.calls)) (part s.length_signature (s.sign source m k).bytes)
          v.block
          (part-AllCells s.length_signature (s.sign source m k).bytes
            ((bytes s known).signature_bytes source m k))
          block)

  NoBuffers-Typed :
      (s : Sig) (out : KeyOut) (r : ℤ × KeyOut) (v : World) → NoBuffers s w out r v → Typed v.block
  NoBuffers-Typed s out r v (inl (no_pk, no_sk, block, e)) = same-Typed v.block block
  NoBuffers-Typed s out r v (inr (inl (no_pk, got_sk, block, e))) =
      updated-Typed (sk_address w) (replicate s.length_secret_key none) v.block
        (blanks-AllCells s.length_secret_key) block
  NoBuffers-Typed s out r v (inr (inr (got_pk, no_sk, block, e))) =
      updated-Typed (pk_address w) (replicate s.length_public_key none) v.block
        (blanks-AllCells s.length_public_key) block

  pub KeygenPost-Kept :
      (found : Option Sig) (bytes : (s : Sig) → found ≡ some s → SigBytes s) (out : KeyOut)
      (r : ℤ × KeyOut) (v : World)
      → KeygenPost found w out r v
      → Kept w v
  KeygenPost-Kept found bytes out r v (settled, inl (why, code, same, block, log)) =
      Settled-Kept v settled (same-Typed v.block block)
  KeygenPost-Kept found bytes out r v (settled, inr (inl (s, known, code, missing, log))) =
      Settled-Kept v settled (NoBuffers-Typed s out r v missing)
  KeygenPost-Kept found bytes out r v (settled, inr (inr (s, known, pair))) =
      let source : Source = w.entropy w.draws in
      let (pk, sk) = (bytes s known).keypair_bytes source in
      Settled-Kept v settled (
        two-Typed (pk_address w) (sk_address w) v.block
          (part s.length_public_key (s.keypair source).1)
          (part s.length_secret_key (s.keypair source).2) pair.pk_block
          (part-AllCells s.length_public_key (s.keypair source).1 pk) pair.sk_block
          (part-AllCells s.length_secret_key (s.keypair source).2 sk) pair.others)

  pub EncapsPost-Kept :
      (found : Option Kem) (bytes : (m : Kem) → found ≡ some m → KemBytes m) (pk_len : ℕ)
      (k : List ℕ) (ss_out : Ptr) (cells : List Cell) (place : w.block ss_out ≡ some cells)
      (out : EncapsOut) (r : ℤ × EncapsOut) (v : World)
      → EncapsPost found pk_len k ss_out cells w out r v
      → Kept w v
  EncapsPost-Kept found bytes pk_len k ss_out cells place out r v
        (settled, inl (code, block, log, why)) =
      Settled-Kept v settled (same-Typed v.block block)
  EncapsPost-Kept found bytes pk_len k ss_out cells place out r v
        (settled, inr (m, known, fits, made)) =
      let source : Source = w.entropy w.draws in
      let (ct, ss) = (bytes m known).encaps_bytes source k in
      Settled-Kept v settled (
        two-Typed (ct_address w) ss_out v.block (part m.length_ciphertext (m.encaps source k).1)
          (over (m.encaps source k).2 cells) made.ct_block
          (part-AllCells m.length_ciphertext (m.encaps source k).1 ct) made.ss_block
          (over-AllCells (m.encaps source k).2 cells ss (subst IsBlock place (sane.typed ss_out)))
          made.others)
