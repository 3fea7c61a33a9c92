-- ===== src/Client/Safe.antt =====
-- Programs that call c/qorechain_pqc.c as its header asks are safe.
use mathlib.Core.Path.{subst}
use qorechain_pqc.Base.{
  ℕ, ◌≤◌, ◌≡◌, ◌⊎◌, sym, refl, ap, ◌∙◌, inl, inr, Option, none, some, List, arith, length, Text,
}
use qorechain_pqc.Machine.{Cell, World, fault}
use qorechain_pqc.Machine.Ends.{Ends, Ends-mono}
use qorechain_pqc.Oqs.{Sig, SigLaws, Kem, KemLaws, Oqs, CleanseLaw}
use qorechain_pqc.SignBytes.Form.{sign_bytes_form, answer, hybrid_sign_bytes-form}
use qorechain_pqc.Dsa.{mldsa_keygen, mldsa_sign, mldsa_sign_hedged, mldsa_verify}
use qorechain_pqc.Dsa.Sign.{zeros, sign_events, mldsa_sign-SignPost}
use qorechain_pqc.Dsa.Hedged.{hedged_events, mldsa_sign_hedged-SignPost}
use qorechain_pqc.Dsa.Keygen.{mldsa_keygen-KeygenPost}
use qorechain_pqc.Dsa.Verify.{mldsa_verify-Verdict}
use qorechain_pqc.Kem.{mlkem_encapsulate, mlkem_decapsulate}
use qorechain_pqc.Kem.Encaps.{mlkem_encapsulate-EncapsPost}
use qorechain_pqc.Kem.Decaps.{mlkem_decapsulate-Decapsulated}
use qorechain_pqc.Hash.{Evp, XofLaws}
use qorechain_pqc.Hash.Laws.{shake256-digested}
use qorechain_pqc.Release.Laws.{qpqc_free-null, qpqc_free_zeroes}
use qorechain_pqc.Client.{
  Operation, keygen, sign, sign_hedged, verify, encapsulate, decapsulate, hash, sign_bytes, release,
  secret_length, perform, Valid, Unhashed, Reached, here, next,
}
use qorechain_pqc.Client.Typed.{SigBytes, KemBytes, XofBytes, update-Typed}
use qorechain_pqc.Client.Preserves.{
  Sane, Kept, finished-Ends, Settled-Kept, same-Typed, signed-Kept, KeygenPost-Kept,
  EncapsPost-Kept,
}
use qorechain_pqc.Client.Answers.{
  form-AreBytes, answer-Kept, digested-Kept, Written, hashed-Written, Decapsulated-Typed,
}

room_for :
    (found : Option Kem) (cells : List Cell)
    → secret_length found ≤ length cells
    → (m : Kem) → found ≡ some m
    → m.length_shared_secret ≤ length cells
room_for found cells fits m known = omega (arith, ap secret_length known)

module _ {C : Type 0} (oqs : Oqs) (evp : Evp C) (shake : List ℕ → ℕ → List ℕ)
    (sig_laws : (alg : Text) (s : Sig) → oqs.sig alg ≡ some s → SigLaws s)
    (sig_bytes : (alg : Text) (s : Sig) → oqs.sig alg ≡ some s → SigBytes s)
    (kem_laws : (alg : Text) (m : Kem) → oqs.kem alg ≡ some m → KemLaws m)
    (kem_bytes : (alg : Text) (m : Kem) → oqs.kem alg ≡ some m → KemBytes m)
    (cleanse : CleanseLaw oqs) (xof : XofLaws evp shake) (xof_bytes : XofBytes evp) where
  -- A call ends well, or it is a hash for which OpenSSL has no context or no defined behaviour.
  abbrev Outcome : (World → Type 0) → Operation → World → Type 0
  Outcome P op w =
      (Unhashed evp w op × (perform oqs evp op w ≡ fault))
      ⊎ Ends (λ _ v. P v) (perform oqs evp op w)

  perform-Kept : (op : Operation) (w : World) → Sane w → Valid oqs w op → Outcome (Kept w) op w
  unfolding perform
  perform-Kept (keygen alg out) w sane valid = inr (
      finished-Ends (mldsa_keygen oqs alg out w)
        (mldsa_keygen-KeygenPost oqs sig_laws alg out w sane.held sane.rng)
        λ r v post. KeygenPost-Kept w sane (oqs.sig alg) (sig_bytes alg) out r v post)
  perform-Kept (sign alg sk sk_len msg n out) w sane ((k, hk, bk), (m, hm, bm)) = inr (
      finished-Ends (mldsa_sign oqs alg sk sk_len msg n out w)
        (mldsa_sign-SignPost oqs sig_laws alg sk msg sk_len n k m hk hm out w sane.held sane.rng)
        λ r v post.
          signed-Kept w sane (oqs.sig alg) (sig_bytes alg) sk_len zeros sign_events k m out r v
            post)
  perform-Kept (sign_hedged alg sk sk_len msg n out) w sane ((k, hk, bk), (m, hm, bm)) = inr (
      finished-Ends (mldsa_sign_hedged oqs alg sk sk_len msg n out w)
        (mldsa_sign_hedged-SignPost oqs sig_laws alg sk msg sk_len n k m hk hm out w sane.held
          sane.rng)
        λ r v post.
          signed-Kept w sane (oqs.sig alg) (sig_bytes alg) sk_len (w.entropy w.draws) hedged_events
            k m out r v post)
  perform-Kept (verify alg pk pk_len msg n sig l) w sane ((k, hk, bk), (m, hm, bm), (t, ht, bt)) =
      inr (
        finished-Ends (mldsa_verify oqs alg pk pk_len msg n sig l w)
          (mldsa_verify-Verdict oqs alg pk msg sig pk_len n l k m t hk hm ht w)
          λ rc v post. Settled-Kept w sane v post.0.0 (same-Typed w sane v.block post.0.1))
  perform-Kept (encapsulate alg pk pk_len ss_out out) w sane
        ((k, hk, bk), (cells, place, room), old) =
      inr (
        finished-Ends (mlkem_encapsulate oqs alg pk pk_len ss_out out w)
          (mlkem_encapsulate-EncapsPost oqs kem_laws alg pk pk_len k hk ss_out cells out w place old
            (room_for (oqs.kem alg) cells room) sane.held sane.rng)
          λ r v post.
            EncapsPost-Kept w sane (oqs.kem alg) (kem_bytes alg) pk_len k ss_out cells place out r v
              post)
  perform-Kept (decapsulate alg sk sk_len ct ct_len ss_out ss_len) w sane
        ((k, hk, bk), (c, hc, bc), (cells, place, room)) =
      inr (
        finished-Ends (mlkem_decapsulate oqs alg sk sk_len ct ct_len ss_out ss_len w)
          (mlkem_decapsulate-Decapsulated oqs kem_laws alg sk ct sk_len ct_len k c hk hc ss_out
            ss_len cells w place (room_for (oqs.kem alg) cells room))
          λ r v post. Settled-Kept w sane v post.0 (
            Decapsulated-Typed w sane (oqs.kem alg) (kem_bytes alg) sk_len ct_len k c ss_out cells
              place ss_len r v post.1))
  perform-Kept (hash src src_len out n) w sane ((d, hd, bd), (cells, place, room)) =
      elim (shake256-digested evp src src_len d hd out cells w place shake xof n room) [
        | inl (refused, run) ↦ inl (inl refused, run)
        | inr (inl (grant, undefined, run)) ↦ inl (inr (d, hd, undefined), run)
        | inr (inr (grant, ok, bytes, made, run, fits, digest)) ↦ inr (
            rw run (
              digested-Kept w sane evp src src_len d hd out cells place bytes
                (subst Written made (hashed-Written evp xof_bytes d n))))
      ]
  perform-Kept (sign_bytes version chain_id l b0 m auth n out) w sane
        ((cs, hc, bc), (xs, hx, bx), (ys, hy, by), fits) =
      inr (
        rw (hybrid_sign_bytes-form version chain_id b0 auth l m n cs xs ys hc hx hy out w fits) (
          finished-Ends (answer w out (sign_bytes_form version cs xs ys))
            (answer-Kept w sane out (sign_bytes_form version cs xs ys)
              (form-AreBytes version cs xs ys bc bx by))
            λ r v kept. kept))
  perform-Kept (release buf len) w sane (inl nothing) =
      inr (rw (nothing, qpqc_free-null oqs len w) (sane, refl))
  perform-Kept (release buf len) w sane (inr (given, cells, place, whole)) = inr (
      rw (qpqc_free_zeroes oqs cleanse buf len cells w given place whole) (
        record {
          held = sane.held;
          rng = sane.rng;
          typed = update-Typed buf none w.block sane.typed tt;
        },
        refl,
      ))

  Reached-Kept : (w u : World) → Sane w → Reached oqs evp w u → Kept w u
  Reached-Kept w u sane here = (sane, refl)
  Reached-Kept w u sane (next {u = t} op before valid e) =
      let (sane_t, count) = Reached-Kept w t sane before in
      elim (perform-Kept op t sane_t valid) [
        | inl (unhashed, run) ↦ absurd (subst (Ends (λ _ v. Unit)) (sym e ∙ run) tt)
        | inr ends ↦
            let (sane_u, count') : Kept t u = subst (Ends (λ _ v. Kept t v)) e ends in
            (sane_u, count' ∙ count)
      ]

  -- Under liboqs's and OpenSSL's laws, from a state with a free lock, the system's generator and only
  -- bytes in memory: whatever calls with the arguments that the header asks for were made so far, in any
  -- order and with any outcome, the next such call ends without fault or deadlock, the lock is free and
  -- the system's generator in place again, every byte that is set in a block is below 256, and as many
  -- liboqs and OpenSSL objects live as at the beginning. The one exception is a call of
  -- `qpqc_shake256` for which OpenSSL has no context to give, or no defined behaviour in one of the three
  -- calls that follow, whose statuses the code ignores: that call faults.
  pub perform-Sane :
      (w u : World) (op : Operation)
      → Sane w
      → Reached oqs evp w u
      → Valid oqs u op
      → (Unhashed evp u op × (perform oqs evp op u ≡ fault))
        ⊎ Ends (λ _ v. Sane v × (v.handles ≡ w.handles)) (perform oqs evp op u)
  perform-Sane w u op sane reached valid =
      let (sane_u, count) = Reached-Kept w u sane reached in
      elim (perform-Kept op u sane_u valid) [
        | inl fault_of_hash ↦ inl fault_of_hash
        | inr ends ↦
            inr (Ends-mono (perform oqs evp op u) ends λ _ v kept. (kept.0, kept.1 ∙ count))
      ]
