-- ===== src/Client/Answers.antt =====
-- What sign-bytes, digests and shared secrets do to memory that holds bytes.
use mathlib.Core.Path.{subst}
use qorechain_pqc.Base.{
  ℕ, suc, Bool, Option-cases, ◌≡◌, refl, sym, inl, inr, ℤ, Option, none, some, List, [], ◌∷◌,
  Bool-cases, map,
}
use qorechain_pqc.Machine.{Ptr, update, ConstPtr, Cell, World}
use qorechain_pqc.Machine.Args.{Holds, owning}
use qorechain_pqc.Machine.Ends.{Ends, over}
use qorechain_pqc.Oqs.{Kem}
use qorechain_pqc.SignBytes.{Out, sign_bytes_v1, sign_bytes_v2, eqb_ℤ}
use qorechain_pqc.SignBytes.Form.{bound_form, sign_bytes_form, answer}
use qorechain_pqc.Kem.Decaps.{Decapsulated}
use qorechain_pqc.Hash.{Evp}
use qorechain_pqc.Hash.Laws.{hashed, digested}
use qorechain_pqc.Client.{AllBytes}
use qorechain_pqc.Client.Typed.{
  IsBlock, Typed, KemBytes, XofBytes, AreBytes, update-Typed, bytes-AllCells, over-AllCells,
  v1_layout-AllBytes, v2_layout-AllBytes,
}
use qorechain_pqc.Client.Preserves.{Sane, Kept, same-Typed}

bound_form-AreBytes :
    (cs xs ys : List ℕ) → AllBytes cs → AllBytes xs → AllBytes ys → AreBytes (bound_form cs xs ys)
unfolding bound_form
bound_form-AreBytes [] xs ys hc hx hy = tt
bound_form-AreBytes (c ∷ cs) xs ys hc hx hy = v2_layout-AllBytes xs ys hx hy (c ∷ cs) hc

-- The bytes of a digest, if there are any.
abbrev pub Written : Option (Bool × List ℕ) → Type 0
Written none = Unit
Written (some (ok, bytes)) = AllBytes bytes

pub hashed-Written :
    {C : Type 0} (evp : Evp C) → XofBytes evp → (d : List ℕ) (n : ℕ) → Written (hashed evp d n)
hashed-Written evp law d n = elim (Option-cases (evp.init evp.new_ctx)) [
  | inl undefined ↦ rw undefined tt
  | inr ((begun, c), first) ↦ elim (Option-cases (evp.update c d)) [
    | inl undefined ↦ rw (first, undefined) tt
    | inr ((fed, c'), second) ↦ elim (Option-cases (evp.final_xof c' n)) [
      | inl undefined ↦ rw (first, second, undefined) tt
      | inr ((ok, bytes), third) ↦ rw (first, second, third) (law.written_bytes c' n ok bytes third)
    ]
  ]
]

pub form-AreBytes :
    (version : ℤ) (cs xs ys : List ℕ)
    → AllBytes cs
    → AllBytes xs
    → AllBytes ys
    → AreBytes (sign_bytes_form version cs xs ys)
unfolding sign_bytes_form
form-AreBytes version cs xs ys hc hx hy = elim (Bool-cases (eqb_ℤ version sign_bytes_v1)) [
  | inl first ↦ rw first (v1_layout-AllBytes xs ys hx hy)
  | inr other ↦ rw other (elim (Bool-cases (eqb_ℤ version sign_bytes_v2)) [
    | inl second ↦ rw second (bound_form-AreBytes cs xs ys hc hx hy)
    | inr unknown ↦ rw unknown tt
  ])
]

module _ (w : World) (sane : Sane w) where
  pub answer-Kept :
      (out : Out) (form : Option (List ℕ))
      → AreBytes form
      → Ends (λ _ v. Kept w v) (answer w out form)
  unfolding answer owning
  answer-Kept out none bytes = (sane, refl)
  answer-Kept out (some bs) bytes = elim (Bool-cases (w.refuse w.calls)) [
    | inl refused ↦
        rw refused (record { held = sane.held; rng = sane.rng; typed = sane.typed }, refl)
    | inr grant ↦ rw grant (
      record {
        held = sane.held;
        rng = sane.rng;
        typed =
            update-Typed (suc w.calls) (some (map some bs)) w.block sane.typed
              (bytes-AllCells bs bytes);
      },
      refl,
    )
  ]

  pub overwritten-Typed :
      (p : Ptr) (bs : List ℕ) (cells : List Cell)
      → w.block p ≡ some cells
      → AllBytes bs
      → Typed (update w.block p (some (over bs cells)))
  overwritten-Typed p bs cells place bytes =
      update-Typed p (some (over bs cells)) w.block sane.typed
        (over-AllCells bs cells bytes (subst IsBlock place (sane.typed p)))

  module _ {C : Type 0} (evp : Evp C) (src : ConstPtr) (src_len : ℕ) (d : List ℕ)
      (hd : Holds src src_len d) (out : Ptr) (cells : List Cell)
      (place : w.block out ≡ some cells) where
    pub digested-Kept :
        (bytes : List ℕ)
        → AllBytes bytes
        → Kept w (digested evp src src_len d hd out cells w place bytes)
    digested-Kept bs bytes = (
      record {
        held = sane.held;
        rng = sane.rng;
        typed = overwritten-Typed out bs cells place bytes;
      },
      refl,
    )

  pub Decapsulated-Typed :
      (found : Option Kem) (bytes : (m : Kem) → found ≡ some m → KemBytes m) (sk_len ct_len : ℕ)
      (k c : List ℕ) (ss_out : Ptr) (cells : List Cell) (place : w.block ss_out ≡ some cells)
      (ss_len : ℕ) (r : ℤ × ℕ) (v : World)
      → Decapsulated found sk_len ct_len k c ss_out cells ss_len w r v
      → Typed v.block
  Decapsulated-Typed found bytes sk_len ct_len k c ss_out cells place ss_len r v
        (inl (why, code, len, block)) =
      same-Typed w sane v.block block
  Decapsulated-Typed found bytes sk_len ct_len k c ss_out cells place ss_len r v
        (inr (m, known, fits, fits', grant, code, len, block)) =
      subst Typed (sym block)
        (overwritten-Typed ss_out (m.decaps c k).1 cells place ((bytes m known).decaps_bytes c k))
