-- ===== src/Hash/Laws.antt =====
-- The branches of `qpqc_shake256` and `qpqc_pubkey_hash`.
use mathlib.Core.Path.{subst}
use qorechain_pqc.Base.{
  ℕ, ◌≤◌, ◌≡◌, refl, ap, ◌∙◌, ◌⊎◌, Bool, ◌&&◌, Option, ◌>>=◌, Bool-cases, Option-cases, inl, inr,
  true, false, none, some, List, arith, length, take,
}
use qorechain_pqc.Machine.{Ptr, Cell, ConstPtr, World, Run, done, fault, store, set_block}
use qorechain_pqc.Machine.Args.{Holds, ticked}
use qorechain_pqc.Machine.Ends.{read_eq, over, write_over}
use qorechain_pqc.Oqs.{object_new, object_free}
use qorechain_pqc.Hash.{Evp, XofLaws, shake256, pubkey_hash}

-- What OpenSSL's three calls make of these data: whether each returned 1, and the bytes written, or
-- `none` if one of them has undefined behaviour.
abbrev pub hashed : {C : Type 0} → Evp C → List ℕ → ℕ → Option (Bool × List ℕ)
hashed evp d n = do
  (begun, c) ← evp.init evp.new_ctx
  (fed, c') ← evp.update c d
  (read_out, bytes) ← evp.final_xof c' n
  some (begun && (fed && read_out), bytes)

module _ {C : Type 0} (evp : Evp C) (shake : List ℕ → ℕ → List ℕ) (laws : XofLaws evp shake)
    (d : List ℕ) (n : ℕ) where
  -- What is known of the bytes.
  abbrev pub Digest : Option (Bool × List ℕ) → Type 0
  Digest none = Unit
  Digest (some (ok, bytes)) = (length bytes ≤ n) × ((ok ≡ false) ⊎ (bytes ≡ shake d n))

  all_true :
      (begun fed read_out : Bool) (bytes : List ℕ)
      → (begun ≡ true → fed ≡ true → read_out ≡ true → bytes ≡ shake d n)
      → ((begun && (fed && read_out)) ≡ false) ⊎ (bytes ≡ shake d n)
  all_true false fed read_out bytes h = inl refl
  all_true true false read_out bytes h = inl refl
  all_true true true false bytes h = inl refl
  all_true true true true bytes h = inr (h refl refl refl)

  pub hashed-Digest : Digest (hashed evp d n)
  hashed-Digest = elim (Option-cases (evp.init evp.new_ctx)) [
    | inl undefined ↦ rw undefined tt
    | inr ((begun, c), first) ↦ elim (Option-cases (evp.update c d)) [
      | inl undefined ↦ rw (first, undefined) tt
      | inr ((fed, c'), second) ↦ elim (Option-cases (evp.final_xof c' n)) [
        | inl undefined ↦ rw (first, second, undefined) tt
        | inr ((read_out, bytes), third) ↦
            rw (first, second, third)
              (
                laws.within c' n read_out bytes third,
                all_true begun fed read_out bytes (λ b f r.
                    laws.computes c c' d bytes n (first ∙ ap (λ o. some (o, c)) b)
                      (second ∙ ap (λ o. some (o, c')) f) (third ∙ ap (λ o. some (o, bytes)) r)),
              )
      ]
    ]
  ]

module _ {C : Type 0} (evp : Evp C) (src : ConstPtr) (src_len : ℕ) (d : List ℕ)
    (hd : Holds src src_len d) (out : Ptr) (cells : List Cell) (w : World)
    (place : w.block out ≡ some cells) where
  -- The state after these bytes were written.
  abbrev pub digested : List ℕ → World
  digested bytes = set_block out (some (over bytes cells)) (ticked w)

  abbrev stored : Option (Bool × List ℕ) → Run (Unit {0})
  stored none = fault
  stored (some (ok, bytes)) = done tt (digested bytes)

  shake256-stored :
      (n : ℕ)
      → ((c : C) (ok : Bool) (bytes : List ℕ)
          → evp.final_xof c n ≡ some (ok, bytes)
          → length bytes ≤ length cells)
      → w.refuse w.calls ≡ false
      → shake256 evp src src_len out n w ≡ stored (hashed evp d n)
  unfolding shake256 object_new object_free store
  shake256-stored n room grant = elim (Option-cases (evp.init evp.new_ctx)) [
    | inl undefined ↦ rw (grant, undefined)
    | inr ((begun, c), first) ↦ elim (Option-cases (evp.update c d)) [
      | inl undefined ↦ rw (grant, first, read_eq src src_len d hd, undefined)
      | inr ((fed, c'), second) ↦ elim (Option-cases (evp.final_xof c' n)) [
        | inl undefined ↦ rw (grant, first, read_eq src src_len d hd, second, undefined)
        | inr ((read_out, bytes), third) ↦ rw (
          grant,
          first,
          read_eq src src_len d hd,
          second,
          third,
          place,
          write_over bytes cells (room c' read_out bytes third),
        )
      ]
    ]
  ]

  -- On data that may be read, with an output buffer that has room for n bytes, `qpqc_shake256` runs
  -- into undefined behaviour if OpenSSL has no context to give, and if it has one, only where a call of
  -- OpenSSL has no defined behaviour, such as on a context where a call before failed. Else it returns
  -- with the context given back, and nothing but the first n bytes of the output buffer has changed:
  -- they are those of SHAKE-256, unless one of the three calls failed. The code returns in the same
  -- way, with whatever bytes OpenSSL wrote, if one failed.
  pub shake256-digested :
      (shake : List ℕ → ℕ → List ℕ)
      → XofLaws evp shake
      → (n : ℕ) → n ≤ length cells
      → ((w.refuse w.calls ≡ true) × (shake256 evp src src_len out n w ≡ fault))
        ⊎ ((w.refuse w.calls ≡ false)
            × (hashed evp d n ≡ none)
            × (shake256 evp src src_len out n w ≡ fault))
        ⊎ ((w.refuse w.calls ≡ false)
            × (ok : Bool) × (bytes : List ℕ) × (hashed evp d n ≡ some (ok, bytes))
            × (shake256 evp src src_len out n w ≡ done tt (digested bytes))
            × (length bytes ≤ n)
            × ((ok ≡ false) ⊎ (bytes ≡ shake d n)))
  unfolding shake256 object_new
  shake256-digested shake laws n room = elim (Bool-cases (w.refuse w.calls)) [
    | inl refused ↦ inl (refused, rw refused)
    | inr grant ↦
        let run =
          shake256-stored n (λ c ok bytes e. omega (arith, laws.within c n ok bytes e)) grant in
        elim (Option-cases (hashed evp d n)) [
          | inl undefined ↦ inr (inl (grant, undefined, run ∙ ap stored undefined))
          | inr ((ok, bytes), made) ↦
              let (fits, digest) =
                subst (Digest evp shake laws d n) made (hashed-Digest evp shake laws d n) in
              inr (inr (grant, ok, bytes, made, run ∙ ap stored made, fits, digest))
        ]
  ]

  -- `pubkey_hash` to m bytes stores the first m of the n bytes that SHAKE-256 of the key gives, for
  -- every n from m on. OpenSSL has a context and its calls return 1, the output buffer has room, and
  -- the key may be read.
  pubkey_hash-take :
      (shake : List ℕ → ℕ → List ℕ)
      → XofLaws evp shake
      → (m n : ℕ) (bytes : List ℕ) → w.refuse w.calls ≡ false
      → m ≤ n
      → m ≤ length cells
      → hashed evp d m ≡ some (true, bytes)
      → pubkey_hash evp src src_len out m w ≡ done tt (digested (take m (shake d n)))
  unfolding pubkey_hash
  pubkey_hash-take shake laws m n bytes grant le room made =
      let run = shake256-stored m (λ c ok bs e. omega (arith, laws.within c m ok bs e)) grant in
      let known = subst (Digest evp shake laws d m) made (hashed-Digest evp shake laws d m) in
      run
      ∙ ap stored made
      ∙ ap (λ bs. done tt (digested bs))
          (elim known.1 [
            | inl failed ↦ absurd (ground (arith, failed))
            | inr right ↦ right ∙ laws.shake_prefix d m n le
          ])
