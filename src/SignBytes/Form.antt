-- ===== src/SignBytes/Form.antt =====
-- `qpqc_hybrid_sign_bytes` against the table of the forms that c/qorechain_pqc.h gives.
use qorechain_pqc.Base.{
  ℕ, ◌+◌, ◌^◌, ◌<◌, ◌≡◌, ℤ, true, false, Option, none, some, List, [], ◌∷◌, arith, ◌==◌,
  if◌then◌else◌, ◌||◌, Bool-cases, inl, inr, Text,
}
use qorechain_pqc.Machine.{ConstPtr, World, Run, done}
use qorechain_pqc.Machine.Args.{Holds, length-Holds}
use qorechain_pqc.SignBytes.{
  qpqc_err, sign_bytes_v1, sign_bytes_v2, eqb_ℤ, Out, is_null, hybrid_sign_bytes,
}
use qorechain_pqc.SignBytes.Layout.{v1_layout, v2_layout}
use qorechain_pqc.SignBytes.Fields.{built}
use qorechain_pqc.SignBytes.V1.{hybrid_sign_bytes_v1-layout}
use qorechain_pqc.SignBytes.V2.{hybrid_sign_bytes_v2-layout}

-- The v2 form binds a signature to one network, and no network has an empty chain-id.
unfoldable pub bound_form : Text → List ℕ → List ℕ → Option (List ℕ)
bound_form [] b0 auth = none
bound_form (c ∷ cs) b0 auth = some (v2_layout (c ∷ cs) b0 auth)

-- The bytes that a network of this version verifies, if there are any.
unfoldable pub sign_bytes_form : ℤ → Text → List ℕ → List ℕ → Option (List ℕ)
unfolding bound_form
sign_bytes_form version chain_id b0 auth =
    if eqb_ℤ version sign_bytes_v1
    then some (v1_layout b0 auth)
    else (if eqb_ℤ version sign_bytes_v2 then bound_form chain_id b0 auth else none)

-- A builder that answers with these bytes, or with QPQC_ERR and nothing changed.
unfoldable pub answer : World → Out → Option (List ℕ) → Run (ℤ × Out)
answer w out none = done (qpqc_err, out) w
answer w out (some bytes) = built w out bytes

empty_iff :
    (ident : ConstPtr) (l : ℕ) (cs b0 auth : List ℕ) (out : Out) (w : World)
    → Holds ident l cs
    → (if is_null ident || l == 0
        then done (qpqc_err, out) w
        else built w out (v2_layout cs b0 auth))
      ≡ answer w out (bound_form cs b0 auth)
unfolding answer bound_form
empty_iff none l cs b0 auth out w (e, nil) = rw nil
empty_iff (some ys) l [] b0 auth out w h =
    let zero_length : (l == 0) ≡ true = ground (arith, length-Holds (some ys) l [] h) in
    rw zero_length
empty_iff (some ys) l (c ∷ cs) b0 auth out w h =
    let positive : (l == 0) ≡ false = ground (arith, length-Holds (some ys) l (c ∷ cs) h) in
    rw positive

-- For every version number, arguments that may be read and lengths whose sum fits a `size_t`: the
-- dispatcher answers with the bytes of the form that the version names, in a fresh block, and with
-- QPQC_ERR and nothing changed where there is no such form (another version, or v2 with an empty
-- chain-id).
pub hybrid_sign_bytes-form :
    (version : ℤ) (chain_id b0 auth : ConstPtr) (l m n : ℕ) (cs xs ys : List ℕ)
    → Holds chain_id l cs
    → Holds b0 m xs
    → Holds auth n ys
    → (out : Out) (w : World) → 39 + l + m + n < 2 ^ 64
    → hybrid_sign_bytes version chain_id l b0 m auth n out w
      ≡ answer w out (sign_bytes_form version cs xs ys)
unfolding hybrid_sign_bytes sign_bytes_form answer
hybrid_sign_bytes-form version chain_id b0 auth l m n cs xs ys hc hx hy out w fits =
    elim (Bool-cases (eqb_ℤ version sign_bytes_v1)) [
      | inl v1 ↦ rw v1 (hybrid_sign_bytes_v1-layout b0 auth m n xs ys hx hy out w (omega arith))
      | inr other ↦ rw other (elim (Bool-cases (eqb_ℤ version sign_bytes_v2)) [
        | inl v2 ↦
            rw (v2, hybrid_sign_bytes_v2-layout chain_id b0 auth l m n cs xs ys hc hx hy out w fits)
              (empty_iff chain_id l cs xs ys out w hc)
        | inr unknown ↦ rw unknown
      ])
    ]
