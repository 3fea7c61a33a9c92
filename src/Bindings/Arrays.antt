-- ===== src/Bindings/Arrays.antt =====
-- The builders that copy pieces into an array, js/src/index.js and Pqc.java, against the forms that
-- c/qorechain_pqc.h gives.
use qorechain_pqc.Base.{
  ℕ, ◌≡◌, refl, ℤ, pos, Option, none, some, ◌>>=◌, List, [], ◌∷◌, arith, length, Bool-cases, inl,
  inr, Text, codes, str_eq,
}
use qorechain_pqc.SignBytes.{eqb_ℤ}
use qorechain_pqc.SignBytes.Layout.{v1_layout}
use qorechain_pqc.SignBytes.Fields.{be_bytes-u32}
use qorechain_pqc.SignBytes.Form.{bound_form, sign_bytes_form}
use qorechain_pqc.Bindings.Java
use qorechain_pqc.Bindings.Js
use qorechain_pqc.Bindings.Pieces.{
  concat-flat, v1_parts, v2_parts, flat-v1_parts, flat-v2_parts, bounded, java_v1-bounded,
  java_v2-bounded,
}
use qorechain_pqc.Bindings.Forms.{be_bytes-u64, bound_form_lem, version_number, text_of}

module _ (body auth : List ℕ) where
  js_v1 : Js.hybrid_sign_bytes_v1 body auth ≡ some (v1_layout body auth)
  unfolding Js.hybrid_sign_bytes_v1
  js_v1 = rw (
    be_bytes-u32 (length body),
    be_bytes-u32 (length auth),
    concat-flat (v1_parts body auth),
    flat-v1_parts body auth,
  )

  js_v2 :
      (chain_id : Option Text)
      → Js.hybrid_sign_bytes_v2 chain_id body auth ≡ bound_form (text_of chain_id) body auth
  unfolding Js.hybrid_sign_bytes_v2
  js_v2 none = unfold bound_form in refl
  js_v2 (some name) = rw (
    bound_form_lem name body auth,
    be_bytes-u64 (length name),
    be_bytes-u32 (length body),
    be_bytes-u32 (length auth),
    concat-flat (v2_parts body auth name),
    flat-v2_parts body auth name,
  )

  -- JavaScript's builder gives for every text that names a version the bytes of that form, and an
  -- exception exactly where there is no such form, a chain-id that is no string included.
  pub js-form :
      (version : Text) (chain_id : Option Text)
      → Js.hybrid_sign_bytes version chain_id body auth
        ≡ sign_bytes_form (version_number version) (text_of chain_id) body auth
  unfolding Js.hybrid_sign_bytes sign_bytes_form
  js-form version chain_id = elim (Bool-cases (str_eq version (codes "v2"))) [
    | inl second ↦ rw (second, js_v2 chain_id)
    | inr other ↦ rw other (elim (Bool-cases (str_eq version (codes "v1"))) [
      | inl first ↦ rw (first, js_v1)
      | inr unknown ↦ rw unknown
    ])
  ]

  java_v2 :
      (chain_id : Option Text)
      → Java.hybrid_sign_bytes_v2 chain_id (some body) (some auth)
        ≡ (bound_form (text_of chain_id) body auth >>= bounded)
  unfolding bound_form
  java_v2 none = unfold Java.hybrid_sign_bytes_v2 in refl
  java_v2 (some []) = unfold Java.hybrid_sign_bytes_v2 in refl
  java_v2 (some (c ∷ cs)) = java_v2-bounded body auth (c ∷ cs) (ground arith)

  -- Java's builder gives for every version the bytes of the form that the version names if they are
  -- less than 2^31, whatever the additions of lengths in 32-bit arithmetic come to, and throws an
  -- exception if they are not, or if there is no such form, a null chain-id included. Neither of the
  -- arrays is null.
  pub java-form :
      (version : ℤ) (chain_id : Option Text)
      → Java.hybrid_sign_bytes version chain_id (some body) (some auth)
        ≡ (sign_bytes_form version (text_of chain_id) body auth >>= bounded)
  unfolding Java.hybrid_sign_bytes sign_bytes_form
  java-form version chain_id = elim (Bool-cases (eqb_ℤ version (pos 1))) [
    | inl first ↦ rw (first, java_v1-bounded body auth)
    | inr other ↦ rw other (elim (Bool-cases (eqb_ℤ version (pos 2))) [
      | inl second ↦ rw (second, java_v2 chain_id)
      | inr unknown ↦ rw unknown
    ])
  ]
