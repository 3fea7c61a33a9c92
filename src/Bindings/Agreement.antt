-- ===== src/Bindings/Agreement.antt =====
-- The builders of c/qorechain_pqc.c and of the five bindings on the same arguments.
use qorechain_pqc.Base.{
  ℕ, ◌+◌, ◌^◌, ◌<◌, ◌≡◌, refl, sym, ap, ◌∙◌, true, ltb, some, ◌>>=◌, List, [], ◌∷◌, arith, length,
  Text, codes, strcmp,
}
use qorechain_pqc.Machine.{World}
use qorechain_pqc.Machine.Args.{some-Holds}
use qorechain_pqc.SignBytes.{Out, hybrid_sign_bytes}
use qorechain_pqc.SignBytes.Layout.{v1_layout, v2_layout}
use qorechain_pqc.SignBytes.Fields.{length-v1_layout, length-v2_layout}
use qorechain_pqc.SignBytes.Form.{bound_form, sign_bytes_form, answer, hybrid_sign_bytes-form}
use qorechain_pqc.Bindings.Go
use qorechain_pqc.Bindings.Java
use qorechain_pqc.Bindings.Js
use qorechain_pqc.Bindings.Python
use qorechain_pqc.Bindings.Rust
use qorechain_pqc.Bindings.Pieces.{bounded}
use qorechain_pqc.Bindings.Arrays.{js-form, java-form}
use qorechain_pqc.Bindings.Forms.{
  number_of, version_number, packable, go-form, rust-form, python-form,
}

-- The version as Python and JavaScript name it.
abbrev pub name_of : Rust.SignBytesVersion → Text
name_of Rust.v1 = codes "v1"
name_of Rust.v2 = codes "v2"

module _ (cid : Text) (body auth : List ℕ)
    (small : 39 + length cid + length body + length auth < 2 ^ 31) where
  bounded_v2 : (bound_form cid body auth >>= bounded) ≡ bound_form cid body auth
  unfolding bound_form
  bounded_v2 =
      elim cid
          as (λ c.
            length (v2_layout c body auth) < 2 ^ 31
            → (bound_form c body auth >>= bounded) ≡ bound_form c body auth) [
              | [] ↦ λ h. refl
              | c ∷ cs ↦ λ h.
                  let fits : ltb (length (v2_layout (c ∷ cs) body auth)) (2 ^ 31) ≡ true =
                    ground arith in
                  rw fits
            ]
        (omega (arith, length-v2_layout cid body auth))

  bounded_form :
      (version : Rust.SignBytesVersion)
      → (sign_bytes_form (number_of version) cid body auth >>= bounded)
        ≡ sign_bytes_form (number_of version) cid body auth
  unfolding sign_bytes_form
  bounded_form Rust.v1 =
      let fits : ltb (length (v1_layout body auth)) (2 ^ 31) ≡ true =
        ground (arith, length-v1_layout body auth) in
      rw fits
  bounded_form Rust.v2 = bounded_v2

  named-form :
      (version : Rust.SignBytesVersion)
      → sign_bytes_form (version_number (name_of version)) cid body auth
        ≡ sign_bytes_form (number_of version) cid body auth
  unfolding strcmp
  named-form Rust.v1 = refl
  named-form Rust.v2 = refl

  python-named :
      (version : Rust.SignBytesVersion)
      → Python.hybrid_sign_bytes (name_of version) cid body auth
        ≡ sign_bytes_form (number_of version) cid body auth
  python-named version =
      let fits : packable body auth ≡ true = ground arith in
      python-form body auth cid (name_of version) (omega arith) ∙ rw fits (named-form version)

  -- For both versions, any chain-id, the empty one included, and messages below 2^31 bytes:
  -- `qpqc_hybrid_sign_bytes` returns QPQC_ERR and changes nothing where the Go builder gives an error,
  -- and where it gives bytes it returns QPQC_OK with just these in a fresh block, or QPQC_ERR if `malloc`
  -- refuses that; the checked builders of Rust, Python, JavaScript and Java give the same bytes as the
  -- Go builder, and an error where it gives one.
  pub same_sign_bytes :
      (version : Rust.SignBytesVersion) (out : Out) (w : World)
      → (hybrid_sign_bytes
            (number_of version)
            (some cid)
            (length cid)
            (some body)
            (length body)
            (some auth)
            (length auth)
            out
            w
          ≡ answer w out (Go.hybrid_sign_bytes (number_of version) cid body auth))
        × (Rust.try_hybrid_sign_bytes version cid body auth
            ≡ Go.hybrid_sign_bytes (number_of version) cid body auth)
        × (Python.hybrid_sign_bytes (name_of version) cid body auth
            ≡ Go.hybrid_sign_bytes (number_of version) cid body auth)
        × (Js.hybrid_sign_bytes (name_of version) (some cid) body auth
            ≡ Go.hybrid_sign_bytes (number_of version) cid body auth)
        × (Java.hybrid_sign_bytes (number_of version) (some cid) (some body) (some auth)
            ≡ Go.hybrid_sign_bytes (number_of version) cid body auth)
  same_sign_bytes version out w =
      let go = sym (go-form body auth cid (number_of version)) in
      (
        hybrid_sign_bytes-form (number_of version) (some cid) (some body) (some auth) (length cid)
              (length body) (length auth) cid body auth (some-Holds cid) (some-Holds body)
              (some-Holds auth) out w (omega arith)
            ∙ ap (answer w out) go,
        (rust-form body auth cid version).0 ∙ go,
        python-named version ∙ go,
        js-form body auth (name_of version) (some cid) ∙ named-form version ∙ go,
        java-form body auth (number_of version) (some cid) ∙ bounded_form version ∙ go,
      )
