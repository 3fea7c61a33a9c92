-- ===== src/Bindings/Forms.antt =====
-- The builders of the five bindings against the forms that c/qorechain_pqc.h gives.
use qorechain_pqc.Base.{
  Bool, ℕ, ◌%◌, ◌^◌, ◌<◌, ◌≡◌, refl, sym, ap, ◌∙◌, ℤ, pos, true, false, ltb, ◌&&◌, ◌==◌, Option,
  none, some, List, [], ◌∷◌, ◌++◌, append_assoc, arith, length, if◌then◌else◌, Bool-cases, inl, inr,
  Text, codes, str_eq,
}
use qorechain_pqc.Codec.BigEndian.{be_bytes}
use qorechain_pqc.SignBytes.{sign_bytes_v1, sign_bytes_v2, hybrid_sign_bytes_domain}
use qorechain_pqc.SignBytes.Layout.{v1_layout, v2_layout}
use qorechain_pqc.SignBytes.Fields.{be_bytes-u32}
use qorechain_pqc.SignBytes.Form.{bound_form, sign_bytes_form}
use qorechain_pqc.Bindings.Go
use qorechain_pqc.Bindings.Python
use qorechain_pqc.Bindings.Rust

pub be_bytes-u64 : (n : ℕ) → be_bytes 8 (n % 2 ^ 64) ≡ be_bytes 8 n
unfolding be_bytes
be_bytes-u64 n = ground arith

-- The v2 form with the test that the bindings make.
pub bound_form_lem :
    (cid body auth : List ℕ)
    → bound_form cid body auth ≡ (if length cid == 0 then none else some (v2_layout cid body auth))
unfolding bound_form
bound_form_lem [] body auth = refl
bound_form_lem (c ∷ cs) body auth =
    let positive : (length (c ∷ cs) == 0) ≡ false = ground arith in rw positive

-- The number of a version that is a text, 0 if it names none.
abbrev pub version_number : Text → ℤ
version_number version =
    if str_eq version (codes "v2")
    then sign_bytes_v2
    else (if str_eq version (codes "v1") then sign_bytes_v1 else pos 0)

-- No chain-id counts as the empty one.
abbrev pub text_of : Option Text → Text
text_of none = []
text_of (some t) = t

abbrev pub number_of : Rust.SignBytesVersion → ℤ
number_of Rust.v1 = sign_bytes_v1
number_of Rust.v2 = sign_bytes_v2

both_none : (b : Bool) → ◌≡◌ {A = Option (List ℕ)} (if b then none else none) none
both_none true = refl
both_none false = refl

module _ (body auth : List ℕ) where
  flat_v1 :
      be_bytes 4 (length body) ++ body ++ be_bytes 4 (length auth) ++ auth ≡ v1_layout body auth
  unfolding v1_layout
  flat_v1 = rw (
    append_assoc (be_bytes 4 (length body) ++ body) (be_bytes 4 (length auth)) auth,
    append_assoc (be_bytes 4 (length body)) body (be_bytes 4 (length auth) ++ auth),
  )

  go_v1 : Go.hybrid_sign_bytes_v1 body auth ≡ v1_layout body auth
  unfolding Go.hybrid_sign_bytes_v1
  go_v1 = rw (be_bytes-u32 (length body), be_bytes-u32 (length auth), flat_v1)

  rust_v1 : Rust.hybrid_sign_bytes_v1 body auth ≡ v1_layout body auth
  unfolding Rust.hybrid_sign_bytes_v1 Go.hybrid_sign_bytes_v1
  rust_v1 = go_v1

  -- Both lengths can be packed into four bytes.
  abbrev pub packable : Bool
  packable = ltb (length body) (2 ^ 32) && ltb (length auth) (2 ^ 32)

  python_v1 :
      Python.hybrid_sign_bytes_v1 body auth
      ≡ (if packable then some (v1_layout body auth) else none)
  unfolding Python.hybrid_sign_bytes_v1
  python_v1 = elim (Bool-cases (ltb (length body) (2 ^ 32))) [
    | inr long ↦ rw long
    | inl fits ↦ rw fits (elim (Bool-cases (ltb (length auth) (2 ^ 32))) [
      | inr long ↦ rw long
      | inl fits' ↦ rw fits' (ap some flat_v1)
    ])
  ]

  module _ (cid : Text) where
    rust_v2 : Rust.hybrid_sign_bytes_v2 cid body auth ≡ v2_layout cid body auth
    unfolding Rust.hybrid_sign_bytes_v2 v2_layout
    rust_v2 = rw (
      rust_v1,
      be_bytes-u64 (length cid),
      append_assoc (hybrid_sign_bytes_domain ++ be_bytes 8 (length cid)) cid (v1_layout body auth),
      append_assoc hybrid_sign_bytes_domain (be_bytes 8 (length cid)) (cid ++ v1_layout body auth),
    )

    go_v2 : Go.hybrid_sign_bytes_v2 cid body auth ≡ v2_layout cid body auth
    unfolding Go.hybrid_sign_bytes_v2 v2_layout v1_layout
    go_v2 = rw (
      be_bytes-u64 (length cid),
      be_bytes-u32 (length body),
      be_bytes-u32 (length auth),
      append_assoc (front ++ cid ++ be_bytes 4 (length body) ++ body) (be_bytes 4 (length auth))
          auth,
      append_assoc (front ++ cid ++ be_bytes 4 (length body)) body
          (be_bytes 4 (length auth) ++ auth),
      append_assoc (front ++ cid) (be_bytes 4 (length body))
          (body ++ (be_bytes 4 (length auth) ++ auth)),
      append_assoc front cid
          (be_bytes 4 (length body) ++ (body ++ (be_bytes 4 (length auth) ++ auth))),
    )
      where
        front : List ℕ
        front = hybrid_sign_bytes_domain ++ be_bytes 8 (length cid)

    -- Go's builder gives for every version and all arguments the bytes of the form that the version
    -- names, and an error exactly where there is no such form.
    pub go-form :
        (version : ℤ)
        → Go.hybrid_sign_bytes version cid body auth ≡ sign_bytes_form version cid body auth
    unfolding Go.hybrid_sign_bytes sign_bytes_form
    go-form version = rw (go_v1, go_v2, bound_form_lem cid body auth)

    abbrev pub layout_of : Rust.SignBytesVersion → List ℕ
    layout_of Rust.v1 = v1_layout body auth
    layout_of Rust.v2 = v2_layout cid body auth

    -- Rust's checked builder gives for both versions the bytes of the form that the version names, and
    -- an error exactly where there is no such form; the builder that does not check gives the layout
    -- even for an empty chain-id.
    pub rust-form :
        (version : Rust.SignBytesVersion)
        → (Rust.try_hybrid_sign_bytes version cid body auth
            ≡ sign_bytes_form (number_of version) cid body auth)
          × (Rust.hybrid_sign_bytes version cid body auth ≡ layout_of version)
    unfolding Rust.try_hybrid_sign_bytes Rust.try_hybrid_sign_bytes_v2 Rust.hybrid_sign_bytes
        sign_bytes_form
    rust-form Rust.v1 = (rw rust_v1, rust_v1)
    rust-form Rust.v2 = (rw (rust_v2, bound_form_lem cid body auth), rust_v2)

    python_v2 :
        length cid < 2 ^ 64
        → Python.hybrid_sign_bytes_v2 cid body auth
          ≡ (if packable then bound_form cid body auth else none)
    unfolding Python.hybrid_sign_bytes_v2 v2_layout
    python_v2 short = elim (Bool-cases (length cid == 0)) [
      | inl empty ↦ rw (bound_form_lem cid body auth, empty) (sym (both_none packable))
      | inr given ↦
          let small : ltb (length cid) (2 ^ 64) ≡ true = ground arith in
          rw (bound_form_lem cid body auth, given, small, python_v1)
            (elim (Bool-cases packable) [
              | inr long ↦ rw long
              | inl fits ↦ rw fits (
                  ap some (
                    append_assoc (hybrid_sign_bytes_domain ++ be_bytes 8 (length cid)) cid
                      (v1_layout body auth)
                    ∙ append_assoc hybrid_sign_bytes_domain (be_bytes 8 (length cid))
                        (cid ++ v1_layout body auth)))
            ])
    ]

    -- Python's builder gives for every text that names a version the bytes of that form if the lengths
    -- of both byte strings fit into four bytes, and raises an exception if they do not, or if there is
    -- no such form. The chain-id has less than 2^64 bytes.
    pub python-form :
        (version : Text)
        → length cid < 2 ^ 64
        → Python.hybrid_sign_bytes version cid body auth
          ≡ (if packable then sign_bytes_form (version_number version) cid body auth else none)
    unfolding Python.hybrid_sign_bytes sign_bytes_form
    python-form version short = elim (Bool-cases (str_eq version (codes "v2"))) [
      | inl second ↦ rw (second, python_v2 short)
      | inr other ↦ rw other (elim (Bool-cases (str_eq version (codes "v1"))) [
        | inl first ↦ rw (first, python_v1)
        | inr unknown ↦ rw unknown (sym (both_none packable))
      ])
    ]
