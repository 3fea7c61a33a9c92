-- ===== src/Bindings/Go.antt =====
-- go/pqc.go: `SignBytesVersionFor`, `SignBytesVersionForApplied`, the builders, and
-- `SigScheme.Verify`.
pub mod Hashes
pub mod Schemes
use qorechain_pqc.Base.{
  ℕ, ◌%◌, ◌^◌, ℤ, pos, ltb_ℤ, Bool, false, not, Option, none, some, List, [], ◌∷◌, ◌++◌, length,
  if◌then◌else◌, Text, codes, str_eq, ◌==◌,
}
use qorechain_pqc.Codec.BigEndian.{be_bytes}
use qorechain_pqc.SignBytes.{eqb_ℤ}
use qorechain_pqc.Bindings.{Applied}

abbrev pub hybrid_sign_bytes_domain : Text
hybrid_sign_bytes_domain = codes "qorechain-pqc-hybrid-v2"

abbrev pub sign_bytes_v2_upgrades : List Text
sign_bytes_v2_upgrades = codes "v3.2.0" ∷ codes "v3.1.98" ∷ []

abbrev pub sign_bytes_v1 : ℤ
sign_bytes_v1 = pos 1

abbrev pub sign_bytes_v2 : ℤ
sign_bytes_v2 = pos 2

abbrev pub legacy_sign_bytes_chains : List Text
legacy_sign_bytes_chains = codes "qorechain-vladi" ∷ codes "qorechain-diana" ∷ []

-- The loop over the old networks.
abbrev find_legacy : List Text → Text → ℤ
find_legacy [] chain_id = sign_bytes_v2
find_legacy (c ∷ cs) chain_id = if str_eq c chain_id then sign_bytes_v1 else find_legacy cs chain_id

unfoldable pub sign_bytes_version_for : Text → ℤ → ℤ
sign_bytes_version_for chain_id v2_applied_height =
    if ltb_ℤ (pos 0) v2_applied_height
    then sign_bytes_v2
    else find_legacy legacy_sign_bytes_chains chain_id

-- A missing key has the value 0.
abbrev pub lookup : Option ℤ → ℤ
lookup none = pos 0
lookup (some h) = h

abbrev greatest : List Text → Applied → ℤ → ℤ
greatest [] heights best = best
greatest (name ∷ names) heights best =
    let h = lookup (heights name) in greatest names heights (if ltb_ℤ best h then h else best)

unfoldable pub sign_bytes_version_for_applied : Text → Applied → ℤ
sign_bytes_version_for_applied chain_id applied_heights =
    sign_bytes_version_for chain_id (greatest sign_bytes_v2_upgrades applied_heights (pos 0))

-- binary.BigEndian.AppendUint32 and AppendUint64 of a converted length
abbrev append_uint32 : List ℕ → ℕ → List ℕ
append_uint32 out n = out ++ be_bytes 4 (n % 2 ^ 32)

abbrev append_uint64 : List ℕ → ℕ → List ℕ
append_uint64 out n = out ++ be_bytes 8 (n % 2 ^ 64)

unfoldable pub hybrid_sign_bytes_v1 : List ℕ → List ℕ → List ℕ
hybrid_sign_bytes_v1 body auth =
    let out = append_uint32 [] (length body) in
    let out' = append_uint32 (out ++ body) (length auth) in out' ++ auth

unfoldable pub hybrid_sign_bytes_v2 : Text → List ℕ → List ℕ → List ℕ
hybrid_sign_bytes_v2 chain_id body auth =
    let out = append_uint64 ([] ++ hybrid_sign_bytes_domain) (length chain_id) in
    let out' = append_uint32 (out ++ chain_id) (length body) in
    let out'' = append_uint32 (out' ++ body) (length auth) in out'' ++ auth

unfoldable pub hybrid_sign_bytes : ℤ → Text → List ℕ → List ℕ → Option (List ℕ)
hybrid_sign_bytes version chain_id body auth =
    if eqb_ℤ version sign_bytes_v1
    then some (hybrid_sign_bytes_v1 body auth)
    else (if eqb_ℤ version sign_bytes_v2
        then (if length chain_id == 0 then none else some (hybrid_sign_bytes_v2 chain_id body auth))
        else none)

-- CIRCL's `sign.Scheme`, as far as verification uses it, over its type of public keys.
pub record Scheme (K : Type 0) : Type 0 where
  pub signature_size : ℕ
  pub unmarshal_binary_public_key : List ℕ → Option K
  pub scheme_verify : K → (message : List ℕ) → (signature : List ℕ) → Bool

module _ {K : Type 0} (sc : Scheme K) where
  abbrev pub verify_with : Option K → List ℕ → List ℕ → Bool
  verify_with none message signature = false
  verify_with (some pk) message signature = sc.scheme_verify pk message signature

  unfoldable pub verify : List ℕ → List ℕ → List ℕ → Bool
  verify public_key message signature =
      if not (length signature == sc.signature_size)
      then false
      else verify_with (sc.unmarshal_binary_public_key public_key) message signature
