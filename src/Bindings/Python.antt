-- ===== src/Bindings/Python.antt =====
-- python/qorpqc/__init__.py: `sign_bytes_version_for`, `sign_bytes_version_for_applied`, the
-- builders, and `MlDsa.verify`. A version is the text "v1" or "v2".
pub mod Calls
pub mod Draws
pub mod Effects
pub mod Handles
pub mod Hashes
pub mod Methods
pub mod Package
pub mod Tidy
use qorechain_pqc.Base.{
  ℕ, ◌^◌, ℤ, pos, ltb, ltb_ℤ, ◌||◌, not, Bool, false, Option, none, some, ◌>>=◌, List, [], ◌∷◌,
  ◌++◌, length, if◌then◌else◌, Text, codes, str_eq, ◌==◌,
}
use qorechain_pqc.Codec.BigEndian.{be_bytes}
use qorechain_pqc.Bindings.{
  Height, nothing, blank, number, Dict, contains, Lengths, Verifier, caught,
}

abbrev pub hybrid_sign_bytes_domain : Text
hybrid_sign_bytes_domain = codes "qorechain-pqc-hybrid-v2"

abbrev pub sign_bytes_v2_upgrades : List Text
sign_bytes_v2_upgrades = codes "v3.2.0" ∷ codes "v3.1.98" ∷ []

abbrev pub legacy_sign_bytes_chains : List Text
legacy_sign_bytes_chains = codes "qorechain-vladi" ∷ codes "qorechain-diana" ∷ []

-- `_height`
abbrev pub height : Height → ℤ
height nothing = pos 0
height blank = pos 0
height (number h) = h

unfoldable pub sign_bytes_version_for : Text → Height → Text
sign_bytes_version_for chain_id v2_applied_height =
    if ltb_ℤ (pos 0) (height v2_applied_height) || not (contains legacy_sign_bytes_chains chain_id)
    then codes "v2"
    else codes "v1"

-- `dict.get`
abbrev pub get : Option Height → Height
get none = nothing
get (some v) = v

abbrev greatest : List Text → Dict → ℤ → ℤ
greatest [] heights best = best
greatest (name ∷ names) heights best =
    let h = height (get (heights name)) in greatest names heights (if ltb_ℤ best h then h else best)

-- `applied_heights or {}`
abbrev or_empty : Option Dict → Dict
or_empty none = λ name. none
or_empty (some heights) = heights

unfoldable pub sign_bytes_version_for_applied : Text → Option Dict → Text
sign_bytes_version_for_applied chain_id applied_heights =
    sign_bytes_version_for chain_id
      (number (greatest sign_bytes_v2_upgrades (or_empty applied_heights) (pos 0)))

-- `struct.pack` raises an error for a number that does not fit.
abbrev pack_i : ℕ → Option (List ℕ)
pack_i n = if ltb n (2 ^ 32) then some (be_bytes 4 n) else none

abbrev pack_q : ℕ → Option (List ℕ)
pack_q n = if ltb n (2 ^ 64) then some (be_bytes 8 n) else none

unfoldable pub hybrid_sign_bytes_v1 : List ℕ → List ℕ → Option (List ℕ)
hybrid_sign_bytes_v1 body auth = do
  l ← pack_i (length body)
  k ← pack_i (length auth)
  some (l ++ body ++ k ++ auth)

unfoldable pub hybrid_sign_bytes_v2 : Text → List ℕ → List ℕ → Option (List ℕ)
hybrid_sign_bytes_v2 cid body auth = if length cid == 0 then none else do
  l ← pack_q (length cid)
  form ← hybrid_sign_bytes_v1 body auth
  some (hybrid_sign_bytes_domain ++ l ++ cid ++ form)

unfoldable pub hybrid_sign_bytes : Text → Text → List ℕ → List ℕ → Option (List ℕ)
hybrid_sign_bytes version chain_id body auth =
    if str_eq version (codes "v2")
    then hybrid_sign_bytes_v2 chain_id body auth
    else (if str_eq version (codes "v1") then hybrid_sign_bytes_v1 body auth else none)

abbrev pub mldsa_lengths : Text → Option Lengths
mldsa_lengths level =
    if str_eq level (codes "ml-dsa-44")
    then some (record { public_key = 1312; secret_key = 2560; signature = 2420 })
    else (if str_eq level (codes "ml-dsa-65")
        then some (record { public_key = 1952; secret_key = 4032; signature = 3309 })
        else (if str_eq level (codes "ml-dsa-87")
            then some (record { public_key = 2592; secret_key = 4896; signature = 4627 })
            else none))

-- `MlDsa.verify` of a handle with these lengths. An argument that is not bytes-like is `none`.
unfoldable pub verify :
    Verifier → Lengths → Option (List ℕ) → Option (List ℕ) → Option (List ℕ) → Bool
verify library lens (some public_key) (some message) (some signature) =
    if not (length public_key == lens.public_key) || not (length signature == lens.signature)
    then false
    else caught (library message signature public_key)
verify library lens _ _ _ = false
