-- ===== src/Bindings/Js.antt =====
-- js/src/index.js: `signBytesVersionFor`, `signBytesVersionForApplied`, the builders, with the
-- helpers `be32`, `be64`, `concat` and `toHeight`, and `verify` and `batchVerify`. A version is the text 'v1' or 'v2'.
pub mod Hashes
pub mod Wrap
use qorechain_pqc.Base.{
  ℕ, ◌+◌, ◌%◌, ◌^◌, suc, ℤ, pos, negsuc, Bool, false, not, leb, ltb_ℤ, Option, none, some, ◌>>=◌,
  List, [], ◌∷◌, ◌++◌, length, take, drop, replicate, if◌then◌else◌, Text, codes, str_eq, ◌==◌,
}
use qorechain_pqc.Codec.BigEndian.{be_bytes}
use qorechain_pqc.Bindings.{
  Height, nothing, blank, number, Dict, contains, total, Lengths, Verifier, caught,
}

abbrev pub hybrid_sign_bytes_v2_domain : Text
hybrid_sign_bytes_v2_domain = codes "qorechain-pqc-hybrid-v2"

abbrev pub sign_bytes_v2_upgrades : List Text
sign_bytes_v2_upgrades = codes "v3.2.0" ∷ codes "v3.1.98" ∷ []

abbrev pub legacy_sign_bytes_chains : List Text
legacy_sign_bytes_chains = codes "qorechain-vladi" ∷ codes "qorechain-diana" ∷ []

-- setUint32(0, n >>> 0) and setBigUint64(0, BigInt(n)) on new arrays
abbrev pub be32_array : ℕ → List ℕ
be32_array n = be_bytes 4 (n % 2 ^ 32)

abbrev pub be64_array : ℕ → List ℕ
be64_array n = be_bytes 8 (n % 2 ^ 64)

-- `out.set(p, o)`, a RangeError if p does not lie in out
unfoldable pub set : List ℕ → List ℕ → ℕ → Option (List ℕ)
set out p o =
    if leb (o + length p) (length out)
    then some (take o out ++ p ++ drop (o + length p) out)
    else none

unfoldable pub set_all : List (List ℕ) → ℕ → List ℕ → Option (List ℕ)
set_all [] o out = some out
set_all (p ∷ parts) o out = do out' ← set out p o; set_all parts (o + length p) out'

-- A new Uint8Array holds zeros.
unfoldable pub concat : List (List ℕ) → Option (List ℕ)
concat parts = set_all parts 0 (replicate (total parts) 0)

unfoldable pub hybrid_sign_bytes_v1 : List ℕ → List ℕ → Option (List ℕ)
hybrid_sign_bytes_v1 body auth =
    concat (be32_array (length body) ∷ body ∷ be32_array (length auth) ∷ auth ∷ [])

-- A chain-id that is no string is `none`.
unfoldable pub hybrid_sign_bytes_v2 : Option Text → List ℕ → List ℕ → Option (List ℕ)
hybrid_sign_bytes_v2 none body auth = none
hybrid_sign_bytes_v2 (some cid) body auth =
    if length cid == 0
    then none
    else concat (
        hybrid_sign_bytes_v2_domain
        ∷ be64_array (length cid)
        ∷ cid
        ∷ be32_array (length body)
        ∷ body
        ∷ be32_array (length auth)
        ∷ auth
        ∷ [])

unfoldable pub hybrid_sign_bytes : Text → Option Text → List ℕ → List ℕ → Option (List ℕ)
hybrid_sign_bytes version chain_id body auth =
    if str_eq version (codes "v2")
    then hybrid_sign_bytes_v2 chain_id body auth
    else (if str_eq version (codes "v1") then hybrid_sign_bytes_v1 body auth else none)

abbrev pub to_height : Height → ℤ
to_height nothing = pos 0
to_height blank = pos 0
to_height (number h) = h

unfoldable pub sign_bytes_version_for : Text → Height → Text
sign_bytes_version_for chain_id v2_applied_height =
    if ltb_ℤ (pos 0) (to_height v2_applied_height)
    then codes "v2"
    else (if contains legacy_sign_bytes_chains chain_id then codes "v1" else codes "v2")

-- The lookup in an object or a Map, which may itself be missing.
abbrev pub get_in : Option Dict → Text → Height
get_in none name = nothing
get_in (some heights) name = elim (heights name) [ none ↦ nothing | some v ↦ v ]

abbrev greatest : List Text → (Text → Height) → ℤ → ℤ
greatest [] get best = best
greatest (name ∷ names) get best =
    let h = to_height (get name) in greatest names get (if ltb_ℤ best h then h else best)

unfoldable pub sign_bytes_version_for_applied : Text → Option Dict → Text
sign_bytes_version_for_applied chain_id applied_heights =
    sign_bytes_version_for chain_id
      (number (greatest sign_bytes_v2_upgrades (get_in applied_heights) (pos 0)))

abbrev pub sig_lengths : Text → Option Lengths
sig_lengths name =
    if str_eq name (codes "ml-dsa-44")
    then some (record { public_key = 1312; secret_key = 2560; signature = 2420 })
    else (if str_eq name (codes "ml-dsa-65")
        then some (record { public_key = 1952; secret_key = 4032; signature = 3309 })
        else (if str_eq name (codes "ml-dsa-87")
            then some (record { public_key = 2592; secret_key = 4896; signature = 4627 })
            else none))

-- `verify` of a scheme that `wrapSig` made. An argument that is no Uint8Array is `none`.
unfoldable pub verify :
    Verifier → Lengths → Option (List ℕ) → Option (List ℕ) → Option (List ℕ) → Bool
verify scheme lens (some public_key) (some message) (some signature) =
    if not (length public_key == lens.public_key)
    then false
    else (if not (length signature == lens.signature)
        then false
        else caught (scheme message signature public_key))
verify scheme lens _ _ _ = false

-- An element of the array, each field of which may be missing.
pub record Item : Type 0 where
  pub public_key : Option (List ℕ)
  pub message : Option (List ℕ)
  pub signature : Option (List ℕ)

-- `items[i] ?? {}`
abbrev pub or_nothing : Option Item → Item
or_nothing none = record { public_key = none; message = none; signature = none }
or_nothing (some item) = item

-- The loop from the index i on.
unfoldable pub batch_from : Verifier → Lengths → ℕ → List (Option Item) → ℤ
unfolding verify
batch_from scheme lens i [] = negsuc 0
batch_from scheme lens i (item ∷ items) =
    let it = or_nothing item in
    let rest = batch_from scheme lens (suc i) items in
    if not (verify scheme lens it.public_key it.message it.signature) then pos i else rest

unfoldable pub batch_verify : Verifier → Lengths → List (Option Item) → ℤ
unfolding batch_from
batch_verify scheme lens items = batch_from scheme lens 0 items
