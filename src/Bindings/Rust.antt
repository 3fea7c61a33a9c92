-- ===== src/Bindings/Rust.antt =====
-- rust/src/lib.rs: `sign_bytes_version_for`, `sign_bytes_version_for_applied`, the builders, and `verify`
-- of the levels of ML-DSA.
pub mod Hashes
pub mod Levels
use qorechain_pqc.Base.{
  ℕ, ◌%◌, ◌^◌, ℤ, pos, ltb_ℤ, ◌||◌, not, Bool, false, Option, none, some, List, [], ◌∷◌, ◌++◌,
  length, if◌then◌else◌, Text, codes, ◌==◌,
}
use qorechain_pqc.Codec.BigEndian.{be_bytes}
use qorechain_pqc.Bindings.{Applied, contains, Level, ml_dsa_44, ml_dsa_65, ml_dsa_87, Lengths}

pub data SignBytesVersion : Type 0 where
  v1 v2 : SignBytesVersion

abbrev pub hybrid_sign_bytes_domain : Text
hybrid_sign_bytes_domain = codes "qorechain-pqc-hybrid-v2"

abbrev pub sign_bytes_v2_upgrades : List Text
sign_bytes_v2_upgrades = codes "v3.2.0" ∷ codes "v3.1.98" ∷ []

abbrev pub legacy_sign_bytes_chains : List Text
legacy_sign_bytes_chains = codes "qorechain-vladi" ∷ codes "qorechain-diana" ∷ []

unfoldable pub sign_bytes_version_for : Text → ℤ → SignBytesVersion
sign_bytes_version_for chain_id v2_applied_height =
    if ltb_ℤ (pos 0) v2_applied_height || not (contains legacy_sign_bytes_chains chain_id)
    then v2
    else v1

-- `.filter_map(|name| applied_heights.get(*name).copied())`
abbrev pub keep : Option ℤ → List ℤ → List ℤ
keep none hs = hs
keep (some h) hs = h ∷ hs

abbrev recorded : List Text → Applied → List ℤ
recorded [] heights = []
recorded (name ∷ names) heights = keep (heights name) (recorded names heights)

-- `i64::max`, which gives its second argument when the two are equal
abbrev pub max : ℤ → ℤ → ℤ
max a b = if ltb_ℤ b a then a else b

abbrev pub fold_max : List ℤ → ℤ → ℤ
fold_max [] acc = acc
fold_max (h ∷ hs) acc = fold_max hs (max acc h)

unfoldable pub sign_bytes_version_for_applied : Text → Applied → SignBytesVersion
sign_bytes_version_for_applied chain_id applied_heights =
    sign_bytes_version_for chain_id
      (fold_max (recorded sign_bytes_v2_upgrades applied_heights) (pos 0))

unfoldable pub hybrid_sign_bytes_v1 : List ℕ → List ℕ → List ℕ
hybrid_sign_bytes_v1 body auth =
    be_bytes 4 (length body % 2 ^ 32) ++ body ++ be_bytes 4 (length auth % 2 ^ 32) ++ auth

unfoldable pub hybrid_sign_bytes_v2 : Text → List ℕ → List ℕ → List ℕ
hybrid_sign_bytes_v2 chain_id body auth =
    hybrid_sign_bytes_domain
    ++ be_bytes 8 (length chain_id % 2 ^ 64)
    ++ chain_id
    ++ hybrid_sign_bytes_v1 body auth

unfoldable pub try_hybrid_sign_bytes_v2 : Text → List ℕ → List ℕ → Option (List ℕ)
try_hybrid_sign_bytes_v2 chain_id body auth =
    if length chain_id == 0 then none else some (hybrid_sign_bytes_v2 chain_id body auth)

unfoldable pub hybrid_sign_bytes : SignBytesVersion → Text → List ℕ → List ℕ → List ℕ
hybrid_sign_bytes v1 chain_id body auth = hybrid_sign_bytes_v1 body auth
hybrid_sign_bytes v2 chain_id body auth = hybrid_sign_bytes_v2 chain_id body auth

unfoldable pub try_hybrid_sign_bytes : SignBytesVersion → Text → List ℕ → List ℕ → Option (List ℕ)
try_hybrid_sign_bytes v1 chain_id body auth = some (hybrid_sign_bytes_v1 body auth)
try_hybrid_sign_bytes v2 chain_id body auth = try_hybrid_sign_bytes_v2 chain_id body auth

-- The arguments of `mldsa_level!`.
abbrev pub mldsa_level : Level → Lengths
mldsa_level ml_dsa_44 = record { public_key = 1312; secret_key = 2560; signature = 2420 }
mldsa_level ml_dsa_65 = record { public_key = 1952; secret_key = 4032; signature = 3309 }
mldsa_level ml_dsa_87 = record { public_key = 2592; secret_key = 4896; signature = 4627 }

-- fips204's `PublicKey`, as far as verification uses it.
pub record Scheme (K : Type 0) : Type 0 where
  pub try_from_bytes : List ℕ → Option K
  pub key_verify : K → (message : List ℕ) → (signature : List ℕ) → Bool

module _ {K : Type 0} (scheme : Scheme K) (level : Level) where
  abbrev pub verify_with : Option K → List ℕ → List ℕ → Bool
  verify_with none message signature = false
  verify_with (some pk) message signature = scheme.key_verify pk message signature

  -- `try_into` an array wants just its length.
  unfoldable pub verify : List ℕ → List ℕ → List ℕ → Bool
  verify public_key message signature =
      if not (length public_key == (mldsa_level level).public_key)
      then false
      else (if not (length signature == (mldsa_level level).signature)
          then false
          else verify_with (scheme.try_from_bytes public_key) message signature)
