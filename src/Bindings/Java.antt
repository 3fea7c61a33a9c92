-- ===== src/Bindings/Java.antt =====
-- java/src/main/java/network/qorechain/pqc/Pqc.java: `signBytesVersionFor`,
-- `signBytesVersionForApplied`, the builders, and `mldsaVerify`. An `int` is a number modulo 2^32, negative from 2^31
-- on, a reference may be null (`none`), and an array has less than 2^31 bytes.
pub mod Hashes
pub mod Methods
pub mod Primitives
use qorechain_pqc.Base.{
  not, ℕ, ◌+◌, ◌-◌, ◌%◌, ◌^◌, Bool, false, ℤ, pos, ltb, leb, ltb_ℤ, Option, none, some, ◌>>=◌, List,
  [], ◌∷◌, ◌++◌, length, replicate, if◌then◌else◌, Text, codes, str_eq, ◌==◌,
}
use qorechain_pqc.Codec.BigEndian.{be_bytes}
use qorechain_pqc.SignBytes.{eqb_ℤ}
use qorechain_pqc.Bindings.{
  Applied, contains, Level, ml_dsa_44, ml_dsa_65, ml_dsa_87, Verifier, caught,
}

abbrev pub hybrid_sign_bytes_domain : Text
hybrid_sign_bytes_domain = codes "qorechain-pqc-hybrid-v2"

abbrev pub sign_bytes_v2_upgrades : List Text
sign_bytes_v2_upgrades = codes "v3.2.0" ∷ codes "v3.1.98" ∷ []

abbrev pub legacy_sign_bytes_chains : List Text
legacy_sign_bytes_chains = codes "qorechain-vladi" ∷ codes "qorechain-diana" ∷ []

abbrev pub sign_bytes_v1 : ℤ
sign_bytes_v1 = pos 1

abbrev pub sign_bytes_v2 : ℤ
sign_bytes_v2 = pos 2

-- `contains` of `List.of` throws a NullPointerException for null.
unfoldable pub sign_bytes_version_for : Option Text → ℤ → Option ℤ
sign_bytes_version_for chain_id v2_applied_height =
    if ltb_ℤ (pos 0) v2_applied_height then some sign_bytes_v2 else do
      name ← chain_id
      some (if contains legacy_sign_bytes_chains name then sign_bytes_v1 else sign_bytes_v2)

abbrev pub raise_to : Option ℤ → ℤ → ℤ
raise_to none best = best
raise_to (some h) best = if ltb_ℤ best h then h else best

abbrev greatest : List Text → Applied → ℤ → ℤ
greatest [] heights best = best
greatest (name ∷ names) heights best = greatest names heights (raise_to (heights name) best)

abbrev greatest_in : Option Applied → ℤ
greatest_in none = pos 0
greatest_in (some heights) = greatest sign_bytes_v2_upgrades heights (pos 0)

unfoldable pub sign_bytes_version_for_applied : Option Text → Option Applied → Option ℤ
sign_bytes_version_for_applied chain_id applied_heights =
    sign_bytes_version_for chain_id (greatest_in applied_heights)

-- java.nio.ByteBuffer: what was put, and the capacity.
pub record ByteBuffer : Type 0 where
  pub filled : List ℕ
  pub capacity : ℕ

abbrev pub int : ℕ → ℕ
int n = n % 2 ^ 32

-- An IllegalArgumentException for a negative capacity.
unfoldable pub allocate : ℕ → Option ByteBuffer
allocate n = if ltb n (2 ^ 31) then some (record { filled = []; capacity = n }) else none

-- A BufferOverflowException if it does not fit.
unfoldable pub put : List ℕ → ByteBuffer → Option ByteBuffer
put bs buf =
    if leb (length buf.filled + length bs) buf.capacity
    then some (record buf { filled = buf.filled ++ bs })
    else none

abbrev pub put_int : ℕ → ByteBuffer → Option ByteBuffer
put_int n = put (be_bytes 4 n)

abbrev pub put_long : ℕ → ByteBuffer → Option ByteBuffer
put_long n = put (be_bytes 8 n)

-- The whole array, of which the part that was not put holds zeros.
abbrev pub array : ByteBuffer → List ℕ
array buf = buf.filled ++ replicate (buf.capacity - length buf.filled) 0

unfoldable pub hybrid_sign_bytes_v1 : Option (List ℕ) → Option (List ℕ) → Option (List ℕ)
hybrid_sign_bytes_v1 body_without_pqc_ext auth_info_bytes = do
  body ← body_without_pqc_ext
  auth ← auth_info_bytes
  buf ← allocate (int (int (8 + length body) + length auth))
  buf' ← put_int (length body) buf >>= put body
  buf'' ← put_int (length auth) buf' >>= put auth
  some (array buf'')

unfoldable pub hybrid_sign_bytes_v2 :
    Option Text → Option (List ℕ) → Option (List ℕ) → Option (List ℕ)
hybrid_sign_bytes_v2 chain_id body_without_pqc_ext auth_info_bytes = do
  cid ← chain_id
  if length cid == 0 then none else do
    body ← body_without_pqc_ext
    auth ← auth_info_bytes
    let domain = hybrid_sign_bytes_domain
    buf ← allocate (
        int
          (int (int (int (int (length domain + 8) + length cid) + 8) + length body) + length auth))
    buf₁ ← put domain buf >>= put_long (length cid) >>= put cid
    buf₂ ← put_int (length body) buf₁ >>= put body
    buf₃ ← put_int (length auth) buf₂ >>= put auth
    some (array buf₃)

unfoldable pub hybrid_sign_bytes :
    ℤ → Option Text → Option (List ℕ) → Option (List ℕ) → Option (List ℕ)
hybrid_sign_bytes version chain_id body auth =
    if eqb_ℤ version sign_bytes_v1
    then hybrid_sign_bytes_v1 body auth
    else (if eqb_ℤ version sign_bytes_v2 then hybrid_sign_bytes_v2 chain_id body auth else none)

-- A switch on the level, which throws for an unknown one.
switch_level : {A : Type 0} → A → A → A → Text → Option A
switch_level a b c level =
    if str_eq level (codes "ml-dsa-44")
    then some a
    else (if str_eq level (codes "ml-dsa-65")
        then some b
        else (if str_eq level (codes "ml-dsa-87") then some c else none))

unfoldable pub mldsa_public_key_length : Text → Option ℕ
unfolding switch_level
mldsa_public_key_length = switch_level 1312 1952 2592

unfoldable pub mldsa_signature_length : Text → Option ℕ
unfolding switch_level
mldsa_signature_length = switch_level 2420 3309 4627

unfoldable pub mldsa_params : Text → Option Level
unfolding switch_level
mldsa_params = switch_level ml_dsa_44 ml_dsa_65 ml_dsa_87

-- Behind the level's parameters, or the exception that says that there are none.
abbrev verify_with :
    (Level → Verifier) → Text → List ℕ → List ℕ → List ℕ → Option Level → Option Bool
verify_with library level public_key message signature none = some false
verify_with library level public_key message signature (some params) = do
  n ← mldsa_public_key_length level
  if not (length public_key == n) then some false else do
    k ← mldsa_signature_length level
    let verdict = caught (library params message signature public_key)
    some (if not (length signature == k) then false else verdict)

-- An exception that leaves the method is `none`.
unfoldable pub mldsa_verify :
    (Level → Verifier)
    → Option Text
    → Option (List ℕ)
    → Option (List ℕ)
    → Option (List ℕ)
    → Option Bool
mldsa_verify library (some level) (some public_key) (some message) (some signature) =
    verify_with library level public_key message signature (mldsa_params level)
mldsa_verify library _ _ _ _ = some false
