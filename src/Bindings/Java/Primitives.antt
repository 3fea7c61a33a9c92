-- ===== src/Bindings/Java/Primitives.antt =====
-- java/src/main/java/network/qorechain/pqc/Pqc.java: the ML-DSA methods but `mldsaVerify`, and the
-- ML-KEM methods, over Bouncy Castle, which is a parameter. A reference may be null (`none`).
use qorechain_pqc.Base.{
  ℕ, not, Option, none, some, List, length, ◌==◌, if◌then◌else◌, Text, codes, str_eq,
}
use qorechain_pqc.Machine.{Source}
use qorechain_pqc.Bindings.{Level, KemLevel, ml_kem_512, ml_kem_768, ml_kem_1024, KemLengths}
use qorechain_pqc.Bindings.Java.{mldsa_params}

-- The IllegalArgumentExceptions of the checks, by their message, and what comes from Bouncy Castle.
pub data Exception : Type 0 where
  null_level unknown_level null_argument wrong_length expanded_key : Exception
  negative_length bouncy : Exception

pub data Result (A : Type 0) : Type 0 where
  ok : A → Result A
  thrown : Exception → Result A

module _ {A B : Type 0} where
  infixl 5 ◌>>=◌ ◌>>◌
  abbrev pub ◌>>=◌ : Result A → (A → Result B) → Result B
  ok a >>= k = k a
  thrown e >>= k = thrown e

  abbrev pub ◌>>◌ : Result A → Result B → Result B
  m >> n = m >>= λ _. n

abbrev pub or_throw : {A : Type 0} → Option A → Exception → Result A
or_throw none e = thrown e
or_throw (some a) e = ok a

-- Bouncy Castle's ML-DSA over its types of public and private keys. Without a source of randomness the
-- signer is deterministic.
pub record BouncyDsa (P S : Type 0) : Type 0 where
  pub generate_dsa : Source → Level → Option (P × S)
  pub private_key : Level → List ℕ → Option S
  pub public_of : S → P
  pub public_encoded : P → List ℕ
  pub seed_of : S → List ℕ
  pub generate_signature : S → Option Source → (message : List ℕ) → Option (List ℕ)

pub record BouncyKem (P S : Type 0) : Type 0 where
  pub generate_kem : Source → KemLevel → Option (P × S)
  pub kem_public_key : KemLevel → List ℕ → Option P
  pub kem_private_key : KemLevel → List ℕ → Option S
  pub kem_public_encoded : P → List ℕ
  pub kem_private_encoded : S → List ℕ
  pub generate_encapsulated : Source → P → Option (List ℕ × List ℕ)
  pub extract_secret : S → (ciphertext : List ℕ) → Option (List ℕ)

abbrev pub mldsa_seed_length : ℕ
mldsa_seed_length = 32

unfoldable pub mldsa_expanded_secret_key_length : Text → Result ℕ
mldsa_expanded_secret_key_length level =
    if str_eq level (codes "ml-dsa-44")
    then ok 2560
    else (if str_eq level (codes "ml-dsa-65")
        then ok 4032
        else (if str_eq level (codes "ml-dsa-87") then ok 4896 else thrown unknown_level))

unfoldable pub mlkem_lengths : Text → Result KemLengths
mlkem_lengths level =
    if str_eq level (codes "ml-kem-512")
    then ok (record { public_key = 800; secret_key = 1632; ciphertext = 768 })
    else (if str_eq level (codes "ml-kem-768")
        then ok (record { public_key = 1184; secret_key = 2400; ciphertext = 1088 })
        else (if str_eq level (codes "ml-kem-1024")
            then ok (record { public_key = 1568; secret_key = 3168; ciphertext = 1568 })
            else thrown unknown_level))

unfoldable pub mlkem_params : Text → Result KemLevel
mlkem_params level =
    if str_eq level (codes "ml-kem-512")
    then ok ml_kem_512
    else (if str_eq level (codes "ml-kem-768")
        then ok ml_kem_768
        else (if str_eq level (codes "ml-kem-1024") then ok ml_kem_1024 else thrown unknown_level))

-- `mldsaParams`, its exception included
abbrev pub dsa_params : Text → Result Level
dsa_params level = or_throw (mldsa_params level) unknown_level

abbrev pub require_level : Option Text → Result Text
require_level level = or_throw level null_level

abbrev pub require_non_null : {A : Type 0} → Option A → Result A
require_non_null value = or_throw value null_argument

abbrev pub require_length : Option (List ℕ) → ℕ → Result (List ℕ)
require_length value n = do
  bytes ← require_non_null value
  if not (length bytes == n) then thrown wrong_length else ok bytes

unfoldable pub require_mldsa_seed : Text → Option (List ℕ) → Result (List ℕ)
unfolding mldsa_expanded_secret_key_length
require_mldsa_seed level seed = do
  bytes ← require_non_null seed
  if length bytes == mldsa_seed_length then ok bytes else do
    expanded ← mldsa_expanded_secret_key_length level
    if length bytes == expanded then thrown expanded_key else thrown wrong_length
