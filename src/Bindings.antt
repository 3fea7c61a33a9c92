-- ===== src/Bindings.antt =====
-- The same interface in other languages: the Go, Rust, Python, JavaScript and Java bindings. The module
-- of a language has the functions that build the sign-bytes, choose their form and verify signatures, its
-- children have the others, over the libraries that they call. A byte string or a string is the list of
-- its bytes (of its UTF-8 encoding), an exception or an error is `none` where a module has no type for
-- it, and a map is a function.
pub mod Agreement
pub mod Arrays
pub mod Batch
pub mod Fips
pub mod Forms
pub mod Go
pub mod Guards
pub mod Heights
pub mod Java
pub mod Js
pub mod KemGuarded
pub mod KemGuards
pub mod Pieces
pub mod Python
pub mod Rust
pub mod SameKeys
pub mod SameSecret
pub mod SameSignature
pub mod SameVerdict
pub mod Secrets
pub mod Signatures
pub mod Verdicts
pub mod Versions
use qorechain_pqc.Base.{
  ℕ, ◌+◌, length, ℤ, pos, Bool, false, ◌||◌, Option, none, some, List, [], ◌∷◌, Text, codes, str_eq,
}

abbrev pub contains : List Text → Text → Bool
contains [] x = false
contains (u ∷ us) x = str_eq x u || contains us x

-- The height that a node gives for a plan, in the languages without types: a value that stands for
-- nothing (None, null), the empty string, or a number or numeral.
pub data Height : Type 0 where
  nothing blank : Height
  number : ℤ → Height

-- From plan names to heights.
abbrev pub Applied : Type 0
Applied = Text → Option ℤ

abbrev pub Dict : Type 0
Dict = Text → Option Height

-- The pieces that a message is put together from.
abbrev pub total : List (List ℕ) → ℕ
total [] = 0
total (p ∷ parts) = length p + total parts

-- The levels of ML-DSA, and their names.
pub data Level : Type 0 where
  ml_dsa_44 ml_dsa_65 ml_dsa_87 : Level

abbrev pub level_name : Level → Text
level_name ml_dsa_44 = codes "ml-dsa-44"
level_name ml_dsa_65 = codes "ml-dsa-65"
level_name ml_dsa_87 = codes "ml-dsa-87"

pub record Lengths : Type 0 where
  pub public_key : ℕ
  pub secret_key : ℕ
  pub signature : ℕ

-- The levels of ML-KEM, and their names.
pub data KemLevel : Type 0 where
  ml_kem_512 ml_kem_768 ml_kem_1024 : KemLevel

abbrev pub kem_level_name : KemLevel → Text
kem_level_name ml_kem_512 = codes "ml-kem-512"
kem_level_name ml_kem_768 = codes "ml-kem-768"
kem_level_name ml_kem_1024 = codes "ml-kem-1024"

-- The lengths of a level of ML-KEM.
pub record KemLengths : Type 0 where
  pub public_key : ℕ
  pub secret_key : ℕ
  pub ciphertext : ℕ

-- What a library's verification answers for a message, a signature and a public key; `none` is an
-- exception.
abbrev pub Verifier : Type 0
Verifier = List ℕ → List ℕ → List ℕ → Option Bool

-- An exception that is caught counts as a refusal.
abbrev pub caught : Option Bool → Bool
caught none = false
caught (some verdict) = verdict
