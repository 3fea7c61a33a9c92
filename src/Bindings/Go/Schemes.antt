-- ===== src/Bindings/Go/Schemes.antt =====
-- go/pqc.go: the methods of SigScheme and KemScheme but verification, and the hashes, over the packages
-- of CIRCL and x/crypto, which are parameters.
use qorechain_pqc.Base.{
  ℕ, not, Option, none, some, ◌>>=◌, List, length, ◌==◌, if◌then◌else◌, Text, codes, str_eq,
  replicate,
}
use qorechain_pqc.Machine.{Source}
use qorechain_pqc.Bindings.{Level, ml_dsa_44, ml_dsa_65, ml_dsa_87}

-- CIRCL's `sign.Scheme` over its types of public and private keys. An error is `none`, and where
-- randomness is drawn it is an argument.
pub record SignScheme (P S : Type 0) : Type 0 where
  pub size_of_seed : ℕ
  pub size_of_signature : ℕ
  pub generate_key : Source → Option (P × S)
  pub derive_key : (seed : List ℕ) → P × S
  pub marshal_public : P → List ℕ
  pub marshal_private : S → List ℕ
  pub unmarshal_private : List ℕ → Option S
  pub sign_scheme : S → (message : List ℕ) → List ℕ

-- One of the packages mldsa44, mldsa65 and mldsa87: `UnmarshalBinary` of its private keys, and
-- `SignTo`, randomized, which gives the contents of the buffer when it is done.
pub record SignPackage (S : Type 0) : Type 0 where
  pub unmarshal_binary : List ℕ → Option S
  pub sign_to : Source → S → (message : List ℕ) → (sig : List ℕ) → Option (List ℕ)

-- CIRCL's `kem.Scheme`
pub record Kem (P S : Type 0) : Type 0 where
  pub generate_key_pair : Source → Option (P × S)
  pub marshal_public : P → List ℕ
  pub marshal_private : S → List ℕ
  pub unmarshal_public : List ℕ → Option P
  pub unmarshal_private : List ℕ → Option S
  pub scheme_encapsulate : Source → P → Option (List ℕ × List ℕ)
  pub scheme_decapsulate : S → (ciphertext : List ℕ) → Option (List ℕ)

module _ {P S : Type 0} (scheme : SignScheme P S) where
  unfoldable pub keygen : Source → Option (List ℕ × List ℕ)
  keygen random = do
    (pk, sk) ← scheme.generate_key random
    some (scheme.marshal_public pk, scheme.marshal_private sk)

  unfoldable pub keygen_from_seed : List ℕ → Option (List ℕ × List ℕ)
  keygen_from_seed seed =
      if not (length seed == scheme.size_of_seed)
      then none
      else (let (pk, sk) = scheme.derive_key seed in
          some (scheme.marshal_public pk, scheme.marshal_private sk))

  unfoldable pub sign : List ℕ → List ℕ → Option (List ℕ)
  sign secret_key message = do
    sk ← scheme.unmarshal_private secret_key
    some (scheme.sign_scheme sk message)

-- One case of the switch in `SignHedged`.
abbrev pub sign_to_with :
    {S : Type 0} → SignPackage S → Source → List ℕ → List ℕ → List ℕ → Option (List ℕ)
sign_to_with pkg random secret_key message sig = do
  sk ← pkg.unmarshal_binary secret_key
  pkg.sign_to random sk message sig

-- The handle is a name with a scheme.
unfoldable pub sign_hedged :
    {P S : Type 0}
    → (Level → SignPackage S)
    → Text
    → SignScheme P S
    → Source
    → List ℕ
    → List ℕ
    → Option (List ℕ)
sign_hedged pkg name scheme random secret_key message =
    let sig = replicate scheme.size_of_signature 0 in
    if str_eq name (codes "ml-dsa-44")
    then sign_to_with (pkg ml_dsa_44) random secret_key message sig
    else (if str_eq name (codes "ml-dsa-65")
        then sign_to_with (pkg ml_dsa_65) random secret_key message sig
        else (if str_eq name (codes "ml-dsa-87")
            then sign_to_with (pkg ml_dsa_87) random secret_key message sig
            else none))

module _ {P S : Type 0} (scheme : Kem P S) where
  unfoldable pub kem_keygen : Source → Option (List ℕ × List ℕ)
  kem_keygen random = do
    (pk, sk) ← scheme.generate_key_pair random
    some (scheme.marshal_public pk, scheme.marshal_private sk)

  unfoldable pub encapsulate : Source → List ℕ → Option (List ℕ × List ℕ)
  encapsulate random public_key = do
    pk ← scheme.unmarshal_public public_key
    scheme.scheme_encapsulate random pk

  unfoldable pub decapsulate : List ℕ → List ℕ → Option (List ℕ)
  decapsulate secret_key ciphertext = do
    sk ← scheme.unmarshal_private secret_key
    scheme.scheme_decapsulate sk ciphertext
