-- ===== src/Bindings/Java/Methods.antt =====
-- java/src/main/java/network/qorechain/pqc/Pqc.java: the methods behind the checks of their arguments.
use qorechain_pqc.Base.{ℕ, Option, none, some, List, Text}
use qorechain_pqc.Machine.{Source}
use qorechain_pqc.Bindings.Java.Primitives.{
  bouncy, Result, ok, ◌>>=◌, or_throw, BouncyDsa, BouncyKem, mlkem_lengths, mlkem_params,
  dsa_params, require_level, require_non_null, require_length, require_mldsa_seed,
}

module _ {P S : Type 0} (bc : BouncyDsa P S) where
  unfoldable pub mldsa_keygen : Source → Option Text → Result (List ℕ × List ℕ)
  mldsa_keygen random level = do
    name ← require_level level
    params ← dsa_params name
    (pk, sk) ← or_throw (bc.generate_dsa random params) bouncy
    ok (bc.public_encoded pk, bc.seed_of sk)

  unfoldable pub mldsa_keygen_from_seed : Option Text → Option (List ℕ) → Result (List ℕ × List ℕ)
  unfolding require_mldsa_seed
  mldsa_keygen_from_seed level seed = do
    name ← require_level level
    xi ← require_mldsa_seed name seed
    params ← dsa_params name
    sk ← or_throw (bc.private_key params xi) bouncy
    ok (bc.public_encoded (bc.public_of sk), bc.seed_of sk)

  -- The common text of `mldsaSign` and `mldsaSignHedged`, which gives the signer its randomness.
  abbrev sign_from :
      Option Source → Option Text → Option (List ℕ) → Option (List ℕ) → Result (List ℕ)
  sign_from random level secret_key message = do
    name ← require_level level
    xi ← require_mldsa_seed name secret_key
    m ← require_non_null message
    params ← dsa_params name
    sk ← or_throw (bc.private_key params xi) bouncy
    or_throw (bc.generate_signature sk random m) bouncy

  unfoldable pub mldsa_sign : Option Text → Option (List ℕ) → Option (List ℕ) → Result (List ℕ)
  unfolding require_mldsa_seed
  mldsa_sign level secret_key message = sign_from none level secret_key message

  unfoldable pub mldsa_sign_hedged :
      Source → Option Text → Option (List ℕ) → Option (List ℕ) → Result (List ℕ)
  unfolding require_mldsa_seed
  mldsa_sign_hedged random level secret_key message =
      sign_from (some random) level secret_key message

module _ {P S : Type 0} (bc : BouncyKem P S) where
  unfoldable pub mlkem_keygen : Source → Option Text → Result (List ℕ × List ℕ)
  unfolding mlkem_params
  mlkem_keygen random level = do
    name ← require_level level
    params ← mlkem_params name
    (pk, sk) ← or_throw (bc.generate_kem random params) bouncy
    ok (bc.kem_public_encoded pk, bc.kem_private_encoded sk)

  unfoldable pub mlkem_encapsulate :
      Source → Option Text → Option (List ℕ) → Result (List ℕ × List ℕ)
  unfolding mlkem_lengths mlkem_params
  mlkem_encapsulate random level public_key = do
    name ← require_level level
    lens ← mlkem_lengths name
    bytes ← require_length public_key lens.public_key
    params ← mlkem_params name
    pk ← or_throw (bc.kem_public_key params bytes) bouncy
    or_throw (bc.generate_encapsulated random pk) bouncy

  unfoldable pub mlkem_decapsulate :
      Option Text → Option (List ℕ) → Option (List ℕ) → Result (List ℕ)
  unfolding mlkem_lengths mlkem_params
  mlkem_decapsulate level secret_key ciphertext = do
    name ← require_level level
    lens ← mlkem_lengths name
    bytes ← require_length secret_key lens.secret_key
    ct ← require_length ciphertext lens.ciphertext
    params ← mlkem_params name
    sk ← or_throw (bc.kem_private_key params bytes) bouncy
    or_throw (bc.extract_secret sk ct) bouncy
