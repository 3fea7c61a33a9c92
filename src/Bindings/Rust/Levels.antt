-- ===== src/Bindings/Rust/Levels.antt =====
-- rust/src/lib.rs: the functions that `mldsa_level!` and `mlkem_level!` make for each level, but
-- `verify`, over the crates fips204 and fips203, which are parameters.
use qorechain_pqc.Base.{
  ℕ, ◌≡◌, not, Option, none, some, ◌>>=◌, List, length, ◌==◌, if◌then◌else◌, replicate,
}
use qorechain_pqc.Machine.{Source}
use qorechain_pqc.Bindings.{Level, KemLevel, ml_kem_512, ml_kem_768, ml_kem_1024, KemLengths}
use qorechain_pqc.Bindings.Rust.{mldsa_level}

-- The arguments of `mlkem_level!`.
abbrev pub mlkem_level : KemLevel → KemLengths
mlkem_level ml_kem_512 = record { public_key = 800; secret_key = 1632; ciphertext = 768 }
mlkem_level ml_kem_768 = record { public_key = 1184; secret_key = 2400; ciphertext = 1088 }
mlkem_level ml_kem_1024 = record { public_key = 1568; secret_key = 3168; ciphertext = 1568 }

-- `[u8; 32]`: an array has its length by its type.
pub record Seed : Type 0 where
  pub bytes : List ℕ
  pub whole : length bytes ≡ 32

-- A level of fips204 over its types of public and private keys. An error is `none`, and where
-- randomness is drawn it is an argument.
pub record Fips204 (P S : Type 0) : Type 0 where
  pub try_keygen : Source → Option (P × S)
  pub derive : Seed → P × S
  pub public_into_bytes : P → List ℕ
  pub private_into_bytes : S → List ℕ
  pub private_from_bytes : List ℕ → Option S
  pub try_sign_with_seed : S → (rnd : List ℕ) → (message : List ℕ) → Option (List ℕ)
  pub try_sign : Source → S → (message : List ℕ) → Option (List ℕ)

-- A level of fips203 over its types of keys and ciphertexts.
pub record Fips203 (E D C : Type 0) : Type 0 where
  pub try_keygen_kem : Source → Option (E × D)
  pub encaps_into_bytes : E → List ℕ
  pub decaps_into_bytes : D → List ℕ
  pub encaps_from_bytes : List ℕ → Option E
  pub decaps_from_bytes : List ℕ → Option D
  pub ciphertext_from_bytes : List ℕ → Option C
  pub ciphertext_into_bytes : C → List ℕ
  -- the shared secret and the ciphertext
  pub try_encaps : Source → E → Option (List ℕ × C)
  pub try_decaps : D → C → Option (List ℕ)

-- `try_into` an array of n bytes.
abbrev pub try_into : ℕ → List ℕ → Option (List ℕ)
try_into n bytes = if not (length bytes == n) then none else some bytes

module _ {P S : Type 0} (scheme : Fips204 P S) (level : Level) where
  unfoldable pub keygen : Source → Option (List ℕ × List ℕ)
  keygen random = do
    (pk, sk) ← scheme.try_keygen random
    some (scheme.public_into_bytes pk, scheme.private_into_bytes sk)

  unfoldable pub keygen_from_seed : Seed → List ℕ × List ℕ
  keygen_from_seed seed =
      let (pk, sk) = scheme.derive seed in
      (scheme.public_into_bytes pk, scheme.private_into_bytes sk)

  unfoldable pub sign : List ℕ → List ℕ → Option (List ℕ)
  sign secret_key message = do
    arr ← try_into (mldsa_level level).secret_key secret_key
    sk ← scheme.private_from_bytes arr
    scheme.try_sign_with_seed sk (replicate 32 0) message

  unfoldable pub sign_hedged : Source → List ℕ → List ℕ → Option (List ℕ)
  sign_hedged random secret_key message = do
    arr ← try_into (mldsa_level level).secret_key secret_key
    sk ← scheme.private_from_bytes arr
    scheme.try_sign random sk message

module _ {E D C : Type 0} (scheme : Fips203 E D C) (level : KemLevel) where
  unfoldable pub kem_keygen : Source → Option (List ℕ × List ℕ)
  kem_keygen random = do
    (ek, dk) ← scheme.try_keygen_kem random
    some (scheme.encaps_into_bytes ek, scheme.decaps_into_bytes dk)

  unfoldable pub encapsulate : Source → List ℕ → Option (List ℕ × List ℕ)
  encapsulate random public_key = do
    arr ← try_into (mlkem_level level).public_key public_key
    ek ← scheme.encaps_from_bytes arr
    (ss, ct) ← scheme.try_encaps random ek
    some (scheme.ciphertext_into_bytes ct, ss)

  unfoldable pub decapsulate : List ℕ → List ℕ → Option (List ℕ)
  decapsulate secret_key ciphertext = do
    sk_arr ← try_into (mlkem_level level).secret_key secret_key
    ct_arr ← try_into (mlkem_level level).ciphertext ciphertext
    dk ← scheme.decaps_from_bytes sk_arr
    ct ← scheme.ciphertext_from_bytes ct_arr
    scheme.try_decaps dk ct
