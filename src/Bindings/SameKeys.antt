-- ===== src/Bindings/SameKeys.antt =====
-- One pair of keys for a seed: key generation from a seed in three bindings.
use qorechain_pqc.Base.{
  ℕ, ◌≡◌, none, some, List, length, arith, ◌==◌, if◌then◌else◌, Bool-cases, inl, inr, refl,
}
use qorechain_pqc.Machine.{Source}
use qorechain_pqc.Bindings.{Level, level_name}
use qorechain_pqc.Bindings.Fips.{fips_lengths, java_switch}
use qorechain_pqc.Bindings.Signatures.{java_expanded, java_refusal}
use qorechain_pqc.Bindings.Go.Schemes as Go
use qorechain_pqc.Bindings.Java.Primitives.{BouncyDsa, ok, thrown}
use qorechain_pqc.Bindings.Java.Methods as Java
use qorechain_pqc.Bindings.Js.Wrap as Js

-- A level, a seed of any length, the keys that FIPS 204 derives from it, and the libraries.
module _ {P' S' S'' P'' : Type 0} (level : Level) (seed pk sk : List ℕ) (noble : Js.NobleSig)
    (circl : Go.SignScheme P' S') (bouncy : BouncyDsa P'' S'') where
  -- If the libraries, given a seed of 32 bytes, derive these keys from it, and CIRCL says that its seeds
  -- have 32 bytes: then key generation from a seed of 32 bytes gives just these keys in JavaScript and
  -- Go, and in Java the same public key with the seed for a secret key. For a seed of another length,
  -- whatever the libraries do with it, JavaScript and Go give an error and Java an exception, which
  -- tells the length of the expanded key apart.
  pub same_keys :
      (length seed ≡ 32 → (random : Source) → noble.generate random (some seed) ≡ some (pk, sk))
      → circl.size_of_seed ≡ 32
      → (length seed ≡ 32 → circl.marshal_public (circl.derive_key seed).0 ≡ pk)
      → (length seed ≡ 32 → circl.marshal_private (circl.derive_key seed).1 ≡ sk)
      → (length seed ≡ 32
          → (key : S'') × (bouncy.private_key level seed ≡ some key)
            × (bouncy.public_encoded (bouncy.public_of key) ≡ pk)
            × (bouncy.seed_of key ≡ seed))
      → (random : Source)
      → (Js.keygen noble (fips_lengths level) random (some (some seed))
          ≡ (if length seed == 32 then some (pk, sk) else none))
        × (Go.keygen_from_seed circl seed ≡ (if length seed == 32 then some (pk, sk) else none))
        × (Java.mldsa_keygen_from_seed bouncy (some (level_name level)) (some seed)
            ≡ (if length seed == 32 then ok (pk, seed) else thrown (java_refusal level seed)))
  unfolding Js.keygen Go.keygen_from_seed Java.mldsa_keygen_from_seed
  same_keys noble_derives size circl_pk circl_sk bouncy_derives random =
      elim (Bool-cases (length seed == 32)) [
        | inl whole ↦
            let same : length seed ≡ 32 = ground arith in
            let (key, known, public, own) = bouncy_derives same in
            rw
              (
                size,
                whole,
                noble_derives same random,
                circl_pk same,
                circl_sk same,
                (java_switch level).0,
                known,
                public,
                own,
              )
              (refl, refl, refl)
        | inr other ↦
            rw (size, other, java_expanded level) (ground arith, ground arith, ground arith)
      ]
