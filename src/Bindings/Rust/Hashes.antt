-- ===== src/Bindings/Rust/Hashes.antt =====
-- rust/src/lib.rs: `shake256`, `shake256_xof`, `pubkey_hash` and `pubkey_hash20`, over the crate sha3,
-- which is a parameter.
use qorechain_pqc.Base.{ℕ, List, replicate}

-- `sha3::Shake256` and its reader, over their types of states; `read` gives the buffer filled.
pub record Sha3 (H R : Type 0) : Type 0 where
  pub fresh : H
  pub update : H → List ℕ → H
  pub finalize_xof : H → R
  pub read : R → (out : List ℕ) → List ℕ

module _ {H R : Type 0} (sha3 : Sha3 H R) where
  -- The contents of `out` afterwards.
  unfoldable pub shake256_xof : List ℕ → List ℕ → List ℕ
  shake256_xof input out = sha3.read (sha3.finalize_xof (sha3.update sha3.fresh input)) out

  unfoldable pub shake256 : List ℕ → List ℕ
  unfolding shake256_xof
  shake256 input = shake256_xof input (replicate 32 0)

  unfoldable pub pubkey_hash : List ℕ → ℕ → List ℕ
  unfolding shake256_xof
  pubkey_hash public_key len = shake256_xof public_key (replicate len 0)

  unfoldable pub pubkey_hash20 : List ℕ → List ℕ
  unfolding shake256_xof
  pubkey_hash20 public_key = shake256_xof public_key (replicate 20 0)
