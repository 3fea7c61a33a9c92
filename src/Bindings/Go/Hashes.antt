-- ===== src/Bindings/Go/Hashes.antt =====
-- go/pqc.go: `Shake256` and `PubkeyHash`, over x/crypto's sha3, which is a parameter.
use qorechain_pqc.Base.{ℕ, ℤ, pos, negsuc, Option, none, some, List, length, replicate}

-- A `sha3.ShakeHash` over its type of states: `Write`, and `Read`, which gives the buffer filled.
pub record Sha3 (H : Type 0) : Type 0 where
  pub new_shake256 : H
  pub write : H → List ℕ → H
  pub read : H → (out : List ℕ) → List ℕ

-- `make([]byte, n)`, which panics for a negative n.
unfoldable pub make_bytes : ℤ → Option (List ℕ)
make_bytes (pos n) = some (replicate n 0)
make_bytes (negsuc n) = none

module _ {H : Type 0} (sha3 : Sha3 H) where
  read_digest : List ℕ → Option (List ℕ) → Option (List ℕ)
  read_digest input none = none
  read_digest input (some out) = some (sha3.read (sha3.write sha3.new_shake256 input) out)

  unfoldable pub shake256 : List ℕ → ℤ → Option (List ℕ)
  unfolding make_bytes read_digest
  shake256 input out_len = read_digest input (make_bytes out_len)

  unfoldable pub pubkey_hash : List ℕ → ℤ → Option (List ℕ)
  unfolding shake256
  pubkey_hash public_key length = shake256 public_key length
