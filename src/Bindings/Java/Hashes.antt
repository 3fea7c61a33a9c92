-- ===== src/Bindings/Java/Hashes.antt =====
-- java/src/main/java/network/qorechain/pqc/Pqc.java: `shake256` and `pubkeyHash`, over Bouncy Castle's
-- SHAKEDigest, which is a parameter. A reference may be null (`none`).
use qorechain_pqc.Base.{ℕ, ℤ, pos, negsuc, Option, some, List, replicate}
use qorechain_pqc.Bindings.Java.Primitives.{
  negative_length, Result, ok, thrown, ◌>>=◌, require_non_null,
}

-- `update`, and `doFinal`, which gives the buffer filled.
pub record ShakeDigest (D : Type 0) : Type 0 where
  pub new_digest : D
  pub update : D → List ℕ → D
  pub do_final : D → (out : List ℕ) → List ℕ

-- The test of a length, and the number that it lets through.
unfoldable pub not_negative : ℤ → Result ℕ
not_negative (pos n) = ok n
not_negative (negsuc n) = thrown negative_length

module _ {D : Type 0} (bc : ShakeDigest D) where
  unfoldable pub shake256 : Option (List ℕ) → ℤ → Result (List ℕ)
  unfolding not_negative
  shake256 input out_len = do
    bytes ← require_non_null input
    n ← not_negative out_len
    ok (bc.do_final (bc.update bc.new_digest bytes) (replicate n 0))

  unfoldable pub pubkey_hash : Option (List ℕ) → ℤ → Result (List ℕ)
  unfolding not_negative shake256
  pubkey_hash public_key len = do
    key ← require_non_null public_key
    n ← not_negative len
    shake256 (some key) (pos n)
