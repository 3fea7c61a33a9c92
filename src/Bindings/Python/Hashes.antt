-- ===== src/Bindings/Python/Hashes.antt =====
-- python/qorpqc/__init__.py: `shake256` and `pubkey_hash`, over `hashlib.shake_256`, which is a parameter.
-- An argument that is left out is `none`.
use qorechain_pqc.Base.{ℕ, ℤ, pos, Option, none, some, List}

-- `hashlib.shake_256(data).digest(n)`; an exception is `none`.
abbrev pub Hashlib : Type 0
Hashlib = List ℕ → ℤ → Option (List ℕ)

abbrev pub or_default : ℤ → Option ℤ → ℤ
or_default n none = n
or_default n (some given) = given

module _ (hashlib : Hashlib) where
  unfoldable pub shake256 : List ℕ → Option ℤ → Option (List ℕ)
  shake256 input out_len = hashlib input (or_default (pos 32) out_len)

  unfoldable pub pubkey_hash : List ℕ → Option ℤ → Option (List ℕ)
  unfolding shake256
  pubkey_hash public_key length = shake256 public_key (some (or_default (pos 20) length))
