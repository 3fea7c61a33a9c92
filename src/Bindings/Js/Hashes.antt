-- ===== src/Bindings/Js/Hashes.antt =====
-- js/src/index.js: `shake256` and `pubkeyHash`, over `shake256` of @noble/hashes, which is a parameter.
-- An argument that is left out or undefined is `none`.
use qorechain_pqc.Base.{ℕ, ℤ, pos, Option, none, some, List}

-- noble's function of the input and `dkLen`; an exception is `none`.
abbrev pub NobleShake : Type 0
NobleShake = List ℕ → ℤ → Option (List ℕ)

abbrev pub or_default : ℤ → Option ℤ → ℤ
or_default n none = n
or_default n (some given) = given

module _ (noble_shake : NobleShake) where
  unfoldable pub shake256 : List ℕ → Option ℤ → Option (List ℕ)
  shake256 input out_len = noble_shake input (or_default (pos 32) out_len)

  unfoldable pub pubkey_hash : List ℕ → Option ℤ → Option (List ℕ)
  unfolding shake256
  pubkey_hash public_key len = shake256 public_key (some (or_default (pos 20) len))
