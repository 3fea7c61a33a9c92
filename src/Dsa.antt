-- ===== src/Dsa.antt =====
-- The ML-DSA functions of c/qorechain_pqc.c: key generation, signing and verification. Out
-- parameters are passed in and returned.
pub mod Deterministic
pub mod Hedged
pub mod Keygen
pub mod Lifecycle
pub mod RoundTrip
pub mod Sign
pub mod Signing
pub mod Verify
use qorechain_pqc.Base.{
  ℕ, ℤ, pos, Bool, ◌||◌, not, Option, none, some, List, ◌==◌, if◌then◌else◌, Text, codes, replicate,
}
use qorechain_pqc.Machine.{
  Ptr, null, ConstPtr, M, pure, ◌>>=◌, ◌>>◌, malloc, mutex_lock, mutex_unlock,
}
use qorechain_pqc.Oqs.{
  Sig, Oqs, object_new, object_free, use_custom, use_system, sig_keypair, sig_sign, sig_verify,
}
use qorechain_pqc.SignBytes.{qpqc_ok, qpqc_err, Out}

-- The algorithm that QoreChain uses.
abbrev pub mldsa_default : Text
mldsa_default = codes "ML-DSA-87"

-- `*pk`, `*pk_len`, `*sk`, `*sk_len`
pub record KeyOut : Type 0 where
  pub pk : Ptr
  pub pk_len : ℕ
  pub sk : Ptr
  pub sk_len : ℕ

abbrev pub status : Bool → ℤ
status ok = if ok then qpqc_ok else qpqc_err

-- memset(out, 0, n)
unfoldable pub qpqc_zero_rng : ℕ → List ℕ
qpqc_zero_rng n = replicate n 0

-- `*sig_len` after `OQS_SIG_sign`
abbrev pub stored_len : ℕ → Option ℕ → ℕ
stored_len old none = old
stored_len old (some n) = n

-- Behind the allocations of key generation; one of the two may have failed.
unfoldable pub keygen_into : Sig → KeyOut → Ptr → Ptr → M (ℤ × KeyOut)
keygen_into s out pk sk =
    if pk == null || sk == null
    then (do object_free; pure (qpqc_err, record out { pk = pk; sk = sk }))
    else (do
      mutex_lock
      ok ← sig_keypair s pk sk
      mutex_unlock
      object_free
      let lens = record out {
        pk = pk;
        pk_len = s.length_public_key;
        sk = sk;
        sk_len = s.length_secret_key;
      }
      pure (status ok, lens))

keygen_with : KeyOut → Option Sig → M (ℤ × KeyOut)
unfolding keygen_into
keygen_with out none = pure (qpqc_err, out)
keygen_with out (some s) = do
  pk ← malloc s.length_public_key
  sk ← malloc s.length_secret_key
  keygen_into s out pk sk

unfoldable pub mldsa_keygen : Oqs → Text → KeyOut → M (ℤ × KeyOut)
unfolding keygen_with
mldsa_keygen oqs alg out = do s ← object_new (oqs.sig alg); keygen_with out s

-- `qpqc_mldsa_sign` behind the allocation of the signature.
unfoldable pub sign_into : Sig → ConstPtr → ConstPtr → ℕ → Out → Ptr → M (ℤ × Out)
unfolding qpqc_zero_rng
sign_into s sk msg msg_len out sig =
    if sig == null then (do object_free; pure (qpqc_err, record out { buf = sig })) else (do
      mutex_lock
      use_custom qpqc_zero_rng
      reply ← sig_sign s sig msg msg_len sk
      use_system
      mutex_unlock
      object_free
      pure (status reply.success, record { buf = sig; len = stored_len out.len reply.reported }))

sign_with : ConstPtr → ℕ → ConstPtr → ℕ → Out → Option Sig → M (ℤ × Out)
unfolding sign_into
sign_with sk sk_len msg msg_len out none = pure (qpqc_err, out)
sign_with sk sk_len msg msg_len out (some s) =
    if not (sk_len == s.length_secret_key)
    then (do object_free; pure (qpqc_err, out))
    else (do sig ← malloc s.length_signature; sign_into s sk msg msg_len out sig)

unfoldable pub mldsa_sign : Oqs → Text → ConstPtr → ℕ → ConstPtr → ℕ → Out → M (ℤ × Out)
unfolding sign_with
mldsa_sign oqs alg sk sk_len msg msg_len out = do
  s ← object_new (oqs.sig alg)
  sign_with sk sk_len msg msg_len out s

-- The same for `qpqc_mldsa_sign_hedged`, which leaves the generator alone.
unfoldable pub sign_hedged_into : Sig → ConstPtr → ConstPtr → ℕ → Out → Ptr → M (ℤ × Out)
sign_hedged_into s sk msg msg_len out sig =
    if sig == null then (do object_free; pure (qpqc_err, record out { buf = sig })) else (do
      mutex_lock
      reply ← sig_sign s sig msg msg_len sk
      mutex_unlock
      object_free
      pure (status reply.success, record { buf = sig; len = stored_len out.len reply.reported }))

sign_hedged_with : ConstPtr → ℕ → ConstPtr → ℕ → Out → Option Sig → M (ℤ × Out)
unfolding sign_hedged_into
sign_hedged_with sk sk_len msg msg_len out none = pure (qpqc_err, out)
sign_hedged_with sk sk_len msg msg_len out (some s) =
    if not (sk_len == s.length_secret_key)
    then (do object_free; pure (qpqc_err, out))
    else (do sig ← malloc s.length_signature; sign_hedged_into s sk msg msg_len out sig)

unfoldable pub mldsa_sign_hedged : Oqs → Text → ConstPtr → ℕ → ConstPtr → ℕ → Out → M (ℤ × Out)
unfolding sign_hedged_with
mldsa_sign_hedged oqs alg sk sk_len msg msg_len out = do
  s ← object_new (oqs.sig alg)
  sign_hedged_with sk sk_len msg msg_len out s

verify_with : ConstPtr → ℕ → ConstPtr → ℕ → ConstPtr → ℕ → Option Sig → M ℤ
verify_with pk pk_len msg msg_len sig sig_len none = pure qpqc_err
verify_with pk pk_len msg msg_len sig sig_len (some s) =
    if not (pk_len == s.length_public_key) then (do object_free; pure qpqc_err) else (do
      ok ← sig_verify s msg msg_len sig sig_len pk
      object_free
      pure (if ok then pos 1 else pos 0))

unfoldable pub mldsa_verify : Oqs → Text → ConstPtr → ℕ → ConstPtr → ℕ → ConstPtr → ℕ → M ℤ
unfolding verify_with
mldsa_verify oqs alg pk pk_len msg msg_len sig sig_len = do
  s ← object_new (oqs.sig alg)
  verify_with pk pk_len msg msg_len sig sig_len s
