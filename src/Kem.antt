-- ===== src/Kem.antt =====
-- The ML-KEM functions of c/qorechain_pqc.c. `ss_out` is a block of the caller.
pub mod Decaps
pub mod Encaps
pub mod RoundTrip
use qorechain_pqc.Base.{ℕ, ℤ, ◌||◌, not, Option, none, some, ◌==◌, if◌then◌else◌, Text, codes}
use qorechain_pqc.Machine.{
  Ptr, null, ConstPtr, M, pure, ◌>>=◌, ◌>>◌, malloc, mutex_lock, mutex_unlock,
}
use qorechain_pqc.Oqs.{Kem, Oqs, object_new, object_free, kem_encaps, kem_decaps}
use qorechain_pqc.SignBytes.{qpqc_err}
use qorechain_pqc.Dsa.{status}

-- The algorithm that QoreChain uses.
abbrev pub mlkem_default : Text
mlkem_default = codes "ML-KEM-1024"

decapsulate_with : ConstPtr → ℕ → ConstPtr → ℕ → Ptr → ℕ → Option Kem → M (ℤ × ℕ)
decapsulate_with sk sk_len ct ct_len ss_out ss_len none = pure (qpqc_err, ss_len)
decapsulate_with sk sk_len ct ct_len ss_out ss_len (some k) =
    if not (sk_len == k.length_secret_key) || not (ct_len == k.length_ciphertext)
    then (do object_free; pure (qpqc_err, ss_len))
    else (do ok ← kem_decaps k ss_out ct sk; object_free; pure (status ok, k.length_shared_secret))

-- The number is `*ss_len`.
unfoldable pub mlkem_decapsulate : Oqs → Text → ConstPtr → ℕ → ConstPtr → ℕ → Ptr → ℕ → M (ℤ × ℕ)
unfolding decapsulate_with
mlkem_decapsulate oqs alg sk sk_len ct ct_len ss_out ss_len = do
  k ← object_new (oqs.kem alg)
  decapsulate_with sk sk_len ct ct_len ss_out ss_len k

-- `*ct`, `*ct_len`, `*ss_len`
pub record EncapsOut : Type 0 where
  pub ct : Ptr
  pub ct_len : ℕ
  pub ss_len : ℕ

-- Behind the allocation of the ciphertext.
unfoldable pub encapsulate_into : Kem → ConstPtr → Ptr → EncapsOut → Ptr → M (ℤ × EncapsOut)
encapsulate_into k pk ss_out out ct =
    if ct == null then (do object_free; pure (qpqc_err, record out { ct = ct })) else (do
      mutex_lock
      ok ← kem_encaps k ct ss_out pk
      mutex_unlock
      object_free
      let lens = record out {
        ct = ct;
        ct_len = k.length_ciphertext;
        ss_len = k.length_shared_secret;
      }
      pure (status ok, lens))

encapsulate_with : ConstPtr → ℕ → Ptr → EncapsOut → Option Kem → M (ℤ × EncapsOut)
unfolding encapsulate_into
encapsulate_with pk pk_len ss_out out none = pure (qpqc_err, out)
encapsulate_with pk pk_len ss_out out (some k) =
    if not (pk_len == k.length_public_key)
    then (do object_free; pure (qpqc_err, out))
    else (do ct ← malloc k.length_ciphertext; encapsulate_into k pk ss_out out ct)

unfoldable pub mlkem_encapsulate : Oqs → Text → ConstPtr → ℕ → Ptr → EncapsOut → M (ℤ × EncapsOut)
unfolding encapsulate_with
mlkem_encapsulate oqs alg pk pk_len ss_out out = do
  k ← object_new (oqs.kem alg)
  encapsulate_with pk pk_len ss_out out k
