-- ===== src/SignBytes.antt =====
-- The hybrid sign-bytes of c/qorechain_pqc.c: `qpqc_hybrid_sign_bytes_v1`, `_v2` and the function
-- that chooses between them. An out parameter is passed in and returned.
pub mod Layout
pub mod Fields
pub mod Form
pub mod Parse
pub mod Produced
pub mod ReadBack
pub mod Separation
pub mod Truncation
pub mod V1
pub mod V2
use qorechain_pqc.Base.{
  ℕ, ◌+◌, ◌-◌, ◌%◌, ◌^◌, ℤ, pos, negsuc, Bool, true, false, ◌||◌, Option, none, some, List, ◌==◌,
  if◌then◌else◌, length, Text, codes,
}
use qorechain_pqc.Machine.{Ptr, null, ConstPtr, M, pure, ◌>>=◌, ◌>>◌, malloc, memcpy}
use qorechain_pqc.Codec.{be32, be64}

-- QPQC_OK and QPQC_ERR
abbrev pub qpqc_ok : ℤ
qpqc_ok = pos 0

abbrev pub qpqc_err : ℤ
qpqc_err = negsuc 0

-- QPQC_SIGN_BYTES_V1 and QPQC_SIGN_BYTES_V2
abbrev pub sign_bytes_v1 : ℤ
sign_bytes_v1 = pos 1

abbrev pub sign_bytes_v2 : ℤ
sign_bytes_v2 = pos 2

-- QPQC_HYBRID_SIGN_BYTES_DOMAIN
abbrev pub hybrid_sign_bytes_domain : Text
hybrid_sign_bytes_domain = codes "qorechain-pqc-hybrid-v2"

-- What `*out` and `*out_len` hold.
pub record Out : Type 0 where
  pub buf : Ptr
  pub len : ℕ

-- `if (n) memcpy(p + o, src, n)`
unfoldable pub memcpy_if : Ptr → ℕ → ConstPtr → ℕ → M (Unit {0})
memcpy_if p o src n = if n == 0 then pure tt else memcpy p o src n

-- size_t
abbrev pub size : ℕ → ℕ
size n = n % 2 ^ 64

-- uint32_t
abbrev pub u32 : ℕ → ℕ
u32 n = n % 2 ^ 32

unfoldable pub hybrid_sign_bytes_v1 : ConstPtr → ℕ → ConstPtr → ℕ → Out → M (ℤ × Out)
unfolding memcpy_if
hybrid_sign_bytes_v1 b0 b0_len auth auth_len out = do
  let total = size (8 + b0_len + auth_len)
  buf ← malloc (if total == 0 then 1 else total)
  if buf == null then pure (qpqc_err, out) else do
    be32 buf 0 (u32 b0_len)
    memcpy_if buf 4 b0 b0_len
    be32 buf (4 + b0_len) (u32 auth_len)
    memcpy_if buf (8 + b0_len) auth auth_len
    pure (qpqc_ok, record { buf = buf; len = total })

abbrev pub is_null : ConstPtr → Bool
is_null none = true
is_null (some _) = false

unfoldable pub hybrid_sign_bytes_v2 : ConstPtr → ℕ → ConstPtr → ℕ → ConstPtr → ℕ → Out → M (ℤ × Out)
unfolding memcpy_if
hybrid_sign_bytes_v2 chain_id chain_id_len b0 b0_len auth auth_len out =
    if is_null chain_id || chain_id_len == 0 then pure (qpqc_err, out) else do
      let dl = length hybrid_sign_bytes_domain
      let total = size (dl + 8 + chain_id_len + 8 + b0_len + auth_len)
      buf ← malloc total
      if buf == null then pure (qpqc_err, out) else do
        memcpy buf 0 (some hybrid_sign_bytes_domain) dl
        be64 buf dl chain_id_len
        memcpy_if buf (dl + 8) chain_id chain_id_len
        be32 buf (dl + 8 + chain_id_len) (u32 b0_len)
        memcpy_if buf (dl + 8 + chain_id_len + 4) b0 b0_len
        be32 buf (dl + 8 + chain_id_len + 4 + b0_len) (u32 auth_len)
        memcpy_if buf (dl + 8 + chain_id_len + 4 + b0_len + 4) auth auth_len
        pure (qpqc_ok, record { buf = buf; len = total })

abbrev pub eqb_ℤ : ℤ → ℤ → Bool
eqb_ℤ (pos m) (pos n) = m == n
eqb_ℤ (negsuc m) (negsuc n) = m == n
eqb_ℤ _ _ = false

unfoldable pub hybrid_sign_bytes :
    ℤ → ConstPtr → ℕ → ConstPtr → ℕ → ConstPtr → ℕ → Out → M (ℤ × Out)
hybrid_sign_bytes version chain_id chain_id_len b0 b0_len auth auth_len out =
    if eqb_ℤ version sign_bytes_v1
    then hybrid_sign_bytes_v1 b0 b0_len auth auth_len out
    else (if eqb_ℤ version sign_bytes_v2
        then hybrid_sign_bytes_v2 chain_id chain_id_len b0 b0_len auth auth_len out
        else pure (qpqc_err, out))
