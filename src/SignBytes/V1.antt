-- ===== src/SignBytes/V1.antt =====
-- `qpqc_hybrid_sign_bytes_v1` against the v1 layout.
use qorechain_pqc.Base.{
  ℕ, suc, ◌+◌, ◌^◌, ◌<◌, ◌≡◌, refl, true, false, List, [], ◌++◌, append_assoc, arith, ◌==◌,
  if◌then◌else◌, Bool-cases, inl, inr, length, length-append,
}
use qorechain_pqc.Machine.{ConstPtr, World}
use qorechain_pqc.Machine.Args.{
  Holds, length-Holds, ticked, filling-owning, malloc_granted, malloc_refused,
}
use qorechain_pqc.Codec.BigEndian.{be_bytes, length-be_bytes}
use qorechain_pqc.Codec.Writes.{be32-filling}
use qorechain_pqc.SignBytes.{Out, hybrid_sign_bytes_v1, u32, size}
use qorechain_pqc.SignBytes.Layout.{v1_layout}
use qorechain_pqc.SignBytes.Fields.{
  memcpy_if-filling, be_bytes-u32, built, length-v1_layout, address_ne_null,
}

v1_total :
    (m n : ℕ)
    → 8 + m + n < 2 ^ 64
    → (if size (8 + m + n) == 0 then 1 else size (8 + m + n)) ≡ 8 + m + n
v1_total m n fits = ground arith

module _ (b0 auth : ConstPtr) (m n : ℕ) (xs ys : List ℕ) (hx : Holds b0 m xs)
    (hy : Holds auth n ys) where
  lx : length xs ≡ m
  lx = length-Holds b0 m xs hx

  ly : length ys ≡ n
  ly = length-Holds auth n ys hy

  hybrid_sign_bytes_v1_refused :
      (out : Out) (w : World)
      → 8 + m + n < 2 ^ 64
      → w.refuse w.calls ≡ true
      → hybrid_sign_bytes_v1 b0 m auth n out w ≡ built w out (v1_layout xs ys)
  unfolding hybrid_sign_bytes_v1
  hybrid_sign_bytes_v1_refused out w fits refused =
      rw (v1_total m n fits, malloc_refused (8 + m + n) w refused, refused)

  hybrid_sign_bytes_v1_granted :
      (out : Out) (w : World)
      → 8 + m + n < 2 ^ 64
      → w.refuse w.calls ≡ false
      → hybrid_sign_bytes_v1 b0 m auth n out w ≡ built w out (v1_layout xs ys)
  unfolding hybrid_sign_bytes_v1 v1_layout
  hybrid_sign_bytes_v1_granted out w fits grant = rw (
    v1_total m n fits,
    malloc_granted (8 + m + n) w grant,
    address_ne_null w.calls,
    be32-filling (suc w.calls) 0 (u32 m) [] (8 + m + n) (4 + m + n) (ticked w) refl (omega arith),
    memcpy_if-filling (suc w.calls) 4 b0 m xs (be_bytes 4 (u32 m)) (4 + m + n) (4 + n) (ticked w) hx
        (omega (arith, length-be_bytes 4 (u32 m))) (omega arith),
    be32-filling (suc w.calls) (4 + m) (u32 n) first (4 + n) n (ticked w) at_auth refl,
    memcpy_if-filling (suc w.calls) (8 + m) auth n ys (first ++ be_bytes 4 (u32 n)) n 0 (ticked w)
        hy
        (omega
          (arith, at_auth, length-append first (be_bytes 4 (u32 n)), length-be_bytes 4 (u32 n)))
        (omega arith),
    filling-owning (suc w.calls) ((first ++ be_bytes 4 (u32 n)) ++ ys) (ticked w),
    grant,
    size_fits,
    be_bytes-u32 m,
    be_bytes-u32 n,
    append_assoc (be_bytes 4 m ++ xs) (be_bytes 4 n) ys,
    append_assoc (be_bytes 4 m) xs (be_bytes 4 n ++ ys),
    length-v1_layout xs ys,
    lx,
    ly,
  )
    where
      first : List ℕ
      first = be_bytes 4 (u32 m) ++ xs

      at_auth : 4 + m ≡ length first
      at_auth = omega (arith, lx, length-append (be_bytes 4 (u32 m)) xs, length-be_bytes 4 (u32 m))

      size_fits : size (8 + m + n) ≡ 8 + m + n
      size_fits = omega arith

  -- For arguments that may be read and lengths whose sum fits a `size_t`, the builder neither
  -- faults nor reads past its arguments. If `malloc` refuses, it returns QPQC_ERR and leaves the out
  -- parameters and all memory alone. Else it returns QPQC_OK and a fresh block that holds exactly the
  -- layout of the two byte strings, with its length, and changes no other block.
  pub hybrid_sign_bytes_v1-layout :
      (out : Out) (w : World)
      → 8 + m + n < 2 ^ 64
      → hybrid_sign_bytes_v1 b0 m auth n out w ≡ built w out (v1_layout xs ys)
  hybrid_sign_bytes_v1-layout out w fits = elim (Bool-cases (w.refuse w.calls)) [
    | inl refused ↦ hybrid_sign_bytes_v1_refused out w fits refused
    | inr grant ↦ hybrid_sign_bytes_v1_granted out w fits grant
  ]
