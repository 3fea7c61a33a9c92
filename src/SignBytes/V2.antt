-- ===== src/SignBytes/V2.antt =====
-- `qpqc_hybrid_sign_bytes_v2` against the v2 layout.
use qorechain_pqc.Base.{
  ℕ, suc, ◌+◌, ◌^◌, ◌<◌, ◌≡◌, refl, sym, ◌||◌, true, false, List, [], ◌++◌, append_assoc, arith,
  ◌==◌, if◌then◌else◌, Bool-cases, inl, inr, length, length-append,
}
use qorechain_pqc.Machine.{Ptr, ConstPtr, World, done}
use qorechain_pqc.Machine.Args.{
  Holds, length-Holds, memcpy-filling, ticked, filling-owning, malloc_granted, malloc_refused,
}
use qorechain_pqc.Codec.BigEndian.{be_bytes, length-be_bytes}
use qorechain_pqc.Codec.Writes.{be32-filling, be64-filling}
use qorechain_pqc.SignBytes.{
  Out, qpqc_err, is_null, hybrid_sign_bytes_domain, hybrid_sign_bytes_v2, u32, size,
}
use qorechain_pqc.SignBytes.Layout.{v1_layout, v2_layout}
use qorechain_pqc.SignBytes.Fields.{
  memcpy_if-filling, be_bytes-u32, built, length-v2_layout, address_ne_null,
}

-- NULL or an empty chain-id: QPQC_ERR, and nothing is touched, not even the allocator.
hybrid_sign_bytes_v2_empty :
    (chain_id b0 auth : ConstPtr) (l m n : ℕ) (out : Out) (w : World)
    → (is_null chain_id || l == 0) ≡ true
    → hybrid_sign_bytes_v2 chain_id l b0 m auth n out w ≡ done (qpqc_err, out) w
unfolding hybrid_sign_bytes_v2
hybrid_sign_bytes_v2_empty chain_id b0 auth l m n out w empty = rw empty

module _ (ident b0 auth : ConstPtr) (l m n : ℕ) (cs xs ys : List ℕ) (hc : Holds ident l cs)
    (hx : Holds b0 m xs) (hy : Holds auth n ys) where
  lc : length cs ≡ l
  lc = length-Holds ident l cs hc

  lx : length xs ≡ m
  lx = length-Holds b0 m xs hx

  ly : length ys ≡ n
  ly = length-Holds auth n ys hy

  -- the bytes written before each of the six fields behind the domain
  abbrev at_ident : List ℕ
  at_ident = hybrid_sign_bytes_domain ++ be_bytes 8 l

  abbrev at_b0_len : List ℕ
  at_b0_len = at_ident ++ cs

  abbrev at_b0 : List ℕ
  at_b0 = at_b0_len ++ be_bytes 4 (u32 m)

  abbrev at_auth_len : List ℕ
  at_auth_len = at_b0 ++ xs

  abbrev at_auth : List ℕ
  at_auth = at_auth_len ++ be_bytes 4 (u32 n)

  length-at_ident : length at_ident ≡ 31
  length-at_ident = omega (arith, length-be_bytes 8 l)

  length-at_b0_len : length at_b0_len ≡ 31 + l
  length-at_b0_len = omega (arith, length-at_ident, lc, length-append at_ident cs)

  length-at_b0 : length at_b0 ≡ 35 + l
  length-at_b0 = omega (
    arith,
    length-at_b0_len,
    length-append at_b0_len (be_bytes 4 (u32 m)),
    length-be_bytes 4 (u32 m),
  )

  length-at_auth_len : length at_auth_len ≡ 35 + l + m
  length-at_auth_len = omega (arith, length-at_b0, lx, length-append at_b0 xs)

  length-at_auth : length at_auth ≡ 39 + l + m
  length-at_auth = omega (
    arith,
    length-at_auth_len,
    length-append at_auth_len (be_bytes 4 (u32 n)),
    length-be_bytes 4 (u32 n),
  )

  written : at_auth ++ ys ≡ v2_layout cs xs ys
  unfolding v2_layout v1_layout
  written = rw (
    be_bytes-u32 m,
    be_bytes-u32 n,
    lc,
    lx,
    ly,
    append_assoc (at_ident ++ cs ++ be_bytes 4 m ++ xs) (be_bytes 4 n) ys,
    append_assoc (at_ident ++ cs ++ be_bytes 4 m) xs (be_bytes 4 n ++ ys),
    append_assoc (at_ident ++ cs) (be_bytes 4 m) (xs ++ (be_bytes 4 n ++ ys)),
    append_assoc at_ident cs (be_bytes 4 m ++ (xs ++ (be_bytes 4 n ++ ys))),
  )

  v2_granted :
      (out : Out) (w : World)
      → 39 + l + m + n < 2 ^ 64
      → (is_null ident || l == 0) ≡ false
      → w.refuse w.calls ≡ false
      → hybrid_sign_bytes_v2 ident l b0 m auth n out w ≡ built w out (v2_layout cs xs ys)
  unfolding hybrid_sign_bytes_v2
  v2_granted out w fits given grant = rw (
    given,
    total,
    malloc_granted (39 + l + m + n) w grant,
    address_ne_null w.calls,
    memcpy-filling p 0 23 hybrid_sign_bytes_domain [] (39 + l + m + n) (16 + l + m + n) v
        (omega arith) refl (omega arith),
    be64-filling p 23 l hybrid_sign_bytes_domain (16 + l + m + n) (8 + l + m + n) v refl
        (omega arith),
    memcpy_if-filling p 31 ident l cs at_ident (8 + l + m + n) (8 + m + n) v hc
        (sym length-at_ident) (omega arith),
    be32-filling p (31 + l) (u32 m) at_b0_len (8 + m + n) (4 + m + n) v (sym length-at_b0_len)
        (omega arith),
    memcpy_if-filling p (31 + l + 4) b0 m xs at_b0 (4 + m + n) (4 + n) v hx
        (omega (arith, length-at_b0)) (omega arith),
    be32-filling p (31 + l + 4 + m) (u32 n) at_auth_len (4 + n) n v
        (omega (arith, length-at_auth_len)) refl,
    memcpy_if-filling p (31 + l + 4 + m + 4) auth n ys at_auth n 0 v hy
        (omega (arith, length-at_auth)) (omega arith),
    filling-owning p (at_auth ++ ys) v,
    written,
    grant,
    length-v2_layout cs xs ys,
    lc,
    lx,
    ly,
  )
    where
      p : Ptr
      p = suc w.calls

      v : World
      v = ticked w

      total : size (31 + l + 8 + m + n) ≡ 39 + l + m + n
      total = omega arith

  v2_refused :
      (out : Out) (w : World)
      → 39 + l + m + n < 2 ^ 64
      → (is_null ident || l == 0) ≡ false
      → w.refuse w.calls ≡ true
      → hybrid_sign_bytes_v2 ident l b0 m auth n out w ≡ built w out (v2_layout cs xs ys)
  unfolding hybrid_sign_bytes_v2
  v2_refused out w fits given refused =
      rw (given, malloc_refused (size (31 + l + 8 + m + n)) w refused, refused)

  -- For arguments that may be read and lengths whose sum fits a `size_t`: a chain-id that is NULL or
  -- empty gives QPQC_ERR, with the out parameters and everything else, the allocator included, left
  -- alone. Otherwise, if `malloc` refuses, QPQC_ERR with the out parameters and all memory left
  -- alone; else QPQC_OK and a fresh block that holds exactly the v2 layout, with its length, and no
  -- other block changed.
  pub hybrid_sign_bytes_v2-layout :
      (out : Out) (w : World)
      → 39 + l + m + n < 2 ^ 64
      → hybrid_sign_bytes_v2 ident l b0 m auth n out w ≡ (
          if is_null ident || l == 0
          then done (qpqc_err, out) w
          else built w out (v2_layout cs xs ys))
  hybrid_sign_bytes_v2-layout out w fits = elim (Bool-cases (is_null ident || l == 0)) [
    | inl empty ↦ rw empty (hybrid_sign_bytes_v2_empty ident b0 auth l m n out w empty)
    | inr given ↦ rw given (elim (Bool-cases (w.refuse w.calls)) [
      | inl refused ↦ v2_refused out w fits given refused
      | inr grant ↦ v2_granted out w fits given grant
    ])
  ]
