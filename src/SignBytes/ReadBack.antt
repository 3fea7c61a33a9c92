-- ===== src/SignBytes/ReadBack.antt =====
-- The reader of SignBytes/Parse on the buffers of the two builders.
use qorechain_pqc.Base.{ℕ, ◌^◌, ◌<◌, ◌≡◌, false, ◌||◌, some, List, map, arith, ◌==◌}
use qorechain_pqc.Machine.{ConstPtr, World}
use qorechain_pqc.Machine.Args.{Holds, length-Holds}
use qorechain_pqc.SignBytes.{Out, hybrid_sign_bytes_v1, hybrid_sign_bytes_v2, is_null}
use qorechain_pqc.SignBytes.Layout.{v1_layout, v2_layout}
use qorechain_pqc.SignBytes.Parse.{parse_v1, parse_v2, parse_v1-v1_layout, parse_v2-v2_layout}
use qorechain_pqc.SignBytes.Produced.{produced, produced_v1, produced_v2}

module _ (b0 auth : ConstPtr) (m n : ℕ) (xs ys : List ℕ) (hx : Holds b0 m xs) (hy : Holds auth n ys)
    (out : Out) (w : World) (grant : w.refuse w.calls ≡ false) (small : m < 2 ^ 32)
    (small' : n < 2 ^ 32) where
  -- If `malloc` grants the buffer and both byte strings have less than 2^32 bytes, the v1 builder
  -- leaves in the buffer bytes, all of them set, from which the reader `parse_v1` gets b0 and auth
  -- back. The arguments may be read.
  pub parse-hybrid_sign_bytes_v1 :
      (bytes : List ℕ) × (produced (hybrid_sign_bytes_v1 b0 m auth n out w) ≡ some (map some bytes))
      × (parse_v1 bytes ≡ some (xs, ys))
  parse-hybrid_sign_bytes_v1 = (
    v1_layout xs ys,
    produced_v1 b0 auth m n xs ys hx hy out w (omega arith) grant,
    parse_v1-v1_layout xs ys (omega (arith, length-Holds b0 m xs hx))
        (omega (arith, length-Holds auth n ys hy)),
  )

  -- If `malloc` grants the buffer, both byte strings have less than 2^32 bytes, and the chain-id is
  -- not empty and has less than 2^63 bytes, the v2 builder leaves in the buffer bytes, all of them
  -- set, from which the reader `parse_v2` gets chain-id, b0 and auth back. The arguments may be read.
  pub parse-hybrid_sign_bytes_v2 :
      (ident : ConstPtr) (l : ℕ) (cs : List ℕ)
      → Holds ident l cs
      → (is_null ident || l == 0) ≡ false
      → l < 2 ^ 63
      → (bytes : List ℕ) × (produced (hybrid_sign_bytes_v2 ident l b0 m auth n out w)
          ≡ some (map some bytes))
        × (parse_v2 bytes ≡ some (cs, xs, ys))
  parse-hybrid_sign_bytes_v2 ident l cs hc given short = (
    v2_layout cs xs ys,
    produced_v2 ident b0 auth l m n cs xs ys hc hx hy out w (omega arith) given grant,
    parse_v2-v2_layout cs xs ys (omega (arith, length-Holds ident l cs hc))
        (omega (arith, length-Holds b0 m xs hx)) (omega (arith, length-Holds auth n ys hy)),
  )
