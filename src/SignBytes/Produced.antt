-- ===== src/SignBytes/Produced.antt =====
-- What the caller finds in the buffer that a builder returned.
use qorechain_pqc.Base.{
  ℕ, suc, ◌≡◌, refl, ℤ, pos, false, Option, none, some, List, [], ◌∷◌, ◌+◌, ◌^◌, ◌<◌, map, arith,
  ◌==◌, ◌||◌,
}
use qorechain_pqc.Machine.{ConstPtr, Cell, World, Run, done}
use qorechain_pqc.Machine.Args.{Holds, owning}
use qorechain_pqc.Machine.Block.{update_at}
use qorechain_pqc.SignBytes.{Out, hybrid_sign_bytes_v1, hybrid_sign_bytes_v2, is_null}
use qorechain_pqc.SignBytes.Layout.{v1_layout, v2_layout}
use qorechain_pqc.SignBytes.Fields.{built}
use qorechain_pqc.SignBytes.V1.{hybrid_sign_bytes_v1-layout}
use qorechain_pqc.SignBytes.V2.{hybrid_sign_bytes_v2-layout}

-- The contents of `*out` after a call that returned QPQC_OK.
unfoldable pub produced : Run (ℤ × Out) → Option (List Cell)
produced (done (pos ℕ.zero, out) w) = w.block out.buf
produced _ = none

pub produced-built :
    (out : Out) (bytes : List ℕ) (w : World)
    → w.refuse w.calls ≡ false
    → produced (built w out bytes) ≡ some (map some bytes)
unfolding produced owning
produced-built out bytes w grant =
    rw (grant, update_at (suc w.calls) (some (map some bytes)) w.block)

pub map-some_inj : (xs ys : List ℕ) → ◌≡◌ {A = List Cell} (map some xs) (map some ys) → xs ≡ ys
map-some_inj [] [] h = refl
map-some_inj [] (y ∷ ys) h = ground arith
map-some_inj (x ∷ xs) [] h = ground arith
map-some_inj (x ∷ xs) (y ∷ ys) h = ground (arith, map-some_inj xs ys)

pub produced_v1 :
    (b0 auth : ConstPtr) (m n : ℕ) (xs ys : List ℕ)
    → Holds b0 m xs
    → Holds auth n ys
    → (out : Out) (w : World) → 8 + m + n < 2 ^ 64
    → w.refuse w.calls ≡ false
    → produced (hybrid_sign_bytes_v1 b0 m auth n out w) ≡ some (map some (v1_layout xs ys))
produced_v1 b0 auth m n xs ys hx hy out w fits grant = rw (
  hybrid_sign_bytes_v1-layout b0 auth m n xs ys hx hy out w fits,
  produced-built out (v1_layout xs ys) w grant,
)

pub produced_v2 :
    (ident b0 auth : ConstPtr) (l m n : ℕ) (cs xs ys : List ℕ)
    → Holds ident l cs
    → Holds b0 m xs
    → Holds auth n ys
    → (out : Out) (w : World) → 39 + l + m + n < 2 ^ 64
    → (is_null ident || l == 0) ≡ false
    → w.refuse w.calls ≡ false
    → produced (hybrid_sign_bytes_v2 ident l b0 m auth n out w)
      ≡ some (map some (v2_layout cs xs ys))
produced_v2 ident b0 auth l m n cs xs ys hc hx hy out w fits given grant = rw (
  hybrid_sign_bytes_v2-layout ident b0 auth l m n cs xs ys hc hx hy out w fits,
  given,
  produced-built out (v2_layout cs xs ys) w grant,
)
