-- ===== src/Release/Laws.antt =====
-- What `qpqc_free` leaves behind.
use qorechain_pqc.Base.{
  ℕ, suc, ◌+◌, ◌^◌, ◌<◌, ◌≡◌, refl, sym, ◌≢◌, false, none, some, List, ◌∷◌, map, append-nil, arith,
  ◌==◌, le→leb, length, replicate, length-map, drop_all, ℤ,
}
use qorechain_pqc.Machine.{
  Ptr, null, ConstPtr, Cell, World, done, M, ◌>>=◌, update, set_block, free,
}
use qorechain_pqc.Machine.Args.{Holds, owning, ticked}
use qorechain_pqc.Machine.Block.{update_at, update-update}
use qorechain_pqc.Machine.Ends.{Ends}
use qorechain_pqc.Oqs.{Oqs, CleanseLaw}
use qorechain_pqc.SignBytes.{Out, hybrid_sign_bytes}
use qorechain_pqc.SignBytes.Form.{sign_bytes_form, answer, hybrid_sign_bytes-form}
use qorechain_pqc.Release.{mem_cleanse, qpqc_free}

-- NULL is let through, as `free` does.
pub qpqc_free-null : (oqs : Oqs) (len : ℕ) (w : World) → qpqc_free oqs null len w ≡ done tt w
unfolding qpqc_free
qpqc_free-null oqs len w = refl

-- A block that is freed with the length that the library reported for it goes back with nothing but
-- zeros in it: of a block of len bytes at an address that is not NULL, every byte is zero when it is
-- released, the address is free afterwards, and nothing else changes.
pub qpqc_free_zeroes :
    (oqs : Oqs)
    → CleanseLaw oqs
    → (buf len : ℕ) (cells : List Cell) (w : World) → buf ≢ null
    → w.block buf ≡ some cells
    → len ≡ length cells
    → qpqc_free oqs buf len w
      ≡ done tt (record w {
        block = update w.block buf none;
        released = map some (replicate len 0) ∷ w.released;
      })
unfolding qpqc_free mem_cleanse free
qpqc_free_zeroes oqs law buf len cells w ne e fits = rw (
  not_null,
  e,
  le→leb len (length cells) (omega arith),
  update_at buf (some (oqs.cleanse len cells)) w.block,
  update-update buf (some (oqs.cleanse len cells)) none w.block,
  law.zeroes len cells (omega arith),
  drop_all len cells (omega arith),
  append-nil (map {B = Cell} some (replicate len 0)),
)
  where
    not_null : (buf == null) ≡ false
    not_null = ground arith

-- Building sign-bytes and freeing the buffer with the reported length.
abbrev pub build_and_free :
    Oqs → ℤ → ConstPtr → ℕ → ConstPtr → ℕ → ConstPtr → ℕ → Out → M (Unit {0})
build_and_free oqs version chain_id l b0 m auth n out =
    hybrid_sign_bytes version chain_id l b0 m auth n out >>= λ r. qpqc_free oqs r.1.buf r.1.len

-- For arguments that may be read, of lengths whose sum fits a `size_t`, and a version that has
-- sign-bytes for them: if `malloc` grants the buffer at an address that was free, then building the
-- sign-bytes and freeing them with the reported length ends without fault or deadlock and leaves every
-- block as it was, and what was released is zeros, as many as there were sign-bytes.
pub build_and_free_clean :
    (oqs : Oqs)
    → CleanseLaw oqs
    → (version : ℤ) (chain_id b0 auth : ConstPtr) (l m n : ℕ) (cs xs ys : List ℕ)
    → Holds chain_id l cs
    → Holds b0 m xs
    → Holds auth n ys
    → (out : Out) (w : World) → 39 + l + m + n < 2 ^ 64
    → w.refuse w.calls ≡ false
    → w.block (suc w.calls) ≡ none
    → (bytes : List ℕ) → sign_bytes_form version cs xs ys ≡ some bytes
    → Ends
        (λ _ v.
          ((q : Ptr) → v.block q ≡ w.block q)
          × (v.released ≡ map some (replicate (length bytes) 0) ∷ w.released))
        (build_and_free oqs version chain_id l b0 m auth n out w)
unfolding answer owning
build_and_free_clean oqs law version chain_id b0 auth l m n cs xs ys hc hx hy out w fits grant fresh
      bytes form =
    rw
      (
        hybrid_sign_bytes-form version chain_id b0 auth l m n cs xs ys hc hx hy out w fits,
        form,
        grant,
        qpqc_free_zeroes oqs law (suc w.calls) (length bytes) (map some bytes)
            (set_block (suc w.calls) (some (map some bytes)) (ticked w)) (λ e. absurd (omega arith))
            (update_at (suc w.calls) (some (map some bytes)) w.block)
            (sym (length-map {B = Cell} some bytes)),
      )
      ((λ q. ground arith), refl)
