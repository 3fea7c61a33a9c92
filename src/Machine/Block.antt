-- ===== src/Machine/Block.antt =====
-- A store into a block that is already there, as an equation; blocks filled from the front.
use mathlib.Core.Path.{fun_ext}
use mathlib.Core.List.{map-append}
use qorechain_pqc.Base.{
  ℕ, ◌+◌, ◌≡◌, refl, ap, Option, none, some, List, ◌++◌, map, append_assoc, arith, le→leb, ==_self,
  length, replicate, length-append, length-map, length-replicate, replicate-add, take-append,
  drop-append,
}
use qorechain_pqc.Machine.{Ptr, Cell, World, done, update, set_block, write_cells, store}

pub update-update :
    (p : Ptr) (c d : Option (List Cell)) (f : Ptr → Option (List Cell))
    → update (update f p c) p d ≡ update f p d
update-update p c d f = fun_ext λ q. ground arith

pub set_block_twice :
    (p : Ptr) (c d : Option (List Cell)) (w : World)
    → set_block p d (set_block p c w) ≡ set_block p d w
set_block_twice p c d w = ap (λ f. record w { block = f }) (update-update p c d w.block)

pub update_at :
    (p : Ptr) (c : Option (List Cell)) (f : Ptr → Option (List Cell)) → update f p c p ≡ c
update_at p c f = rw (==_self p p refl)

pub write_cells_lem :
    (o : ℕ) (bs : List ℕ) (xs cs ys : List Cell)
    → o ≡ length xs
    → length cs ≡ length bs
    → write_cells o bs (xs ++ (cs ++ ys)) ≡ some (xs ++ (map some bs ++ ys))
unfolding write_cells
write_cells_lem o bs xs cs ys at fits = rw (
  le→leb (o + length bs) (length (xs ++ (cs ++ ys)))
      (omega (arith, length-append xs (cs ++ ys), length-append cs ys)),
  take-append o xs (cs ++ ys) at,
  ← append_assoc xs cs ys,
  drop-append (o + length bs) (xs ++ cs) ys (omega (arith, length-append xs cs)),
)

-- Storing bs over the cells cs, that stand behind xs.
pub store_over :
    (p : Ptr) (o : ℕ) (bs : List ℕ) (xs cs ys : List Cell) (w : World)
    → o ≡ length xs
    → length cs ≡ length bs
    → store p o bs (set_block p (some (xs ++ (cs ++ ys))) w)
      ≡ done tt (set_block p (some (xs ++ (map some bs ++ ys))) w)
unfolding store
store_over p o bs xs cs ys w at fits = rw (
  update_at p (some (xs ++ (cs ++ ys))) w.block,
  write_cells_lem o bs xs cs ys at fits,
  update-update p (some (xs ++ (cs ++ ys))) (some (xs ++ (map some bs ++ ys))) w.block,
)

-- A byte that nothing was stored to.
abbrev pub blank : Cell
blank = none

-- The block at p holds the bytes pre, and room for k more.
unfoldable pub filling : Ptr → List ℕ → ℕ → World → World
filling p pre k w = set_block p (some (map some pre ++ replicate k none)) w

pub store-filling :
    (p : Ptr) (o : ℕ) (pre bs : List ℕ) (k j : ℕ) (w : World)
    → o ≡ length pre
    → k ≡ length bs + j
    → store p o bs (filling p pre k w) ≡ done tt (filling p (pre ++ bs) j w)
unfolding filling
store-filling p o pre bs k j w at room = rw (
  room,
  replicate-add (length bs) j blank,
  store_over p o bs (map some pre) (replicate (length bs) none) (replicate j none) w
      (omega (arith, length-map {B = Cell} some pre)) (length-replicate (length bs) blank),
  ← append_assoc (map some pre) (map some bs) (replicate j none),
  ← map-append {B = Cell} some pre bs,
)

-- The same where the bytes so far are those of earlier writes.
pub store-filling_again :
    (p : Ptr) (o : ℕ) (pre xs bs : List ℕ) (k j : ℕ) (w : World)
    → o ≡ length pre + length xs
    → k ≡ length bs + j
    → store p o bs (filling p (pre ++ xs) k w) ≡ done tt (filling p (pre ++ (xs ++ bs)) j w)
store-filling_again p o pre xs bs k j w at room = rw (
  store-filling p o (pre ++ xs) bs k j w (omega (arith, length-append pre xs)) room,
  append_assoc pre xs bs,
)
