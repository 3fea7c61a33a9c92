-- ===== src/Machine/Args.antt =====
-- Arguments that may be read, `memcpy` from them, and the two answers of `malloc`.
use qorechain_pqc.Base.{
  ℕ, suc, ◌+◌, ◌≤◌, ◌≡◌, true, false, none, some, List, [], ◌++◌, map, append-nil, arith, le→leb,
  length, take, length-take, sym, take_all, replicate_zero,
}
use qorechain_pqc.Machine.{Ptr, null, Cell, ConstPtr, World, done, set_block, malloc, read, memcpy}
use qorechain_pqc.Machine.Block.{filling, store-filling}

-- The argument c, used with the length n, stands for the bytes xs.
abbrev pub Holds : ConstPtr → ℕ → List ℕ → Type 0
Holds none n xs = (n ≡ 0) × (xs ≡ [])
Holds (some ys) n xs = (n ≤ length ys) × (xs ≡ take n ys)

pub some-Holds : (xs : List ℕ) → Holds (some xs) (length xs) xs
some-Holds xs = (omega arith, sym (take_all (length xs) xs (omega arith)))

pub length-Holds : (c : ConstPtr) (n : ℕ) (xs : List ℕ) → Holds c n xs → length xs ≡ n
length-Holds none n xs (e, nil) = rw (nil, e)
length-Holds (some ys) n xs (le, e) = rw (e, length-take n ys le)

pub read-Holds :
    (c : ConstPtr) (n : ℕ) (xs : List ℕ) (w : World) → Holds c n xs → read c n w ≡ done xs w
unfolding read
read-Holds none n xs w (e, nil) = rw (e, nil)
read-Holds (some ys) n xs w (le, e) = rw (le→leb n (length ys) le, e)

pub memcpy-filling :
    (p : Ptr) (o n : ℕ) (ys pre : List ℕ) (k j : ℕ) (w : World)
    → n ≤ length ys
    → o ≡ length pre
    → k ≡ n + j
    → memcpy p o (some ys) n (filling p pre k w) ≡ done tt (filling p (pre ++ take n ys) j w)
unfolding memcpy
memcpy-filling p o n ys pre k j w le at room = rw (
  le→leb n (length ys) le,
  store-filling p o pre (take n ys) k j w at (omega (arith, length-take n ys le)),
)

-- The world after one more request for memory.
abbrev pub ticked : World → World
ticked w = record w { calls = suc w.calls }

-- The block at p holds the bytes xs and no more.
unfoldable pub owning : Ptr → List ℕ → World → World
owning p xs w = set_block p (some (map some xs)) w

pub filling-owning : (p : Ptr) (xs : List ℕ) (w : World) → filling p xs 0 w ≡ owning p xs w
unfolding filling owning
filling-owning p xs w = rw (replicate_zero {A = Cell}, append-nil {A = Cell})

pub malloc_granted :
    (n : ℕ) (w : World)
    → w.refuse w.calls ≡ false
    → malloc n w ≡ done (suc w.calls) (filling (suc w.calls) [] n (ticked w))
unfolding malloc filling
malloc_granted n w h = rw h

pub malloc_refused :
    (n : ℕ) (w : World) → w.refuse w.calls ≡ true → malloc n w ≡ done null (ticked w)
unfolding malloc
malloc_refused n w h = rw h
