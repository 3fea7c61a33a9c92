-- ===== src/Machine/Ends.antt =====
-- Runs that end, with neither undefined behaviour nor deadlock; stores into fresh blocks.
use mathlib.Core.Path.{fun_ext}
use qorechain_pqc.Base.{
  ℕ, ◌-◌, ◌+◌, ◌≤◌, ◌≡◌, refl, ap, ◌∙◌, some, none, List, [], ◌++◌, map, arith, length, replicate,
  drop, le→leb, ◌+◌, length-replicate, replicate-add,
}
use qorechain_pqc.Machine.{
  Cell, ConstPtr, World, Run, done, fault, deadlock, M, pure, read, write_cells,
}
use qorechain_pqc.Machine.Block.{write_cells_lem}
use qorechain_pqc.Machine.Args.{Holds, read-Holds}

-- The run ends, and its result and its world satisfy P.
abbrev pub Ends : {A : Type 0} → (A → World → Type 0) → Run A → Type 0
Ends P (done a w) = P a w
Ends P fault = ⊥
Ends P deadlock = ⊥

-- A call that leaves the shared state as it found it.
pub record Settled (w v : World) : Type 0 where
  pub handles : v.handles ≡ w.handles
  pub held : v.held ≡ w.held
  pub rng : v.rng ≡ w.rng

pub read_eq :
    (c : ConstPtr) (n : ℕ) (xs : List ℕ) → Holds c n xs → ◌≡◌ {A = M (List ℕ)} (read c n) (pure xs)
read_eq c n xs h = fun_ext λ w. read-Holds c n xs w h

-- A block whose first bytes were set, once.
abbrev pub part : ℕ → List ℕ → List Cell
part n bs = map some bs ++ replicate (n - length bs) none

pub write_fresh :
    (n : ℕ) (bs : List ℕ) → length bs ≤ n → write_cells 0 bs (replicate n none) ≡ some (part n bs)
write_fresh n bs fits =
    ap (λ k. write_cells 0 bs (replicate k none)) whole
    ∙ ap (write_cells 0 bs) (replicate-add (length bs) (n - length bs) none)
    ∙ write_cells_lem 0 bs [] (replicate (length bs) none) (replicate (n - length bs) none) refl
        (length-replicate (length bs) none)
  where
    whole : n ≡ length bs + (n - length bs)
    whole = omega arith

pub Ends-mono :
    {A : Type 0} {P Q : A → World → Type 0} (r : Run A)
    → Ends P r
    → ((a : A) (w : World) → P a w → Q a w)
    → Ends Q r
Ends-mono (done a w) p weaken = weaken a w p
Ends-mono fault p weaken = p
Ends-mono deadlock p weaken = p

-- A block whose first bytes were written over.
abbrev pub over : List ℕ → List Cell → List Cell
over bs cells = map some bs ++ drop (length bs) cells

pub write_over :
    (bs : List ℕ) (cells : List Cell)
    → length bs ≤ length cells
    → write_cells 0 bs cells ≡ some (over bs cells)
unfolding write_cells
write_over bs cells fits =
    rw (le→leb (0 + length bs) (length cells) (omega arith))
      (ap (λ n. some (map some bs ++ drop n cells)) (omega arith))
