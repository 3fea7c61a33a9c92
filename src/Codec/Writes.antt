-- ===== src/Codec/Writes.antt =====
-- `be32` and `be64` of c/qorechain_pqc.c on a buffer that is filled from the front.
use mathlib.Core.List.{map-append}
use qorechain_pqc.Base.{
  ℕ, zero, suc, ◌+◌, ◌/◌, ◌%◌, ◌^◌, ◌≡◌, refl, some, none, List, [], ◌∷◌, ◌++◌, map, arith, length,
  append_assoc, replicate, length-replicate, length-append, length-map, replicate_zero,
  replicate_snoc, replicate-add,
}
use qorechain_pqc.Machine.{Ptr, Cell, World, done, set_block}
use qorechain_pqc.Machine.Block.{blank, filling, store-filling, store-filling_again, store_over}
use qorechain_pqc.Codec.{be32, be64_loop, be64}
use qorechain_pqc.Codec.BigEndian.{be_bytes}

be_bytes_four :
    (n : ℕ) → be_bytes 4 n ≡ n / 2 ^ 24 % 256 ∷ n / 2 ^ 16 % 256 ∷ n / 2 ^ 8 % 256 ∷ n % 256 ∷ []
unfolding be_bytes
be_bytes_four n = ground arith

pub be32-filling :
    (p : Ptr) (o n : ℕ) (pre : List ℕ) (k j : ℕ) (w : World)
    → o ≡ length pre
    → k ≡ 4 + j
    → be32 p o n (filling p pre k w) ≡ done tt (filling p (pre ++ be_bytes 4 n) j w)
unfolding be32
be32-filling p o n pre k j w at room = rw (
  store-filling p o pre (n / 2 ^ 24 % 256 ∷ []) k (3 + j) w at (omega arith),
  store-filling_again p (o + 1) pre (n / 2 ^ 24 % 256 ∷ []) (n / 2 ^ 16 % 256 ∷ []) (3 + j) (2 + j)
      w (omega arith) (omega arith),
  store-filling_again p (o + 2) pre (n / 2 ^ 24 % 256 ∷ n / 2 ^ 16 % 256 ∷ [])
      (n / 2 ^ 8 % 256 ∷ []) (2 + j) (1 + j) w (omega arith) (omega arith),
  store-filling_again p (o + 3) pre (n / 2 ^ 24 % 256 ∷ n / 2 ^ 16 % 256 ∷ n / 2 ^ 8 % 256 ∷ [])
      (n % 256 ∷ []) (1 + j) j w (omega arith) (omega arith),
  be_bytes_four n,
)

-- What the loop has stored from the end, it leaves alone.
be64_loop-bytes :
    (p : Ptr) (o : ℕ) (xs : List Cell) (w : World)
    → o ≡ length xs
    → (i n : ℕ) (ys : List Cell)
    → be64_loop p o i n (set_block p (some (xs ++ (replicate i none ++ ys))) w)
      ≡ done tt (set_block p (some (xs ++ (map some (be_bytes i n) ++ ys))) w)
unfolding be64_loop be_bytes
be64_loop-bytes p o xs w at zero n ys = rw (replicate_zero {A = Cell})
be64_loop-bytes p o xs w at (suc i) n ys = rw (
  replicate_snoc i blank,
  append_assoc (replicate i blank) (blank ∷ []) ys,
  ← append_assoc xs (replicate i blank) (blank ∷ ys),
  store_over p (o + i) (n % 256 ∷ []) (xs ++ replicate i blank) (blank ∷ []) ys w
      (omega (arith, length-append xs (replicate i blank), length-replicate i blank)) refl,
  append_assoc xs (replicate i blank) (some (n % 256) ∷ ys),
  be64_loop-bytes p o xs w at i (n / 2 ^ 8) (some (n % 256) ∷ ys),
  map-append {B = Cell} some (be_bytes i (n / 256)) (n % 256 ∷ []),
  append_assoc (map some (be_bytes i (n / 256))) (some (n % 256) ∷ []) ys,
)

pub be64-filling :
    (p : Ptr) (o n : ℕ) (pre : List ℕ) (k j : ℕ) (w : World)
    → o ≡ length pre
    → k ≡ 8 + j
    → be64 p o n (filling p pre k w) ≡ done tt (filling p (pre ++ be_bytes 8 n) j w)
unfolding be64 filling
be64-filling p o n pre k j w at room = rw (
  room,
  replicate-add 8 j blank,
  be64_loop-bytes p o (map some pre) w (omega (arith, length-map {B = Cell} some pre)) 8 n
      (replicate j none),
  ← append_assoc (map some pre) (map some (be_bytes 8 n)) (replicate j none),
  ← map-append {B = Cell} some pre (be_bytes 8 n),
)
