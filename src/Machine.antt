-- ===== src/Machine.antt =====
-- What c/qorechain_pqc.c runs on: the C heap (`malloc`, `free`, `memcpy`, byte stores), the mutex
-- `qpqc_rng_lock` and the random number generator that liboqs keeps for the whole process.
pub mod Args
pub mod Block
pub mod Ends
use qorechain_pqc.Base.{
  ℕ, zero, suc, ◌+◌, ◌-◌, ◌≡◌, Bool, true, false, Option, none, some, List, [], ◌∷◌, ◌++◌, map,
  ◌==◌, leb, if◌then◌else◌, length, take, drop, replicate,
}

abbrev pub Ptr : Type 0
Ptr = ℕ

abbrev pub null : Ptr
null = 0

-- A byte of a block, `none` as long as nothing was stored there.
abbrev pub Cell : Type 0
Cell = Option ℕ

-- Where one call of a primitive gets its randomness: the bytes of the i-th request for n bytes.
abbrev pub Source : Type 0
Source = ℕ → ℕ → List ℕ

-- The generator behind `OQS_randombytes`. A custom one is a function that fills n bytes.
pub data Rng : Type 0 where
  system : Rng
  custom : (ℕ → List ℕ) → Rng

-- What a thread does to the state it shares with other threads.
pub data Event : Type 0 where
  lock unlock use_custom use_system draw : Event

pub record World : Type 0 where
  -- requests for memory so far, and those that the allocator refuses
  pub calls : ℕ
  pub refuse : ℕ → Bool
  pub block : Ptr → Option (List Cell)
  -- contents of the blocks given back, the last one first
  pub released : List (List Cell)
  -- OQS_SIG, OQS_KEM and EVP_MD_CTX objects that live
  pub handles : ℕ
  -- pthread_mutex_t qpqc_rng_lock
  pub held : Bool
  pub rng : Rng
  -- what the operating system gives to the n-th call that draws from it
  pub entropy : ℕ → Source
  pub draws : ℕ
  pub log : List Event

-- `fault` is undefined behaviour; `deadlock` is a second lock of the mutex by its owner.
pub data Run (A : Type 0) : Type 0 where
  done : A → World → Run A
  fault : Run A
  deadlock : Run A

abbrev pub M : Type 0 → Type 0
M A = World → Run A

abbrev pub pure : {A : Type 0} → A → M A
pure = done

module _ {A B : Type 0} where
  abbrev pub and_then : Run A → (A → M B) → Run B
  and_then (done a w) k = k a w
  and_then fault k = fault
  and_then deadlock k = deadlock

  infixl 5 ◌>>=◌ ◌>>◌
  abbrev pub ◌>>=◌ : M A → (A → M B) → M B
  m >>= k = λ w. and_then (m w) k

  abbrev pub ◌>>◌ : M A → M B → M B
  m >> n = m >>= λ _. n

abbrev pub update : (Ptr → Option (List Cell)) → Ptr → Option (List Cell) → Ptr → Option (List Cell)
update f p c q = if p == q then c else f q

abbrev pub set_block : Ptr → Option (List Cell) → World → World
set_block p c w = record w { block = update w.block p c }

-- One request to the allocator: is it granted?
abbrev pub request : M Bool
request w = done (if w.refuse w.calls then false else true) (record w { calls = suc w.calls })

-- `malloc(n)`: the block of the k-th request has the address k + 1, so that no address comes twice.
unfoldable pub malloc : ℕ → M Ptr
malloc n w =
    if w.refuse w.calls
    then done null (record w { calls = suc w.calls })
    else done (suc w.calls) (record w {
      calls = suc w.calls;
      block = update w.block (suc w.calls) (some (replicate n none));
    })

-- Stores into a list of cells, `none` if it does not lie in the block.
unfoldable pub write_cells : ℕ → List ℕ → List Cell → Option (List Cell)
write_cells o xs cs =
    if leb (o + length xs) (length cs)
    then some (take o cs ++ (map some xs ++ drop (o + length xs) cs))
    else none

put_block : Ptr → World → Option (List Cell) → Run (Unit {0})
put_block p w none = fault
put_block p w (some cs) = done tt (set_block p (some cs) w)

store_at : Ptr → ℕ → List ℕ → World → Option (List Cell) → Run (Unit {0})
store_at p o xs w none = fault
store_at p o xs w (some cs) = put_block p w (write_cells o xs cs)

-- The bytes xs at `p + o`.
unfoldable pub store : Ptr → ℕ → List ℕ → M (Unit {0})
unfolding store_at put_block write_cells
store p o xs w = store_at p o xs w (w.block p)

-- What a `const uint8_t *` or `const char *` argument points to: NULL, or bytes that may be read.
abbrev pub ConstPtr : Type 0
ConstPtr = Option (List ℕ)

-- Reads n bytes through an argument; nothing is read through NULL.
unfoldable pub read : ConstPtr → ℕ → M (List ℕ)
read none n = if n == 0 then pure [] else λ w. fault
read (some xs) n = if leb n (length xs) then pure (take n xs) else λ w. fault

-- `memcpy(p + o, src, n)`, undefined for NULL whatever n is.
unfoldable pub memcpy : Ptr → ℕ → ConstPtr → ℕ → M (Unit {0})
unfolding read store
memcpy p o none n = λ w. fault
memcpy p o (some xs) n = do bytes ← read (some xs) n; store p o bytes

free_block : Ptr → World → Option (List Cell) → Run (Unit {0})
free_block p w none = fault
free_block p w (some cs) =
    done tt (record w { block = update w.block p none; released = cs ∷ w.released })

-- `free(p)` for a p that is not NULL.
unfoldable pub free : Ptr → M (Unit {0})
unfolding free_block
free p w = free_block p w (w.block p)

-- The C library's `pthread_mutex_lock` and `pthread_mutex_unlock` on `qpqc_rng_lock`.
unfoldable pub mutex_lock : M (Unit {0})
mutex_lock w =
    if w.held then deadlock else done tt (record w { held = true; log = Event.lock ∷ w.log })

unfoldable pub mutex_unlock : M (Unit {0})
mutex_unlock w =
    if w.held then done tt (record w { held = false; log = Event.unlock ∷ w.log }) else fault

abbrev pub source_of : World → Rng → Source
source_of w system = w.entropy w.draws
source_of w (custom fill) = λ i n. fill n

abbrev pub draws_after : World → Rng → ℕ
draws_after w system = suc w.draws
draws_after w (custom fill) = w.draws

-- The source that a primitive of liboqs draws from while it runs.
unfoldable pub draw_source : M Source
draw_source w =
    done (source_of w w.rng) (record w { draws = draws_after w w.rng; log = Event.draw ∷ w.log })
