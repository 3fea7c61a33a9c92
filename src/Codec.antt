-- ===== src/Codec.antt =====
-- `be32` and `be64` of c/qorechain_pqc.c, which store a number with its highest byte first.
pub mod BigEndian
pub mod Writes
use qorechain_pqc.Base.{ℕ, zero, suc, ◌+◌, ◌/◌, ◌%◌, ◌^◌, List, [], ◌∷◌}
use qorechain_pqc.Machine.{Ptr, M, pure, ◌>>=◌, ◌>>◌, store}

-- A store through `uint8_t *` keeps the low byte.
abbrev poke : Ptr → ℕ → ℕ → M (Unit {0})
poke p o b = store p o (b % 256 ∷ [])

-- o[0]=n>>24; o[1]=n>>16; o[2]=n>>8; o[3]=n
unfoldable pub be32 : Ptr → ℕ → ℕ → M (Unit {0})
be32 p o n = do
  poke p o (n / 2 ^ 24)
  poke p (o + 1) (n / 2 ^ 16)
  poke p (o + 2) (n / 2 ^ 8)
  poke p (o + 3) n

-- The rounds of the loop from o[i - 1] down to o[0].
be64_loop : Ptr → ℕ → ℕ → ℕ → M (Unit {0})
be64_loop p o zero n = pure tt
be64_loop p o (suc i) n = do poke p (o + i) n; be64_loop p o i (n / 2 ^ 8)

unfoldable pub be64 : Ptr → ℕ → ℕ → M (Unit {0})
unfolding be64_loop
be64 p o n = be64_loop p o 8 n
