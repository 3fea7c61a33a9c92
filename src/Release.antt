-- ===== src/Release.antt =====
-- `qpqc_free` of c/qorechain_pqc.c.
pub mod Laws
use qorechain_pqc.Base.{ℕ, Option, none, some, List, ◌==◌, leb, if◌then◌else◌, length}
use qorechain_pqc.Machine.{
  Ptr, null, Cell, World, Run, done, fault, M, pure, ◌>>=◌, ◌>>◌, set_block, free,
}
use qorechain_pqc.Oqs.{Oqs}

cleanse_block : Oqs → Ptr → ℕ → World → Option (List Cell) → Run (Unit {0})
cleanse_block oqs p n w none = fault
cleanse_block oqs p n w (some cells) =
    if leb n (length cells) then done tt (set_block p (some (oqs.cleanse n cells)) w) else fault

-- `OQS_MEM_cleanse`
unfoldable pub mem_cleanse : Oqs → Ptr → ℕ → M (Unit {0})
unfolding cleanse_block
mem_cleanse oqs p n w = cleanse_block oqs p n w (w.block p)

unfoldable pub qpqc_free : Oqs → Ptr → ℕ → M (Unit {0})
qpqc_free oqs buf len = if buf == null then pure tt else do mem_cleanse oqs buf len; free buf
