-- ===== src/Client/Typed.antt =====
-- Memory in which every byte that was set is a byte.
use qorechain_pqc.Base.{
  Bool, true, ltb, ◌&&◌, refl, ℕ, zero, suc, ◌/◌, ◌%◌, ◌<◌, ◌≡◌, Option, none, some, List, [], ◌∷◌,
  ◌++◌, map, arith, ◌==◌, Bool-cases, inl, inr, length, drop, replicate, Text,
}
use qorechain_pqc.Machine.{Ptr, Cell, Source, update}
use qorechain_pqc.Machine.Ends.{part, over}
use qorechain_pqc.Codec.BigEndian.{be_bytes}
use qorechain_pqc.Oqs.{Sig, Kem}
use qorechain_pqc.Hash.{Evp}
use qorechain_pqc.SignBytes.{hybrid_sign_bytes_domain}
use qorechain_pqc.SignBytes.Layout.{v1_layout, v2_layout}
use qorechain_pqc.Client.{AllBytes}

abbrev pub AllCells : List Cell → Type 0
AllCells [] = Unit
AllCells (none ∷ cells) = AllCells cells
AllCells (some b ∷ cells) = (b < 256) × AllCells cells

abbrev pub IsBlock : Option (List Cell) → Type 0
IsBlock none = Unit
IsBlock (some cells) = AllCells cells

abbrev pub Typed : (Ptr → Option (List Cell)) → Type 0
Typed f = (p : Ptr) → IsBlock (f p)

-- The primitives store bytes: `uint8_t` is the type of their outputs.
pub record SigBytes (s : Sig) : Type 0 where
  pub keypair_bytes : (r : Source) → AllBytes (s.keypair r).1 × AllBytes (s.keypair r).2
  pub signature_bytes : (r : Source) (m k : List ℕ) → AllBytes (s.sign r m k).bytes

pub record KemBytes (k : Kem) : Type 0 where
  pub encaps_bytes :
      (r : Source) (pk : List ℕ) → AllBytes (k.encaps r pk).1 × AllBytes (k.encaps r pk).2
  pub decaps_bytes : (ct sk : List ℕ) → AllBytes (k.decaps ct sk).1

-- Sign-bytes, if there are any.
abbrev pub AreBytes : Option (List ℕ) → Type 0
AreBytes none = Unit
AreBytes (some bytes) = AllBytes bytes

pub record XofBytes {C : Type 0} (evp : Evp C) : Type 0 where
  pub written_bytes :
      (c : C) (n : ℕ) (ok : Bool) (bytes : List ℕ)
      → evp.final_xof c n ≡ some (ok, bytes)
      → AllBytes bytes

pub update-Typed :
    (p : Ptr) (c : Option (List Cell)) (f : Ptr → Option (List Cell))
    → Typed f
    → IsBlock c
    → Typed (update f p c)
update-Typed p c f old new q = elim (Bool-cases (p == q)) [
  | inl same ↦ rw same new
  | inr other ↦ rw other (old q)
]

pub blanks-AllCells : (n : ℕ) → AllCells (replicate n none)
unfolding replicate
blanks-AllCells zero = tt
blanks-AllCells (suc n) = blanks-AllCells n

pub map-AllCells :
    (bs : List ℕ) (cells : List Cell)
    → AllBytes bs
    → AllCells cells
    → AllCells (map some bs ++ cells)
map-AllCells [] cells h k = k
map-AllCells (b ∷ bs) cells (h, hs) k = (h, map-AllCells bs cells hs k)

pub bytes-AllCells : (bs : List ℕ) → AllBytes bs → AllCells (map some bs)
bytes-AllCells [] h = tt
bytes-AllCells (b ∷ bs) (h, hs) = (h, bytes-AllCells bs hs)

drop-AllCells : (n : ℕ) (cells : List Cell) → AllCells cells → AllCells (drop n cells)
drop-AllCells zero cells h = h
drop-AllCells (suc n) [] h = h
drop-AllCells (suc n) (none ∷ cells) h = drop-AllCells n cells h
drop-AllCells (suc n) (some b ∷ cells) (h, hs) = drop-AllCells n cells hs

pub part-AllCells : (n : ℕ) (bs : List ℕ) → AllBytes bs → AllCells (part n bs)
part-AllCells n bs h = map-AllCells bs _ h (blanks-AllCells _)

pub over-AllCells :
    (bs : List ℕ) (cells : List Cell) → AllBytes bs → AllCells cells → AllCells (over bs cells)
over-AllCells bs cells h k = map-AllCells bs _ h (drop-AllCells (length bs) cells k)

append-AllBytes : (xs ys : List ℕ) → AllBytes xs → AllBytes ys → AllBytes (xs ++ ys)
append-AllBytes [] ys h k = k
append-AllBytes (x ∷ xs) ys (h, hs) k = (h, append-AllBytes xs ys hs k)

be_bytes-AllBytes : (k n : ℕ) → AllBytes (be_bytes k n)
unfolding be_bytes
be_bytes-AllBytes zero n = tt
be_bytes-AllBytes (suc k) n =
    append-AllBytes (be_bytes k (n / 256)) (n % 256 ∷ []) (be_bytes-AllBytes k (n / 256))
      (omega arith, tt)

-- The same as a test.
abbrev pub all_bytes : List ℕ → Bool
all_bytes [] = true
all_bytes (b ∷ bs) = ltb b 256 && all_bytes bs

pub all_bytes-AllBytes : (bs : List ℕ) → all_bytes bs ≡ true → AllBytes bs
all_bytes-AllBytes [] h = tt
all_bytes-AllBytes (b ∷ bs) h = (ground arith, all_bytes-AllBytes bs (ground arith))

domain-AllBytes : AllBytes hybrid_sign_bytes_domain
domain-AllBytes = all_bytes-AllBytes hybrid_sign_bytes_domain refl

module _ (b0 auth : List ℕ) (hb : AllBytes b0) (ha : AllBytes auth) where
  pub v1_layout-AllBytes : AllBytes (v1_layout b0 auth)
  unfolding v1_layout
  v1_layout-AllBytes =
      append-AllBytes (be_bytes 4 (length b0)) (b0 ++ (be_bytes 4 (length auth) ++ auth))
        (be_bytes-AllBytes 4 (length b0))
        (append-AllBytes b0 (be_bytes 4 (length auth) ++ auth) hb
          (append-AllBytes (be_bytes 4 (length auth)) auth (be_bytes-AllBytes 4 (length auth)) ha))

  pub v2_layout-AllBytes : (cid : Text) → AllBytes cid → AllBytes (v2_layout cid b0 auth)
  unfolding v2_layout
  v2_layout-AllBytes cid hc =
      append-AllBytes hybrid_sign_bytes_domain
        (be_bytes 8 (length cid) ++ (cid ++ v1_layout b0 auth)) domain-AllBytes
        (append-AllBytes (be_bytes 8 (length cid)) (cid ++ v1_layout b0 auth)
          (be_bytes-AllBytes 8 (length cid))
          (append-AllBytes cid (v1_layout b0 auth) hc v1_layout-AllBytes))
