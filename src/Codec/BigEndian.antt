-- ===== src/Codec/BigEndian.antt =====
-- Big-endian numbers of k bytes, and how they are read back.
use native.Mathlib.Nat.{pow-suc}
use qorechain_pqc.Base.{
  ℕ, zero, suc, ◌+◌, ◌*◌, ◌/◌, ◌%◌, ◌^◌, ◌<◌, ◌≡◌, refl, ap, List, [], ◌∷◌, ◌++◌, arith, length,
  length-append,
}

-- The k lowest bytes of n, the highest of them first.
unfoldable pub be_bytes : ℕ → ℕ → List ℕ
be_bytes zero n = []
be_bytes (suc k) n = be_bytes k (n / 256) ++ n % 256 ∷ []

be_value_from : ℕ → List ℕ → ℕ
be_value_from acc [] = acc
be_value_from acc (b ∷ bs) = be_value_from (acc * 256 + b) bs

unfoldable pub be_value : List ℕ → ℕ
unfolding be_value_from
be_value bs = be_value_from 0 bs

pub length-be_bytes : (k n : ℕ) → length (be_bytes k n) ≡ k
unfolding be_bytes
length-be_bytes zero n = refl
length-be_bytes (suc k) n =
    omega (arith, length-append (be_bytes k (n / 256)) (n % 256 ∷ []), length-be_bytes k (n / 256))

be_value_from-append :
    (acc : ℕ) (xs ys : List ℕ)
    → be_value_from acc (xs ++ ys) ≡ be_value_from (be_value_from acc xs) ys
unfolding be_value_from
be_value_from-append acc [] ys = refl
be_value_from-append acc (x ∷ xs) ys = be_value_from-append (acc * 256 + x) xs ys

-- Reading the k bytes back gives the number that they were made of, if it fits.
pub be_value-be_bytes : (k n : ℕ) → n < 256 ^ k → be_value (be_bytes k n) ≡ n
unfolding be_value be_bytes
be_value-be_bytes zero n h = omega arith
be_value-be_bytes (suc k) n h =
    let small : n / 256 < 256 ^ k = omega (arith, pow-suc 256 k) in
    rw
      (
        be_value_from-append 0 (be_bytes k (n / 256)) (n % 256 ∷ []),
        be_value-be_bytes k (n / 256) small,
      )
      (omega arith)

pub be_bytes_inj : (k m n : ℕ) → m < 256 ^ k → n < 256 ^ k → be_bytes k m ≡ be_bytes k n → m ≡ n
be_bytes_inj k m n hm hn e =
    omega (arith, be_value-be_bytes k m hm, be_value-be_bytes k n hn, ap be_value e)
