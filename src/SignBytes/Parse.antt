-- ===== src/SignBytes/Parse.antt =====
-- A reader of the sign-bytes, which c/qorechain_pqc.c does not have.
use mathlib.Core.Path.{subst}
use qorechain_pqc.Base.{
  ◌>>=◌, ℕ, ◌^◌, ◌<◌, ◌≡◌, refl, sym, Option, none, some, List, [], ◌∷◌, ◌++◌, append-nil, arith,
  ◌==◌, leb, le→leb, if◌then◌else◌, length, take, drop, Text, length-append, take-append,
  drop-append,
}
use qorechain_pqc.Codec.BigEndian.{be_bytes, be_value, length-be_bytes, be_value-be_bytes}
use qorechain_pqc.SignBytes.{hybrid_sign_bytes_domain}
use qorechain_pqc.SignBytes.Layout.{v1_layout, v2_layout}

-- The first n bytes and the others.
split : ℕ → List ℕ → Option (List ℕ × List ℕ)
split n bs = if leb n (length bs) then some (take n bs, drop n bs) else none

-- A field behind its length in k bytes, and what follows it.
parse_field : ℕ → List ℕ → Option (List ℕ × List ℕ)
unfolding split
parse_field k bs = do (prefix, rest) ← split k bs; split (be_value prefix) rest

unfoldable pub parse_v1 : List ℕ → Option (List ℕ × List ℕ)
unfolding parse_field
parse_v1 bs = do
  (b0, rest) ← parse_field 4 bs
  (auth, end) ← parse_field 4 rest
  if length end == 0 then some (b0, auth) else none

expect : Text → List ℕ → Option (List ℕ)
expect [] bs = some bs
expect (t ∷ ts) [] = none
expect (t ∷ ts) (b ∷ bs) = if t == b then expect ts bs else none

unfoldable pub parse_v2 : List ℕ → Option (Text × List ℕ × List ℕ)
unfolding parse_field expect
parse_v2 bs = do
  rest ← expect hybrid_sign_bytes_domain bs
  (chain_id, form) ← parse_field 8 rest
  (b0, auth) ← parse_v1 form
  some (chain_id, b0, auth)

split-append : (n : ℕ) (xs ys : List ℕ) → n ≡ length xs → split n (xs ++ ys) ≡ some (xs, ys)
unfolding split
split-append n xs ys e = rw (
  le→leb n (length (xs ++ ys)) (omega (arith, length-append xs ys)),
  take-append n xs ys e,
  drop-append n xs ys e,
)

parse_field-append :
    (k : ℕ) (xs ys : List ℕ)
    → length xs < 256 ^ k
    → parse_field k (be_bytes k (length xs) ++ (xs ++ ys)) ≡ some (xs, ys)
unfolding parse_field
parse_field-append k xs ys small = rw (
  split-append k (be_bytes k (length xs)) (xs ++ ys) (sym (length-be_bytes k (length xs))),
  be_value-be_bytes k (length xs) small,
  split-append (length xs) xs ys refl,
)

parse_field_end :
    (k : ℕ) (xs : List ℕ)
    → length xs < 256 ^ k
    → parse_field k (be_bytes k (length xs) ++ xs) ≡ some (xs, [])
parse_field_end k xs small =
    subst (λ r. parse_field k (be_bytes k (length xs) ++ r) ≡ some (xs, [])) (append-nil xs)
      (parse_field-append k xs [] small)

-- Two byte strings of less than 2^32 bytes each are read back from their v1 sign-bytes.
pub parse_v1-v1_layout :
    (b0 auth : List ℕ)
    → length b0 < 2 ^ 32
    → length auth < 2 ^ 32
    → parse_v1 (v1_layout b0 auth) ≡ some (b0, auth)
unfolding parse_v1 v1_layout
parse_v1-v1_layout b0 auth small_b0 small_auth = rw (
  parse_field-append 4 b0 (be_bytes 4 (length auth) ++ auth) small_b0,
  parse_field_end 4 auth small_auth,
)

-- A chain-id and two byte strings of less than 2^32 bytes each are read back from their v2
-- sign-bytes.
pub parse_v2-v2_layout :
    (chain_id : Text) (b0 auth : List ℕ)
    → length chain_id < 2 ^ 64
    → length b0 < 2 ^ 32
    → length auth < 2 ^ 32
    → parse_v2 (v2_layout chain_id b0 auth) ≡ some (chain_id, b0, auth)
unfolding parse_v2 v2_layout
parse_v2-v2_layout chain_id b0 auth small_id small_b0 small_auth = rw (
  parse_field-append 8 chain_id (v1_layout b0 auth) small_id,
  parse_v1-v1_layout b0 auth small_b0 small_auth,
)
