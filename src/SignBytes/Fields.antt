-- ===== src/SignBytes/Fields.antt =====
-- Length-prefixed fields appended to a buffer, and what a builder returns.
use qorechain_pqc.Base.{
  ℕ, ℤ, zero, suc, ◌+◌, ◌≡◌, ap, false, none, some, List, ◌++◌, append-nil, arith, ◌==◌,
  if◌then◌else◌, length, length-append,
}
use qorechain_pqc.Machine.{Ptr, ConstPtr, World, Run, done}
use qorechain_pqc.Machine.Block.{filling}
use qorechain_pqc.Machine.Args.{Holds, memcpy-filling, ticked, owning}
use qorechain_pqc.Codec.BigEndian.{be_bytes, length-be_bytes}
use qorechain_pqc.SignBytes.{qpqc_ok, qpqc_err, Out, memcpy_if, u32}
use qorechain_pqc.SignBytes.Layout.{v1_layout, v2_layout}

pub memcpy_if-filling :
    (p : Ptr) (o : ℕ) (c : ConstPtr) (n : ℕ) (xs pre : List ℕ) (k j : ℕ) (w : World)
    → Holds c n xs
    → o ≡ length pre
    → k ≡ n + j
    → memcpy_if p o c n (filling p pre k w) ≡ done tt (filling p (pre ++ xs) j w)
unfolding memcpy_if
memcpy_if-filling p o none n xs pre k j w (e, nil) at room =
    rw (e, nil, append-nil pre) (ap (λ m. done tt (filling p pre m w)) (omega arith))
memcpy_if-filling p o (some ys) zero xs pre k j w (le, e) at room =
    rw (e, append-nil pre) (ap (λ m. done tt (filling p pre m w)) (omega arith))
memcpy_if-filling p o (some ys) (suc n) xs pre k j w (le, e) at room =
    let positive : (suc n == 0) ≡ false = ground arith in
    rw (positive, e) (memcpy-filling p o (suc n) ys pre k j w le at room)

pub be_bytes-u32 : (n : ℕ) → be_bytes 4 (u32 n) ≡ be_bytes 4 n
unfolding be_bytes
be_bytes-u32 n = ground arith

-- What a builder returns in each of the two answers of `malloc`.
abbrev pub built : World → Out → List ℕ → Run (ℤ × Out)
built w out bytes =
    if w.refuse w.calls
    then done (qpqc_err, out) (ticked w)
    else done (qpqc_ok, record { buf = suc w.calls; len = length bytes })
        (owning (suc w.calls) bytes (ticked w))

pub length-v1_layout : (b0 auth : List ℕ) → length (v1_layout b0 auth) ≡ 8 + length b0 + length auth
unfolding v1_layout
length-v1_layout b0 auth = omega (
  arith,
  length-append (be_bytes 4 (length b0)) (b0 ++ (be_bytes 4 (length auth) ++ auth)),
  length-append b0 (be_bytes 4 (length auth) ++ auth),
  length-append (be_bytes 4 (length auth)) auth,
  length-be_bytes 4 (length b0),
  length-be_bytes 4 (length auth),
)

pub address_ne_null : (n : ℕ) → (suc n == 0) ≡ false
address_ne_null n = ground arith

pub length-v2_layout :
    (chain_id b0 auth : List ℕ)
    → length (v2_layout chain_id b0 auth) ≡ 39 + length chain_id + length b0 + length auth
unfolding v2_layout
length-v2_layout chain_id b0 auth = omega (
  arith,
  length-append (be_bytes 8 (length chain_id)) (chain_id ++ v1_layout b0 auth),
  length-append chain_id (v1_layout b0 auth),
  length-be_bytes 8 (length chain_id),
  length-v1_layout b0 auth,
)
