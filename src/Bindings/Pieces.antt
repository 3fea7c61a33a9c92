-- ===== src/Bindings/Pieces.antt =====
-- Messages put together from pieces: by `concat` of js/src/index.js and by the `ByteBuffer` of Pqc.java.
use mathlib.Core.Path.{fun_ext}
use qorechain_pqc.Base.{
  ◌==◌, ℕ, ◌+◌, ◌%◌, ◌^◌, ◌<◌, ◌≤◌, ◌≡◌, refl, ap, ◌∙◌, false, ltb, leb, Option, none, some, ◌>>=◌,
  >>=-assoc, List, [], ◌∷◌, ◌++◌, append-nil, append_assoc, arith, le→leb, length, drop, replicate,
  length-append, length-drop, length-replicate, take-append, replicate_zero, if◌then◌else◌,
  Bool-cases, inl, inr,
}
use qorechain_pqc.Codec.BigEndian.{be_bytes, length-be_bytes}
use qorechain_pqc.SignBytes.{hybrid_sign_bytes_domain}
use qorechain_pqc.SignBytes.Layout.{v1_layout, v2_layout}
use qorechain_pqc.Bindings.{total}
use qorechain_pqc.Bindings.Js.{set, set_all, concat}
use qorechain_pqc.Bindings.Java
use qorechain_pqc.Bindings.Java.{ByteBuffer, int, allocate, put, put_int, put_long, array}

abbrev pub flat : List (List ℕ) → List ℕ
flat [] = []
flat (p ∷ parts) = p ++ flat parts

pub length-flat : (parts : List (List ℕ)) → length (flat parts) ≡ total parts
length-flat [] = refl
length-flat (p ∷ parts) = omega (arith, length-append p (flat parts), length-flat parts)

set_all-flat :
    (parts : List (List ℕ)) (pre rest : List ℕ) (o : ℕ)
    → o ≡ length pre
    → length rest ≡ total parts
    → set_all parts o (pre ++ rest) ≡ some (pre ++ flat parts)
unfolding set_all set
set_all-flat [] pre [] o at fits = refl
set_all-flat [] pre (x ∷ rest) o at fits = absurd (omega arith)
set_all-flat (p ∷ parts) pre rest o at fits =
    let whole : length (pre ++ rest) ≡ length pre + length rest = length-append pre rest in
    rw (
      le→leb (o + length p) (length (pre ++ rest)) (omega arith),
      take-append o pre rest at,
      set_all-flat parts (pre ++ p) (drop (o + length p) (pre ++ rest)) (o + length p)
          (omega (arith, length-append pre p))
          (omega (arith, length-drop (o + length p) (pre ++ rest) (omega arith))),
      append_assoc pre p (flat parts),
    )

pub concat-flat : (parts : List (List ℕ)) → concat parts ≡ some (flat parts)
unfolding concat
concat-flat parts =
    set_all-flat parts [] (replicate (total parts) 0) 0 refl (length-replicate (total parts) 0)

-- One `put` after the other, and what is done with the buffer then.
put_all : List (List ℕ) → (ByteBuffer → Option (List ℕ)) → ByteBuffer → Option (List ℕ)
put_all [] k buf = k buf
put_all (p ∷ parts) k buf = put p buf >>= λ x. put_all parts k x

put_all-flat :
    (parts : List (List ℕ)) (k : ByteBuffer → Option (List ℕ)) (bs : List ℕ) (c : ℕ)
    → length bs + total parts ≤ c
    → put_all parts k (record { filled = bs; capacity = c })
      ≡ k (record { filled = bs ++ flat parts; capacity = c })
unfolding put_all put
put_all-flat [] k bs c fits = rw (append-nil bs)
put_all-flat (p ∷ parts) k bs c fits = rw (
  le→leb (length bs + length p) c (omega arith),
  put_all-flat parts k (bs ++ p) c (omega (arith, length-append bs p)),
  append_assoc bs p (flat parts),
)

-- More pieces than there is room for.
put_all_overflows :
    (parts : List (List ℕ)) (k : ByteBuffer → Option (List ℕ)) (bs : List ℕ) (c : ℕ)
    → length bs ≤ c
    → c < length bs + total parts
    → put_all parts k (record { filled = bs; capacity = c }) ≡ none
unfolding put_all put
put_all_overflows [] k bs c room full = absurd (omega arith)
put_all_overflows (p ∷ parts) k bs c room full = elim (Bool-cases (leb (length bs + length p) c)) [
  | inr over ↦ rw over
  | inl fits ↦
      let room' : length bs + length p ≤ c = ground arith in
      rw fits (
        put_all_overflows parts k (bs ++ p) c (omega (arith, length-append bs p))
          (omega (arith, length-append bs p)))
]

abbrev finish : ByteBuffer → Option (List ℕ)
finish buf = some (array buf)

-- No array has 2^31 bytes.
abbrev pub bounded : List ℕ → Option (List ℕ)
bounded bytes = if ltb (length bytes) (2 ^ 31) then some bytes else none

-- A buffer whose capacity is the sum of the lengths in 32-bit arithmetic.
message-flat :
    (parts : List (List ℕ)) (c : ℕ)
    → c ≡ total parts % 2 ^ 32
    → (allocate c >>= put_all parts finish) ≡ bounded (flat parts)
unfolding allocate
message-flat parts c sum = elim (Bool-cases (ltb (total parts) (2 ^ 31))) [
  | inl small ↦
      let same : c ≡ total parts = ground arith in
      rw
        (
          same,
          length-flat parts,
          small,
          put_all-flat parts finish [] (total parts) (omega arith),
          length-flat parts,
        )
        (ap some (
          ap (λ n. flat parts ++ replicate n 0) (omega arith)
          ∙ ap (λ l. flat parts ++ l) (replicate_zero 0)
          ∙ append-nil (flat parts)))
  | inr big ↦
      rw (length-flat parts, big)
        (elim (Bool-cases (ltb c (2 ^ 31))) [
          | inr negative ↦ rw negative
          | inl positive ↦
              rw (positive, put_all_overflows parts finish [] c (omega arith) (ground arith))
        ])
]

two :
    (a b : List ℕ) (k : ByteBuffer → Option (List ℕ)) (buf : ByteBuffer)
    → ((put a buf >>= put b) >>= k) ≡ put_all (a ∷ b ∷ []) k buf
unfolding put_all
two a b k buf = >>=-assoc (put a buf) (put b) k

three :
    (a b c : List ℕ) (k : ByteBuffer → Option (List ℕ)) (buf : ByteBuffer)
    → (((put a buf >>= put b) >>= put c) >>= k) ≡ put_all (a ∷ b ∷ c ∷ []) k buf
unfolding put_all
three a b c k buf = >>=-assoc (put a buf >>= put b) (put c) k ∙ two a b (λ x. put c x >>= k) buf

module _ (body auth : List ℕ) where
  abbrev pub v1_parts : List (List ℕ)
  v1_parts = be_bytes 4 (length body) ∷ body ∷ be_bytes 4 (length auth) ∷ auth ∷ []

  pub flat-v1_parts : flat v1_parts ≡ v1_layout body auth
  unfolding v1_layout
  flat-v1_parts = rw (append-nil auth)

  put_v1 : ByteBuffer → Option (List ℕ)
  put_v1 buf = (put_int (length body) buf >>= put body) >>= λ buf'.
      (put_int (length auth) buf' >>= put auth) >>= finish

  put_v1-parts : (buf : ByteBuffer) → put_v1 buf ≡ put_all v1_parts finish buf
  unfolding put_v1 put_all
  put_v1-parts buf =
      two (be_bytes 4 (length body)) body _ buf
      ∙ ap (λ f. put_all (be_bytes 4 (length body) ∷ body ∷ []) f buf)
          (fun_ext λ buf'. two (be_bytes 4 (length auth)) auth finish buf')

  total_v1 : total v1_parts ≡ 8 + length body + length auth
  total_v1 = omega (arith, length-be_bytes 4 (length body), length-be_bytes 4 (length auth))

  -- The v1 builder of Pqc.java on two arrays.
  pub java_v1-bounded :
      Java.hybrid_sign_bytes_v1 (some body) (some auth) ≡ bounded (v1_layout body auth)
  unfolding Java.hybrid_sign_bytes_v1 put_v1
  java_v1-bounded =
      ap (λ f. allocate (int (int (8 + length body) + length auth)) >>= f) (fun_ext put_v1-parts)
      ∙ message-flat v1_parts (int (int (8 + length body) + length auth)) (omega (arith, total_v1))
      ∙ ap bounded flat-v1_parts

  module _ (cid : List ℕ) where
    abbrev pub v2_parts : List (List ℕ)
    v2_parts = hybrid_sign_bytes_domain ∷ be_bytes 8 (length cid) ∷ cid ∷ v1_parts

    pub flat-v2_parts : flat v2_parts ≡ v2_layout cid body auth
    unfolding v2_layout
    flat-v2_parts = rw flat-v1_parts

    total_v2 : total v2_parts ≡ 39 + length cid + length body + length auth
    total_v2 = omega (arith, total_v1, length-be_bytes 8 (length cid))

    java_v2_parts :
        (buf : ByteBuffer)
        → (((put hybrid_sign_bytes_domain buf >>= put_long (length cid)) >>= put cid) >>= put_v1)
          ≡ put_all v2_parts finish buf
    unfolding put_all
    java_v2_parts buf =
        three hybrid_sign_bytes_domain (be_bytes 8 (length cid)) cid put_v1 buf
        ∙ ap (λ f. put_all (hybrid_sign_bytes_domain ∷ be_bytes 8 (length cid) ∷ cid ∷ []) f buf)
            (fun_ext put_v1-parts)

    -- The v2 builder of Pqc.java on three references that are not null.
    pub java_v2-bounded :
        (length cid == 0) ≡ false
        → Java.hybrid_sign_bytes_v2 (some cid) (some body) (some auth)
          ≡ bounded (v2_layout cid body auth)
    unfolding Java.hybrid_sign_bytes_v2 put_v1
    java_v2-bounded given = rw given (
        ap
          (λ f.
            allocate (int (int (int (int (int 31 + length cid) + 8) + length body) + length auth))
            >>= f)
          (fun_ext java_v2_parts)
        ∙ message-flat v2_parts _ (omega (arith, total_v2))
        ∙ ap bounded flat-v2_parts)
