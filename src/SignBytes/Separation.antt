-- ===== src/SignBytes/Separation.antt =====
-- Which calls of the builders can give the same bytes.
use qorechain_pqc.Base.{
  ℕ, ◌+◌, ◌%◌, ◌^◌, ◌<◌, ◌≡◌, ap, sym, ◌∙◌, false, ◌||◌, Option, some, List, ◌∷◌, map, arith, ◌==◌,
  length, Text,
}
use qorechain_pqc.Machine.{ConstPtr, World, Cell}
use qorechain_pqc.Machine.Args.{Holds, length-Holds}
use qorechain_pqc.Codec.BigEndian.{be_bytes}
use qorechain_pqc.SignBytes.{Out, hybrid_sign_bytes_v1, hybrid_sign_bytes_v2, is_null}
use qorechain_pqc.SignBytes.Layout.{v1_layout, v2_layout}
use qorechain_pqc.SignBytes.Parse.{parse_v1, parse_v2, parse_v1-v1_layout, parse_v2-v2_layout}
use qorechain_pqc.SignBytes.Produced.{produced, map-some_inj, produced_v1, produced_v2}

same_bytes :
    (xs ys : List ℕ)
    → ◌≡◌ {A = Option (List Cell)} (some (map some xs)) (some (map some ys))
    → xs ≡ ys
same_bytes xs ys h = map-some_inj xs ys (cc)

v1_layout_inj :
    (b0 auth b0' auth' : List ℕ)
    → length b0 < 2 ^ 32
    → length auth < 2 ^ 32
    → length b0' < 2 ^ 32
    → length auth' < 2 ^ 32
    → v1_layout b0 auth ≡ v1_layout b0' auth'
    → (b0 ≡ b0') × (auth ≡ auth')
v1_layout_inj b0 auth b0' auth' h h' k k' e =
    ground
      (arith, parse_v1-v1_layout b0 auth h h', parse_v1-v1_layout b0' auth' k k', ap parse_v1 e)

v2_layout_inj :
    (c c' : Text) (b0 auth b0' auth' : List ℕ)
    → length c < 2 ^ 64
    → length b0 < 2 ^ 32
    → length auth < 2 ^ 32
    → length c' < 2 ^ 64
    → length b0' < 2 ^ 32
    → length auth' < 2 ^ 32
    → v2_layout c b0 auth ≡ v2_layout c' b0' auth'
    → (c ≡ c') × (b0 ≡ b0') × (auth ≡ auth')
v2_layout_inj c c' b0 auth b0' auth' hc h h' kc k k' e = ground (
  arith,
  parse_v2-v2_layout c b0 auth hc h h',
  parse_v2-v2_layout c' b0' auth' kc k k',
  ap parse_v2 e,
)

-- "qore" as a number, 1903129189
abbrev pub qore : ℕ
qore = 0x716f7265

first_four :
    {a b c d a' b' c' d' : ℕ} {r r' : List ℕ}
    → a ∷ b ∷ c ∷ d ∷ r ≡ a' ∷ b' ∷ c' ∷ d' ∷ r'
    → (a ≡ a') × (b ≡ b') × (c ≡ c') × (d ≡ d')
first_four h = ground arith

layouts_meet :
    (b0 auth c b0' auth' : List ℕ)
    → v1_layout b0 auth ≡ v2_layout c b0' auth'
    → length b0 % 2 ^ 32 ≡ qore
unfolding v1_layout v2_layout be_bytes
layouts_meet b0 auth c b0' auth' e = omega (arith, first_four e)

module _ (b0 auth b0' auth' : ConstPtr) (m n m' n' : ℕ) (xs ys xs' ys' : List ℕ)
    (hx : Holds b0 m xs) (hy : Holds auth n ys) (hx' : Holds b0' m' xs') (hy' : Holds auth' n' ys')
    (out out' : Out) (w w' : World) (grant : w.refuse w.calls ≡ false)
    (grant' : w'.refuse w'.calls ≡ false) where
  -- Two successful calls of the v1 builder, on byte strings of less than 2^32 bytes each, fill their
  -- buffers with the same bytes only if they got the same b0 and the same auth. Arguments may be
  -- read.
  hybrid_sign_bytes_v1_inj :
      m < 2 ^ 32
      → n < 2 ^ 32
      → m' < 2 ^ 32
      → n' < 2 ^ 32
      → produced (hybrid_sign_bytes_v1 b0 m auth n out w)
        ≡ produced (hybrid_sign_bytes_v1 b0' m' auth' n' out' w')
      → (xs ≡ xs') × (ys ≡ ys')
  hybrid_sign_bytes_v1_inj h k h' k' e =
      v1_layout_inj xs ys xs' ys' (omega (arith, length-Holds b0 m xs hx))
        (omega (arith, length-Holds auth n ys hy)) (omega (arith, length-Holds b0' m' xs' hx'))
        (omega (arith, length-Holds auth' n' ys' hy'))
        (same_bytes (v1_layout xs ys) (v1_layout xs' ys') (
          sym (produced_v1 b0 auth m n xs ys hx hy out w (omega arith) grant)
          ∙ e
          ∙ produced_v1 b0' auth' m' n' xs' ys' hx' hy' out' w' (omega arith) grant'))

  module _ (ident ident' : ConstPtr) (l l' : ℕ) (cs cs' : List ℕ) (hc : Holds ident l cs)
      (hc' : Holds ident' l' cs') (given : (is_null ident || l == 0) ≡ false)
      (given' : (is_null ident' || l' == 0) ≡ false) where
    -- Two successful calls of the v2 builder, with chain-ids of less than 2^63 bytes and byte strings
    -- of less than 2^32 bytes each, fill their buffers with the same bytes only if they got the same
    -- chain-id, the same b0 and the same auth: v2 sign-bytes are bound to one network. Arguments
    -- may be read.
    pub hybrid_sign_bytes_v2_inj :
        l < 2 ^ 63
        → l' < 2 ^ 63
        → m < 2 ^ 32
        → n < 2 ^ 32
        → m' < 2 ^ 32
        → n' < 2 ^ 32
        → produced (hybrid_sign_bytes_v2 ident l b0 m auth n out w)
          ≡ produced (hybrid_sign_bytes_v2 ident' l' b0' m' auth' n' out' w')
        → (cs ≡ cs') × (xs ≡ xs') × (ys ≡ ys')
    hybrid_sign_bytes_v2_inj hl hl' h k h' k' e =
        v2_layout_inj cs cs' xs ys xs' ys' (omega (arith, length-Holds ident l cs hc))
          (omega (arith, length-Holds b0 m xs hx)) (omega (arith, length-Holds auth n ys hy))
          (omega (arith, length-Holds ident' l' cs' hc'))
          (omega (arith, length-Holds b0' m' xs' hx'))
          (omega (arith, length-Holds auth' n' ys' hy'))
          (same_bytes (v2_layout cs xs ys) (v2_layout cs' xs' ys') (
            sym (produced_v2 ident b0 auth l m n cs xs ys hc hx hy out w (omega arith) given grant)
            ∙ e
            ∙ produced_v2 ident' b0' auth' l' m' n' cs' xs' ys' hc' hx' hy' out' w' (omega arith)
                given' grant'))

  module _ (ident : ConstPtr) (l : ℕ) (cs : List ℕ) (hc : Holds ident l cs)
      (given : (is_null ident || l == 0) ≡ false) where
    -- A successful v1 call and a successful v2 call fill their buffers with the same bytes only if
    -- the length of the v1 body, modulo 2^32, is 0x716f7265 (1903129189), the letters "qore" that the
    -- v2 domain starts with. Arguments may be read, and each sum of lengths fits a `size_t`.
    pub v1-meets-v2 :
        8 + m + n < 2 ^ 64
        → 39 + l + m' + n' < 2 ^ 64
        → produced (hybrid_sign_bytes_v1 b0 m auth n out w)
          ≡ produced (hybrid_sign_bytes_v2 ident l b0' m' auth' n' out' w')
        → m % 2 ^ 32 ≡ qore
    v1-meets-v2 fits fits' e = omega (
      arith,
      length-Holds b0 m xs hx,
      layouts_meet xs ys cs xs' ys' (
          same_bytes (v1_layout xs ys) (v2_layout cs xs' ys') (
            sym (produced_v1 b0 auth m n xs ys hx hy out w fits grant)
            ∙ e
            ∙ produced_v2 ident b0' auth' l m' n' cs xs' ys' hc hx' hy' out' w' fits' given
                grant')),
    )
