-- ===== src/Tests/SignBytes.antt =====
-- The theorems on the sign-bytes, applied to small byte strings.
use qorechain_pqc.Base.{
  ℕ, ◌-◌, ◌^◌, ◌≡◌, ◌≢◌, refl, sym, none, some, List, [], ◌∷◌, ◌++◌, map, arith, length, replicate,
  Text, codes, ◌%◌, ◌∙◌, ap, append_assoc, take_all, length-append, length-replicate,
}
use qorechain_pqc.Machine.Args.{Holds}
use qorechain_pqc.Codec.BigEndian.{be_bytes, length-be_bytes}
use qorechain_pqc.SignBytes.{
  hybrid_sign_bytes_v1, hybrid_sign_bytes_v2, hybrid_sign_bytes, sign_bytes_v2,
}
use qorechain_pqc.SignBytes.Layout.{v1_layout, v2_layout}
use qorechain_pqc.SignBytes.Form.{answer, sign_bytes_form, hybrid_sign_bytes-form}
use qorechain_pqc.SignBytes.Parse.{parse_v1, parse_v2}
use qorechain_pqc.SignBytes.Produced.{produced, produced_v1, produced_v2}
use qorechain_pqc.SignBytes.ReadBack.{parse-hybrid_sign_bytes_v1, parse-hybrid_sign_bytes_v2}
use qorechain_pqc.SignBytes.Separation.{hybrid_sign_bytes_v2_inj, v1-meets-v2, qore}
use qorechain_pqc.SignBytes.Truncation.{hybrid_sign_bytes_v1_collides, long_b0, long_auth}
use qorechain_pqc.Tests.Fixtures.{start, later, no_out}

abbrev body : List ℕ
body = 1 ∷ 2 ∷ 3 ∷ []

abbrev auth : List ℕ
auth = 4 ∷ 5 ∷ []

abbrev chain : Text
chain = codes "qorechain-diana"

body-Holds : Holds (some body) 3 body
body-Holds = (omega arith, refl)

auth-Holds : Holds (some auth) 2 auth
auth-Holds = (omega arith, refl)

chain-Holds : Holds (some chain) 15 chain
chain-Holds = (omega arith, refl)

hybrid_sign_bytes-form_example :
    hybrid_sign_bytes sign_bytes_v2 (some chain) 15 (some body) 3 (some auth) 2 no_out start
    ≡ answer start no_out (sign_bytes_form sign_bytes_v2 chain body auth)
hybrid_sign_bytes-form_example =
    hybrid_sign_bytes-form sign_bytes_v2 (some chain) (some body) (some auth) 15 3 2 chain body auth
      chain-Holds body-Holds auth-Holds no_out start (omega arith)

parse-hybrid_sign_bytes_v1_example :
    (bytes : List ℕ) × (produced (hybrid_sign_bytes_v1 (some body) 3 (some auth) 2 no_out start)
      ≡ some (map some bytes))
    × (parse_v1 bytes ≡ some (body, auth))
parse-hybrid_sign_bytes_v1_example =
    parse-hybrid_sign_bytes_v1 (some body) (some auth) 3 2 body auth body-Holds auth-Holds no_out
      start refl (omega arith) (omega arith)

parse-hybrid_sign_bytes_v2_example :
    (bytes : List ℕ) × (produced
        (hybrid_sign_bytes_v2 (some chain) 15 (some body) 3 (some auth) 2 no_out start)
      ≡ some (map some bytes))
    × (parse_v2 bytes ≡ some (chain, body, auth))
parse-hybrid_sign_bytes_v2_example =
    parse-hybrid_sign_bytes_v2 (some body) (some auth) 3 2 body auth body-Holds auth-Holds no_out
      start refl (omega arith) (omega arith) (some chain) 15 chain chain-Holds refl (omega arith)

-- A longer buffer, of which the call reads three bytes.
abbrev longer : List ℕ
longer = 1 ∷ 2 ∷ 3 ∷ 9 ∷ []

longer-Holds : Holds (some longer) 3 body
longer-Holds = (omega arith, refl)

same_v2 :
    produced (hybrid_sign_bytes_v2 (some chain) 15 (some body) 3 (some auth) 2 no_out start)
    ≡ produced (hybrid_sign_bytes_v2 (some chain) 15 (some longer) 3 (some auth) 2 no_out later)
same_v2 =
    produced_v2 (some chain) (some body) (some auth) 15 3 2 chain body auth chain-Holds body-Holds
      auth-Holds no_out start (omega arith) refl refl
    ∙ sym (
        produced_v2 (some chain) (some longer) (some auth) 15 3 2 chain body auth chain-Holds
          longer-Holds auth-Holds no_out later (omega arith) refl refl)

hybrid_sign_bytes_v2_inj_example : (chain ≡ chain) × (body ≡ body) × (auth ≡ auth)
hybrid_sign_bytes_v2_inj_example =
    hybrid_sign_bytes_v2_inj (some body) (some auth) (some longer) (some auth) 3 2 3 2 body auth
      body auth body-Holds auth-Holds longer-Holds auth-Holds no_out no_out start later refl refl
      (some chain) (some chain) 15 15 chain chain chain-Holds chain-Holds refl refl (omega arith)
      (omega arith) (omega arith) (omega arith) (omega arith) (omega arith) same_v2

-- A v2 message with an empty auth is a v1 message, if its b0 makes up the length.
abbrev filler : List ℕ
filler = replicate (qore - 32) 0

abbrev short_chain : Text
short_chain = 97 ∷ []

abbrev rest : List ℕ
rest =
    codes "chain-pqc-hybrid-v2"
    ++ (be_bytes 8 1 ++ (short_chain ++ (be_bytes 4 (length filler) ++ filler)))

short_chain-Holds : Holds (some short_chain) 1 short_chain
short_chain-Holds = (omega arith, refl)

nothing-Holds : Holds none 0 []
nothing-Holds = (refl, refl)

length-filler : length filler ≡ qore - 32
length-filler = length-replicate (qore - 32) 0

length-rest : length rest ≡ qore
length-rest = omega (
  arith,
  length-append (codes "chain-pqc-hybrid-v2")
      (be_bytes 8 1 ++ (short_chain ++ (be_bytes 4 (length filler) ++ filler))),
  length-append (be_bytes 8 1) (short_chain ++ (be_bytes 4 (length filler) ++ filler)),
  length-append (be_bytes 4 (length filler)) filler,
  length-be_bytes 8 1,
  length-be_bytes 4 (length filler),
  length-filler,
)

be_bytes-qore : be_bytes 4 qore ≡ codes "qore"
unfolding be_bytes
be_bytes-qore = refl

layouts_agree : v1_layout rest [] ≡ v2_layout short_chain filler []
unfolding v1_layout v2_layout
layouts_agree = rw (
  length-rest,
  be_bytes-qore,
  append_assoc (be_bytes 8 1) (short_chain ++ (be_bytes 4 (length filler) ++ filler))
      (be_bytes 4 0 ++ []),
  append_assoc (be_bytes 4 (length filler)) filler (be_bytes 4 0 ++ []),
)

rest-Holds : Holds (some rest) qore rest
rest-Holds = (omega (arith, length-rest), sym (take_all qore rest (omega (arith, length-rest))))

filler-Holds : Holds (some filler) (qore - 32) filler
filler-Holds =
    (omega (arith, length-filler), sym (take_all (qore - 32) filler (omega (arith, length-filler))))

same_forms :
    produced (hybrid_sign_bytes_v1 (some rest) qore none 0 no_out start)
    ≡ produced
        (hybrid_sign_bytes_v2 (some short_chain) 1 (some filler) (qore - 32) none 0 no_out start)
same_forms =
    produced_v1 (some rest) none qore 0 rest [] rest-Holds nothing-Holds no_out start (omega arith)
      refl
    ∙ ap (λ bytes. some (map some bytes)) layouts_agree
    ∙ sym (
        produced_v2 (some short_chain) (some filler) none 1 (qore - 32) 0 short_chain filler []
          short_chain-Holds filler-Holds nothing-Holds no_out start (omega arith) refl refl)

v1-meets-v2_example : qore % 2 ^ 32 ≡ qore
v1-meets-v2_example =
    v1-meets-v2 (some rest) none (some filler) none qore 0 (qore - 32) 0 rest [] filler []
      rest-Holds nothing-Holds filler-Holds nothing-Holds no_out no_out start start refl refl
      (some short_chain) 1 short_chain short_chain-Holds refl (omega arith) (omega arith) same_forms

-- 2^32 - 4 zeros
abbrev zeros : List ℕ
zeros = replicate (2 ^ 32 - 4) 0

length-zeros : length zeros ≡ 2 ^ 32 - 4
length-zeros = length-replicate (2 ^ 32 - 4) 0

abbrev giant_b0 : List ℕ
giant_b0 = long_b0 auth zeros length-zeros

abbrev giant_auth : List ℕ
giant_auth = long_auth auth zeros length-zeros

hybrid_sign_bytes_v1_collides_example :
    (produced (hybrid_sign_bytes_v1 (some giant_b0) (length giant_b0) (some auth) 2 no_out start)
      ≡ some (map some (v1_layout [] giant_auth)))
    × (produced
          (hybrid_sign_bytes_v1 (some []) 0 (some giant_auth) (length giant_auth) no_out later)
        ≡ some (map some (v1_layout [] giant_auth)))
    × (giant_b0 ≢ [])
hybrid_sign_bytes_v1_collides_example =
    hybrid_sign_bytes_v1_collides auth zeros length-zeros no_out no_out start later (omega arith)
      refl refl
