-- ===== src/Tests/Vectors.antt =====
-- The sign-bytes and versions that c/test_vectors.c expects, computed by the model: the short entries
-- of vectors/signbytes-kat-v3.1.98.flat.txt, the v1 example and the truth tables.
use Prim.Native.Char.{code}
use Prim.Native.String.{String}
use qorechain_pqc.Base.{
  ℕ, ◌+◌, ◌-◌, ◌*◌, ◌≡◌, refl, ltb, pos, none, some, Option, List, [], ◌∷◌, map, if◌then◌else◌,
  length, codes, strcmp, replicate, Text,
}
use qorechain_pqc.Machine.{Cell, malloc, store, read, memcpy}
use qorechain_pqc.Codec.{be32, be64}
use qorechain_pqc.SignBytes.{
  sign_bytes_v1, sign_bytes_v2, hybrid_sign_bytes_v1, hybrid_sign_bytes_v2, hybrid_sign_bytes,
}
use qorechain_pqc.SignBytes.Produced.{produced}
use qorechain_pqc.Upgrades.{version_for, version_for_applied}
use qorechain_pqc.Tests.Fixtures.{start, no_out}

abbrev digit : ℕ → ℕ
digit c = if ltb c 58 then c - 48 else c - 87

-- What `unhex` reads.
abbrev unhex : String → List ℕ
unhex String.[] = []
unhex (String.◌∷◌ c String.[]) = []
unhex (String.◌∷◌ c (String.◌∷◌ d s)) = (16 * digit (code c) + digit (code d)) ∷ unhex s

-- The dispatcher on a v2 entry: chain-id, b0, auth.
abbrev run_v2 : List ℕ → List ℕ → List ℕ → Option (List Cell)
run_v2 cid b0 auth = produced (
    hybrid_sign_bytes sign_bytes_v2 (some cid) (length cid) (some b0) (length b0) (some auth)
      (length auth) no_out start)

abbrev shows : List ℕ → Option (List Cell)
shows bytes = some (map some bytes)

empty_both :
    run_v2 (unhex "716f7265636861696e2d766c616469") (unhex "") (unhex "")
    ≡ shows (
        unhex
          "716f7265636861696e2d7071632d6879627269642d7632000000000000000f716f7265636861696e2d766c6164690000000000000000")
unfolding produced hybrid_sign_bytes hybrid_sign_bytes_v1 hybrid_sign_bytes_v2 malloc store read
    memcpy be32 be64 replicate
empty_both = refl

short :
    run_v2 (unhex "716f7265636861696e2d766c616469") (unhex "0a0102") (unhex "12030405")
    ≡ shows (
        unhex
          "716f7265636861696e2d7071632d6879627269642d7632000000000000000f716f7265636861696e2d766c616469000000030a01020000000412030405")
unfolding produced hybrid_sign_bytes hybrid_sign_bytes_v1 hybrid_sign_bytes_v2 malloc store read
    memcpy be32 be64 replicate
short = refl

testnet_chain :
    run_v2
      (unhex "716f7265636861696e2d6469616e61")
      (unhex "626f64792d62797465732d776974686f75742d7071632d657874656e73696f6e")
      (unhex "617574682d696e666f2d6279746573")
    ≡ shows (
        unhex
          "716f7265636861696e2d7071632d6879627269642d7632000000000000000f716f7265636861696e2d6469616e6100000020626f64792d62797465732d776974686f75742d7071632d657874656e73696f6e0000000f617574682d696e666f2d6279746573")
unfolding produced hybrid_sign_bytes hybrid_sign_bytes_v1 hybrid_sign_bytes_v2 malloc store read
    memcpy be32 be64 replicate
testnet_chain = refl

unicode_chain :
    run_v2 (unhex "716f72652dc483c3a9") (unhex "ff007f") (unhex "00")
    ≡ shows (
        unhex
          "716f7265636861696e2d7071632d6879627269642d76320000000000000009716f72652dc483c3a900000003ff007f0000000100")
unfolding produced hybrid_sign_bytes hybrid_sign_bytes_v1 hybrid_sign_bytes_v2 malloc store read
    memcpy be32 be64 replicate
unicode_chain = refl

v1_sample :
    produced (
      hybrid_sign_bytes sign_bytes_v1 none 0
        (some (1 ∷ 2 ∷ 3 ∷ []))
        3
        (some (9 ∷ 9 ∷ []))
        2
        no_out
        start)
    ≡ shows (0 ∷ 0 ∷ 0 ∷ 3 ∷ 1 ∷ 2 ∷ 3 ∷ 0 ∷ 0 ∷ 0 ∷ 2 ∷ 9 ∷ 9 ∷ [])
unfolding produced hybrid_sign_bytes hybrid_sign_bytes_v1 hybrid_sign_bytes_v2 malloc store read
    memcpy be32 be64 replicate
v1_sample = refl

abbrev vladi : Text
vladi = codes "qorechain-vladi"

old_network : version_for (some vladi) (pos 0) ≡ sign_bytes_v1
unfolding version_for strcmp
old_network = refl

switched : version_for (some vladi) (pos 5746000) ≡ sign_bytes_v2
unfolding version_for strcmp
switched = refl

other_network : version_for (some (codes "qorechain-other")) (pos 0) ≡ sign_bytes_v2
unfolding version_for strcmp
other_network = refl

old_name :
    version_for_applied
      (some vladi)
      (some (some (codes "v3.1.98") ∷ []))
      (some (pos 5746000 ∷ []))
      1
    ≡ some sign_bytes_v2
unfolding version_for_applied strcmp
old_name = refl

unknown_names :
    version_for_applied
      (some vladi)
      (some (some (codes "v9.9.9") ∷ none ∷ []))
      (some (pos 100 ∷ pos 100 ∷ []))
      2
    ≡ some sign_bytes_v1
unfolding version_for_applied strcmp
unknown_names = refl
