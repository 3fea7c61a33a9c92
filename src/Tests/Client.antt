-- ===== src/Tests/Client.antt =====
-- The theorem on programs, applied to a program that signs after it has built sign-bytes.
use qorechain_pqc.Base.{replicate, ℕ, ◌≡◌, ◌⊎◌, refl, some, none, List, [], ◌∷◌, arith}
use qorechain_pqc.Machine.{malloc, store, memcpy, World, Run, done, fault, deadlock}
use qorechain_pqc.Machine.Ends.{Ends}
use qorechain_pqc.SignBytes.{sign_bytes_v1, hybrid_sign_bytes, hybrid_sign_bytes_v1}
use qorechain_pqc.Codec.{be32}
use qorechain_pqc.Client.{
  Operation, sign, sign_bytes, perform, Valid, Unhashed, here, next, Readable,
}
use qorechain_pqc.Client.Typed.{all_bytes-AllBytes}
use qorechain_pqc.Client.Preserves.{Sane}
use qorechain_pqc.Client.Safe.{perform-Sane}
use qorechain_pqc.Tests.Fixtures.{
  start, no_out, alg, toy_oqs, toy_evp, toy_shake, sig_laws, kem_laws, sig_bytes, kem_bytes,
  toy_cleanse, toy_xof, toy-XofBytes,
}

abbrev key : List ℕ
key = 1 ∷ 2 ∷ 3 ∷ []

abbrev body : List ℕ
body = 4 ∷ 5 ∷ []

key-Readable : Readable (some key) 3
key-Readable = (key, (omega arith, refl), all_bytes-AllBytes key refl)

body-Readable : Readable (some body) 2
body-Readable = (body, (omega arith, refl), all_bytes-AllBytes body refl)

abbrev build : Operation
build = sign_bytes sign_bytes_v1 none 0 (some body) 2 (some key) 3 no_out

abbrev sign_body : Operation
sign_body = sign alg (some key) 3 (some body) 2 no_out

-- Where a run ended.
abbrev ended : Run (Unit {0}) → World
ended (done _ w) = w
ended fault = start
ended deadlock = start

abbrev built_world : World
built_world = ended (perform toy_oqs toy_evp build start)

start-Sane : Sane start
start-Sane = record { held = refl; rng = refl; typed = λ p. tt }

build-Valid : Valid toy_oqs start build
build-Valid = ((([], (refl, refl), tt)), body-Readable, key-Readable, omega arith)

build_done : perform toy_oqs toy_evp build start ≡ done tt built_world
unfolding perform hybrid_sign_bytes hybrid_sign_bytes_v1 malloc be32 store replicate memcpy
build_done = refl

perform-Sane_example :
    (Unhashed toy_evp built_world sign_body
      × (perform toy_oqs toy_evp sign_body built_world ≡ fault))
    ⊎ Ends
        (λ _ v. Sane v × (v.handles ≡ start.handles))
        (perform toy_oqs toy_evp sign_body built_world)
perform-Sane_example =
    perform-Sane toy_oqs toy_evp toy_shake sig_laws sig_bytes kem_laws kem_bytes toy_cleanse toy_xof
      toy-XofBytes start built_world sign_body start-Sane (next build here build-Valid build_done)
      (key-Readable, body-Readable)
