-- ===== src/Tests/Primitives.antt =====
-- The theorems on signing, verification, key generation and encapsulation, applied to the stand-in
-- for liboqs.
use qorechain_pqc.Base.{◌≢◌, ℕ, refl, some, List, [], ◌∷◌, arith}
use qorechain_pqc.Machine.{Source}
use qorechain_pqc.Machine.Args.{Holds}
use qorechain_pqc.Machine.Ends.{Ends, Settled}
use qorechain_pqc.Dsa.{KeyOut, mldsa_keygen, mldsa_sign, mldsa_sign_hedged, mldsa_verify}
use qorechain_pqc.Dsa.Signing.{SignPost}
use qorechain_pqc.Dsa.Sign.{zeros, sign_events, mldsa_sign-SignPost}
use qorechain_pqc.Dsa.Hedged.{hedged_events, mldsa_sign_hedged-SignPost}
use qorechain_pqc.Dsa.Deterministic.{Agree, mldsa_sign_deterministic}
use qorechain_pqc.Dsa.Keygen.{KeygenPost, mldsa_keygen-KeygenPost}
use qorechain_pqc.Dsa.Lifecycle.{Serviceable, mldsa_keygen-Serviceable}
use qorechain_pqc.Dsa.RoundTrip.{Accepting, mldsa_verify-mldsa_sign, mldsa_verify-mldsa_sign_hedged}
use qorechain_pqc.Dsa.Verify.{Untouched, Verdict, mldsa_verify-Verdict}
use qorechain_pqc.Kem.{EncapsOut, mlkem_decapsulate, mlkem_encapsulate}
use qorechain_pqc.Kem.Decaps.{Decapsulated, mlkem_decapsulate-Decapsulated}
use qorechain_pqc.Kem.Encaps.{EncapsPost, mlkem_encapsulate-EncapsPost}
use qorechain_pqc.Kem.RoundTrip.{Shared, mlkem_decapsulate-mlkem_encapsulate}
use qorechain_pqc.Tests.Fixtures.{
  toy_sig-Correct, toy_kem-Matched, start, later, no_out, alg, kem_alg, room, with_room, with_rooms,
  toy_sig, toy_kem, toy_oqs, sig_laws, kem_laws, has_room,
}

abbrev key : List ℕ
key = 1 ∷ 2 ∷ 3 ∷ []

abbrev pair : List ℕ
pair = 4 ∷ 5 ∷ []

key-Holds : Holds (some key) 3 key
key-Holds = (omega arith, refl)

pair-Holds : Holds (some pair) 2 pair
pair-Holds = (omega arith, refl)

mldsa_sign-SignPost_example :
    Ends
      (SignPost (some toy_sig) 3 zeros sign_events key pair start no_out)
      (mldsa_sign toy_oqs alg (some key) 3 (some pair) 2 no_out start)
mldsa_sign-SignPost_example =
    mldsa_sign-SignPost toy_oqs sig_laws alg (some key) (some pair) 3 2 key pair key-Holds
      pair-Holds no_out start refl refl

mldsa_sign_hedged-SignPost_example :
    Ends
      (SignPost (some toy_sig) 3 (later.entropy 3) hedged_events key pair later no_out)
      (mldsa_sign_hedged toy_oqs alg (some key) 3 (some pair) 2 no_out later)
mldsa_sign_hedged-SignPost_example =
    mldsa_sign_hedged-SignPost toy_oqs sig_laws alg (some key) (some pair) 3 2 key pair key-Holds
      pair-Holds no_out later refl refl

mldsa_sign_deterministic_example :
    Ends
      (λ r v. Ends (Agree r v) (mldsa_sign toy_oqs alg (some key) 3 (some pair) 2 no_out later))
      (mldsa_sign toy_oqs alg (some key) 3 (some pair) 2 no_out start)
mldsa_sign_deterministic_example =
    mldsa_sign_deterministic toy_oqs sig_laws alg (some key) (some pair) 3 2 key pair key-Holds
      pair-Holds (some key) (some pair) key-Holds pair-Holds no_out no_out start later refl refl
      refl refl refl refl refl refl

abbrev no_keys : KeyOut
no_keys = record { pk = 0; pk_len = 0; sk = 0; sk_len = 0 }

mldsa_keygen-KeygenPost_example :
    Ends (KeygenPost (some toy_sig) later no_keys) (mldsa_keygen toy_oqs alg no_keys later)
mldsa_keygen-KeygenPost_example =
    mldsa_keygen-KeygenPost toy_oqs sig_laws alg no_keys later refl refl

mldsa_verify-Verdict_example :
    Ends
      (λ rc v. Untouched start v × Verdict (some toy_sig) 2 key pair pair start rc)
      (mldsa_verify toy_oqs alg (some pair) 2 (some key) 3 (some pair) 2 start)
mldsa_verify-Verdict_example =
    mldsa_verify-Verdict toy_oqs alg (some pair) (some key) (some pair) 2 3 2 pair key pair
      pair-Holds key-Holds pair-Holds start

mlkem_decapsulate-Decapsulated_example :
    Ends
      (λ r v.
        Settled with_room v × Decapsulated (some toy_kem) 2 2 pair pair 1 room 0 with_room r v)
      (mlkem_decapsulate toy_oqs kem_alg (some pair) 2 (some pair) 2 1 0 with_room)
mlkem_decapsulate-Decapsulated_example =
    mlkem_decapsulate-Decapsulated toy_oqs kem_laws kem_alg (some pair) (some pair) 2 2 pair pair
      pair-Holds pair-Holds 1 0 room with_room refl (has_room kem_alg)

abbrev no_ciphertext : EncapsOut
no_ciphertext = record { ct = 0; ct_len = 0; ss_len = 0 }

mlkem_encapsulate-EncapsPost_example :
    Ends
      (EncapsPost (some toy_kem) 2 pair 1 room with_room no_ciphertext)
      (mlkem_encapsulate toy_oqs kem_alg (some pair) 2 1 no_ciphertext with_room)
mlkem_encapsulate-EncapsPost_example =
    mlkem_encapsulate-EncapsPost toy_oqs kem_laws kem_alg (some pair) 2 pair pair-Holds 1 room
      no_ciphertext with_room refl (omega arith) (has_room kem_alg) refl refl

-- The key pair that the toy makes of zeros.
abbrev made_pk : List ℕ
made_pk = 0 ∷ 5 ∷ []

abbrev made_sk : List ℕ
made_sk = 0 ∷ 5 ∷ 6 ∷ []

abbrev plain : Source
plain i n = 0 ∷ []

mldsa_verify-mldsa_sign_example :
    Ends
      (Accepting toy_oqs alg (some pair) 2 made_pk 2 (toy_sig.sign zeros pair made_sk) later)
      (mldsa_sign toy_oqs alg (some made_sk) 3 (some pair) 2 no_out later)
mldsa_verify-mldsa_sign_example =
    mldsa_verify-mldsa_sign toy_oqs sig_laws alg toy_sig refl toy_sig-Correct plain refl (some pair)
      2 pair pair-Holds no_out later refl refl

mldsa_verify-mldsa_sign_hedged_example :
    Ends
      (Accepting toy_oqs alg
        (some pair)
        2
        made_pk
        2
        (toy_sig.sign (later.entropy 3) pair made_sk)
        later)
      (mldsa_sign_hedged toy_oqs alg (some made_sk) 3 (some pair) 2 no_out later)
mldsa_verify-mldsa_sign_hedged_example =
    mldsa_verify-mldsa_sign_hedged toy_oqs sig_laws alg toy_sig refl toy_sig-Correct plain refl
      (some pair) 2 pair pair-Holds no_out later refl refl

mldsa_keygen-Serviceable_example :
    Ends
      (Serviceable toy_oqs sig_laws alg toy_sig refl toy_sig-Correct
        (some pair)
        2
        pair
        pair-Holds
        no_out
        (later.entropy 3)
        later)
      (mldsa_keygen toy_oqs alg no_keys later)
mldsa_keygen-Serviceable_example =
    mldsa_keygen-Serviceable toy_oqs sig_laws alg toy_sig refl toy_sig-Correct (some pair) 2 pair
      pair-Holds no_out no_keys later refl refl

apart : ◌≢◌ {A = ℕ} 2 1
apart e = absurd (omega arith)

mlkem_decapsulate-mlkem_encapsulate_example :
    Ends
      (Shared toy_oqs kem_laws kem_alg toy_kem refl pair pair
        (toy_kem-Matched pair pair)
        refl
        refl
        1
        2
        0
        room
        room
        with_rooms
        refl
        refl
        (omega arith)
        (omega arith)
        apart
        (omega arith)
        (omega arith))
      (mlkem_encapsulate toy_oqs kem_alg (some pair) 2 1 no_ciphertext with_rooms)
mlkem_decapsulate-mlkem_encapsulate_example =
    mlkem_decapsulate-mlkem_encapsulate toy_oqs kem_laws kem_alg toy_kem refl pair pair
      (toy_kem-Matched pair pair) refl refl 1 2 0 room room with_rooms refl refl (omega arith)
      (omega arith) apart (omega arith) (omega arith) no_ciphertext refl refl
