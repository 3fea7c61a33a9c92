-- ===== src/Tests/Kems.antt =====
-- The theorems on encapsulation and decapsulation in the bindings, applied to small libraries.
use mathlib.Core.Path.{subst}
use qorechain_pqc.Base.{
  ℕ, ◌≡◌, refl, ◌≢◌, true, ◌==◌, Option, none, some, some_inj, List, [], ◌∷◌, ◌>>=◌, arith, length,
  length-replicate, replicate, if◌then◌else◌, Text, strcmp,
}
use qorechain_pqc.Machine.{Source}
use qorechain_pqc.Machine.Ends.{Ends}
use qorechain_pqc.Oqs.{Kem, KemLaws, Oqs}
use qorechain_pqc.Dsa.Sign.{zeros}
use qorechain_pqc.Kem.{mlkem_decapsulate, mlkem_default}
use qorechain_pqc.Bindings.{KemLevel, ml_kem_1024, kem_level_name}
use qorechain_pqc.Bindings.Go.Schemes as Go
use qorechain_pqc.Bindings.Java.Primitives.{BouncyKem, ok, thrown, wrong_length}
use qorechain_pqc.Bindings.Java.Methods as Java
use qorechain_pqc.Bindings.Js.Wrap as Js
use qorechain_pqc.Bindings.Rust.Levels as Rust
use qorechain_pqc.Bindings.Python.Handles.{MlKem, mlkem_handle}
use qorechain_pqc.Bindings.Python.Package as Package
use qorechain_pqc.Bindings.Python.Methods as Python
use qorechain_pqc.Bindings.Python.Draws.{value_of}
use qorechain_pqc.Bindings.Secrets.{kem_sizes, whole_pair, secret_for}
use qorechain_pqc.Bindings.SameSecret.{CSecret, same_secret}
use qorechain_pqc.Bindings.KemGuards.{replaced, java_replaced}
use qorechain_pqc.Bindings.KemGuarded.{kem_guards}
use qorechain_pqc.Tests.Fixtures.{with_room, room, toy_kem, toy_oqs, first_byte}
use qorechain_pqc.Tests.Libraries.{message, pyoqs, py_kem, fresh}

abbrev own_key : List ℕ
own_key = replicate 3168 7

abbrev ciphertext : List ℕ
ciphertext = replicate 1568 4

-- The secret is the first byte of the ciphertext and two more.
abbrev secret : List ℕ → List ℕ
secret ct = first_byte ct ∷ 1 ∷ 2 ∷ []

abbrev noble : Js.NobleKem
noble = record {
  generate_kem = λ r given. some (replicate 1568 0, replicate 3168 0);
  encapsulate_noble = λ r pk. some (replicate 1568 0, secret pk);
  decapsulate_noble = λ c k. some (secret c);
}

abbrev fips203 : Rust.Fips203 (List ℕ) (List ℕ) (List ℕ)
fips203 = record {
  try_keygen_kem = λ r. some (replicate 1568 0, replicate 3168 0);
  encaps_into_bytes = λ ek. ek;
  decaps_into_bytes = λ dk. dk;
  encaps_from_bytes = λ pk. some pk;
  decaps_from_bytes = λ k. some k;
  ciphertext_from_bytes = λ c. some c;
  ciphertext_into_bytes = λ c. c;
  try_encaps = λ r ek. some (secret ek, replicate 1568 0);
  try_decaps = λ dk c. some (secret c);
}

abbrev circl : Go.Kem (List ℕ) (List ℕ)
circl = record {
  generate_key_pair = λ r. some (replicate 1568 0, replicate 3168 0);
  marshal_public = λ pk. pk;
  marshal_private = λ sk. sk;
  unmarshal_public = λ pk. if length pk == 1568 then some pk else none;
  unmarshal_private = λ k. if length k == 3168 then some k else none;
  scheme_encapsulate = λ r pk. some (replicate 1568 0, secret pk);
  scheme_decapsulate = λ k c. if length c == 1568 then some (secret c) else none;
}

abbrev bouncy : BouncyKem (List ℕ) (List ℕ)
bouncy = record {
  generate_kem = λ r level. some (replicate 1568 0, replicate 3168 0);
  kem_public_key = λ level pk. some pk;
  kem_private_key = λ level k. some k;
  kem_public_encoded = λ pk. pk;
  kem_private_encoded = λ sk. sk;
  generate_encapsulated = λ r pk. some (replicate 1568 0, secret pk);
  extract_secret = λ k c. some (secret c);
}

abbrev handle : MlKem
handle = record { alg = mlkem_default; lens = kem_sizes ml_kem_1024 }

handle_known : mlkem_handle (kem_level_name ml_kem_1024) ≡ some handle
unfolding mlkem_handle strcmp
handle_known = refl

abbrev full_kem : Kem
full_kem = record toy_kem {
  length_public_key = 1568;
  length_secret_key = 3168;
  length_ciphertext = 1568;
  encaps = λ r pk. (true, replicate 1568 0, secret pk);
  decaps = λ c k. (true, secret c);
}

abbrev full_oqs : Oqs
full_oqs = record toy_oqs { kem = λ name. some full_kem }

full_kem_laws : KemLaws full_kem
full_kem_laws = record {
  encaps_fits = λ r pk. (omega (arith, length-replicate {A = ℕ} 1568 0), omega arith);
  encaps_full = λ r pk h. length-replicate 1568 0;
  decaps_fits = λ c k. omega arith;
}

full_laws : (name : Text) (m : Kem) → full_oqs.kem name ≡ some m → KemLaws m
full_laws name m e = subst KemLaws (some_inj full_kem m e) full_kem_laws

circl_refuses : length own_key ≢ 3168 → circl.unmarshal_private own_key ≡ none
circl_refuses wrong = absurd (wrong (length-replicate 3168 7))

circl_rejects :
    (key : List ℕ) → length ciphertext ≢ 1568 → circl.scheme_decapsulate key ciphertext ≡ none
circl_rejects key wrong = absurd (wrong (length-replicate 1568 4))

circl_gives :
    whole_pair ml_kem_1024 own_key ciphertext ≡ true
    → (circl.unmarshal_private own_key >>= λ key. circl.scheme_decapsulate key ciphertext)
      ≡ some (secret ciphertext)
circl_gives whole = ground (arith, length-replicate {A = ℕ} 3168 7, length-replicate {A = ℕ} 1568 4)

same_secret_example :
    (Js.kem_lengths (kem_level_name ml_kem_1024) ≡ some (kem_sizes ml_kem_1024))
    × (Js.decapsulate noble (kem_sizes ml_kem_1024) zeros (some own_key) (some ciphertext)
        ≡ secret_for ml_kem_1024 own_key ciphertext (secret ciphertext))
    × (Rust.decapsulate fips203 ml_kem_1024 own_key ciphertext
        ≡ secret_for ml_kem_1024 own_key ciphertext (secret ciphertext))
    × (Go.decapsulate circl own_key ciphertext
        ≡ secret_for ml_kem_1024 own_key ciphertext (secret ciphertext))
    × (value_of (Python.decapsulate pyoqs handle (some own_key) (some ciphertext) fresh)
        ≡ secret_for ml_kem_1024 own_key ciphertext (secret ciphertext))
    × (Java.mlkem_decapsulate bouncy
          (some (kem_level_name ml_kem_1024))
          (some own_key)
          (some ciphertext)
        ≡ (if whole_pair ml_kem_1024 own_key ciphertext
            then ok (secret ciphertext)
            else thrown wrong_length))
    × Ends (CSecret ml_kem_1024 own_key ciphertext (secret ciphertext) 1 room 3 with_room) (
        mlkem_decapsulate full_oqs mlkem_default
          (some own_key)
          (length own_key)
          (some ciphertext)
          (length ciphertext)
          1
          0
          with_room)
same_secret_example =
    same_secret ml_kem_1024 own_key ciphertext (secret ciphertext) noble fips203 circl bouncy pyoqs
      handle py_kem full_oqs full_laws mlkem_default full_kem (λ h. refl) (λ h. refl) circl_refuses
      circl_rejects circl_gives handle_known refl (λ h. refl) (λ h. (own_key, refl, refl)) refl refl
      refl (λ h. refl) zeros fresh 1 0 room with_room refl refl (omega arith) refl

-- Functions that differ from those of the libraries on arguments of other lengths.
abbrev other_encaps : Source → List ℕ → Option (List ℕ × List ℕ)
other_encaps r pk = if length pk == 1568 then some (replicate 1568 0, secret pk) else none

abbrev other_py : Source → List ℕ → Option (List ℕ × List ℕ)
other_py r pk = if length pk == 1568 then py_kem.encap_secret r pk else none

abbrev other_decaps : List ℕ → List ℕ → Option (List ℕ)
other_decaps c k = if length c == 1568 then some (secret c) else none

abbrev other_decap : List ℕ → List ℕ → Option (List ℕ)
other_decap k c = if length c == 1568 then some (secret c) else none

abbrev sized : ℕ → List ℕ → Option (List ℕ)
sized n bytes = if length bytes == n then some bytes else some message

abbrev sized_public : KemLevel → List ℕ → Option (List ℕ)
sized_public level = sized (kem_sizes level).public_key

abbrev sized_private : KemLevel → List ℕ → Option (List ℕ)
sized_private level = sized (kem_sizes level).secret_key

abbrev other_pyoqs : Package.Package
other_pyoqs = record pyoqs {
  kem = λ alg. some (record py_kem { encap_secret = other_py; decap_secret = other_decap });
}

kem_guards_example :
    (Js.encapsulate
        (record noble { encapsulate_noble = other_encaps; decapsulate_noble = other_decaps })
        (kem_sizes ml_kem_1024)
        zeros
        (some message)
      ≡ Js.encapsulate noble (kem_sizes ml_kem_1024) zeros (some message))
    × (Js.decapsulate
          (record noble { encapsulate_noble = other_encaps; decapsulate_noble = other_decaps })
          (kem_sizes ml_kem_1024)
          zeros
          (some own_key)
          (some message)
        ≡ Js.decapsulate noble (kem_sizes ml_kem_1024) zeros (some own_key) (some message))
    × (Rust.encapsulate
          (replaced fips203 (sized 1568) (sized 3168) (sized 1568))
          ml_kem_1024
          zeros
          message
        ≡ Rust.encapsulate fips203 ml_kem_1024 zeros message)
    × (Rust.decapsulate
          (replaced fips203 (sized 1568) (sized 3168) (sized 1568))
          ml_kem_1024
          own_key
          message
        ≡ Rust.decapsulate fips203 ml_kem_1024 own_key message)
    × (Java.mlkem_encapsulate
          (java_replaced bouncy sized_public sized_private (λ k c. some (secret c)))
          zeros
          (some (kem_level_name ml_kem_1024))
          (some message)
        ≡ Java.mlkem_encapsulate bouncy zeros (some (kem_level_name ml_kem_1024)) (some message))
    × (Java.mlkem_decapsulate
          (java_replaced bouncy sized_public sized_private (λ k c. some (secret c)))
          (some (kem_level_name ml_kem_1024))
          (some own_key)
          (some message)
        ≡ Java.mlkem_decapsulate bouncy
            (some (kem_level_name ml_kem_1024))
            (some own_key)
            (some message))
    × (Python.encapsulate other_pyoqs handle (some message) fresh
        ≡ Python.encapsulate pyoqs handle (some message) fresh)
    × (Python.decapsulate other_pyoqs handle (some own_key) (some message) fresh
        ≡ Python.decapsulate pyoqs handle (some own_key) (some message) fresh)
kem_guards_example =
    kem_guards ml_kem_1024 (kem_sizes ml_kem_1024) handle noble fips203 bouncy pyoqs other_pyoqs
      py_kem other_encaps other_py other_decaps other_decap (sized 1568) (sized 3168) (sized 1568)
      sized_public sized_private (λ k c. some (secret c)) (λ r pk h. ground arith)
      (λ c k h h'. ground arith) (λ pk h. ground arith) (λ k h. ground arith) (λ c h. ground arith)
      (λ any pk h. ground arith) (λ any k h. ground arith) (λ any k key c e h. refl) refl refl
      (λ r pk h. ground arith) (λ k c h h'. ground arith) zeros (some message) (some own_key)
      (some message) message own_key message (some (kem_level_name ml_kem_1024)) fresh
