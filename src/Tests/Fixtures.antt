-- ===== src/Tests/Fixtures.antt =====
-- Concrete states and arguments, and an algorithm of each kind that keeps liboqs's laws.
use mathlib.Core.Path.{subst}
use qorechain_pqc.Base.{
  ℕ, Bool, Option, ◌∙◌, ◌%◌, ◌<◌, ◌≤◌, ◌≡◌, refl, true, false, none, some, some_inj, List, [], ◌∷◌,
  ◌++◌, map, arith, length, take, drop, replicate, Text, length-replicate, ◌==◌, ==_self, zero, suc,
  ap, sym,
}
use qorechain_pqc.Machine.{Cell, World, system, update}
use qorechain_pqc.Oqs.{Sig, Kem, Oqs, SigLaws, KemLaws, CleanseLaw}
use qorechain_pqc.Hash.{Evp, XofLaws}
use qorechain_pqc.SignBytes.{Out}
use qorechain_pqc.Client.{AllBytes}
use qorechain_pqc.Client.Typed.{SigBytes, KemBytes, XofBytes}
use qorechain_pqc.Dsa.{mldsa_default}
use qorechain_pqc.Dsa.RoundTrip.{Correct}
use qorechain_pqc.Kem.{mlkem_default}
use qorechain_pqc.Kem.RoundTrip.{Matched}

-- A process that has done nothing yet.
abbrev pub start : World
start = record {
  calls = 0;
  refuse = λ n. false;
  block = λ p. none;
  released = [];
  handles = 0;
  held = false;
  rng = system;
  entropy = λ draw request n. replicate n draw;
  draws = 0;
  log = [];
}

-- The same process later: other addresses, other randomness.
abbrev pub later : World
later = record start { calls = 5; draws = 3 }

abbrev pub no_out : Out
no_out = record { buf = 0; len = 0 }

abbrev pub kem_alg : Text
kem_alg = mlkem_default

abbrev pub alg : Text
alg = mldsa_default

-- A block of the caller with room for four bytes.
abbrev pub room : List Cell
room = some 9 ∷ some 9 ∷ some 9 ∷ some 9 ∷ []

abbrev pub with_room : World
with_room = record start { calls = 1; block = update start.block 1 (some room) }

-- Two such blocks, at 1 and 2.
abbrev pub with_rooms : World
with_rooms = record start {
  calls = 2;
  block = update (update start.block 1 (some room)) 2 (some room);
}

abbrev pub first_byte : List ℕ → ℕ
first_byte [] = 0
first_byte (b ∷ bs) = b % 256

first_byte_lt : (bs : List ℕ) → first_byte bs < 256
first_byte_lt [] = omega arith
first_byte_lt (b ∷ bs) = omega arith

first_byte_mod : (bs : List ℕ) → first_byte bs % 256 ≡ first_byte bs
first_byte_mod bs = omega (arith, first_byte_lt bs)

-- Keys of 2 and 3 bytes, signatures of 2.
abbrev pub toy_sig : Sig
toy_sig = record {
  length_public_key = 2;
  length_secret_key = 3;
  length_signature = 2;
  keypair = λ r. (true, first_byte (r 0 32) ∷ 5 ∷ [], first_byte (r 0 32) ∷ 5 ∷ 6 ∷ []);
  sign = λ r msg sk. record {
    success = true;
    bytes = first_byte (r 0 32) ∷ first_byte msg ∷ [];
    reported = some 2;
  };
  verify = λ msg sig pk. first_byte (drop 1 sig) == first_byte msg;
}

-- Keys and ciphertexts of 2 bytes, secrets of 3.
abbrev pub toy_kem : Kem
toy_kem = record {
  length_public_key = 2;
  length_secret_key = 2;
  length_ciphertext = 2;
  length_shared_secret = 3;
  encaps =
      λ r pk. (true, first_byte (r 0 32) ∷ first_byte pk ∷ [], first_byte (r 0 32) ∷ 1 ∷ 2 ∷ []);
  decaps = λ ct sk. (true, first_byte ct ∷ 1 ∷ 2 ∷ []);
}

abbrev pub toy_oqs : Oqs
toy_oqs = record {
  sig = λ name. some toy_sig;
  kem = λ name. some toy_kem;
  cleanse = λ n cells. map some (replicate n 0) ++ drop n cells;
}

toy_sig_laws : SigLaws toy_sig
toy_sig_laws = record {
  keypair_fits = λ r. (omega arith, omega arith);
  keypair_full = λ r h. (refl, refl);
  sign_fits = λ r msg sk. omega arith;
  sign_reports = λ r msg sk h. refl;
}

toy_kem_laws : KemLaws toy_kem
toy_kem_laws = record {
  encaps_fits = λ r pk. (omega arith, omega arith);
  encaps_full = λ r pk h. refl;
  decaps_fits = λ ct sk. omega arith;
}

pub toy_sig-Correct : Correct toy_sig
toy_sig-Correct made signed m h k = ==_self (first_byte m % 256) (first_byte m) (first_byte_mod m)

pub toy_kem-Matched : (pk sk : List ℕ) → Matched toy_kem pk sk
toy_kem-Matched pk sk r h = ap (λ n. (true, n ∷ 1 ∷ 2 ∷ [])) (first_byte_mod (r 0 32))

pub sig_laws : (name : Text) (s : Sig) → toy_oqs.sig name ≡ some s → SigLaws s
sig_laws name s e = subst SigLaws (some_inj toy_sig s e) toy_sig_laws

pub kem_laws : (name : Text) (k : Kem) → toy_oqs.kem name ≡ some k → KemLaws k
kem_laws name k e = subst KemLaws (some_inj toy_kem k e) toy_kem_laws

pub toy_cleanse : CleanseLaw toy_oqs
toy_cleanse = record { zeroes = λ n cells h. refl }

pub has_room :
    (name : Text) (k : Kem) → toy_oqs.kem name ≡ some k → k.length_shared_secret ≤ length room
has_room name k e =
    subst (λ (m : Kem). m.length_shared_secret ≤ length room) (some_inj toy_kem k e) (omega arith)

-- An XOF whose output is one byte over and over.
abbrev pub toy_shake : List ℕ → ℕ → List ℕ
toy_shake input n = replicate n (first_byte input)

-- A context is the data so far, `none` before it is initialised.
abbrev pub toy_update : Option (List ℕ) → List ℕ → Option (Bool × Option (List ℕ))
toy_update none d = none
toy_update (some before) d = some (true, some (before ++ d))

abbrev pub toy_final : Option (List ℕ) → ℕ → Option (Bool × List ℕ)
toy_final none n = none
toy_final (some before) n = some (true, toy_shake before n)

abbrev pub toy_evp : Evp (Option (List ℕ))
toy_evp = record {
  new_ctx = none;
  init = λ c. some (true, some []);
  update = toy_update;
  final_xof = toy_final;
}

-- OpenSSL without a SHAKE-256: the first call fails, and the ones after it too.
abbrev pub bare_evp : Evp (Option (List ℕ))
bare_evp = record toy_evp { init = λ c. some (false, none) }

take-replicate : (m n b : ℕ) → m ≤ n → take m (replicate n b) ≡ replicate m b
unfolding replicate
take-replicate zero n b h = refl
take-replicate (suc m) zero b h = absurd (omega arith)
take-replicate (suc m) (suc n) b h = ap (λ l. b ∷ l) (take-replicate m n b (omega arith))

-- What a context that was initialised gives.
toy_bytes :
    (before : List ℕ) (n : ℕ) (ok : Bool) (bytes : List ℕ)
    → toy_final (some before) n ≡ some (ok, bytes)
    → toy_shake before n ≡ bytes
toy_bytes before n ok bytes e =
    ap (λ (r : Bool × List ℕ). r.1) (some_inj (true, toy_shake before n) (ok, bytes) e)

toy_within :
    (c : Option (List ℕ)) (n : ℕ) (ok : Bool) (bytes : List ℕ)
    → toy_final c n ≡ some (ok, bytes)
    → length bytes ≤ n
toy_within none n ok bytes e = absurd (ground (arith, e))
toy_within (some before) n ok bytes e =
    subst (λ bs. length bs ≤ n) (toy_bytes before n ok bytes e)
      (omega (arith, length-replicate n (first_byte before)))

toy_computes :
    (c c' : Option (List ℕ)) (d bytes : List ℕ) (n : ℕ)
    → toy_evp.init toy_evp.new_ctx ≡ some (true, c)
    → toy_update c d ≡ some (true, c')
    → toy_final c' n ≡ some (true, bytes)
    → bytes ≡ toy_shake d n
toy_computes none c' d bytes n first second third = absurd (ground (arith, second))
toy_computes (some before) none d bytes n first second third = absurd (ground (arith, third))
toy_computes (some before) (some all) d bytes n first second third =
    let begun : [] ≡ before = cc in
    let fed : before ++ d ≡ all = cc in
    sym (toy_bytes all n true bytes third)
    ∙ ap (λ input. toy_shake input n) (sym fed ∙ ap (λ b. b ++ d) (sym begun))

pub toy_xof : XofLaws toy_evp toy_shake
toy_xof = record {
  length-shake = λ d n. length-replicate n (first_byte d);
  shake_prefix = λ d m n le. sym (take-replicate m n (first_byte d) le);
  within = toy_within;
  computes = toy_computes;
}

toy_sig_bytes : SigBytes toy_sig
toy_sig_bytes = record {
  keypair_bytes = λ r. (
    (first_byte_lt (r 0 32), (omega arith, tt)),
    (first_byte_lt (r 0 32), (omega arith, (omega arith, tt))),
  );
  signature_bytes = λ r m k. (first_byte_lt (r 0 32), (first_byte_lt m, tt));
}

toy_kem_bytes : KemBytes toy_kem
toy_kem_bytes = record {
  encaps_bytes = λ r pk. (
    (first_byte_lt (r 0 32), (first_byte_lt pk, tt)),
    (first_byte_lt (r 0 32), (omega arith, (omega arith, tt))),
  );
  decaps_bytes = λ ct sk. (first_byte_lt ct, (omega arith, (omega arith, tt)));
}

pub sig_bytes : (name : Text) (s : Sig) → toy_oqs.sig name ≡ some s → SigBytes s
sig_bytes name s e = subst SigBytes (some_inj toy_sig s e) toy_sig_bytes

pub kem_bytes : (name : Text) (k : Kem) → toy_oqs.kem name ≡ some k → KemBytes k
kem_bytes name k e = subst KemBytes (some_inj toy_kem k e) toy_kem_bytes

replicate-AllBytes : (n b : ℕ) → b < 256 → AllBytes (replicate n b)
unfolding replicate
replicate-AllBytes zero b h = tt
replicate-AllBytes (suc n) b h = (h, replicate-AllBytes n b h)

toy_written :
    (c : Option (List ℕ)) (n : ℕ) (ok : Bool) (bytes : List ℕ)
    → toy_final c n ≡ some (ok, bytes)
    → AllBytes bytes
toy_written none n ok bytes e = absurd (ground (arith, e))
toy_written (some before) n ok bytes e =
    subst AllBytes (toy_bytes before n ok bytes e)
      (replicate-AllBytes n (first_byte before) (first_byte_lt before))

pub toy-XofBytes : XofBytes toy_evp
toy-XofBytes = record { written_bytes = toy_written }
