-- ===== src/Bindings/Python/Draws.antt =====
-- What the methods of the Python classes draw, after any calls, and what verification answers.
use qorechain_pqc.Base.{
  ℕ, ◌≡◌, refl, sym, ap, ◌∙◌, Bool, true, false, ◌==◌, Option, none, some, ◌>>=◌, List, length,
  if◌then◌else◌, Bool-cases, inl, inr, arith, some_inj,
}
use qorechain_pqc.Machine.{Source, system}
use qorechain_pqc.Dsa.Sign.{zeros}
use qorechain_pqc.Bindings.{Verifier}
use qorechain_pqc.Bindings.Python as Pure
use qorechain_pqc.Bindings.Python.Handles.{MlDsa, MlKem}
use qorechain_pqc.Bindings.Python.Package.{Signature, KeyEncapsulation, Package}
use qorechain_pqc.Bindings.Python.Effects.{
  State, Outcome, returned, raised, stuck, with_lock, with_object, custom_algorithm,
  switch_to_system, draw_source,
}
use qorechain_pqc.Bindings.Python.Methods.{keygen, sign, verify, kem_keygen, encapsulate}
use qorechain_pqc.Bindings.Python.Calls.{Call, session, session-Kept}

-- The value of a call, `none` behind an exception.
abbrev pub value_of : {A : Type 0} → Outcome A → Option A
value_of (returned a w) = some a
value_of (raised e w) = none
value_of stuck = none

abbrev pub KeyPair : Type 0
KeyPair = List ℕ × List ℕ

-- The keys that an object makes from these random bytes.
abbrev pub keys_from :
    (Source → Option KeyPair) → (List ℕ → Option (List ℕ)) → Source → Option KeyPair
keys_from generate export r = generate r >>= λ made. export made.1 >>= λ sk. some (made.0, sk)

-- The object of the package for each of the two algorithms, and a state in which one can be had.
module _ (oqs : Package) (dsa : MlDsa) (s : Signature) (found : oqs.signature dsa.alg ≡ some s)
    (v : State) (free : v.locked ≡ false) (sys : v.rng ≡ system)
    (had : v.refuse v.requests ≡ false) where
  keygen_draws :
      value_of (keygen oqs dsa v)
      ≡ keys_from s.generate_keypair s.export_secret_key (v.entropy v.draws)
  unfolding keygen with_lock with_object draw_source
  keygen_draws = rw (free, found, had, sys) (ground arith)

  sign_draws :
      (k m : List ℕ) (hedged : Bool)
      → value_of (sign oqs dsa (some k) (some m) hedged v) ≡ (
          if length k == dsa.lens.secret_key
          then s.sign_message (if hedged then v.entropy v.draws else zeros) k m
          else none)
  unfolding sign with_lock with_object draw_source custom_algorithm switch_to_system
  sign_draws k m true = elim (Bool-cases (length k == dsa.lens.secret_key)) [
    | inr other ↦ rw other refl
    | inl whole ↦ rw (whole, free, found, had, sys) (ground arith)
  ]
  sign_draws k m false = elim (Bool-cases (length k == dsa.lens.secret_key)) [
    | inr other ↦ rw other refl
    | inl whole ↦ rw (whole, free, found, had) (ground arith)
  ]

module _ (oqs : Package) (kem : MlKem) (o : KeyEncapsulation) (found : oqs.kem kem.alg ≡ some o)
    (v : State) (free : v.locked ≡ false) (sys : v.rng ≡ system)
    (had : v.refuse v.requests ≡ false) where
  kem_keygen_draws :
      value_of (kem_keygen oqs kem v)
      ≡ keys_from o.generate_keypair o.export_secret_key (v.entropy v.draws)
  unfolding kem_keygen with_lock with_object draw_source
  kem_keygen_draws = rw (free, found, had, sys) (ground arith)

  encapsulate_draws :
      (pk : List ℕ)
      → value_of (encapsulate oqs kem (some pk) v)
        ≡ (if length pk == kem.lens.public_key then o.encap_secret (v.entropy v.draws) pk else none)
  unfolding encapsulate with_lock with_object draw_source
  encapsulate_draws pk = elim (Bool-cases (length pk == kem.lens.public_key)) [
    | inr other ↦ rw other refl
    | inl whole ↦ rw (whole, free, found, had, sys) (ground arith)
  ]

module _ (oqs : Package) (dsa : MlDsa) (s : Signature) (found : oqs.signature dsa.alg ≡ some s)
    (kem : MlKem) (o : KeyEncapsulation) (found' : oqs.kem kem.alg ≡ some o) where
  -- After any sequence of calls, from a free lock and the system's generator, by a caller who goes on
  -- behind every exception, and if an object is to be had: key generation of both classes, hedged
  -- signing and encapsulation give what the package makes of the next random bytes of the operating
  -- system, and deterministic signing what it makes of zeros. For a key of another length than the
  -- handle's, signing and encapsulation give nothing.
  pub draws_after_session :
      (calls : List Call) (w v : State)
      → w.locked ≡ false
      → w.rng ≡ system
      → session oqs calls w ≡ some v
      → v.refuse v.requests ≡ false
      → (k m pk : List ℕ)
      → (value_of (keygen oqs dsa v)
          ≡ keys_from s.generate_keypair s.export_secret_key (v.entropy v.draws))
        × (value_of (sign oqs dsa (some k) (some m) true v) ≡ (
            if length k == dsa.lens.secret_key
            then s.sign_message (v.entropy v.draws) k m
            else none))
        × (value_of (sign oqs dsa (some k) (some m) false v)
            ≡ (if length k == dsa.lens.secret_key then s.sign_message zeros k m else none))
        × (value_of (kem_keygen oqs kem v)
            ≡ keys_from o.generate_keypair o.export_secret_key (v.entropy v.draws))
        × (value_of (encapsulate oqs kem (some pk) v) ≡ (
            if length pk == kem.lens.public_key
            then o.encap_secret (v.entropy v.draws) pk
            else none))
  draws_after_session calls w v free sys ends had k m pk =
      let (u, e, kept) = session-Kept oqs calls w free sys in
      let same : u ≡ v = some_inj u v (sym e ∙ ends) in
      let free' : v.locked ≡ false = ap (λ (x : State). x.locked) (sym same) ∙ kept.locked ∙ free in
      let sys' : v.rng ≡ system = ap (λ (x : State). x.rng) (sym same) ∙ kept.rng ∙ sys in
      (
        keygen_draws oqs dsa s found v free' sys' had,
        sign_draws oqs dsa s found v free' sys' had k m true,
        sign_draws oqs dsa s found v free' sys' had k m false,
        kem_keygen_draws oqs kem o found' v free' sys' had,
        encapsulate_draws oqs kem o found' v free' sys' had pk,
      )

-- Verification by a new object, where there may be none.
abbrev pub object_verifier : Option Signature → Bool → Verifier
object_verifier none refused m sig pk = none
object_verifier (some s) true m sig pk = none
object_verifier (some s) false m sig pk = s.check m sig pk

-- The method answers as `Pure.verify` does over the object that it makes.
verify_lem :
    (oqs : Package) (dsa : MlDsa) (w : State) (pk m sig : Option (List ℕ))
    → value_of (verify oqs dsa pk m sig w)
      ≡ some (
          Pure.verify
            (object_verifier (oqs.signature dsa.alg) (w.refuse w.requests))
            dsa.lens
            pk
            m
            sig)
unfolding verify with_object Pure.verify
verify_lem oqs dsa w none m sig = ground arith
verify_lem oqs dsa w (some pk) none sig = ground arith
verify_lem oqs dsa w (some pk) (some m) none = ground arith
verify_lem oqs dsa w (some pk) (some m) (some sig) = ground arith
