-- ===== src/Bindings/Python/Calls.antt =====
-- Calls of the methods of the Python classes, one after the other, by a caller who goes on behind an
-- exception.
use mathlib.Core.List.{reverse}
use qorechain_pqc.Base.{
  ◌≡◌, refl, inl, inr, ◌∙◌, Bool, true, false, ◌&&◌, Option, none, some, List, [], ◌∷◌, ℕ,
}
use qorechain_pqc.Machine.{Event, system}
use qorechain_pqc.Threads
use qorechain_pqc.Bindings.Python.Handles.{MlDsa, MlKem}
use qorechain_pqc.Bindings.Python.Package.{Package}
use qorechain_pqc.Bindings.Python.Effects.{
  Action, State, Outcome, returned, raised, stuck, pure, ◌>>◌, and_then,
}
use qorechain_pqc.Bindings.Python.Methods.{
  keygen, sign, verify, kem_keygen, encapsulate, decapsulate,
}
use qorechain_pqc.Bindings.Python.Tidy.{
  Kept, plain_steps, sign_steps, Tidy, fits, keygen-Tidy, sign-Tidy, verify-Tidy, kem_keygen-Tidy,
  encapsulate-Tidy, decapsulate-Tidy,
}

-- A call with any arguments; one that is not bytes-like is `none`.
pub data Call : Type 0 where
  mldsa_keygen : MlDsa → Call
  mldsa_sign : MlDsa → Option (List ℕ) → Option (List ℕ) → (hedged : Bool) → Call
  mldsa_verify : MlDsa → Option (List ℕ) → Option (List ℕ) → Option (List ℕ) → Call
  mlkem_keygen : MlKem → Call
  mlkem_encapsulate : MlKem → Option (List ℕ) → Call
  mlkem_decapsulate : MlKem → Option (List ℕ) → Option (List ℕ) → Call

-- The call, its value aside.
unfoldable pub perform : Package → Call → Action (Unit {0})
perform oqs (mldsa_keygen self) = keygen oqs self >> pure tt
perform oqs (mldsa_sign self sk m hedged) = sign oqs self sk m hedged >> pure tt
perform oqs (mldsa_verify self pk m sig) = verify oqs self pk m sig >> pure tt
perform oqs (mlkem_keygen self) = kem_keygen oqs self >> pure tt
perform oqs (mlkem_encapsulate self pk) = encapsulate oqs self pk >> pure tt
perform oqs (mlkem_decapsulate self sk ct) = decapsulate oqs self sk ct >> pure tt

-- Does the call get arguments that it takes? Verification takes all.
abbrev pub valid : Call → Bool
valid (mldsa_keygen self) = true
valid (mldsa_sign self sk m hedged) = fits sk (some self.lens.secret_key) && fits m none
valid (mldsa_verify self pk m sig) = true
valid (mlkem_keygen self) = true
valid (mlkem_encapsulate self pk) = fits pk (some self.lens.public_key)
valid (mlkem_decapsulate self sk ct) =
    fits sk (some self.lens.secret_key) && fits ct (some self.lens.ciphertext)

abbrev pub steps : Call → List Event
steps (mldsa_keygen self) = plain_steps
steps (mldsa_sign self sk m hedged) = sign_steps hedged
steps (mldsa_verify self pk m sig) = []
steps (mlkem_keygen self) = plain_steps
steps (mlkem_encapsulate self pk) = plain_steps
steps (mlkem_decapsulate self sk ct) = []

-- The function of c/qorechain_pqc.c that does the same under the lock.
abbrev pub counterpart : Call → Option Threads.Call
counterpart (mldsa_keygen self) = some Threads.keygen
counterpart (mldsa_sign self sk m true) = some Threads.sign_hedged
counterpart (mldsa_sign self sk m false) = some Threads.sign
counterpart (mldsa_verify self pk m sig) = none
counterpart (mlkem_keygen self) = some Threads.keygen
counterpart (mlkem_encapsulate self pk) = some Threads.encapsulate
counterpart (mlkem_decapsulate self sk ct) = none

abbrev pub program_of : Option Threads.Call → List Event
program_of none = []
program_of (some c) = Threads.program c

steps-program : (c : Call) → reverse (steps c) ≡ program_of (counterpart c)
steps-program (mldsa_keygen self) = refl
steps-program (mldsa_sign self sk m true) = refl
steps-program (mldsa_sign self sk m false) = refl
steps-program (mldsa_verify self pk m sig) = refl
steps-program (mlkem_keygen self) = refl
steps-program (mlkem_encapsulate self pk) = refl
steps-program (mlkem_decapsulate self sk ct) = refl

discarded :
    {A : Type 0} (ok : Bool) (es : List Event) (w : State) (o : Outcome A)
    → Tidy ok es w o
    → Tidy ok es w (and_then o λ a. pure tt)
discarded ok es w (returned a v) h = h
discarded ok es w (raised e v) h = h
discarded ok es w stuck h = h

module _ (oqs : Package) (w : State) (free : w.locked ≡ false) (sys : w.rng ≡ system) where
  method-Tidy : (c : Call) → Tidy (valid c) (steps c) w (perform oqs c w)
  unfolding perform
  method-Tidy (mldsa_keygen self) =
      discarded true plain_steps w (keygen oqs self w) (keygen-Tidy oqs w free sys self)
  method-Tidy (mldsa_sign self sk m hedged) =
      discarded (fits sk (some self.lens.secret_key) && fits m none) (sign_steps hedged) w
        (sign oqs self sk m hedged w) (sign-Tidy oqs w free sys self sk m hedged)
  method-Tidy (mldsa_verify self pk m sig) =
      discarded true [] w (verify oqs self pk m sig w) (verify-Tidy oqs w free sys self pk m sig)
  method-Tidy (mlkem_keygen self) =
      discarded true plain_steps w (kem_keygen oqs self w) (kem_keygen-Tidy oqs w free sys self)
  method-Tidy (mlkem_encapsulate self pk) =
      discarded (fits pk (some self.lens.public_key)) plain_steps w (encapsulate oqs self pk w)
        (encapsulate-Tidy oqs w free sys self pk)
  method-Tidy (mlkem_decapsulate self sk ct) =
      discarded (fits sk (some self.lens.secret_key) && fits ct (some self.lens.ciphertext)) [] w
        (decapsulate oqs self sk ct w) (decapsulate-Tidy oqs w free sys self sk ct)

  -- With a free lock and the generator of the system in place, a call of a method of MlDsa or MlKem
  -- with any arguments ends as `Tidy` says: it comes back, with the lock free, the system's
  -- generator in place and as many objects as before. It returns only for valid arguments, behind
  -- all its steps. It raises ValueError for exactly the others, and then nothing has changed. For
  -- valid arguments it may raise what comes from the package oqs, behind the same steps, less the
  -- draw if it got no object. The steps are those of the C function that does the same; those that
  -- the lock guards nothing of, verification and decapsulation, take none.
  pub perform-Tidy :
      (c : Call)
      → Tidy (valid c) (steps c) w (perform oqs c w)
        × (reverse (steps c) ≡ program_of (counterpart c))
  perform-Tidy c = (method-Tidy c, steps-program c)

-- The state behind a call, an exception caught; `none` if the call does not come back.
abbrev pub state_behind : {A : Type 0} → Outcome A → Option State
state_behind (returned a w) = some w
state_behind (raised e w) = some w
state_behind stuck = none

abbrev pub go_on : Option State → (State → Option State) → Option State
go_on none k = none
go_on (some w) k = k w

unfoldable pub session : Package → List Call → State → Option State
session oqs [] w = some w
session oqs (c ∷ calls) w = go_on (state_behind (perform oqs c w)) (session oqs calls)

module _ (oqs : Package) where
  behind-Tidy :
      {A : Type 0} (ok : Bool) (es : List Event) (w : State) (o : Outcome A)
      → Tidy ok es w o
      → (v : State) × (state_behind o ≡ some v) × Kept w v
  behind-Tidy ok es w (returned a v) (good, kept, log) = (v, refl, kept)
  behind-Tidy ok es w (raised e v) (inl (bad, what, same)) =
      (v, refl, rw same (record { locked = refl; rng = refl; objects = refl }))
  behind-Tidy ok es w (raised e v) (inr (good, what, kept, log)) = (v, refl, kept)
  behind-Tidy ok es w stuck h = elim h [ ]

  -- With a free lock and the generator of the system in place, any sequence of calls of the
  -- methods, with any arguments and by a caller who goes on behind every exception, comes to its
  -- end, with the lock free, the system's generator in place and as many objects as before.
  pub session-Kept :
      (calls : List Call) (w : State)
      → w.locked ≡ false
      → w.rng ≡ system
      → (v : State) × (session oqs calls w ≡ some v) × Kept w v
  unfolding session
  session-Kept [] w free sys = (w, refl, record { locked = refl; rng = refl; objects = refl })
  session-Kept (c ∷ calls) w free sys =
      let (v, e, kept) =
        behind-Tidy (valid c) (steps c) w (perform oqs c w) (perform-Tidy oqs w free sys c).0 in
      let (u, e', kept') = session-Kept calls v (kept.locked ∙ free) (kept.rng ∙ sys) in
      (
        u,
        rw e e',
        record {
          locked = kept'.locked ∙ kept.locked;
          rng = kept'.rng ∙ kept.rng;
          objects = kept'.objects ∙ kept.objects;
        },
      )
