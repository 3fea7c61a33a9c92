-- ===== src/Bindings/Python/Tidy.antt =====
-- What the methods of the Python classes leave behind, however they end.
use qorechain_pqc.Base.{
  ◌≡◌, ◌⊎◌, Bool, true, false, ◌&&◌, Option, none, some, List, [], ◌∷◌, ◌++◌, length, ◌==◌, arith,
  ℕ,
}
use qorechain_pqc.Machine.{Event, lock, unlock, use_custom, use_system, draw, system}
use qorechain_pqc.Bindings.Python.Handles.{MlDsa, MlKem}
use qorechain_pqc.Bindings.Python.Package.{Package}
use qorechain_pqc.Bindings.Python.Effects.{
  value_error, oqs_error, State, Outcome, returned, raised, stuck, with_lock, with_object,
  custom_algorithm, switch_to_system, draw_source,
}
use qorechain_pqc.Bindings.Python.Methods.{
  keygen, sign, verify, kem_keygen, encapsulate, decapsulate,
}

-- The shared state as it was.
pub record Kept (w v : State) : Type 0 where
  pub locked : v.locked ≡ w.locked
  pub rng : v.rng ≡ w.rng
  pub objects : v.objects ≡ w.objects

-- The steps of a method on what threads share, the last one first.
abbrev pub plain_steps : List Event
plain_steps = unlock ∷ draw ∷ lock ∷ []

abbrev pub sign_steps : Bool → List Event
sign_steps true = plain_steps
sign_steps false = unlock ∷ use_system ∷ draw ∷ use_custom ∷ lock ∷ []

abbrev pub without_draw : List Event → List Event
without_draw [] = []
without_draw (lock ∷ steps) = lock ∷ without_draw steps
without_draw (unlock ∷ steps) = unlock ∷ without_draw steps
without_draw (use_custom ∷ steps) = use_custom ∷ without_draw steps
without_draw (use_system ∷ steps) = use_system ∷ without_draw steps
without_draw (draw ∷ steps) = without_draw steps

-- How a call ends that is given valid arguments or not. It returns only for valid ones, behind all
-- its steps. For others it raises ValueError and nothing has changed. For valid ones it may raise what
-- comes from the package oqs, behind its steps, of which it leaves out the draw if it got no object.
abbrev pub Tidy : {A : Type 0} → Bool → List Event → State → Outcome A → Type 0
Tidy valid steps w (returned a v) = (valid ≡ true) × Kept w v × (v.log ≡ steps ++ w.log)
Tidy valid steps w (raised e v) =
    ((valid ≡ false) × (e ≡ value_error) × (v ≡ w))
    ⊎ ((valid ≡ true)
        × (e ≡ oqs_error)
        × Kept w v
        × ((v.log ≡ steps ++ w.log) ⊎ (v.log ≡ without_draw steps ++ w.log)))
Tidy valid steps w stuck = ⊥

-- Is the argument bytes-like, of a length that is fixed if one is given?
abbrev pub fits : Option (List ℕ) → Option ℕ → Bool
fits none len = false
fits (some bytes) none = true
fits (some bytes) (some n) = length bytes == n

module _ (oqs : Package) (w : State) (free : w.locked ≡ false) (sys : w.rng ≡ system) where
  pub keygen-Tidy : (self : MlDsa) → Tidy true plain_steps w (keygen oqs self w)
  unfolding keygen with_lock with_object draw_source
  keygen-Tidy self = rw free (ground arith)

  pub sign-Tidy :
      (self : MlDsa) (sk m : Option (List ℕ)) (hedged : Bool)
      → Tidy
          (fits sk (some self.lens.secret_key) && fits m none)
          (sign_steps hedged)
          w
          (sign oqs self sk m hedged w)
  unfolding sign with_lock with_object draw_source custom_algorithm switch_to_system
  sign-Tidy self none m hedged = ground arith
  sign-Tidy self (some k) none hedged = ground arith
  sign-Tidy self (some k) (some m) true = rw free (ground arith)
  sign-Tidy self (some k) (some m) false = rw free (ground arith)

  pub verify-Tidy :
      (self : MlDsa) (pk m sig : Option (List ℕ)) → Tidy true [] w (verify oqs self pk m sig w)
  unfolding verify with_object
  verify-Tidy self none m sig = ground arith
  verify-Tidy self (some pk) none sig = ground arith
  verify-Tidy self (some pk) (some m) none = ground arith
  verify-Tidy self (some pk) (some m) (some sig) = ground arith

  pub kem_keygen-Tidy : (self : MlKem) → Tidy true plain_steps w (kem_keygen oqs self w)
  unfolding kem_keygen with_lock with_object draw_source
  kem_keygen-Tidy self = rw free (ground arith)

  pub encapsulate-Tidy :
      (self : MlKem) (pk : Option (List ℕ))
      → Tidy (fits pk (some self.lens.public_key)) plain_steps w (encapsulate oqs self pk w)
  unfolding encapsulate with_lock with_object draw_source
  encapsulate-Tidy self none = ground arith
  encapsulate-Tidy self (some pk) = rw free (ground arith)

  pub decapsulate-Tidy :
      (self : MlKem) (sk ct : Option (List ℕ))
      → Tidy
          (fits sk (some self.lens.secret_key) && fits ct (some self.lens.ciphertext))
          []
          w
          (decapsulate oqs self sk ct w)
  unfolding decapsulate with_object
  decapsulate-Tidy self none ct = ground arith
  decapsulate-Tidy self (some sk) none = ground arith
  decapsulate-Tidy self (some sk) (some ct) = ground arith
