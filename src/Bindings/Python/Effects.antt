-- ===== src/Bindings/Python/Effects.antt =====
-- What the methods of python/qorpqc/__init__.py act on, the lock `_rng_lock`, the generator of liboqs
-- and the objects of the package oqs, and the statements `with` and `try`, which clean up behind a
-- return and behind an exception.
use qorechain_pqc.Base.{ℕ, suc, ◌-◌, Bool, true, false, Option, none, some, List, ◌∷◌}
use qorechain_pqc.Machine.{Source, Rng, system, custom, Event}

-- A method raises ValueError for its arguments; RuntimeError is that of a lock released while free;
-- whatever the package oqs raises is `oqs_error`.
pub data Error : Type 0 where
  value_error runtime_error oqs_error : Error

pub record State : Type 0 where
  -- `_rng_lock`, a `threading.Lock`
  pub locked : Bool
  pub rng : Rng
  -- what the operating system gives to the n-th call that draws from it
  pub entropy : ℕ → Source
  pub draws : ℕ
  -- objects of the package oqs that live
  pub objects : ℕ
  -- objects asked for so far, and those that cannot be had
  pub requests : ℕ
  pub refuse : ℕ → Bool
  pub log : List Event

-- What was changed stays changed behind an exception. `stuck` waits for a lock that nobody gives back.
pub data Outcome (A : Type 0) : Type 0 where
  returned : A → State → Outcome A
  raised : Error → State → Outcome A
  stuck : Outcome A

abbrev pub Action : Type 0 → Type 0
Action A = State → Outcome A

module _ {A : Type 0} where
  abbrev pub pure : A → Action A
  pure = returned

  abbrev pub raise : Error → Action A
  raise = raised

  -- An answer of the package oqs, which is an exception if it is `none`.
  abbrev pub or_raise : Option A → Action A
  or_raise none = raise oqs_error
  or_raise (some a) = pure a

module _ {A B : Type 0} where
  abbrev pub and_then : Outcome A → (A → Action B) → Outcome B
  and_then (returned a w) k = k a w
  and_then (raised e w) k = raised e w
  and_then stuck k = stuck

  infixl 5 ◌>>=◌ ◌>>◌
  abbrev pub ◌>>=◌ : Action A → (A → Action B) → Action B
  m >>= k = λ w. and_then (m w) k

  abbrev pub ◌>>◌ : Action A → Action B → Action B
  m >> n = m >>= λ _. n

-- The end of a `finally` clause: an exception of its own takes the place of what was under way.
abbrev pub resume : {A : Type 0} → (State → Outcome A) → Outcome (Unit {0}) → Outcome A
resume k (returned u w) = k w
resume k (raised e w) = raised e w
resume k stuck = stuck

abbrev pub cleaned : {A : Type 0} → Action (Unit {0}) → Outcome A → Outcome A
cleaned clean (returned a w) = resume (returned a) (clean w)
cleaned clean (raised e w) = resume (raised e) (clean w)
cleaned clean stuck = stuck

-- `try: body finally: clean`
abbrev pub try_finally : {A : Type 0} → Action A → Action (Unit {0}) → Action A
try_finally body clean w = cleaned clean (body w)

-- `try: body except Exception: handler`
abbrev pub rescued : {A : Type 0} → Action A → Outcome A → Outcome A
rescued handler (returned a w) = returned a w
rescued handler (raised e w) = handler w
rescued handler stuck = stuck

abbrev pub try_except : {A : Type 0} → Action A → Action A → Action A
try_except body handler w = rescued handler (body w)

-- `Lock.acquire` and `Lock.release`. A Lock is not reentrant.
unfoldable pub acquire : Action (Unit {0})
acquire w = elim w.locked [
  | true ↦ stuck
  | false ↦ returned tt (record w { locked = true; log = Event.lock ∷ w.log })
]

unfoldable pub release : Action (Unit {0})
release w = elim w.locked [
  | true ↦ returned tt (record w { locked = false; log = Event.unlock ∷ w.log })
  | false ↦ raised runtime_error w
]

-- `with _rng_lock: body`
unfoldable pub with_lock : {A : Type 0} → Action A → Action A
unfolding acquire release
with_lock body = acquire >> try_finally body release

-- `oqs.Signature(alg, ...)` and `oqs.KeyEncapsulation(alg, ...)` for the object that the package has
-- for the algorithm. An exception if it has none, or if this one cannot be had.
construct : {S : Type 0} → Option S → Bool → Action S
construct (some s) false w = returned s (record w { objects = suc w.objects })
construct _ _ w = raised oqs_error w

unfoldable pub new_object : {S : Type 0} → Option S → Action S
unfolding construct
new_object found w = construct found (w.refuse w.requests) (record w { requests = suc w.requests })

-- `free`, by the object's `__exit__`
unfoldable pub free_object : Action (Unit {0})
free_object w = returned tt (record w { objects = w.objects - 1 })

-- `with oqs.Signature(...) as s: body s`
unfoldable pub with_object : {S A : Type 0} → Option S → (S → Action A) → Action A
unfolding new_object free_object
with_object found body = new_object found >>= λ s. try_finally (body s) free_object

-- `OQS_randombytes_custom_algorithm`
unfoldable pub custom_algorithm : (ℕ → List ℕ) → Action (Unit {0})
custom_algorithm fill w =
    returned tt (record w { rng = custom fill; log = Event.use_custom ∷ w.log })

-- `randombytes_switch_algorithm("system")`
unfoldable pub switch_to_system : Action (Unit {0})
switch_to_system w = returned tt (record w { rng = system; log = Event.use_system ∷ w.log })

abbrev pub source_of : State → Rng → Source
source_of w system = w.entropy w.draws
source_of w (custom fill) = λ i n. fill n

abbrev pub draws_after : State → Rng → ℕ
draws_after w system = suc w.draws
draws_after w (custom fill) = w.draws

-- What a primitive of liboqs draws from while it runs.
unfoldable pub draw_source : Action Source
draw_source w =
    returned (source_of w w.rng)
      (record w { draws = draws_after w w.rng; log = Event.draw ∷ w.log })
