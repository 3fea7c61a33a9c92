-- ===== src/Threads/Invariant.antt =====
-- The invariant of the threads: where each of them is in its call, who has the lock, and which
-- generator is in place.
use qorechain_pqc.Base.{
  ℕ, ◌≡◌, refl, ap, ◌∙◌, Bool, true, false, Option, none, some, List, [], ◌∷◌, arith, ◌==◌, ==_iff,
  ==_self, Bool-cases, inl, inr,
}
use qorechain_pqc.Machine.{Event, lock, unlock, use_custom, use_system, draw}
use qorechain_pqc.Threads.{Call, sign, program, Thread, Process, owns, set_thread, quiet}

abbrev pub is_sign : Call → Bool
is_sign sign = true
is_sign _ = false

-- The steps of a call behind its draw.
abbrev pub after_draw : Call → List Event
after_draw sign = use_system ∷ unlock ∷ []
after_draw _ = unlock ∷ []

-- These steps are the rest of the call's program.
abbrev pub RestOf : Call → List Event → Type 0
RestOf c [] = Unit
RestOf c (lock ∷ rest) = lock ∷ rest ≡ program c
RestOf c (unlock ∷ rest) = rest ≡ []
RestOf c (use_custom ∷ rest) = (c ≡ sign) × (rest ≡ draw ∷ use_system ∷ unlock ∷ [])
RestOf c (use_system ∷ rest) = (c ≡ sign) × (rest ≡ unlock ∷ [])
RestOf c (draw ∷ rest) = rest ≡ after_draw c

abbrev pub OnCourse : Thread → Type 0
OnCourse none = Unit
OnCourse (some (c, rest)) = RestOf c rest

-- Between lock and unlock.
abbrev pub inside : Thread → Bool
inside none = false
inside (some (c, [])) = false
inside (some (c, lock ∷ rest)) = false
inside (some (c, _ ∷ rest)) = true

-- Between the two switches of the generator.
abbrev pub in_window : Thread → Bool
in_window none = false
in_window (some (c, use_system ∷ rest)) = true
in_window (some (c, draw ∷ rest)) = is_sign c
in_window (some (c, _)) = false

abbrev pub window_of : Option ℕ → (ℕ → Thread) → Bool
window_of none f = false
window_of (some o) f = in_window (f o)

abbrev pub AllDrawn : List (Call × Bool) → Type 0
AllDrawn [] = Unit
AllDrawn ((c, zeros) ∷ ds) = (zeros ≡ is_sign c) × AllDrawn ds

pub record Inv (s : Process) : Type 0 where
  pub course : (t : ℕ) → OnCourse (s.thread t)
  pub locked : (t : ℕ) → inside (s.thread t) ≡ owns s.owner t
  pub window : s.zeroed ≡ window_of s.owner s.thread
  pub faithful : AllDrawn s.drawn
  pub proper : s.misuse ≡ false

pub quiet-Inv : Inv quiet
quiet-Inv = record {
  course = λ t. tt;
  locked = λ t. refl;
  window = refl;
  faithful = tt;
  proper = refl;
}

pub owner_eq : (o : Option ℕ) (t : ℕ) → owns o t ≡ true → o ≡ some t
owner_eq none t h = ground arith
owner_eq (some o) t h = ap some ((==_iff o t).0 h)

-- Thread t changes its place and perhaps the owner; the other threads do not notice.
module _ (t : ℕ) (x : Thread) (f : ℕ → Thread) where
  pub set-course : ((u : ℕ) → OnCourse (f u)) → OnCourse x → (u : ℕ) → OnCourse (set_thread t x f u)
  set-course old new u = elim (Bool-cases (t == u)) [
    | inl same ↦ rw same new
    | inr other ↦ rw other (old u)
  ]

  pub set-locked :
      (o o' : Option ℕ)
      → ((u : ℕ) → inside (f u) ≡ owns o u)
      → inside x ≡ owns o' t
      → ((u : ℕ) → (t == u) ≡ false → owns o u ≡ owns o' u)
      → (u : ℕ) → inside (set_thread t x f u) ≡ owns o' u
  set-locked o o' old new others u = elim (Bool-cases (t == u)) [
    | inl same ↦ rw same (new ∙ ap (owns o') ((==_iff t u).0 same))
    | inr other ↦ rw other (old u ∙ others u other)
  ]

  pub set_at : set_thread t x f t ≡ x
  set_at = rw (==_self t t refl)

  -- A thread that does not hold the lock does not move the window.
  pub set-window_of :
      (o : Option ℕ) → owns o t ≡ false → window_of o (set_thread t x f) ≡ window_of o f
  set-window_of none h = refl
  set-window_of (some o) h = let other : (t == o) ≡ false = ground arith in rw other
