-- ===== src/Threads/Laws.antt =====
-- The states that threads calling c/qorechain_pqc.c can reach together.
use mathlib.Core.List.{reverse}
use qorechain_pqc.Base.{
  ℕ, suc, ◌<◌, ◌≡◌, refl, sym, ap, ◌∙◌, Bool, true, false, Option, none, some, List, [], ◌∷◌, arith,
  ==_self, if◌then◌else◌, Bool-cases, Option-cases, inl, inr, length, some_inj,
}
use qorechain_pqc.Machine.{Event, lock, unlock, use_custom, use_system, draw}
use qorechain_pqc.Dsa.Sign.{sign_events}
use qorechain_pqc.Dsa.Hedged.{hedged_events}
use qorechain_pqc.Threads.{
  Call, keygen, sign, sign_hedged, encapsulate, program, Thread, Process, owns, advance, take_lock,
  give_lock, act, resume, Move, go, step, run, quiet,
}
use qorechain_pqc.Threads.Invariant.{is_sign, inside, AllDrawn, owner_eq, set_at}
use qorechain_pqc.Threads.Moves.{run-Inv}

-- The programs are what the single calls log (the last event first), as `mldsa_sign-SignPost`,
-- `mldsa_sign_hedged-SignPost`, `mldsa_keygen-KeygenPost` and `mlkem_encapsulate-EncapsPost` say.
program_logged :
    (c : Call) → reverse (program c) ≡ (if is_sign c then sign_events else hedged_events)
program_logged keygen = refl
program_logged sign = refl
program_logged sign_hedged = refl
program_logged encapsulate = refl

-- For every schedule of calls, of steps of threads, of exceptions that threads raise in front of
-- their draws and of foreign draws: each draw so far of a key generation, of a hedged signature or
-- of an encapsulation got the system's randomness, each draw of a deterministic signature got
-- zeros, and no thread unlocked a mutex that it does not hold.
pub draws_are_right :
    (moves : List Move) → AllDrawn (run moves quiet).drawn × ((run moves quiet).misuse ≡ false)
draws_are_right moves = let inv = run-Inv moves in (inv.faithful, inv.proper)

-- After every schedule, two threads inside a critical section are the same thread.
one_inside :
    (moves : List Move) (t u : ℕ)
    → inside ((run moves quiet).thread t) ≡ true
    → inside ((run moves quiet).thread u) ≡ true
    → t ≡ u
one_inside moves t u h k =
    let inv = run-Inv moves in
    let s : Process = run moves quiet in
    some_inj t u (
      sym (owner_eq s.owner t (sym (inv.locked t) ∙ h))
      ∙ owner_eq s.owner u (sym (inv.locked u) ∙ k))

-- The steps that a thread has ahead, its return included.
abbrev pub remaining : Thread → ℕ
remaining none = 0
remaining (some (c, rest)) = suc (length rest)

-- The thread's next step is to take a lock that is held.
abbrev pub blocked : Option ℕ → Thread → Bool
blocked (some o) (some (c, lock ∷ rest)) = true
blocked _ _ = false

abbrev pub busy : Thread → Bool
busy none = false
busy (some x) = true

module _ (u : ℕ) (s : Process) where
  take_moves :
      (o : Option ℕ) (c : Call) (rest : List Event)
      → blocked o (some (c, lock ∷ rest)) ≡ false
      → (take_lock o u c rest s).thread u ≡ some (c, rest)
  take_moves none c rest h = set_at u (some (c, rest)) s.thread
  take_moves (some o) c rest h = ground arith

  give_moves : (s' : Process) → (give_lock u s').thread u ≡ s'.thread u
  give_moves s' = elim (Bool-cases (owns s'.owner u)) [ inl own ↦ rw own | inr other ↦ rw other ]

  act_moves :
      (c : Call) (e : Event) (rest : List Event)
      → blocked s.owner (some (c, e ∷ rest)) ≡ false
      → (act u c e rest s).thread u ≡ some (c, rest)
  unfolding act
  act_moves c lock rest h = take_moves s.owner c rest h
  act_moves c unlock rest h = give_moves (advance u c rest s) ∙ set_at u (some (c, rest)) s.thread
  act_moves c use_custom rest h = set_at u (some (c, rest)) s.thread
  act_moves c use_system rest h = set_at u (some (c, rest)) s.thread
  act_moves c draw rest h = set_at u (some (c, rest)) s.thread

  pub resume_moves :
      (x : Thread)
      → busy x ≡ true
      → blocked s.owner x ≡ false
      → remaining ((resume u x s).thread u) < remaining x
  unfolding resume
  resume_moves none h k = ground arith
  resume_moves (some (c, [])) h k = omega (arith, ap remaining (set_at u none s.thread))
  resume_moves (some (c, e ∷ rest)) h k = omega (arith, ap remaining (act_moves c e rest k))

pub inside_free :
    (o : Option ℕ) (x : Thread) → inside x ≡ true → (busy x ≡ true) × (blocked o x ≡ false)
inside_free o none h = ground arith
inside_free o (some (c, [])) h = ground arith
inside_free o (some (c, lock ∷ rest)) h = ground arith
inside_free none (some (c, unlock ∷ rest)) h = (refl, refl)
inside_free (some o) (some (c, unlock ∷ rest)) h = (refl, refl)
inside_free none (some (c, use_custom ∷ rest)) h = (refl, refl)
inside_free (some o) (some (c, use_custom ∷ rest)) h = (refl, refl)
inside_free none (some (c, use_system ∷ rest)) h = (refl, refl)
inside_free (some o) (some (c, use_system ∷ rest)) h = (refl, refl)
inside_free none (some (c, draw ∷ rest)) h = (refl, refl)
inside_free (some o) (some (c, draw ∷ rest)) h = (refl, refl)

-- No deadlock: after every schedule, while some thread is in a call, some thread (the owner of the
-- lock, or any thread in a call if nobody has it) gets nearer to its return when it goes on.
pub some_thread_moves :
    (moves : List Move) (t : ℕ)
    → busy ((run moves quiet).thread t) ≡ true
    → (u : ℕ) × (remaining ((step (go u) (run moves quiet)).thread u)
        < remaining ((run moves quiet).thread u))
unfolding step
some_thread_moves moves t h =
    let inv = run-Inv moves in
    let s : Process = run moves quiet in
    elim (Option-cases s.owner) [
      | inl free ↦ (t, resume_moves t s (s.thread t) h (ap (λ o. blocked o (s.thread t)) free))
      | inr (o, e) ↦
          let inner : inside (s.thread o) ≡ true =
            inv.locked o ∙ ap (λ p. owns p o) e ∙ ==_self o o refl in
          let (b, f) = inside_free s.owner (s.thread o) inner in
          (o, resume_moves o s (s.thread o) b f)
    ]
