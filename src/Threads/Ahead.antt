-- ===== src/Threads/Ahead.antt =====
-- What a schedule that starts no call does to the steps that all threads together have ahead.
use mathlib.Core.Path.{subst}
use qorechain_pqc.Base.{
  ℕ, zero, suc, ◌+◌, ◌<◌, ◌≤◌, ◌≡◌, refl, sym, ap, ◌⊎◌, inl, inr, Bool, true, false, Option, none,
  some, List, [], ◌∷◌, ◌==◌, arith, Bool-cases, ==_iff, ltb,
}
use qorechain_pqc.Machine.{Event, lock, unlock, use_custom, use_system, draw}
use qorechain_pqc.Threads.{
  Call, Thread, Process, owns, set_thread, advance, take_lock, give_lock, act, resume, skip_draw,
  Move, start, go, raises, elsewhere, step, run,
}
use qorechain_pqc.Threads.Laws.{remaining}

-- The steps ahead of the threads below n.
unfoldable pub ahead : ℕ → (ℕ → Thread) → ℕ
ahead zero f = 0
ahead (suc n) f = remaining (f n) + ahead n f

-- Every thread from n on is outside.
abbrev pub Home : ℕ → (ℕ → Thread) → Type 0
Home n f = (t : ℕ) → n ≤ t → f t ≡ none

give-thread : (t : ℕ) (s : Process) → (give_lock t s).thread ≡ s.thread
give-thread t s = elim (Bool-cases (owns s.owner t)) [ inl own ↦ rw own | inr other ↦ rw other ]

take_cases :
    (o : Option ℕ) (t : ℕ) (c : Call) (rest : List Event) (s : Process)
    → (take_lock o t c rest s ≡ s)
      ⊎ ((take_lock o t c rest s).thread ≡ set_thread t (some (c, rest)) s.thread)
take_cases none t c rest s = inr refl
take_cases (some o) t c rest s = inl refl

-- A thread that goes on stays where it is, or it alone gets nearer to its return.
act_cases :
    (t : ℕ) (c : Call) (e : Event) (rest : List Event) (s : Process)
    → (act t c e rest s ≡ s) ⊎ ((act t c e rest s).thread ≡ set_thread t (some (c, rest)) s.thread)
unfolding act
act_cases t c lock rest s = take_cases s.owner t c rest s
act_cases t c unlock rest s = inr (give-thread t (advance t c rest s))
act_cases t c use_custom rest s = inr refl
act_cases t c use_system rest s = inr refl
act_cases t c draw rest s = inr refl

resume_cases :
    (t : ℕ) (x : Thread) (s : Process)
    → (resume t x s ≡ s)
      ⊎ ((y : Thread) × ((resume t x s).thread ≡ set_thread t y s.thread)
          × (remaining y < remaining x))
unfolding resume
resume_cases t none s = inl refl
resume_cases t (some (c, [])) s = inr (none, refl, omega arith)
resume_cases t (some (c, e ∷ rest)) s = elim (act_cases t c e rest s) [
  | inl same ↦ inl same
  | inr moved ↦ inr (some (c, rest), moved, omega arith)
]

skip_cases :
    (t : ℕ) (x : Thread) (s : Process)
    → (skip_draw t x s ≡ s)
      ⊎ ((y : Thread) × ((skip_draw t x s).thread ≡ set_thread t y s.thread)
          × (remaining y < remaining x))
unfolding skip_draw
skip_cases t none s = inl refl
skip_cases t (some (c, [])) s = inl refl
skip_cases t (some (c, lock ∷ rest)) s = inl refl
skip_cases t (some (c, unlock ∷ rest)) s = inl refl
skip_cases t (some (c, use_custom ∷ rest)) s = inl refl
skip_cases t (some (c, use_system ∷ rest)) s = inl refl
skip_cases t (some (c, draw ∷ rest)) s = inr (some (c, rest), refl, omega arith)

module _ (t : ℕ) (y : Thread) (f : ℕ → Thread) where
  ahead-unset : (n : ℕ) → n ≤ t → ahead n (set_thread t y f) ≡ ahead n f
  unfolding ahead
  ahead-unset zero le = refl
  ahead-unset (suc n) le = ground (arith, ahead-unset n (omega arith))

  ahead-set :
      (n : ℕ) → t < n → ahead n (set_thread t y f) + remaining (f t) ≡ ahead n f + remaining y
  unfolding ahead
  ahead-set zero lt = absurd (omega arith)
  ahead-set (suc n) lt = elim (Bool-cases (t == n)) [
    | inl same ↦ rw same (
        omega (
          arith,
          ap (λ u. remaining (f u)) ((==_iff t n).0 same),
          ahead-unset n (omega (arith, (==_iff t n).0 same)),
        ))
    | inr other ↦ rw other (omega (arith, ahead-set n (ground (arith, ==_iff t n))))
  ]

  set-Home : (n : ℕ) → t < n → Home n f → Home n (set_thread t y f)
  set-Home n lt home u le = let other : (t == u) ≡ false = ground arith in rw other (home u le)

-- No move of these starts a call.
abbrev pub no_start : List Move → Bool
no_start [] = true
no_start (start t c ∷ moves) = false
no_start (_ ∷ moves) = no_start moves

module _ (n : ℕ) where
  nearer_cases :
      (t : ℕ) (s s' : Process)
      → Home n s.thread
      → ((s' ≡ s)
          ⊎ ((y : Thread) × (s'.thread ≡ set_thread t y s.thread)
              × (remaining y < remaining (s.thread t))))
      → (s' ≡ s) ⊎ (Home n s'.thread × (ahead n s'.thread < ahead n s.thread))
  nearer_cases t s s' home (inl same) = inl same
  nearer_cases t s s' home (inr (y, moved, nearer)) =
      let inside_range : t < n = elim (Bool-cases (ltb t n)) [
        | inl lt ↦ ground arith
        | inr out ↦ absurd (omega (arith, ap remaining (home t (ground arith))))
      ] in
      inr (
        rw moved (set-Home t y s.thread n inside_range home),
        omega (arith, ap (ahead n) moved, ahead-set t y s.thread n inside_range),
      )

  -- A thread that goes on leaves the state as it is, or brings all threads together nearer to their
  -- returns.
  pub go_cases :
      (t : ℕ) (s : Process)
      → Home n s.thread
      → (step (go t) s ≡ s)
        ⊎ (Home n (step (go t) s).thread × (ahead n (step (go t) s).thread < ahead n s.thread))
  unfolding step
  go_cases t s home = nearer_cases t s (step (go t) s) home (resume_cases t (s.thread t) s)

  -- So does a thread that raises an exception.
  pub raises_cases :
      (t : ℕ) (s : Process)
      → Home n s.thread
      → (step (raises t) s ≡ s)
        ⊎ (Home n (step (raises t) s).thread
            × (ahead n (step (raises t) s).thread < ahead n s.thread))
  unfolding step
  raises_cases t s home = nearer_cases t s (step (raises t) s) home (skip_cases t (s.thread t) s)

  pub run-Home :
      (moves : List Move) (s : Process)
      → no_start moves ≡ true
      → Home n s.thread
      → Home n (run moves s).thread × (ahead n (run moves s).thread ≤ ahead n s.thread)
  unfolding run
  run-Home [] s calm home = (home, omega arith)
  run-Home (start t c ∷ moves) s calm home = ground arith
  run-Home (elsewhere ∷ moves) s calm home =
      unfold step in run-Home moves (step elsewhere s) calm home
  run-Home (raises t ∷ moves) s calm home = elim (raises_cases t s home) [
    | inl same ↦
        subst (λ v. Home n (run moves v).thread × (ahead n (run moves v).thread ≤ ahead n s.thread))
          (sym same) (run-Home moves s calm home)
    | inr (home', nearer) ↦
        let (h, le) = run-Home moves (step (raises t) s) calm home' in (h, omega arith)
  ]
  run-Home (go t ∷ moves) s calm home = elim (go_cases t s home) [
    | inl same ↦
        subst (λ v. Home n (run moves v).thread × (ahead n (run moves v).thread ≤ ahead n s.thread))
          (sym same) (run-Home moves s calm home)
    | inr (home', nearer) ↦
        let (h, le) = run-Home moves (step (go t) s) calm home' in (h, omega arith)
  ]
