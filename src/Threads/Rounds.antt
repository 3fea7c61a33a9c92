-- ===== src/Threads/Rounds.antt =====
-- Calls return: schedules in which every thread below a bound goes on again and again.
use mathlib.Core.Path.{subst}
use qorechain_pqc.Base.{
  ℕ, zero, suc, ◌<◌, ◌≤◌, ◌≡◌, refl, sym, ap, ◌∙◌, ◌⊎◌, inl, inr, Bool, true, false, ◌||◌, none,
  some, List, [], ◌∷◌, ◌++◌, ◌==◌, ==_iff, ==_self, ltb, arith, length, Bool-cases, Option-cases,
}
use qorechain_pqc.Threads.{
  Thread, Process, owns, Move, start, go, raises, elsewhere, step, run, quiet,
}
use qorechain_pqc.Threads.Invariant.{Inv, inside, window_of}
use qorechain_pqc.Threads.Moves.{run_from-Inv, run-Inv}
use qorechain_pqc.Threads.Laws.{remaining, blocked, busy, resume_moves, inside_free}
use qorechain_pqc.Threads.Ahead.{ahead, Home, no_start, go_cases, raises_cases, run-Home}

-- Thread u goes on in these moves.
abbrev pub goes : ℕ → List Move → Bool
goes u [] = false
goes u (start t c ∷ moves) = goes u moves
goes u (raises t ∷ moves) = goes u moves
goes u (elsewhere ∷ moves) = goes u moves
goes u (go t ∷ moves) = t == u || goes u moves

-- Every thread below n goes on, in any order and as often as the scheduler likes, none starts a call,
-- calls may raise exceptions, and code outside the library may draw.
abbrev pub Fair : ℕ → List Move → Type 0
Fair n moves = (no_start moves ≡ true) × ((t : ℕ) → t < n → goes t moves ≡ true)

abbrev pub AllFair : ℕ → List (List Move) → Type 0
AllFair n [] = Unit
AllFair n (round ∷ rounds) = Fair n round × AllFair n rounds

abbrev pub all_moves : List (List Move) → List Move
all_moves [] = []
all_moves (round ∷ rounds) = round ++ all_moves rounds

run-append : (ms ns : List Move) (s : Process) → run (ms ++ ns) s ≡ run ns (run ms s)
unfolding run
run-append [] ns s = refl
run-append (m ∷ ms) ns s = run-append ms ns (step m s)

-- A thread that can move.
abbrev Free : ℕ → Process → Type 0
Free u s = (busy (s.thread u) ≡ true) × (blocked s.owner (s.thread u) ≡ false)

module _ (n u : ℕ) where
  own_turn : (t : ℕ) (s : Process) → (t == u) ≡ true → Free u s → step (go t) s ≡ s → false ≡ true
  unfolding step
  own_turn t s same (b, f) stays = absurd (
      omega (
        arith,
        resume_moves u s (s.thread u) b f,
        ap (λ (v : Process). remaining (v.thread u))
            (subst (λ w. step (go w) s ≡ s) ((==_iff t u).0 same) stays),
      ))

  turn_nearer :
      (moves : List Move) (s : Process)
      → no_start moves ≡ true
      → goes u moves ≡ true
      → Home n s.thread
      → Free u s
      → ahead n (run moves s).thread < ahead n s.thread
  unfolding run
  turn_nearer [] s calm turn home free = ground arith
  turn_nearer (start t c ∷ moves) s calm turn home free = ground arith
  turn_nearer (elsewhere ∷ moves) s calm turn home free =
      unfold step in turn_nearer moves (step elsewhere s) calm turn home free
  turn_nearer (raises t ∷ moves) s calm turn home free = elim (raises_cases n t s home) [
    | inr (home', nearer) ↦ omega (arith, (run-Home n moves (step (raises t) s) calm home').1)
    | inl stays ↦
        subst (λ (v : Process). ahead n (run moves v).thread < ahead n s.thread) (sym stays)
          (turn_nearer moves s calm turn home free)
  ]
  turn_nearer (go t ∷ moves) s calm turn home free = elim (go_cases n t s home) [
    | inr (home', nearer) ↦ omega (arith, (run-Home n moves (step (go t) s) calm home').1)
    | inl stays ↦ elim (Bool-cases (t == u)) [
      | inl same ↦ absurd (ground (arith, own_turn t s same free stays))
      | inr other ↦
          subst (λ (v : Process). ahead n (run moves v).thread < ahead n s.thread) (sym stays)
            (turn_nearer moves s calm (ground arith) home free)
    ]
  ]

idle_remaining : (x : Thread) → busy x ≡ false → remaining x ≡ 0
idle_remaining none h = refl
idle_remaining (some x) h = ground arith

-- Who is in a call, if anybody below n is.
find_busy : (n : ℕ) (f : ℕ → Thread) → (ahead n f ≡ 0) ⊎ ((u : ℕ) × (u < n) × (busy (f u) ≡ true))
unfolding ahead
find_busy zero f = inl refl
find_busy (suc n) f = elim (find_busy n f) [
  | inr (u, lt, b) ↦ inr (u, omega arith, b)
  | inl calm ↦ elim (Bool-cases (busy (f n))) [
    | inl b ↦ inr (n, omega arith, b)
    | inr idle ↦ inl (omega (arith, idle_remaining (f n) idle))
  ]
]

-- Nobody is in a call, or a thread below n can move: the owner of the lock if there is one.
some-Free :
    (n : ℕ) (s : Process)
    → Inv s
    → Home n s.thread
    → (ahead n s.thread ≡ 0) ⊎ ((u : ℕ) × (u < n) × Free u s)
some-Free n s inv home = elim (Option-cases s.owner) [
  | inl unowned ↦ elim (find_busy n s.thread) [
    | inl calm ↦ inl calm
    | inr (u, lt, b) ↦ inr (u, lt, (b, ap (λ o. blocked o (s.thread u)) unowned))
  ]
  | inr (o, e) ↦
      let inner : inside (s.thread o) ≡ true =
        inv.locked o ∙ ap (λ p. owns p o) e ∙ ==_self o o refl in
      elim (Bool-cases (ltb o n)) [
        | inl lt ↦ inr (o, ground arith, inside_free s.owner (s.thread o) inner)
        | inr out ↦ absurd (ground (arith, ap inside (home o (ground arith))))
      ]
]

module _ (n : ℕ) where
  rounds-Home :
      (rounds : List (List Move)) (s : Process)
      → AllFair n rounds
      → ahead n s.thread ≤ length rounds
      → Inv s
      → Home n s.thread
      → Home n (run (all_moves rounds) s).thread × (ahead n (run (all_moves rounds) s).thread ≡ 0)
  rounds-Home [] s fair enough inv home = unfold run in (home, omega arith)
  rounds-Home (round ∷ rounds) s ((calm, turns), fair) enough inv home =
      let (home', le) = run-Home n round s calm home in
      let enough' : ahead n (run round s).thread ≤ length rounds = elim (some-Free n s inv home) [
        | inl zero_ahead ↦ omega arith
        | inr (u, lt, free) ↦ omega (arith, turn_nearer n u round s calm (turns u lt) home free)
      ] in
      rw (run-append round (all_moves rounds) s)
        (rounds-Home rounds (run round s) fair enough' (run_from-Inv round s inv) home')

home_remaining : (x : Thread) → remaining x ≡ 0 → x ≡ none
home_remaining none h = refl
home_remaining (some x) h = absurd (omega arith)

ahead_zero : (n : ℕ) (f : ℕ → Thread) → ahead n f ≡ 0 → (t : ℕ) → t < n → remaining (f t) ≡ 0
unfolding ahead
ahead_zero zero f h t lt = absurd (omega arith)
ahead_zero (suc n) f h t lt = elim (Bool-cases (t == n)) [
  | inl same ↦ omega (arith, ap (λ u. remaining (f u)) ((==_iff t n).0 same))
  | inr other ↦ ahead_zero n f (omega arith) t (ground (arith, ==_iff t n))
]

all-Home : (n : ℕ) (f : ℕ → Thread) → Home n f → ahead n f ≡ 0 → (t : ℕ) → f t ≡ none
all-Home n f home done t = elim (Bool-cases (ltb t n)) [
  | inl lt ↦ home_remaining (f t) (ahead_zero n f done t (ground arith))
  | inr out ↦ home t (ground arith)
]

home_unowned :
    (s : Process) → Inv s → ((t : ℕ) → s.thread t ≡ none) → (s.owner ≡ none) × (s.zeroed ≡ false)
home_unowned s inv home = elim (Option-cases s.owner) [
  | inl free ↦ (free, inv.window ∙ ap (λ o. window_of o s.thread) free)
  | inr (o, e) ↦ absurd (
      ground
        (arith, sym (ap inside (home o)) ∙ inv.locked o ∙ ap (λ p. owns p o) e ∙ ==_self o o refl))
]

-- All calls return: after any schedule, if no thread from n on is in a call, then as many fair rounds
-- as the threads below n have steps ahead together bring every thread out of its call, and leave the
-- lock free and the system's generator in place. A fair round lets every thread below n go on, in any
-- order, starts no call, and may have exceptions in front of draws, and draws by code outside the
-- library.
pub calls_return :
    (moves : List Move) (n : ℕ) (rounds : List (List Move))
    → Home n (run moves quiet).thread
    → AllFair n rounds
    → ahead n (run moves quiet).thread ≤ length rounds
    → ((t : ℕ) → (run (moves ++ all_moves rounds) quiet).thread t ≡ none)
      × ((run (moves ++ all_moves rounds) quiet).owner ≡ none)
      × ((run (moves ++ all_moves rounds) quiet).zeroed ≡ false)
calls_return moves n rounds home fair enough =
    let s = run (moves ++ all_moves rounds) quiet in
    let (home', none_ahead) =
      rounds-Home n rounds (run moves quiet) fair enough (run-Inv moves) home in
    let out : (t : ℕ) → s.thread t ≡ none =
      rw (run-append moves (all_moves rounds) quiet)
        (all-Home n (run (all_moves rounds) (run moves quiet)).thread home' none_ahead) in
    let (unowned, plain) = home_unowned s (run-Inv (moves ++ all_moves rounds)) out in
    (out, unowned, plain)
