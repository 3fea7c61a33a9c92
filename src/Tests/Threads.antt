-- ===== src/Tests/Threads.antt =====
-- The theorems on threads, applied to a signature and a key generation that meet.
use qorechain_pqc.Base.{
  ℕ, ◌<◌, ◌≡◌, refl, true, false, none, arith, List, [], ◌∷◌, ◌++◌, zero, suc, replicate,
  length-replicate,
}
use qorechain_pqc.Threads.Ahead.{ahead, Home}
use qorechain_pqc.Threads.Rounds.{goes, Fair, AllFair, all_moves, calls_return}
use qorechain_pqc.Threads.{keygen, sign, Move, start, go, raises, elsewhere, step, run, quiet}
use qorechain_pqc.Threads.Invariant.{AllDrawn}
use qorechain_pqc.Threads.Laws.{draws_are_right, some_thread_moves, remaining}

-- Thread 1 wants the lock while thread 0 holds it; foreign code draws in the window.
abbrev meeting : List Move
meeting = start 0 sign ∷ start 1 keygen ∷ go 0 ∷ go 1 ∷ go 0 ∷ elsewhere ∷ []

-- Both draw, one after the other.
abbrev whole : List Move
whole =
    start 0 sign
    ∷ start 1 keygen
    ∷ go 0
    ∷ go 1
    ∷ go 0
    ∷ go 0
    ∷ go 0
    ∷ go 0
    ∷ go 0
    ∷ go 1
    ∷ go 1
    ∷ go 1
    ∷ go 1
    ∷ []

whole_drawn : (run whole quiet).drawn ≡ (keygen, false) ∷ (sign, true) ∷ []
unfolding run
whole_drawn = refl

-- The signature raises an exception in front of its draw; the key generation comes after it.
abbrev raised_sign : List Move
raised_sign =
    start 0 sign ∷ go 0 ∷ go 0 ∷ raises 0 ∷ go 0 ∷ go 0 ∷ start 1 keygen ∷ go 1 ∷ go 1 ∷ []

raised_drawn : (run raised_sign quiet).drawn ≡ (keygen, false) ∷ []
unfolding run
raised_drawn = refl

-- Code that does not take the lock does draw zeros.
foreign_drawn : (run meeting quiet).foreign ≡ true ∷ []
unfolding run
foreign_drawn = refl

draws_are_right_example : AllDrawn (run whole quiet).drawn × ((run whole quiet).misuse ≡ false)
draws_are_right_example = draws_are_right whole

-- Thread 1 waits.
some_thread_moves_example :
    (u : ℕ) × (remaining ((step (go u) (run meeting quiet)).thread u)
      < remaining ((run meeting quiet).thread u))
some_thread_moves_example = some_thread_moves meeting 1 (unfold run in refl)

-- The two threads in turn, with a foreign draw in between.
abbrev in_turn : List Move
in_turn = go 1 ∷ elsewhere ∷ go 0 ∷ []

turns : (t : ℕ) → t < 2 → goes t in_turn ≡ true
turns t lt = ground arith

in_turn-Fair : Fair 2 in_turn
in_turn-Fair = (refl, turns)

rounds-AllFair : (k : ℕ) → AllFair 2 (replicate k in_turn)
unfolding replicate
rounds-AllFair zero = tt
rounds-AllFair (suc k) = (in_turn-Fair, rounds-AllFair k)

abbrev eight : List (List Move)
eight = replicate 8 in_turn

meeting-Home : Home 2 (run meeting quiet).thread
unfolding run
meeting-Home t le = ground arith

meeting-ahead : ahead 2 (run meeting quiet).thread ≡ 8
unfolding run ahead
meeting-ahead = refl

calls_return_example :
    ((t : ℕ) → (run (meeting ++ all_moves eight) quiet).thread t ≡ none)
    × ((run (meeting ++ all_moves eight) quiet).owner ≡ none)
    × ((run (meeting ++ all_moves eight) quiet).zeroed ≡ false)
calls_return_example =
    calls_return meeting 2 eight meeting-Home (rounds-AllFair 8)
      (omega (arith, meeting-ahead, length-replicate 8 in_turn))
