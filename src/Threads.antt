-- ===== src/Threads.antt =====
-- Threads that call c/qorechain_pqc.c at the same time: the steps that the functions take on what the
-- threads share, the lock `qpqc_rng_lock` and the generator of liboqs, in any order. The methods of
-- python/qorpqc/__init__.py take the same steps on `_rng_lock`, but may raise an exception.
pub mod Invariant
pub mod Moves
pub mod Laws
pub mod Ahead
pub mod Rounds
use qorechain_pqc.Base.{
  ℕ, Bool, true, false, Option, none, some, List, [], ◌∷◌, ◌==◌, if◌then◌else◌,
}
use qorechain_pqc.Machine.{Event, lock, unlock, use_custom, use_system, draw}

-- The functions that take the lock.
pub data Call : Type 0 where
  keygen sign sign_hedged encapsulate : Call

-- What a call does between `pthread_mutex_lock` and `pthread_mutex_unlock`, these two included.
abbrev pub program : Call → List Event
program keygen = lock ∷ draw ∷ unlock ∷ []
program sign = lock ∷ use_custom ∷ draw ∷ use_system ∷ unlock ∷ []
program sign_hedged = lock ∷ draw ∷ unlock ∷ []
program encapsulate = lock ∷ draw ∷ unlock ∷ []

-- A thread: outside these functions, or in a call with these steps ahead.
abbrev pub Thread : Type 0
Thread = Option (Call × List Event)

pub record Process : Type 0 where
  -- the thread that holds qpqc_rng_lock
  pub owner : Option ℕ
  -- the generator is `qpqc_zero_rng`
  pub zeroed : Bool
  pub thread : ℕ → Thread
  -- the draws so far, the last one first: the call, and whether it drew zeros
  pub drawn : List (Call × Bool)
  -- draws of other users of liboqs, which do not take the lock
  pub foreign : List Bool
  -- a thread unlocked a mutex that it does not hold
  pub misuse : Bool

abbrev pub owns : Option ℕ → ℕ → Bool
owns none t = false
owns (some o) t = o == t

abbrev pub set_thread : ℕ → Thread → (ℕ → Thread) → ℕ → Thread
set_thread t x f u = if t == u then x else f u

-- Thread t goes on to these steps.
abbrev pub advance : ℕ → Call → List Event → Process → Process
advance t c rest s = record s { thread = set_thread t (some (c, rest)) s.thread }

-- A lock that is held keeps the thread where it is.
abbrev pub take_lock : Option ℕ → ℕ → Call → List Event → Process → Process
take_lock none t c rest s = record (advance t c rest s) { owner = some t }
take_lock (some o) t c rest s = s

abbrev pub give_lock : ℕ → Process → Process
give_lock t s = if owns s.owner t then record s { owner = none } else record s { misuse = true }

unfoldable pub act : ℕ → Call → Event → List Event → Process → Process
act t c lock rest s = take_lock s.owner t c rest s
act t c unlock rest s = give_lock t (advance t c rest s)
act t c use_custom rest s = record (advance t c rest s) { zeroed = true }
act t c use_system rest s = record (advance t c rest s) { zeroed = false }
act t c draw rest s = record (advance t c rest s) { drawn = (c, s.zeroed) ∷ s.drawn }

unfoldable pub resume : ℕ → Thread → Process → Process
unfolding act
resume t none s = s
resume t (some (c, [])) s = record s { thread = set_thread t none s.thread }
resume t (some (c, e ∷ rest)) s = act t c e rest s

unfoldable pub enter : ℕ → Call → Thread → Process → Process
enter t c none s = advance t c (program c) s
enter t c (some _) s = s

-- The call raises an exception in front of its draw, and goes on behind it. No function of
-- c/qorechain_pqc.c does; in python/qorpqc/__init__.py the package oqs may have no object to give.
skip_step : ℕ → Call → Event → List Event → Process → Process
skip_step t c lock rest s = s
skip_step t c unlock rest s = s
skip_step t c use_custom rest s = s
skip_step t c use_system rest s = s
skip_step t c draw rest s = advance t c rest s

unfoldable pub skip_draw : ℕ → Thread → Process → Process
unfolding skip_step
skip_draw t none s = s
skip_draw t (some (c, [])) s = s
skip_draw t (some (c, e ∷ rest)) s = skip_step t c e rest s

-- What the scheduler picks: a thread that starts a call, a thread that goes on, a thread that raises
-- an exception if it is in front of its draw, or code outside the library that draws randomness from
-- liboqs.
pub data Move : Type 0 where
  start : ℕ → Call → Move
  go : ℕ → Move
  raises : ℕ → Move
  elsewhere : Move

unfoldable pub step : Move → Process → Process
unfolding enter resume skip_draw
step (start t c) s = enter t c (s.thread t) s
step (go t) s = resume t (s.thread t) s
step (raises t) s = skip_draw t (s.thread t) s
step elsewhere s = record s { foreign = s.zeroed ∷ s.foreign }

unfoldable pub run : List Move → Process → Process
unfolding step
run [] s = s
run (m ∷ moves) s = run moves (step m s)

abbrev pub quiet : Process
quiet = record {
  owner = none;
  zeroed = false;
  thread = λ t. none;
  drawn = [];
  foreign = [];
  misuse = false;
}
