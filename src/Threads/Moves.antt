-- ===== src/Threads/Moves.antt =====
-- The moves of the threads against the invariant.
use mathlib.Core.Path.{subst}
use qorechain_pqc.Base.{
  ℕ, ◌≡◌, refl, sym, ap, ◌∙◌, Bool, true, false, Option, none, some, List, [], ◌∷◌, ==_self,
}
use qorechain_pqc.Machine.{Event, lock, unlock, use_custom, use_system, draw}
use qorechain_pqc.Threads.{
  Call, keygen, sign, sign_hedged, encapsulate, program, Thread, Process, owns, set_thread, advance,
  take_lock, give_lock, act, resume, skip_draw, enter, Move, start, go, raises, elsewhere, step,
  run, quiet,
}
use qorechain_pqc.Threads.Invariant.{
  is_sign, after_draw, RestOf, OnCourse, inside, in_window, window_of, AllDrawn, Inv, quiet-Inv,
  owner_eq, set-course, set-locked, set_at, set-window_of,
}

abbrev tail_of : List Event → List Event
tail_of [] = []
tail_of (e ∷ es) = es

-- Where a call stands when it has the lock.
abbrev Entered : Call → List Event → Type 0
Entered c rest =
    RestOf c rest × (inside (some (c, rest)) ≡ true) × (in_window (some (c, rest)) ≡ false)

program-Entered : (c : Call) → Entered c (tail_of (program c))
program-Entered keygen = (refl, refl, refl)
program-Entered sign = ((refl, refl), refl, refl)
program-Entered sign_hedged = (refl, refl, refl)
program-Entered encapsulate = (refl, refl, refl)

drawn_course :
    (c : Call)
    → RestOf c (after_draw c)
      × (inside (some (c, after_draw c)) ≡ true)
      × (is_sign c ≡ in_window (some (c, after_draw c)))
drawn_course keygen = (refl, refl, refl)
drawn_course sign = ((refl, refl), refl, refl)
drawn_course sign_hedged = (refl, refl, refl)
drawn_course encapsulate = (refl, refl, refl)

program_course :
    (c : Call) → OnCourse (some (c, program c)) × (inside (some (c, program c)) ≡ false)
program_course keygen = (refl, refl)
program_course sign = (refl, refl)
program_course sign_hedged = (refl, refl)
program_course encapsulate = (refl, refl)

module _ (t : ℕ) (s : Process) (inv : Inv s) where
  -- The owner takes a step inside the critical section.
  within-Inv :
      (x : Thread) (z : Bool) (ds : List (Call × Bool))
      → owns s.owner t ≡ true
      → OnCourse x
      → inside x ≡ true
      → z ≡ in_window x
      → AllDrawn ds
      → Inv (record s { thread = set_thread t x s.thread; zeroed = z; drawn = ds })
  within-Inv x z ds own course inner window faithful = record {
    course = set-course t x s.thread inv.course course;
    locked = set-locked t x s.thread s.owner s.owner inv.locked (inner ∙ sym own) (λ u h. refl);
    window =
        subst (λ o. z ≡ window_of o (set_thread t x s.thread)) (sym (owner_eq s.owner t own))
          (window ∙ sym (ap in_window (set_at t x s.thread)));
    faithful = faithful;
    proper = inv.proper;
  }

  -- A thread outside of it takes a step there.
  beside-Inv :
      (x : Thread)
      → owns s.owner t ≡ false
      → OnCourse x
      → inside x ≡ false
      → Inv (record s { thread = set_thread t x s.thread })
  beside-Inv x away course outer = record {
    course = set-course t x s.thread inv.course course;
    locked = set-locked t x s.thread s.owner s.owner inv.locked (outer ∙ sym away) (λ u h. refl);
    window = inv.window ∙ sym (set-window_of t x s.thread s.owner away);
    faithful = inv.faithful;
    proper = inv.proper;
  }

  module _ (c : Call) (rest : List Event) where
    take_lock-Inv :
        (o : Option ℕ) → s.owner ≡ o → lock ∷ rest ≡ program c → Inv (take_lock o t c rest s)
    take_lock-Inv (some o) e h = inv
    take_lock-Inv none e h =
        let (course, inner, window) = subst (Entered c) (sym (ap tail_of h)) (program-Entered c) in
        record {
          course = set-course t (some (c, rest)) s.thread inv.course course;
          locked =
              set-locked t (some (c, rest)) s.thread s.owner (some t) inv.locked
                (inner ∙ sym (==_self t t refl)) (λ u h. ap (λ o. owns o u) e ∙ sym h);
          window =
              inv.window
              ∙ ap (λ o. window_of o s.thread) e
              ∙ sym (ap in_window (set_at t (some (c, rest)) s.thread) ∙ window);
          faithful = inv.faithful;
          proper = inv.proper;
        }

    give_lock-Inv :
        owns s.owner t ≡ true
        → rest ≡ []
        → s.zeroed ≡ false
        → Inv (give_lock t (advance t c rest s))
    give_lock-Inv own nil plain =
        rw (own, nil)
          (record {
            course = set-course t (some (c, [])) s.thread inv.course tt;
            locked =
                set-locked t (some (c, [])) s.thread s.owner none inv.locked refl
                  (λ u h. ap (λ o. owns o u) (owner_eq s.owner t own) ∙ h);
            window = plain;
            faithful = inv.faithful;
            proper = inv.proper;
          })

    -- The generator, as the thread that holds the lock sees it.
    seen : (x : Thread) → s.thread t ≡ x → owns s.owner t ≡ true → s.zeroed ≡ in_window x
    seen x e own =
        inv.window ∙ ap (λ o. window_of o s.thread) (owner_eq s.owner t own) ∙ ap in_window e

    act-Inv :
        (e : Event)
        → RestOf c (e ∷ rest)
        → s.thread t ≡ some (c, e ∷ rest)
        → inside (some (c, e ∷ rest)) ≡ owns s.owner t
        → Inv (act t c e rest s)
    unfolding act
    act-Inv lock h at own = take_lock-Inv s.owner refl h
    act-Inv unlock h at own =
        give_lock-Inv (sym own) h (seen (some (c, unlock ∷ rest)) at (sym own))
    act-Inv use_custom (is, h) at own =
        within-Inv (some (c, rest)) true s.drawn (sym own)
          (subst (RestOf c) (sym h) (sym (ap after_draw is))) (ap (λ r. inside (some (c, r))) h)
          (sym (ap is_sign is) ∙ sym (ap (λ r. in_window (some (c, r))) h)) inv.faithful
    act-Inv use_system (is, h) at own =
        within-Inv (some (c, rest)) false s.drawn (sym own) (subst (RestOf c) (sym h) refl)
          (ap (λ r. inside (some (c, r))) h) (sym (ap (λ r. in_window (some (c, r))) h))
          inv.faithful
    act-Inv draw h at own =
        let zeros : s.zeroed ≡ is_sign c = seen (some (c, draw ∷ rest)) at (sym own) in
        let (course, inner, window) = drawn_course c in
        within-Inv (some (c, rest)) s.zeroed ((c, s.zeroed) ∷ s.drawn) (sym own)
          (subst (RestOf c) (sym h) course) (ap (λ r. inside (some (c, r))) h ∙ inner)
          (zeros ∙ window ∙ sym (ap (λ r. in_window (some (c, r))) h)) (zeros, inv.faithful)

  resume-Inv : (x : Thread) → s.thread t ≡ x → Inv (resume t x s)
  unfolding resume
  resume-Inv none e = inv
  resume-Inv (some (c, [])) e = beside-Inv none (sym (inv.locked t) ∙ ap inside e) tt refl
  resume-Inv (some (c, ev ∷ rest)) e =
      act-Inv c rest ev (subst OnCourse e (inv.course t)) e (sym (ap inside e) ∙ inv.locked t)

  skip_step-Inv :
      (c : Call) (e : Event) (rest : List Event)
      → RestOf c (e ∷ rest)
      → s.thread t ≡ some (c, e ∷ rest)
      → Inv (skip_draw t (some (c, e ∷ rest)) s)
  unfolding skip_draw
  skip_step-Inv c lock rest h at = inv
  skip_step-Inv c unlock rest h at = inv
  skip_step-Inv c use_custom rest h at = inv
  skip_step-Inv c use_system rest h at = inv
  skip_step-Inv c draw rest h at =
      let own : owns s.owner t ≡ true = sym (inv.locked t) ∙ ap inside at in
      let zeros : s.zeroed ≡ is_sign c = seen c (draw ∷ rest) (some (c, draw ∷ rest)) at own in
      let (course, inner, window) = drawn_course c in
      within-Inv (some (c, rest)) s.zeroed s.drawn own (subst (RestOf c) (sym h) course)
        (ap (λ r. inside (some (c, r))) h ∙ inner)
        (zeros ∙ window ∙ sym (ap (λ r. in_window (some (c, r))) h)) inv.faithful

  skip_draw-Inv : (x : Thread) → s.thread t ≡ x → Inv (skip_draw t x s)
  skip_draw-Inv none e = unfold skip_draw in inv
  skip_draw-Inv (some (c, [])) e = unfold skip_draw in inv
  skip_draw-Inv (some (c, ev ∷ rest)) e =
      skip_step-Inv c ev rest (subst OnCourse e (inv.course t)) e

  enter-Inv : (c : Call) (x : Thread) → s.thread t ≡ x → Inv (enter t c x s)
  unfolding enter
  enter-Inv c (some _) e = inv
  enter-Inv c none e =
      beside-Inv (some (c, program c)) (sym (inv.locked t) ∙ ap inside e) (program_course c).0
        (program_course c).1

pub step-Inv : (m : Move) (s : Process) → Inv s → Inv (step m s)
unfolding step
step-Inv (start t c) s inv = enter-Inv t s inv c (s.thread t) refl
step-Inv (go t) s inv = resume-Inv t s inv (s.thread t) refl
step-Inv (raises t) s inv = skip_draw-Inv t s inv (s.thread t) refl
step-Inv elsewhere s inv = record {
  course = inv.course;
  locked = inv.locked;
  window = inv.window;
  faithful = inv.faithful;
  proper = inv.proper;
}

pub run_from-Inv : (moves : List Move) (s : Process) → Inv s → Inv (run moves s)
unfolding run
run_from-Inv [] s inv = inv
run_from-Inv (m ∷ moves) s inv = run_from-Inv moves (step m s) (step-Inv m s inv)

pub run-Inv : (moves : List Move) → Inv (run moves quiet)
run-Inv moves = run_from-Inv moves quiet quiet-Inv
