-- ===== src/Oqs/Objects.antt =====
-- The two answers of `OQS_SIG_new` and its kin.
use qorechain_pqc.Base.{suc, ◌≡◌, refl, ◌⊎◌, inl, inr, true, false, Option, none, some, Bool-cases}
use qorechain_pqc.Machine.{World, done}
use qorechain_pqc.Machine.Args.{ticked}
use qorechain_pqc.Oqs.{object_new}

-- One more request, and one more live object.
abbrev pub obtained : World → World
obtained w = record w { calls = suc w.calls; handles = suc w.handles }

-- There is no object: no memory for it, or no such algorithm.
abbrev pub NoObject : {A : Type 0} → Option A → World → Type 0
NoObject found w = (w.refuse w.calls ≡ true) ⊎ (found ≡ none)

pub object_new_cases :
    {A : Type 0} (found : Option A) (w : World)
    → (NoObject found w × (object_new found w ≡ done none (ticked w)))
      ⊎ ((a : A) × (found ≡ some a)
          × (w.refuse w.calls ≡ false)
          × (object_new found w ≡ done (some a) (obtained w)))
unfolding object_new
object_new_cases none w = inl (inr refl, refl)
object_new_cases (some a) w = elim (Bool-cases (w.refuse w.calls)) [
  | inl refused ↦ inl (inl refused, rw refused)
  | inr grant ↦ inr (a, refl, grant, rw grant)
]
