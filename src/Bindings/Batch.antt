-- ===== src/Bindings/Batch.antt =====
-- `batchVerify` of js/src/index.js.
use qorechain_pqc.Base.{
  ℕ, suc, ◌+◌, ◌≡◌, refl, ap, ◌∙◌, ◌⊎◌, inl, inr, ℤ, pos, negsuc, Bool, true, false, Option, List,
  [], ◌∷◌, ◌++◌, arith, length, Bool-cases,
}
use qorechain_pqc.Bindings.{Lengths, Verifier}
use qorechain_pqc.Bindings.Js.{Item, or_nothing, verify, batch_from, batch_verify}

module _ (scheme : Verifier) (lens : Lengths) where
  -- What `verify` says of one element.
  abbrev pub verdict : Option Item → Bool
  verdict item =
      let it = or_nothing item in verify scheme lens it.public_key it.message it.signature

  abbrev pub AllValid : List (Option Item) → Type 0
  AllValid [] = Unit
  AllValid (item ∷ items) = (verdict item ≡ true) × AllValid items

  -- The answer for the elements from the index i on: -1 and all are valid, or the index of one that is
  -- not, with only valid ones in front of it.
  abbrev pub Batch : ℕ → List (Option Item) → ℤ → Type 0
  Batch i items answer =
      ((answer ≡ negsuc 0) × AllValid items)
      ⊎ ((front : List (Option Item)) × (bad : Option Item) × (back : List (Option Item)) × (items
            ≡ front ++ bad ∷ back)
          × AllValid front
          × (verdict bad ≡ false)
          × (answer ≡ pos (i + length front)))

  batch_from-Batch :
      (i : ℕ) (items : List (Option Item)) → Batch i items (batch_from scheme lens i items)
  unfolding batch_from
  batch_from-Batch i [] = inl (refl, tt)
  batch_from-Batch i (item ∷ items) = elim (Bool-cases (verdict item)) [
    | inr bad ↦ rw bad (inr ([], item, items, refl, tt, bad, ap pos (omega arith)))
    | inl good ↦ rw good (elim (batch_from-Batch (suc i) items) [
      | inl (e, valid) ↦ inl (e, (refl, valid))
      | inr (front, bad, back, split, valid, wrong, e) ↦ inr (
        item ∷ front,
        bad,
        back,
        ap (λ l. item ∷ l) split,
        (good, valid),
        wrong,
        e ∙ ap pos (omega arith),
      )
    ])
  ]

  -- `batchVerify` answers -1 and every element of the array is valid, or it answers the index of an
  -- element that is not valid, and all in front of it are.
  pub batch_verify-Batch :
      (items : List (Option Item)) → Batch 0 items (batch_verify scheme lens items)
  unfolding batch_verify
  batch_verify-Batch items = batch_from-Batch 0 items
