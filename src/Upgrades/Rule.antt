-- ===== src/Upgrades/Rule.antt =====
-- `qpqc_sign_bytes_version_for_applied` against the rule that c/qorechain_pqc.h gives.
use mathlib.Core.List.{map-append}
use qorechain_pqc.Base.{
  Option, ◌⊎◌, inl, inr, ℕ, suc, ◌+◌, ◌≡◌, refl, ℤ, pos, pos_part, neg_part, ltb_ℤ, Bool, not,
  false, ◌&&◌, ◌||◌, none, some, List, [], ◌∷◌, ◌++◌, map, append_assoc, arith, if◌then◌else◌,
  length, get_elem?, get_elem?-append, length-append, length-map, Text, str_eq, ◌≤◌, sym, ◌∙◌,
}
use qorechain_pqc.Machine.{ConstPtr}
use qorechain_pqc.SignBytes.{sign_bytes_v1, sign_bytes_v2}
use qorechain_pqc.Upgrades.{
  v2_upgrades, is_legacy, version_for, scan_names, scan_records, version_for_applied,
}

infix 50 ◌≤ℤ◌
abbrev ◌≤ℤ◌ : ℤ → ℤ → Type 0
a ≤ℤ b = pos_part a + neg_part b ≤ pos_part b + neg_part a

-- What a network answered for a plan name (which may be NULL).
pub record Answer : Type 0 where
  pub name : ConstPtr
  pub height : ℤ

abbrev pub name_in : Text → List Text → Bool
name_in name [] = false
name_in name (u ∷ us) = str_eq name u || name_in name us

abbrev pub is_known : ConstPtr → Bool
is_known none = false
is_known (some name) = name_in name v2_upgrades

abbrev pub is_positive : ℤ → Bool
is_positive h = ltb_ℤ (pos 0) h

abbrev pub counts : Answer → Bool
counts a = is_known a.name && is_positive a.height

-- Some answer has a known name and a positive height.
unfoldable pub applied : List Answer → Bool
applied [] = false
applied (a ∷ as') = counts a || applied as'

abbrev raised : ConstPtr → ℤ → ℤ → ℤ
raised name h best = if is_known name && ltb_ℤ best h then h else best

best_of : List Answer → ℤ → ℤ
best_of [] best = best
best_of (a ∷ as') best = best_of as' (raised a.name a.height best)

scan_names-raised :
    (name : Text) (heights : List ℤ) (i : ℕ) (h : ℤ)
    → get_elem? heights i ≡ some h
    → (us : List Text) (best : ℤ)
    → scan_names name heights i us best ≡ some (if name_in name us && ltb_ℤ best h then h else best)
unfolding scan_names
scan_names-raised name heights i h e [] best = refl
scan_names-raised name heights i h e (u ∷ us) best = ground (
  arith,
  scan_names-raised name heights i h e us best,
  scan_names-raised name heights i h e us (if ltb_ℤ best h then h else best),
)

abbrev pub names_of : List Answer → List ConstPtr
names_of = map (λ a. a.name)

abbrev pub heights_of : List Answer → List ℤ
heights_of = map (λ a. a.height)

scan_step :
    (names : List ConstPtr) (heights : List ℤ) (rounds i : ℕ) (name : ConstPtr) (h best : ℤ)
    → get_elem? names i ≡ some name
    → get_elem? heights i ≡ some h
    → scan_records names heights (suc rounds) i best
      ≡ scan_records names heights rounds (i + 1) (raised name h best)
unfolding scan_records
scan_step names heights rounds i none h best en eh = rw (en, scan_records)
scan_step names heights rounds i (some name) h best en eh =
    rw (en, scan_records, scan_names-raised name heights i h eh v2_upgrades best)

module _ {A : Type 0} (f : Answer → A) where
  get_elem?-map :
      (before after : List Answer) (a : Answer) (more : List A)
      → get_elem? (map f (before ++ (a ∷ after)) ++ more) (length before) ≡ some (f a)
  get_elem?-map before after a more =
      rw (map-append f before (a ∷ after), append_assoc (map f before) (f a ∷ map f after) more)
        (get_elem?-append (map f before) (length before) (f a) (map f after ++ more)
          (sym (length-map f before)))

-- The arrays may go on behind the entries that are looked at.
module _ (more_names : List ConstPtr) (more_heights : List ℤ) where
  abbrev scan : List Answer → ℕ → ℕ → ℤ → Option ℤ
  scan answers = scan_records (names_of answers ++ more_names) (heights_of answers ++ more_heights)

  scan_records-best_of :
      (before after : List Answer) (best : ℤ)
      → scan (before ++ after) (length after) (length before) best ≡ some (best_of after best)
  unfolding best_of
  scan_records-best_of before [] best = unfold scan_records in refl
  scan_records-best_of before (a ∷ as') best =
      scan_step (names_of (before ++ (a ∷ as')) ++ more_names)
        (heights_of (before ++ (a ∷ as')) ++ more_heights) (length as') (length before) a.name
        a.height best (get_elem?-map (λ b. b.name) before as' a more_names)
        (get_elem?-map (λ b. b.height) before as' a more_heights)
      ∙ (rw (append_assoc before (a ∷ []) as', length-append before (a ∷ [])) at
          (scan_records-best_of (before ++ (a ∷ [])) as' (raised a.name a.height best)))

-- Whether the best height is positive is all that counts, and a negative one never gets in.
best_of_positive :
    (answers : List Answer) (best : ℤ)
    → pos 0 ≤ℤ best
    → is_positive (best_of answers best) ≡ (is_positive best || applied answers)
unfolding best_of applied
best_of_positive [] best h = ground arith
best_of_positive (a ∷ as') best h =
    ground (arith, best_of_positive as' (raised a.name a.height best))

-- The rule in the words of c/qorechain_pqc.h: v1 exactly for the two old networks, as long as no
-- known plan has a positive height.
unfoldable pub rule : ConstPtr → Bool → ℤ
rule chain_id switched = if is_legacy chain_id && not switched then sign_bytes_v1 else sign_bytes_v2

version_for-rule :
    (chain_id : ConstPtr) (h : ℤ) → version_for chain_id h ≡ rule chain_id (is_positive h)
unfolding version_for rule
version_for-rule none h = ground arith
version_for-rule (some name) h = ground arith

-- For arrays of at least n names (NULL among them or not) and n heights: no element outside the
-- arrays is read, and the answer is v1 exactly if the chain-id is one of the two old networks and none
-- of the first n entries has a known plan name and a positive height; any other answer is v2.
pub version_for_applied-rule :
    (chain_id : ConstPtr) (answers : List Answer) (more_names : List ConstPtr)
    (more_heights : List ℤ)
    → version_for_applied chain_id
        (some (names_of answers ++ more_names))
        (some (heights_of answers ++ more_heights))
        (length answers)
      ≡ some (rule chain_id (applied answers))
unfolding version_for_applied
version_for_applied-rule chain_id answers more_names more_heights = rw (
  scan_records-best_of more_names more_heights [] answers (pos 0),
  version_for-rule chain_id (best_of answers (pos 0)),
  best_of_positive answers (pos 0) (omega arith),
)

-- Without the array of names or that of heights, whatever the other one and n are, the answer is that
-- of the rule for a network on which no plan is known to be applied.
version_for_applied_null :
    (chain_id : ConstPtr) (names : Option (List ConstPtr)) (heights : Option (List ℤ)) (n : ℕ)
    → (names ≡ none) ⊎ (heights ≡ none)
    → version_for_applied chain_id names heights n ≡ some (rule chain_id false)
unfolding version_for_applied
version_for_applied_null chain_id none none n h = rw (version_for-rule chain_id (pos 0))
version_for_applied_null chain_id none (some hs) n h = rw (version_for-rule chain_id (pos 0))
version_for_applied_null chain_id (some ns) none n h = rw (version_for-rule chain_id (pos 0))
version_for_applied_null chain_id (some ns) (some hs) n (inl e) = absurd (ground arith)
version_for_applied_null chain_id (some ns) (some hs) n (inr e) = absurd (ground arith)
