-- ===== src/Upgrades/Order.antt =====
-- `qpqc_sign_bytes_version_for_applied` on entries in another order and on more entries.
use mathlib.Core.Logic.{∥∥₁_elim}
use mathlib.Core.List.{Perm, Permᴰ}
use qorechain_pqc.Base.{
  append-nil, ◌≡◌, refl, ◌∙◌, Bool, ◌||◌, Option, some, List, [], ◌∷◌, ◌++◌, arith, length, ℤ,
}
use qorechain_pqc.Machine.{ConstPtr}
use qorechain_pqc.SignBytes.{sign_bytes_v2}
use qorechain_pqc.Upgrades.{version_for_applied}
use qorechain_pqc.Upgrades.Rule.{
  Answer, applied, counts, names_of, heights_of, rule, version_for_applied-rule,
}

Bool-set : IsSet Bool
Bool-set = hlevel

swap_counts : (a b c : Bool) → (a || (b || c)) ≡ (b || (a || c))
swap_counts a b c = ground arith

applied-permᴰ : {xs ys : List Answer} → Permᴰ xs ys → applied xs ≡ applied ys
unfolding applied
applied-permᴰ Permᴰ.nil = refl
applied-permᴰ (Permᴰ.cons {a} {b} {l₁} {l₂} e p) =
    let ih : applied l₁ ≡ applied l₂ = applied-permᴰ p in rw (e, ih)
applied-permᴰ (Permᴰ.swap {a} {b} {a'} {b'} {l} e f) =
    rw (e, f) (swap_counts (counts b') (counts a') (applied l))
applied-permᴰ (Permᴰ.trans p q) = applied-permᴰ p ∙ applied-permᴰ q

applied-append : (xs ys : List Answer) → applied (xs ++ ys) ≡ (applied xs || applied ys)
unfolding applied
applied-append [] ys = refl
applied-append (x ∷ xs) ys = ground (arith, applied-append xs ys)

abbrev pub asked : ConstPtr → List Answer → Option ℤ
asked chain_id answers =
    version_for_applied chain_id (some (names_of answers)) (some (heights_of answers))
      (length answers)

pub asked-rule :
    (chain_id : ConstPtr) (answers : List Answer)
    → asked chain_id answers ≡ some (rule chain_id (applied answers))
asked-rule chain_id answers =
    rw (append-nil (names_of answers), append-nil (heights_of answers)) at
      (version_for_applied-rule chain_id answers [] [])

-- For arrays of names and heights as long as each other: entries in another order give the same
-- answer.
version_for_applied-perm :
    (chain_id : ConstPtr) (xs ys : List Answer) → Perm xs ys → asked chain_id xs ≡ asked chain_id ys
version_for_applied-perm chain_id xs ys p = rw (
  asked-rule chain_id xs,
  asked-rule chain_id ys,
  ∥∥₁_elim p (Bool-set (applied xs) (applied ys)) applied-permᴰ,
)

-- If the answers of a network say v2, they still do with any further entries in front of them and
-- behind them.
pub version_for_applied_stays :
    (chain_id : ConstPtr) (before answers after : List Answer)
    → asked chain_id answers ≡ some sign_bytes_v2
    → asked chain_id (before ++ (answers ++ after)) ≡ some sign_bytes_v2
unfolding rule
version_for_applied_stays chain_id before answers after h = ground (
  arith,
  asked-rule chain_id answers,
  asked-rule chain_id (before ++ (answers ++ after)),
  applied-append before (answers ++ after),
  applied-append answers after,
)
