-- ===== src/Upgrades.antt =====
-- Which form of the sign-bytes a network verifies: `qpqc_sign_bytes_version_for` and
-- `qpqc_sign_bytes_version_for_applied` of c/qorechain_pqc.c.
pub mod Rule
pub mod Order
use qorechain_pqc.Base.{
  ℕ, zero, suc, ◌+◌, ℤ, pos, ltb_ℤ, Bool, ◌||◌, Option, none, some, List, [], ◌∷◌, if◌then◌else◌,
  get_elem?, Text, codes, str_eq,
}
use qorechain_pqc.Machine.{ConstPtr}
use qorechain_pqc.SignBytes.{sign_bytes_v1, sign_bytes_v2, is_null}

-- QPQC_SIGN_BYTES_V2_UPGRADE and QPQC_SIGN_BYTES_V2_UPGRADE_COUNT
abbrev pub sign_bytes_v2_upgrade : Text
sign_bytes_v2_upgrade = codes "v3.2.0"

abbrev pub sign_bytes_v2_upgrade_count : ℕ
sign_bytes_v2_upgrade_count = 2

-- qpqc_sign_bytes_v2_upgrades
abbrev pub v2_upgrades : List Text
v2_upgrades = codes "v3.2.0" ∷ codes "v3.1.98" ∷ []

-- `!strcmp(chain_id, …)` for one of the two old networks; the caller has ruled NULL out.
abbrev pub is_legacy : ConstPtr → Bool
is_legacy none = Bool.false
is_legacy (some chain_id) =
    str_eq chain_id (codes "qorechain-vladi") || str_eq chain_id (codes "qorechain-diana")

unfoldable pub version_for : ConstPtr → ℤ → ℤ
version_for chain_id v2_applied_height =
    if ltb_ℤ (pos 0) v2_applied_height || is_null chain_id
    then sign_bytes_v2
    else (if is_legacy chain_id then sign_bytes_v1 else sign_bytes_v2)

-- The inner loop, over the known names. `none` is a read outside the array.
unfoldable pub scan_names : Text → List ℤ → ℕ → List Text → ℤ → Option ℤ
scan_names name heights i [] best = some best
scan_names name heights i (u ∷ us) best = elim (str_eq name u) [
  | Bool.true ↦ elim (get_elem? heights i) [
    | none ↦ none
    | some h ↦ scan_names name heights i us (if ltb_ℤ best h then h else best)
  ]
  | Bool.false ↦ scan_names name heights i us best
]

-- The outer loop, with the rounds left.
scan_records : List ConstPtr → List ℤ → ℕ → ℕ → ℤ → Option ℤ
unfolding scan_names
scan_records names heights zero i best = some best
scan_records names heights (suc rounds) i best = elim (get_elem? names i) [
  | none ↦ none
  | some none ↦ scan_records names heights rounds (i + 1) best
  | some (some name) ↦ elim (scan_names name heights i v2_upgrades best) [
    | none ↦ none
    | some best' ↦ scan_records names heights rounds (i + 1) best'
  ]
]

best_height : Option (List ConstPtr) → Option (List ℤ) → ℕ → Option ℤ
unfolding scan_records
best_height (some names) (some heights) n = scan_records names heights n 0 (pos 0)
best_height _ _ n = some (pos 0)

then_version : ConstPtr → Option ℤ → Option ℤ
unfolding version_for
then_version chain_id none = none
then_version chain_id (some best) = some (version_for chain_id best)

-- `none` is a read outside an array.
unfoldable pub version_for_applied :
    ConstPtr → Option (List ConstPtr) → Option (List ℤ) → ℕ → Option ℤ
unfolding best_height then_version
version_for_applied chain_id names heights n = then_version chain_id (best_height names heights n)
