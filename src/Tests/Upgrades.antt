-- ===== src/Tests/Upgrades.antt =====
-- The theorems on the choice of the form, applied to the answers of the test network.
use qorechain_pqc.Base.{
  ◌≡◌, refl, pos, negsuc, none, some, List, [], ◌∷◌, ◌++◌, codes, strcmp, length,
}
use qorechain_pqc.Machine.{ConstPtr}
use qorechain_pqc.SignBytes.{sign_bytes_v1, sign_bytes_v2}
use qorechain_pqc.Upgrades.{
  sign_bytes_v2_upgrade, sign_bytes_v2_upgrade_count, v2_upgrades, version_for_applied,
}
use qorechain_pqc.Upgrades.Rule.{
  Answer, applied, names_of, heights_of, rule, version_for_applied-rule,
}
use qorechain_pqc.Upgrades.Order.{asked, version_for_applied_stays}

abbrev diana : ConstPtr
diana = some (codes "qorechain-diana")

-- Switched under the second name at height 120, never under the first.
abbrev answers : List Answer
answers =
    record { name = some (codes "v3.2.0"); height = pos 0 }
    ∷ record { name = some (codes "v3.1.98"); height = pos 120 }
    ∷ []

abbrev nobody : List Answer
nobody = record { name = none; height = negsuc 4 } ∷ []

-- The arrays have a third entry, and the count says two.
version_for_applied-rule_example :
    version_for_applied diana
      (some (names_of answers ++ none ∷ []))
      (some (heights_of answers ++ pos 5 ∷ []))
      2
    ≡ some (rule diana (applied answers))
version_for_applied-rule_example = version_for_applied-rule diana answers (none ∷ []) (pos 5 ∷ [])

-- Before the switch, at it, and with no such network.
asked_v1 : asked diana nobody ≡ some sign_bytes_v1
unfolding version_for_applied strcmp
asked_v1 = refl

asked_v2 : asked diana answers ≡ some sign_bytes_v2
unfolding version_for_applied strcmp
asked_v2 = refl

-- The answer for the primary name alone misreads that network, as the header says.
asked_primary :
    asked diana (record { name = some sign_bytes_v2_upgrade; height = pos 0 } ∷ [])
    ≡ some sign_bytes_v1
unfolding version_for_applied strcmp
asked_primary = refl

names_counted : length v2_upgrades ≡ sign_bytes_v2_upgrade_count
names_counted = refl

asked_other : asked (some (codes "qorechain-nova")) nobody ≡ some sign_bytes_v2
unfolding version_for_applied strcmp
asked_other = refl

version_for_applied_stays_example : asked diana (nobody ++ (answers ++ nobody)) ≡ some sign_bytes_v2
version_for_applied_stays_example = version_for_applied_stays diana nobody answers nobody asked_v2
