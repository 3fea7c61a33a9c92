-- ===== src/Bindings/Python/Handles.antt =====
-- python/qorpqc/__init__.py: the tables of the levels, and the handles of the classes MlDsa and MlKem.
use qorechain_pqc.Base.{Option, none, some, ◌>>=◌, if◌then◌else◌, Text, codes, str_eq}
use qorechain_pqc.Bindings.{Lengths, KemLengths}
use qorechain_pqc.Bindings.Python.{mldsa_lengths}

abbrev pub mldsa_levels : Text → Option Text
mldsa_levels level =
    if str_eq level (codes "ml-dsa-44")
    then some (codes "ML-DSA-44")
    else (if str_eq level (codes "ml-dsa-65")
        then some (codes "ML-DSA-65")
        else (if str_eq level (codes "ml-dsa-87") then some (codes "ML-DSA-87") else none))

abbrev pub mlkem_levels : Text → Option Text
mlkem_levels level =
    if str_eq level (codes "ml-kem-512")
    then some (codes "ML-KEM-512")
    else (if str_eq level (codes "ml-kem-768")
        then some (codes "ML-KEM-768")
        else (if str_eq level (codes "ml-kem-1024") then some (codes "ML-KEM-1024") else none))

abbrev pub mlkem_lengths : Text → Option KemLengths
mlkem_lengths level =
    if str_eq level (codes "ml-kem-512")
    then some (record { public_key = 800; secret_key = 1632; ciphertext = 768 })
    else (if str_eq level (codes "ml-kem-768")
        then some (record { public_key = 1184; secret_key = 2400; ciphertext = 1088 })
        else (if str_eq level (codes "ml-kem-1024")
            then some (record { public_key = 1568; secret_key = 3168; ciphertext = 1568 })
            else none))

-- A handle of class MlDsa.
pub record MlDsa : Type 0 where
  pub alg : Text
  pub lens : Lengths

-- A handle of class MlKem.
pub record MlKem : Type 0 where
  pub alg : Text
  pub lens : KemLengths

-- `MlDsa.__init__`; a KeyError is `none`.
unfoldable pub mldsa_handle : Text → Option MlDsa
mldsa_handle level = do
  name ← mldsa_levels level
  lengths ← mldsa_lengths level
  some (record { alg = name; lens = lengths })

-- `MlKem.__init__`
unfoldable pub mlkem_handle : Text → Option MlKem
mlkem_handle level = do
  name ← mlkem_levels level
  lengths ← mlkem_lengths level
  some (record { alg = name; lens = lengths })
