-- ===== src/Bindings/Python/Package.antt =====
-- The package oqs that python/qorpqc/__init__.py imports, as far as its classes use it.
use qorechain_pqc.Base.{ℕ, Bool, Option, List, Text}
use qorechain_pqc.Machine.{Source}

-- An object `oqs.Signature`. What a method computes is a function of the randomness that it draws and
-- of its arguments; `none` is an exception. The secret key of an object is the one that it was made
-- with, or the second part of the answer of `generate_keypair`.
pub record Signature : Type 0 where
  pub generate_keypair : Source → Option (List ℕ × List ℕ)
  pub export_secret_key : (own : List ℕ) → Option (List ℕ)
  pub sign_message : Source → (own : List ℕ) → (message : List ℕ) → Option (List ℕ)
  pub check : (message : List ℕ) → (signature : List ℕ) → (public_key : List ℕ) → Option Bool

-- An object `oqs.KeyEncapsulation`.
pub record KeyEncapsulation : Type 0 where
  pub generate_keypair : Source → Option (List ℕ × List ℕ)
  pub export_secret_key : (own : List ℕ) → Option (List ℕ)
  pub encap_secret : Source → (public_key : List ℕ) → Option (List ℕ × List ℕ)
  pub decap_secret : (own : List ℕ) → (ciphertext : List ℕ) → Option (List ℕ)

pub record Package : Type 0 where
  pub signature : Text → Option Signature
  pub kem : Text → Option KeyEncapsulation
