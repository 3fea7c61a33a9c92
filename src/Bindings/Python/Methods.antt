-- ===== src/Bindings/Python/Methods.antt =====
-- python/qorpqc/__init__.py: the methods of MlDsa and MlKem over the package oqs.
use qorechain_pqc.Base.{
  ℕ, Bool, false, not, ◌||◌, Option, none, some, List, length, ◌==◌, if◌then◌else◌, replicate,
}
use qorechain_pqc.Bindings.Python.Handles.{MlDsa, MlKem}
use qorechain_pqc.Bindings.Python.Package.{Signature, Package}
use qorechain_pqc.Bindings.Python.Effects.{
  value_error, Action, pure, raise, or_raise, ◌>>=◌, ◌>>◌, try_finally, try_except, with_lock,
  with_object, custom_algorithm, switch_to_system, draw_source,
}

-- `_zero_fill`
unfoldable pub zero_fill : ℕ → List ℕ
zero_fill n = replicate n 0

-- `_require_bytes`. A value that is not bytes-like is `none`, and so is a length that is not fixed.
unfoldable pub require_bytes : Option (List ℕ) → Option ℕ → Action (List ℕ)
require_bytes none len = raise value_error
require_bytes (some value) none = pure value
require_bytes (some value) (some len) =
    if not (length value == len) then raise value_error else pure value

-- `s.sign(message)` of an object made with a secret key
unfoldable pub sign_with : Signature → List ℕ → List ℕ → Action (List ℕ)
sign_with s own message = do r ← draw_source; or_raise (s.sign_message r own message)

module _ (oqs : Package) (self : MlDsa) where
  unfoldable pub keygen : Action (List ℕ × List ℕ)
  keygen = with_lock (
      with_object (oqs.signature self.alg) λ s. do
        r ← draw_source
        (pk, own) ← or_raise (s.generate_keypair r)
        sk ← or_raise (s.export_secret_key own)
        pure (pk, sk))

  -- Behind the checks of the arguments: hedged, and deterministic.
  unfoldable pub sign_hedged : List ℕ → List ℕ → Action (List ℕ)
  unfolding sign_with
  sign_hedged secret_key message =
      with_lock (with_object (oqs.signature self.alg) λ s. sign_with s secret_key message)

  unfoldable pub sign_deterministic : List ℕ → List ℕ → Action (List ℕ)
  unfolding sign_with zero_fill
  sign_deterministic secret_key message = with_lock (do
    custom_algorithm zero_fill
    try_finally (with_object (oqs.signature self.alg) λ s. sign_with s secret_key message)
        switch_to_system)

  unfoldable pub sign : Option (List ℕ) → Option (List ℕ) → (hedged : Bool) → Action (List ℕ)
  unfolding require_bytes sign_hedged sign_deterministic
  sign secret_key message hedged = do
    sk ← require_bytes secret_key (some self.lens.secret_key)
    m ← require_bytes message none
    if hedged then sign_hedged sk m else sign_deterministic sk m

  unfoldable pub verify_object : List ℕ → List ℕ → List ℕ → Action Bool
  verify_object public_key message signature =
      with_object (oqs.signature self.alg) λ s. or_raise (s.check message signature public_key)

  unfoldable pub verify : Option (List ℕ) → Option (List ℕ) → Option (List ℕ) → Action Bool
  unfolding verify_object
  verify (some public_key) (some message) (some signature) =
      if not (length public_key == self.lens.public_key)
        || not (length signature == self.lens.signature)
      then pure false
      else try_except (verify_object public_key message signature) (pure false)
  verify _ _ _ = pure false

module _ (oqs : Package) (self : MlKem) where
  unfoldable pub kem_keygen : Action (List ℕ × List ℕ)
  kem_keygen = with_lock (
      with_object (oqs.kem self.alg) λ k. do
        r ← draw_source
        (pk, own) ← or_raise (k.generate_keypair r)
        sk ← or_raise (k.export_secret_key own)
        pure (pk, sk))

  unfoldable pub encapsulate_checked : List ℕ → Action (List ℕ × List ℕ)
  encapsulate_checked public_key = with_lock (
      with_object (oqs.kem self.alg)
        λ k. do r ← draw_source; or_raise (k.encap_secret r public_key))

  unfoldable pub encapsulate : Option (List ℕ) → Action (List ℕ × List ℕ)
  unfolding require_bytes encapsulate_checked
  encapsulate public_key = do
    pk ← require_bytes public_key (some self.lens.public_key)
    encapsulate_checked pk

  unfoldable pub decapsulate_checked : List ℕ → List ℕ → Action (List ℕ)
  decapsulate_checked secret_key ciphertext =
      with_object (oqs.kem self.alg) λ k. or_raise (k.decap_secret secret_key ciphertext)

  unfoldable pub decapsulate : Option (List ℕ) → Option (List ℕ) → Action (List ℕ)
  unfolding require_bytes decapsulate_checked
  decapsulate secret_key ciphertext = do
    sk ← require_bytes secret_key (some self.lens.secret_key)
    ct ← require_bytes ciphertext (some self.lens.ciphertext)
    decapsulate_checked sk ct
