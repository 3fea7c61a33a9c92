-- ===== src/Hash.antt =====
-- `qpqc_shake256` and `qpqc_pubkey_hash` of c/qorechain_pqc.c, over OpenSSL's digest interface.
pub mod Laws
use qorechain_pqc.Base.{ℕ, ◌≡◌, ◌≤◌, Bool, true, Option, none, some, List, length, take}
use qorechain_pqc.Machine.{Ptr, ConstPtr, M, fault, pure, ◌>>=◌, ◌>>◌, store, read}
use qorechain_pqc.Oqs.{object_new, object_free}

-- OpenSSL's digest calls for SHAKE-256 over the states of a context. Each gives the status that it
-- returns, true for 1, and what it leaves in the context, or in its output buffer; `none` is
-- undefined behaviour, which a call on a context where an earlier call failed may have.
pub record Evp (C : Type 0) : Type 0 where
  -- what `EVP_MD_CTX_new` makes
  pub new_ctx : C
  -- `EVP_DigestInit_ex` with `EVP_shake256()`
  pub init : C → Option (Bool × C)
  -- `EVP_DigestUpdate`
  pub update : C → (data' : List ℕ) → Option (Bool × C)
  -- `EVP_DigestFinalXOF` for n bytes, and the bytes that it writes, on failure too
  pub final_xof : C → (n : ℕ) → Option (Bool × List ℕ)

-- An extendable-output function: n bytes on request, and fewer bytes are a prefix of more. If each of
-- the three calls returns 1, the bytes written are its output; no call writes more than is asked for.
pub record XofLaws {C : Type 0} (evp : Evp C) (shake : List ℕ → ℕ → List ℕ) : Type 0 where
  pub length-shake : (d : List ℕ) (n : ℕ) → length (shake d n) ≡ n
  pub shake_prefix : (d : List ℕ) (m n : ℕ) → m ≤ n → shake d m ≡ take m (shake d n)
  pub within :
      (c : C) (n : ℕ) (ok : Bool) (bytes : List ℕ)
      → evp.final_xof c n ≡ some (ok, bytes)
      → length bytes ≤ n
  pub computes :
      (c c' : C) (d bytes : List ℕ) (n : ℕ)
      → evp.init evp.new_ctx ≡ some (true, c)
      → evp.update c d ≡ some (true, c')
      → evp.final_xof c' n ≡ some (true, bytes)
      → bytes ≡ shake d n

-- A call whose status the code does not look at.
abbrev pub unchecked : {A : Type 0} → Option (Bool × A) → M A
unchecked none = λ w. fault
unchecked (some (_, a)) = pure a

module _ {C : Type 0} (evp : Evp C) (src : ConstPtr) (src_len : ℕ) (out : Ptr) (out_len : ℕ) where
  digest : C → M (Unit {0})
  digest ctx = do
    ctx' ← unchecked (evp.init ctx)
    d ← read src src_len
    ctx'' ← unchecked (evp.update ctx' d)
    bytes ← unchecked (evp.final_xof ctx'' out_len)
    store out 0 bytes

  -- `EVP_DigestInit_ex` on a context that `EVP_MD_CTX_new` could not make is undefined.
  with_context : Option C → M (Unit {0})
  unfolding digest
  with_context none = λ w. fault
  with_context (some ctx) = do digest ctx; object_free

  unfoldable pub shake256 : M (Unit {0})
  unfolding with_context
  shake256 = do ctx ← object_new (some evp.new_ctx); with_context ctx

unfoldable pub pubkey_hash : {C : Type 0} → Evp C → ConstPtr → ℕ → Ptr → ℕ → M (Unit {0})
pubkey_hash evp pk pk_len out out_len = shake256 evp pk pk_len out out_len
