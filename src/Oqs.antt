-- ===== src/Oqs.antt =====
-- liboqs as c/qorechain_pqc.c uses it: what its primitives compute is a parameter, and the calls
-- below say what each of them does to memory, to the generator and to the count of live objects.
pub mod Objects
use qorechain_pqc.Base.{
  ℕ, zero, suc, ◌≡◌, ◌≤◌, Bool, true, Option, none, some, List, ◌∷◌, ◌++◌, map, length, drop,
  replicate, Text,
}
use qorechain_pqc.Machine.{
  Ptr, Cell, ConstPtr, Source, system, custom, Event, done, fault, M, pure, ◌>>=◌, ◌>>◌, request,
  store, read, draw_source,
}

-- What `OQS_SIG_sign` answers: its status, the bytes that it stores, and `*sig_len` if it sets that.
pub record Signed : Type 0 where
  pub success : Bool
  pub bytes : List ℕ
  pub reported : Option ℕ

-- An OQS_SIG: its lengths and its primitives. OQS_SUCCESS is `true`.
pub record Sig : Type 0 where
  pub length_public_key : ℕ
  pub length_secret_key : ℕ
  pub length_signature : ℕ
  pub keypair : Source → Bool × List ℕ × List ℕ
  pub sign : Source → (msg : List ℕ) → (sk : List ℕ) → Signed
  pub verify : (msg : List ℕ) → (sig : List ℕ) → (pk : List ℕ) → Bool

-- An OQS_KEM.
pub record Kem : Type 0 where
  pub length_public_key : ℕ
  pub length_secret_key : ℕ
  pub length_ciphertext : ℕ
  pub length_shared_secret : ℕ
  pub encaps : Source → (pk : List ℕ) → Bool × List ℕ × List ℕ
  pub decaps : (ct : List ℕ) → (sk : List ℕ) → Bool × List ℕ

-- The library: its algorithms by name, and `OQS_MEM_cleanse` on the first n bytes of a block.
pub record Oqs : Type 0 where
  pub sig : Text → Option Sig
  pub kem : Text → Option Kem
  pub cleanse : ℕ → List Cell → List Cell

-- liboqs stores no more bytes than its lengths say; a success stores whole keys, and reports the
-- length of the signature.
pub record SigLaws (s : Sig) : Type 0 where
  pub keypair_fits :
      (r : Source)
      → (length (s.keypair r).1 ≤ s.length_public_key)
        × (length (s.keypair r).2 ≤ s.length_secret_key)
  pub keypair_full :
      (r : Source)
      → (s.keypair r).0 ≡ true
      → (length (s.keypair r).1 ≡ s.length_public_key)
        × (length (s.keypair r).2 ≡ s.length_secret_key)
  pub sign_fits :
      (r : Source) (msg sk : List ℕ) → length (s.sign r msg sk).bytes ≤ s.length_signature
  pub sign_reports :
      (r : Source) (msg sk : List ℕ)
      → (s.sign r msg sk).success ≡ true
      → (s.sign r msg sk).reported ≡ some (length (s.sign r msg sk).bytes)

-- The same for an OQS_KEM, of which a success makes a whole ciphertext.
pub record KemLaws (k : Kem) : Type 0 where
  pub encaps_fits :
      (r : Source) (pk : List ℕ)
      → (length (k.encaps r pk).1 ≤ k.length_ciphertext)
        × (length (k.encaps r pk).2 ≤ k.length_shared_secret)
  pub encaps_full :
      (r : Source) (pk : List ℕ)
      → (k.encaps r pk).0 ≡ true
      → length (k.encaps r pk).1 ≡ k.length_ciphertext
  pub decaps_fits : (ct sk : List ℕ) → length (k.decaps ct sk).1 ≤ k.length_shared_secret

-- `OQS_MEM_cleanse` overwrites with zeros.
pub record CleanseLaw (oqs : Oqs) : Type 0 where
  pub zeroes :
      (n : ℕ) (cells : List Cell)
      → n ≤ length cells
      → oqs.cleanse n cells ≡ map some (replicate n 0) ++ drop n cells

-- `OQS_SIG_new`, `OQS_KEM_new`, `EVP_MD_CTX_new`: NULL for want of memory or of the algorithm.
obtain : {A : Type 0} → Option A → Bool → M (Option A)
obtain (some a) true w = done (some a) (record w { handles = suc w.handles })
obtain _ _ w = done none w

unfoldable pub object_new : {A : Type 0} → Option A → M (Option A)
unfolding obtain
object_new found = do granted ← request; obtain found granted

release : ℕ → M (Unit {0})
release zero w = fault
release (suc n) w = done tt (record w { handles = n })

-- `OQS_SIG_free`, `OQS_KEM_free`, `EVP_MD_CTX_free`
unfoldable pub object_free : M (Unit {0})
unfolding release
object_free w = release w.handles w

-- `OQS_randombytes_custom_algorithm`
unfoldable pub use_custom : (ℕ → List ℕ) → M (Unit {0})
use_custom fill w = done tt (record w { rng = custom fill; log = Event.use_custom ∷ w.log })

-- `OQS_randombytes_switch_algorithm(OQS_RAND_alg_system)`
unfoldable pub use_system : M (Unit {0})
use_system w = done tt (record w { rng = system; log = Event.use_system ∷ w.log })

-- `OQS_SIG_keypair`
unfoldable pub sig_keypair : Sig → Ptr → Ptr → M Bool
sig_keypair s pk sk = do
  r ← draw_source
  let reply = s.keypair r
  store pk 0 reply.1
  store sk 0 reply.2
  pure reply.0

-- `OQS_SIG_sign`
unfoldable pub sig_sign : Sig → Ptr → ConstPtr → ℕ → ConstPtr → M Signed
sig_sign s sig msg msg_len sk = do
  m ← read msg msg_len
  k ← read sk s.length_secret_key
  r ← draw_source
  let reply = s.sign r m k
  store sig 0 reply.bytes
  pure reply

-- `OQS_SIG_verify`
unfoldable pub sig_verify : Sig → ConstPtr → ℕ → ConstPtr → ℕ → ConstPtr → M Bool
sig_verify s msg msg_len sig sig_len pk = do
  m ← read msg msg_len
  t ← read sig sig_len
  k ← read pk s.length_public_key
  pure (s.verify m t k)

-- `OQS_KEM_encaps`
unfoldable pub kem_encaps : Kem → Ptr → Ptr → ConstPtr → M Bool
kem_encaps k ct ss pk = do
  key ← read pk k.length_public_key
  r ← draw_source
  let reply = k.encaps r key
  store ct 0 reply.1
  store ss 0 reply.2
  pure reply.0

-- `OQS_KEM_decaps`
unfoldable pub kem_decaps : Kem → Ptr → ConstPtr → ConstPtr → M Bool
kem_decaps k ss ct sk = do
  c ← read ct k.length_ciphertext
  key ← read sk k.length_secret_key
  let reply = k.decaps c key
  store ss 0 reply.1
  pure reply.0
