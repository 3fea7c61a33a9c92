-- ===== src/Bindings/Js/Wrap.antt =====
-- js/src/index.js: `wrapSig` but `verify`, and `wrapKem`, over @noble/post-quantum, which is a parameter.
use qorechain_pqc.Base.{
  ℕ, Bool, not, Option, none, some, ◌>>=◌, List, length, ◌==◌, if◌then◌else◌, Text, codes, str_eq,
}
use qorechain_pqc.Machine.{Source}
use qorechain_pqc.Bindings.{Lengths, KemLengths}

-- The third argument of noble's `sign`: left out, or `{ extraEntropy: false }`.
pub data SignOptions : Type 0 where
  left_out no_extra_entropy : SignOptions

-- A signature scheme of noble. An exception is `none`, and where randomness is drawn it is an argument.
pub record NobleSig : Type 0 where
  pub generate : Source → (seed : Option (List ℕ)) → Option (List ℕ × List ℕ)
  pub sign_noble :
      Source → (message : List ℕ) → (secret_key : List ℕ) → SignOptions → Option (List ℕ)

pub record NobleKem : Type 0 where
  pub generate_kem : Source → (seed : Option (List ℕ)) → Option (List ℕ × List ℕ)
  pub encapsulate_noble : Source → (public_key : List ℕ) → Option (List ℕ × List ℕ)
  pub decapsulate_noble : (cipher_text : List ℕ) → (secret_key : List ℕ) → Option (List ℕ)

abbrev pub kem_lengths : Text → Option KemLengths
kem_lengths name =
    if str_eq name (codes "ml-kem-512")
    then some (record { public_key = 800; secret_key = 1632; ciphertext = 768 })
    else (if str_eq name (codes "ml-kem-768")
        then some (record { public_key = 1184; secret_key = 2400; ciphertext = 1088 })
        else (if str_eq name (codes "ml-kem-1024")
            then some (record { public_key = 1568; secret_key = 3168; ciphertext = 1568 })
            else none))

-- `seed` of SIG_LENGTHS and of KEM_LENGTHS, the same at every level
abbrev pub sig_seed_length : ℕ
sig_seed_length = 32

abbrev pub kem_seed_length : ℕ
kem_seed_length = 64

-- `requireBytes`. A value that is no Uint8Array is `none`, and so is a length that is not fixed.
unfoldable pub require_bytes : Option (List ℕ) → Option ℕ → Option (List ℕ)
require_bytes none len = none
require_bytes (some v) none = some v
require_bytes (some v) (some len) = if not (length v == len) then none else some v

-- A seed that is undefined is `none`; another that is no Uint8Array is `some none`.
abbrev pub require_seed : Option (Option (List ℕ)) → ℕ → Option (Option (List ℕ))
require_seed none len = some none
require_seed (some seed) len = require_bytes seed (some len) >>= λ v. some (some v)

module _ (scheme : NobleSig) (lens : Lengths) (random : Source) where
  unfoldable pub keygen : Option (Option (List ℕ)) → Option (List ℕ × List ℕ)
  unfolding require_bytes
  keygen seed = do given ← require_seed seed sig_seed_length; scheme.generate random given

  -- `hedged` stands for `opts && opts.hedged === true`.
  unfoldable pub sign : Option (List ℕ) → Option (List ℕ) → (hedged : Bool) → Option (List ℕ)
  unfolding require_bytes
  sign secret_key message hedged = do
    sk ← require_bytes secret_key (some lens.secret_key)
    m ← require_bytes message none
    if hedged
        then scheme.sign_noble random m sk left_out
        else scheme.sign_noble random m sk no_extra_entropy

module _ (scheme : NobleKem) (lens : KemLengths) (random : Source) where
  unfoldable pub kem_keygen : Option (Option (List ℕ)) → Option (List ℕ × List ℕ)
  unfolding require_bytes
  kem_keygen seed = do given ← require_seed seed kem_seed_length; scheme.generate_kem random given

  unfoldable pub encapsulate : Option (List ℕ) → Option (List ℕ × List ℕ)
  unfolding require_bytes
  encapsulate public_key = do
    pk ← require_bytes public_key (some lens.public_key)
    scheme.encapsulate_noble random pk

  unfoldable pub decapsulate : Option (List ℕ) → Option (List ℕ) → Option (List ℕ)
  unfolding require_bytes
  decapsulate secret_key cipher_text = do
    sk ← require_bytes secret_key (some lens.secret_key)
    ct ← require_bytes cipher_text (some lens.ciphertext)
    scheme.decapsulate_noble ct sk
