-- ===== src/Client.antt =====
-- A program that uses c/qorechain_pqc.c: any sequence of calls of its functions, in one thread.
pub mod Answers
pub mod Preserves
pub mod Safe
pub mod Typed
use qorechain_pqc.Base.{
  ℕ, ◌+◌, ◌^◌, ◌<◌, ◌≤◌, ◌≡◌, ◌≢◌, ◌⊎◌, ℤ, true, Option, none, some, List, [], ◌∷◌, length, Text,
}
use qorechain_pqc.Machine.{Ptr, null, Cell, ConstPtr, World, Run, done, M, pure, ◌>>=◌}
use qorechain_pqc.Machine.Args.{Holds}
use qorechain_pqc.Oqs.{Kem, Oqs}
use qorechain_pqc.SignBytes.{Out, hybrid_sign_bytes}
use qorechain_pqc.Dsa.{KeyOut, mldsa_keygen, mldsa_sign, mldsa_sign_hedged, mldsa_verify}
use qorechain_pqc.Kem.{EncapsOut, mlkem_encapsulate, mlkem_decapsulate}
use qorechain_pqc.Hash.{Evp, shake256}
use qorechain_pqc.Hash.Laws.{hashed}
use qorechain_pqc.Release.{qpqc_free}

-- A call with its arguments; the out parameters are what they hold before it.
pub data Operation : Type 0 where
  keygen : Text → KeyOut → Operation
  sign : Text → ConstPtr → ℕ → ConstPtr → ℕ → Out → Operation
  sign_hedged : Text → ConstPtr → ℕ → ConstPtr → ℕ → Out → Operation
  verify : Text → ConstPtr → ℕ → ConstPtr → ℕ → ConstPtr → ℕ → Operation
  encapsulate : Text → ConstPtr → ℕ → Ptr → EncapsOut → Operation
  decapsulate : Text → ConstPtr → ℕ → ConstPtr → ℕ → Ptr → ℕ → Operation
  hash : ConstPtr → ℕ → Ptr → ℕ → Operation
  sign_bytes : ℤ → ConstPtr → ℕ → ConstPtr → ℕ → ConstPtr → ℕ → Out → Operation
  release : Ptr → ℕ → Operation

-- The call, its results dropped: later calls may use any values.
abbrev pub finished : {A : Type 0} → M A → M (Unit {0})
finished m = m >>= λ _. pure tt

unfoldable pub perform : {C : Type 0} → Oqs → Evp C → Operation → M (Unit {0})
perform oqs evp (keygen alg out) = finished (mldsa_keygen oqs alg out)
perform oqs evp (sign alg sk sk_len msg n out) = finished (mldsa_sign oqs alg sk sk_len msg n out)
perform oqs evp (sign_hedged alg sk sk_len msg n out) =
    finished (mldsa_sign_hedged oqs alg sk sk_len msg n out)
perform oqs evp (verify alg pk pk_len msg n sig l) =
    finished (mldsa_verify oqs alg pk pk_len msg n sig l)
perform oqs evp (encapsulate alg pk pk_len ss_out out) =
    finished (mlkem_encapsulate oqs alg pk pk_len ss_out out)
perform oqs evp (decapsulate alg sk sk_len ct ct_len ss_out ss_len) =
    finished (mlkem_decapsulate oqs alg sk sk_len ct ct_len ss_out ss_len)
perform oqs evp (hash src src_len out n) = shake256 evp src src_len out n
perform oqs evp (sign_bytes version chain_id l b0 m auth n out) =
    finished (hybrid_sign_bytes version chain_id l b0 m auth n out)
perform oqs evp (release buf len) = qpqc_free oqs buf len

-- Numbers that a byte can hold.
abbrev pub AllBytes : List ℕ → Type 0
AllBytes [] = Unit
AllBytes (b ∷ bs) = (b < 256) × AllBytes bs

-- n bytes may be read through this argument.
abbrev pub Readable : ConstPtr → ℕ → Type 0
Readable c n = (xs : List ℕ) × Holds c n xs × AllBytes xs

-- A block of the caller with at least n bytes.
abbrev pub Roomy : Ptr → ℕ → World → Type 0
Roomy p n w = (cells : List Cell) × (w.block p ≡ some cells) × (n ≤ length cells)

-- The length of a shared secret, 0 for an algorithm that does not exist.
abbrev pub secret_length : Option Kem → ℕ
secret_length none = 0
secret_length (some k) = k.length_shared_secret

-- What the header asks of the caller.
abbrev pub Valid : Oqs → World → Operation → Type 0
Valid oqs w (keygen alg out) = Unit
Valid oqs w (sign alg sk sk_len msg n out) = Readable sk sk_len × Readable msg n
Valid oqs w (sign_hedged alg sk sk_len msg n out) = Readable sk sk_len × Readable msg n
Valid oqs w (verify alg pk pk_len msg n sig l) =
    Readable pk pk_len × Readable msg n × Readable sig l
Valid oqs w (encapsulate alg pk pk_len ss_out out) =
    Readable pk pk_len × Roomy ss_out (secret_length (oqs.kem alg)) w × (ss_out ≤ w.calls)
Valid oqs w (decapsulate alg sk sk_len ct ct_len ss_out ss_len) =
    Readable sk sk_len × Readable ct ct_len × Roomy ss_out (secret_length (oqs.kem alg)) w
Valid oqs w (hash src src_len out n) = Readable src src_len × Roomy out n w
Valid oqs w (sign_bytes version chain_id l b0 m auth n out) =
    Readable chain_id l × Readable b0 m × Readable auth n × (39 + l + m + n < 2 ^ 64)
Valid oqs w (release buf len) =
    (buf ≡ null)
    ⊎ ((buf ≢ null) × (cells : List Cell) × (w.block buf ≡ some cells) × (len ≡ length cells))

-- The call is one for a hash, and OpenSSL has no context to give, or one of its calls on these data has
-- no defined behaviour. No caller can rule that out.
abbrev pub Unhashed : {C : Type 0} → Evp C → World → Operation → Type 0
Unhashed evp w (hash src src_len out n) =
    (w.refuse w.calls ≡ true) ⊎ ((d : List ℕ) × Holds src src_len d × (hashed evp d n ≡ none))
Unhashed evp w _ = ⊥

-- The states that valid calls lead to, one after the other.
pub data Reached {C : Type 0} (oqs : Oqs) (evp : Evp C) (w : World) : World → Type 0 where
  here : Reached oqs evp w w
  next :
      {u v : World} (op : Operation)
      → Reached oqs evp w u
      → Valid oqs u op
      → perform oqs evp op u ≡ done tt v
      → Reached oqs evp w v
