-- ===== src/Tests/Python.antt =====
-- The theorems on the Python classes, applied to a session with a refused key in it.
use qorechain_pqc.Base.{
  ◌≡◌, refl, true, false, ◌==◌, none, some, List, [], ◌∷◌, length, if◌then◌else◌, replicate,
}
use mathlib.Core.List.{reverse}
use qorechain_pqc.Machine.{lock, unlock, use_custom, use_system, draw}
use qorechain_pqc.Dsa.Sign.{zeros}
use qorechain_pqc.Bindings.Python.Effects.{
  State, with_lock, with_object, custom_algorithm, switch_to_system, draw_source,
}
use qorechain_pqc.Bindings.Python.Handles.{MlKem}
use qorechain_pqc.Bindings.Python.Methods.{keygen, sign, kem_keygen, encapsulate}
use qorechain_pqc.Bindings.Python.Tidy.{Kept, Tidy}
use qorechain_pqc.Bindings.Python.Calls.{
  Call, mldsa_sign, perform, valid, steps, counterpart, program_of, session, perform-Tidy,
  session-Kept,
}
use qorechain_pqc.Bindings.Python.Draws.{value_of, keys_from, draws_after_session}
use qorechain_pqc.Tests.Libraries.{message, whole_key, pyoqs, py_signature, py_kem, handle, fresh}

abbrev kem_handle : MlKem
kem_handle = record {
  alg = [];
  lens = record { public_key = 1568; secret_key = 3168; ciphertext = 1568 };
}

-- The key has another length.
abbrev refused : Call
refused = mldsa_sign handle (some message) (some message) false

abbrev deterministic : Call
deterministic = mldsa_sign handle (some whole_key) (some message) false

abbrev calls : List Call
calls = refused ∷ deterministic ∷ []

-- The state behind these calls.
abbrev behind : State
behind = record fresh { requests = 1; log = unlock ∷ use_system ∷ draw ∷ use_custom ∷ lock ∷ [] }

two_calls : session pyoqs calls fresh ≡ some behind
unfolding session perform sign with_lock with_object custom_algorithm switch_to_system draw_source
    replicate
two_calls = refl

perform-Tidy_example :
    Tidy (valid refused) (steps refused) fresh (perform pyoqs refused fresh)
    × (reverse (steps refused) ≡ program_of (counterpart refused))
perform-Tidy_example = perform-Tidy pyoqs fresh refl refl refused

session-Kept_example : (v : State) × (session pyoqs calls fresh ≡ some v) × Kept fresh v
session-Kept_example = session-Kept pyoqs calls fresh refl refl

draws_after_session_example :
    (value_of (keygen pyoqs handle behind)
      ≡ keys_from py_signature.generate_keypair py_signature.export_secret_key (fresh.entropy 0))
    × (value_of (sign pyoqs handle (some whole_key) (some message) true behind) ≡ (
        if length whole_key == 4896
        then py_signature.sign_message (fresh.entropy 0) whole_key message
        else none))
    × (value_of (sign pyoqs handle (some whole_key) (some message) false behind) ≡ (
        if length whole_key == 4896
        then py_signature.sign_message zeros whole_key message
        else none))
    × (value_of (kem_keygen pyoqs kem_handle behind)
        ≡ keys_from py_kem.generate_keypair py_kem.export_secret_key (fresh.entropy 0))
    × (value_of (encapsulate pyoqs kem_handle (some message) behind)
        ≡ (if length message == 1568 then py_kem.encap_secret (fresh.entropy 0) message else none))
draws_after_session_example =
    draws_after_session pyoqs handle py_signature refl kem_handle py_kem refl calls fresh behind
      refl refl two_calls refl whole_key message message
