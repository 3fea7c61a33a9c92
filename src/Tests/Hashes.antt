-- ===== src/Tests/Hashes.antt =====
-- The hashes of the five bindings, run over small libraries.
use qorechain_pqc.Base.{ℕ, ◌≡◌, refl, none, some, List, [], length, pos, negsuc, replicate}
use qorechain_pqc.Bindings.Go.Hashes as GoHash
use qorechain_pqc.Bindings.Java.Hashes as JavaHash
use qorechain_pqc.Bindings.Java.Primitives.{ok, thrown, negative_length}
use qorechain_pqc.Bindings.Js.Hashes as JsHash
use qorechain_pqc.Bindings.Python.Hashes as PythonHash
use qorechain_pqc.Bindings.Rust.Hashes as RustHash
use qorechain_pqc.Tests.Fixtures.{toy_shake}
use qorechain_pqc.Tests.Libraries.{message}

abbrev go_sha3 : GoHash.Sha3 (List ℕ)
go_sha3 = record {
  new_shake256 = [];
  write = λ h bytes. bytes;
  read = λ h out. toy_shake h (length out);
}

abbrev rust_sha3 : RustHash.Sha3 (List ℕ) (List ℕ)
rust_sha3 = record {
  fresh = [];
  update = λ h bytes. bytes;
  finalize_xof = λ h. h;
  read = λ h out. toy_shake h (length out);
}

abbrev java_sha3 : JavaHash.ShakeDigest (List ℕ)
java_sha3 = record {
  new_digest = [];
  update = λ h bytes. bytes;
  do_final = λ h out. toy_shake h (length out);
}

abbrev plain_shake : JsHash.NobleShake
plain_shake input (pos n) = some (toy_shake input n)
plain_shake input (negsuc n) = none

js_default : JsHash.pubkey_hash plain_shake message none ≡ some (toy_shake message 20)
unfolding JsHash.pubkey_hash
js_default = refl

python_default : PythonHash.pubkey_hash plain_shake message none ≡ some (toy_shake message 20)
unfolding PythonHash.pubkey_hash
python_default = refl

go_hash : GoHash.pubkey_hash go_sha3 message (pos 2) ≡ some (toy_shake message 2)
unfolding GoHash.pubkey_hash replicate
go_hash = refl

-- A negative length makes Go panic and Java throw.
go_negative : GoHash.pubkey_hash go_sha3 message (negsuc 0) ≡ none
unfolding GoHash.pubkey_hash
go_negative = refl

rust_hash : RustHash.pubkey_hash20 rust_sha3 message ≡ RustHash.pubkey_hash rust_sha3 message 20
unfolding RustHash.pubkey_hash RustHash.pubkey_hash20
rust_hash = refl

java_hash : JavaHash.pubkey_hash java_sha3 (some message) (pos 2) ≡ ok (toy_shake message 2)
unfolding JavaHash.pubkey_hash replicate
java_hash = refl

java_negative : JavaHash.pubkey_hash java_sha3 (some message) (negsuc 0) ≡ thrown negative_length
unfolding JavaHash.pubkey_hash
java_negative = refl
