-- ===== src/Lib.antt =====
-- A verification library for the C binding of qorechain-pqc, c/qorechain_pqc.c and its interface
-- c/qorechain_pqc.h: post-quantum signatures and key encapsulation over liboqs, SHAKE-256 over
-- OpenSSL, and the hybrid sign-bytes of QoreChain; and for the Go, Rust, Python, JavaScript and Java
-- bindings, which have the same task over other libraries.
--
-- The parts of the program and the files that model them:
--
-- - Machine: what the C code runs on. `World` is the state of the process: the heap (blocks of bytes
--   that were set or not, requests that the allocator refuses, contents of released blocks), the
--   count of live liboqs and OpenSSL objects, the mutex `qpqc_rng_lock`, liboqs's process-wide
--   generator and a log of what a thread does to lock and generator. A function is a program of the
--   monad `M`, which ends, runs into undefined behaviour (`fault`) or locks a mutex twice
--   (`deadlock`). `ConstPtr` is an argument that may be NULL. Machine/Block and Machine/Args have the
--   equations of stores, reads and `malloc`, Machine/Ends says of a run that it ends in a state with a
--   given property.
-- - Codec: `be32` and `be64`. Codec/BigEndian has the numbers of k bytes and how they are read back,
--   Codec/Writes says that the two functions store them.
-- - SignBytes: `qpqc_hybrid_sign_bytes_v1`, `_v2` and `qpqc_hybrid_sign_bytes`. SignBytes/Layout and
--   SignBytes/Form are the specification that c/qorechain_pqc.h gives, SignBytes/Parse is a reader of
--   the bytes that the code does not have.
-- - Upgrades: `qpqc_sign_bytes_version_for` and `qpqc_sign_bytes_version_for_applied`. Upgrades/Rule
--   has the rule in the words of the header.
-- - Oqs: liboqs, a parameter of the model. A record `Oqs` gives the algorithms by name, and the
--   records of laws say what its documentation promises: lengths, and that `OQS_MEM_cleanse`
--   overwrites with zeros. What a primitive draws is an argument of it (`Source`).
-- - Dsa: `qpqc_mldsa_keygen`, `qpqc_mldsa_sign`, `qpqc_mldsa_sign_hedged`, `qpqc_mldsa_verify` and
--   `qpqc_zero_rng`. Kem: `qpqc_mlkem_encapsulate` and `qpqc_mlkem_decapsulate`. A function
--   `mldsa_keygen` is split where the code branches: `keygen_with` behind `OQS_SIG_new`, `keygen_into`
--   behind `malloc`; the others likewise. Out parameters are passed in and returned.
-- - Threads: the same functions in several threads. A call is the list of its steps from lock to unlock,
--   the events that the single-threaded model logs; a schedule is a list of moves. The methods of the
--   Python binding take the same steps, less the draw behind an exception. Other users of
--   liboqs in the process draw without the lock. Threads/Rounds has the schedules that let every thread
--   go on again and again.
-- - Hash: `qpqc_shake256` and `qpqc_pubkey_hash`. OpenSSL's digest calls are a parameter: `Evp` gives the
--   status, the effect on the context and the bytes written of each, or no defined behaviour, and
--   `XofLaws` says that they compute SHAKE-256 if each returns 1.
-- - Release: `qpqc_free`.
-- - Client: a program that makes any sequence of these calls, as the header asks for them: `Operation` is
--   a call with its arguments, `Valid` what the header asks of the caller, `Unhashed` the one case in
--   which `qpqc_shake256` faults nevertheless, `Reached` the states that valid calls lead to.
-- - Bindings: the same interface in go/pqc.go, rust/src/lib.rs, python/qorpqc/__init__.py,
--   js/src/index.js and java/src/main/java/network/qorechain/pqc/Pqc.java, one module per language, with
--   that language's integers, buffers and errors; the cryptographic library below is a parameter. The
--   module of a language has the functions that choose the form, build the sign-bytes and verify
--   signatures. Its children have the others: Go/Schemes the methods of `SigScheme` and `KemScheme`,
--   Rust/Levels what `mldsa_level!` and `mlkem_level!` make, Js/Wrap `wrapSig` and `wrapKem`,
--   Java/Primitives the checks of arguments and Java/Methods the methods behind them, and Hashes of each
--   language `shake256` and `pubkey_hash`. What draws randomness takes it as an argument, but in Python,
--   where it comes from the generator that the methods switch: Python/Effects has the state that they
--   share (`State`: the lock, the generator, live objects of the package oqs) and the statements `with`
--   and `try`, Python/Package the package oqs, Python/Handles the tables and handles, Python/Methods the
--   methods. Python/Tidy, Python/Calls and Python/Draws are about what they leave behind.
--   Bindings/Forms, Bindings/Arrays and Bindings/Pieces compare the builders with the forms of the C
--   header, Bindings/Agreement, Bindings/Versions and Bindings/SameVerdict compare them with the C
--   functions. Bindings/Signatures and Bindings/SameSignature compare signing, Bindings/Secrets and
--   Bindings/SameSecret decapsulation, and Bindings/SameKeys keys from a seed. Hashes are modelled and not
--   compared.
--   Bindings/Guards, Bindings/KemGuards and Bindings/KemGuarded are about the checks in front of the
--   libraries, Bindings/Batch is about `batchVerify` of the JavaScript binding.
-- - Base has the shared names, lists over the native numbers, integers and C strings; Tests has the
--   inputs on which the theorems are applied, and the expected results of c/test_vectors.c.
--
-- Bounds. A `size_t` has 64 bits, and `size` and `u32` write the wrap-around out. Lengths are numbers;
-- the theorems on the builders ask that the sum of the lengths fits a `size_t`, which is so for byte
-- strings that are in memory at once. The layouts are read back below 2^32 bytes for b0 and auth.
-- `int64_t` heights are only compared, and so are plain integers. There is no fuel: the loops run
-- over lists or count down. A Java `int` is a number modulo 2^32, and a Java array has less than 2^31
-- bytes.
--
-- Not modelled: what liboqs, OpenSSL and the libraries below the bindings compute, the C compiler, the
-- test programs; the texts of error messages; the memory of the bindings' processes and, but in Python,
-- what their threads share; of the values that JavaScript and Python take for a height, those that are
-- no integer or numeral. `malloc` hands out a new address for each request, so that a stale pointer never
-- points into a new block. In Threads a call draws once, and what it does outside of its critical
-- section is left out, since it touches nothing that threads share.
pub mod Base
pub mod Machine
pub mod Codec
pub mod SignBytes
pub mod Upgrades
pub mod Oqs
pub mod Dsa
pub mod Kem
pub mod Threads
pub mod Hash
pub mod Release
pub mod Client
pub mod Bindings
mod Tests
