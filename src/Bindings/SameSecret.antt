-- ===== src/Bindings/SameSecret.antt =====
-- One shared secret for a key and a ciphertext: `qpqc_mlkem_decapsulate` and decapsulation in the five
-- bindings.
use mathlib.Core.Path.{subst}
use qorechain_pqc.Base.{
  ℕ, ◌≡◌, sym, ap, ◌∙◌, ◌≢◌, ◌≤◌, ℤ, Bool, true, false, ◌&&◌, ◌==◌, none, some, ◌>>=◌, List, arith,
  length, if◌then◌else◌, Bool-cases, inl, inr, Text, some_inj,
}
use qorechain_pqc.Machine.{Cell, World, Source}
use qorechain_pqc.Machine.Args.{some-Holds}
use qorechain_pqc.Machine.Block.{update_at}
use qorechain_pqc.Machine.Ends.{Ends, Ends-mono, over}
use qorechain_pqc.Oqs.{Kem, KemLaws, Oqs}
use qorechain_pqc.SignBytes.{qpqc_ok, qpqc_err}
use qorechain_pqc.Dsa.{status}
use qorechain_pqc.Kem.{mlkem_decapsulate}
use qorechain_pqc.Kem.Decaps.{mlkem_decapsulate-Decapsulated}
use qorechain_pqc.Bindings.{KemLevel, kem_level_name}
use qorechain_pqc.Bindings.Go.Schemes as Go
use qorechain_pqc.Bindings.Java.Primitives.{BouncyKem, ok, thrown, wrong_length}
use qorechain_pqc.Bindings.Java.Methods as Java
use qorechain_pqc.Bindings.Js.Wrap as Js
use qorechain_pqc.Bindings.Rust.Levels as Rust
use qorechain_pqc.Bindings.Python.Effects.{State}
use qorechain_pqc.Bindings.Python.Handles.{MlKem, mlkem_handle}
use qorechain_pqc.Bindings.Python.Package as Package
use qorechain_pqc.Bindings.Python.Methods as Python
use qorechain_pqc.Bindings.Python.Draws.{value_of}
use qorechain_pqc.Bindings.Secrets.{
  kem_sizes, whole_pair, secret_for, js_kem_lengths, js_secret, rust_secret, go_secret,
  python_kem_handle, python_secret, java_secret,
}

both_fit : {a b c d : ℕ} → a ≡ b → c ≡ d → (a == b && c == d) ≡ true
both_fit e f = ground arith

module _ (level : KemLevel) (k c ss : List ℕ) where
  -- What `qpqc_mlkem_decapsulate` gives in the block `ss_out`, that held these cells.
  abbrev pub CSecret : ℕ → List Cell → ℕ → World → ℤ × ℕ → World → Type 0
  CSecret ss_out cells n w r v =
      if whole_pair level k c
      then (r.0 ≡ qpqc_ok) × (r.1 ≡ n) × (v.block ss_out ≡ some (over ss cells))
      else (r.0 ≡ qpqc_err) × (v.block ≡ w.block)

  module _ (oqs : Oqs) (laws : (alg : Text) (m : Kem) → oqs.kem alg ≡ some m → KemLaws m)
      (alg : Text) (m : Kem) (known : oqs.kem alg ≡ some m)
      (key_size : m.length_secret_key ≡ (kem_sizes level).secret_key)
      (size : m.length_ciphertext ≡ (kem_sizes level).ciphertext)
      (agrees : whole_pair level k c ≡ true → m.decaps c k ≡ (true, ss)) (ss_out ss_len : ℕ)
      (cells : List Cell) (w : World) (place : w.block ss_out ≡ some cells)
      (room : m.length_shared_secret ≤ length cells) (grant : w.refuse w.calls ≡ false) where
    same_kem : (n : Kem) → oqs.kem alg ≡ some n → n ≡ m
    same_kem n found = some_inj n m (sym found ∙ known)

    c_room : (n : Kem) → oqs.kem alg ≡ some n → n.length_shared_secret ≤ length cells
    c_room n found =
        subst (λ (j : Kem). j.length_shared_secret ≤ length cells) (sym (same_kem n found)) room

    c_secret :
        Ends
          (CSecret ss_out cells m.length_shared_secret w)
          (mlkem_decapsulate oqs alg (some k) (length k) (some c) (length c) ss_out ss_len w)
    c_secret =
        Ends-mono
          (mlkem_decapsulate oqs alg (some k) (length k) (some c) (length c) ss_out ss_len w)
          (mlkem_decapsulate-Decapsulated oqs laws alg (some k) (some c) (length k) (length c) k c
            (some-Holds k) (some-Holds c) ss_out ss_len cells w place c_room)
          λ r v post. elim post.1 [
            | inl (why, code, len, block) ↦ elim (Bool-cases (whole_pair level k c)) [
              | inr other ↦ rw other (code, block)
              | inl whole ↦ absurd (elim why [
                | inl (inl refused) ↦ ground arith
                | inl (inr missing) ↦ ground (arith, sym known ∙ missing)
                | inr (n, found, inl short) ↦ short (
                    ground arith
                    ∙ sym key_size
                    ∙ ap (λ (j : Kem). j.length_secret_key) (sym (same_kem n found)))
                | inr (n, found, inr short) ↦ short (
                    ground arith
                    ∙ sym size
                    ∙ ap (λ (j : Kem). j.length_ciphertext) (sym (same_kem n found)))
              ])
            ]
            | inr (n, found, fits, fits', granted, code, len, block) ↦
                let e = same_kem n found in
                let whole : whole_pair level k c ≡ true =
                  both_fit (fits ∙ ap (λ (j : Kem). j.length_secret_key) e ∙ key_size)
                    (fits' ∙ ap (λ (j : Kem). j.length_ciphertext) e ∙ size) in
                let made : n.decaps c k ≡ (true, ss) =
                  ap (λ (j : Kem). j.decaps c k) e ∙ agrees whole in
                rw whole (
                  code ∙ ap (λ (p : Bool × List ℕ). status p.0) made,
                  len ∙ ap (λ (j : Kem). j.length_shared_secret) e,
                  ap (λ f. f ss_out) block
                      ∙ update_at ss_out (some (over (n.decaps c k).1 cells)) w.block
                      ∙ ap (λ (p : Bool × List ℕ). some (over p.1 cells)) made,
                )
          ]

-- A level, a key and a ciphertext of any lengths, the secret that FIPS 203 gives for them, and the
-- libraries.
module _ {E D C P S P' S' : Type 0} (level : KemLevel) (k c ss : List ℕ) (noble : Js.NobleKem)
    (fips203 : Rust.Fips203 E D C) (circl : Go.Kem P S) (bouncy : BouncyKem P' S')
    (pyoqs : Package.Package) (self : MlKem) (o : Package.KeyEncapsulation) (oqs : Oqs)
    (laws : (alg : Text) (m : Kem) → oqs.kem alg ≡ some m → KemLaws m) (alg : Text) (m : Kem) where
  -- If the libraries give this secret for a key and a ciphertext of the level's lengths, and CIRCL takes
  -- no key and no ciphertext of another: then for a key and a ciphertext of the level's lengths
  -- decapsulation gives just this secret in JavaScript, with the lengths of its table, in Rust, in Go
  -- and, if an object is to be had and whether or not the lock is free, in Python, and for others none
  -- of the four gives one. Java gives it too, and an exception for others, that of a wrong length.
  -- `qpqc_mlkem_decapsulate`, granted its memory and given a block with room, stores it there and its
  -- length; for others it returns QPQC_ERR and stores nothing.
  pub same_secret :
      (whole_pair level k c ≡ true → noble.decapsulate_noble c k ≡ some ss)
      → (whole_pair level k c ≡ true
          → (fips203.decaps_from_bytes k >>= λ dk.
              fips203.ciphertext_from_bytes c >>= λ ct. fips203.try_decaps dk ct)
            ≡ some ss)
      → (length k ≢ (kem_sizes level).secret_key → circl.unmarshal_private k ≡ none)
      → ((key : S)
          → length c ≢ (kem_sizes level).ciphertext
          → circl.scheme_decapsulate key c ≡ none)
      → (whole_pair level k c ≡ true
          → (circl.unmarshal_private k >>= λ key. circl.scheme_decapsulate key c) ≡ some ss)
      → mlkem_handle (kem_level_name level) ≡ some self
      → pyoqs.kem self.alg ≡ some o
      → (whole_pair level k c ≡ true → o.decap_secret k c ≡ some ss)
      → (whole_pair level k c ≡ true
          → (key : S') × (bouncy.kem_private_key level k ≡ some key)
            × (bouncy.extract_secret key c ≡ some ss))
      → oqs.kem alg ≡ some m
      → m.length_secret_key ≡ (kem_sizes level).secret_key
      → m.length_ciphertext ≡ (kem_sizes level).ciphertext
      → (whole_pair level k c ≡ true → m.decaps c k ≡ (true, ss))
      → (random : Source) (p : State) (ss_out ss_len : ℕ) (cells : List Cell) (w : World)
      → p.refuse p.requests ≡ false
      → w.block ss_out ≡ some cells
      → m.length_shared_secret ≤ length cells
      → w.refuse w.calls ≡ false
      → (Js.kem_lengths (kem_level_name level) ≡ some (kem_sizes level))
        × (Js.decapsulate noble (kem_sizes level) random (some k) (some c)
            ≡ secret_for level k c ss)
        × (Rust.decapsulate fips203 level k c ≡ secret_for level k c ss)
        × (Go.decapsulate circl k c ≡ secret_for level k c ss)
        × (value_of (Python.decapsulate pyoqs self (some k) (some c) p) ≡ secret_for level k c ss)
        × (Java.mlkem_decapsulate bouncy (some (kem_level_name level)) (some k) (some c)
            ≡ (if whole_pair level k c then ok ss else thrown wrong_length))
        × Ends
            (CSecret level k c ss ss_out cells m.length_shared_secret w)
            (mlkem_decapsulate oqs alg (some k) (length k) (some c) (length c) ss_out ss_len w)
  same_secret noble_gives fips203_gives refuses rejects circl_gives handle found pyoqs_gives
        bouncy_gives known key_size size oqs_gives random p ss_out ss_len cells w had place room
        grant =
      (
        js_kem_lengths level,
        js_secret level k c ss noble random noble_gives,
        rust_secret level k c ss fips203 fips203_gives,
        go_secret level k c ss circl refuses rejects circl_gives,
        python_secret level k c ss pyoqs self o p (python_kem_handle level self handle) found
            pyoqs_gives had,
        java_secret level k c ss bouncy bouncy_gives,
        c_secret level k c ss oqs laws alg m known key_size size oqs_gives ss_out ss_len cells w
            place room grant,
      )
