-- ===== src/Dsa/Signing.antt =====
-- What the two signing functions share: their answers, and the way to them.
use qorechain_pqc.Base.{
  ℕ, suc, ◌≡◌, refl, sym, ◌≢◌, ◌⊎◌, inl, inr, ℤ, Bool, ap, ◌∙◌, true, false, not, Option, none,
  some, List, ◌++◌, ◌==◌, ==_iff, if◌then◌else◌, Bool-cases, replicate, arith,
}
use qorechain_pqc.Machine.{
  Ptr, null, Source, system, Event, World, M, pure, ◌>>=◌, ◌>>◌, update, malloc,
}
use qorechain_pqc.Machine.Block.{update-update}
use qorechain_pqc.Machine.Ends.{Ends, Ends-mono, Settled, part}
use qorechain_pqc.Oqs.{Sig, object_free}
use qorechain_pqc.Oqs.Objects.{NoObject, obtained}
use qorechain_pqc.SignBytes.{qpqc_ok, qpqc_err, Out}
use qorechain_pqc.Dsa.{status, stored_len}

pub status_ok : (b : Bool) → status b ≡ qpqc_ok → b ≡ true
status_ok b h = ground arith

-- Why a call with a key of this length cannot use the algorithm.
abbrev pub NoUse : Option Sig → ℕ → World → Type 0
NoUse found sk_len w =
    NoObject found w ⊎ ((s : Sig) × (found ≡ some s) × (sk_len ≢ s.length_secret_key))

-- The call gave up before it took the lock: QPQC_ERR, memory and generator untouched. If the
-- algorithm cannot be used, the out parameters are untouched too; if the buffer was refused, `*sig`
-- is NULL.
abbrev pub GaveUp : Option Sig → ℕ → World → Out → ℤ × Out → World → Type 0
GaveUp found sk_len w out r v =
    (r.0 ≡ qpqc_err)
    × (v.block ≡ w.block)
    × (v.log ≡ w.log)
    × ((NoUse found sk_len w × (r.1 ≡ out))
        ⊎ ((w.refuse (suc w.calls) ≡ true) × (r.1 ≡ record out { buf = null })))

-- The call reached the primitive, which made its answer of k, m and the source, and left its bytes
-- in a fresh block; the log has the events of the critical section, the last one first.
abbrev pub SignedBy :
    Option Sig → ℕ → Source → List Event → List ℕ → List ℕ → World → Out → ℤ × Out → World → Type 0
SignedBy found sk_len source events k m w out r v =
    (s : Sig) × (found ≡ some s)
    × (sk_len ≡ s.length_secret_key)
    × (r.0 ≡ status (s.sign source m k).success)
    × (r.1.len ≡ stored_len out.len (s.sign source m k).reported)
    × (r.1.buf ≡ suc (suc w.calls))
    × (v.block
        ≡ update w.block (suc (suc w.calls))
            (some (part s.length_signature (s.sign source m k).bytes)))
    × (v.log ≡ events ++ w.log)

-- Every answer of a signing call.
abbrev pub SignPost :
    Option Sig → ℕ → Source → List Event → List ℕ → List ℕ → World → Out → ℤ × Out → World → Type 0
SignPost found sk_len source events k m w out r v =
    Settled w v
    × (GaveUp found sk_len w out r v ⊎ SignedBy found sk_len source events k m w out r v)

-- The part behind the allocation, given a fresh block.
pub record Filled (s : Sig) (source : Source) (events : List Event) (k m : List ℕ) (w : World)
    (out : Out) (sig h : ℕ) (r : ℤ × Out) (v : World) : Type 0 where
  pub code : r.0 ≡ status (s.sign source m k).success
  pub answer : r.1 ≡ record { buf = sig; len = stored_len out.len (s.sign source m k).reported }
  pub block :
      v.block ≡ update w.block sig (some (part s.length_signature (s.sign source m k).bytes))
  pub held : v.held ≡ false
  pub rng : v.rng ≡ system
  pub handles : v.handles ≡ h
  pub log : v.log ≡ events ++ w.log

-- The world when the signature's buffer has been allocated.
abbrev with_buffer : Sig → World → World
with_buffer s w = record w {
  calls = suc (suc w.calls);
  block = update w.block (suc (suc w.calls)) (some (replicate s.length_signature none));
  handles = suc w.handles;
}

module _ (into : Out → Ptr → M (ℤ × Out)) (s : Sig) (sk_len : ℕ) (k m : List ℕ) (source : Source)
    (events : List Event) (out : Out) (w : World) (found : Option Sig) (known : found ≡ some s)
    (free : w.held ≡ false) (sys : w.rng ≡ system)
    (at_null : (v : World)
      → into out null v ≡ (object_free >> pure (qpqc_err, record out { buf = null })) v)
    (fills : sk_len ≡ s.length_secret_key
      → Ends
          (Filled s source events k m (with_buffer s w) out (suc (suc w.calls)) w.handles)
          (into out (suc (suc w.calls)) (with_buffer s w))) where
  -- The check of the key's length and the allocation, in front of that part.
  pub checked-SignPost : Ends (SignPost found sk_len source events k m w out) (
      (if not (sk_len == s.length_secret_key)
          then object_free >> pure (qpqc_err, out)
          else malloc s.length_signature >>= into out)
        (obtained w))
  unfolding malloc object_free
  checked-SignPost = elim (Bool-cases (sk_len == s.length_secret_key)) [
    | inr short ↦ rw short (
      record { handles = refl; held = refl; rng = refl },
      inl (refl, refl, refl, inl (inr (s, known, λ e. ground arith), refl)),
    )
    | inl fits ↦ rw fits (elim (Bool-cases (w.refuse (suc w.calls))) [
      | inl refused ↦
          rw (refused, at_null)
            (
              record { handles = refl; held = refl; rng = refl },
              inl (refl, refl, refl, inr (refused, refl)),
            )
      | inr grant ↦
          let e : sk_len ≡ s.length_secret_key = (==_iff sk_len s.length_secret_key).0 fits in
          rw grant (
            Ends-mono (into out (suc (suc w.calls)) (with_buffer s w)) (fills e) λ r v f. (
              record { handles = f.handles; held = f.held ∙ sym free; rng = f.rng ∙ sym sys },
              inr (
                s,
                known,
                e,
                f.code,
                ap (λ (o : Out). o.len) f.answer,
                ap (λ (o : Out). o.buf) f.answer,
                f.block
                    ∙ update-update (suc (suc w.calls)) (some (replicate s.length_signature none))
                        (some (part s.length_signature (s.sign source m k).bytes)) w.block,
                f.log,
              ),
            ))
    ])
  ]
