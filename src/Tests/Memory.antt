-- ===== src/Tests/Memory.antt =====
-- The theorems on the hashes and on `qpqc_free`, applied to small blocks.
use qorechain_pqc.Base.{
  ℕ, Bool, true, false, none, ◌≤◌, ◌⊎◌, ◌≡◌, refl, some, List, [], ◌∷◌, map, arith, length,
  replicate, codes, Text,
}
use qorechain_pqc.Machine.{done, fault, set_block, store, read}
use qorechain_pqc.Machine.Args.{Holds, ticked}
use qorechain_pqc.Machine.Ends.{Ends, over}
use qorechain_pqc.SignBytes.{sign_bytes_v2}
use qorechain_pqc.SignBytes.Layout.{v2_layout}
use qorechain_pqc.SignBytes.Form.{sign_bytes_form}
use qorechain_pqc.Hash.{shake256}
use qorechain_pqc.Hash.Laws.{hashed, shake256-digested}
use qorechain_pqc.Oqs.{object_new, object_free}
use qorechain_pqc.Release.Laws.{build_and_free, build_and_free_clean}
use qorechain_pqc.Tests.Fixtures.{
  start, no_out, room, with_room, toy_oqs, toy_cleanse, toy_evp, toy_shake, toy_xof, bare_evp,
}

abbrev key : List ℕ
key = 7 ∷ 8 ∷ []

key-Holds : Holds (some key) 2 key
key-Holds = (omega arith, refl)

shake256-digested_example :
    ((with_room.refuse with_room.calls ≡ true)
      × (shake256 toy_evp (some key) 2 1 3 with_room ≡ fault))
    ⊎ ((with_room.refuse with_room.calls ≡ false)
        × (hashed toy_evp key 3 ≡ none)
        × (shake256 toy_evp (some key) 2 1 3 with_room ≡ fault))
    ⊎ ((with_room.refuse with_room.calls ≡ false)
        × (ok : Bool) × (bytes : List ℕ) × (hashed toy_evp key 3 ≡ some (ok, bytes))
        × (shake256 toy_evp (some key) 2 1 3 with_room
            ≡ done tt (set_block 1 (some (over bytes room)) (ticked with_room)))
        × (length bytes ≤ 3)
        × ((ok ≡ false) ⊎ (bytes ≡ toy_shake key 3)))
shake256-digested_example =
    shake256-digested toy_evp (some key) 2 key key-Holds 1 room with_room refl toy_shake toy_xof 3
      (omega arith)

-- There the digest is made,
made_of_key : hashed toy_evp key 3 ≡ some (true, toy_shake key 3)
made_of_key = refl

-- and the call returns with it; without a SHAKE-256 the calls that go on have no defined behaviour.
in_place :
    shake256 toy_evp (some key) 2 1 3 with_room
    ≡ done tt (set_block 1 (some (over (toy_shake key 3) room)) (ticked with_room))
unfolding shake256 object_new object_free store read replicate
in_place = refl

bare_faults : shake256 bare_evp (some key) 2 1 3 with_room ≡ fault
unfolding shake256 object_new read
bare_faults = refl

abbrev chain : Text
chain = codes "qorechain-diana"

chain-Holds : Holds (some chain) 15 chain
chain-Holds = (omega arith, refl)

form : sign_bytes_form sign_bytes_v2 chain key key ≡ some (v2_layout chain key key)
unfolding sign_bytes_form
form = refl

build_and_free_clean_example :
    Ends
      (λ _ v.
        ((q : ℕ) → v.block q ≡ start.block q)
        × (v.released ≡ map some (replicate (length (v2_layout chain key key)) 0) ∷ []))
      (build_and_free toy_oqs sign_bytes_v2 (some chain) 15 (some key) 2 (some key) 2 no_out start)
build_and_free_clean_example =
    build_and_free_clean toy_oqs toy_cleanse sign_bytes_v2 (some chain) (some key) (some key) 15 2 2
      chain key key chain-Holds key-Holds key-Holds no_out start (omega arith) refl refl
      (v2_layout chain key key) form
