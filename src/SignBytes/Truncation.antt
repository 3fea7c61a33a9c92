-- ===== src/SignBytes/Truncation.antt =====
-- The casts to `uint32_t` in the builders, for byte strings of 2^32 bytes and more.
use qorechain_pqc.Base.{
  ℕ, ◌+◌, ◌-◌, ◌^◌, ◌<◌, ◌≡◌, ◌≢◌, ap, ◌∙◌, map, false, some, List, [], ◌++◌, append_assoc, arith,
  length, length-append,
}
use qorechain_pqc.Machine.{World}
use qorechain_pqc.Machine.Args.{some-Holds}
use qorechain_pqc.Codec.BigEndian.{be_bytes, length-be_bytes}
use qorechain_pqc.SignBytes.{Out, hybrid_sign_bytes_v1}
use qorechain_pqc.SignBytes.Layout.{v1_layout}
use qorechain_pqc.SignBytes.Produced.{produced, produced_v1}

module _ (auth t : List ℕ) (long : length t ≡ 2 ^ 32 - 4) where
  abbrev pub long_b0 : List ℕ
  long_b0 = be_bytes 4 (length auth) ++ t

  abbrev pub long_auth : List ℕ
  long_auth = t ++ (be_bytes 4 (length auth) ++ auth)

  length-long_b0 : length long_b0 ≡ 2 ^ 32
  length-long_b0 =
      omega (arith, length-append (be_bytes 4 (length auth)) t, length-be_bytes 4 (length auth))

  length-long_auth : length long_auth ≡ 2 ^ 32 + length auth
  length-long_auth = omega (
    arith,
    length-append t (be_bytes 4 (length auth) ++ auth),
    length-append (be_bytes 4 (length auth)) auth,
    length-be_bytes 4 (length auth),
  )

  be_bytes-wrap : (n : ℕ) → be_bytes 4 (2 ^ 32 + n) ≡ be_bytes 4 n
  unfolding be_bytes
  be_bytes-wrap n = ground arith

  layouts_collide : v1_layout long_b0 auth ≡ v1_layout [] long_auth
  unfolding v1_layout
  layouts_collide = rw (
    length-long_b0,
    length-long_auth,
    be_bytes-wrap 0,
    be_bytes-wrap (length auth),
    append_assoc (be_bytes 4 (length auth)) t (be_bytes 4 (length auth) ++ auth),
  )

  -- A b0 of 2^32 bytes that starts with the encoded length of auth is encoded as if it were empty and
  -- its bytes belonged to auth: two v1 calls on different arguments, each granted its buffer by
  -- `malloc`, both return QPQC_OK and fill their buffers with the same bytes, which are those of the
  -- v1 form of the second call. The auth of the first call has less than 2^63 bytes.
  pub hybrid_sign_bytes_v1_collides :
      (out out' : Out) (w w' : World)
      → length auth < 2 ^ 63
      → w.refuse w.calls ≡ false
      → w'.refuse w'.calls ≡ false
      → (produced
            (hybrid_sign_bytes_v1 (some long_b0) (length long_b0) (some auth) (length auth) out w)
          ≡ some (map some (v1_layout [] long_auth)))
        × (produced (hybrid_sign_bytes_v1 (some []) 0 (some long_auth) (length long_auth) out' w')
            ≡ some (map some (v1_layout [] long_auth)))
        × (long_b0 ≢ [])
  hybrid_sign_bytes_v1_collides out out' w w' short grant grant' = (
    produced_v1 (some long_b0) (some auth) (length long_b0) (length auth) long_b0 auth
          (some-Holds long_b0) (some-Holds auth) out w (omega (arith, length-long_b0)) grant
        ∙ ap (λ (bytes : List ℕ). some (map some bytes)) layouts_collide,
    produced_v1 (some []) (some long_auth) 0 (length long_auth) [] long_auth (some-Holds [])
        (some-Holds long_auth) out' w' (omega (arith, length-long_auth)) grant',
    λ e. absurd (omega (arith, length-long_b0, ap length e)),
  )
