-- ===== src/SignBytes/Layout.antt =====
-- The two forms of the sign-bytes as c/qorechain_pqc.h states them, with no buffer.
use qorechain_pqc.Base.{ℕ, List, ◌++◌, length, Text}
use qorechain_pqc.Codec.BigEndian.{be_bytes}
use qorechain_pqc.SignBytes.{hybrid_sign_bytes_domain}

-- BE32(len b0) || b0 || BE32(len auth) || auth
unfoldable pub v1_layout : List ℕ → List ℕ → List ℕ
v1_layout b0 auth = be_bytes 4 (length b0) ++ (b0 ++ (be_bytes 4 (length auth) ++ auth))

-- "qorechain-pqc-hybrid-v2" || BE64(len chain_id) || chain_id || <v1 layout>
unfoldable pub v2_layout : Text → List ℕ → List ℕ → List ℕ
v2_layout chain_id b0 auth =
    hybrid_sign_bytes_domain ++ (be_bytes 8 (length chain_id) ++ (chain_id ++ v1_layout b0 auth))
