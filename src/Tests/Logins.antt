-- ===== src/Tests/Logins.antt =====
-- Runs of wl2k.c's handshake.
use paclink_unix.Common.{ℕ, ◌≡◌, List, [], ◌∷◌, All, length}
use paclink_unix.Handshake.{compute_secure_login_response}
use paclink_unix.Handshake.Laws.{IsDigit, compute_secure_login_response-IsDigit}

-- a hash whose bytes are all the length of the string
abbrev pub length_hash : List ℕ → ℕ → ℕ
length_hash s i = length s

compute_secure_login_response-IsDigit_example :
    All IsDigit (compute_secure_login_response length_hash (b'1' ∷ b'2' ∷ []) (b'p' ∷ []))
    × (length (compute_secure_login_response length_hash (b'1' ∷ b'2' ∷ []) (b'p' ∷ [])) ≡ 8)
compute_secure_login_response-IsDigit_example =
    compute_secure_login_response-IsDigit length_hash (b'1' ∷ b'2' ∷ []) (b'p' ∷ [])
