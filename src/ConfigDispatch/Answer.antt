-- ===== src/ConfigDispatch/Answer.antt =====
-- The replies to a configuration line, as bytes.

-- "OK" and a newline

use lo_ra_ham_daemon.Base.{List, [], ℕ, ◌∷◌}

abbrev pub ok : List ℕ
ok = 79 ∷ 75 ∷ 10 ∷ []

-- "ERR BUSY" and a newline
abbrev pub busy : List ℕ
busy = 69 ∷ 82 ∷ 82 ∷ 32 ∷ 66 ∷ 85 ∷ 83 ∷ 89 ∷ 10 ∷ []

-- "ERR INVALID" and a newline
abbrev pub invalid : List ℕ
invalid = 69 ∷ 82 ∷ 82 ∷ 32 ∷ 73 ∷ 78 ∷ 86 ∷ 65 ∷ 76 ∷ 73 ∷ 68 ∷ 10 ∷ []

-- "ERR MALFORMED" and a newline
abbrev pub malformed : List ℕ
malformed = 69 ∷ 82 ∷ 82 ∷ 32 ∷ 77 ∷ 65 ∷ 76 ∷ 70 ∷ 79 ∷ 82 ∷ 77 ∷ 69 ∷ 68 ∷ 10 ∷ []

-- "ERR UNKNOWN" and a newline
abbrev pub unknown : List ℕ
unknown = 69 ∷ 82 ∷ 82 ∷ 32 ∷ 85 ∷ 78 ∷ 75 ∷ 78 ∷ 79 ∷ 87 ∷ 78 ∷ 10 ∷ []

-- "ERR HARDWARE" and a newline
abbrev pub hardware : List ℕ
hardware = 69 ∷ 82 ∷ 82 ∷ 32 ∷ 72 ∷ 65 ∷ 82 ∷ 68 ∷ 87 ∷ 65 ∷ 82 ∷ 69 ∷ 10 ∷ []

-- "ERR RADIO_NOT_READY" and a newline
abbrev pub not_ready : List ℕ
not_ready =
    69 ∷ 82 ∷ 82 ∷ 32 ∷ 82 ∷ 65 ∷ 68 ∷ 73 ∷ 79 ∷ 95 ∷ 78 ∷ 79 ∷ 84 ∷ 95 ∷ 82 ∷ 69 ∷ 65 ∷ 68 ∷ 89
    ∷ 10 ∷ []
