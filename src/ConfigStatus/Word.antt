-- ===== src/ConfigStatus/Word.antt =====
-- The words of the lines that are answered without the radio, as bytes.

-- "GET STATUS"

use lo_ra_ham_daemon.Base.{List, [], ℕ, ◌∷◌}

abbrev pub get_status : List ℕ
get_status = 71 ∷ 69 ∷ 84 ∷ 32 ∷ 83 ∷ 84 ∷ 65 ∷ 84 ∷ 85 ∷ 83 ∷ []

-- "GET STATS"
abbrev pub get_stats : List ℕ
get_stats = 71 ∷ 69 ∷ 84 ∷ 32 ∷ 83 ∷ 84 ∷ 65 ∷ 84 ∷ 83 ∷ []

-- "GET CHANNEL"
abbrev pub get_channel : List ℕ
get_channel = 71 ∷ 69 ∷ 84 ∷ 32 ∷ 67 ∷ 72 ∷ 65 ∷ 78 ∷ 78 ∷ 69 ∷ 76 ∷ []

-- "GET CHANNEL NOSCAN"
abbrev pub get_channel_noscan : List ℕ
get_channel_noscan =
    71 ∷ 69 ∷ 84 ∷ 32 ∷ 67 ∷ 72 ∷ 65 ∷ 78 ∷ 78 ∷ 69 ∷ 76 ∷ 32 ∷ 78 ∷ 79 ∷ 83 ∷ 67 ∷ 65 ∷ 78 ∷ []

-- "TXRESULT"
abbrev pub txresult : List ℕ
txresult = 84 ∷ 88 ∷ 82 ∷ 69 ∷ 83 ∷ 85 ∷ 76 ∷ 84 ∷ []

-- "TXQUEUE"
abbrev pub txqueue : List ℕ
txqueue = 84 ∷ 88 ∷ 81 ∷ 85 ∷ 69 ∷ 85 ∷ 69 ∷ []

-- "TXMODE"
abbrev pub txmode : List ℕ
txmode = 84 ∷ 88 ∷ 77 ∷ 79 ∷ 68 ∷ 69 ∷ []

-- "CADRSSI"
abbrev pub cadrssi : List ℕ
cadrssi = 67 ∷ 65 ∷ 68 ∷ 82 ∷ 83 ∷ 83 ∷ 73 ∷ []

-- "CADMONITOR"
abbrev pub cadmonitor : List ℕ
cadmonitor = 67 ∷ 65 ∷ 68 ∷ 77 ∷ 79 ∷ 78 ∷ 73 ∷ 84 ∷ 79 ∷ 82 ∷ []

-- "CADWAIT"
abbrev pub cadwait : List ℕ
cadwait = 67 ∷ 65 ∷ 68 ∷ 87 ∷ 65 ∷ 73 ∷ 84 ∷ []

-- "CADIDLE"
abbrev pub cadidle : List ℕ
cadidle = 67 ∷ 65 ∷ 68 ∷ 73 ∷ 68 ∷ 76 ∷ 69 ∷ []

-- "CADPOLL"
abbrev pub cadpoll : List ℕ
cadpoll = 67 ∷ 65 ∷ 68 ∷ 80 ∷ 79 ∷ 76 ∷ 76 ∷ []

-- "CADTXAFTERTIMEOUT"
abbrev pub cadtxaftertimeout : List ℕ
cadtxaftertimeout =
    67 ∷ 65 ∷ 68 ∷ 84 ∷ 88 ∷ 65 ∷ 70 ∷ 84 ∷ 69 ∷ 82 ∷ 84 ∷ 73 ∷ 77 ∷ 69 ∷ 79 ∷ 85 ∷ 84 ∷ []

-- "MANAGED"
abbrev pub managed : List ℕ
managed = 77 ∷ 65 ∷ 78 ∷ 65 ∷ 71 ∷ 69 ∷ 68 ∷ []

-- "DIRECT"
abbrev pub direct : List ℕ
direct = 68 ∷ 73 ∷ 82 ∷ 69 ∷ 67 ∷ 84 ∷ []
