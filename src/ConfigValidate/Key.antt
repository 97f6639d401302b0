-- ===== src/ConfigValidate/Key.antt =====
-- The keys of a configuration command, as bytes.

use lo_ra_ham_daemon.Base.{List, [], ℕ, ◌∷◌}

abbrev pub freq : List ℕ
freq = 70 ∷ 82 ∷ 69 ∷ 81 ∷ []

abbrev pub power : List ℕ
power = 80 ∷ 79 ∷ 87 ∷ 69 ∷ 82 ∷ []

abbrev pub preamble : List ℕ
preamble = 80 ∷ 82 ∷ 69 ∷ 65 ∷ 77 ∷ 66 ∷ 76 ∷ 69 ∷ []

abbrev pub sync : List ℕ
sync = 83 ∷ 89 ∷ 78 ∷ 67 ∷ []

abbrev pub sf : List ℕ
sf = 83 ∷ 70 ∷ []

abbrev pub bw : List ℕ
bw = 66 ∷ 87 ∷ []

abbrev pub cr : List ℕ
cr = 67 ∷ 82 ∷ []

abbrev pub ldro : List ℕ
ldro = 76 ∷ 68 ∷ 82 ∷ 79 ∷ []

abbrev pub crc : List ℕ
crc = 67 ∷ 82 ∷ 67 ∷ []

abbrev pub br : List ℕ
br = 66 ∷ 82 ∷ []

abbrev pub freqdev : List ℕ
freqdev = 70 ∷ 82 ∷ 69 ∷ 81 ∷ 68 ∷ 69 ∷ 86 ∷ []

abbrev pub rxbw : List ℕ
rxbw = 82 ∷ 88 ∷ 66 ∷ 87 ∷ []

abbrev pub ook : List ℕ
ook = 79 ∷ 79 ∷ 75 ∷ []

abbrev pub shaping : List ℕ
shaping = 83 ∷ 72 ∷ 65 ∷ 80 ∷ 73 ∷ 78 ∷ 71 ∷ []

abbrev pub encoding : List ℕ
encoding = 69 ∷ 78 ∷ 67 ∷ 79 ∷ 68 ∷ 73 ∷ 78 ∷ 71 ∷ []
