-- ===== src/ConfigReplay.antt =====
-- loraham_daemon/config_replay.cpp: what clients have applied, for the re-init of an adapter that
-- comes back.
pub mod RoundTrip
pub mod Latest
mod Tests
use lo_ra_ham_daemon.Base.{List, Option, [], if◌then◌else◌, none, some, ℕ, ◌&&◌, ◌++◌, ◌∷◌}
use lo_ra_ham_daemon.ConfigParser.{space, equals, set_word, mode_word, same, is_empty}

pub record Replay : Type 0 where
  pub mode : List ℕ
  pub keys : List (List ℕ × List ℕ)

unfoldable pub note_keys : List ℕ → List ℕ → List (List ℕ × List ℕ) → List (List ℕ × List ℕ)
note_keys key val [] = (key, val) ∷ []
note_keys key val ((k, v) ∷ keys) =
    let rest = note_keys key val keys in if same k key then (k, val) ∷ keys else (k, v) ∷ rest

unfoldable pub note : List ℕ → List ℕ → Replay → Replay
note key val r = record r { keys = note_keys key val r.keys }

unfoldable pub start_mode : List ℕ → Replay → Replay
start_mode mode r = record { mode = mode; keys = [] }

unfoldable pub value_in : List ℕ → List (List ℕ × List ℕ) → Option (List ℕ)
value_in key [] = none
value_in key ((k, v) ∷ keys) = if same k key then some v else value_in key keys

unfoldable pub value : Replay → List ℕ → Option (List ℕ)
unfolding value_in
value r key = value_in key r.keys

abbrev pub reset : Replay
reset = record { mode = []; keys = [] }

unfoldable pub write_keys : List (List ℕ × List ℕ) → List ℕ
write_keys [] = []
write_keys ((k, v) ∷ keys) = space ∷ (k ++ equals ∷ (v ++ write_keys keys))

unfoldable pub command : Replay → List ℕ
command r =
    if is_empty r.mode && is_empty r.keys
    then []
    else set_word
      ++ ((if is_empty r.mode then [] else space ∷ (mode_word ++ equals ∷ r.mode))
          ++ write_keys r.keys)
