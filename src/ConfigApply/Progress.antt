-- ===== src/ConfigApply/Progress.antt =====
-- How far a command gets, and what is kept of it for the replay.
use lo_ra_ham_daemon.Base.{
  Bool, Bool-cases, List, [], ap, arith, false, if◌then◌else◌, inl, inr, not, refl, sym, true, ℕ,
  ◌++◌, ◌||◌, ◌∷◌, ◌≡◌,
}
use mathlib.Core.Path.{subst}
use lo_ra_ham_daemon.ConfigValue.{Floats}
use lo_ra_ham_daemon.ConfigParser.{is_empty}
use lo_ra_ham_daemon.ConfigReplay.{Replay, note}
use lo_ra_ham_daemon.ConfigValidate.{Board}
use lo_ra_ham_daemon.DataTx.{RadioMode}
use lo_ra_ham_daemon.ConfigApply.{
  Status, applied, ok_no_radio, hw_error, Driver, Radio, RfDefaults, ignored, noted, apply_param,
  apply_tokens,
}
use lo_ra_ham_daemon.ConfigApply.Branches.{
  apply_tokens-ignored, apply_tokens_applied, apply_tokens_refused,
}

-- The parameters of the active mode.
abbrev pub own : RadioMode → List (List ℕ × List ℕ) → List (List ℕ × List ℕ)
own mode [] = []
own mode ((key, val) ∷ tokens) =
    let rest = own mode tokens in if ignored mode key then rest else (key, val) ∷ rest

abbrev pub note_all : List (List ℕ × List ℕ) → Replay → Replay
note_all [] r = r
note_all ((key, val) ∷ tokens) r = note_all tokens (note key val r)

module _ (fl : Floats) (rf : RfDefaults fl.Float) {D : Type 0} (board : Board fl)
    (calls : Driver D) where
  -- The driver takes all the parameters, one after the other, and is then `d'`.
  abbrev pub Runs : RadioMode → List (List ℕ × List ℕ) → D → D → Type 0
  Runs mode [] d d' = d ≡ d'
  Runs mode ((key, val) ∷ tokens) d d' =
      ((apply_param fl rf board calls mode key val d).0 ≡ true)
      × Runs mode tokens (apply_param fl rf board calls mode key val d).1 d'

  -- With nothing left the command succeeds; else the driver has refused the first that is left.
  abbrev pub Ended :
      RadioMode → Bool → List (List ℕ × List ℕ) → D → Status × Radio fl.Float D → Type 0
  Ended mode touched [] d r = (r.1.driver ≡ d) × (r.0 ≡ (if touched then applied else ok_no_radio))
  Ended mode touched ((key, val) ∷ _) d r =
      (apply_param fl rf board calls mode key val d ≡ (false, r.1.driver)) × (r.0 ≡ hw_error)

  -- The parameters of the mode up to some point are done: taken by the driver in their order, and
  -- noted for the replay. The others have changed nothing.
  pub record IsProgress (tokens : List (List ℕ × List ℕ)) (touched : Bool) (st : Radio fl.Float D)
      (r : Status × Radio fl.Float D) : Type 0 where
    pub done : List (List ℕ × List ℕ)
    pub left : List (List ℕ × List ℕ)
    pub then_driver : D
    pub split : own st.mode_flag tokens ≡ done ++ left
    pub ran : Runs st.mode_flag done st.driver then_driver
    pub noted_all : r.1.replay ≡ note_all done st.replay
    pub same_mode : r.1.mode_flag ≡ st.mode_flag
    pub same_getrssi : r.1.getrssi ≡ st.getrssi
    pub ended : Ended st.mode_flag (touched || not (is_empty done)) left then_driver r

  skipped :
      (key val : List ℕ) (tokens : List (List ℕ × List ℕ)) (touched : Bool) (st : Radio fl.Float D)
      (r : Status × Radio fl.Float D)
      → ignored st.mode_flag key ≡ true
      → IsProgress tokens touched st r
      → IsProgress ((key, val) ∷ tokens) touched st r
  skipped key val tokens touched st r e p = record {
    done = p.done;
    left = p.left;
    then_driver = p.then_driver;
    split = rw e p.split;
    ran = p.ran;
    noted_all = p.noted_all;
    same_mode = p.same_mode;
    same_getrssi = p.same_getrssi;
    ended = p.ended;
  }

  taken :
      (key val : List ℕ) (tokens : List (List ℕ × List ℕ)) (touched : Bool) (st : Radio fl.Float D)
      (r : Status × Radio fl.Float D)
      → ignored st.mode_flag key ≡ false
      → let answer = apply_param fl rf board calls st.mode_flag key val st.driver in
        answer.0 ≡ true
        → IsProgress tokens true (noted fl rf board calls key val answer.1 st) r
        → IsProgress ((key, val) ∷ tokens) touched st r
  taken key val tokens touched st r e a p = record {
    done = (key, val) ∷ p.done;
    left = p.left;
    then_driver = p.then_driver;
    split = rw e (ap (λ l. (key, val) ∷ l) p.split);
    ran = (a, p.ran);
    noted_all = p.noted_all;
    same_mode = p.same_mode;
    same_getrssi = p.same_getrssi;
    ended =
        (let t : touched || true ≡ true = ground arith in
          subst (λ b. Ended st.mode_flag b p.left p.then_driver r) (sym t) p.ended);
  }

  refused :
      (key val : List ℕ) (tokens : List (List ℕ × List ℕ)) (touched : Bool) (st : Radio fl.Float D)
      → ignored st.mode_flag key ≡ false
      → let answer = apply_param fl rf board calls st.mode_flag key val st.driver in
        answer.0 ≡ false
        → IsProgress ((key, val) ∷ tokens) touched st (hw_error, record st { driver = answer.1 })
  refused key val tokens touched st e a = record {
    done = [];
    left = (key, val) ∷ own st.mode_flag tokens;
    then_driver = st.driver;
    split = rw e refl;
    ran = refl;
    noted_all = refl;
    same_mode = refl;
    same_getrssi = refl;
    ended =
        (ap (λ b. (b, (apply_param fl rf board calls st.mode_flag key val st.driver).1)) a, refl);
  }

  -- Setting the parameters of a command calls the driver for those of the active mode and no other,
  -- in their order, and notes for the replay exactly those that the driver took. It stops with a
  -- hardware error at the first that the driver refuses; otherwise all are done, and the answer tells
  -- whether the hardware was touched.
  pub apply_tokens-IsProgress :
      (tokens : List (List ℕ × List ℕ)) (touched : Bool) (st : Radio fl.Float D)
      → IsProgress tokens touched st (apply_tokens fl rf board calls tokens touched st)
  unfolding apply_tokens
  apply_tokens-IsProgress [] touched st = record {
    done = [];
    left = [];
    then_driver = st.driver;
    split = refl;
    ran = refl;
    noted_all = refl;
    same_mode = refl;
    same_getrssi = refl;
    ended = (refl, ground arith);
  }
  apply_tokens-IsProgress ((key, val) ∷ tokens) touched st =
      let r = apply_param fl rf board calls st.mode_flag key val st.driver in
      elim (Bool-cases (ignored st.mode_flag key)) [
        | inl e ↦
            subst (IsProgress ((key, val) ∷ tokens) touched st)
              (sym (apply_tokens-ignored fl rf board calls key val tokens touched st e))
              (skipped key val tokens touched st (apply_tokens fl rf board calls tokens touched st)
                e (apply_tokens-IsProgress tokens touched st))
        | inr e ↦ elim (Bool-cases r.0) [
          | inl a ↦
              subst (IsProgress ((key, val) ∷ tokens) touched st)
                (sym (apply_tokens_applied fl rf board calls key val tokens touched st e a))
                (let st' = noted fl rf board calls key val r.1 st in
                  taken key val tokens touched st (apply_tokens fl rf board calls tokens true st') e
                    a (apply_tokens-IsProgress tokens true st'))
          | inr a ↦
              subst (IsProgress ((key, val) ∷ tokens) touched st)
                (sym (apply_tokens_refused fl rf board calls key val tokens touched st e a))
                (refused key val tokens touched st e a)
        ]
      ]
