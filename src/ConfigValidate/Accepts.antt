-- ===== src/ConfigValidate/Accepts.antt =====
-- Which commands pass the validation.
use lo_ra_ham_daemon.Base.{
  All, Bool, List, Option-cases, [], ap, arith, false, if◌then◌else◌, inl, inr, ltb, none, refl,
  some, sym, true, ℕ, ◌++◌, ◌||◌, ◌↔◌, ◌∙◌, ◌∷◌, ◌≡◌, ◌≤◌,
}
use mathlib.Core.Path.{subst}
use lo_ra_ham_daemon.ConfigValue.{Floats, parse_bool01_exact}
use lo_ra_ham_daemon.ConfigParser.{ConfigCommand, same, getrssi_word}
use lo_ra_ham_daemon.DataTx.{RadioMode, lora, fsk}
use lo_ra_ham_daemon.ConfigValidate.{
  Board, is_known_config_key, is_lora_only_key, is_fsk_only_key, lora_value, fsk_value, is_some,
  has_key, check_token, check_tokens, target_of, validate_command,
}

-- No two tokens have the same key.
abbrev pub Distinct : List (List ℕ × List ℕ) → Type 0
Distinct [] = Unit
Distinct ((key, _) ∷ tokens) = All (λ t. same key t.0 ≡ false) tokens × Distinct tokens

abbrev New : List (List ℕ × List ℕ) → List (List ℕ × List ℕ) → Type 0
New before = All (λ t. has_key t.0 before ≡ false)

has_key-append :
    (k key val : List ℕ) (before : List (List ℕ × List ℕ))
    → has_key k (before ++ (key, val) ∷ []) ≡ has_key k before || same key k
has_key-append k key val [] = ground arith
has_key-append k key val ((k', v) ∷ before) = rw (has_key-append k key val before) (ground arith)

New-append :
    (before : List (List ℕ × List ℕ)) (key val : List ℕ) (tokens : List (List ℕ × List ℕ))
    → New (before ++ (key, val) ∷ []) tokens
      ↔ (New before tokens × All (λ t. same key t.0 ≡ false) tokens)
New-append before key val [] = (λ h. (tt, tt), λ h. tt)
New-append before key val ((k, v) ∷ tokens) =
    let rest = New-append before key val tokens in
    let split = has_key-append k key val before in
    (
      λ h. (
        (ground (arith, split, h.0), (rest.0 h.1).0),
        (ground (arith, split, h.0), (rest.0 h.1).1),
      ),
      λ h. (ground (arith, split, h.0.0, h.1.0), rest.1 (h.0.1, h.1.1)),
    )

New-nil : (tokens : List (List ℕ × List ℕ)) → New [] tokens
New-nil [] = tt
New-nil (t ∷ tokens) = (refl, New-nil tokens)

module _ (fl : Floats) (board : Board fl) where
  -- The value fits the mode that the command leads to; a key of the other mode is not looked at.
  abbrev pub fits : RadioMode → List ℕ → List ℕ → Bool
  fits target key val =
      if same key getrssi_word then is_some (parse_bool01_exact val) else elim target [
        | fsk ↦ is_lora_only_key key || fsk_value fl board key val
        | lora ↦ is_fsk_only_key key || lora_value fl board key val
      ]

  abbrev pub IsGood : RadioMode → List ℕ × List ℕ → Type 0
  IsGood target (key, val) = (is_known_config_key key ≡ true) × (fits target key val ≡ true)

  check_token-IsGood :
      (target : RadioMode) (before : List (List ℕ × List ℕ)) (key val : List ℕ)
      → (check_token fl board target before key val ≡ none)
        ↔ (IsGood target (key, val) × (has_key key before ≡ false))
  unfolding check_token
  check_token-IsGood fsk before key val = ground arith
  check_token-IsGood lora before key val = ground arith

  check_tokens-IsGood :
      (target : RadioMode) (before tokens : List (List ℕ × List ℕ))
      → (check_tokens fl board target before tokens ≡ none)
        ↔ (All (IsGood target) tokens × New before tokens × Distinct tokens)
  unfolding check_tokens
  check_tokens-IsGood target before [] = (λ h. (tt, tt, tt), λ h. refl)
  check_tokens-IsGood target before ((key, val) ∷ tokens) =
      let one = check_token-IsGood target before key val in
      let rest = check_tokens-IsGood target (before ++ (key, val) ∷ []) tokens in
      let split = New-append before key val tokens in
      elim (Option-cases (check_token fl board target before key val)) [
        | inl e ↦
            let (good, new) = one.0 e in
            let step : check_tokens fl board target before ((key, val) ∷ tokens)
                ≡ check_tokens fl board target (before ++ (key, val) ∷ []) tokens =
              rw (e, check_tokens) refl in
            (
              λ h.
                  let (goods, news, distinct) = rest.0 (sym step ∙ h) in
                  ((good, goods), (new, (split.0 news).0), ((split.0 news).1, distinct)),
              λ (g, n, d). step ∙ rest.1 (g.1, split.1 (n.1, d.0), d.1),
            )
        | inr (why, e) ↦ (
          λ h. absurd (ground (arith, e, h)),
          λ (g, n, d). absurd (ground (arith, e, one.1 (g.0, n.0))),
        )
      ]

  -- What a SET command that passes is like: none of its tokens is malformed, it names at most one
  -- mode, which is known, and its tokens have known keys, no key twice, and values that fit.
  pub record IsAcceptable (cmd : ConfigCommand) (current target : RadioMode) : Type 0 where
    pub well_formed : cmd.malformed_tokens ≡ []
    pub one_mode : cmd.mode_count ≤ 1
    pub known_mode : target_of cmd.mode current ≡ some target
    pub good : All (IsGood target) cmd.tokens
    pub distinct : Distinct cmd.tokens

  validate_command_known :
      (cmd : ConfigCommand) (current target : RadioMode)
      → cmd.is_set ≡ true
      → cmd.has_params ≡ true
      → cmd.malformed_tokens ≡ []
      → cmd.mode_count ≤ 1
      → target_of cmd.mode current ≡ some target
      → validate_command fl board cmd current
        ≡ record { rejection = check_tokens fl board target [] cmd.tokens; target_mode = target }
  unfolding validate_command
  validate_command_known cmd current target s p m c t =
      let count : ltb 1 cmd.mode_count ≡ false = ground arith in
      rw (s, p) (rw m (rw count (rw t refl)))

  validate_command_refused :
      (cmd : ConfigCommand) (current : RadioMode)
      → cmd.is_set ≡ true
      → cmd.has_params ≡ true
      → (validate_command fl board cmd current).rejection ≡ none
      → (cmd.malformed_tokens ≡ [])
        × (cmd.mode_count ≤ 1)
        × ((target : RadioMode) × (target_of cmd.mode current ≡ some target))
  unfolding validate_command
  validate_command_refused cmd current s p h =
      let m : cmd.malformed_tokens ≡ [] = ground (arith, s, p, h) in
      let c : cmd.mode_count ≤ 1 = ground (arith, s, p, h, m) in
      (
        m,
        c,
        elim (Option-cases (target_of cmd.mode current)) [
          | inl e ↦ absurd (ground (arith, s, p, h, m, c, e))
          | inr known ↦ known
        ],
      )

  -- The validation of a SET command with parameters rejects nothing exactly where the command is
  -- acceptable for a mode, and that mode is then the target that it reports.
  pub validate_command-IsAcceptable :
      (cmd : ConfigCommand) (current : RadioMode)
      → cmd.is_set ≡ true
      → cmd.has_params ≡ true
      → let result = validate_command fl board cmd current in
        ((result.rejection ≡ none) → IsAcceptable cmd current result.target_mode)
        × ((target : RadioMode)
            → IsAcceptable cmd current target
            → (result.rejection ≡ none) × (result.target_mode ≡ target))
  validate_command-IsAcceptable cmd current s p = (
    λ h.
        let (m, c, (target, t)) = validate_command_refused cmd current s p h in
        let e = validate_command_known cmd current target s p m c t in
        let mode : (validate_command fl board cmd current).target_mode ≡ target =
          ap (λ r. r.target_mode) e in
        let checked : check_tokens fl board target [] cmd.tokens ≡ none =
          sym (ap (λ r. r.rejection) e) ∙ h in
        let (goods, _, distinct) = (check_tokens-IsGood target [] cmd.tokens).0 checked in
        subst (IsAcceptable cmd current) (sym mode) (record {
          well_formed = m;
          one_mode = c;
          known_mode = t;
          good = goods;
          distinct = distinct;
        }),
    λ target a.
        let e =
          validate_command_known cmd current target s p a.well_formed a.one_mode a.known_mode in
        (
          ap (λ r. r.rejection) e
              ∙ (check_tokens-IsGood target [] cmd.tokens).1
                  (a.good, New-nil cmd.tokens, a.distinct),
          ap (λ r. r.target_mode) e,
        ),
  )
