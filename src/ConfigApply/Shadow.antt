-- ===== src/ConfigApply/Shadow.antt =====
-- The shadow of the radio's configuration: merging a command's keys and noting them one by one agree on
-- what the airtime depends on.
use lo_ra_ham_daemon.Base.{
  All, Bool-cases, List, [], arith, false, inl, inr, refl, sym, true, ℕ, ◌∷◌, ◌≡◌,
}
use mathlib.Core.Path.{subst}
use lo_ra_ham_daemon.ConfigValue.{Floats}
use lo_ra_ham_daemon.ConfigParser.{same, getrssi_word}
use lo_ra_ham_daemon.ConfigReplay.Latest.{same-eq}
use lo_ra_ham_daemon.ConfigValidate.Key
use lo_ra_ham_daemon.ConfigValidate.{one_of, is_fsk_only_key, is_lora_only_key}
use lo_ra_ham_daemon.DataTx.{RadioMode, lora, fsk}
use lo_ra_ham_daemon.ConfigApply.{Effective, RfDefaults, ignored, merge_token, note_key}

one_of-elim {κ} :
    (P : List ℕ → Type κ) (key : List ℕ) (keys : List (List ℕ))
    → one_of key keys ≡ true
    → All P keys
    → P key
one_of-elim P key [] e h = absurd (ground (arith, e))
one_of-elim P key (k ∷ keys) e (p, h) = elim (Bool-cases (same key k)) [
  | inl s ↦ subst P (sym (same-eq key k s)) p
  | inr s ↦ one_of-elim P key keys (ground (arith, e, s)) h
]

-- The same in what the airtime of the mode depends on.
abbrev pub Agree : {F : Type 0} → RadioMode → Effective F → Effective F → Type 0
Agree lora e e' =
    (e.sf ≡ e'.sf) × (e.bw_khz ≡ e'.bw_khz) × (e.cr ≡ e'.cr) × (e.preamble ≡ e'.preamble)
Agree fsk e e' = (e.fsk_br_kbps ≡ e'.fsk_br_kbps) × (e.fsk_preamble_bits ≡ e'.fsk_preamble_bits)

module _ (fl : Floats) (rf : RfDefaults fl.Float) where
  pub merge_ignored :
      (mode : RadioMode) (key val : List ℕ) (e e' : Effective fl.Float)
      → ignored mode key ≡ true
      → Agree mode e e'
      → Agree mode (merge_token fl rf mode key val e) e'
  unfolding merge_token is_fsk_only_key is_lora_only_key
  merge_ignored lora key val e e' i a =
      one_of-elim (λ k. Agree lora (merge_token fl rf lora k val e) e') key
        (Key.br ∷ Key.freqdev ∷ Key.rxbw ∷ Key.ook ∷ Key.shaping ∷ Key.encoding ∷ []) i
        (a, (a, (a, (a, (a, (a, tt))))))
  merge_ignored fsk key val e e' i a =
      one_of-elim (λ k. Agree fsk (merge_token fl rf fsk k val e) e') key
        (Key.sf ∷ Key.bw ∷ Key.cr ∷ Key.ldro ∷ Key.crc ∷ []) i (a, (a, (a, (a, (a, tt)))))

  pub merge_getrssi :
      (mode : RadioMode) (key val : List ℕ) (e : Effective fl.Float)
      → same key getrssi_word ≡ true
      → merge_token fl rf mode key val e ≡ e
  unfolding merge_token
  merge_getrssi mode key val e g =
      subst (λ k. merge_token fl rf mode k val e ≡ e) (sym (same-eq key getrssi_word g)) refl

  pub merge_noted :
      (mode : RadioMode) (key val : List ℕ) (e e' : Effective fl.Float)
      → ignored mode key ≡ false
      → Agree mode e e'
      → Agree mode (merge_token fl rf mode key val e) (note_key fl rf mode key val e')
  unfolding merge_token note_key is_fsk_only_key is_lora_only_key
  merge_noted lora key val e e' i a = ground arith
  merge_noted fsk key val e e' i a = elim (Bool-cases (same key Key.preamble)) [
    | inl s ↦
        subst (λ k. Agree fsk (merge_token fl rf fsk k val e) (note_key fl rf fsk k val e'))
          (sym (same-eq key Key.preamble s)) (a.0, cc)
    | inr s ↦ ground (arith, s)
  ]
