-- ===== src/ConfigReplay/Latest.antt =====
-- The latest value of each key is kept.
use lo_ra_ham_daemon.Base.{
  Bool-cases, List, Option-cases, [], ap, arith, false, if◌then◌else◌, inl, inr, none, refl, some,
  true, ℕ, ◌++◌, ◌∙◌, ◌∷◌, ◌≡◌,
}
use lo_ra_ham_daemon.ConfigParser.{same}
use lo_ra_ham_daemon.ConfigReplay.{Replay, note_keys, note, value_in, value}

same_refl : (k : List ℕ) → same k k ≡ true
same_refl [] = refl
same_refl (x ∷ k) = ground (arith, same_refl k)

pub same-eq : (a b : List ℕ) → same a b ≡ true → a ≡ b
same-eq [] [] e = refl
same-eq [] (y ∷ b) e = absurd (ground (arith, e))
same-eq (x ∷ a) [] e = absurd (ground (arith, e))
same-eq (x ∷ a) (y ∷ b) e =
    let head : x ≡ y = ground arith in
    let tail : same a b ≡ true = ground arith in rw (head, same-eq a b tail) refl

-- The keys, in the order in which they were first noted.
abbrev pub names : List (List ℕ × List ℕ) → List (List ℕ)
names [] = []
names ((k, _) ∷ keys) = k ∷ names keys

note_keys_lem :
    (key val other : List ℕ) (keys : List (List ℕ × List ℕ))
    → same key other ≡ false
    → (value_in key (note_keys key val keys) ≡ some val)
      × (value_in other (note_keys key val keys) ≡ value_in other keys)
      × (names (note_keys key val keys)
          ≡ (elim (value_in key keys) [ none ↦ names keys ++ key ∷ [] | some _ ↦ names keys ]))
unfolding note_keys value_in
note_keys_lem key val other [] d = (rw (same_refl key) refl, rw d refl, refl)
note_keys_lem key val other ((k, v) ∷ keys) d =
    let (a, b, c) = note_keys_lem key val other keys d in
    elim (Bool-cases (same k key)) [
      | inl e ↦
          let q : k ≡ key = same-eq k key e in
          let apart : same k other ≡ false = ap (λ l. same l other) q ∙ d in
          rw (e, note_keys, value_in) (rw e refl, rw (apart) refl, refl)
      | inr e ↦
          let order : (k ∷ names (note_keys key val keys)) ≡ (elim (value_in key keys) [
            | none ↦ k ∷ (names keys ++ key ∷ [])
            | some _ ↦ k ∷ names keys
          ]) =
            elim (Option-cases (value_in key keys)) [
              | inl n ↦ rw n (ap (λ l. k ∷ l) (c ∙ rw n refl))
              | inr (w, n) ↦ rw n (ap (λ l. k ∷ l) (c ∙ rw n refl))
            ] in
          rw e (rw e a, ap (λ o. if same k other then some v else o) b, order)
    ]

-- Noting a value makes it the value of its key and leaves that of any other key; a key that is new
-- comes last, and the order of the others stays.
note_lem :
    (key val other : List ℕ) (r : Replay)
    → same key other ≡ false
    → (value (note key val r) key ≡ some val)
      × (value (note key val r) other ≡ value r other)
      × (names (note key val r).keys
          ≡ (elim (value r key) [ none ↦ names r.keys ++ key ∷ [] | some _ ↦ names r.keys ]))
unfolding note value
note_lem key val other r d = note_keys_lem key val other r.keys d
