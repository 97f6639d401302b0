-- ===== src/Ring.antt =====
-- The circular arrays of daemon_tx_queue.cpp and daemon_tx_completion.cpp: the entries that a
-- head and a count select, oldest first.
use lo_ra_ham_daemon.Base.{
  List, [], ap, arith, get_or, get_or-set_ne, get_or-set_self, inl, inr, length, refl, set, suc,
  sym, zero, ℕ, ◌%◌, ◌++◌, ◌+◌, ◌-◌, ◌<◌, ◌∙◌, ◌∷◌, ◌≡◌, ◌≢◌, ◌≤◌, ◌⊎◌,
}
use native.Mathlib.Decide.{dec_lt}
use native.Mathlib.Nat.{mod-eq_of_lt, mod-eq-sub-mod, mod-lt, mod-add-mod}

module _ (cap : ℕ) where
  pub next-lt : (head : ℕ) → 0 < cap → (head + 1) % cap < cap
  next-lt head h = mod-lt (head + 1) h

  -- Going one entry on from `head` and `n` further is going `n + 1` on.
  pub next-mod : (head n : ℕ) → ((head + 1) % cap + n) % cap ≡ (head + suc n) % cap
  next-mod head n = mod-add-mod (head + 1) cap n ∙ ap (λ (t : ℕ). t % cap) (omega arith)

  mod_cases : (t : ℕ) → ((t < cap) × (t % cap ≡ t)) ⊎ ((cap ≤ t) × (t % cap ≡ (t - cap) % cap))
  mod_cases t = elim (dec_lt t cap) [
    | yes h ↦ inl (h, mod-eq_of_lt h)
    | no h ↦ inr (omega arith, mod-eq-sub-mod (omega arith))
  ]

  -- No other entry of the ring is `head`.
  head-ne : (head n : ℕ) → head < cap → suc n < cap → (head + suc n) % cap ≢ head
  head-ne head n h k e = elim (mod_cases (head + suc n)) [
    | inl (below, q) ↦ omega arith
    | inr (above, q) ↦ omega (arith, mod-eq_of_lt {n = head + suc n - cap} {m = cap} (omega arith))
  ]

module _ {ℓ} {A : Type ℓ} (d : A) (cap : ℕ) where
  -- entries[(head + i) % cap] for i below count
  unfoldable pub entries : List A → ℕ → ℕ → List A
  entries es head zero = []
  entries es head (suc n) = get_or es head d ∷ entries es ((head + 1) % cap) n

  pub length-entries : (es : List A) (head n : ℕ) → length (entries es head n) ≡ n
  unfolding entries
  length-entries es head zero = refl
  length-entries es head (suc n) = ap suc (length-entries es ((head + 1) % cap) n)

  -- A write behind the selected entries leaves them as they are.
  pub entries-set :
      (es : List A) (head n m j : ℕ) (v : A)
      → head < cap
      → n ≤ m
      → m < cap
      → j ≡ (head + m) % cap
      → entries (set es j v) head n ≡ entries es head n
  unfolding entries
  entries-set es head zero m j v h k l e = refl
  entries-set es head (suc n) zero j v h k l e = absurd (omega arith)
  entries-set es head (suc n) (suc m) j v h k l e =
      rw (get_or-set_ne es j head v d (λ p. head-ne cap head m h l (sym e ∙ p))) (
        ap (◌∷◌ (get_or es head d)) (
          entries-set es ((head + 1) % cap) n m j v (next-lt cap head (omega arith)) (omega arith)
            (omega arith) (e ∙ sym (next-mod cap head m))))

  -- Writing at the end and counting it appends.
  pub entries-append :
      (es : List A) (head n j : ℕ) (v : A)
      → head < cap
      → n < cap
      → length es ≡ cap
      → j ≡ (head + n) % cap
      → entries (set es j v) head (suc n) ≡ entries es head n ++ v ∷ []
  unfolding entries
  entries-append es head zero j v h k l e =
      let p : j ≡ head = omega (arith, e, mod-eq_of_lt {n = head + 0} {m = cap} (omega arith)) in
      rw p (ap (λ x. x ∷ []) (get_or-set_self es head v d (omega arith)))
  entries-append es head (suc n) j v h k l e =
      rw (get_or-set_ne es j head v d (λ p. head-ne cap head n h k (sym e ∙ p))) (
        ap (◌∷◌ (get_or es head d)) (
          entries-append es ((head + 1) % cap) n j v (next-lt cap head (omega arith)) (omega arith)
            l (e ∙ sym (next-mod cap head n))))
