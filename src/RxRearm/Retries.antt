-- ===== src/RxRearm/Retries.antt =====
-- When the radio is retried, and when it is given up.
use lo_ra_ham_daemon.Base.{
  Bool, Bool-cases, List, [], arith, false, if◌then◌else◌, inl, inr, leb, length, ltb, refl, suc,
  sym, true, ℕ, ◌+◌, ◌<◌, ◌||◌, ◌∷◌, ◌≡◌, ◌≤◌,
}
use mathlib.Core.Path.{subst}
use lo_ra_ham_daemon.UsbWait.{ready, failed}
use lo_ra_ham_daemon.RxRearm.{Rearm, Call, note_result, retry}

-- The results that were noted, newest first.
abbrev pub after : List Bool → Rearm → Rearm
after [] c = c
after (r ∷ older) c = note_result r (after older c)

-- The failures in a row at the end, and all of them.
abbrev pub row : List Bool → ℕ
row (false ∷ older) = suc (row older)
row _ = 0

abbrev pub failures_of : List Bool → ℕ
failures_of [] = 0
failures_of (true ∷ older) = failures_of older
failures_of (false ∷ older) = suc (failures_of older)

-- There were thirty failures in a row at some time.
abbrev pub was_deaf : List Bool → Bool
was_deaf [] = false
was_deaf (r ∷ older) = leb 30 (row (r ∷ older)) || was_deaf older

abbrev pub fresh : Rearm
fresh = record {
  consecutive_failures = 0;
  rearm_pending = false;
  next_retry_ms = 0;
  health = ready;
  failures = 0;
}

row_short : (results : List Bool) → row results ≤ length results
row_short [] = omega arith
row_short (true ∷ older) = omega arith
row_short (false ∷ older) = omega (arith, row_short older)

-- From a ready radio, whatever results are noted (fewer than 2^32): the latch is set exactly if the
-- last one is a failure, the counters are the failures in a row and all failures, and the radio is
-- failed exactly if there were thirty failures in a row at some time; a later success does not bring
-- it back.
pub after-fresh :
    (results : List Bool)
    → length results < 4294967296
    → let c = after results fresh in
      (c.rearm_pending ≡ ltb 0 (row results))
      × (c.consecutive_failures ≡ row results)
      × (c.failures ≡ failures_of results)
      × (c.health ≡ (if was_deaf results then failed else ready))
unfolding note_result
after-fresh [] h = (refl, refl, refl, refl)
after-fresh (true ∷ older) h =
    let (_, _, total, health) = after-fresh older (omega arith) in (refl, refl, total, health)
after-fresh (false ∷ older) h =
    let (_, in_row, total, health) = after-fresh older (omega arith) in
    let short = row_short older in
    (
      ground arith,
      omega (arith, in_row, short),
      ground (arith, total),
      ground (arith, in_row, health, short),
    )

-- What happens to the radio: a call of `retry`, or a result that another part of the daemon notes.
pub data Event : Type 0 where
  called : Call → Event
  noted : Bool → Event

-- The times at which `retry` called the driver, newest first, and the state after the events, newest
-- first too.
abbrev pub attempts : List Event → Rearm → List ℕ × Rearm
attempts [] c = ([], c)
attempts (noted r ∷ older) c = let (times, c') = attempts older c in (times, note_result r c')
attempts (called call ∷ older) c =
    let (times, c') = attempts older c in
    let (tried, c'') = retry call c' in ((if tried then call.now_ms ∷ times else times), c'')

-- Each time is a second or more behind the one before it.
abbrev pub Spaced : List ℕ → Type 0
Spaced [] = Unit
Spaced (t ∷ []) = Unit
Spaced (t ∷ s ∷ times) = (s + 1000 ≤ t) × Spaced (s ∷ times)

-- The backoff covers the last attempt.
abbrev Covers : ℕ → List ℕ → Type 0
Covers next [] = Unit
Covers next (t ∷ _) = t + 1000 ≤ next

note-next : (r : Bool) (c : Rearm) → (note_result r c).next_retry_ms ≡ c.next_retry_ms
unfolding note_result
note-next true c = refl
note-next false c = refl

retry-next :
    (call : Call) (c : Rearm)
    → let (tried, c') = retry call c in
      (c.next_retry_ms ≤ c'.next_retry_ms)
      × (tried ≡ true → (c.next_retry_ms ≤ call.now_ms) × (c'.next_retry_ms ≡ call.now_ms + 1000))
unfolding retry
retry-next call c =
    ground (arith, note-next call.answer (record c { next_retry_ms = call.now_ms + 1000 }))

Covers-mono : (times : List ℕ) (n m : ℕ) → n ≤ m → Covers n times → Covers m times
Covers-mono [] n m h v = tt
Covers-mono (t ∷ _) n m h v = omega (arith, v)

Spaced-cons :
    (t n : ℕ) (times : List ℕ) → n ≤ t → Covers n times → Spaced times → Spaced (t ∷ times)
Spaced-cons t n [] h v p = tt
Spaced-cons t n (s ∷ times) h v p = (omega (arith, v), p)

attempts_ordered :
    (events : List Event) (c : Rearm)
    → let (times, c') = attempts events c in Spaced times × Covers c'.next_retry_ms times
attempts_ordered [] c = (tt, tt)
attempts_ordered (noted r ∷ older) c =
    let (p, v) = attempts_ordered older c in
    let (times, c') = attempts older c in (p, subst (λ n. Covers n times) (sym (note-next r c')) v)
attempts_ordered (called call ∷ older) c =
    let (p, v) = attempts_ordered older c in
    let (times, c') = attempts older c in
    let (later, tried) = retry-next call c' in
    let next = (retry call c').1.next_retry_ms in
    elim (Bool-cases (retry call c').0) [
      | inl e ↦
          let (due, now) = tried e in
          let ordered : Spaced (call.now_ms ∷ times) =
            Spaced-cons call.now_ms c'.next_retry_ms times due v p in
          rw e (ordered, omega (arith, now))
      | inr e ↦ rw e (p, Covers-mono times c'.next_retry_ms next later v)
    ]

-- However often the main loop calls `retry`, and whatever results other parts of the daemon note
-- in between: one call of the driver by it is at least a second behind the one before.
pub attempts-Spaced : (events : List Event) (c : Rearm) → Spaced (attempts events c).0
attempts-Spaced events c = (attempts_ordered events c).0
