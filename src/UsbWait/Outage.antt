-- ===== src/UsbWait/Outage.antt =====
-- The radio is never announced as ready while its adapter is away.
use lo_ra_ham_daemon.Base.{
  Bool, Bool-cases, List, [], ap, arith, false, inl, inr, ltb, none, not, refl, some, sym, true, ℕ,
  ◌&&◌, ◌++◌, ◌+◌, ◌<◌, ◌||◌, ◌∙◌, ◌∷◌, ◌≡◌, ◌≢◌, ◌⊎◌,
}
use lo_ra_ham_daemon.UsbWait.{
  Usb, UsbState, up, pending, teardown, unplugged, ready, init, Reopen, going_on, opened, wait,
  Reinit, is_ready, is_failed, is_busy, Pass, Action, drop_events, tear_down, told, begin, fatal,
  on_loss, tick_pending, tick_reinit, tick_reopen, tick_unplugged, tick,
}

pub record Inv (u : Usb) : Type 0 where
  pub admission : u.health ≡ ready → (u.state ≡ up) × (u.loss_flag ≡ false)
  pub restored : u.state ≡ up → u.loss_flag ≡ false → u.health ≡ ready
  pub stamped : u.loss_flag ≡ true → 0 < u.loss_ms
  pub unstamped : u.loss_flag ≡ false → u.loss_ms ≡ 0
  pub deadline : u.state ≡ pending → (u.loss_flag ≡ true) × (u.deadline_ms ≡ u.loss_ms + 500)
  pub latched : u.state ≡ teardown → u.loss_flag ≡ true
  pub away : u.state ≡ unplugged → u.loss_flag ≡ false
  pub selecting : u.reopening ≡ true → (u.state ≡ unplugged) × (u.reinit_pending ≡ false)
  pub opening : u.reinit_pending ≡ true → u.state ≡ unplugged

abbrev pub is_fatal : List Action → Bool
is_fatal [] = false
is_fatal (fatal ∷ _) = true
is_fatal (_ ∷ actions) = is_fatal actions

init-Inv : Inv init
init-Inv = ground arith

on_loss-Inv : (u : Usb) (now : ℕ) → Inv u → u.state ≢ unplugged → 0 < now → Inv (on_loss now u)
unfolding on_loss
on_loss-Inv u now v s n = ground arith

fatal_at_end : (actions : List Action) → is_fatal (actions ++ fatal ∷ []) ≡ true
fatal_at_end [] = refl
fatal_at_end (fatal ∷ _) = refl
fatal_at_end (drop_events ∷ actions) = fatal_at_end actions
fatal_at_end (tear_down ∷ actions) = fatal_at_end actions
fatal_at_end (told _ _ ∷ actions) = fatal_at_end actions
fatal_at_end (begin _ ∷ actions) = fatal_at_end actions

-- The clock that stamps a loss does not stand at 0.
abbrev pub IsPass : Pass → Type 0
IsPass p = (now : ℕ) → p.reinit ≡ is_ready (some now) → 0 < now

-- The adapter is away, and nothing of it is open.
abbrev Away : Usb → Type 0
Away u = (u.state ≡ unplugged) × (u.loss_flag ≡ false) × (u.loss_ms ≡ 0) × (u.health ≢ ready)

reinit_cases :
    (r : Reinit)
    → (r ≡ is_busy)
      ⊎ ((r ≡ is_failed) ⊎ ((r ≡ is_ready none) ⊎ ((now : ℕ) × (r ≡ is_ready (some now)))))
reinit_cases is_busy = inl refl
reinit_cases is_failed = inr (inl refl)
reinit_cases (is_ready none) = inr (inr (inl refl))
reinit_cases (is_ready (some now)) = inr (inr (inr (now, refl)))

reopen_cases : (r : Reopen) → (r ≡ going_on) ⊎ ((r ≡ wait) ⊎ (r ≡ opened))
reopen_cases going_on = inl refl
reopen_cases wait = inr (inl refl)
reopen_cases opened = inr (inr refl)

state_cases : (s : UsbState) → (s ≡ up) ⊎ ((s ≡ pending) ⊎ ((s ≡ teardown) ⊎ (s ≡ unplugged)))
state_cases up = inl refl
state_cases pending = inr (inl refl)
state_cases teardown = inr (inr (inl refl))
state_cases unplugged = inr (inr (inr refl))

tick_reinit-Inv :
    (u : Usb) (p : Pass) (done : List Action)
    → Away u
    → u.reopening ≡ false
    → IsPass p
    → is_fatal (tick_reinit p u done).1 ≡ false
    → Inv (tick_reinit p u done).0
unfolding tick_reinit on_loss
tick_reinit-Inv u p done a r h f = elim (reinit_cases p.reinit) [
  | inl e ↦ ground arith
  | inr (inl e) ↦ absurd (ground (arith, fatal_at_end done))
  | inr (inr (inl e)) ↦ ground arith
  | inr (inr (inr (now, e))) ↦ let later : 0 < now = h now e in ground arith
]

tick_reopen-Inv :
    (u : Usb) (p : Pass) (done : List Action)
    → Away u
    → u.reopening ≡ true
    → u.reinit_pending ≡ false
    → IsPass p
    → is_fatal (tick_reopen p u done).1 ≡ false
    → Inv (tick_reopen p u done).0
unfolding tick_reopen
tick_reopen-Inv u p done a r q h f = elim (reopen_cases p.reopen_step) [
  | inl e ↦ ground arith
  | inr (inl e) ↦ ground arith
  | inr (inr e) ↦
      let opening = record u { reopening = false; reinit_pending = true } in
      let same : tick_reopen p u done ≡ tick_reinit p opening done = ground arith in
      rw same (tick_reinit-Inv opening p done a refl h (ap (λ r. is_fatal r.1) (sym same) ∙ f))
]

tick_unplugged-Inv :
    (u : Usb) (p : Pass)
    → Inv u
    → u.state ≡ unplugged
    → IsPass p
    → is_fatal (tick_unplugged p u).1 ≡ false
    → Inv (tick_unplugged p u).0
unfolding tick_unplugged
tick_unplugged-Inv u p v s h f =
    let away : Away u = (s, v.away s, v.unstamped (v.away s), λ r. ground (arith, v.admission r)) in
    elim (Bool-cases u.reinit_pending) [
      | inl e ↦
          let same : tick_unplugged p u ≡ tick_reinit p u [] = ground arith in
          rw same
            (tick_reinit-Inv u p [] away (ground arith) h (ap (λ r. is_fatal r.1) (sym same) ∙ f))
      | inr e ↦ elim (Bool-cases u.reopening) [
        | inl g ↦
            let heard = told p.arrivals p.lefts ∷ [] in
            let same : tick_unplugged p u ≡ tick_reopen p u heard = ground arith in
            rw same (tick_reopen-Inv u p heard away g e h (ap (λ r. is_fatal r.1) (sym same) ∙ f))
        | inr g ↦
            elim (Bool-cases
              (not (ltb 0 p.arrivals || ltb 0 p.lefts) && not u.force_reopen && not p.reopen_due)) [
                | inl idle ↦ let same : (tick_unplugged p u).0 ≡ u = ground arith in rw same v
                | inr due ↦
                    let heard =
                      told p.arrivals p.lefts ∷ begin (ltb 0 p.arrivals || ltb 0 p.lefts) ∷ [] in
                    let begun = record u { force_reopen = false; reopening = true } in
                    let same : tick_unplugged p u ≡ tick_reopen p begun heard = ground arith in
                    rw same (
                      tick_reopen-Inv begun p heard away refl e h
                        (ap (λ r. is_fatal r.1) (sym same) ∙ f))
              ]
      ]
    ]

tick_pending-Inv :
    (u : Usb) (p : Pass)
    → Inv u
    → u.state ≡ pending
    → is_fatal (tick_pending p u).1 ≡ false
    → Inv (tick_pending p u).0
unfolding tick_pending
tick_pending-Inv u p v s f = ground arith

-- A pass of the main loop that does not end the daemon keeps the machine in order.
tick-Inv :
    (u : Usb) (p : Pass) → Inv u → IsPass p → is_fatal (tick p u).1 ≡ false → Inv (tick p u).0
unfolding tick
tick-Inv u p v h f = elim (state_cases u.state) [
  | inl s ↦ elim (Bool-cases u.loss_flag) [
    | inr none_lost ↦ let same : (tick p u).0 ≡ u = ground arith in rw same v
    | inl loss ↦
        let classified = record u { deadline_ms = u.loss_ms + 500; state = pending } in
        let same : tick p u ≡ tick_pending p classified = ground arith in
        rw same (
          tick_pending-Inv classified p (ground arith) refl (ap (λ r. is_fatal r.1) (sym same) ∙ f))
  ]
  | inr (inl s) ↦
      let same : tick p u ≡ tick_pending p u = ground arith in
      rw same (tick_pending-Inv u p v s (ap (λ r. is_fatal r.1) (sym same) ∙ f))
  | inr (inr (inl s)) ↦ ground arith
  | inr (inr (inr s)) ↦
      let same : tick p u ≡ tick_unplugged p u = ground arith in
      rw same (tick_unplugged-Inv u p v s h (ap (λ r. is_fatal r.1) (sym same) ∙ f))
]

-- The states that losses and passes lead to, in any order, until the daemon ends. A loss is reported
-- only while an adapter is open: outside the wait for one, or inside a re-init.
pub data Run : Usb → Type 0 where
  starts : Run init
  loses : (u : Usb) (now : ℕ) → Run u → u.state ≢ unplugged → 0 < now → Run (on_loss now u)
  passes :
      (u : Usb) (p : Pass) → Run u → IsPass p → is_fatal (tick p u).1 ≡ false → Run (tick p u).0

-- In every state of a run (in which losses are reported only while an adapter is open, and no pass
-- has ended the daemon): the radio is ready exactly while the machine is up without a loss, so
-- nothing is admitted from the first failure until a re-init has succeeded; a loss has its time
-- stamp, and the deadline of its classification is 500 ms behind that; no loss is carried over
-- into the wait for an adapter; and a selection or an adapter waiting for its re-init exists only
-- in that wait, never both.
pub Run-Inv : (u : Usb) → Run u → Inv u
Run-Inv u Run.starts = init-Inv
Run-Inv u (Run.loses t now r s n) = on_loss-Inv t now (Run-Inv t r) s n
Run-Inv u (Run.passes t p r h f) = tick-Inv t p (Run-Inv t r) h f

-- In a run, the pass that tears the old radio down makes the next one try an adapter even if no
-- arrival is reported (it may be back already): where that one opens and its re-init succeeds
-- without a new loss, the radio is ready after these two passes.
pub recovers :
    (u : Usb) (p q : Pass)
    → Run u
    → u.state ≡ teardown
    → p.teardown_done ≡ true
    → q.reopen_step ≡ opened
    → q.reinit ≡ is_ready none
    → let u' = (tick q (tick p u).0).0 in
      (u'.health ≡ ready) × (u'.state ≡ up) × (u'.loss_flag ≡ false)
unfolding tick tick_unplugged tick_reopen tick_reinit
recovers u p q r s done opens works =
    let v = Run-Inv u r in
    let torn = record u {
      loss_flag = false;
      loss_ms = 0;
      state = unplugged;
      force_reopen = true;
    } in
    let first : (tick p u).0 ≡ torn = ground arith in
    let unselected : u.reopening ≡ false = ground (arith, v.selecting) in
    let unopened : u.reinit_pending ≡ false = ground (arith, v.opening) in
    rw first (ground (arith, unselected, unopened))
