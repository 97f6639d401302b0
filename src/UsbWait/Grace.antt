-- ===== src/UsbWait/Grace.antt =====
-- A loss has 500 ms to be classified.
use lo_ra_ham_daemon.Base.{
  All, List, [], arith, false, inl, inr, refl, true, ℕ, ◌++◌, ◌+◌, ◌<◌, ◌∷◌, ◌≡◌, ◌≢◌, ◌≤◌, ◌⊎◌,
}
use lo_ra_ham_daemon.UsbWait.{
  Usb, up, pending, teardown, lost, Presence, present, gone, unreadable, Pass, Action, fatal,
  on_loss, tick_pending, tick,
}
use lo_ra_ham_daemon.UsbWait.Outage.{Inv, Run, Run-Inv}

-- What happens, in order: another failing call reports the loss, or a pass of the main loop.
pub data Event : Type 0 where
  loss : ℕ → Event
  pass : Pass → Event

abbrev pub run : List Event → Usb → Usb × List Action
run [] u = (u, [])
run (loss now ∷ events) u = run events (on_loss now u)
run (pass p ∷ events) u =
    let (u', done) = tick p u in let (u'', rest) = run events u' in (u'', done ++ rest)

-- A pass before the deadline for a loss at `t`, without a departure of the adapter.
abbrev pub IsEarly : ℕ → Event → Type 0
IsEarly t (loss _) = Unit
IsEarly t (pass p) = (p.left_bound ≡ false) × (p.now_ms < t + 500)

record Waiting (t : ℕ) (u : Usb) : Type 0 where
  flagged : u.loss_flag ≡ true
  stamp : u.loss_ms ≡ t
  place : (u.state ≡ up) ⊎ ((u.state ≡ pending) × (u.deadline_ms ≡ t + 500))
  refused : u.health ≡ lost

on_loss_first :
    (t : ℕ) (u : Usb) → u.state ≡ up → u.loss_flag ≡ false → Inv u → Waiting t (on_loss t u)
unfolding on_loss
on_loss_first t u s f v = ground (arith, v.unstamped f)

on_loss-Waiting : (t now : ℕ) (u : Usb) → 0 < t → Waiting t u → Waiting t (on_loss now u)
unfolding on_loss
on_loss-Waiting t now u n w = ground (arith, w.flagged, w.stamp, w.place)

tick-Waiting :
    (t : ℕ) (p : Pass) (u : Usb)
    → Waiting t u
    → IsEarly t (pass p)
    → Waiting t (tick p u).0 × ((tick p u).1 ≡ [])
unfolding tick tick_pending
tick-Waiting t p u w early = elim w.place [
  | inl s ↦ ground (arith, w.flagged, w.stamp, w.refused)
  | inr (s, d) ↦ ground (arith, w.flagged, w.stamp, w.refused)
]

run-Waiting :
    (t : ℕ) (events : List Event) (u : Usb)
    → 0 < t
    → Waiting t u
    → All (IsEarly t) events
    → Waiting t (run events u).0 × ((run events u).1 ≡ [])
run-Waiting t [] u n w early = (w, refl)
run-Waiting t (loss now ∷ events) u n w (_, early) =
    run-Waiting t events (on_loss now u) n (on_loss-Waiting t now u n w) early
run-Waiting t (pass p ∷ events) u n w (first, early) =
    let (w', quiet) = tick-Waiting t p u w first in
    let (w'', rest) = run-Waiting t events (tick p u).0 n w' early in (w'', rw (quiet, rest) refl)

presence_cases : (q : Presence) → (q ≡ gone) ⊎ ((q ≡ present) ⊎ (q ≡ unreadable))
presence_cases gone = inl refl
presence_cases present = inr (inl refl)
presence_cases unreadable = inr (inr refl)

module _ (t : ℕ) (u : Usb) (late : Pass) (w : Waiting t u) (stays : late.left_bound ≡ false)
    (h : t + 500 ≤ late.now_ms) where
  late_gone : late.presence ≡ gone → ((tick late u).0.state ≡ teardown) × ((tick late u).1 ≡ [])
  unfolding tick tick_pending
  late_gone g = elim w.place [
    | inl s ↦ ground (arith, w.flagged, w.stamp)
    | inr (s, d) ↦ ground (arith, w.flagged, w.stamp)
  ]

  late_there : late.presence ≢ gone → (tick late u).1 ≡ fatal ∷ []
  unfolding tick tick_pending
  late_there g = elim w.place [
    | inl s ↦ elim (presence_cases late.presence) [
      | inl e ↦ absurd (g e)
      | inr (inl e) ↦ ground (arith, w.flagged, w.stamp)
      | inr (inr e) ↦ ground (arith, w.flagged, w.stamp)
    ]
    | inr (s, d) ↦ elim (presence_cases late.presence) [
      | inl e ↦ absurd (g e)
      | inr (inl e) ↦ ground (arith, w.flagged, w.stamp)
      | inr (inr e) ↦ ground (arith, w.flagged, w.stamp)
    ]
  ]

-- After a first failure at time `t` in a run that was up without a loss: as long as the adapter is
-- not reported as departed, whatever passes before `t` + 500 ms and however often the loss is
-- reported again, nothing is asked of the environment and the radio is not ready; the later
-- reports do not move the deadline. The first pass from then on decides, by whether the adapter is
-- still there: gone, the radio is to be torn down; there, or unknown, the daemon ends.
pub grace :
    (u : Usb) (t : ℕ) (events : List Event) (late : Pass)
    → Run u
    → u.state ≡ up
    → u.loss_flag ≡ false
    → 0 < t
    → All (IsEarly t) events
    → late.left_bound ≡ false
    → t + 500 ≤ late.now_ms
    → let (u', done) = run events (on_loss t u) in
      (done ≡ [])
      × (u'.health ≡ lost)
      × (late.presence ≡ gone → ((tick late u').0.state ≡ teardown) × ((tick late u').1 ≡ []))
      × (late.presence ≢ gone → (tick late u').1 ≡ fatal ∷ [])
grace u t events late r s f n early stays h =
    let v = Run-Inv u r in
    let first : Waiting t (on_loss t u) = on_loss_first t u s f v in
    let (w, quiet) = run-Waiting t events (on_loss t u) n first early in
    let u' = (run events (on_loss t u)).0 in
    (quiet, w.refused, late_gone t u' late w stays h, late_there t u' late w stays h)
