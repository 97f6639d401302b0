-- ===== src/UsbWait.antt =====
-- loraham_daemon/daemon_usb_wait.cpp: what the daemon does when its USB adapter is lost. The armed
-- state machine: its variables, and the radio's health as far as the machine and the re-init write
-- it. The operations are the environment: what they answer in one pass of the main loop is a `Pass`,
-- what is asked of them is a list of actions. `on_loss` comes from another thread, between two
-- passes or inside a re-init, after that has set the health to ready.
pub mod Outage
pub mod Grace
mod Tests
use lo_ra_ham_daemon.Base.{
  Bool, List, Option, [], false, if◌then◌else◌, ltb, none, not, some, true, ℕ, ◌&&◌, ◌++◌, ◌+◌,
  ◌==◌, ◌||◌, ◌∷◌,
}

abbrev pub grace_ms : ℕ
grace_ms = 500

pub data UsbState : Type 0 where
  up pending teardown unplugged : UsbState

pub data Health : Type 0 where
  ready failed lost : Health

pub record Usb : Type 0 where
  pub loss_flag : Bool
  pub state : UsbState
  pub deadline_ms : ℕ
  pub reopening : Bool
  pub force_reopen : Bool
  pub reinit_pending : Bool
  pub loss_ms : ℕ
  pub health : Health

-- After `daemon_usb_wait_reset`, with the radio ready.
abbrev pub init : Usb
init = record {
  loss_flag = false;
  state = up;
  deadline_ms = 0;
  reopening = false;
  force_reopen = false;
  reinit_pending = false;
  loss_ms = 0;
  health = ready;
}

-- mon_present_bound, reopen_step and reinit. A successful re-init may have latched a new loss, at the
-- time given.
pub data Presence : Type 0 where
  present gone unreadable : Presence

pub data Reopen : Type 0 where
  going_on opened wait : Reopen

pub data Reinit : Type 0 where
  is_ready : Option ℕ → Reinit
  is_failed is_busy : Reinit

pub record Pass : Type 0 where
  pub left_bound : Bool
  pub arrivals : ℕ
  pub lefts : ℕ
  pub now_ms : ℕ
  pub presence : Presence
  pub teardown_done : Bool
  pub reopen_due : Bool
  pub reopen_step : Reopen
  pub reinit : Reinit

-- `told` passes on so many arrivals and departures; the daemon does not go on after `fatal`.
pub data Action : Type 0 where
  drop_events : Action
  tear_down : Action
  told : ℕ → ℕ → Action
  begin : Bool → Action
  fatal : Action

unfoldable pub on_loss : ℕ → Usb → Usb
on_loss now u = record u {
  health = lost;
  loss_ms = (if u.loss_ms == 0 then now else u.loss_ms);
  loss_flag = true;
}

unfoldable pub tick_pending : Pass → Usb → Usb × List Action
tick_pending p u =
    if p.left_bound
    then (record u { state = teardown }, [])
    else if ltb p.now_ms u.deadline_ms
    then (u, [])
    else elim p.presence [
      | gone ↦ (record u { state = teardown }, [])
      | unreadable ↦ (u, fatal ∷ [])
      | present ↦ (u, fatal ∷ [])
    ]

-- What follows once an adapter is open.
unfoldable pub tick_reinit : Pass → Usb → List Action → Usb × List Action
unfolding on_loss
tick_reinit p u done = elim p.reinit [
  | is_busy ↦ (u, done)
  | is_ready loss ↦
      let v = record u { reinit_pending = false; state = up; health = ready } in
      (elim loss [ none ↦ v | some now ↦ on_loss now v ], done)
  | is_failed ↦ (record u { reinit_pending = false; health = failed }, done ++ fatal ∷ [])
]

unfoldable pub tick_reopen : Pass → Usb → List Action → Usb × List Action
tick_reopen p u done = elim p.reopen_step [
  | going_on ↦ (u, done)
  | wait ↦ (record u { reopening = false }, done)
  | opened ↦ tick_reinit p (record u { reopening = false; reinit_pending = true }) done
]

unfoldable pub tick_unplugged : Pass → Usb → Usb × List Action
tick_unplugged p u =
    let arrival = ltb 0 p.arrivals || ltb 0 p.lefts in
    let heard = told p.arrivals p.lefts in
    if u.reinit_pending
    then tick_reinit p u []
    else if u.reopening
    then tick_reopen p u (heard ∷ [])
    else if not arrival && not u.force_reopen && not p.reopen_due
    then (u, heard ∷ [])
    else tick_reopen p (record u { force_reopen = false; reopening = true })
        (heard ∷ begin arrival ∷ [])

unfoldable pub tick : Pass → Usb → Usb × List Action
tick p u = elim u.state [
  | up ↦
      if not u.loss_flag
      then (u, if p.left_bound then [] else drop_events ∷ [])
      else tick_pending p (record u { deadline_ms = u.loss_ms + grace_ms; state = pending })
  | pending ↦ tick_pending p u
  | teardown ↦ if not p.teardown_done then (u, []) else (
    record u { loss_flag = false; loss_ms = 0; state = unplugged; force_reopen = true },
    tear_down ∷ [],
  )
  | unplugged ↦ tick_unplugged p u
]
