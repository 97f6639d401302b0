-- ===== src/ConfigDispatch.antt =====
-- loraham_daemon/config_dispatch.cpp: what a client of the configuration socket sends, line by line, to
-- its replies. The driver, the texts of the reports and the answers of read() and send() are
-- arguments; the log lines and the lock are left out, and the controller is never NULL. The worker's
-- queue is what its two counters answer, for a call that holds no radio access.
pub mod Answer
pub mod First
pub mod Setters
pub mod Protected
pub mod Truth
pub mod Reply
pub mod InOrder
mod Tests
use lo_ra_ham_daemon.Base.{
  Bool, List, Option, [], if◌then◌else◌, length, ltb, none, not, some, take, ℕ, ◌&&◌, ◌++◌, ◌+◌,
  ◌==◌, ◌||◌, ◌∷◌,
}
use lo_ra_ham_daemon.Base.Int.{ℤ, pos, negsuc}
use lo_ra_ham_daemon.ConfigValue.{Floats}
use lo_ra_ham_daemon.ConfigValidate.{Board}
use lo_ra_ham_daemon.ConfigParser.{uppercase, touches_radio}
use lo_ra_ham_daemon.ConfigApply.{
  Driver, Radio, RfDefaults, Status, ok_no_radio, applied, rejected_invalid, rejected_malformed,
  unknown, hw_error, parse_and_apply_config, parsed_or,
}
use lo_ra_ham_daemon.ConfigStatus.{
  is_get_status, is_get_stats, is_get_channel, is_get_channel_noscan, is_set_txresult,
  is_set_txqueue, is_set_txmode, is_set_cadrssi, is_set_cadmonitor, is_set_cadwait, is_set_cadidle,
  is_set_cadpoll, is_set_cadtxaftertimeout, Reserved, not_reserved, invalid_value, incomplete,
  classify_reserved_setter,
}
use lo_ra_ham_daemon.ConfigDispatch.Answer
use lo_ra_ham_daemon.TxJob.{TxMode, managed}
use lo_ra_ham_daemon.UsbWait.{failed}
use lo_ra_ham_daemon.RxRearm.{Rearm, is_ready, note_result}
use lo_ra_ham_daemon.OutputQueue.{SendResult, ok, err, append}
use lo_ra_ham_daemon.ClientSlot.{ClientSlot, close, flush_output}
use lo_ra_ham_daemon.ConfigStream.{ConfigStream, feed, flush}
use mathlib.Core.Option.{map}

-- The part of the RadioController that the handlers read and write. The health is in `rearm`; the
-- threshold, a float of a whole number of dBm, is that number.
pub record Controller (F D : Type 0) : Type 0 where
  pub radio : Radio F D
  pub has_driver : Bool
  pub rearm : Rearm
  pub tx_result_active : Bool
  pub tx_queue_active : Bool
  pub tx_mode : TxMode
  pub cad_rssi_threshold_dbm : ℤ
  pub cad_monitor_active : Bool
  pub cad_monitor_free_streak : ℕ
  pub cad_broadcast_active : Bool
  pub cad_wait_timeout_ms : ℕ
  pub cad_idle_stable_ms : ℕ
  pub cad_poll_interval_ms : ℕ
  pub cad_send_after_timeout : Bool

-- What dispatching calls of a RadioDriver besides setting it.
pub record Receiver (D : Type 0) : Type 0 where
  pub set_packet_received_action : D → D
  pub start_receive : D → Bool × D

-- The text of the GET lines. GET CHANNEL probes the channel with the driver; where the probe scans, it
-- sets the radio to receive again, and the flag is the driver's answer to that. The other texts only read
-- registers.
pub record Reports (F D : Type 0) : Type 0 where
  pub status : Controller F D → List ℕ
  pub stats : Controller F D → List ℕ
  pub channel_noscan : Controller F D → List ℕ
  pub channel : Controller F D → List ℕ × D × Option Bool

-- daemon_tx_async_runtime_pending and _job_active
pub record Jobs : Type 0 where
  pub pending : ℕ
  pub executing : Bool

abbrev pub is_busy : Jobs → Bool
is_busy jobs = ltb 0 jobs.pending || jobs.executing

abbrev pub first_of {ℓ} : {A : Type ℓ} → List (Option A) → Option A
first_of [] = none
first_of (none ∷ os) = first_of os
first_of (some a ∷ os) = some a

-- if(is_get_...(line)) { ... return; }
abbrev pub when {ℓ} : {A : Type ℓ} → Bool → A → Option A
when test a = if test then some a else none

-- if(is_set_...(line, &value)) { ... return; }
abbrev pub handle {ℓ κ} : {A : Type ℓ} {B : Type κ} → Option A → (A → B) → Option B
handle none f = none
handle (some a) f = some (f a)

-- A recognised line is answered and may change the controller; none is the next test's turn.
abbrev pub Handled : Type 0 → Type 0 → Type 0
Handled F D = Option (List ℕ × Controller F D)

abbrev pub answer_of : Status → List ℕ
answer_of ok_no_radio = Answer.ok
answer_of applied = Answer.ok
answer_of rejected_invalid = Answer.invalid
answer_of rejected_malformed = Answer.malformed
answer_of unknown = Answer.unknown
answer_of hw_error = Answer.hardware

-- The end of a probe that has scanned, with the driver's answer.
abbrev pub after_probe : Option Bool → Rearm → Rearm
after_probe none rearm = rearm
after_probe (some received) rearm = note_result received rearm

module _ {F D : Type 0} where
  unfoldable pub set_txresult : Controller F D → List ℕ → Handled F D
  set_txresult c upper =
      handle (is_set_txresult upper)
        (λ enabled. (Answer.ok, record c { tx_result_active = enabled }))

  unfoldable pub set_txqueue : Jobs → Controller F D → List ℕ → Handled F D
  set_txqueue jobs c upper = handle (is_set_txqueue upper) (λ enabled.
      if not enabled && is_busy jobs
      then (Answer.busy, c)
      else (Answer.ok, record c { tx_queue_active = enabled }))

  unfoldable pub set_txmode : Controller F D → List ℕ → Handled F D
  set_txmode c upper =
      handle (is_set_txmode upper) (λ mode. (Answer.ok, record c { tx_mode = mode }))

  unfoldable pub set_cadrssi : Controller F D → List ℕ → Handled F D
  set_cadrssi c upper =
      handle (is_set_cadrssi upper) (λ dbm. (Answer.ok, record c { cad_rssi_threshold_dbm = dbm }))

  unfoldable pub set_cadmonitor : Controller F D → List ℕ → Handled F D
  set_cadmonitor c upper = handle (is_set_cadmonitor upper) (λ enabled. (
    Answer.ok,
    record c {
      cad_monitor_active = enabled;
      cad_monitor_free_streak = 0;
      cad_broadcast_active = enabled && c.cad_broadcast_active;
    },
  ))

  unfoldable pub set_cadwait : Controller F D → List ℕ → Handled F D
  set_cadwait c upper =
      handle (is_set_cadwait upper) (λ ms. (Answer.ok, record c { cad_wait_timeout_ms = ms }))

  unfoldable pub set_cadidle : Controller F D → List ℕ → Handled F D
  set_cadidle c upper =
      handle (is_set_cadidle upper) (λ ms. (Answer.ok, record c { cad_idle_stable_ms = ms }))

  unfoldable pub set_cadpoll : Controller F D → List ℕ → Handled F D
  set_cadpoll c upper =
      handle (is_set_cadpoll upper) (λ ms. (Answer.ok, record c { cad_poll_interval_ms = ms }))

  unfoldable pub set_cadtxaftertimeout : Controller F D → List ℕ → Handled F D
  set_cadtxaftertimeout c upper =
      handle (is_set_cadtxaftertimeout upper)
        (λ enabled. (Answer.ok, record c { cad_send_after_timeout = enabled }))

  -- A reserved setter with a value that its own test has refused.
  unfoldable pub refuse_reserved : Controller F D → List ℕ → Handled F D
  refuse_reserved c upper = elim (classify_reserved_setter upper) [
    | invalid_value ↦ some (Answer.invalid, c)
    | incomplete ↦ some (Answer.malformed, c)
    | not_reserved ↦ none
  ]

  abbrev pub runtime_setters : Jobs → Controller F D → List ℕ → List (Handled F D)
  runtime_setters jobs c upper =
      set_txresult c upper
      ∷ set_txqueue jobs c upper
      ∷ set_txmode c upper
      ∷ set_cadrssi c upper
      ∷ set_cadmonitor c upper
      ∷ set_cadwait c upper
      ∷ set_cadidle c upper
      ∷ set_cadpoll c upper
      ∷ set_cadtxaftertimeout c upper
      ∷ refuse_reserved c upper
      ∷ []

  abbrev pub report_lines : Reports F D → Controller F D → List ℕ → List (Handled F D)
  report_lines reports c upper =
      when (is_get_status upper) (reports.status c, c)
      ∷ when (is_get_stats upper) (reports.stats c, c)
      ∷ when (is_get_channel_noscan upper) (reports.channel_noscan c, c)
      ∷ when (is_get_channel upper) (
        (reports.channel c).0,
        record c {
          radio = record (c.radio) { driver = (reports.channel c).1 };
          rearm = after_probe (reports.channel c).2 c.rearm;
        },
      )
      ∷ []

  abbrev pub tests : Reports F D → Jobs → Controller F D → List ℕ → List (Handled F D)
  tests reports jobs c upper = report_lines reports c upper ++ runtime_setters jobs c upper

  -- The end of the locked section: reception is set up again, or the radio has failed.
  unfoldable pub after_apply : Receiver D → Status → Controller F D → Controller F D
  after_apply rx applied c =
      let (received, d) = rx.start_receive (rx.set_packet_received_action c.radio.driver) in
      record c { radio = record (c.radio) { driver = d }; rearm = note_result received c.rearm }
  after_apply rx hw_error c = record c { rearm = record (c.rearm) { health = failed } }
  after_apply rx _ c = c

-- What read() answers when it is not interrupted.
pub data Read : Type 0 where
  again failed_read end_of_file : Read
  got : List ℕ → Read

-- One client and the controller. `wire` is what has gone out to the client, `lines` counts the
-- lines that were answered.
pub record Session (F D : Type 0) : Type 0 where
  pub slot : ClientSlot
  pub controller : Controller F D
  pub wire : List ℕ
  pub lines : ℕ

-- A line as the C string that the callback reads.
unfoldable pub c_string : List ℕ → List ℕ
c_string [] = []
c_string (c ∷ s) = let rest = c_string s in if c == 0 then [] else c ∷ rest

-- `script` is what the calls of send() answer for each line; none is a flush that still runs.
unfoldable pub reply :
    {F D : Type 0} → (ℕ → List SendResult) → List ℕ → Session F D → Option (Session F D)
reply script text s =
    let r = append s.slot.output (some text) (length text) in
    elim r.0 [
      | err _ ↦ some (record s { slot = close s.slot; lines = s.lines + 1 })
      | ok _ ↦ elim (flush_output (script s.lines) (record (s.slot) { output = r.1 })) [
        | none ↦ none
        | some (sent, slot') ↦
            some (record s { slot = slot'; wire = s.wire ++ sent; lines = s.lines + 1 })
      ]
    ]

module _ (fl : Floats) (rf : RfDefaults fl.Float) {D : Type 0} (board : Board fl) (calls : Driver D)
    (rx : Receiver D) (reports : Reports fl.Float D) where
  -- The generic path, behind the setters.
  unfoldable pub configure : Jobs → Controller fl.Float D → List ℕ → List ℕ × Controller fl.Float D
  configure jobs c line =
      if not c.has_driver || not (is_ready c.rearm.health)
      then (Answer.not_ready, c)
      else if touches_radio line && is_busy jobs
      then (Answer.busy, c)
      else (let r = parse_and_apply_config fl rf board calls line c.radio in
          (answer_of r.0, after_apply rx r.0 (record c { radio = r.1 })))

  -- The text that answers the line, and the controller.
  unfoldable pub apply_line : Jobs → Controller fl.Float D → List ℕ → List ℕ × Controller fl.Float D
  unfolding configure
  apply_line jobs c line =
      parsed_or (first_of (tests reports jobs c (uppercase (take 255 line))))
        (configure jobs c line)

  module _ (script : ℕ → List SendResult) (jobs : ℕ → Jobs) where
    -- The callback of the line framing.
    unfoldable pub on_line : Option (Session fl.Float D) → List ℕ → Option (Session fl.Float D)
    unfolding apply_line
    on_line none line = none
    on_line (some s) line =
        let r = apply_line (jobs s.lines) s.controller (c_string line) in
        reply script r.0 (record s { controller = r.1 })

    abbrev pub with_stream : ConfigStream → Session fl.Float D → Session fl.Float D
    with_stream stream s = record s { slot = record (s.slot) { stream = stream } }

    abbrev closed : Session fl.Float D → Session fl.Float D
    closed s = record s { slot = close s.slot }

    -- The slot is ready to be read.
    unfoldable pub dispatch_client : Read → Session fl.Float D → Option (Session fl.Float D)
    unfolding on_line
    dispatch_client again s = some s
    dispatch_client failed_read s = some (closed s)
    dispatch_client end_of_file s = map closed (flush on_line s.slot.stream (some s)).1
    dispatch_client (got bytes) s =
        let r = feed on_line bytes s.slot.stream (some s) in
        elim r.2 [
          | none ↦ none
          | some s' ↦ if r.0 then some (with_stream r.1 s') else some (closed s')
        ]
