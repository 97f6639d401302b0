-- ===== src/ConfigDispatch/Tests.antt =====
-- A client of the sample board that is just connected.
use lo_ra_ham_daemon.Base.{List, [], arith, false, refl, some, take, true, ℕ, ◌++◌, ◌∷◌, ◌≡◌}
use lo_ra_ham_daemon.Base.Int.{negsuc}
use lo_ra_ham_daemon.ConfigValue.FixedPoint.{fixed_point}
use lo_ra_ham_daemon.ConfigParser.{uppercase}
use lo_ra_ham_daemon.ConfigApply.Sample.{sf_line, band, defaults, driver, radio}
use lo_ra_ham_daemon.OutputQueue.{SendResult, would_block}
use lo_ra_ham_daemon.OutputQueue as Output
use lo_ra_ham_daemon.ConfigStream as Stream
use lo_ra_ham_daemon.ConfigStatus.{is_get_channel}
use lo_ra_ham_daemon.ConfigStatus.Word
use lo_ra_ham_daemon.TxJob.{managed}
use lo_ra_ham_daemon.UsbWait.{ready}
use lo_ra_ham_daemon.ConfigDispatch.{
  Controller, Receiver, Reports, Jobs, Session, apply_line, configure, dispatch_client, got,
  c_string,
}
use lo_ra_ham_daemon.ConfigDispatch.Setters.{IsTimed, apply_line-IsTimed}
use lo_ra_ham_daemon.ConfigDispatch.Protected.{IsKept, apply_line-IsKept}
use lo_ra_ham_daemon.ConfigDispatch.Truth.{Answered, configure-Answered}
use lo_ra_ham_daemon.ConfigDispatch.Reply.{output_of}
use lo_ra_ham_daemon.ConfigDispatch.InOrder.{answers, dispatch_client-answers}

-- As radio_controller.h sets it up, with the radio ready.
abbrev controller : Controller ℕ ℕ
controller = record {
  radio = radio;
  has_driver = true;
  rearm = record {
    consecutive_failures = 0;
    rearm_pending = false;
    next_retry_ms = 0;
    health = ready;
    failures = 0;
  };
  tx_result_active = false;
  tx_queue_active = true;
  tx_mode = managed;
  cad_rssi_threshold_dbm = negsuc 89;
  cad_monitor_active = false;
  cad_monitor_free_streak = 0;
  cad_broadcast_active = false;
  cad_wait_timeout_ms = 1500;
  cad_idle_stable_ms = 250;
  cad_poll_interval_ms = 50;
  cad_send_after_timeout = false;
}

abbrev receiver : Receiver ℕ
receiver = record { set_packet_received_action = λ d. d; start_receive = λ d. (true, d) }

abbrev reports : Reports ℕ ℕ
reports = record {
  status = λ c. 83 ∷ 10 ∷ [];
  stats = λ c. 83 ∷ 10 ∷ [];
  channel_noscan = λ c. 67 ∷ 10 ∷ [];
  channel = λ c. (67 ∷ 10 ∷ [], c.radio.driver, some false);
}

abbrev jobs : Jobs
jobs = record { pending = 1; executing = false }

apply_line-IsTimed_example :
    IsTimed (apply_line fixed_point defaults band driver receiver reports jobs controller sf_line).1
apply_line-IsTimed_example =
    apply_line-IsTimed fixed_point defaults band driver receiver reports jobs controller sf_line
      (record {
        wait = (omega arith, omega arith);
        idle = omega arith;
        poll = (omega arith, omega arith);
        threshold = omega arith;
      })

apply_line-IsKept_example :
    IsKept fixed_point defaults
      (is_get_channel (uppercase (take 255 sf_line)))
      controller
      (apply_line fixed_point defaults band driver receiver reports jobs controller sf_line).1
apply_line-IsKept_example =
    apply_line-IsKept fixed_point defaults band driver receiver reports jobs controller sf_line refl

configure-Answered_example :
    Answered fixed_point defaults band driver receiver reports sf_line controller
      (configure fixed_point defaults band driver receiver reports jobs controller sf_line)
configure-Answered_example =
    configure-Answered fixed_point defaults band driver receiver reports jobs controller sf_line

abbrev session : Session ℕ ℕ
session = record {
  slot = record { fd = some 5; output = Output.init; stream = Stream.init; generation = 1 };
  controller = controller;
  wire = [];
  lines = 0;
}

-- The socket takes nothing yet.
abbrev script : ℕ → List SendResult
script n = would_block ∷ []

abbrev always : ℕ → Jobs
always n = jobs

-- GET CHANNEL has scanned, and the radio did not receive again.
abbrev after : Session ℕ ℕ
after = record session {
  slot = record {
    fd = some 5;
    output = record { pending = 83 ∷ 10 ∷ 67 ∷ 10 ∷ [] };
    stream = Stream.init;
    generation = 1;
  };
  controller = record controller {
    rearm = record (controller.rearm) {
      consecutive_failures = 1;
      rearm_pending = true;
      failures = 1;
    };
  };
  lines = 2;
}

abbrev lines : List (List ℕ)
lines = Word.get_status ∷ Word.get_channel ∷ []

dispatch_client-answers_example :
    let r =
      answers fixed_point defaults band driver receiver reports script always 0 controller lines in
    (output_of after ≡ [] ++ r.0) × (after.controller ≡ r.1)
unfolding c_string dispatch_client Stream.feed Stream.feed_byte
    lo_ra_ham_daemon.ConfigDispatch.reply Output.append lo_ra_ham_daemon.ConfigStatus.command_equals
    lo_ra_ham_daemon.ConfigStatus.command_of uppercase lo_ra_ham_daemon.ConfigStatus.trim_copy
    lo_ra_ham_daemon.ConfigStatus.cut_blanks lo_ra_ham_daemon.ConfigStatus.skip_blanks
    lo_ra_ham_daemon.ClientSlot.flush_output Output.flush_fd lo_ra_ham_daemon.RxRearm.note_result
dispatch_client-answers_example =
    dispatch_client-answers fixed_point defaults band driver receiver reports script always lines
      session after
      (
        record {
          plain =
              (refl, (refl, (refl, (refl, (refl, (refl, (refl, (refl, (refl, (refl, tt))))))))));
          short = omega arith;
        },
        (
          record {
            plain = (
              refl,
              (refl, (refl, (refl, (refl, (refl, (refl, (refl, (refl, (refl, (refl, tt)))))))))),
            );
            short = omega arith;
          },
          tt,
        ),
      )
      ((omega arith, refl), ((omega arith, refl), tt)) refl (omega arith) refl refl
