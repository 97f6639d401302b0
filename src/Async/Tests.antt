-- ===== src/Async/Tests.antt =====
-- One run of the two threads: a job is submitted, taken while a second one waits, and stopped.
use lo_ra_ham_daemon.Base.{false, inr, refl, ◌+◌, ◌≡◌}
use lo_ra_ham_daemon.TxJob.{Job, direct, job_init}
use lo_ra_ham_daemon.TxQueue as Jobs
use lo_ra_ham_daemon.TxQueue.{pop, push, discard_all}
use lo_ra_ham_daemon.TxWorker as Worker
use lo_ra_ham_daemon.Async.{
  AsyncWorker, start_section, Section, take, loop_section, stop_section, stop_end, submit, looping,
  absent, exited, executing, outside, stopping, System, Step, Reach, initial,
}
use lo_ra_ham_daemon.Async.Accounting.{Inv, stop_quiet}
use lo_ra_ham_daemon.Async.History.{IsTraced, logged}
use lo_ra_ham_daemon.Async.History.Traced.{Reach-IsTraced}

abbrev a_job : Job
unfolding job_init
a_job = job_init 433 direct 7

abbrev started : System
unfolding initial Worker.init Jobs.init start_section
started = record (initial a_job) {
  async = (start_section (initial a_job).async).1;
  thread = looping;
}

abbrev submitted : System
unfolding started submit Worker.submit push
submitted = record started { async = (submit started.async a_job).1 }

abbrev section : Section
unfolding submitted loop_section pop
section = loop_section a_job submitted.async

abbrev taken_async : AsyncWorker
unfolding section
taken_async = elim section [ take _ a ↦ a | _ ↦ submitted.async ]

abbrev taken : System
taken = record submitted { async = taken_async; thread = executing a_job }

taken_reached : Reach a_job (initial a_job) taken
unfolding section
taken_reached =
    Reach.next
      (Reach.next (Reach.next Reach.here (Step.starts refl refl refl))
        (Step.submits a_job refl refl))
      (Step.takes a_job taken_async refl refl refl)

Reach-IsTraced_example : Inv a_job taken × IsTraced a_job taken (logged taken_reached)
Reach-IsTraced_example = Reach-IsTraced taken_reached

-- The stop while a job waits, before the thread looked: it returns at once.
abbrev dropping : System
unfolding submitted stop_section discard_all
dropping = record submitted { async = stop_section a_job submitted.async; main = stopping }

abbrev quit_async : AsyncWorker
unfolding dropping
quit_async = record (dropping.async) { running = false }

abbrev quitted : System
unfolding dropping
quitted = record dropping { async = quit_async; thread = exited }

quitted_reached : Reach a_job (initial a_job) quitted
unfolding quitted loop_section initial start_section stop_section discard_all quit_async
quitted_reached =
    Reach.next
      (Reach.next
        (Reach.next (Reach.next Reach.here (Step.starts refl refl refl))
          (Step.submits a_job refl refl))
        (Step.stop_begins refl refl))
      (Step.quits quit_async refl refl refl)

abbrev ended : System
unfolding quitted stop_end
ended = record { async = stop_end quitted.async; thread = absent; main = outside }

stop_quiet_example :
    (absent ≡ absent)
    × (ended.async.running ≡ false)
    × (ended.async.job_active ≡ false)
    × (ended.async.worker.queue.count ≡ 0)
    × (ended.async.worker.accepted
        ≡ ended.async.worker.processed + ended.async.worker.queue.dropped)
    × ((submit ended.async a_job).0 ≡ false)
unfolding ended
stop_quiet_example =
    stop_quiet quitted ended a_job quitted_reached refl (Step.stop_ends refl (inr refl) refl) refl
