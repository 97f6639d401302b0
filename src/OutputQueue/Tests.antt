-- ===== src/OutputQueue/Tests.antt =====
-- A queue of three bytes at concrete calls.
use lo_ra_ham_daemon.Base.{List, [], arith, refl, some, ◌++◌, ◌∷◌, ◌≡◌}
use lo_ra_ham_daemon.OutputQueue.{
  OutputQueue, SendResult, sent, interrupted, would_block, ok, consume, flush_fd,
}
use lo_ra_ham_daemon.OutputQueue.Flush.{flush_fd_lem}

abbrev three : OutputQueue
three = record { pending = 1 ∷ 2 ∷ 3 ∷ [] }

abbrev script : List SendResult
script = interrupted ∷ sent 2 ∷ would_block ∷ []

flushed :
    flush_fd script three
    ≡ some (record { result = ok 2; queue = record { pending = 3 ∷ [] }; wire = 1 ∷ 2 ∷ [] })
unfolding flush_fd consume
flushed = refl

flush_fd_lem_example : (1 ∷ 2 ∷ []) ++ (3 ∷ []) ≡ three.pending
flush_fd_lem_example =
    (flush_fd_lem script three
      (record { result = ok 2; queue = record { pending = 3 ∷ [] }; wire = 1 ∷ 2 ∷ [] })
      (omega arith) flushed).0
