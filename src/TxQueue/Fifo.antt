-- ===== src/TxQueue/Fifo.antt =====
-- The circular array is a first-in first-out queue of at most eight jobs.
use lo_ra_ham_daemon.Base.{
  List, [], ap, arith, get_or, inl, inr, length, length-set, none, refl, set, some, suc, ◌%◌, ◌++◌,
  ◌+◌, ◌-◌, ◌<◌, ◌∷◌, ◌≡◌, ◌≤◌, ◌⊎◌,
}
use native.Mathlib.Decide.{dec_lt}
use lo_ra_ham_daemon.Ring.{entries, entries-append}
use lo_ra_ham_daemon.TxQueue.{TxQueue, capacity, init, push, pop, discard_all}

module _ {A : Type 0} (d : A) where
  pub record IsRing (q : TxQueue A) : Type 0 where
    pub slots : length q.jobs ≡ 8
    pub head_in : q.head < 8
    pub count_in : q.count ≤ 8
    pub tail_at : q.tail ≡ (q.head + q.count) % 8

  -- The jobs that wait, oldest first.
  abbrev pub to_list : TxQueue A → List A
  to_list q = entries d capacity q.jobs q.head q.count

  pub init-IsRing : IsRing (init d)
  unfolding init
  init-IsRing = omega arith

  -- Of a queue in order: where eight jobs wait a push is refused. Otherwise the job goes behind
  -- those that wait, and the array stays in order.
  pub push_cases :
      (q : TxQueue A) (job : A)
      → IsRing q
      → ((q.count ≡ 8) × (push q job ≡ none))
        ⊎ ((q' : TxQueue A) × (push q job ≡ some q')
            × IsRing q'
            × (to_list q' ≡ to_list q ++ job ∷ [])
            × (q'.count ≡ q.count + 1)
            × (q'.dropped ≡ q.dropped))
  unfolding push
  push_cases q job v = elim (dec_lt q.count 8) [
    | no full ↦ inl (omega arith, ground arith)
    | yes room ↦
        let next : q.count + 1 ≡ suc q.count = omega arith in
        inr (
          record q { jobs = set q.jobs q.tail job; tail = (q.tail + 1) % 8; count = q.count + 1 },
          ground arith,
          omega (arith, length-set q.jobs q.tail job),
          rw next (
              entries-append d 8 q.jobs q.head q.count q.tail job v.head_in room v.slots v.tail_at),
          refl,
          refl,
        )
  ]

  -- Of a queue in order: a pop takes the oldest job, leaves the others in order, and fails only if
  -- none waits.
  pub pop_cases :
      (q : TxQueue A)
      → IsRing q
      → ((to_list q ≡ []) × (pop d q ≡ none) × (q.count ≡ 0))
        ⊎ ((job : A) × (q' : TxQueue A) × (pop d q ≡ some (job, q'))
            × IsRing q'
            × (to_list q ≡ job ∷ to_list q')
            × (q.count ≡ q'.count + 1)
            × (q'.dropped ≡ q.dropped))
  unfolding pop entries
  pop_cases q v = elim (dec_lt 0 q.count) [
    | no empty ↦
        let none_left : q.count ≡ 0 = omega arith in
        inl (rw none_left refl, ground arith, none_left)
    | yes more ↦
        let next : q.count ≡ suc (q.count - 1) = omega arith in
        inr (
          get_or q.jobs q.head d,
          record q { head = (q.head + 1) % 8; count = q.count - 1 },
          ground arith,
          omega arith,
          ap (entries d 8 q.jobs q.head) next,
          omega arith,
          refl,
        )
  ]

  -- Discarding empties the queue and adds what it threw away to the count of dropped jobs.
  pub discard_all_lem :
      (q : TxQueue A)
      → let r = discard_all d q in
        IsRing r.1
        × (to_list r.1 ≡ [])
        × (r.0 ≡ q.count)
        × (r.1.count ≡ 0)
        × (r.1.dropped ≡ q.dropped + q.count)
  unfolding discard_all entries
  discard_all_lem q = (omega arith, refl, refl, refl, refl)
