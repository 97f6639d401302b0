-- ===== src/Completion/Newest.antt =====
-- The queue keeps the newest sixteen results.
use lo_ra_ham_daemon.Base.{
  List, [], ap, append-nil, append_assoc, arith, drop, drop-append_within, drop-drop, get_or,
  if◌then◌else◌, inl, inr, length, length-append, length-drop, length-set, none, refl, some, suc,
  sym, ℕ, ◌%◌, ◌++◌, ◌+◌, ◌-◌, ◌<◌, ◌==◌, ◌∙◌, ◌∷◌, ◌≡◌, ◌≤◌, ◌⊎◌,
}
use native.Mathlib.Decide.{dec_lt}
use lo_ra_ham_daemon.Ring.{entries, length-entries, entries-append}
use lo_ra_ham_daemon.TxJob.{JobResult}
use lo_ra_ham_daemon.Completion.{CompletionQueue, capacity, init, make_room, push, pop}

pub record IsRing (q : CompletionQueue) : Type 0 where
  pub slots : length q.entries ≡ 16
  pub head_in : q.head < 16
  pub count_in : q.count ≤ 16

module _ (d : JobResult) where
  -- The results that wait, oldest first.
  abbrev pub to_list : CompletionQueue → List JobResult
  to_list q = entries d capacity q.entries q.head q.count

  pub init-IsRing : IsRing (init d)
  init-IsRing = omega arith

  room_made :
      (q : CompletionQueue)
      → IsRing q
      → let r = make_room q in
        IsRing r
        × (r.count < 16)
        × (to_list r ≡ (if q.count == 16 then drop 1 (to_list q) else to_list q))
        × (r.dropped + r.count ≡ q.dropped + q.count)
  unfolding make_room entries
  room_made q v = elim (dec_lt q.count 16) [
    | yes room ↦ ground arith
    | no full ↦
        let n : q.count ≡ 16 = omega arith in rw n (omega arith, omega arith, refl, omega arith)
  ]

  pub push_lem :
      (q : CompletionQueue) (result : JobResult)
      → IsRing q
      → let q' = push q result in
        IsRing q'
        × (to_list q' ≡ (if q.count == 16 then drop 1 (to_list q) else to_list q) ++ result ∷ [])
        × (q'.dropped + q'.count ≡ q.dropped + q.count + 1)
  unfolding push
  push_lem q result v =
      let r = make_room q in
      let (ring, room, kept, lost) = room_made q v in
      let next : r.count + 1 ≡ suc r.count = omega arith in
      (
        omega (arith, length-set r.entries ((r.head + r.count) % 16) result),
        rw next (
            entries-append d 16 r.entries r.head r.count ((r.head + r.count) % 16) result
              ring.head_in room ring.slots refl
            ∙ ap (λ l. l ++ result ∷ []) kept),
        omega (arith, lost),
      )

-- The last sixteen of a list.
abbrev pub newest : List JobResult → List JobResult
newest l = drop (length l - 16) l

newest-append : (l m : List JobResult) → newest (newest l ++ m) ≡ newest (l ++ m)
newest-append l m =
    let k = length l - 16 in
    let left = drop k l ++ m in
    let n : length left ≡ length l - k + length m =
      length-append (drop k l) m ∙ ap (λ (t : ℕ). t + length m) (length-drop k l) in
    let total : length (l ++ m) - 16 ≡ k + (length left - 16) =
      omega (arith, n, length-append l m) in
    ap (drop (length left - 16)) (sym (drop-append_within k l m (omega arith)))
    ∙ drop-drop k (length left - 16) (length (l ++ m) - 16) (l ++ m) total

abbrev pub push_all : CompletionQueue → List JobResult → CompletionQueue
push_all q [] = q
push_all q (r ∷ rs) = push_all (push q r) rs

push-newest :
    (d : JobResult) (q : CompletionQueue) (r : JobResult)
    → IsRing q
    → to_list d (push q r) ≡ newest (to_list d q ++ r ∷ [])
push-newest d q r v =
    let (_, kept, _) = push_lem d q r v in
    let l = to_list d q in
    let m : length l ≡ q.count = length-entries d 16 q.entries q.head q.count in
    let n : length (l ++ r ∷ []) ≡ q.count + 1 = length-append l (r ∷ []) ∙ omega (arith, m) in
    elim (dec_lt q.count 16) [
      | yes room ↦
          let none_lost : length (l ++ r ∷ []) - 16 ≡ 0 = omega (arith, n) in
          kept ∙ rw none_lost (ground arith)
      | no full ↦
          let one_lost : length (l ++ r ∷ []) - 16 ≡ 1 = omega (arith, n) in
          let sixteen : q.count ≡ 16 = omega arith in
          kept
          ∙ ap (λ n. (if n == 16 then drop 1 l else l) ++ r ∷ []) sixteen
          ∙ rw one_lost (sym (drop-append_within 1 l (r ∷ []) (omega (arith, m))))
    ]

-- Results pushed onto a queue in order, one after the other while nobody reads them: the newest
-- sixteen of what waited and what was pushed wait in their order, and the others are counted as
-- dropped.
push_all-newest :
    (d : JobResult) (rs : List JobResult) (q : CompletionQueue)
    → IsRing q
    → let q' = push_all q rs in
      IsRing q'
      × (to_list d q' ≡ newest (to_list d q ++ rs))
      × (q'.dropped + q'.count ≡ q.dropped + q.count + length rs)
push_all-newest d [] q v =
    let n : length (to_list d q) ≡ q.count = length-entries d 16 q.entries q.head q.count in
    let none_lost : length (to_list d q) - 16 ≡ 0 = omega (arith, n) in
    (v, rw (append-nil (to_list d q), none_lost) refl, omega arith)
push_all-newest d (r ∷ rs) q v =
    let (ring, _, sum) = push_lem d q r v in
    let (rings, kept, sums) = push_all-newest d rs (push q r) ring in
    let l = to_list d q in
    (
      rings,
      kept
          ∙ ap (λ l. newest (l ++ rs)) (push-newest d q r v)
          ∙ newest-append (l ++ r ∷ []) rs
          ∙ ap newest (append_assoc l (r ∷ []) rs),
      omega (arith, sum, sums),
    )

-- Of a queue in order: reading takes the oldest result, leaves the others in order, and fails only
-- if none waits.
pop_oldest :
    (d : JobResult) (q : CompletionQueue)
    → IsRing q
    → ((to_list d q ≡ []) × (pop d q ≡ none))
      ⊎ ((r : JobResult) × (q' : CompletionQueue) × (pop d q ≡ some (r, q'))
          × IsRing q'
          × (to_list d q ≡ r ∷ to_list d q')
          × (q'.dropped ≡ q.dropped))
unfolding pop entries
pop_oldest d q v = elim (dec_lt 0 q.count) [
  | no empty ↦ let none_left : q.count ≡ 0 = omega arith in inl (rw none_left refl, ground arith)
  | yes more ↦
      let next : q.count ≡ suc (q.count - 1) = omega arith in
      inr (
        get_or q.entries q.head d,
        record q { head = (q.head + 1) % 16; count = q.count - 1 },
        ground arith,
        omega arith,
        ap (entries d 16 q.entries q.head) next,
        refl,
      )
]
