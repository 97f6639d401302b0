-- ===== src/ConfigDispatch/Reply.antt =====
-- One reply: behind all else that the client is to be sent, or the client is gone.
use lo_ra_ham_daemon.Base.{
  Bool-cases, List, Option-cases, [], ap, append_assoc, arith, false, inl, inr, leb, leb→le, length,
  length-append, none, refl, some, sym, true, ℕ, ◌++◌, ◌+◌, ◌∙◌, ◌≡◌,
}
use mathlib.Core.Path.{subst}
use lo_ra_ham_daemon.OutputQueue.{
  OutputQueue, Error, no_buffers, Result-cases, ok, err, SendResult, capacity, append,
}
use lo_ra_ham_daemon.OutputQueue.Laws.{Fits, append_cases}
use lo_ra_ham_daemon.ClientSlot.{ClientSlot, has_client, close, reset_output, flush_output}
use lo_ra_ham_daemon.ClientSlot.Broadcast.{Served, flush_output-Served}
use lo_ra_ham_daemon.ConfigDispatch.{Session, reply}

-- All that the client has been sent and is to be sent.
abbrev pub output_of : {F D : Type 0} → Session F D → List ℕ
output_of s = s.wire ++ s.slot.output.pending

close_gone : (slot : ClientSlot) → has_client (close slot) ≡ false
unfolding close
close_gone slot = refl

reset_gone : (slot : ClientSlot) → has_client (reset_output slot) ≡ has_client slot
unfolding reset_output
reset_gone slot = refl

Served-output :
    {script : List SendResult} {text : List ℕ} {slot : ClientSlot} {wire : List ℕ}
    {slot' : ClientSlot}
    → Served script text slot wire slot'
    → has_client slot' ≡ true
    → (wire ++ slot'.output.pending ≡ slot.output.pending ++ text) × Fits slot'.output
Served-output {slot = slot} (Served.no_client n w e) h =
    absurd (ground (arith, n, ap has_client e, h, reset_gone slot))
Served-output {text = text} {slot = slot} {wire = wire} {slot' = slot'}
      (Served.kept t room _ o f g st) h =
    (
      o,
      omega (
        arith,
        room,
        ap length o,
        length-append wire (slot'.output.pending),
        length-append (slot.output.pending) text,
      ),
    )
Served-output {slot = slot} (Served.overflowed t room w e) h =
    absurd (ground (arith, ap has_client e, h, close_gone slot))
Served-output {slot = slot} (Served.lost t _ _ rest w e) h =
    absurd (ground (arith, ap has_client e, h, close_gone slot))

flush_output_gone :
    (calls : List SendResult) (slot : ClientSlot)
    → has_client slot ≡ false
    → flush_output calls slot ≡ some ([], reset_output slot)
unfolding flush_output
flush_output_gone calls slot h = rw h refl

module _ {F D : Type 0} (script : ℕ → List SendResult) where
  -- A client that is still there has the text behind all else that it is to be sent.
  pub record IsReplied (text : List ℕ) (s s' : Session F D) : Type 0 where
    pub output : output_of s' ≡ output_of s ++ text
    pub fits : Fits s'.slot.output
    pub was_there : has_client s.slot ≡ true
    pub counted : s'.lines ≡ s.lines + 1
    pub controller : s'.controller ≡ s.controller

  reply_full :
      (text : List ℕ) (s : Session F D) (x : Error) (q : OutputQueue)
      → append s.slot.output (some text) (length text) ≡ (err x, q)
      → reply script text s ≡ some (record s { slot = close s.slot; lines = s.lines + 1 })
  unfolding reply
  reply_full text s x q e = rw (ap (λ r. r.0) e, reply) refl

  reply_flushed :
      (text : List ℕ) (s : Session F D) (u : Unit {0}) (q : OutputQueue)
      → append s.slot.output (some text) (length text) ≡ (ok u, q)
      → reply script text s
        ≡ (elim (flush_output (script s.lines) (record (s.slot) { output = q })) [
          | none ↦ none
          | some (sent, slot') ↦
              some (record s { slot = slot'; wire = s.wire ++ sent; lines = s.lines + 1 })
        ])
  unfolding reply
  reply_flushed text s u q e = rw (ap (λ r. r.0) e, ap (λ r. r.1) e, reply) refl

  replied :
      (text : List ℕ) (s : Session F D) (sent : List ℕ) (slot' : ClientSlot)
      → leb (length s.slot.output.pending + length text) capacity ≡ true
      → flush_output
          (script s.lines)
          (record (s.slot) { output = record { pending = s.slot.output.pending ++ text } })
        ≡ some (sent, slot')
      → has_client slot' ≡ true
      → IsReplied text s (record s { slot = slot'; wire = s.wire ++ sent; lines = s.lines + 1 })
  replied text s sent slot' room flushed h =
      let q : OutputQueue = record { pending = s.slot.output.pending ++ text } in
      elim (Bool-cases (has_client s.slot)) [
        | inr gone ↦ absurd (
            ground (
              arith,
              h,
              flushed,
              flush_output_gone (script s.lines) (record (s.slot) { output = q }) gone,
              reset_gone (record (s.slot) { output = q }),
              gone,
            ))
        | inl there ↦
            let (output, fits) =
              Served-output
                (flush_output-Served text (script s.lines) s.slot q sent slot' there
                  (leb→le _ _ room) refl flushed)
                h in
            record {
              output =
                  append_assoc s.wire sent (slot'.output.pending)
                  ∙ ap (λ l. s.wire ++ l) output
                  ∙ sym (append_assoc s.wire (s.slot.output.pending) text);
              fits = fits;
              was_there = there;
              counted = refl;
              controller = refl;
            }
      ]

  pub reply-IsReplied :
      (text : List ℕ) (s s' : Session F D)
      → Fits s.slot.output
      → reply script text s ≡ some s'
      → has_client s'.slot ≡ true
      → IsReplied text s s'
  reply-IsReplied text s s' f e h =
      let q : OutputQueue = record { pending = s.slot.output.pending ++ text } in
      let slot = record (s.slot) { output = q } in
      let calls = script s.lines in
      let (taken, _) = append_cases s.slot.output text f in
      elim (Bool-cases (leb (length s.slot.output.pending + length text) capacity)) [
        | inr full ↦
            let stopped : some s' ≡ some (record s { slot = close s.slot; lines = s.lines + 1 }) =
              sym e ∙ reply_full text s no_buffers s.slot.output (ground (arith, taken, full)) in
            absurd (ground (arith, stopped, h, close_gone s.slot))
        | inl room ↦
            let sends = sym e ∙ reply_flushed text s tt q (ground (arith, taken, room)) in
            elim (Option-cases (flush_output calls slot)) [
              | inl running ↦ absurd (ground (arith, sends, running))
              | inr ((sent, slot'), flushed) ↦
                  let same : record s { slot = slot'; wire = s.wire ++ sent; lines = s.lines + 1 }
                      ≡ s' =
                    ground (arith, sends, flushed) in
                  subst (IsReplied text s) same
                    (replied text s sent slot' room flushed (ground (arith, same, h)))
            ]
      ]

  pub reply_gone :
      (text : List ℕ) (s s' : Session F D)
      → has_client s.slot ≡ false
      → reply script text s ≡ some s'
      → has_client s'.slot ≡ false
  reply_gone text s s' gone e =
      let r = append s.slot.output (some text) (length text) in
      elim (Result-cases r.0) [
        | inr (x, failed) ↦
            let stopped : some s' ≡ some (record s { slot = close s.slot; lines = s.lines + 1 }) =
              sym e ∙ reply_full text s x r.1 (ap (λ o. (o, r.1)) failed) in
            ground (arith, stopped, close_gone s.slot)
        | inl (u, fine) ↦
            let slot = record (s.slot) { output = r.1 } in
            let sends = sym e ∙ reply_flushed text s u r.1 (ap (λ o. (o, r.1)) fine) in
            ground
              (arith, sends, flush_output_gone (script s.lines) slot gone, reset_gone slot, gone)
      ]
