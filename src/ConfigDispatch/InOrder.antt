-- ===== src/ConfigDispatch/InOrder.antt =====
-- The replies that a client gets.
use lo_ra_ham_daemon.Base.{
  All, Bool-cases, List, Option, Option-cases, [], ap, append-nil, append_assoc, arith, false,
  if◌then◌else◌, inl, inr, length, lt→ltb, none, refl, some, sym, true, ℕ, ◌++◌, ◌+◌, ◌<◌, ◌∙◌, ◌∷◌,
  ◌≡◌,
}
use mathlib.Core.Path.{subst}
use lo_ra_ham_daemon.ConfigValue.{Floats}
use lo_ra_ham_daemon.ConfigValidate.{Board}
use lo_ra_ham_daemon.ConfigApply.{Driver, RfDefaults}
use lo_ra_ham_daemon.OutputQueue.{SendResult}
use lo_ra_ham_daemon.OutputQueue.Laws.{Fits}
use lo_ra_ham_daemon.ClientSlot.{has_client}
use mathlib.Core.Option.{map}
use lo_ra_ham_daemon.ConfigStream.{feed}
use lo_ra_ham_daemon.ConfigStream as Stream
use lo_ra_ham_daemon.ConfigStream.Lines.{IsLine, deliver, feed-wire}
use lo_ra_ham_daemon.ConfigStream.Lines as Lines
use lo_ra_ham_daemon.ConfigDispatch.Reply.{output_of, reply-IsReplied, reply_gone}
use lo_ra_ham_daemon.ConfigDispatch.{
  Controller, Receiver, Reports, Jobs, Session, c_string, reply, apply_line, on_line,
  dispatch_client, got,
}

module _ (fl : Floats) (rf : RfDefaults fl.Float) {D : Type 0} (board : Board fl) (calls : Driver D)
    (rx : Receiver D) (reports : Reports fl.Float D) (script : ℕ → List SendResult)
    (jobs : ℕ → Jobs) where
  -- The replies to the lines one after the other, and the controller that they lead to. The first is
  -- line number `n` of the client.
  abbrev pub answers : ℕ → Controller fl.Float D → List (List ℕ) → List ℕ × Controller fl.Float D
  answers n c [] = ([], c)
  answers n c (line ∷ lines) =
      let r = apply_line fl rf board calls rx reports (jobs n) c line in
      let rest = answers (n + 1) r.1 lines in (r.0 ++ rest.0, rest.1)

  abbrev handler : Option (Session fl.Float D) → List ℕ → Option (Session fl.Float D)
  handler = on_line fl rf board calls rx reports script jobs

  deliver-none : (lines : List (List ℕ)) → deliver handler none lines ≡ none
  unfolding on_line
  deliver-none [] = refl
  deliver-none (line ∷ lines) = ground (arith, deliver-none lines)

  -- Lines that are not blank and hold no NUL.
  abbrev pub IsText : List ℕ → Type 0
  IsText line = (0 < length line) × (c_string line ≡ line)

  handler_text :
      (line : List ℕ) (s : Session fl.Float D)
      → IsText line
      → let r = apply_line fl rf board calls rx reports (jobs s.lines) s.controller line in
        handler (some s) line ≡ reply script r.0 (record s { controller = r.1 })
  unfolding on_line
  handler_text line s t =
      ap
        (λ l.
          let r = apply_line fl rf board calls rx reports (jobs s.lines) s.controller l in
          reply script r.0 (record s { controller = r.1 }))
        t.1

  deliver_gone :
      (lines : List (List ℕ)) (s s' : Session fl.Float D)
      → All IsText lines
      → has_client s.slot ≡ false
      → deliver handler (some s) lines ≡ some s'
      → has_client s'.slot ≡ false
  deliver_gone [] s s' t gone e = ground (arith, e, gone)
  deliver_gone (line ∷ lines) s s' (t, ts) gone e =
      let r = apply_line fl rf board calls rx reports (jobs s.lines) s.controller line in
      let e' : deliver handler (handler (some s) line) lines ≡ some s' =
        subst (λ b. deliver handler (if b then handler (some s) line else some s) lines ≡ some s')
          (lt→ltb 0 (length line) t.0) e in
      elim (Option-cases (handler (some s) line)) [
        | inl stuck ↦
            absurd (
              ground
                (arith, sym (ap (λ o. deliver handler o lines) stuck) ∙ e', deliver-none lines))
        | inr (s1, next) ↦
            deliver_gone lines s1 s' ts
              (reply_gone script r.0 (record s { controller = r.1 }) s1 gone
                (sym (handler_text line s t) ∙ next))
              (sym (ap (λ o. deliver handler o lines) next) ∙ e')
      ]

  -- Whoever is still there at the end was there all the time.
  deliver-answers :
      (lines : List (List ℕ)) (s s' : Session fl.Float D)
      → All IsText lines
      → Fits s.slot.output
      → deliver handler (some s) lines ≡ some s'
      → has_client s'.slot ≡ true
      → let r = answers s.lines s.controller lines in
        (output_of s' ≡ output_of s ++ r.0) × (s'.controller ≡ r.1)
  deliver-answers [] s s' t f e h =
      let same : s ≡ s' = ground (arith, e) in
      (ap output_of (sym same) ∙ sym (append-nil (output_of s)), ap (λ x. x.controller) (sym same))
  deliver-answers (line ∷ lines) s s' (t, ts) f e h =
      let r = apply_line fl rf board calls rx reports (jobs s.lines) s.controller line in
      let start = record s { controller = r.1 } in
      let e' : deliver handler (handler (some s) line) lines ≡ some s' =
        subst (λ b. deliver handler (if b then handler (some s) line else some s) lines ≡ some s')
          (lt→ltb 0 (length line) t.0) e in
      elim (Option-cases (handler (some s) line)) [
        | inl stuck ↦
            absurd (
              ground
                (arith, sym (ap (λ o. deliver handler o lines) stuck) ∙ e', deliver-none lines))
        | inr (s1, next) ↦
            let replies = sym (handler_text line s t) ∙ next in
            let goes_on = sym (ap (λ o. deliver handler o lines) next) ∙ e' in
            elim (Bool-cases (has_client s1.slot)) [
              | inr gone ↦ absurd (ground (arith, deliver_gone lines s1 s' ts gone goes_on, h))
              | inl there ↦
                  let one = reply-IsReplied script r.0 start s1 f replies there in
                  let (output, controller) = deliver-answers lines s1 s' ts one.fits goes_on h in
                  let rest =
                    ap (λ n. answers n s1.controller lines) one.counted
                    ∙ ap (λ c. answers (s.lines + 1) c lines) one.controller in
                  (
                    output
                        ∙ ap (λ l. l ++ (answers s1.lines s1.controller lines).0) one.output
                        ∙ ap (λ q. (output_of s ++ r.0) ++ q.0) rest
                        ∙ append_assoc (output_of s) r.0 (answers (s.lines + 1) r.1 lines).0,
                    controller ∙ ap (λ q. q.1) rest,
                  )
            ]
      ]

  received :
      (lines : List (List ℕ)) (s : Session fl.Float D)
      → All IsLine lines
      → s.slot.stream ≡ Stream.init
      → dispatch_client fl rf board calls rx reports script jobs (got (Lines.wire lines)) s
        ≡ map {A = Session fl.Float D}
            (λ x. record x { slot = record (x.slot) { stream = Stream.init } })
            (deliver handler (some s) lines)
  unfolding dispatch_client
  received lines s v e =
      let fed =
        ap (λ st. feed handler (Lines.wire lines) st (some s)) e
        ∙ feed-wire handler lines (some s) v in
      elim (Option-cases (deliver handler (some s) lines)) [
        | inl stuck ↦ ground (arith, fed, stuck)
        | inr (x, done) ↦ ground (arith, fed, done)
      ]

  -- A client that writes whole lines, none of them blank, too long or with a NUL in it, and that is
  -- still connected when they have been handled, gets exactly one reply for each of them, in their
  -- order and behind what it was still to be sent, each computed from the controller that the lines
  -- before it have left; and the controller is the one that the last line leaves.
  pub dispatch_client-answers :
      (lines : List (List ℕ)) (s s' : Session fl.Float D)
      → All IsLine lines
      → All IsText lines
      → s.slot.stream ≡ Stream.init
      → Fits s.slot.output
      → dispatch_client fl rf board calls rx reports script jobs (got (Lines.wire lines)) s
        ≡ some s'
      → has_client s'.slot ≡ true
      → let r = answers s.lines s.controller lines in
        (output_of s' ≡ output_of s ++ r.0) × (s'.controller ≡ r.1)
  dispatch_client-answers lines s s' v t e f d h =
      let d' = sym (received lines s v e) ∙ d in
      elim (Option-cases (deliver handler (some s) lines)) [
        | inl stuck ↦ absurd (ground (arith, d', stuck))
        | inr (x, done) ↦
            let same : record x { slot = record (x.slot) { stream = Stream.init } } ≡ s' =
              ground (arith, d', done) in
            let (output, controller) =
              deliver-answers lines s x t f done
                (sym (ap (λ y. has_client y.slot) (sym same)) ∙ h) in
            (ap output_of (sym same) ∙ output, ap (λ y. y.controller) (sym same) ∙ controller)
      ]
