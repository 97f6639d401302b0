-- ===== src/TxStatus/Reported.antt =====
-- Changes are reported once each, in order.
use lo_ra_ham_daemon.Base.{
  Bool, Bool-cases, List, [], ap, arith, false, inl, inr, not, refl, suc, sym, true, zero, ℕ, ◌%◌,
  ◌+◌, ◌-◌, ◌<◌, ◌==◌, ◌^◌, ◌∙◌, ◌∷◌, ◌≡◌, ◌≤◌,
}
use mathlib.Core.Path.{subst}
use lo_ra_ham_daemon.TxStatus.{
  Status, exchange, store, count, next_busy, next_generation, status_loop, process_tx_status,
}

-- The first `n` changes of the flag, the latest first: on, off, on ...
abbrev pub changes : ℕ → List Bool
changes zero = []
changes (suc n) = (n % 2 == 0) ∷ changes n

next_generation_lem : (n : ℕ) → next_generation (n % 2 ^ 32) ≡ suc n % 2 ^ 32
unfolding next_generation
next_generation_lem n = omega arith

next_busy_lem : (n : ℕ) → next_busy (n % 2 ^ 32) ≡ (n % 2 == 0)
unfolding next_busy
next_busy_lem n = ap (λ k. k == 0) (omega arith)

abbrev pub init : Status
init = record { tx_busy = false; generation = 0; broadcast_generation = 0 }

-- The status after `n` changes of the flag, `m` of which are counted in the generation, and what has
-- been made of the clients. Each atomic operation is a step, of whatever thread.
pub data Reach {S : Type 0} (announces : Bool → S → S) (start : S)
    : ℕ → ℕ → Status → S → Type 0 where
  boots : Reach announces start 0 0 init start
  raises :
      {n m : ℕ} {s : Status} {clients : S}
      → Reach announces start n m s clients
      → (exchange s).0 ≡ true
      → Reach announces start (suc n) m (exchange s).1 clients
  -- The radio is sending, the flag stays up.
  refused :
      {n m : ℕ} {s : Status} {clients : S}
      → Reach announces start n m s clients
      → (exchange s).0 ≡ false
      → Reach announces start n m (exchange s).1 clients
  -- By the one that raised it
  lowers :
      {n m : ℕ} {s : Status} {clients : S}
      → Reach announces start n m s clients
      → s.tx_busy ≡ true
      → Reach announces start (suc n) m (store s) clients
  -- Not while the clients are 2 ^ 32 - 1 changes behind
  counts :
      {n m : ℕ} {s : Status} {clients : S}
      → Reach announces start n m s clients
      → m < n
      → (next_generation s.generation == s.broadcast_generation) ≡ false
      → Reach announces start n (suc m) (count s) clients
  ticks :
      {n m : ℕ} {s : Status} {clients : S}
      → Reach announces start n m s clients
      → Reach announces start n m
          (process_tx_status announces s clients).0
          (process_tx_status announces s clients).1

module _ {S : Type 0} (announces : Bool → S → S) where
  abbrev pub told : S → List Bool → S
  told clients [] = clients
  told clients (busy ∷ earlier) = announces busy (told clients earlier)

  status_loop_lem :
      (start : S) (fuel m n : ℕ) (clients : S)
      → m ≤ n
      → n ≤ m + fuel
      → n < m + 2 ^ 32
      → clients ≡ told start (changes m)
      → status_loop announces fuel (m % 2 ^ 32) (n % 2 ^ 32) clients
        ≡ (n % 2 ^ 32, told start (changes n))
  unfolding status_loop
  status_loop_lem start zero m n clients h enough small e =
      let same : m ≡ n = omega arith in rw e (ap (λ k. (k % 2 ^ 32, told start (changes k))) same)
  status_loop_lem start (suc fuel) m n clients h enough small e = elim (Bool-cases (m == n)) [
    | inl is ↦
        let same : m ≡ n = ground (arith, is) in
        let equal : (m % 2 ^ 32 == n % 2 ^ 32) ≡ true = ground (arith, same) in
        rw (equal, e) (ap (λ k. (k % 2 ^ 32, told start (changes k))) same)
    | inr differ ↦
        let more : m < n = ground (arith, differ, h) in
        let equal : (m % 2 ^ 32 == n % 2 ^ 32) ≡ false = ground (arith, more, small) in
        let rest =
          status_loop_lem start fuel (suc m) n (announces (m % 2 == 0) clients) more (omega arith)
            (omega arith) (ap (announces (m % 2 == 0)) e) in
        let next : next_generation (m % 2 ^ 32) ≡ suc m % 2 ^ 32 = next_generation_lem m in
        let parity : next_busy (m % 2 ^ 32) ≡ (m % 2 == 0) = next_busy_lem m in
        rw (equal, next, parity) rest
  ]

  -- `reported` of the `m` changes that are counted have been told.
  record Inv (start : S) (n m : ℕ) (s : Status) (clients : S) : Type 0 where
    reported : ℕ
    behind : reported ≤ m
    in_time : m < reported + 2 ^ 32
    counted : m ≤ n
    busy : s.tx_busy ≡ not (n % 2 == 0)
    generation : s.generation ≡ m % 2 ^ 32
    broadcast_generation : s.broadcast_generation ≡ reported % 2 ^ 32
    told_clients : clients ≡ told start (changes reported)

  tick_lem :
      (start : S) (n m : ℕ) (s : Status) (clients : S)
      → Inv start n m s clients
      → process_tx_status announces s clients
        ≡ (record s { broadcast_generation = m % 2 ^ 32 }, told start (changes m))
  unfolding process_tx_status
  tick_lem start n m s clients v =
      let fuel : ℕ = (s.generation + 2 ^ 32 - s.broadcast_generation) % 2 ^ 32 in
      let end : ℕ × S = (m % 2 ^ 32, told start (changes m)) in
      let loop =
        status_loop_lem start fuel v.reported m clients v.behind
          (omega (arith, v.in_time, v.behind, v.generation, v.broadcast_generation)) v.in_time
          v.told_clients in
      let from : status_loop announces fuel s.broadcast_generation (m % 2 ^ 32) clients ≡ end =
        subst (λ g. status_loop announces fuel g (m % 2 ^ 32) clients ≡ end)
          (sym v.broadcast_generation) loop in
      let upto : status_loop announces fuel s.broadcast_generation s.generation clients ≡ end =
        subst (λ g. status_loop announces fuel s.broadcast_generation g clients ≡ end)
          (sym v.generation) from in
      ap (λ t. (record s { broadcast_generation = t.0 }, t.1)) upto

  -- A change of the flag that is not counted yet.
  change-Inv :
      (start : S) (n m : ℕ) (s : Status) (clients : S) (busy : Bool)
      → Inv start n m s clients
      → busy ≡ not (suc n % 2 == 0)
      → Inv start (suc n) m (record s { tx_busy = busy }) clients
  change-Inv start n m s clients busy v flag = record {
    reported = v.reported;
    behind = v.behind;
    in_time = v.in_time;
    counted = omega (arith, v.counted);
    busy = flag;
    generation = v.generation;
    broadcast_generation = v.broadcast_generation;
    told_clients = v.told_clients;
  }

  count-Inv :
      (start : S) (n m : ℕ) (s : Status) (clients : S)
      → Inv start n m s clients
      → m < n
      → (next_generation s.generation == s.broadcast_generation) ≡ false
      → Inv start n (suc m) (count s) clients
  unfolding count
  count-Inv start n m s clients v more time =
      let next : next_generation s.generation ≡ suc m % 2 ^ 32 =
        ap next_generation v.generation ∙ next_generation_lem m in
      record {
        reported = v.reported;
        behind = omega (arith, v.behind);
        in_time = ground (arith, time, next, v.broadcast_generation, v.in_time);
        counted = more;
        busy = v.busy;
        generation = next;
        broadcast_generation = v.broadcast_generation;
        told_clients = v.told_clients;
      }

  Reach-Inv :
      (start : S) {n m : ℕ} {s : Status} {clients : S}
      → Reach announces start n m s clients
      → Inv start n m s clients
  unfolding exchange store
  Reach-Inv start boots = record {
    reported = 0;
    behind = omega arith;
    in_time = omega arith;
    counted = omega arith;
    busy = refl;
    generation = refl;
    broadcast_generation = refl;
    told_clients = refl;
  }
  Reach-Inv start (raises {n} {m} {s} {clients} r free) =
      let v = Reach-Inv start r in
      change-Inv start n m s clients true v (ground (arith, free, v.busy))
  Reach-Inv start (refused {n} {m} {s} {clients} r taken) =
      let v = Reach-Inv start r in
      let up : s.tx_busy ≡ true = ground (arith, taken) in
      subst (λ b. Inv start n m (record s { tx_busy = b }) clients) up v
  Reach-Inv start (lowers {n} {m} {s} {clients} r sending) =
      let v = Reach-Inv start r in
      change-Inv start n m s clients false v (ground (arith, sending, v.busy))
  Reach-Inv start (counts {n} {m} {s} {clients} r more time) =
      count-Inv start n m s clients (Reach-Inv start r) more time
  Reach-Inv start (ticks {n} {m} {s} {clients} r) =
      let v = Reach-Inv start r in
      subst (λ t. Inv start n m t.0 t.1) (sym (tick_lem start n m s clients v))
        (record {
          reported = m;
          behind = omega arith;
          in_time = omega arith;
          counted = v.counted;
          busy = v.busy;
          generation = v.generation;
          broadcast_generation = refl;
          told_clients = refl;
        })

  -- In any interleaving since boot of the atomic operations of senders (one that takes or frees the
  -- flag, then one that counts) and of ticks, where the clients were never 2 ^ 32 - 1 changes behind:
  -- when `m` of the `n` changes of the flag have been counted, a tick ends, and exactly the first `m`
  -- changes have then been told to the clients, each once and in order, beginning with a rise and in
  -- turn. A change that is not counted yet is left to a later tick; once all are counted, all have
  -- been told. The flag is up exactly if `n` is odd, and all that the tick changes of the status is that
  -- the broadcast has caught up with the generation.
  pub process_tx_status-tells :
      (start : S) (n m : ℕ) (s : Status) (clients : S)
      → Reach announces start n m s clients
      → (process_tx_status announces s clients
          ≡ (record s { broadcast_generation = s.generation }, told start (changes m)))
        × (s.tx_busy ≡ not (n % 2 == 0))
        × (m ≤ n)
  process_tx_status-tells start n m s clients r =
      let v = Reach-Inv start r in
      (
        tick_lem start n m s clients v
            ∙ ap (λ g. (record s { broadcast_generation = g }, told start (changes m)))
                (sym v.generation),
        v.busy,
        v.counted,
      )
