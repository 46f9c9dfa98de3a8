-- ===== src/TransferPool/Schedules.antt =====
-- core/transfer_pool.rs from a new pool on, under any schedule.
use titan_ssh.Common.{
  ℕ, ◌+◌, ◌^◌, ◌≤◌, ◌<◌, ◌≡◌, refl, ◌≢◌, Bool, true, false, List, [], ◌∷◌, some, arith, length,
  Option-cases, Bool-cases, if_rule, option_rule, inl, inr, subst, if◌then◌else◌,
}
use titan_ssh.TransferPool.{
  TransferPool, TransferClock, new_cyclic, Turn, done, failed, waits, connects, attempt, acquire,
  take_transport, reserve, enqueue, close, wait_for_wakeup, take_woken, create_connection, checkin,
  reaper_round, cancelled, Waiter, TransferCheckout, wake_next_waiter, ensure_reaper_locked,
}
use titan_ssh.Errors.{Result}
use titan_ssh.TransferPool.Slots.{held, held_le, busy, busy-le-entries}
use titan_ssh.TransferPool.Keys.{owners}
use titan_ssh.TransferPool.World.{
  World, Event, arrives, resumes, connected, returned, cancels, closes, plans, reaps, settle,
  settle_connection, step, run, is_reserved,
}
use titan_ssh.TransferPool.Capacity.{
  FitsWorld, step-Fits, sweep-closed, cancel_waiter-SameSlots, reaper_plan-SameSlots,
}
use titan_ssh.TransferPool.Wakeups.{PromisedWorld, pending, step-IsPromised}

module _ {T : Type 0} where
  abbrev pub start : TransferClock → ℕ → World T
  start clock idle_timeout = record { pool = new_cyclic clock idle_timeout; reserved = [] }

  start-Fits : (clock : TransferClock) (timeout : ℕ) → FitsWorld (start clock timeout)
  unfolding new_cyclic
  start-Fits clock timeout = record {
    bounded = omega arith;
    kept = λ _ k. record { single = omega arith; owned = refl; fresh = λ _. refl };
    emptied = λ _. refl;
  }

  start-IsPromised : (clock : TransferClock) (timeout : ℕ) → PromisedWorld (start clock timeout)
  unfolding new_cyclic
  start-IsPromised clock timeout = record { covered = inl refl; drained = λ _. refl }

  abbrev next_of : TransferPool T → ℕ
  next_of p = p.next_seq

  settle-pool : (js : List ℕ) (r : TransferPool T × Turn T) → (settle js r).pool ≡ r.0
  unfolding settle
  settle-pool js (p, done c) = refl
  settle-pool js (p, failed e) = refl
  settle-pool js (p, waits) = refl
  settle-pool js (p, connects k) = refl

  settle_connection-pool :
      (k : ℕ) (js : List ℕ) (r : TransferPool T × Turn T) → (settle_connection k js r).pool ≡ r.0
  unfolding settle_connection
  settle_connection-pool k js (p, done c) = refl
  settle_connection-pool k js (p, failed e) = refl
  settle_connection-pool k js (p, waits) = refl
  settle_connection-pool k js (p, connects j) = refl

  attempt-next-le :
      (first_attempt : Bool) (now : ℕ) (x : Waiter) (p : TransferPool T)
      → next_of (attempt first_attempt now x p).0 ≤ p.next_seq + 1
  unfolding attempt acquire reserve take_transport enqueue
  attempt-next-le first_attempt now x p = ground (arith, sweep-closed p now)

  wait_for_wakeup-next-le :
      (now : ℕ) (x : Waiter) (p : TransferPool T) (r : TransferPool T × Turn T)
      → wait_for_wakeup now x p ≡ some r
      → next_of r.0 ≤ p.next_seq + 1
  unfolding wait_for_wakeup
  wait_for_wakeup-next-le now x p r e = elim (Option-cases (take_woken x.wake p.woken)) [
    | inl n ↦ absurd (ground arith)
    | inr ((flag, rest), n) ↦
        let q = record p { woken = rest } in
        let same : (if flag then (q, failed cancelled) else attempt false now x q) ≡ r =
          ground arith in
        subst (λ (a : TransferPool T × Turn T). next_of a.0 ≤ p.next_seq + 1) same
          (if_rule (λ (a : TransferPool T × Turn T). next_of a.0 ≤ p.next_seq + 1) flag
            (λ _. omega arith) (λ _. attempt-next-le false now x q))
  ]

  create_connection-next-le :
      (k : ℕ) (result : Result T) (p : TransferPool T)
      → next_of (create_connection k result p).0 ≤ p.next_seq + 1
  unfolding create_connection wake_next_waiter
  create_connection-next-le k result p = ground arith

  checkin-next-le :
      (c : TransferCheckout T) (healthy : Bool) (now : ℕ) (p : TransferPool T)
      → next_of (checkin c healthy now p) ≤ p.next_seq + 1
  unfolding checkin wake_next_waiter ensure_reaper_locked
  checkin-next-le c healthy now p = ground arith

  reaper_round-next-le :
      (now : ℕ) (p : TransferPool T) → next_of (reaper_round now p).0 ≤ p.next_seq + 1
  unfolding reaper_round
  reaper_round-next-le now p = ground (arith, sweep-closed p now)

  -- An event takes one sequence number at most.
  step-next-le : (w : World T) (e : Event T) → next_of (step w e).pool ≤ w.pool.next_seq + 1
  unfolding step
  step-next-le w (arrives now x) =
      rw (settle-pool w.reserved (attempt true now x w.pool)) (attempt-next-le true now x w.pool)
  step-next-le w (resumes now x) =
      option_rule (λ (v : World T). next_of v.pool ≤ w.pool.next_seq + 1)
        (wait_for_wakeup now x w.pool) (λ _. omega arith)
        λ r e. rw (settle-pool w.reserved r) (wait_for_wakeup-next-le now x w.pool r e)
  step-next-le w (connected k result) =
      if_rule (λ (v : World T). next_of v.pool ≤ w.pool.next_seq + 1) (is_reserved k w.reserved)
        (λ _.
          rw (settle_connection-pool k w.reserved (create_connection k result w.pool))
            (create_connection-next-le k result w.pool))
        (λ _. omega arith)
  step-next-le w (returned c healthy now) =
      if_rule (λ (v : World T). next_of v.pool ≤ w.pool.next_seq + 1) (is_reserved c.seq w.reserved)
        (λ _. checkin-next-le c healthy now w.pool) (λ _. omega arith)
  step-next-le w (cancels q) = omega (arith, (cancel_waiter-SameSlots q w.pool).2)
  step-next-le w closes = unfold close in omega arith
  step-next-le w (plans now) = omega (arith, (reaper_plan-SameSlots now w.pool).2)
  step-next-le w (reaps now) = reaper_round-next-le now w.pool

  run-Fits :
      (es : List (Event T)) (w : World T)
      → w.pool.next_seq + length es < 2 ^ 64
      → FitsWorld w
      → PromisedWorld w
      → FitsWorld (run w es) × PromisedWorld (run w es)
  unfolding run
  run-Fits [] w u f h = (f, h)
  run-Fits (e ∷ es) w u f h =
      let n = step-next-le w e in
      run-Fits es (step w e) (omega arith) (step-Fits w e (omega arith) f) (step-IsPromised w e f h)

  -- From a new pool, under every schedule of fewer than 2^64 events: there are at most five slots,
  -- and while the pool is open every sequence number names at most one slot and has an owner
  -- exactly if that slot is held, one at most. So no two threads ever have the same connection.
  pub run_exclusive :
      (clock : TransferClock) (timeout : ℕ) (es : List (Event T)) (k : ℕ)
      → length es < 2 ^ 64
      → (length (run (start clock timeout) es).pool.connections ≤ 5)
        × ((run (start clock timeout) es).pool.closed ≡ false
            → (owners k (run (start clock timeout) es).reserved
                ≡ busy k (run (start clock timeout) es).pool.connections)
              × (owners k (run (start clock timeout) es).reserved ≤ 1))
  run_exclusive clock timeout es k u =
      let w = run (start clock timeout) es in
      let f =
        (run-Fits es (start clock timeout) (unfold new_cyclic in omega arith)
          (start-Fits clock timeout) (start-IsPromised clock timeout)).0 in
      (
        f.bounded,
        λ o.
            let i = f.kept o k in
            let b = busy-le-entries k w.pool.connections in
            (i.owned, omega (arith, i.owned, i.single, b)),
      )

  -- From a new pool, under every schedule of fewer than 2^64 events: if somebody is in the queue
  -- and no waiter has been signalled that has yet to look for a slot, then the pool is open, all
  -- five slots are there, and each of them is held by a thread.
  pub run_no_lost_wakeup :
      (clock : TransferClock) (timeout : ℕ) (es : List (Event T))
      → length es < 2 ^ 64
      → (run (start clock timeout) es).pool.waiters ≢ []
      → pending (run (start clock timeout) es).pool.woken ≡ 0
      → ((run (start clock timeout) es).pool.closed ≡ false)
        × (length (run (start clock timeout) es).pool.connections ≡ 5)
        × (held (run (start clock timeout) es).pool.connections ≡ 5)
  run_no_lost_wakeup clock timeout es u n z =
      let w = run (start clock timeout) es in
      let r =
        run-Fits es (start clock timeout) (unfold new_cyclic in omega arith)
          (start-Fits clock timeout) (start-IsPromised clock timeout) in
      let b = r.0.bounded in
      let l = held_le w.pool.connections in
      let open_pool : w.pool.closed ≡ false = elim (Bool-cases w.pool.closed) [
        | inl c ↦ absurd (n (r.1.drained c))
        | inr o ↦ o
      ] in
      elim r.1.covered [
        | inl none_waits ↦ absurd (n none_waits)
        | inr c ↦ (open_pool, omega arith, omega arith)
      ]
