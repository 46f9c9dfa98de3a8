-- ===== src/TransferPool/Capacity.antt =====
-- The slots of core/transfer_pool.rs, and the threads that hold them, after each event.
use titan_ssh.Common.{
  ℕ, suc, ◌+◌, ◌%◌, ◌^◌, ◌≤◌, ◌<◌, ◌≡◌, refl, Bool, true, false, not, List, [], none, some, arith,
  nat_eq, if◌then◌else◌, length, retain, insert, remove, Option-cases, Bool-cases, inl, inr, ltb,
  if_rule, option_rule, subst, ◌&&◌, is_empty, sym, ◌∙◌, length-retain-le, ◌||◌,
}
use titan_ssh.Errors.{Result, ok, err}
use titan_ssh.TransferPool.{
  has_idle_extra, ConnectionSlot, TransferPool, TransferCheckout, Turn, done, failed, Waiter,
  cancelled, connect, is_expired, min_seq, take_woken, idle_min_seq, sweep_expired_locked,
  take_transport, reserve, enqueue, acquire, attempt, wait_for_wakeup, wake_next_waiter,
  create_connection, ensure_reaper_locked, checkin, cancel_waiter, close, reaper_plan, reaper_round,
}
use titan_ssh.TransferPool.Slots.{
  KeepsHeld, length-insert_present, length-insert-le, length-remove-le, entries_of_get, busy-retain,
}
use titan_ssh.TransferPool.Keys.{
  IsKept, give-IsKept, return-IsKept, new-IsKept, lose-IsKept, entries_of_reserved,
}
use titan_ssh.TransferPool.Idle.{Holds, idle_min_seq-Holds}
use titan_ssh.TransferPool.World.{
  World, Event, arrives, resumes, connected, returned, cancels, closes, plans, reaps, drop_first,
  is_reserved, settle, settle_connection, step,
}

module _ {T : Type 0} where
  pub record Fits (p : TransferPool T) (js : List ℕ) : Type 0 where
    pub bounded : length p.connections ≤ 5
    pub kept : p.closed ≡ false → (k : ℕ) → IsKept k p.connections p.next_seq js
    pub emptied : p.closed ≡ true → p.connections ≡ []

  abbrev keep_unexpired : ℕ → ℕ → ℕ → ℕ × ConnectionSlot T → Bool
  keep_unexpired base now timeout entry = not (is_expired base now timeout entry)

  pub KeepsHeld-unexpired : (base now timeout : ℕ) → KeepsHeld (keep_unexpired base now timeout)
  KeepsHeld-unexpired base now timeout k slot h = ground arith

  retain-IsKept :
      (base now timeout k : ℕ) (m : List (ℕ × ConnectionSlot T)) (next : ℕ) (js : List ℕ)
      → IsKept k m next js
      → IsKept k (retain (keep_unexpired base now timeout) m) next js
  retain-IsKept base now timeout k m next js h =
      let b =
        busy-retain (keep_unexpired base now timeout) k m (KeepsHeld-unexpired base now timeout) in
      record {
        single = omega arith;
        owned = omega arith;
        fresh = λ l. let f = h.fresh l in omega arith;
      }

  pub sweep-Fits :
      (p : TransferPool T) (now : ℕ) (js : List ℕ)
      → Fits p js
      → Fits (sweep_expired_locked p now) js
  unfolding sweep_expired_locked
  sweep-Fits p now js f = elim (Option-cases (min_seq p.connections)) [
    | inl e ↦ rw (e, sweep_expired_locked) f
    | inr (base, e) ↦
        rw (e, sweep_expired_locked)
          (record {
            bounded =
                let l = length-retain-le (keep_unexpired base now p.idle_timeout) p.connections in
                let b = f.bounded in omega arith;
            kept = λ o k.
                retain-IsKept base now p.idle_timeout k p.connections p.next_seq js (f.kept o k);
            emptied = λ c. rw (f.emptied c);
          })
  ]

  abbrev pub FitsWorld : World T → Type 0
  FitsWorld w = Fits w.pool w.reserved

  -- The map is as `Fits` has it, whatever becomes of the queue.
  abbrev pub SameSlots : TransferPool T → TransferPool T → Type 0
  SameSlots p q =
      (q.connections ≡ p.connections) × (q.closed ≡ p.closed) × (q.next_seq ≡ p.next_seq)

  pub SameSlots-Fits : (p q : TransferPool T) (js : List ℕ) → SameSlots p q → Fits p js → Fits q js
  SameSlots-Fits p q js (c, o, n) f = record {
    bounded = rw c f.bounded;
    kept = λ e k. rw (c, n) (f.kept (sym o ∙ e) k);
    emptied = λ e. c ∙ f.emptied (sym o ∙ e);
  }

  pub wake_next_waiter-SameSlots : (p : TransferPool T) → SameSlots p (wake_next_waiter p)
  unfolding wake_next_waiter
  wake_next_waiter-SameSlots p = ground arith

  pub cancel_waiter-SameSlots : (q : ℕ) (p : TransferPool T) → SameSlots p (cancel_waiter q p)
  unfolding cancel_waiter
  cancel_waiter-SameSlots q p = ground arith

  pub ensure_reaper_locked-SameSlots : (p : TransferPool T) → SameSlots p (ensure_reaper_locked p)
  unfolding ensure_reaper_locked
  ensure_reaper_locked-SameSlots p = ground arith

  take_transport-Fits :
      (k : ℕ) (p : TransferPool T) (js : List ℕ)
      → p.closed ≡ false
      → Holds k p.connections
      → Fits p js
      → FitsWorld (settle js (take_transport k p))
  unfolding settle take_transport
  take_transport-Fits k p js o (slot, t, g, i) f =
      let v : ConnectionSlot T = record slot { transport = none } in
      let present = entries_of_get k p.connections slot g in
      rw (g, take_transport)
        (rw (i, take_transport)
          (record {
            bounded = rw (length-insert_present k v p.connections present) f.bounded;
            kept = λ _ j.
                give-IsKept k v p.connections p.next_seq js j slot g (ground arith) refl present
                  (f.kept o j);
            emptied = λ c. ground arith;
          }))

  reserve-Fits :
      (now : ℕ) (p : TransferPool T) (js : List ℕ)
      → p.closed ≡ false
      → length p.connections < 5
      → p.next_seq + 1 < 2 ^ 64
      → Fits p js
      → FitsWorld (settle js (reserve now p))
  unfolding settle reserve
  reserve-Fits now p js o room unwrapped f =
      let v : ConnectionSlot T = record { transport = none; last_used = now } in
      let e : (p.next_seq + 1) % 2 ^ 64 ≡ suc p.next_seq = omega arith in
      record {
        bounded = let l = length-insert-le p.next_seq v p.connections in omega arith;
        kept = λ _ j. rw e (new-IsKept p.next_seq v p.connections js j refl (f.kept o j));
        emptied = λ c. ground arith;
      }

  enqueue-Fits : (x : Waiter) (p : TransferPool T) (js : List ℕ) → Fits p js → Fits (enqueue x p) js
  unfolding enqueue
  enqueue-Fits x p js f = record { bounded = f.bounded; kept = f.kept; emptied = f.emptied }

  acquire-Fits :
      (now : ℕ) (x : Waiter) (p : TransferPool T) (js : List ℕ)
      → p.closed ≡ false
      → p.next_seq + 1 < 2 ^ 64
      → Fits p js
      → FitsWorld (settle js (acquire now x p))
  unfolding acquire
  acquire-Fits now x p js o unwrapped f = elim (Option-cases (idle_min_seq p.connections)) [
    | inl e ↦ elim (Bool-cases (ltb (length p.connections) 5)) [
      | inl room ↦ rw (e, acquire) (rw room (reserve-Fits now p js o (ground arith) unwrapped f))
      | inr full ↦ rw (e, acquire) (rw full (unfold settle in enqueue-Fits x p js f))
    ]
    | inr (k, e) ↦
        rw (e, acquire)
          (take_transport-Fits k p js o
            (idle_min_seq-Holds p.connections k (λ j. (f.kept o j).single) e) f)
  ]

  pub sweep-closed :
      (p : TransferPool T) (now : ℕ)
      → ((sweep_expired_locked p now).closed ≡ p.closed)
        × ((sweep_expired_locked p now).next_seq ≡ p.next_seq)
  unfolding sweep_expired_locked
  sweep-closed p now = ground arith

  pub attempt-Fits :
      (first_attempt : Bool) (now : ℕ) (x : Waiter) (p : TransferPool T) (js : List ℕ)
      → p.next_seq + 1 < 2 ^ 64
      → Fits p js
      → FitsWorld (settle js (attempt first_attempt now x p))
  unfolding attempt
  attempt-Fits first_attempt now x p js unwrapped f =
      let s = sweep_expired_locked p now in
      let sf = sweep-Fits p now js f in
      let same = sweep-closed p now in
      if_rule (λ r. FitsWorld (settle js r)) p.closed (λ c. unfold settle in f)
        λ o.
          if_rule (λ r. FitsWorld (settle js r)) (first_attempt && not (is_empty s.waiters))
            (λ _. unfold settle in enqueue-Fits x s js sf)
            (λ _. acquire-Fits now x s js (same.0 ∙ o) (omega arith) sf)

  resumed-Fits :
      (flag : Bool) (now : ℕ) (x : Waiter) (p : TransferPool T) (js : List ℕ)
      → p.next_seq + 1 < 2 ^ 64
      → Fits p js
      → FitsWorld (settle js (if flag then (p, failed cancelled) else attempt false now x p))
  resumed-Fits flag now x p js unwrapped f =
      if_rule (λ r. FitsWorld (settle js r)) flag (λ _. unfold settle in f)
        (λ _. attempt-Fits false now x p js unwrapped f)

  pub wait_for_wakeup-Fits :
      (now : ℕ) (x : Waiter) (p : TransferPool T) (js : List ℕ)
      → p.next_seq + 1 < 2 ^ 64
      → Fits p js
      → FitsWorld (step (record { pool = p; reserved = js }) (resumes now x))
  unfolding step
  wait_for_wakeup-Fits now x p js unwrapped f =
      option_rule FitsWorld (wait_for_wakeup now x p) (λ _. f) λ r e. woken r e
    where
      woken :
          (r : TransferPool T × Turn T) → wait_for_wakeup now x p ≡ some r → FitsWorld (settle js r)
      woken r e = elim (Option-cases (take_woken x.wake p.woken)) [
        | inl n ↦ absurd (unfold wait_for_wakeup in ground arith)
        | inr ((flag, rest), n) ↦
            let q = record p { woken = rest } in
            subst (λ a. FitsWorld (settle js a)) (unfold wait_for_wakeup in ground arith)
              (resumed-Fits flag now x q js unwrapped (SameSlots-Fits p q js (refl, refl, refl) f))
      ]

  remove-Fits :
      (k : ℕ) (p : TransferPool T) (js : List ℕ)
      → is_reserved k js ≡ true
      → Fits p js
      → Fits (record p { connections = remove k p.connections }) (drop_first k js)
  remove-Fits k p js r f = record {
    bounded = let l = length-remove-le k p.connections in let b = f.bounded in omega arith;
    kept = λ o j. lose-IsKept k p.connections p.next_seq js j r (f.kept o j);
    emptied = λ c. rw (f.emptied c);
  }

  pub create_connection-Fits :
      (k : ℕ) (result : Result T) (p : TransferPool T) (js : List ℕ)
      → is_reserved k js ≡ true
      → Fits p js
      → FitsWorld (settle_connection k js (create_connection k result p))
  unfolding create_connection settle_connection
  create_connection-Fits k result p js r f =
      let q = record p { connections = remove k p.connections } in
      if_rule (λ a. FitsWorld (settle_connection k js a)) p.closed (λ _. remove-Fits k p js r f)
        (λ _. answered result)
    where
      q : TransferPool T
      q = record p { connections = remove k p.connections }

      answered :
          (a : Result T)
          → FitsWorld (
              settle_connection k js (elim a [
                | ok transport ↦ (p, done (record { seq = k; transport = transport }))
                | err error ↦ (
                  wake_next_waiter (record p { connections = remove k p.connections }),
                  failed (connect error),
                )
              ]))
      answered (ok t) = f
      answered (err e) =
          SameSlots-Fits q (wake_next_waiter q) (drop_first k js) (wake_next_waiter-SameSlots q)
            (remove-Fits k p js r f)

  pub checkin-Fits :
      (c : TransferCheckout T) (healthy : Bool) (now : ℕ) (p : TransferPool T) (js : List ℕ)
      → is_reserved c.seq js ≡ true
      → Fits p js
      → Fits (checkin c healthy now p) (drop_first c.seq js)
  unfolding checkin
  checkin-Fits c healthy now p js r f =
      if_rule (λ a. Fits a (drop_first c.seq js)) (p.closed || not healthy)
        (λ _.
          SameSlots-Fits out (wake_next_waiter out) (drop_first c.seq js)
            (wake_next_waiter-SameSlots out) (remove-Fits c.seq p js r f))
        (λ stay.
          SameSlots-Fits (wake_next_waiter back) (ensure_reaper_locked (wake_next_waiter back))
            (drop_first c.seq js) (ensure_reaper_locked-SameSlots (wake_next_waiter back))
            (SameSlots-Fits back (wake_next_waiter back) (drop_first c.seq js)
              (wake_next_waiter-SameSlots back) (put (ground arith))))
    where
      v : ConnectionSlot T
      v = record { transport = some c.transport; last_used = now }

      out : TransferPool T
      out = record p { connections = remove c.seq p.connections }

      back : TransferPool T
      back = record p { connections = insert c.seq v p.connections }

      put : p.closed ≡ false → Fits back (drop_first c.seq js)
      put o =
          let present = entries_of_reserved c.seq p.connections p.next_seq js r (f.kept o c.seq) in
          record {
            bounded = rw (length-insert_present c.seq v p.connections present) f.bounded;
            kept = λ _ j. return-IsKept c.seq v p.connections p.next_seq js j refl r (f.kept o j);
            emptied = λ e. ground arith;
          }

  close-Fits : (p : TransferPool T) (js : List ℕ) → Fits (close p) js
  unfolding close
  close-Fits p js = record { bounded = omega arith; kept = λ o. cc; emptied = λ _. refl }

  pub reaper_plan-SameSlots : (now : ℕ) (p : TransferPool T) → SameSlots p (reaper_plan now p).0
  unfolding reaper_plan
  reaper_plan-SameSlots now p = ground arith

  reaper_round-Fits :
      (now : ℕ) (p : TransferPool T) (js : List ℕ) → Fits p js → Fits (reaper_round now p).0 js
  unfolding reaper_round
  reaper_round-Fits now p js f =
      let s = sweep_expired_locked p now in
      let sf = sweep-Fits p now js f in
      if_rule (λ (r : TransferPool T × Bool). Fits r.0 js) p.closed
        (λ _. SameSlots-Fits p (record p { reaper_running = false }) js (refl, refl, refl) f)
        (λ _.
          if_rule (λ (r : TransferPool T × Bool). Fits r.0 js) (has_idle_extra s.connections)
            (λ _. sf)
            (λ _. SameSlots-Fits s (record s { reaper_running = false }) js (refl, refl, refl) sf))

  -- Every event keeps the slots within the limit, each with one owner at most, while the counter of
  -- sequence numbers does not wrap.
  pub step-Fits :
      (w : World T) (e : Event T)
      → w.pool.next_seq + 1 < 2 ^ 64
      → FitsWorld w
      → FitsWorld (step w e)
  unfolding step
  step-Fits w (arrives now x) u f = attempt-Fits true now x w.pool w.reserved u f
  step-Fits w (resumes now x) u f = wait_for_wakeup-Fits now x w.pool w.reserved u f
  step-Fits w (connected k result) u f =
      if_rule FitsWorld (is_reserved k w.reserved)
        (λ r. create_connection-Fits k result w.pool w.reserved r f) (λ _. f)
  step-Fits w (returned c healthy now) u f =
      if_rule FitsWorld (is_reserved c.seq w.reserved)
        (λ r. checkin-Fits c healthy now w.pool w.reserved r f) (λ _. f)
  step-Fits w (cancels q) u f =
      SameSlots-Fits w.pool (cancel_waiter q w.pool) w.reserved (cancel_waiter-SameSlots q w.pool) f
  step-Fits w closes u f = close-Fits w.pool w.reserved
  step-Fits w (plans now) u f =
      SameSlots-Fits w.pool _ w.reserved (reaper_plan-SameSlots now w.pool) f
  step-Fits w (reaps now) u f = reaper_round-Fits now w.pool w.reserved f
