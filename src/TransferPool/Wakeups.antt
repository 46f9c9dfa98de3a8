-- ===== src/TransferPool/Wakeups.antt =====
-- The queue of core/transfer_pool.rs and the signals that are under way, after each event.
use titan_ssh.Common.{
  ℕ, ◌+◌, ◌≤◌, ◌≡◌, refl, ◌≢◌, ◌⊎◌, Bool, true, false, not, List, [], ◌∷◌, none, some, arith,
  nat_eq, ◌==◌, if◌then◌else◌, length, count, insert, remove, entries, Option-cases, if_rule,
  option_rule, Bool-cases, inl, inr, ltb, ◌&&◌, ◌||◌, is_empty, ◌∙◌, sym, subst, ap,
}
use titan_ssh.Errors.{Result, ok, err}
use titan_ssh.TransferPool.{
  ConnectionSlot, TransferPool, TransferCheckout, Turn, done, failed, Waiter, WaiterWake, cancelled,
  connect, min_seq, take_min, take_seq, signal_waiter, take_woken, idle_min_seq,
  sweep_expired_locked, take_transport, reserve, enqueue, acquire, attempt, wait_for_wakeup,
  wake_next_waiter, create_connection, ensure_reaper_locked, checkin, cancel_waiter, close,
  reaper_plan, reaper_round, has_idle_extra,
}
use titan_ssh.TransferPool.Slots.{
  held, held-insert_idle, held-insert_new, held-insert-ge, held-remove-ge, held-retain, held_all,
}
use titan_ssh.TransferPool.Idle.{Holds, idle_min_seq-Holds}
use titan_ssh.TransferPool.World.{
  World, Event, arrives, resumes, connected, returned, cancels, closes, plans, reaps, is_reserved,
  settle, settle_connection, step,
}
use titan_ssh.TransferPool.Capacity.{
  Fits, FitsWorld, KeepsHeld-unexpired, sweep-Fits, SameSlots-Fits,
}

-- The signalled waiters that have not gone on yet, and that will look for a slot.
abbrev pub pending : List WaiterWake → ℕ
pending ks = count (λ (k : WaiterWake). not k.cancelled) ks

take_woken-pending :
    (wake : ℕ) (ks : List WaiterWake) (flag : Bool) (rest : List WaiterWake)
    → take_woken wake ks ≡ some (flag, rest)
    → pending ks ≡ (if flag then 0 else 1) + pending rest
unfolding take_woken
take_woken-pending wake [] flag rest h = cc
take_woken-pending wake (k ∷ ks) flag rest h = elim (Bool-cases (k.wake == wake)) [
  | inl e ↦ ground arith
  | inr e ↦ elim (Option-cases (take_woken wake ks)) [
    | inl n ↦ ground arith
    | inr ((flag', rest'), n) ↦ ground (arith, take_woken-pending wake ks flag' rest' n)
  ]
]

take_min-none : (ws : List Waiter) → take_min ws ≡ none → ws ≡ []
unfolding take_min
take_min-none [] h = refl
take_min-none (w ∷ ws) h = absurd (ground arith)

take_min-some : (ws : List Waiter) (r : Waiter × List Waiter) → take_min ws ≡ some r → ws ≢ []
unfolding take_min
take_min-some [] r h e = cc
take_min-some (w ∷ ws) r h e = cc

take_seq-some :
    (q : ℕ) (ws : List Waiter) (r : Waiter × List Waiter) → take_seq q ws ≡ some r → ws ≢ []
unfolding take_seq
take_seq-some q [] r h e = cc
take_seq-some q (w ∷ ws) r h e = cc

module _ {T : Type 0} where
  -- Every slot but `short` of them is held or promised.
  abbrev pub Covered : ℕ → TransferPool T → Type 0
  Covered short p = (p.waiters ≡ []) ⊎ (5 ≤ held p.connections + pending p.woken + short)

  pub record IsPromised (p : TransferPool T) : Type 0 where
    pub covered : Covered 0 p
    pub drained : p.closed ≡ true → p.waiters ≡ []

  abbrev pub PromisedWorld : World T → Type 0
  PromisedWorld w = IsPromised w.pool

  abbrev SameQueue : TransferPool T → TransferPool T → Type 0
  SameQueue p q =
      (q.waiters ≡ p.waiters)
      × (q.woken ≡ p.woken)
      × (q.closed ≡ p.closed)
      × (held q.connections ≡ held p.connections)

  SameQueue-IsPromised : (p q : TransferPool T) → SameQueue p q → IsPromised p → IsPromised q
  SameQueue-IsPromised p q s h = ground arith

  wake_next_waiter-IsPromised :
      (p : TransferPool T)
      → Covered 1 p
      → (p.closed ≡ true → p.waiters ≡ [])
      → IsPromised (wake_next_waiter p)
  unfolding wake_next_waiter
  wake_next_waiter-IsPromised p c d =
      option_rule IsPromised (take_min p.waiters)
        (λ n. record { covered = inl (take_min-none p.waiters n); drained = d })
        λ r e.
          unfold signal_waiter in
          record {
            covered = ground (arith, take_min-some p.waiters r e);
            drained = λ o. absurd (take_min-some p.waiters r e (d o));
          }

  sweep-SameQueue : (p : TransferPool T) (now : ℕ) → SameQueue p (sweep_expired_locked p now)
  unfolding sweep_expired_locked
  sweep-SameQueue p now = elim (Option-cases (min_seq p.connections)) [
    | inl e ↦ rw (e, sweep_expired_locked) (refl, refl, refl, refl)
    | inr (base, e) ↦
        rw (e, sweep_expired_locked)
          (
            refl,
            refl,
            refl,
            held-retain _ p.connections (KeepsHeld-unexpired base now p.idle_timeout),
          )
  ]

  cancel_waiter-IsPromised :
      (q : ℕ) (p : TransferPool T) → IsPromised p → IsPromised (cancel_waiter q p)
  unfolding cancel_waiter
  cancel_waiter-IsPromised q p h =
      option_rule IsPromised (take_seq q p.waiters) (λ _. h)
        λ r e.
          unfold signal_waiter in
          record {
            covered = ground (arith, take_seq-some q p.waiters r e, h.covered);
            drained = λ o. absurd (take_seq-some q p.waiters r e (h.drained o));
          }

  ensure_reaper_locked-SameQueue : (p : TransferPool T) → SameQueue p (ensure_reaper_locked p)
  unfolding ensure_reaper_locked
  ensure_reaper_locked-SameQueue p = ground arith

  take_transport-IsPromised :
      (k : ℕ) (p : TransferPool T) (js : List ℕ)
      → p.closed ≡ false
      → Covered 1 p
      → Holds k p.connections
      → PromisedWorld (settle js (take_transport k p))
  unfolding settle take_transport
  take_transport-IsPromised k p js o c (slot, t, g, i) =
      let v : ConnectionSlot T = record slot { transport = none } in
      let more = held-insert_idle k v p.connections slot g (ground arith) refl in
      rw (g, take_transport)
        (rw (i, take_transport)
          (record { covered = ground (arith, more); drained = λ e. ground arith }))

  reserve-IsPromised :
      (now : ℕ) (p : TransferPool T) (js : List ℕ)
      → p.closed ≡ false
      → Covered 1 p
      → entries p.next_seq p.connections ≡ 0
      → PromisedWorld (settle js (reserve now p))
  unfolding settle reserve
  reserve-IsPromised now p js o c fresh =
      let v : ConnectionSlot T = record { transport = none; last_used = now } in
      let more = held-insert_new p.next_seq v p.connections fresh refl in
      record { covered = ground (arith, more); drained = λ e. ground arith }

  -- A waiter joins the queue only if all slots are held.
  enqueue-IsPromised :
      (x : Waiter) (p : TransferPool T) (js : List ℕ)
      → p.closed ≡ false
      → 5 ≤ held p.connections + pending p.woken
      → IsPromised (enqueue x p)
  unfolding enqueue
  enqueue-IsPromised x p js o h = record {
    covered = inr (omega arith);
    drained = λ e. ground arith;
  }

  acquire-IsPromised :
      (now : ℕ) (x : Waiter) (p : TransferPool T) (js : List ℕ)
      → p.closed ≡ false
      → Covered 1 p
      → Fits p js
      → PromisedWorld (settle js (acquire now x p))
  unfolding acquire
  acquire-IsPromised now x p js o c f =
      option_rule (λ r. PromisedWorld (settle js r)) (idle_min_seq p.connections)
        (λ e.
          if_rule (λ r. PromisedWorld (settle js r)) (ltb (length p.connections) 5)
            (λ _. reserve-IsPromised now p js o c ((f.kept o p.next_seq).fresh (omega arith)))
            (λ full.
              unfold settle in
              enqueue-IsPromised x p js o (ground (arith, held_all p.connections e))))
        (λ k e.
          take_transport-IsPromised k p js o c
            (idle_min_seq-Holds p.connections k (λ j. (f.kept o j).single) e))

  attempt-IsPromised :
      (first_attempt : Bool) (now : ℕ) (x : Waiter) (p : TransferPool T) (js : List ℕ)
      → Covered (if first_attempt then 0 else 1) p
      → (p.closed ≡ true → p.waiters ≡ [])
      → Fits p js
      → PromisedWorld (settle js (attempt first_attempt now x p))
  unfolding attempt
  attempt-IsPromised first_attempt now x p js c d f =
      let s = sweep_expired_locked p now in
      let q = sweep-SameQueue p now in
      if_rule (λ r. PromisedWorld (settle js r)) p.closed
        (λ e. unfold settle in record { covered = inl (d e); drained = d })
        λ o.
          if_rule (λ r. PromisedWorld (settle js r)) (first_attempt && not (is_empty s.waiters))
            (λ queue. unfold settle in enqueue-IsPromised x s js (q.2 ∙ o) (ground arith))
            (λ free. acquire-IsPromised now x s js (q.2 ∙ o) (ground arith) (sweep-Fits p now js f))

  resumed-IsPromised :
      (flag : Bool) (now : ℕ) (x : Waiter) (p q : TransferPool T) (js : List ℕ)
      → (q.waiters ≡ p.waiters) × (q.closed ≡ p.closed) × (q.connections ≡ p.connections)
      → pending p.woken ≡ (if flag then 0 else 1) + pending q.woken
      → IsPromised p
      → Fits q js
      → PromisedWorld (settle js (if flag then (q, failed cancelled) else attempt false now x q))
  resumed-IsPromised flag now x p q js (w, o, c) e h f =
      if_rule (λ r. PromisedWorld (settle js r)) flag
        (λ t.
          unfold settle in
          record {
            covered = ground (arith, h.covered, ap held c);
            drained = λ d. w ∙ h.drained (sym o ∙ d);
          })
        (λ t.
          attempt-IsPromised false now x q js (ground (arith, h.covered, ap held c))
            (λ d. w ∙ h.drained (sym o ∙ d)) f)

  wait_for_wakeup-IsPromised :
      (now : ℕ) (x : Waiter) (p : TransferPool T) (js : List ℕ)
      → Fits p js
      → IsPromised p
      → PromisedWorld (step (record { pool = p; reserved = js }) (resumes now x))
  unfolding step
  wait_for_wakeup-IsPromised now x p js f h =
      option_rule PromisedWorld (wait_for_wakeup now x p) (λ _. h) λ r e. woken r e
    where
      woken :
          (r : TransferPool T × Turn T)
          → wait_for_wakeup now x p ≡ some r
          → PromisedWorld (settle js r)
      woken r e = elim (Option-cases (take_woken x.wake p.woken)) [
        | inl n ↦ absurd (unfold wait_for_wakeup in ground arith)
        | inr ((flag, rest), n) ↦
            let q = record p { woken = rest } in
            let same : (if flag then (q, failed cancelled) else attempt false now x q) ≡ r =
              unfold wait_for_wakeup in ground arith in
            subst (λ a. PromisedWorld (settle js a)) same
              (resumed-IsPromised flag now x p q js (refl, refl, refl)
                (take_woken-pending x.wake p.woken flag rest n) h
                (SameSlots-Fits p q js (refl, refl, refl) f))
      ]

  remove-Covered :
      (k : ℕ) (p : TransferPool T)
      → Covered 0 p
      → Covered 1 (record p { connections = remove k p.connections })
  remove-Covered k p c = let l = held-remove-ge k p.connections in ground arith

  create_connection-IsPromised :
      (k : ℕ) (result : Result T) (p : TransferPool T) (js : List ℕ)
      → IsPromised p
      → PromisedWorld (settle_connection k js (create_connection k result p))
  unfolding create_connection settle_connection
  create_connection-IsPromised k result p js h =
      if_rule (λ a. PromisedWorld (settle_connection k js a)) p.closed
        (λ o. record { covered = inl (h.drained o); drained = h.drained }) (λ _. answered result)
    where
      q : TransferPool T
      q = record p { connections = remove k p.connections }

      answered :
          (a : Result T)
          → PromisedWorld (
              settle_connection k js (elim a [
                | ok transport ↦ (p, done (record { seq = k; transport = transport }))
                | err error ↦ (
                  wake_next_waiter (record p { connections = remove k p.connections }),
                  failed (connect error),
                )
              ]))
      answered (ok t) = h
      answered (err e) = wake_next_waiter-IsPromised q (remove-Covered k p h.covered) h.drained

  checkin-IsPromised :
      (c : TransferCheckout T) (healthy : Bool) (now : ℕ) (p : TransferPool T)
      → IsPromised p
      → IsPromised (checkin c healthy now p)
  unfolding checkin
  checkin-IsPromised c healthy now p h =
      if_rule IsPromised (p.closed || not healthy)
        (λ _. wake_next_waiter-IsPromised out (remove-Covered c.seq p h.covered) h.drained)
        (λ _.
          SameQueue-IsPromised (wake_next_waiter back)
            (ensure_reaper_locked (wake_next_waiter back))
            (ensure_reaper_locked-SameQueue (wake_next_waiter back))
            (wake_next_waiter-IsPromised back covered_back h.drained))
    where
      v : ConnectionSlot T
      v = record { transport = some c.transport; last_used = now }

      out : TransferPool T
      out = record p { connections = remove c.seq p.connections }

      back : TransferPool T
      back = record p { connections = insert c.seq v p.connections }

      covered_back : Covered 1 back
      covered_back = let l = held-insert-ge c.seq v p.connections in ground (arith, h.covered)

  reaper_plan-SameQueue : (now : ℕ) (p : TransferPool T) → SameQueue p (reaper_plan now p).0
  unfolding reaper_plan
  reaper_plan-SameQueue now p = ground arith

  reaper_round-SameQueue : (now : ℕ) (p : TransferPool T) → SameQueue p (reaper_round now p).0
  unfolding reaper_round
  reaper_round-SameQueue now p =
      let s = sweep_expired_locked p now in
      if_rule (λ (r : TransferPool T × Bool). SameQueue p r.0) p.closed
        (λ _. (refl, refl, refl, refl))
        (λ _.
          if_rule (λ (r : TransferPool T × Bool). SameQueue p r.0) (has_idle_extra s.connections)
            (λ _. sweep-SameQueue p now) (λ _. sweep-SameQueue p now))

  -- Every event keeps the promise, among slots that fit.
  pub step-IsPromised :
      (w : World T) (e : Event T) → FitsWorld w → PromisedWorld w → PromisedWorld (step w e)
  unfolding step
  step-IsPromised w (arrives now x) f h =
      attempt-IsPromised true now x w.pool w.reserved h.covered h.drained f
  step-IsPromised w (resumes now x) f h = wait_for_wakeup-IsPromised now x w.pool w.reserved f h
  step-IsPromised w (connected k result) f h =
      if_rule PromisedWorld (is_reserved k w.reserved)
        (λ _. create_connection-IsPromised k result w.pool w.reserved h) (λ _. h)
  step-IsPromised w (returned c healthy now) f h =
      if_rule PromisedWorld (is_reserved c.seq w.reserved)
        (λ _. checkin-IsPromised c healthy now w.pool h) (λ _. h)
  step-IsPromised w (cancels q) f h = cancel_waiter-IsPromised q w.pool h
  step-IsPromised w closes f h = unfold close in record { covered = inl refl; drained = λ _. refl }
  step-IsPromised w (plans now) f h =
      SameQueue-IsPromised w.pool (reaper_plan now w.pool).0 (reaper_plan-SameQueue now w.pool) h
  step-IsPromised w (reaps now) f h =
      SameQueue-IsPromised w.pool (reaper_round now w.pool).0 (reaper_round-SameQueue now w.pool) h
