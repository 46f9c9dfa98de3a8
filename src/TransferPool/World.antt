-- ===== src/TransferPool/World.antt =====
-- The pool of core/transfer_pool.rs among the threads that call it. Every event is one stretch of
-- code under the state lock; a schedule is any list of events. `reserved` are the sequence numbers
-- whose slot a thread has: one that it connects, or one that a checkout has delivered and that has
-- not been returned.
use titan_ssh.Common.{ℕ, Bool, true, List, [], ◌∷◌, none, some, nat_eq, ◌==◌, if◌then◌else◌, any}
use titan_ssh.Errors.{Result}
use titan_ssh.TransferPool.{
  TransferPool, TransferCheckout, Turn, done, failed, waits, connects, Waiter, attempt,
  wait_for_wakeup, create_connection, checkin, cancel_waiter, close, reaper_plan, reaper_round,
}

pub record World (T : Type 0) : Type 0 where
  pub pool : TransferPool T
  pub reserved : List ℕ

pub data Event (T : Type 0) : Type 0 where
  arrives : ℕ → Waiter → Event T
  resumes : ℕ → Waiter → Event T
  connected : ℕ → Result T → Event T
  returned : TransferCheckout T → Bool → ℕ → Event T
  cancels : ℕ → Event T
  closes : Event T
  plans : ℕ → Event T
  reaps : ℕ → Event T

abbrev pub drop_first : ℕ → List ℕ → List ℕ
drop_first k [] = []
drop_first k (j ∷ js) = if j == k then js else j ∷ drop_first k js

abbrev pub is_reserved : ℕ → List ℕ → Bool
is_reserved k js = any (λ j. j == k) js

module _ {T : Type 0} where
  -- What a thread has after a turn of `checkout`.
  unfoldable pub settle : List ℕ → TransferPool T × Turn T → World T
  settle reserved (p, done c) = record { pool = p; reserved = c.seq ∷ reserved }
  settle reserved (p, connects seq) = record { pool = p; reserved = seq ∷ reserved }
  settle reserved (p, failed e) = record { pool = p; reserved = reserved }
  settle reserved (p, waits) = record { pool = p; reserved = reserved }

  -- A connection that failed leaves its slot behind; one that is made keeps it.
  unfoldable pub settle_connection : ℕ → List ℕ → TransferPool T × Turn T → World T
  settle_connection seq reserved (p, done c) = record { pool = p; reserved = reserved }
  settle_connection seq reserved (p, connects k) = record { pool = p; reserved = reserved }
  settle_connection seq reserved (p, failed e) = record {
    pool = p;
    reserved = drop_first seq reserved;
  }
  settle_connection seq reserved (p, waits) = record { pool = p; reserved = reserved }

  -- An event whose thread is not there changes nothing.
  unfoldable pub step : World T → Event T → World T
  unfolding settle settle_connection attempt wait_for_wakeup create_connection checkin cancel_waiter
      close reaper_plan reaper_round
  step w (arrives now x) = settle w.reserved (attempt true now x w.pool)
  step w (resumes now x) = elim (wait_for_wakeup now x w.pool) [
    | none ↦ w
    | some r ↦ settle w.reserved r
  ]
  step w (connected seq result) =
      if is_reserved seq w.reserved
      then settle_connection seq w.reserved (create_connection seq result w.pool)
      else w
  step w (returned c healthy now) =
      if is_reserved c.seq w.reserved
      then record { pool = checkin c healthy now w.pool; reserved = drop_first c.seq w.reserved }
      else w
  step w (cancels queue_seq) = record w { pool = cancel_waiter queue_seq w.pool }
  step w closes = record w { pool = close w.pool }
  step w (plans now) = record w { pool = (reaper_plan now w.pool).0 }
  step w (reaps now) = record w { pool = (reaper_round now w.pool).0 }

  unfoldable pub run : World T → List (Event T) → World T
  unfolding step
  run w [] = w
  run w (e ∷ es) = run (step w e) es
