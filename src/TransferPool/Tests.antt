-- ===== src/TransferPool/Tests.antt =====
-- Runs of the pool of core/transfer_pool.rs, and the theorems about it at concrete pools.
use titan_ssh.Common.{
  ℕ, ◌≤◌, ◌≡◌, refl, ◌≢◌, true, false, List, [], ◌∷◌, Option, none, some, arith, nat_eq, length,
}
use titan_ssh.Errors.{ok}
use titan_ssh.TransferPool.{
  TransferPool, ConnectionSlot, Waiter, system, manual, new_cyclic, sweep_expired_locked,
  is_idle_expired, checkin,
}
use titan_ssh.TransferPool.Slots.{held, busy}
use titan_ssh.TransferPool.Keys.{owners}
use titan_ssh.TransferPool.World.{World, Event, arrives, resumes, connected, returned, step, run}
use titan_ssh.TransferPool.Schedules.{start, run_exclusive, run_no_lost_wakeup}
use titan_ssh.TransferPool.Wakeups.{pending}

abbrev waiter : ℕ → ℕ → Waiter
waiter q w = record { queue_seq = q; wake = w }

-- Five checkouts connect; a sixth and a seventh wait, the later number first.
abbrev crowd : List (Event ℕ)
crowd =
    arrives 0 (waiter 1 1)
    ∷ arrives 0 (waiter 2 2)
    ∷ arrives 0 (waiter 3 3)
    ∷ arrives 0 (waiter 4 4)
    ∷ arrives 0 (waiter 5 5)
    ∷ connected 0 (ok 100)
    ∷ arrives 0 (waiter 7 7)
    ∷ arrives 0 (waiter 6 6)
    ∷ []

crowded : World ℕ
unfolding run new_cyclic step
crowded = run (start system 60000) crowd

crowded_queue : crowded.pool.waiters ≡ waiter 7 7 ∷ waiter 6 6 ∷ []
unfolding crowded
crowded_queue = refl

-- A checkin wakes the one with the least number.
crowded_checkin :
    (checkin (record { seq = 0; transport = 100 }) true 5 crowded.pool).waiters ≡ waiter 7 7 ∷ []
unfolding crowded checkin
crowded_checkin = refl

run_exclusive_example :
    (length (run (start system 60000) crowd).pool.connections ≤ 5)
    × ((run (start system 60000) crowd).pool.closed ≡ false
        → (owners 3 (run (start system 60000) crowd).reserved
            ≡ busy 3 (run (start system 60000) crowd).pool.connections)
          × (owners 3 (run (start system 60000) crowd).reserved ≤ 1))
run_exclusive_example = run_exclusive system 60000 crowd 3 (omega arith)

run_no_lost_wakeup_example :
    ((run (start system 60000) crowd).pool.closed ≡ false)
    × (length (run (start system 60000) crowd).pool.connections ≡ 5)
    × (held (run (start system 60000) crowd).pool.connections ≡ 5)
unfolding crowded
run_no_lost_wakeup_example = run_no_lost_wakeup system 60000 crowd (omega arith) somebody nobody
  where
    somebody : (run (start system 60000) crowd).pool.waiters ≢ []
    somebody e = cc

    nobody : pending (run (start system 60000) crowd).pool.woken ≡ 0
    nobody = refl

-- Only task 6 waits; a connection comes back and wakes it; task 8 arrives before 6 goes on.
abbrev overtaking : List (Event ℕ)
overtaking =
    arrives 0 (waiter 1 1)
    ∷ arrives 0 (waiter 2 2)
    ∷ arrives 0 (waiter 3 3)
    ∷ arrives 0 (waiter 4 4)
    ∷ arrives 0 (waiter 5 5)
    ∷ connected 0 (ok 100)
    ∷ arrives 0 (waiter 6 6)
    ∷ returned (record { seq = 0; transport = 100 }) true 5
    ∷ arrives 5 (waiter 8 8)
    ∷ resumes 5 (waiter 6 6)
    ∷ []

-- The newcomer has the connection, and the older task is back in the queue.
newcomer_wins :
    ((run (start system 60000) overtaking).pool.waiters ≡ waiter 6 6 ∷ [])
    × (owners 0 (run (start system 60000) overtaking).reserved ≡ 1)
unfolding run new_cyclic step
newcomer_wins = (refl, refl)

abbrev slot : Option ℕ → ℕ → ConnectionSlot ℕ
slot t u = record { transport = t; last_used = u }

-- Connection 2 is the base; 5 and 7 are idle, 3 is held.
abbrev mixed : TransferPool ℕ
mixed = record {
  clock = manual;
  idle_timeout = 60;
  connections =
      (5, slot (some 50) 0)
      ∷ (3, slot none 0)
      ∷ (2, slot (some 20) 0)
      ∷ (7, slot (some 70) 50)
      ∷ [];
  waiters = waiter 9 1 ∷ waiter 4 2 ∷ waiter 4 3 ∷ [];
  closed = false;
  reaper_running = true;
  next_seq = 8;
  woken = [];
}

swept :
    (sweep_expired_locked mixed 60).connections
    ≡ (3, slot none 0) ∷ (2, slot (some 20) 0) ∷ (7, slot (some 70) 50) ∷ []
unfolding sweep_expired_locked is_idle_expired
swept = refl

abbrev lonely : TransferPool ℕ
lonely = record mixed { waiters = waiter 9 1 ∷ [] }
