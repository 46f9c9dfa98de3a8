-- ===== src/TransferPool.antt =====
-- core/transfer_pool.rs: the pool of transfer connections of one session. Each function is what
-- its source does between taking the state lock and giving it up; `checkout` is cut where it waits
-- (`attempt`, `wait_for_wakeup`) and where it connects with the lock given up (`create_connection`).
--
-- An `Instant` is a number of milliseconds. The transport is a parameter `T`. A waiter's
-- `WaiterWake` is named by a number: while it stands in the queue both of its flags are off, and
-- `woken` holds the ones whose `signaled` flag is on.
pub mod Slots
pub mod Idle
pub mod World
pub mod Keys
pub mod Capacity
pub mod Wakeups
pub mod Schedules
pub mod Order
pub mod Sweep
mod Tests
use titan_ssh.Common.{
  ℕ, ◌+◌, ◌-◌, ◌%◌, ◌^◌, Bool, true, false, not, ◌&&◌, List, [], ◌∷◌, ◌++◌, Option, none, some,
  nat_eq, ◌==◌, ltb, leb, if◌then◌else◌, length, is_empty, retain, any, get, insert, remove, min,
  codes, map, ◌||◌,
}
use titan_ssh.Errors.{AppError, sftp_channel_error, Result, ok, err}

-- `MAX_TRANSFER_CONNECTIONS_PER_SESSION`.
abbrev pub max_transfer_connections_per_session : ℕ
max_transfer_connections_per_session = 5

-- `TRANSFER_IDLE_TIMEOUT`, in milliseconds.
abbrev pub transfer_idle_timeout : ℕ
transfer_idle_timeout = 60000

-- A slot that a checkout holds has no transport.
pub record ConnectionSlot (T : Type 0) : Type 0 where
  pub transport : Option T
  pub last_used : ℕ

pub record Waiter : Type 0 where
  pub queue_seq : ℕ
  pub wake : ℕ

-- A signalled `WaiterWake`, and its `cancelled` flag.
pub record WaiterWake : Type 0 where
  pub wake : ℕ
  pub cancelled : Bool

pub data TransferClock : Type 0 where
  system manual : TransferClock

pub record TransferPool (T : Type 0) : Type 0 where
  pub clock : TransferClock
  pub idle_timeout : ℕ
  pub connections : List (ℕ × ConnectionSlot T)
  pub waiters : List Waiter
  pub closed : Bool
  pub reaper_running : Bool
  pub next_seq : ℕ
  pub woken : List WaiterWake

pub data CheckoutError : Type 0 where
  closed cancelled : CheckoutError
  connect : AppError → CheckoutError

pub record TransferCheckout (T : Type 0) : Type 0 where
  pub seq : ℕ
  pub transport : T

-- How one turn of the loop of `checkout` ends: it returns, it waits for a wake-up, or it goes on to
-- connect for the slot that it reserved.
pub data Turn (T : Type 0) : Type 0 where
  done : TransferCheckout T → Turn T
  failed : CheckoutError → Turn T
  waits : Turn T
  connects : ℕ → Turn T

unfoldable pub is_system : TransferClock → Bool
is_system system = true
is_system manual = false

-- `now.duration_since(last_used)` is zero when `last_used` lies ahead.
unfoldable pub is_idle_expired : ℕ → ℕ → ℕ → Bool
is_idle_expired last_used now idle_timeout = leb idle_timeout (now - last_used)

abbrev pub is_idle : {T : Type 0} → ConnectionSlot T → Bool
is_idle slot = elim slot.transport [ none ↦ false | some t ↦ true ]

abbrev pub min_with : ℕ → Option ℕ → ℕ
min_with a none = a
min_with a (some b) = min a b

-- The waiter with the least `queue_seq`, the first of equals, and the others in their order.
unfoldable pub take_min : List Waiter → Option (Waiter × List Waiter)
take_min [] = none
take_min (w ∷ ws) = elim (take_min ws) [
  | none ↦ some (w, ws)
  | some (m, rest) ↦ if leb w.queue_seq m.queue_seq then some (w, ws) else some (m, w ∷ rest)
]

-- The first waiter with this `queue_seq`, and the others.
unfoldable pub take_seq : ℕ → List Waiter → Option (Waiter × List Waiter)
take_seq queue_seq [] = none
take_seq queue_seq (w ∷ ws) =
    if w.queue_seq == queue_seq
    then some (w, ws)
    else elim (take_seq queue_seq ws) [ none ↦ none | some (m, rest) ↦ some (m, w ∷ rest) ]

-- The signalled flag of a waiter is cleared as its thread leaves `wait_for_wakeup`; `none` while
-- the flag is off.
unfoldable pub take_woken : ℕ → List WaiterWake → Option (Bool × List WaiterWake)
take_woken wake [] = none
take_woken wake (k ∷ ks) =
    if k.wake == wake
    then some (k.cancelled, ks)
    else elim (take_woken wake ks) [ none ↦ none | some (flag, rest) ↦ some (flag, k ∷ rest) ]

module _ {T : Type 0} where
  pub new_cyclic : TransferClock → ℕ → TransferPool T
  new_cyclic clock idle_timeout = record {
    clock = clock;
    idle_timeout = idle_timeout;
    connections = [];
    waiters = [];
    closed = false;
    reaper_running = false;
    next_seq = 0;
    woken = [];
  }

  -- `connections.keys().min()`: the base connection.
  unfoldable pub min_seq : List (ℕ × ConnectionSlot T) → Option ℕ
  min_seq [] = none
  min_seq ((seq, slot) ∷ rest) = some (min_with seq (min_seq rest))

  unfoldable pub idle_min_seq : List (ℕ × ConnectionSlot T) → Option ℕ
  idle_min_seq [] = none
  idle_min_seq ((seq, slot) ∷ rest) =
      let found = idle_min_seq rest in if is_idle slot then some (min_with seq found) else found

  abbrev pub is_idle_extra : ℕ → ℕ × ConnectionSlot T → Bool
  is_idle_extra base_seq entry = not (entry.0 == base_seq) && is_idle entry.1

  unfoldable pub has_idle_extra : List (ℕ × ConnectionSlot T) → Bool
  unfolding min_seq
  has_idle_extra connections = elim (min_seq connections) [
    | none ↦ false
    | some base_seq ↦ any (is_idle_extra base_seq) connections
  ]

  unfoldable pub min_expiry : ℕ → List (ℕ × ConnectionSlot T) → Option ℕ
  min_expiry idle_timeout [] = none
  min_expiry idle_timeout ((seq, slot) ∷ rest) =
      some (min_with (slot.last_used + idle_timeout) (min_expiry idle_timeout rest))

  unfoldable pub earliest_idle_expiry : List (ℕ × ConnectionSlot T) → ℕ → Option ℕ
  unfolding min_seq min_expiry
  earliest_idle_expiry connections idle_timeout = elim (min_seq connections) [
    | none ↦ none
    | some base_seq ↦ min_expiry idle_timeout (retain (is_idle_extra base_seq) connections)
  ]

  -- What `sweep_expired_locked` takes out, given the base connection.
  abbrev pub is_expired : ℕ → ℕ → ℕ → ℕ × ConnectionSlot T → Bool
  is_expired base_seq now idle_timeout entry =
      is_idle_extra base_seq entry && is_idle_expired entry.1.last_used now idle_timeout

  unfoldable pub sweep_expired_locked : TransferPool T → ℕ → TransferPool T
  unfolding min_seq
  sweep_expired_locked p now = elim (min_seq p.connections) [
    | none ↦ p
    | some base_seq ↦ record p {
      connections =
          retain (λ entry. not (is_expired base_seq now p.idle_timeout entry)) p.connections;
    }
  ]

  -- `signal_waiter`, on a waiter that has left the queue.
  unfoldable pub signal_waiter : Bool → Waiter → TransferPool T → TransferPool T
  signal_waiter flag w p = record p { woken = record { wake = w.wake; cancelled = flag } ∷ p.woken }

  unfoldable pub wake_next_waiter : TransferPool T → TransferPool T
  unfolding take_min signal_waiter
  wake_next_waiter p = elim (take_min p.waiters) [
    | none ↦ p
    | some (w, rest) ↦ signal_waiter false w (record p { waiters = rest })
  ]

  unfoldable pub cancel_waiter : ℕ → TransferPool T → TransferPool T
  unfolding take_seq signal_waiter
  cancel_waiter queue_seq p = elim (take_seq queue_seq p.waiters) [
    | none ↦ p
    | some (w, rest) ↦ signal_waiter true w (record p { waiters = rest })
  ]

  -- `state.waiters.push(..)`.
  unfoldable pub enqueue : Waiter → TransferPool T → TransferPool T
  enqueue w p = record p { waiters = p.waiters ++ w ∷ [] }

  -- Takes the transport out of the slot that `idle_min_seq` named.
  unfoldable pub take_transport : ℕ → TransferPool T → TransferPool T × Turn T
  take_transport seq p = elim (get seq p.connections) [
    | none ↦ (p, failed (connect (sftp_channel_error (codes "传输连接槽丢失"))))
    | some slot ↦ elim slot.transport [
      | none ↦ (p, failed (connect (sftp_channel_error (codes "传输连接槽为空"))))
      | some transport ↦ (
        record p { connections = insert seq (record slot { transport = none }) p.connections },
        done (record { seq = seq; transport = transport }),
      )
    ]
  ]

  -- Reserves a slot under a new sequence number, which `fetch_add` wraps around.
  unfoldable pub reserve : ℕ → TransferPool T → TransferPool T × Turn T
  reserve now p = (
    record p {
      connections = insert p.next_seq (record { transport = none; last_used = now }) p.connections;
      next_seq = (p.next_seq + 1) % 2 ^ 64;
    },
    connects p.next_seq,
  )

  -- The choice of `checkout` once the queue has been respected.
  unfoldable pub acquire : ℕ → Waiter → TransferPool T → TransferPool T × Turn T
  unfolding idle_min_seq take_transport reserve enqueue
  acquire now w p = elim (idle_min_seq p.connections) [
    | some seq ↦ take_transport seq p
    | none ↦
        if ltb (length p.connections) max_transfer_connections_per_session
        then reserve now p
        else (enqueue w p, waits)
  ]

  -- One turn of the loop of `checkout`.
  unfoldable pub attempt : Bool → ℕ → Waiter → TransferPool T → TransferPool T × Turn T
  unfolding sweep_expired_locked acquire enqueue
  attempt first_attempt now w p =
      if p.closed
      then (p, failed closed)
      else let s = sweep_expired_locked p now in
        if first_attempt && not (is_empty s.waiters) then (enqueue w s, waits) else acquire now w s

  -- A waiting thread of `checkout` goes on: `none` while it is blocked.
  unfoldable pub wait_for_wakeup : ℕ → Waiter → TransferPool T → Option (TransferPool T × Turn T)
  unfolding take_woken attempt
  wait_for_wakeup now w p = elim (take_woken w.wake p.woken) [
    | none ↦ none
    | some (flag, rest) ↦
        let q = record p { woken = rest } in
        some (if flag then (q, failed cancelled) else attempt false now w q)
  ]

  -- What follows the connector's answer for the slot `seq`.
  unfoldable pub create_connection : ℕ → Result T → TransferPool T → TransferPool T × Turn T
  unfolding wake_next_waiter
  create_connection seq result p =
      if p.closed
      then (record p { connections = remove seq p.connections }, failed closed)
      else elim result [
        | ok transport ↦ (p, done (record { seq = seq; transport = transport }))
        | err error ↦ (
          wake_next_waiter (record p { connections = remove seq p.connections }),
          failed (connect error),
        )
      ]

  unfoldable pub ensure_reaper_locked : TransferPool T → TransferPool T
  unfolding is_system has_idle_extra
  ensure_reaper_locked p =
      if not (is_system p.clock) || p.reaper_running || not (has_idle_extra p.connections)
      then p
      else record p { reaper_running = true }

  unfoldable pub checkin : TransferCheckout T → Bool → ℕ → TransferPool T → TransferPool T
  unfolding wake_next_waiter ensure_reaper_locked
  checkin checkout healthy now p =
      if p.closed || not healthy
      then wake_next_waiter (record p { connections = remove checkout.seq p.connections })
      else let slot : ConnectionSlot T = record {
        transport = some checkout.transport;
        last_used = now;
      } in
        ensure_reaper_locked
          (wake_next_waiter (record p { connections = insert checkout.seq slot p.connections }))

  unfoldable pub close : TransferPool T → TransferPool T
  close p = record p {
    closed = true;
    connections = [];
    waiters = [];
    woken = map (λ (w : Waiter). record { wake = w.wake; cancelled = false }) p.waiters ++ p.woken;
  }

  -- The first half of a round of `reaper_loop`: how long to sleep, `none` when the thread ends.
  unfoldable pub reaper_plan : ℕ → TransferPool T → TransferPool T × Option ℕ
  unfolding earliest_idle_expiry
  reaper_plan now p =
      if p.closed
      then (record p { reaper_running = false }, none)
      else elim (earliest_idle_expiry p.connections p.idle_timeout) [
        | none ↦ (record p { reaper_running = false }, none)
        | some earliest ↦ (p, some (min (earliest - now) 1000))
      ]

  -- The second half, after the sleep: whether the loop goes on.
  unfoldable pub reaper_round : ℕ → TransferPool T → TransferPool T × Bool
  unfolding sweep_expired_locked has_idle_extra
  reaper_round now p =
      if p.closed
      then (record p { reaper_running = false }, false)
      else let s = sweep_expired_locked p now in
        if has_idle_extra s.connections
        then (s, true)
        else (record s { reaper_running = false }, false)
