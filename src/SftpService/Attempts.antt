-- ===== src/SftpService/Attempts.antt =====
-- `SftpConnection` of core/sftp_service.rs among its threads: how many connect at a time.
use titan_ssh.Common.{
  ℕ, suc, ◌-◌, ◌≤◌, ◌<◌, ◌≡◌, Bool, true, false, if◌then◌else◌, arith, if_rule, nat_eq, ◌==◌, refl,
}
use titan_ssh.Errors.{Result, ok, err}
use titan_ssh.SftpService.Connection.{
  Transport, ConnectionState, idle, connecting, closed, ready, failed, Turn, returns, waits,
  connects, connect_eager, finish_eager, get_turn, finish_get, invalidate_if_ready, close,
  eager_state, connected_state,
}

-- The connection, and how many threads are between their start and the connector's answer.
pub record World : Type 0 where
  pub state : ConnectionState
  pub attempts : ℕ

abbrev pub started : Bool → ℕ → ℕ
started b n = if b then suc n else n

abbrev pub goes_on : Turn → Bool
goes_on turn = elim turn [ connects ↦ true | returns _ ↦ false | waits ↦ false ]

pub data Step : World → World → Type 0 where
  eager :
      (w : World)
      → Step w (record {
        state = (connect_eager w.state).0;
        attempts = started (connect_eager w.state).1 w.attempts;
      })
  eager_ends :
      (w : World) (result : Result Transport)
      → 0 < w.attempts
      → Step w (record { state = finish_eager result w.state; attempts = w.attempts - 1 })
  gets :
      (w : World)
      → Step w (record {
        state = (get_turn w.state).0;
        attempts = started (goes_on (get_turn w.state).1) w.attempts;
      })
  get_ends :
      (w : World) (result : Result Transport)
      → 0 < w.attempts
      → Step w (record { state = (finish_get result w.state).0; attempts = w.attempts - 1 })
  invalidates :
      (w : World) (t : Transport) → Step w (record w { state = invalidate_if_ready t w.state })
  closes : (w : World) → Step w (record w { state = close w.state })

pub data Reach (w : World) : World → Type 0 where
  here : Reach w w
  next : {u v : World} → Reach w u → Step u v → Reach w v

-- The threads that connect, by the state.
abbrev pub Counts : ConnectionState → ℕ → Type 0
Counts idle n = n ≡ 0
Counts connecting n = n ≡ 1
Counts (ready t) n = n ≡ 0
Counts (failed m) n = n ≡ 0
Counts closed n = n ≤ 1

settled :
    (result : Result Transport) (n : ℕ)
    → n ≡ 0
    → Counts (eager_state result) n × Counts (connected_state result) n
unfolding eager_state connected_state
settled (ok t) n h = (h, h)
settled (err e) n h = (h, h)

eager-Counts :
    (s : ConnectionState) (n : ℕ)
    → Counts s n
    → Counts (connect_eager s).0 (started (connect_eager s).1 n)
unfolding connect_eager
eager-Counts idle n h = omega (arith, h)
eager-Counts connecting n h = h
eager-Counts closed n h = h
eager-Counts (ready t) n h = h
eager-Counts (failed m) n h = h

get-Counts :
    (s : ConnectionState) (n : ℕ)
    → Counts s n
    → Counts (get_turn s).0 (started (goes_on (get_turn s).1) n)
unfolding get_turn
get-Counts idle n h = omega (arith, h)
get-Counts connecting n h = h
get-Counts closed n h = h
get-Counts (ready t) n h = h
get-Counts (failed m) n h = h

ends-Counts :
    (result : Result Transport) (s : ConnectionState) (n : ℕ)
    → 0 < n
    → Counts s n
    → Counts (finish_eager result s) (n - 1) × Counts (finish_get result s).0 (n - 1)
unfolding finish_eager finish_get
ends-Counts result idle n p h = absurd (omega arith)
ends-Counts result connecting n p h = settled result (n - 1) (omega arith)
ends-Counts result closed n p h = (omega arith, omega arith)
ends-Counts result (ready t) n p h = absurd (omega arith)
ends-Counts result (failed m) n p h = absurd (omega arith)

invalidate-Counts :
    (t : Transport) (s : ConnectionState) (n : ℕ) → Counts s n → Counts (invalidate_if_ready t s) n
unfolding invalidate_if_ready
invalidate-Counts t idle n h = h
invalidate-Counts t connecting n h = h
invalidate-Counts t closed n h = h
invalidate-Counts t (failed m) n h = h
invalidate-Counts t (ready u) n h =
    if_rule (λ (s : ConnectionState). Counts s n) (u == t) (λ _. h) (λ _. h)

close-Counts : (s : ConnectionState) (n : ℕ) → Counts s n → Counts (close s) n
unfolding close
close-Counts idle n h = omega arith
close-Counts connecting n h = omega arith
close-Counts closed n h = h
close-Counts (ready t) n h = omega arith
close-Counts (failed m) n h = omega arith

Step-Counts : {w v : World} → Step w v → Counts w.state w.attempts → Counts v.state v.attempts
Step-Counts (eager w) h = eager-Counts w.state w.attempts h
Step-Counts (eager_ends w result p) h = (ends-Counts result w.state w.attempts p h).0
Step-Counts (gets w) h = get-Counts w.state w.attempts h
Step-Counts (get_ends w result p) h = (ends-Counts result w.state w.attempts p h).1
Step-Counts (invalidates w t) h = invalidate-Counts t w.state w.attempts h
Step-Counts (closes w) h = close-Counts w.state w.attempts h

-- However the threads of a connection are interleaved, starting from a new one: at most one of them connects at a time. One does exactly while the state is `Connecting`, none while it is `Idle`, `Ready` or `Failed`, and in a closed connection at most the one that had begun before.
pub Reach-Counts :
    (w : World) → Reach (record { state = idle; attempts = 0 }) w → Counts w.state w.attempts
Reach-Counts w here = refl
Reach-Counts w (next r st) = Step-Counts st (Reach-Counts _ r)
