-- ===== src/SftpService/Progress.antt =====
-- The progress events of `run_transfer_blocking` of core/sftp_service.rs, with `SftpProgressEvent` of
-- models/sftp.rs. Times are in milliseconds; the speed, a quotient of two `f64`, is a parameter.
use titan_ssh.Common.{
  ℕ, ◌+◌, ◌*◌, ◌-◌, ◌≤◌, ◌<◌, List, [], ◌∷◌, Text, if◌then◌else◌, leb, length, All,
}

pub record SftpProgressEvent : Type 0 where
  pub task_id : Text
  pub session_id : Text
  pub transferred_bytes : ℕ
  pub total_bytes : ℕ
  pub speed_bps : ℕ

-- What the clock shows where the macro reads it: for its test, for the speed, and for the new start.
pub record Readings : Type 0 where
  pub tested : ℕ
  pub measured : ℕ
  pub restarted : ℕ

-- The variables of the macro, with the events that were sent, the newest first.
pub record Progress : Type 0 where
  pub transferred : ℕ
  pub last_transferred : ℕ
  pub last_report : ℕ
  pub events : List SftpProgressEvent

abbrev pub new_progress : ℕ → Progress
new_progress start = record {
  transferred = 0;
  last_transferred = 0;
  last_report = start;
  events = [];
}

module _ (speed : ℕ → ℕ → ℕ) (task_id session_id : Text) (total_bytes : ℕ) where
  abbrev pub progress_event : Readings → Progress → SftpProgressEvent
  progress_event r p = record {
    task_id = task_id;
    session_id = session_id;
    transferred_bytes = p.transferred;
    total_bytes = total_bytes;
    speed_bps = speed (p.transferred - p.last_transferred) (r.measured - p.last_report);
  }

  unfoldable pub emit_progress : Readings → Progress → Progress
  emit_progress r p =
      if leb 500 (r.tested - p.last_report)
      then record p {
        last_transferred = p.transferred;
        last_report = r.restarted;
        events = progress_event r p ∷ p.events;
      }
      else p

  -- The loop: each chunk that was written is counted, and then the macro runs.
  unfoldable pub report_chunks : List (ℕ × Readings) → Progress → Progress
  unfolding emit_progress
  report_chunks [] p = p
  report_chunks ((n, r) ∷ chunks) p =
      report_chunks chunks (emit_progress r (record p { transferred = p.transferred + n }))

-- Each event counts more bytes than those before it.
abbrev pub IsFalling : List SftpProgressEvent → Type 0
IsFalling [] = Unit {0}
IsFalling (e ∷ es) =
    All (λ (d : SftpProgressEvent). d.transferred_bytes < e.transferred_bytes) es × IsFalling es

-- No chunk is empty, and the clock does not go back.
abbrev pub IsTimed : ℕ → List (ℕ × Readings) → Type 0
IsTimed now [] = Unit {0}
IsTimed now ((n, r) ∷ chunks) =
    (1 ≤ n) × (now ≤ r.tested) × (r.tested ≤ r.restarted) × IsTimed r.restarted chunks

abbrev pub bytes_of : List (ℕ × Readings) → ℕ
bytes_of [] = 0
bytes_of ((n, r) ∷ chunks) = n + bytes_of chunks

abbrev pub end_of : ℕ → List (ℕ × Readings) → ℕ
end_of now [] = now
end_of now ((n, r) ∷ chunks) = end_of r.restarted chunks

-- The state at a time, of a transfer that began at `start`.
record Holds (start now : ℕ) (p : Progress) : Type 0 where
  counted : p.last_transferred ≤ p.transferred
  below : All (λ (d : SftpProgressEvent). d.transferred_bytes ≤ p.last_transferred) p.events
  falling : IsFalling p.events
  spaced : length p.events * 500 + start ≤ p.last_report
  reported : p.last_report ≤ now
