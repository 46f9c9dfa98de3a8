-- ===== src/SftpService/Steps.antt =====
-- core/sftp_service.rs: the registry among the threads that call it. A step is what one call does
-- to the registry: commands, the workers of the transfers, and the end of a session, in any order.
use titan_ssh.Common.{
  ℕ, ◌≡◌, refl, ◌∙◌, ap, subst, ◌⊎◌, inl, inr, Bool, true, List, [], ◌∷◌, ◌++◌, Option, none, some,
  Text, text_eq, All, ◌==◌, if◌then◌else◌, get, insert, arith, Bool-cases, Option-cases,
}
use titan_ssh.Errors.{AppErrorInfo, Result}
use titan_ssh.TransferPool.{TransferCheckout}
use titan_ssh.SftpService.Connection.{Transport}
use titan_ssh.SftpService.Models.{
  SftpTaskStatus, TransferTask, SftpTaskStatusEvent, is_terminal, is_legal,
}
use titan_ssh.SftpService.Evictions.{evict_old_terminal_tasks}
use titan_ssh.SftpService.Registry.{
  SftpService, SftpHandle, register_session_with_verifier, commit_download, enqueue_upload,
  cancel_task, transition_task, cleanup_session, clear_terminal_tasks, release_transfer_connection,
  event_of, commit_transition, drop_token, emit_status, with_handle,
}

-- The statuses that were sent for a task, oldest first.
unfoldable pub history : Text → List SftpTaskStatusEvent → List SftpTaskStatus
history id [] = []
history id (e ∷ es) = let rest = history id es in if e.task_id == id then e.status ∷ rest else rest

-- A new task has an id, a random UUID, that nothing in the registry has.
pub record IsFresh (id : Text) (s : SftpService) : Type 0 where
  pub unknown : get id s.tasks ≡ none
  pub unsent : history id s.emitted ≡ []
  pub unheld : All (λ (e : Text × SftpHandle). get id e.1.cancel_tokens ≡ none) s.handles

pub data Step : SftpService → SftpService → Type 0 where
  opens :
      (s : SftpService) (session_id : Text) → Step s (register_session_with_verifier session_id s)
  downloads :
      (s : SftpService) (size : Result ℕ) (id : Text) (now : ℕ)
      (session_id remote_path local_path : Text)
      → IsFresh id s
      → Step s (commit_download size id now session_id remote_path local_path s).0
  uploads :
      (s : SftpService) (exists : Text → Bool) (size : Text → ℕ) (id : Text) (now : ℕ)
      (session_id local_path remote_path : Text)
      → IsFresh id s
      → Step s (enqueue_upload exists size id now session_id local_path remote_path s).0
  cancels : (s : SftpService) (id : Text) → Step s (cancel_task id s).0
  transitions :
      (s : SftpService) (id session_id : Text) (status : SftpTaskStatus)
      (error : Option AppErrorInfo)
      → ((task : TransferTask) → get id s.tasks ≡ some task → task.session_id ≡ session_id)
      → Step s (transition_task id session_id status error s).0
  cleans : (s : SftpService) (session_id : Text) → Step s (cleanup_session session_id s).0
  clears : (s : SftpService) (session_id : Text) → Step s (clear_terminal_tasks session_id s)
  releases :
      (s : SftpService) (session_id : Text) (checkout : TransferCheckout Transport) (healthy : Bool)
      (now : ℕ)
      → Step s (release_transfer_connection session_id checkout healthy now s)

pub data Reach (s : SftpService) : SftpService → Type 0 where
  here : Reach s s
  next : {t u : SftpService} → Reach s t → Step t u → Reach s u

-- A change of a handle leaves tasks and events.
pub with_handle_frame :
    (session_id : Text) (change : SftpHandle → SftpHandle) (s : SftpService)
    → ((with_handle session_id change s).tasks ≡ s.tasks)
      × ((with_handle session_id change s).emitted ≡ s.emitted)
unfolding with_handle
with_handle_frame session_id change s = ground arith

pub drop_token_frame :
    (status : SftpTaskStatus) (id session_id : Text) (s : SftpService)
    → ((drop_token status id session_id s).tasks ≡ s.tasks)
      × ((drop_token status id session_id s).emitted ≡ s.emitted)
unfolding drop_token
drop_token_frame status id session_id s = elim (Bool-cases (is_terminal status)) [
  | inl q ↦ rw q (with_handle_frame session_id _ s)
  | inr q ↦ rw q (refl, refl)
]

-- The tasks after a transition that is made.
abbrev pub moved_tasks :
    SftpTaskStatus
    → Option AppErrorInfo
    → Text
    → Text
    → TransferTask
    → List (Text × TransferTask)
    → List (Text × TransferTask)
moved_tasks status error id session_id task tasks =
    let changed = insert id (record task { status = status; error = error }) tasks in
    if is_terminal status then evict_old_terminal_tasks session_id changed else changed

-- What a transition did, if it was made.
pub record Moved (id session_id : Text) (status : SftpTaskStatus) (error : Option AppErrorInfo)
    (s t : SftpService) : Type 0 where
  pub task : TransferTask
  pub found : get id s.tasks ≡ some task
  pub legal : is_legal task.status status ≡ true
  pub tasks : t.tasks ≡ moved_tasks status error id session_id task s.tasks
  pub emitted : t.emitted ≡ s.emitted ++ event_of id session_id status error ∷ []
  pub handles : t.handles ≡ (drop_token status id session_id s).handles

drop_token_handles :
    (status : SftpTaskStatus) (id session_id : Text) (s t : SftpService)
    → t.handles ≡ s.handles
    → (drop_token status id session_id t).handles ≡ (drop_token status id session_id s).handles
unfolding drop_token with_handle
drop_token_handles status id session_id s t e = ground arith

-- A legal transition is made.
pub transition-made :
    (id session_id : Text) (status : SftpTaskStatus) (error : Option AppErrorInfo)
    (task : TransferTask) (s : SftpService)
    → get id s.tasks ≡ some task
    → is_legal task.status status ≡ true
    → Moved id session_id status error s (transition_task id session_id status error s).0
unfolding transition_task
transition-made id session_id status error task s q l =
    let t = commit_transition status error id session_id task s in
    let u = drop_token status id session_id t in
    let target = emit_status (event_of id session_id status error) u in
    let made : target ≡ (transition_task id session_id status error s).0 = ground arith in
    subst (Moved id session_id status error s) made (record {
      task = task;
      found = q;
      legal = l;
      tasks = emit_tasks u ∙ (drop_token_frame status id session_id t).0 ∙ commit_tasks;
      emitted =
          emit_emitted u
          ∙ ap (λ es. es ++ event_of id session_id status error ∷ [])
              ((drop_token_frame status id session_id t).1 ∙ commit_emitted);
      handles = emit_handles u ∙ drop_token_handles status id session_id s t commit_handles;
    })
  where
    commit_tasks :
        (commit_transition status error id session_id task s).tasks
        ≡ moved_tasks status error id session_id task s.tasks
    commit_tasks = unfold commit_transition in refl

    commit_emitted : (commit_transition status error id session_id task s).emitted ≡ s.emitted
    commit_emitted = unfold commit_transition in refl

    commit_handles : (commit_transition status error id session_id task s).handles ≡ s.handles
    commit_handles = unfold commit_transition in refl

    emit_tasks :
        (u : SftpService) → (emit_status (event_of id session_id status error) u).tasks ≡ u.tasks
    emit_tasks u = unfold emit_status in refl

    emit_emitted :
        (u : SftpService)
        → (emit_status (event_of id session_id status error) u).emitted
          ≡ u.emitted ++ event_of id session_id status error ∷ []
    emit_emitted u = unfold emit_status in refl

    emit_handles :
        (u : SftpService)
        → (emit_status (event_of id session_id status error) u).handles ≡ u.handles
    emit_handles u = unfold emit_status in refl

pub transition-cases :
    (id session_id : Text) (status : SftpTaskStatus) (error : Option AppErrorInfo) (s : SftpService)
    → ((transition_task id session_id status error s).0 ≡ s)
      ⊎ Moved id session_id status error s (transition_task id session_id status error s).0
unfolding transition_task
transition-cases id session_id status error s = elim (Option-cases (get id s.tasks)) [
  | inl q ↦ inl (ground arith)
  | inr (task, q) ↦ elim (Bool-cases (is_legal task.status status)) [
    | inr l ↦ inl (ground arith)
    | inl l ↦ inr (transition-made id session_id status error task s q l)
  ]
]
