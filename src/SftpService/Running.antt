-- ===== src/SftpService/Running.antt =====
-- core/sftp_service.rs: a task on its way through `Running` to its end.
use titan_ssh.Common.{
  ℕ, Bool, true, ◌≡◌, refl, ◌∙◌, ◌⊎◌, inl, inr, [], ◌∷◌, ◌++◌, Option, none, some, Text, text_eq,
  get, insert, beq_iff, get-insert,
}
use titan_ssh.Errors.{AppErrorInfo}
use titan_ssh.TransferPool.{TransferCheckout}
use titan_ssh.SftpService.Connection.{Transport}
use titan_ssh.SftpService.Models.{
  SftpTaskStatus, pending, running, TransferTask, is_terminal, is_legal,
}
use titan_ssh.SftpService.Kept.{IsSingle}
use titan_ssh.SftpService.Newest.{get-evict}
use titan_ssh.SftpService.Owners.{insert-IsSingle}
use titan_ssh.SftpService.Registry.{
  SftpService, transition_task, release_transfer_connection, event_of,
}
use titan_ssh.SftpService.Steps.{transition-made, with_handle_frame}

-- Registered with this status.
abbrev pub Has : Text → SftpTaskStatus → SftpService → Type 0
Has id status s = (task : TransferTask) × (get id s.tasks ≡ some task) × (task.status ≡ status)

-- Ended: no longer registered, or with this status and error.
abbrev pub HasEnded : Text → SftpTaskStatus → Option AppErrorInfo → SftpService → Type 0
HasEnded id status error s =
    (get id s.tasks ≡ none)
    ⊎ ((task : TransferTask) × (get id s.tasks ≡ some task)
        × (task.status ≡ status)
        × (task.error ≡ error))

pub release_frame :
    (session_id : Text) (checkout : TransferCheckout Transport) (healthy : Bool) (now : ℕ)
    (s : SftpService)
    → ((release_transfer_connection session_id checkout healthy now s).tasks ≡ s.tasks)
      × ((release_transfer_connection session_id checkout healthy now s).emitted ≡ s.emitted)
unfolding release_transfer_connection
release_frame session_id checkout healthy now s = with_handle_frame session_id _ s

pub to_running :
    (id session_id : Text) (s : SftpService)
    → IsSingle s.tasks
    → Has id pending s
    → let t = (transition_task id session_id running none s).0 in
      (t.emitted ≡ s.emitted ++ event_of id session_id running none ∷ [])
      × IsSingle t.tasks
      × Has id running t
unfolding is_legal is_terminal
to_running id session_id s single (task, g, p) =
    let m = transition-made id session_id running none task s g (rw p refl) in
    (
      m.emitted,
      rw m.tasks (insert-IsSingle id _ s.tasks single),
      (
        record m.task { status = running; error = none },
        rw m.tasks (get-insert id id _ s.tasks ∙ (let b = (beq_iff id id).1 refl in rw b refl)),
        refl,
      ),
    )

pub to_end :
    (id session_id : Text) (from status : SftpTaskStatus) (error : Option AppErrorInfo)
    (s : SftpService)
    → IsSingle s.tasks
    → Has id from s
    → is_legal from status ≡ true
    → is_terminal status ≡ true
    → let t = (transition_task id session_id status error s).0 in
      (t.emitted ≡ s.emitted ++ event_of id session_id status error ∷ [])
      × HasEnded id status error t
to_end id session_id from status error s single (task, g, p) l terminal =
    let m = transition-made id session_id status error task s g (rw p l) in
    let changed = insert id (record m.task { status = status; error = error }) s.tasks in
    let e : (transition_task id session_id status error s).0.tasks ≡ _ =
      m.tasks ∙ (rw terminal refl) in
    let b = (beq_iff id id).1 refl in
    let h : get id changed ≡ some (record m.task { status = status; error = error }) =
      get-insert id id (record m.task { status = status; error = error }) s.tasks ∙ (rw b refl) in
    (
      m.emitted,
      rw e (elim (get-evict session_id id changed (insert-IsSingle id _ s.tasks single)) [
        | inl q ↦ inr (record m.task { status = status; error = error }, q ∙ h, refl, refl)
        | inr (q, rest) ↦ inl q
      ]),
    )
