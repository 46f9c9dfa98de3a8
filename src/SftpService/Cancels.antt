-- ===== src/SftpService/Cancels.antt =====
-- The loop of `cleanup_session` of core/sftp_service.rs, which cancels the unfinished tasks of a session.
use titan_ssh.Common.{
  ◌≡◌, refl, sym, ◌∙◌, subst, ◌⊎◌, inl, inr, true, false, List, [], ◌∷◌, ◌++◌, none, some, Text,
  text_eq, ◌==◌, get, insert, arith, beq_iff, get-insert,
}
use titan_ssh.SftpService.Models.{
  SftpTaskStatus, pending, running, done, failed, cancelled, TransferTask, is_terminal, is_legal,
}
use titan_ssh.SftpService.Kept.{IsSingle}
use titan_ssh.SftpService.Newest.{get-evict}
use titan_ssh.SftpService.Registry.{
  SftpService, CancelEntry, cancel, is_cancelled, transition_task, event_of, commit_transition,
  drop_token, with_handle, emit_status,
}
use titan_ssh.SftpService.Steps.{history, transition-cases}
use titan_ssh.SftpService.Owners.{
  Tasks, IsOwned, IsSound, Descends, Descends-IsOwned, Moved-IsSound, insert-IsSingle,
}
use titan_ssh.SftpService.Told.{history-append}
use titan_ssh.SftpService.Running.{to_end}

-- One turn of the loop.
abbrev pub turn : Text → Text → CancelEntry → SftpService → SftpService
turn session_id id entry s = (transition_task id session_id cancelled none (cancel entry.token s)).0

-- The task is as before, or it was a finished one of the session and is gone.
abbrev pub Remains : Text → Text → Tasks → Tasks → Type 0
Remains id session_id old new =
    (get id new ≡ get id old)
    ⊎ ((get id new ≡ none)
        × ((task : TransferTask) × (get id old ≡ some task)
            × (task.session_id ≡ session_id)
            × (is_terminal task.status ≡ true)))

-- Nothing is left to cancel.
abbrev pub IsOver : Text → SftpService → Type 0
IsOver id s = (task : TransferTask) → get id s.tasks ≡ some task → is_terminal task.status ≡ true

open_of_legal : (a : SftpTaskStatus) → is_legal a cancelled ≡ true → is_terminal a ≡ false
unfolding is_legal is_terminal
open_of_legal pending h = refl
open_of_legal running h = refl
open_of_legal done h = cc
open_of_legal failed h = cc
open_of_legal cancelled h = cc

legal_of_open : (a : SftpTaskStatus) → is_terminal a ≡ false → is_legal a cancelled ≡ true
unfolding is_legal is_terminal
legal_of_open pending h = refl
legal_of_open running h = refl
legal_of_open done h = cc
legal_of_open failed h = cc
legal_of_open cancelled h = cc

pub turn-IsSound :
    (session_id id : Text) (entry : CancelEntry) (rest : List (Text × CancelEntry))
    (s : SftpService)
    → IsOwned s.tasks session_id ((id, entry) ∷ rest)
    → IsSound s.tasks s.handles
    → let t = turn session_id id entry s in
      IsSound t.tasks t.handles × IsOwned t.tasks session_id rest × Descends s.tasks t.tasks
unfolding cancel
turn-IsSound session_id id entry rest s o h =
    elim (transition-cases id session_id cancelled none (cancel entry.token s)) [
      | inl e ↦
          subst
            (λ (t : SftpService).
              IsSound t.tasks t.handles
              × IsOwned t.tasks session_id rest
              × Descends s.tasks t.tasks)
            (sym e) (h, o.1, (λ k task g. (task, g, refl)))
      | inr v ↦
          (let t = turn session_id id entry s in
            let m = Moved-IsSound id session_id cancelled none (cancel entry.token s) t o.0 v h in
            (m.0, Descends-IsOwned s.tasks t.tasks session_id rest m.1 o.1, m.1))
    ]

-- A turn for another task.
pub turn-Remains :
    (session_id k id : Text) (entry : CancelEntry) (s : SftpService)
    → (k == id) ≡ false
    → IsSingle s.tasks
    → (history id (turn session_id k entry s).emitted ≡ history id s.emitted)
      × Remains id session_id s.tasks (turn session_id k entry s).tasks
unfolding cancel is_terminal
turn-Remains session_id k id entry s b single =
    elim (transition-cases k session_id cancelled none (cancel entry.token s)) [
      | inl e ↦
          subst
            (λ (t : SftpService).
              (history id t.emitted ≡ history id s.emitted) × Remains id session_id s.tasks t.tasks)
            (sym e) (refl, inl refl)
      | inr v ↦
          (let task = record v.task { status = cancelled; error = none } in
            let changed = insert k task s.tasks in
            let same : get id changed ≡ get id s.tasks =
              get-insert k id task s.tasks ∙ (rw b refl) in
            (
              rw v.emitted (
                  history-append id s.emitted (event_of k session_id cancelled none) ∙ (rw b refl)),
              rw v.tasks
                  (elim (get-evict session_id id changed (insert-IsSingle k task s.tasks single)) [
                    | inl q ↦ inl (q ∙ same)
                    | inr (q, (found, g, f)) ↦ inr (
                      q,
                      (
                        found,
                        sym same ∙ g,
                        (beq_iff found.session_id session_id).0 (ground arith),
                        ground arith,
                      ),
                    )
                  ]),
            ))
    ]

-- A turn for a task that has ended, or that is not registered.
pub turn-over :
    (session_id id : Text) (entry : CancelEntry) (s : SftpService)
    → IsOver id s
    → turn session_id id entry s ≡ cancel entry.token s
unfolding cancel
turn-over session_id id entry s over =
    elim (transition-cases id session_id cancelled none (cancel entry.token s)) [
      | inl e ↦ e
      | inr v ↦ (let a = over v.task v.found in let b = open_of_legal v.task.status v.legal in cc)
    ]

-- A turn for an unfinished task.
pub turn-told :
    (session_id id : Text) (entry : CancelEntry) (task : TransferTask) (s : SftpService)
    → IsSingle s.tasks
    → get id s.tasks ≡ some task
    → is_terminal task.status ≡ false
    → (history id (turn session_id id entry s).emitted ≡ history id s.emitted ++ cancelled ∷ [])
      × IsOver id (turn session_id id entry s)
unfolding cancel is_terminal
turn-told session_id id entry task s single g f =
    let (e, end) =
      to_end id session_id task.status cancelled none (cancel entry.token s) single (task, g, refl)
        (legal_of_open task.status f) refl in
    let b = (beq_iff id id).1 refl in
    (
      rw e (history-append id s.emitted (event_of id session_id cancelled none) ∙ (rw b refl)),
      λ found h. elim end [
        | inl n ↦ (let z : none ≡ some found = sym n ∙ h in cc)
        | inr (t, g', st, er) ↦
            (let z : some t ≡ some found = sym g' ∙ h in
              let y : t ≡ found = cc in
              subst (λ (x : TransferTask). is_terminal x.status ≡ true) y (rw st refl))
      ],
    )

transition-raised :
    (id session_id : Text) (s : SftpService)
    → (transition_task id session_id cancelled none s).0.raised ≡ s.raised
unfolding transition_task commit_transition drop_token with_handle emit_status
transition-raised id session_id s = ground arith

-- A flag that is raised stays raised.
pub turn-is_cancelled :
    (session_id id token : Text) (entry : CancelEntry) (s : SftpService)
    → is_cancelled token s ≡ true
    → is_cancelled token (turn session_id id entry s) ≡ true
unfolding is_cancelled cancel
turn-is_cancelled session_id id token entry s h =
    rw (transition-raised id session_id (cancel entry.token s)) (ground arith)

pub turn_raises :
    (session_id id : Text) (entry : CancelEntry) (s : SftpService)
    → is_cancelled entry.token (turn session_id id entry s) ≡ true
unfolding is_cancelled cancel
turn_raises session_id id entry s =
    rw (transition-raised id session_id (cancel entry.token s))
      (let b = (beq_iff entry.token entry.token).1 refl in rw b refl)
