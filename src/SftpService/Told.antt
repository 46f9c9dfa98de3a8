-- ===== src/SftpService/Told.antt =====
-- core/sftp_service.rs: the status events of a task as a path of its state machine, and what a change
-- of one task or the removal of some does to them.
use titan_ssh.Common.{
  ◌≡◌, refl, sym, ◌∙◌, subst, ◌⊎◌, inl, inr, Bool, true, false, List, [], ◌∷◌, ◌++◌, Option, none,
  some, Text, text_eq, ◌==◌, if◌then◌else◌, get, insert, retain, arith, beq_iff, Bool-cases,
  Option-cases, eq_cases, get-insert, get-retain,
}
use titan_ssh.Errors.{AppErrorInfo}
use titan_ssh.SftpService.Models.{
  SftpTaskStatus, pending, running, done, failed, cancelled, TransferTask, SftpTaskStatusEvent,
  is_terminal, is_legal,
}
use titan_ssh.SftpService.Evictions.{evict_old_terminal_tasks}
use titan_ssh.SftpService.Kept.{IsSingle}
use titan_ssh.SftpService.Newest.{get-evict}
use titan_ssh.SftpService.Registry.{SftpService, event_of}
use titan_ssh.SftpService.Steps.{Moved, history}
use titan_ssh.SftpService.Owners.{Tasks, insert-IsSingle}

-- The events that lead to a status. The front end knows of a new task by the answer of its command.
abbrev pub IsPath : SftpTaskStatus → List SftpTaskStatus → Type 0
IsPath pending h = h ≡ []
IsPath running h = h ≡ running ∷ []
IsPath done h = h ≡ running ∷ done ∷ []
IsPath failed h = h ≡ running ∷ failed ∷ []
IsPath cancelled h = (h ≡ cancelled ∷ []) ⊎ (h ≡ running ∷ cancelled ∷ [])

pub record IsTold (id : Text) (tasks : Tasks) (events : List SftpTaskStatusEvent) : Type 0 where
  pub registered :
      (task : TransferTask) → get id tasks ≡ some task → IsPath task.status (history id events)
  pub gone : get id tasks ≡ none → (status : SftpTaskStatus) × IsPath status (history id events)

IsPath-append :
    (a b : SftpTaskStatus) (h : List SftpTaskStatus)
    → is_legal a b ≡ true
    → IsPath a h
    → IsPath b (h ++ b ∷ [])
unfolding is_legal
IsPath-append pending running h l p = rw p refl
IsPath-append pending cancelled h l p = inl (rw p refl)
IsPath-append running done h l p = rw p refl
IsPath-append running failed h l p = rw p refl
IsPath-append running cancelled h l p = inr (rw p refl)
IsPath-append pending pending h l p = cc
IsPath-append pending done h l p = cc
IsPath-append pending failed h l p = cc
IsPath-append running pending h l p = cc
IsPath-append running running h l p = cc
IsPath-append done b h l p = cc
IsPath-append failed b h l p = cc
IsPath-append cancelled b h l p = cc

pub history-append :
    (id : Text) (es : List SftpTaskStatusEvent) (e : SftpTaskStatusEvent)
    → history id (es ++ e ∷ [])
      ≡ (if e.task_id == id then history id es ++ e.status ∷ [] else history id es)
unfolding history
history-append id [] e = ground arith
history-append id (x ∷ es) e = ground (arith, history-append id es e)

-- Some tasks are taken out.
dropped-IsTold :
    (id : Text) (m tasks : Tasks) (events : List SftpTaskStatusEvent)
    → IsTold id tasks events
    → (get id m ≡ none) ⊎ (get id m ≡ get id tasks)
    → IsTold id m events
dropped-IsTold id m tasks events h (inr q) = record {
  registered = λ task g. h.registered task (sym q ∙ g);
  gone = λ n. h.gone (sym q ∙ n);
}
dropped-IsTold id m tasks events h (inl q) = record {
  registered = λ task g. (let z : none ≡ some task = sym q ∙ g in cc);
  gone = λ n. elim (Option-cases (get id tasks)) [
    | inl x ↦ h.gone x
    | inr (task, x) ↦ (task.status, h.registered task x)
  ];
}

pub retained-IsTold :
    (id : Text) (p : Text × TransferTask → Bool) (tasks : Tasks) (events : List SftpTaskStatusEvent)
    → IsSingle tasks
    → IsTold id tasks events
    → IsTold id (retain p tasks) events
retained-IsTold id p tasks events s h =
    dropped-IsTold id (retain p tasks) tasks events h
      (elim (get-retain id p tasks (s id)) [ inl q ↦ inl q | inr (v, a, b, c) ↦ inr (b ∙ sym a) ])

evicted-IsTold :
    (id session_id : Text) (tasks : Tasks) (events : List SftpTaskStatusEvent)
    → IsSingle tasks
    → IsTold id tasks events
    → IsTold id (evict_old_terminal_tasks session_id tasks) events
evicted-IsTold id session_id tasks events s h =
    dropped-IsTold id _ tasks events h
      (elim (get-evict session_id id tasks s) [ inl q ↦ inr q | inr (q, rest) ↦ inl q ])

-- The status of a task changes, and the front end is told.
changed-IsTold :
    (id k session_id : Text) (old : TransferTask) (status : SftpTaskStatus)
    (error : Option AppErrorInfo) (tasks : Tasks) (events : List SftpTaskStatusEvent)
    → get k tasks ≡ some old
    → is_legal old.status status ≡ true
    → IsTold id tasks events
    → IsTold id
        (insert k (record old { status = status; error = error }) tasks)
        (events ++ event_of k session_id status error ∷ [])
changed-IsTold id k session_id old status error tasks events f l h =
    let task = record old { status = status; error = error } in
    let a = history-append id events (event_of k session_id status error) in
    let g = get-insert k id task tasks in
    elim (eq_cases k id) [
      | inl q ↦
          (let b = (beq_iff k id).1 q in
            let f' : get id tasks ≡ some old = subst (λ j. get j tasks ≡ some old) q f in
            let p : IsPath status (history id events ++ status ∷ []) =
              IsPath-append old.status status (history id events) l (h.registered old f') in
            let a' : history id (events ++ event_of k session_id status error ∷ [])
                ≡ history id events ++ status ∷ [] =
              a ∙ (rw b refl) in
            let g' : get id (insert k task tasks) ≡ some task = g ∙ (rw b refl) in
            record {
              registered = λ v x.
                  (let y : some task ≡ some v = sym g' ∙ x in
                    let z : task ≡ v = cc in
                    subst
                      (λ (t : TransferTask).
                        IsPath t.status
                          (history id (events ++ event_of k session_id status error ∷ [])))
                      z (subst (λ e. IsPath status e) (sym a') p));
              gone = λ n. (let y : some task ≡ none = sym g' ∙ n in cc);
            })
      | inr n ↦
          (let b : (k == id) ≡ false = elim (Bool-cases (k == id)) [
            | inl z ↦ absurd (n ((beq_iff k id).0 z))
            | inr z ↦ z
          ] in
            let a' : history id (events ++ event_of k session_id status error ∷ [])
                ≡ history id events =
              a ∙ (rw b refl) in
            let g' : get id (insert k task tasks) ≡ get id tasks = g ∙ (rw b refl) in
            record {
              registered =
                  λ v x. subst (λ e. IsPath v.status e) (sym a') (h.registered v (sym g' ∙ x));
              gone = λ x.
                  (let w = h.gone (sym g' ∙ x) in (w.0, subst (λ e. IsPath w.0 e) (sym a') w.1));
            })
    ]

pub Moved-IsTold :
    (id k session_id : Text) (status : SftpTaskStatus) (error : Option AppErrorInfo)
    (s t : SftpService)
    → Moved k session_id status error s t
    → IsSingle s.tasks
    → IsTold id s.tasks s.emitted
    → IsTold id t.tasks t.emitted
Moved-IsTold id k session_id status error s t v single h =
    let c =
      changed-IsTold id k session_id v.task status error s.tasks s.emitted v.found v.legal h in
    let ct : IsTold id (insert k (record v.task { status = status; error = error }) s.tasks)
        t.emitted =
      subst
        (λ es. IsTold id (insert k (record v.task { status = status; error = error }) s.tasks) es)
        (sym v.emitted) c in
    subst (λ m. IsTold id m t.emitted) (sym v.tasks)
      (elim (Bool-cases (is_terminal status)) [
        | inl q ↦
            rw q (evicted-IsTold id session_id _ t.emitted (insert-IsSingle k _ s.tasks single) ct)
        | inr q ↦ rw q ct
      ])
