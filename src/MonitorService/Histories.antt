-- ===== src/MonitorService/Histories.antt =====
-- core/monitor_service.rs: the registry under any order of steps, and what the front end is told.
use titan_ssh.Common.{
  ℕ, ◌≤◌, ◌≡◌, refl, sym, ◌∙◌, ap, subst, ◌⊎◌, inl, inr, Bool, true, false, not, List, [], ◌∷◌,
  ◌++◌, Option, none, some, Text, codes, text_eq, ◌==◌, if◌then◌else◌, get, insert, remove, retain,
  entries, arith, beq_iff, Bool-cases, Option-cases, eq_cases, get-insert, get-remove_ne,
  get-remove_self, get-retain, entries-insert-le, entries-remove-le, entries-retain-le, option_rule,
  if_rule,
}
use titan_ssh.Errors.{Result, result_rule}
use titan_ssh.HostService.Hosts.{HostConfig}
use titan_ssh.MonitorService.{
  TaskStatus, pending, running, done, failed, TaskInfo, TaskStatusEvent, MonitorService, is_legal,
  read_credentials, is_of_session, new, emit_task_status, transition_task_status, start_monitoring,
  event_of, on_snapshot, stop_monitoring, stop_session, get_monitor_status,
}

-- The statuses that were sent for a task, oldest first.
unfoldable pub history : Text → List TaskStatusEvent → List TaskStatus
history id [] = []
history id (e ∷ es) = let rest = history id es in if e.task_id == id then e.status ∷ rest else rest

-- The one way to each status.
unfoldable pub path_to : TaskStatus → List TaskStatus
path_to pending = pending ∷ []
path_to running = pending ∷ running ∷ []
path_to done = pending ∷ running ∷ done ∷ []
path_to failed = pending ∷ running ∷ failed ∷ []

-- The service among its threads: commands, and the worker of each task, in any order.
pub data Step {M : Type 0} : MonitorService M → MonitorService M → Type 0 where
  starts :
      (s : MonitorService M) (get_credential : Text → Result Text) (session_id : Text)
      (host : HostConfig) (id : Text) (now : ℕ)
      → get id s.tasks ≡ none
      → history id s.emitted ≡ []
      → Step s (start_monitoring get_credential session_id host id now s).0
  transitions :
      (s : MonitorService M) (id : Text) (status : TaskStatus) (message : Option Text)
      → Step s (transition_task_status id status message s).0
  snapshots :
      (s : MonitorService M) (id session_id : Text) (snapshot : M) (push_error : Option Text)
      → Step s (on_snapshot id session_id snapshot push_error s)
  stops : (s : MonitorService M) (id : Text) → Step s (stop_monitoring id s)
  stops_session : (s : MonitorService M) (session_id : Text) → Step s (stop_session session_id s)

pub data Reach {M : Type 0} (s : MonitorService M) : MonitorService M → Type 0 where
  here : Reach s s
  next : {t u : MonitorService M} → Reach s t → Step t u → Reach s u

-- What the front end was told of a task: all that led to its status, if it is registered, and the
-- way to some status, or nothing, if it is not.
pub record IsTold (id : Text) (tasks : List (Text × TaskInfo)) (events : List TaskStatusEvent)
    : Type 0 where
  pub single : entries id tasks ≤ 1
  pub registered :
      (info : TaskInfo) → get id tasks ≡ some info → history id events ≡ path_to info.status
  pub gone :
      get id tasks ≡ none
      → (history id events ≡ []) ⊎ ((status : TaskStatus) × (history id events ≡ path_to status))

history-append :
    (id : Text) (es : List TaskStatusEvent) (e : TaskStatusEvent)
    → history id (es ++ e ∷ [])
      ≡ (if e.task_id == id then history id es ++ e.status ∷ [] else history id es)
unfolding history
history-append id [] e = elim (Bool-cases (e.task_id == id)) [
  | inl q ↦ rw q refl
  | inr q ↦ rw q refl
]
history-append id (x ∷ es) e = ground (arith, history-append id es e)

path_to_legal : (a b : TaskStatus) → is_legal a b ≡ true → path_to a ++ b ∷ [] ≡ path_to b
unfolding is_legal path_to
path_to_legal pending running h = refl
path_to_legal running done h = refl
path_to_legal running failed h = refl
path_to_legal pending pending h = cc
path_to_legal pending done h = cc
path_to_legal pending failed h = cc
path_to_legal running pending h = cc
path_to_legal running running h = cc
path_to_legal done b h = cc
path_to_legal failed b h = cc

-- Some tasks are taken out.
dropped-IsTold :
    (id : Text) (m tasks : List (Text × TaskInfo)) (events : List TaskStatusEvent)
    → IsTold id tasks events
    → entries id m ≤ 1
    → (get id m ≡ none) ⊎ (get id m ≡ get id tasks)
    → IsTold id m events
dropped-IsTold id m tasks events h s (inr q) = record {
  single = s;
  registered = λ v x. h.registered v (sym q ∙ x);
  gone = λ x. h.gone (sym q ∙ x);
}
dropped-IsTold id m tasks events h s (inl q) = record {
  single = s;
  registered = λ v x. (let y : none ≡ some v = sym q ∙ x in cc);
  gone = λ x. elim (Option-cases (get id tasks)) [
    | inl n ↦ h.gone n
    | inr (v, n) ↦ inr (v.status, h.registered v n)
  ];
}

module _ {M : Type 0} where
  -- A task gets a status, and the front end is told.
  insert-IsTold :
      (id k : Text) (info : TaskInfo) (message : Option Text) (s t : MonitorService M)
      → t.tasks ≡ insert k info s.tasks
      → t.emitted ≡ s.emitted
      → history k s.emitted ++ info.status ∷ [] ≡ path_to info.status
      → IsTold id s.tasks s.emitted
      → IsTold id
          (emit_task_status k info.status message t).tasks
          (emit_task_status k info.status message t).emitted
  unfolding emit_task_status
  insert-IsTold id k info message s t e f p h =
      let event : TaskStatusEvent = event_of k info.status message in
      let a = ap (λ es. history id (es ++ event ∷ [])) f ∙ history-append id s.emitted event in
      let g = ap (get id) e ∙ get-insert k id info s.tasks in
      elim (eq_cases k id) [
        | inl q ↦
            (let b = (beq_iff k id).1 q in
              let p' : history id s.emitted ++ info.status ∷ [] ≡ path_to info.status =
                subst (λ x. history x s.emitted ++ info.status ∷ [] ≡ path_to info.status) q p in
              let r : history id (t.emitted ++ event ∷ []) ≡ path_to info.status = a ∙ (rw b p') in
              let g' : get id t.tasks ≡ some info = g ∙ (rw b refl) in
              record {
                single =
                    subst (λ m. entries id m ≤ 1) (sym e)
                      (entries-insert-le k id info s.tasks h.single);
                registered = λ v x.
                    (let y : some info ≡ some v = sym g' ∙ x in
                      let z : info ≡ v = cc in r ∙ ap (λ (i : TaskInfo). path_to i.status) z);
                gone = λ x. (let y : some info ≡ none = sym g' ∙ x in cc);
              })
        | inr n ↦
            (let b : (k == id) ≡ false = elim (Bool-cases (k == id)) [
              | inl z ↦ absurd (n ((beq_iff k id).0 z))
              | inr z ↦ z
            ] in
              let r : history id (t.emitted ++ event ∷ []) ≡ history id s.emitted =
                a ∙ (rw b refl) in
              let g' : get id t.tasks ≡ get id s.tasks = g ∙ (rw b refl) in
              record {
                single =
                    subst (λ m. entries id m ≤ 1) (sym e)
                      (entries-insert-le k id info s.tasks h.single);
                registered = λ v x. r ∙ h.registered v (sym g' ∙ x);
                gone = λ x.
                    subst (λ y. (y ≡ []) ⊎ ((status : TaskStatus) × (y ≡ path_to status))) (sym r)
                      (h.gone (sym g' ∙ x));
              })
      ]

  transition-IsTold :
      (id k : Text) (status : TaskStatus) (message : Option Text) (s : MonitorService M)
      → ((j : Text) → IsTold j s.tasks s.emitted)
      → let t = (transition_task_status k status message s).0 in IsTold id t.tasks t.emitted
  unfolding transition_task_status
  transition-IsTold id k status message s h =
      let P : MonitorService M × Bool → Type 0 = λ r. IsTold id r.0.tasks r.0.emitted in
      option_rule P (get k s.tasks) (λ _. h id)
        (λ info g.
          if_rule P (is_legal info.status status)
            (λ l.
              let w : TaskInfo = record info { status = status } in
              let p : history k s.emitted ++ status ∷ [] ≡ path_to status =
                ap (λ l. l ++ status ∷ []) ((h k).registered info g)
                ∙ path_to_legal info.status status l in
              insert-IsTold id k w message s (record s { tasks = insert k w s.tasks }) refl refl p
                (h id))
            (λ _. h id))

  Step-IsTold :
      {s t : MonitorService M}
      → Step s t
      → ((j : Text) → IsTold j s.tasks s.emitted)
      → (id : Text) → IsTold id t.tasks t.emitted
  Step-IsTold (starts s get_credential session_id host k now fresh unused) h id =
      unfold start_monitoring in
      let info : TaskInfo = record {
        task_id = k;
        task_type = codes "monitor";
        session_id = some session_id;
        status = pending;
        created_at = now;
      } in
      let p : history k s.emitted ++ pending ∷ [] ≡ path_to pending =
        ap (λ l. l ++ pending ∷ []) unused ∙ (unfold path_to in refl) in
      result_rule (λ (r : MonitorService M × Result TaskInfo). IsTold id r.0.tasks r.0.emitted)
        (read_credentials get_credential host) (λ _ _. h id)
        (λ c _.
          insert-IsTold id k info none s
            (record s { tasks = insert k info s.tasks; shutdown = insert k false s.shutdown }) refl
            refl p (h id))
  Step-IsTold (transitions s k status message) h id = transition-IsTold id k status message s h
  Step-IsTold (snapshots s k session_id snapshot none) h id = unfold on_snapshot in h id
  Step-IsTold (snapshots s k session_id snapshot (some error)) h id =
      unfold on_snapshot in
      transition-IsTold id k failed (some (codes "监控快照推送失败: " ++ error))
        (record s { snapshots = insert session_id snapshot s.snapshots }) h
  Step-IsTold (stops s k) h id =
      unfold stop_monitoring in
      let o = (h id).single in
      let l = entries-remove-le k id s.tasks in
      option_rule (λ (t : MonitorService M). IsTold id t.tasks t.emitted) (get k s.tasks)
        (λ _. h id)
        (λ info _.
          dropped-IsTold id (remove k s.tasks) s.tasks s.emitted (h id) (omega arith)
            (elim (eq_cases k id) [
              | inl q ↦ inl (
                  subst (λ x. get x (remove k s.tasks) ≡ none) q
                    (get-remove_self k s.tasks (h k).single))
              | inr n ↦ inr (get-remove_ne k id s.tasks n)
            ]))
  Step-IsTold (stops_session s session_id) h id =
      unfold stop_session in
      let p : Text × TaskInfo → Bool = λ entry. not (is_of_session session_id entry) in
      let l = entries-retain-le id p s.tasks in
      let o = (h id).single in
      dropped-IsTold id (retain p s.tasks) s.tasks s.emitted (h id) (omega arith)
        (elim (get-retain id p s.tasks o) [ inl q ↦ inl q | inr (v, a, b, c) ↦ inr (b ∙ sym a) ])

  Reach-all_IsTold :
      {s t : MonitorService M}
      → Reach s t
      → ((j : Text) → IsTold j s.tasks s.emitted)
      → (id : Text) → IsTold id t.tasks t.emitted
  Reach-all_IsTold here h id = h id
  Reach-all_IsTold (next r e) h id = Step-IsTold e (Reach-all_IsTold r h) id

  -- In every state that the service can reach, in whatever order commands and workers act: the
  -- front end was told, for each registered task, exactly the statuses on the one way to its
  -- status, in order; and for one that is gone, those on the way to some status, or none. So no
  -- status is sent twice, skipped, or sent after a final one.
  pub Reach-IsTold :
      {t : MonitorService M} → Reach new t → (id : Text) → IsTold id t.tasks t.emitted
  unfolding new history
  Reach-IsTold r =
      Reach-all_IsTold r
        (λ j. record { single = omega arith; registered = λ v x. cc; gone = λ _. inl refl })

  -- Stopping a session takes out its snapshot; but a worker that was measuring at that moment
  -- still puts its own back when it pushes it.
  stop_session-on_snapshot :
      (s : MonitorService M) (session_id id : Text) (snapshot : M)
      → entries session_id s.snapshots ≤ 1
      → (get_monitor_status session_id (stop_session session_id s) ≡ none)
        × (get_monitor_status session_id
              (on_snapshot id session_id snapshot none (stop_session session_id s))
            ≡ some snapshot)
  unfolding stop_session on_snapshot get_monitor_status
  stop_session-on_snapshot s session_id id snapshot o =
      let b = (beq_iff session_id session_id).1 refl in
      let g = get-insert session_id session_id snapshot (remove session_id s.snapshots) in
      (get-remove_self session_id s.snapshots o, g ∙ (rw b refl))
