-- ===== src/SftpService/Sound.antt =====
-- core/sftp_service.rs: what holds of the registry after any calls, in any order.
use titan_ssh.Common.{
  ℕ, ◌≡◌, ◌≢◌, refl, sym, ap, subst, ◌⊎◌, inl, inr, Bool, not, List, [], ◌∷◌, Option, none, some,
  Text, text_eq, get, insert, remove, retain, All, arith, beq_iff, Option-cases, eq_cases,
  get-insert, insert-All, remove-All, retain-All, All-get, entries-insert-le, option_rule,
}
use titan_ssh.Errors.{Result, result_rule}
use titan_ssh.TransferPool as Pool
use titan_ssh.TransferPool.{TransferClock}
use titan_ssh.SftpService.Models.{pending, cancelled, TransferTask, is_terminal, upload}
use titan_ssh.SftpService.Evictions.{stamps}
use titan_ssh.SftpService.Registry.{
  SftpService, SftpHandle, CancelEntry, new, cancel, register_session_with_verifier, register_task,
  commit_download, enqueue_upload, cancel_task, transition_task, cleanup_session, cancel_active,
  clear_terminal_tasks, release_transfer_connection, with_handle, register_cancel_entry, is_active,
  is_of_session, new_task, find_entry, file_name_or, full_remote_path,
}
use titan_ssh.SftpService.Steps.{
  Step, opens, downloads, uploads, cancels, transitions, cleans, clears, releases, Reach, here,
  next, IsFresh, transition-cases, with_handle_frame,
}
use titan_ssh.SftpService.Owners.{
  Tasks, IsOwned, IsSound, Descends-IsOwned, Descends-owners, with_handle-owners, Moved-IsSound,
  retain-IsSingle, retain-Descends, stamps-insert-le, stamps-retain-le,
}

abbrev pub Owners : Tasks → List (Text × SftpHandle) → Type 0
Owners tasks handles = All (λ (e : Text × SftpHandle). IsOwned tasks e.0 e.1.cancel_tokens) handles

new-IsSound :
    (clock : TransferClock) (idle_timeout : ℕ)
    → IsSound (new clock idle_timeout).tasks (new clock idle_timeout).handles
unfolding new stamps
new-IsSound clock idle_timeout = record {
  single = λ k. omega arith;
  owned = tt;
  bounded = λ k. omega arith;
}

not_held :
    (id : Text) (tokens : List (Text × CancelEntry))
    → get id tokens ≡ none
    → All (λ (e : Text × CancelEntry). e.0 ≢ id) tokens
not_held id [] h = tt
not_held id ((k, v) ∷ tokens) h = elim (eq_cases k id) [
  | inl q ↦ (let z : some v ≡ none = ground (arith, beq_iff k id) in cc)
  | inr n ↦ (n, not_held id tokens (ground (arith, beq_iff k id)))
]

-- Other handles, whose entries are owned as well.
with-Owners :
    (tasks : Tasks) (before after : List (Text × SftpHandle))
    → IsSound tasks before
    → Owners tasks after
    → IsSound tasks after
with-Owners tasks before after h o = record { single = h.single; owned = o; bounded = h.bounded }

-- A new task belongs to nobody else.
fresh-Owners :
    (id : Text) (task : TransferTask) (tasks : Tasks) (handles : List (Text × SftpHandle))
    → All (λ (e : Text × SftpHandle). get id e.1.cancel_tokens ≡ none) handles
    → Owners tasks handles
    → Owners (insert id task tasks) handles
fresh-Owners id task tasks [] f a = tt
fresh-Owners id task tasks ((k, h) ∷ handles) f a = (
  each h.cancel_tokens (not_held id h.cancel_tokens f.0) a.0,
  fresh-Owners id task tasks handles f.1 a.1,
)
  where
    each :
        (tokens : List (Text × CancelEntry))
        → All (λ (e : Text × CancelEntry). e.0 ≢ id) tokens
        → IsOwned tasks k tokens
        → IsOwned (insert id task tasks) k tokens
    each [] n o = tt
    each (e ∷ tokens) n o = (
      (λ t g. o.0 t (ground (arith, get-insert id e.0 task tasks, beq_iff id e.0, n.0))),
      each tokens n.1 o.1,
    )

register-IsSound :
    (task : TransferTask) (s : SftpService)
    → IsFresh task.task_id s
    → task.status ≡ pending
    → IsSound s.tasks s.handles
    → IsSound (register_task task s).tasks (register_task task s).handles
unfolding register_task register_cancel_entry is_terminal
register-IsSound task s f p h =
    let tasks = insert task.task_id task s.tasks in
    let t = record s { tasks = tasks } in
    let change = λ (h : SftpHandle). (register_cancel_entry task.task_id h).0 in
    let e = with_handle_frame task.session_id change t in
    let keep =
      with_handle-owners tasks task.session_id change t
        (λ h o.
          insert-All _ task.task_id _ h.cancel_tokens
            (λ v g.
              (let z : some task ≡ some v = ground (
                arith,
                get-insert task.task_id task.task_id task s.tasks,
                beq_iff task.task_id task.task_id,
              ) in
                let y : task ≡ v = cc in ap (λ (x : TransferTask). x.session_id) (sym y)))
            o)
        (fresh-Owners task.task_id task s.tasks s.handles f.unheld h.owned) in
    record {
      single = rw e.0 (λ k. entries-insert-le task.task_id k task s.tasks (h.single k));
      owned = rw e.0 keep;
      bounded = rw e.0 (λ k.
          omega (arith, h.bounded k, stamps-insert-le k task.task_id task s.tasks (ground arith)));
    }

cancel_active-IsSound :
    (session_id : Text) (tokens : List (Text × CancelEntry)) (s : SftpService)
    → IsOwned s.tasks session_id tokens
    → IsSound s.tasks s.handles
    → IsSound (cancel_active session_id tokens s).tasks (cancel_active session_id tokens s).handles
unfolding cancel_active cancel
cancel_active-IsSound session_id [] s o h = h
cancel_active-IsSound session_id ((id, entry) ∷ rest) s o h =
    elim (transition-cases id session_id cancelled none (cancel entry.token s)) [
      | inl e ↦
          subst
            (λ (t : SftpService).
              IsSound (cancel_active session_id rest t).tasks
                (cancel_active session_id rest t).handles)
            (sym e) (cancel_active-IsSound session_id rest (cancel entry.token s) o.1 h)
      | inr v ↦
          (let t = (transition_task id session_id cancelled none (cancel entry.token s)).0 in
            let m = Moved-IsSound id session_id cancelled none (cancel entry.token s) t o.0 v h in
            cancel_active-IsSound session_id rest t
              (Descends-IsOwned s.tasks t.tasks session_id rest m.1 o.1) m.0)
    ]

retained-IsSound :
    (p : Text × TransferTask → Bool) (tasks : Tasks) (handles : List (Text × SftpHandle))
    → IsSound tasks handles
    → IsSound (retain p tasks) handles
retained-IsSound p tasks handles h = record {
  single = retain-IsSingle p tasks h.single;
  owned = Descends-owners tasks (retain p tasks) handles (retain-Descends p tasks h.single) h.owned;
  bounded = λ k. omega (arith, h.bounded k, stamps-retain-le k p tasks);
}

cleanup-IsSound :
    (session_id : Text) (s : SftpService)
    → IsSound s.tasks s.handles
    → IsSound (cleanup_session session_id s).0.tasks (cleanup_session session_id s).0.handles
unfolding cleanup_session
cleanup-IsSound session_id s h =
    option_rule (λ (r : SftpService × Option SftpHandle). IsSound r.0.tasks r.0.handles)
      (get session_id s.handles) (λ _. h)
      (λ g q.
        (let t = record s { handles = remove session_id s.handles } in
          let tokens = retain (is_active s.tasks) g.cancel_tokens in
          let u = cancel_active session_id tokens t in
          retained-IsSound (λ entry. not (is_of_session session_id entry)) u.tasks u.handles
            (cancel_active-IsSound session_id tokens t
              (retain-All _ (is_active s.tasks) g.cancel_tokens
                (All-get _ session_id g s.handles q h.owned))
              (with-Owners s.tasks s.handles (remove session_id s.handles) h
                (remove-All _ session_id s.handles h.owned)))))

-- A change of a handle that leaves its entries.
handled-IsSound :
    (session_id : Text) (change : SftpHandle → SftpHandle) (s : SftpService)
    → ((h : SftpHandle) → (change h).cancel_tokens ≡ h.cancel_tokens)
    → IsSound s.tasks s.handles
    → IsSound (with_handle session_id change s).tasks (with_handle session_id change s).handles
handled-IsSound session_id change s same h =
    let e = with_handle_frame session_id change s in
    rw e.0 (
      with-Owners s.tasks s.handles _ h
        (with_handle-owners s.tasks session_id change s (λ g o. rw (same g) o) h.owned))

-- An upload is refused, or its task is registered.
pub upload-cases :
    (exists : Text → Bool) (size : Text → ℕ) (id : Text) (now : ℕ)
    (session_id local_path remote_path : Text) (s : SftpService)
    → let name = file_name_or local_path in
      let task =
        new_task upload id session_id
          (full_remote_path remote_path name)
          local_path
          name
          (size local_path)
          now in
      ((enqueue_upload exists size id now session_id local_path remote_path s).0 ≡ s)
      ⊎ ((enqueue_upload exists size id now session_id local_path remote_path s).0
          ≡ register_task task s)
unfolding enqueue_upload
upload-cases exists size id now session_id local_path remote_path s = ground arith

-- A cancellation finds an entry, or it changes nothing.
pub cancel_task-cases :
    (id : Text) (s : SftpService)
    → ((cancel_task id s).0 ≡ s)
      ⊎ ((found : Text × CancelEntry) × ((cancel_task id s).0
            ≡ with_handle found.0
                (λ h. record h {
                  transfer_pool = Pool.cancel_waiter found.1.queue_seq h.transfer_pool;
                })
                (cancel found.1.token s)))
unfolding cancel_task
cancel_task-cases id s = elim (Option-cases (find_entry id s.handles)) [
  | inl q ↦ inl (ground arith)
  | inr (found, q) ↦ inr (found, ground arith)
]

pub Step-IsSound :
    {s t : SftpService} → Step s t → IsSound s.tasks s.handles → IsSound t.tasks t.handles
unfolding register_session_with_verifier commit_download new_task cancel clear_terminal_tasks
    release_transfer_connection
Step-IsSound (opens s session_id) h =
    with-Owners s.tasks s.handles _ h (insert-All _ session_id _ s.handles tt h.owned)
Step-IsSound (downloads s size id now session_id remote_path local_path f) h =
    result_rule (λ (r : SftpService × Result TransferTask). IsSound r.0.tasks r.0.handles) size
      (λ _ _. h) (λ total _. register-IsSound _ s f refl h)
Step-IsSound (uploads s exists size id now session_id local_path remote_path f) h =
    elim (upload-cases exists size id now session_id local_path remote_path s) [
      | inl e ↦ rw e h
      | inr e ↦ rw e (register-IsSound _ s f refl h)
    ]
Step-IsSound (cancels s id) h = elim (cancel_task-cases id s) [
  | inl e ↦ rw e h
  | inr (found, e) ↦ rw e (handled-IsSound found.0 _ (cancel found.1.token s) (λ _. refl) h)
]
Step-IsSound (transitions s id session_id status error own) h =
    elim (transition-cases id session_id status error s) [
      | inl e ↦ rw e h
      | inr v ↦ (Moved-IsSound id session_id status error s _ own v h).0
    ]
Step-IsSound (cleans s session_id) h = cleanup-IsSound session_id s h
Step-IsSound (clears s session_id) h = retained-IsSound _ s.tasks s.handles h
Step-IsSound (releases s session_id checkout healthy now) h =
    handled-IsSound session_id _ s (λ _. refl) h

Reach-IsSound :
    {s t : SftpService} → Reach s t → IsSound s.tasks s.handles → IsSound t.tasks t.handles
Reach-IsSound here h = h
Reach-IsSound (next r st) h = Step-IsSound st (Reach-IsSound r h)

-- In every state that the service can reach, whatever is called in whatever order: no id has two tasks, no session has more than one hundred finished tasks, and every cancel entry of a session that names a registered task names one of that session.
pub Reach-new-IsSound :
    (clock : TransferClock) (idle_timeout : ℕ) (s : SftpService)
    → Reach (new clock idle_timeout) s
    → IsSound s.tasks s.handles
Reach-new-IsSound clock idle_timeout s r = Reach-IsSound r (new-IsSound clock idle_timeout)
