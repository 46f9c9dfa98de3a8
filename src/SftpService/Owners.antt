-- ===== src/SftpService/Owners.antt =====
-- core/sftp_service.rs: the cancel entries of a session belong to its tasks, and a session never
-- has more finished tasks than are kept.
use titan_ssh.Common.{
  ◌≤◌, ◌≡◌, refl, sym, ◌∙◌, ap, subst, inl, inr, Bool, false, not, List, [], ◌∷◌, Option, none,
  some, Text, text_eq, length, get, insert, remove, retain, All, arith, beq_iff, Bool-cases,
  eq_cases, get-insert, get-retain, entries-insert-le, entries-retain-le, insert-All, remove-All,
  All-get, All-widen, length-retain-le, option_rule,
}
use titan_ssh.Errors.{AppErrorInfo}
use titan_ssh.SftpService.Models.{SftpTaskStatus, TransferTask, is_terminal}
use titan_ssh.SftpService.Evictions.{
  max_terminal_tasks_per_session, Stamp, is_finished_of, stamps, remove_all,
  evict_old_terminal_tasks,
}
use titan_ssh.SftpService.Kept.{
  IsSingle, length-evict, evict_rule, stamps-remove_all, is_among, remove-IsSingle,
}
use titan_ssh.SftpService.Newest.{get-evict}
use titan_ssh.SftpService.Registry.{SftpService, SftpHandle, CancelEntry, with_handle, drop_token}
use titan_ssh.SftpService.Steps.{Moved}

abbrev pub Tasks : Type 0
Tasks = List (Text × TransferTask)

abbrev pub IsOwned : Tasks → Text → List (Text × CancelEntry) → Type 0
IsOwned tasks session_id tokens =
    All
      (λ (e : Text × CancelEntry).
        (task : TransferTask) → get e.0 tasks ≡ some task → task.session_id ≡ session_id)
      tokens

pub record IsSound (tasks : Tasks) (handles : List (Text × SftpHandle)) : Type 0 where
  pub single : IsSingle tasks
  pub owned : All (λ (e : Text × SftpHandle). IsOwned tasks e.0 e.1.cancel_tokens) handles
  pub bounded :
      (session_id : Text) → length (stamps session_id tasks) ≤ max_terminal_tasks_per_session

-- Every task was there before, in the same session.
abbrev pub Descends : Tasks → Tasks → Type 0
Descends old new =
    (id : Text) (task : TransferTask)
    → get id new ≡ some task
    → (before : TransferTask) × (get id old ≡ some before) × (before.session_id ≡ task.session_id)

pub Descends-IsOwned :
    (old new : Tasks) (session_id : Text) (tokens : List (Text × CancelEntry))
    → Descends old new
    → IsOwned old session_id tokens
    → IsOwned new session_id tokens
Descends-IsOwned old new session_id tokens d =
    All-widen _ _ tokens (λ k v p task g. (let (b, f, e) = d k task g in sym e ∙ p b f))

pub Descends-owners :
    (old new : Tasks) (handles : List (Text × SftpHandle))
    → Descends old new
    → All (λ (e : Text × SftpHandle). IsOwned old e.0 e.1.cancel_tokens) handles
    → All (λ (e : Text × SftpHandle). IsOwned new e.0 e.1.cancel_tokens) handles
Descends-owners old new handles d =
    All-widen _ _ handles (λ k h p. Descends-IsOwned old new k h.cancel_tokens d p)

-- A change of a handle that keeps its tokens owned.
pub with_handle-owners :
    (tasks : Tasks) (session_id : Text) (change : SftpHandle → SftpHandle) (s : SftpService)
    → ((h : SftpHandle)
        → IsOwned tasks session_id h.cancel_tokens
        → IsOwned tasks session_id (change h).cancel_tokens)
    → All (λ (e : Text × SftpHandle). IsOwned tasks e.0 e.1.cancel_tokens) s.handles
    → All
        (λ (e : Text × SftpHandle). IsOwned tasks e.0 e.1.cancel_tokens)
        (with_handle session_id change s).handles
unfolding with_handle
with_handle-owners tasks session_id change s keep a =
    option_rule
      (λ (t : SftpService).
        All (λ (e : Text × SftpHandle). IsOwned tasks e.0 e.1.cancel_tokens) t.handles)
      (get session_id s.handles) (λ _. a)
      (λ h q.
        insert-All _ session_id (change h) s.handles (keep h (All-get _ session_id h s.handles q a))
          a)

drop_token-owners :
    (tasks : Tasks) (status : SftpTaskStatus) (id session_id : Text) (s : SftpService)
    → All (λ (e : Text × SftpHandle). IsOwned tasks e.0 e.1.cancel_tokens) s.handles
    → All
        (λ (e : Text × SftpHandle). IsOwned tasks e.0 e.1.cancel_tokens)
        (drop_token status id session_id s).handles
unfolding drop_token
drop_token-owners tasks status id session_id s a = elim (Bool-cases (is_terminal status)) [
  | inl q ↦
      rw q (with_handle-owners tasks session_id _ s (λ h p. remove-All _ id h.cancel_tokens p) a)
  | inr q ↦ rw q a
]

pub insert-IsSingle :
    (k : Text) (t : TransferTask) (m : Tasks) → IsSingle m → IsSingle (insert k t m)
insert-IsSingle k t m h j = entries-insert-le k j t m (h j)

remove_all-IsSingle : (xs : List Stamp) (m : Tasks) → IsSingle m → IsSingle (remove_all xs m)
unfolding remove_all
remove_all-IsSingle [] m h = h
remove_all-IsSingle (x ∷ xs) m h = remove_all-IsSingle xs (remove x.1 m) (remove-IsSingle x.1 m h)

pub evict-IsSingle :
    (session_id : Text) (m : Tasks) → IsSingle m → IsSingle (evict_old_terminal_tasks session_id m)
evict-IsSingle session_id m h =
    evict_rule (λ (t : Tasks). IsSingle t) session_id m h (λ xs. remove_all-IsSingle xs m h)

pub retain-IsSingle :
    (p : Text × TransferTask → Bool) (m : Tasks) → IsSingle m → IsSingle (retain p m)
retain-IsSingle p m h k = omega (arith, entries-retain-le k p m, h k)

evict-Descends :
    (session_id : Text) (m : Tasks)
    → IsSingle m
    → Descends m (evict_old_terminal_tasks session_id m)
evict-Descends session_id m h id task g = elim (get-evict session_id id m h) [
  | inl e ↦ (task, sym e ∙ g, refl)
  | inr (n, rest) ↦ (let z : none ≡ some task = sym n ∙ g in cc)
]

pub retain-Descends :
    (p : Text × TransferTask → Bool) (m : Tasks) → IsSingle m → Descends m (retain p m)
retain-Descends p m h id task g = elim (get-retain id p m (h id)) [
  | inl n ↦ (let z : none ≡ some task = sym n ∙ g in cc)
  | inr (v, a, b, c) ↦ (let z : some v ≡ some task = sym b ∙ g in (task, a ∙ z, refl))
]

insert-Descends :
    (id : Text) (old new : TransferTask) (m : Tasks)
    → get id m ≡ some old
    → old.session_id ≡ new.session_id
    → Descends m (insert id new m)
insert-Descends id old new m f e j task g = elim (eq_cases id j) [
  | inl q ↦
      (let z : some new ≡ some task = ground (arith, get-insert id j new m, beq_iff id j) in
        let w : new ≡ task = cc in
        (old, subst (λ k. get k m ≡ some old) q f, e ∙ ap (λ (t : TransferTask). t.session_id) w))
  | inr n ↦ (task, ground (arith, get-insert id j new m, beq_iff id j), refl)
]

-- How an operation on the map changes the number of finished tasks.
pub stamps-insert-le :
    (session_id k : Text) (t : TransferTask) (m : Tasks)
    → is_finished_of session_id (k, t) ≡ false
    → length (stamps session_id (insert k t m)) ≤ length (stamps session_id m)
unfolding stamps
stamps-insert-le session_id k t [] h = ground arith
stamps-insert-le session_id k t ((i, w) ∷ m) h = ground (arith, stamps-insert-le session_id k t m h)

pub stamps-retain-le :
    (session_id : Text) (p : Text × TransferTask → Bool) (m : Tasks)
    → length (stamps session_id (retain p m)) ≤ length (stamps session_id m)
unfolding stamps
stamps-retain-le session_id p [] = omega arith
stamps-retain-le session_id p ((i, w) ∷ m) = ground (arith, stamps-retain-le session_id p m)

stamps-evict-le :
    (other session_id : Text) (m : Tasks)
    → IsSingle m
    → length (stamps other (evict_old_terminal_tasks session_id m)) ≤ length (stamps other m)
stamps-evict-le other session_id m h =
    evict_rule (λ (t : Tasks). length (stamps other t) ≤ length (stamps other m)) session_id m
      (omega arith)
      (λ xs.
        rw (stamps-remove_all other xs m h)
          (length-retain-le (λ x. not (is_among xs x)) (stamps other m)))

-- A transition keeps the registry sound, if its session is the task's.
pub Moved-IsSound :
    (id session_id : Text) (status : SftpTaskStatus) (error : Option AppErrorInfo)
    (s t : SftpService)
    → ((task : TransferTask) → get id s.tasks ≡ some task → task.session_id ≡ session_id)
    → Moved id session_id status error s t
    → IsSound s.tasks s.handles
    → IsSound t.tasks t.handles × Descends s.tasks t.tasks
Moved-IsSound id session_id status error s t own v h =
    let changed = insert id (record v.task { status = status; error = error }) s.tasks in
    let single =
      insert-IsSingle id (record v.task { status = status; error = error }) s.tasks h.single in
    let moves =
      insert-Descends id v.task (record v.task { status = status; error = error }) s.tasks v.found
        refl in
    let same : v.task.session_id ≡ session_id = own v.task v.found in
    elim (Bool-cases (is_terminal status)) [
      | inr q ↦
          (let e : t.tasks ≡ changed = v.tasks ∙ (rw q refl) in
            let d : Descends s.tasks t.tasks = rw e moves in
            (
              record {
                single = rw e single;
                owned = rw v.handles (
                    drop_token-owners t.tasks status id session_id s
                      (Descends-owners _ _ _ d h.owned));
                bounded = λ k. rw e (
                    omega (
                      arith,
                      h.bounded k,
                      stamps-insert-le k id (record v.task { status = status; error = error })
                          s.tasks (ground arith),
                    ));
              },
              d,
            ))
      | inl q ↦
          (let e : t.tasks ≡ evict_old_terminal_tasks session_id changed = v.tasks ∙ (rw q refl) in
            let d : Descends s.tasks t.tasks = rw e (λ j task g.
              (let (b, f, x) = evict-Descends session_id changed single j task g in
                let (c, k, y) = moves j b f in (c, k, y ∙ x))) in
            (
              record {
                single = rw e (evict-IsSingle session_id changed single);
                owned = rw v.handles (
                    drop_token-owners t.tasks status id session_id s
                      (Descends-owners _ _ _ d h.owned));
                bounded = λ k. rw e (elim (eq_cases k session_id) [
                  | inl x ↦ (let z = length-evict session_id changed single in rw x (ground arith))
                  | inr n ↦ omega (
                    arith,
                    h.bounded k,
                    stamps-evict-le k session_id changed single,
                    stamps-insert-le k id (record v.task { status = status; error = error }) s.tasks
                        (ground (arith, beq_iff session_id k)),
                  )
                ]);
              },
              d,
            ))
    ]
