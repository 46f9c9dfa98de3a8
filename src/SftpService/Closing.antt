-- ===== src/SftpService/Closing.antt =====
-- `cleanup_session` of core/sftp_service.rs: what becomes of each task when a session is closed.
use titan_ssh.Common.{
  ◌≡◌, ◌≢◌, refl, sym, ◌∙◌, ap, subst, ◌⊎◌, inl, inr, Bool, true, false, not, List, [], ◌∷◌, ◌++◌,
  Option, none, some, Text, text_eq, ◌==◌, get, remove, retain, arith, beq_iff, eq_cases,
  Bool-cases, Option-cases, retain-All, remove-All, All-get, get-retain,
}
use titan_ssh.SftpService.Models.{cancelled, TransferTask, is_terminal}
use titan_ssh.SftpService.Kept.{IsSingle}
use titan_ssh.SftpService.Registry.{
  SftpService, SftpHandle, CancelEntry, is_cancelled, cancel, cancel_active, cleanup_session,
  is_active, is_of_session,
}
use titan_ssh.SftpService.Steps.{history}
use titan_ssh.SftpService.Owners.{Tasks, IsOwned, IsSound, Descends}
use titan_ssh.SftpService.Cancels.{
  turn, IsOver, turn-IsSound, turn-Remains, turn-over, turn-told, turn-is_cancelled, turn_raises,
}

-- A task without an entry, or one that has ended, is told nothing.
cancel_active-quiet :
    (session_id id : Text) (tokens : List (Text × CancelEntry)) (s : SftpService)
    → IsOwned s.tasks session_id tokens
    → IsSound s.tasks s.handles
    → (get id tokens ≡ none) ⊎ IsOver id s
    → history id (cancel_active session_id tokens s).emitted ≡ history id s.emitted
unfolding cancel_active cancel
cancel_active-quiet session_id id [] s o i h = refl
cancel_active-quiet session_id id ((k, entry) ∷ rest) s o i h =
    let (i', o', _) = turn-IsSound session_id k entry rest s o i in
    elim (Bool-cases (k == id)) [
      | inr b ↦
          (let (e, r) = turn-Remains session_id k id entry s b i.single in
            cancel_active-quiet session_id id rest (turn session_id k entry s) o' i' (elim h [
              | inl n ↦ inl (ground arith)
              | inr over ↦ inr (λ task g. elim r [
                | inl q ↦ over task (sym q ∙ g)
                | inr (q, gone) ↦ (let z : none ≡ some task = sym q ∙ g in cc)
              ])
            ])
            ∙ e)
      | inl b ↦ elim h [
        | inl n ↦ (let z : some entry ≡ none = sym (rw b refl) ∙ n in cc)
        | inr over ↦
            (let e =
                turn-over session_id k entry s
                  (subst (λ j. IsOver j s) (sym ((beq_iff k id).0 b)) over) in
              subst
                (λ (t : SftpService).
                  history id (cancel_active session_id rest t).emitted ≡ history id s.emitted)
                (sym e)
                (cancel_active-quiet session_id id rest (cancel entry.token s) o.1 i (inr over)))
      ]
    ]

-- A flag that is raised stays raised.
cancel_active-is_cancelled :
    (session_id token : Text) (tokens : List (Text × CancelEntry)) (s : SftpService)
    → is_cancelled token s ≡ true
    → is_cancelled token (cancel_active session_id tokens s) ≡ true
unfolding cancel_active
cancel_active-is_cancelled session_id token [] s h = h
cancel_active-is_cancelled session_id token ((k, entry) ∷ rest) s h =
    cancel_active-is_cancelled session_id token rest (turn session_id k entry s)
      (turn-is_cancelled session_id k token entry s h)

-- A task of another session stays as it is.
cancel_active-others :
    (session_id id : Text) (tokens : List (Text × CancelEntry)) (task : TransferTask)
    (s : SftpService)
    → IsOwned s.tasks session_id tokens
    → IsSound s.tasks s.handles
    → get id s.tasks ≡ some task
    → task.session_id ≢ session_id
    → (get id (cancel_active session_id tokens s).tasks ≡ some task)
      × (history id (cancel_active session_id tokens s).emitted ≡ history id s.emitted)
unfolding cancel_active
cancel_active-others session_id id [] task s o i g n = (g, refl)
cancel_active-others session_id id ((k, entry) ∷ rest) task s o i g n =
    let (i', o', _) = turn-IsSound session_id k entry rest s o i in
    elim (Bool-cases (k == id)) [
      | inl b ↦
          absurd
            (n (o.0 task (subst (λ j. get j s.tasks ≡ some task) (sym ((beq_iff k id).0 b)) g)))
      | inr b ↦
          (let (e, r) = turn-Remains session_id k id entry s b i.single in
            elim r [
              | inl q ↦
                  (let (a, c) =
                      cancel_active-others session_id id rest task (turn session_id k entry s) o' i'
                        (q ∙ g) n in
                    (a, c ∙ e))
              | inr (q, (found, g', same, f)) ↦
                  (let z : some found ≡ some task = sym g' ∙ g in
                    let y : found ≡ task = cc in
                    absurd (n (sym (ap (λ (t : TransferTask). t.session_id) y) ∙ same)))
            ])
    ]

-- An unfinished task with an entry is told, and its flag is raised.
cancel_active-told :
    (session_id id : Text) (tokens : List (Text × CancelEntry)) (entry : CancelEntry)
    (task : TransferTask) (s : SftpService)
    → IsOwned s.tasks session_id tokens
    → IsSound s.tasks s.handles
    → get id s.tasks ≡ some task
    → is_terminal task.status ≡ false
    → get id tokens ≡ some entry
    → (history id (cancel_active session_id tokens s).emitted
        ≡ history id s.emitted ++ cancelled ∷ [])
      × (is_cancelled entry.token (cancel_active session_id tokens s) ≡ true)
unfolding cancel_active
cancel_active-told session_id id [] entry task s o i g f h = cc
cancel_active-told session_id id ((k, e) ∷ rest) entry task s o i g f h =
    let (i', o', _) = turn-IsSound session_id k e rest s o i in
    let t = turn session_id k e s in
    elim (Bool-cases (k == id)) [
      | inr b ↦
          (let (p, r) = turn-Remains session_id k id e s b i.single in
            elim r [
              | inl q ↦
                  (let (a, c) =
                      cancel_active-told session_id id rest entry task t o' i' (q ∙ g) f
                        (ground arith) in
                    (a ∙ ap (λ l. l ++ cancelled ∷ []) p, c))
              | inr (q, (found, g', same, ended)) ↦
                  (let z : some found ≡ some task = sym g' ∙ g in let y : found ≡ task = cc in cc)
            ])
      | inl b ↦
          (let same = (beq_iff k id).0 b in
            let x : e ≡ entry = ground arith in
            let (p, over) =
              turn-told session_id k e task s i.single
                (subst (λ j. get j s.tasks ≡ some task) (sym same) g) f in
            (
              cancel_active-quiet session_id id rest t o' i'
                    (inr (subst (λ j. IsOver j t) same over))
                  ∙ subst (λ j. history j t.emitted ≡ history j s.emitted ++ cancelled ∷ []) same p,
              cancel_active-is_cancelled session_id entry.token rest t (
                  subst (λ (c : CancelEntry). is_cancelled c.token t ≡ true) x
                    (turn_raises session_id k e s)),
            ))
    ]

-- What is registered after the loop was registered before.
cancel_active-Descends :
    (session_id : Text) (tokens : List (Text × CancelEntry)) (s : SftpService)
    → IsOwned s.tasks session_id tokens
    → IsSound s.tasks s.handles
    → IsSingle (cancel_active session_id tokens s).tasks
      × Descends s.tasks (cancel_active session_id tokens s).tasks
unfolding cancel_active
cancel_active-Descends session_id [] s o i = (i.single, (λ id task g. (task, g, refl)))
cancel_active-Descends session_id ((k, entry) ∷ rest) s o i =
    let (i', o', d) = turn-IsSound session_id k entry rest s o i in
    let (single, d') = cancel_active-Descends session_id rest (turn session_id k entry s) o' i' in
    (
      single,
      λ id task g.
          (let (middle, g', same) = d' id task g in
            let (before, b, same') = d id middle g' in (before, b, same' ∙ same)),
    )

get-retain_kept {ℓ} :
    {V : Type ℓ} (k : Text) (v : V) (p : Text × V → Bool) (m : List (Text × V))
    → get k m ≡ some v
    → p (k, v) ≡ true
    → get k (retain p m) ≡ some v
get-retain_kept k v p [] g h = cc
get-retain_kept k v p ((j, w) ∷ m) g h = elim (Bool-cases (j == k)) [
  | inr b ↦ (let i = get-retain_kept k v p m (ground arith) h in ground arith)
  | inl b ↦
      (let x : w ≡ v = ground arith in
        let y : p (j, w) ≡ true =
          subst (λ z. p (z, w) ≡ true) (sym ((beq_iff j k).0 b))
            (subst (λ z. p (k, z) ≡ true) (sym x) h) in
        rw y (rw b (ap (λ z. some z) x)))
]

get-retain-none {ℓ} :
    {V : Type ℓ} (k : Text) (p : Text × V → Bool) (m : List (Text × V))
    → get k m ≡ none
    → get k (retain p m) ≡ none
get-retain-none k p [] g = refl
get-retain-none k p ((j, w) ∷ m) g = ground (arith, get-retain-none k p m)

-- What becomes of a task of the service, `h` being the handle of the closed session.
abbrev pub Closed : Text → Text → SftpHandle → TransferTask → SftpService → SftpService → Type 0
Closed session_id id h task s t =
    ((task.session_id ≢ session_id)
      × (get id t.tasks ≡ some task)
      × (history id t.emitted ≡ history id s.emitted))
    ⊎ ((task.session_id ≡ session_id)
        × (get id t.tasks ≡ none)
        × ((((is_terminal task.status ≡ true) ⊎ (get id h.cancel_tokens ≡ none))
              × (history id t.emitted ≡ history id s.emitted))
            ⊎ ((is_terminal task.status ≡ false)
                × ((entry : CancelEntry) × (get id h.cancel_tokens ≡ some entry)
                    × (history id t.emitted ≡ history id s.emitted ++ cancelled ∷ [])
                    × (is_cancelled entry.token t ≡ true)))))

cleanup_session-closed :
    (session_id : Text) (h : SftpHandle) (s : SftpService)
    → get session_id s.handles ≡ some h
    → (cleanup_session session_id s).0 ≡ (
        let t = record s { handles = remove session_id s.handles } in
        let u = cancel_active session_id (retain (is_active s.tasks) h.cancel_tokens) t in
        record u { tasks = retain (λ entry. not (is_of_session session_id entry)) u.tasks })
unfolding cleanup_session
cleanup_session-closed session_id h s q = ground arith

active_of :
    (tasks : Tasks) (id : Text) (entry : CancelEntry) (task : TransferTask)
    → get id tasks ≡ some task
    → is_terminal task.status ≡ false
    → is_active tasks (id, entry) ≡ true
active_of tasks id entry task g f = ground arith

some_same : (a b : TransferTask) (r : Option TransferTask) → r ≡ some a → r ≡ some b → a ≡ b
some_same a b r h k = (let z : some a ≡ some b = sym h ∙ k in cc)

-- No task of the session passes the last filter.
closed-gone :
    (session_id id : Text) (task : TransferTask) (old new : Tasks)
    → IsSingle new
    → Descends old new
    → get id old ≡ some task
    → task.session_id ≡ session_id
    → get id (retain (λ entry. not (is_of_session session_id entry)) new) ≡ none
closed-gone session_id id task old new single d g same =
    elim (get-retain id (λ entry. not (is_of_session session_id entry)) new (single id)) [
      | inl z ↦ z
      | inr (v, a, b, c) ↦
          (let (before, g', same') = d id v a in
            let y = some_same before task (get id old) g' g in
            let w =
              (beq_iff v.session_id session_id).1
                (sym same' ∙ ap (λ (x : TransferTask). x.session_id) y ∙ same) in
            let x : not (v.session_id == session_id) ≡ false = rw w refl in cc)
    ]

-- Closing a session leaves the tasks of other sessions as they are and tells nothing about them. The tasks of the session are no longer registered; an unfinished one is cancelled just once, by one event and by its raised flag, if the handle has its cancel entry; a finished one, or one without an entry, is told nothing more.
pub cleanup_session-Closes :
    (session_id id : Text) (h : SftpHandle) (task : TransferTask) (s : SftpService)
    → IsSound s.tasks s.handles
    → get session_id s.handles ≡ some h
    → get id s.tasks ≡ some task
    → Closed session_id id h task s (cleanup_session session_id s).0
unfolding is_cancelled
cleanup_session-Closes session_id id h task s i q g =
    let t = record s { handles = remove session_id s.handles } in
    let tokens = retain (is_active s.tasks) h.cancel_tokens in
    let u = cancel_active session_id tokens t in
    let open_ = λ (entry : Text × TransferTask). not (is_of_session session_id entry) in
    let o : IsOwned s.tasks session_id tokens =
      retain-All _ (is_active s.tasks) h.cancel_tokens
        (All-get _ session_id h s.handles q i.owned) in
    let i' : IsSound t.tasks t.handles = record {
      single = i.single;
      owned = remove-All _ session_id s.handles i.owned;
      bounded = i.bounded;
    } in
    let (single, d) = cancel_active-Descends session_id tokens t o i' in
    let e = cleanup_session-closed session_id h s q in
    subst (Closed session_id id h task s) (sym e) (elim (eq_cases task.session_id session_id) [
      | inr n ↦
          (let (k, r) = cancel_active-others session_id id tokens task t o i' g n in
            inl (
              n,
              get-retain_kept id task open_ u.tasks k (not_same task.session_id session_id n),
              r,
            ))
      | inl same ↦ inr (
        same,
        closed-gone session_id id task s.tasks u.tasks single d g same,
        elim (Bool-cases (is_terminal task.status)) [
          | inl f ↦ inl (
            inl f,
            cancel_active-quiet session_id id tokens t o i' (
                inr (λ found x.
                  subst (λ (v : TransferTask). is_terminal v.status ≡ true)
                    (some_same task found (get id s.tasks) g x) f)),
          )
          | inr f ↦ elim (Option-cases (get id h.cancel_tokens)) [
            | inl x ↦ inl (
              inr x,
              cancel_active-quiet session_id id tokens t o i'
                  (inl (get-retain-none id (is_active s.tasks) h.cancel_tokens x)),
            )
            | inr (entry, x) ↦
                (let (a, b) = cancel_active-told session_id id tokens entry task t o i' g f (
                    get-retain_kept id entry (is_active s.tasks) h.cancel_tokens x
                      (active_of s.tasks id entry task g f)) in
                  inr (f, (entry, x, a, b)))
          ]
        ],
      )
    ])
  where
    not_same : (a b : Text) → a ≢ b → not (a == b) ≡ true
    not_same a b n = elim (Bool-cases (a == b)) [
      | inl z ↦ absurd (n ((beq_iff a b).0 z))
      | inr z ↦ rw z refl
    ]
