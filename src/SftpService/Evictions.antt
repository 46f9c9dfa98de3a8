-- ===== src/SftpService/Evictions.antt =====
-- `evict_old_terminal_tasks` of core/sftp_service.rs: the order in which finished tasks are kept.
use titan_ssh.Common.{
  text_leb, ℕ, zero, suc, Bool, ◌&&◌, ◌||◌, List, [], ◌∷◌, Text, text_eq, nat_eq, ◌==◌, ltb, leb,
  if◌then◌else◌, length, remove,
}
use titan_ssh.SftpService.Models.{TransferTask, is_terminal}

-- `MAX_TERMINAL_TASKS_PER_SESSION`.
abbrev pub max_terminal_tasks_per_session : ℕ
max_terminal_tasks_per_session = 100

-- `Iterator::skip`.
abbrev pub drop {ℓ} : {A : Type ℓ} → ℕ → List A → List A
drop zero xs = xs
drop (suc n) [] = []
drop (suc n) (x ∷ xs) = drop n xs

-- What the eviction sorts: when a task was created, and its id.
abbrev pub Stamp : Type 0
Stamp = ℕ × Text

-- Whether the first stands before the second: the newest first, equal times by descending id.
unfoldable pub is_newer : Stamp → Stamp → Bool
unfolding text_leb
is_newer (t, i) (u, j) = ltb u t || (t == u && text_leb j i)

unfoldable pub insert_newest : Stamp → List Stamp → List Stamp
insert_newest x [] = x ∷ []
insert_newest x (y ∷ ys) = if is_newer x y then x ∷ y ∷ ys else y ∷ insert_newest x ys

unfoldable pub sort_newest : List Stamp → List Stamp
unfolding insert_newest
sort_newest [] = []
sort_newest (x ∷ xs) = insert_newest x (sort_newest xs)

abbrev pub is_finished_of : Text → Text × TransferTask → Bool
is_finished_of session_id entry = entry.1.session_id == session_id && is_terminal entry.1.status

abbrev pub stamp_of : Text × TransferTask → Stamp
stamp_of entry = (entry.1.created_at, entry.0)

-- The finished tasks of a session.
unfoldable pub stamps : Text → List (Text × TransferTask) → List Stamp
stamps session_id [] = []
stamps session_id (entry ∷ tasks) =
    let rest = stamps session_id tasks in
    if is_finished_of session_id entry then stamp_of entry ∷ rest else rest

unfoldable pub remove_all : List Stamp → List (Text × TransferTask) → List (Text × TransferTask)
remove_all [] tasks = tasks
remove_all (x ∷ xs) tasks = remove_all xs (remove x.1 tasks)

unfoldable pub evict_old_terminal_tasks :
    Text → List (Text × TransferTask) → List (Text × TransferTask)
unfolding sort_newest stamps remove_all
evict_old_terminal_tasks session_id tasks =
    let terminal = stamps session_id tasks in
    if leb (length terminal) max_terminal_tasks_per_session
    then tasks
    else remove_all (drop max_terminal_tasks_per_session (sort_newest terminal)) tasks
