-- ===== src/SftpService/Newest.antt =====
-- `evict_old_terminal_tasks` of core/sftp_service.rs: which tasks it leaves alone, and that what it
-- takes out is older than what it keeps.
use titan_ssh.Common.{
  ℕ, zero, suc, ◌≡◌, refl, ◌∙◌, subst, ◌⊎◌, inl, inr, true, false, List, [], ◌∷◌, none, some, Text,
  text_eq, nat_eq, leb, length, any, get, remove, All, arith, beq_iff, Bool-cases, eq_cases,
  get-remove_ne, get-remove_self,
}
use titan_ssh.SftpService.Models.{TransferTask}
use titan_ssh.SftpService.Evictions.{
  max_terminal_tasks_per_session, drop, Stamp, sort_newest, is_finished_of, stamps, remove_all,
  evict_old_terminal_tasks,
}
use titan_ssh.SftpService.Kept.{IsSingle, has_id, remove-IsSingle}
use titan_ssh.SftpService.Sorting.{All-sort, Genuine, stamps-Genuine}

pub get-remove_all_ne :
    (id : Text) (xs : List Stamp) (m : List (Text × TransferTask))
    → any (has_id id) xs ≡ false
    → get id (remove_all xs m) ≡ get id m
unfolding remove_all
get-remove_all_ne id [] m h = refl
get-remove_all_ne id (x ∷ xs) m h =
    get-remove_all_ne id xs (remove x.1 m) (ground arith)
    ∙ get-remove_ne x.1 id m (λ e. (let f = (beq_iff x.1 id).1 e in ground arith))

get-remove-none :
    (k id : Text) (m : List (Text × TransferTask))
    → IsSingle m
    → get id m ≡ none
    → get id (remove k m) ≡ none
get-remove-none k id m h e = elim (eq_cases k id) [
  | inl q ↦ subst (λ i. get i (remove k m) ≡ none) q (get-remove_self k m (h k))
  | inr n ↦ get-remove_ne k id m n ∙ e
]

remove_all-none :
    (id : Text) (xs : List Stamp) (m : List (Text × TransferTask))
    → IsSingle m
    → get id m ≡ none
    → get id (remove_all xs m) ≡ none
unfolding remove_all
remove_all-none id [] m h e = e
remove_all-none id (x ∷ xs) m h e =
    remove_all-none id xs (remove x.1 m) (remove-IsSingle x.1 m h) (get-remove-none x.1 id m h e)

get-remove_all_in :
    (id : Text) (xs : List Stamp) (m : List (Text × TransferTask))
    → IsSingle m
    → any (has_id id) xs ≡ true
    → get id (remove_all xs m) ≡ none
unfolding remove_all
get-remove_all_in id [] m h e = cc
get-remove_all_in id (x ∷ xs) m h e = elim (eq_cases x.1 id) [
  | inl q ↦
      remove_all-none id xs (remove x.1 m) (remove-IsSingle x.1 m h)
        (subst (λ i. get i (remove x.1 m) ≡ none) q (get-remove_self x.1 m (h x.1)))
  | inr n ↦
      get-remove_all_in id xs (remove x.1 m) (remove-IsSingle x.1 m h)
        (ground (arith, beq_iff x.1 id))
]

All-drop : (P : Stamp → Type 0) (n : ℕ) (xs : List Stamp) → All P xs → All P (drop n xs)
All-drop P zero xs a = a
All-drop P (suc n) [] a = tt
All-drop P (suc n) (x ∷ xs) a = All-drop P n xs a.1

find_any :
    (P : Stamp → Type 0) (id : Text) (xs : List Stamp)
    → any (has_id id) xs ≡ true
    → All P xs
    → (x : Stamp) × (x.1 ≡ id) × P x
find_any P id [] h a = cc
find_any P id (x ∷ xs) h a = elim (eq_cases x.1 id) [
  | inl q ↦ (x, q, a.0)
  | inr n ↦ find_any P id xs (ground (arith, beq_iff x.1 id)) a.1
]

-- The eviction takes out nothing but finished tasks of the session.
pub get-evict :
    (session_id id : Text) (m : List (Text × TransferTask))
    → IsSingle m
    → (get id (evict_old_terminal_tasks session_id m) ≡ get id m)
      ⊎ ((get id (evict_old_terminal_tasks session_id m) ≡ none)
          × ((task : TransferTask) × (get id m ≡ some task)
              × (is_finished_of session_id (id, task) ≡ true)))
unfolding evict_old_terminal_tasks
get-evict session_id id m h =
    elim (Bool-cases (leb (length (stamps session_id m)) max_terminal_tasks_per_session)) [
      | inl few ↦ inl (rw few refl)
      | inr many ↦
          (let sorted = sort_newest (stamps session_id m) in
            let cut = drop max_terminal_tasks_per_session sorted in
            elim (Bool-cases (any (has_id id) cut)) [
              | inr out ↦ inl (rw many (get-remove_all_ne id cut m out))
              | inl among ↦
                  (let (x, same, (task, g, c, f)) = find_any (Genuine session_id m) id cut among (
                      All-drop _ max_terminal_tasks_per_session sorted
                        (All-sort _ (stamps session_id m) (stamps-Genuine session_id m h))) in
                    inr (
                      rw many (get-remove_all_in id cut m h among),
                      (
                        task,
                        subst (λ k. get k m ≡ some task) same g,
                        subst (λ k. is_finished_of session_id (k, task) ≡ true) same f,
                      ),
                    ))
            ])
    ]
