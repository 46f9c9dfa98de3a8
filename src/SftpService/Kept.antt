-- ===== src/SftpService/Kept.antt =====
-- `evict_old_terminal_tasks` of core/sftp_service.rs: how many finished tasks are kept, and which.
use titan_ssh.Common.{
  ℕ, zero, suc, ◌≤◌, ◌≡◌, refl, sym, ◌∙◌, ap, inl, inr, Bool, true, false, not, ◌&&◌, List, [], ◌∷◌,
  Text, text_eq, nat_eq, ◌==◌, leb, if◌then◌else◌, length, any, count, retain, remove, entries,
  arith, beq_iff, Bool-cases, min, entries-remove-le, if_rule,
}
use titan_ssh.SftpService.Models.{TransferTask}
use titan_ssh.SftpService.Evictions.{
  max_terminal_tasks_per_session, drop, Stamp, insert_newest, sort_newest, stamps, remove_all,
  evict_old_terminal_tasks,
}

-- No id has two entries.
abbrev pub IsSingle {ℓ} : {V : Type ℓ} → List (Text × V) → Type 0
IsSingle m = (k : Text) → entries k m ≤ 1

abbrev pub has_id : Text → Stamp → Bool
has_id id x = x.1 == id

abbrev pub is_among : List Stamp → Stamp → Bool
is_among xs x = any (has_id x.1) xs

pub count-sort : (p : Stamp → Bool) (xs : List Stamp) → count p (sort_newest xs) ≡ count p xs
unfolding sort_newest insert_newest
count-sort p [] = refl
count-sort p (x ∷ xs) =
    inserted (sort_newest xs) ∙ ap (λ (n : ℕ). if p x then suc n else n) (count-sort p xs)
  where
    inserted :
        (ys : List Stamp)
        → count p (insert_newest x ys) ≡ (if p x then suc (count p ys) else count p ys)
    inserted [] = ground arith
    inserted (y ∷ ys) = ground (arith, inserted ys)

pub count-stamps :
    (id session_id : Text) (m : List (Text × TransferTask))
    → count (has_id id) (stamps session_id m) ≤ entries id m
unfolding stamps
count-stamps id session_id [] = omega arith
count-stamps id session_id ((i, w) ∷ m) = ground (arith, count-stamps id session_id m)

retain_all_of :
    (id : Text) (xs : List Stamp)
    → count (has_id id) xs ≡ 0
    → retain (λ x. not (has_id id x)) xs ≡ xs
retain_all_of id [] h = refl
retain_all_of id (x ∷ xs) h = ground (arith, retain_all_of id xs)

stamps-remove :
    (id session_id : Text) (m : List (Text × TransferTask))
    → entries id m ≤ 1
    → stamps session_id (remove id m) ≡ retain (λ x. not (has_id id x)) (stamps session_id m)
unfolding stamps
stamps-remove id session_id [] h = refl
stamps-remove id session_id ((i, w) ∷ m) h = ground (
  arith,
  stamps-remove id session_id m,
  count-stamps id session_id m,
  retain_all_of id (stamps session_id m),
)

retain-retain :
    (p q : Stamp → Bool) (xs : List Stamp) → retain p (retain q xs) ≡ retain (λ x. q x && p x) xs
retain-retain p q [] = refl
retain-retain p q (x ∷ xs) = ground (arith, retain-retain p q xs)

retain_ext :
    (p q : Stamp → Bool) (xs : List Stamp) → ((x : Stamp) → p x ≡ q x) → retain p xs ≡ retain q xs
retain_ext p q [] h = refl
retain_ext p q (x ∷ xs) h = ground (arith, retain_ext p q xs h, h x)

pub remove-IsSingle {ℓ} :
    {V : Type ℓ} (id : Text) (m : List (Text × V)) → IsSingle m → IsSingle (remove id m)
remove-IsSingle id m h k = omega (arith, entries-remove-le id k m, h k)

-- What is taken out is what has one of the ids.
pub stamps-remove_all :
    (session_id : Text) (xs : List Stamp) (m : List (Text × TransferTask))
    → IsSingle m
    → stamps session_id (remove_all xs m) ≡ retain (λ x. not (is_among xs x)) (stamps session_id m)
unfolding remove_all
stamps-remove_all session_id [] m h = same (stamps session_id m)
  where
    same : (xs : List Stamp) → xs ≡ retain (λ x. true) xs
    same [] = refl
    same (x ∷ xs) = ap (λ (r : List Stamp). x ∷ r) (same xs)
stamps-remove_all session_id (x ∷ xs) m h =
    stamps-remove_all session_id xs (remove x.1 m) (remove-IsSingle x.1 m h)
    ∙ ap (retain (λ y. not (is_among xs y))) (stamps-remove x.1 session_id m (h x.1))
    ∙ retain-retain (λ y. not (is_among xs y)) (λ y. not (has_id x.1 y)) (stamps session_id m)
    ∙ retain_ext (λ y. not (has_id x.1 y) && not (is_among xs y)) (λ y. not (is_among (x ∷ xs) y))
        (stamps session_id m) (λ y. ground (arith, beq_iff y.1 x.1, beq_iff x.1 y.1))

length-retain : (p : Stamp → Bool) (xs : List Stamp) → length (retain p xs) ≡ count p xs
length-retain p [] = refl
length-retain p (x ∷ xs) = ground (arith, length-retain p xs)

any_of_count : (id : Text) (xs : List Stamp) → count (has_id id) xs ≡ 0 → any (has_id id) xs ≡ false
any_of_count id [] h = refl
any_of_count id (x ∷ xs) h = ground (arith, any_of_count id xs)

count-drop-le : (p : Stamp → Bool) (n : ℕ) (xs : List Stamp) → count p (drop n xs) ≤ count p xs
count-drop-le p zero xs = omega arith
count-drop-le p (suc n) [] = omega arith
count-drop-le p (suc n) (x ∷ xs) = ground (arith, count-drop-le p n xs)

-- Among itself, every stamp is found.
count_self :
    (bs xs : List Stamp)
    → ((x : Stamp) → is_among xs x ≡ true → is_among bs x ≡ true)
    → count (λ x. not (is_among bs x)) xs ≡ 0
count_self bs [] h = refl
count_self bs (x ∷ xs) h =
    ground (arith, count_self bs xs (λ y e. h y (ground arith)), h x, beq_iff x.1 x.1)

-- With no id twice, all but the dropped ones are the first `n`.
count_first :
    (n : ℕ) (xs : List Stamp)
    → ((id : Text) → count (has_id id) xs ≤ 1)
    → count (λ x. not (is_among (drop n xs) x)) xs ≡ min (length xs) n
count_first zero xs h = count_self xs xs (λ x e. e) ∙ (ground arith)
count_first (suc n) [] h = ground arith
count_first (suc n) (x ∷ xs) h =
    let none_left : count (has_id x.1) xs ≡ 0 = ground (arith, h x.1, beq_iff x.1 x.1) in
    let less = count-drop-le (has_id x.1) n xs in
    let out : any (has_id x.1) (drop n xs) ≡ false = any_of_count x.1 (drop n xs) (omega arith) in
    let rest = count_first n xs (λ id. ground (arith, h id)) in
    rw out (ap suc rest ∙ (ground arith))

length_of_count : (xs : List Stamp) → length xs ≡ count (λ _. true) xs
length_of_count [] = refl
length_of_count (x ∷ xs) = ap suc (length_of_count xs)

pub length-sort : (xs : List Stamp) → length (sort_newest xs) ≡ length xs
length-sort xs =
    length_of_count (sort_newest xs) ∙ count-sort (λ _. true) xs ∙ sym (length_of_count xs)

-- The eviction leaves a session its finished tasks, or one hundred of them if it has more.
pub length-evict :
    (session_id : Text) (m : List (Text × TransferTask))
    → IsSingle m
    → length (stamps session_id (evict_old_terminal_tasks session_id m))
      ≡ min (length (stamps session_id m)) max_terminal_tasks_per_session
unfolding evict_old_terminal_tasks
length-evict session_id m h =
    elim (Bool-cases (leb (length (stamps session_id m)) max_terminal_tasks_per_session)) [
      | inl few ↦ rw few (ground arith)
      | inr many ↦
          (let l = stamps session_id m in
            let sorted = sort_newest l in
            let cut = drop max_terminal_tasks_per_session sorted in
            rw many (
              ap length (stamps-remove_all session_id cut m h)
              ∙ length-retain (λ x. not (is_among cut x)) l
              ∙ sym (count-sort (λ x. not (is_among cut x)) l)
              ∙ count_first max_terminal_tasks_per_session sorted (λ id.
                omega (arith, count-sort (has_id id) l, count-stamps id session_id m, h id))
              ∙ ap (λ (n : ℕ). min n max_terminal_tasks_per_session) (length-sort l)))
    ]

-- What holds of a map, and of it without any ids, holds after the eviction.
pub evict_rule {ℓ} :
    (P : List (Text × TransferTask) → Type ℓ) (session_id : Text) (m : List (Text × TransferTask))
    → P m
    → ((xs : List Stamp) → P (remove_all xs m))
    → P (evict_old_terminal_tasks session_id m)
unfolding evict_old_terminal_tasks
evict_rule P session_id m h k =
    if_rule P (leb (length (stamps session_id m)) max_terminal_tasks_per_session) (λ _. h)
      (λ _. k (drop max_terminal_tasks_per_session (sort_newest (stamps session_id m))))
