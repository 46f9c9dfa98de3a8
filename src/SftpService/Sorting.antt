-- ===== src/SftpService/Sorting.antt =====
-- `evict_old_terminal_tasks` of core/sftp_service.rs: the sorted stamps of the finished tasks.
use titan_ssh.Common.{
  ◌≡◌, refl, inl, inr, true, false, List, [], ◌∷◌, some, Text, text_eq, nat_eq, get, All, arith,
  beq_iff, Bool-cases, entries_of_get, text_leb, text_leb_total,
}
use titan_ssh.SftpService.Models.{TransferTask}
use titan_ssh.SftpService.Evictions.{
  Stamp, is_newer, insert_newest, sort_newest, is_finished_of, stamps,
}
use titan_ssh.SftpService.Kept.{IsSingle}

text_leb_trans : (a b c : Text) → text_leb a b ≡ true → text_leb b c ≡ true → text_leb a c ≡ true
unfolding text_leb
text_leb_trans [] b c h k = refl
text_leb_trans (x ∷ a) [] c h k = cc
text_leb_trans (x ∷ a) (y ∷ b) [] h k = cc
text_leb_trans (x ∷ a) (y ∷ b) (z ∷ c) h k = ground (arith, text_leb_trans a b c)

is_newer_trans : (x y z : Stamp) → is_newer x y ≡ true → is_newer y z ≡ true → is_newer x z ≡ true
unfolding is_newer
is_newer_trans (t, i) (u, j) (v, k) p q = ground (arith, text_leb_trans k j i)

is_newer_total : (x y : Stamp) → is_newer x y ≡ false → is_newer y x ≡ true
unfolding is_newer
is_newer_total (t, i) (u, j) p = ground (arith, text_leb_total j i)

-- Each stamp before all that follow.
abbrev pub IsSorted : List Stamp → Type 0
IsSorted [] = Unit {0}
IsSorted (x ∷ xs) = All (λ y. is_newer x y ≡ true) xs × IsSorted xs

All-insert :
    (P : Stamp → Type 0) (x : Stamp) (xs : List Stamp) → P x → All P xs → All P (insert_newest x xs)
unfolding insert_newest
All-insert P x [] p a = (p, tt)
All-insert P x (y ∷ ys) p a = elim (Bool-cases (is_newer x y)) [
  | inl q ↦ rw q (p, a)
  | inr q ↦ rw q (a.0, All-insert P x ys p a.1)
]

pub All-sort : (P : Stamp → Type 0) (xs : List Stamp) → All P xs → All P (sort_newest xs)
unfolding sort_newest
All-sort P [] a = tt
All-sort P (x ∷ xs) a = All-insert P x (sort_newest xs) a.0 (All-sort P xs a.1)

All-newer :
    (x y : Stamp) (ys : List Stamp)
    → is_newer x y ≡ true
    → All (λ z. is_newer y z ≡ true) ys
    → All (λ z. is_newer x z ≡ true) ys
All-newer x y [] p a = tt
All-newer x y (z ∷ zs) p a = (is_newer_trans x y z p a.0, All-newer x y zs p a.1)

insert-IsSorted : (x : Stamp) (xs : List Stamp) → IsSorted xs → IsSorted (insert_newest x xs)
unfolding insert_newest
insert-IsSorted x [] s = (tt, tt)
insert-IsSorted x (y ∷ ys) s = elim (Bool-cases (is_newer x y)) [
  | inl q ↦ rw q ((q, All-newer x y ys q s.0), s)
  | inr q ↦ rw q (
    All-insert (λ z. is_newer y z ≡ true) x ys (is_newer_total x y q) s.0,
    insert-IsSorted x ys s.1,
  )
]

pub sort-IsSorted : (xs : List Stamp) → IsSorted (sort_newest xs)
unfolding sort_newest
sort-IsSorted [] = tt
sort-IsSorted (x ∷ xs) = insert-IsSorted x (sort_newest xs) (sort-IsSorted xs)

-- A stamp of a task that the session has.
abbrev pub Genuine : Text → List (Text × TransferTask) → Stamp → Type 0
Genuine session_id m x =
    (task : TransferTask) × (get x.1 m ≡ some task)
    × (x.0 ≡ task.created_at)
    × (is_finished_of session_id (x.1, task) ≡ true)

pub stamps-Genuine :
    (session_id : Text) (m : List (Text × TransferTask))
    → IsSingle m
    → All (Genuine session_id m) (stamps session_id m)
unfolding stamps
stamps-Genuine session_id [] h = tt
stamps-Genuine session_id ((i, w) ∷ m) h =
    let later =
      widen (stamps session_id m) (stamps-Genuine session_id m (λ k. ground (arith, h k))) in
    elim (Bool-cases (is_finished_of session_id (i, w))) [
      | inl q ↦ rw q ((w, ground (arith, beq_iff i i), refl, q), later)
      | inr q ↦ rw q later
    ]
  where
    widen :
        (xs : List Stamp) → All (Genuine session_id m) xs → All (Genuine session_id ((i, w) ∷ m)) xs
    widen [] a = tt
    widen (x ∷ xs) a = (
      (
        a.0.0,
        (let b = entries_of_get x.1 a.0.0 m a.0.1 in ground (arith, h i, h x.1, beq_iff i x.1)),
        a.0.2,
        a.0.3,
      ),
      widen xs a.1,
    )
