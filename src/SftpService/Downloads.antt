-- ===== src/SftpService/Downloads.antt =====
-- `run_transfer_blocking` of core/sftp_service.rs: what a download leaves on the local disk.
use titan_ssh.Common.{
  ℕ, suc, ◌≤◌, ◌≡◌, ◌≢◌, refl, sym, ◌∙◌, ap, ◌⊎◌, inl, inr, Bool, true, not, ◌&&◌, List, [], ◌∷◌,
  ◌++◌, Option, none, some, Text, text_eq, get, insert, remove, entries, arith, beq_iff, Bool-cases,
  Option-cases, get-insert, get-remove_ne, get-remove_self, entries-remove-le, entries-insert-le,
  option_rule, if_rule,
}
use mathlib.Core.List.{append_assoc}
use titan_ssh.Errors.{AppError, sftp_transfer_error, sftp_write_error, Result, ok, err}
use titan_ssh.SftpService.Models.{ConflictStrategy, reject, overwrite}
use titan_ssh.SftpService.Moves.{IsUntouched, IsUntouched-after, moved, intruded}
use titan_ssh.SftpService.Worker.{TransferOutcome, done, cancelled, failed}
use titan_ssh.SftpService.Transfer.{
  Files, exists, Round, chunk, broken, Copied, complete, interrupted, stopped, copy,
  download_temp_path, cleanup_failure, cleanup_download_temp, error_of, is_reject, RenameError,
  LocalAnswers, with_intruder, persist, close_unpublished, persist_file, publish_download_file,
  give_up, stop_cancelled, settle, finish_download, run_download,
}

-- The bytes of a source that is read and written to its end.
unfoldable pub bytes : List Round → Option (List ℕ)
bytes [] = some []
bytes (broken m ∷ rounds) = none
bytes (chunk b bs (some failure) ∷ rounds) = none
bytes (chunk b bs none ∷ rounds) = elim (bytes rounds) [
  | none ↦ none
  | some rest ↦ some ((b ∷ bs) ++ rest)
]

abbrev pub source_bytes : Result (List Round) → Option (List ℕ)
source_bytes source = elim source [ ok rounds ↦ bytes rounds | err _ ↦ none ]

-- A loop that comes to its end has written everything.
pub copy-complete :
    (looks : ℕ → Bool) (k n : ℕ) (rounds : List Round) (content : List ℕ)
    → (copy looks k rounds content).0 ≡ complete n
    → (rest : List ℕ) × (bytes rounds ≡ some rest)
      × ((copy looks k rounds content).1 ≡ content ++ rest)
unfolding copy bytes
copy-complete looks k n [] content h = ([], refl, ground (arith, append_nil content))
  where
    append_nil : (xs : List ℕ) → xs ++ [] ≡ xs
    append_nil [] = refl
    append_nil (x ∷ xs) = ap (λ (l : List ℕ). x ∷ l) (append_nil xs)
copy-complete looks k n (broken m ∷ rounds) content h = absurd (ground arith)
copy-complete looks k n (chunk b bs (some failure) ∷ rounds) content h = absurd (ground arith)
copy-complete looks k n (chunk b bs none ∷ rounds) content h = elim (Bool-cases (looks k)) [
  | inl q ↦ absurd (ground arith)
  | inr q ↦
      (let (rest, e, f) = copy-complete looks (suc k) n rounds (content ++ b ∷ bs) (ground arith) in
        ((b ∷ bs) ++ rest, rw e refl, rw q (f ∙ append_assoc content (b ∷ bs) rest)))
]

-- A download that succeeded has replaced the target as a whole, and under `Reject` there was none,
-- at the check and at the rename.
abbrev pub IsPublished :
    ConflictStrategy → Option (List ℕ) → Text → Text → List ℕ → Files → Files → Type 0
IsPublished strategy intruder temp target content before after =
    (get target after ≡ some content)
    × (get temp after ≡ none)
    × (is_reject strategy ≡ true → (get target before ≡ none) × (intruder ≡ none))

abbrev pub EndsWell :
    LocalAnswers
    → ConflictStrategy
    → Text
    → Text
    → Option (List ℕ)
    → Files
    → Files × TransferOutcome
    → Type 0
EndsWell a strategy temp target content before r = elim r.1 [
  | done ↦
      (whole : List ℕ) × (content ≡ some whole)
      × IsPublished strategy a.intruder temp target whole before r.0
  | cancelled e ↦
      IsUntouched a.intruder target before r.0
      × ((get temp r.0 ≡ none) ⊎ ((error : AppError) × (e ≡ some error) × (a.removal ≢ none)))
  | failed e ↦
      IsUntouched a.intruder target before r.0 × ((get temp r.0 ≡ none) ⊎ (a.removal ≢ none))
]

module _ (a : LocalAnswers) (strategy : ConflictStrategy) (temp target : Text) (ne : temp ≢ target)
    (before : Files) where
  abbrev Fine : Option (List ℕ) → Files × TransferOutcome → Type 0
  Fine content r = EndsWell a strategy temp target content before r

  -- The clean-up leaves the target, and removes the temporary file or says that it could not.
  cleanup_target :
      (files : Files) → get target (cleanup_download_temp a.removal temp files).0 ≡ get target files
  unfolding cleanup_download_temp
  cleanup_target files =
      if_rule (λ (r : Files × Result (Unit {0})). get target r.0 ≡ get target files)
        (not (exists temp files)) (λ _. refl)
        (λ _.
          option_rule (λ (r : Files × Result (Unit {0})). get target r.0 ≡ get target files)
            a.removal (λ _. get-remove_ne temp target files ne) (λ _ _. refl))

  cleanup_temp :
      (files : Files)
      → entries temp files ≤ 1
      → (get temp (cleanup_download_temp a.removal temp files).0 ≡ none)
        ⊎ ((error : AppError) × (error_of (cleanup_download_temp a.removal temp files).1
              ≡ some error)
            × (a.removal ≢ none))
  unfolding cleanup_download_temp
  cleanup_temp files single = elim (Option-cases (get temp files)) [
    | inl q ↦ inl (ground arith)
    | inr (x, q) ↦ elim (Option-cases a.removal) [
      | inl n ↦ inl (ground (arith, get-remove_self temp files))
      | inr (m, n) ↦ inr (
        sftp_transfer_error (cleanup_failure temp m),
        ground arith,
        (λ z. (let y : none ≡ some m = sym z ∙ n in cc)),
      )
    ]
  ]

  give_up-Fine :
      (content : Option (List ℕ)) (primary : AppError) (files : Files)
      → entries temp files ≤ 1
      → IsUntouched a.intruder target before files
      → Fine content (give_up a temp primary files)
  unfolding give_up
  give_up-Fine content primary files single u = (
    IsUntouched-after a.intruder temp target ne before files _ (cleanup_target files) u,
    elim (cleanup_temp files single) [ inl q ↦ inl q | inr (e, q, n) ↦ inr n ],
  )

  stop_cancelled-Fine :
      (content : Option (List ℕ)) (files : Files)
      → entries temp files ≤ 1
      → IsUntouched a.intruder target before files
      → Fine content (stop_cancelled a temp files)
  unfolding stop_cancelled
  stop_cancelled-Fine content files single u = (
    IsUntouched-after a.intruder temp target ne before files _ (cleanup_target files) u,
    cleanup_temp files single,
  )

  -- What a publication does.
  abbrev Publishes : List ℕ → Files × Result (Unit {0}) → Type 0
  Publishes whole r = elim r.1 [
    | ok _ ↦ IsPublished strategy a.intruder temp target whole before r.0
    | err _ ↦ IsUntouched a.intruder target before r.0 × (entries temp r.0 ≤ 1)
  ]

  entries-remove : (files : Files) → entries temp files ≤ 1 → entries temp (remove temp files) ≤ 1
  entries-remove files h = omega (arith, entries-remove-le temp temp files)

  close-Publishes :
      (whole : List ℕ) (error : RenameError) (files : Files)
      → entries temp files ≤ 1
      → IsUntouched a.intruder target before files
      → Publishes whole (close_unpublished a strategy temp target error files)
  unfolding close_unpublished
  close-Publishes whole error files single u =
      option_rule (Publishes whole) a.closing
        (λ _. (
          IsUntouched-after a.intruder temp target ne before files _
              (get-remove_ne temp target files ne) u,
          entries-remove files single,
        ))
        (λ _ _. (u, single))

  persist-free :
      (files : Files)
      → persist strategy a.renaming temp target files ≡ none
      → is_reject strategy ≡ true
      → get target files ≡ none
  unfolding persist
  persist-free files h r = persisted strategy h r
    where
      persisted :
          (s : ConflictStrategy)
          → persist s a.renaming temp target files ≡ none
          → is_reject s ≡ true
          → get target files ≡ none
      persisted reject h r = ground arith
      persisted overwrite h r = cc

  persist_file-Publishes :
      (whole : List ℕ) (files : Files)
      → get temp files ≡ some whole
      → entries temp files ≤ 1
      → IsUntouched a.intruder target before files
      → (get target files ≡ none → (get target before ≡ none) × (a.intruder ≡ none))
      → Publishes whole (persist_file a strategy temp target files)
  unfolding persist_file
  persist_file-Publishes whole files g single u free =
      option_rule (Publishes whole) (persist strategy a.renaming temp target files)
        (λ q.
          (let m = moved a.intruder temp target ne before whole files g single in
            (m.0, m.1, (λ r. free (persist-free files q r)))))
        (λ error _. close-Publishes whole error files single u)

  publish-Publishes :
      (whole : List ℕ) (files : Files)
      → get temp files ≡ some whole
      → entries temp files ≤ 1
      → get target files ≡ get target before
      → Publishes whole (publish_download_file a strategy temp target files)
  unfolding publish_download_file
  publish-Publishes whole files g single e =
      (let (g', single', u, free) =
          intruded a.intruder temp target ne before whole files g single e in
        if_rule (Publishes whole) (is_reject strategy && exists target files) (λ _. (inl e, single))
          (λ _.
            option_rule (Publishes whole) a.opening
              (λ _.
                option_rule (Publishes whole) a.registration
                  (λ _.
                    persist_file-Publishes whole (with_intruder a.intruder target files) g' single'
                      u free)
                  (λ _ _. (u, single')))
              (λ _ _. (u, single'))))

  settle-Fine :
      (whole : List ℕ) (r : Files × Result (Unit {0}))
      → Publishes whole r
      → Fine (some whole) (settle a temp r)
  unfolding settle
  settle-Fine whole (files, ok _) p = (whole, refl, p)
  settle-Fine whole (files, err error) p = give_up-Fine (some whole) error files p.1 p.0

  finish-Fine :
      (looks : ℕ → Bool) (content : Option (List ℕ)) (copied : Copied) (written : List ℕ)
      (files : Files)
      → ((n : ℕ) → copied ≡ complete n → content ≡ some written)
      → get temp files ≡ some written
      → entries temp files ≤ 1
      → get target files ≡ get target before
      → Fine content (finish_download a looks strategy temp target copied files)
  unfolding finish_download
  finish-Fine looks content interrupted written files c g single e =
      stop_cancelled-Fine content files single (inl e)
  finish-Fine looks content (stopped error) written files c g single e =
      give_up-Fine content error files single (inl e)
  finish-Fine looks content (complete k) written files c g single e =
      option_rule (Fine content) a.flush
        (λ _.
          if_rule (Fine content) (looks k) (λ _. stop_cancelled-Fine content files single (inl e))
            (λ _.
              rw (c k refl) (settle-Fine written _ (publish-Publishes written files g single e))))
        (λ error _. give_up-Fine content (sftp_write_error error) files single (inl e))

-- How a download ends, if its temporary path is another than the target and is free. After `Done` the target holds all bytes of the source, the temporary file is gone, and under `Reject` nothing was at the target, neither at the check nor at the rename. After `Cancelled` or `Failed` the target holds what it held, or what another program has put there meanwhile, and the temporary file is gone unless its removal failed, which a cancelled task then reports. Nothing else is possible, whatever the disk, the server and the user do.
pub run_download-EndsWell :
    (a : LocalAnswers) (lock : Option Text) (source : Result (List Round)) (looks : ℕ → Bool)
    (strategy : ConflictStrategy) (local_path task_id : Text) (files : Files)
    → download_temp_path local_path task_id ≢ local_path
    → get (download_temp_path local_path task_id) files ≡ none
    → entries (download_temp_path local_path task_id) files ≤ 1
    → EndsWell a strategy
        (download_temp_path local_path task_id)
        local_path
        (source_bytes source)
        files
        (run_download a lock source looks strategy local_path task_id files)
unfolding run_download
run_download-EndsWell a lock (err error) looks strategy local_path task_id files ne free single =
    let P = EndsWell a strategy (download_temp_path local_path task_id) local_path none files in
    option_rule P lock
      (λ _. if_rule P (looks 0) (λ _. (inl refl, inl free)) (λ _. (inl refl, inl free)))
      (λ _ _. (inl refl, inl free))
run_download-EndsWell a lock (ok rounds) looks strategy local_path task_id files ne free single =
    let temp = download_temp_path local_path task_id in
    let P = EndsWell a strategy temp local_path (bytes rounds) files in
    let content = (copy looks 1 rounds []).1 in
    option_rule P lock
      (λ _.
        if_rule P (looks 0) (λ _. (inl refl, inl free))
          (λ _.
            option_rule P a.creation
              (λ _.
                finish-Fine a strategy temp local_path ne files looks (bytes rounds)
                  (copy looks 1 rounds []).0 content (insert temp content files)
                  (λ n q.
                    (let (rest, e, f) = copy-complete looks 1 n rounds [] q in e ∙ ap some (sym f)))
                  (ground (arith, get-insert temp temp content files, beq_iff temp temp))
                  (entries-insert-le temp temp content files single)
                  (ground
                    (arith, get-insert temp local_path content files, beq_iff temp local_path)))
              (λ _ _. (inl refl, inl free))))
      (λ _ _. (inl refl, inl free))
