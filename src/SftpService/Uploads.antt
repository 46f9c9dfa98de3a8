-- ===== src/SftpService/Uploads.antt =====
-- `run_transfer_blocking` of core/sftp_service.rs: what an upload leaves on the server.
use titan_ssh.Common.{
  ℕ, ◌≤◌, ◌≡◌, ◌≢◌, refl, sym, ◌∙◌, ap, ◌⊎◌, inl, inr, Bool, true, false, not, ◌&&◌, List, [],
  Option, none, some, Text, text_eq, get, insert, entries, arith, beq_iff, Option-cases, get-insert,
  get-remove_ne, get-remove_self, entries-insert-le, option_rule, if_rule,
}
use titan_ssh.Errors.{
  AppError, sftp_transfer_error, sftp_write_error, to_string, Result, ok, err, result_rule,
}
use titan_ssh.SftpService.Models.{ConflictStrategy}
use titan_ssh.SftpService.Moves.{IsUntouched, IsUntouched-after, moved, intruded}
use titan_ssh.SftpService.Worker.{TransferOutcome, done, cancelled, failed}
use titan_ssh.SftpService.Transfer.{
  Files, exists, Round, Copied, complete, interrupted, stopped, copy, upload_temp_path,
  cleanup_failure, cleanup_upload_temp, error_of, is_reject, with_intruder,
}
use titan_ssh.SftpService.Upload.{
  RemoteAnswers, check_target, rename, publish_upload_file, give_up_upload, stop_upload,
  settle_upload, finish_upload, run_upload,
}
use titan_ssh.SftpService.Downloads.{bytes, copy-complete}

-- An upload that succeeded has replaced the target as a whole. Where it was to replace nothing,
-- because the user said so or because nothing was there, there was nothing at the rename either.
abbrev pub IsPlaced :
    ConflictStrategy → Option (List ℕ) → Text → Text → List ℕ → Files → Files → Type 0
IsPlaced strategy intruder temp target content before after =
    (get target after ≡ some content)
    × (get temp after ≡ none)
    × ((is_reject strategy ≡ true) ⊎ (get target before ≡ none)
        → (get target before ≡ none) × (intruder ≡ none))

abbrev pub EndsWell :
    RemoteAnswers
    → ConflictStrategy
    → Text
    → Text
    → Option (List ℕ)
    → Files
    → Files × TransferOutcome
    → Type 0
EndsWell a strategy temp target content before r = elim r.1 [
  | done ↦
      (whole : List ℕ) × (content ≡ some whole)
      × IsPlaced strategy a.intruder temp target whole before r.0
  | cancelled e ↦
      IsUntouched a.intruder target before r.0
      × ((get temp r.0 ≡ none) ⊎ ((error : AppError) × (e ≡ some error) × (a.removal ≢ none)))
  | failed e ↦
      IsUntouched a.intruder target before r.0 × ((get temp r.0 ≡ none) ⊎ (a.removal ≢ none))
]

module _ (a : RemoteAnswers) (strategy : ConflictStrategy) (temp target : Text) (ne : temp ≢ target)
    (before : Files) where
  abbrev Fine : Option (List ℕ) → Files × TransferOutcome → Type 0
  Fine content r = EndsWell a strategy temp target content before r

  cleanup_target :
      (files : Files) → get target (cleanup_upload_temp a.removal temp files).0 ≡ get target files
  unfolding cleanup_upload_temp
  cleanup_target files =
      option_rule (λ (r : Files × Result (Unit {0})). get target r.0 ≡ get target files) a.removal
        (λ _. get-remove_ne temp target files ne) (λ _ _. refl)

  cleanup_temp :
      (files : Files)
      → entries temp files ≤ 1
      → (get temp (cleanup_upload_temp a.removal temp files).0 ≡ none)
        ⊎ ((error : AppError) × (error_of (cleanup_upload_temp a.removal temp files).1 ≡ some error)
            × (a.removal ≢ none))
  unfolding cleanup_upload_temp
  cleanup_temp files single = elim (Option-cases a.removal) [
    | inl n ↦ inl (ground (arith, get-remove_self temp files))
    | inr (m, n) ↦ inr (
      sftp_transfer_error (cleanup_failure temp (to_string m)),
      ground arith,
      (λ z. (let y : none ≡ some m = sym z ∙ n in cc)),
    )
  ]

  give_up-Fine :
      (content : Option (List ℕ)) (primary : AppError) (files : Files)
      → entries temp files ≤ 1
      → IsUntouched a.intruder target before files
      → Fine content (give_up_upload a temp primary files)
  unfolding give_up_upload
  give_up-Fine content primary files single u = (
    IsUntouched-after a.intruder temp target ne before files _ (cleanup_target files) u,
    elim (cleanup_temp files single) [ inl q ↦ inl q | inr (e, q, n) ↦ inr n ],
  )

  stop-Fine :
      (content : Option (List ℕ)) (files : Files)
      → entries temp files ≤ 1
      → IsUntouched a.intruder target before files
      → Fine content (stop_upload a temp files)
  unfolding stop_upload
  stop-Fine content files single u = (
    IsUntouched-after a.intruder temp target ne before files _ (cleanup_target files) u,
    cleanup_temp files single,
  )

  abbrev Publishes : List ℕ → Files × Result (Unit {0}) → Type 0
  Publishes whole r = elim r.1 [
    | ok _ ↦ IsPlaced strategy a.intruder temp target whole before r.0
    | err _ ↦ IsUntouched a.intruder target before r.0 × (entries temp r.0 ≤ 1)
  ]

  rename-Publishes :
      (whole : List ℕ) (replace : Bool) (files : Files)
      → get temp files ≡ some whole
      → entries temp files ≤ 1
      → IsUntouched a.intruder target before files
      → ((is_reject strategy ≡ true) ⊎ (get target before ≡ none) → replace ≡ false)
      → (get target files ≡ none → (get target before ≡ none) × (a.intruder ≡ none))
      → Publishes whole (rename a.renaming replace temp target files)
  unfolding rename
  rename-Publishes whole replace files g single u keep free =
      if_rule (Publishes whole) (not replace && exists target files) (λ _. (u, single))
        (λ q.
          option_rule (Publishes whole) a.renaming
            (λ _.
              (let m = moved a.intruder temp target ne before whole files g single in
                (m.0, m.1, (λ r. (let k = keep r in free (absent replace q k))))))
            (λ _ _. (u, single)))
    where
      absent :
          (replace : Bool)
          → (not replace && exists target files) ≡ false
          → replace ≡ false
          → get target files ≡ none
      absent replace q k = ground arith

  -- A target that is found is there.
  found :
      (files : Files)
      → get target files ≡ get target before
      → (there : Bool) → check_target a.metadata target files ≡ ok there
      → get target before ≡ none
      → there ≡ false
  unfolding check_target
  found files e there q n = ground arith

  publish-Publishes :
      (whole : List ℕ) (files : Files)
      → get temp files ≡ some whole
      → entries temp files ≤ 1
      → get target files ≡ get target before
      → Publishes whole (publish_upload_file a strategy temp target files)
  unfolding publish_upload_file
  publish-Publishes whole files g single e =
      (let (g', single', u, free) =
          intruded a.intruder temp target ne before whole files g single e in
        result_rule (Publishes whole) (check_target a.metadata target files)
          (λ _ _. (inl e, single))
          (λ there q.
            if_rule (Publishes whole) (there && is_reject strategy) (λ _. (inl e, single))
              (λ passed.
                rename-Publishes whole there (with_intruder a.intruder target files) g' single' u
                  (refuses there passed (found files e there q)) free)))
    where
      refuses :
          (there : Bool)
          → (there && is_reject strategy) ≡ false
          → (get target before ≡ none → there ≡ false)
          → (is_reject strategy ≡ true) ⊎ (get target before ≡ none)
          → there ≡ false
      refuses there passed f (inl r) = ground arith
      refuses there passed f (inr n) = f n

  settle-Fine :
      (whole : List ℕ) (r : Files × Result (Unit {0}))
      → Publishes whole r
      → Fine (some whole) (settle_upload a temp r)
  unfolding settle_upload
  settle-Fine whole (files, ok _) p = (whole, refl, p)
  settle-Fine whole (files, err error) p = give_up-Fine (some whole) error files p.1 p.0

  finish-Fine :
      (looks : ℕ → Bool) (content : Option (List ℕ)) (copied : Copied) (written : List ℕ)
      (files : Files)
      → ((n : ℕ) → copied ≡ complete n → content ≡ some written)
      → get temp files ≡ some written
      → entries temp files ≤ 1
      → get target files ≡ get target before
      → Fine content (finish_upload a looks strategy temp target copied files)
  unfolding finish_upload
  finish-Fine looks content interrupted written files c g single e =
      stop-Fine content files single (inl e)
  finish-Fine looks content (stopped error) written files c g single e =
      give_up-Fine content error files single (inl e)
  finish-Fine looks content (complete k) written files c g single e =
      option_rule (Fine content) a.flush
        (λ _.
          if_rule (Fine content) (looks k) (λ _. stop-Fine content files single (inl e))
            (λ _.
              rw (c k refl) (settle-Fine written _ (publish-Publishes written files g single e))))
        (λ error _. give_up-Fine content (sftp_write_error error) files single (inl e))

abbrev pub source_bytes : Text ⊎ List Round → Option (List ℕ)
source_bytes source = elim source [ inr rounds ↦ bytes rounds | inl _ ↦ none ]

-- How an upload ends, if its temporary path is another than the target and is free. After `Done` the target holds all bytes of the local file and the temporary file is gone; under `Reject`, and also under `Overwrite` if nothing was at the target, there was nothing to replace even at the rename. After `Cancelled` or `Failed` the target holds what it held, or what somebody has put there meanwhile, and the temporary file is gone unless its removal failed, which a cancelled task then reports.
pub run_upload-EndsWell :
    (a : RemoteAnswers) (lock : Option Text) (source : Text ⊎ List Round) (looks : ℕ → Bool)
    (strategy : ConflictStrategy) (remote_path task_id : Text) (files : Files)
    → upload_temp_path remote_path task_id ≢ remote_path
    → get (upload_temp_path remote_path task_id) files ≡ none
    → entries (upload_temp_path remote_path task_id) files ≤ 1
    → EndsWell a strategy
        (upload_temp_path remote_path task_id)
        remote_path
        (source_bytes source)
        files
        (run_upload a lock source looks strategy remote_path task_id files)
unfolding run_upload
run_upload-EndsWell a lock (inl error) looks strategy remote_path task_id files ne free single =
    let P = EndsWell a strategy (upload_temp_path remote_path task_id) remote_path none files in
    option_rule P lock
      (λ _. if_rule P (looks 0) (λ _. (inl refl, inl free)) (λ _. (inl refl, inl free)))
      (λ _ _. (inl refl, inl free))
run_upload-EndsWell a lock (inr rounds) looks strategy remote_path task_id files ne free single =
    let temp = upload_temp_path remote_path task_id in
    let P = EndsWell a strategy temp remote_path (bytes rounds) files in
    let content = (copy looks 1 rounds []).1 in
    option_rule P lock
      (λ _.
        if_rule P (looks 0) (λ _. (inl refl, inl free))
          (λ _.
            option_rule P a.creation
              (λ _.
                finish-Fine a strategy temp remote_path ne files looks (bytes rounds)
                  (copy looks 1 rounds []).0 content (insert temp content files)
                  (λ n q.
                    (let (rest, e, f) = copy-complete looks 1 n rounds [] q in e ∙ ap some (sym f)))
                  (ground (arith, get-insert temp temp content files, beq_iff temp temp))
                  (entries-insert-le temp temp content files single)
                  (ground
                    (arith, get-insert temp remote_path content files, beq_iff temp remote_path)))
              (λ _ _. (inl refl, inl free))))
      (λ _ _. (inl refl, inl free))
