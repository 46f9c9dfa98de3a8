-- ===== src/SftpService/TransferTests.antt =====
-- The transfers of core/sftp_service.rs at concrete files.
use titan_ssh.SftpService.Progress.{Readings, new_progress, report_chunks}
use titan_ssh.Common.{◌/◌, ◌*◌, map, arith, ◌≡◌, refl, [], ◌∷◌, List, ℕ}
use titan_ssh.Common.{
  ◌≡◌, ◌≢◌, inr, refl, false, List, [], ◌∷◌, none, some, codes, text_eq, arith, beq, file_name,
  parent, join,
}
use titan_ssh.Errors.{sftp_target_exists, ok}
use titan_ssh.SftpService.Models.{reject}
use titan_ssh.SftpService.Transfer.{
  LocalAnswers, Round, chunk, download_temp_path, upload_temp_path, run_download,
}
use titan_ssh.SftpService.Worker as Worker
use titan_ssh.SftpService.Worker.{run_worker}
use titan_ssh.SftpService.TempPaths.{download_temp_path-distinct}
use titan_ssh.SftpService.Upload.{RemoteAnswers, run_upload}
use titan_ssh.SftpService.Uploads as Uploads
use titan_ssh.SftpService.Uploads.{run_upload-EndsWell}
use titan_ssh.SftpService.Downloads as Downloads
use titan_ssh.SftpService.Downloads.{run_download-EndsWell}
use titan_ssh.SftpService.Samples.{session, first_id, second_id, local}

abbrev willing : LocalAnswers
willing = record {
  creation = none;
  flush = none;
  intruder = none;
  opening = none;
  registration = none;
  renaming = none;
  closing = none;
  removal = none;
}

abbrev rounds : List Round
rounds = chunk 1 (2 ∷ []) none ∷ chunk 3 [] none ∷ []

temp_path_test : download_temp_path local first_id ≡ codes "/d/.f.1.part"
unfolding download_temp_path file_name parent join codes beq
temp_path_test = refl

temp_ne : download_temp_path local first_id ≢ local
unfolding download_temp_path file_name parent join codes beq
temp_ne e = ground arith

run_download-EndsWell_example :
    Downloads.EndsWell willing reject
      (download_temp_path local first_id)
      local
      (Downloads.source_bytes (ok rounds))
      []
      (run_download willing none (ok rounds) (λ k. false) reject local first_id [])
run_download-EndsWell_example =
    run_download-EndsWell willing none (ok rounds) (λ k. false) reject local first_id [] temp_ne
      refl (omega arith)

downloaded :
    run_download willing none (ok rounds) (λ k. false) reject local first_id []
    ≡ ((local, 1 ∷ 2 ∷ 3 ∷ []) ∷ [], Worker.done)
unfolding run_download file_name parent join codes beq
downloaded = refl

abbrev obliging : RemoteAnswers
obliging = record {
  creation = none;
  flush = none;
  metadata = none;
  intruder = none;
  renaming = none;
  removal = none;
}

upload_ne : upload_temp_path local first_id ≢ local
unfolding upload_temp_path file_name parent join codes beq
upload_ne e = ground arith

run_upload-EndsWell_example :
    Uploads.EndsWell obliging reject
      (upload_temp_path local first_id)
      local
      (Uploads.source_bytes (inr rounds))
      []
      (run_upload obliging none (inr rounds) (λ k. false) reject local first_id [])
run_upload-EndsWell_example =
    run_upload-EndsWell obliging none (inr rounds) (λ k. false) reject local first_id [] upload_ne
      refl (omega arith)

-- The target is there: it stays, and the temporary file is removed.
upload_refused :
    run_upload obliging none (inr rounds) (λ k. false) reject local first_id ((local, 9 ∷ []) ∷ [])
    ≡ ((local, 9 ∷ []) ∷ [], Worker.failed (sftp_target_exists local))
unfolding run_upload file_name parent join codes beq
upload_refused = refl

local_name : file_name local ≡ some (102 ∷ [])
unfolding file_name beq
local_name = refl

download_temp_path-distinct_example :
    (download_temp_path local first_id ≢ local)
    × (download_temp_path local first_id ≡ download_temp_path local second_id
        → first_id ≡ second_id)
download_temp_path-distinct_example =
    download_temp_path-distinct local (102 ∷ []) first_id second_id local_name (omega arith, tt)
      (omega arith, tt)

abbrev at : ℕ → Readings
at n = record { tested = n; measured = n; restarted = n }

-- A chunk that is written too soon after the last event is reported with the next one.
abbrev written : List (ℕ × Readings)
written = (5, at 700) ∷ (7, at 900) ∷ (9, at 1300) ∷ []

abbrev per_second : ℕ → ℕ → ℕ
per_second n elapsed = n * 1000 / elapsed

two_events :
    map
      (λ e. e.transferred_bytes)
      (report_chunks per_second first_id session 21 written (new_progress 100)).events
    ≡ 21 ∷ 5 ∷ []
unfolding report_chunks
two_events = refl
