-- ===== src/SftpService/Samples.antt =====
-- core/sftp_service.rs: a service with one session, and a download that it is asked for.
use titan_ssh.Common.{refl, [], ◌∷◌, Text, text_eq, beq}
use titan_ssh.Errors.{ok}
use titan_ssh.TransferPool.{system}
use titan_ssh.SftpService.Registry.{
  SftpService, new, register_session_with_verifier, commit_download,
}
use titan_ssh.SftpService.Steps.{opens, downloads, Reach, here, next, IsFresh, history}

abbrev pub session : Text
session = 115 ∷ []

abbrev pub first_id : Text
first_id = 49 ∷ []

abbrev pub second_id : Text
second_id = 50 ∷ []

-- `/d/f`.
abbrev pub local : Text
local = 47 ∷ 100 ∷ 47 ∷ 102 ∷ []

abbrev pub empty : SftpService
empty = new system 60000

abbrev pub opened : SftpService
opened = register_session_with_verifier session empty

abbrev pub asked : SftpService
asked = (commit_download (ok 10) first_id 5 session local local opened).0

first_IsFresh : IsFresh first_id opened
unfolding new register_session_with_verifier history beq
first_IsFresh = record { unknown = refl; unsent = refl; unheld = (refl, tt) }

pub asked_Reach : Reach empty asked
asked_Reach =
    next (next here (opens empty session))
      (downloads opened (ok 10) first_id 5 session local local first_IsFresh)
