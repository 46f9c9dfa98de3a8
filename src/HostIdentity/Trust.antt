-- ===== src/HostIdentity/Trust.antt =====
-- core/host_identity.rs: where the trust of a session comes from.
use titan_ssh.Common.{◌≡◌, true, some, Text, text_eq, get}
use titan_ssh.TrustStore.Records.{TrustRecord, matches}
use titan_ssh.HostIdentity.State.{
  HostIdentityService, PresentedHostKey, ChallengeWait, IdentityKey, accepted, key_eq,
  presented_key, from_challenge,
}

-- A pending challenge for the key has been accepted.
pub record IsConfirmed (key : IdentityKey) (s t : HostIdentityService) : Type 0 where
  pub id : Text
  pub wait : ChallengeWait
  pub asked : get id s.pending ≡ some wait
  pub same : from_challenge wait.challenge ≡ key
  pub told : get wait.challenge.challenge_id t.decisions ≡ some accepted

-- A stored record is exactly what the server presented.
pub record IsRecorded (key : IdentityKey) : Type 0 where
  pub presented : PresentedHostKey
  pub stored : TrustRecord
  pub is_match :
      matches stored presented.host presented.port presented.algorithm presented.blob ≡ true
  pub same : presented_key key.session_id presented ≡ key
