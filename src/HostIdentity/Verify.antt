-- ===== src/HostIdentity/Verify.antt =====
-- core/host_identity.rs: `verify`, one definition for each of its stretches under the state lock,
-- and the wait for a decision. The digest SHA-256 is a parameter; the new challenge's id and
-- time are arguments.
use titan_ssh.Common.{
  ℕ, Bool, true, false, not, ◌&&◌, List, [], ◌∷◌, ◌++◌, Option, none, some, Text, codes, text_eq,
  nat_eq, ◌==◌, if◌then◌else◌, get, insert, remove, retain, to_decimal,
}
use titan_ssh.Errors.{Result, ok, err, host_key_verification_cancelled, host_key_rejected}
use titan_ssh.TrustStore.Records.{TrustRecord, Base64, matches}
use titan_ssh.TrustStore.State.{lookup}
use titan_ssh.HostIdentity.State.{
  HostIdentityService, PresentedHostKey, ChallengeWait, accepted, rejected, cancelled, unknown,
  changed, key_eq, presented_key, from_challenge, contains, add, values, drop_waits, decide_all,
}

-- How the third stretch ends: with a result, with the challenge to wait for, whether it is new,
-- and the challenges that it supersedes, or with the panic of its `expect`.
pub data Opened : Type 0 where
  returned : Result (Unit {0}) → Opened
  waits_for : ChallengeWait → Bool → List ChallengeWait → Opened
  panics : Opened

-- How `verify` ends, or stands still.
pub data Turn : Type 0 where
  done : Result (Unit {0}) → Turn
  waiting : ChallengeWait → Turn
  panicked : Turn

-- The first stretch.
unfoldable pub check_known :
    Text → PresentedHostKey → HostIdentityService → Option (Result (Unit {0}))
check_known session_id presented s =
    if contains session_id s.cancelled
    then some (err (host_key_verification_cancelled session_id))
    else if contains (presented_key session_id presented) s.trusted
    then some (ok tt)
    else none

-- The second stretch, once the stored record matches.
unfoldable pub trust_matched :
    Text → PresentedHostKey → HostIdentityService → HostIdentityService × Result (Unit {0})
trust_matched session_id presented s =
    if contains session_id s.cancelled
    then (s, err (host_key_verification_cancelled session_id))
    else (record s { trusted = add (presented_key session_id presented) s.trusted }, ok tt)

-- A pending challenge of the same session and endpoint for another key.
abbrev pub is_superseded : Text → PresentedHostKey → ChallengeWait → Bool
is_superseded session_id presented other =
    other.challenge.session_id == session_id
    && other.challenge.host == presented.host
    && other.challenge.port == presented.port
    && not (other.challenge.fingerprint == presented.fingerprint)

-- `wait_for_decision`, at one look at the cell; `none` is to sleep on.
unfoldable pub wait_for_decision :
    Text → ChallengeWait → HostIdentityService → Option (Result (Unit {0}))
wait_for_decision session_id wait s = elim (get wait.challenge.challenge_id s.decisions) [
  | none ↦ none
  | some accepted ↦ some (ok tt)
  | some rejected ↦ some (
      err (
        host_key_rejected (
          wait.challenge.host
          ++ codes ":"
          ++ to_decimal wait.challenge.port
          ++ codes " ("
          ++ wait.challenge.fingerprint
          ++ codes ")")))
  | some cancelled ↦ some (err (host_key_verification_cancelled session_id))
]

-- A new challenge in both maps, with an empty cell, in place of those that it supersedes.
unfoldable pub register :
    ChallengeWait → List ChallengeWait → HostIdentityService → HostIdentityService
unfolding drop_waits
register wait superseded s =
    let t = drop_waits superseded s in
    record t {
      pending = insert wait.challenge.challenge_id wait t.pending;
      pending_index =
          insert (from_challenge wait.challenge) wait.challenge.challenge_id t.pending_index;
      decisions = remove wait.challenge.challenge_id t.decisions;
    }

-- What follows the third stretch: the superseded are cancelled, and a new challenge is sent.
unfoldable pub announce : HostIdentityService × Opened → HostIdentityService × Turn
unfolding decide_all
announce (s, returned r) = (s, done r)
announce (s, panics) = (s, panicked)
announce (s, waits_for wait created superseded) =
    let t = decide_all cancelled superseded s in
    (if created then record t { emitted = t.emitted ++ wait.challenge ∷ [] } else t, waiting wait)

module _ (base64 : Base64) where
  -- The record of the endpoint, whether or not it matches.
  unfoldable pub stored_record :
      PresentedHostKey → HostIdentityService → HostIdentityService × Result (Option TrustRecord)
  unfolding lookup
  stored_record presented s = elim s.trust_store [
    | none ↦ (s, ok none)
    | some store ↦
        let (t, found) = lookup base64 presented.host presented.port store in
        (record s { trust_store = some t }, found)
  ]

module _ (base64 : Base64) (digest : List ℕ → List ℕ) where
  unfoldable pub fingerprint_sha256 : List ℕ → Text
  fingerprint_sha256 blob = codes "SHA256:" ++ base64.encode (digest blob)

  unfoldable pub new_challenge :
      Text → PresentedHostKey → Option TrustRecord → Text → ℕ → ChallengeWait
  unfolding fingerprint_sha256
  new_challenge session_id presented stored challenge_id timestamp = record {
    challenge = record {
      challenge_id = challenge_id;
      session_id = session_id;
      host = presented.host;
      port = presented.port;
      kind = elim stored [ none ↦ unknown | some record_of ↦ changed ];
      key_algorithm = presented.algorithm;
      fingerprint = presented.fingerprint;
      stored_algorithm = elim stored [ none ↦ none | some r ↦ some r.algorithm ];
      stored_fingerprint = elim stored [ none ↦ none | some r ↦ some (fingerprint_sha256 r.blob) ];
      timestamp = timestamp;
    };
    presented_blob = presented.blob;
  }

  -- The third stretch.
  unfoldable pub open_challenge :
      Text
      → PresentedHostKey
      → Option TrustRecord
      → Text
      → ℕ
      → HostIdentityService
      → HostIdentityService × Opened
  unfolding new_challenge register
  open_challenge session_id presented stored challenge_id timestamp s =
      if contains session_id s.cancelled
      then (s, returned (err (host_key_verification_cancelled session_id)))
      else if contains (presented_key session_id presented) s.trusted
      then (s, returned (ok tt))
      else elim (get (presented_key session_id presented) s.pending_index) [
        | some existing ↦ elim (get existing s.pending) [
          | some wait ↦ (s, waits_for wait false [])
          | none ↦ (s, panics)
        ]
        | none ↦
            let superseded = retain (is_superseded session_id presented) (values s.pending) in
            let wait = new_challenge session_id presented stored challenge_id timestamp in
            (register wait superseded s, waits_for wait true superseded)
      ]

  -- `verify` from the lookup on, with nothing in between.
  unfoldable pub verify_found :
      Text
      → PresentedHostKey
      → Text
      → ℕ
      → HostIdentityService × Result (Option TrustRecord)
      → HostIdentityService × Turn
  unfolding trust_matched open_challenge announce
  verify_found session_id presented challenge_id timestamp (t, err error) = (t, done (err error))
  verify_found session_id presented challenge_id timestamp (t, ok none) =
      announce (open_challenge session_id presented none challenge_id timestamp t)
  verify_found session_id presented challenge_id timestamp (t, ok (some r)) =
      if matches r presented.host presented.port presented.algorithm presented.blob
      then (let (u, result) = trust_matched session_id presented t in (u, done result))
      else announce (open_challenge session_id presented (some r) challenge_id timestamp t)

  -- `verify` with nothing in between, up to its wait.
  unfoldable pub verify :
      Text → PresentedHostKey → Text → ℕ → HostIdentityService → HostIdentityService × Turn
  unfolding check_known stored_record verify_found
  verify session_id presented challenge_id timestamp s = elim (check_known session_id presented s) [
    | some r ↦ (s, done r)
    | none ↦
        verify_found session_id presented challenge_id timestamp (stored_record base64 presented s)
  ]
