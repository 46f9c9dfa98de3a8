-- ===== src/HostIdentity/Tests.antt =====
-- The confirmations of core/host_identity.rs at concrete keys: a server that is met for the first
-- time, and that then changes its key.
use titan_ssh.Common.{
  ℕ, ◌≡◌, ◌≢◌, refl, List, [], ◌∷◌, ◌++◌, none, some, Text, text_eq, nat_eq, beq, get,
}
use titan_ssh.Errors.{err, host_key_verification_cancelled}
use titan_ssh.TrustStore.Samples.{codec}
use titan_ssh.TrustStore.State.{Store, missing}
use titan_ssh.HostIdentity.State.{
  HostIdentityService, PresentedHostKey, ChallengeWait, key_eq, key_beq, presented_key, new,
  drop_waits, decide_all, unknown,
}
use titan_ssh.HostIdentity.Verify.{
  open_challenge, announce, verify, register, new_challenge, wait_for_decision, done, waiting,
  panicked,
}
use titan_ssh.HostIdentity.Decisions.{accept, cancel_session}
use titan_ssh.HostIdentity.Holding.{IsConsistent}
use titan_ssh.HostIdentity.Steps.{Reach, here, next, opens, accepts}
use titan_ssh.HostIdentity.Safety.{Reach-new-IsConsistent, verify_never_panics, verify-cancelled}
use titan_ssh.HostIdentity.Outcomes.{open_challenge-supersedes}
use titan_ssh.HostIdentity.Closing.{IsGone}
use titan_ssh.HostIdentity.Waiters.{Reach-IsAwaited, IsAwaited}

-- It stands in for SHA-256.
abbrev digest : List ℕ → List ℕ
digest b = b

abbrev tab : Text
tab = 1 ∷ []

abbrev tab2 : Text
tab2 = 2 ∷ []

abbrev first_id : Text
first_id = 10 ∷ []

abbrev second_id : Text
second_id = 20 ∷ []

abbrev key : PresentedHostKey
key = record {
  host = 119 ∷ [];
  port = 22;
  algorithm = 107 ∷ [];
  fingerprint = 65 ∷ [];
  blob = 1 ∷ [];
}

abbrev other_key : PresentedHostKey
other_key = record key { fingerprint = 66 ∷ []; blob = 2 ∷ [] }

abbrev empty_store : Store
empty_store = record { path = []; records = none; file = missing }

abbrev wait_of : Text → Text → ChallengeWait
wait_of session_id id = record {
  challenge = record {
    challenge_id = id;
    session_id = session_id;
    host = key.host;
    port = key.port;
    kind = unknown;
    key_algorithm = key.algorithm;
    fingerprint = key.fingerprint;
    stored_algorithm = none;
    stored_fingerprint = none;
    timestamp = 5;
  };
  presented_blob = key.blob;
}

abbrev start : HostIdentityService
start = new (some empty_store)

-- One tab has met the server, and then another.
abbrev asked : HostIdentityService
asked = (announce (open_challenge codec digest tab key none first_id 5 start)).0

abbrev asked_twice : HostIdentityService
asked_twice = (announce (open_challenge codec digest tab2 key none second_id 5 asked)).0

asked_pending : asked.pending ≡ (first_id, wait_of tab first_id) ∷ []
unfolding open_challenge announce register new_challenge new drop_waits decide_all beq key_beq
asked_pending = refl

asked_fields :
    (asked.cancelled ≡ [])
    × (asked.trusted ≡ [])
    × (asked.decisions ≡ [])
    × (asked.trust_store ≡ some empty_store)
    × (asked.pending_index ≡ (presented_key tab key, first_id) ∷ [])
unfolding open_challenge announce register new_challenge new drop_waits decide_all beq key_beq
asked_fields = (refl, refl, refl, refl, refl)

asked_twice_fields :
    (asked_twice.pending
      ≡ (first_id, wait_of tab first_id) ∷ (second_id, wait_of tab2 second_id) ∷ [])
    × (asked_twice.trust_store ≡ some empty_store)
unfolding open_challenge announce register new_challenge new drop_waits decide_all beq key_beq
asked_twice_fields = (refl, refl)

asked_first : get first_id asked.pending ≡ some (wait_of tab first_id)
unfolding open_challenge announce register new_challenge new drop_waits decide_all beq key_beq
asked_first = refl

asked-Reach : Reach codec digest start asked
unfolding new
asked-Reach = next here (opens start tab key none first_id 5 refl refl)

asked_twice-Reach : Reach codec digest start asked_twice
unfolding open_challenge announce register new_challenge new drop_waits decide_all beq key_beq
asked_twice-Reach = next asked-Reach (opens asked tab2 key none second_id 5 refl refl)

Reach-new-IsConsistent_example : IsConsistent asked_twice
Reach-new-IsConsistent_example = Reach-new-IsConsistent (some empty_store) asked_twice-Reach

asked-IsConsistent : IsConsistent asked
asked-IsConsistent = Reach-new-IsConsistent (some empty_store) asked-Reach

verify_never_panics_example : (verify codec digest tab other_key second_id 9 asked).1 ≢ panicked
verify_never_panics_example =
    verify_never_panics (some empty_store) asked-Reach tab other_key second_id 9

verify-cancelled_example :
    verify codec digest tab key second_id 9 (cancel_session tab asked)
    ≡ (cancel_session tab asked, done (err (host_key_verification_cancelled tab)))
verify-cancelled_example = verify-cancelled tab asked here key second_id 9

open_challenge-supersedes_example :
    let w = new_challenge codec digest tab other_key none second_id 9 in
    let (t, turn) = announce (open_challenge codec digest tab other_key none second_id 9 asked) in
    IsGone codec first_id t
    × (wait_for_decision tab (wait_of tab first_id) t
        ≡ some (err (host_key_verification_cancelled tab)))
    × (turn ≡ waiting w)
    × (get second_id t.pending ≡ some w)
    × (t.emitted ≡ asked.emitted ++ w.challenge ∷ [])
unfolding open_challenge announce register new_challenge new drop_waits decide_all beq key_beq
open_challenge-supersedes_example =
    open_challenge-supersedes codec digest tab other_key none second_id first_id 9
      (wait_of tab first_id) asked asked-IsConsistent refl asked_first refl refl refl refl

Reach-IsAwaited_example : IsAwaited first_id (wait_of tab first_id) (accept first_id asked).0
Reach-IsAwaited_example =
    Reach-IsAwaited {base64 = codec} {digest = digest} first_id (wait_of tab first_id)
      asked-IsConsistent asked_first (next here (accepts asked first_id))
