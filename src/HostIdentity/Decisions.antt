-- ===== src/HostIdentity/Decisions.antt =====
-- core/host_identity.rs: what the user and the sessions decide, and the stored records.
use titan_ssh.Common.{
  ℕ, Bool, not, ◌&&◌, List, [], ◌∷◌, none, some, Text, codes, text_eq, nat_eq, ◌==◌, get, retain,
  map,
}
use titan_ssh.Errors.{
  Result, ok, err, host_key_challenge_not_found, host_key_save_failed, trust_store_error, to_string,
}
use titan_ssh.TrustStore.Records.{TrustRecord, Base64}
use titan_ssh.TrustStore.State.{Publish, upsert, remove, list}
use titan_ssh.HostIdentity.State.{
  HostIdentityService, HostIdentityChallenge, ChallengeWait, accepted, rejected, cancelled, key_eq,
  from_challenge, add, values, drop_wait, drop_waits, decide, decide_all,
}
use titan_ssh.HostIdentity.Verify.{fingerprint_sha256}

unfoldable pub accept : Text → HostIdentityService → HostIdentityService × Result (Unit {0})
unfolding drop_wait decide
accept challenge_id s = elim (get challenge_id s.pending) [
  | none ↦ (s, err (host_key_challenge_not_found challenge_id))
  | some wait ↦
      let t = drop_wait challenge_id wait s in
      (
        decide accepted wait (record t { trusted = add (from_challenge wait.challenge) t.trusted }),
        ok tt,
      )
]

unfoldable pub remove_pending :
    Text → HostIdentityService → HostIdentityService × Result ChallengeWait
unfolding drop_wait
remove_pending challenge_id s = elim (get challenge_id s.pending) [
  | none ↦ (s, err (host_key_challenge_not_found challenge_id))
  | some wait ↦ (drop_wait challenge_id wait s, ok wait)
]

unfoldable pub reject :
    Text → HostIdentityService → HostIdentityService × Result HostIdentityChallenge
unfolding remove_pending decide
reject challenge_id s =
    let (t, removed) = remove_pending challenge_id s in
    elim removed [
      | err error ↦ (t, err error)
      | ok wait ↦ (decide rejected wait t, ok wait.challenge)
    ]

unfoldable pub cancel_by_id : Text → HostIdentityService → HostIdentityService
unfolding remove_pending decide
cancel_by_id challenge_id s =
    let (t, removed) = remove_pending challenge_id s in
    elim removed [ err error ↦ t | ok wait ↦ decide cancelled wait t ]

unfoldable pub cancel_session : Text → HostIdentityService → HostIdentityService
unfolding drop_waits decide_all
cancel_session session_id s =
    let targets =
      retain (λ (w : ChallengeWait). w.challenge.session_id == session_id) (values s.pending) in
    decide_all cancelled targets (
      drop_waits targets (record s {
        trusted = retain (λ key. not (key.session_id == session_id)) s.trusted;
        cancelled = add session_id s.cancelled;
      }))

-- `cancel_all`, over the ids that it has read.
unfoldable pub cancel_ids : List Text → HostIdentityService → HostIdentityService
unfolding cancel_by_id
cancel_ids [] s = s
cancel_ids (id ∷ ids) s = cancel_ids ids (cancel_by_id id s)

unfoldable pub cancel_all : HostIdentityService → HostIdentityService
unfolding cancel_ids
cancel_all s = cancel_ids (map (λ (e : Text × ChallengeWait). e.0) s.pending) s

-- A pending challenge for the same endpoint and the same key.
abbrev pub has_same_key : ChallengeWait → ChallengeWait → Bool
has_same_key wait other =
    other.challenge.host == wait.challenge.host
    && other.challenge.port == wait.challenge.port
    && other.challenge.key_algorithm == wait.challenge.key_algorithm
    && other.presented_blob == wait.presented_blob

abbrev pub record_of : ChallengeWait → TrustRecord
record_of wait = record {
  host = wait.challenge.host;
  port = wait.challenge.port;
  algorithm = wait.challenge.key_algorithm;
  blob = wait.presented_blob;
}

-- `TrustedHostInfo`.
pub record TrustedHostInfo : Type 0 where
  pub host : Text
  pub port : ℕ
  pub algorithm : Text
  pub fingerprint : Text

-- Once the record is saved: the challenge is accepted, and so are those for the same key.
unfoldable pub release_saved : Text → ChallengeWait → HostIdentityService → HostIdentityService
unfolding drop_wait drop_waits decide decide_all
release_saved challenge_id wait s =
    let t = drop_wait challenge_id wait s in
    let others = retain (has_same_key wait) (values t.pending) in
    decide_all accepted others (
      decide accepted wait
        (drop_waits others (record t { trusted = add (from_challenge wait.challenge) t.trusted })))

module _ (base64 : Base64) where
  unfoldable pub accept_and_save :
      Publish → Text → HostIdentityService → HostIdentityService × Result (Unit {0})
  unfolding upsert release_saved
  accept_and_save answer challenge_id s = elim (get challenge_id s.pending) [
    | none ↦ (s, err (host_key_challenge_not_found challenge_id))
    | some wait ↦ elim s.trust_store [
      | none ↦ (s, err (host_key_save_failed (codes "信任存储未初始化，无法持久化信任记录")))
      | some store ↦
          let (saved, result) = upsert base64 answer (record_of wait) store in
          let t = record s { trust_store = some saved } in
          elim result [
            | err error ↦ (t, err (host_key_save_failed (to_string error)))
            | ok _ ↦ (release_saved challenge_id wait t, ok tt)
          ]
    ]
  ]

  unfoldable pub forget_endpoint :
      Publish → Text → ℕ → HostIdentityService → HostIdentityService × Result (Unit {0})
  unfolding remove
  forget_endpoint answer host port s = elim s.trust_store [
    | none ↦ (s, err (trust_store_error (codes "信任存储未初始化，无法清理信任记录")))
    | some store ↦
        let (t, result) = remove base64 answer host port store in
        (record s { trust_store = some t }, result)
  ]

  module _ (digest : List ℕ → List ℕ) where
    unfoldable pub list_trusted_hosts :
        HostIdentityService → HostIdentityService × Result (List TrustedHostInfo)
    unfolding list fingerprint_sha256
    list_trusted_hosts s = elim s.trust_store [
      | none ↦ (s, ok [])
      | some store ↦
          let (t, result) = list base64 store in
          (
            record s { trust_store = some t },
            elim result [
              | err error ↦ err error
              | ok records ↦ ok (
                  map
                    (λ (r : TrustRecord). record {
                      host = r.host;
                      port = r.port;
                      algorithm = r.algorithm;
                      fingerprint = fingerprint_sha256 base64 digest r.blob;
                    })
                    records)
            ],
          )
    ]
