-- ===== src/HostIdentity/Consistent.antt =====
-- core/host_identity.rs: what holds of the state of the service between two of its operations.
use titan_ssh.Common.{
  ◌≡◌, refl, sym, subst, inl, inr, List, [], ◌∷◌, none, some, Text, text_eq, get, Option-cases,
  retain, nat_eq, option_rule,
}
use titan_ssh.Errors.{Result, ok, err, host_key_challenge_not_found}
use titan_ssh.HostIdentity.State.{
  HostIdentityService, ChallengeWait, Decision, accepted, rejected, cancelled, key_eq,
  from_challenge, drop_wait, drop_waits, decide, decide_all, values, add,
}
use titan_ssh.HostIdentity.Decisions.{
  accept, remove_pending, reject, cancel_by_id, cancel_ids, has_same_key, release_saved,
}
use titan_ssh.HostIdentity.Sync.{IsCut-refl, kept_of_cut}
use titan_ssh.HostIdentity.Batches.{
  Found, values-Found, retain-Found, drop_waits-IsCut, drop_waits_frame, decide_all_frame,
}
use titan_ssh.HostIdentity.Holding.{IsConsistent, accepted-Holds, cut-Holds, dropped-Holds}

pub drop_waits-IsConsistent :
    (ws : List ChallengeWait) (s : HostIdentityService)
    → IsConsistent s
    → Found s.pending ws
    → IsConsistent (drop_waits ws s)
drop_waits-IsConsistent ws s h a =
    let c =
      drop_waits-IsCut s.pending s.pending_index ws s h.synced
        (IsCut-refl s.pending s.pending_index h.synced) a in
    let t = drop_waits ws s in
    let k =
      cut-Holds s.pending s.pending_index s.trusted s.cancelled t.pending t.pending_index s.trusted
        s.cancelled h c
        (λ k v f.
          h.alive k v (kept_of_cut s.pending s.pending_index t.pending t.pending_index c k v f))
        h.untrusting in
    subst IsConsistent (sym (drop_waits_frame ws s)) k

pub decide_all-IsConsistent :
    (d : Decision) (ws : List ChallengeWait) (s : HostIdentityService)
    → IsConsistent s
    → IsConsistent (decide_all d ws s)
decide_all-IsConsistent d ws s h = subst IsConsistent (sym (decide_all_frame d ws s)) h

pub accept-IsConsistent :
    (id : Text) (s : HostIdentityService) → IsConsistent s → IsConsistent (accept id s).0
unfolding accept drop_wait decide
accept-IsConsistent id s h =
    option_rule (λ (r : HostIdentityService × Result (Unit {0})). IsConsistent r.0)
      (get id s.pending) (λ _. h)
      (λ w g. accepted-Holds s.pending s.pending_index s.trusted s.cancelled id w h g)

remove_pending_missing :
    (id : Text) (s : HostIdentityService)
    → get id s.pending ≡ none
    → remove_pending id s ≡ (s, err (host_key_challenge_not_found id))
unfolding remove_pending
remove_pending_missing id s g = rw (remove_pending, g) refl

remove_pending_found :
    (id : Text) (w : ChallengeWait) (s : HostIdentityService)
    → get id s.pending ≡ some w
    → remove_pending id s ≡ (drop_wait id w s, ok w)
unfolding remove_pending
remove_pending_found id w s g = rw (remove_pending, g) refl

pub reject_missing :
    (id : Text) (s : HostIdentityService)
    → get id s.pending ≡ none
    → reject id s ≡ (s, err (host_key_challenge_not_found id))
unfolding reject
reject_missing id s g = (let e = remove_pending_missing id s g in simp (reject, e))

pub reject_found :
    (id : Text) (w : ChallengeWait) (s : HostIdentityService)
    → get id s.pending ≡ some w
    → reject id s ≡ (decide rejected w (drop_wait id w s), ok w.challenge)
unfolding reject
reject_found id w s g = (let e = remove_pending_found id w s g in simp (reject, e))

pub cancel_by_id_missing :
    (id : Text) (s : HostIdentityService) → get id s.pending ≡ none → cancel_by_id id s ≡ s
unfolding cancel_by_id
cancel_by_id_missing id s g = (let e = remove_pending_missing id s g in simp (cancel_by_id, e))

pub cancel_by_id_found :
    (id : Text) (w : ChallengeWait) (s : HostIdentityService)
    → get id s.pending ≡ some w
    → cancel_by_id id s ≡ decide cancelled w (drop_wait id w s)
unfolding cancel_by_id
cancel_by_id_found id w s g = (let e = remove_pending_found id w s g in simp (cancel_by_id, e))

decided_drop-IsConsistent :
    (d : Decision) (id : Text) (w : ChallengeWait) (s : HostIdentityService)
    → IsConsistent s
    → get id s.pending ≡ some w
    → IsConsistent (decide d w (drop_wait id w s))
unfolding decide drop_wait
decided_drop-IsConsistent d id w s h g =
    dropped-Holds s.pending s.pending_index s.trusted s.cancelled id w h g

pub reject-IsConsistent :
    (id : Text) (s : HostIdentityService) → IsConsistent s → IsConsistent (reject id s).0
reject-IsConsistent id s h = elim (Option-cases (get id s.pending)) [
  | inl q ↦ rw (reject_missing id s q) h
  | inr (w, g) ↦ rw (reject_found id w s g) (decided_drop-IsConsistent rejected id w s h g)
]

pub cancel_by_id-IsConsistent :
    (id : Text) (s : HostIdentityService) → IsConsistent s → IsConsistent (cancel_by_id id s)
cancel_by_id-IsConsistent id s h = elim (Option-cases (get id s.pending)) [
  | inl q ↦ rw (cancel_by_id_missing id s q) h
  | inr (w, g) ↦ rw (cancel_by_id_found id w s g) (decided_drop-IsConsistent cancelled id w s h g)
]

pub cancel_ids-IsConsistent :
    (ids : List Text) (s : HostIdentityService) → IsConsistent s → IsConsistent (cancel_ids ids s)
unfolding cancel_ids
cancel_ids-IsConsistent [] s h = h
cancel_ids-IsConsistent (id ∷ ids) s h =
    cancel_ids-IsConsistent ids (cancel_by_id id s) (cancel_by_id-IsConsistent id s h)

pub release_saved-IsConsistent :
    (id : Text) (w : ChallengeWait) (s : HostIdentityService)
    → IsConsistent s
    → get id s.pending ≡ some w
    → IsConsistent (release_saved id w s)
unfolding release_saved
release_saved-IsConsistent id w s h g =
    let t : HostIdentityService = record (drop_wait id w s) {
      trusted = add (from_challenge w.challenge) (drop_wait id w s).trusted;
    } in
    let k : IsConsistent t =
      unfold drop_wait in accepted-Holds s.pending s.pending_index s.trusted s.cancelled id w h g in
    let others = retain (has_same_key w) (values t.pending) in
    let f =
      retain-Found t.pending (has_same_key w) (values t.pending)
        (values-Found t.pending t.pending_index k.synced) in
    let u = drop_waits-IsConsistent others t k f in
    decide_all-IsConsistent accepted others (decide accepted w (drop_waits others t))
      (unfold decide in u)
