-- ===== src/HostIdentity/Closing.antt =====
-- core/host_identity.rs: what becomes of the waiters when their session is closed.
use titan_ssh.Common.{
  ◌≡◌, ◌≢◌, refl, sym, ◌∙◌, ap, subst, ◌⊎◌, inl, inr, Bool, true, false, not, [], ◌∷◌, none, some,
  arith, Text, text_eq, get, ◌==◌, beq_iff, Bool-cases, eq_cases, retain,
}
use titan_ssh.TrustStore.Records.{Base64}
use titan_ssh.TrustStore.State.{Publish}
use titan_ssh.Errors.{ok, err, host_key_verification_cancelled, host_key_challenge_not_found}
use titan_ssh.HostIdentity.State.{
  HostIdentityService, ChallengeWait, IdentityKey, cancelled, accepted, key_eq, drop_waits, values,
  add,
}
use titan_ssh.HostIdentity.Verify.{wait_for_decision}
use titan_ssh.HostIdentity.Decisions.{accept, reject, cancel_session, accept_and_save}
use titan_ssh.HostIdentity.Sync.{Pending, IsCut-refl}
use titan_ssh.HostIdentity.Batches.{
  values-Found, retain-Found, get-drop_waits, get-decide_all, is_among, decide_all_frame, Found,
}
use titan_ssh.HostIdentity.Consistent.{reject_missing}
use titan_ssh.HostIdentity.Holding.{IsConsistent}
use titan_ssh.HostIdentity.Openings.{is_among-retain}

-- The challenge with the id is there for no decision.
abbrev pub IsGone : Base64 → Text → HostIdentityService → Type 0
IsGone base64 id t =
    (accept id t ≡ (t, err (host_key_challenge_not_found id)))
    × (reject id t ≡ (t, err (host_key_challenge_not_found id)))
    × ((answer : Publish)
        → accept_and_save base64 answer id t ≡ (t, err (host_key_challenge_not_found id)))

pub missing-IsGone :
    (base64 : Base64) (id : Text) (t : HostIdentityService)
    → get id t.pending ≡ none
    → IsGone base64 id t
unfolding accept accept_and_save
missing-IsGone base64 id t n =
    (simp (accept, n), reject_missing id t n, λ answer. simp (accept_and_save, n))

-- A challenge that is taken by a test is among those that the test takes.
pub is_among_taken :
    (f : ChallengeWait → Bool) (id : Text) (v : ChallengeWait) (s : HostIdentityService)
    → IsConsistent s
    → get id s.pending ≡ some v
    → f v ≡ true
    → is_among id (retain f (values s.pending)) ≡ true
is_among_taken f id v s h g e = is_among-retain f id v s.pending g (h.synced.named id v g) e

-- And one that is not taken is not among them.
pub is_among_left :
    (f : ChallengeWait → Bool) (id : Text) (v : ChallengeWait) (m p : Pending)
    → get id p ≡ some v
    → Found p (values m)
    → f v ≡ false
    → is_among id (retain f (values m)) ≡ false
is_among_left f id v [] p g a e = refl
is_among_left f id v ((k, w) ∷ m) p g a e =
    let r = is_among_left f id v m p g a.1 e in
    elim (Bool-cases (f w)) [
      | inr q ↦ rw q r
      | inl q ↦ elim (eq_cases w.challenge.challenge_id id) [
        | inl c ↦
            (let a' : get id p ≡ some w = subst (λ x. get x p ≡ some w) c a.0 in
              let same : w ≡ v = cc in
              let e' : f w ≡ false = subst (λ x. f x ≡ false) (sym same) e in
              let z : true ≡ false = sym q ∙ e' in absurd (let y = z in cc))
        | inr n ↦ (let b = (beq_iff w.challenge.challenge_id id).0 in ground arith)
      ]
    ]

pub told_cancelled :
    (session_id id : Text) (v : ChallengeWait) (t : HostIdentityService)
    → v.challenge.challenge_id ≡ id
    → get id t.decisions ≡ some cancelled
    → wait_for_decision session_id v t ≡ some (err (host_key_verification_cancelled session_id))
unfolding wait_for_decision
told_cancelled session_id id v t n g =
    let g' : get v.challenge.challenge_id t.decisions ≡ some cancelled =
      subst (λ x. get x t.decisions ≡ some cancelled) (sym n) g in
    rw (wait_for_decision, g') refl

pub told_accepted :
    (session_id id : Text) (v : ChallengeWait) (t : HostIdentityService)
    → v.challenge.challenge_id ≡ id
    → get id t.decisions ≡ some accepted
    → wait_for_decision session_id v t ≡ some (ok tt)
unfolding wait_for_decision
told_accepted session_id id v t n g =
    let g' : get v.challenge.challenge_id t.decisions ≡ some accepted =
      subst (λ x. get x t.decisions ≡ some accepted) (sym n) g in
    rw (wait_for_decision, g') refl

-- Closing a session takes out each of its challenges, whose waiters fail with
-- `HostKeyVerificationCancelled`, and leaves the challenges of other sessions pending.
cancel_session-pending :
    (session_id id : Text) (v : ChallengeWait) (s : HostIdentityService)
    → IsConsistent s
    → get id s.pending ≡ some v
    → ((v.challenge.session_id ≡ session_id)
        × (get id (cancel_session session_id s).pending ≡ none)
        × (wait_for_decision session_id v (cancel_session session_id s)
            ≡ some (err (host_key_verification_cancelled session_id))))
      ⊎ ((v.challenge.session_id ≢ session_id)
          × (get id (cancel_session session_id s).pending ≡ some v))
unfolding cancel_session
cancel_session-pending session_id id v s h g =
    let f : ChallengeWait → Bool = λ w. w.challenge.session_id == session_id in
    let targets = retain f (values s.pending) in
    let u : HostIdentityService = record s {
      trusted = retain (λ (key : IdentityKey). not (key.session_id == session_id)) s.trusted;
      cancelled = add session_id s.cancelled;
    } in
    let t = drop_waits targets u in
    let start = IsCut-refl s.pending s.pending_index h.synced in
    let found = values-Found s.pending s.pending_index h.synced in
    let p =
      get-drop_waits s.pending s.pending_index id targets u h.synced start
        (retain-Found s.pending f (values s.pending) found) in
    let e = ap (λ (x : HostIdentityService). x.pending) (decide_all_frame cancelled targets t) in
    let d = get-decide_all cancelled id targets t in
    let i = beq_iff v.challenge.session_id session_id in
    elim (Bool-cases (f v)) [
      | inl q ↦
          (let m = is_among_taken f id v s h g q in
            inl (
              i.0 q,
              ap (get id) e ∙ p ∙ (rw m refl),
              told_cancelled session_id id v (cancel_session session_id s) (h.synced.named id v g)
                  (d ∙ (rw m refl)),
            ))
      | inr q ↦
          (let m = is_among_left f id v s.pending s.pending g found q in
            inr (
              (λ c. (let z = i.1 c in let y : true ≡ false = sym z ∙ q in cc)),
              ap (get id) e ∙ p ∙ (rw m g),
            ))
    ]
