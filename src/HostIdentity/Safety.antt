-- ===== src/HostIdentity/Safety.antt =====
-- core/host_identity.rs: `verify` in the states that the service can reach.
use titan_ssh.Common.{
  ℕ, ◌≡◌, ◌≢◌, refl, sym, ◌∙◌, subst, ◌⊎◌, inl, inr, true, false, List, Option, none, some, arith,
  Text, text_eq, get, get-insert, beq_iff, Bool-cases, option_rule, if_rule,
}
use titan_ssh.TrustStore.Records.{TrustRecord, Base64, matches}
use titan_ssh.TrustStore.State.{Store}
use titan_ssh.Errors.{Result, ok, err, host_key_verification_cancelled}
use titan_ssh.HostIdentity.State.{
  HostIdentityService, PresentedHostKey, ChallengeWait, accepted, key_eq, presented_key,
  from_challenge, drop_wait, decide, contains, add, new,
}
use titan_ssh.HostIdentity.Verify.{
  check_known, stored_record, open_challenge, announce, verify, Turn, done, Opened, panicked,
  wait_for_decision, verify_found,
}
use titan_ssh.HostIdentity.Decisions.{accept, cancel_session}
use titan_ssh.HostIdentity.Holding.{IsConsistent}
use titan_ssh.HostIdentity.Growth.{Reach-Grows}
use titan_ssh.HostIdentity.Frames.{cancel_session_frame, contains-add_self}
use titan_ssh.HostIdentity.Steps.{Reach, new-IsConsistent, Reach-IsConsistent, stored_record-same}

open_challenge-panics :
    (base64 : Base64) (digest : List ℕ → List ℕ) (session_id : Text) (presented : PresentedHostKey)
    (stored : Option TrustRecord) (id : Text) (now : ℕ) (s : HostIdentityService)
    → IsConsistent s
    → (announce (open_challenge base64 digest session_id presented stored id now s)).1 ≢ panicked
unfolding open_challenge announce
open_challenge-panics base64 digest session_id presented stored id now s h =
    let P : HostIdentityService × Opened → Type 0 = λ r. (announce r).1 ≢ panicked in
    if_rule P (contains session_id s.cancelled) (λ _ e. cc)
      (λ o.
        if_rule P (contains (presented_key session_id presented) s.trusted) (λ _ e. cc)
          (λ _.
            option_rule P (get (presented_key session_id presented) s.pending_index) (λ n e. cc)
              (λ k g.
                option_rule P (get k s.pending)
                  (λ n.
                    let (w, found, same) =
                      h.synced.listed (presented_key session_id presented) k g in
                    absurd (let z : none ≡ some w = sym n ∙ found in cc))
                  (λ w _ e. cc))))

verify_found-panics :
    (base64 : Base64) (digest : List ℕ → List ℕ) (session_id : Text) (presented : PresentedHostKey)
    (id : Text) (now : ℕ) (r : HostIdentityService × Result (Option TrustRecord))
    → IsConsistent r.0
    → (verify_found base64 digest session_id presented id now r).1 ≢ panicked
unfolding verify_found
verify_found-panics base64 digest session_id presented id now (t, err error) h = λ e. cc
verify_found-panics base64 digest session_id presented id now (t, ok none) h =
    open_challenge-panics base64 digest session_id presented none id now t h
verify_found-panics base64 digest session_id presented id now (t, ok (some r)) h =
    if_rule (λ (x : HostIdentityService × Turn). x.1 ≢ panicked)
      (matches r presented.host presented.port presented.algorithm presented.blob) (λ _ e. cc)
      (λ _. open_challenge-panics base64 digest session_id presented (some r) id now t h)

module _ {base64 : Base64} {digest : List ℕ → List ℕ} where
  -- In every state that the service can reach, from any trust store: the pending challenges and
  -- their index agree one to one; a session has at most one pending challenge for an endpoint; and
  -- no session that has been cancelled has a pending challenge or trusts a key.
  pub Reach-new-IsConsistent :
      (store : Option Store) {t : HostIdentityService}
      → Reach base64 digest (new store) t
      → IsConsistent t
  Reach-new-IsConsistent store r = Reach-IsConsistent r (new-IsConsistent store)

  -- In every state that the service can reach, the `expect` on the index of the pending challenges
  -- cannot fail: `verify` returns or waits for a challenge, and never panics.
  pub verify_never_panics :
      (store : Option Store) {s : HostIdentityService}
      → Reach base64 digest (new store) s
      → (session_id : Text) (presented : PresentedHostKey) (id : Text) (now : ℕ)
      → (verify base64 digest session_id presented id now s).1 ≢ panicked
  unfolding verify
  verify_never_panics store {s} r session_id presented id now =
      let h = Reach-new-IsConsistent store r in
      let t = (stored_record base64 presented s).0 in
      let k : IsConsistent t = subst IsConsistent (sym (stored_record-same base64 presented s)) h in
      option_rule (λ (r : HostIdentityService × Turn). r.1 ≢ panicked)
        (check_known session_id presented s)
        (λ _.
          verify_found-panics base64 digest session_id presented id now
            (stored_record base64 presented s) k)
        (λ a _ e. cc)

  -- Once a session is cancelled, whatever happens then, `verify` for it fails at once with
  -- `HostKeyVerificationCancelled` for every key, stored or accepted before, and changes nothing.
  pub verify-cancelled :
      (x : Text) (s : HostIdentityService) {t : HostIdentityService}
      → Reach base64 digest (cancel_session x s) t
      → (presented : PresentedHostKey) (id : Text) (now : ℕ)
      → verify base64 digest x presented id now t
        ≡ (t, done (err (host_key_verification_cancelled x)))
  unfolding verify check_known
  verify-cancelled x s {t} r presented id now =
      let f = cancel_session_frame x s in
      let c : contains x (cancel_session x s).cancelled ≡ true =
        subst (λ l. contains x l ≡ true) (sym f.1) (contains-add_self x s.cancelled) in
      let g = (Reach-Grows r).closed x c in rw (verify, check_known, g) refl

  -- Once a challenge is accepted, its waiters go on, and whatever happens then, `verify` for the
  -- same session, endpoint and fingerprint returns at once and changes nothing: with success, or,
  -- if the session has been cancelled since, with `HostKeyVerificationCancelled`. The user is not
  -- asked again.
  verify-accepted :
      (id : Text) (w : ChallengeWait) (s : HostIdentityService) {t : HostIdentityService}
      → get id s.pending ≡ some w
      → Reach base64 digest (accept id s).0 t
      → (session_id : Text) (presented : PresentedHostKey) (new_id : Text) (now : ℕ)
      → presented_key session_id presented ≡ from_challenge w.challenge
      → (wait_for_decision session_id w (accept id s).0 ≡ some (ok tt))
        × ((verify base64 digest session_id presented new_id now t ≡ (t, done (ok tt)))
            ⊎ (verify base64 digest session_id presented new_id now t
                ≡ (t, done (err (host_key_verification_cancelled session_id)))))
  unfolding verify check_known wait_for_decision accept
  verify-accepted id w s {t} g r session_id presented new_id now same =
      let key = presented_key session_id presented in
      let a : accept id s ≡ (
        decide accepted w (record (drop_wait id w s) {
          trusted = add (from_challenge w.challenge) (drop_wait id w s).trusted;
        }),
        ok tt,
      ) =
        simp (accept, g) in
      let trusts : contains key (accept id s).0.trusted ≡ true =
        rw (same, a)
          (unfold decide in
            unfold drop_wait in contains-add_self (from_challenge w.challenge) s.trusted) in
      let b = (beq_iff w.challenge.challenge_id w.challenge.challenge_id).1 refl in
      let woken : get w.challenge.challenge_id (accept id s).0.decisions ≡ some accepted = rw a (
        unfold decide in
        unfold drop_wait in
        ground (
          arith,
          get-insert w.challenge.challenge_id w.challenge.challenge_id accepted s.decisions,
        )) in
      (
        rw (wait_for_decision, woken) refl,
        elim (Bool-cases (contains session_id t.cancelled)) [
          | inl c ↦ inr (rw (verify, check_known, c) refl)
          | inr o ↦ elim ((Reach-Grows r).trusts key trusts) [
            | inl k ↦ inl (rw (verify, check_known, o, k) refl)
            | inr k ↦ (let z : true ≡ false = sym k ∙ o in cc)
          ]
        ],
      )
