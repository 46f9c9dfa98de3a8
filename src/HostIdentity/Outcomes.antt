-- ===== src/HostIdentity/Outcomes.antt =====
-- core/host_identity.rs: what becomes of the waiters when challenges are superseded, cancelled, or
-- saved.
use titan_ssh.Common.{
  ℕ, ◌≡◌, refl, sym, ◌∙◌, ap, subst, inl, inr, true, false, List, [], ◌∷◌, ◌++◌, Option, none, some,
  Text, text_eq, get, insert, get-insert, ◌==◌, beq_iff, Bool-cases,
}
use titan_ssh.TrustStore.Records.{TrustRecord, Base64}
use titan_ssh.Errors.{err, host_key_verification_cancelled}
use titan_ssh.HostIdentity.State.{
  HostIdentityService, PresentedHostKey, ChallengeWait, cancelled, key_eq, presented_key,
  drop_waits, decide_all, contains,
}
use titan_ssh.HostIdentity.Verify.{
  open_challenge, announce, wait_for_decision, is_superseded, register, new_challenge, waits_for,
  Turn, waiting,
}
use titan_ssh.HostIdentity.Sync.{IsCut-refl}
use titan_ssh.HostIdentity.Batches.{
  get-drop_waits, get-decide_all, decide_all_frame, drop_waits_frame,
}
use titan_ssh.HostIdentity.Holding.{IsConsistent}
use titan_ssh.HostIdentity.Openings.{superseded_waits, superseded-Found}
use titan_ssh.HostIdentity.Closing.{IsGone, is_among_taken, missing-IsGone, told_cancelled}

opened :
    (base64 : Base64) (digest : List ℕ → List ℕ) (session_id : Text) (presented : PresentedHostKey)
    (stored : Option TrustRecord) (id : Text) (now : ℕ) (s : HostIdentityService)
    → contains session_id s.cancelled ≡ false
    → contains (presented_key session_id presented) s.trusted ≡ false
    → get (presented_key session_id presented) s.pending_index ≡ none
    → open_challenge base64 digest session_id presented stored id now s ≡ (
      register
          (new_challenge base64 digest session_id presented stored id now)
          (superseded_waits session_id presented s)
          s,
      waits_for
          (new_challenge base64 digest session_id presented stored id now)
          true
          (superseded_waits session_id presented s),
    )
unfolding open_challenge
opened base64 digest session_id presented stored id now s o u n = rw (open_challenge, o, u, n) refl

-- The server presents another key while a challenge `v` for the old one is pending, and the third
-- stretch of `verify` runs for an open session that does not trust the new key and has no
-- challenge for it. Then every decision on `v` fails with `HostKeyChallengeNotFound` and changes
-- nothing, the waiters of `v` fail with `HostKeyVerificationCancelled`, and `verify` waits for the
-- new challenge, which is pending and was sent to the front end last.
pub open_challenge-supersedes :
    (base64 : Base64) (digest : List ℕ → List ℕ) (session_id : Text) (presented : PresentedHostKey)
    (stored : Option TrustRecord) (new_id id : Text) (now : ℕ) (v : ChallengeWait)
    (s : HostIdentityService)
    → IsConsistent s
    → get new_id s.pending ≡ none
    → get id s.pending ≡ some v
    → is_superseded session_id presented v ≡ true
    → contains session_id s.cancelled ≡ false
    → contains (presented_key session_id presented) s.trusted ≡ false
    → get (presented_key session_id presented) s.pending_index ≡ none
    → let w = new_challenge base64 digest session_id presented stored new_id now in
      let (t, turn) =
        announce (open_challenge base64 digest session_id presented stored new_id now s) in
      IsGone base64 id t
      × (wait_for_decision session_id v t ≡ some (err (host_key_verification_cancelled session_id)))
      × (turn ≡ waiting w)
      × (get new_id t.pending ≡ some w)
      × (t.emitted ≡ s.emitted ++ w.challenge ∷ [])
unfolding register new_challenge
open_challenge-supersedes base64 digest session_id presented stored new_id id now v s h fresh g z o
      u n =
    let w = new_challenge base64 digest session_id presented stored new_id now in
    let ws = superseded_waits session_id presented s in
    let r = register w ws s in
    let d = drop_waits ws s in
    let e : open_challenge base64 digest session_id presented stored new_id now s
        ≡ (r, waits_for w true ws) =
      opened base64 digest session_id presented stored new_id now s o u n in
    let a : announce (open_challenge base64 digest session_id presented stored new_id now s) ≡ (
      record (decide_all cancelled ws r) {
        emitted = (decide_all cancelled ws r).emitted ++ w.challenge ∷ [];
      },
      waiting w,
    ) =
      ap announce e ∙ (unfold announce in refl) in
    let t = (announce (open_challenge base64 digest session_id presented stored new_id now s)).0 in
    let a0 = ap (λ (x : HostIdentityService × Turn). x.0) a in
    let f = decide_all_frame cancelled ws r in
    let ep : t.pending ≡ insert new_id w d.pending =
      ap (λ (x : HostIdentityService). x.pending) a0
      ∙ ap (λ (x : HostIdentityService). x.pending) f in
    let ed : t.decisions ≡ (decide_all cancelled ws r).decisions =
      ap (λ (x : HostIdentityService). x.decisions) a0 in
    let ee : t.emitted ≡ s.emitted ++ w.challenge ∷ [] =
      ap (λ (x : HostIdentityService). x.emitted) a0
      ∙ ap (λ (x : HostIdentityService). x.emitted ++ w.challenge ∷ []) f
      ∙ ap (λ (x : HostIdentityService). x.emitted ++ w.challenge ∷ []) (drop_waits_frame ws s) in
    let m = is_among_taken (is_superseded session_id presented) id v s h g z in
    let p =
      get-drop_waits s.pending s.pending_index id ws s h.synced
        (IsCut-refl s.pending s.pending_index h.synced)
        (superseded-Found session_id presented s h) in
    let p' : get id d.pending ≡ none = p ∙ (rw m refl) in
    let ne : (new_id == id) ≡ false = elim (Bool-cases (new_id == id)) [
      | inl q ↦
          (let c = (beq_iff new_id id).0 q in
            let g' : get id s.pending ≡ none = subst (λ x. get x s.pending ≡ none) c fresh in
            let y : none ≡ some v = sym g' ∙ g in absurd (let x = y in cc))
      | inr q ↦ q
    ] in
    let b = (beq_iff new_id new_id).1 refl in
    let gone : get id t.pending ≡ none =
      ap (get id) ep ∙ get-insert new_id id w d.pending ∙ (rw ne p') in
    let told : get id t.decisions ≡ some cancelled =
      ap (get id) ed ∙ get-decide_all cancelled id ws r ∙ (rw m refl) in
    (
      missing-IsGone base64 id t gone,
      told_cancelled session_id id v t (h.synced.named id v g) told,
      ap (λ (x : HostIdentityService × Turn). x.1) a,
      ap (get new_id) ep ∙ get-insert new_id new_id w d.pending ∙ (rw b refl),
      ee,
    )
