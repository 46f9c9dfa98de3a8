-- ===== src/HostIdentity/Waiters.antt =====
-- core/host_identity.rs: what each operation does to a pending challenge and to its waiters.
use titan_ssh.Common.{
  ℕ, ◌≡◌, ◌≢◌, refl, sym, ◌∙◌, ap, subst, ◌⊎◌, inl, inr, Bool, false, not, List, [], ◌∷◌, Option,
  none, some, Text, text_eq, map, get, insert, remove, get-insert, get-remove_ne, if_rule, ◌==◌,
  Option-cases, beq_iff, Bool-cases, eq_cases, retain, option_rule,
}
use titan_ssh.TrustStore.Records.{TrustRecord, Base64}
use titan_ssh.TrustStore.State.{Publish, upsert}
use titan_ssh.Errors.{Result, Result-cases}
use titan_ssh.HostIdentity.State.{
  HostIdentityService, PresentedHostKey, ChallengeWait, IdentityKey, cancelled, accepted, rejected,
  Decision, key_eq, presented_key, from_challenge, drop_wait, drop_waits, decide, decide_all,
  values, contains, add,
}
use titan_ssh.HostIdentity.Verify.{
  open_challenge, announce, register, new_challenge, Opened, trust_matched, stored_record,
}
use titan_ssh.HostIdentity.Decisions.{
  accept, cancel_by_id, cancel_session, cancel_ids, cancel_all, release_saved, accept_and_save,
  forget_endpoint, record_of, has_same_key,
}
use titan_ssh.HostIdentity.Sync.{IsCut-refl}
use titan_ssh.HostIdentity.Batches.{
  values-Found, retain-Found, get-drop_waits, get-decide_all, is_among, decide_all_frame,
  drop_waits_frame, Found,
}
use titan_ssh.HostIdentity.Consistent.{
  reject_found, reject_missing, cancel_by_id_found, cancel_by_id_missing, cancel_by_id-IsConsistent,
}
use titan_ssh.HostIdentity.Holding.{IsConsistent, accepted-Holds}
use titan_ssh.HostIdentity.Openings.{superseded_waits, superseded-Found}
use titan_ssh.HostIdentity.Steps.{
  Step, Reach, looks_up, matched, opens, accepts, saves, rejects, cancels, cancels_all, cancels_id,
  forgets, here, next, stored_record-same, forget_endpoint-same, Reach-IsConsistent,
}

-- A challenge is still pending, or its waiters find a decision.
abbrev pub IsAwaited : Text → ChallengeWait → HostIdentityService → Type 0
IsAwaited id w s = (get id s.pending ≡ some w) ⊎ ((d : Decision) × (get id s.decisions ≡ some d))

drop_same :
    (ws : List ChallengeWait) (s t : HostIdentityService)
    → s.pending ≡ t.pending
    → s.pending_index ≡ t.pending_index
    → (drop_waits ws s).pending ≡ (drop_waits ws t).pending
unfolding drop_waits
drop_same [] s t e f = e
drop_same (v ∷ ws) s t e f =
    drop_same ws (drop_wait v.challenge.challenge_id v s) (drop_wait v.challenge.challenge_id v t)
      (unfold drop_wait in ap (remove v.challenge.challenge_id) e)
      (unfold drop_wait in ap (remove (from_challenge v.challenge)) f)

module _ (id : Text) (w : ChallengeWait) where
  same-IsAwaited :
      (s t : HostIdentityService)
      → t.pending ≡ s.pending
      → t.decisions ≡ s.decisions
      → IsAwaited id w s
      → IsAwaited id w t
  same-IsAwaited s t e f (inl g) = inl (ap (get id) e ∙ g)
  same-IsAwaited s t e f (inr (d, g)) = inr (d, ap (get id) f ∙ g)

  -- One challenge is taken out and decided.
  decided-IsAwaited :
      (k : Text) (v : ChallengeWait) (d : Decision) (s : HostIdentityService)
      → v.challenge.challenge_id ≡ k
      → IsAwaited id w s
      → IsAwaited id w (decide d v (drop_wait k v s))
  unfolding decide drop_wait
  decided-IsAwaited k v d s n a =
      let i = get-insert v.challenge.challenge_id id d s.decisions in
      elim (eq_cases k id) [
        | inl q ↦
            (let b = (beq_iff v.challenge.challenge_id id).1 (n ∙ q) in inr (d, i ∙ (rw b refl)))
        | inr q ↦
            (let b : (v.challenge.challenge_id == id) ≡ false =
                elim (Bool-cases (v.challenge.challenge_id == id)) [
                  | inl z ↦ absurd (q (sym n ∙ (beq_iff v.challenge.challenge_id id).0 z))
                  | inr z ↦ z
                ] in
              elim a [
                | inl g ↦ inl (get-remove_ne k id s.pending q ∙ g)
                | inr (c, g) ↦ inr (c, i ∙ (rw b g))
              ])
      ]

  -- Some are taken out, and then decided.
  batch-IsAwaited :
      (d : Decision) (ws : List ChallengeWait) (s t : HostIdentityService)
      → IsConsistent s
      → Found s.pending ws
      → t.pending ≡ (drop_waits ws s).pending
      → t.decisions ≡ s.decisions
      → IsAwaited id w s
      → IsAwaited id w (decide_all d ws t)
  batch-IsAwaited d ws s t h f e c a =
      let p =
        get-drop_waits s.pending s.pending_index id ws s h.synced
          (IsCut-refl s.pending s.pending_index h.synced) f in
      let g = get-decide_all d id ws t in
      let q = ap (λ (x : HostIdentityService). x.pending) (decide_all_frame d ws t) in
      elim (Bool-cases (is_among id ws)) [
        | inl m ↦ inr (d, g ∙ (rw m refl))
        | inr m ↦ elim a [
          | inl y ↦ inl (ap (get id) (q ∙ e) ∙ p ∙ (rw m y))
          | inr (x, y) ↦ inr (x, g ∙ (rw m (ap (get id) c ∙ y)))
        ]
      ]

  drop_waits-decisions :
      (ws : List ChallengeWait) (s : HostIdentityService)
      → (drop_waits ws s).decisions ≡ s.decisions
  drop_waits-decisions ws s = ap (λ (x : HostIdentityService). x.decisions) (drop_waits_frame ws s)

  accept-IsAwaited :
      (k : Text) (s : HostIdentityService)
      → IsConsistent s
      → IsAwaited id w s
      → IsAwaited id w (accept k s).0
  unfolding accept
  accept-IsAwaited k s h a =
      option_rule (λ (r : HostIdentityService × Result (Unit {0})). IsAwaited id w r.0)
        (get k s.pending) (λ _. a)
        (λ v g.
          let t = drop_wait k v s in
          let u : HostIdentityService = record t {
            trusted = add (from_challenge v.challenge) t.trusted;
          } in
          same-IsAwaited (decide accepted v t) (decide accepted v u) (unfold decide in refl)
            (unfold decide in refl) (decided-IsAwaited k v accepted s (h.synced.named k v g) a))

  cancel_ids-IsAwaited :
      (ids : List Text) (s : HostIdentityService)
      → IsConsistent s
      → IsAwaited id w s
      → IsAwaited id w (cancel_ids ids s)
  unfolding cancel_ids
  cancel_ids-IsAwaited [] s h a = a
  cancel_ids-IsAwaited (k ∷ ks) s h a =
      cancel_ids-IsAwaited ks (cancel_by_id k s) (cancel_by_id-IsConsistent k s h)
        (elim (Option-cases (get k s.pending)) [
          | inl n ↦ rw (cancel_by_id_missing k s n) a
          | inr (v, g) ↦
              rw (cancel_by_id_found k v s g)
                (decided-IsAwaited k v cancelled s (h.synced.named k v g) a)
        ])

  cancel_session-IsAwaited :
      (session_id : Text) (s : HostIdentityService)
      → IsConsistent s
      → IsAwaited id w s
      → IsAwaited id w (cancel_session session_id s)
  unfolding cancel_session
  cancel_session-IsAwaited session_id s h a =
      let f : ChallengeWait → Bool = λ w. w.challenge.session_id == session_id in
      let targets = retain f (values s.pending) in
      let u : HostIdentityService = record s {
        trusted = retain (λ (key : IdentityKey). not (key.session_id == session_id)) s.trusted;
        cancelled = add session_id s.cancelled;
      } in
      batch-IsAwaited cancelled targets s (drop_waits targets u) h
        (retain-Found s.pending f (values s.pending)
          (values-Found s.pending s.pending_index h.synced))
        (drop_same targets u s refl refl) (drop_waits-decisions targets u) a

  release_saved-IsAwaited :
      (k : Text) (v : ChallengeWait) (s : HostIdentityService)
      → IsConsistent s
      → get k s.pending ≡ some v
      → IsAwaited id w s
      → IsAwaited id w (release_saved k v s)
  unfolding release_saved
  release_saved-IsAwaited k v s h g a =
      let t = drop_wait k v s in
      let f = has_same_key v in
      let others = retain f (values t.pending) in
      let u : HostIdentityService = record t {
        trusted = add (from_challenge v.challenge) t.trusted;
      } in
      let c : IsConsistent u =
        unfold drop_wait in
        accepted-Holds s.pending s.pending_index s.trusted s.cancelled k v h g in
      let x = decide accepted v u in
      let b : IsAwaited id w x =
        same-IsAwaited (decide accepted v t) x (unfold decide in refl) (unfold decide in refl)
          (decided-IsAwaited k v accepted s (h.synced.named k v g) a) in
      let c' : IsConsistent x = unfold decide in c in
      batch-IsAwaited accepted others x (decide accepted v (drop_waits others u)) c'
        (unfold decide in
          retain-Found u.pending f (values u.pending)
            (values-Found u.pending u.pending_index c.synced))
        (unfold decide in drop_same others u (decide accepted v u) refl refl)
        (unfold decide in
          ap (insert v.challenge.challenge_id accepted) (drop_waits-decisions others u))
        b

  accept_and_save-IsAwaited :
      (base64 : Base64) (answer : Publish) (k : Text) (s : HostIdentityService)
      → IsConsistent s
      → IsAwaited id w s
      → IsAwaited id w (accept_and_save base64 answer k s).0
  unfolding accept_and_save
  accept_and_save-IsAwaited base64 answer k s h a =
      let P : HostIdentityService × Result (Unit {0}) → Type 0 = λ r. IsAwaited id w r.0 in
      option_rule P (get k s.pending) (λ _. a)
        (λ v g.
          option_rule P s.trust_store (λ _. a)
            (λ store _.
              let r = upsert base64 answer (record_of v) store in
              elim (Result-cases r.1) [
                | inl (u, q) ↦
                    rw q (release_saved-IsAwaited k v (record s { trust_store = some r.0 }) h g a)
                | inr (e, q) ↦ rw q a
              ]))

  register-IsAwaited :
      (v : ChallengeWait) (ws : List ChallengeWait) (s : HostIdentityService)
      → IsConsistent s
      → Found s.pending ws
      → get v.challenge.challenge_id s.pending ≡ none
      → get v.challenge.challenge_id s.decisions ≡ none
      → IsAwaited id w s
      → IsAwaited id w (decide_all cancelled ws (register v ws s))
  unfolding register
  register-IsAwaited v ws s h f fresh unused a =
      let k = v.challenge.challenge_id in
      let d = drop_waits ws s in
      let r = register v ws s in
      let ne : k ≢ id = λ e. elim a [
        | inl g ↦
            (let z : none ≡ some w = sym fresh ∙ subst (λ x. get x s.pending ≡ some w) (sym e) g in
              cc)
        | inr (x, g) ↦
            (let z : none ≡ some x =
                sym unused ∙ subst (λ y. get y s.decisions ≡ some x) (sym e) g in
              cc)
      ] in
      let b : (k == id) ≡ false = elim (Bool-cases (k == id)) [
        | inl z ↦ absurd (ne ((beq_iff k id).0 z))
        | inr z ↦ z
      ] in
      let p =
        get-drop_waits s.pending s.pending_index id ws s h.synced
          (IsCut-refl s.pending s.pending_index h.synced) f in
      let g = get-decide_all cancelled id ws r in
      let q = ap (λ (x : HostIdentityService). x.pending) (decide_all_frame cancelled ws r) in
      elim (Bool-cases (is_among id ws)) [
        | inl m ↦ inr (cancelled, g ∙ (rw m refl))
        | inr m ↦ elim a [
          | inl y ↦ inl (ap (get id) q ∙ get-insert k id v d.pending ∙ (rw b refl) ∙ p ∙ (rw m y))
          | inr (x, y) ↦ inr (
            x,
            g
                ∙ (rw m refl)
                ∙ get-remove_ne k id d.decisions ne
                ∙ ap (get id) (drop_waits-decisions ws s)
                ∙ y,
          )
        ]
      ]

  open_challenge-IsAwaited :
      (base64 : Base64) (digest : List ℕ → List ℕ) (session_id : Text)
      (presented : PresentedHostKey) (stored : Option TrustRecord) (k : Text) (now : ℕ)
      (s : HostIdentityService)
      → IsConsistent s
      → get k s.pending ≡ none
      → get k s.decisions ≡ none
      → IsAwaited id w s
      → IsAwaited id w
          (announce (open_challenge base64 digest session_id presented stored k now s)).0
  unfolding open_challenge announce new_challenge
  open_challenge-IsAwaited base64 digest session_id presented stored k now s h fresh unused a =
      let P : HostIdentityService × Opened → Type 0 = λ r. IsAwaited id w (announce r).0 in
      if_rule P (contains session_id s.cancelled) (λ _. a)
        (λ o.
          if_rule P (contains (presented_key session_id presented) s.trusted) (λ _. a)
            (λ _.
              option_rule P (get (presented_key session_id presented) s.pending_index)
                (λ n.
                  register-IsAwaited (new_challenge base64 digest session_id presented stored k now)
                    (superseded_waits session_id presented s) s h
                    (superseded-Found session_id presented s h) fresh unused a)
                (λ j _. option_rule P (get j s.pending) (λ _. a) (λ v _. a))))

module _ {base64 : Base64} {digest : List ℕ → List ℕ} where
  Step-IsAwaited :
      (id : Text) (w : ChallengeWait) {s t : HostIdentityService}
      → Step base64 digest s t
      → IsConsistent s
      → IsAwaited id w s
      → IsAwaited id w t
  Step-IsAwaited id w (looks_up s presented) h a =
      let e = stored_record-same base64 presented s in
      same-IsAwaited id w s (stored_record base64 presented s).0
        (ap (λ (u : HostIdentityService). u.pending) e)
        (ap (λ (u : HostIdentityService). u.decisions) e) a
  Step-IsAwaited id w (matched s session_id presented r m) h a =
      unfold trust_matched in
      if_rule (λ (r : HostIdentityService × Result (Unit {0})). IsAwaited id w r.0)
        (contains session_id s.cancelled) (λ _. a) (λ _. a)
  Step-IsAwaited id w (opens s session_id presented stored k now fresh unused) h a =
      open_challenge-IsAwaited id w base64 digest session_id presented stored k now s h fresh unused
        a
  Step-IsAwaited id w (accepts s k) h a = accept-IsAwaited id w k s h a
  Step-IsAwaited id w (saves s answer k) h a = accept_and_save-IsAwaited id w base64 answer k s h a
  Step-IsAwaited id w (rejects s k) h a = elim (Option-cases (get k s.pending)) [
    | inl n ↦ rw (reject_missing k s n) a
    | inr (v, g) ↦
        rw (reject_found k v s g) (decided-IsAwaited id w k v rejected s (h.synced.named k v g) a)
  ]
  Step-IsAwaited id w (cancels s session_id) h a = cancel_session-IsAwaited id w session_id s h a
  Step-IsAwaited id w (cancels_id s k) h a =
      unfold cancel_ids in cancel_ids-IsAwaited id w (k ∷ []) s h a
  Step-IsAwaited id w (cancels_all s) h a =
      unfold cancel_all in
      cancel_ids-IsAwaited id w (map (λ (e : Text × ChallengeWait). e.0) s.pending) s h a
  Step-IsAwaited id w (forgets s answer host port) h a =
      let e = forget_endpoint-same base64 answer host port s in
      same-IsAwaited id w s (forget_endpoint base64 answer host port s).0
        (ap (λ (u : HostIdentityService). u.pending) e)
        (ap (λ (u : HostIdentityService). u.decisions) e) a

  -- No waiter is left behind: from a consistent state, whatever happens, a challenge that was
  -- pending either still is, so that it can be decided, or its cell has a decision, which every
  -- waiter finds.
  pub Reach-IsAwaited :
      (id : Text) (w : ChallengeWait) {s t : HostIdentityService}
      → IsConsistent s
      → get id s.pending ≡ some w
      → Reach base64 digest s t
      → IsAwaited id w t
  Reach-IsAwaited id w h g here = inl g
  Reach-IsAwaited id w h g (next r e) =
      Step-IsAwaited id w e (Reach-IsConsistent r h) (Reach-IsAwaited id w h g r)
