-- ===== src/HostIdentity/Steps.antt =====
-- core/host_identity.rs: the service among the threads that call it. A step is one stretch under
-- the state lock, with the writes to the decision cells that follow it, so `verify` is up to three
-- steps, and `cancel_all` one for each id that it has read, between which any other may happen. The id of a new challenge, a random UUID, is not the
-- id of one that is pending or decided.
use titan_ssh.Common.{
  ℕ, ◌≡◌, refl, sym, subst, inl, inr, Bool, true, false, not, List, Option, none, some, arith, Text,
  text_eq, map, get, ◌==◌, beq_iff, Bool-cases, eq_cases, retain, option_rule, if_rule,
}
use titan_ssh.TrustStore.Records.{TrustRecord, Base64, matches}
use titan_ssh.TrustStore.State.{Publish, Store, upsert}
use titan_ssh.Errors.{Result, Result-cases}
use titan_ssh.HostIdentity.State.{
  HostIdentityService, PresentedHostKey, ChallengeWait, IdentityKey, cancelled, key_eq,
  presented_key, drop_waits, values, contains, add, new,
}
use titan_ssh.HostIdentity.Verify.{trust_matched, stored_record, open_challenge, announce}
use titan_ssh.HostIdentity.Decisions.{
  accept, reject, cancel_session, cancel_all, cancel_by_id, accept_and_save, forget_endpoint,
  record_of,
}
use titan_ssh.HostIdentity.Sync.{IsCut-refl, kept_of_cut}
use titan_ssh.HostIdentity.Batches.{
  values-Found, retain-Found, drop_waits-IsCut, drop_waits_frame, decide_all_frame, get-drop_waits,
}
use titan_ssh.HostIdentity.Consistent.{
  accept-IsConsistent, reject-IsConsistent, cancel_ids-IsConsistent, cancel_by_id-IsConsistent,
  release_saved-IsConsistent,
}
use titan_ssh.HostIdentity.Holding.{Holds, IsConsistent, contains-add, contains-retain, cut-Holds}
use titan_ssh.HostIdentity.Openings.{
  is_among-retain, open_challenge-IsConsistent, announce-IsConsistent,
}

module _ (base64 : Base64) (digest : List ℕ → List ℕ) where
  pub data Step : HostIdentityService → HostIdentityService → Type 0 where
    looks_up :
        (s : HostIdentityService) (presented : PresentedHostKey)
        → Step s (stored_record base64 presented s).0
    matched :
        (s : HostIdentityService) (session_id : Text) (presented : PresentedHostKey)
        (r : TrustRecord)
        → matches r presented.host presented.port presented.algorithm presented.blob ≡ true
        → Step s (trust_matched session_id presented s).0
    opens :
        (s : HostIdentityService) (session_id : Text) (presented : PresentedHostKey)
        (stored : Option TrustRecord) (id : Text) (now : ℕ)
        → get id s.pending ≡ none
        → get id s.decisions ≡ none
        → Step s (announce (open_challenge base64 digest session_id presented stored id now s)).0
    accepts : (s : HostIdentityService) (id : Text) → Step s (accept id s).0
    saves :
        (s : HostIdentityService) (answer : Publish) (id : Text)
        → Step s (accept_and_save base64 answer id s).0
    rejects : (s : HostIdentityService) (id : Text) → Step s (reject id s).0
    cancels : (s : HostIdentityService) (session_id : Text) → Step s (cancel_session session_id s)
    cancels_id : (s : HostIdentityService) (id : Text) → Step s (cancel_by_id id s)
    cancels_all : (s : HostIdentityService) → Step s (cancel_all s)
    forgets :
        (s : HostIdentityService) (answer : Publish) (host : Text) (port : ℕ)
        → Step s (forget_endpoint base64 answer host port s).0

  pub data Reach (s : HostIdentityService) : HostIdentityService → Type 0 where
    here : Reach s s
    next : {t u : HostIdentityService} → Reach s t → Step t u → Reach s u

pub new-IsConsistent : (store : Option Store) → IsConsistent (new store)
unfolding new
new-IsConsistent store = record {
  synced = record {
    single = λ id. omega arith;
    single_key = λ key. omega arith;
    named = λ id w g. cc;
    indexed = λ id w g. cc;
    listed = λ key id g. cc;
  };
  alone = λ id id' w v g f d1 d2 d3. cc;
  alive = λ id w g. cc;
  untrusting = λ key g. cc;
}

trust_matched-IsConsistent :
    (session_id : Text) (presented : PresentedHostKey) (s : HostIdentityService)
    → IsConsistent s
    → IsConsistent (trust_matched session_id presented s).0
unfolding trust_matched
trust_matched-IsConsistent session_id presented s h =
    if_rule (λ (r : HostIdentityService × Result (Unit {0})). IsConsistent r.0)
      (contains session_id s.cancelled) (λ _. h)
      (λ o. record {
        synced = h.synced;
        alone = h.alone;
        alive = h.alive;
        untrusting = λ key g.
            elim (contains-add (presented_key session_id presented) key s.trusted g) [
              | inl q ↦ subst (λ (k : IdentityKey). contains k.session_id s.cancelled ≡ false) q o
              | inr q ↦ h.untrusting key q
            ];
      })

contains-add_neither :
    (a b : Text) (xs : List Text)
    → (a == b) ≡ false
    → contains b xs ≡ false
    → contains b (add a xs) ≡ false
contains-add_neither a b xs n h = ground arith

cancel_session-IsConsistent :
    (session_id : Text) (s : HostIdentityService)
    → IsConsistent s
    → IsConsistent (cancel_session session_id s)
unfolding cancel_session
cancel_session-IsConsistent session_id s h =
    let f : ChallengeWait → Bool = λ w. w.challenge.session_id == session_id in
    let targets = retain f (values s.pending) in
    let u : HostIdentityService = record s {
      trusted = retain (λ (key : IdentityKey). not (key.session_id == session_id)) s.trusted;
      cancelled = add session_id s.cancelled;
    } in
    let start = IsCut-refl s.pending s.pending_index h.synced in
    let a =
      retain-Found s.pending f (values s.pending)
        (values-Found s.pending s.pending_index h.synced) in
    let t = drop_waits targets u in
    let c = drop_waits-IsCut s.pending s.pending_index targets u h.synced start a in
    let k : Holds t.pending t.pending_index u.trusted u.cancelled =
      cut-Holds s.pending s.pending_index s.trusted s.cancelled t.pending t.pending_index u.trusted
        u.cancelled h c
        (λ id w g.
          (let kept = kept_of_cut s.pending s.pending_index t.pending t.pending_index c id w g in
            let r = get-drop_waits s.pending s.pending_index id targets u h.synced start a in
            let l = h.alive id w kept in
            elim (Bool-cases (f w)) [
              | inl q ↦
                  (let m = is_among-retain f id w s.pending kept (h.synced.named id w kept) q in
                    let x : get id t.pending ≡ none = ground arith in cc)
              | inr n ↦
                  (let i1 = beq_iff w.challenge.session_id session_id in
                    let i2 = beq_iff session_id w.challenge.session_id in
                    let n' : (session_id == w.challenge.session_id) ≡ false =
                      elim (eq_cases session_id w.challenge.session_id) [
                        | inl e ↦ (let z = i1.1 (sym e) in cc)
                        | inr e ↦ elim (Bool-cases (session_id == w.challenge.session_id)) [
                          | inl z ↦ absurd (e (i2.0 z))
                          | inr z ↦ z
                        ]
                      ] in
                    contains-add_neither session_id w.challenge.session_id s.cancelled n' l)
            ]))
        (λ key g.
          (let r =
              contains-retain key (λ (k : IdentityKey). not (k.session_id == session_id)) s.trusted
                g in
            let l = h.untrusting key r.0 in
            let i1 = beq_iff key.session_id session_id in
            let i2 = beq_iff session_id key.session_id in
            let n' : (session_id == key.session_id) ≡ false =
              elim (Bool-cases (session_id == key.session_id)) [
                | inl z ↦ (let y = i1.1 (sym (i2.0 z)) in let x = r.1 in ground arith)
                | inr z ↦ z
              ] in
            contains-add_neither session_id key.session_id s.cancelled n' l)) in
    let k' : IsConsistent t = subst IsConsistent (sym (drop_waits_frame targets u)) k in
    subst IsConsistent (sym (decide_all_frame cancelled targets t)) k'

module _ (base64 : Base64) where
  accept_and_save-IsConsistent :
      (answer : Publish) (id : Text) (s : HostIdentityService)
      → IsConsistent s
      → IsConsistent (accept_and_save base64 answer id s).0
  unfolding accept_and_save
  accept_and_save-IsConsistent answer id s h =
      let P : HostIdentityService × Result (Unit {0}) → Type 0 = λ r. IsConsistent r.0 in
      option_rule P (get id s.pending) (λ _. h)
        (λ w g.
          option_rule P s.trust_store (λ _. h)
            (λ store _.
              let r = upsert base64 answer (record_of w) store in
              elim (Result-cases r.1) [
                | inl (u, q) ↦
                    rw q (release_saved-IsConsistent id w (record s { trust_store = some r.0 }) h g)
                | inr (e, q) ↦ rw q h
              ]))

  pub stored_record-same :
      (presented : PresentedHostKey) (s : HostIdentityService)
      → (stored_record base64 presented s).0
        ≡ record s { trust_store = (stored_record base64 presented s).0.trust_store }
  unfolding stored_record
  stored_record-same presented s =
      option_rule
        (λ (r : HostIdentityService × Result (Option TrustRecord)).
          r.0 ≡ record s { trust_store = r.0.trust_store })
        s.trust_store (λ q. refl) (λ store q. refl)

  pub forget_endpoint-same :
      (answer : Publish) (host : Text) (port : ℕ) (s : HostIdentityService)
      → (forget_endpoint base64 answer host port s).0
        ≡ record s { trust_store = (forget_endpoint base64 answer host port s).0.trust_store }
  unfolding forget_endpoint
  forget_endpoint-same answer host port s =
      option_rule
        (λ (r : HostIdentityService × Result (Unit {0})).
          r.0 ≡ record s { trust_store = r.0.trust_store })
        s.trust_store (λ q. refl) (λ store q. refl)

module _ {base64 : Base64} {digest : List ℕ → List ℕ} where
  pub Step-IsConsistent :
      {s t : HostIdentityService} → Step base64 digest s t → IsConsistent s → IsConsistent t
  Step-IsConsistent (looks_up s presented) h =
      subst IsConsistent (sym (stored_record-same base64 presented s)) h
  Step-IsConsistent (matched s session_id presented r m) h =
      trust_matched-IsConsistent session_id presented s h
  Step-IsConsistent (opens s session_id presented stored id now fresh unused) h =
      announce-IsConsistent (open_challenge base64 digest session_id presented stored id now s)
        (open_challenge-IsConsistent base64 digest session_id presented stored id now s h fresh)
  Step-IsConsistent (accepts s id) h = accept-IsConsistent id s h
  Step-IsConsistent (saves s answer id) h = accept_and_save-IsConsistent base64 answer id s h
  Step-IsConsistent (rejects s id) h = reject-IsConsistent id s h
  Step-IsConsistent (cancels s session_id) h = cancel_session-IsConsistent session_id s h
  Step-IsConsistent (cancels_id s id) h = cancel_by_id-IsConsistent id s h
  Step-IsConsistent (cancels_all s) h =
      unfold cancel_all in
      cancel_ids-IsConsistent (map (λ (e : Text × ChallengeWait). e.0) s.pending) s h
  Step-IsConsistent (forgets s answer host port) h =
      subst IsConsistent (sym (forget_endpoint-same base64 answer host port s)) h

  pub Reach-IsConsistent :
      {s t : HostIdentityService} → Reach base64 digest s t → IsConsistent s → IsConsistent t
  Reach-IsConsistent here h = h
  Reach-IsConsistent (next r e) h = Step-IsConsistent e (Reach-IsConsistent r h)
