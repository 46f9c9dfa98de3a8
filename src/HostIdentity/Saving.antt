-- ===== src/HostIdentity/Saving.antt =====
-- core/host_identity.rs: what `accept_and_save` releases.
use titan_ssh.Common.{
  ℕ, ◌≡◌, refl, sym, ◌∙◌, ap, subst, inl, inr, List, some, Text, text_eq, nat_eq, get,
  if◌then◌else◌, Option-cases, retain, find, codes,
}
use titan_ssh.TrustStore.Records.{TrustRecord, Base64, is_for}
use titan_ssh.TrustStore.State.{Publish, Store, upsert, lookup}
use titan_ssh.TrustStore.Endpoints.{same_endpoint}
use titan_ssh.TrustStore.Updates.{contents, lookup-upsert}
use titan_ssh.Errors.{ok, err, Result-cases, host_key_save_failed, to_string}
use titan_ssh.HostIdentity.State.{
  HostIdentityService, ChallengeWait, accepted, key_eq, from_challenge, drop_wait, drop_waits,
  decide, values, add,
}
use titan_ssh.HostIdentity.Decisions.{release_saved, accept_and_save, record_of, has_same_key}
use titan_ssh.HostIdentity.Batches.{decide_all_frame, drop_waits_frame}

release_saved-store :
    (id : Text) (w : ChallengeWait) (s : HostIdentityService)
    → (release_saved id w s).trust_store ≡ s.trust_store
unfolding release_saved
release_saved-store id w s =
    let t = drop_wait id w s in
    let others = retain (has_same_key w) (values t.pending) in
    let u : HostIdentityService = record t {
      trusted = add (from_challenge w.challenge) t.trusted;
    } in
    let x = drop_waits others u in
    ap (λ (y : HostIdentityService). y.trust_store)
      (decide_all_frame accepted others (decide accepted w x))
    ∙ (unfold decide in ap (λ (y : HostIdentityService). y.trust_store) (drop_waits_frame others u))
    ∙ (unfold drop_wait in refl)

module _ (base64 : Base64) (answer : Publish) (s : HostIdentityService) (id : Text)
    (w : ChallengeWait) where
  saved_as :
      get id s.pending ≡ some w
      → (accept_and_save base64 answer id s).1 ≡ ok tt
      → (store : Store) × (s.trust_store ≡ some store)
        × ((upsert base64 answer (record_of w) store).1 ≡ ok tt)
        × ((accept_and_save base64 answer id s).0
            ≡ release_saved id w
                (record s { trust_store = some (upsert base64 answer (record_of w) store).0 }))
  unfolding accept_and_save
  saved_as g o = elim (Option-cases s.trust_store) [
    | inl n ↦
        (let e : (accept_and_save base64 answer id s).1
              ≡ err (host_key_save_failed (codes "信任存储未初始化，无法持久化信任记录")) =
            simp (accept_and_save, g, n) in
          let z = sym o ∙ e in cc)
    | inr (store, n) ↦ elim (Result-cases (upsert base64 answer (record_of w) store).1) [
      | inl (u, q) ↦ (store, n, q, simp (accept_and_save, g, n, q))
      | inr (x, q) ↦
          (let e : (accept_and_save base64 answer id s).1
                ≡ err (host_key_save_failed (to_string x)) =
              simp (accept_and_save, g, n, q) in
            let z = sym o ∙ e in cc)
    ]
  ]

  -- After a save that succeeds, the trust store has the key of the challenge for its endpoint, and
  -- for every other endpoint what it had.
  accept_and_save-stored :
      (store : Store) (rs : List TrustRecord)
      → s.trust_store ≡ some store
      → contents base64 store ≡ ok rs
      → get id s.pending ≡ some w
      → (accept_and_save base64 answer id s).1 ≡ ok tt
      → (host : Text) (port : ℕ)
      → (saved : Store) × ((accept_and_save base64 answer id s).0.trust_store ≡ some saved)
        × ((lookup base64 host port saved).1
            ≡ ok (
                if same_endpoint w.challenge.host w.challenge.port host port
                then some (record_of w)
                else find (is_for host port) rs))
  accept_and_save-stored store rs e c g o host port =
      let (store', e', q, r) = saved_as g o in
      let same : store' ≡ store = (let z = sym e' ∙ e in cc) in
      let q' : (upsert base64 answer (record_of w) store).1 ≡ ok tt =
        subst (λ (x : Store). (upsert base64 answer (record_of w) x).1 ≡ ok tt) same q in
      let saved = (upsert base64 answer (record_of w) store').0 in
      (
        saved,
        ap (λ (t : HostIdentityService). t.trust_store) r
            ∙ release_saved-store id w (record s { trust_store = some saved }),
        ap (λ (x : Store). (lookup base64 host port (upsert base64 answer (record_of w) x).0).1)
              same
            ∙ (lookup-upsert base64 store rs answer (record_of w) host port c q').0,
      )
