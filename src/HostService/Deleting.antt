-- ===== src/HostService/Deleting.antt =====
-- core/host_service.rs: `delete`, and the clean-up of trust records.
use titan_ssh.Common.{
  ℕ, ◌≡◌, refl, sym, ◌∙◌, ap, ◌⊎◌, inl, inr, true, false, not, List, [], ◌∷◌, Option, none, some,
  Text, text_eq, nat_eq, ◌==◌, if◌then◌else◌, if_rule, find, retain, any, arith, beq_iff,
  Bool-cases,
}
use titan_ssh.Errors.{AppError, Result, ok, err, Result-cases, map_err}
use titan_ssh.TrustStore.Records.{Base64, TrustRecord, is_for}
use titan_ssh.TrustStore.State.{Publish, Store, lookup, remove as remove_record}
use titan_ssh.TrustStore.Endpoints.{same_endpoint}
use titan_ssh.TrustStore.Updates.{contents, lookup-remove}
use titan_ssh.HostIdentity.State.{HostIdentityService}
use titan_ssh.HostIdentity.Decisions.{forget_endpoint}
use titan_ssh.HostService.Hosts.{HostConfig, Json, Write, load, save_hosts}
use titan_ssh.HostService.Service.{
  CredentialStore, password_key, passphrase_key, HostConfigService, has_id, uses, endpoint_of,
  forget_credential, get_host, finish, cleanup_unreferenced_endpoint,
}
use titan_ssh.HostService.Operations.{delete}
use titan_ssh.HostService.Compensation.{Deletes}
use titan_ssh.HostService.Files.{load-save_hosts, finish-file, finish-credentials}

pub find-retain :
    (j id : Text) (hosts : List HostConfig)
    → find (has_id j) (retain (λ (h : HostConfig). not (has_id id h)) hosts)
      ≡ (if id == j then none else find (has_id j) hosts)
find-retain j id [] = ground arith
find-retain j id (h ∷ hosts) =
    ground (arith, find-retain j id hosts, beq_iff h.id id, beq_iff h.id j, beq_iff id j)

module _ {C : Type 0} (credentials : CredentialStore C) (json : Json) (answer : Write) where
  read-forget :
      Deletes credentials
      → (k j : Text) (c : C)
      → credentials.read j (forget_credential credentials k c)
        ≡ (if k == j then none else credentials.read j c)
  unfolding forget_credential
  read-forget d k j c = credentials.read-delete k j c (d k c)

  -- After a delete that succeeds, with a credential store that deletes: no configuration has the
  -- id and every other id has what it had; both credentials of the id are gone, and every other
  -- key reads as before.
  get_host-delete :
      (base64 : Base64) (disk : Publish) (id : Text) (s : HostConfigService C)
      (hosts : List HostConfig)
      → Deletes credentials
      → (delete credentials json base64 answer disk id s).1 ≡ ok hosts
      → let t = (delete credentials json base64 answer disk id s).0 in
        ((j : Text) → get_host json j t ≡ (if id == j then ok none else get_host json j s))
        × ((j : Text)
            → credentials.read j t.credential_store ≡ (
                if passphrase_key id == j
                then none
                else if password_key id == j
                then none
                else credentials.read j s.credential_store))
  unfolding delete get_host
  get_host-delete base64 disk id s hosts d h = elim (Result-cases (load json s.host_store)) [
    | inr (e, l) ↦
        (let q : delete credentials json base64 answer disk id s ≡ (s, err e) = simp (delete, l) in
          let z = sym h ∙ ap (λ (r : HostConfigService C × Result (List HostConfig)). r.1) q in cc)
    | inl (xs, l) ↦
        (let rest = retain (λ (h : HostConfig). not (has_id id h)) xs in
          let w = save_hosts json answer rest s.host_store in
          let old : Option (Text × ℕ) = elim (find (has_id id) xs) [
            | none ↦ none
            | some h ↦ some (endpoint_of h)
          ] in
          elim (Result-cases w.1) [
            | inr (e, o) ↦
                (let q : delete credentials json base64 answer disk id s
                      ≡ (record s { host_store = w.0 }, err e) =
                    simp (delete, l, o) in
                  let z =
                    sym h ∙ ap (λ (r : HostConfigService C × Result (List HostConfig)). r.1) q in
                  cc)
            | inl (u, o) ↦
                (let t : HostConfigService C = record s {
                  host_store = w.0;
                  credential_store =
                      forget_credential credentials (passphrase_key id)
                        (forget_credential credentials (password_key id) s.credential_store);
                } in
                  let q : delete credentials json base64 answer disk id s
                      ≡ finish base64 disk rest old t =
                    simp (delete, l, o) in
                  let q0 = ap (λ (r : HostConfigService C × Result (List HostConfig)). r.0) q in
                  let f : load json (delete credentials json base64 answer disk id s).0.host_store
                      ≡ ok rest =
                    ap (λ (x : HostConfigService C). load json x.host_store) q0
                    ∙ ap (load json) (finish-file base64 disk rest old t)
                    ∙ load-save_hosts json answer rest s.host_store o in
                  (
                    (λ j.
                        (let r = find-retain j id xs in
                          elim (Bool-cases (id == j)) [
                            | inl m ↦ rw (get_host, f, m) (ap ok (r ∙ (rw m refl)))
                            | inr m ↦ rw (get_host, f, l, m) (ap ok (r ∙ (rw m refl)))
                          ])),
                    λ j.
                        (let a =
                            read-forget d (passphrase_key id) j (
                              forget_credential credentials (password_key id) s.credential_store) in
                          let b = read-forget d (password_key id) j s.credential_store in
                          ap (λ (x : HostConfigService C). credentials.read j x.credential_store) q0
                          ∙ ap (λ c. credentials.read j c)
                              (finish-credentials base64 disk rest old t)
                          ∙ a
                          ∙ ap (λ v. if passphrase_key id == j then none else v) b),
                  ))
          ])
  ]

map_err-ok : (f : AppError → AppError) (r : Result (Unit {0})) → map_err f r ≡ ok tt → r ≡ ok tt
map_err-ok f (ok u) h = refl
map_err-ok f (err e) h = cc

module _ {C : Type 0} (base64 : Base64) (disk : Publish) (hosts : List HostConfig) (host : Text)
    (port : ℕ) (s : HostConfigService C) where
  cleanup_unused :
      any (uses host port) hosts ≡ false
      → let r = forget_endpoint base64 disk host port s.trust_cleanup in
        let c = cleanup_unreferenced_endpoint base64 disk hosts (some (host, port)) s in
        (c.0 ≡ record s { trust_cleanup = r.0 }) × (c.1 ≡ ok tt → r.1 ≡ ok tt)
  unfolding cleanup_unreferenced_endpoint
  cleanup_unused u =
      let r = forget_endpoint base64 disk host port s.trust_cleanup in
      if_rule
        (λ (c : HostConfigService C × Result (Unit {0})).
          (c.0 ≡ record s { trust_cleanup = r.0 }) × (c.1 ≡ ok tt → r.1 ≡ ok tt))
        (any (uses host port) hosts)
        (λ t. (let z : true ≡ false = sym t ∙ u in absurd (let y = z in cc)))
        (λ _. (refl, map_err-ok _ r.1))

  -- An endpoint that a configuration still uses keeps its trust record: the clean-up does nothing.
  -- One that none uses loses it, and no other endpoint does, if the store can be read and the
  -- clean-up succeeds.
  cleanup_unreferenced_endpoint-lookup :
      (st : Store) (rs : List TrustRecord)
      → s.trust_cleanup.trust_store ≡ some st
      → contents base64 st ≡ ok rs
      → (cleanup_unreferenced_endpoint base64 disk hosts (some (host, port)) s).1 ≡ ok tt
      → let t = (cleanup_unreferenced_endpoint base64 disk hosts (some (host, port)) s).0 in
        ((any (uses host port) hosts ≡ true) × (t ≡ s))
        ⊎ ((any (uses host port) hosts ≡ false)
            × ((after : Store) × (t.trust_cleanup.trust_store ≡ some after)
                × ((host' : Text) (port' : ℕ)
                    → (lookup base64 host' port' after).1
                      ≡ ok (
                          if same_endpoint host port host' port'
                          then none
                          else find (is_for host' port') rs))))
  unfolding cleanup_unreferenced_endpoint forget_endpoint
  cleanup_unreferenced_endpoint-lookup st rs e c o =
      elim (Bool-cases (any (uses host port) hosts)) [
        | inl u ↦ inl (u, simp (cleanup_unreferenced_endpoint, u))
        | inr u ↦
            (let c' = cleanup_unused u in
              let q : forget_endpoint base64 disk host port s.trust_cleanup ≡ (
                record s.trust_cleanup {
                  trust_store = some (remove_record base64 disk host port st).0;
                },
                (remove_record base64 disk host port st).1,
              ) =
                simp (forget_endpoint, e) in
              let o' : (remove_record base64 disk host port st).1 ≡ ok tt =
                sym (ap (λ (x : HostIdentityService × Result (Unit {0})). x.1) q) ∙ c'.1 o in
              inr (
                u,
                (
                  (remove_record base64 disk host port st).0,
                  ap (λ (x : HostConfigService C). x.trust_cleanup.trust_store) c'.0
                      ∙ ap (λ (x : HostIdentityService × Result (Unit {0})). x.0.trust_store) q,
                  λ host' port'. lookup-remove base64 st rs disk host host' port port' c o',
                ),
              ))
      ]
