-- ===== src/HostService/Commits.antt =====
-- core/host_service.rs: what a save that succeeds has put into `hosts.json`.
use titan_ssh.Common.{
  ℕ, ◌≡◌, ◌≢◌, refl, sym, ◌∙◌, ap, inl, inr, Bool, false, not, List, [], Option, none, some, Text,
  text_eq, nat_eq, ◌==◌, find, beq_iff, Bool-cases,
}
use titan_ssh.Errors.{Result, ok, err, Result-cases, result_rule}
use titan_ssh.TrustStore.Records.{Base64}
use titan_ssh.TrustStore.State.{Publish}
use titan_ssh.HostService.Hosts.{
  auth_eq, HostConfig, SaveHostRequest, Json, Write, load, save_hosts,
}
use titan_ssh.HostService.Service.{
  CredentialStore, password_key, passphrase_key, HostConfigService, validate_save_request,
  upsert_host, has_id, Attempt, Written, resolve_credential_ref, get_host, finish,
}
use titan_ssh.HostService.Operations.{save_over, attempt_save, save}
use titan_ssh.HostService.Files.{
  HasCommitted, IsFrom, find-upsert_host, finish-file, load-save_hosts,
}

module _ {C : Type 0} (credentials : CredentialStore C) (json : Json) (answer : Write)
    (request : SaveHostRequest) where
  save_over-HasCommitted :
      (xs : List HostConfig) (existing : Option HostConfig) (s : HostConfigService C)
      (hosts : List HostConfig) (old : Option (Text × ℕ))
      → load json s.host_store ≡ ok xs
      → (save_over credentials json answer request xs existing s).outcome ≡ ok (hosts, old)
      → HasCommitted json request s.host_store
          (save_over credentials json answer request xs existing s).service.host_store
          hosts
  unfolding save_over
  save_over-HasCommitted xs existing s hosts old l =
      let P : Attempt C → Type 0 = λ a.
        a.outcome ≡ ok (hosts, old)
        → HasCommitted json request s.host_store a.service.host_store hosts in
      let changed : Bool = elim existing [
        | none ↦ false
        | some h ↦ not (h.auth_type == request.auth_type)
      ] in
      let start : Written C = record { store = s.credential_store; keys = [] } in
      let old_password : Option Text = elim existing [ none ↦ none | some h ↦ h.password_ref ] in
      let old_passphrase : Option Text = elim existing [
        | none ↦ none
        | some h ↦ h.passphrase_ref
      ] in
      let one =
        resolve_credential_ref credentials (password_key request.id) request.password old_password
          changed start in
      let two =
        resolve_credential_ref credentials (passphrase_key request.id) request.passphrase
          old_passphrase changed one.0 in
      result_rule P one.1 (λ x _ q. cc)
        (λ password_ref _.
          result_rule P two.1 (λ x _ q. cc)
            (λ passphrase_ref _.
              let config : HostConfig = record {
                id = request.id;
                name = request.name;
                host = request.host;
                port = request.port;
                username = request.username;
                auth_type = request.auth_type;
                password_ref = password_ref;
                private_key_path = request.private_key_path;
                passphrase_ref = passphrase_ref;
                remark = request.remark;
                group = request.group;
              } in
              result_rule P (save_hosts json answer (upsert_host config xs) s.host_store).1
                (λ x _ q. cc)
                (λ u r q.
                  (let e : hosts ≡ upsert_host config xs = cc in
                    let f = load-save_hosts json answer (upsert_host config xs) s.host_store r in
                    record {
                      old_hosts = xs;
                      config = config;
                      was = l;
                      is_from = record {
                        same_id = refl;
                        same_name = refl;
                        same_host = refl;
                        same_port = refl;
                        same_username = refl;
                        same_auth_type = refl;
                        same_private_key_path = refl;
                        same_remark = refl;
                        same_group = refl;
                      };
                      is_new = e;
                      is_saved = f ∙ ap ok (sym e);
                    }))))

  attempt_save-HasCommitted :
      (s : HostConfigService C) (hosts : List HostConfig) (old : Option (Text × ℕ))
      → (attempt_save credentials json answer request s).outcome ≡ ok (hosts, old)
      → HasCommitted json request s.host_store
          (attempt_save credentials json answer request s).service.host_store
          hosts
  unfolding attempt_save
  attempt_save-HasCommitted s hosts old =
      let P : Attempt C → Type 0 = λ a.
        a.outcome ≡ ok (hosts, old)
        → HasCommitted json request s.host_store a.service.host_store hosts in
      result_rule P (load json s.host_store) (λ x _ q. cc)
        (λ xs l. save_over-HasCommitted xs (find (has_id request.id) xs) s hosts old l)

  -- After a save that succeeds, the file has, for the id of the request, a configuration with the
  -- fields of the request, and for every other id what it had before.
  pub get_host-save :
      (base64 : Base64) (disk : Publish) (s : HostConfigService C) (hosts : List HostConfig)
      → (save credentials json base64 answer disk request s).1 ≡ ok hosts
      → let t = (save credentials json base64 answer disk request s).0 in
        (config : HostConfig) × IsFrom request config
        × (get_host json request.id t ≡ ok (some config))
        × ((j : Text) → request.id ≢ j → get_host json j t ≡ get_host json j s)
  unfolding save get_host
  get_host-save base64 disk s hosts h =
      let a = attempt_save credentials json answer request s in
      elim (Result-cases (validate_save_request request)) [
        | inr (e, v) ↦
            (let q : save credentials json base64 answer disk request s ≡ (s, err e) =
                simp (save, v) in
              let z = sym h ∙ ap (λ (r : HostConfigService C × Result (List HostConfig)). r.1) q in
              cc)
        | inl (u, v) ↦ elim (Result-cases a.outcome) [
          | inr (e, o) ↦
              (let q : (save credentials json base64 answer disk request s).1 ≡ err e =
                  simp (save, v, o) in
                let z = sym h ∙ q in cc)
          | inl (r, o) ↦
              (let q : save credentials json base64 answer disk request s
                    ≡ finish base64 disk r.0 r.1 a.service =
                  simp (save, v, o) in
                let c = attempt_save-HasCommitted s r.0 r.1 o in
                let f : (save credentials json base64 answer disk request s).0.host_store
                    ≡ a.service.host_store =
                  ap (λ (x : HostConfigService C × Result (List HostConfig)). x.0.host_store) q
                  ∙ finish-file base64 disk r.0 r.1 a.service in
                let l : load json (save credentials json base64 answer disk request s).0.host_store
                    ≡ ok (upsert_host c.config c.old_hosts) =
                  ap (load json) f ∙ c.is_saved ∙ ap ok c.is_new in
                let same = c.is_from.same_id in
                let self = (beq_iff c.config.id request.id).1 same in
                (
                  c.config,
                  c.is_from,
                  (rw (get_host, l)
                      (ap ok (find-upsert_host request.id c.config c.old_hosts ∙ (rw self refl)))),
                  λ j n.
                      (let m : (c.config.id == j) ≡ false = elim (Bool-cases (c.config.id == j)) [
                        | inl z ↦ absurd (n (sym same ∙ (beq_iff c.config.id j).0 z))
                        | inr z ↦ z
                      ] in
                        let w = c.was in
                        rw (get_host, l, w)
                          (ap ok (find-upsert_host j c.config c.old_hosts ∙ (rw m refl)))),
                ))
        ]
      ]
