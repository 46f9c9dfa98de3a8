-- ===== src/HostService/Operations.antt =====
-- core/host_service.rs: `save` and `delete`.
use titan_ssh.Common.{
  ℕ, Bool, false, not, ◌||◌, List, [], Option, none, some, Text, text_eq, nat_eq, ◌==◌,
  if◌then◌else◌, find, retain,
}
use titan_ssh.Errors.{Result, ok, err}
use titan_ssh.TrustStore.Records.{Base64}
use titan_ssh.TrustStore.State.{Publish}
use titan_ssh.HostService.Hosts.{
  auth_eq, HostConfig, SaveHostRequest, Json, Write, load, save_hosts,
}
use titan_ssh.HostService.Service.{
  CredentialStore, password_key, passphrase_key, HostConfigService, validate_save_request,
  upsert_host, endpoint_of, has_id, Attempt, finish, resolve_credential_ref, forget_credential,
  compensate, forget_stale,
}

module _ {C : Type 0} (credentials : CredentialStore C) where
  module _ (json : Json) where
    -- The closure in `save`, from the host that is there on.
    unfoldable pub save_over :
        Write
        → SaveHostRequest
        → List HostConfig
        → Option HostConfig
        → HostConfigService C
        → Attempt C
    unfolding resolve_credential_ref upsert_host save_hosts forget_stale
    save_over answer request existing_hosts existing s =
        let auth_type_changed : Bool = elim existing [
          | none ↦ false
          | some h ↦ not (h.auth_type == request.auth_type)
        ] in
        let old_endpoint : Option (Text × ℕ) = elim existing [
          | none ↦ none
          | some h ↦
              if not (h.host == request.host) || not (h.port == request.port)
              then some (endpoint_of h)
              else none
        ] in
        let (w, password_ref) =
          resolve_credential_ref credentials (password_key request.id) request.password
            (elim existing [ none ↦ none | some h ↦ h.password_ref ]) auth_type_changed
            (record { store = s.credential_store; keys = [] }) in
        elim password_ref [
          | err error ↦ record {
            service = record s { credential_store = w.store };
            written_keys = w.keys;
            outcome = err error;
          }
          | ok password_ref ↦
              let (x, passphrase_ref) =
                resolve_credential_ref credentials (passphrase_key request.id) request.passphrase
                  (elim existing [ none ↦ none | some h ↦ h.passphrase_ref ]) auth_type_changed w in
              elim passphrase_ref [
                | err error ↦ record {
                  service = record s { credential_store = x.store };
                  written_keys = x.keys;
                  outcome = err error;
                }
                | ok passphrase_ref ↦
                    let config : HostConfig = record {
                      id = request.id;
                      name = request.name;
                      host = request.host;
                      port = request.port;
                      username = request.username;
                      auth_type = request.auth_type;
                      password_ref = password_ref;
                      private_key_path = request.private_key_path;
                      passphrase_ref = passphrase_ref;
                      remark = request.remark;
                      group = request.group;
                    } in
                    let hosts = upsert_host config existing_hosts in
                    let (file, saved) = save_hosts json answer hosts s.host_store in
                    elim saved [
                      | err error ↦ record {
                        service = record s { host_store = file; credential_store = x.store };
                        written_keys = x.keys;
                        outcome = err error;
                      }
                      | ok _ ↦ record {
                        service = record s {
                          host_store = file;
                          credential_store =
                              if auth_type_changed
                              then forget_stale credentials request.auth_type request.id x.store
                              else x.store;
                        };
                        written_keys = x.keys;
                        outcome = ok (hosts, old_endpoint);
                      }
                    ]
              ]
        ]

    -- The closure in `save`.
    unfoldable pub attempt_save : Write → SaveHostRequest → HostConfigService C → Attempt C
    unfolding load save_over
    attempt_save answer request s = elim (load json s.host_store) [
      | err error ↦ record { service = s; written_keys = []; outcome = err error }
      | ok hosts ↦ save_over answer request hosts (find (has_id request.id) hosts) s
    ]

    module _ (base64 : Base64) where
      unfoldable pub save :
          Write
          → Publish
          → SaveHostRequest
          → HostConfigService C
          → HostConfigService C × Result (List HostConfig)
      unfolding validate_save_request attempt_save finish compensate
      save answer disk request s = elim (validate_save_request request) [
        | err error ↦ (s, err error)
        | ok _ ↦
            let a = attempt_save answer request s in
            elim a.outcome [
              | ok (hosts, old_endpoint) ↦ finish base64 disk hosts old_endpoint a.service
              | err error ↦ (
                record a.service {
                  credential_store =
                      compensate credentials a.written_keys a.service.credential_store;
                },
                err error,
              )
            ]
      ]

      unfoldable pub delete :
          Write
          → Publish
          → Text
          → HostConfigService C
          → HostConfigService C × Result (List HostConfig)
      unfolding load save_hosts forget_credential finish
      delete answer disk host_id s = elim (load json s.host_store) [
        | err error ↦ (s, err error)
        | ok hosts ↦
            let removed_endpoint : Option (Text × ℕ) = elim (find (has_id host_id) hosts) [
              | none ↦ none
              | some h ↦ some (endpoint_of h)
            ] in
            let rest = retain (λ h. not (has_id host_id h)) hosts in
            let (file, saved) = save_hosts json answer rest s.host_store in
            let t : HostConfigService C = record s { host_store = file } in
            elim saved [
              | err error ↦ (t, err error)
              | ok _ ↦ finish base64 disk rest removed_endpoint (record t {
                credential_store =
                    forget_credential credentials (passphrase_key host_id)
                      (forget_credential credentials (password_key host_id) t.credential_store);
              })
            ]
      ]
