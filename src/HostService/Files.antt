-- ===== src/HostService/Files.antt =====
-- core/host_service.rs and storage/host_store.rs: what is written to `hosts.json`.
use titan_ssh.Common.{
  ℕ, ◌≡◌, refl, sym, ◌∙◌, ap, subst, inl, inr, List, [], ◌∷◌, ◌++◌, codes, Option, none, some, Text,
  text_eq, nat_eq, ◌==◌, if◌then◌else◌, if_rule, find, arith, beq_iff, any,
}
use titan_ssh.Errors.{storage_error, Result, ok, err, result_rule}
use titan_ssh.TrustStore.Records.{Base64, Parse-cases}
use titan_ssh.TrustStore.State.{Publish, File, content}
use titan_ssh.HostService.Hosts.{
  auth_eq, HostConfig, SaveHostRequest, Json, Write, written, write_fails, load, save_hosts,
  write_file,
}
use titan_ssh.HostService.Service.{
  HostConfigService, upsert_host, has_id, uses, finish, cleanup_unreferenced_endpoint,
}

-- What is found for an id once a configuration is in.
pub find-upsert_host :
    (j : Text) (config : HostConfig) (hosts : List HostConfig)
    → find (has_id j) (upsert_host config hosts)
      ≡ (if config.id == j then some config else find (has_id j) hosts)
unfolding upsert_host
find-upsert_host j config [] = refl
find-upsert_host j config (h ∷ hosts) = ground (
  arith,
  find-upsert_host j config hosts,
  beq_iff h.id config.id,
  beq_iff h.id j,
  beq_iff config.id j,
)

write_file-ok :
    (answer : Write) (text : Text)
    → (write_file answer text).1 ≡ ok tt
    → (write_file answer text).0 ≡ content text
unfolding write_file
write_file-ok written text h = refl
write_file-ok (write_fails error left) text h = cc

pub load-save_hosts :
    (json : Json) (answer : Write) (hosts : List HostConfig) (file : File)
    → (save_hosts json answer hosts file).1 ≡ ok tt
    → load json (save_hosts json answer hosts file).0 ≡ ok hosts
unfolding save_hosts load
load-save_hosts json answer hosts file h = elim (Parse-cases (json.print hosts)) [
  | inl (text, q) ↦
      (let r : save_hosts json answer hosts file ≡ write_file answer text = simp (save_hosts, q) in
        let h' : (write_file answer text).1 ≡ ok tt =
          subst (λ (x : File × Result (Unit {0})). x.1 ≡ ok tt) r h in
        let e : (save_hosts json answer hosts file).0 ≡ content text =
          ap (λ (x : File × Result (Unit {0})). x.0) r ∙ write_file-ok answer text h' in
        let p = json.parse-print hosts text q in ap (load json) e ∙ (rw (load, p) refl))
  | inr (x, q) ↦
      (let r : save_hosts json answer hosts file
            ≡ (file, err (storage_error (codes "序列化主机配置失败: " ++ x))) =
          simp (save_hosts, q) in
        let z = sym h ∙ ap (λ (y : File × Result (Unit {0})). y.1) r in cc)
]

-- The configuration is the request's, as far as both have a field.
pub record IsFrom (request : SaveHostRequest) (config : HostConfig) : Type 0 where
  pub same_id : config.id ≡ request.id
  pub same_name : config.name ≡ request.name
  pub same_host : config.host ≡ request.host
  pub same_port : config.port ≡ request.port
  pub same_username : config.username ≡ request.username
  pub same_auth_type : config.auth_type ≡ request.auth_type
  pub same_private_key_path : config.private_key_path ≡ request.private_key_path
  pub same_remark : config.remark ≡ request.remark
  pub same_group : config.group ≡ request.group

pub record HasCommitted (json : Json) (request : SaveHostRequest) (before after : File)
    (hosts : List HostConfig) : Type 0 where
  pub old_hosts : List HostConfig
  pub config : HostConfig
  pub was : load json before ≡ ok old_hosts
  pub is_from : IsFrom request config
  pub is_new : hosts ≡ upsert_host config old_hosts
  pub is_saved : load json after ≡ ok hosts

module _ {C : Type 0} (base64 : Base64) (disk : Publish) (hosts : List HostConfig) where
  -- The last part changes the trust records alone.
  cleanup_frame :
      (old : Option (Text × ℕ)) (s : HostConfigService C)
      → (cleanup_unreferenced_endpoint base64 disk hosts old s).0 ≡ record s {
        trust_cleanup = (cleanup_unreferenced_endpoint base64 disk hosts old s).0.trust_cleanup;
      }
  unfolding cleanup_unreferenced_endpoint
  cleanup_frame none s = refl
  cleanup_frame (some (host, port)) s =
      if_rule
        (λ (r : HostConfigService C × Result (Unit {0})).
          r.0 ≡ record s { trust_cleanup = r.0.trust_cleanup })
        (any (uses host port) hosts) (λ _. refl) (λ _. refl)

  finish-cleanup :
      (old : Option (Text × ℕ)) (s : HostConfigService C)
      → ((finish base64 disk hosts old s).0
          ≡ (cleanup_unreferenced_endpoint base64 disk hosts old s).0)
        × ((xs : List HostConfig) → (finish base64 disk hosts old s).1 ≡ ok xs → hosts ≡ xs)
  unfolding finish
  finish-cleanup old s =
      let c = cleanup_unreferenced_endpoint base64 disk hosts old s in
      result_rule
        (λ (r : HostConfigService C × Result (List HostConfig)).
          (r.0 ≡ c.0) × ((xs : List HostConfig) → r.1 ≡ ok xs → hosts ≡ xs))
        c.1 (λ e _. (refl, λ xs q. cc)) (λ u _. (refl, λ xs q. cc))

  pub finish-file :
      (old : Option (Text × ℕ)) (s : HostConfigService C)
      → (finish base64 disk hosts old s).0.host_store ≡ s.host_store
  finish-file old s =
      ap (λ (x : HostConfigService C). x.host_store)
        ((finish-cleanup old s).0 ∙ cleanup_frame old s)

  pub finish-credentials :
      (old : Option (Text × ℕ)) (s : HostConfigService C)
      → (finish base64 disk hosts old s).0.credential_store ≡ s.credential_store
  finish-credentials old s =
      ap (λ (x : HostConfigService C). x.credential_store)
        ((finish-cleanup old s).0 ∙ cleanup_frame old s)
