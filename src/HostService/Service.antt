-- ===== src/HostService/Service.antt =====
-- core/host_service.rs: `HostConfigService`. The trait `CredentialStore` is an interface, with
-- what its two implementations promise; the trust records are those of `HostIdentityService`.
use titan_ssh.Common.{
  ℕ, ◌≡◌, Bool, ◌&&◌, List, [], ◌∷◌, ◌++◌, Option, none, some, Text, codes, text_eq, nat_eq, ◌==◌,
  if◌then◌else◌, is_empty, trim, any, find, to_decimal,
}
use titan_ssh.Errors.{
  AppError, invalid_host_config, host_trust_cleanup_failed, to_string, Result, ok, err, map_err,
}
use titan_ssh.TrustStore.Records.{Base64}
use titan_ssh.TrustStore.State.{File, Publish}
use titan_ssh.HostIdentity.State.{HostIdentityService}
use titan_ssh.HostIdentity.Decisions.{forget_endpoint}
use titan_ssh.HostService.Hosts.{
  AuthType, password, private_key, auth_eq, HostConfig, SaveHostRequest, Json, load,
}

-- `trait CredentialStore`: what a read finds follows the calls that succeed, and a write that fails
-- changes nothing.
pub record CredentialStore (C : Type 0) : Type 0 where
  pub set : Text → Text → C → C × Result (Unit {0})
  pub delete : Text → C → C × Result (Unit {0})
  pub read : Text → C → Option Text
  pub read-set :
      (k v j : Text) (c : C)
      → (set k v c).1 ≡ ok tt
      → read j (set k v c).0 ≡ (if k == j then some v else read j c)
  pub read-set_err :
      (k v j : Text) (c : C) (e : AppError)
      → (set k v c).1 ≡ err e
      → read j (set k v c).0 ≡ read j c
  pub read-delete :
      (k j : Text) (c : C)
      → (delete k c).1 ≡ ok tt
      → read j (delete k c).0 ≡ (if k == j then none else read j c)

-- `password_key` and `passphrase_key` of storage/secure_store.rs.
unfoldable pub password_key : Text → Text
password_key host_id = codes "titanssh-" ++ host_id ++ codes "-password"

unfoldable pub passphrase_key : Text → Text
passphrase_key host_id = codes "titanssh-" ++ host_id ++ codes "-passphrase"

pub record HostConfigService (C : Type 0) : Type 0 where
  pub host_store : File
  pub credential_store : C
  pub trust_cleanup : HostIdentityService

unfoldable pub validate_save_request : SaveHostRequest → Result (Unit {0})
validate_save_request request =
    if is_empty (trim request.name)
    then err (invalid_host_config (codes "主机名称为必填项"))
    else if is_empty (trim request.host)
    then err (invalid_host_config (codes "主机地址为必填项"))
    else if is_empty (trim request.username)
    then err (invalid_host_config (codes "用户名为必填项"))
    else ok tt

-- The new configuration at the place of the old one, or at the end.
unfoldable pub upsert_host : HostConfig → List HostConfig → List HostConfig
upsert_host config [] = config ∷ []
upsert_host config (h ∷ hosts) =
    if h.id == config.id then config ∷ hosts else h ∷ upsert_host config hosts

abbrev pub endpoint_of : HostConfig → Text × ℕ
endpoint_of h = (h.host, h.port)

abbrev pub has_id : Text → HostConfig → Bool
has_id id h = h.id == id

abbrev pub uses : Text → ℕ → HostConfig → Bool
uses host port h = h.host == host && h.port == port

-- The credentials, and the keys that a save has written, first to last.
pub record Written (C : Type 0) : Type 0 where
  pub store : C
  pub keys : List Text

-- What `save` has come to before it compensates or cleans up.
pub record Attempt (C : Type 0) : Type 0 where
  pub service : HostConfigService C
  pub written_keys : List Text
  pub outcome : Result (List HostConfig × Option (Text × ℕ))

module _ {C : Type 0} (base64 : Base64) where
  unfoldable pub cleanup_unreferenced_endpoint :
      Publish
      → List HostConfig
      → Option (Text × ℕ)
      → HostConfigService C
      → HostConfigService C × Result (Unit {0})
  unfolding forget_endpoint
  cleanup_unreferenced_endpoint answer hosts none s = (s, ok tt)
  cleanup_unreferenced_endpoint answer hosts (some (host, port)) s =
      if any (uses host port) hosts
      then (s, ok tt)
      else let (t, result) = forget_endpoint base64 answer host port s.trust_cleanup in
        (
          record s { trust_cleanup = t },
          map_err
              (λ error. host_trust_cleanup_failed (
                codes "endpoint "
                ++ host
                ++ codes ":"
                ++ to_decimal port
                ++ codes " 的信任记录清理失败: "
                ++ to_string error))
              result,
        )

  -- The last part of both operations.
  unfoldable pub finish :
      Publish
      → List HostConfig
      → Option (Text × ℕ)
      → HostConfigService C
      → HostConfigService C × Result (List HostConfig)
  unfolding cleanup_unreferenced_endpoint
  finish disk hosts old_endpoint s =
      let (t, result) = cleanup_unreferenced_endpoint disk hosts old_endpoint s in
      elim result [ ok _ ↦ (t, ok hosts) | err error ↦ (t, err error) ]

module _ {C : Type 0} (json : Json) where
  unfoldable pub list_hosts : HostConfigService C → Result (List HostConfig)
  unfolding load
  list_hosts s = load json s.host_store

  unfoldable pub get_host : Text → HostConfigService C → Result (Option HostConfig)
  unfolding load
  get_host host_id s = elim (load json s.host_store) [
    | err error ↦ err error
    | ok hosts ↦ ok (find (has_id host_id) hosts)
  ]

module _ {C : Type 0} (credentials : CredentialStore C) where
  unfoldable pub resolve_credential_ref :
      Text → Option Text → Option Text → Bool → Written C → Written C × Result (Option Text)
  resolve_credential_ref key provided existing_ref auth_type_changed w =
      let kept : Option Text = if auth_type_changed then none else existing_ref in
      elim provided [
        | none ↦ (w, ok kept)
        | some value ↦
            if is_empty value
            then (w, ok kept)
            else let (store, result) = credentials.set key value w.store in
              elim result [
                | err error ↦ (record w { store = store }, err error)
                | ok _ ↦ (record { store = store; keys = w.keys ++ key ∷ [] }, ok (some key))
              ]
      ]

  -- `let _ = self.credential_store.delete(key)`.
  unfoldable pub forget_credential : Text → C → C
  forget_credential key c = (credentials.delete key c).0

  unfoldable pub compensate : List Text → C → C
  unfolding forget_credential
  compensate [] c = c
  compensate (key ∷ keys) c = compensate keys (forget_credential key c)

  -- The credential that a change of the authentication makes stale.
  unfoldable pub forget_stale : AuthType → Text → C → C
  unfolding forget_credential
  forget_stale private_key id c = forget_credential (password_key id) c
  forget_stale password id c = forget_credential (passphrase_key id) c
