-- ===== src/HostService/Tests.antt =====
-- The saved hosts of core/host_service.rs at concrete requests.
use titan_ssh.Common.{
  ◌≡◌, ◌≢◌, refl, ◌⊎◌, true, [], ◌∷◌, ◌++◌, Option, none, some, Text, codes, text_eq, nat_eq, beq,
  ◌==◌, if◌then◌else◌, trim, is_whitespace, trim_start,
}
use titan_ssh.Errors.{ok, err, storage_error}
use titan_ssh.TrustStore.State.{
  File, content, missing, published, Store, ensure_loaded, commit, write_records,
  remove as remove_record,
}
use titan_ssh.TrustStore.Samples.{codec as base64, web, db}
use titan_ssh.HostIdentity.State.{new, contains}
use titan_ssh.HostIdentity.Decisions.{forget_endpoint}
use titan_ssh.HostService.Samples.{
  codec, memory_store, text_of, fields, put_text, put_auth, put_option, hosts_of, texts_of,
  on_first, option_of, auth_of, number_of,
}
use titan_ssh.HostService.Hosts.{
  password, auth_beq, auth_eq, HostConfig, SaveHostRequest, written, write_fails, load, save_hosts,
  write_file,
}
use titan_ssh.HostService.Service.{
  HostConfigService, password_key, validate_save_request, upsert_host, get_host, finish,
  cleanup_unreferenced_endpoint, resolve_credential_ref,
}
use titan_ssh.HostService.Operations.{save, attempt_save, save_over}
use titan_ssh.HostService.Compensation.{Deletes, save-compensates}
use titan_ssh.HostService.Commits.{get_host-save}
use titan_ssh.HostService.Files.{IsFrom}
use titan_ssh.HostService.Losses.{save_failure_dangles}

abbrev shop_id : Text
shop_id = 1 ∷ []

abbrev secret : Text
secret = 115 ∷ []

abbrev shop : HostConfig
shop = record {
  id = shop_id;
  name = 110 ∷ [];
  host = web.host;
  port = 22;
  username = 117 ∷ [];
  auth_type = password;
  password_ref = some (password_key shop_id);
  private_key_path = none;
  passphrase_ref = none;
  remark = none;
  group = [];
}

-- The same host on another port, with a new password.
abbrev request : SaveHostRequest
request = record {
  id = shop_id;
  name = 110 ∷ [];
  host = web.host;
  port = 2200;
  username = 117 ∷ [];
  auth_type = password;
  password = some (110 ∷ []);
  private_key_path = none;
  passphrase = none;
  remark = none;
  group = [];
}

abbrev trust : Store
trust = record { path = []; records = some (web ∷ db ∷ []); file = missing }

abbrev old_credentials : Text → Option Text
old_credentials k = if k == password_key shop_id then some secret else none

abbrev service : HostConfigService (Text → Option Text)
service = record {
  host_store = content (text_of (fields (shop ∷ [])));
  credential_store = old_credentials;
  trust_cleanup = new (some trust);
}

memory-Deletes : Deletes memory_store
memory-Deletes k c = refl

request_valid : validate_save_request request ≡ ok tt
unfolding validate_save_request trim trim_start is_whitespace
request_valid = refl

loaded : load codec service.host_store ≡ ok (shop ∷ [])
unfolding load text_of fields put_text put_auth put_option hosts_of texts_of on_first option_of
    auth_of number_of password_key codes
loaded = refl

found : get_host codec shop_id service ≡ ok (some shop)
unfolding get_host load text_of fields put_text put_auth put_option hosts_of texts_of on_first
    option_of auth_of number_of password_key codes beq
found = refl

saved :
    (save memory_store codec base64 written published request service).1
    ≡ ok (record shop { port = 2200 } ∷ [])
unfolding save attempt_save save_over validate_save_request trim trim_start is_whitespace load
    text_of fields put_text put_auth put_option hosts_of texts_of on_first option_of auth_of
    number_of password_key codes beq upsert_host save_hosts write_file resolve_credential_ref finish
    cleanup_unreferenced_endpoint new forget_endpoint remove_record ensure_loaded commit
    write_records auth_beq
saved = refl

failed :
    ((attempt_save memory_store codec (write_fails [] service.host_store) request service).outcome
      ≡ err (storage_error (codes "写入主机配置文件失败: " ++ [])))
    × (contains
          (password_key request.id)
          (attempt_save memory_store codec
            (write_fails [] service.host_store)
            request
            service).written_keys
        ≡ true)
unfolding attempt_save save_over load text_of fields put_text put_auth put_option hosts_of texts_of
    on_first option_of auth_of number_of password_key codes beq upsert_host save_hosts write_file
    resolve_credential_ref auth_beq
failed = (refl, refl)

save-compensates_example :
    let answer = write_fails [] service.host_store in
    let t = (save memory_store codec base64 answer published request service).0 in
    ((save memory_store codec base64 answer published request service).1
      ≡ err (storage_error (codes "写入主机配置文件失败: " ++ [])))
    × ((j : Text)
        → memory_store.read j t.credential_store ≡ (
            if contains j (attempt_save memory_store codec answer request service).written_keys
            then none
            else memory_store.read j service.credential_store))
    × (t.trust_cleanup ≡ service.trust_cleanup)
    × ((t.host_store ≡ service.host_store)
        ⊎ ((error : Text) × (left : File) × (answer ≡ write_fails error left)
            × (t.host_store ≡ left)))
save-compensates_example =
    save-compensates memory_store codec (write_fails [] service.host_store) request base64 published
      service (storage_error (codes "写入主机配置文件失败: " ++ [])) memory-Deletes request_valid failed.0

save_failure_dangles_example :
    let t =
      (save memory_store codec base64
        (write_fails [] service.host_store)
        published
        request
        service).0 in
    (get_host codec shop_id t ≡ ok (some shop))
    × (memory_store.read (password_key shop_id) t.credential_store ≡ none)
save_failure_dangles_example =
    save_failure_dangles memory_store codec base64 published request service []
      (storage_error (codes "写入主机配置文件失败: " ++ [])) shop memory-Deletes request_valid failed.0
      failed.1 found

get_host-save_example :
    let t = (save memory_store codec base64 written published request service).0 in
    (config : HostConfig) × IsFrom request config
    × (get_host codec shop_id t ≡ ok (some config))
    × ((j : Text) → shop_id ≢ j → get_host codec j t ≡ get_host codec j service)
get_host-save_example =
    get_host-save memory_store codec written request base64 published service
      (record shop { port = 2200 } ∷ []) saved
