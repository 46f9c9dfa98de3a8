-- ===== src/HostService/Hosts.antt =====
-- models/host.rs and storage/host_store.rs: a host configuration, and the file `hosts.json`. The
-- crate `serde_json` is a parameter, and what the file system answers is an argument.
use titan_ssh.Common.{
  ℕ, ◌≡◌, ◌↔◌, refl, Bool, true, false, List, [], ◌++◌, Option, Text, codes, text_eq, Eq, arith,
}
use titan_ssh.Errors.{storage_error, Result, ok, err}
use titan_ssh.TrustStore.Records.{Parse, parsed, refused}
use titan_ssh.TrustStore.State.{File, content, missing, unreadable}

pub data AuthType : Type 0 where
  password private_key : AuthType

unfoldable pub auth_beq : AuthType → AuthType → Bool
auth_beq password password = true
auth_beq private_key private_key = true
auth_beq password private_key = false
auth_beq private_key password = false

pub auth_beq_iff : (a b : AuthType) → (auth_beq a b ≡ true) ↔ (a ≡ b)
unfolding auth_beq
auth_beq_iff password password = ((λ _. refl), (λ _. refl))
auth_beq_iff private_key private_key = ((λ _. refl), (λ _. refl))
auth_beq_iff password private_key = ground arith
auth_beq_iff private_key password = ground arith

instance abbrev pub auth_eq : Eq AuthType
auth_eq = record { eq = auth_beq; eq_iff = auth_beq_iff }

pub record HostConfig : Type 0 where
  pub id : Text
  pub name : Text
  pub host : Text
  pub port : ℕ
  pub username : Text
  pub auth_type : AuthType
  pub password_ref : Option Text
  pub private_key_path : Option Text
  pub passphrase_ref : Option Text
  pub remark : Option Text
  pub group : Text

pub record SaveHostRequest : Type 0 where
  pub id : Text
  pub name : Text
  pub host : Text
  pub port : ℕ
  pub username : Text
  pub auth_type : AuthType
  pub password : Option Text
  pub private_key_path : Option Text
  pub passphrase : Option Text
  pub remark : Option Text
  pub group : Text

-- `serde_json::to_string_pretty` and `from_str`, as far as the code relies on them.
pub record Json : Type 0 where
  pub print : List HostConfig → Parse Text
  pub parse : Text → Parse (List HostConfig)
  pub parse-print :
      (hosts : List HostConfig) (text : Text)
      → print hosts ≡ parsed text
      → parse text ≡ parsed hosts

-- What `fs::write` does: a write that fails leaves some file behind, not always the old one.
pub data Write : Type 0 where
  written : Write
  write_fails : Text → File → Write

unfoldable pub write_file : Write → Text → File × Result (Unit {0})
write_file written text = (content text, ok tt)
write_file (write_fails error left) text =
    (left, err (storage_error (codes "写入主机配置文件失败: " ++ error)))

module _ (json : Json) where
  unfoldable pub load : File → Result (List HostConfig)
  load missing = ok []
  load (unreadable error) = err (storage_error (codes "读取主机配置文件失败: " ++ error))
  load (content text) = elim (json.parse text) [
    | parsed hosts ↦ ok hosts
    | refused error ↦ err (storage_error (codes "解析主机配置文件失败: " ++ error))
  ]

  -- `HostStore::save`.
  unfoldable pub save_hosts : Write → List HostConfig → File → File × Result (Unit {0})
  unfolding write_file
  save_hosts answer hosts file = elim (json.print hosts) [
    | refused error ↦ (file, err (storage_error (codes "序列化主机配置失败: " ++ error)))
    | parsed text ↦ write_file answer text
  ]
