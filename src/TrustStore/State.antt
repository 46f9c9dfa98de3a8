-- ===== src/TrustStore/State.antt =====
-- storage/trust_store.rs: `TrustStore` and its operations, over a disk that holds the file. What the
-- file system answers is an argument of each operation.
use titan_ssh.Common.{
  text_leb, ℕ, Bool, not, List, [], ◌∷◌, ◌++◌, Option, none, some, nat_eq, text_eq, ◌==◌, Text,
  codes, if◌then◌else◌, retain, find, length, leb,
}
use titan_ssh.Errors.{trust_store_error, Result, ok, err}
use titan_ssh.TrustStore.Records.{TrustRecord, parsed, refused, Base64, is_for}
use titan_ssh.TrustStore.Format.{parse_content, serialize_records}

-- What `fs::read_to_string` finds.
pub data File : Type 0 where
  content : Text → File
  missing : File
  unreadable : Text → File

-- The step of `write_records` that fails, with the system's message; `parentless` is a path with
-- no parent directory.
pub data Publish : Type 0 where
  published parentless : Publish
  temp_fails write_fails sync_fails persist_fails : Text → Publish

-- The store and the file behind it. `path` is the path as it is shown.
pub record Store : Type 0 where
  pub path : Text
  pub records : Option (List TrustRecord)
  pub file : File

unfoldable pub from_file_path : Text → File → Store
from_file_path path file = record { path = path; records = none; file = file }

-- `a.host.cmp(&b.host).then(a.port.cmp(&b.port))` is not `Greater`.
unfoldable pub record_leb : TrustRecord → TrustRecord → Bool
unfolding text_leb
record_leb a b = if a.host == b.host then leb a.port b.port else text_leb a.host b.host

unfoldable pub insert_sorted : TrustRecord → List TrustRecord → List TrustRecord
insert_sorted r [] = r ∷ []
insert_sorted r (x ∷ xs) = if record_leb r x then r ∷ x ∷ xs else x ∷ insert_sorted r xs

-- The stable sort of the standard library, as an insertion sort.
unfoldable pub sort_records : List TrustRecord → List TrustRecord
unfolding insert_sorted record_leb
sort_records [] = []
sort_records (r ∷ rs) = insert_sorted r (sort_records rs)

-- The records once the endpoint's record has been put in, or taken out.
abbrev pub replaced : TrustRecord → List TrustRecord → List TrustRecord
replaced r records = retain (λ x. not (is_for r.host r.port x)) records ++ r ∷ []

abbrev pub without : Text → ℕ → List TrustRecord → List TrustRecord
without host port records = retain (λ x. not (is_for host port x)) records

module _ (base64 : Base64) where
  unfoldable pub load_from_file : Text → File → Result (List TrustRecord)
  unfolding parse_content
  load_from_file path missing = ok []
  load_from_file path (unreadable error) =
      err (trust_store_error (codes "读取信任存储失败: " ++ path ++ codes " (" ++ error ++ codes ")"))
  load_from_file path (content text) = elim (parse_content base64 text) [
    | parsed records ↦ ok records
    | refused reason ↦ err (trust_store_error (codes "解析信任存储失败: " ++ path ++ reason))
  ]

  -- The records, and the store with its cache filled.
  unfoldable pub ensure_loaded : Store → Store × Result (List TrustRecord)
  unfolding load_from_file
  ensure_loaded s = elim s.records [
    | some records ↦ (s, ok records)
    | none ↦ elim (load_from_file s.path s.file) [
      | ok records ↦ (record s { records = some records }, ok records)
      | err error ↦ (s, err error)
    ]
  ]

  -- The file as `write_records` leaves it: replaced as a whole, or untouched.
  unfoldable pub write_records : Publish → List TrustRecord → Store → Store × Result (Unit {0})
  unfolding serialize_records
  write_records published records s =
      (record s { file = content (serialize_records base64 records) }, ok tt)
  write_records parentless records s = (s, err (trust_store_error (codes "信任存储路径无父目录: " ++ s.path)))
  write_records (temp_fails error) records s =
      (s, err (trust_store_error (codes "创建信任存储临时文件失败: " ++ error)))
  write_records (write_fails error) records s =
      (s, err (trust_store_error (codes "写入信任存储临时文件失败: " ++ error)))
  write_records (sync_fails error) records s =
      (s, err (trust_store_error (codes "同步信任存储临时文件失败: " ++ error)))
  write_records (persist_fails error) records s = (
    s,
    err (
        trust_store_error
          (codes "发布信任存储失败: " ++ s.path ++ codes " (" ++ error ++ codes ")，原文件未受影响")),
  )

  -- Publishes new records, and caches them once that has worked.
  unfoldable pub commit : Publish → List TrustRecord → Store → Store × Result (Unit {0})
  unfolding write_records
  commit answer records s =
      let (t, r) = write_records answer records s in
      elim r [ ok _ ↦ (record t { records = some records }, ok tt) | err error ↦ (t, err error) ]

  unfoldable pub lookup : Text → ℕ → Store → Store × Result (Option TrustRecord)
  unfolding ensure_loaded
  lookup host port s =
      let (t, loaded) = ensure_loaded s in
      elim loaded [
        | err error ↦ (t, err error)
        | ok records ↦ (t, ok (find (is_for host port) records))
      ]

  unfoldable pub upsert : Publish → TrustRecord → Store → Store × Result (Unit {0})
  unfolding ensure_loaded commit
  upsert answer r s =
      let (t, loaded) = ensure_loaded s in
      elim loaded [ err error ↦ (t, err error) | ok records ↦ commit answer (replaced r records) t ]

  unfoldable pub remove : Publish → Text → ℕ → Store → Store × Result (Unit {0})
  unfolding ensure_loaded commit
  remove answer host port s =
      let (t, loaded) = ensure_loaded s in
      elim loaded [
        | err error ↦ (t, err error)
        | ok records ↦
            if length (without host port records) == length records
            then (t, ok tt)
            else commit answer (without host port records) t
      ]

  -- `list`: the records by host, then by port.
  unfoldable pub list : Store → Store × Result (List TrustRecord)
  unfolding ensure_loaded sort_records
  list s =
      let (t, loaded) = ensure_loaded s in
      elim loaded [ err error ↦ (t, err error) | ok records ↦ (t, ok (sort_records records)) ]
