-- ===== src/SftpService/Listing.antt =====
-- `list_dir` and `format_permissions` of core/sftp_service.rs, with `RemoteEntry` of models/sftp.rs
-- and `SftpEntry` of core/ssh_transport.rs.
use mathlib.Core.List.{Perm}
use mathlib.Core.List.Perm
use titan_ssh.Common.{
  ℕ, ◌+◌, ◌*◌, ◌/◌, ◌%◌, ◌^◌, ◌<◌, ◌≡◌, inl, inr, Bool, true, not, ◌&&◌, ◌||◌, List, [], ◌∷◌, map,
  Option, none, some, Text, nat_eq, ◌==◌, if◌then◌else◌, arith, Bool-cases, file_name, text_leb,
}
use titan_ssh.Errors.{Result, ok, err, ◌>>=◌}

pub record SftpEntry : Type 0 where
  pub path : Text
  pub is_dir : Bool
  pub size : ℕ
  pub modified_at : ℕ
  pub permissions : Option ℕ

pub record RemoteEntry : Type 0 where
  pub name : Text
  pub path : Text
  pub is_dir : Bool
  pub size : ℕ
  pub modified_at : ℕ
  pub permissions : Text

-- `perm & (1 << n) != 0`.
abbrev pub has_bit : ℕ → ℕ → Bool
has_bit perm n = (perm / 2 ^ n) % 2 == 1

abbrev pub mark : ℕ → ℕ → ℕ → ℕ
mark perm n c = if has_bit perm n then c else 45

-- The inner loop, for the three bits from `shift` on.
unfoldable pub triple : ℕ → ℕ → Text → Text
triple perm shift rest =
    mark perm (shift + 2) 114 ∷ mark perm (shift + 1) 119 ∷ mark perm shift 120 ∷ rest

unfoldable pub format_permissions : ℕ → Text
unfolding triple
format_permissions perm = triple perm 6 (triple perm 3 (triple perm 0 []))

unfoldable pub to_remote_entry : SftpEntry → RemoteEntry
unfolding format_permissions
to_remote_entry entry = record {
  name = elim (file_name entry.path) [ none ↦ [] | some name ↦ name ];
  path = entry.path;
  is_dir = entry.is_dir;
  size = entry.size;
  modified_at = entry.modified_at;
  permissions = elim entry.permissions [ none ↦ [] | some perm ↦ format_permissions perm ];
}

-- Directories first, and then by name.
unfoldable pub entry_leb : RemoteEntry → RemoteEntry → Bool
entry_leb a b =
    (a.is_dir && not b.is_dir)
    || (((a.is_dir && b.is_dir) || (not a.is_dir && not b.is_dir)) && text_leb a.name b.name)

unfoldable pub insert_entry : RemoteEntry → List RemoteEntry → List RemoteEntry
insert_entry x [] = x ∷ []
insert_entry x (y ∷ ys) = if entry_leb x y then x ∷ y ∷ ys else y ∷ insert_entry x ys

-- `sort_by`, which is stable.
unfoldable pub sort_entries : List RemoteEntry → List RemoteEntry
unfolding insert_entry
sort_entries [] = []
sort_entries (x ∷ xs) = insert_entry x (sort_entries xs)

-- `answer` is what the control operation returns.
unfoldable pub list_dir : Result (List SftpEntry) → Result (List RemoteEntry)
unfolding sort_entries to_remote_entry
list_dir answer = answer >>= λ entries. ok (sort_entries (map to_remote_entry entries))

abbrev pub IsOrdered : List RemoteEntry → Type 0
IsOrdered [] = Unit {0}
IsOrdered (x ∷ []) = Unit {0}
IsOrdered (x ∷ y ∷ ys) = (entry_leb x y ≡ true) × IsOrdered (y ∷ ys)

-- The permissions that the nine characters stand for.
unfoldable pub parse_permissions : ℕ → Text → ℕ
parse_permissions n [] = 0
parse_permissions n (c ∷ rest) = (if c == 45 then 0 else n) + parse_permissions (n / 2) rest

value-mark :
    (perm n c : ℕ)
    → 45 < c
    → (if mark perm n c == 45 then 0 else 2 ^ n) ≡ (perm / 2 ^ n) % 2 * 2 ^ n
value-mark perm n c h = elim (Bool-cases (has_bit perm n)) [
  | inl q ↦ rw q (let e : (perm / 2 ^ n) % 2 ≡ 1 = ground arith in rw e (ground arith))
  | inr q ↦ rw q (let e : (perm / 2 ^ n) % 2 ≡ 0 = ground arith in rw e (ground arith))
]

-- The nine characters of a mode tell its nine permission bits: reading them back gives the mode modulo 512.
parse-format_permissions : (perm : ℕ) → parse_permissions 256 (format_permissions perm) ≡ perm % 512
unfolding parse_permissions format_permissions
parse-format_permissions perm = omega (
  arith,
  value-mark perm 8 114 (omega arith),
  value-mark perm 7 119 (omega arith),
  value-mark perm 6 120 (omega arith),
  value-mark perm 5 114 (omega arith),
  value-mark perm 4 119 (omega arith),
  value-mark perm 3 120 (omega arith),
  value-mark perm 2 114 (omega arith),
  value-mark perm 1 119 (omega arith),
  value-mark perm 0 120 (omega arith),
)

abbrev pub Shows : Result (List SftpEntry) → Type 0
Shows answer = elim answer [
  | err error ↦ list_dir (err error) ≡ err error
  | ok entries ↦
      (shown : List RemoteEntry) × (list_dir (ok entries) ≡ ok shown)
      × Perm shown (map to_remote_entry entries)
      × IsOrdered shown
]
