-- ===== src/TrustStore/Format.antt =====
-- storage/trust_store.rs: `parse_host_pattern`, `format_host_pattern`, `parse_entry` and
-- `serialize_records`. A message leaves out the reason that the integer parser gives.
use titan_ssh.Common.{
  ℕ, ◌+◌, not, List, [], ◌∷◌, ◌++◌, Option, none, some, nat_eq, ◌==◌, Text, codes, trim,
  split_whitespace, split_once, strip_prefix, starts_with_char, is_empty, any, reverse, to_decimal,
  parse_uint, if◌then◌else◌, ◌||◌, lines,
}
use titan_ssh.TrustStore.Records.{TrustRecord, Parse, parsed, refused, ◌>>=◌, Base64}

-- `u16::MAX`.
abbrev pub port_max : ℕ
port_max = 65535

-- The port of `[host]:port`, from what follows the bracket.
unfoldable pub parse_bracketed : Text → Text → Text → Parse (Text × ℕ)
parse_bracketed pattern host after = elim (strip_prefix (b':' ∷ []) after) [
  | none ↦ refused (codes "括号主机段缺少端口: " ++ pattern)
  | some port_text ↦
      if is_empty host
      then refused (codes "主机段主机为空: " ++ pattern)
      else elim (parse_uint port_max port_text) [
        | none ↦ refused (codes "端口解析失败: " ++ pattern)
        | some port ↦ parsed (host, port)
      ]
]

unfoldable pub parse_host_pattern : Text → Parse (Text × ℕ)
unfolding parse_bracketed
parse_host_pattern pattern = elim (strip_prefix (b'[' ∷ []) pattern) [
  | some rest ↦ elim (split_once b']' rest) [
    | none ↦ refused (codes "主机段缺少右括号: " ++ pattern)
    | some (host, after) ↦ parse_bracketed pattern host after
  ]
  | none ↦
      if any (λ c. c == b':') pattern
      then refused (codes "主机段格式非法（无括号含冒号）: " ++ pattern)
      else if is_empty pattern
      then refused (codes "主机段为空")
      else parsed (pattern, 22)
]

unfoldable pub format_host_pattern : Text → ℕ → Text
format_host_pattern host port =
    if not (port == 22) || any (λ c. c == b':') host
    then b'[' ∷ (host ++ (b']' ∷ b':' ∷ to_decimal port))
    else host

-- `str::trim_end_matches('=')`.
unfoldable pub drop_padding : Text → Text
drop_padding [] = []
drop_padding (c ∷ s) = if c == b'=' then drop_padding s else c ∷ s

unfoldable pub trim_padding : Text → Text
unfolding drop_padding
trim_padding s = reverse (drop_padding (reverse s))

module _ (base64 : Base64) where
  open base64 use {encode, decode}

  -- The public key of an entry.
  unfoldable pub parse_blob : Text → Parse (List ℕ)
  unfolding trim_padding
  parse_blob encoded = elim (decode (trim_padding encoded)) [
    | refused error ↦ refused (codes "公钥 base64 解码失败 (" ++ error ++ codes ")")
    | parsed blob ↦ if is_empty blob then refused (codes "公钥解码后为空") else parsed blob
  ]

  -- An entry from its three fields.
  unfoldable pub parse_fields : Text → Text → Text → Parse (Option TrustRecord)
  unfolding parse_host_pattern parse_blob
  parse_fields pattern algorithm encoded = do
    endpoint ← parse_host_pattern pattern
    a ← if is_empty algorithm then refused (codes "算法名不能为空") else parsed algorithm
    b ← if is_empty encoded then refused (codes "公钥不能为空") else parsed encoded
    blob ← parse_blob b
    parsed (some (record { host = endpoint.0; port = endpoint.1; algorithm = a; blob = blob }))

  abbrev pub parse_parts : List Text → Parse (Option TrustRecord)
  parse_parts (pattern ∷ algorithm ∷ encoded ∷ []) = parse_fields pattern algorithm encoded
  parse_parts parts = refused (codes "期望 `<host> <algorithm> <base64>` 三段")

  unfoldable pub parse_entry : Text → Parse (Option TrustRecord)
  unfolding parse_fields
  parse_entry line =
      let trimmed = trim line in
      if is_empty trimmed || starts_with_char b'#' trimmed
      then parsed none
      else parse_parts (split_whitespace trimmed)

  -- One line of the file.
  unfoldable pub format_entry : TrustRecord → Text
  unfolding format_host_pattern
  format_entry r =
      format_host_pattern r.host r.port ++ (b' ' ∷ (r.algorithm ++ (b' ' ∷ encode r.blob)))

  unfoldable pub serialize_records : List TrustRecord → Text
  unfolding format_entry
  serialize_records [] = []
  serialize_records (r ∷ rs) = format_entry r ++ (10 ∷ serialize_records rs)

  -- The lines of the file in turn, from this index on; the first that does not parse ends the
  -- reading, with its number.
  unfoldable pub parse_lines : ℕ → List Text → Parse (List TrustRecord)
  unfolding parse_entry
  parse_lines index [] = parsed []
  parse_lines index (line ∷ rest) =
      let others = parse_lines (index + 1) rest in
      elim (parse_entry line) [
        | refused reason ↦
            refused (codes " 第 " ++ to_decimal (index + 1) ++ codes " 行 (" ++ reason ++ codes ")")
        | parsed none ↦ others
        | parsed (some r) ↦ others >>= λ rs. parsed (r ∷ rs)
      ]

  unfoldable pub parse_content : Text → Parse (List TrustRecord)
  unfolding parse_lines
  parse_content content = parse_lines 0 (lines content)
