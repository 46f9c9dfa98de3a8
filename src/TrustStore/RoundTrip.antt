-- ===== src/TrustStore/RoundTrip.antt =====
-- The printer and the parser of storage/trust_store.rs, one after the other.
use titan_ssh.Common.{
  ℕ, ◌+◌, ◌≤◌, ◌<◌, ◌≡◌, refl, ◌≢◌, inl, inr, true, false, not, List, [], ◌∷◌, ◌++◌, some, nat_eq,
  ◌==◌, Text, trim, split_once, strip_prefix, starts_with_char, is_empty, any, reverse, to_decimal,
  parse_uint-to_decimal, to_decimal-digits, is_digit, ◌||◌, All, All-append, All-reverse, IsWord,
  IsLine, IsWord-IsLine, split_whitespace_three, trim_words, lines, lines-line, is_whitespace,
  arith, Bool-cases, ap,
}
use mathlib.Core.List.{append_assoc, reverse-reverse}
use titan_ssh.TrustStore.Records.{TrustRecord, parsed, Base64}
use titan_ssh.TrustStore.Format.{
  port_max, parse_host_pattern, format_host_pattern, trim_padding, drop_padding, parse_blob,
  parse_fields, parse_entry, format_entry, serialize_records, parse_lines, parse_content,
}

-- A host as a configuration can name it and the file can hold it: one word, with none of the
-- characters that the format uses for itself.
abbrev pub IsHost : Text → Type 0
IsHost s = All (λ (c : ℕ). (is_whitespace c ≡ false) × (c ≢ b'[') × (c ≢ b']') × (c ≢ b'#')) s

pub record IsStorable (r : TrustRecord) : Type 0 where
  pub host_ne : r.host ≢ []
  pub host_plain : IsHost r.host
  pub port_le : r.port ≤ port_max
  pub algorithm_ne : r.algorithm ≢ []
  pub algorithm_word : IsWord r.algorithm
  pub blob_ne : r.blob ≢ []
  pub blob_bytes : All (λ (c : ℕ). c < 256) r.blob

IsHost-IsWord : (s : Text) → IsHost s → IsWord s
IsHost-IsWord [] h = tt
IsHost-IsWord (c ∷ s) h = (h.0.0, IsHost-IsWord s h.1)

split_once-host :
    (s after : Text) → IsHost s → split_once b']' (s ++ (b']' ∷ after)) ≡ some (s, after)
unfolding split_once
split_once-host [] after h = refl
split_once-host (c ∷ s) after h = ground (arith, split_once-host s after h.1, h.0)

is_empty-ne : (s : Text) → s ≢ [] → is_empty s ≡ false
is_empty-ne [] n = absurd (n refl)
is_empty-ne (c ∷ s) n = refl

bracketed :
    (host : Text) (port : ℕ)
    → host ≢ []
    → IsHost host
    → port ≤ port_max
    → parse_host_pattern (b'[' ∷ (host ++ (b']' ∷ b':' ∷ to_decimal port))) ≡ parsed (host, port)
unfolding parse_host_pattern strip_prefix
bracketed host port n h l =
    let a = split_once-host host (b':' ∷ to_decimal port) h in
    let b = is_empty-ne host n in let c = parse_uint-to_decimal port_max port l in ground arith

plain :
    (host : Text)
    → host ≢ []
    → IsHost host
    → any (λ c. c == b':') host ≡ false
    → parse_host_pattern host ≡ parsed (host, 22)
unfolding parse_host_pattern strip_prefix
plain [] n h a = absurd (n refl)
plain (c ∷ s) n h a = ground (arith, h.0)

-- An endpoint is read back as it was written, whatever its port and also if it has colons.
parse_host_pattern-format :
    (host : Text) (port : ℕ)
    → host ≢ []
    → IsHost host
    → port ≤ port_max
    → parse_host_pattern (format_host_pattern host port) ≡ parsed (host, port)
unfolding format_host_pattern
parse_host_pattern-format host port n h l =
    elim (Bool-cases (not (port == 22) || any (λ c. c == b':') host)) [
      | inl b ↦ rw b (bracketed host port n h l)
      | inr b ↦ let e : port ≡ 22 = ground arith in rw b (rw e (plain host n h (ground arith)))
    ]

digits-IsWord : (s : Text) → All (λ (c : ℕ). is_digit c ≡ true) s → IsWord s
unfolding is_whitespace
digits-IsWord [] h = tt
digits-IsWord (c ∷ s) h = (ground (arith, h.0), digits-IsWord s h.1)

word_space : is_whitespace b'[' ≡ false
unfolding is_whitespace
word_space = refl

word_marks : (is_whitespace b']' ≡ false) × (is_whitespace b':' ≡ false)
unfolding is_whitespace
word_marks = (refl, refl)

-- The pattern that is written is one word, and no comment.
format_host_pattern-IsWord :
    (host : Text) (port : ℕ)
    → host ≢ []
    → IsHost host
    → IsWord (format_host_pattern host port)
      × (format_host_pattern host port ≢ [])
      × (starts_with_char b'#' (format_host_pattern host port) ≡ false)
unfolding format_host_pattern
format_host_pattern-IsWord [] port n h = absurd (n refl)
format_host_pattern-IsWord (c ∷ s) port n h =
    elim (Bool-cases (not (port == 22) || any (λ c. c == b':') (c ∷ s))) [
      | inl b ↦ rw b (
        (
          word_space,
          All-append _ (c ∷ s) (b']' ∷ b':' ∷ to_decimal port) (IsHost-IsWord (c ∷ s) h) (
            word_marks.0,
            (word_marks.1, digits-IsWord (to_decimal port) (to_decimal-digits port)),
          ),
        ),
        (λ e. cc),
        refl,
      )
      | inr b ↦ rw b (IsHost-IsWord (c ∷ s) h, (λ e. cc), ground (arith, h.0))
    ]

plain_padding :
    (s : Text) → All (λ (c : ℕ). (is_whitespace c ≡ false) × (c ≢ b'=')) s → drop_padding s ≡ s
unfolding drop_padding
plain_padding [] h = refl
plain_padding (c ∷ s) h = ground (arith, h.0)

plain-IsWord : (s : Text) → All (λ (c : ℕ). (is_whitespace c ≡ false) × (c ≢ b'=')) s → IsWord s
plain-IsWord [] h = tt
plain-IsWord (c ∷ s) h = (h.0.0, plain-IsWord s h.1)

trim_padding-plain :
    (s : Text) → All (λ (c : ℕ). (is_whitespace c ≡ false) × (c ≢ b'=')) s → trim_padding s ≡ s
unfolding trim_padding
trim_padding-plain s h = rw (plain_padding (reverse s) (All-reverse _ s h)) (reverse-reverse s)

module _ (base64 : Base64) where
  open base64 use {encode, decode, decode-encode, encode-plain, encode-ne}

  parse_blob-encode :
      (b : List ℕ) → b ≢ [] → All (λ (c : ℕ). c < 256) b → parse_blob base64 (encode b) ≡ parsed b
  unfolding parse_blob
  parse_blob-encode b n h =
      let p = trim_padding-plain (encode b) (encode-plain b h) in
      let d = decode-encode b h in let e = is_empty-ne b n in ground arith

  parse_fields-format :
      (r : TrustRecord)
      → IsStorable r
      → parse_fields base64 (format_host_pattern r.host r.port) r.algorithm (encode r.blob)
        ≡ parsed (some r)
  unfolding parse_fields
  parse_fields-format r h =
      let p = parse_host_pattern-format r.host r.port h.host_ne h.host_plain h.port_le in
      let a = is_empty-ne r.algorithm h.algorithm_ne in
      let e = is_empty-ne (encode r.blob) (encode-ne r.blob h.blob_ne) in
      let b = parse_blob-encode r.blob h.blob_ne h.blob_bytes in ground arith

  -- A line that was written is read back as its record.
  pub parse_entry-format :
      (r : TrustRecord)
      → IsStorable r
      → parse_entry base64 (format_entry base64 r) ≡ parsed (some r)
  unfolding parse_entry format_entry
  parse_entry-format r h =
      let p = format_host_pattern r.host r.port in
      let e = encode r.blob in
      let w = format_host_pattern-IsWord r.host r.port h.host_ne h.host_plain in
      let ew = plain-IsWord e (encode-plain r.blob h.blob_bytes) in
      let en = encode-ne r.blob h.blob_ne in
      let m : Text = b' ' ∷ (r.algorithm ++ (b' ' ∷ [])) in
      let line : Text = p ++ (b' ' ∷ (r.algorithm ++ (b' ' ∷ e))) in
      let joined : p ++ (m ++ e) ≡ line =
        ap (λ (x : Text). p ++ (b' ' ∷ x)) (append_assoc r.algorithm (b' ' ∷ []) e) in
      let trimmed : trim line ≡ line = rw joined at (trim_words p m e w.0 ew w.1 en) in
      let parts =
        split_whitespace_three p r.algorithm e w.0 h.algorithm_word ew w.1 h.algorithm_ne en in
      let fields = parse_fields-format r h in
      let start = begins p (b' ' ∷ (r.algorithm ++ (b' ' ∷ e))) w.1 w.2 in ground arith
    where
      begins :
          (p s : Text)
          → p ≢ []
          → starts_with_char b'#' p ≡ false
          → (is_empty (p ++ s) ≡ false) × (starts_with_char b'#' (p ++ s) ≡ false)
      begins [] s n h = absurd (n refl)
      begins (c ∷ p) s n h = (refl, h)

  format_entry-IsLine : (r : TrustRecord) → IsStorable r → IsLine (format_entry base64 r)
  unfolding format_entry
  format_entry-IsLine r h =
      let w = format_host_pattern-IsWord r.host r.port h.host_ne h.host_plain in
      All-append _ (format_host_pattern r.host r.port)
        (b' ' ∷ (r.algorithm ++ (b' ' ∷ encode r.blob))) (IsWord-IsLine _ w.0)
        (
          (omega arith, omega arith),
          All-append _ r.algorithm (b' ' ∷ encode r.blob) (IsWord-IsLine _ h.algorithm_word) (
            (omega arith, omega arith),
            IsWord-IsLine _ (plain-IsWord _ (encode-plain r.blob h.blob_bytes)),
          ),
        )

  parse_lines-serialize :
      (index : ℕ) (rs : List TrustRecord)
      → All IsStorable rs
      → parse_lines base64 index (lines (serialize_records base64 rs)) ≡ parsed rs
  unfolding parse_lines serialize_records
  parse_lines-serialize index [] h = unfold lines in refl
  parse_lines-serialize index (r ∷ rs) h =
      let l =
        lines-line (format_entry base64 r) (serialize_records base64 rs)
          (format_entry-IsLine r h.0) in
      let e = parse_entry-format r h.0 in
      let ih = parse_lines-serialize (index + 1) rs h.1 in rw l (rw (e, parse_lines) (rw ih))

  -- The file that is written for storable records is read back as the same records in their order.
  pub parse_content-serialize :
      (rs : List TrustRecord)
      → All IsStorable rs
      → parse_content base64 (serialize_records base64 rs) ≡ parsed rs
  unfolding parse_content
  parse_content-serialize rs h = parse_lines-serialize 0 rs h
