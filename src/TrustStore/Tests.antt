-- ===== src/TrustStore/Tests.antt =====
-- The trust store of storage/trust_store.rs at concrete files.
use titan_ssh.Common.{
  ℕ, ◌<◌, ◌≡◌, refl, ◌≢◌, List, [], ◌∷◌, none, some, Text, All, arith, codes, is_whitespace, nat_eq,
  lines, split_whitespace, trim, to_decimal, ◌≤◌, strip_prefix, split_once, parse_uint,
}
use titan_ssh.Errors.{ok}
use titan_ssh.TrustStore.Samples.{codec, web, db, v6}
use titan_ssh.TrustStore.Records.{TrustRecord, parsed}
use titan_ssh.TrustStore.Format.{format_host_pattern, serialize_records, parse_content, port_max}
use titan_ssh.TrustStore.RoundTrip.{IsStorable, IsHost, parse_content-serialize}
use titan_ssh.TrustStore.State.{Store, unreadable, persist_fails, ensure_loaded, upsert, replaced}
use titan_ssh.TrustStore.Updates.{contents, AllOrNothing, upsert-AllOrNothing}

-- "db" again, with a new key.
abbrev rekeyed : TrustRecord
rekeyed = record db { blob = 8 ∷ [] }

abbrev kept : Store
kept = record { path = []; records = some (web ∷ db ∷ v6 ∷ []); file = unreadable [] }

abbrev broken : Store
broken = record { path = []; records = none; file = unreadable (101 ∷ []) }

format_examples :
    (format_host_pattern web.host web.port ≡ codes "web")
    × (format_host_pattern db.host db.port ≡ codes "[db]:2222")
    × (format_host_pattern v6.host v6.port ≡ codes "[::1]:22")
unfolding format_host_pattern codes to_decimal
format_examples = (refl, refl, refl)

-- A comment, a blank line, a carriage return and padding are all accepted.
content_example :
    parse_content codec (codes "# note\n\nweb k ABMI==\r\n[db]:2222 k AH") ≡ parsed (web ∷ db ∷ [])
unfolding parse_content codes lines trim split_whitespace is_whitespace strip_prefix split_once
    parse_uint
content_example = refl

IsStorable-key :
    (host : Text)
    → (port : ℕ) → (b : List ℕ) → host ≢ []
    → IsHost host
    → port ≤ port_max
    → b ≢ []
    → All (λ (c : ℕ). c < 256) b
    → IsStorable (record { host = host; port = port; algorithm = 107 ∷ []; blob = b })
unfolding is_whitespace
IsStorable-key host port b host_ne host_plain port_le blob_ne blob_bytes = record {
  host_ne = host_ne;
  host_plain = host_plain;
  port_le = port_le;
  algorithm_ne = λ e. cc;
  algorithm_word = ground arith;
  blob_ne = blob_ne;
  blob_bytes = blob_bytes;
}

storable : IsStorable web × IsStorable db × IsStorable v6 × IsStorable rekeyed
unfolding is_whitespace
storable = (
  IsStorable-key web.host 22 web.blob (λ e. cc) (ground arith) (omega arith) (λ e. cc)
      (omega arith),
  IsStorable-key db.host 2222 db.blob (λ e. cc) (ground arith) (omega arith) (λ e. cc)
      (omega arith),
  IsStorable-key v6.host 22 v6.blob (λ e. cc) (ground arith) (omega arith) (λ e. cc) (omega arith),
  IsStorable-key rekeyed.host 2222 rekeyed.blob (λ e. cc) (ground arith) (omega arith) (λ e. cc)
      (omega arith),
)

contents-kept : contents codec kept ≡ ok (web ∷ db ∷ v6 ∷ [])
unfolding ensure_loaded
contents-kept = refl

abbrev e_message : Text
e_message = 101 ∷ []

parse_content-serialize_example :
    parse_content codec (serialize_records codec (web ∷ db ∷ v6 ∷ [])) ≡ parsed (web ∷ db ∷ v6 ∷ [])
parse_content-serialize_example =
    parse_content-serialize codec (web ∷ db ∷ v6 ∷ []) (storable.0, (storable.1, (storable.2, tt)))

upsert-AllOrNothing_example :
    AllOrNothing codec kept
      (web ∷ db ∷ v6 ∷ [])
      (replaced rekeyed (web ∷ db ∷ v6 ∷ []))
      (upsert codec (persist_fails []) rekeyed kept)
upsert-AllOrNothing_example =
    upsert-AllOrNothing codec kept (web ∷ db ∷ v6 ∷ []) (persist_fails []) rekeyed contents-kept
