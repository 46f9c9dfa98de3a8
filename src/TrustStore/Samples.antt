-- ===== src/TrustStore/Samples.antt =====
-- Test data for storage/trust_store.rs: records, and a codec that stands in for base64, with two
-- letters from `A` to `P` for a byte.
use titan_ssh.Common.{
  ℕ, ◌+◌, ◌-◌, ◌*◌, ◌/◌, ◌%◌, ◌<◌, ◌≡◌, refl, ◌≢◌, false, List, [], ◌∷◌, Text, All, arith, codes,
  is_whitespace,
}
use titan_ssh.TrustStore.Records.{TrustRecord, Parse, parsed, refused, Base64}

abbrev pub letters : List ℕ → Text
letters [] = []
letters (c ∷ b) = (65 + c / 16) ∷ (65 + c % 16) ∷ letters b

abbrev pub bytes : Text → Parse (List ℕ)
bytes [] = parsed []
bytes (x ∷ []) = refused (codes "odd length")
bytes (x ∷ y ∷ s) = elim (bytes s) [
  | parsed b ↦ parsed (((x - 65) * 16 + (y - 65)) ∷ b)
  | refused e ↦ refused e
]

pub bytes-letters : (b : List ℕ) → All (λ (c : ℕ). c < 256) b → bytes (letters b) ≡ parsed b
bytes-letters [] h = refl
bytes-letters (c ∷ b) h = ground (arith, bytes-letters b h.1)

pub letters-plain :
    (b : List ℕ)
    → All (λ (c : ℕ). c < 256) b
    → All (λ (c : ℕ). (is_whitespace c ≡ false) × (c ≢ b'=')) (letters b)
letters-plain [] h = tt
letters-plain (c ∷ b) h = (
  plain_letter (c / 16) (omega arith),
  (plain_letter (c % 16) (omega arith), letters-plain b h.1),
)
  where
    plain_letter : (k : ℕ) → k < 16 → (is_whitespace (65 + k) ≡ false) × (65 + k ≢ b'=')
    plain_letter k h = (unfold is_whitespace in ground arith, omega arith)

pub letters-ne : (b : List ℕ) → b ≢ [] → letters b ≢ []
letters-ne [] n = absurd (n refl)
letters-ne (c ∷ b) n = λ e. cc

abbrev pub codec : Base64
codec = record {
  encode = letters;
  decode = bytes;
  decode-encode = bytes-letters;
  encode-plain = letters-plain;
  encode-ne = letters-ne;
}

-- "web" on 22, "db" on 2222, and an IPv6 address on 22.
abbrev pub web : TrustRecord
web = record { host = 119 ∷ 101 ∷ 98 ∷ []; port = 22; algorithm = 107 ∷ []; blob = 1 ∷ 200 ∷ [] }

abbrev pub db : TrustRecord
db = record { host = 100 ∷ 98 ∷ []; port = 2222; algorithm = 107 ∷ []; blob = 7 ∷ [] }

abbrev pub v6 : TrustRecord
v6 = record { host = 58 ∷ 58 ∷ 49 ∷ []; port = 22; algorithm = 107 ∷ []; blob = 9 ∷ [] }
