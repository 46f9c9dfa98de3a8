-- ===== src/TrustStore/Records.antt =====
-- storage/trust_store.rs: a trust record, and the codec that it is written with.
use titan_ssh.Common.{
  ℕ, ◌≡◌, refl, ◌⊎◌, inl, inr, ◌≢◌, ◌<◌, Bool, false, ◌&&◌, ◌==◌, nat_eq, text_eq, Text, [], List,
  All, is_whitespace,
}

pub record TrustRecord : Type 0 where
  pub host : Text
  pub port : ℕ
  pub algorithm : Text
  pub blob : List ℕ

unfoldable pub matches : TrustRecord → Text → ℕ → Text → List ℕ → Bool
matches r host port algorithm blob =
    r.host == host && r.port == port && r.algorithm == algorithm && r.blob == blob

-- A record for the endpoint.
abbrev pub is_for : Text → ℕ → TrustRecord → Bool
is_for host port r = r.host == host && r.port == port

-- `Result<A, String>`.
pub data Parse {ℓ} (A : Type ℓ) : Type ℓ where
  parsed : A → Parse A
  refused : Text → Parse A

pub Parse-cases {ℓ} :
    {A : Type ℓ} (r : Parse A) → ((a : A) × (r ≡ parsed a)) ⊎ ((e : Text) × (r ≡ refused e))
Parse-cases (parsed a) = inl (a, refl)
Parse-cases (refused e) = inr (e, refl)

infixl 5 ◌>>=◌
abbrev pub ◌>>=◌ {ℓ κ} : {A : Type ℓ} {B : Type κ} → Parse A → (A → Parse B) → Parse B
parsed a >>= f = f a
refused e >>= f = refused e

-- The crate `base64` with the engine `STANDARD_NO_PAD`, as far as the code relies on it: bytes are
-- read back, and the text is made of letters, digits, `+` and `/`, of at least one for some bytes.
pub record Base64 : Type 0 where
  pub encode : List ℕ → Text
  pub decode : Text → Parse (List ℕ)
  pub decode-encode : (b : List ℕ) → All (λ (c : ℕ). c < 256) b → decode (encode b) ≡ parsed b
  pub encode-plain :
      (b : List ℕ)
      → All (λ (c : ℕ). c < 256) b
      → All (λ (c : ℕ). (is_whitespace c ≡ false) × (c ≢ b'=')) (encode b)
  pub encode-ne : (b : List ℕ) → b ≢ [] → encode b ≢ []
