-- ===== src/HostIdentity/State.antt =====
-- core/host_identity.rs: the data of `HostIdentityService`. The decision cells, which a challenge
-- shares with its waiters, are a map from the id of the challenge; a cell that is not there is
-- `None`. `emitted` are the challenges that the front end was sent.
use titan_ssh.Common.{
  ℕ, ◌≡◌, ◌↔◌, Bool, true, ◌&&◌, List, [], ◌∷◌, Option, Text, codes, beq, beq_iff, text_eq, nat_eq,
  nat_beq, Eq, ◌==◌, arith, if◌then◌else◌, any, insert, remove,
}
use titan_ssh.TrustStore.State.{Store}

pub record PresentedHostKey : Type 0 where
  pub host : Text
  pub port : ℕ
  pub algorithm : Text
  pub fingerprint : Text
  pub blob : List ℕ

-- `ssh2::HostKeyType`.
pub data HostKeyType : Type 0 where
  rsa dss ecdsa256 ecdsa384 ecdsa521 ed25519 unknown_type : HostKeyType

unfoldable pub algorithm_name : HostKeyType → Text
algorithm_name rsa = codes "ssh-rsa"
algorithm_name dss = codes "ssh-dss"
algorithm_name ecdsa256 = codes "ecdsa-sha2-nistp256"
algorithm_name ecdsa384 = codes "ecdsa-sha2-nistp384"
algorithm_name ecdsa521 = codes "ecdsa-sha2-nistp521"
algorithm_name ed25519 = codes "ssh-ed25519"
algorithm_name unknown_type = codes "unknown"

pub data HostIdentityChallengeKind : Type 0 where
  unknown changed : HostIdentityChallengeKind

pub record HostIdentityChallenge : Type 0 where
  pub challenge_id : Text
  pub session_id : Text
  pub host : Text
  pub port : ℕ
  pub kind : HostIdentityChallengeKind
  pub key_algorithm : Text
  pub fingerprint : Text
  pub stored_algorithm : Option Text
  pub stored_fingerprint : Option Text
  pub timestamp : ℕ

pub data Decision : Type 0 where
  accepted rejected cancelled : Decision

pub record ChallengeWait : Type 0 where
  pub challenge : HostIdentityChallenge
  pub presented_blob : List ℕ

pub record IdentityKey : Type 0 where
  pub session_id : Text
  pub host : Text
  pub port : ℕ
  pub fingerprint : Text

unfoldable pub key_beq : IdentityKey → IdentityKey → Bool
key_beq a b =
    beq a.session_id b.session_id
    && beq a.host b.host
    && nat_beq a.port b.port
    && beq a.fingerprint b.fingerprint

pub key_beq_iff : (a b : IdentityKey) → (key_beq a b ≡ true) ↔ (a ≡ b)
unfolding key_beq
key_beq_iff a b = ground (
  arith,
  beq_iff a.session_id b.session_id,
  beq_iff a.host b.host,
  beq_iff a.fingerprint b.fingerprint,
)

instance abbrev pub key_eq : Eq IdentityKey
key_eq = record { eq = key_beq; eq_iff = key_beq_iff }

abbrev pub from_challenge : HostIdentityChallenge → IdentityKey
from_challenge c = record {
  session_id = c.session_id;
  host = c.host;
  port = c.port;
  fingerprint = c.fingerprint;
}

abbrev pub presented_key : Text → PresentedHostKey → IdentityKey
presented_key session_id presented = record {
  session_id = session_id;
  host = presented.host;
  port = presented.port;
  fingerprint = presented.fingerprint;
}

pub record HostIdentityService : Type 0 where
  pub trusted : List IdentityKey
  pub pending : List (Text × ChallengeWait)
  pub pending_index : List (IdentityKey × Text)
  pub cancelled : List Text
  pub trust_store : Option Store
  pub decisions : List (Text × Decision)
  pub emitted : List HostIdentityChallenge

unfoldable pub new : Option Store → HostIdentityService
new store = record {
  trusted = [];
  pending = [];
  pending_index = [];
  cancelled = [];
  trust_store = store;
  decisions = [];
  emitted = [];
}

-- `HashSet::contains` and `HashSet::insert`.
abbrev pub contains {ℓ} : {A : Type ℓ} ⦃e : Eq A⦄ → A → List A → Bool
contains a xs = any (λ x. x == a) xs

abbrev pub add {ℓ} : {A : Type ℓ} ⦃e : Eq A⦄ → A → List A → List A
add a xs = if contains a xs then xs else a ∷ xs

-- `HashMap::values`.
abbrev pub values {ℓ κ} : {K : Type ℓ} {V : Type κ} → List (K × V) → List V
values [] = []
values ((k, v) ∷ m) = v ∷ values m

-- Takes a challenge out of both maps.
unfoldable pub drop_wait : Text → ChallengeWait → HostIdentityService → HostIdentityService
drop_wait id w s = record s {
  pending = remove id s.pending;
  pending_index = remove (from_challenge w.challenge) s.pending_index;
}

unfoldable pub drop_waits : List ChallengeWait → HostIdentityService → HostIdentityService
unfolding drop_wait
drop_waits [] s = s
drop_waits (w ∷ ws) s = drop_waits ws (drop_wait w.challenge.challenge_id w s)

unfoldable pub decide : Decision → ChallengeWait → HostIdentityService → HostIdentityService
decide d w s = record s { decisions = insert w.challenge.challenge_id d s.decisions }

unfoldable pub decide_all :
    Decision → List ChallengeWait → HostIdentityService → HostIdentityService
unfolding decide
decide_all d [] s = s
decide_all d (w ∷ ws) s = decide_all d ws (decide d w s)
